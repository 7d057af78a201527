-- ===== src/Topology/PciIds.antt =====
-- The form of PCI bus ids.
use mathlib.Core.Path.{subst}
use cu_cascade.Base.{
  ℕ, suc, ◌≤◌, ◌≡◌, refl, sym, ap, ◌∙◌, false, Option, none, some, [], ◌∷◌, ◌++◌, map, ltb, ◌==◌,
  arith, length, Option-cases, Bool-cases, inl, inr, ◌⊎◌,
}
use cu_cascade.Base.Text.{Text, colon, break_at, tolower}
use cu_cascade.Base.Text.Parts.{IsFree, break_at_first}
use cu_cascade.Topology.{last_four, normalize_pci_bus_id}

IsFree-cons :
    (c x : ℕ) (xs a b : Text) (o : Option (Text × Text))
    → (x == c) ≡ false
    → ((a' b' : Text) → o ≡ some (a', b') → IsFree c a')
    → elim o as (λ y. Option (Text × Text)) [
      | none ↦ none
      | some (before, after) ↦ some (x ∷ before, after)
    ]
      ≡ some (a, b)
    → IsFree c a
IsFree-cons c x xs a b none h f e = cc
IsFree-cons c x xs a b (some (a', b')) h f e =
    let same : x ∷ a' ≡ a = cc in subst (IsFree c) same (h, f a' b' refl)

break_at-IsFree : (c : ℕ) (t a b : Text) → break_at c t ≡ some (a, b) → IsFree c a
break_at-IsFree c [] a b e = cc
break_at-IsFree c (x ∷ xs) a b e = elim (Bool-cases (x == c)) [
  | inl h ↦ let same : [] ≡ a = cc (rw h at e) in subst (IsFree c) same tt
  | inr h ↦
      IsFree-cons c x xs a b (break_at c xs) h (λ a' b'. break_at-IsFree c xs a' b') (rw h at e)
]

last_four_short : (t : Text) → length t ≤ 4 → last_four t ≡ t
last_four_short [] h = refl
last_four_short (c ∷ cs) h = ground arith

length-last_four : (t : Text) → length (last_four t) ≤ 4
length-last_four [] = omega arith
length-last_four (c ∷ cs) = elim (Bool-cases (ltb 3 (length cs))) [
  | inl h ↦ rw h (length-last_four cs)
  | inr h ↦ rw h (few c cs h)
]
  where
    few : (c : ℕ) (cs : Text) → ltb 3 (length cs) ≡ false → length (c ∷ cs) ≤ 4
    few c cs h = ground arith

last_four-IsFree : (c : ℕ) (t : Text) → IsFree c t → IsFree c (last_four t)
last_four-IsFree c [] h = tt
last_four-IsFree c (x ∷ xs) h = elim (Bool-cases (ltb 3 (length xs))) [
  | inl q ↦ rw q (last_four-IsFree c xs h.1)
  | inr q ↦ rw q h
]

tolower_twice : (c : ℕ) → tolower (tolower c) ≡ tolower c
tolower_twice c = ground arith

lower_twice : (t : Text) → map tolower (map tolower t) ≡ map tolower t
lower_twice [] = refl
lower_twice (c ∷ cs) = rw (tolower_twice c, lower_twice cs) refl

lower-append : (s t : Text) → map tolower (s ++ t) ≡ map tolower s ++ map tolower t
lower-append [] t = refl
lower-append (c ∷ cs) t = ap (λ x. tolower c ∷ x) (lower-append cs t)

length-lower : (t : Text) → length (map tolower t) ≡ length t
length-lower [] = refl
length-lower (c ∷ cs) = ap suc (length-lower cs)

not_colon : (c : ℕ) → (c == colon) ≡ false → (tolower c == colon) ≡ false
not_colon c h = ground arith

lower-IsFree : (t : Text) → IsFree colon t → IsFree colon (map tolower t)
lower-IsFree [] h = tt
lower-IsFree (c ∷ cs) h = (not_colon c h.0, lower-IsFree cs h.1)

-- The id with its domain cut and in lower case: what `normalize_pci_bus_id` makes of one with a colon.
normalized : (domain rest : Text) → Text
normalized domain rest = map tolower (last_four domain ++ colon ∷ rest)

normalized_parts :
    (domain rest : Text)
    → normalized domain rest ≡ map tolower (last_four domain) ++ colon ∷ map tolower rest
unfolding normalized
normalized_parts domain rest = lower-append (last_four domain) (colon ∷ rest)

break_at-normalized :
    (domain rest : Text)
    → IsFree colon domain
    → break_at colon (normalized domain rest)
      ≡ some (map tolower (last_four domain), map tolower rest)
break_at-normalized domain rest h =
    ap (break_at colon) (normalized_parts domain rest)
    ∙ break_at_first colon (map tolower (last_four domain)) (map tolower rest)
        (lower-IsFree (last_four domain) (last_four-IsFree colon domain h))

normalize_some :
    (t a b : Text) → break_at colon t ≡ some (a, b) → normalize_pci_bus_id t ≡ normalized a b
unfolding normalize_pci_bus_id normalized
normalize_some t a b h = rw (normalize_pci_bus_id, h) refl

normalize_none : (t : Text) → break_at colon t ≡ none → normalize_pci_bus_id t ≡ t
unfolding normalize_pci_bus_id
normalize_none t h = rw (normalize_pci_bus_id, h) refl

-- A normalized id stays as it is.
normalized_again :
    (domain rest : Text)
    → IsFree colon domain
    → normalize_pci_bus_id (normalized domain rest) ≡ normalized domain rest
unfolding normalized
normalized_again domain rest h =
    let d = map tolower (last_four domain) in
    normalize_some (normalized domain rest) d (map tolower rest) (break_at-normalized domain rest h)
    ∙ ap (λ x. map tolower (x ++ colon ∷ map tolower rest))
        (last_four_short d (rw (length-lower (last_four domain)) (length-last_four domain)))
    ∙ ap (map tolower) (sym (normalized_parts domain rest))
    ∙ lower_twice (last_four domain ++ colon ∷ rest)

-- What `normalize_pci_bus_id` returns it returns again: the ids of NVML and of sysfs have one normal form. The form of an
-- id without a colon is the id; that of another has at most four characters before its first colon.
pub normalize_twice :
    (t : Text)
    → (normalize_pci_bus_id (normalize_pci_bus_id t) ≡ normalize_pci_bus_id t)
      × ((break_at colon t ≡ none) × (normalize_pci_bus_id t ≡ t)
          ⊎ ((d : Text) × (r : Text) × (break_at colon (normalize_pci_bus_id t) ≡ some (d, r))
              × (length d ≤ 4)))
normalize_twice t = elim (Option-cases (break_at colon t)) [
  | inl h ↦ (ap normalize_pci_bus_id (normalize_none t h), inl (h, normalize_none t h))
  | inr ((a, b), h) ↦
      let free = break_at-IsFree colon t a b h in
      let e = normalize_some t a b h in
      (
        ap normalize_pci_bus_id e ∙ normalized_again a b free ∙ sym e,
        inr (
          map tolower (last_four a),
          map tolower b,
          ap (break_at colon) e ∙ break_at-normalized a b free,
          rw (length-lower (last_four a)) (length-last_four a),
        ),
      )
]
