-- ===== src/Manager/Lookup.antt =====
-- The tables agree with the spaces, and the candidates with what their strategy asks for.
use cu_cascade.Base.{
  ◌≡◌, refl, sym, ap, ◌∙◌, Bool, true, false, List, [], ◌∷◌, ◌++◌, if◌then◌else◌, Bool-cases, inl,
  inr,
}
use cu_cascade.Batch.{Tier, gpu, host, disk, tier_eq}
use cu_cascade.Space.{MemorySpace}
use cu_cascade.Manager.{
  Manager, find_tier, push_tier, index_space, index_spaces, build_lookup_tables,
  get_memory_spaces_for_tier, filter,
}

abbrev pub in_tier : Tier → MemorySpace → Bool
in_tier tier s = tier_eq s.id.tier tier

pub tier_eq_sound : (a b : Tier) → tier_eq a b ≡ true → a ≡ b
unfolding tier_eq
tier_eq_sound gpu gpu e = refl
tier_eq_sound gpu host e = cc
tier_eq_sound gpu disk e = cc
tier_eq_sound gpu Tier.size e = cc
tier_eq_sound host gpu e = cc
tier_eq_sound host host e = refl
tier_eq_sound host disk e = cc
tier_eq_sound host Tier.size e = cc
tier_eq_sound disk gpu e = cc
tier_eq_sound disk host e = cc
tier_eq_sound disk disk e = refl
tier_eq_sound disk Tier.size e = cc
tier_eq_sound Tier.size gpu e = cc
tier_eq_sound Tier.size host e = cc
tier_eq_sound Tier.size disk e = cc
tier_eq_sound Tier.size Tier.size e = refl

tier_eq_same : (a b c : Tier) → tier_eq a b ≡ true → tier_eq a c ≡ tier_eq b c
tier_eq_same a b c e = ap (λ x. tier_eq x c) (tier_eq_sound a b e)

tier_eq_other : (a b c : Tier) → tier_eq a b ≡ false → tier_eq a c ≡ true → tier_eq b c ≡ false
tier_eq_other a b c e f = elim (Bool-cases (tier_eq b c)) [
  | inl g ↦ let same : tier_eq a b ≡ tier_eq a c = ap (tier_eq a) (tier_eq_sound b c g) in cc
  | inr g ↦ g
]

find-push :
    (table : List (Tier × List MemorySpace)) (k t : Tier) (s : MemorySpace)
    → find_tier (push_tier table k s) t
      ≡ (if tier_eq k t then find_tier table t ++ s ∷ [] else find_tier table t)
find-push [] k t s = refl
find-push ((x, ss) ∷ table) k t s = elim (Bool-cases (tier_eq x k)) [
  | inl e ↦ elim (Bool-cases (tier_eq k t)) [
    | inl f ↦ rw (e, f, tier_eq_same x k t e ∙ f) refl
    | inr f ↦ rw (e, f, tier_eq_same x k t e ∙ f) refl
  ]
  | inr e ↦ elim (Bool-cases (tier_eq x t)) [
    | inl f ↦ rw (e, f, tier_eq_other x k t e f) refl
    | inr f ↦ rw (e, f) (find-push table k t s)
  ]
]

append-nil : (xs : List MemorySpace) → xs ++ [] ≡ xs
append-nil [] = refl
append-nil (x ∷ xs) = ap (λ ys. x ∷ ys) (append-nil xs)

append_assoc : (xs ys zs : List MemorySpace) → (xs ++ ys) ++ zs ≡ xs ++ (ys ++ zs)
append_assoc [] ys zs = refl
append_assoc (x ∷ xs) ys zs = ap (λ ws. x ∷ ws) (append_assoc xs ys zs)

indexed :
    (m : Manager) (ss : List MemorySpace) (t : Tier)
    → find_tier (index_spaces m ss).tier_to_memory_spaces t
      ≡ find_tier m.tier_to_memory_spaces t ++ filter (in_tier t) ss
indexed m [] t = sym (append-nil (find_tier m.tier_to_memory_spaces t))
indexed m (s ∷ ss) t = elim (Bool-cases (tier_eq s.id.tier t)) [
  | inl e ↦ rw (e) (
      indexed (index_space m s) ss t
      ∙ ap (λ xs. xs ++ filter (in_tier t) ss)
          (find-push m.tier_to_memory_spaces s.id.tier t s ∙ rw e refl)
      ∙ append_assoc (find_tier m.tier_to_memory_spaces t) (s ∷ []) (filter (in_tier t) ss))
  | inr e ↦ rw (e) (
      indexed (index_space m s) ss t
      ∙ ap (λ xs. xs ++ filter (in_tier t) ss)
          (find-push m.tier_to_memory_spaces s.id.tier t s ∙ rw e refl))
]

-- The spaces that the manager lists for a tier are exactly those of the tier, in the order in which they
-- were configured.
pub tier_table :
    (spaces : List MemorySpace) (t : Tier)
    → get_memory_spaces_for_tier (build_lookup_tables spaces) t ≡ filter (in_tier t) spaces
unfolding get_memory_spaces_for_tier build_lookup_tables
tier_table spaces t = indexed _ spaces t
