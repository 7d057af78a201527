-- ===== src/Manager/Totals.antt =====
-- The totals over the spaces, and the order of the candidates.
use cu_cascade.Base.{
  ℕ, ◌+◌, ◌%◌, ◌<◌, ◌≡◌, refl, ◌∙◌, ◌⊎◌, inl, inr, Bool, true, false, not, List, [], ◌∷◌, ◌++◌,
  some, arith, All, Bool-cases, length, length-append, sum_of,
}
use cu_cascade.Base.Words.{word_size, add64}
use cu_cascade.Batch.{Tier, gpu, host, disk, tier_eq}
use cu_cascade.Space.{MemorySpace}
use cu_cascade.Space
use cu_cascade.Manager.{
  Manager, index_space, index_spaces, build_lookup_tables, get_memory_spaces_for_tier, filter,
  add_all, on_device, get_total_available_memory, get_available_memory_for_tier,
  get_total_reserved_memory, get_total_reserved_memory_for_tier, get_active_reservation_count,
  get_active_reservation_count_for_tier, get_candidates, any_memory_space_in_tier_with_preference,
}
use cu_cascade.Manager.Lookup.{in_tier, tier_table}

below : (a b : ℕ) → add64 a b < word_size
unfolding add64
below a b = omega arith

wraps : (a b : ℕ) → add64 a b ≡ (a + b) % word_size
unfolding add64
wraps a b = refl

added :
    (f : MemorySpace → ℕ) (total : ℕ) (ss : List MemorySpace)
    → total < word_size
    → add_all f total ss ≡ (total + sum_of f ss) % word_size
added f total [] h = omega arith
added f total (s ∷ ss) h =
    omega (arith, added f (add64 total (f s)) ss (below total (f s)), wraps total (f s))

-- The sum over the spaces, tier by tier.
abbrev pub tiers_sum : (Tier → ℕ) → ℕ
tiers_sum g = g gpu + g host + g disk + g Tier.size

split_by_tier :
    (f : MemorySpace → ℕ) (ss : List MemorySpace)
    → sum_of f ss ≡ tiers_sum (λ t. sum_of f (filter (in_tier t) ss))
unfolding tier_eq
split_by_tier f [] = refl
split_by_tier f (s ∷ ss) = go s.id.tier refl (split_by_tier f ss)
  where
    go :
        (t : Tier)
        → s.id.tier ≡ t
        → sum_of f ss ≡ tiers_sum (λ u. sum_of f (filter (in_tier u) ss))
        → f s + sum_of f ss ≡ tiers_sum (λ u. sum_of f (filter (in_tier u) (s ∷ ss)))
    go gpu e ih = rw e (omega (arith, ih))
    go host e ih = rw e (omega (arith, ih))
    go disk e ih = rw e (omega (arith, ih))
    go Tier.size e ih = rw e (omega (arith, ih))

spaces_kept :
    (m : Manager) (ss : List MemorySpace) → (index_spaces m ss).memory_spaces ≡ m.memory_spaces
spaces_kept m [] = refl
spaces_kept m (s ∷ ss) = spaces_kept (index_space m s) ss

total_of :
    (f : MemorySpace → ℕ) (spaces : List MemorySpace)
    → add_all f 0 (build_lookup_tables spaces).memory_spaces
      ≡ tiers_sum (λ t. add_all f 0 (get_memory_spaces_for_tier (build_lookup_tables spaces) t))
        % word_size
unfolding build_lookup_tables
total_of f spaces =
    rw
      (
        spaces_kept _ spaces,
        tier_table spaces gpu,
        tier_table spaces host,
        tier_table spaces disk,
        tier_table spaces Tier.size,
        added f 0 spaces (omega arith),
        added f 0 (filter (in_tier gpu) spaces) (omega arith),
        added f 0 (filter (in_tier host) spaces) (omega arith),
        added f 0 (filter (in_tier disk) spaces) (omega arith),
        added f 0 (filter (in_tier Tier.size) spaces) (omega arith),
      )
      (omega (arith, split_by_tier f spaces))

-- Over any configured spaces, the total of an amount is the sum of the amounts per tier, in 64-bit
-- arithmetic: of the available memory, of the reserved memory, and of the active reservations.
pub totals_by_tier :
    (spaces : List MemorySpace)
    → let m = build_lookup_tables spaces in
      (get_total_available_memory m ≡ tiers_sum (get_available_memory_for_tier m) % word_size)
      × (get_total_reserved_memory m ≡ tiers_sum (get_total_reserved_memory_for_tier m) % word_size)
      × (get_active_reservation_count m
          ≡ tiers_sum (get_active_reservation_count_for_tier m) % word_size)
unfolding get_total_available_memory get_total_reserved_memory get_active_reservation_count
    get_available_memory_for_tier get_total_reserved_memory_for_tier
    get_active_reservation_count_for_tier
totals_by_tier spaces = (
  total_of Space.get_available_memory spaces,
  total_of Space.get_total_reserved_memory spaces,
  total_of Space.get_active_reservation_count spaces,
)

-- No space that `p` refuses comes before one that it takes.
abbrev pub IsFirst : (MemorySpace → Bool) → List MemorySpace → Type 0
IsFirst p [] = Unit
IsFirst p (s ∷ ss) = ((p s ≡ true) ⊎ All (λ x. p x ≡ false) ss) × IsFirst p ss

refused_rest :
    (p : MemorySpace → Bool) (ss : List MemorySpace)
    → All (λ x. p x ≡ false) (filter (λ x. not (p x)) ss)
refused_rest p [] = tt
refused_rest p (s ∷ ss) = elim (Bool-cases (p s)) [
  | inl e ↦ rw e (refused_rest p ss)
  | inr e ↦ rw e (e, refused_rest p ss)
]

refused-IsFirst :
    (p : MemorySpace → Bool) (ss : List MemorySpace) → All (λ x. p x ≡ false) ss → IsFirst p ss
refused-IsFirst p [] h = tt
refused-IsFirst p (s ∷ ss) h = (inr h.1, refused-IsFirst p ss h.1)

append-IsFirst :
    (p : MemorySpace → Bool) (ss rest : List MemorySpace)
    → IsFirst p rest
    → IsFirst p (filter p ss ++ rest)
append-IsFirst p [] rest h = h
append-IsFirst p (s ∷ ss) rest h = elim (Bool-cases (p s)) [
  | inl e ↦ rw e (inl e, append-IsFirst p ss rest h)
  | inr e ↦ rw e (append-IsFirst p ss rest h)
]

filter-All :
    (P : MemorySpace → Type 0) (p : MemorySpace → Bool) (ss : List MemorySpace)
    → All P ss
    → All P (filter p ss)
filter-All P p [] h = tt
filter-All P p (s ∷ ss) h = elim (Bool-cases (p s)) [
  | inl e ↦ rw e (h.0, filter-All P p ss h.1)
  | inr e ↦ rw e (filter-All P p ss h.1)
]

append-All :
    (P : MemorySpace → Type 0) (xs ys : List MemorySpace) → All P xs → All P ys → All P (xs ++ ys)
append-All P [] ys h k = k
append-All P (x ∷ xs) ys h k = (h.0, append-All P xs ys h.1 k)

filter-holds :
    (p : MemorySpace → Bool) (ss : List MemorySpace) → All (λ x. p x ≡ true) (filter p ss)
filter-holds p [] = tt
filter-holds p (s ∷ ss) = elim (Bool-cases (p s)) [
  | inl e ↦ rw e (e, filter-holds p ss)
  | inr e ↦ rw e (filter-holds p ss)
]

partition-length :
    (p : MemorySpace → Bool) (ss : List MemorySpace)
    → length (filter p ss) + length (filter (λ x. not (p x)) ss) ≡ length ss
partition-length p [] = refl
partition-length p (s ∷ ss) = elim (Bool-cases (p s)) [
  | inl e ↦ rw e (omega (arith, partition-length p ss))
  | inr e ↦ rw e (omega (arith, partition-length p ss))
]

-- The candidates of a request for a tier with a preferred device are as many as the tier has spaces, all
-- of that tier, and none on another device comes before one on the preferred device.
pub candidates_preferred :
    (spaces : List MemorySpace) (t : Tier) (d : ℕ)
    → let m = build_lookup_tables spaces in
      let cs = get_candidates m (any_memory_space_in_tier_with_preference t (some d)) in
      (length cs ≡ length (get_memory_spaces_for_tier m t))
      × All (λ s. in_tier t s ≡ true) cs
      × IsFirst (on_device d) cs
unfolding get_candidates
candidates_preferred spaces t d =
    let p = on_device d in
    let xs = filter (in_tier t) spaces in
    let ok = filter-holds (in_tier t) spaces in
    rw (tier_table spaces t) (
      length-append {0} (filter p xs) (filter (λ s. not (p s)) xs) ∙ partition-length p xs,
      append-All (λ s. in_tier t s ≡ true) (filter p xs) (filter (λ s. not (p s)) xs)
          (filter-All _ p xs ok) (filter-All _ (λ s. not (p s)) xs ok),
      append-IsFirst p xs (filter (λ s. not (p s)) xs) (refused-IsFirst p _ (refused_rest p xs)),
    )
