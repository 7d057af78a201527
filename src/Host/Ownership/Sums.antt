-- ===== src/Host/Ownership/Sums.antt =====
-- Sums over the allocations that clients own.
use cu_cascade.Base.{
  ℕ, ◌+◌, ◌≤◌, ◌≡◌, refl, ap, Option, none, some, List, [], ◌∷◌, arith, ◌==◌, Bool-cases, inl, inr,
  sum_of,
}
use cu_cascade.Base.Int.{pos_part}
use cu_cascade.Host.{Slot, find_slot, erase_slot, Allocation}
use cu_cascade.Host.Charges.{charge}
use cu_cascade.Host.Ownership.{
  bytes, pointing, bytes_of, unfound, stray, strays, Distinct, find-erase_other,
}

pub sum_of-le_add :
    {A : Type 0} (u v w : A → ℕ)
    → ((a : A) → u a ≤ v a + w a)
    → (xs : List A) → sum_of u xs ≤ sum_of v xs + sum_of w xs
sum_of-le_add u v w h [] = omega arith
sum_of-le_add u v w h (x ∷ xs) = omega (arith, h x, sum_of-le_add u v w h xs)

sum_of-le :
    {A : Type 0} (u v : A → ℕ) → ((a : A) → u a ≤ v a) → (xs : List A) → sum_of u xs ≤ sum_of v xs
sum_of-le u v h [] = omega arith
sum_of-le u v h (x ∷ xs) = omega (arith, h x, sum_of-le u v h xs)

stray_mono :
    (ss ss' : List Slot)
    → ((id : ℕ) → find_slot ss' id ≡ none → find_slot ss id ≡ none)
    → (n : ℕ) (o : Option ℕ) → stray ss' n o ≤ stray ss n o
stray_mono ss ss' h n none = omega arith
stray_mono ss ss' h n (some j) = go (find_slot ss' j) (h j)
  where
    go : (o : Option Slot) → (o ≡ none → find_slot ss j ≡ none) → unfound o n ≤ stray ss n (some j)
    go none k = rw (k refl) (omega arith)
    go (some s) k = omega arith

-- Where no more arenas are missing, no more is stray.
pub strays_mono :
    (size : ℕ) (ss ss' : List Slot) (live : List Allocation)
    → ((id : ℕ) → find_slot ss' id ≡ none → find_slot ss id ≡ none)
    → strays size ss' live ≤ strays size ss live
strays_mono size ss ss' live h =
    sum_of-le _ _ (λ a. stray_mono ss ss' h (bytes size a) a.reserved_memory) live

unfound-le : (o : Option Slot) (n : ℕ) → unfound o n ≤ n
unfound-le none n = omega arith
unfound-le (some s) n = omega arith

stray-erase :
    (ss : List Slot) (j n : ℕ) (o : Option ℕ)
    → stray (erase_slot ss j) n o ≤ stray ss n o + pointing n o j
stray-erase ss j n none = omega arith
stray-erase ss j n (some id) = elim (Bool-cases (id == j)) [
  | inl e ↦ rw e (omega (arith, unfound-le (find_slot (erase_slot ss j) id) n))
  | inr e ↦ rw (find-erase_other ss j id (ground arith)) (omega arith)
]

pub strays-erase :
    (size : ℕ) (ss : List Slot) (j : ℕ) (live : List Allocation)
    → strays size (erase_slot ss j) live ≤ strays size ss live + bytes_of size live j
strays-erase size ss j live =
    sum_of-le_add _ _ _ (λ a. stray-erase ss j (bytes size a) a.reserved_memory) live

sum_of-add :
    (u v : Slot → ℕ) (ss : List Slot)
    → sum_of (λ (s : Slot). u s + v s) ss ≡ sum_of u ss + sum_of v ss
sum_of-add u v [] = refl
sum_of-add u v (s ∷ ss) = omega (arith, sum_of-add u v ss)

-- An allocation is stray or some slot counts it.
stray-or-counted :
    (ss : List Slot) (n : ℕ) (o : Option ℕ)
    → n ≤ stray ss n o + sum_of (λ (s : Slot). pointing n o s.uuid) ss
stray-or-counted [] n none = omega arith
stray-or-counted [] n (some j) = omega arith
stray-or-counted (s ∷ ss) n none = omega arith
stray-or-counted (s ∷ ss) n (some j) = elim (Bool-cases (s.uuid == j)) [
  | inl e ↦ ground arith
  | inr e ↦ ground (arith, stray-or-counted ss n (some j))
]

pub all_counted :
    (size : ℕ) (ss : List Slot) (live : List Allocation)
    → sum_of (bytes size) live
      ≤ strays size ss live + sum_of (λ (s : Slot). bytes_of size live s.uuid) ss
all_counted size ss [] = omega arith
all_counted size ss (a ∷ live) = omega (
  arith,
  all_counted size ss live,
  stray-or-counted ss (bytes size a) a.reserved_memory,
  sum_of-add (λ s. pointing (bytes size a) a.reserved_memory s.uuid)
      (λ s. bytes_of size live s.uuid) ss,
)

-- What is so of each slot that is found bounds the charges.
pub charges-cover :
    (w : ℕ → ℕ) (ss : List Slot)
    → Distinct ss
    → ((id : ℕ) (s : Slot) → find_slot ss id ≡ some s → w id ≤ pos_part s.allocated_bytes)
    → sum_of (λ (s : Slot). w s.uuid) ss ≤ sum_of charge ss
charges-cover w [] d h = omega arith
charges-cover w (x ∷ ss) d h =
    omega (arith, h x.uuid x (ground arith), charges-cover w ss d.1 later)
  where
    later : (id : ℕ) (s : Slot) → find_slot ss id ≡ some s → w id ≤ pos_part s.allocated_bytes
    later id s e = elim (Bool-cases (x.uuid == id)) [
      | inl k ↦
          let same : x.uuid ≡ id = ground arith in
          absurd (ground (arith, d.0, ap (find_slot ss) same))
      | inr k ↦ h id s (ground arith)
    ]
