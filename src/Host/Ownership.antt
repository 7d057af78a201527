-- ===== src/Host/Ownership.antt =====
-- The allocations of a host resource that clients own, and the bytes that the slots count for them.
pub mod Sums
pub mod Calls
pub mod Requests
pub mod Destroyed
pub mod Reserved
use cu_cascade.Base.{
  ℕ, ◌*◌, ◌≤◌, ◌≡◌, refl, Option, none, some, List, [], ◌∷◌, arith, false, ◌==◌, Bool-cases, inl,
  inr, length, sum_of, if◌then◌else◌,
}
use cu_cascade.Base.Int.{pos_part}
use cu_cascade.Host.{Slot, HostResource, find_slot, put_slot, erase_slot, Allocation}

abbrev pub bytes : ℕ → Allocation → ℕ
bytes size a = length a.blocks * size

-- The bytes of an allocation that point to the given arena.
abbrev pub pointing : ℕ → Option ℕ → ℕ → ℕ
pointing n none id = 0
pointing n (some j) id = if j == id then n else 0

abbrev pub bytes_of : ℕ → List Allocation → ℕ → ℕ
bytes_of size live id = sum_of (λ a. pointing (bytes size a) a.reserved_memory id) live

abbrev pub unfound : Option Slot → ℕ → ℕ
unfound none n = n
unfound (some s) n = 0

-- The bytes of an allocation that no live slot counts.
abbrev pub stray : List Slot → ℕ → Option ℕ → ℕ
stray ss n none = n
stray ss n (some j) = unfound (find_slot ss j) n

abbrev pub strays : ℕ → List Slot → List Allocation → ℕ
strays size ss live = sum_of (λ a. stray ss (bytes size a) a.reserved_memory) live

abbrev pub Distinct : List Slot → Type 0
Distinct [] = Unit
Distinct (s ∷ ss) = (find_slot ss s.uuid ≡ none) × Distinct ss

-- Each slot counts at least the bytes of the allocations that point to it, and what points to none is
-- loose. An arena that is still to come has no slot and no allocation.
pub record Covered (live : List Allocation) (loose : ℕ) (r : HostResource) : Type 0 where
  pub covered :
      (id : ℕ) (s : Slot)
      → find_slot r.active_reservations id ≡ some s
      → bytes_of r.block_size live id ≤ pos_part s.allocated_bytes
  pub strayed : strays r.block_size r.active_reservations live ≤ loose
  pub fresh :
      (id : ℕ)
      → r.next_uuid ≤ id
      → (find_slot r.active_reservations id ≡ none) × (bytes_of r.block_size live id ≡ 0)
  pub distinct : Distinct r.active_reservations

pub find-put_other :
    (ss : List Slot) (t : Slot) (id : ℕ)
    → (t.uuid == id) ≡ false
    → find_slot (put_slot ss t) id ≡ find_slot ss id
find-put_other [] t id e = refl
find-put_other (x ∷ ss) t id e = elim (Bool-cases (x.uuid == t.uuid)) [
  | inl h ↦ ground arith
  | inr h ↦ ground (arith, find-put_other ss t id e)
]

-- A slot is put in the place of one of the same uuid: nothing is found that was not before.
pub put-none :
    (ss : List Slot) (t : Slot) (id : ℕ)
    → find_slot ss id ≡ none
    → find_slot (put_slot ss t) id ≡ none
put-none [] t id e = refl
put-none (x ∷ ss) t id e = elim (Bool-cases (x.uuid == t.uuid)) [
  | inl h ↦ ground arith
  | inr h ↦ ground (arith, put-none ss t id)
]

pub put-none_back :
    (ss : List Slot) (t : Slot) (id : ℕ)
    → find_slot (put_slot ss t) id ≡ none
    → find_slot ss id ≡ none
put-none_back [] t id e = refl
put-none_back (x ∷ ss) t id e = elim (Bool-cases (x.uuid == t.uuid)) [
  | inl h ↦ ground arith
  | inr h ↦ ground (arith, put-none_back ss t id)
]

pub erase-none :
    (ss : List Slot) (j id : ℕ) → find_slot ss id ≡ none → find_slot (erase_slot ss j) id ≡ none
erase-none [] j id e = refl
erase-none (x ∷ ss) j id e = elim (Bool-cases (x.uuid == j)) [
  | inl h ↦ ground arith
  | inr h ↦ ground (arith, erase-none ss j id)
]

pub find-erase_other :
    (ss : List Slot) (j id : ℕ)
    → (j == id) ≡ false
    → find_slot (erase_slot ss j) id ≡ find_slot ss id
find-erase_other [] j id e = refl
find-erase_other (x ∷ ss) j id e = elim (Bool-cases (x.uuid == j)) [
  | inl h ↦ ground arith
  | inr h ↦ ground (arith, find-erase_other ss j id e)
]

pub find-erase : (ss : List Slot) (j : ℕ) → Distinct ss → find_slot (erase_slot ss j) j ≡ none
find-erase [] j d = refl
find-erase (x ∷ ss) j d = elim (Bool-cases (x.uuid == j)) [
  | inl h ↦ ground (arith, d.0)
  | inr h ↦ ground (arith, find-erase ss j d.1)
]

pub put-Distinct : (ss : List Slot) (t : Slot) → Distinct ss → Distinct (put_slot ss t)
put-Distinct [] t d = tt
put-Distinct (x ∷ ss) t d = elim (Bool-cases (x.uuid == t.uuid)) [
  | inl h ↦ rw h (ground (arith, d.0), d.1)
  | inr h ↦ rw h (put-none ss t x.uuid d.0, put-Distinct ss t d.1)
]

pub erase-Distinct : (ss : List Slot) (j : ℕ) → Distinct ss → Distinct (erase_slot ss j)
erase-Distinct [] j d = tt
erase-Distinct (x ∷ ss) j d = elim (Bool-cases (x.uuid == j)) [
  | inl h ↦ rw h d.1
  | inr h ↦ rw h (erase-none ss j x.uuid d.0, erase-Distinct ss j d.1)
]
