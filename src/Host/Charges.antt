-- ===== src/Host/Charges.antt =====
-- The accounts of the host resource: what it counts as allocated is, for each reservation, the larger of
-- its size and of what is allocated from it, and the allocations that belong to no live reservation.
use cu_cascade.Base.{
  ℕ, ◌+◌, ◌^◌, ◌≤◌, ◌<◌, ◌≡◌, some, List, [], ◌∷◌, max, arith, sum_of, All, ◌==◌, Bool-cases, inl,
  inr,
}
use cu_cascade.Base.Int.{pos, pos_part}
use cu_cascade.Host.{Slot, HostResource, find_slot, put_slot, erase_slot}

-- The sizes of a slot are no negative numbers.
abbrev pub IsCounted : Slot → Type 0
IsCounted s =
    (s.size ≡ pos (pos_part s.size)) × (s.allocated_bytes ≡ pos (pos_part s.allocated_bytes))

abbrev pub charge : Slot → ℕ
charge s = max (pos_part s.size) (pos_part s.allocated_bytes)

-- `loose` is what is allocated outside of the live reservations.
pub record Inv (loose : ℕ) (r : HostResource) : Type 0 where
  pub accounted : r.allocated_bytes ≡ sum_of charge r.active_reservations + loose
  pub limited : r.allocated_bytes ≤ max r.memory_limit r.memory_capacity
  pub small : max r.memory_limit r.memory_capacity < 2 ^ 62
  pub counted : All IsCounted r.active_reservations

pub find-counted :
    (ss : List Slot) (id : ℕ) (s : Slot) → find_slot ss id ≡ some s → All IsCounted ss → IsCounted s
find-counted [] id s e h = cc
find-counted (x ∷ ss) id s e h = ground (arith, find-counted ss id s)

pub find-uuid : (ss : List Slot) (id : ℕ) (s : Slot) → find_slot ss id ≡ some s → s.uuid ≡ id
find-uuid [] id s e = cc
find-uuid (x ∷ ss) id s e = ground (arith, find-uuid ss id s)

pub charge-le :
    (ss : List Slot) (id : ℕ) (s : Slot) → find_slot ss id ≡ some s → charge s ≤ sum_of charge ss
charge-le [] id s e = cc
charge-le (x ∷ ss) id s e = ground (arith, charge-le ss id s)

pub put-sum :
    (ss : List Slot) (s t : Slot)
    → find_slot ss t.uuid ≡ some s
    → sum_of charge (put_slot ss t) + charge s ≡ sum_of charge ss + charge t
put-sum [] s t e = cc
put-sum (x ∷ ss) s t e = ground (arith, put-sum ss s t)

pub put-counted :
    (ss : List Slot) (t : Slot) → All IsCounted ss → IsCounted t → All IsCounted (put_slot ss t)
put-counted [] t h k = tt
put-counted (x ∷ ss) t h k = elim (Bool-cases (x.uuid == t.uuid)) [
  | inl e ↦ rw e (k, h.1)
  | inr e ↦ rw e (h.0, put-counted ss t h.1 k)
]

pub find-put :
    (ss : List Slot) (s t : Slot)
    → find_slot ss t.uuid ≡ some s
    → find_slot (put_slot ss t) t.uuid ≡ some t
find-put [] s t e = cc
find-put (x ∷ ss) s t e = elim (Bool-cases (x.uuid == t.uuid)) [
  | inl h ↦ ground arith
  | inr h ↦ ground (arith, find-put ss s t)
]

pub erase-sum :
    (ss : List Slot) (id : ℕ) (s : Slot)
    → find_slot ss id ≡ some s
    → sum_of charge (erase_slot ss id) + charge s ≡ sum_of charge ss
erase-sum [] id s e = cc
erase-sum (x ∷ ss) id s e = ground (arith, erase-sum ss id s)

pub erase-counted : (ss : List Slot) (id : ℕ) → All IsCounted ss → All IsCounted (erase_slot ss id)
erase-counted [] id h = tt
erase-counted (x ∷ ss) id h = elim (Bool-cases (x.uuid == id)) [
  | inl e ↦ rw e h.1
  | inr e ↦ rw e (h.0, erase-counted ss id h.1)
]

-- A slot's numbers are small.
pub slot_small :
    (loose : ℕ) (r : HostResource) (id : ℕ) (s : Slot)
    → Inv loose r
    → find_slot r.active_reservations id ≡ some s
    → IsCounted s × (charge s ≤ r.allocated_bytes) × (r.allocated_bytes < 2 ^ 62)
slot_small loose r id s v f = (
  find-counted r.active_reservations id s f v.counted,
  omega (arith, charge-le r.active_reservations id s f, v.accounted),
  omega (arith, v.limited, v.small),
)

-- A slot that changes its charge; what the resource counts beyond that change is loose.
pub put-Inv :
    (loose loose' : ℕ) (r r' : HostResource) (s t : Slot)
    → Inv loose r
    → find_slot r.active_reservations t.uuid ≡ some s
    → IsCounted t
    → r'.allocated_bytes + charge s + loose ≡ r.allocated_bytes + charge t + loose'
    → r'.allocated_bytes ≤ max r.memory_limit r.memory_capacity
    → r'.memory_limit ≡ r.memory_limit
    → r'.memory_capacity ≡ r.memory_capacity
    → r'.active_reservations ≡ put_slot r.active_reservations t
    → Inv loose' r'
put-Inv loose loose' r r' s t v f k e b l c a = record {
  accounted = rw a (omega (arith, v.accounted, put-sum r.active_reservations s t f));
  limited = rw (l, c) b;
  small = rw (l, c) v.small;
  counted = rw a (put-counted r.active_reservations t v.counted k);
}
