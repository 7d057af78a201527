-- ===== src/Host/Blocks.antt =====
-- Allocations of blocks, and the accounts.
use mathlib.Core.Path.{subst}
use cu_cascade.Base.{
  ℕ, ◌+◌, ◌/◌, ◌^◌, ◌≤◌, ◌<◌, ◌≡◌, refl, ap, ◌∙◌, ◌⊎◌, Option, none, some, List, [], ◌∷◌, arith,
  false, ◌==◌, Bool-cases, inl, inr, Result, ok, err, out_of_memory,
}
use cu_cascade.Base.Words.{add64_exact}
use cu_cascade.Base.Int.{pos_part, to_i64, add_i64, sub_i64}
use cu_cascade.Atomics.{try_add, no_room}
use cu_cascade.Host.{
  Slot, HostResource, find_slot, put_slot, Taking, take_blocks, Allocation, charge_slot,
  uncharge_slot, allocate_blocks, conclude,
}
use cu_cascade.Host.Amounts.{allocate_share, uncounted}
use cu_cascade.Host.Charges.{Inv, slot_small, put-Inv}
use cu_cascade.Host.Collecting.{Took, all_taken, threw, ran_out, take-Took}

pub put-put :
    (ss : List Slot) (s t : Slot) → s.uuid ≡ t.uuid → put_slot (put_slot ss s) t ≡ put_slot ss t
put-put [] s t e = refl
put-put (x ∷ ss) s t e = elim (Bool-cases (x.uuid == s.uuid)) [
  | inl h ↦ ground arith
  | inr h ↦ ground (arith, put-put ss s t e)
]

-- The slot that an allocation is made from, if any, is live.
abbrev pub IsLive : HostResource → Option Slot → Type 0
IsLive r none = Unit
IsLive r (some s) = find_slot r.active_reservations s.uuid ≡ some s

-- What an allocation adds to the loose bytes: all of it, with no reservation, unless it was refused. An
-- exception of the upstream resource leaves the charge.
abbrev pub loosened : Option Slot → ℕ → Result (Option Allocation) → ℕ
loosened none total (ok none) = 0
loosened none total (ok (some a)) = total
loosened none total (err e) = total
loosened (some s) total out = 0

-- The resource once the charge is made, up to blocks and peak.
pub record Charged (r : HostResource) (slot : Option Slot) (total : ℕ) (r' : HostResource)
    : Type 0 where
  pub limit : r'.memory_limit ≡ r.memory_limit
  pub capacity : r'.memory_capacity ≡ r.memory_capacity
  pub bytes : r'.allocated_bytes ≡ r.allocated_bytes + (charge_slot r slot total).1
  pub fits : r'.allocated_bytes ≤ r.memory_capacity
  pub slots : r'.active_reservations ≡ (charge_slot r slot total).0.active_reservations

Charged-Inv :
    (loose total : ℕ) (r r' : HostResource) (slot : Option Slot)
    → Inv loose r
    → IsLive r slot
    → total < 2 ^ 62
    → Charged r slot total r'
    → Inv (loose + loosened slot total (err out_of_memory)) r'
Charged-Inv loose total r r' none v f w c = record {
  accounted = rw c.slots (omega (arith, c.bytes, v.accounted));
  limited = rw (c.limit, c.capacity) (omega (arith, c.fits));
  small = rw (c.limit, c.capacity) v.small;
  counted = rw c.slots v.counted;
}
Charged-Inv loose total r r' (some s) v f w c =
    let (k, below, small) = slot_small loose r s.uuid s v f in
    let (post, share) = allocate_share s.size s.allocated_bytes total k.0 k.1 (omega arith) in
    put-Inv loose (loose + 0) r r' s
      (record s { allocated_bytes = add_i64 s.allocated_bytes (to_i64 total) }) v f
      (k.0, rw post refl) (omega (arith, ap pos_part post, share, c.bytes)) (omega (arith, c.fits))
      c.limit c.capacity c.slots

-- After the charge is taken back: as before.
uncharge-same :
    (loose total : ℕ) (r : HostResource) (slot : Option Slot)
    → Inv loose r
    → IsLive r slot
    → total < 2 ^ 62
    → Inv loose (uncharge_slot (charge_slot r slot total).0 slot total)
uncharge-same loose total r none v f w = v
uncharge-same loose total r (some s) v f w =
    let (k, below, small) = slot_small loose r s.uuid s v f in
    let back = uncounted s.allocated_bytes total k.1 (omega arith) in
    put-Inv loose loose r _ s
      (record s {
        allocated_bytes = sub_i64 (add_i64 s.allocated_bytes (to_i64 total)) (to_i64 total);
      })
      v f (k.0, rw back k.1) (omega (arith, ap pos_part back)) v.limited refl refl
      (put-put r.active_reservations _ _ refl)

pub room_fits :
    (current diff bound : ℕ) → no_room current diff bound ≡ false → current + diff ≤ bound
room_fits current diff bound h = ground arith

pub charge_slot-fields :
    (r : HostResource) (slot : Option Slot) (total : ℕ)
    → let q = (charge_slot r slot total).0 in
      (q.allocated_bytes ≡ r.allocated_bytes)
      × (q.memory_limit ≡ r.memory_limit)
      × (q.memory_capacity ≡ r.memory_capacity)
      × (q.pool_size ≡ r.pool_size)
      × (q.block_size ≡ r.block_size)
charge_slot-fields r none total = (refl, refl, refl, refl, refl)
charge_slot-fields r (some s) total = (refl, refl, refl, refl, refl)

pub loosened-ok :
    (slot : Option Slot) (total : ℕ) (a : Allocation)
    → loosened slot total (ok (some a)) ≡ loosened slot total (err out_of_memory)
loosened-ok none total a = refl
loosened-ok (some s) total a = refl

loosened-none : (slot : Option Slot) (total : ℕ) → loosened slot total (ok none) ≡ 0
loosened-none none total = refl
loosened-none (some s) total = refl

-- The charge is not affected by the blocks and the peak.
pub Charged-same :
    (r r1 r2 : HostResource) (slot : Option Slot) (total : ℕ)
    → Charged r slot total r1
    → r2.memory_limit ≡ r1.memory_limit
    → r2.memory_capacity ≡ r1.memory_capacity
    → r2.allocated_bytes ≡ r1.allocated_bytes
    → r2.active_reservations ≡ r1.active_reservations
    → Charged r slot total r2
Charged-same r r1 r2 slot total c l k b a = record {
  limit = l ∙ c.limit;
  capacity = k ∙ c.capacity;
  bytes = b ∙ c.bytes;
  fits = rw b c.fits;
  slots = a ∙ c.slots;
}

conclude-Inv :
    (loose total charged post n : ℕ) (r r1 : HostResource) (slot : Option Slot)
    (t : HostResource × Taking)
    → Inv loose r
    → IsLive r slot
    → total < 2 ^ 62
    → 0 < r1.pool_size
    → Charged r slot total r1
    → Took n r1 [] t
    → let o = conclude slot total charged post t in Inv (loose + loosened slot total o.1) o.0
conclude-Inv loose total charged post n r r1 slot _ v f w p c (all_taken r' bs s k) =
    rw (loosened-ok slot total) (
      Charged-Inv loose total r _ slot v f w
        (Charged-same r r1 _ slot total c s.limit s.capacity s.bytes s.slots))
conclude-Inv loose total charged post n r r1 slot _ v f w p c (threw r' s) =
    Charged-Inv loose total r _ slot v f w
      (Charged-same r r1 _ slot total c s.limit s.capacity s.bytes s.slots)
conclude-Inv loose total charged post n r r1 slot _ v f w p c (ran_out r' s z) =
    absurd (omega arith)

-- With the charge made, what the loop starts from.
abbrev pub charged_resource : HostResource → Option Slot → ℕ → HostResource
charged_resource r slot total =
    let (q, part) = charge_slot r slot total in
    record q { allocated_bytes = q.allocated_bytes + part }

pub charged_resource-Charged :
    (loose total : ℕ) (r : HostResource) (slot : Option Slot)
    → no_room
        (charge_slot r slot total).0.allocated_bytes
        (charge_slot r slot total).1
        (charge_slot r slot total).0.memory_capacity
      ≡ false
    → Charged r slot total (charged_resource r slot total)
charged_resource-Charged loose total r slot room =
    let (b, l, c, z, y) = charge_slot-fields r slot total in
    record {
      limit = l;
      capacity = c;
      bytes = ap (λ x. x + (charge_slot r slot total).1) b;
      fits = omega (
        arith,
        c,
        room_fits (charge_slot r slot total).0.allocated_bytes (charge_slot r slot total).1
            (charge_slot r slot total).0.memory_capacity room,
      );
      slots = refl;
    }

-- An allocation is refused, or it goes on to collect the blocks.
pub allocate_cases :
    (loose total : ℕ) (r : HostResource) (slot : Option Slot) (upstream : List (Option ℕ))
    → Inv loose r
    → (allocate_blocks r slot total upstream
        ≡ (uncharge_slot (charge_slot r slot total).0 slot total, ok none))
      ⊎ (Charged r slot total (charged_resource r slot total)
          × (allocate_blocks r slot total upstream
              ≡ conclude slot total
                  (charge_slot r slot total).1
                  (charged_resource r slot total).allocated_bytes
                  (take_blocks (total / r.block_size) (charged_resource r slot total) [] upstream)))
unfolding allocate_blocks try_add
allocate_cases loose total r slot upstream v =
    let q = charge_slot r slot total in
    elim (Bool-cases (no_room q.0.allocated_bytes q.1 q.0.memory_capacity)) [
      | inl full ↦ inl (rw (full, allocate_blocks) refl)
      | inr room ↦
          let c = charged_resource-Charged loose total r slot room in
          let exact = add64_exact q.0.allocated_bytes q.1 (omega (arith, c.fits, v.small)) in
          inr (c, rw (room, allocate_blocks, exact) refl)
    ]

-- An allocation keeps the accounts, with a pool size that is not 0 and a size below 2^62, from a live
-- reservation or from none. What it adds to the charges is loose if it has no reservation, also when
-- the upstream resource throws half-way: no path then takes the charge back.
pub allocate-Inv :
    (loose total : ℕ) (r : HostResource) (slot : Option Slot) (upstream : List (Option ℕ))
    → Inv loose r
    → IsLive r slot
    → total < 2 ^ 62
    → 0 < r.pool_size
    → let o = allocate_blocks r slot total upstream in Inv (loose + loosened slot total o.1) o.0
allocate-Inv loose total r slot upstream v f w p =
    elim (allocate_cases loose total r slot upstream v) [
      | inl e ↦
          rw (e, loosened-none slot total)
            (subst (λ l. Inv l (uncharge_slot (charge_slot r slot total).0 slot total)) {x = loose}
              (omega arith) (uncharge-same loose total r slot v f w))
      | inr (c, e) ↦ rw e (
          conclude-Inv loose total _ _ (total / r.block_size) r (charged_resource r slot total) slot
            _ v f w (rw (charge_slot-fields r slot total).3 p) c
            (take-Took (total / r.block_size) (charged_resource r slot total) [] upstream))
    ]
