-- ===== src/Host/Ownership/Requests.antt =====
-- Allocations and their destruction keep the slots above what points to them.
use native.Mathlib.Nat.{div-mul-le_self}
use cu_cascade.Base.{
  ℕ, ◌+◌, ◌*◌, ◌/◌, ◌^◌, ◌≤◌, ◌<◌, ◌≡◌, refl, sym, ap, ◌∙◌, Option, none, some, List, [], ◌∷◌,
  arith, inl, inr, length, Result, ok, err, erase_at, get_elem?, sum_of-erase_at, out_of_memory,
}
use cu_cascade.Base.Int.{pos_part, to_i64, add_i64, sub_i64}
use cu_cascade.Host.{
  Slot, HostResource, find_slot, Allocation, Taking, charge_slot, uncharge_slot, allocate_blocks,
  conclude, uuid_of, pointed_slot,
}
use cu_cascade.Host.Amounts.{allocate_share, uncounted}
use cu_cascade.Host.Charges.{Inv, slot_small}
use cu_cascade.Host.Collecting.{Took, all_taken, threw, ran_out, take-Took}
use cu_cascade.Host.Blocks.{
  IsLive, loosened, loosened-ok, allocate_cases, charged_resource, charge_slot-fields, put-put,
}
use cu_cascade.Host.Returns.{returnable}
use cu_cascade.Host.Ownership.{bytes, pointing, bytes_of, unfound, stray, strays, Covered}
use cu_cascade.Host.Ownership.Calls.{Changed, keep-Covered, put-Covered}

-- With what an allocation gave, if it gave something.
abbrev pub gained : Result (Option Allocation) → List Allocation → List Allocation
gained (ok (some a)) live = a ∷ live
gained (ok none) live = live
gained (err e) live = live

-- Where the slot is charged, what points to it may grow by as much.
charged-Covered :
    (live live' : List Allocation) (loose total : ℕ) (r r' : HostResource) (slot : Option Slot)
    → Inv loose r
    → IsLive r slot
    → total < 2 ^ 62
    → Covered live loose r
    → Changed r r' (charge_slot r slot total).0.active_reservations
    → ((id : ℕ)
        → bytes_of r.block_size live' id
          ≤ bytes_of r.block_size live id + pointing total (uuid_of slot) id)
    → strays r.block_size r.active_reservations live'
      ≤ strays r.block_size r.active_reservations live
        + stray r.active_reservations total (uuid_of slot)
    → Covered live' (loose + loosened slot total (err out_of_memory)) r'
charged-Covered live live' loose total r r' none i f w v c below h =
    keep-Covered live live' loose (loose + total) r r' v c (λ id. omega (arith, below id))
      (omega (arith, h, v.strayed))
charged-Covered live live' loose total r r' (some s) i f w v c below h =
    let (k, low, small) = slot_small loose r s.uuid s i f in
    let (post, share) = allocate_share s.size s.allocated_bytes total k.0 k.1 (omega arith) in
    let found : stray r.active_reservations total (some s.uuid) ≡ 0 = rw f refl in
    put-Covered live live' loose (loose + 0) r r' v s
      (record s { allocated_bytes = add_i64 s.allocated_bytes (to_i64 total) }) f c
      (ground (arith, below s.uuid, v.covered s.uuid s f, ap pos_part post))
      (λ id e. ground (arith, below id)) (omega (arith, h, v.strayed, found))

uncharged-Covered :
    (live : List Allocation) (loose total : ℕ) (r : HostResource) (slot : Option Slot)
    → Inv loose r
    → IsLive r slot
    → total < 2 ^ 62
    → Covered live loose r
    → Covered live
        (loose + loosened slot total (ok none))
        (uncharge_slot (charge_slot r slot total).0 slot total)
uncharged-Covered live loose total r none i f w v =
    keep-Covered live live loose (loose + 0) r r v
      (record { size = refl; next = refl; slots = refl }) (λ id. omega arith)
      (omega (arith, v.strayed))
uncharged-Covered live loose total r (some s) i f w v =
    let (k, low, small) = slot_small loose r s.uuid s i f in
    let back = uncounted s.allocated_bytes total k.1 (omega arith) in
    put-Covered live live loose (loose + 0) r _ v s
      (record s {
        allocated_bytes = sub_i64 (add_i64 s.allocated_bytes (to_i64 total)) (to_i64 total);
      })
      f (record { size = refl; next = refl; slots = put-put r.active_reservations _ _ refl })
      (omega (arith, v.covered s.uuid s f, ap pos_part back)) (λ id e. omega arith)
      (omega (arith, v.strayed))

pointing-le : (m n : ℕ) (o : Option ℕ) (id : ℕ) → m ≤ n → pointing m o id ≤ pointing n o id
pointing-le m n none id h = omega arith
pointing-le m n (some j) id h = ground arith

stray-le : (ss : List Slot) (m n : ℕ) (o : Option ℕ) → m ≤ n → stray ss m o ≤ stray ss n o
stray-le ss m n none h = h
stray-le ss m n (some j) h = go (find_slot ss j)
  where
    go : (o : Option Slot) → unfound o m ≤ unfound o n
    go none = h
    go (some s) = omega arith

charge_slot-next :
    (r : HostResource) (slot : Option Slot) (total : ℕ)
    → (charge_slot r slot total).0.next_uuid ≡ r.next_uuid
charge_slot-next r none total = refl
charge_slot-next r (some s) total = refl

conclude-Covered :
    (live : List Allocation) (loose total charged post : ℕ) (r : HostResource) (slot : Option Slot)
    (t : HostResource × Taking)
    → Inv loose r
    → IsLive r slot
    → total < 2 ^ 62
    → 0 < r.pool_size
    → Covered live loose r
    → Took (total / r.block_size) (charged_resource r slot total) [] t
    → let o = conclude slot total charged post t in
      Covered (gained o.1 live) (loose + loosened slot total o.1) o.0
conclude-Covered live loose total charged post r slot _ i f w p v (all_taken r' bs s k) =
    let (b, l, c, z, y) = charge_slot-fields r slot total in
    let n_blocks : length bs ≡ total / r.block_size = omega (arith, k) in
    let enough : length bs * r.block_size ≤ total =
      rw n_blocks (div-mul-le_self total r.block_size) in
    rw (loosened-ok slot total) (
      charged-Covered live _ loose total r _ slot i f w v
        (record {
          size = s.size ∙ y;
          next = s.next ∙ charge_slot-next r slot total;
          slots = s.slots;
        })
        (λ id. omega (arith, pointing-le _ total (uuid_of slot) id enough))
        (omega (arith, stray-le r.active_reservations _ total (uuid_of slot) enough)))
conclude-Covered live loose total charged post r slot _ i f w p v (threw r' s) =
    let (b, l, c, z, y) = charge_slot-fields r slot total in
    charged-Covered live live loose total r r' slot i f w v
      (record { size = s.size ∙ y; next = s.next ∙ charge_slot-next r slot total; slots = s.slots })
      (λ id. omega arith) (omega arith)
conclude-Covered live loose total charged post r slot _ i f w p v (ran_out r' s z) =
    absurd (omega (arith, z, (charge_slot-fields r slot total).3))

pub allocate-Covered :
    (live : List Allocation) (loose total : ℕ) (r : HostResource) (slot : Option Slot)
    (upstream : List (Option ℕ))
    → Inv loose r
    → IsLive r slot
    → total < 2 ^ 62
    → 0 < r.pool_size
    → Covered live loose r
    → let o = allocate_blocks r slot total upstream in
      Covered (gained o.1 live) (loose + loosened slot total o.1) o.0
allocate-Covered live loose total r slot upstream i f w p v =
    elim (allocate_cases loose total r slot upstream i) [
      | inl e ↦ rw e (uncharged-Covered live loose total r slot i f w v)
      | inr (c, e) ↦ rw e (
          conclude-Covered live loose total _ _ r slot _ i f w p v
            (take-Took (total / r.block_size) (charged_resource r slot total) [] upstream))
    ]

pub strays-keep :
    (size : ℕ) (ss : List Slot) (live : List Allocation) (i : ℕ) (a : Allocation)
    → get_elem? live i ≡ some a
    → strays size ss live
      ≡ stray ss (bytes size a) a.reserved_memory + strays size ss (erase_at live i)
strays-keep size ss live i a e =
    sum_of-erase_at (λ (x : Allocation). stray ss (bytes size x) x.reserved_memory) live i a e

pub bytes_of-keep :
    (size : ℕ) (live : List Allocation) (i : ℕ) (a : Allocation) (id : ℕ)
    → get_elem? live i ≡ some a
    → bytes_of size live id
      ≡ pointing (bytes size a) a.reserved_memory id + bytes_of size (erase_at live i) id
bytes_of-keep size live i a id e =
    sum_of-erase_at (λ (x : Allocation). pointing (bytes size x) x.reserved_memory id) live i a e

-- An allocation that a client owns is counted by its slot, or loose.
pub owned-returnable :
    (live : List Allocation) (loose : ℕ) (r : HostResource) (i : ℕ) (a : Allocation)
    → Covered live loose r
    → get_elem? live i ≡ some a
    → length a.blocks * r.block_size ≤ returnable loose (pointed_slot r a.reserved_memory)
owned-returnable live loose r i a v e =
    go a.reserved_memory (sym (strays-keep r.block_size r.active_reservations live i a e))
      (λ id. sym (bytes_of-keep r.block_size live i a id e))
  where
    go :
        (o : Option ℕ)
        → stray r.active_reservations (bytes r.block_size a) o
            + strays r.block_size r.active_reservations (erase_at live i)
          ≡ strays r.block_size r.active_reservations live
        → ((id : ℕ)
            → pointing (bytes r.block_size a) o id + bytes_of r.block_size (erase_at live i) id
              ≡ bytes_of r.block_size live id)
        → bytes r.block_size a ≤ returnable loose (pointed_slot r o)
    go none p q = omega (arith, p, v.strayed)
    go (some id) p q = found (find_slot r.active_reservations id) refl
      where
        found :
            (x : Option Slot)
            → find_slot r.active_reservations id ≡ x
            → bytes r.block_size a ≤ returnable loose x
        found none f =
            let stays : stray r.active_reservations (bytes r.block_size a) (some id)
                ≡ bytes r.block_size a =
              rw f refl in
            omega (arith, p, v.strayed, stays)
        found (some s) f = ground (arith, q id, v.covered id s f)
