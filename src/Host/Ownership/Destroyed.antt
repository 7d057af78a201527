-- ===== src/Host/Ownership/Destroyed.antt =====
-- The destruction of an allocation that a client owns keeps the slots above what points to them.
use cu_cascade.Base.{
  ℕ, ◌+◌, ◌-◌, ◌*◌, ◌%◌, ◌≤◌, ◌≡◌, refl, ap, Option, none, some, List, arith, if◌then◌else◌,
  Bool-cases, inl, inr, length, erase_at, get_elem?,
}
use cu_cascade.Base.Words.{word_size}
use cu_cascade.Base.Int.{pos_part, to_i64, sub_i64}
use cu_cascade.Host.{
  Slot, HostResource, Allocation, pointed_slot, return_bytes, return_allocated_chunks,
  destroy_allocation, is_empty,
}
use cu_cascade.Host.Amounts.{return_share}
use cu_cascade.Host.Charges.{Inv, slot_small, find-uuid}
use cu_cascade.Host.Blocks.{IsLive}
use cu_cascade.Host.Returns.{returnable, returnable_small, loose_after, pointed-IsLive}
use cu_cascade.Host.Ownership.{pointing, bytes_of, unfound, stray, strays, Covered}
use cu_cascade.Host.Ownership.Calls.{keep-Covered, put-Covered}
use cu_cascade.Host.Ownership.Requests.{strays-keep, bytes_of-keep, owned-returnable}

pointed_bytes :
    (r : HostResource) (n : ℕ) (o : Option ℕ)
    → stray r.active_reservations n o ≡ unfound (pointed_slot r o) n
pointed_bytes r n none = refl
pointed_bytes r n (some id) = refl

pointing-found :
    (r : HostResource) (n : ℕ) (o : Option ℕ) (s : Slot)
    → pointed_slot r o ≡ some s
    → pointing n o s.uuid ≡ n
pointing-found r n none s e = cc
pointing-found r n (some id) s e = let same = find-uuid r.active_reservations id s e in ground arith

return_bytes-Covered :
    (live live' : List Allocation) (loose n : ℕ) (r : HostResource) (slot : Option Slot)
    → Inv loose r
    → IsLive r slot
    → n ≤ returnable loose slot
    → Covered live loose r
    → ((id : ℕ) → bytes_of r.block_size live' id ≤ bytes_of r.block_size live id)
    → ((s : Slot)
        → slot ≡ some s
        → n + bytes_of r.block_size live' s.uuid ≡ bytes_of r.block_size live s.uuid)
    → unfound slot n + strays r.block_size r.active_reservations live'
      ≡ strays r.block_size r.active_reservations live
    → Covered live' (loose_after loose slot n) (return_bytes r slot n)
unfolding return_bytes
return_bytes-Covered live live' loose n r none i f w v below less h =
    keep-Covered live live' loose (loose - n) r _ v
      (record { size = refl; next = refl; slots = refl }) below (omega (arith, h, v.strayed))
return_bytes-Covered live live' loose n r (some s) i f w v below less h =
    let (k, low, small) = slot_small loose r s.uuid s i f in
    let (post, share) = return_share s.size s.allocated_bytes n k.0 k.1 w (omega arith) in
    put-Covered live live' loose loose r _ v s
      (record s { allocated_bytes = sub_i64 s.allocated_bytes (to_i64 n) }) f
      (record { size = refl; next = refl; slots = refl })
      (omega (arith, ap pos_part post, less s refl, v.covered s.uuid s f)) (λ id e. below id)
      (omega (arith, h, v.strayed))

pub destroy-Covered :
    (live : List Allocation) (loose : ℕ) (r : HostResource) (i : ℕ) (a : Allocation)
    → Inv loose r
    → Covered live loose r
    → get_elem? live i ≡ some a
    → Covered
        (erase_at live i)
        (if is_empty a.blocks
          then loose
          else loose_after loose
              (pointed_slot r a.reserved_memory)
              (length a.blocks * r.block_size))
        (destroy_allocation r a)
unfolding destroy_allocation return_allocated_chunks
destroy-Covered live loose r i a inv v e =
    let slot = pointed_slot r a.reserved_memory in
    let n = length a.blocks * r.block_size in
    let w = owned-returnable live loose r i a v e in
    let f = pointed-IsLive r a.reserved_memory in
    let same : n % word_size ≡ n = omega (arith, w, returnable_small loose r slot inv f) in
    let below : (id : ℕ)
        → bytes_of r.block_size (erase_at live i) id ≤ bytes_of r.block_size live id =
      λ id. omega (arith, bytes_of-keep r.block_size live i a id e) in
    let out = strays-keep r.block_size r.active_reservations live i a e in
    elim (Bool-cases (is_empty a.blocks)) [
      | inl h ↦ rw h (
          keep-Covered live (erase_at live i) loose loose r r v
            (record { size = refl; next = refl; slots = refl }) below
            (omega (arith, out, v.strayed)))
      | inr h ↦
          rw (h, same)
            (return_bytes-Covered live (erase_at live i) loose n r slot inv f w v below
              (λ s p. omega (
                arith,
                bytes_of-keep r.block_size live i a s.uuid e,
                pointing-found r n a.reserved_memory s p,
              ))
              (omega (arith, out, pointed_bytes r n a.reserved_memory)))
    ]
