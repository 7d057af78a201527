-- ===== src/Host/Histories/Accounts.antt =====
-- The accounts of the host resource after any history.
use mathlib.Core.Path.{subst}
use cu_cascade.Base.{
  sum_of, ℕ, ◌+◌, ◌*◌, ◌^◌, ◌≤◌, ◌<◌, ◌≡◌, some, List, max, arith, if◌then◌else◌, Bool-cases, inl,
  inr, ok, length,
}
use cu_cascade.Base.Int.{pos_part}
use cu_cascade.Host.{
  Slot, HostResource, find_slot, release_reservation, Allocation, pointed_slot, destroy_allocation,
  is_empty,
}
use cu_cascade.Host.Charges.{Inv}
use cu_cascade.Host.Reservations.{reserve-Inv, reserve_upto-Inv, grow-Inv, shrink-Inv, release-Inv}
use cu_cascade.Host.Returns.{returnable, loose_after, return-Inv}
use cu_cascade.Host.Histories.{
  Reached, constructed, reserved, reserved_upto, grown, shrunk, released, requested, destroyed,
}
use cu_cascade.Host.Ownership.{Covered, bytes, bytes_of}
use cu_cascade.Host.Ownership.Sums.{all_counted, charges-cover}
use cu_cascade.Host.Ownership.Requests.{owned-returnable}
use cu_cascade.Host.Ownership.Destroyed.{destroy-Covered}
use cu_cascade.Host.Ownership.Reserved.{
  reserve-Covered, reserve_upto-Covered, grow-Covered, shrink-Covered, release-Covered,
}
use cu_cascade.Host.Histories.Requests.{request-Inv, request-Covered}
use cu_cascade.Host.Histories.Constructed.{constructed-Inv_any, constructed_blank, blank-Covered}

destroyed-Inv :
    (loose : ℕ) (r : HostResource) (a : Allocation)
    → Inv loose r
    → length a.blocks * r.block_size ≤ returnable loose (pointed_slot r a.reserved_memory)
    → Inv
        (if is_empty a.blocks
          then loose
          else loose_after loose
              (pointed_slot r a.reserved_memory)
              (length a.blocks * r.block_size))
        (destroy_allocation r a)
unfolding destroy_allocation
destroyed-Inv loose r a v w = elim (Bool-cases (is_empty a.blocks)) [
  | inl e ↦ rw e v
  | inr e ↦ rw e (return-Inv loose r a.blocks a.reserved_memory v w)
]

released-Inv :
    (loose : ℕ) (r r' : HostResource) (s : Slot)
    → Inv loose r
    → find_slot r.active_reservations s.uuid ≡ some s
    → release_reservation r s.uuid ≡ ok r'
    → Inv (loose + pos_part s.allocated_bytes) r'
released-Inv loose r r' s v f e =
    let (q, e', w) = release-Inv loose r v s.uuid s f in
    let same : q ≡ r' = cc in subst (Inv (loose + pos_part s.allocated_bytes)) same w

-- What all calls of a history keep.
pub history-Kept :
    {align_up : ℕ → ℕ → ℕ} {limit capacity loose : ℕ} {live : List Allocation} {r : HostResource}
    → max limit capacity < 2 ^ 62
    → Reached align_up limit capacity live loose r
    → Inv loose r × Covered live loose r
history-Kept small (constructed alignment block_size pool_size n upstream e) = (
  constructed-Inv_any _ alignment _ _ block_size pool_size n upstream _ small e,
  blank-Covered _ (constructed_blank _ alignment _ _ block_size pool_size n upstream _ e),
)
history-Kept small (reserved h bytes) =
    let (i, v) = history-Kept small h in
    (reserve-Inv _ _ _ i bytes, reserve-Covered _ _ _ _ i v bytes)
history-Kept small (reserved_upto h bytes) =
    let (i, v) = history-Kept small h in
    (reserve_upto-Inv _ _ _ i bytes, reserve_upto-Covered _ _ _ _ i v bytes)
history-Kept small (grown h s bytes f) =
    let (i, v) = history-Kept small h in
    (grow-Inv _ _ _ i s bytes f, grow-Covered _ _ _ _ i v s bytes _ f (omega arith))
history-Kept small (shrunk h s f) =
    let (i, v) = history-Kept small h in (shrink-Inv _ _ i s f, shrink-Covered _ _ _ v s f)
history-Kept small (released h s f e) =
    let (i, v) = history-Kept small h in
    (released-Inv _ _ _ s i f e, release-Covered _ _ _ v _ s f e)
history-Kept small (requested h total res upstream w p) =
    let (i, v) = history-Kept small h in
    (request-Inv _ _ total _ res upstream i w p, request-Covered _ _ _ total _ res upstream i w p v)
history-Kept small (destroyed h i a e) =
    let (inv, v) = history-Kept small h in
    (destroyed-Inv _ _ a inv (owned-returnable _ _ _ i a v e), destroy-Covered _ _ _ i a inv v e)

-- Whatever history a constructed host resource has, of reservations, growth, shrinking, releases, requests
-- for blocks, failed ones too, and destroyed allocations, with a limit and a capacity below 2^62: what it
-- counts as allocated is, for each live reservation, the larger of its size and of what is allocated from
-- it, and the loose bytes that the history leaves; it is within the larger of the limit and the capacity; no
-- size is negative; and it is at least the bytes of all the allocations that the clients own. Each request
-- is below 2^62 bytes of a resource whose pools are not empty, an allocation is destroyed by its owner and
-- once, and only live reservations are grown, shrunk or released.
pub history-Inv :
    {align_up : ℕ → ℕ → ℕ} {limit capacity loose : ℕ} {live : List Allocation} {r : HostResource}
    → max limit capacity < 2 ^ 62
    → Reached align_up limit capacity live loose r
    → Inv loose r × (sum_of (bytes r.block_size) live ≤ r.allocated_bytes)
history-Inv {align_up} {limit} {capacity} {loose} {live} {r} small h =
    let (i, v) = history-Kept small h in
    (
      i,
      omega (
        arith,
        all_counted r.block_size r.active_reservations live,
        charges-cover (bytes_of r.block_size live) r.active_reservations v.distinct v.covered,
        v.strayed,
        i.accounted,
      ),
    )
