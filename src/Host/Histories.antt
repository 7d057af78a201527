-- ===== src/Host/Histories.antt =====
-- Histories of the host resource: the constructor and then calls of it, whatever the upstream resource
-- answers, by clients that destroy each allocation at most once.
pub mod Requests
pub mod Constructed
pub mod Accounts
use mathlib.Core.Path.{subst}
use cu_cascade.Base.{
  get_elem?, erase_at, [], ℕ, ◌+◌, ◌-◌, ◌*◌, ◌^◌, ◌≤◌, ◌<◌, ◌≡◌, refl, Option, none, some, List,
  max, min, arith, if◌then◌else◌, ◌==◌, Bool-cases, inl, inr, Result, ok, err, length,
  runtime_error,
}
use cu_cascade.Base.Int.{pos_part}
use cu_cascade.Host.{
  Slot, HostResource, find_slot, reserve, reserve_upto, grow_reservation_by,
  shrink_reservation_to_fit, release_reservation, fixed_size_host_memory_resource, ReservationArg,
  no_reservation, other_arena, host_arena, Allocation, slot_of, allocate_blocks,
  allocate_multiple_blocks, pointed_slot, destroy_allocation, is_empty,
}
use cu_cascade.Host.Charges.{Inv}
use cu_cascade.Host.Reservations.{reserve-Inv, reserve_upto-Inv, grow-Inv, shrink-Inv, release-Inv}
use cu_cascade.Host.Blocks.{IsLive, loosened, allocate-Inv}
use cu_cascade.Host.Returns.{returnable, loose_after, pointed-IsLive, return-Inv}
use cu_cascade.Host.Pools.{expand_initial-SameAccounts, idle-Inv}
use cu_cascade.Host.Ownership.Requests.{gained}

-- What an allocation adds to the loose bytes, from the slot it finds.
abbrev pub slot_loosened : Result (Option Slot) → ℕ → Result (Option Allocation) → ℕ
slot_loosened (err e) total out = 0
slot_loosened (ok slot) total out = loosened slot total out

-- An empty request changes nothing.
abbrev pub request_loosened :
    (ℕ → ℕ → ℕ) → HostResource → ℕ → ReservationArg → Result (Option Allocation) → ℕ
request_loosened align_up r total res out =
    if total == 0 then 0 else slot_loosened (slot_of r res) (align_up total r.block_size) out

-- The allocations that the clients own after a history, the bytes that it leaves loose, and the resource.
pub data Reached (align_up : ℕ → ℕ → ℕ) (limit capacity : ℕ)
    : List Allocation → ℕ → HostResource → Type 0 where
  constructed :
      {r : HostResource} (alignment block_size pool_size initial_pools : ℕ)
      (upstream : List (Option ℕ))
      → fixed_size_host_memory_resource align_up alignment upstream limit capacity block_size
          pool_size initial_pools
        ≡ ok r
      → Reached align_up limit capacity [] 0 r
  reserved :
      {live : List Allocation} {loose : ℕ} {r : HostResource}
      → Reached align_up limit capacity live loose r
      → (bytes : ℕ) → Reached align_up limit capacity live loose (reserve align_up r bytes).0
  reserved_upto :
      {live : List Allocation} {loose : ℕ} {r : HostResource}
      → Reached align_up limit capacity live loose r
      → (bytes : ℕ) → Reached align_up limit capacity live loose (reserve_upto align_up r bytes).0
  grown :
      {live : List Allocation} {loose : ℕ} {r : HostResource}
      → Reached align_up limit capacity live loose r
      → (s : Slot) (bytes : ℕ) → find_slot r.active_reservations s.uuid ≡ some s
      → Reached align_up limit capacity live
          (if (grow_reservation_by align_up r s bytes).1
            then loose
              + min (align_up bytes r.block_size) (pos_part s.allocated_bytes - pos_part s.size)
            else loose)
          (grow_reservation_by align_up r s bytes).0
  shrunk :
      {live : List Allocation} {loose : ℕ} {r : HostResource}
      → Reached align_up limit capacity live loose r
      → (s : Slot) → find_slot r.active_reservations s.uuid ≡ some s
      → Reached align_up limit capacity live loose (shrink_reservation_to_fit r s)
  released :
      {live : List Allocation} {loose : ℕ} {r r' : HostResource}
      → Reached align_up limit capacity live loose r
      → (s : Slot) → find_slot r.active_reservations s.uuid ≡ some s
      → release_reservation r s.uuid ≡ ok r'
      → Reached align_up limit capacity live (loose + pos_part s.allocated_bytes) r'
  requested :
      {live : List Allocation} {loose : ℕ} {r : HostResource}
      → Reached align_up limit capacity live loose r
      → (total : ℕ) (res : ReservationArg) (upstream : List (Option ℕ))
      → align_up total r.block_size < 2 ^ 62
      → 0 < r.pool_size
      → Reached align_up limit capacity
          (gained (allocate_multiple_blocks align_up r total res upstream).1 live)
          (loose
            + request_loosened align_up r total res
                (allocate_multiple_blocks align_up r total res upstream).1)
          (allocate_multiple_blocks align_up r total res upstream).0
  destroyed :
      {live : List Allocation} {loose : ℕ} {r : HostResource}
      → Reached align_up limit capacity live loose r
      → (i : ℕ) (a : Allocation) → get_elem? live i ≡ some a
      → Reached align_up limit capacity
          (erase_at live i)
          (if is_empty a.blocks
            then loose
            else loose_after loose
                (pointed_slot r a.reserved_memory)
                (length a.blocks * r.block_size))
          (destroy_allocation r a)
