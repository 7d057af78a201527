-- ===== src/Host/Tests.antt =====
-- Runs of the host resource, and the theorems at inputs that meet their hypotheses.
use cu_cascade.Base.{sum_of, ◌≤◌, ℕ, ◌+◌, ◌-◌, ◌*◌, ◌/◌, ◌≡◌, refl, some, List, [], ◌∷◌, arith, ok}
use cu_cascade.Base.Int.{pos, add_i64, sub_i64}
use cu_cascade.Atomics.{try_add, update_peak}
use cu_cascade.Base.Words.{add64}
use cu_cascade.Host.{
  Allocation, Slot, HostResource, grow_reservation_by, slot_of, reserve, do_reserve,
  fixed_size_host_memory_resource, upstream_share, take_blocks, next_block, expand_pool,
  allocate_blocks, allocate_multiple_blocks, host_arena, destroy_allocation,
}
use cu_cascade.Host.Charges.{Inv}
use cu_cascade.Host.Ownership.{bytes}
use cu_cascade.Host.Histories.{Reached, constructed, reserved, requested, grown}
use cu_cascade.Host.Histories.Accounts.{history-Inv}
use cu_cascade.Host.Returns.{allocate-destroy, Undone}

abbrev align_up : ℕ → ℕ → ℕ
align_up n block = (n + block - 1) / block * block

-- Blocks of 4 bytes, two at a time.
abbrev with_slots : ℕ → List Slot → HostResource
with_slots bytes slots = record {
  memory_limit = 64;
  memory_capacity = 64;
  block_size = 4;
  pool_size = 2;
  allocated_blocks = [];
  free_blocks = [];
  allocated_bytes = bytes;
  peak_allocated_bytes = bytes;
  active_reservations = slots;
  next_uuid = 1;
}

abbrev slot_8 : Slot
slot_8 = record { uuid = 0; size = pos 8; allocated_bytes = pos 0 }

abbrev reserved_8 : HostResource
reserved_8 = with_slots 8 (slot_8 ∷ [])

reserved_8-Inv : Inv 0 reserved_8
reserved_8-Inv = record {
  accounted = refl;
  limited = omega arith;
  small = omega arith;
  counted = ((refl, refl), tt);
}

-- Twelve bytes are three blocks, of which the reservation covers two.
allocates :
    (allocate_multiple_blocks align_up reserved_8 10 (host_arena 0) (some 100 ∷ some 200 ∷ [])).1
    ≡ ok (some (record { blocks = 104 ∷ 100 ∷ 204 ∷ []; reserved_memory = some 0 }))
unfolding allocate_multiple_blocks allocate_blocks slot_of upstream_share take_blocks next_block
    expand_pool try_add add64 update_peak add_i64 sub_i64
allocates = refl

allocate-destroy_example :
    let before = (allocate_blocks reserved_8 (some slot_8) 12 (some 100 ∷ some 200 ∷ [])).0 in
    Undone reserved_8 before (
      destroy_allocation before
        (record { blocks = 104 ∷ 100 ∷ 204 ∷ []; reserved_memory = some 0 }))
unfolding allocate_blocks upstream_share take_blocks next_block expand_pool try_add add64
    update_peak add_i64 sub_i64
allocate-destroy_example =
    allocate-destroy 0 12 reserved_8 (some slot_8) (some 100 ∷ some 200 ∷ [])
      (record { blocks = 104 ∷ 100 ∷ 204 ∷ []; reserved_memory = some 0 }) reserved_8-Inv refl
      (omega arith) (omega arith) (omega arith) refl

-- One pool of two blocks.
abbrev one_pool : HostResource
one_pool = record {
  memory_limit = 64;
  memory_capacity = 64;
  block_size = 4;
  pool_size = 2;
  allocated_blocks = 100 ∷ [];
  free_blocks = 104 ∷ 100 ∷ [];
  allocated_bytes = 0;
  peak_allocated_bytes = 0;
  active_reservations = [];
  next_uuid = 0;
}

abbrev reserving : HostResource
reserving = (reserve align_up one_pool 8).0

abbrev requesting : HostResource
requesting = (allocate_multiple_blocks align_up reserving 12 (host_arena 0) (some 200 ∷ [])).0

abbrev overdrawn_8 : Slot
overdrawn_8 = record { uuid = 0; size = pos 8; allocated_bytes = pos 12 }

abbrev growing : HostResource
growing = (grow_reservation_by align_up requesting overdrawn_8 4).0

abbrev three_blocks : Allocation
three_blocks = record { blocks = 104 ∷ 100 ∷ 204 ∷ []; reserved_memory = some 0 }

-- Twelve bytes from a reservation of 8, which then grows by 4: 4 bytes are counted twice.
history : Reached align_up 64 64 (three_blocks ∷ []) 4 growing
unfolding allocate_multiple_blocks allocate_blocks slot_of upstream_share take_blocks next_block
    expand_pool try_add add64 update_peak add_i64 sub_i64 reserve do_reserve grow_reservation_by
    fixed_size_host_memory_resource
history =
    grown
      (requested (reserved (constructed 4 4 2 1 (some 100 ∷ []) refl) 8) 12 (host_arena 0)
        (some 200 ∷ []) (omega arith) (omega arith))
      overdrawn_8 4 refl

history-Inv_example :
    Inv 4 growing
    × (sum_of (bytes growing.block_size) (three_blocks ∷ []) ≤ growing.allocated_bytes)
history-Inv_example = history-Inv (omega arith) history
