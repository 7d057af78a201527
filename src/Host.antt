-- ===== src/Host.antt =====
-- include/memory/fixed_size_host_memory_resource.hpp and src/memory/fixed_size_host_memory_resource.cpp.
-- A slot is a live `chunked_reserved_area` with its entry in `_active_reservations`: each is registered
-- when it is made and unregistered when it is destroyed, so the pointer, the size of the arena and the
-- tracker's bytes stand in one record. `align_up` is `rmm::align_up`; what the upstream resource returns
-- comes as a list, an address or `none` for an exception, one for each call of its `allocate`.
pub mod Amounts
pub mod Charges
pub mod Reservations
pub mod Collecting
pub mod Grants
pub mod Pools
pub mod Blocks
pub mod Returns
pub mod Ownership
pub mod Histories
mod Tests
use cu_cascade.Base.{
  map, reverse_onto, ℕ, zero, suc, ◌+◌, ◌-◌, ◌*◌, ◌/◌, ◌%◌, ◌≤◌, Bool, true, false, Option, none,
  some, List, [], ◌∷◌, ◌++◌, leb, ltb, ◌==◌, if◌then◌else◌, length, Error, runtime_error,
  logic_error, out_of_memory, invalid_argument, Result, ok, err,
}
use cu_cascade.Base.Words.{add64, sub64, word_size}
use cu_cascade.Base.Int.{ℤ, pos, pos_part, to_i64, to_u64, add_i64, sub_i64, ltb_ℤ, leb_ℤ, ◌-ℤ◌}
use cu_cascade.Atomics.{counter_after, try_add, add_bounded, update_peak, sub}

pub record Slot : Type 0 where
  pub uuid : ℕ
  pub size : ℤ
  pub allocated_bytes : ℤ

-- The head of each list is the back of the vector.
pub record HostResource : Type 0 where
  pub memory_limit : ℕ
  pub memory_capacity : ℕ
  pub block_size : ℕ
  pub pool_size : ℕ
  pub allocated_blocks : List ℕ
  pub free_blocks : List ℕ
  pub allocated_bytes : ℕ
  pub peak_allocated_bytes : ℕ
  pub active_reservations : List Slot
  pub next_uuid : ℕ

-- `std::max(int64_t{0}, x)`
abbrev pub max_zero : ℤ → ℤ
max_zero x = pos (pos_part x)

abbrev pub find_slot : List Slot → ℕ → Option Slot
find_slot [] id = none
find_slot (s ∷ ss) id = if s.uuid == id then some s else find_slot ss id

abbrev pub put_slot : List Slot → Slot → List Slot
put_slot [] t = []
put_slot (s ∷ ss) t = if s.uuid == t.uuid then t ∷ ss else s ∷ put_slot ss t

abbrev pub erase_slot : List Slot → ℕ → List Slot
erase_slot [] id = []
erase_slot (s ∷ ss) id = if s.uuid == id then ss else s ∷ erase_slot ss id

unfoldable pub get_available_memory : HostResource → ℕ
get_available_memory r =
    if ltb r.allocated_bytes r.memory_capacity then r.memory_capacity - r.allocated_bytes else 0

-- The loop of `get_total_reserved_bytes`; the sum is a `size_t`.
abbrev pub add_sizes : ℕ → List Slot → ℕ
add_sizes total [] = total
add_sizes total (s ∷ ss) = add_sizes (add64 total (to_u64 (max_zero s.size))) ss

unfoldable pub get_total_reserved_bytes : HostResource → ℕ
get_total_reserved_bytes r = add_sizes 0 r.active_reservations

unfoldable pub get_free_blocks : HostResource → ℕ
get_free_blocks r = length r.free_blocks

unfoldable pub get_total_blocks : HostResource → ℕ
get_total_blocks r = (length r.allocated_blocks * r.pool_size) % word_size

unfoldable pub get_active_reservation_count : HostResource → ℕ
get_active_reservation_count r = length r.active_reservations

unfoldable pub do_reserve : HostResource → ℕ → ℕ → HostResource × Bool
unfolding try_add update_peak
do_reserve r bytes mem_limit =
    let u = try_add r.allocated_bytes [] bytes mem_limit in
    (
      record r {
        allocated_bytes = counter_after r.allocated_bytes u;
        peak_allocated_bytes =
            if u.value.0
            then update_peak r.peak_allocated_bytes [] u.value.1
            else r.peak_allocated_bytes;
      },
      u.value.0,
    )

unfoldable pub do_reserve_upto : HostResource → ℕ → ℕ → HostResource × ℕ
unfolding add_bounded update_peak
do_reserve_upto r bytes mem_limit =
    let u = add_bounded r.allocated_bytes [] bytes mem_limit in
    (
      record r {
        allocated_bytes = counter_after r.allocated_bytes u;
        peak_allocated_bytes =
            if leb 1 u.value.0
            then update_peak r.peak_allocated_bytes [] u.value.1
            else r.peak_allocated_bytes;
      },
      u.value.0,
    )

-- A new arena of the given size, registered; its uuid is its address here too.
abbrev pub register_reservation : HostResource → ℕ → HostResource
register_reservation r bytes = record r {
  active_reservations =
      record { uuid = r.next_uuid; size = to_i64 bytes; allocated_bytes = pos 0 }
      ∷ r.active_reservations;
  next_uuid = suc r.next_uuid;
}

module _ (align_up : ℕ → ℕ → ℕ) where
  unfoldable pub reserve : HostResource → ℕ → HostResource × Option ℕ
  reserve r bytes =
      let (r', reserved) = do_reserve r (align_up bytes r.block_size) r.memory_limit in
      if reserved
      then (register_reservation r' (align_up bytes r.block_size), some r.next_uuid)
      else (r', none)

  unfoldable pub reserve_upto : HostResource → ℕ → HostResource × ℕ
  reserve_upto r bytes =
      let (r', reserved) = do_reserve_upto r (align_up bytes r.block_size) r.memory_limit in
      (register_reservation r' reserved, r.next_uuid)

  -- `arena._size += …`, at a live arena.
  unfoldable pub grow_reservation_by : HostResource → Slot → ℕ → HostResource × Bool
  grow_reservation_by r s bytes =
      let (r', reserved) = do_reserve r (align_up bytes r.block_size) r.memory_limit in
      if reserved
      then (
        record r' {
          active_reservations =
              put_slot r'.active_reservations
                (record s { size = add_i64 s.size (to_i64 (align_up bytes r.block_size)) });
        },
        true,
      )
      else (r', false)

unfoldable pub shrink_reservation_to_fit : HostResource → Slot → HostResource
unfolding sub
shrink_reservation_to_fit r s =
    let current = max_zero s.allocated_bytes in
    if ltb_ℤ current s.size
    then record r {
      active_reservations = put_slot r.active_reservations (record s { size = current });
      allocated_bytes = sub r.allocated_bytes (to_u64 (sub_i64 s.size current));
    }
    else r

-- Run by the destructor of the arena; `throw`s if it is not registered.
unfoldable pub release_reservation : HostResource → ℕ → Result HostResource
unfolding sub
release_reservation r id = elim (find_slot r.active_reservations id) [
  | none ↦ err runtime_error
  | some s ↦
      let current = max_zero s.allocated_bytes in
      ok (record r {
        allocated_bytes =
            sub r.allocated_bytes
              (if ltb_ℤ current s.size then to_u64 (sub_i64 s.size current) else 0);
        active_reservations = erase_slot r.active_reservations id;
      })
]

-- The bytes of an allocation that its reservation does not cover, which are charged upstream, from the
-- tracker's bytes before and after.
unfoldable pub upstream_share : ℤ → ℤ → ℤ → ℕ → ℕ
upstream_share pre post reservation_size total_bytes =
    if leb_ℤ post reservation_size
    then 0
    else if ltb_ℤ pre reservation_size
    then to_u64 (sub_i64 post reservation_size)
    else total_bytes

-- The bytes that go back upstream when blocks of a reservation return.
unfoldable pub reclaimed_share : ℤ → ℤ → ℤ → ℕ → ℕ
reclaimed_share pre post reservation_size reclaimed_bytes =
    if leb_ℤ pre reservation_size
    then 0
    else if ltb_ℤ post reservation_size
    then to_u64 (sub_i64 pre reservation_size)
    else reclaimed_bytes

-- The blocks of one upstream allocation, the last pushed first.
abbrev pub pool_blocks : ℕ → ℕ → ℕ → List ℕ
pool_blocks large size zero = []
pool_blocks large size (suc n) = (large + n * size) ∷ pool_blocks large size n

unfoldable pub expand_pool : HostResource → ℕ → HostResource
expand_pool r large = record r {
  allocated_blocks = large ∷ r.allocated_blocks;
  free_blocks = pool_blocks large r.block_size r.pool_size ++ r.free_blocks;
}

-- The loop of the constructor, with the answers of the upstream resource; `none` is its exception.
abbrev pub expand_initial : ℕ → HostResource → List (Option ℕ) → Result HostResource
unfolding expand_pool
expand_initial zero r upstream = ok r
expand_initial (suc n) r [] = err out_of_memory
expand_initial (suc n) r (none ∷ upstream) = err out_of_memory
expand_initial (suc n) r (some large ∷ upstream) = expand_initial n (expand_pool r large) upstream

-- The constructor; `alignment` is that of `max_align_t`.
unfoldable pub fixed_size_host_memory_resource :
    (ℕ → ℕ → ℕ) → ℕ → List (Option ℕ) → ℕ → ℕ → ℕ → ℕ → ℕ → Result HostResource
unfolding expand_pool
fixed_size_host_memory_resource align_up alignment upstream limit capacity block_size pool_size
      initial_pools =
    expand_initial initial_pools
      (record {
        memory_limit = limit;
        memory_capacity = capacity;
        block_size = align_up block_size alignment;
        pool_size = pool_size;
        allocated_blocks = [];
        free_blocks = [];
        allocated_bytes = 0;
        peak_allocated_bytes = 0;
        active_reservations = [];
        next_uuid = 0;
      })
      upstream

-- The destructor, with what it gives back to the upstream resource: addresses and sizes.
unfoldable pub destroy : HostResource → HostResource × List (ℕ × ℕ)
destroy r = (
  record r { allocated_blocks = []; free_blocks = [] },
  map (λ b. (b, (r.block_size * r.pool_size) % word_size)) r.allocated_blocks,
)

-- How the loop that collects the blocks ends.
pub data Taking : Type 0 where
  taken : List ℕ → Taking
  upstream_failed exhausted : Taking

-- One round of the loop: the last free block, after an expansion if there was none.
pub data NextBlock : Type 0 where
  got : ℕ → HostResource → List (Option ℕ) → NextBlock
  upstream_threw : NextBlock
  still_empty : HostResource → NextBlock

abbrev pub pop_free : HostResource → List (Option ℕ) → List ℕ → NextBlock
pop_free r upstream [] = still_empty r
pop_free r upstream (b ∷ bs) = got b (record r { free_blocks = bs }) upstream

-- `if (_free_blocks.empty()) { expand_pool(); }`, and the test that follows.
unfoldable pub next_block : HostResource → List (Option ℕ) → List ℕ → NextBlock
unfolding expand_pool
next_block r upstream (b ∷ bs) = pop_free r upstream (b ∷ bs)
next_block r [] [] = upstream_threw
next_block r (none ∷ upstream) [] = upstream_threw
next_block r (some large ∷ upstream) [] =
    pop_free (expand_pool r large) upstream (expand_pool r large).free_blocks

abbrev pub is_empty : List ℕ → Bool
is_empty [] = true
is_empty (b ∷ bs) = false

-- `allocated`, the blocks so far, has the last one at its head. If there is still no free block they go
-- back to the free list; an exception of the upstream resource leaves with no such clean-up.
unfoldable pub take_blocks : ℕ → HostResource → List ℕ → List (Option ℕ) → HostResource × Taking
unfolding next_block
take_blocks zero r allocated upstream = (r, taken (reverse_onto allocated []))
take_blocks (suc n) r allocated upstream = elim (next_block r upstream r.free_blocks) [
  | got b r' upstream' ↦ take_blocks n r' (b ∷ allocated) upstream'
  | upstream_threw ↦ (r, upstream_failed)
  | still_empty r' ↦ (record r' { free_blocks = allocated ++ r'.free_blocks }, exhausted)
]

-- The `reservation*` argument: null, one with an arena of this resource, or another kind of arena.
pub data ReservationArg : Type 0 where
  no_reservation other_arena : ReservationArg
  host_arena : ℕ → ReservationArg

pub record Allocation : Type 0 where
  pub blocks : List ℕ
  pub reserved_memory : Option ℕ

-- The slot of the allocation, if there is one.
unfoldable pub slot_of : HostResource → ReservationArg → Result (Option Slot)
slot_of r no_reservation = ok none
slot_of r other_arena = err runtime_error
slot_of r (host_arena id) = elim (find_slot r.active_reservations id) [
  | none ↦ err runtime_error
  | some s ↦ ok (some s)
]

-- `tracker->allocated_bytes` set anew.
abbrev pub set_tracker : HostResource → Slot → ℤ → HostResource
set_tracker r s bytes = record r {
  active_reservations = put_slot r.active_reservations (record s { allocated_bytes = bytes });
}

-- With the slot's tracker counted up: the resource, and the bytes to charge upstream.
abbrev pub charge_slot : HostResource → Option Slot → ℕ → HostResource × ℕ
charge_slot r none total = (r, total)
charge_slot r (some s) total =
    let post = add_i64 s.allocated_bytes (to_i64 total) in
    (set_tracker r s post, upstream_share s.allocated_bytes post s.size total)

-- `tracker->allocated_bytes.fetch_sub(total_bytes)` on the failing paths.
abbrev pub uncharge_slot : HostResource → Option Slot → ℕ → HostResource
uncharge_slot r none total = r
uncharge_slot r (some s) total =
    set_tracker r s (sub_i64 (add_i64 s.allocated_bytes (to_i64 total)) (to_i64 total))

abbrev pub uuid_of : Option Slot → Option ℕ
uuid_of none = none
uuid_of (some s) = some s.uuid

-- After the blocks were collected, or not.
abbrev pub conclude :
    Option Slot → ℕ → ℕ → ℕ → HostResource × Taking → HostResource × Result (Option Allocation)
conclude slot total charged post (r, taken blocks) = (
  record r { peak_allocated_bytes = update_peak r.peak_allocated_bytes [] post },
  ok (some (record { blocks = blocks; reserved_memory = uuid_of slot })),
)
conclude slot total charged post (r, upstream_failed) = (r, err out_of_memory)
conclude slot total charged post (r, exhausted) = (
  uncharge_slot (record r { allocated_bytes = sub r.allocated_bytes charged }) slot total,
  err out_of_memory,
)

-- The charge, and then the blocks; a null pointer is returned if the capacity does not suffice.
unfoldable pub allocate_blocks :
    HostResource → Option Slot → ℕ → List (Option ℕ) → HostResource × Result (Option Allocation)
unfolding try_add
allocate_blocks r slot total upstream =
    let (r1, charged) = charge_slot r slot total in
    let u = try_add r1.allocated_bytes [] charged r1.memory_capacity in
    if u.value.0
    then conclude slot total charged u.value.1 (
        take_blocks (total / r.block_size)
          (record r1 { allocated_bytes = counter_after r1.allocated_bytes u }) [] upstream)
    else (uncharge_slot r1 slot total, ok none)

unfoldable pub allocate_multiple_blocks :
    (ℕ → ℕ → ℕ)
    → HostResource
    → ℕ
    → ReservationArg
    → List (Option ℕ)
    → HostResource × Result (Option Allocation)
unfolding slot_of
allocate_multiple_blocks align_up r total_bytes res upstream =
    if total_bytes == 0
    then (r, ok (some (record { blocks = []; reserved_memory = none })))
    else elim (slot_of r res) [
      | err e ↦ (r, err e)
      | ok slot ↦ allocate_blocks r slot (align_up total_bytes r.block_size) upstream
    ]

abbrev pub pointed_slot : HostResource → Option ℕ → Option Slot
pointed_slot r none = none
pointed_slot r (some id) = find_slot r.active_reservations id

unfoldable pub return_bytes : HostResource → Option Slot → ℕ → HostResource
unfolding sub
return_bytes r none reclaimed = record r { allocated_bytes = sub r.allocated_bytes reclaimed }
return_bytes r (some s) reclaimed =
    let post = sub_i64 s.allocated_bytes (to_i64 reclaimed) in
    record (set_tracker r s post) {
      allocated_bytes =
          sub r.allocated_bytes (reclaimed_share s.allocated_bytes post s.size reclaimed);
    }

-- `chunks` is only counted: the blocks do not go back to the free list.
unfoldable pub return_allocated_chunks : HostResource → List ℕ → Option ℕ → HostResource
unfolding return_bytes
return_allocated_chunks r chunks arena =
    return_bytes r (pointed_slot r arena) ((length chunks * r.block_size) % word_size)

-- The destructor of `multiple_blocks_allocation`.
unfoldable pub destroy_allocation : HostResource → Allocation → HostResource
destroy_allocation r a =
    if is_empty a.blocks then r else return_allocated_chunks r a.blocks a.reserved_memory
