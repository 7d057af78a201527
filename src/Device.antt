-- ===== src/Device.antt =====
-- include/memory/reservation_aware_resource_adaptor.hpp and
-- src/memory/reservation_aware_resource_adaptor.cpp, with the policies of src/memory/memory_reservation.cpp
-- and the only out-of-memory policy of the repository, which rethrows. A tracker is the state of one
-- stream, or of one thread with the other scope. `align_up` is `rmm::align_up`, `alignment` is RMM's
-- `CUDA_ALLOCATION_ALIGNMENT`, and `pad` the product with the padding factor, in `double`, of the policy
-- that increases a reservation. The answer of the upstream resource comes as an argument, an address or
-- `none` for an exception.
pub mod Charging
pub mod Returning
pub mod Reserving
pub mod PerThread
pub mod Peaks
mod Tests
use cu_cascade.Base.{
  ℕ, ◌+◌, ◌-◌, Bool, true, false, ◌||◌, Option, none, some, List, [], ◌∷◌, ltb, ◌==◌, if◌then◌else◌,
  Result, ok, err, out_of_memory,
}
use cu_cascade.Base.Words.{add64, sub64}
use cu_cascade.Base.Int.{ℤ, pos, pos_part, to_i64, to_u64, add_i64, sub_i64, ltb_ℤ, leb_ℤ}
use cu_cascade.Atomics.{counter_after, try_add, add_bounded, update_peak, sub}

pub record DeviceReservedArena : Type 0 where
  pub size : ℤ
  pub allocated_bytes : ℤ
  pub peak_allocated_bytes : ℤ

pub data ReservationLimitPolicy : Type 0 where
  ignore fail increase : ReservationLimitPolicy

pub record TrackerState : Type 0 where
  pub stream : ℕ
  pub memory_reservation : DeviceReservedArena
  pub reservation_policy : ReservationLimitPolicy

pub record DeviceResource : Type 0 where
  pub memory_limit : ℕ
  pub capacity : ℕ
  pub total_reserved_bytes : ℕ
  pub total_allocated_bytes : ℕ
  pub peak_total_allocated_bytes : ℕ
  pub number_of_allocations : ℕ
  pub trackers : List TrackerState

abbrev pub max_zero : ℤ → ℤ
max_zero x = pos (pos_part x)

abbrev pub find_tracker : List TrackerState → ℕ → Option TrackerState
find_tracker [] stream = none
find_tracker (t ∷ ts) stream = if t.stream == stream then some t else find_tracker ts stream

abbrev pub put_tracker : List TrackerState → TrackerState → List TrackerState
put_tracker [] t = []
put_tracker (x ∷ ts) t = if x.stream == t.stream then t ∷ ts else x ∷ put_tracker ts t

abbrev pub erase_tracker : List TrackerState → ℕ → List TrackerState
erase_tracker [] stream = []
erase_tracker (t ∷ ts) stream = if t.stream == stream then ts else t ∷ erase_tracker ts stream

-- The arena of a tracker set anew.
abbrev pub set_arena : DeviceResource → TrackerState → DeviceReservedArena → DeviceResource
set_arena r t a = record r {
  trackers = put_tracker r.trackers (record t { memory_reservation = a });
}

unfoldable pub get_available_memory : DeviceResource → ℕ
get_available_memory r =
    if ltb r.total_allocated_bytes r.capacity then r.capacity - r.total_allocated_bytes else 0

unfoldable pub get_allocated_bytes : DeviceResource → ℕ → ℕ
get_allocated_bytes r stream = elim (find_tracker r.trackers stream) [
  | none ↦ 0
  | some t ↦ to_u64 (max_zero t.memory_reservation.allocated_bytes)
]

unfoldable pub is_stream_tracked : DeviceResource → ℕ → Bool
is_stream_tracked r stream = elim (find_tracker r.trackers stream) [ none ↦ false | some t ↦ true ]

unfoldable pub do_reserve : DeviceResource → ℕ → ℕ → DeviceResource × Bool
unfolding try_add update_peak
do_reserve r size_bytes limit_bytes =
    let u = try_add r.total_allocated_bytes [] size_bytes limit_bytes in
    if u.value.0
    then (
      record r {
        total_allocated_bytes = counter_after r.total_allocated_bytes u;
        peak_total_allocated_bytes = update_peak r.peak_total_allocated_bytes [] u.value.1;
        total_reserved_bytes = add64 r.total_reserved_bytes size_bytes;
      },
      true,
    )
    else (r, false)

-- The test is on the new total, not on what was added.
unfoldable pub do_reserve_upto : DeviceResource → ℕ → ℕ → DeviceResource × ℕ
unfolding add_bounded update_peak
do_reserve_upto r size_bytes limit_bytes =
    let u = add_bounded r.total_allocated_bytes [] size_bytes limit_bytes in
    if ltb 0 u.value.1
    then (
      record r {
        total_allocated_bytes = counter_after r.total_allocated_bytes u;
        peak_total_allocated_bytes = update_peak r.peak_total_allocated_bytes [] u.value.1;
        total_reserved_bytes = add64 r.total_reserved_bytes u.value.0;
      },
      u.value.0,
    )
    else (record r { total_allocated_bytes = counter_after r.total_allocated_bytes u }, u.value.0)

abbrev new_arena : ℕ → DeviceReservedArena
new_arena bytes = record {
  size = to_i64 bytes;
  allocated_bytes = pos 0;
  peak_allocated_bytes = pos 0;
}

unfoldable pub reserve : DeviceResource → ℕ → DeviceResource × Option DeviceReservedArena
unfolding do_reserve
reserve r bytes =
    let (r', reserved) = do_reserve r bytes r.memory_limit in
    if reserved
    then (
      record r' { number_of_allocations = add64 r'.number_of_allocations 1 },
      some (new_arena bytes),
    )
    else (r', none)

unfoldable pub reserve_upto : DeviceResource → ℕ → DeviceResource × DeviceReservedArena
unfolding do_reserve_upto
reserve_upto r bytes =
    let (r', reserved_size) = do_reserve_upto r bytes r.memory_limit in
    (
      record r' { number_of_allocations = add64 r'.number_of_allocations 1 },
      new_arena reserved_size,
    )

unfoldable pub grow_reservation_by :
    DeviceResource → DeviceReservedArena → ℕ → (DeviceResource × DeviceReservedArena) × Bool
unfolding do_reserve
grow_reservation_by r a bytes =
    let (r', reserved) = do_reserve r bytes r.memory_limit in
    if reserved
    then ((r', record a { size = add_i64 a.size (to_i64 bytes) }), true)
    else ((r', a), false)

unfoldable pub shrink_reservation_to_fit :
    DeviceResource → DeviceReservedArena → DeviceResource × DeviceReservedArena
unfolding sub
shrink_reservation_to_fit r a =
    let current = max_zero a.allocated_bytes in
    if ltb_ℤ current a.size
    then (
      record r {
        total_allocated_bytes = sub r.total_allocated_bytes (to_u64 (sub_i64 a.size current));
      },
      record a { size = current },
    )
    else (r, a)

-- Run by the destructor of the arena.
unfoldable pub do_release_reservation : DeviceResource → DeviceReservedArena → DeviceResource
unfolding sub
do_release_reservation r a = record r {
  number_of_allocations = sub64 r.number_of_allocations 1;
  total_reserved_bytes = sub64 r.total_reserved_bytes (to_u64 (max_zero a.size));
  total_allocated_bytes = sub r.total_allocated_bytes (
      if ltb_ℤ a.allocated_bytes a.size
      then to_u64 (sub_i64 a.size (max_zero a.allocated_bytes))
      else 0);
}

-- The reservation that is handed over is destroyed where it is not attached.
unfoldable pub attach_reservation_to_tracker :
    DeviceResource → ℕ → DeviceReservedArena → ReservationLimitPolicy → DeviceResource × Bool
unfolding do_release_reservation
attach_reservation_to_tracker r stream a policy = elim (find_tracker r.trackers stream) [
  | some t ↦ (do_release_reservation r a, false)
  | none ↦ (
    record r {
      trackers =
          record { stream = stream; memory_reservation = a; reservation_policy = policy }
          ∷ r.trackers;
    },
    true,
  )
]

unfoldable pub reset_stream_reservation : DeviceResource → ℕ → DeviceResource
unfolding do_release_reservation
reset_stream_reservation r stream = elim (find_tracker r.trackers stream) [
  | none ↦ r
  | some t ↦
      do_release_reservation (record r { trackers = erase_tracker r.trackers stream })
        t.memory_reservation
]

module _ (pad : ℕ → ℕ) where
  -- The policies; where one throws, nothing has changed.
  unfoldable pub handle_over_reservation :
      DeviceResource
      → ReservationLimitPolicy
      → DeviceReservedArena
      → ℕ
      → ℕ
      → Result (DeviceResource × DeviceReservedArena)
  unfolding grow_reservation_by
  handle_over_reservation r ignore a requested_bytes current_allocated = ok (r, a)
  handle_over_reservation r fail a requested_bytes current_allocated = err out_of_memory
  handle_over_reservation r increase a requested_bytes current_allocated =
      let extra = sub64 (add64 current_allocated requested_bytes) (to_u64 (max_zero a.size)) in
      let padded = grow_reservation_by r a (pad extra) in
      let exact = grow_reservation_by r a extra in
      if padded.1 then ok padded.0 else if exact.1 then ok exact.0 else err out_of_memory

-- What is charged upstream, from the tracker's bytes after the allocation.
unfoldable pub upstream_tracking_size : ℤ → ℤ → ℕ → ℕ
upstream_tracking_size post reservation_size allocation_size =
    if ltb_ℤ post reservation_size
    then 0
    else if ltb_ℤ (sub_i64 post (to_i64 allocation_size)) reservation_size
    then to_u64 (sub_i64 post reservation_size)
    else allocation_size

-- `try_add` at `int64_t` refuses.
abbrev pub no_room_i64 : ℤ → ℤ → ℤ → Bool
no_room_i64 current diff upper_bound =
    ltb_ℤ upper_bound current || ltb_ℤ (sub_i64 upper_bound current) diff

abbrev pub count_bytes : DeviceReservedArena → ℤ → DeviceReservedArena
count_bytes a post = record a {
  allocated_bytes = post;
  peak_allocated_bytes = if ltb_ℤ a.peak_allocated_bytes post then post else a.peak_allocated_bytes;
}

module _ (pad : ℕ → ℕ) where
  -- The resource and the arena after it, and the bytes to charge; the size that decides is the one before
  -- the policy.
  unfoldable pub check_reservation_and_handle_overflow :
      DeviceResource → TrackerState → ℕ → Result ((DeviceResource × DeviceReservedArena) × ℕ)
  unfolding handle_over_reservation
  check_reservation_and_handle_overflow r t allocation_size =
      let a : DeviceReservedArena = t.memory_reservation in
      let n = to_i64 allocation_size in
      if no_room_i64 a.allocated_bytes n a.size
      then elim (handle_over_reservation pad r t.reservation_policy a allocation_size
          (to_u64 a.allocated_bytes)) [
            | err e ↦ err e
            | ok (r', a') ↦
                let post = add_i64 a'.allocated_bytes n in
                ok ((r', count_bytes a' post), upstream_tracking_size post a.size allocation_size)
          ]
      else let post = add_i64 a.allocated_bytes n in
        ok ((r, count_bytes a post), upstream_tracking_size post a.size allocation_size)

unfoldable pub do_allocate_unmanaged : DeviceResource → ℕ → Option ℕ → DeviceResource × Result ℕ
unfolding try_add update_peak sub
do_allocate_unmanaged r tracking_bytes upstream =
    let u = try_add r.total_allocated_bytes [] tracking_bytes r.capacity in
    let r' : DeviceResource = record r {
      total_allocated_bytes = counter_after r.total_allocated_bytes u;
      peak_total_allocated_bytes = update_peak r.peak_total_allocated_bytes [] u.value.1;
    } in
    if u.value.0
    then elim upstream [
      | some ptr ↦ (r', ok ptr)
      | none ↦ (
        record r' { total_allocated_bytes = sub r'.total_allocated_bytes tracking_bytes },
        err out_of_memory,
      )
    ]
    else (r, err out_of_memory)

-- The bytes that go back upstream.
unfoldable pub upstream_reclaimed_bytes : ℤ → ℤ → ℕ → ℕ
upstream_reclaimed_bytes post reservation_size tracking_bytes =
    if leb_ℤ (add_i64 post (to_i64 tracking_bytes)) reservation_size
    then 0
    else if ltb_ℤ post reservation_size
    then to_u64 (sub_i64 reservation_size post)
    else tracking_bytes

-- The arena after the attempt: the rethrown exception takes its bytes back. `store` puts the resource and the
-- arena where the tracker of the scope keeps them.
abbrev pub settle :
    {S : Type 0}
    → (DeviceResource → DeviceReservedArena → S)
    → DeviceReservedArena
    → ℕ
    → DeviceResource × Result ℕ
    → S × Result ℕ
settle store a padded_bytes (r, ok ptr) = (store r a, ok ptr)
settle store a padded_bytes (r, err e) = (
  store r (record a { allocated_bytes = sub_i64 a.allocated_bytes (to_i64 padded_bytes) }),
  err e,
)

module _ (align_up : ℕ → ℕ → ℕ) (alignment : ℕ) (pad : ℕ → ℕ) where
  unfoldable pub do_allocate_managed :
      DeviceResource → TrackerState → ℕ → Option ℕ → DeviceResource × Result ℕ
  unfolding check_reservation_and_handle_overflow do_allocate_unmanaged
  do_allocate_managed r t bytes upstream =
      let padded_bytes = align_up bytes alignment in
      elim (check_reservation_and_handle_overflow pad r t padded_bytes) [
        | err e ↦ (r, err e)
        | ok ((r1, a), tracking_size) ↦
            settle (λ r2 a'. set_arena r2 t a') a padded_bytes
              (do_allocate_unmanaged r1 tracking_size upstream)
      ]

  unfoldable pub do_allocate : DeviceResource → ℕ → ℕ → Option ℕ → DeviceResource × Result ℕ
  unfolding do_allocate_managed do_allocate_unmanaged
  do_allocate r stream bytes upstream = elim (find_tracker r.trackers stream) [
    | none ↦ do_allocate_unmanaged r (align_up bytes 256) upstream
    | some t ↦ do_allocate_managed r t bytes upstream
  ]

module _ (align_up : ℕ → ℕ → ℕ) (alignment : ℕ) where
  unfoldable pub do_deallocate : DeviceResource → ℕ → ℕ → DeviceResource
  unfolding sub
  do_deallocate r stream bytes =
      let tracking_bytes = align_up bytes alignment in
      elim (find_tracker r.trackers stream) [
        | none ↦ record r { total_allocated_bytes = sub r.total_allocated_bytes tracking_bytes }
        | some t ↦
            let a : DeviceReservedArena = t.memory_reservation in
            let post = sub_i64 a.allocated_bytes (to_i64 tracking_bytes) in
            record (set_arena r t (record a { allocated_bytes = post })) {
              total_allocated_bytes =
                  sub r.total_allocated_bytes (upstream_reclaimed_bytes post a.size tracking_bytes);
            }
      ]

-- The constructor with a limit, for the trackers of streams.
unfoldable pub reservation_aware_resource_adaptor : ℕ → ℕ → DeviceResource
reservation_aware_resource_adaptor memory_limit capacity = record {
  memory_limit = memory_limit;
  capacity = capacity;
  total_reserved_bytes = 0;
  total_allocated_bytes = 0;
  peak_total_allocated_bytes = 0;
  number_of_allocations = 0;
  trackers = [];
}
