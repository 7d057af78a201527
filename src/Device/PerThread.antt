-- ===== src/Device/PerThread.antt =====
-- The tracker of src/memory/reservation_aware_resource_adaptor.cpp for the scope `PER_THREAD`, and the operations that
-- use it. Its state is a static `thread_local` variable: a thread has one, whatever the resource and the stream. So the
-- model is that of one thread, with all the resources that it uses, numbered, and with the owner of the arena, to which
-- its `_mr` points.
pub mod Sharing
use cu_cascade.Base.{ℕ, Bool, true, false, Option, none, some, update, Result, ok, err}
use cu_cascade.Base.Int.{pos, to_i64, to_u64, add_i64, sub_i64}
use cu_cascade.Atomics.{sub}
use cu_cascade.Device.{
  DeviceReservedArena, ReservationLimitPolicy, TrackerState, DeviceResource, do_release_reservation,
  check_reservation_and_handle_overflow, settle, do_allocate_unmanaged, upstream_reclaimed_bytes,
  max_zero,
}

pub record OwnedState : Type 0 where
  pub owner : ℕ
  pub memory_reservation : DeviceReservedArena
  pub reservation_policy : ReservationLimitPolicy

pub record Thread : Type 0 where
  pub resource : ℕ → DeviceResource
  pub reservation_state : Option OwnedState

-- The state as that of a stream; nothing here reads which one.
abbrev pub as_tracker : OwnedState → ℕ → TrackerState
as_tracker s stream = record {
  stream = stream;
  memory_reservation = s.memory_reservation;
  reservation_policy = s.reservation_policy;
}

abbrev pub put : Thread → ℕ → DeviceResource → Thread
put d i r = record d { resource = update d.resource i r }

abbrev pub put_arena : Thread → OwnedState → DeviceReservedArena → Thread
put_arena d s a = record d { reservation_state = some (record s { memory_reservation = a }) }

unfoldable pub is_stream_tracked : Thread → ℕ → ℕ → Bool
is_stream_tracked d i stream = elim d.reservation_state [ none ↦ false | some s ↦ true ]

unfoldable pub get_allocated_bytes : Thread → ℕ → ℕ → ℕ
get_allocated_bytes d i stream = elim d.reservation_state [
  | none ↦ 0
  | some s ↦ to_u64 (max_zero s.memory_reservation.allocated_bytes)
]

-- The destructor of an arena of the resource `o`.
abbrev pub release_on : Thread → ℕ → DeviceReservedArena → Thread
unfolding do_release_reservation
release_on d o a = put d o (do_release_reservation (d.resource o) a)

-- To the resource `i`, of an arena that was made by the resource `o`.
unfoldable pub attach_reservation_to_tracker :
    Thread → ℕ → ℕ → DeviceReservedArena → ReservationLimitPolicy → Thread × Bool
unfolding release_on
attach_reservation_to_tracker d i o a policy = elim d.reservation_state [
  | some s ↦ (release_on d o a, false)
  | none ↦ (
    record d {
      reservation_state =
          some (record { owner = o; memory_reservation = a; reservation_policy = policy });
    },
    true,
  )
]

unfoldable pub reset_stream_reservation : Thread → ℕ → ℕ → Thread
unfolding release_on
reset_stream_reservation d i stream = elim d.reservation_state [
  | none ↦ d
  | some s ↦ release_on (record d { reservation_state = none }) s.owner s.memory_reservation
]

abbrev pub put_result : Thread → ℕ → DeviceResource × Result ℕ → Thread × Result ℕ
put_result d i (r, result) = (put d i r, result)

module _ (align_up : ℕ → ℕ → ℕ) (alignment : ℕ) (pad : ℕ → ℕ) where
  -- By the resource `i`: the policy grows the arena on its own resource.
  unfoldable pub do_allocate_managed : Thread → ℕ → OwnedState → ℕ → Option ℕ → Thread × Result ℕ
  do_allocate_managed d i s bytes upstream =
      let padded_bytes = align_up bytes alignment in
      elim (check_reservation_and_handle_overflow pad (d.resource s.owner) (as_tracker s 0)
        padded_bytes) [
          | err e ↦ (d, err e)
          | ok ((o, a), tracking_size) ↦
              settle (λ r a'. put_arena (put (put d s.owner o) i r) s a') a padded_bytes
                (do_allocate_unmanaged (update d.resource s.owner o i) tracking_size upstream)
        ]

  unfoldable pub do_allocate : Thread → ℕ → ℕ → ℕ → Option ℕ → Thread × Result ℕ
  unfolding do_allocate_managed
  do_allocate d i stream bytes upstream = elim d.reservation_state [
    | none ↦ put_result d i (do_allocate_unmanaged (d.resource i) (align_up bytes 256) upstream)
    | some s ↦ do_allocate_managed d i s bytes upstream
  ]

module _ (align_up : ℕ → ℕ → ℕ) (alignment : ℕ) where
  unfoldable pub do_deallocate : Thread → ℕ → ℕ → ℕ → Thread
  unfolding sub
  do_deallocate d i stream bytes =
      let tracking_bytes = align_up bytes alignment in
      let r = d.resource i in
      elim d.reservation_state [
        | none ↦
            put d i
              (record r { total_allocated_bytes = sub r.total_allocated_bytes tracking_bytes })
        | some s ↦
            let a : DeviceReservedArena = s.memory_reservation in
            let post = sub_i64 a.allocated_bytes (to_i64 tracking_bytes) in
            put_arena
              (put d i (record r {
                total_allocated_bytes =
                    sub r.total_allocated_bytes
                      (upstream_reclaimed_bytes post a.size tracking_bytes);
              }))
              s (record a { allocated_bytes = post })
      ]
