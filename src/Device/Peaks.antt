-- ===== src/Device/Peaks.antt =====
-- The rest of the getters of src/memory/reservation_aware_resource_adaptor.cpp, `reset_peak_allocated_bytes`, and the
-- constructor without a limit.
use cu_cascade.Base.{
  ℕ, ◌≡◌, refl, none, some, List, [], ◌∷◌, ◌==◌, if◌then◌else◌, arith, Bool-cases, Option-cases,
  inl, inr,
}
use cu_cascade.Base.Words.{add64}
use cu_cascade.Base.Int.{pos, to_u64, sub_i64, ltb_ℤ}
use cu_cascade.Device.{
  DeviceReservedArena, DeviceResource, TrackerState, find_tracker, put_tracker, set_arena, max_zero,
  get_available_memory, reservation_aware_resource_adaptor,
}

-- What the arena of a reservation has left.
unfoldable pub arena_available_memory : DeviceReservedArena → ℕ
arena_available_memory a =
    if ltb_ℤ a.allocated_bytes a.size then to_u64 (sub_i64 a.size a.allocated_bytes) else 0

unfoldable pub get_available_memory_on : DeviceResource → ℕ → ℕ
unfolding arena_available_memory
get_available_memory_on r stream = elim (find_tracker r.trackers stream) [
  | none ↦ get_available_memory r
  | some t ↦ add64 (get_available_memory r) (arena_available_memory t.memory_reservation)
]

-- The same body a second time.
unfoldable pub get_available_memory_print : DeviceResource → ℕ → ℕ
unfolding arena_available_memory
get_available_memory_print r stream = elim (find_tracker r.trackers stream) [
  | none ↦ get_available_memory r
  | some t ↦ add64 (get_available_memory r) (arena_available_memory t.memory_reservation)
]

unfoldable pub get_peak_allocated_bytes : DeviceResource → ℕ → ℕ
get_peak_allocated_bytes r stream = elim (find_tracker r.trackers stream) [
  | none ↦ 0
  | some t ↦ to_u64 (max_zero t.memory_reservation.peak_allocated_bytes)
]

unfoldable pub reset_peak_allocated_bytes : DeviceResource → ℕ → DeviceResource
reset_peak_allocated_bytes r stream = elim (find_tracker r.trackers stream) [
  | none ↦ r
  | some t ↦ set_arena r t (record t.memory_reservation { peak_allocated_bytes = pos 0 })
]

unfoldable pub unlimited_resource_adaptor : ℕ → DeviceResource
unfolding reservation_aware_resource_adaptor
unlimited_resource_adaptor capacity = reservation_aware_resource_adaptor capacity capacity

find-stream :
    (ts : List TrackerState) (stream : ℕ) (s : TrackerState)
    → find_tracker ts stream ≡ some s
    → s.stream ≡ stream
find-stream [] stream s e = cc
find-stream (x ∷ ts) stream s e = ground (arith, find-stream ts stream s)

find-put :
    (ts : List TrackerState) (stream : ℕ) (s t : TrackerState)
    → find_tracker ts stream ≡ some s
    → t.stream ≡ stream
    → find_tracker (put_tracker ts t) stream ≡ some t
find-put [] stream s t e q = cc
find-put (x ∷ ts) stream s t e q = elim (Bool-cases (x.stream == stream)) [
  | inl h ↦ ground arith
  | inr h ↦ ground (arith, find-put ts stream s t)
]

-- After a reset the peak of a stream is 0, although the stream may have bytes allocated: it is the peak of
-- the allocations to come.
pub peak-reset :
    (r : DeviceResource) (stream : ℕ)
    → get_peak_allocated_bytes (reset_peak_allocated_bytes r stream) stream ≡ 0
unfolding get_peak_allocated_bytes reset_peak_allocated_bytes to_u64
peak-reset r stream = elim (Option-cases (find_tracker r.trackers stream)) [
  | inl e ↦ rw (e, reset_peak_allocated_bytes, e, get_peak_allocated_bytes) refl
  | inr (s, e) ↦
      let t : TrackerState = record s {
        memory_reservation = record s.memory_reservation { peak_allocated_bytes = pos 0 };
      } in
      let f = find-put r.trackers stream s t e (find-stream r.trackers stream s e) in
      rw (e, reset_peak_allocated_bytes, f, get_peak_allocated_bytes) refl
]
