-- ===== src/Device/Reserving.antt =====
-- Reservations of the device resource, and their hand-over to a stream.
use cu_cascade.Base.{
  ℕ, ◌+◌, ◌-◌, ◌^◌, ◌≤◌, ◌<◌, ◌≡◌, refl, ◌∙◌, arith, true, false, if◌then◌else◌, some, none, List,
  ◌∷◌, ◌==◌,
}
use cu_cascade.Base.Words.{add64, sub64, sub64_exact, word_size}
use cu_cascade.Base.Int.{ℤ, pos, to_u64, sub_i64, to_i64_exact, ltb_ℤ}
use cu_cascade.Host.Amounts.{difference}
use cu_cascade.Atomics.{sub}
use cu_cascade.Device.{
  DeviceReservedArena, TrackerState, ReservationLimitPolicy, DeviceResource, find_tracker, reserve,
  do_release_reservation, attach_reservation_to_tracker, reset_stream_reservation,
  is_stream_tracked,
}
use cu_cascade.Device.Charging.{arena_of, tracker_of, more_reserved, do_reserve_fits}

-- The resource after the release of `size` reserved bytes of which `total` go back to the total.
abbrev pub less_reserved : DeviceResource → ℕ → ℕ → DeviceResource
less_reserved r size total = record r {
  number_of_allocations = sub64 r.number_of_allocations 1;
  total_reserved_bytes = sub64 r.total_reserved_bytes size;
  total_allocated_bytes = r.total_allocated_bytes - total;
}

released_bytes :
    (size used : ℕ)
    → size < 2 ^ 62
    → (if ltb_ℤ (pos used) (pos size) then to_u64 (sub_i64 (pos size) (pos used)) else 0)
      ≡ size - used
released_bytes size used a = ground (arith, difference size used)

pub to_u64_small : (n : ℕ) → n < word_size → to_u64 (pos n) ≡ n
unfolding to_u64
to_u64_small n h = omega arith

-- To release a reservation gives back to the total what is not allocated from it, and to the reserved
-- bytes all of its size; the sizes are below 2^62.
pub release_gives_back :
    (r : DeviceResource) (size used : ℕ) (peak : ℤ)
    → size ≤ r.total_allocated_bytes
    → r.total_allocated_bytes < 2 ^ 62
    → do_release_reservation r (arena_of size used peak) ≡ less_reserved r size (size - used)
unfolding do_release_reservation sub
release_gives_back r size used peak b c =
    rw
      (
        released_bytes size used (omega arith),
        sub64_exact r.total_allocated_bytes (size - used) (omega arith) (omega arith),
        to_u64_small size (omega arith),
      )
      refl

attach_tracked :
    (r : DeviceResource) (t : TrackerState) (stream : ℕ) (a : DeviceReservedArena)
    (policy : ReservationLimitPolicy)
    → find_tracker r.trackers stream ≡ some t
    → attach_reservation_to_tracker r stream a policy ≡ (do_release_reservation r a, false)
unfolding attach_reservation_to_tracker
attach_tracked r t stream a policy f = rw (f, attach_reservation_to_tracker) refl

attach_new :
    (r : DeviceResource) (stream : ℕ) (a : DeviceReservedArena) (policy : ReservationLimitPolicy)
    → find_tracker r.trackers stream ≡ none
    → attach_reservation_to_tracker r stream a policy
      ≡ (record r { trackers = tracker_of stream a policy ∷ r.trackers }, true)
unfolding attach_reservation_to_tracker
attach_new r stream a policy f = rw (f, attach_reservation_to_tracker) refl

same_stream : (n : ℕ) → (n == n) ≡ true
same_stream n = ground arith

reset_first :
    (r : DeviceResource) (ts : List TrackerState) (stream : ℕ) (a : DeviceReservedArena)
    (policy : ReservationLimitPolicy)
    → reset_stream_reservation (record r { trackers = tracker_of stream a policy ∷ ts }) stream
      ≡ do_release_reservation (record r { trackers = ts }) a
unfolding reset_stream_reservation
reset_first r ts stream a policy =
    rw (same_stream stream, reset_stream_reservation, same_stream stream) refl

-- What a reservation counts, and its release takes back.
less-more :
    (r : DeviceResource) (n : ℕ)
    → r.total_allocated_bytes + n < 2 ^ 62
    → r.total_reserved_bytes < word_size
    → r.number_of_allocations < word_size
    → less_reserved
        (record (more_reserved r n) { number_of_allocations = add64 r.number_of_allocations 1 })
        n
        (n - 0)
      ≡ record r { peak_total_allocated_bytes = (more_reserved r n).peak_total_allocated_bytes }
unfolding add64 sub64
less-more r n a b c = ground arith

-- A reservation that fits under the limit, which is below 2^62, is made at the size asked for, with nothing allocated
-- from it. Attached to a stream that has none, and reset before anything is allocated, it leaves the resource as it
-- was, but for the peak; the counters are below 2^64.
pub attach-reset :
    (r : DeviceResource) (n stream : ℕ) (policy : ReservationLimitPolicy)
    → r.total_allocated_bytes + n ≤ r.memory_limit
    → r.memory_limit < 2 ^ 62
    → r.total_reserved_bytes < word_size
    → r.number_of_allocations < word_size
    → find_tracker r.trackers stream ≡ none
    → (r1 : DeviceResource) × (a : DeviceReservedArena) × (reserve r n ≡ (r1, some a))
      × (a.size ≡ pos n)
      × (a.allocated_bytes ≡ pos 0)
      × (let (r2, attached) = attach_reservation_to_tracker r1 stream a policy in
          (attached ≡ true)
          × (is_stream_tracked r2 stream ≡ true)
          × (reset_stream_reservation r2 stream
              ≡ record r { peak_total_allocated_bytes = r1.peak_total_allocated_bytes }))
unfolding reserve is_stream_tracked
attach-reset r n stream policy f l w v u =
    let r1 : DeviceResource = record (more_reserved r n) {
      number_of_allocations = add64 r.number_of_allocations 1;
    } in
    (
      r1,
      arena_of n 0 (pos 0),
      rw (do_reserve_fits r n r.memory_limit f l, to_i64_exact n (omega arith)) refl,
      refl,
      refl,
      rw (attach_new r1 stream (arena_of n 0 (pos 0)) policy u) (
        refl,
        rw (same_stream stream, is_stream_tracked) refl,
        reset_first r1 r.trackers stream (arena_of n 0 (pos 0)) policy
            ∙ release_gives_back r1 n 0 (pos 0) (omega arith) (omega arith)
            ∙ less-more r n (omega arith) w v,
      ),
    )

-- A stream has one reservation at most: to attach another is refused, and the one that was handed over
-- is destroyed, so that its bytes are free again, with nothing allocated from it.
pub attach_refused :
    (r : DeviceResource) (t : TrackerState) (stream size : ℕ) (peak : ℤ)
    (policy : ReservationLimitPolicy)
    → find_tracker r.trackers stream ≡ some t
    → size ≤ r.total_allocated_bytes
    → r.total_allocated_bytes < 2 ^ 62
    → let (r', attached) = attach_reservation_to_tracker r stream (arena_of size 0 peak) policy in
      (attached ≡ false)
      × (find_tracker r'.trackers stream ≡ some t)
      × (r'.total_allocated_bytes + size ≡ r.total_allocated_bytes)
attach_refused r t stream size peak policy f b c =
    rw
      (
        attach_tracked r t stream (arena_of size 0 peak) policy f,
        release_gives_back r size 0 peak b c,
      )
      (refl, f, omega arith)
