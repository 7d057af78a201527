-- ===== src/Device/Charging.antt =====
-- What allocations of a tracked stream are charged, and what their return gives back.
use cu_cascade.Base.{
  ℕ, ◌+◌, ◌-◌, ◌^◌, ◌≤◌, ◌<◌, ◌≡◌, refl, ◌∙◌, Bool-cases, inl, inr, ok, max, arith, ltb, true,
  false,
}
use cu_cascade.Base.Words.{add64, sub64}
use cu_cascade.Base.Int.{ℤ, pos, to_i64, to_u64, to_i64_exact, sub_i64_exact}
use cu_cascade.Host.Amounts.{post_up, difference}
use cu_cascade.Device.{
  DeviceReservedArena, TrackerState, ReservationLimitPolicy, count_bytes, DeviceResource, ignore,
  increase, grow_reservation_by, do_reserve, handle_over_reservation,
  check_reservation_and_handle_overflow, upstream_tracking_size, no_room_i64,
}

tracking_lem :
    (pre n size : ℕ)
    → pre + n < 2 ^ 63
    → upstream_tracking_size (pos (pre + n)) (pos size) n + max size pre ≡ max size (pre + n)
unfolding upstream_tracking_size
tracking_lem pre n size h =
    rw (to_i64_exact n (omega arith), sub_i64_exact (pre + n) n (omega arith) h)
      (ground (arith, difference (pre + n) size))

-- An arena of `size` bytes with `pre` bytes allocated from it, attached to a stream.
abbrev pub arena_of : ℕ → ℕ → ℤ → DeviceReservedArena
arena_of size pre peak = record {
  size = pos size;
  allocated_bytes = pos pre;
  peak_allocated_bytes = peak;
}

abbrev pub tracker_of : ℕ → DeviceReservedArena → ReservationLimitPolicy → TrackerState
tracker_of stream a policy = record {
  stream = stream;
  memory_reservation = a;
  reservation_policy = policy;
}

-- The charge of an allocation of `n` bytes.
abbrev pub charge_of : ℕ → ℕ → ℕ → ℕ
charge_of size pre n = max size (pre + n) - max size pre

-- A tracked allocation is charged the growth of the larger of the reservation's size and of what is
-- allocated from it, and is counted in full, where the policy is to ignore the limit; the sizes are
-- below 2^62.
pub check_charges_growth :
    (pad : ℕ → ℕ) (r : DeviceResource) (stream size pre n : ℕ) (peak : ℤ)
    → pre < 2 ^ 62
    → size < 2 ^ 62
    → n < 2 ^ 62
    → check_reservation_and_handle_overflow pad r
        (tracker_of stream (arena_of size pre peak) ignore)
        n
      ≡ ok ((r, count_bytes (arena_of size pre peak) (pos (pre + n))), charge_of size pre n)
unfolding check_reservation_and_handle_overflow handle_over_reservation
check_charges_growth pad r stream size pre n peak a b c =
    let up = post_up pre n (omega arith) in
    let charge : upstream_tracking_size (pos (pre + n)) (pos size) n ≡ charge_of size pre n =
      omega (arith, tracking_lem pre n size (omega arith)) in
    elim (Bool-cases (no_room_i64 (pos pre) (to_i64 n) (pos size))) [
      | inl g ↦ rw (g, up, charge) refl
      | inr g ↦ rw (g, up, charge) refl
    ]

refused :
    (size pre n : ℕ)
    → pre ≤ size
    → size < 2 ^ 62
    → n < 2 ^ 62
    → no_room_i64 (pos pre) (to_i64 n) (pos size) ≡ ltb size (pre + n)
refused size pre n a b c =
    rw (to_i64_exact n (omega arith), sub_i64_exact size pre a (omega arith)) (ground arith)

-- An allocation within the reservation is charged nothing, whatever the policy.
pub check_within :
    (pad : ℕ → ℕ) (r : DeviceResource) (stream size pre n : ℕ) (peak : ℤ)
    (policy : ReservationLimitPolicy)
    → pre + n ≤ size
    → size < 2 ^ 62
    → check_reservation_and_handle_overflow pad r
        (tracker_of stream (arena_of size pre peak) policy)
        n
      ≡ ok ((r, count_bytes (arena_of size pre peak) (pos (pre + n))), 0)
unfolding check_reservation_and_handle_overflow
check_within pad r stream size pre n peak policy a b =
    let up = post_up pre n (omega arith) in
    let charge : upstream_tracking_size (pos (pre + n)) (pos size) n ≡ 0 =
      omega (arith, tracking_lem pre n size (omega arith)) in
    let fits : no_room_i64 (pos pre) (to_i64 n) (pos size) ≡ false =
      refused size pre n (omega arith) (omega arith) (omega arith) ∙ ground arith in
    rw (fits, up, charge) refl

-- The resource with `n` more bytes reserved.
abbrev pub more_reserved : DeviceResource → ℕ → DeviceResource
more_reserved r n = record r {
  total_allocated_bytes = r.total_allocated_bytes + n;
  peak_total_allocated_bytes = max r.peak_total_allocated_bytes (r.total_allocated_bytes + n);
  total_reserved_bytes = add64 r.total_reserved_bytes n;
}

pub do_reserve_fits :
    (r : DeviceResource) (n limit : ℕ)
    → r.total_allocated_bytes + n ≤ limit
    → limit < 2 ^ 62
    → do_reserve r n limit ≡ (more_reserved r n, true)
unfolding do_reserve add64
do_reserve_fits r n limit h l = ground arith

grown :
    (r : DeviceResource) (size pre n : ℕ) (peak : ℤ)
    → size + n < 2 ^ 62
    → r.total_allocated_bytes + n ≤ r.memory_limit
    → r.memory_limit < 2 ^ 62
    → grow_reservation_by r (arena_of size pre peak) n
      ≡ ((more_reserved r n, arena_of (size + n) pre peak), true)
unfolding grow_reservation_by
grown r size pre n peak s f l =
    rw (do_reserve_fits r n r.memory_limit f l, post_up size n (omega arith)) refl

excess_exact :
    (pre n size : ℕ)
    → size ≤ pre + n
    → pre + n < 2 ^ 62
    → sub64 (add64 (to_u64 (pos pre)) n) (to_u64 (pos size)) ≡ pre + n - size
unfolding to_u64 add64 sub64
excess_exact pre n size a b = omega arith

-- The policy that increases the reservation counts an allocation twice: growing charges the padded excess over the
-- size, and the allocation is then charged the excess over the old size as well, although it lies within the new
-- one. This is so for an allocation that the reservation no longer holds, with no overflow before, where the padded
-- excess is no less than the excess and fits under the limit; the padded size and the limit are below 2^62.
pub increase_counts_twice :
    (pad : ℕ → ℕ) (r : DeviceResource) (stream size pre n : ℕ) (peak : ℤ)
    → pre ≤ size
    → size < pre + n
    → pre + n < 2 ^ 62
    → pre + n - size ≤ pad (pre + n - size)
    → size + pad (pre + n - size) < 2 ^ 62
    → r.total_allocated_bytes + pad (pre + n - size) ≤ r.memory_limit
    → r.memory_limit < 2 ^ 62
    → (r' : DeviceResource) × (check_reservation_and_handle_overflow pad r
          (tracker_of stream (arena_of size pre peak) increase)
          n
        ≡ ok (
          (r', count_bytes (arena_of (size + pad (pre + n - size)) pre peak) (pos (pre + n))),
          pre + n - size,
        ))
      × (r'.total_allocated_bytes ≡ r.total_allocated_bytes + pad (pre + n - size))
      × (pre + n ≤ size + pad (pre + n - size))
unfolding check_reservation_and_handle_overflow handle_over_reservation
increase_counts_twice pad r stream size pre n peak a b c d s l m =
    let up = post_up pre n (omega arith) in
    let over : no_room_i64 (pos pre) (to_i64 n) (pos size) ≡ true =
      refused size pre n a (omega arith) (omega arith) ∙ ground arith in
    let excess : sub64 (add64 (to_u64 (pos pre)) n) (to_u64 (pos size)) ≡ pre + n - size =
      excess_exact pre n size (omega arith) c in
    let charge : upstream_tracking_size (pos (pre + n)) (pos size) n ≡ pre + n - size =
      omega (arith, tracking_lem pre n size (omega arith)) in
    (
      more_reserved r (pad (pre + n - size)),
      rw (over, excess, grown r size pre (pad (pre + n - size)) peak s l m, up, charge) refl,
      refl,
      omega arith,
    )
