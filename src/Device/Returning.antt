-- ===== src/Device/Returning.antt =====
-- An allocation of a tracked stream, and its return.
use cu_cascade.Base.{
  ℕ, ◌+◌, ◌-◌, ◌^◌, ◌≤◌, ◌<◌, ◌≡◌, refl, ap, ◌∙◌, Bool-cases, inl, inr, ok, max, arith, ltb, leb,
  if◌then◌else◌, some, List, [], ◌∷◌, ◌==◌,
}
use cu_cascade.Base.Words.{add64, sub64, sub64_exact}
use cu_cascade.Base.Int.{ℤ, pos, to_i64, sub_i64}
use cu_cascade.Host.Amounts.{post_up, post_down, difference}
use cu_cascade.Atomics.{sub}
use cu_cascade.Device.{
  TrackerState, DeviceResource, ignore, find_tracker, put_tracker, set_arena, count_bytes,
  upstream_reclaimed_bytes, do_allocate_unmanaged, do_allocate_managed, do_allocate, do_deallocate,
}
use cu_cascade.Device.Charging.{arena_of, tracker_of, charge_of, check_charges_growth}

reclaimed_of_size :
    (pre n size : ℕ)
    → pre + n < 2 ^ 63
    → size < 2 ^ 62
    → upstream_reclaimed_bytes (pos pre) (pos size) n
      ≡ (if leb (pre + n) size then 0 else if ltb pre size then size - pre else n)
unfolding upstream_reclaimed_bytes
reclaimed_of_size pre n size b c = rw (post_up pre n b) (ground (arith, difference size pre))

find-put :
    (ts : List TrackerState) (s t : TrackerState)
    → find_tracker ts t.stream ≡ some s
    → find_tracker (put_tracker ts t) t.stream ≡ some t
find-put [] s t e = cc
find-put (x ∷ ts) s t e = elim (Bool-cases (x.stream == t.stream)) [
  | inl h ↦ ground arith
  | inr h ↦ ground (arith, find-put ts s t)
]

-- The resource once `charged` bytes were counted.
abbrev pub counted : DeviceResource → ℕ → DeviceResource
counted r charged = record r {
  total_allocated_bytes = r.total_allocated_bytes + charged;
  peak_total_allocated_bytes = max r.peak_total_allocated_bytes (r.total_allocated_bytes + charged);
}

pub unmanaged_fits :
    (r : DeviceResource) (charged ptr : ℕ)
    → r.total_allocated_bytes + charged ≤ r.capacity
    → r.capacity < 2 ^ 62
    → do_allocate_unmanaged r charged (some ptr) ≡ (counted r charged, ok ptr)
unfolding do_allocate_unmanaged add64
unmanaged_fits r charged ptr h l = ground arith

module _ (align_up : ℕ → ℕ → ℕ) (alignment : ℕ) (pad : ℕ → ℕ) (r : DeviceResource)
    (stream size pre bytes ptr : ℕ) (peak : ℤ)
    (found : find_tracker r.trackers stream
      ≡ some (tracker_of stream (arena_of size pre peak) ignore))
    (pre_small : pre < 2 ^ 61) (size_small : size < 2 ^ 61)
    (bytes_small : align_up bytes alignment < 2 ^ 61)
    (fits : r.total_allocated_bytes + charge_of size pre (align_up bytes alignment) ≤ r.capacity)
    (capacity_small : r.capacity < 2 ^ 62) where
  abbrev padded : ℕ
  padded = align_up bytes alignment

  allocated : do_allocate align_up alignment pad r stream bytes (some ptr) ≡ (
    set_arena
        (counted r (charge_of size pre padded))
        (tracker_of stream (arena_of size pre peak) ignore)
        (count_bytes (arena_of size pre peak) (pos (pre + padded))),
    ok ptr,
  )
  unfolding do_allocate do_allocate_managed
  allocated =
      rw
        (
          found,
          do_allocate,
          do_allocate_managed,
          check_charges_growth pad r stream size pre padded peak (omega arith) (omega arith)
              (omega arith),
          unmanaged_fits r (charge_of size pre padded) ptr fits capacity_small,
        )
        refl

  -- What `do_deallocate` gives back.
  abbrev pub given_back : ℕ
  given_back = if leb (pre + padded) size then 0 else if ltb pre size then size - pre else padded

  abbrev once_counted : TrackerState
  once_counted =
      tracker_of stream (count_bytes (arena_of size pre peak) (pos (pre + padded))) ignore

  -- The tracker at the end: the peak may have grown.
  abbrev pub uncounted_again : TrackerState
  uncounted_again =
      tracker_of stream
        (record (count_bytes (arena_of size pre peak) (pos (pre + padded))) {
          allocated_bytes = pos pre;
        })
        ignore

  abbrev after_allocation : DeviceResource
  after_allocation =
      set_arena (counted r (charge_of size pre padded))
        (tracker_of stream (arena_of size pre peak) ignore)
        (count_bytes (arena_of size pre peak) (pos (pre + padded)))

  again : find_tracker after_allocation.trackers stream ≡ some once_counted
  again = find-put r.trackers (tracker_of stream (arena_of size pre peak) ignore) once_counted found

  returned :
      do_deallocate align_up alignment after_allocation stream bytes
      ≡ record (set_arena after_allocation once_counted uncounted_again.memory_reservation) {
        total_allocated_bytes = sub64 after_allocation.total_allocated_bytes given_back;
      }
  unfolding do_deallocate sub
  returned =
      let back : sub_i64 (pos (pre + padded)) (to_i64 padded) ≡ pos pre =
        post_down (pre + padded) padded (omega arith) (omega arith) ∙ ap pos (omega arith) in
      rw (again, do_deallocate, back, reclaimed_of_size pre padded size (omega arith) (omega arith))
        refl

  -- A tracked allocation that fits, of a stream whose policy ignores the limit, is charged the growth of
  -- the larger of the reservation's size and of its bytes. Returned at once, it gives back nothing if it
  -- lay within the reservation, all of it if the reservation was used up before, and if it straddled the
  -- end of the reservation, what of it lay within, and not what was charged. The tracker's bytes are
  -- again what they were; the sizes are below 2^61, and the reservation is counted in the total.
  pub allocate-deallocate :
      max size pre ≤ r.total_allocated_bytes
      → let r1 = (do_allocate align_up alignment pad r stream bytes (some ptr)).0 in
        let r2 = do_deallocate align_up alignment r1 stream bytes in
        (r1.total_allocated_bytes ≡ r.total_allocated_bytes + charge_of size pre padded)
        × (r2.total_allocated_bytes + given_back
            ≡ r.total_allocated_bytes + charge_of size pre padded)
        × (r2.total_reserved_bytes ≡ r.total_reserved_bytes)
        × (find_tracker r2.trackers stream ≡ some uncounted_again)
  allocate-deallocate h =
      let less : given_back ≤ r.total_allocated_bytes + charge_of size pre padded = ground arith in
      let exact =
        sub64_exact (r.total_allocated_bytes + charge_of size pre padded) given_back less
          (omega arith) in
      rw (allocated, returned)
        (
          refl,
          omega (arith, exact, less),
          refl,
          find-put after_allocation.trackers once_counted uncounted_again again,
        )
