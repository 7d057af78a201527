-- ===== src/Host/Reservations.antt =====
-- Reservations of the host resource keep its accounts.
use cu_cascade.Base.{
  ℕ, ◌+◌, ◌-◌, ◌^◌, ◌≤◌, ◌<◌, ◌≡◌, refl, ap, ◌∙◌, ◌⊎◌, some, max, min, arith, true, false,
  if◌then◌else◌, Bool-cases, inl, inr, ok, leb,
}
use cu_cascade.Base.Words.{add64, sub64, sub64_exact, word_size}
use cu_cascade.Base.Int.{ℤ, pos, pos_part, to_i64, to_u64, add_i64, sub_i64, to_i64_exact, ltb_ℤ}
use cu_cascade.Host.{
  Slot, HostResource, find_slot, erase_slot, do_reserve, do_reserve_upto, max_zero, reserve,
  reserve_upto, grow_reservation_by, shrink_reservation_to_fit, release_reservation,
}
use cu_cascade.Host.Amounts.{post_up, difference}
use cu_cascade.Host.Charges.{IsCounted, charge, Inv, erase-sum, erase-counted, slot_small, put-Inv}

-- What `do_reserve` does.
pub do_reserve_cases :
    (r : HostResource) (n limit : ℕ)
    → limit < word_size
    → ((r.allocated_bytes + n ≤ limit)
        × (do_reserve r n limit ≡ (
          record r {
            allocated_bytes = r.allocated_bytes + n;
            peak_allocated_bytes = max r.peak_allocated_bytes (r.allocated_bytes + n);
          },
          true,
        )))
      ⊎ ((limit < r.allocated_bytes + n) × (do_reserve r n limit ≡ (r, false)))
unfolding do_reserve add64
do_reserve_cases r n limit w = elim (Bool-cases (leb (r.allocated_bytes + n) limit)) [
  | inl e ↦ inl (ground arith, ground arith)
  | inr e ↦ inr (ground arith, ground arith)
]

larger :
    (s : Slot) (n : ℕ)
    → s.size ≡ pos (pos_part s.size)
    → pos_part s.size + n < 2 ^ 63
    → add_i64 s.size (to_i64 n) ≡ pos (pos_part s.size + n)
larger s n e h = ap (λ (z : ℤ). add_i64 z (to_i64 n)) e ∙ post_up (pos_part s.size) n h

-- The bytes by which a slot's size exceeds what is allocated from it.
spare :
    (s : Slot)
    → IsCounted s
    → pos_part s.size < 2 ^ 63
    → pos_part s.allocated_bytes ≤ pos_part s.size
    → to_u64 (sub_i64 s.size (max_zero s.allocated_bytes))
      ≡ pos_part s.size - pos_part s.allocated_bytes
spare s c w h =
    ap (λ (z : ℤ). to_u64 (sub_i64 z (max_zero s.allocated_bytes))) c.0
    ∙ difference (pos_part s.size) (pos_part s.allocated_bytes) h w

-- What `release_reservation` takes off the count.
given_back :
    (n : ℕ) (s : Slot)
    → IsCounted s
    → charge s ≤ n
    → n < 2 ^ 62
    → sub64 n (
        if ltb_ℤ (max_zero s.allocated_bytes) s.size
        then to_u64 (sub_i64 s.size (max_zero s.allocated_bytes))
        else 0)
      ≡ n - (pos_part s.size - pos_part s.allocated_bytes)
given_back n s c h w = elim (Bool-cases (ltb_ℤ (max_zero s.allocated_bytes) s.size)) [
  | inl e ↦
      let room : pos_part s.allocated_bytes < pos_part s.size = ground (arith, c.0) in
      rw (e, spare s c (omega arith) (omega arith)) (sub64_exact n _ (omega arith) (omega arith))
  | inr e ↦
      let full : pos_part s.size ≤ pos_part s.allocated_bytes = ground (arith, c.0) in
      rw e (sub64_exact n 0 (omega arith) (omega arith) ∙ omega arith)
]

module _ (align_up : ℕ → ℕ → ℕ) (loose : ℕ) (r : HostResource) (v : Inv loose r) where
  -- A reservation, granted or refused, keeps the accounts: it is charged its aligned size.
  pub reserve-Inv : (bytes : ℕ) → Inv loose (reserve align_up r bytes).0
  unfolding reserve
  reserve-Inv bytes =
      elim (do_reserve_cases r (align_up bytes r.block_size) r.memory_limit
        (omega (arith, v.small))) [
          | inr (h, e) ↦ rw e v
          | inl (h, e) ↦ rw e (record {
            accounted = omega (
              arith,
              v.accounted,
              ap pos_part (to_i64_exact (align_up bytes r.block_size) (omega (arith, v.small))),
            );
            limited = omega (arith, v.limited);
            small = v.small;
            counted = (
              (ground (arith, to_i64_exact (align_up bytes r.block_size), v.small), refl),
              v.counted,
            );
          })
        ]

  -- So does `reserve_upto`, of as much as fits.
  pub reserve_upto-Inv : (bytes : ℕ) → Inv loose (reserve_upto align_up r bytes).0
  unfolding reserve_upto do_reserve_upto add64 to_i64
  reserve_upto-Inv bytes = ground (arith, v)

  -- To grow a reservation by n bytes charges n bytes. Where more is allocated from it than it had, part
  -- of that was charged already, and as much is counted twice: it belongs to nobody afterwards.
  pub grow-Inv :
      (s : Slot) (bytes : ℕ)
      → find_slot r.active_reservations s.uuid ≡ some s
      → let n = align_up bytes r.block_size in
        let over = pos_part s.allocated_bytes - pos_part s.size in
        Inv
          (if (grow_reservation_by align_up r s bytes).1 then loose + min n over else loose)
          (grow_reservation_by align_up r s bytes).0
  unfolding grow_reservation_by
  grow-Inv s bytes f =
      let n = align_up bytes r.block_size in
      let (c, below, small) = slot_small loose r s.uuid s v f in
      elim (do_reserve_cases r n r.memory_limit (omega (arith, v.small))) [
        | inr (h, e) ↦ rw e v
        | inl (h, e) ↦
            let g = larger s n c.0 (omega (arith, v.small)) in
            rw e (
              put-Inv loose _ r _ s (record s { size = add_i64 s.size (to_i64 n) }) v f
                (rw g refl, c.1) (omega (arith, ap pos_part g)) (omega arith) refl refl refl)
      ]

module _ (loose : ℕ) (r : HostResource) (v : Inv loose r) where
  -- To shrink a live reservation to what is allocated from it keeps the accounts.
  pub shrink-Inv :
      (s : Slot)
      → find_slot r.active_reservations s.uuid ≡ some s
      → Inv loose (shrink_reservation_to_fit r s)
  unfolding shrink_reservation_to_fit
  shrink-Inv s f =
      let (c, below, small) = slot_small loose r s.uuid s v f in
      elim (Bool-cases (ltb_ℤ (max_zero s.allocated_bytes) s.size)) [
        | inr e ↦ rw e v
        | inl e ↦
            let room : pos_part s.allocated_bytes < pos_part s.size = ground (arith, c.0) in
            let q = spare s c (omega arith) (omega arith) in
            let d : sub64 r.allocated_bytes (to_u64 (sub_i64 s.size (max_zero s.allocated_bytes)))
                ≡ r.allocated_bytes - (pos_part s.size - pos_part s.allocated_bytes) =
              rw q (sub64_exact r.allocated_bytes _ (omega arith) (omega arith)) in
            rw e (
              put-Inv loose loose r _ s (record s { size = max_zero s.allocated_bytes }) v f
                (refl, c.1) (omega (arith, d)) (omega (arith, d, v.limited)) refl refl refl)
      ]

  -- A released reservation gives back what is not allocated from it; the rest is loose from then on.
  pub release-Inv :
      (id : ℕ) (s : Slot)
      → find_slot r.active_reservations id ≡ some s
      → (r' : HostResource) × (release_reservation r id ≡ ok r')
        × Inv (loose + pos_part s.allocated_bytes) r'
  unfolding release_reservation
  release-Inv id s f =
      let (c, below, small) = slot_small loose r id s v f in
      let gone = pos_part s.size - pos_part s.allocated_bytes in
      let d : sub64 r.allocated_bytes (
            if ltb_ℤ (max_zero s.allocated_bytes) s.size
            then to_u64 (sub_i64 s.size (max_zero s.allocated_bytes))
            else 0)
          ≡ r.allocated_bytes - gone =
        given_back r.allocated_bytes s c (omega arith) (omega arith) in
      (
        record r {
          allocated_bytes = r.allocated_bytes - gone;
          active_reservations = erase_slot r.active_reservations id;
        },
        rw (f, release_reservation) (rw d),
        record {
          accounted = omega (arith, v.accounted, erase-sum r.active_reservations id s f);
          limited = omega (arith, v.limited);
          small = v.small;
          counted = erase-counted r.active_reservations id v.counted;
        },
      )
