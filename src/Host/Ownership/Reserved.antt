-- ===== src/Host/Ownership/Reserved.antt =====
-- Reservations keep the slots above the allocations that point to them.
use mathlib.Core.Path.{subst}
use cu_cascade.Base.{
  ℕ, ◌+◌, ◌≤◌, ◌≡◌, refl, some, List, arith, if◌then◌else◌, Bool-cases, inl, inr, Result, ok, err,
}
use cu_cascade.Base.Int.{pos_part, ltb_ℤ}
use cu_cascade.Host.{
  Slot, HostResource, find_slot, erase_slot, Allocation, reserve, reserve_upto, do_reserve_upto,
  grow_reservation_by, shrink_reservation_to_fit, release_reservation, max_zero,
}
use cu_cascade.Host.Charges.{Inv}
use cu_cascade.Host.Reservations.{do_reserve_cases}
use cu_cascade.Host.Ownership.{bytes, Covered}
use cu_cascade.Host.Ownership.Calls.{Changed, put-Covered, register-Covered, erase-Covered}

module _ (align_up : ℕ → ℕ → ℕ) (live : List Allocation) (loose : ℕ) (r : HostResource)
    (i : Inv loose r) (v : Covered live loose r) where
  pub reserve-Covered : (bytes : ℕ) → Covered live loose (reserve align_up r bytes).0
  unfolding reserve
  reserve-Covered bytes =
      elim (do_reserve_cases r (align_up bytes r.block_size) r.memory_limit
        (omega (arith, i.small))) [
          | inr (h, e) ↦ rw e v
          | inl (h, e) ↦ rw e (register-Covered live loose r _ v _ refl refl refl refl)
        ]

  pub reserve_upto-Covered : (bytes : ℕ) → Covered live loose (reserve_upto align_up r bytes).0
  unfolding reserve_upto do_reserve_upto
  reserve_upto-Covered bytes = register-Covered live loose r _ v _ refl refl refl refl

  pub grow-Covered :
      (s : Slot) (bytes loose' : ℕ)
      → find_slot r.active_reservations s.uuid ≡ some s
      → loose ≤ loose'
      → Covered live
          (if (grow_reservation_by align_up r s bytes).1 then loose' else loose)
          (grow_reservation_by align_up r s bytes).0
  unfolding grow_reservation_by
  grow-Covered s bytes loose' f h =
      elim (do_reserve_cases r (align_up bytes r.block_size) r.memory_limit
        (omega (arith, i.small))) [
          | inr (h', e) ↦ rw e v
          | inl (h', e) ↦ rw e (
              put-Covered live live loose loose' r _ v s _ f
                (record { size = refl; next = refl; slots = refl }) (v.covered s.uuid s f)
                (λ id k. omega arith) (omega (arith, v.strayed)))
        ]

module _ (live : List Allocation) (loose : ℕ) (r : HostResource) (v : Covered live loose r) where
  pub shrink-Covered :
      (s : Slot)
      → find_slot r.active_reservations s.uuid ≡ some s
      → Covered live loose (shrink_reservation_to_fit r s)
  unfolding shrink_reservation_to_fit
  shrink-Covered s f = elim (Bool-cases (ltb_ℤ (max_zero s.allocated_bytes) s.size)) [
    | inr e ↦ rw e v
    | inl e ↦ rw e (
        put-Covered live live loose loose r _ v s _ f
          (record { size = refl; next = refl; slots = refl }) (v.covered s.uuid s f)
          (λ id k. omega arith) v.strayed)
  ]

  abbrev Erased : ℕ → Result HostResource → Type 0
  Erased id (ok q) = Changed r q (erase_slot r.active_reservations id)
  Erased id (err e) = Unit

  release_erases :
      (s : Slot)
      → find_slot r.active_reservations s.uuid ≡ some s
      → Erased s.uuid (release_reservation r s.uuid)
  unfolding release_reservation
  release_erases s f =
      rw (f, Erased, release_reservation) (record { size = refl; next = refl; slots = refl })

  pub release-Covered :
      (r' : HostResource) (s : Slot)
      → find_slot r.active_reservations s.uuid ≡ some s
      → release_reservation r s.uuid ≡ ok r'
      → Covered live (loose + pos_part s.allocated_bytes) r'
  release-Covered r' s f e =
      erase-Covered live loose r r' v s f (subst (Erased s.uuid) e (release_erases s f))
