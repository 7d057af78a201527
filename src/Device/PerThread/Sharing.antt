-- ===== src/Device/PerThread/Sharing.antt =====
-- A thread's reservation is used by every resource that the thread allocates from.
use cu_cascade.Base.{ℕ, ◌+◌, ◌^◌, ◌≤◌, ◌<◌, ◌≡◌, ◌≢◌, refl, sym, ◌∙◌, some, ok, arith, update}
use cu_cascade.Base.Int.{ℤ, pos}
use cu_cascade.Device.{DeviceResource, ignore, count_bytes, get_available_memory}
use cu_cascade.Device.Charging.{arena_of, charge_of, check_charges_growth}
use cu_cascade.Device.Returning.{counted, unmanaged_fits}
use cu_cascade.Device.Reserving.{to_u64_small}
use cu_cascade.Device.PerThread.{
  Thread, OwnedState, put, put_arena, do_allocate, do_allocate_managed, get_allocated_bytes,
}

update_same : (f : ℕ → DeviceResource) (i : ℕ) (r : DeviceResource) → update f i r i ≡ r
update_same f i r = ground arith

update_other :
    (f : ℕ → DeviceResource) (i j : ℕ) (r : DeviceResource) → i ≢ j → update f i r j ≡ f j
update_other f i j r h = ground arith

module _ (align_up : ℕ → ℕ → ℕ) (alignment : ℕ) (pad : ℕ → ℕ) (d : Thread)
    (i o stream size pre bytes ptr : ℕ) (peak : ℤ) where
  abbrev padded : ℕ
  padded = align_up bytes alignment

  abbrev attached : OwnedState
  attached = record {
    owner = o;
    memory_reservation = arena_of size pre peak;
    reservation_policy = ignore;
  }

  allocated :
      d.reservation_state ≡ some attached
      → i ≢ o
      → pre + padded ≤ size
      → size < 2 ^ 61
      → (d.resource i).total_allocated_bytes ≤ (d.resource i).capacity
      → (d.resource i).capacity < 2 ^ 62
      → do_allocate align_up alignment pad d i stream bytes (some ptr) ≡ (
        put_arena
            (put (put d o (d.resource o)) i (counted (d.resource i) (charge_of size pre padded)))
            attached
            (count_bytes (arena_of size pre peak) (pos (pre + padded))),
        ok ptr,
      )
  unfolding do_allocate do_allocate_managed
  allocated e ne f s t c =
      rw
        (
          e,
          do_allocate,
          do_allocate_managed,
          check_charges_growth pad (d.resource o) 0 size pre padded peak (omega arith) (omega arith)
              (omega arith),
          update_other d.resource o i (d.resource o) (λ q. ne (sym q)),
          unmanaged_fits (d.resource i) (charge_of size pre padded) ptr (omega arith) c,
        )
        refl

  -- With the reservation of one resource attached to its thread, under the policy that ignores the limit, an allocation from any
  -- other resource that fits into what the reservation has left is counted there, and not by the resource that
  -- it is made from: this one asks the upstream resource for the memory even if it is full, and tells
  -- the same available memory afterwards. The sizes are below 2^61 and the capacity is below 2^62.
  pub other_resource_uncounted :
      d.reservation_state ≡ some attached
      → i ≢ o
      → pre + padded ≤ size
      → size < 2 ^ 61
      → (d.resource i).total_allocated_bytes ≤ (d.resource i).capacity
      → (d.resource i).capacity < 2 ^ 62
      → let (d', result) = do_allocate align_up alignment pad d i stream bytes (some ptr) in
        (result ≡ ok ptr)
        × ((d'.resource i).total_allocated_bytes ≡ (d.resource i).total_allocated_bytes)
        × (get_available_memory (d'.resource i) ≡ get_available_memory (d.resource i))
        × (d'.resource o ≡ d.resource o)
        × (get_allocated_bytes d' o stream ≡ pre + padded)
  unfolding get_allocated_bytes get_available_memory
  other_resource_uncounted e ne f s t c = rw (allocated e ne f s t c) (
    refl,
    rw
        (update_same (update d.resource o (d.resource o)) i
          (counted (d.resource i) (charge_of size pre padded)))
        (omega arith),
    rw
        (update_same (update d.resource o (d.resource o)) i
          (counted (d.resource i) (charge_of size pre padded)))
        (ground arith),
    update_other (update d.resource o (d.resource o)) i o
          (counted (d.resource i) (charge_of size pre padded)) ne
        ∙ update_same d.resource o (d.resource o),
    to_u64_small (pre + padded) (omega arith),
  )
