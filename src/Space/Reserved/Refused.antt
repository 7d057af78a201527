-- ===== src/Space/Reserved/Refused.antt =====
-- A reservation that is refused.
use cu_cascade.Base.{ℕ, ◌≡◌, refl, ap, List, Option, none, some, err, ok, null_dereference, arith}
use cu_cascade.Base.Words.{sub64}
use cu_cascade.Space.{
  MemorySpace, ReservationAllocator, disk_limiter, device_adaptor, host_resource, Reservation,
  Wakes, made, reserve, make_reservation_or_null, make_reservation, retry, option_map, disk_arena,
  device_arena, host_arena,
}
use cu_cascade.Channel.{get_notifier, release_notifier}
use cu_cascade.Space.Reserved.{size, grow_by, shrink_to_fit, destroy}
use cu_cascade.Disk
use cu_cascade.Device
use cu_cascade.Host

disk_same :
    (l l' : Disk.DiskAccessLimiter) (a : Option Disk.DiskReservedArena) (n : ℕ)
    → Disk.reserve l n ≡ (l', a)
    → a ≡ none
    → l' ≡ l
unfolding Disk.reserve
disk_same l l' a n e h = ground arith

device_same :
    (r r' : Device.DeviceResource) (a : Option Device.DeviceReservedArena) (n : ℕ)
    → Device.reserve r n ≡ (r', a)
    → a ≡ none
    → r' ≡ r
unfolding Device.reserve
device_same r r' a n e h = ground arith

host_same :
    (align_up : ℕ → ℕ → ℕ) (r r' : Host.HostResource) (a : Option ℕ) (n : ℕ)
    → Host.reserve align_up r n ≡ (r', a)
    → a ≡ none
    → r' ≡ r
unfolding Host.reserve Host.do_reserve
host_same align_up r r' a n e h = ground arith

option_map-none : {A B : Type 0} (f : A → B) (a : Option A) → option_map f a ≡ none → a ≡ none
option_map-none f none h = refl
option_map-none f (some a) h = absurd (cc)

module _ (align_up : ℕ → ℕ → ℕ) (n : ℕ) where
  -- A resource that refuses is unchanged.
  reserve_same :
      (mr : ReservationAllocator)
      → (reserve align_up mr n).1 ≡ none
      → (reserve align_up mr n).0 ≡ mr
  reserve_same (disk_limiter l) h = ap disk_limiter (
      disk_same l (Disk.reserve l n).0 (Disk.reserve l n).1 n refl
        (option_map-none disk_arena (Disk.reserve l n).1 h))
  reserve_same (device_adaptor r) h = ap device_adaptor (
      device_same r (Device.reserve r n).0 (Device.reserve r n).1 n refl
        (option_map-none device_arena (Device.reserve r n).1 h))
  reserve_same (host_resource r) h = ap host_resource (
      host_same align_up r (Host.reserve align_up r n).0 (Host.reserve align_up r n).1 n refl
        (option_map-none host_arena (Host.reserve align_up r n).1 h))

  -- A space that refuses a reservation does not wait, not even in `make_reservation`: it returns an object whose methods
  -- `size`, `grow_by` and `shrink_to_fit` dereference a null pointer; the destructor does nothing. Of the space only the count of
  -- notifiers has changed, and is one less, in 64 bits. (With assertions, the constructor of the object aborts.)
  pub refused_is_null :
      (waits : List Wakes) (s : MemorySpace)
      → (reserve align_up s.reservation_allocator n).1 ≡ none
      → let (s1, m) = make_reservation align_up waits s n in
        (r : Reservation) × (m ≡ made r)
        × (size s1 r ≡ err null_dereference)
        × ((bytes : ℕ) → grow_by align_up s1 r bytes ≡ err null_dereference)
        × (shrink_to_fit s1 r ≡ err null_dereference)
        × (destroy s1 r ≡ ok s1)
        × (s1 ≡ record s {
          notification_channel = record s.notification_channel {
            n_active_notifiers = sub64 s.notification_channel.n_active_notifiers 1;
          };
        })
  unfolding make_reservation make_reservation_or_null retry size grow_by shrink_to_fit destroy
      get_notifier release_notifier
  refused_is_null waits s h = (
    record { space = s.id; arena = none },
    rw h refl,
    refl,
    λ bytes. refl,
    refl,
    refl,
    rw (h, reserve_same s.reservation_allocator h) refl,
  )
