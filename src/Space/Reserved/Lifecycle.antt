-- ===== src/Space/Reserved/Lifecycle.antt =====
-- A reservation that is made and destroyed.
use cu_cascade.Base.{
  ℕ, ◌^◌, ◌<◌, ◌≡◌, ◌≢◌, refl, sym, ap, [], ◌∙◌, true, Option, none, some, ok, arith,
}
use mathlib.Core.Path.{subst}
use cu_cascade.Base.Words.{add64, sub64, word_size}
use cu_cascade.Base.Int.{to_i64, to_u64, sub_i64}
use cu_cascade.Space.{
  MemorySpace, ReservationAllocator, disk_limiter, device_adaptor, host_resource, ReservedArena,
  disk_arena, device_arena, host_arena, Reservation, made, with_allocator, with_channel,
  with_notifier, option_map, reserve, wait_in, make_reservation_or_null, get_available_memory,
  get_total_reserved_memory, get_active_reservation_count,
}
use cu_cascade.Channel.{get_notifier, notify_on_exit}
use cu_cascade.Space.Reserved.{destroy}
use cu_cascade.Disk
use cu_cascade.Device
use cu_cascade.Host

-- The limits and counters that do not let anything wrap.
abbrev pub IsSmall : ReservationAllocator → Type 0
IsSmall (disk_limiter mr) = (mr.memory_limit < 2 ^ 62) × (mr.total_reservation_count < word_size)
IsSmall (device_adaptor mr) =
    (mr.memory_limit < 2 ^ 62)
    × (mr.total_reserved_bytes < word_size)
    × (mr.number_of_allocations < word_size)
IsSmall (host_resource mr) = mr.memory_limit < 2 ^ 62

disk_again :
    (l l' : Disk.DiskAccessLimiter) (a : Disk.DiskReservedArena) (n : ℕ)
    → l.memory_limit < 2 ^ 62
    → l.total_reservation_count < word_size
    → Disk.reserve l n ≡ (l', some a)
    → Disk.do_release_reservation l' a
      ≡ record l { peak_total_allocated_bytes = l'.peak_total_allocated_bytes }
unfolding Disk.reserve Disk.do_release_reservation add64 sub64 to_i64
disk_again l l' a n h w e = ground arith

device_again :
    (r r' : Device.DeviceResource) (a : Device.DeviceReservedArena) (n : ℕ)
    → r.memory_limit < 2 ^ 62
    → r.total_reserved_bytes < word_size
    → r.number_of_allocations < word_size
    → Device.reserve r n ≡ (r', some a)
    → Device.do_release_reservation r' a
      ≡ record r { peak_total_allocated_bytes = r'.peak_total_allocated_bytes }
unfolding Device.reserve Device.do_release_reservation add64 sub64 to_i64 to_u64 sub_i64
device_again r r' a n h w v e = ground arith

host_again :
    (align_up : ℕ → ℕ → ℕ) (r r' : Host.HostResource) (id n : ℕ)
    → r.memory_limit < 2 ^ 62
    → Host.reserve align_up r n ≡ (r', some id)
    → Host.release_reservation r' id
      ≡ ok (record r { peak_allocated_bytes = r'.peak_allocated_bytes; next_uuid = r'.next_uuid })
unfolding Host.reserve Host.do_reserve Host.release_reservation add64 sub64 to_i64 to_u64 sub_i64
host_again align_up r r' id n h e = ground arith

-- The amounts of a space.
abbrev pub Same : MemorySpace → MemorySpace → Type 0
Same s s' =
    (get_available_memory s' ≡ get_available_memory s)
    × (get_total_reserved_memory s' ≡ get_total_reserved_memory s)
    × (get_active_reservation_count s' ≡ get_active_reservation_count s)

-- What the space is after the destruction.
abbrev after : MemorySpace → ReservationAllocator → MemorySpace
after s mr =
    with_channel (with_allocator s mr) (notify_on_exit (get_notifier s.notification_channel))

abbrev Ends : MemorySpace → ReservationAllocator × Option ReservedArena → Type 0
Ends s (mr, arena) =
    (s' : MemorySpace) × (destroy (with_notifier (with_allocator s mr) arena)
        (record { space = s.id; arena = arena })
      ≡ ok s')
    × Same s s'
    × (s'.notification_channel.has_been_notified ≡ true)

wakes :
    (s : MemorySpace) → s.notification_channel.has_been_notified ≡ true → (wait_in [] s).1 ≢ none
unfolding wait_in
wakes s h e = ground arith

module _ (align_up : ℕ → ℕ → ℕ) (s : MemorySpace) (n : ℕ) where
  disk-Ends :
      (l l' : Disk.DiskAccessLimiter) (arena : Option Disk.DiskReservedArena)
      → s.reservation_allocator ≡ disk_limiter l
      → IsSmall (disk_limiter l)
      → Disk.reserve l n ≡ (l', arena)
      → arena ≢ none
      → Ends s (disk_limiter l', option_map disk_arena arena)
  unfolding destroy get_notifier notify_on_exit get_available_memory get_total_reserved_memory
      get_active_reservation_count Disk.get_available_memory Disk.get_total_reserved_bytes
      Disk.get_active_reservation_count
  disk-Ends l l' none h k e q = absurd (q refl)
  disk-Ends l l' (some a) h k e q = (
    after s (disk_limiter (Disk.do_release_reservation l' a)),
    refl,
    rw (disk_again l l' a n k.0 k.1 e, h) (refl, refl, refl),
    refl,
  )

  device-Ends :
      (mr mr' : Device.DeviceResource) (arena : Option Device.DeviceReservedArena)
      → s.reservation_allocator ≡ device_adaptor mr
      → IsSmall (device_adaptor mr)
      → Device.reserve mr n ≡ (mr', arena)
      → arena ≢ none
      → Ends s (device_adaptor mr', option_map device_arena arena)
  unfolding destroy get_notifier notify_on_exit get_available_memory get_total_reserved_memory
      get_active_reservation_count Device.get_available_memory
  device-Ends mr mr' none h k e q = absurd (q refl)
  device-Ends mr mr' (some a) h k e q = (
    after s (device_adaptor (Device.do_release_reservation mr' a)),
    refl,
    rw (device_again mr mr' a n k.0 k.1 k.2 e, h) (refl, refl, refl),
    refl,
  )

  host-Ends :
      (mr mr' : Host.HostResource) (arena : Option ℕ)
      → s.reservation_allocator ≡ host_resource mr
      → IsSmall (host_resource mr)
      → Host.reserve align_up mr n ≡ (mr', arena)
      → arena ≢ none
      → Ends s (host_resource mr', option_map host_arena arena)
  unfolding destroy get_notifier notify_on_exit get_available_memory get_total_reserved_memory
      get_active_reservation_count Host.get_available_memory Host.get_total_reserved_bytes
      Host.get_active_reservation_count
  host-Ends mr mr' none h k e q = absurd (q refl)
  host-Ends mr mr' (some id) h k e q =
      let mr'' : Host.HostResource = record mr {
        peak_allocated_bytes = mr'.peak_allocated_bytes;
        next_uuid = mr'.next_uuid;
      } in
      (
        after s (host_resource mr''),
        rw (host_again align_up mr mr' id n k e) refl,
        rw h (refl, refl, refl),
        refl,
      )

  reserve-Ends :
      (mr : ReservationAllocator)
      → s.reservation_allocator ≡ mr
      → IsSmall mr
      → (reserve align_up mr n).1 ≢ none
      → Ends s (reserve align_up mr n)
  reserve-Ends (disk_limiter l) h k q =
      disk-Ends l (Disk.reserve l n).0 (Disk.reserve l n).1 h k refl
        (λ e. q (ap (option_map disk_arena) e))
  reserve-Ends (device_adaptor mr) h k q =
      device-Ends mr (Device.reserve mr n).0 (Device.reserve mr n).1 h k refl
        (λ e. q (ap (option_map device_arena) e))
  reserve-Ends (host_resource mr) h k q =
      host-Ends mr (Host.reserve align_up mr n).0 (Host.reserve align_up mr n).1 h k refl
        (λ e. q (ap (option_map host_arena) e))

  -- A reservation that a GPU, host or disk space grants, and that is destroyed at once, leaves the available memory,
  -- the reserved memory and the number of reservations of the space as they were, and wakes a thread that waits for memory;
  -- the limit is below 2^62, and the counters do not wrap.
  pub make-destroy :
      (r : Reservation)
      → (make_reservation_or_null align_up s n).1 ≡ made r
      → r.arena ≢ none
      → IsSmall s.reservation_allocator
      → let s1 = (make_reservation_or_null align_up s n).0 in
        (s' : MemorySpace) × (destroy s1 r ≡ ok s') × Same s s' × ((wait_in [] s').1 ≢ none)
  unfolding make_reservation_or_null
  make-destroy r e q k =
      let arena = (reserve align_up s.reservation_allocator n).1 in
      let f : record { space = s.id; arena = arena } ≡ r = ground (arith, e) in
      let (s', d, same, woken) =
        reserve-Ends s.reservation_allocator refl k
          (λ z. q (ap (λ (x : Reservation). x.arena) (sym f) ∙ z)) in
      let s1 = (make_reservation_or_null align_up s n).0 in
      (s', subst (λ (x : Reservation). destroy s1 x ≡ ok s') f d, same, wakes s' woken)
