-- ===== src/Space.antt =====
-- include/memory/memory_space.hpp and src/memory/memory_space.cpp: what a memory space tells of its
-- memory, and when it is to be downgraded. The allocator is one of three.
pub mod Downgrading
pub mod Reserved
mod Tests
use cu_cascade.Base.{
  Option, none, some, List, [], ◌∷◌, ℕ, ◌+◌, ◌-◌, Bool, leb, if◌then◌else◌, runtime_error, Result,
  ok, err,
}
use cu_cascade.Base.Words.{sub64}
use cu_cascade.Batch.{MemorySpaceId}
use cu_cascade.Channel.{
  WaitStatus, idle, notified, shutdown, NotificationChannel, get_notifier, release_notifier,
  shutdown_channel, poll,
}
use cu_cascade.Disk
use cu_cascade.Device
use cu_cascade.Device.Peaks
use cu_cascade.Host

pub data ReservationAllocator : Type 0 where
  disk_limiter : Disk.DiskAccessLimiter → ReservationAllocator
  device_adaptor : Device.DeviceResource → ReservationAllocator
  host_resource : Host.HostResource → ReservationAllocator

pub record MemorySpace : Type 0 where
  pub id : MemorySpaceId
  pub memory_limit : ℕ
  pub capacity : ℕ
  pub start_downgrading_memory_threshold : ℕ
  pub stop_downgrading_memory_threshold : ℕ
  pub notification_channel : NotificationChannel
  pub reservation_allocator : ReservationAllocator

unfoldable pub get_available_memory : MemorySpace → ℕ
get_available_memory s = elim s.reservation_allocator [
  | disk_limiter mr ↦ Disk.get_available_memory mr
  | device_adaptor mr ↦ Device.get_available_memory mr
  | host_resource mr ↦ Host.get_available_memory mr
]

unfoldable pub get_total_reserved_memory : MemorySpace → ℕ
get_total_reserved_memory s = elim s.reservation_allocator [
  | disk_limiter mr ↦ Disk.get_total_reserved_bytes mr
  | device_adaptor mr ↦ mr.total_reserved_bytes
  | host_resource mr ↦ Host.get_total_reserved_bytes mr
]

unfoldable pub get_active_reservation_count : MemorySpace → ℕ
get_active_reservation_count s = elim s.reservation_allocator [
  | disk_limiter mr ↦ Disk.get_active_reservation_count mr
  | device_adaptor mr ↦ mr.number_of_allocations
  | host_resource mr ↦ Host.get_active_reservation_count mr
]

-- `_memory_limit - get_available_memory()`, in `size_t`.
abbrev pub consumed : MemorySpace → ℕ
consumed s = sub64 s.memory_limit (get_available_memory s)

unfoldable pub should_downgrade_memory : MemorySpace → Bool
should_downgrade_memory s = leb s.start_downgrading_memory_threshold (consumed s)

unfoldable pub should_stop_downgrading_memory : MemorySpace → Bool
should_stop_downgrading_memory s = leb (consumed s) s.stop_downgrading_memory_threshold

unfoldable pub get_amount_to_downgrade : MemorySpace → ℕ
get_amount_to_downgrade s =
    if leb (consumed s) s.stop_downgrading_memory_threshold
    then 0
    else consumed s - s.stop_downgrading_memory_threshold

pub data ReservedArena : Type 0 where
  disk_arena : Disk.DiskReservedArena → ReservedArena
  device_arena : Device.DeviceReservedArena → ReservedArena
  host_arena : ℕ → ReservedArena

-- `reservation`: the arena is null if there is none.
pub record Reservation : Type 0 where
  pub space : MemorySpaceId
  pub arena : Option ReservedArena

-- What a request for a reservation returns: an object, a null pointer, or nothing yet.
pub data Made : Type 0 where
  made : Reservation → Made
  null : Made
  blocked : Made

abbrev pub with_allocator : MemorySpace → ReservationAllocator → MemorySpace
with_allocator s mr = record s { reservation_allocator = mr }

abbrev pub with_channel : MemorySpace → NotificationChannel → MemorySpace
with_channel s c = record s { notification_channel = c }

-- The notifier that a request makes goes into the arena; without an arena it is destroyed.
abbrev pub with_notifier : MemorySpace → Option ReservedArena → MemorySpace
unfolding get_notifier release_notifier
with_notifier s none = with_channel s (release_notifier (get_notifier s.notification_channel))
with_notifier s (some arena) = with_channel s (get_notifier s.notification_channel)

-- What other threads do to the space up to each wake-up of one wait.
abbrev pub Wakes : Type 0
Wakes = List (MemorySpace → MemorySpace)

-- `_notification_channel->wait()`; `none` means that it still sleeps after the wake-ups.
unfoldable pub wait_in : Wakes → MemorySpace → MemorySpace × Option WaitStatus
unfolding poll
wait_in [] s = let (c, status) = poll s.notification_channel in (with_channel s c, status)
wait_in (w ∷ ws) s =
    let (c, status) = poll s.notification_channel in
    elim status [ some x ↦ (with_channel s c, some x) | none ↦ wait_in ws (w (with_channel s c)) ]

-- `reservation::create`, which makes an object of any arena.
abbrev pub create : MemorySpace → Option ReservedArena → Made
create s arena = made (record { space = s.id; arena = arena })

abbrev pub option_map : {A B : Type 0} → (A → B) → Option A → Option B
option_map f none = none
option_map f (some a) = some (f a)

module _ (align_up : ℕ → ℕ → ℕ) where
  -- The arena of `make_reservation_or_null`, and the allocator that is left.
  abbrev pub reserve : ReservationAllocator → ℕ → ReservationAllocator × Option ReservedArena
  reserve (disk_limiter mr) size =
      let (mr', a) = Disk.reserve mr size in (disk_limiter mr', option_map disk_arena a)
  reserve (device_adaptor mr) size =
      let (mr', a) = Device.reserve mr size in (device_adaptor mr', option_map device_arena a)
  reserve (host_resource mr) size =
      let (mr', a) = Host.reserve align_up mr size in (host_resource mr', option_map host_arena a)

  abbrev pub reserve_upto : ReservationAllocator → ℕ → ReservationAllocator × ReservedArena
  reserve_upto (disk_limiter mr) size =
      let (mr', a) = Disk.reserve_upto mr size in (disk_limiter mr', disk_arena a)
  reserve_upto (device_adaptor mr) size =
      let (mr', a) = Device.reserve_upto mr size in (device_adaptor mr', device_arena a)
  reserve_upto (host_resource mr) size =
      let (mr', a) = Host.reserve_upto align_up mr size in (host_resource mr', host_arena a)

  unfoldable pub make_reservation_or_null : MemorySpace → ℕ → MemorySpace × Made
  unfolding with_notifier
  make_reservation_or_null s size =
      let (mr, arena) = reserve s.reservation_allocator size in
      (with_notifier (with_allocator s mr) arena, create s arena)

  unfoldable pub make_reservation_upto : MemorySpace → ℕ → MemorySpace × Made
  unfolding with_notifier
  make_reservation_upto s size =
      let (mr, arena) = reserve_upto s.reservation_allocator size in
      (with_notifier (with_allocator s mr) (some arena), create s (some arena))

  -- The loop while the reservation is null, with the wake-ups of each of its waits.
  unfoldable pub retry : ℕ → List Wakes → MemorySpace × Made → MemorySpace × Made
  unfolding make_reservation_or_null make_reservation_upto wait_in
  retry size waits (s, made r) = (s, made r)
  retry size waits (s, blocked) = (s, blocked)
  retry size [] (s, null) = (s, blocked)
  retry size (w ∷ waits) (s, null) =
      let s' : MemorySpace = (wait_in w s).0 in
      elim (wait_in w s).1 [
        | none ↦ (s', blocked)
        | some shutdown ↦ (s', null)
        | some idle ↦ make_reservation_upto s' size
        | some notified ↦ retry size waits (make_reservation_or_null s' size)
      ]

  unfoldable pub make_reservation : List Wakes → MemorySpace → ℕ → MemorySpace × Made
  unfolding make_reservation_or_null retry
  make_reservation waits s size = retry size waits (make_reservation_or_null s size)

unfoldable pub shutdown_space : MemorySpace → MemorySpace
unfolding shutdown_channel
shutdown_space s = with_channel s (shutdown_channel s.notification_channel)

-- The stream pool, if there is one, is RMM's.
unfoldable pub acquire_stream : MemorySpace → Option ℕ → Result ℕ
acquire_stream s none = err runtime_error
acquire_stream s (some stream) = ok stream

-- With the memory that the reservation of a stream has left.
unfoldable pub get_available_memory_on : MemorySpace → ℕ → ℕ
get_available_memory_on s stream = elim s.reservation_allocator [
  | disk_limiter mr ↦ Disk.get_available_memory mr
  | device_adaptor mr ↦ Device.Peaks.get_available_memory_on mr stream
  | host_resource mr ↦ Host.get_available_memory mr
]
