-- ===== src/Space/Reserved.antt =====
-- `reservation` of include/memory/memory_reservation.hpp and src/memory/memory_reservation.cpp, with the virtual methods
-- and the destructors of the arenas: the reservation object is the id of its space and an arena, and each method takes
-- the space as it is then. An arena of the host resource stands in its table of slots; to read one that is not there
-- is to follow a dangling pointer, like a null pointer. The destructor of an arena notifies the channel of its space.
pub mod Lifecycle
pub mod Refused
mod Tests
use cu_cascade.Base.{
  ℕ, Bool, true, false, Option, none, some, Result, ok, err, null_dereference, ◌>>=◌,
}
use cu_cascade.Base.Int.{ℤ, to_u64}
use cu_cascade.Batch.{Tier}
use cu_cascade.Channel.{notify_on_exit}
use cu_cascade.Space.{
  MemorySpace, ReservationAllocator, disk_limiter, device_adaptor, host_resource, ReservedArena,
  disk_arena, device_arena, host_arena, Reservation, with_allocator, with_channel,
}
use cu_cascade.Disk
use cu_cascade.Device
use cu_cascade.Host

-- `_arena->size()`. An arena of another kind than the resource's does not occur.
abbrev pub arena_size : ReservationAllocator → ReservedArena → Result ℤ
arena_size mr (disk_arena a) = ok a.size
arena_size mr (device_arena a) = ok a.size
arena_size (host_resource mr) (host_arena id) = elim (Host.find_slot mr.active_reservations id) [
  | none ↦ err null_dereference
  | some s ↦ ok s.size
]
arena_size (disk_limiter mr) (host_arena id) = err null_dereference
arena_size (device_adaptor mr) (host_arena id) = err null_dereference

abbrev pub size_of : ReservationAllocator → Option ReservedArena → Result ℕ
size_of mr none = err null_dereference
size_of mr (some a) = arena_size mr a >>= λ size. ok (to_u64 (Host.max_zero size))

unfoldable pub size : MemorySpace → Reservation → Result ℕ
size s r = size_of s.reservation_allocator r.arena

unfoldable pub tier : MemorySpace → Reservation → Tier
tier s r = s.id.tier

unfoldable pub device_id : MemorySpace → Reservation → ℤ
device_id s r = s.id.device_id

-- The allocator and the arena after `grow_by`, and what it returns.
abbrev pub Grown : Type 0
Grown = Result ((ReservationAllocator × ReservedArena) × Bool)

module _ (align_up : ℕ → ℕ → ℕ) where
  abbrev pub grow_slot : Host.HostResource → ℕ → ℕ → Option Host.Slot → Grown
  grow_slot mr id bytes none = err null_dereference
  grow_slot mr id bytes (some slot) =
      let (mr', grown) = Host.grow_reservation_by align_up mr slot bytes in
      ok ((host_resource mr', host_arena id), grown)

  -- `_arena->grow_by(additional_bytes)`
  abbrev pub grow_arena : ReservationAllocator → ReservedArena → ℕ → Grown
  grow_arena mr (disk_arena a) bytes =
      let (a', grown) = Disk.grow_by a bytes in ok ((mr, disk_arena a'), grown)
  grow_arena (device_adaptor mr) (device_arena a) bytes =
      let ((mr', a'), grown) = Device.grow_reservation_by mr a bytes in
      ok ((device_adaptor mr', device_arena a'), grown)
  grow_arena (host_resource mr) (host_arena id) bytes =
      grow_slot mr id bytes (Host.find_slot mr.active_reservations id)
  grow_arena (disk_limiter mr) (device_arena a) bytes = err null_dereference
  grow_arena (host_resource mr) (device_arena a) bytes = err null_dereference
  grow_arena (disk_limiter mr) (host_arena id) bytes = err null_dereference
  grow_arena (device_adaptor mr) (host_arena id) bytes = err null_dereference

  abbrev pub grow_of : ReservationAllocator → Option ReservedArena → ℕ → Grown
  grow_of mr none bytes = err null_dereference
  grow_of mr (some a) bytes = grow_arena mr a bytes

  unfoldable pub grow_by :
      MemorySpace → Reservation → ℕ → Result ((MemorySpace × Reservation) × Bool)
  grow_by s r bytes = grow_of s.reservation_allocator r.arena bytes >>= λ ((mr, a), grown).
      ok ((with_allocator s mr, record r { arena = some a }), grown)

abbrev pub Shrunk : Type 0
Shrunk = Result (ReservationAllocator × ReservedArena)

abbrev pub shrink_slot : Host.HostResource → ℕ → Option Host.Slot → Shrunk
shrink_slot mr id none = err null_dereference
shrink_slot mr id (some slot) =
    ok (host_resource (Host.shrink_reservation_to_fit mr slot), host_arena id)

-- `_arena->shrink_to_fit()`
abbrev pub shrink_arena : ReservationAllocator → ReservedArena → Shrunk
shrink_arena mr (disk_arena a) = ok (mr, disk_arena (Disk.shrink_to_fit a))
shrink_arena (device_adaptor mr) (device_arena a) =
    let (mr', a') = Device.shrink_reservation_to_fit mr a in
    ok (device_adaptor mr', device_arena a')
shrink_arena (host_resource mr) (host_arena id) =
    shrink_slot mr id (Host.find_slot mr.active_reservations id)
shrink_arena (disk_limiter mr) (device_arena a) = err null_dereference
shrink_arena (host_resource mr) (device_arena a) = err null_dereference
shrink_arena (disk_limiter mr) (host_arena id) = err null_dereference
shrink_arena (device_adaptor mr) (host_arena id) = err null_dereference

abbrev pub shrink_of : ReservationAllocator → Option ReservedArena → Shrunk
shrink_of mr none = err null_dereference
shrink_of mr (some a) = shrink_arena mr a

unfoldable pub shrink_to_fit : MemorySpace → Reservation → Result (MemorySpace × Reservation)
shrink_to_fit s r = shrink_of s.reservation_allocator r.arena >>= λ (mr, a).
    ok (with_allocator s mr, record r { arena = some a })

-- What the destructor of the arena does to the resource.
abbrev pub release_arena : ReservationAllocator → ReservedArena → Result ReservationAllocator
release_arena (disk_limiter mr) (disk_arena a) =
    ok (disk_limiter (Disk.do_release_reservation mr a))
release_arena (device_adaptor mr) (device_arena a) =
    ok (device_adaptor (Device.do_release_reservation mr a))
release_arena (host_resource mr) (host_arena id) =
    Host.release_reservation mr id >>= λ mr'. ok (host_resource mr')
release_arena (device_adaptor mr) (disk_arena a) = err null_dereference
release_arena (host_resource mr) (disk_arena a) = err null_dereference
release_arena (disk_limiter mr) (device_arena a) = err null_dereference
release_arena (host_resource mr) (device_arena a) = err null_dereference
release_arena (disk_limiter mr) (host_arena id) = err null_dereference
release_arena (device_adaptor mr) (host_arena id) = err null_dereference

abbrev pub notify_channel : MemorySpace → MemorySpace
unfolding notify_on_exit
notify_channel s = with_channel s (notify_on_exit s.notification_channel)

-- The destructor: a null arena has none.
abbrev pub destroy_arena : MemorySpace → Option ReservedArena → Result MemorySpace
destroy_arena s none = ok s
destroy_arena s (some a) =
    release_arena s.reservation_allocator a >>= λ mr. ok (notify_channel (with_allocator s mr))

unfoldable pub destroy : MemorySpace → Reservation → Result MemorySpace
unfolding notify_channel
destroy s r = destroy_arena s r.arena
