-- ===== src/Disk.antt =====
-- include/memory/disk_access_limiter.hpp and src/memory/disk_access_limiter.cpp. The counters are those
-- of Atomics, with no interference inside one operation. A size is an `int64_t`, an integer here.
pub mod Accounts
mod Tests
use cu_cascade.Base.Text.{Text}
use cu_cascade.Base.{
  ℕ, ◌+◌, ◌-◌, ◌%◌, Bool, true, false, Option, none, some, [], leb, if◌then◌else◌,
}
use cu_cascade.Base.Words.{add64, sub64, word_size}
use cu_cascade.Base.Int.{ℤ, pos, pos_part, to_i64, ◌+ℤ◌}
use cu_cascade.Atomics.{counter_after, try_add, add_bounded, update_peak, sub}
use cu_cascade.Batch.{MemorySpaceId}

pub record DiskAccessLimiter : Type 0 where
  pub space_id : MemorySpaceId
  pub memory_limit : ℕ
  pub capacity : ℕ
  pub total_allocated_bytes : ℕ
  pub peak_total_allocated_bytes : ℕ
  pub total_reservation_count : ℕ
  pub mounting_path : Text

pub record DiskReservedArena : Type 0 where
  pub size : ℤ
  pub base_name : Text

-- `static_cast<std::size_t>(std::max(int64_t{0}, size))`
abbrev pub size_in_bytes : ℤ → ℕ
size_in_bytes size = pos_part size % word_size

unfoldable pub disk_access_limiter : MemorySpaceId → ℕ → ℕ → Text → DiskAccessLimiter
disk_access_limiter space_id memory_limit capacity path = record {
  space_id = space_id;
  memory_limit = memory_limit;
  capacity = capacity;
  total_allocated_bytes = 0;
  peak_total_allocated_bytes = 0;
  total_reservation_count = 0;
  mounting_path = path;
}

unfoldable pub get_available_memory : DiskAccessLimiter → ℕ
get_available_memory l =
    if leb l.total_allocated_bytes l.capacity then l.capacity - l.total_allocated_bytes else 0

unfoldable pub get_total_reserved_bytes : DiskAccessLimiter → ℕ
get_total_reserved_bytes l = l.total_allocated_bytes

unfoldable pub get_peak_reserved_bytes : DiskAccessLimiter → ℕ
get_peak_reserved_bytes l = l.peak_total_allocated_bytes

unfoldable pub get_active_reservation_count : DiskAccessLimiter → ℕ
get_active_reservation_count l = l.total_reservation_count

unfoldable pub do_reserve : DiskAccessLimiter → ℕ → ℕ → DiskAccessLimiter × Bool
unfolding try_add update_peak
do_reserve l size_bytes limit_bytes =
    let u = try_add l.total_allocated_bytes [] size_bytes limit_bytes in
    (
      record l {
        total_allocated_bytes = counter_after l.total_allocated_bytes u;
        peak_total_allocated_bytes =
            if u.value.0
            then update_peak l.peak_total_allocated_bytes [] u.value.1
            else l.peak_total_allocated_bytes;
      },
      u.value.0,
    )

unfoldable pub do_reserve_upto : DiskAccessLimiter → ℕ → ℕ → DiskAccessLimiter × ℕ
unfolding add_bounded update_peak
do_reserve_upto l size_bytes limit_bytes =
    let u = add_bounded l.total_allocated_bytes [] size_bytes limit_bytes in
    (
      record l {
        total_allocated_bytes = counter_after l.total_allocated_bytes u;
        peak_total_allocated_bytes =
            if leb 1 u.value.0
            then update_peak l.peak_total_allocated_bytes [] u.value.1
            else l.peak_total_allocated_bytes;
      },
      u.value.0,
    )

abbrev new_arena : DiskAccessLimiter → ℕ → DiskReservedArena
new_arena l bytes = record { size = to_i64 bytes; base_name = l.mounting_path }

abbrev count_one : DiskAccessLimiter → DiskAccessLimiter
count_one l = record l { total_reservation_count = add64 l.total_reservation_count 1 }

unfoldable pub reserve : DiskAccessLimiter → ℕ → DiskAccessLimiter × Option DiskReservedArena
unfolding do_reserve
reserve l bytes =
    let (l', reserved) = do_reserve l bytes l.memory_limit in
    if reserved then (count_one l', some (new_arena l bytes)) else (l', none)

unfoldable pub reserve_upto : DiskAccessLimiter → ℕ → DiskAccessLimiter × DiskReservedArena
unfolding do_reserve_upto
reserve_upto l bytes =
    let (l', reserved_bytes) = do_reserve_upto l bytes l.memory_limit in
    (count_one l', new_arena l reserved_bytes)

-- `grow_by` and `shrink_to_fit` of the arena itself do nothing; these two private methods of the limiter
-- would do the work, and nothing calls them.
unfoldable pub grow_by : DiskReservedArena → ℕ → DiskReservedArena × Bool
grow_by a bytes = (a, false)

unfoldable pub shrink_to_fit : DiskReservedArena → DiskReservedArena
shrink_to_fit a = a

unfoldable pub grow_reservation_by :
    DiskAccessLimiter → DiskReservedArena → ℕ → (DiskAccessLimiter × DiskReservedArena) × Bool
unfolding do_reserve
grow_reservation_by l a bytes =
    let (l', reserved) = do_reserve l bytes l.memory_limit in
    if reserved then ((l', record a { size = a.size +ℤ to_i64 bytes }), true) else ((l', a), false)

unfoldable pub shrink_reservation_to_fit :
    DiskAccessLimiter → DiskReservedArena → DiskAccessLimiter × DiskReservedArena
shrink_reservation_to_fit l a = (
  record l { total_allocated_bytes = sub l.total_allocated_bytes (size_in_bytes a.size) },
  record a { size = pos 0 },
)

-- Run by the destructor of the arena.
unfoldable pub do_release_reservation : DiskAccessLimiter → DiskReservedArena → DiskAccessLimiter
unfolding sub
do_release_reservation l a = record l {
  total_allocated_bytes = sub l.total_allocated_bytes (size_in_bytes a.size);
  total_reservation_count = sub64 l.total_reservation_count 1;
}
