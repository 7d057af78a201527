-- ===== src/Space/Downgrading.antt =====
-- When a memory space is to be downgraded, and by how much.
use cu_cascade.Base.{◌+◌, ◌-◌, ◌^◌, ◌≤◌, ◌<◌, ◌≡◌, ◌↔◌, true, false, arith}
use cu_cascade.Base.Words.{sub64, word_size}
use cu_cascade.Space.{
  MemorySpace, host_resource, get_available_memory, should_downgrade_memory,
  should_stop_downgrading_memory, get_amount_to_downgrade,
}
use cu_cascade.Host

-- With no more memory available than the limit and a start threshold of at least the stop threshold:
-- a space is downgraded exactly from the start threshold of used bytes on, and stops exactly at the stop
-- threshold; the amount to downgrade is what brings it there, and is 0 exactly where it may stop.
pub downgrade_thresholds :
    (s : MemorySpace)
    → get_available_memory s ≤ s.memory_limit
    → s.memory_limit < word_size
    → let used = s.memory_limit - get_available_memory s in
      ((should_downgrade_memory s ≡ true) ↔ (s.start_downgrading_memory_threshold ≤ used))
      × ((should_stop_downgrading_memory s ≡ true) ↔ (used ≤ s.stop_downgrading_memory_threshold))
      × ((get_amount_to_downgrade s ≡ 0) ↔ (should_stop_downgrading_memory s ≡ true))
      × (get_amount_to_downgrade s ≡ used - s.stop_downgrading_memory_threshold)
unfolding should_downgrade_memory should_stop_downgrading_memory get_amount_to_downgrade sub64
downgrade_thresholds s h w = (
  (λ e. ground arith, λ e. ground arith),
  (λ e. ground arith, λ e. ground arith),
  (λ e. ground arith, λ e. ground arith),
  ground arith,
)

host_available :
    (s : MemorySpace) (r : Host.HostResource)
    → s.reservation_allocator ≡ host_resource r
    → r.allocated_bytes < r.memory_capacity
    → get_available_memory s ≡ r.memory_capacity - r.allocated_bytes
unfolding get_available_memory Host.get_available_memory
host_available s r e h = rw (e, get_available_memory) (ground arith)

-- A host space whose capacity exceeds its limit by more than is allocated, as it does when nothing is allocated and the
-- capacity is larger than the limit, is downgraded, and is not let stop: the limit less the available memory wraps. The
-- thresholds are at most the limit, the capacity is below 2^63.
pub empty_space_downgrades :
    (s : MemorySpace) (r : Host.HostResource)
    → s.reservation_allocator ≡ host_resource r
    → r.allocated_bytes + s.memory_limit < r.memory_capacity
    → r.memory_capacity < 2 ^ 63
    → s.start_downgrading_memory_threshold ≤ s.memory_limit
    → s.stop_downgrading_memory_threshold ≤ s.memory_limit
    → (should_downgrade_memory s ≡ true) × (should_stop_downgrading_memory s ≡ false)
unfolding should_downgrade_memory should_stop_downgrading_memory sub64
empty_space_downgrades s r e h w a b =
    let avail = host_available s r e (omega arith) in (ground (arith, avail), ground (arith, avail))
