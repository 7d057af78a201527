-- ===== src/Space/Tests.antt =====
-- A memory space, and the theorems at it.
use cu_cascade.Base.{ℕ, ◌≡◌, refl, true, false, [], arith}
use cu_cascade.Base.Int.{pos}
use cu_cascade.Batch.{host}
use cu_cascade.Channel.{notification_channel}
use cu_cascade.Space.{
  MemorySpace, host_resource, should_downgrade_memory, should_stop_downgrading_memory,
}
use cu_cascade.Space.Downgrading.{empty_space_downgrades}
use cu_cascade.Host

abbrev resource : ℕ → Host.HostResource
resource bytes = record {
  memory_limit = 80;
  memory_capacity = 100;
  block_size = 4;
  pool_size = 2;
  allocated_blocks = [];
  free_blocks = [];
  allocated_bytes = bytes;
  peak_allocated_bytes = bytes;
  active_reservations = [];
  next_uuid = 0;
}

abbrev space : ℕ → MemorySpace
space bytes = record {
  id = record { tier = host; device_id = pos 0 };
  memory_limit = 80;
  capacity = 100;
  start_downgrading_memory_threshold = 40;
  stop_downgrading_memory_threshold = 20;
  notification_channel = notification_channel;
  reservation_allocator = host_resource (resource bytes);
}

empty_space_downgrades_example :
    (should_downgrade_memory (space 0) ≡ true) × (should_stop_downgrading_memory (space 0) ≡ false)
empty_space_downgrades_example =
    empty_space_downgrades (space 0) (resource 0) refl (omega arith) (omega arith) (omega arith)
      (omega arith)
