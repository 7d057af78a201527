-- ===== src/Setup.antt =====
-- The constructors of src/memory/memory_space.cpp and of src/memory/memory_reservation_manager.cpp, with the thresholds
-- of include/memory/config.hpp: from the configurations that the configurator returns to the spaces and their manager. A
-- factory's memory resource is a parameter: none if it is a null pointer, else its answers to the requests for pools.
-- The stream pools and the tracking scope are left out.
pub mod Fresh
mod Tests
use cu_cascade.Base.{
  ℕ, Bool, Option, none, some, List, [], ◌∷◌, ◌++◌, map, if◌then◌else◌, Error, invalid_argument,
  Result, ok, err, ◌>>=◌,
}
use cu_cascade.Base.Int.{ℤ, pos}
use cu_cascade.Batch.{Tier, gpu, host, disk, MemorySpaceId}
use cu_cascade.Topology.{is_empty_text}
use cu_cascade.Host.{HostResource, fixed_size_host_memory_resource}
use cu_cascade.Device.{reservation_aware_resource_adaptor}
use cu_cascade.Disk.{disk_access_limiter}
use cu_cascade.Channel.{notification_channel}
use cu_cascade.Space.{
  MemorySpace, ReservationAllocator, disk_limiter, device_adaptor, host_resource,
}
use cu_cascade.Manager.{Manager, build_lookup_tables}
use cu_cascade.Configurator.{
  Factory, GpuMemorySpaceConfig, HostMemorySpaceConfig, DiskMemorySpaceConfig, Configs,
}

-- `memory_space_config`
pub data MemorySpaceConfig (D F : Type 0) : Type 0 where
  no_config : MemorySpaceConfig D F
  gpu_config : GpuMemorySpaceConfig D F → MemorySpaceConfig D F
  host_config : HostMemorySpaceConfig D F → MemorySpaceConfig D F
  disk_config : DiskMemorySpaceConfig → MemorySpaceConfig D F

-- What `build` returns, as one vector.
abbrev pub all_configs : {D F : Type 0} → Configs D F → List (MemorySpaceConfig D F)
all_configs c = map gpu_config c.gpus ++ map host_config c.hosts ++ map disk_config c.disks

-- `scale` is a capacity times a double, `most` the double 0.99.
module _ {D F : Type 0} (scale : ℕ → D → ℕ) (most : D) (align_up : ℕ → ℕ → ℕ) (alignment : ℕ)
    (allocator : Factory F → ℤ → ℕ → Option (List (Option ℕ))) where
  -- With the memory resource that the factory made.
  unfoldable pub gpu_space_on :
      GpuMemorySpaceConfig D F → Option (List (Option ℕ)) → Result MemorySpace
  unfolding reservation_aware_resource_adaptor
  gpu_space_on c none = err invalid_argument
  gpu_space_on c (some upstream) = ok (record {
    id = record { tier = gpu; device_id = c.device_id };
    memory_limit = scale c.memory_capacity c.reservation_limit_fraction;
    capacity = c.memory_capacity;
    start_downgrading_memory_threshold = scale c.memory_capacity c.downgrade_trigger_fraction;
    stop_downgrading_memory_threshold = scale c.memory_capacity c.downgrade_stop_fraction;
    notification_channel = notification_channel;
    reservation_allocator = device_adaptor (
        reservation_aware_resource_adaptor (scale c.memory_capacity c.reservation_limit_fraction)
          c.memory_capacity);
  })

  unfoldable pub host_space_on :
      HostMemorySpaceConfig D F → Option (List (Option ℕ)) → Result MemorySpace
  unfolding fixed_size_host_memory_resource
  host_space_on c none = err invalid_argument
  host_space_on c (some upstream) =
      fixed_size_host_memory_resource align_up alignment upstream
        (scale c.memory_capacity c.reservation_limit_fraction) c.memory_capacity c.block_size
        c.pool_size c.initial_number_pools
      >>= λ mr. ok (record {
        id = record { tier = host; device_id = c.numa_id };
        memory_limit = scale c.memory_capacity c.reservation_limit_fraction;
        capacity = c.memory_capacity;
        start_downgrading_memory_threshold = scale c.memory_capacity c.downgrade_trigger_fraction;
        stop_downgrading_memory_threshold = scale c.memory_capacity c.downgrade_stop_fraction;
        notification_channel = notification_channel;
        reservation_allocator = host_resource mr;
      })

  unfoldable pub disk_space : DiskMemorySpaceConfig → Result MemorySpace
  unfolding disk_access_limiter
  disk_space c =
      if is_empty_text c.mount_paths
      then err invalid_argument
      else ok (record {
        id = record { tier = disk; device_id = c.disk_id };
        memory_limit = c.memory_capacity;
        capacity = c.memory_capacity;
        start_downgrading_memory_threshold = c.memory_capacity;
        stop_downgrading_memory_threshold = scale c.memory_capacity most;
        notification_channel = notification_channel;
        reservation_allocator = disk_limiter (
            disk_access_limiter (record { tier = disk; device_id = c.disk_id }) c.memory_capacity
              c.memory_capacity c.mount_paths);
      })

  unfoldable pub memory_space : MemorySpaceConfig D F → Result MemorySpace
  unfolding gpu_space_on host_space_on disk_space
  memory_space no_config = err invalid_argument
  memory_space (gpu_config c) =
      gpu_space_on c (allocator c.mr_factory_fn c.device_id c.memory_capacity)
  memory_space (host_config c) =
      host_space_on c (allocator c.mr_factory_fn c.numa_id c.memory_capacity)
  memory_space (disk_config c) = disk_space c

  unfoldable pub make_spaces : List (MemorySpaceConfig D F) → Result (List MemorySpace)
  unfolding memory_space
  make_spaces [] = ok []
  make_spaces (c ∷ cs) = memory_space c >>= λ s. make_spaces cs >>= λ ss. ok (s ∷ ss)

  unfoldable pub memory_reservation_manager : List (MemorySpaceConfig D F) → Result Manager
  unfolding make_spaces build_lookup_tables
  memory_reservation_manager [] = err invalid_argument
  memory_reservation_manager (c ∷ cs) = make_spaces (c ∷ cs) >>= λ ss. ok (build_lookup_tables ss)
