-- ===== src/Setup/Tests.antt =====
-- A manager for the spaces of a configuration, and the theorem at it.
use cu_cascade.Base.{
  ℕ, ◌*◌, ◌/◌, ◌≡◌, ◌≢◌, refl, true, Option, none, some, List, [], ◌∷◌, ok, err, invalid_argument,
  Result,
}
use cu_cascade.Base.Int.{ℤ, pos}
use cu_cascade.Host.{fixed_size_host_memory_resource, expand_pool}
use cu_cascade.Manager.{Manager}
use cu_cascade.Configurator.{Factory}
use cu_cascade.Setup.{
  MemorySpaceConfig, gpu_config, host_config, gpu_space_on, host_space_on, memory_space,
  make_spaces, memory_reservation_manager,
}
use cu_cascade.Setup.Fresh.{AreMade, manager-AreMade}

abbrev plain : Factory ℕ
plain = record { mr_fn = 0; bound_to = none }

-- A GPU and a host space with two pools.
abbrev two : List (MemorySpaceConfig ℕ ℕ)
two =
    gpu_config (record {
      device_id = pos 0;
      reservation_limit_fraction = 85;
      downgrade_trigger_fraction = 85;
      downgrade_stop_fraction = 65;
      memory_capacity = 1000;
      per_stream_reservation = true;
      mr_factory_fn = plain;
    })
    ∷ host_config (record {
      numa_id = pos 0;
      reservation_limit_fraction = 50;
      downgrade_trigger_fraction = 85;
      downgrade_stop_fraction = 65;
      memory_capacity = 64;
      block_size = 4;
      pool_size = 2;
      initial_number_pools = 2;
      mr_factory_fn = plain;
    })
    ∷ []

abbrev scale : ℕ → ℕ → ℕ
scale n f = n * f / 100

abbrev same : ℕ → ℕ → ℕ
same n b = n

abbrev two_pools : Factory ℕ → ℤ → ℕ → Option (List (Option ℕ))
two_pools f id capacity = some (some 100 ∷ some 200 ∷ [])

abbrev or_none : Result Manager → Manager
or_none (ok m) = m
or_none (err e) = record {
  memory_spaces = [];
  memory_space_views = [];
  memory_space_lookup = [];
  tier_to_memory_spaces = [];
}

abbrev manager : Manager
manager = or_none (memory_reservation_manager scale 99 same 16 two_pools two)

manager-AreMade_example : AreMade two manager.memory_spaces × (two ≢ [])
unfolding memory_reservation_manager make_spaces memory_space gpu_space_on host_space_on
    fixed_size_host_memory_resource expand_pool
manager-AreMade_example = manager-AreMade scale 99 same 16 two_pools two manager refl

-- The factory made no memory resource.
no_allocator :
    memory_reservation_manager {F = ℕ} scale 99 same 16 (λ f id capacity. none) two
    ≡ err invalid_argument
unfolding memory_reservation_manager make_spaces memory_space gpu_space_on
no_allocator = refl
