-- ===== src/Configurator.antt =====
-- include/memory/reservation_manager_configurator.hpp, src/memory/reservation_manager_configurator.cpp and the
-- configurations of include/memory/config.hpp. Doubles are of a type `D`, with their arithmetic as parameters, the
-- factories of memory resources of a type `F`. The assertions of the setters are not in a release build and are
-- left out. The total memory of a device, which RMM tells, is a parameter.
pub mod Gpus
pub mod Hosts
mod Tests
use cu_cascade.Base.{
  ℕ, zero, suc, ◌+◌, ◌-◌, ◌*◌, ◌/◌, ◌^◌, Bool, true, false, Option, none, some, List, [], ◌∷◌, ◌++◌,
  map, ltb, leb, ◌==◌, if◌then◌else◌, length, Error, runtime_error, Result, ok, err, ◌>>=◌,
}
use cu_cascade.Base.Int.{ℤ, pos, eqb_ℤ}
use cu_cascade.Base.Text.{Text}
use cu_cascade.Topology.{GpuTopologyInfo, SystemTopologyInfo}

pub data FractionOrSize (D : Type 0) : Type 0 where
  fraction : D → FractionOrSize D
  size : ℕ → FractionOrSize D

pub data HostCreationPolicy : Type 0 where
  bind_cpu_to_gpu_numa bind_host_to_gpu_id : HostCreationPolicy

-- An id, a capacity and a mounting point.
pub record DiskMount : Type 0 where
  pub uuid : ℤ
  pub capacity : ℕ
  pub mounting_point : Text

pub record Configurator (D F : Type 0) : Type 0 where
  pub num_gpus : ℕ
  pub per_stream_gpu_reservation : Bool
  pub gpu_capacity : FractionOrSize D
  pub gpu_reservation : FractionOrSize D
  pub downgrade_fractions_per_gpu : D × D
  pub gpu_mr_fn : F
  pub host_capacity : ℕ
  pub is_capacity_per_space : Bool
  pub host_creation_policy : HostCreationPolicy
  pub chunk_size : Option ℕ
  pub block_size : Option ℕ
  pub initial_block_count : Option ℕ
  pub downgrade_fractions_per_host : D × D
  pub cpu_reservation : FractionOrSize D
  pub cpu_mr_fn : F
  pub disk_mounting_points : List DiskMount

-- A factory that is called with the space's id, or one that is bound to another id.
pub record Factory (F : Type 0) : Type 0 where
  pub mr_fn : F
  pub bound_to : Option ℤ

pub record GpuMemorySpaceConfig (D F : Type 0) : Type 0 where
  pub device_id : ℤ
  pub reservation_limit_fraction : D
  pub downgrade_trigger_fraction : D
  pub downgrade_stop_fraction : D
  pub memory_capacity : ℕ
  pub per_stream_reservation : Bool
  pub mr_factory_fn : Factory F

pub record HostMemorySpaceConfig (D F : Type 0) : Type 0 where
  pub numa_id : ℤ
  pub reservation_limit_fraction : D
  pub downgrade_trigger_fraction : D
  pub downgrade_stop_fraction : D
  pub memory_capacity : ℕ
  pub block_size : ℕ
  pub pool_size : ℕ
  pub initial_number_pools : ℕ
  pub mr_factory_fn : Factory F

pub record DiskMemorySpaceConfig : Type 0 where
  pub disk_id : ℤ
  pub memory_capacity : ℕ
  pub mount_paths : Text

-- The configurations that `build` returns, by tier.
pub record Configs (D F : Type 0) : Type 0 where
  pub gpus : List (GpuMemorySpaceConfig D F)
  pub hosts : List (HostMemorySpaceConfig D F)
  pub disks : List DiskMemorySpaceConfig

pub record GpuInfo : Type 0 where
  pub space_id : ℕ
  pub hw_id : ℕ
  pub gpu_capacity : ℕ
  pub numa_id : ℤ

pub record HostInfo : Type 0 where
  pub space_id : ℤ
  pub numa_id : ℤ

module _ {D F : Type 0} where
  unfoldable pub set_number_of_gpus : Configurator D F → ℕ → Configurator D F
  set_number_of_gpus c n_gpus = record c { num_gpus = n_gpus }

  unfoldable pub set_gpu_usage_limit : Configurator D F → ℕ → Configurator D F
  set_gpu_usage_limit c bytes = record c { gpu_capacity = size bytes }

  unfoldable pub set_usage_limit_ratio_per_gpu : Configurator D F → D → Configurator D F
  set_usage_limit_ratio_per_gpu c f = record c { gpu_capacity = fraction f }

  unfoldable pub set_reservation_limit_per_gpu : Configurator D F → ℕ → Configurator D F
  set_reservation_limit_per_gpu c bytes = record c { gpu_reservation = size bytes }

  unfoldable pub set_reservation_fraction_per_gpu : Configurator D F → D → Configurator D F
  set_reservation_fraction_per_gpu c f = record c { gpu_reservation = fraction f }

  unfoldable pub set_downgrade_fractions_per_gpu : Configurator D F → D → D → Configurator D F
  set_downgrade_fractions_per_gpu c start end = record c {
    downgrade_fractions_per_gpu = (start, end);
  }

  unfoldable pub track_reservation_per_stream : Configurator D F → Bool → Configurator D F
  track_reservation_per_stream c enable = record c { per_stream_gpu_reservation = enable }

  unfoldable pub use_host_per_gpu : Configurator D F → Configurator D F
  use_host_per_gpu c = record c { host_creation_policy = bind_host_to_gpu_id }

  unfoldable pub use_host_per_numa : Configurator D F → Configurator D F
  use_host_per_numa c = record c { host_creation_policy = bind_cpu_to_gpu_numa }

  unfoldable pub set_total_host_capacity : Configurator D F → ℕ → Configurator D F
  set_total_host_capacity c bytes = record c {
    host_capacity = bytes;
    is_capacity_per_space = false;
  }

  unfoldable pub set_per_host_capacity : Configurator D F → ℕ → Configurator D F
  set_per_host_capacity c bytes = record c { host_capacity = bytes; is_capacity_per_space = true }

  unfoldable pub set_downgrade_fractions_per_host : Configurator D F → D → D → Configurator D F
  set_downgrade_fractions_per_host c start end = record c {
    downgrade_fractions_per_host = (start, end);
  }

  unfoldable pub set_reservation_fraction_per_host : Configurator D F → D → Configurator D F
  set_reservation_fraction_per_host c f = record c { cpu_reservation = fraction f }

  unfoldable pub set_reservation_limit_per_host : Configurator D F → ℕ → Configurator D F
  set_reservation_limit_per_host c bytes = record c { cpu_reservation = size bytes }

  unfoldable pub set_host_pool_features : Configurator D F → ℕ → ℕ → ℕ → Configurator D F
  set_host_pool_features c chunk block count = record c {
    chunk_size = some chunk;
    block_size = some block;
    initial_block_count = some count;
  }

  unfoldable pub set_gpu_memory_resource_factory : Configurator D F → F → Configurator D F
  set_gpu_memory_resource_factory c mr_fn = record c { gpu_mr_fn = mr_fn }

  unfoldable pub set_host_memory_resource_factory : Configurator D F → F → Configurator D F
  set_host_memory_resource_factory c mr_fn = record c { cpu_mr_fn = mr_fn }

  unfoldable pub set_disk_mounting_point : Configurator D F → ℤ → ℕ → Text → Configurator D F
  set_disk_mounting_point c uuid capacity mounting_point = record c {
    disk_mounting_points =
        c.disk_mounting_points
        ++ record { uuid = uuid; capacity = capacity; mounting_point = mounting_point } ∷ [];
  }

-- `available_gpu_ids`: of two GPUs with one id the later one counts.
abbrev pub find_gpu : List GpuTopologyInfo → ℕ → Option GpuTopologyInfo
find_gpu [] id = none
find_gpu (g ∷ gs) id = elim (find_gpu gs id) [
  | some later ↦ some later
  | none ↦ if g.id == id then some g else none
]

module _ (total_memory : ℕ → ℕ) where
  -- The last loop of `extract_gpu_ids`, for `n` ids from `id` on.
  unfoldable pub gpu_infos : List GpuTopologyInfo → ℕ → ℕ → Result (List GpuInfo)
  gpu_infos gpus id zero = ok []
  gpu_infos gpus id (suc n) =
      let rest = gpu_infos gpus (suc id) n in
      elim (find_gpu gpus id) [
        | none ↦ err runtime_error
        | some g ↦
            (rest >>= λ infos. ok (
              record {
                space_id = id;
                hw_id = id;
                gpu_capacity = total_memory id;
                numa_id = g.numa_node;
              }
              ∷ infos))
      ]

  -- 0 stands for all the GPUs; the member is 1 by default, and an assertion keeps its setter from 0.
  unfoldable pub extract_gpu_ids : ℕ → List GpuTopologyInfo → Result (List GpuInfo)
  unfolding gpu_infos
  extract_gpu_ids num_gpus gpus =
      if ltb (length gpus) num_gpus
      then err runtime_error
      else gpu_infos gpus 0 (if num_gpus == 0 then length gpus else num_gpus)

-- `host_ids_set.contains`
abbrev pub contains : List ℤ → ℤ → Bool
contains [] id = false
contains (i ∷ is) id = if eqb_ℤ i id then true else contains is id

-- `extract_host_ids`, with the NUMA nodes so far.
unfoldable pub extract_host_ids : HostCreationPolicy → List ℤ → List GpuInfo → List HostInfo
extract_host_ids policy seen [] = []
extract_host_ids bind_host_to_gpu_id seen (gpu ∷ gpus) =
    record { space_id = pos gpu.space_id; numa_id = gpu.numa_id }
    ∷ extract_host_ids bind_host_to_gpu_id seen gpus
extract_host_ids bind_cpu_to_gpu_numa seen (gpu ∷ gpus) =
    if contains seen gpu.numa_id
    then extract_host_ids bind_cpu_to_gpu_numa seen gpus
    else record { space_id = gpu.numa_id; numa_id = gpu.numa_id }
      ∷ extract_host_ids bind_cpu_to_gpu_numa (gpu.numa_id ∷ seen) gpus

-- `per_host_capacity`
unfoldable pub per_host_capacity : ℕ → Bool → ℕ → ℕ
per_host_capacity host_capacity is_capacity_per_space hosts =
    if leb hosts 1
    then host_capacity
    else if is_capacity_per_space
    then host_capacity
    else host_capacity / hosts

abbrev pub value_or : Option ℕ → ℕ → ℕ
value_or none d = d
value_or (some n) d = n

abbrev pub disk_config : DiskMount → DiskMemorySpaceConfig
disk_config d = record {
  disk_id = d.uuid;
  memory_capacity = d.capacity;
  mount_paths = d.mounting_point;
}

-- The quotient of two sizes as a double, and a size times a double, are parameters.
abbrev pub get_fraction : {D : Type 0} → (ℕ → ℕ → D) → FractionOrSize D → ℕ → D
get_fraction ratio (fraction f) total_size = f
get_fraction ratio (size n) total_size = ratio n total_size

abbrev pub get_capacity : {D : Type 0} → (ℕ → D → ℕ) → FractionOrSize D → ℕ → ℕ
get_capacity scale (fraction f) total_size = scale total_size f
get_capacity scale (size n) total_size = n

module _ {D F : Type 0} (ratio : ℕ → ℕ → D) (scale : ℕ → D → ℕ) (total_memory : ℕ → ℕ) where
  abbrev pub gpu_config : Configurator D F → GpuInfo → GpuMemorySpaceConfig D F
  gpu_config c info = record {
    device_id = pos info.space_id;
    memory_capacity = get_capacity scale c.gpu_capacity info.gpu_capacity;
    mr_factory_fn = record {
      mr_fn = c.gpu_mr_fn;
      bound_to = if info.space_id == info.hw_id then none else some (pos info.hw_id);
    };
    reservation_limit_fraction = get_fraction ratio c.gpu_reservation info.gpu_capacity;
    downgrade_trigger_fraction = c.downgrade_fractions_per_gpu.0;
    downgrade_stop_fraction = c.downgrade_fractions_per_gpu.1;
    per_stream_reservation = c.per_stream_gpu_reservation;
  }

  abbrev pub host_config : Configurator D F → ℕ → HostInfo → HostMemorySpaceConfig D F
  host_config c capacity info = record {
    numa_id = info.space_id;
    memory_capacity = capacity;
    mr_factory_fn = record {
      mr_fn = c.cpu_mr_fn;
      bound_to = if eqb_ℤ info.space_id info.numa_id then none else some info.numa_id;
    };
    reservation_limit_fraction = get_fraction ratio c.cpu_reservation capacity;
    downgrade_trigger_fraction = c.downgrade_fractions_per_host.0;
    downgrade_stop_fraction = c.downgrade_fractions_per_host.1;
    block_size = value_or c.chunk_size (2 ^ 20);
    pool_size = value_or c.block_size 128;
    initial_number_pools = value_or c.initial_block_count 4;
  }

  -- `build`
  unfoldable pub build : Configurator D F → SystemTopologyInfo → Result (Configs D F)
  unfolding extract_gpu_ids extract_host_ids per_host_capacity
  build c topology = extract_gpu_ids total_memory c.num_gpus topology.gpus >>= λ infos.
      let hosts = extract_host_ids c.host_creation_policy [] infos in
      let capacity = per_host_capacity c.host_capacity c.is_capacity_per_space (length hosts) in
      ok (record {
        gpus = map (gpu_config c) infos;
        hosts = map (host_config c capacity) hosts;
        disks = map disk_config c.disk_mounting_points;
      })
