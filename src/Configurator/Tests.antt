-- ===== src/Configurator/Tests.antt =====
-- Runs of the configurator, and the theorems at inputs that meet their hypotheses.
use cu_cascade.Base.{
  ◌≤◌, ◌<◌, ℕ, ◌*◌, ◌/◌, ◌≡◌, refl, true, none, List, [], ◌∷◌, arith, length, map, Result, ok, err,
  runtime_error,
}
use cu_cascade.Base.Int.{ℤ, pos, negsuc}
use cu_cascade.Topology.{GpuTopologyInfo, SystemTopologyInfo}
use cu_cascade.Configurator.{
  fraction, size, bind_cpu_to_gpu_numa, Configurator, HostMemorySpaceConfig, Configs, GpuInfo,
  set_number_of_gpus, set_total_host_capacity, gpu_infos, extract_gpu_ids, extract_host_ids,
  per_host_capacity, build,
}
use cu_cascade.Configurator.Gpus.{AreNumbered, first_gpus, first_gpus_missing}

abbrev gpu : ℕ → ℤ → GpuTopologyInfo
gpu id numa = record {
  id = id;
  name = [];
  pci_bus_id = [];
  uuid = [];
  numa_node = numa;
  cpu_affinity_list = [];
  cpu_cores = [];
  memory_binding = [];
  network_devices = [];
}

abbrev three : List GpuTopologyInfo
three = gpu 0 (pos 1) ∷ gpu 1 (pos 0) ∷ gpu 2 (pos 1) ∷ []

abbrev topology : SystemTopologyInfo
topology = record {
  hostname = [];
  num_gpus = 3;
  num_numa_nodes = 2;
  num_network_devices = 0;
  gpus = three;
  network_devices = [];
  storage_devices = [];
}

-- A double is a number of hundredths here.
abbrev defaults : Configurator ℕ ℕ
defaults = record {
  num_gpus = 1;
  per_stream_gpu_reservation = true;
  gpu_capacity = size 1000;
  gpu_reservation = fraction 85;
  downgrade_fractions_per_gpu = (85, 65);
  gpu_mr_fn = 0;
  host_capacity = 4000;
  is_capacity_per_space = true;
  host_creation_policy = bind_cpu_to_gpu_numa;
  chunk_size = none;
  block_size = none;
  initial_block_count = none;
  downgrade_fractions_per_host = (85, 65);
  cpu_reservation = fraction 85;
  cpu_mr_fn = 1;
  disk_mounting_points = [];
}

abbrev host_capacities : Result (Configs ℕ ℕ) → List ℕ
host_capacities (err e) = []
host_capacities (ok c) = map (λ (h : HostMemorySpaceConfig ℕ ℕ). h.memory_capacity) c.hosts

-- Three GPUs at two NUMA nodes: two host spaces with half of the total each.
shares :
    host_capacities (
      build
        (λ a b. a * 100 / b)
        (λ n f. n * f / 100)
        (λ id. 8000)
        (set_total_host_capacity (set_number_of_gpus defaults 0) 4001)
        topology)
    ≡ 2000 ∷ 2000 ∷ []
unfolding build extract_gpu_ids gpu_infos extract_host_ids per_host_capacity set_total_host_capacity
    set_number_of_gpus
shares = refl

first_gpus_example :
    (2 ≤ 3
      → (infos : List GpuInfo) × (extract_gpu_ids (λ id. 8000) 2 three ≡ ok infos)
        × (length infos ≡ 2)
        × AreNumbered (λ id. 8000) 0 infos)
    × (3 < 2 → extract_gpu_ids (λ id. 8000) 2 three ≡ err runtime_error)
first_gpus_example =
    first_gpus (λ id. 8000) 2 three 3
      (omega arith, omega arith, (omega arith, omega arith, (omega arith, omega arith, tt))) refl
      (omega arith)

-- The second of three GPUs was left out by the discovery, and two are asked for.
first_gpus_missing_example :
    extract_gpu_ids (λ id. 8000) 2 (gpu 0 (pos 0) ∷ gpu 2 (pos 0) ∷ []) ≡ err runtime_error
first_gpus_missing_example =
    first_gpus_missing (λ id. 8000) 2 (gpu 0 (pos 0) ∷ gpu 2 (pos 0) ∷ []) 1 (omega arith)
      (omega arith) refl

abbrev infos : List GpuInfo
infos =
    record { space_id = 0; hw_id = 0; gpu_capacity = 8000; numa_id = pos 1 }
    ∷ record { space_id = 1; hw_id = 1; gpu_capacity = 8000; numa_id = negsuc 0 }
    ∷ record { space_id = 2; hw_id = 2; gpu_capacity = 8000; numa_id = pos 1 }
    ∷ []
