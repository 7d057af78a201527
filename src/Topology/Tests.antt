-- ===== src/Topology/Tests.antt =====
-- Runs of the discovery, and the theorems at inputs that meet their hypotheses.
use cu_cascade.Base.{
  false, ℕ, ◌≡◌, refl, true, Option, none, some, List, [], ◌∷◌, arith, map, if◌then◌else◌, ◌==◌,
  invalid_argument, ok, err,
}
use cu_cascade.Base.Int.{pos, ◌+ℤ◌, ◌-ℤ◌}
use cu_cascade.Base.Text.{Text, stoi}
use cu_cascade.Topology.{
  parse_cpu_list, parse_token, normalize_pci_bus_id, absent, entries, SysFs, DeviceEntry,
  get_pci_bus_number, pix, node, get_pcie_path_type, NetworkDeviceInfo, NicWithPath,
  nics_with_paths, map_network_devices_to_gpu, Nvml, SystemTopologyInfo, GpuTopologyInfo, discover,
  discover_network_devices_with_topology, collect_gpus, gpu_info, conclude, get_numa_node_from_sys,
  get_cpu_affinity_from_sys,
}
use cu_cascade.Topology.CpuList.{core, range, print_items, parse-print}
use cu_cascade.Topology.Nearest.{Paths, no_devices, with_path, nearest_names, map-nearest}

-- "0-3,12"
parse-print_example :
    parse_cpu_list (print_items (range 0 [] 3 []) (core 1 (2 ∷ []) ∷ []))
    ≡ ok (pos 0 ∷ pos 1 ∷ pos 2 ∷ pos 3 ∷ pos 12 ∷ [])
parse-print_example = parse-print (range 0 [] 3 []) (core 1 (2 ∷ []) ∷ []) (
  ((omega arith, tt), (omega arith, tt), omega arith, omega arith),
  ((omega arith, (omega arith, tt)), omega arith),
)

-- "5-" has no end, and "1," no second number.
open_range : parse_cpu_list (53 ∷ 45 ∷ []) ≡ err invalid_argument
unfolding parse_cpu_list parse_token stoi
open_range = refl

comma_at_end : parse_cpu_list (49 ∷ 44 ∷ []) ≡ ok (pos 1 ∷ [])
unfolding parse_cpu_list parse_token stoi
comma_at_end = refl

-- "00000000:0A:00.0"
abbrev gpu_id : Text
gpu_id = 48 ∷ 48 ∷ 48 ∷ 48 ∷ 48 ∷ 48 ∷ 48 ∷ 48 ∷ 58 ∷ 48 ∷ 65 ∷ 58 ∷ 48 ∷ 48 ∷ 46 ∷ 48 ∷ []

-- "0000:0a:00.0"
normalizes :
    normalize_pci_bus_id gpu_id ≡ 48 ∷ 48 ∷ 48 ∷ 48 ∷ 58 ∷ 48 ∷ 97 ∷ 58 ∷ 48 ∷ 48 ∷ 46 ∷ 48 ∷ []
unfolding normalize_pci_bus_id
normalizes = refl

bus_ten : get_pci_bus_number gpu_id ≡ pos 10
unfolding get_pci_bus_number stoi
bus_ten = refl

-- "0000:0b:00.0" and "0000:5b:00.0"
abbrev near_id : Text
near_id = 48 ∷ 48 ∷ 48 ∷ 48 ∷ 58 ∷ 48 ∷ 98 ∷ 58 ∷ 48 ∷ 48 ∷ 46 ∷ 48 ∷ []

abbrev far_id : Text
far_id = 48 ∷ 48 ∷ 48 ∷ 48 ∷ 58 ∷ 53 ∷ 98 ∷ 58 ∷ 48 ∷ 48 ∷ 46 ∷ 48 ∷ []

abbrev entry : ℕ → Text → DeviceEntry
entry letter link = record {
  entry_name = letter ∷ [];
  is_directory = true;
  numa_file = some (48 ∷ 10 ∷ []);
  device_link = some link;
}

abbrev sysfs : SysFs
sysfs = record {
  numa_node_of = λ id. some (48 ∷ 10 ∷ []);
  local_cpulist_of = λ id. some (48 ∷ 45 ∷ 49 ∷ 10 ∷ []);
  infiniband = entries (entry 102 far_id ∷ entry 110 near_id ∷ []);
  nvme = absent;
  node_names = ok ((110 ∷ 111 ∷ 100 ∷ 101 ∷ 48 ∷ []) ∷ []);
  hostname = some (104 ∷ []);
  exists_throws = false;
}

abbrev two_nics : List NetworkDeviceInfo
two_nics =
    record { name = 102 ∷ []; numa_node = pos 0; pci_bus_id = far_id }
    ∷ record { name = 110 ∷ []; numa_node = pos 0; pci_bus_id = near_id }
    ∷ []

abbrev nics : List NicWithPath
nics =
    record { name = 102 ∷ []; path_type = node } ∷ record { name = 110 ∷ []; path_type = pix } ∷ []

two_nics-Paths : Paths sysfs gpu_id two_nics nics
unfolding get_pcie_path_type normalize_pci_bus_id get_pci_bus_number stoi ◌-ℤ◌
two_nics-Paths = with_path _ node (λ e. cc) refl (with_path _ pix (λ e. cc) refl no_devices)

map-nearest_example :
    map_network_devices_to_gpu sysfs gpu_id (pos 0) two_nics ≡ ok (nearest_names nics nics)
map-nearest_example = map-nearest sysfs gpu_id (pos 0) two_nics nics two_nics-Paths

-- The second device is on the bus of the GPU.
nearest_is_second : nearest_names nics nics ≡ (110 ∷ []) ∷ []
nearest_is_second = refl

abbrev nvml : Nvml
nvml = record {
  available = true;
  init_succeeds = true;
  device_count = some 2;
  device = λ i. record {
    has_handle = true;
    nvml_name = none;
    nvml_bus_id = if i == 0 then none else some gpu_id;
    nvml_uuid = none;
  };
}

abbrev nothing_known : Option SystemTopologyInfo
nothing_known = none

abbrev gpu_ids : Option SystemTopologyInfo → List ℕ
gpu_ids none = []
gpu_ids (some t) = map (λ (g : GpuTopologyInfo). g.id) t.gpus

-- The first GPU has no PCI info: two are counted, and one is listed.
one_of_two : gpu_ids (discover sysfs nvml nothing_known).topology ≡ 1 ∷ []
unfolding discover conclude collect_gpus gpu_info discover_network_devices_with_topology
    map_network_devices_to_gpu nics_with_paths get_pcie_path_type normalize_pci_bus_id
    get_pci_bus_number stoi ◌-ℤ◌ ◌+ℤ◌ parse_cpu_list parse_token get_numa_node_from_sys
    get_cpu_affinity_from_sys
one_of_two = refl

abbrev no_count : Nvml
no_count = record nvml { device_count = none }
