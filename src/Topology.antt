-- ===== src/Topology.antt =====
-- src/memory/topology_discovery.cpp, with the structs of include/memory/topology_discovery.hpp. What the
-- discovery reads is given: the answers of NVML, which is called through `dlsym`, and the contents of sysfs.
-- A file's path is the device that it belongs to and its name. A string is the list of its characters' codes.
pub mod CpuList
pub mod PciIds
pub mod Nearest
pub mod Discovered
mod Tests
use cu_cascade.Base.{
  runtime_error, ℕ, zero, suc, ◌+◌, ◌-◌, ◌*◌, ◌^◌, Bool, true, false, not, ◌&&◌, ◌||◌, Option, none,
  some, List, [], ◌∷◌, ◌++◌, map, ltb, leb, ◌==◌, if◌then◌else◌, length, Error, signed_overflow,
  Result, ok, err, ◌>>=◌,
}
use cu_cascade.Base.Int.{ℤ, pos, negsuc, ◌+ℤ◌, ◌-ℤ◌, ltb_ℤ, leb_ℤ, eqb_ℤ, pos_part, neg_part}
use cu_cascade.Base.Text.{Text, comma, dash, colon, break_at, split_at, getlines, tolower, stoi}

-- `read_file_content`: a file that cannot be read is empty, and a newline at the end is dropped.
abbrev pub trim_newline : Text → Text
trim_newline [] = []
trim_newline (c ∷ []) = if c == 10 then [] else c ∷ []
trim_newline (c ∷ d ∷ cs) = c ∷ trim_newline (d ∷ cs)

abbrev pub read_file_content : Option Text → Text
read_file_content none = []
read_file_content (some content) = trim_newline content

-- `for (int i = start; i <= end; ++i)`, from the value at `start`: the increment of the largest `int` overflows.
abbrev pub count_from : ℤ → ℕ → List ℤ
count_from i zero = []
count_from i (suc n) = i ∷ count_from (i +ℤ pos 1) n

abbrev pub cpu_range : ℤ → ℤ → Result (List ℤ)
cpu_range start end =
    if ltb_ℤ end start
    then ok []
    else if eqb_ℤ end (pos (2 ^ 31 - 1))
    then err signed_overflow
    else ok (count_from start (suc (pos_part (end -ℤ start))))

-- The cores of one token.
unfoldable pub parse_token : Text → Result (List ℤ)
unfolding stoi
parse_token token = elim (break_at dash token) [
  | none ↦ (stoi 10 token >>= λ core. ok (core ∷ []))
  | some (before, after) ↦
      (stoi 10 before >>= λ start. stoi 10 after >>= λ end. cpu_range start end)
]

abbrev pub parse_tokens : List Text → Result (List ℤ)
parse_tokens [] = ok []
parse_tokens (token ∷ tokens) =
    parse_token token >>= λ cores. parse_tokens tokens >>= λ rest. ok (cores ++ rest)

unfoldable pub parse_cpu_list : Text → Result (List ℤ)
unfolding parse_token
parse_cpu_list cpulist = parse_tokens (getlines (split_at comma cpulist))

-- The last four characters.
abbrev pub last_four : Text → Text
last_four [] = []
last_four (c ∷ cs) = if ltb 3 (length cs) then last_four cs else c ∷ cs

unfoldable pub normalize_pci_bus_id : Text → Text
normalize_pci_bus_id pci_bus_id = elim (break_at colon pci_bus_id) [
  | none ↦ pci_bus_id
  | some (domain, rest) ↦ map tolower (last_four domain ++ colon ∷ rest)
]

-- The files of sysfs that are read. `exists_throws` tells whether `fs::exists` throws for one of the three directories that
-- the discovery tests, each outside of a `try`: /sys/class/infiniband, /sys/class/nvme and /sys/devices/system/node. A device's directory below /sys/class has its `numa_node`; the name of what its
-- `device` link leads to is its PCI bus id, if the link resolves.
pub record DeviceEntry : Type 0 where
  pub entry_name : Text
  pub is_directory : Bool
  pub numa_file : Option Text
  pub device_link : Option Text

-- A directory of sysfs: how it can be iterated over, or an exception of the iteration after some entries.
pub data Directory : Type 0 where
  absent : Directory
  entries : List DeviceEntry → Directory
  broken : List DeviceEntry → Directory

pub record SysFs : Type 0 where
  pub numa_node_of : Text → Option Text
  pub local_cpulist_of : Text → Option Text
  pub infiniband : Directory
  pub nvme : Directory
  pub node_names : Result (List Text)
  pub hostname : Option Text
  pub exists_throws : Bool

-- `catch (...) { return -1; }`
abbrev pub or_minus_one : Result ℤ → ℤ
or_minus_one (ok n) = n
or_minus_one (err e) = negsuc 0

abbrev pub numa_or_minus_one : Text → ℤ
numa_or_minus_one [] = negsuc 0
numa_or_minus_one (c ∷ cs) = or_minus_one (stoi 10 (c ∷ cs))

unfoldable pub get_numa_node_from_sys : SysFs → Text → ℤ
unfolding normalize_pci_bus_id stoi
get_numa_node_from_sys fs pci_bus_id =
    numa_or_minus_one (read_file_content (fs.numa_node_of (normalize_pci_bus_id pci_bus_id)))

unfoldable pub get_cpu_affinity_from_sys : SysFs → Text → Text
unfolding normalize_pci_bus_id
get_cpu_affinity_from_sys fs pci_bus_id =
    read_file_content (fs.local_cpulist_of (normalize_pci_bus_id pci_bus_id))

abbrev pub or_empty : Option Text → Text
or_empty none = []
or_empty (some name) = name

-- The link exists and can be resolved, or not.
abbrev pub get_pci_bus_id_from_device : Option Text → Text
get_pci_bus_id_from_device device_link = or_empty device_link

unfoldable pub get_pci_bus_number : Text → ℤ
unfolding stoi
get_pci_bus_number pci_id = elim (break_at colon pci_id) [
  | none ↦ negsuc 0
  | some (domain, rest) ↦ elim (break_at colon rest) [
    | none ↦ negsuc 0
    | some (bus, function) ↦ or_minus_one (stoi 16 bus)
  ]
]

pub data PciePathType : Type 0 where
  pix pxb phb node sys : PciePathType

abbrev pub rank : PciePathType → ℕ
rank pix = 0
rank pxb = 1
rank phb = 2
rank node = 3
rank sys = 4

-- A numa_node file for `get_pcie_path_type` and the directory scans: an exception of `stoi` is not caught.
abbrev pub numa_or_throw : Text → Result ℤ
numa_or_throw [] = ok (negsuc 0)
numa_or_throw (c ∷ cs) = stoi 10 (c ∷ cs)

-- From the distance of two buses.
abbrev pub by_distance : ℕ → PciePathType
by_distance distance = if leb distance 2 then pix else if leb distance 10 then phb else node

abbrev pub by_buses : ℤ → ℤ → PciePathType
by_buses gpu_bus nic_bus =
    if ltb_ℤ gpu_bus (pos 0) || ltb_ℤ nic_bus (pos 0)
    then phb
    else by_distance (pos_part (gpu_bus -ℤ nic_bus) + neg_part (gpu_bus -ℤ nic_bus))

abbrev pub path_type : ℤ → ℤ → ℤ → ℤ → PciePathType
path_type gpu_numa nic_numa gpu_bus nic_bus =
    if not (eqb_ℤ gpu_numa nic_numa) && (leb_ℤ (pos 0) gpu_numa && leb_ℤ (pos 0) nic_numa)
    then sys
    else by_buses gpu_bus nic_bus

unfoldable pub get_pcie_path_type : SysFs → Text → Text → Result PciePathType
unfolding normalize_pci_bus_id get_pci_bus_number stoi
get_pcie_path_type fs gpu_pci_id nic_pci_id =
    numa_or_throw (read_file_content (fs.numa_node_of (normalize_pci_bus_id gpu_pci_id)))
    >>= λ gpu_numa.
        numa_or_throw (read_file_content (fs.numa_node_of (normalize_pci_bus_id nic_pci_id)))
        >>= λ nic_numa. ok (
            path_type gpu_numa nic_numa (get_pci_bus_number gpu_pci_id)
              (get_pci_bus_number nic_pci_id))

-- `NetworkDeviceWithTopology`, and `network_device_info` with the same fields.
pub record NetworkDeviceInfo : Type 0 where
  pub name : Text
  pub numa_node : ℤ
  pub pci_bus_id : Text

-- One entry of the directory; none for one that is not a directory.
abbrev pub device_of : DeviceEntry → Result (Option NetworkDeviceInfo)
device_of e =
    if e.is_directory
    then (numa_or_throw (read_file_content e.numa_file) >>= λ n. ok (
        some (record {
          name = e.entry_name;
          numa_node = n;
          pci_bus_id = get_pci_bus_id_from_device e.device_link;
        })))
    else ok none

-- An exception ends the loop with the devices so far.
abbrev pub scan_entries : List DeviceEntry → List NetworkDeviceInfo
scan_entries [] = []
scan_entries (e ∷ es) = elim (device_of e) [
  | err x ↦ []
  | ok none ↦ scan_entries es
  | ok (some d) ↦ d ∷ scan_entries es
]

abbrev pub scan_directory : Directory → List NetworkDeviceInfo
scan_directory absent = []
scan_directory (entries es) = scan_entries es
scan_directory (broken es) = scan_entries es

unfoldable pub discover_network_devices_with_topology : SysFs → List NetworkDeviceInfo
unfolding stoi
discover_network_devices_with_topology fs = scan_directory fs.infiniband

pub data StorageDriveType : Type 0 where
  nvme sata_ssd sata_hdd unknown : StorageDriveType

pub record StorageDeviceInfo : Type 0 where
  pub type : StorageDriveType
  pub name : Text
  pub numa_node : ℤ
  pub pci_bus_id : Text

abbrev pub nvme_device : NetworkDeviceInfo → StorageDeviceInfo
nvme_device d = record {
  type = nvme;
  name = d.name;
  numa_node = d.numa_node;
  pci_bus_id = d.pci_bus_id;
}

unfoldable pub discover_storage_devices_with_topology : SysFs → List StorageDeviceInfo
unfolding stoi
discover_storage_devices_with_topology fs = map nvme_device (scan_directory fs.nvme)

-- `NicWithPath`
pub record NicWithPath : Type 0 where
  pub name : Text
  pub path_type : PciePathType

abbrev pub is_empty_text : Text → Bool
is_empty_text [] = true
is_empty_text (c ∷ cs) = false

unfoldable pub nics_with_paths : SysFs → Text → List NetworkDeviceInfo → Result (List NicWithPath)
unfolding get_pcie_path_type
nics_with_paths fs gpu_pci_id [] = ok []
nics_with_paths fs gpu_pci_id (dev ∷ devs) =
    if is_empty_text dev.pci_bus_id
    then nics_with_paths fs gpu_pci_id devs
    else (get_pcie_path_type fs gpu_pci_id dev.pci_bus_id >>= λ t.
        nics_with_paths fs gpu_pci_id devs >>= λ nics.
        ok (record { name = dev.name; path_type = t } ∷ nics))

abbrev pub best_from : PciePathType → List NicWithPath → PciePathType
best_from best [] = best
best_from best (nic ∷ nics) =
    best_from (if ltb (rank nic.path_type) (rank best) then nic.path_type else best) nics

abbrev pub names_with : PciePathType → List NicWithPath → List Text
names_with best [] = []
names_with best (nic ∷ nics) =
    if rank nic.path_type == rank best
    then nic.name ∷ names_with best nics
    else names_with best nics

abbrev pub names_at_node : ℤ → List NetworkDeviceInfo → List Text
names_at_node n [] = []
names_at_node n (dev ∷ devs) =
    if eqb_ℤ dev.numa_node n then dev.name ∷ names_at_node n devs else names_at_node n devs

abbrev pub names_of : List NetworkDeviceInfo → List Text
names_of [] = []
names_of (dev ∷ devs) = dev.name ∷ names_of devs

-- `if (mapped_devices.empty()) { ... }`
abbrev pub or_if_empty : List Text → List Text → List Text
or_if_empty [] other = other
or_if_empty (n ∷ ns) other = n ∷ ns

abbrev pub choose : ℤ → List NetworkDeviceInfo → List NicWithPath → List Text
choose gpu_numa_node devices [] = []
choose gpu_numa_node devices (nic ∷ nics) =
    or_if_empty
      (or_if_empty (names_with (best_from sys (nic ∷ nics)) (nic ∷ nics))
        (names_at_node gpu_numa_node devices))
      (names_of devices)

unfoldable pub map_network_devices_to_gpu :
    SysFs → Text → ℤ → List NetworkDeviceInfo → Result (List Text)
unfolding nics_with_paths
map_network_devices_to_gpu fs gpu_pci_id gpu_numa_node network_devices =
    nics_with_paths fs gpu_pci_id network_devices >>= λ nics.
    ok (choose gpu_numa_node network_devices nics)

-- `starts_with("node")`
abbrev pub is_node_name : Text → Bool
is_node_name (a ∷ b ∷ c ∷ d ∷ rest) = a == 110 && b == 111 && c == 100 && d == 101
is_node_name [] = false
is_node_name (a ∷ []) = false
is_node_name (a ∷ b ∷ []) = false
is_node_name (a ∷ b ∷ c ∷ []) = false

abbrev pub count_names : List Text → ℕ
count_names [] = 0
count_names (name ∷ names) =
    if is_node_name name then suc (count_names names) else count_names names

unfoldable pub count_numa_nodes : SysFs → ℕ
count_numa_nodes fs = elim fs.node_names [ err e ↦ 0 | ok names ↦ count_names names ]

unfoldable pub get_hostname : SysFs → Text
get_hostname fs = or_empty fs.hostname

-- The answers of NVML for one index; none for a call that does not succeed.
pub record NvmlDevice : Type 0 where
  pub has_handle : Bool
  pub nvml_name : Option Text
  pub nvml_bus_id : Option Text
  pub nvml_uuid : Option Text

pub record Nvml : Type 0 where
  pub available : Bool
  pub init_succeeds : Bool
  pub device_count : Option ℕ
  pub device : ℕ → NvmlDevice

pub record GpuTopologyInfo : Type 0 where
  pub id : ℕ
  pub name : Text
  pub pci_bus_id : Text
  pub uuid : Text
  pub numa_node : ℤ
  pub cpu_affinity_list : Text
  pub cpu_cores : List ℤ
  pub memory_binding : List ℤ
  pub network_devices : List Text

-- "Unknown"
abbrev pub unknown_text : Text
unknown_text = 85 ∷ 110 ∷ 107 ∷ 110 ∷ 111 ∷ 119 ∷ 110 ∷ []

abbrev pub or_unknown : Option Text → Text
or_unknown none = unknown_text
or_unknown (some s) = s

-- A GPU with its PCI bus id known.
unfoldable pub gpu_info :
    SysFs → List NetworkDeviceInfo → ℕ → NvmlDevice → Text → Result GpuTopologyInfo
unfolding get_numa_node_from_sys get_cpu_affinity_from_sys parse_cpu_list map_network_devices_to_gpu
gpu_info fs network_devices i d bus_id =
    parse_cpu_list (get_cpu_affinity_from_sys fs bus_id) >>= λ cores.
    map_network_devices_to_gpu fs bus_id (get_numa_node_from_sys fs bus_id) network_devices
    >>= λ nics. ok (record {
      id = i;
      name = or_unknown d.nvml_name;
      pci_bus_id = bus_id;
      uuid = or_unknown d.nvml_uuid;
      numa_node = get_numa_node_from_sys fs bus_id;
      cpu_affinity_list = get_cpu_affinity_from_sys fs bus_id;
      cpu_cores = cores;
      memory_binding =
          if leb_ℤ (pos 0) (get_numa_node_from_sys fs bus_id)
          then get_numa_node_from_sys fs bus_id ∷ []
          else [];
      network_devices = nics;
    })

-- `n` more GPUs from index `i` on; one without a handle or without PCI info is left out.
unfoldable pub collect_gpus :
    SysFs → (ℕ → NvmlDevice) → List NetworkDeviceInfo → ℕ → ℕ → Result (List GpuTopologyInfo)
unfolding gpu_info
collect_gpus fs device network_devices i zero = ok []
collect_gpus fs device network_devices i (suc n) =
    let rest = collect_gpus fs device network_devices (suc i) n in
    if (device i).has_handle
    then elim (device i).nvml_bus_id [
      | none ↦ rest
      | some bus_id ↦
          (gpu_info fs network_devices i (device i) bus_id >>= λ gpu.
          rest >>= λ gpus. ok (gpu ∷ gpus))
    ]
    else rest

pub record SystemTopologyInfo : Type 0 where
  pub hostname : Text
  pub num_gpus : ℕ
  pub num_numa_nodes : ℕ
  pub num_network_devices : ℕ
  pub gpus : List GpuTopologyInfo
  pub network_devices : List NetworkDeviceInfo
  pub storage_devices : List StorageDeviceInfo

-- Whether NVML was initialized, and how many devices it counted, if it did.
abbrev pub is_initialized : Nvml → Bool
is_initialized nvml = nvml.available && nvml.init_succeeds

abbrev pub counted_devices : Nvml → Option ℕ
counted_devices nvml = if is_initialized nvml then nvml.device_count else none

abbrev pub or_zero : Option ℕ → ℕ
or_zero none = 0
or_zero (some n) = n

-- What a call of `discover` leaves: `_topology`, its result, and whether NVML is still initialized by it.
pub record Discovery : Type 0 where
  pub topology : Option SystemTopologyInfo
  pub result : Result Bool
  pub nvml_left_open : Bool

-- After the loop over the GPUs. NVML is shut down only if it counted the devices.
unfoldable pub conclude :
    SysFs
    → Nvml
    → Option SystemTopologyInfo
    → List NetworkDeviceInfo
    → Result (List GpuTopologyInfo)
    → Discovery
unfolding count_numa_nodes get_hostname discover_storage_devices_with_topology
conclude fs nvml old network_devices (err e) = record {
  topology = old;
  result = err e;
  nvml_left_open = is_initialized nvml;
}
conclude fs nvml old network_devices (ok gpus) = record {
  topology = some (record {
    hostname = get_hostname fs;
    num_gpus = or_zero (counted_devices nvml);
    num_numa_nodes = count_numa_nodes fs;
    num_network_devices = length network_devices;
    gpus = gpus;
    network_devices = network_devices;
    storage_devices = discover_storage_devices_with_topology fs;
  });
  result = ok true;
  nvml_left_open = elim (counted_devices nvml) [ none ↦ is_initialized nvml | some n ↦ false ];
}

-- The three tests of `fs::exists` come after the devices are counted, and before the loop over them.
unfoldable pub discover : SysFs → Nvml → Option SystemTopologyInfo → Discovery
unfolding discover_network_devices_with_topology collect_gpus conclude
discover fs nvml old =
    let network_devices = discover_network_devices_with_topology fs in
    let gpus = collect_gpus fs nvml.device network_devices 0 (or_zero (counted_devices nvml)) in
    conclude fs nvml old network_devices (if fs.exists_throws then err runtime_error else gpus)
