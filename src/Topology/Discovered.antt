-- ===== src/Topology/Discovered.antt =====
-- What the discovery leaves.
use mathlib.Core.Path.{subst}
use cu_cascade.Base.{
  runtime_error, if◌then◌else◌, ◌==◌, ℕ, zero, suc, ◌+◌, ◌≤◌, ◌<◌, ◌≡◌, refl, sym, ap, ◌∙◌, ◌⊎◌,
  true, false, Option, none, some, List, [], ◌∷◌, length, arith, All, Bool-cases, Option-cases, inl,
  inr, Error, Result, ok, err, ◌>>=◌,
}
use cu_cascade.Base.Text.{Text}
use cu_cascade.Topology.{
  SysFs, get_numa_node_from_sys, get_cpu_affinity_from_sys, parse_cpu_list,
  map_network_devices_to_gpu, NetworkDeviceInfo, NvmlDevice, Nvml, GpuTopologyInfo, gpu_info,
  collect_gpus, SystemTopologyInfo, counted_devices, is_initialized, or_zero, Discovery, conclude,
  discover, discover_network_devices_with_topology, discover_storage_devices_with_topology,
  count_numa_nodes, get_hostname,
}

-- A GPU as NVML and sysfs describe it.
pub record IsDescribed (fs : SysFs) (device : ℕ → NvmlDevice) (devices : List NetworkDeviceInfo)
    (g : GpuTopologyInfo) : Type 0 where
  pub handle : (device g.id).has_handle ≡ true
  pub bus : (device g.id).nvml_bus_id ≡ some g.pci_bus_id
  pub numa : g.numa_node ≡ get_numa_node_from_sys fs g.pci_bus_id
  pub affinity : g.cpu_affinity_list ≡ get_cpu_affinity_from_sys fs g.pci_bus_id
  pub cores : parse_cpu_list g.cpu_affinity_list ≡ ok g.cpu_cores
  pub nics : map_network_devices_to_gpu fs g.pci_bus_id g.numa_node devices ≡ ok g.network_devices

-- The ids ascend from `i` on, below `bound`.
abbrev pub IsAscending : ℕ → ℕ → List GpuTopologyInfo → Type 0
IsAscending i bound [] = Unit
IsAscending i bound (g ∷ gs) = (i ≤ g.id) × (g.id < bound) × IsAscending (suc g.id) bound gs

-- A GPU of the index is in the list.
abbrev pub Lists : ℕ → List GpuTopologyInfo → Type 0
Lists i [] = ⊥
Lists i (g ∷ gs) = (g.id ≡ i) ⊎ Lists i gs

from_earlier :
    (i j bound : ℕ) (gs : List GpuTopologyInfo)
    → i ≤ j
    → IsAscending j bound gs
    → IsAscending i bound gs
from_earlier i j bound [] l h = tt
from_earlier i j bound (g ∷ gs) l h = (omega (arith, h.0), h.1, h.2)

-- A `>>=` that returns a value.
bind_ok :
    {A B : Type 0} (r : Result A) (f : A → Result B) (b : B)
    → (r >>= f) ≡ ok b
    → (a : A) × (r ≡ ok a) × (f a ≡ ok b)
bind_ok (ok a) f b e = (a, refl, e)
bind_ok (err x) f b e = cc

ok_injective : {A : Type 0} (a b : A) → ok a ≡ ok b → a ≡ b
ok_injective a b e = cc

module _ (fs : SysFs) (device : ℕ → NvmlDevice) (devices : List NetworkDeviceInfo) where
  gpu_info-id :
      (i : ℕ) (bus_id : Text) (g : GpuTopologyInfo)
      → (device i).has_handle ≡ true
      → (device i).nvml_bus_id ≡ some bus_id
      → gpu_info fs devices i (device i) bus_id ≡ ok g
      → (g.id ≡ i) × IsDescribed fs device devices g
  unfolding gpu_info
  gpu_info-id i bus_id g h b e =
      let (cores, p, e') = bind_ok (parse_cpu_list (get_cpu_affinity_from_sys fs bus_id)) _ g e in
      let (nics, q, e'') =
        bind_ok (map_network_devices_to_gpu fs bus_id (get_numa_node_from_sys fs bus_id) devices) _
          g e' in
      subst (λ (x : GpuTopologyInfo). (x.id ≡ i) × IsDescribed fs device devices x)
        (ok_injective _ g e'')
        (refl, record { handle = h; bus = b; numa = refl; affinity = refl; cores = p; nics = q })

  -- What a part of the loop returns.
  abbrev Collected : ℕ → ℕ → List GpuTopologyInfo → Type 0
  Collected i bound gpus =
      IsAscending i bound gpus
      × All (IsDescribed fs device devices) gpus
      × ((j : ℕ) (bus_id : Text)
          → i ≤ j
          → j < bound
          → (device j).has_handle ≡ true
          → (device j).nvml_bus_id ≡ some bus_id
          → Lists j gpus)

  collect_skips :
      (i n : ℕ)
      → ((device i).has_handle ≡ false) ⊎ ((device i).nvml_bus_id ≡ none)
      → collect_gpus fs device devices i (suc n) ≡ collect_gpus fs device devices (suc i) n
  unfolding collect_gpus
  collect_skips i n (inl h) = rw h refl
  collect_skips i n (inr b) = elim (Bool-cases (device i).has_handle) [
    | inl h ↦ rw (h, b) refl
    | inr h ↦ rw h refl
  ]

  collect_adds :
      (i n : ℕ) (bus_id : Text)
      → (device i).has_handle ≡ true
      → (device i).nvml_bus_id ≡ some bus_id
      → collect_gpus fs device devices i (suc n) ≡ (
          gpu_info fs devices i (device i) bus_id >>= λ g.
          collect_gpus fs device devices (suc i) n >>= λ gs. ok (g ∷ gs))
  unfolding collect_gpus
  collect_adds i n bus_id h b = rw (h, b) refl

  Collected-collect_gpus :
      (i n : ℕ) (gpus : List GpuTopologyInfo)
      → ((device i).has_handle ≡ false) ⊎ ((device i).nvml_bus_id ≡ none)
      → Collected (suc i) (suc i + n) gpus
      → Collected i (i + suc n) gpus
  Collected-collect_gpus i n gpus skipped (a, d, c) = (
    from_earlier i (suc i) (i + suc n) gpus (omega arith)
        (subst (λ x. IsAscending (suc i) x gpus) (omega arith) a),
    d,
    λ j b l u h e. elim (Bool-cases (j == i)) [
      | inr q ↦ c j b (later j q l) (omega arith) h e
      | inl q ↦ absurd (
          not_skipped b skipped (subst (λ k. (device k).has_handle ≡ true) (same j q) h)
            (subst (λ k. (device k).nvml_bus_id ≡ some b) (same j q) e))
    ],
  )
    where
      later : (j : ℕ) → (j == i) ≡ false → i ≤ j → suc i ≤ j
      later j q l = ground arith

      same : (j : ℕ) → (j == i) ≡ true → j ≡ i
      same j q = ground arith

      not_skipped :
          (b : Text)
          → ((device i).has_handle ≡ false) ⊎ ((device i).nvml_bus_id ≡ none)
          → (device i).has_handle ≡ true
          → (device i).nvml_bus_id ≡ some b
          → ⊥
      not_skipped b (inl x) h e = cc
      not_skipped b (inr x) h e = cc

  Collected-cons :
      (i n : ℕ) (g : GpuTopologyInfo) (gs : List GpuTopologyInfo)
      → g.id ≡ i
      → IsDescribed fs device devices g
      → Collected (suc i) (suc i + n) gs
      → Collected i (i + suc n) (g ∷ gs)
  Collected-cons i n g gs same d (a, ds, c) = (
    (
      omega (arith, same),
      omega (arith, same),
      subst (λ x. IsAscending (suc x) (i + suc n) gs) (sym same)
          (subst (λ x. IsAscending (suc i) x gs) (omega arith) a),
    ),
    (d, ds),
    λ j b l u h e. elim (Bool-cases (i == j)) [
      | inl q ↦ inl (ground (arith, same))
      | inr q ↦ inr (c j b (ground arith) (omega arith) h e)
    ],
  )

  nil-Collected : (i : ℕ) → Collected i (i + 0) []
  nil-Collected i = (tt, tt, λ j b l u h e. omega arith)

  pub collect-Collected :
      (i n : ℕ) (gpus : List GpuTopologyInfo)
      → collect_gpus fs device devices i n ≡ ok gpus
      → Collected i (i + n) gpus
  unfolding collect_gpus
  collect-Collected i zero gpus e =
      subst (Collected i (i + 0)) (ok_injective [] gpus e) (nil-Collected i)
  collect-Collected i (suc n) gpus e = elim (Bool-cases (device i).has_handle) [
    | inr h ↦
        Collected-collect_gpus i n gpus (inl h)
          (collect-Collected (suc i) n gpus (sym (collect_skips i n (inl h)) ∙ e))
    | inl h ↦ elim (Option-cases (device i).nvml_bus_id) [
      | inl b ↦
          Collected-collect_gpus i n gpus (inr b)
            (collect-Collected (suc i) n gpus (sym (collect_skips i n (inr b)) ∙ e))
      | inr (bus_id, b) ↦
          let (g, p, e') =
            bind_ok (gpu_info fs devices i (device i) bus_id)
              (λ g. collect_gpus fs device devices (suc i) n >>= λ gs. ok (g ∷ gs)) gpus
              (sym (collect_adds i n bus_id h b) ∙ e) in
          let (gs, q, e'') =
            bind_ok (collect_gpus fs device devices (suc i) n) (λ gs. ok (g ∷ gs)) gpus e' in
          let (same, d) = gpu_info-id i bus_id g h b p in
          subst (Collected i (i + suc n)) (ok_injective (g ∷ gs) gpus e'')
            (Collected-cons i n g gs same d (collect-Collected (suc i) n gs q))
    ]
  ]

-- What `discover` leaves when it returns: the GPUs are those of the devices that NVML counted for which it has a handle and
-- a PCI bus id, all of them, in the order of their indices and none twice, and each is as NVML and sysfs describe it, with
-- the network devices that are chosen for it. The host, its NUMA nodes, its network and its storage devices are those of
-- the system.
pub record IsDiscovered (fs : SysFs) (nvml : Nvml) (d : Discovery) : Type 0 where
  pub topology : SystemTopologyInfo
  pub stored : d.topology ≡ some topology
  pub returned : d.result ≡ ok true
  pub counted : topology.num_gpus ≡ or_zero (counted_devices nvml)
  pub ascending : IsAscending 0 topology.num_gpus topology.gpus
  pub described : All (IsDescribed fs nvml.device topology.network_devices) topology.gpus
  pub complete :
      (i : ℕ) (bus_id : Text)
      → i < topology.num_gpus
      → (nvml.device i).has_handle ≡ true
      → (nvml.device i).nvml_bus_id ≡ some bus_id
      → Lists i topology.gpus
  pub network_devices : topology.network_devices ≡ discover_network_devices_with_topology fs
  pub networks : topology.num_network_devices ≡ length topology.network_devices
  pub storage_devices : topology.storage_devices ≡ discover_storage_devices_with_topology fs
  pub numa_nodes : topology.num_numa_nodes ≡ count_numa_nodes fs
  pub hostname : topology.hostname ≡ get_hostname fs
  pub closed : (n : ℕ) → counted_devices nvml ≡ some n → d.nvml_left_open ≡ false

-- With an exception: nothing is discovered, and NVML stays initialized if it was.
pub record IsAborted (nvml : Nvml) (old : Option SystemTopologyInfo) (d : Discovery) : Type 0 where
  pub error : Error
  pub thrown : d.result ≡ err error
  pub kept : d.topology ≡ old
  pub left : d.nvml_left_open ≡ is_initialized nvml

-- Without a count of the devices, for want of NVML or because it fails, `discover` returns true all the same, with no GPU and
-- with the network devices of sysfs.
pub discover_without_gpus :
    (fs : SysFs) (nvml : Nvml) (old : Option SystemTopologyInfo)
    → fs.exists_throws ≡ false
    → counted_devices nvml ≡ none
    → let d = discover fs nvml old in
      (d.result ≡ ok true)
      × ((t : SystemTopologyInfo) × (d.topology ≡ some t)
          × (t.gpus ≡ [])
          × (t.num_gpus ≡ 0)
          × (t.network_devices ≡ discover_network_devices_with_topology fs))
      × (d.nvml_left_open ≡ is_initialized nvml)
unfolding discover conclude collect_gpus discover_network_devices_with_topology
discover_without_gpus fs nvml old t h =
    let nets = discover_network_devices_with_topology fs in
    let empty : discover fs nvml old ≡ conclude fs nvml old nets (ok []) =
      ap
        (λ b. conclude fs nvml old nets (
          if b
          then err runtime_error
          else collect_gpus fs nvml.device nets 0 (or_zero (counted_devices nvml))))
        t
      ∙ ap (λ c. conclude fs nvml old nets (collect_gpus fs nvml.device nets 0 (or_zero c))) h in
    subst
      (λ (d : Discovery).
        (d.result ≡ ok true)
        × ((t : SystemTopologyInfo) × (d.topology ≡ some t)
            × (t.gpus ≡ [])
            × (t.num_gpus ≡ 0)
            × (t.network_devices ≡ nets))
        × (d.nvml_left_open ≡ is_initialized nvml))
      (sym empty) (refl, (_, refl, refl, ap or_zero h, refl), rw (h, conclude) refl)
