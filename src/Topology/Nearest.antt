-- ===== src/Topology/Nearest.antt =====
-- The network devices that are chosen for a GPU.
use mathlib.Core.Path.{subst}
use cu_cascade.Base.{
  Bool, if◌then◌else◌, ℕ, ◌≤◌, ◌<◌, ◌≡◌, ◌≢◌, refl, sym, ap, ◌∙◌, ◌⊎◌, true, false, List, [], ◌∷◌,
  ltb, ◌==◌, arith, All, Bool-cases, inl, inr, ltb→lt, ==_iff, ok,
}
use cu_cascade.Base.Int.{ℤ}
use cu_cascade.Base.Text.{Text}
use cu_cascade.Topology.{
  SysFs, PciePathType, pix, pxb, phb, node, sys, rank, NetworkDeviceInfo, NicWithPath,
  nics_with_paths, best_from, names_with, names_at_node, names_of, or_if_empty, choose,
  map_network_devices_to_gpu, is_empty_text, get_pcie_path_type,
}

rank_max : (t : PciePathType) → rank t ≤ 4
rank_max pix = omega arith
rank_max pxb = omega arith
rank_max phb = omega arith
rank_max node = omega arith
rank_max sys = omega arith

not_below : (a b : ℕ) → ltb a b ≡ false → b ≤ a
not_below a b h = ground arith

-- One round of the search.
best_round :
    (best : PciePathType) (nic : NicWithPath) (nics : List NicWithPath)
    → ((best_from best (nic ∷ nics) ≡ best_from nic.path_type nics)
        × (rank nic.path_type < rank best))
      ⊎ ((best_from best (nic ∷ nics) ≡ best_from best nics) × (rank best ≤ rank nic.path_type))
best_round best nic nics = elim (Bool-cases (ltb (rank nic.path_type) (rank best))) [
  | inl h ↦ inl (rw h refl, ltb→lt _ _ h)
  | inr h ↦ inr (rw h refl, not_below _ _ h)
]

best_le : (best : PciePathType) (nics : List NicWithPath) → rank (best_from best nics) ≤ rank best
best_le best [] = omega arith
best_le best (nic ∷ nics) = elim (best_round best nic nics) [
  | inl (e, l) ↦ omega (arith, ap rank e, best_le nic.path_type nics)
  | inr (e, l) ↦ omega (arith, ap rank e, best_le best nics)
]

-- No device has a better path.
abbrev pub IsBest : PciePathType → List NicWithPath → Type 0
IsBest best nics = All (λ (nic : NicWithPath). rank best ≤ rank nic.path_type) nics

best_from-IsBest :
    (best : PciePathType) (nics : List NicWithPath) → IsBest (best_from best nics) nics
best_from-IsBest best [] = tt
best_from-IsBest best (nic ∷ nics) = elim (best_round best nic nics) [
  | inl (e, l) ↦
      subst (λ t. IsBest t (nic ∷ nics)) (sym e)
        (best_le nic.path_type nics, best_from-IsBest nic.path_type nics)
  | inr (e, l) ↦
      subst (λ t. IsBest t (nic ∷ nics)) (sym e)
        (omega (arith, l, best_le best nics), best_from-IsBest best nics)
]

-- A device of the chosen kind is in the list.
abbrev pub IsChosen : PciePathType → List NicWithPath → Type 0
IsChosen best nics = names_with best nics ≢ []

IsChosen-names_with :
    (best : PciePathType) (nic : NicWithPath) (nics : List NicWithPath)
    → rank nic.path_type ≡ rank best
    → IsChosen best (nic ∷ nics)
IsChosen-names_with best nic nics h e = cc (rw ((==_iff _ _).1 h) at e)

IsChosen-later :
    (best : PciePathType) (nic : NicWithPath) (nics : List NicWithPath)
    → IsChosen best nics
    → IsChosen best (nic ∷ nics)
IsChosen-later best nic nics h e = elim (Bool-cases (rank nic.path_type == rank best)) [
  | inl q ↦ cc (rw q at e)
  | inr q ↦ h (rw q at e)
]

best_found :
    (best : PciePathType) (nics : List NicWithPath)
    → (rank (best_from best nics) ≡ rank best) ⊎ IsChosen (best_from best nics) nics
best_found best [] = inl refl
best_found best (nic ∷ nics) = elim (best_round best nic nics) [
  | inl (e, l) ↦ inr (
      subst (λ t. IsChosen t (nic ∷ nics)) (sym e)
        (elim (best_found nic.path_type nics) [
          | inl q ↦ IsChosen-names_with (best_from nic.path_type nics) nic nics (sym q)
          | inr c ↦ IsChosen-later (best_from nic.path_type nics) nic nics c
        ]))
  | inr (e, l) ↦ elim (best_found best nics) [
    | inl q ↦ inl (ap rank e ∙ q)
    | inr c ↦ inr (
        subst (λ t. IsChosen t (nic ∷ nics)) (sym e)
          (IsChosen-later (best_from best nics) nic nics c))
  ]
]

sys_found :
    (nic : NicWithPath) (nics : List NicWithPath)
    → IsChosen (best_from sys (nic ∷ nics)) (nic ∷ nics)
sys_found nic nics = elim (best_found sys (nic ∷ nics)) [
  | inr c ↦ c
  | inl e ↦
      IsChosen-names_with (best_from sys (nic ∷ nics)) nic nics
        (omega (arith, e, (best_from-IsBest sys (nic ∷ nics)).0, rank_max nic.path_type))
]

or_same : (ns other : List Text) → ns ≢ [] → or_if_empty ns other ≡ ns
or_same [] other h = absurd (h refl)
or_same (n ∷ ns) other h = refl

choose-best :
    (n : ℤ) (devices : List NetworkDeviceInfo) (nics : List NicWithPath)
    → choose n devices nics ≡ names_with (best_from sys nics) nics
choose-best n devices [] = refl
choose-best n devices (nic ∷ nics) =
    let best = best_from sys (nic ∷ nics) in
    let found =
      or_same (names_with best (nic ∷ nics)) (names_at_node n devices) (sys_found nic nics) in
    ap (λ ns. or_if_empty ns (names_of devices)) found
    ∙ or_same (names_with best (nic ∷ nics)) (names_of devices) (sys_found nic nics)

-- The devices of a list that have a PCI bus id, each with the type of its path to the GPU; for none of these the search for
-- the path throws.
pub data Paths (fs : SysFs) (gpu_pci_id : Text)
    : List NetworkDeviceInfo → List NicWithPath → Type 0 where
  no_devices : Paths fs gpu_pci_id [] []
  without_id :
      {devices : List NetworkDeviceInfo} {nics : List NicWithPath} (d : NetworkDeviceInfo)
      → d.pci_bus_id ≡ []
      → Paths fs gpu_pci_id devices nics
      → Paths fs gpu_pci_id (d ∷ devices) nics
  with_path :
      {devices : List NetworkDeviceInfo} {nics : List NicWithPath} (d : NetworkDeviceInfo)
      (t : PciePathType)
      → d.pci_bus_id ≢ []
      → get_pcie_path_type fs gpu_pci_id d.pci_bus_id ≡ ok t
      → Paths fs gpu_pci_id devices nics
      → Paths fs gpu_pci_id (d ∷ devices) (record { name = d.name; path_type = t } ∷ nics)

has_id : (t : Text) → t ≢ [] → is_empty_text t ≡ false
has_id [] n = absurd (n refl)
has_id (c ∷ cs) n = refl

Paths-nics_with_paths :
    (fs : SysFs) (gpu_pci_id : Text) (devices : List NetworkDeviceInfo) (nics : List NicWithPath)
    → Paths fs gpu_pci_id devices nics
    → nics_with_paths fs gpu_pci_id devices ≡ ok nics
unfolding nics_with_paths
Paths-nics_with_paths fs gpu _ _ no_devices = refl
Paths-nics_with_paths fs gpu (d ∷ devices) nics (without_id _ e h) =
    rw (e, nics_with_paths) (Paths-nics_with_paths fs gpu devices nics h)
Paths-nics_with_paths fs gpu (d ∷ devices) (_ ∷ nics) (with_path _ t n e h) =
    rw (has_id d.pci_bus_id n, e, nics_with_paths, Paths-nics_with_paths fs gpu devices nics h) refl

-- No device of the list has a path of a better type.
abbrev pub is_nearest : PciePathType → List NicWithPath → Bool
is_nearest t [] = true
is_nearest t (nic ∷ nics) = if ltb (rank nic.path_type) (rank t) then false else is_nearest t nics

-- The names of the devices that are nearest among `all`.
abbrev pub nearest_names : List NicWithPath → List NicWithPath → List Text
nearest_names all [] = []
nearest_names all (nic ∷ nics) =
    if is_nearest nic.path_type all
    then nic.name ∷ nearest_names all nics
    else nearest_names all nics

nearest_of_best :
    (best t : PciePathType) (nics : List NicWithPath)
    → IsBest best nics
    → rank t ≡ rank best
    → is_nearest t nics ≡ true
nearest_of_best best t [] b e = refl
nearest_of_best best t (nic ∷ nics) b e = ground (arith, b.0, nearest_of_best best t nics b.1 e)

farther_than_best :
    (best t : PciePathType) (nics : List NicWithPath)
    → IsChosen best nics
    → rank best < rank t
    → is_nearest t nics ≡ false
farther_than_best best t [] c l = absurd (c refl)
farther_than_best best t (nic ∷ nics) c l = elim (Bool-cases (rank nic.path_type == rank best)) [
  | inl q ↦ ground arith
  | inr q ↦ elim (Bool-cases (ltb (rank nic.path_type) (rank t))) [
    | inl h ↦ rw h refl
    | inr h ↦ rw h (farther_than_best best t nics (λ e. c (rw q e)) l)
  ]
]

-- The names with the best type are those of the devices that none beats.
names-nearest :
    (best : PciePathType) (all nics : List NicWithPath)
    → IsBest best all
    → IsChosen best all
    → IsBest best nics
    → names_with best nics ≡ nearest_names all nics
names-nearest best all [] b c h = refl
names-nearest best all (nic ∷ nics) b c h = elim (Bool-cases (rank nic.path_type == rank best)) [
  | inl q ↦
      rw (q, nearest_of_best best nic.path_type all b ((==_iff _ _).0 q))
        (ap (λ ns. nic.name ∷ ns) (names-nearest best all nics b c h.1))
  | inr q ↦
      rw (q, farther_than_best best nic.path_type all c (apart _ _ q h.0))
        (names-nearest best all nics b c h.1)
]
  where
    apart : (m n : ℕ) → (m == n) ≡ false → n ≤ m → n < m
    apart m n q l = ground arith

chosen_nearest :
    (nics : List NicWithPath) → names_with (best_from sys nics) nics ≡ nearest_names nics nics
chosen_nearest [] = refl
chosen_nearest (nic ∷ nics) =
    let all = nic ∷ nics in
    let b = best_from-IsBest sys all in
    names-nearest (best_from sys all) all all b (sys_found nic nics) b

-- If for no device with a PCI bus id the search for its path to the GPU throws, `map_network_devices_to_gpu` returns the
-- names of exactly those of them to which none of the others has a path of a better type, in their order. Neither the NUMA
-- node of the GPU nor the devices without a PCI bus id matter: of the two fallbacks that follow in the code none is taken.
pub map-nearest :
    (fs : SysFs) (gpu_pci_id : Text) (n : ℤ) (devices : List NetworkDeviceInfo)
    (nics : List NicWithPath)
    → Paths fs gpu_pci_id devices nics
    → map_network_devices_to_gpu fs gpu_pci_id n devices ≡ ok (nearest_names nics nics)
unfolding map_network_devices_to_gpu
map-nearest fs gpu_pci_id n devices nics h =
    rw (Paths-nics_with_paths fs gpu_pci_id devices nics h)
      (ap ok (choose-best n devices nics ∙ chosen_nearest nics))

-- With no PCI bus id among the devices none is chosen, also if one has the NUMA node of the GPU.
pub map_without_ids :
    (fs : SysFs) (gpu_pci_id : Text) (n : ℤ) (devices : List NetworkDeviceInfo)
    → All (λ (d : NetworkDeviceInfo). is_empty_text d.pci_bus_id ≡ true) devices
    → map_network_devices_to_gpu fs gpu_pci_id n devices ≡ ok []
unfolding map_network_devices_to_gpu nics_with_paths
map_without_ids fs gpu_pci_id n devices h = rw (none_listed devices h) refl
  where
    none_listed :
        (devices : List NetworkDeviceInfo)
        → All (λ (d : NetworkDeviceInfo). is_empty_text d.pci_bus_id ≡ true) devices
        → nics_with_paths fs gpu_pci_id devices ≡ ok []
    none_listed [] h = refl
    none_listed (d ∷ ds) h = rw (h.0, nics_with_paths) (none_listed ds h.1)
