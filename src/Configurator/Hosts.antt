-- ===== src/Configurator/Hosts.antt =====
-- The host spaces that are configured.
use mathlib.Core.Path.{subst}
use native.Mathlib.Nat.{div-add-mod, mod-lt}
use cu_cascade.Base.{
  ℕ, ◌+◌, ◌*◌, ◌/◌, ◌%◌, ◌≤◌, ◌<◌, ◌≡◌, refl, sym, ap, ◌∙◌, true, false, not, ◌&&◌, List, [], ◌∷◌,
  leb, arith, Bool-cases, inl, inr,
}
use cu_cascade.Base.Int.{ℤ, pos, negsuc, eqb_ℤ}
use cu_cascade.Configurator.{
  bind_cpu_to_gpu_numa, GpuInfo, HostInfo, contains, extract_host_ids, per_host_capacity,
}

abbrev pub space_ids : List HostInfo → List ℤ
space_ids [] = []
space_ids (h ∷ hs) = h.space_id ∷ space_ids hs

abbrev pub numa_ids : List GpuInfo → List ℤ
numa_ids [] = []
numa_ids (g ∷ gs) = g.numa_id ∷ numa_ids gs

-- No id twice.
abbrev pub IsOnce : List ℤ → Type 0
IsOnce [] = Unit
IsOnce (i ∷ is) = (contains is i ≡ false) × IsOnce is

eqb_ℤ-path : (a b : ℤ) → eqb_ℤ a b ≡ true → a ≡ b
eqb_ℤ-path (pos a) (pos b) h = ap pos (ground arith)
eqb_ℤ-path (pos a) (negsuc b) h = ground arith
eqb_ℤ-path (negsuc a) (pos b) h = ground arith
eqb_ℤ-path (negsuc a) (negsuc b) h = ap negsuc (ground arith)

eqb_ℤ_refl : (a : ℤ) → eqb_ℤ a a ≡ true
eqb_ℤ_refl a = ground arith

-- The host spaces have the NUMA nodes of the GPUs, but for those seen before.
contains-hosts :
    (seen : List ℤ) (gpus : List GpuInfo) (n : ℤ)
    → contains (space_ids (extract_host_ids bind_cpu_to_gpu_numa seen gpus)) n
      ≡ (not (contains seen n) && contains (numa_ids gpus) n)
unfolding extract_host_ids
contains-hosts seen [] n = elim (Bool-cases (contains seen n)) [
  | inl h ↦ rw h refl
  | inr h ↦ rw h refl
]
contains-hosts seen (g ∷ gpus) n = elim (Bool-cases (contains seen g.numa_id)) [
  | inl h ↦ elim (Bool-cases (eqb_ℤ g.numa_id n)) [
    | inl e ↦
        let same : contains seen n ≡ true =
          subst (λ x. contains seen x ≡ true) (eqb_ℤ-path g.numa_id n e) h in
        rw (h, e, same) (contains-hosts seen gpus n ∙ rw same refl)
    | inr e ↦ rw (h, e) (contains-hosts seen gpus n)
  ]
  | inr h ↦ elim (Bool-cases (eqb_ℤ g.numa_id n)) [
    | inl e ↦
        let same : contains seen n ≡ false =
          subst (λ x. contains seen x ≡ false) (eqb_ℤ-path g.numa_id n e) h in
        rw (h, e, same) refl
    | inr e ↦ rw (h, e) (contains-hosts (g.numa_id ∷ seen) gpus n ∙ rw e refl)
  ]
]

hosts-IsOnce :
    (seen : List ℤ) (gpus : List GpuInfo)
    → IsOnce (space_ids (extract_host_ids bind_cpu_to_gpu_numa seen gpus))
unfolding extract_host_ids
hosts-IsOnce seen [] = tt
hosts-IsOnce seen (g ∷ gpus) = elim (Bool-cases (contains seen g.numa_id)) [
  | inl h ↦ rw h (hosts-IsOnce seen gpus)
  | inr h ↦ rw h (
    contains-hosts (g.numa_id ∷ seen) gpus g.numa_id ∙ rw (eqb_ℤ_refl g.numa_id) refl,
    hosts-IsOnce (g.numa_id ∷ seen) gpus,
  )
]

-- With a host space for each NUMA node, the nodes of the GPUs that are configured have one space each, and no other node has
-- one, whatever number of GPUs is at a node.
pub hosts_per_numa :
    (gpus : List GpuInfo)
    → let ids = space_ids (extract_host_ids bind_cpu_to_gpu_numa [] gpus) in
      IsOnce ids × ((n : ℤ) → contains ids n ≡ contains (numa_ids gpus) n)
hosts_per_numa gpus = (hosts-IsOnce [] gpus, contains-hosts [] gpus)

times_one : (n c : ℕ) → n ≡ 1 → n * c ≡ c
times_one n c e = subst (λ k. k * c ≡ c) (sym e) (omega arith)

just_one : (n : ℕ) → 0 < n → leb n 1 ≡ true → n ≡ 1
just_one n p h = ground arith

share_below : (c n q r : ℕ) → n * q + r ≡ c → r < n → (n * q ≤ c) × (c < n * q + n)
share_below c n q r e l = (omega arith, omega arith)

-- A total capacity is shared out among the spaces: together they have no more than the total, and less than one byte for each
-- space is left over. A capacity for each space is given to each.
pub capacity_shared :
    (host_capacity n : ℕ)
    → 0 < n
    → (n * per_host_capacity host_capacity false n ≤ host_capacity)
      × (host_capacity < n * per_host_capacity host_capacity false n + n)
      × (per_host_capacity host_capacity true n ≡ host_capacity)
unfolding per_host_capacity
capacity_shared host_capacity n p = elim (Bool-cases (leb n 1)) [
  | inl h ↦
      let one = times_one n host_capacity (just_one n p h) in
      rw h (omega (arith, one), omega (arith, one), refl)
  | inr h ↦
      let (below, above) =
        share_below host_capacity n (host_capacity / n) (host_capacity % n)
          (div-add-mod host_capacity n) (mod-lt host_capacity p) in
      rw h (below, above, refl)
]
