-- ===== src/Configurator/Gpus.antt =====
-- The GPUs that are configured, and those that the discovery lists.
use mathlib.Core.Path.{subst}
use cu_cascade.Base.{
  true, ℕ, zero, suc, ◌+◌, ◌≤◌, ◌<◌, ◌≡◌, ==_iff, refl, ap, ◌∙◌, false, none, some, List, [], ◌∷◌,
  ◌==◌, length, ltb, arith, Bool-cases, Option-cases, inl, inr, ok, err, runtime_error,
}
use cu_cascade.Topology.{GpuTopologyInfo}
use cu_cascade.Topology.Discovered.{IsAscending}
use cu_cascade.Configurator.{find_gpu, GpuInfo, gpu_infos, extract_gpu_ids}

-- The ids count up from `id`, each with the memory of its device.
abbrev pub AreNumbered : (ℕ → ℕ) → ℕ → List GpuInfo → Type 0
AreNumbered total_memory id [] = Unit
AreNumbered total_memory id (g ∷ gs) =
    (g.space_id ≡ id)
    × (g.hw_id ≡ id)
    × (g.gpu_capacity ≡ total_memory id)
    × AreNumbered total_memory (suc id) gs

-- A GPU with the id is listed.
abbrev pub IsListed : List GpuTopologyInfo → ℕ → Type 0
IsListed gpus id = (g : GpuTopologyInfo) × (find_gpu gpus id ≡ some g)

module _ (total_memory : ℕ → ℕ) (gpus : List GpuTopologyInfo) where
  gpu_infos_round :
      (id n : ℕ) (g : GpuTopologyInfo) (infos : List GpuInfo)
      → find_gpu gpus id ≡ some g
      → gpu_infos total_memory gpus (suc id) n ≡ ok infos
      → gpu_infos total_memory gpus id (suc n)
        ≡ ok (
            record {
              space_id = id;
              hw_id = id;
              gpu_capacity = total_memory id;
              numa_id = g.numa_node;
            }
            ∷ infos)
  unfolding gpu_infos
  gpu_infos_round id n g infos e r = rw (gpu_infos, e, r) refl

  gpu_infos_ends :
      (id n : ℕ)
      → find_gpu gpus id ≡ none
      → gpu_infos total_memory gpus id (suc n) ≡ err runtime_error
  unfolding gpu_infos
  gpu_infos_ends id n e = rw (gpu_infos, e) refl

  gpu_infos_throws :
      (id n : ℕ) (g : GpuTopologyInfo)
      → find_gpu gpus id ≡ some g
      → gpu_infos total_memory gpus (suc id) n ≡ err runtime_error
      → gpu_infos total_memory gpus id (suc n) ≡ err runtime_error
  unfolding gpu_infos
  gpu_infos_throws id n g e r = rw (gpu_infos, e, r) refl

  gpu_infos-AreNumbered :
      (id n : ℕ)
      → ((k : ℕ) → k < n → IsListed gpus (id + k))
      → (infos : List GpuInfo) × (gpu_infos total_memory gpus id n ≡ ok infos)
        × (length infos ≡ n)
        × AreNumbered total_memory id infos
  unfolding gpu_infos
  gpu_infos-AreNumbered id zero h = ([], refl, refl, tt)
  gpu_infos-AreNumbered id (suc n) h =
      let (g, e) = subst (IsListed gpus) {x = id + 0} {y = id} (omega arith) (h 0 (omega arith)) in
      let (infos, r, l, a) = gpu_infos-AreNumbered (suc id) n (λ k q.
        subst (IsListed gpus) {x = id + suc k} {y = suc id + k} (omega arith)
          (h (suc k) (omega arith))) in
      (
        record { space_id = id; hw_id = id; gpu_capacity = total_memory id; numa_id = g.numa_node }
            ∷ infos,
        gpu_infos_round id n g infos e r,
        ap suc l,
        (refl, refl, refl, a),
      )

  -- The first id that is not listed ends the loop.
  gpu_infos_missing :
      (id n k : ℕ)
      → k < n
      → find_gpu gpus (id + k) ≡ none
      → gpu_infos total_memory gpus id n ≡ err runtime_error
  unfolding gpu_infos
  gpu_infos_missing id zero k q h = absurd (omega arith)
  gpu_infos_missing id (suc n) zero q h =
      gpu_infos_ends id n
        (subst (λ x. find_gpu gpus x ≡ none) {x = id + 0} {y = id} (omega arith) h)
  gpu_infos_missing id (suc n) (suc k) q h = elim (Option-cases (find_gpu gpus id)) [
    | inl e ↦ gpu_infos_ends id n e
    | inr (g, e) ↦ gpu_infos_throws id n g e (
        gpu_infos_missing (suc id) n k (omega arith)
          (subst (λ x. find_gpu gpus x ≡ none) {x = id + suc k} {y = suc id + k} (omega arith) h))
  ]

length-IsAscending :
    (i bound : ℕ) (gs : List GpuTopologyInfo)
    → i ≤ bound
    → IsAscending i bound gs
    → length gs + i ≤ bound
length-IsAscending i bound [] l h = omega arith
length-IsAscending i bound (g ∷ gs) l h =
    omega (arith, h.0, h.1, length-IsAscending (suc g.id) bound gs (omega (arith, h.1)) h.2)

IsListed-cons :
    (g : GpuTopologyInfo) (gs : List GpuTopologyInfo) (id : ℕ)
    → IsListed gs id
    → IsListed (g ∷ gs) id
IsListed-cons g gs id (x, e) = (x, rw e refl)

gpu_id_found :
    (g : GpuTopologyInfo) (gs : List GpuTopologyInfo) (id : ℕ) → g.id ≡ id → IsListed (g ∷ gs) id
gpu_id_found g gs id h = elim (Option-cases (find_gpu gs id)) [
  | inl e ↦ (g, rw (e, (==_iff g.id id).1 h) refl)
  | inr (x, e) ↦ (x, rw e refl)
]

-- Among GPUs whose ids ascend below a bound, as many as there are ids from `i` to the bound, each id is listed.
gpu_ids_found :
    (i bound : ℕ) (gs : List GpuTopologyInfo) (j : ℕ)
    → IsAscending i bound gs
    → length gs + i ≡ bound
    → i ≤ j
    → j < bound
    → IsListed gs j
gpu_ids_found i bound [] j h l p q = absurd (omega arith)
gpu_ids_found i bound (g ∷ gs) j h l p q =
    let most = length-IsAscending (suc g.id) bound gs (omega (arith, h.1)) h.2 in
    let first : g.id ≡ i = omega (arith, h.0) in
    elim (Bool-cases (g.id == j)) [
      | inl e ↦ gpu_id_found g gs j ((==_iff g.id j).0 e)
      | inr e ↦
          IsListed-cons g gs j
            (gpu_ids_found (suc g.id) bound gs j h.2 (omega arith) (later g.id j i first p e) q)
    ]
  where
    later : (a b c : ℕ) → a ≡ c → c ≤ b → (a == b) ≡ false → suc a ≤ b
    later a b c e l h = ground arith

not_less : (m n : ℕ) → m ≤ n → ltb n m ≡ false
not_less m n h = ground arith

positive : (n : ℕ) → 0 < n → (n == 0) ≡ false
positive n h = ground arith

module _ (total_memory : ℕ → ℕ) (asked : ℕ) (gpus : List GpuTopologyInfo) where
  -- A number of GPUs that are listed is asked for.
  extract_some :
      0 < asked
      → asked ≤ length gpus
      → extract_gpu_ids total_memory asked gpus ≡ gpu_infos total_memory gpus 0 asked
  unfolding extract_gpu_ids
  extract_some p l = rw (not_less asked (length gpus) l, positive asked p) refl

  -- Of a discovery that left no GPU out, as one that lists as many as it counted, any number of GPUs from 1 on can be
  -- configured: those with the first ids, each once and with the memory of its own device. More than are listed
  -- makes the call throw.
  pub first_gpus :
      (count : ℕ)
      → IsAscending 0 count gpus
      → length gpus ≡ count
      → 0 < asked
      → (asked ≤ count
          → (infos : List GpuInfo) × (extract_gpu_ids total_memory asked gpus ≡ ok infos)
            × (length infos ≡ asked)
            × AreNumbered total_memory 0 infos)
        × (count < asked → extract_gpu_ids total_memory asked gpus ≡ err runtime_error)
  unfolding extract_gpu_ids
  first_gpus count h l p = (
    λ q.
        let (infos, e, n, a) = gpu_infos-AreNumbered total_memory gpus 0 asked (λ k r.
          gpu_ids_found 0 count gpus (0 + k) h (omega (arith, l)) (omega arith) (omega arith)) in
        (infos, extract_some p (omega (arith, l)) ∙ e, n, a),
    λ q. rw (more (length gpus) (omega (arith, l))) refl,
  )
    where
      more : (n : ℕ) → n < asked → ltb n asked ≡ true
      more n r = ground arith

  -- If the discovery has left out a GPU below the number that is asked for, the call throws, although it lists as
  -- many GPUs.
  pub first_gpus_missing :
      (k : ℕ)
      → asked ≤ length gpus
      → k < asked
      → find_gpu gpus k ≡ none
      → extract_gpu_ids total_memory asked gpus ≡ err runtime_error
  first_gpus_missing k l q h =
      extract_some (omega arith) l
      ∙ gpu_infos_missing total_memory gpus 0 asked k q
          (subst (λ x. find_gpu gpus x ≡ none) {x = k} {y = 0 + k} (omega arith) h)
