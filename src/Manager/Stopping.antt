-- ===== src/Manager/Stopping.antt =====
-- The shutdown reaches every space that a request may use.
use cu_cascade.Base.{
  ℕ, suc, length, ◌==◌, ◌≡◌, refl, ap, ◌∙◌, Bool, Bool-cases, inl, inr, not, Option, none, some,
  List, [], ◌∷◌, ◌++◌, All, arith,
}
use cu_cascade.Batch.{Tier, MemorySpaceId, tier_eq, space_id_eq}
use cu_cascade.Channel.{shutdown, shutdown_channel}
use cu_cascade.Space.{MemorySpace, Wakes, wait_in, shutdown_space, option_map}
use cu_cascade.Manager.{
  Manager, RequestStrategy, get_candidates, get_memory_space, get_memory_spaces_for_tier,
  find_space, find_tier, filter, any_memory_space_in_tier_with_preference, any_memory_space_in_tier,
  any_memory_space_in_tiers, specific_memory_space, any_memory_space_to_downgrade,
  any_memory_space_to_upgrade, shutdown_lookup, shutdown_spaces, shutdown_tiers, in_tiers,
  on_device, to_i32, stable_partition,
}
use cu_cascade.Manager

find_space-shutdown :
    (t : List (MemorySpaceId × MemorySpace)) (id : MemorySpaceId)
    → find_space (shutdown_lookup t) id ≡ option_map shutdown_space (find_space t id)
unfolding shutdown_space space_id_eq tier_eq
find_space-shutdown [] id = refl
find_space-shutdown ((k, s) ∷ t) id = elim (Bool-cases (space_id_eq k id)) [
  | inl e ↦ rw e refl
  | inr e ↦ rw e (find_space-shutdown t id)
]

find_tier-shutdown :
    (t : List (Tier × List MemorySpace)) (tier : Tier)
    → find_tier (shutdown_tiers t) tier ≡ shutdown_spaces (find_tier t tier)
unfolding shutdown_space
find_tier-shutdown [] tier = refl
find_tier-shutdown ((k, ss) ∷ t) tier = elim (Bool-cases (tier_eq k tier)) [
  | inl e ↦ rw e refl
  | inr e ↦ rw e (find_tier-shutdown t tier)
]

append-shutdown :
    (ss ts : List MemorySpace)
    → shutdown_spaces ss ++ shutdown_spaces ts ≡ shutdown_spaces (ss ++ ts)
unfolding shutdown_space
append-shutdown [] ts = refl
append-shutdown (s ∷ ss) ts =
    ap (λ (x : List MemorySpace). shutdown_space s ∷ x) (append-shutdown ss ts)

filter-shutdown :
    (p : MemorySpace → Bool)
    → ((s : MemorySpace) → p (shutdown_space s) ≡ p s)
    → (ss : List MemorySpace) → filter p (shutdown_spaces ss) ≡ shutdown_spaces (filter p ss)
unfolding shutdown_space
filter-shutdown p h [] = refl
filter-shutdown p h (s ∷ ss) = elim (Bool-cases (p s)) [
  | inl e ↦
      rw (h s, e) (ap (λ (x : List MemorySpace). shutdown_space s ∷ x) (filter-shutdown p h ss))
  | inr e ↦ rw (h s, e) (filter-shutdown p h ss)
]

in_tiers-shutdown :
    (m : Manager) (ts : List Tier)
    → in_tiers (Manager.shutdown m) ts ≡ shutdown_spaces (in_tiers m ts)
unfolding Manager.shutdown get_memory_spaces_for_tier shutdown_space
in_tiers-shutdown m [] = refl
in_tiers-shutdown m (t ∷ ts) =
    rw (find_tier-shutdown m.tier_to_memory_spaces t, in_tiers-shutdown m ts)
      (append-shutdown (find_tier m.tier_to_memory_spaces t) (in_tiers m ts))

partition-shutdown :
    (d : ℕ) (ss : List MemorySpace)
    → stable_partition (on_device d) (shutdown_spaces ss)
      ≡ shutdown_spaces (stable_partition (on_device d) ss)
unfolding shutdown_space
partition-shutdown d ss =
    rw
      (
        filter-shutdown (on_device d) (λ s. refl) ss,
        filter-shutdown (λ s. not (on_device d s)) (λ s. refl) ss,
      )
      (append-shutdown (filter (on_device d) ss) (filter (λ s. not (on_device d s)) ss))

specific-shutdown :
    (m : Manager) (id : MemorySpaceId) (found : Option MemorySpace)
    → find_space m.memory_space_lookup id ≡ found
    → get_candidates (Manager.shutdown m) (specific_memory_space id)
      ≡ shutdown_spaces (get_candidates m (specific_memory_space id))
unfolding get_candidates Manager.shutdown get_memory_space shutdown_space
specific-shutdown m id none e =
    let f = find_space-shutdown m.memory_space_lookup id ∙ ap (option_map shutdown_space) e in
    rw (f, e, get_candidates) refl
specific-shutdown m id (some s) e =
    let f = find_space-shutdown m.memory_space_lookup id ∙ ap (option_map shutdown_space) e in
    rw (f, e, get_candidates) refl

-- The candidates of a request are the same spaces, shut down.
candidates-shutdown :
    (m : Manager) (request : RequestStrategy)
    → get_candidates (Manager.shutdown m) request ≡ shutdown_spaces (get_candidates m request)
unfolding get_candidates Manager.shutdown get_memory_spaces_for_tier shutdown_space
candidates-shutdown m (any_memory_space_in_tier_with_preference t none) =
    find_tier-shutdown m.tier_to_memory_spaces t
candidates-shutdown m (any_memory_space_in_tier_with_preference t (some d)) =
    rw (find_tier-shutdown m.tier_to_memory_spaces t)
      (partition-shutdown d (find_tier m.tier_to_memory_spaces t))
candidates-shutdown m (any_memory_space_in_tier t) = find_tier-shutdown m.tier_to_memory_spaces t
candidates-shutdown m (any_memory_space_in_tiers ts) = in_tiers-shutdown m ts
candidates-shutdown m (specific_memory_space id) =
    specific-shutdown m id (find_space m.memory_space_lookup id) refl
candidates-shutdown m (any_memory_space_to_downgrade id ts) = refl
candidates-shutdown m (any_memory_space_to_upgrade id ts) = refl

length-shutdown : (ss : List MemorySpace) → length (shutdown_spaces ss) ≡ length ss
unfolding shutdown_space
length-shutdown [] = refl
length-shutdown (s ∷ ss) = ap suc (length-shutdown ss)

-- A `wait` on the channel of the space returns at once.
abbrev pub IsStopped : MemorySpace → Type 0
IsStopped s = (ws : Wakes) → (wait_in ws s).1 ≡ some shutdown

stop-IsStopped : (s : MemorySpace) → IsStopped (shutdown_space s)
unfolding wait_in shutdown_space shutdown_channel
stop-IsStopped s [] = ground arith
stop-IsStopped s (w ∷ ws) = elim (Bool-cases s.notification_channel.has_been_notified) [
  | inl e ↦ rw (e, wait_in) refl
  | inr e ↦ elim (Bool-cases (s.notification_channel.n_active_notifiers == 0)) [
    | inl z ↦ rw (e, z, wait_in) refl
    | inr z ↦ rw (e, z, wait_in) refl
  ]
]

all-IsStopped : (ss : List MemorySpace) → All IsStopped (shutdown_spaces ss)
unfolding shutdown_space
all-IsStopped [] = tt
all-IsStopped (s ∷ ss) = (stop-IsStopped s, all-IsStopped ss)

-- After the shutdown of a manager, as many candidates as before are found by every strategy, and on each of them every `wait`
-- for memory that is called from then on returns `shutdown` at once, whatever was posted and counted.
pub shutdown_reaches_candidates :
    (m : Manager) (request : RequestStrategy)
    → (length (get_candidates (Manager.shutdown m) request) ≡ length (get_candidates m request))
      × All IsStopped (get_candidates (Manager.shutdown m) request)
shutdown_reaches_candidates m request =
    rw (candidates-shutdown m request)
      (length-shutdown (get_candidates m request), all-IsStopped (get_candidates m request))
