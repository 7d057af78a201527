-- ===== src/Manager.antt =====
-- include/memory/memory_reservation_manager.hpp and src/memory/memory_reservation_manager.cpp: the lookup
-- tables, the candidates of each strategy, the totals over the spaces, and the requests. A `memory_space*` is the
-- space that it points to; a request returns the candidates as it leaves them.
pub mod Lookup
pub mod Totals
pub mod Selecting
pub mod Stopping
mod Tests
use cu_cascade.Base.{
  ℕ, ◌+◌, ◌-◌, ◌%◌, ◌^◌, Bool, true, false, Option, none, some, List, [], ◌∷◌, ◌++◌, ltb,
  if◌then◌else◌, not,
}
use cu_cascade.Base.Words.{add64}
use cu_cascade.Base.Int.{ℤ, pos, negsuc, eqb_ℤ}
use cu_cascade.Batch.{Tier, MemorySpaceId, tier_eq, space_id_eq}
use cu_cascade.Space.{
  MemorySpace, Reservation, Wakes, Made, made, null, blocked, make_reservation_or_null,
  make_reservation, shutdown_space,
}
use cu_cascade.Space

-- An entry of a hash table is where its key is; `put` is `table[key] = value`.
pub record Manager : Type 0 where
  pub memory_spaces : List MemorySpace
  pub memory_space_views : List MemorySpace
  pub memory_space_lookup : List (MemorySpaceId × MemorySpace)
  pub tier_to_memory_spaces : List (Tier × List MemorySpace)

abbrev pub find_space : List (MemorySpaceId × MemorySpace) → MemorySpaceId → Option MemorySpace
unfolding space_id_eq tier_eq
find_space [] id = none
find_space ((k, s) ∷ t) id = if space_id_eq k id then some s else find_space t id

abbrev pub put_space :
    List (MemorySpaceId × MemorySpace) → MemorySpace → List (MemorySpaceId × MemorySpace)
put_space [] s = (s.id, s) ∷ []
put_space ((k, x) ∷ t) s = if space_id_eq k s.id then (k, s) ∷ t else (k, x) ∷ put_space t s

abbrev pub find_tier : List (Tier × List MemorySpace) → Tier → List MemorySpace
find_tier [] tier = []
find_tier ((k, ss) ∷ t) tier = if tier_eq k tier then ss else find_tier t tier

-- `table[tier].push_back(s)`
abbrev pub push_tier :
    List (Tier × List MemorySpace) → Tier → MemorySpace → List (Tier × List MemorySpace)
push_tier [] tier s = (tier, s ∷ []) ∷ []
push_tier ((k, ss) ∷ t) tier s =
    if tier_eq k tier then (k, ss ++ s ∷ []) ∷ t else (k, ss) ∷ push_tier t tier s

-- One round of the loop of `build_lookup_tables`.
abbrev pub index_space : Manager → MemorySpace → Manager
index_space m s = record m {
  memory_space_views = m.memory_space_views ++ s ∷ [];
  memory_space_lookup = put_space m.memory_space_lookup s;
  tier_to_memory_spaces = push_tier m.tier_to_memory_spaces s.id.tier s;
}

abbrev pub index_spaces : Manager → List MemorySpace → Manager
index_spaces m [] = m
index_spaces m (s ∷ ss) = index_spaces (index_space m s) ss

unfoldable pub build_lookup_tables : List MemorySpace → Manager
build_lookup_tables spaces =
    index_spaces
      (record {
        memory_spaces = spaces;
        memory_space_views = [];
        memory_space_lookup = [];
        tier_to_memory_spaces = [];
      })
      spaces

unfoldable pub get_memory_space : Manager → Tier → ℤ → Option MemorySpace
get_memory_space m tier device_id =
    find_space m.memory_space_lookup (record { tier = tier; device_id = device_id })

unfoldable pub get_memory_spaces_for_tier : Manager → Tier → List MemorySpace
get_memory_spaces_for_tier m tier = find_tier m.tier_to_memory_spaces tier

-- The strategies, and what their constructors take.
pub data RequestStrategy : Type 0 where
  any_memory_space_in_tier_with_preference : Tier → Option ℕ → RequestStrategy
  any_memory_space_in_tier : Tier → RequestStrategy
  any_memory_space_in_tiers : List Tier → RequestStrategy
  specific_memory_space : MemorySpaceId → RequestStrategy
  any_memory_space_to_downgrade any_memory_space_to_upgrade :
      MemorySpaceId → List Tier → RequestStrategy

unfoldable pub has_strong_ordering : RequestStrategy → Bool
has_strong_ordering (any_memory_space_in_tier_with_preference t d) = true
has_strong_ordering (any_memory_space_in_tier t) = false
has_strong_ordering (any_memory_space_in_tiers ts) = false
has_strong_ordering (specific_memory_space id) = true
has_strong_ordering (any_memory_space_to_downgrade id ts) = true
has_strong_ordering (any_memory_space_to_upgrade id ts) = true

-- `static_cast<int>` of a `size_t`.
unfoldable pub to_i32 : ℕ → ℤ
to_i32 n = let w = n % 2 ^ 32 in if ltb w (2 ^ 31) then pos w else negsuc (2 ^ 32 - w - 1)

abbrev pub filter : (MemorySpace → Bool) → List MemorySpace → List MemorySpace
filter p [] = []
filter p (s ∷ ss) = if p s then s ∷ filter p ss else filter p ss

-- `std::stable_partition`
abbrev pub stable_partition : (MemorySpace → Bool) → List MemorySpace → List MemorySpace
stable_partition p ss = filter p ss ++ filter (λ s. not (p s)) ss

abbrev pub on_device : ℕ → MemorySpace → Bool
on_device d s = eqb_ℤ s.id.device_id (to_i32 d)

abbrev pub in_tiers : Manager → List Tier → List MemorySpace
in_tiers m [] = []
in_tiers m (t ∷ ts) = get_memory_spaces_for_tier m t ++ in_tiers m ts

unfoldable pub get_candidates : Manager → RequestStrategy → List MemorySpace
unfolding get_memory_spaces_for_tier get_memory_space
get_candidates m (any_memory_space_in_tier_with_preference t none) = get_memory_spaces_for_tier m t
get_candidates m (any_memory_space_in_tier_with_preference t (some d)) =
    stable_partition (on_device d) (get_memory_spaces_for_tier m t)
get_candidates m (any_memory_space_in_tier t) = get_memory_spaces_for_tier m t
get_candidates m (any_memory_space_in_tiers ts) = in_tiers m ts
get_candidates m (specific_memory_space id) = elim (get_memory_space m id.tier id.device_id) [
  | none ↦ []
  | some s ↦ s ∷ []
]
get_candidates m (any_memory_space_to_downgrade id ts) = []
get_candidates m (any_memory_space_to_upgrade id ts) = []

-- The loop of the totals, in `size_t`.
abbrev pub add_all : (MemorySpace → ℕ) → ℕ → List MemorySpace → ℕ
add_all amount total [] = total
add_all amount total (s ∷ ss) = add_all amount (add64 total (amount s)) ss

unfoldable pub get_available_memory_for_tier : Manager → Tier → ℕ
get_available_memory_for_tier m tier =
    add_all Space.get_available_memory 0 (get_memory_spaces_for_tier m tier)

unfoldable pub get_total_reserved_memory_for_tier : Manager → Tier → ℕ
get_total_reserved_memory_for_tier m tier =
    add_all Space.get_total_reserved_memory 0 (get_memory_spaces_for_tier m tier)

unfoldable pub get_active_reservation_count_for_tier : Manager → Tier → ℕ
get_active_reservation_count_for_tier m tier =
    add_all Space.get_active_reservation_count 0 (get_memory_spaces_for_tier m tier)

unfoldable pub get_total_available_memory : Manager → ℕ
get_total_available_memory m = add_all Space.get_available_memory 0 m.memory_spaces

unfoldable pub get_total_reserved_memory : Manager → ℕ
get_total_reserved_memory m = add_all Space.get_total_reserved_memory 0 m.memory_spaces

unfoldable pub get_active_reservation_count : Manager → ℕ
get_active_reservation_count m = add_all Space.get_active_reservation_count 0 m.memory_spaces

-- The lambda of `select_memory_space_and_make_reservation`: the candidates as they are left, and the first
-- reservation. `std::nullopt` is `null`.
abbrev pub try_candidates :
    (MemorySpace → MemorySpace × Made) → List MemorySpace → List MemorySpace × Made
try_candidates f [] = ([], null)
try_candidates f (s ∷ ss) =
    let rest = try_candidates f ss in
    elim (f s).1 [
      | made r ↦ ((f s).0 ∷ ss, made r)
      | blocked ↦ ((f s).0 ∷ ss, blocked)
      | null ↦ ((f s).0 ∷ rest.0, rest.1)
    ]

-- What follows where there is no reservation.
abbrev pub or_else :
    List MemorySpace × Made → (List MemorySpace → List MemorySpace × Made) → List MemorySpace × Made
or_else (candidates, made r) later = (candidates, made r)
or_else (candidates, blocked) later = (candidates, blocked)
or_else (candidates, null) later = later candidates

-- With the wake-ups of each wait of `make_reservation`.
module _ (align_up : ℕ → ℕ → ℕ) (waits : List Wakes) where
  unfoldable pub select_memory_space_and_make_reservation :
      Bool → List MemorySpace → ℕ → List MemorySpace × Made
  unfolding make_reservation make_reservation_or_null
  select_memory_space_and_make_reservation true candidates size =
      try_candidates (λ s. make_reservation align_up waits s size) candidates
  select_memory_space_and_make_reservation false candidates size =
      or_else (try_candidates (λ s. make_reservation_or_null align_up s size) candidates)
        (try_candidates (λ s. make_reservation align_up waits s size))

  -- The loop that waits on `_wait_cv`, with what other threads change up to each of its wake-ups.
  unfoldable pub request_loop :
      Bool
      → ℕ
      → List (List MemorySpace → List MemorySpace)
      → List MemorySpace
      → List MemorySpace × Made
  unfolding select_memory_space_and_make_reservation
  request_loop strong size [] candidates =
      or_else (select_memory_space_and_make_reservation strong candidates size)
        (λ cs. (cs, blocked))
  request_loop strong size (wake ∷ wakes) candidates =
      or_else (select_memory_space_and_make_reservation strong candidates size)
        (λ cs. request_loop strong size wakes (wake cs))

  unfoldable pub request_reservation :
      Manager
      → RequestStrategy
      → ℕ
      → List (List MemorySpace → List MemorySpace)
      → List MemorySpace × Made
  unfolding get_candidates has_strong_ordering request_loop
  request_reservation m request size wakes =
      let strong = has_strong_ordering request in
      or_else (select_memory_space_and_make_reservation strong (get_candidates m request) size)
        (request_loop strong size wakes)

-- The loop over the spaces; the tables point to the same ones.
abbrev pub shutdown_lookup : List (MemorySpaceId × MemorySpace) → List (MemorySpaceId × MemorySpace)
unfolding shutdown_space
shutdown_lookup [] = []
shutdown_lookup ((k, s) ∷ t) = (k, shutdown_space s) ∷ shutdown_lookup t

abbrev pub shutdown_spaces : List MemorySpace → List MemorySpace
unfolding shutdown_space
shutdown_spaces [] = []
shutdown_spaces (s ∷ ss) = shutdown_space s ∷ shutdown_spaces ss

abbrev pub shutdown_tiers : List (Tier × List MemorySpace) → List (Tier × List MemorySpace)
unfolding shutdown_spaces
shutdown_tiers [] = []
shutdown_tiers ((k, ss) ∷ t) = (k, shutdown_spaces ss) ∷ shutdown_tiers t

-- Also what the destructor does.
unfoldable pub shutdown : Manager → Manager
unfolding shutdown_lookup shutdown_spaces shutdown_tiers
shutdown m = record {
  memory_spaces = shutdown_spaces m.memory_spaces;
  memory_space_views = shutdown_spaces m.memory_space_views;
  memory_space_lookup = shutdown_lookup m.memory_space_lookup;
  tier_to_memory_spaces = shutdown_tiers m.tier_to_memory_spaces;
}
