-- ===== src/Manager/Tests.antt =====
-- A manager of three spaces, and the theorems at it.
use cu_cascade.Base.{ℕ, ◌-◌, ◌%◌, ◌≡◌, refl, true, false, none, some, length, All, List, [], ◌∷◌}
use cu_cascade.Base.Int.{pos}
use cu_cascade.Base.Words.{word_size, sub64}
use cu_cascade.Batch.{host, tier_eq}
use cu_cascade.Channel.{notification_channel, get_notifier, release_notifier}
use cu_cascade.Space.{MemorySpace, host_resource, made, make_reservation_or_null}
use cu_cascade.Host.{reserve, do_reserve}
use cu_cascade.Atomics.{try_add}
use cu_cascade.Manager.Selecting.{request_first}
use cu_cascade.Manager.{
  build_lookup_tables, get_memory_spaces_for_tier, get_candidates, any_memory_space_in_tier,
  any_memory_space_in_tier_with_preference, shutdown, request_reservation,
  get_total_available_memory, get_available_memory_for_tier, get_total_reserved_memory,
  get_total_reserved_memory_for_tier, get_active_reservation_count,
  get_active_reservation_count_for_tier,
}
use cu_cascade.Manager.Stopping.{IsStopped, shutdown_reaches_candidates}
use cu_cascade.Manager.Totals.{tiers_sum, totals_by_tier}

abbrev space_on : ℕ → MemorySpace
space_on d = record {
  id = record { tier = host; device_id = pos d };
  memory_limit = 80;
  capacity = 100;
  start_downgrading_memory_threshold = 40;
  stop_downgrading_memory_threshold = 20;
  notification_channel = notification_channel;
  reservation_allocator = host_resource (record {
    memory_limit = 80;
    memory_capacity = 100;
    block_size = 4;
    pool_size = 2;
    allocated_blocks = [];
    free_blocks = [];
    allocated_bytes = 8;
    peak_allocated_bytes = 8;
    active_reservations = [];
    next_uuid = 0;
  });
}

abbrev three : List MemorySpace
three = space_on 0 ∷ space_on 1 ∷ space_on 2 ∷ []

totals_by_tier_example :
    let m = build_lookup_tables three in
    (get_total_available_memory m ≡ tiers_sum (get_available_memory_for_tier m) % word_size)
    × (get_total_reserved_memory m ≡ tiers_sum (get_total_reserved_memory_for_tier m) % word_size)
    × (get_active_reservation_count m
        ≡ tiers_sum (get_active_reservation_count_for_tier m) % word_size)
totals_by_tier_example = totals_by_tier three

-- The first space with the notifier of a refused request counted down.
abbrev waited : MemorySpace
waited = record (space_on 0) {
  notification_channel = record {
    has_been_notified = false;
    n_active_notifiers = word_size - 1;
    is_running = true;
  };
}

-- The first space of the tier cannot reserve 90 bytes: the request gets an object without an arena from it.
request_first_example :
    request_reservation
      (λ n b. n)
      []
      (build_lookup_tables three)
      (any_memory_space_in_tier host)
      90
      []
    ≡ (
      waited ∷ space_on 1 ∷ space_on 2 ∷ [],
      made (record { space = record { tier = host; device_id = pos 0 }; arena = none }),
    )
unfolding build_lookup_tables get_candidates get_memory_spaces_for_tier tier_eq
    make_reservation_or_null reserve do_reserve try_add notification_channel get_notifier
    release_notifier sub64
request_first_example =
    request_first (λ n b. n) [] (build_lookup_tables three) (any_memory_space_in_tier host) 90 []
      (space_on 0) (space_on 1 ∷ space_on 2 ∷ []) refl

shutdown_reaches_candidates_example :
    let m = build_lookup_tables three in
    let request = any_memory_space_in_tier_with_preference host (some 1) in
    (length (get_candidates (shutdown m) request) ≡ length (get_candidates m request))
    × All IsStopped (get_candidates (shutdown m) request)
shutdown_reaches_candidates_example =
    shutdown_reaches_candidates (build_lookup_tables three)
      (any_memory_space_in_tier_with_preference host (some 1))
