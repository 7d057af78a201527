-- ===== src/Repository/Tests.antt =====
-- Runs of a repository, and the theorems at inputs that meet their hypotheses.
use cu_cascade.Base.{
  ℕ, ◌+◌, ◌==◌, if◌then◌else◌, update, ◌≡◌, refl, ◌≢◌, ◌↔◌, none, some, [], ◌∷◌, All, ok, arith,
  ℕ_discrete,
}
use cu_cascade.Base.Words.{add64}
use cu_cascade.Batch.{BatchState, idle, task_created, in_transit, DataBatch, try_to_create_task}
use cu_cascade.Repository.{
  Pointer, System, partition, popped, blocked, rounds, pop_round, try_transition_batch_for_pop,
  pop_data_batch, pop_data_batch_by_id, get_batch_ids,
}
use cu_cascade.Repository.Scanning.{Refuses}
use cu_cascade.Repository.Popping.{Took, pop_takes_oldest, pop_blocks_iff}
use cu_cascade.Repository.Contents.{PoppedId, pop_id-erase}

-- Batch 1 is in transit, the others are idle; two partitions, the second one empty.
abbrev at_state : ℕ → BatchState → DataBatch
at_state id s = record {
  batch_id = id;
  rep = none;
  processing_count = 0;
  task_created_count = 0;
  state = s;
  state_change_cv = none;
}

abbrev batches : ℕ → DataBatch
batches i = at_state (10 + i) (if i == 1 then in_transit else idle)

abbrev sample : System
sample = record {
  store = batches;
  repo = record { data_batches = (some 1 ∷ some 2 ∷ some 3 ∷ []) ∷ [] ∷ []; cv = 9 };
}

abbrev only_moving : System
only_moving = record sample { repo = record { data_batches = (some 1 ∷ []) ∷ []; cv = 9 } }

-- Batch 2 has a task, and left the partition.
abbrev sample_after : System
sample_after = record {
  store =
      update (update batches 1 (batches 1)) 2
        (record (at_state 12 task_created) { task_created_count = 1 });
  repo = record { data_batches = (some 1 ∷ some 3 ∷ []) ∷ [] ∷ []; cv = 9 };
}

pop_task : pop_data_batch [] sample task_created 0 ≡ ok (popped sample_after (some 2))
unfolding pop_data_batch rounds pop_round try_transition_batch_for_pop try_to_create_task add64
    ℕ_discrete
pop_task = refl

pop_takes_oldest_example : Took task_created 0 [] sample sample_after (some 2)
pop_takes_oldest_example = pop_takes_oldest [] sample sample_after task_created 0 2 pop_task

pop_blocks_iff_example :
    (pop_data_batch [] only_moving task_created 0 ≡ ok (blocked only_moving))
    ↔ ((partition only_moving 0 ≢ []) × All (Refuses batches task_created) (some 1 ∷ []))
pop_blocks_iff_example = pop_blocks_iff only_moving task_created 0 (omega arith)

ids : get_batch_ids sample 0 ≡ ok (11 ∷ 12 ∷ 13 ∷ [])
unfolding get_batch_ids
ids = refl

pop_id-erase_example :
    (t : System) × (p : Pointer) × (pop_data_batch_by_id [] sample 12 none 0 ≡ ok (popped t p))
    × PoppedId sample 12 0 (11 ∷ 12 ∷ 13 ∷ []) t p
pop_id-erase_example = pop_id-erase [] sample 12 0 (11 ∷ 12 ∷ 13 ∷ []) ids
