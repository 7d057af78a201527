-- ===== src/Batch/Tests.antt =====
-- Runs of a batch at concrete inputs, and the theorems at inputs that meet their hypotheses.
use cu_cascade.Base.{
  ◌≡◌, refl, ◌⊎◌, ◌↔◌, Option, none, some, Bool, true, false, List, [], ◌∷◌, ok, arith,
}
use cu_cascade.Base.Words.{add64}
use cu_cascade.Base.Int.{pos}
use cu_cascade.Batch.{
  MemorySpaceId, gpu, host, DataRepresentation, BatchState, idle, task_created, processing,
  DataBatch, Outcome, data_batch, try_to_create_task, try_to_cancel_task,
  try_to_lock_for_processing, try_to_lock_for_in_transit, try_to_release_in_transit,
  decrement_processing_count, space_id_eq,
}
use cu_cascade.Batch.Calls.{Call, Client, step, after, run}
use cu_cascade.Batch.Invariant.{Inv}
use cu_cascade.Batch.Transitions.{Edge, step_follows_diagram, changes_are_notified, Tells}
use cu_cascade.Batch.Locking.{IsLockable, lock_iff, release_strands_tasks}

abbrev on_gpu : MemorySpaceId
on_gpu = record { tier = gpu; device_id = pos 0 }

abbrev on_host : MemorySpaceId
on_host = record { tier = host; device_id = pos 0 }

abbrev rep_0 : DataRepresentation
rep_0 = record { memory_space = on_gpu; type_index = 1; size_in_bytes = 1024 }

abbrev batch_7 : DataBatch
batch_7 = record {
  batch_id = 7;
  rep = some rep_0;
  processing_count = 0;
  task_created_count = 2;
  state = task_created;
  state_change_cv = some 5;
}

abbrev busy_batch : DataBatch
busy_batch = record batch_7 { processing_count = 1; task_created_count = 1; state = processing }

abbrev client_7 : Client
client_7 = record { batch = batch_7; handles = 0 }

abbrev new_client : Client
new_client = record { batch = data_batch 7 (some rep_0); handles = 0 }

abbrev history : List Call
history =
    Call.create
    ∷ Call.create
    ∷ Call.lock on_gpu
    ∷ Call.lock on_host
    ∷ Call.lock_transit
    ∷ Call.release_handle
    ∷ Call.lock_transit
    ∷ Call.release_transit (some task_created)
    ∷ []

history_state :
    let b = (run new_client history).batch in
    (b.state ≡ task_created) × (b.processing_count ≡ 0) × (b.task_created_count ≡ 1)
unfolding run step data_batch try_to_create_task try_to_lock_for_processing
    try_to_lock_for_in_transit try_to_release_in_transit decrement_processing_count add64
    space_id_eq
history_state = (refl, refl, refl)

client_7-Inv : Inv 2 client_7
client_7-Inv = ground arith

abbrev short_history : List Call
short_history = Call.create ∷ Call.lock on_gpu ∷ Call.set_cv (some 3) ∷ []

step_follows_diagram_example :
    ((after client_7 (step client_7 Call.cancel)).batch.state ≡ task_created)
    ⊎ Edge client_7 Call.cancel (after client_7 (step client_7 Call.cancel)).batch.state
step_follows_diagram_example = step_follows_diagram 2 client_7 client_7-Inv Call.cancel

changes_are_notified_example :
    Tells batch_7 (try_to_create_task batch_7)
    × ((o : Outcome Bool) → try_to_cancel_task batch_7 ≡ ok o → Tells batch_7 o)
    × ((m : MemorySpaceId) → Tells batch_7 (try_to_lock_for_processing batch_7 m))
    × Tells batch_7 (try_to_lock_for_in_transit batch_7)
    × ((t : Option BatchState) → Tells batch_7 (try_to_release_in_transit batch_7 t))
    × ((o : Outcome (Unit {0})) → decrement_processing_count batch_7 ≡ ok o → Tells batch_7 o)
changes_are_notified_example = changes_are_notified batch_7

lock_iff_example :
    ((try_to_lock_for_processing batch_7 on_gpu).value.0 ≡ true) ↔ IsLockable batch_7 on_gpu
lock_iff_example = lock_iff batch_7 on_gpu

-- A lock is tried, and the batch is released from transit once more.
abbrev waiting : List Call
waiting = Call.lock on_gpu ∷ Call.release_transit (some task_created) ∷ []

release_strands_tasks_example :
    let b = (run client_7 (Call.lock_transit ∷ Call.release_transit none ∷ waiting)).batch in
    (b.state ≡ idle)
    × (b.task_created_count ≡ 2)
    × ((try_to_lock_for_processing b on_gpu).value.0 ≡ false)
release_strands_tasks_example =
    release_strands_tasks client_7 waiting on_gpu refl refl (omega arith) (tt, (tt, tt))

-- A new task, or a lock for transit that is released to `task_created`, ends it.
locked_again :
    let c = run client_7 (
      Call.lock_transit
      ∷ Call.release_transit none
      ∷ Call.lock_transit
      ∷ Call.release_transit (some task_created)
      ∷ []) in
    (try_to_lock_for_processing c.batch on_gpu).value.0 ≡ true
unfolding run step try_to_lock_for_processing try_to_lock_for_in_transit try_to_release_in_transit
    space_id_eq
locked_again = refl
