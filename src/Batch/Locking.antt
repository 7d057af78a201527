-- ===== src/Batch/Locking.antt =====
-- `try_to_lock_for_processing`, and what becomes of pending tasks when a batch is moved in between.
use cu_cascade.Base.{
  ℕ, List, [], ◌∷◌, All, ◌+◌, ◌-◌, ◌<◌, ◌≡◌, refl, ◌⊎◌, ◌≢◌, ◌↔◌, Option, none, some, Bool, true,
  false, ok, arith, if◌then◌else◌,
}
use cu_cascade.Base.Words.{word_size, add64}
use cu_cascade.Batch.{
  MemorySpaceId, DataRepresentation, idle, task_created, processing, in_transit, DataBatch, Outcome,
  success, task_not_created, invalid_state, memory_space_mismatch, missing_data, space_id_eq,
  try_to_create_task, try_to_cancel_task, try_to_lock_for_processing, try_to_lock_for_in_transit,
  try_to_release_in_transit, unchanged, is_idle, decrement_processing_count, set_state_change_cv,
  set_data,
}
use cu_cascade.Batch.Calls.{Call, Client, step, after, run}

-- The batch can be processed in the space `m`.
pub record IsLockable (b : DataBatch) (m : MemorySpaceId) : Type 0 where
  pub rep : DataRepresentation
  pub present : b.rep ≡ some rep
  pub matches : space_id_eq rep.memory_space m ≡ true
  pub task : 0 < b.task_created_count
  pub open_state : (b.state ≡ task_created) ⊎ (b.state ≡ processing)

lockable :
    (b : DataBatch) (m : MemorySpaceId) (d : DataRepresentation)
    → b.rep ≡ some d
    → (try_to_lock_for_processing b m).value.0 ≡ true
    → IsLockable b m
unfolding try_to_lock_for_processing
lockable b m d e h = record {
  rep = d;
  present = e;
  matches = ground arith;
  task = ground arith;
  open_state = ground arith;
}

lock_needs_rep :
    (b : DataBatch) (m : MemorySpaceId)
    → b.rep ≡ none
    → (try_to_lock_for_processing b m).value ≡ (false, missing_data)
unfolding try_to_lock_for_processing
lock_needs_rep b m e = ground arith

lock_of_rep :
    (b : DataBatch) (m : MemorySpaceId) (o : Option DataRepresentation)
    → b.rep ≡ o
    → (try_to_lock_for_processing b m).value.0 ≡ true
    → IsLockable b m
lock_of_rep b m none e h = ground (arith, lock_needs_rep b m)
lock_of_rep b m (some d) e h = lockable b m d e h

lock_succeeds :
    (b : DataBatch) (m : MemorySpaceId)
    → IsLockable b m
    → try_to_lock_for_processing b m ≡ record {
      batch = record b {
        task_created_count = b.task_created_count - 1;
        processing_count = add64 b.processing_count 1;
        state = processing;
      };
      value = (true, success);
      notified = b.state_change_cv;
    }
unfolding try_to_lock_for_processing
lock_succeeds b m l = ground (arith, l.present, l.matches, l.task, l.open_state)

-- A lock is given exactly if there is data, in the requested space, a task is pending, and the state is
-- `task_created` or `processing`.
pub lock_iff :
    (b : DataBatch) (m : MemorySpaceId)
    → ((try_to_lock_for_processing b m).value.0 ≡ true) ↔ IsLockable b m
lock_iff b m = (lock_of_rep b m b.rep refl, λ l. rw (lock_succeeds b m l))

-- A refused lock changes nothing, notifies nobody, and its status names the first test that fails: no
-- data, then another space, then no pending task, then a state that is not open.
pub lock_refused :
    (b : DataBatch) (m : MemorySpaceId) (d : DataRepresentation)
    → (b.rep ≡ none → try_to_lock_for_processing b m ≡ unchanged b (false, missing_data))
      × (b.rep ≡ some d
          → space_id_eq d.memory_space m ≡ false
          → try_to_lock_for_processing b m ≡ unchanged b (false, memory_space_mismatch))
      × (b.rep ≡ some d
          → space_id_eq d.memory_space m ≡ true
          → b.task_created_count ≡ 0
          → try_to_lock_for_processing b m ≡ unchanged b (false, task_not_created))
      × (b.rep ≡ some d
          → space_id_eq d.memory_space m ≡ true
          → 0 < b.task_created_count
          → (b.state ≡ idle) ⊎ (b.state ≡ in_transit)
          → try_to_lock_for_processing b m ≡ unchanged b (false, invalid_state))
unfolding try_to_lock_for_processing
lock_refused b m d =
    (λ e. ground arith, λ e s. ground arith, λ e s t. ground arith, λ e s t st. ground arith)

-- A batch that is locked for transit and released to the state that it was taken from is the batch as
-- it was.
pub transit_roundtrip :
    (b : DataBatch)
    → (try_to_lock_for_in_transit b).value ≡ true
    → (try_to_release_in_transit (try_to_lock_for_in_transit b).batch (some b.state)).batch ≡ b
unfolding try_to_lock_for_in_transit try_to_release_in_transit
transit_roundtrip b h = ground arith

-- While a batch is in transit it gives out no lock, takes no task, cannot be locked for transit again,
-- and a cancelled task is not counted.
pub transit_excludes :
    (b : DataBatch) (m : MemorySpaceId)
    → (try_to_lock_for_in_transit b).value ≡ true
    → let t = (try_to_lock_for_in_transit b).batch in
      ((try_to_lock_for_processing t m).value.0 ≡ false)
      × (try_to_create_task t ≡ unchanged t false)
      × (try_to_lock_for_in_transit t ≡ unchanged t false)
      × (try_to_cancel_task t ≡ ok (unchanged t false))
unfolding try_to_lock_for_in_transit try_to_lock_for_processing try_to_create_task
    try_to_cancel_task
transit_excludes b m h = (ground arith, ground arith, ground arith, ground arith)

-- A task that is created and cancelled leaves the batch as it was, if it is in no transit, is idle only
-- with no task pending, and processing only with a handle.
pub create-cancel :
    (b : DataBatch)
    → b.state ≢ in_transit
    → (b.state ≡ idle → (b.task_created_count ≡ 0) × (b.processing_count ≡ 0))
    → (b.state ≡ task_created → 0 < b.task_created_count)
    → (b.state ≡ processing → 0 < b.processing_count)
    → b.task_created_count + 1 < word_size
    → (o : Outcome Bool) × (try_to_cancel_task (try_to_create_task b).batch ≡ ok o)
      × (o.batch ≡ b)
      × (o.value ≡ true)
unfolding try_to_create_task try_to_cancel_task add64
create-cancel b t i c p w = (
  record {
    batch = b;
    value = true;
    notified = if is_idle b.state then b.state_change_cv else none;
  },
  ground arith,
  refl,
  refl,
)

-- A call that neither creates a task nor takes the batch for transit.
abbrev pub IsWaiting : Call → Type 0
IsWaiting Call.create = ⊥
IsWaiting Call.lock_transit = ⊥
IsWaiting _ = Unit

-- The batch is idle with so many tasks counted.
abbrev IsIdleWith : ℕ → DataBatch → Type 0
IsIdleWith tasks b = (b.state ≡ idle) × (b.task_created_count ≡ tasks)

waits :
    (c : Client) (k : Call) (tasks : ℕ)
    → IsWaiting k
    → IsIdleWith tasks c.batch
    → IsIdleWith tasks (after c (step c k)).batch
unfolding step try_to_cancel_task try_to_lock_for_processing try_to_release_in_transit
    decrement_processing_count set_state_change_cv set_data
waits c Call.create tasks w h = absurd w
waits c Call.lock_transit tasks w h = absurd w
waits c Call.cancel tasks w h = ground (arith, h.0, h.1)
waits c Call.release_handle tasks w h = ground (arith, h.0, h.1)
waits c (Call.lock m) tasks w h = ground (arith, h.0, h.1)
waits c (Call.release_transit t) tasks w h = ground (arith, h.0, h.1)
waits c (Call.set_cv cv) tasks w h = ground (arith, h.0, h.1)
waits c (Call.replace rep) tasks w h = ground (arith, h.0, h.1)

wait_on :
    (c : Client) (ks : List Call) (tasks : ℕ)
    → All IsWaiting ks
    → IsIdleWith tasks c.batch
    → IsIdleWith tasks (run c ks).batch
unfolding run
wait_on c [] tasks w h = h
wait_on c (k ∷ ks) tasks w h = wait_on (after c (step c k)) ks tasks w.1 (waits c k tasks w.0 h)

idle_refuses :
    (b : DataBatch) (m : MemorySpaceId)
    → b.state ≡ idle
    → (try_to_lock_for_processing b m).value.0 ≡ false
unfolding try_to_lock_for_processing
idle_refuses b m e = ground arith

-- The default of `try_to_release_in_transit` strands the tasks of a batch that was taken from
-- `task_created` with no handle and a task pending: whatever calls its client makes then, the batch is idle with the tasks
-- still counted, and no lock is given for any of them, as long as no call creates a task or locks the batch
-- for transit.
pub release_strands_tasks :
    (c : Client) (ks : List Call) (m : MemorySpaceId)
    → c.batch.state ≡ task_created
    → c.batch.processing_count ≡ 0
    → 0 < c.batch.task_created_count
    → All IsWaiting ks
    → let b = (run c (Call.lock_transit ∷ Call.release_transit none ∷ ks)).batch in
      (b.state ≡ idle)
      × (b.task_created_count ≡ c.batch.task_created_count)
      × ((try_to_lock_for_processing b m).value.0 ≡ false)
unfolding run step try_to_lock_for_in_transit try_to_release_in_transit
release_strands_tasks c ks m e p t w =
    let strand = after c (step c Call.lock_transit) in
    let stranded = after strand (step strand (Call.release_transit none)) in
    let (h, k) = wait_on stranded ks c.batch.task_created_count w (ground arith, ground arith) in
    (h, k, idle_refuses _ m h)
