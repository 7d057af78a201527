-- ===== src/Batch/Transitions.antt =====
-- The state machine of docs/data_batch_state_transitions.md, and who is told of a change.
use mathlib.Core.Path.{subst}
use cu_cascade.Base.{
  ◌<◌, sym, ◌∙◌, Bool-cases, ◌==◌, ℕ, ◌≡◌, refl, ◌⊎◌, inl, inr, ◌≢◌, Option, Bool, false, ok, arith,
  ltb, if◌then◌else◌,
}
use cu_cascade.Batch.{
  MemorySpaceId, BatchState, unchanged, idle, task_created, processing, in_transit, DataBatch,
  Outcome, try_to_create_task, try_to_cancel_task, try_to_lock_for_processing,
  try_to_lock_for_in_transit, try_to_release_in_transit, decrement_processing_count,
  set_state_change_cv, set_data, release_target,
}
use cu_cascade.Batch.Calls.{Call, Client, step, after}
use cu_cascade.Batch.Invariant.{Inv}

-- The edges, each with the method that takes it and the condition on which it does. All but `resume` are
-- in the document, which has the last handle return a batch to `idle`: with tasks pending the code returns
-- it to `task_created`.
pub data Edge (c : Client) : Call → BatchState → Type 0 where
  begin : c.batch.state ≡ idle → Edge c Call.create task_created
  move :
      (c.batch.state ≡ idle) ⊎ (c.batch.state ≡ task_created) → Edge c Call.lock_transit in_transit
  start : (m : MemorySpaceId) → c.batch.state ≡ task_created → Edge c (Call.lock m) processing
  withdraw : c.batch.state ≡ task_created → c.batch.task_created_count ≡ 1 → Edge c Call.cancel idle
  finish :
      c.batch.state ≡ processing
      → c.handles ≡ 1
      → c.batch.task_created_count ≡ 0
      → Edge c Call.release_handle idle
  resume :
      c.batch.state ≡ processing
      → c.handles ≡ 1
      → 0 < c.batch.task_created_count
      → Edge c Call.release_handle task_created
  settle :
      (target : Option BatchState)
      → c.batch.state ≡ in_transit
      → Edge c (Call.release_transit target) (release_target target)

module _ (n : ℕ) (c : Client) (v : Inv n c) where
  -- The state afterwards is the one before, or an edge of this call leads to it.
  abbrev Follows : Call → Type 0
  Follows k =
      ((after c (step c k)).batch.state ≡ c.batch.state) ⊎ Edge c k (after c (step c k)).batch.state

  takes :
      (k : Call) (t : BatchState) → (after c (step c k)).batch.state ≡ t → Edge c k t → Follows k
  takes k t e x = inr (subst (Edge c k) (sym e) x)

  create-Follows : (s : BatchState) → c.batch.state ≡ s → Follows Call.create
  unfolding step try_to_create_task
  create-Follows idle e = takes Call.create task_created (ground arith) (begin e)
  create-Follows task_created e = inl (ground arith)
  create-Follows processing e = inl (ground arith)
  create-Follows in_transit e = inl (ground arith)

  cancel-Follows : (s : BatchState) → c.batch.state ≡ s → Follows Call.cancel
  unfolding step try_to_cancel_task
  cancel-Follows idle e = inl (ground arith)
  cancel-Follows in_transit e = inl (ground arith)
  cancel-Follows processing e = inl (ground (arith, v.busy e))
  cancel-Follows task_created e = elim (Bool-cases (c.batch.task_created_count == 1)) [
    | inl h ↦
        takes Call.cancel idle (ground (arith, v.locked, v.pending)) (withdraw e (ground arith))
    | inr h ↦ inl (ground (arith, v.locked, v.pending))
  ]

  lock_transit-Follows : (s : BatchState) → c.batch.state ≡ s → Follows Call.lock_transit
  unfolding step try_to_lock_for_in_transit
  lock_transit-Follows idle e =
      takes Call.lock_transit in_transit (ground (arith, v.locked)) (move (inl e))
  lock_transit-Follows task_created e =
      takes Call.lock_transit in_transit (ground (arith, v.locked, v.pending)) (move (inr e))
  lock_transit-Follows processing e = inl (ground arith)
  lock_transit-Follows in_transit e = inl (ground arith)

  release_handle-Follows : (s : BatchState) → c.batch.state ≡ s → Follows Call.release_handle
  unfolding step decrement_processing_count
  release_handle-Follows idle e = inl (ground arith)
  release_handle-Follows task_created e = inl (ground arith)
  release_handle-Follows in_transit e = inl (ground arith)
  release_handle-Follows processing e = elim (Bool-cases (c.handles == 1)) [
    | inr h ↦ inl (ground (arith, v.counted, v.busy e))
    | inl h ↦ elim (Bool-cases (c.batch.task_created_count == 0)) [
      | inl z ↦
          takes Call.release_handle idle (ground (arith, v.counted))
            (finish e (ground arith) (ground arith))
      | inr z ↦
          takes Call.release_handle task_created (ground (arith, v.counted))
            (resume e (ground arith) (ground arith))
    ]
  ]

  lock-Follows :
      (m : MemorySpaceId) (s : BatchState)
      → c.batch.state ≡ s
      → ((after c (step c (Call.lock m))).batch.state ≡ c.batch.state)
        ⊎ ((after c (step c (Call.lock m))).batch.state ≡ processing)
      → Follows (Call.lock m)
  unfolding step try_to_lock_for_processing
  lock-Follows m s e (inl same) = inl same
  lock-Follows m task_created e (inr t) = takes (Call.lock m) processing t (start m e)
  lock-Follows m processing e (inr t) = inl (t ∙ sym e)
  lock-Follows m idle e (inr t) = inl (ground arith)
  lock-Follows m in_transit e (inr t) = inl (ground arith)

  lock_or_not :
      (m : MemorySpaceId)
      → ((after c (step c (Call.lock m))).batch.state ≡ c.batch.state)
        ⊎ ((after c (step c (Call.lock m))).batch.state ≡ processing)
  unfolding step try_to_lock_for_processing
  lock_or_not m = elim (Bool-cases (try_to_lock_for_processing c.batch m).value.0) [
    | inl h ↦ inr (ground arith)
    | inr h ↦ inl (ground arith)
  ]

  release_transit-Follows :
      (target : Option BatchState) (s : BatchState)
      → c.batch.state ≡ s
      → Follows (Call.release_transit target)
  unfolding step try_to_release_in_transit
  release_transit-Follows target idle e = inl (ground arith)
  release_transit-Follows target task_created e = inl (ground arith)
  release_transit-Follows target processing e = inl (ground arith)
  release_transit-Follows target in_transit e =
      takes (Call.release_transit target) (release_target target) (ground arith) (settle target e)

  -- Every call of a well-formed client keeps the state, or takes one of the edges of its own method: which state
  -- is entered is decided by the method, the state before, the handles and the pending tasks. In particular the
  -- last handle returns the batch to `idle` only with no task pending, else to `task_created`. A client is
  -- well-formed if its handles are the processing count, the state is `processing` exactly while there are
  -- some, and `task_created` only with a task pending.
  pub step_follows_diagram :
      (k : Call)
      → ((after c (step c k)).batch.state ≡ c.batch.state)
        ⊎ Edge c k (after c (step c k)).batch.state
  unfolding step set_state_change_cv set_data
  step_follows_diagram Call.create = create-Follows c.batch.state refl
  step_follows_diagram Call.cancel = cancel-Follows c.batch.state refl
  step_follows_diagram Call.lock_transit = lock_transit-Follows c.batch.state refl
  step_follows_diagram Call.release_handle = release_handle-Follows c.batch.state refl
  step_follows_diagram (Call.lock m) = lock-Follows m c.batch.state refl (lock_or_not m)
  step_follows_diagram (Call.release_transit target) =
      release_transit-Follows target c.batch.state refl
  step_follows_diagram (Call.set_cv cv) = inl refl
  step_follows_diagram (Call.replace rep) = inl (ground arith)

-- The last handle returns the batch to `task_created` if tasks are pending, and to `idle` if not; the
-- state changes, so the condition variable is notified. The pending tasks are kept.
pub decrement_last :
    (b : DataBatch)
    → b.state ≡ processing
    → b.processing_count ≡ 1
    → (o : Outcome (Unit {0})) × (decrement_processing_count b ≡ ok o)
      × (o.batch.state ≡ (if ltb 0 b.task_created_count then task_created else idle))
      × (o.batch.task_created_count ≡ b.task_created_count)
      × (o.notified ≡ b.state_change_cv)
unfolding decrement_processing_count
decrement_last b e h =
    let s : BatchState = if ltb 0 b.task_created_count then task_created else idle in
    (
      record {
        batch = record b { processing_count = 0; state = s };
        value = tt;
        notified = b.state_change_cv;
      },
      ground arith,
      refl,
      refl,
      refl,
    )

-- The condition variable of the batch, if one is set, is notified when the state changes.
abbrev pub Tells : {A : Type 0} → DataBatch → Outcome A → Type 0
Tells b o = o.batch.state ≢ b.state → o.notified ≡ b.state_change_cv

-- Each of the six methods that can change the state notifies the batch's condition variable, if one is
-- set, whenever it has changed the state.
pub changes_are_notified :
    (b : DataBatch)
    → Tells b (try_to_create_task b)
      × ((o : Outcome Bool) → try_to_cancel_task b ≡ ok o → Tells b o)
      × ((m : MemorySpaceId) → Tells b (try_to_lock_for_processing b m))
      × Tells b (try_to_lock_for_in_transit b)
      × ((t : Option BatchState) → Tells b (try_to_release_in_transit b t))
      × ((o : Outcome (Unit {0})) → decrement_processing_count b ≡ ok o → Tells b o)
unfolding try_to_create_task try_to_cancel_task try_to_lock_for_processing
    try_to_lock_for_in_transit try_to_release_in_transit decrement_processing_count
changes_are_notified b = (
  λ e. ground arith,
  λ o h e. ground arith,
  λ m e. ground arith,
  λ e. ground arith,
  λ t e. ground arith,
  λ o h e. ground arith,
)

-- A method that is refused, by `false`, leaves the batch as it was and notifies nobody.
pub refusals_change_nothing :
    (b : DataBatch)
    → ((try_to_create_task b).value ≡ false → try_to_create_task b ≡ unchanged b false)
      × ((o : Outcome Bool) → try_to_cancel_task b ≡ ok o → o.value ≡ false → o ≡ unchanged b false)
      × ((try_to_lock_for_in_transit b).value ≡ false
          → try_to_lock_for_in_transit b ≡ unchanged b false)
      × ((t : Option BatchState)
          → (try_to_release_in_transit b t).value ≡ false
          → try_to_release_in_transit b t ≡ unchanged b false)
unfolding try_to_create_task try_to_cancel_task try_to_lock_for_in_transit try_to_release_in_transit
refusals_change_nothing b =
    (λ e. ground arith, λ o h e. ground arith, λ e. ground arith, λ t e. ground arith)
