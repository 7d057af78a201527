-- ===== src/Batch/Invariant.antt =====
-- What holds of a batch and of its client between two calls.
use cu_cascade.Base.{ℕ, suc, ◌+◌, ◌≤◌, ◌<◌, ◌≡◌, List, [], ◌∷◌, ok, arith, length}
use cu_cascade.Base.Words.{word_size, add64}
use cu_cascade.Batch.{
  DataRepresentation, data_batch, processing, task_created, in_transit, try_to_create_task,
  try_to_cancel_task, try_to_lock_for_processing, try_to_lock_for_in_transit,
  try_to_release_in_transit, decrement_processing_count, set_state_change_cv, set_data,
}
use cu_cascade.Batch.Calls.{Call, Client, step, after, run, IsProper, IsProperRun}
use native.Mathlib.Nat.{add-zero, add-suc, suc-add}
use cu_cascade.Base.{Option, ◌↔◌, Bool-cases, inl, inr, ◌==◌}

-- `n` bounds the tasks and handles that there are, so that no counter wraps.
pub record Inv (n : ℕ) (c : Client) : Type 0 where
  pub counted : c.batch.processing_count ≡ c.handles
  pub busy : c.batch.state ≡ processing → 0 < c.batch.processing_count
  pub locked : 0 < c.batch.processing_count → c.batch.state ≡ processing
  pub pending : c.batch.state ≡ task_created → 0 < c.batch.task_created_count
  pub bounded : c.batch.processing_count + c.batch.task_created_count ≤ n

pub init-Inv :
    (id : ℕ) (rep : Option DataRepresentation)
    → Inv 0 (record { batch = data_batch id rep; handles = 0 })
unfolding data_batch
init-Inv id rep = ground arith

-- Every proper call, that throws or not, keeps the processing count equal to the number of handles, the
-- state `processing` exactly while there are handles, and `task_created` only with a task pending.
pub step-Inv :
    (n : ℕ) (c : Client) (k : Call)
    → suc n < word_size
    → IsProper c k
    → Inv n c
    → Inv (suc n) (after c (step c k))
unfolding step try_to_create_task try_to_cancel_task try_to_lock_for_processing
    try_to_lock_for_in_transit try_to_release_in_transit decrement_processing_count
    set_state_change_cv set_data add64
step-Inv n c Call.create w p v = ground arith
step-Inv n c Call.cancel w p v = ground arith
step-Inv n c Call.lock_transit w p v = ground arith
step-Inv n c Call.release_handle w p v = ground arith
step-Inv n c (Call.lock space) w p v = ground arith
step-Inv n c (Call.release_transit target) w p v = ground arith
step-Inv n c (Call.set_cv cv) w p v = ground arith
step-Inv n c (Call.replace rep) w p v = ground arith

-- A valid handle can always be released.
release_total :
    (n : ℕ) (c : Client) → Inv n c → (c' : Client) × (step c Call.release_handle ≡ ok c')
unfolding step decrement_processing_count
release_total n c v = elim (Bool-cases (c.handles == 0)) [
  | inl e ↦ (c, ground arith)
  | inr e ↦ (after c (step c Call.release_handle), ground arith)
]

-- The same after any number of calls that cannot wrap a 64-bit counter.
pub run-Inv :
    (n : ℕ) (c : Client) (ks : List Call)
    → n + length ks < word_size
    → IsProperRun c ks
    → Inv n c
    → Inv (n + length ks) (run c ks)
unfolding run
run-Inv n c [] w p v = rw add-zero v
run-Inv n c (k ∷ ks) w p v =
    let ih =
      run-Inv (suc n) (after c (step c k)) ks (omega arith) p.1
        (step-Inv n c k (omega arith) p.0 v) in
    rw (add-suc, ← suc-add) ih

-- After any proper history of fewer than 2^64 calls on a new batch: the processing count is the number
-- of valid handles, the state is `processing` exactly while there is one, a batch that is in transit
-- has none, and to release a handle does not throw.
pub handles_of_run :
    (id : ℕ) (rep : Option DataRepresentation) (ks : List Call)
    → length ks < word_size
    → IsProperRun (record { batch = data_batch id rep; handles = 0 }) ks
    → let c = run (record { batch = data_batch id rep; handles = 0 }) ks in
      (c.batch.processing_count ≡ c.handles)
      × ((c.batch.state ≡ processing) ↔ (0 < c.handles))
      × (c.batch.state ≡ in_transit → c.handles ≡ 0)
      × ((c' : Client) × (step c Call.release_handle ≡ ok c'))
handles_of_run id rep ks w p =
    let c = run (record { batch = data_batch id rep; handles = 0 }) ks in
    let v =
      run-Inv 0 (record { batch = data_batch id rep; handles = 0 }) ks (omega arith) p
        (init-Inv id rep) in
    (
      v.counted,
      (λ e. omega (arith, v.busy e, v.counted), λ h. v.locked (omega (arith, v.counted))),
      λ e. ground (arith, v.locked, v.counted),
      release_total _ c v,
    )
