-- ===== src/Batch/Calls.antt =====
-- A client of one batch: the calls that it makes, one after the other, and the processing handles that
-- it holds. A handle is `data_batch_processing_handle`; as long as the handle is valid its destructor
-- or `release` decrements the processing count once.
use cu_cascade.Base.{
  ℕ, suc, ◌<◌, ◌-◌, Bool, true, false, Option, none, some, List, [], ◌∷◌, ◌==◌, if◌then◌else◌,
  Result, ok, err, ◌>>=◌,
}
use cu_cascade.Batch.{
  MemorySpaceId, DataRepresentation, BatchState, idle, task_created, processing, in_transit,
  DataBatch, try_to_create_task, try_to_cancel_task, try_to_lock_for_processing,
  try_to_lock_for_in_transit, try_to_release_in_transit, decrement_processing_count,
  set_state_change_cv, set_data,
}

pub data Call : Type 0 where
  create cancel lock_transit release_handle : Call
  lock : MemorySpaceId → Call
  release_transit : Option BatchState → Call
  set_cv : Option ℕ → Call
  replace : Option DataRepresentation → Call

-- A batch with the number of valid handles that point to it.
pub record Client : Type 0 where
  pub batch : DataBatch
  pub handles : ℕ

-- `release()` of a handle: an empty handle, `_batch == nullptr`, does nothing.
unfoldable pub release : Client → Result Client
release c =
    if c.handles == 0
    then ok c
    else (decrement_processing_count c.batch >>= λ o.
        ok (record { batch = o.batch; handles = c.handles - 1 }))

abbrev take_handle : Client → DataBatch → Bool → Client
take_handle c b true = record { batch = b; handles = suc c.handles }
take_handle c b false = record { batch = b; handles = c.handles }

unfoldable pub step : Client → Call → Result Client
unfolding release
step c create = ok (record c { batch = (try_to_create_task c.batch).batch })
step c cancel = try_to_cancel_task c.batch >>= λ o. ok (record c { batch = o.batch })
step c lock_transit = ok (record c { batch = (try_to_lock_for_in_transit c.batch).batch })
step c release_handle = release c
step c (lock space) =
    let o = try_to_lock_for_processing c.batch space in ok (take_handle c o.batch o.value.0)
step c (release_transit target) =
    ok (record c { batch = (try_to_release_in_transit c.batch target).batch })
step c (set_cv cv) = ok (record c { batch = set_state_change_cv c.batch cv })
step c (replace rep) = set_data c.batch rep >>= λ b. ok (record c { batch = b })

-- An exception leaves the client and the batch as they were.
abbrev pub after : Client → Result Client → Client
after c (ok c') = c'
after c (err e) = c

unfoldable pub run : Client → List Call → Client
run c [] = c
run c (k ∷ ks) = run (after c (step c k)) ks

-- What a call of `try_to_release_in_transit` may ask for: to enter `processing` with no handle, or
-- `task_created` with no task, is to leave the state machine.
abbrev pub IsProperTarget : DataBatch → Option BatchState → Type 0
IsProperTarget b none = Unit
IsProperTarget b (some idle) = Unit
IsProperTarget b (some in_transit) = Unit
IsProperTarget b (some task_created) = 0 < b.task_created_count
IsProperTarget b (some processing) = ⊥

abbrev pub IsProper : Client → Call → Type 0
IsProper c (release_transit target) = IsProperTarget c.batch target
IsProper c _ = Unit

abbrev pub IsProperRun : Client → List Call → Type 0
IsProperRun c [] = Unit
IsProperRun c (k ∷ ks) = IsProper c k × IsProperRun (after c (step c k)) ks
