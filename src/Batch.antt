-- ===== src/Batch.antt =====
-- include/data/data_batch.hpp and src/data/data_batch.cpp. A method of the source runs under the
-- batch's mutex as one step: it takes the batch and returns the new batch, its value, and the
-- condition variable that it notifies after it releases the mutex. An exception is `err`; none of
-- the methods below changes the batch before it throws, but for the move constructor.
pub mod Calls
pub mod Handles
pub mod Invariant
pub mod Transitions
pub mod Locking
pub mod Moving
mod Tests
use cu_cascade.Base.{
  update, ℕ, ◌+◌, ◌-◌, Bool, true, false, ◌&&◌, ◌||◌, not, Option, none, some, ltb, ◌==◌,
  if◌then◌else◌, runtime_error, null_dereference, Result, ok, err, ◌>>=◌,
}
use cu_cascade.Base.Words.{add64}
use cu_cascade.Base.Int.{ℤ, eqb_ℤ}

pub data Tier : Type 0 where
  gpu host disk size : Tier

pub record MemorySpaceId : Type 0 where
  pub tier : Tier
  pub device_id : ℤ  -- int32_t

unfoldable pub tier_eq : Tier → Tier → Bool
tier_eq gpu gpu = true
tier_eq host host = true
tier_eq disk disk = true
tier_eq size size = true
tier_eq _ _ = false

unfoldable pub space_id_eq : MemorySpaceId → MemorySpaceId → Bool
unfolding tier_eq
space_id_eq a b = tier_eq a.tier b.tier && eqb_ℤ a.device_id b.device_id

-- What a batch reads of its `idata_representation`: the memory space, and the type and the size that
-- tell one representation from another.
pub record DataRepresentation : Type 0 where
  pub memory_space : MemorySpaceId
  pub type_index : ℕ
  pub size_in_bytes : ℕ

pub data BatchState : Type 0 where
  idle task_created processing in_transit : BatchState

pub data LockStatus : Type 0 where
  success task_not_created invalid_state memory_space_mismatch missing_data : LockStatus

-- The pointers `_data` and `_state_change_cv` may be null.
pub record DataBatch : Type 0 where
  pub batch_id : ℕ
  pub rep : Option DataRepresentation
  pub processing_count : ℕ
  pub task_created_count : ℕ
  pub state : BatchState
  pub state_change_cv : Option ℕ

pub record Outcome (A : Type 0) : Type 0 where
  pub batch : DataBatch
  pub value : A
  pub notified : Option ℕ

-- Leave the batch alone, and notify nobody.
abbrev pub unchanged : {A : Type 0} → DataBatch → A → Outcome A
unchanged b a = record { batch = b; value = a; notified = none }

-- Enter a state, with a notification.
abbrev pub entered : {A : Type 0} → DataBatch → BatchState → A → Outcome A
entered b s a = record { batch = record b { state = s }; value = a; notified = b.state_change_cv }

-- A new batch.
unfoldable pub data_batch : ℕ → Option DataRepresentation → DataBatch
data_batch id rep = record {
  batch_id = id;
  rep = rep;
  processing_count = 0;
  task_created_count = 0;
  state = idle;
  state_change_cv = none;
}

-- `_data->get_current_tier()`
unfoldable pub get_current_tier : DataBatch → Result Tier
get_current_tier b = elim b.rep [ none ↦ err null_dereference | some d ↦ ok d.memory_space.tier ]

unfoldable pub get_memory_space : DataBatch → Option MemorySpaceId
get_memory_space b = elim b.rep [ none ↦ none | some d ↦ some d.memory_space ]

unfoldable pub set_state_change_cv : DataBatch → Option ℕ → DataBatch
set_state_change_cv b cv = record b { state_change_cv = cv }

unfoldable pub set_data : DataBatch → Option DataRepresentation → Result DataBatch
set_data b rep = if b.processing_count == 0 then ok (record b { rep = rep }) else err runtime_error

-- `convert` is the registry's conversion to the target type, which may throw.
unfoldable pub convert_to :
    DataBatch
    → (DataRepresentation → MemorySpaceId → Result DataRepresentation)
    → MemorySpaceId
    → Result DataBatch
convert_to b convert target =
    if b.processing_count == 0
    then elim b.rep [
      | none ↦ err null_dereference
      | some d ↦ (convert d target >>= λ new. ok (record b { rep = some new }))
    ]
    else err runtime_error

-- `++_task_created_count`
abbrev count_task : DataBatch → DataBatch
count_task b = record b { task_created_count = add64 b.task_created_count 1 }

create_task_in : BatchState → DataBatch → Outcome Bool
create_task_in idle b = entered (count_task b) task_created true
create_task_in task_created b = unchanged (count_task b) true
create_task_in processing b = unchanged (count_task b) true
create_task_in in_transit b = unchanged b false

unfoldable pub try_to_create_task : DataBatch → Outcome Bool
unfolding create_task_in
try_to_create_task b = create_task_in b.state b

abbrev pub is_task_created : BatchState → Bool
is_task_created task_created = true
is_task_created _ = false

abbrev pub is_processing : BatchState → Bool
is_processing processing = true
is_processing _ = false

abbrev pub is_idle : BatchState → Bool
is_idle idle = true
is_idle _ = false

abbrev pub is_in_transit : BatchState → Bool
is_in_transit in_transit = true
is_in_transit _ = false

-- `--_task_created_count`, under the test that it is not 0.
abbrev uncount_task : DataBatch → DataBatch
uncount_task b = record b { task_created_count = b.task_created_count - 1 }

unfoldable pub try_to_cancel_task : DataBatch → Result (Outcome Bool)
try_to_cancel_task b =
    if is_task_created b.state || is_processing b.state
    then (if b.task_created_count == 0
        then err runtime_error
        else let c = uncount_task b in
          ok (
            if c.task_created_count == 0 && c.processing_count == 0
            then entered c idle true
            else unchanged c true))
    else ok (unchanged b false)

-- `true` stands for the processing handle of the result.
lock_for_processing : DataBatch → MemorySpaceId → DataRepresentation → Outcome (Bool × LockStatus)
lock_for_processing b requested d =
    if not (space_id_eq d.memory_space requested)
    then unchanged b (false, memory_space_mismatch)
    else if b.task_created_count == 0
    then unchanged b (false, task_not_created)
    else if not (is_task_created b.state || is_processing b.state)
    then unchanged b (false, invalid_state)
    else let c = uncount_task b in
      entered (record c { processing_count = add64 c.processing_count 1 }) processing
        (true, success)

unfoldable pub try_to_lock_for_processing : DataBatch → MemorySpaceId → Outcome (Bool × LockStatus)
unfolding lock_for_processing
try_to_lock_for_processing b requested = elim b.rep [
  | none ↦ unchanged b (false, missing_data)
  | some d ↦ lock_for_processing b requested d
]

unfoldable pub try_to_lock_for_in_transit : DataBatch → Outcome Bool
try_to_lock_for_in_transit b =
    if b.processing_count == 0
      && (is_idle b.state || (is_task_created b.state && ltb 0 b.task_created_count))
    then entered b in_transit true
    else unchanged b false

-- `*target_state`, or the default.
abbrev pub release_target : Option BatchState → BatchState
release_target none = idle
release_target (some s) = s

unfoldable pub try_to_release_in_transit : DataBatch → Option BatchState → Outcome Bool
try_to_release_in_transit b target =
    if is_in_transit b.state then entered b (release_target target) true else unchanged b false

unfoldable pub decrement_processing_count : DataBatch → Result (Outcome (Unit {0}))
decrement_processing_count b =
    if not (is_processing b.state)
    then err runtime_error
    else if b.processing_count == 0
    then err runtime_error
    else let c = record b { processing_count = b.processing_count - 1 } in
      ok (
        if c.processing_count == 0
        then entered c (if ltb 0 c.task_created_count then task_created else idle) tt
        else unchanged c tt)

-- `data_batch(data_batch&& other)`: the batch that `other` is left as, and the new batch. The member
-- initialisers take the data out of `other` before the body tests the processing count and throws.
unfoldable pub move_construct : DataBatch → DataBatch × Result DataBatch
move_construct other =
    let emptied = record other { rep = none } in
    if other.processing_count == 0
    then (record emptied { batch_id = 0 }, ok (data_batch other.batch_id other.rep))
    else (emptied, err runtime_error)

-- `operator=(data_batch&& other)`, at the batch `this` of a store.
unfoldable pub move_assign : (ℕ → DataBatch) → ℕ → ℕ → (ℕ → DataBatch) × Result (Unit {0})
move_assign store this other =
    if this == other
    then (store, ok tt)
    else if (store other).processing_count == 0
    then (
      update
          (update store this
            (record (store this) { batch_id = (store other).batch_id; rep = (store other).rep }))
          other (record (store other) { batch_id = 0; rep = none }),
      ok tt,
    )
    else (store, err runtime_error)
