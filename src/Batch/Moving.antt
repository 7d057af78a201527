-- ===== src/Batch/Moving.antt =====
-- The move constructor and the move assignment of `data_batch`, and the replacement of its data.
use cu_cascade.Base.{
  ℕ, ◌≢◌, ◌<◌, ◌≡◌, none, some, Result, ok, err, Error, runtime_error, null_dereference, arith,
}
use cu_cascade.Batch.{
  MemorySpaceId, DataRepresentation, DataBatch, data_batch, move_construct, move_assign, set_data,
  convert_to,
}

-- A batch with valid handles cannot be moved. The assignment then changes no batch, but the constructor that
-- throws has already taken the data out of the source, and it is lost.
pub move_of_processing :
    (store : ℕ → DataBatch) (this other : ℕ)
    → this ≢ other
    → 0 < (store other).processing_count
    → (move_assign store this other ≡ (store, err runtime_error))
      × (move_construct (store other) ≡ (record (store other) { rep = none }, err runtime_error))
unfolding move_construct move_assign
move_of_processing store this other n h = (ground arith, ground arith)

-- A batch with no valid handle gives up its data and its id: the constructor makes a new idle batch of
-- them, with no task, the assignment puts them into a batch whose state and counts stay. The source
-- keeps its state and its pending tasks, with no data and id 0. No other batch changes.
pub move_of_released :
    (store : ℕ → DataBatch) (this other : ℕ)
    → this ≢ other
    → (store other).processing_count ≡ 0
    → let o = store other in
      let emptied = record o { batch_id = 0; rep = none } in
      let after = (move_assign store this other).0 in
      (move_construct o ≡ (emptied, ok (data_batch o.batch_id o.rep)))
      × ((move_assign store this other).1 ≡ ok tt)
      × (after this ≡ record (store this) { batch_id = o.batch_id; rep = o.rep })
      × (after other ≡ emptied)
      × ((k : ℕ) → k ≢ this → k ≢ other → after k ≡ store k)
unfolding move_construct move_assign
move_of_released store this other n h =
    (ground arith, ground arith, ground arith, ground arith, λ k a b. ground arith)

-- The data of a batch changes only while there is no handle: `set_data` and `convert_to` throw while
-- one is valid, else install the new data and leave the rest alone. A conversion that throws, or a
-- batch with no data, leaves the batch as it is, by an error.
pub data_is_pinned :
    (b : DataBatch) (new : DataRepresentation)
    (convert : DataRepresentation → MemorySpaceId → Result DataRepresentation) (m : MemorySpaceId)
    → (0 < b.processing_count
        → (set_data b (some new) ≡ err runtime_error)
          × (convert_to b convert m ≡ err runtime_error))
      × (b.processing_count ≡ 0
          → (set_data b (some new) ≡ ok (record b { rep = some new }))
            × (b.rep ≡ none → convert_to b convert m ≡ err null_dereference)
            × ((d : DataRepresentation)
                → b.rep ≡ some d
                → (convert d m ≡ ok new → convert_to b convert m ≡ ok (record b { rep = some new }))
                  × ((e : Error) → convert d m ≡ err e → convert_to b convert m ≡ err e)))
unfolding set_data convert_to
data_is_pinned b new convert m = (
  λ h. (ground arith, ground arith),
  λ h. (ground arith, λ e. ground arith, λ d e. (λ q. ground arith, λ x q. ground arith)),
)
