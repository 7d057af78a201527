-- ===== src/Batch/Handles/Tests.antt =====
-- A program with two handles to one batch, that are moved, assigned and destroyed.
use cu_cascade.Base.{
  ℕ, ◌<◌, ◌≡◌, refl, ◌↔◌, Option, none, some, List, [], ◌∷◌, arith, Result, ok, err, ℕ_discrete,
}
use cu_cascade.Base.Int.{pos}
use cu_cascade.Batch.{
  MemorySpaceId, gpu, DataRepresentation, processing, data_batch, try_to_create_task,
  try_to_lock_for_processing, decrement_processing_count, space_id_eq,
}
use cu_cascade.Batch.Calls
use cu_cascade.Base.Words.{add64}
use cu_cascade.Batch.Calls.{Call}
use cu_cascade.Batch.Handles.{Program, HandleCall, calls, moves, assigns, run}
use cu_cascade.Batch.Handles.Counting.{new_program, pointing, handles_are_counted}

abbrev on_gpu : MemorySpaceId
on_gpu = record { tier = gpu; device_id = pos 0 }

abbrev table : DataRepresentation
table = record { memory_space = on_gpu; type_index = 1; size_in_bytes = 1024 }

abbrev start : Program
start = new_program (λ i. i) (λ i. some table)

-- Three tasks and two locks of batch 4; the second handle is moved, and then assigned over the first.
abbrev history : List HandleCall
history =
    calls 4 Call.create
    ∷ calls 4 Call.create
    ∷ calls 4 Call.create
    ∷ calls 4 (Call.lock on_gpu)
    ∷ calls 4 (Call.lock on_gpu)
    ∷ moves 0
    ∷ assigns 2 0
    ∷ []

-- The handles, and the two counts of batch 4.
shown : Result Program → List (Option ℕ) × ℕ × ℕ
shown (err e) = ([], 0, 0)
shown (ok p) = (p.handles, (p.store 4).processing_count, (p.store 4).task_created_count)

outcome : shown (run start history) ≡ (none ∷ none ∷ some 4 ∷ [], 1, 1)
unfolding shown run data_batch Calls.step try_to_create_task try_to_lock_for_processing
    decrement_processing_count add64 ℕ_discrete space_id_eq
outcome = refl

handles_are_counted_example :
    (p : Program) × (run start history ≡ ok p)
    × ((i : ℕ)
        → ((p.store i).processing_count ≡ pointing i p.handles)
          × (((p.store i).state ≡ processing) ↔ (0 < pointing i p.handles)))
handles_are_counted_example =
    handles_are_counted (λ i. i) (λ i. some table) history (omega arith)
      (tt, λ p e. (tt, λ p e. (tt, λ p e. (tt, λ p e. (tt, λ p e. (tt, λ p e. (tt, λ p e. tt)))))))
