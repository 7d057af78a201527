-- ===== src/Repository.antt =====
-- include/data/data_repository.hpp and src/data/data_repository.cpp. Batches live in a store, since a
-- `shared_ptr` may stand in several repositories; a pointer is `none` when it is null. A method runs
-- under the repository's mutex. A wait on the condition variable releases it, so a blocking method
-- takes the changes that the other threads make up to each of its wake-ups, one function for each;
-- when they are used up and the method still waits, it is `blocked`. Each batch has a mutex of its own, so
-- that other threads can change it under this lock too: here the batches change between the rounds of a
-- method, and are as at its start while it goes through a partition.
pub mod Scanning
pub mod Popping
pub mod Contents
mod Tests
use cu_cascade.Base.{
  ℕ, suc, ◌+◌, ◌-◌, Bool, true, false, ◌&&◌, Option, none, some, List, [], ◌∷◌, ◌++◌, leb, ltb,
  ◌==◌, if◌then◌else◌, length, set, get_or, replicate, take, update, Error, runtime_error,
  out_of_range, null_dereference, Result, ok, err, ◌>>=◌,
}
use cu_cascade.Base.Words.{add64}
use cu_cascade.Batch.{
  BatchState, idle, task_created, processing, in_transit, DataBatch, set_state_change_cv,
  try_to_create_task, try_to_lock_for_in_transit,
}

abbrev pub Pointer : Type 0
Pointer = Option ℕ

abbrev pub Store : Type 0
Store = ℕ → DataBatch

-- `cv` names the repository's condition variable.
pub record Repository : Type 0 where
  pub data_batches : List (List Pointer)
  pub cv : ℕ

pub record System : Type 0 where
  pub store : Store
  pub repo : Repository

-- One empty partition.
unfoldable pub idata_repository : ℕ → Repository
idata_repository cv = record { data_batches = [] ∷ []; cv = cv }

-- `std::vector::resize`
unfoldable pub resize : List (List Pointer) → ℕ → List (List Pointer)
resize ps n = take n ps ++ replicate (n - length ps) []

abbrev pub partition : System → ℕ → List Pointer
partition s i = get_or s.repo.data_batches i []

abbrev pub with_partition : System → ℕ → List Pointer → System
with_partition s i ps = record s {
  repo = record { data_batches = set s.repo.data_batches i ps; cv = s.repo.cv };
}

-- `if (batch) { batch->set_state_change_cv(&_cv); }`
abbrev pub watch : Store → ℕ → Pointer → Store
watch store cv none = store
watch store cv (some i) = update store i (set_state_change_cv (store i) (some cv))

-- `partition_idx + 1` wraps; the write past the end that would follow is undefined.
unfoldable pub add_data_batch : System → Pointer → ℕ → Result System
add_data_batch s batch idx =
    let grown =
      if leb (length s.repo.data_batches) idx
      then resize s.repo.data_batches (add64 idx 1)
      else s.repo.data_batches in
    let s' : System = record {
      store = watch s.store s.repo.cv batch;
      repo = record { data_batches = grown; cv = s.repo.cv };
    } in
    if ltb idx (length grown)
    then ok (with_partition s' idx (partition s' idx ++ batch ∷ []))
    else err null_dereference

-- A method of the batch that is pointed to.
abbrev on_batch : Store → Pointer → (DataBatch → DataBatch × Bool) → Result (Store × Bool)
on_batch store none f = err null_dereference
on_batch store (some i) f = ok (update store i (f (store i)).0, (f (store i)).1)

unfoldable pub try_transition_batch_for_pop : Store → Pointer → BatchState → Result (Store × Bool)
try_transition_batch_for_pop store p task_created =
    on_batch store p (λ b. ((try_to_create_task b).batch, (try_to_create_task b).value))
try_transition_batch_for_pop store p processing = err runtime_error
try_transition_batch_for_pop store p in_transit =
    on_batch store p
      (λ b. ((try_to_lock_for_in_transit b).batch, (try_to_lock_for_in_transit b).value))
try_transition_batch_for_pop store p idle = ok (store, false)

-- A search of one partition: the store afterwards, the pointer found, and those left, in order.
pub record Scan : Type 0 where
  pub store : Store
  pub found : Option Pointer
  pub rest : List Pointer

-- The `for` loop of `pop_data_batch`.
unfoldable pub scan : Store → BatchState → List Pointer → Result Scan
scan store target [] = ok (record { store = store; found = none; rest = [] })
scan store target (p ∷ ps) = try_transition_batch_for_pop store p target >>= λ r. elim r.1 [
  | true ↦ ok (record { store = r.0; found = some p; rest = ps })
  | false ↦ (scan r.0 target ps >>= λ q. ok (record q { rest = p ∷ q.rest }))
]

-- What one round of a blocking method ends with.
pub data Round : Type 0 where
  returned : System → Pointer → Round
  waits : System → Round

abbrev pub finish : System → ℕ → Scan → Round
finish s idx q = elim q.found [
  | none ↦ waits (record s { store = q.store })
  | some p ↦ returned (with_partition (record s { store = q.store }) idx q.rest) p
]

pub pop_round_on : BatchState → ℕ → System → List Pointer → Result Round
pop_round_on target idx s [] = ok (returned s none)
pop_round_on target idx s (p ∷ ps) = scan s.store target (p ∷ ps) >>= λ q. ok (finish s idx q)

unfoldable pub pop_round : BatchState → ℕ → System → Result Round
unfolding pop_round_on scan
pop_round target idx s = pop_round_on target idx s (partition s idx)

-- How a call ends, if it does not throw.
pub data Ending : Type 0 where
  popped : System → Pointer → Ending
  blocked : System → Ending

-- `while (true)`, with the changes of the other threads up to each wake-up.
unfoldable pub rounds : (System → Result Round) → List (System → System) → System → Result Ending
rounds round [] s = round s >>= λ r. ok (elim r [ returned t p ↦ popped t p | waits t ↦ blocked t ])
rounds round (w ∷ ws) s =
    round s >>= λ r. elim r [ returned t p ↦ ok (popped t p) | waits t ↦ rounds round ws (w t) ]

abbrev pub in_range : {A : Type 0} → System → ℕ → Result A → Result A
in_range s idx r = if leb (length s.repo.data_batches) idx then err out_of_range else r

unfoldable pub pop_data_batch : List (System → System) → System → BatchState → ℕ → Result Ending
pop_data_batch wakes s target idx = in_range s idx (rounds (pop_round target idx) wakes s)

-- The pointers before the first batch with the id, that batch, and the pointers after it. A null
-- pointer that is met on the way is dereferenced.
pub record Split : Type 0 where
  pub before : List Pointer
  pub batch : ℕ
  pub behind : List Pointer

unfoldable pub find_id : Store → ℕ → List Pointer → Result (Option Split)
find_id store id [] = ok none
find_id store id (none ∷ ps) = err null_dereference
find_id store id (some i ∷ ps) =
    let later = find_id store id ps >>= λ o.
    ok (elim o [ none ↦ none | some f ↦ some (record f { before = some i ∷ f.before }) ]) in
    if (store i).batch_id == id
    then ok (some (record { before = []; batch = i; behind = ps }))
    else later

abbrev pub without : Split → List Pointer
without f = f.before ++ f.behind

-- One round with a target state: the batch is found and transitions, or the call waits.
unfoldable pub pop_id_round : ℕ → BatchState → ℕ → System → Result Round
unfolding find_id
pop_id_round id target idx s = find_id s.store id (partition s idx) >>= λ o. elim o [
  | none ↦ ok (returned s none)
  | some f ↦
      (try_transition_batch_for_pop s.store (some f.batch) target >>= λ r. ok (elim r.1 [
        | true ↦ returned (with_partition (record s { store = r.0 }) idx (without f)) (some f.batch)
        | false ↦ waits (record s { store = r.0 })
      ]))
]

-- With no target state.
unfoldable pub take_id : ℕ → ℕ → System → Result Ending
unfolding find_id
take_id id idx s = find_id s.store id (partition s idx) >>= λ o. ok (elim o [
  | none ↦ popped s none
  | some f ↦ popped (with_partition s idx (without f)) (some f.batch)
])

unfoldable pub pop_data_batch_by_id :
    List (System → System) → System → ℕ → Option BatchState → ℕ → Result Ending
pop_data_batch_by_id wakes s id none idx = in_range s idx (take_id id idx s)
pop_data_batch_by_id wakes s id (some target) idx =
    in_range s idx (rounds (pop_id_round id target idx) wakes s)

-- `get_data_batch_by_id` of a `shared_ptr` repository copies the pointer and leaves it there.
unfoldable pub get_id_round : ℕ → BatchState → ℕ → System → Result Round
unfolding find_id
get_id_round id target idx s = find_id s.store id (partition s idx) >>= λ o. elim o [
  | none ↦ ok (returned s none)
  | some f ↦
      (try_transition_batch_for_pop s.store (some f.batch) target >>= λ r. ok (elim r.1 [
        | true ↦ returned (record s { store = r.0 }) (some f.batch)
        | false ↦ waits (record s { store = r.0 })
      ]))
]

unfoldable pub peek_id : ℕ → ℕ → System → Result Ending
unfolding find_id
peek_id id idx s = find_id s.store id (partition s idx) >>= λ o.
    ok (elim o [ none ↦ popped s none | some f ↦ popped s (some f.batch) ])

unfoldable pub get_data_batch_by_id :
    List (System → System) → System → ℕ → Option BatchState → ℕ → Result Ending
get_data_batch_by_id wakes s id none idx = in_range s idx (peek_id id idx s)
get_data_batch_by_id wakes s id (some target) idx =
    in_range s idx (rounds (get_id_round id target idx) wakes s)

-- That of a `unique_ptr` repository.
unfoldable pub get_data_batch_by_id_unique : ℕ → Option BatchState → ℕ → Result Pointer
get_data_batch_by_id_unique id target idx = err runtime_error

pub ids_of : Store → List Pointer → Result (List ℕ)
ids_of store [] = ok []
ids_of store (none ∷ ps) = err null_dereference
ids_of store (some i ∷ ps) = ids_of store ps >>= λ ids. ok ((store i).batch_id ∷ ids)

unfoldable pub get_batch_ids : System → ℕ → Result (List ℕ)
unfolding ids_of
get_batch_ids s idx = in_range s idx (ids_of s.store (partition s idx))

unfoldable pub size : System → ℕ → Result ℕ
size s idx = in_range s idx (ok (length (partition s idx)))

unfoldable pub empty : System → ℕ → Result Bool
unfolding size
empty s idx = size s idx >>= λ n. ok (n == 0)

abbrev pub sum_of_lengths : List (List Pointer) → ℕ
sum_of_lengths [] = 0
sum_of_lengths (ps ∷ pss) = length ps + sum_of_lengths pss

unfoldable pub total_size : System → ℕ
total_size s = sum_of_lengths s.repo.data_batches

abbrev pub none_in : List (List Pointer) → Bool
none_in [] = true
none_in ([] ∷ pss) = none_in pss
none_in ((p ∷ ps) ∷ pss) = false

unfoldable pub all_empty : System → Bool
all_empty s = none_in s.repo.data_batches

unfoldable pub num_partitions : System → ℕ
num_partitions s = length s.repo.data_batches
