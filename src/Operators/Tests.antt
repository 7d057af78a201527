-- ===== src/Operators/Tests.antt =====
-- Runs of the manager of the repositories, and the theorems at inputs that meet their hypotheses.
use cu_cascade.Base.{
  ℕ, ◌≡◌, refl, true, none, some, [], ◌∷◌, ◌++◌, ok, err, runtime_error, out_of_range,
  null_dereference,
}
use cu_cascade.Batch.{DataBatch, idle}
use cu_cascade.Repository.{Repository}
use cu_cascade.Operators.{
  OperatorPortKey, string_less, put_repository, DataRepositoryManager, add_shared, add_unique,
  get_repository,
}
use cu_cascade.Operators.Ports.{queue, copies, add_shared-copies, add_shared-missing}

abbrev batches : ℕ → DataBatch
batches i = record {
  batch_id = i;
  rep = none;
  processing_count = 0;
  task_created_count = 0;
  state = idle;
  state_change_cv = none;
}

abbrev port : ℕ → ℕ → OperatorPortKey
port operator letter = record { operator_id = operator; port_id = letter ∷ [] }

abbrev empty_repository : Repository
empty_repository = record { data_batches = [] ∷ []; cv = 3 }

abbrev holding : Repository
holding = record { data_batches = (some 4 ∷ []) ∷ []; cv = 5 }

abbrev manager : DataRepositoryManager
manager = record {
  next_data_batch_id = 18446744073709551615;
  repositories = (port 1 97, some holding) ∷ (port 1 98, some empty_repository) ∷ [];
  store = batches;
}

-- A shorter string is less than one that it begins.
string_order : string_less (97 ∷ []) (97 ∷ 98 ∷ []) ≡ true
string_order = refl

two_owners : add_unique manager (some 1) (port 1 97 ∷ port 1 98 ∷ []) ≡ err runtime_error
unfolding add_unique
two_owners = refl

abbrev with_third : DataRepositoryManager
with_third = record manager {
  repositories = put_repository manager.repositories (port 2 97) (some empty_repository);
}

add_shared-copies_example :
    (m' : DataRepositoryManager) × (add_shared manager (some 7) (port 1 98 ∷ port 1 97 ∷ [])
      ≡ ok m')
    × ((k : OperatorPortKey) (p : ℕ)
        → queue m' k p ≡ queue manager k p ++ copies (some 7) (port 1 98 ∷ port 1 97 ∷ []) k p)
add_shared-copies_example =
    add_shared-copies manager (some 7) (port 1 98 ∷ port 1 97 ∷ [])
      ((empty_repository, refl), ((holding, refl), tt))

add_shared-missing_example :
    (add_shared manager (some 7) (port 1 98 ∷ port 2 97 ∷ []) ≡ err null_dereference)
    × (get_repository manager (port 2 97) ≡ err out_of_range)
add_shared-missing_example =
    add_shared-missing manager (some 7) (port 1 98 ∷ []) [] (port 2 97)
      ((empty_repository, refl), tt) refl
