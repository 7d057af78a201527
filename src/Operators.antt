-- ===== src/Operators.antt =====
-- include/data/data_repository_manager.hpp: the manager of the repositories of all the operators' ports.
-- A method runs under the manager's mutex, `get_repository` without it. The batches live in the store that
-- the repositories share; a string is the list of its characters' codes; the map is an association list,
-- in which a key is found by the map's equivalence, from `operator<`. A repository pointer may be null.
pub mod Order
pub mod Ports
pub mod Ids
mod Tests
use cu_cascade.Base.{
  ℕ, zero, suc, ◌+◌, Bool, true, false, not, ◌&&◌, ◌||◌, Option, none, some, List, [], ◌∷◌, ◌++◌,
  ltb, ◌==◌, if◌then◌else◌, Error, runtime_error, out_of_range, null_dereference, Result, ok, err,
  ◌>>=◌,
}
use cu_cascade.Base.Words.{add64}
use cu_cascade.Repository.{Pointer, Store, Repository, System, add_data_batch}

pub record OperatorPortKey : Type 0 where
  pub operator_id : ℕ
  pub port_id : List ℕ

-- `==` and `<` of strings.
abbrev pub string_eq : List ℕ → List ℕ → Bool
string_eq [] [] = true
string_eq [] (y ∷ ys) = false
string_eq (x ∷ xs) [] = false
string_eq (x ∷ xs) (y ∷ ys) = x == y && string_eq xs ys

abbrev pub string_less : List ℕ → List ℕ → Bool
string_less xs [] = false
string_less [] (y ∷ ys) = true
string_less (x ∷ xs) (y ∷ ys) = ltb x y || (x == y && string_less xs ys)

-- `operator==`
abbrev pub key_eq : OperatorPortKey → OperatorPortKey → Bool
key_eq a b = a.operator_id == b.operator_id && string_eq a.port_id b.port_id

-- `operator<`
abbrev pub key_less : OperatorPortKey → OperatorPortKey → Bool
key_less a b =
    if not (a.operator_id == b.operator_id)
    then ltb a.operator_id b.operator_id
    else string_less a.port_id b.port_id

-- `std::map` takes two keys for the same if neither is less.
abbrev pub equivalent : OperatorPortKey → OperatorPortKey → Bool
equivalent a b = not (key_less a b) && not (key_less b a)

abbrev pub Repositories : Type 0
Repositories = List (OperatorPortKey × Option Repository)

abbrev pub find_repository : Repositories → OperatorPortKey → Option (Option Repository)
find_repository [] key = none
find_repository ((k, r) ∷ rs) key = if equivalent k key then some r else find_repository rs key

abbrev pub put_repository : Repositories → OperatorPortKey → Option Repository → Repositories
put_repository [] key r = (key, r) ∷ []
put_repository ((k, q) ∷ rs) key r =
    if equivalent k key then (k, r) ∷ rs else (k, q) ∷ put_repository rs key r

pub record DataRepositoryManager : Type 0 where
  pub next_data_batch_id : ℕ
  pub repositories : Repositories
  pub store : Store

-- The default constructor, for the batches of `store`.
abbrev pub data_repository_manager : Store → DataRepositoryManager
data_repository_manager store = record { next_data_batch_id = 0; repositories = []; store = store }

unfoldable pub add_new_repository :
    DataRepositoryManager → OperatorPortKey → Option Repository → Result DataRepositoryManager
add_new_repository m key r = elim (find_repository m.repositories key) [
  | some old ↦ err runtime_error
  | none ↦ ok (record m { repositories = put_repository m.repositories key r })
]

-- `_repositories[key]->add_data_batch(batch)`: on a missing key the map makes a null pointer.
unfoldable pub add_to :
    DataRepositoryManager → Pointer → OperatorPortKey → Result DataRepositoryManager
unfolding add_data_batch
add_to m batch key = elim (find_repository m.repositories key) [
  | none ↦ err null_dereference
  | some none ↦ err null_dereference
  | some (some r) ↦
      (add_data_batch (record { store = m.store; repo = r }) batch 0 >>= λ s. ok (record m {
        repositories = put_repository m.repositories key (some s.repo);
        store = s.store;
      }))
]

-- `add_data_batch_impl` for `shared_ptr`.
unfoldable pub add_shared :
    DataRepositoryManager → Pointer → List OperatorPortKey → Result DataRepositoryManager
unfolding add_to
add_shared m batch [] = ok m
add_shared m batch (op ∷ ops) = add_to m batch op >>= λ m'. add_shared m' batch ops

-- `add_data_batch_impl` for `unique_ptr`.
unfoldable pub add_unique :
    DataRepositoryManager → Pointer → List OperatorPortKey → Result DataRepositoryManager
unfolding add_to
add_unique m batch [] = err runtime_error
add_unique m batch (op ∷ []) = add_to m batch op
add_unique m batch (op ∷ op' ∷ ops) = err runtime_error

-- `at`
unfoldable pub get_repository : DataRepositoryManager → OperatorPortKey → Result (Option Repository)
get_repository m key = elim (find_repository m.repositories key) [
  | none ↦ err out_of_range
  | some r ↦ ok r
]

unfoldable pub get_next_data_batch_id : DataRepositoryManager → DataRepositoryManager × ℕ
get_next_data_batch_id m =
    (record m { next_data_batch_id = add64 m.next_data_batch_id 1 }, m.next_data_batch_id)

-- A placeholder in the source: no batch is found.
unfoldable pub get_data_batches_for_downgrade : DataRepositoryManager → ℕ → ℕ → List Pointer
get_data_batches_for_downgrade m memory_space_id amount_to_downgrade = []
