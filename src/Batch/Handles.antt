-- ===== src/Batch/Handles.antt =====
-- `data_batch_processing_handle` of include/data/data_batch.hpp and src/data/data_batch.cpp, as objects: a program with several
-- batches, numbered, and its variables that are handles, each of which is empty or points to a batch. The calls of
-- the batches are those of Batch/Calls.
pub mod Counting
mod Tests
use cu_cascade.Base.{
  ℕ, zero, suc, Bool, true, false, Option, none, some, List, [], ◌∷◌, ◌==◌, if◌then◌else◌,
  get_elem?, set, erase_at, update, Result, ok, err, ◌>>=◌,
}
use cu_cascade.Batch.{DataBatch, decrement_processing_count}
use cu_cascade.Batch.Calls.{Call, Client, after, IsProper}
use cu_cascade.Batch.Calls

pub record Program : Type 0 where
  pub store : ℕ → DataBatch
  pub handles : List (Option ℕ)

abbrev pub valid : Option ℕ → Bool
valid none = false
valid (some i) = true

-- The batches and the handle afterwards.
unfoldable pub release : (ℕ → DataBatch) → Option ℕ → Result ((ℕ → DataBatch) × Option ℕ)
release store none = ok (store, none)
release store (some i) =
    decrement_processing_count (store i) >>= λ o. ok (update store i o.batch, none)

-- The move constructor: the new handle, and what is left of the other.
unfoldable pub move : Option ℕ → Option ℕ × Option ℕ
move other = (other, none)

-- The move assignment of another handle: the batches, this handle and the other.
unfoldable pub assign :
    (ℕ → DataBatch) → Option ℕ → Option ℕ → Result ((ℕ → DataBatch) × Option ℕ × Option ℕ)
unfolding release
assign store this other = release store this >>= λ r. ok (r.0, other, none)

pub data HandleCall : Type 0 where
  calls : ℕ → Call → HandleCall
  declares : HandleCall
  moves releases destroys : ℕ → HandleCall
  assigns : ℕ → ℕ → HandleCall

-- The handle that a call of a batch returned, if it did, in a new variable.
abbrev pub keep : ℕ → ℕ → List (Option ℕ) → List (Option ℕ)
keep i zero hs = hs
keep i (suc n) hs = some i ∷ keep i n hs

-- The call of a batch alone, that counts the handle that it returns.
abbrev pub called : DataBatch → Call → Client
called b k = let c : Client = record { batch = b; handles = 0 } in after c (Calls.step c k)

-- A call on a variable that is not there changes nothing. An error is an exception of a destructor, of a `release`
-- or of an assignment.
unfoldable pub step : Program → HandleCall → Result Program
unfolding release move assign
step p (calls i k) =
    let c = called (p.store i) k in
    ok (record { store = update p.store i c.batch; handles = keep i c.handles p.handles })
step p declares = ok (record p { handles = none ∷ p.handles })
step p (moves v) = elim (get_elem? p.handles v) [
  | none ↦ ok p
  | some h ↦ ok (record p { handles = (move h).0 ∷ set p.handles v (move h).1 })
]
step p (releases v) = elim (get_elem? p.handles v) [
  | none ↦ ok p
  | some h ↦ (release p.store h >>= λ r. ok (record { store = r.0; handles = set p.handles v r.1 }))
]
step p (destroys v) = elim (get_elem? p.handles v) [
  | none ↦ ok p
  | some h ↦
      (release p.store h >>= λ r. ok (record { store = r.0; handles = erase_at p.handles v }))
]
step p (assigns v w) = elim (get_elem? p.handles v) [
  | none ↦ ok p
  | some this ↦ elim (get_elem? p.handles w) [
    | none ↦ ok p
    | some other ↦
        (if v == w
          then ok p
          else assign p.store this other >>= λ r.
              ok (record { store = r.0; handles = set (set p.handles v r.1) w r.2 }))
  ]
]

unfoldable pub run : Program → List HandleCall → Result Program
unfolding step
run p [] = ok p
run p (c ∷ cs) = step p c >>= λ p'. run p' cs

-- The calls of a batch are methods, and lead to states of the machine.
abbrev pub IsProperMethod : DataBatch → Call → Type 0
IsProperMethod b Call.release_handle = ⊥
IsProperMethod b Call.create = Unit
IsProperMethod b Call.cancel = Unit
IsProperMethod b Call.lock_transit = Unit
IsProperMethod b (Call.lock space) = Unit
IsProperMethod b (Call.release_transit target) = Calls.IsProperTarget b target
IsProperMethod b (Call.set_cv cv) = Unit
IsProperMethod b (Call.replace rep) = Unit

abbrev pub IsProperCall : Program → HandleCall → Type 0
IsProperCall p (calls i k) = IsProperMethod (p.store i) k
IsProperCall p _ = Unit
