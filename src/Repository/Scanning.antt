-- ===== src/Repository/Scanning.antt =====
-- The search of one partition for a batch that can make a transition.
use mathlib.Core.Path.{fun_ext}
use cu_cascade.Base.{
  ℕ, ◌≡◌, refl, ap, ◌⊎◌, inl, inr, Bool, true, false, none, some, List, [], ◌∷◌, ◌++◌, All, update,
  ok, err, arith, Result, ◌>>=◌,
}
use cu_cascade.Batch.{
  BatchState, idle, task_created, processing, in_transit, DataBatch, try_to_create_task,
  try_to_lock_for_in_transit,
}
use cu_cascade.Batch.Transitions.{refusals_change_nothing}
use cu_cascade.Repository.{Pointer, Store, Scan, scan, try_transition_batch_for_pop}

-- The batch refuses the transition, and stays as it is.
abbrev pub Refuses : Store → BatchState → Pointer → Type 0
Refuses store target p = try_transition_batch_for_pop store p target ≡ ok (store, false)

update_self : (store : Store) (i : ℕ) → update store i (store i) ≡ store
update_self store i = fun_ext (λ j. ground arith)

same_store : (store : Store) (i : ℕ) (b : DataBatch) → b ≡ store i → update store i b ≡ store
same_store store i b e = rw e (update_self store i)

-- A transition that is refused changes nothing in the store.
pub refused_same :
    (store : Store) (p : Pointer) (target : BatchState) (store' : Store)
    → try_transition_batch_for_pop store p target ≡ ok (store', false)
    → store' ≡ store
unfolding try_transition_batch_for_pop
refused_same store none task_created store' h = cc
refused_same store none processing store' h = cc
refused_same store none in_transit store' h = cc
refused_same store none idle store' h = ground arith
refused_same store (some i) task_created store' h = ground (
  arith,
  same_store store i (try_to_create_task (store i)).batch,
  (refusals_change_nothing (store i)).0,
)
refused_same store (some i) processing store' h = cc
refused_same store (some i) in_transit store' h = ground (
  arith,
  same_store store i (try_to_lock_for_in_transit (store i)).batch,
  (refusals_change_nothing (store i)).2,
)
refused_same store (some i) idle store' h = ground arith

-- What a search that ends without an exception has found.
abbrev pub Found : Store → BatchState → List Pointer → Scan → Type 0
Found store target ps q =
    (before : List Pointer) × (p : Pointer) × (behind : List Pointer) × (q.found ≡ some p)
    × (ps ≡ before ++ p ∷ behind)
    × (q.rest ≡ before ++ behind)
    × All (Refuses store target) before
    × (try_transition_batch_for_pop store p target ≡ ok (q.store, true))

abbrev pub Missed : Store → BatchState → List Pointer → Scan → Type 0
Missed store target ps q =
    (q.found ≡ none) × (q.store ≡ store) × (q.rest ≡ ps) × All (Refuses store target) ps

-- A search ends in one of three ways: by an exception, at the first pointer whose batch makes the
-- transition, with the others left in order, or at the end with every batch refusing.
Outcomes : Store → BatchState → List Pointer → Result Scan → Type 0
Outcomes store target ps (ok q) = Found store target ps q ⊎ Missed store target ps q
Outcomes store target ps (err e) = Unit

tail_Outcomes :
    (store : Store) (target : BatchState) (p : Pointer) (ps : List Pointer) (r : Result Scan)
    → Refuses store target p
    → Outcomes store target ps r
    → Outcomes store target (p ∷ ps) (r >>= λ q. ok (record q { rest = p ∷ q.rest }))
unfolding Outcomes
tail_Outcomes store target p ps (err e) f o = tt
tail_Outcomes store target p ps (ok q) f (inl (b, x, a, e, s, r, fs, t)) =
    inl (p ∷ b, x, a, e, ap (◌∷◌ p) s, ap (◌∷◌ p) r, (f, fs), t)
tail_Outcomes store target p ps (ok q) f (inr (e, s, r, fs)) = inr (e, s, ap (◌∷◌ p) r, (f, fs))

scan-Outcomes :
    (store : Store) (target : BatchState) (ps : List Pointer)
    → Outcomes store target ps (scan store target ps)
unfolding scan Outcomes
scan-Outcomes store target [] = inr (refl, refl, refl, tt)
scan-Outcomes store target (p ∷ ps) =
    go (scan-Outcomes store target ps) (try_transition_batch_for_pop store p target) refl
  where
    go :
        Outcomes store target ps (scan store target ps)
        → (t : Result (Store × Bool)) → try_transition_batch_for_pop store p target ≡ t
        → Outcomes store target (p ∷ ps) (scan store target (p ∷ ps))
    go ih (err e) h = rw (h, scan) tt
    go ih (ok (s, true)) h = rw (h, scan) (inl ([], p, ps, refl, refl, refl, tt, h))
    go ih (ok (s, false)) h =
        let same = refused_same store p target s h in
        rw (h, scan)
          (rw same (tail_Outcomes store target p ps (scan store target ps) (rw same at h) ih))

pub scan_cases :
    (store : Store) (target : BatchState) (ps : List Pointer) (q : Scan)
    → scan store target ps ≡ ok q
    → Found store target ps q ⊎ Missed store target ps q
unfolding Outcomes
scan_cases store target ps q h = rw h at (scan-Outcomes store target ps)
