-- ===== src/Repository/Popping.antt =====
-- `pop_data_batch`: what it returns, and when it waits.
use mathlib.Core.Path.{subst, subst₂}
use cu_cascade.Base.{
  ℕ, ◌<◌, ◌≡◌, refl, ap, ◌⊎◌, inl, inr, ◌≢◌, ◌↔◌, true, false, none, some, List, [], ◌∷◌, ◌++◌, All,
  ok, err, arith, Bool-cases, Result, Error, ◌>>=◌, length, runtime_error, leb,
}
use cu_cascade.Batch.{BatchState, idle, processing}
use cu_cascade.Repository.{
  Pointer, Store, Scan, scan, try_transition_batch_for_pop, System, partition, with_partition,
  Round, returned, waits, finish, pop_round, pop_round_on, Ending, popped, blocked, rounds,
  pop_data_batch,
}
use cu_cascade.Repository.Scanning.{Refuses, Found, Missed, scan_cases}

-- The call took a batch out of the partition of `s`: the oldest that makes the transition.
pub record TookOldest (s : System) (target : BatchState) (idx : ℕ) (t : System) (p : Pointer)
    : Type 0 where
  pub before : List Pointer
  pub behind : List Pointer
  pub store : Store
  pub split : partition s idx ≡ before ++ p ∷ behind
  pub left : t ≡ with_partition (record s { store = store }) idx (before ++ behind)
  pub refused : All (Refuses s.store target) before
  pub moved : try_transition_batch_for_pop s.store p target ≡ ok (store, true)

-- How a round of `pop_data_batch` ends, if it does not throw.
data RoundOf (s : System) (target : BatchState) (idx : ℕ) (r : Round) : Type 0 where
  nothing_there : partition s idx ≡ [] → r ≡ returned s none → RoundOf s target idx r
  took :
      (t : System) (p : Pointer)
      → r ≡ returned t p
      → TookOldest s target idx t p
      → RoundOf s target idx r
  must_wait :
      partition s idx ≢ []
      → r ≡ waits s
      → All (Refuses s.store target) (partition s idx)
      → RoundOf s target idx r

module _ (s : System) (target : BatchState) (idx : ℕ) where
  finish-RoundOf :
      (q : Scan)
      → partition s idx ≢ []
      → Found s.store target (partition s idx) q ⊎ Missed s.store target (partition s idx) q
      → RoundOf s target idx (finish s idx q)
  finish-RoundOf q h (inl (b, p, a, e, c, r, f, t)) =
      took (with_partition (record s { store = q.store }) idx q.rest) p (rw e refl) (record {
        before = b;
        behind = a;
        store = q.store;
        split = c;
        left = rw r refl;
        refused = f;
        moved = t;
      })
  finish-RoundOf q h (inr (e, c, r, f)) = must_wait h (ground arith) f

  pop_round_on-RoundOf :
      (ps : List Pointer) (r : Round)
      → partition s idx ≡ ps
      → pop_round_on target idx s ps ≡ ok r
      → RoundOf s target idx r
  unfolding pop_round_on
  pop_round_on-RoundOf [] r e h = nothing_there e (ground arith)
  pop_round_on-RoundOf (p ∷ ps) r e h = go (scan s.store target (p ∷ ps)) refl h
    where
      go :
          (o : Result Scan)
          → scan s.store target (p ∷ ps) ≡ o
          → (o >>= λ q. ok (finish s idx q)) ≡ ok r
          → RoundOf s target idx r
      go (err x) k m = cc
      go (ok q) k m =
          subst (RoundOf s target idx) (cc)
            (finish-RoundOf q (λ z. cc) (rw e (scan_cases s.store target (p ∷ ps) q k)))

  pop_round-RoundOf : (r : Round) → pop_round target idx s ≡ ok r → RoundOf s target idx r
  unfolding pop_round
  pop_round-RoundOf r h = pop_round_on-RoundOf (partition s idx) r refl h

-- The system after `k` wake-ups, when each of the rounds before them waits and changes nothing.
abbrev pub after_wakes : List (System → System) → System → System
after_wakes [] s = s
after_wakes (w ∷ ws) s = after_wakes ws (w s)

-- How the call goes on after a round with the result `r`.
abbrev go_on : BatchState → ℕ → List (System → System) → Result Round → Result Ending
go_on target idx [] r = r >>= λ r. ok (elim r [ returned t p ↦ popped t p | waits t ↦ blocked t ])
go_on target idx (w ∷ ws) r = r >>= λ r. elim r [
  | returned t p ↦ ok (popped t p)
  | waits t ↦ rounds (pop_round target idx) ws (w t)
]

-- What the call took in its last round, after `done`.
abbrev pub Took : BatchState → ℕ → List (System → System) → System → System → Pointer → Type 0
Took target idx wakes s t p =
    (done : List (System → System)) × (later : List (System → System)) × (wakes ≡ done ++ later)
    × TookOldest (after_wakes done s) target idx t p

returned_round :
    (target : BatchState) (idx i : ℕ) (s t : System)
    → RoundOf s target idx (returned t (some i))
    → TookOldest s target idx t (some i)
returned_round target idx i s t (nothing_there e r) = cc
returned_round target idx i s t (took u p r k) =
    subst₂ (TookOldest s target idx) (ground arith) (ground arith) k
returned_round target idx i s t (must_wait n r f) = cc

waiting_round :
    (target : BatchState) (idx : ℕ) (s t : System) → RoundOf s target idx (waits t) → t ≡ s
waiting_round target idx s t (nothing_there e r) = cc
waiting_round target idx s t (took u p r k) = cc
waiting_round target idx s t (must_wait n r f) = ground arith

last_round :
    (target : BatchState) (idx : ℕ) (wakes : List (System → System)) (s t : System) (i : ℕ)
    → rounds (pop_round target idx) wakes s ≡ ok (popped t (some i))
    → Took target idx wakes s t (some i)
unfolding rounds
last_round target idx [] s t i h = go (pop_round target idx s) refl h
  where
    go :
        (r : Result Round)
        → pop_round target idx s ≡ r
        → go_on target idx [] r ≡ ok (popped t (some i))
        → Took target idx [] s t (some i)
    go (err e) k m = cc
    go (ok (waits u)) k m = cc
    go (ok (returned u p)) k m =
        ([], [], refl, returned_round target idx i s t (pop_round-RoundOf s target idx _ (cc)))
last_round target idx (w ∷ ws) s t i h =
    go (λ u. last_round target idx ws (w u) t i) (pop_round target idx s) refl h
  where
    go :
        ((u : System)
          → rounds (pop_round target idx) ws (w u) ≡ ok (popped t (some i))
          → Took target idx ws (w u) t (some i))
        → (r : Result Round) → pop_round target idx s ≡ r
        → go_on target idx (w ∷ ws) r ≡ ok (popped t (some i))
        → Took target idx (w ∷ ws) s t (some i)
    go ih (err e) k m = cc
    go ih (ok (returned u p)) k m =
        ([], w ∷ ws, refl, returned_round target idx i s t (pop_round-RoundOf s target idx _ (cc)))
    go ih (ok (waits u)) k m =
        let (done, later, e, x) = ih u m in
        let same = waiting_round target idx s u (pop_round-RoundOf s target idx _ k) in
        (w ∷ done, later, ap (◌∷◌ w) e, rw same at x)

-- A batch that `pop_data_batch` returns was in the partition, after the changes of the other threads up
-- to one of the wake-ups: it was the oldest that could make the transition, every older one refused and
-- stays as it was, the batch has made the transition, and the others are left in order.
pub pop_takes_oldest :
    (wakes : List (System → System)) (s t : System) (target : BatchState) (idx i : ℕ)
    → pop_data_batch wakes s target idx ≡ ok (popped t (some i))
    → Took target idx wakes s t (some i)
unfolding pop_data_batch
pop_takes_oldest wakes s t target idx i h =
    last_round target idx wakes s t i (elim (Bool-cases (leb (length s.repo.data_batches) idx)) [
      | inl e ↦ cc (rw e at h)
      | inr e ↦ rw e at h
    ])

all_refuse :
    (store : Store) (target : BatchState) (ps : List Pointer)
    → All (Refuses store target) ps
    → scan store target ps ≡ ok (record { store = store; found = none; rest = ps })
unfolding scan
all_refuse store target [] f = refl
all_refuse store target (p ∷ ps) f = rw (f.0, scan) (rw (all_refuse store target ps f.1))

waits_if :
    (target : BatchState) (idx : ℕ) (s : System) (ps : List Pointer)
    → ps ≢ []
    → All (Refuses s.store target) ps
    → pop_round_on target idx s ps ≡ ok (waits s)
unfolding pop_round_on
waits_if target idx s [] n f = absurd (n refl)
waits_if target idx s (p ∷ ps) n f = rw (all_refuse s.store target (p ∷ ps) f)

round_waits :
    (target : BatchState) (idx : ℕ) (s : System)
    → partition s idx ≢ []
    → All (Refuses s.store target) (partition s idx)
    → pop_round target idx s ≡ ok (waits s)
unfolding pop_round
round_waits target idx s n f = waits_if target idx s (partition s idx) n f

must_wait_of :
    (target : BatchState) (idx : ℕ) (s : System)
    → RoundOf s target idx (waits s)
    → (partition s idx ≢ []) × All (Refuses s.store target) (partition s idx)
must_wait_of target idx s (nothing_there e r) = cc
must_wait_of target idx s (took u p r k) = cc
must_wait_of target idx s (must_wait n r f) = (n, f)

one_round :
    (target : BatchState) (idx : ℕ) (s : System) (r : Result Round)
    → pop_round target idx s ≡ r
    → go_on target idx [] r ≡ ok (blocked s)
    → pop_round target idx s ≡ ok (waits s)
one_round target idx s (err e) h k = cc
one_round target idx s (ok (returned u p)) h k = cc
one_round target idx s (ok (waits u)) h k = cc

-- With the partition in range, `pop_data_batch` goes to sleep in its first round exactly if the partition
-- is not empty and every batch in it refuses the transition; it then has changed nothing.
pub pop_blocks_iff :
    (s : System) (target : BatchState) (idx : ℕ)
    → idx < length s.repo.data_batches
    → (pop_data_batch [] s target idx ≡ ok (blocked s))
      ↔ ((partition s idx ≢ []) × All (Refuses s.store target) (partition s idx))
unfolding pop_data_batch rounds
pop_blocks_iff s target idx h =
    let fits : leb (length s.repo.data_batches) idx ≡ false = ground arith in
    (
      λ k.
          must_wait_of target idx s
            (pop_round-RoundOf s target idx _ (one_round target idx s _ refl (rw fits at k))),
      λ w. rw fits (rw (round_waits target idx s w.0 w.1)),
    )

-- A call that asks for `idle` never returns a batch, whatever the other threads do meanwhile, and one
-- that asks for `processing` never does either.
pub pop_needs_target :
    (wakes : List (System → System)) (s t : System) (target : BatchState) (idx i : ℕ)
    → (target ≡ idle) ⊎ (target ≡ processing)
    → pop_data_batch wakes s target idx ≢ ok (popped t (some i))
unfolding try_transition_batch_for_pop
pop_needs_target wakes s t target idx i e h =
    let (done, later, q, x) = pop_takes_oldest wakes s t target idx i h in ground (arith, x.moved)

rounds_ended :
    (round : System → Result Round) (wakes : List (System → System)) (s : System)
    → ((e : Error) → round s ≡ err e → rounds round wakes s ≡ err e)
      × ((t : System) (p : Pointer)
          → round s ≡ ok (returned t p)
          → rounds round wakes s ≡ ok (popped t p))
unfolding rounds
rounds_ended round [] s = (λ e h. rw h, λ t p h. rw h)
rounds_ended round (w ∷ ws) s = (λ e h. rw h, λ t p h. rw h)

processing_round :
    (s : System) (idx : ℕ) (ps : List Pointer)
    → (ps ≢ [] → pop_round_on processing idx s ps ≡ err runtime_error)
      × (ps ≡ [] → pop_round_on processing idx s ps ≡ ok (returned s none))
unfolding pop_round_on scan try_transition_batch_for_pop
processing_round s idx [] = (λ n. absurd (n refl), λ e. refl)
processing_round s idx (p ∷ ps) = (λ n. refl, λ e. cc)

-- A call that asks for `processing` throws if the partition holds a batch, and returns a null pointer,
-- with nothing changed, if it holds none.
pub pop_processing :
    (wakes : List (System → System)) (s : System) (idx : ℕ)
    → idx < length s.repo.data_batches
    → (partition s idx ≢ [] → pop_data_batch wakes s processing idx ≡ err runtime_error)
      × (partition s idx ≡ [] → pop_data_batch wakes s processing idx ≡ ok (popped s none))
unfolding pop_data_batch pop_round
pop_processing wakes s idx h =
    let fits : leb (length s.repo.data_batches) idx ≡ false = ground arith in
    let round = processing_round s idx (partition s idx) in
    let ends = rounds_ended (pop_round processing idx) wakes s in
    (λ n. rw fits (ends.0 runtime_error (round.0 n)), λ e. rw fits (ends.1 s none (round.1 e)))
