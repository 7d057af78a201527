-- ===== src/Batch/Handles/Counting.antt =====
-- The processing count of each batch, against the handles that point to it.
use cu_cascade.Base.{
  ℕ, zero, suc, ◌+◌, ◌-◌, ◌<◌, ◌≡◌, ◌≢◌, refl, ap, ◌∙◌, ◌↔◌, inl, inr, Bool-cases, Option-cases,
  Option, none, some, List, [], ◌∷◌, ◌==◌, if◌then◌else◌, get_elem?, set, erase_at, update, length,
  sum_of, sum_of-set, sum_of-erase_at, Error, ok, err, Result-cases, arith, ℕ_discrete,
}
use native.Mathlib.Nat.{add-zero, add-suc, suc-add}
use cu_cascade.Base.Words.{word_size}
use mathlib.Core.Path.{subst}
use cu_cascade.Batch.{
  Outcome, DataBatch, data_batch, DataRepresentation, processing, decrement_processing_count,
}
use cu_cascade.Batch.Calls.{Call, Client, IsProper, after}
use cu_cascade.Batch.Calls
use cu_cascade.Batch.Invariant.{Inv, init-Inv, step-Inv}
use cu_cascade.Batch.Handles.{
  Program, HandleCall, calls, declares, moves, releases, destroys, assigns, release, move, assign,
  keep, called, step, run, IsProperCall, IsProperMethod,
}

-- Whether a handle points to the batch, and how many do.
abbrev pub points_to : ℕ → Option ℕ → ℕ
points_to i none = 0
points_to i (some j) = if j == i then 1 else 0

abbrev pub pointing : ℕ → List (Option ℕ) → ℕ
pointing i = sum_of (points_to i)

-- What a program is for one of its batches.
abbrev pub client : Program → ℕ → Client
client p i = record { batch = p.store i; handles = pointing i p.handles }

pub record InvAll (n : ℕ) (p : Program) : Type 0 where
  pub each : (i : ℕ) → Inv n (client p i)

later : (n : ℕ) (c : Client) → Inv n c → Inv (suc n) c
later n c h = ground arith

-- A method counts the handle that it returns, whatever handles there are.
called_shift :
    (b : DataBatch) (h : ℕ) (k : Call)
    → IsProperMethod b k
    → let c : Client = record { batch = b; handles = h } in
      after c (Calls.step c k)
      ≡ record { batch = (called b k).batch; handles = h + (called b k).handles }
unfolding Calls.step
called_shift b h Call.create p = ground arith
called_shift b h Call.cancel p = ground arith
called_shift b h Call.lock_transit p = ground arith
called_shift b h Call.release_handle p = absurd p
called_shift b h (Call.lock space) p = ground arith
called_shift b h (Call.release_transit target) p = ground arith
called_shift b h (Call.set_cv cv) p = ground arith
called_shift b h (Call.replace rep) p = ground arith

IsProper-of_method :
    (b : DataBatch) (h : ℕ) (k : Call)
    → IsProperMethod b k
    → IsProper (record { batch = b; handles = h }) k
IsProper-of_method b h Call.create p = tt
IsProper-of_method b h Call.cancel p = tt
IsProper-of_method b h Call.lock_transit p = tt
IsProper-of_method b h Call.release_handle p = tt
IsProper-of_method b h (Call.lock space) p = tt
IsProper-of_method b h (Call.release_transit target) p = p
IsProper-of_method b h (Call.set_cv cv) p = tt
IsProper-of_method b h (Call.replace rep) p = tt

pointing-keep :
    (i j n : ℕ) (hs : List (Option ℕ))
    → pointing j (keep i n hs) ≡ pointing j hs + (if i == j then n else 0)
pointing-keep i j zero hs = ground arith
pointing-keep i j (suc n) hs = ground (arith, pointing-keep i j n hs)

update_self : (f : ℕ → DataBatch) (i : ℕ) (b : DataBatch) → update f i b i ≡ b
update_self f i b = ground arith

update_other : (f : ℕ → DataBatch) (i j : ℕ) (b : DataBatch) → i ≢ j → update f i b j ≡ f j
update_other f i j b h = ground arith

-- Batch `i` has changed with the handles that point to it; the handles to the others are as many.
changed-InvAll :
    (n : ℕ) (p : Program) (i : ℕ) (c : Client) (hs : List (Option ℕ))
    → InvAll n p
    → Inv (suc n) c
    → c.handles ≡ pointing i hs
    → ((j : ℕ) → i ≢ j → pointing j hs ≡ pointing j p.handles)
    → InvAll (suc n) (record { store = update p.store i c.batch; handles = hs })
changed-InvAll n p i c hs v w e f = record {
  each = λ j. elim (ℕ_discrete i j) [
    | yes q ↦
        subst
          (λ x.
            Inv (suc n) (record { batch = update p.store i c.batch x; handles = pointing x hs }))
          q (rw (update_self p.store i c.batch, ← e) w)
    | no q ↦ rw (update_other p.store i j c.batch q, f j q) (later n (client p j) (v.each j))
  ];
}

decrement_ok :
    (n : ℕ) (c : Client) (e : Error)
    → Inv n c
    → 0 < c.handles
    → decrement_processing_count c.batch ≢ err e
unfolding decrement_processing_count
decrement_ok n c e v h q = ground arith

decremented :
    (c : Client) (o : Outcome (Unit {0}))
    → 0 < c.handles
    → decrement_processing_count c.batch ≡ ok o
    → after c (Calls.step c Call.release_handle)
      ≡ record { batch = o.batch; handles = c.handles - 1 }
unfolding Calls.step
decremented c o h e = ground arith

-- A handle can be released without an exception, and its batch then counts one less.
release_lem :
    (n : ℕ) (c : Client)
    → suc n < word_size
    → Inv n c
    → 0 < c.handles
    → (o : Outcome (Unit {0})) × (decrement_processing_count c.batch ≡ ok o)
      × Inv (suc n) (record { batch = o.batch; handles = c.handles - 1 })
release_lem n c w v h = elim (Result-cases (decrement_processing_count c.batch)) [
  | inl (o, e) ↦
      (o, e, subst (Inv (suc n)) (decremented c o h e) (step-Inv n c Call.release_handle w tt v))
  | inr (e, q) ↦ absurd (decrement_ok n c e v h q)
]

-- Where a handle is released and then gone from the variables.
gone-InvAll :
    (n : ℕ) (p : Program) (h : Option ℕ) (hs : List (Option ℕ))
    → suc n < word_size
    → InvAll n p
    → ((j : ℕ) → pointing j hs + points_to j h ≡ pointing j p.handles)
    → (store : ℕ → DataBatch) × (release p.store h ≡ ok (store, none))
      × InvAll (suc n) (record { store = store; handles = hs })
unfolding release
gone-InvAll n p none hs w v f = (
  p.store,
  refl,
  record {
    each = λ j.
        subst (λ x. Inv (suc n) (record { batch = p.store j; handles = x })) (omega (arith, f j))
          (later n (client p j) (v.each j));
  },
)
gone-InvAll n p (some i) hs w v f =
    let (o, e, k) = release_lem n (client p i) w (v.each i) (ground (arith, f i)) in
    (
      update p.store i o.batch,
      rw e refl,
      changed-InvAll n p i (record { batch = o.batch; handles = pointing i p.handles - 1 }) hs v k
          (ground (arith, f i)) (λ j q. ground (arith, f j)),
    )

call-InvAll :
    (n : ℕ) (p : Program) (i : ℕ) (k : Call)
    → suc n < word_size
    → IsProperMethod (p.store i) k
    → InvAll n p
    → let c = called (p.store i) k in
      InvAll
        (suc n)
        (record { store = update p.store i c.batch; handles = keep i c.handles p.handles })
call-InvAll n p i k w m v =
    let c = called (p.store i) k in
    let count = pointing i p.handles in
    changed-InvAll n p i (record { batch = c.batch; handles = count + c.handles })
      (keep i c.handles p.handles) v
      (subst (Inv (suc n)) (called_shift (p.store i) count k m)
        (step-Inv n (client p i) k w (IsProper-of_method (p.store i) count k m) (v.each i)))
      (ground (arith, pointing-keep i i c.handles p.handles))
      (λ j q. ground (arith, pointing-keep i j c.handles p.handles))

later-InvAll : (n : ℕ) (p : Program) → InvAll n p → InvAll (suc n) p
later-InvAll n p v = record { each = λ i. later n (client p i) (v.each i) }

same-InvAll :
    (n : ℕ) (p : Program) (hs : List (Option ℕ))
    → InvAll n p
    → ((j : ℕ) → pointing j hs ≡ pointing j p.handles)
    → InvAll (suc n) (record p { handles = hs })
same-InvAll n p hs v f = record { each = λ j. rw (f j) (later n (client p j) (v.each j)) }

get_elem?-set_ne :
    (xs : List (Option ℕ)) (v w : ℕ) (h : Option ℕ)
    → v ≢ w
    → get_elem? (set xs v h) w ≡ get_elem? xs w
get_elem?-set_ne [] v w h q = refl
get_elem?-set_ne (x ∷ xs) zero zero h q = absurd (q refl)
get_elem?-set_ne (x ∷ xs) zero (suc w) h q = refl
get_elem?-set_ne (x ∷ xs) (suc v) zero h q = refl
get_elem?-set_ne (x ∷ xs) (suc v) (suc w) h q = get_elem?-set_ne xs v w h (λ e. q (ap suc e))

-- What a call does: it does not throw, and the counts are right afterwards.
abbrev Succeeds : ℕ → Program → HandleCall → Type 0
Succeeds n p c = (p' : Program) × (step p c ≡ ok p') × InvAll n p'

releases-Succeeds :
    (n : ℕ) (p : Program) (v : ℕ) → suc n < word_size → InvAll n p → Succeeds (suc n) p (releases v)
unfolding step
releases-Succeeds n p v w i = elim (Option-cases (get_elem? p.handles v)) [
  | inl e ↦ (p, rw (e, step) refl, later-InvAll n p i)
  | inr (h, e) ↦
      let hs = set p.handles v none in
      let (store, r, k) =
        gone-InvAll n p h hs w i
          (λ j. omega (arith, sum_of-set (points_to j) p.handles v h none e)) in
      (record { store = store; handles = hs }, rw (e, step, r) refl, k)
]

destroys-Succeeds :
    (n : ℕ) (p : Program) (v : ℕ) → suc n < word_size → InvAll n p → Succeeds (suc n) p (destroys v)
unfolding step
destroys-Succeeds n p v w i = elim (Option-cases (get_elem? p.handles v)) [
  | inl e ↦ (p, rw (e, step) refl, later-InvAll n p i)
  | inr (h, e) ↦
      let hs = erase_at p.handles v in
      let (store, r, k) =
        gone-InvAll n p h hs w i
          (λ j. omega (arith, sum_of-erase_at (points_to j) p.handles v h e)) in
      (record { store = store; handles = hs }, rw (e, step, r) refl, k)
]

moves-Succeeds : (n : ℕ) (p : Program) (v : ℕ) → InvAll n p → Succeeds (suc n) p (moves v)
unfolding step move
moves-Succeeds n p v i = elim (Option-cases (get_elem? p.handles v)) [
  | inl e ↦ (p, rw (e, step) refl, later-InvAll n p i)
  | inr (h, e) ↦
      let hs = h ∷ set p.handles v none in
      (
        record p { handles = hs },
        rw (e, step) refl,
        same-InvAll n p hs i (λ j. omega (arith, sum_of-set (points_to j) p.handles v h none e)),
      )
]

assigned :
    (hs : List (Option ℕ)) (v w j : ℕ) (this other : Option ℕ)
    → v ≢ w
    → get_elem? hs v ≡ some this
    → get_elem? hs w ≡ some other
    → pointing j (set (set hs v other) w none) + points_to j this ≡ pointing j hs
assigned hs v w j this other q e f = omega (
  arith,
  sum_of-set (points_to j) hs v this other e,
  sum_of-set (points_to j) (set hs v other) w other none (get_elem?-set_ne hs v w other q ∙ f),
)

assigns-Succeeds :
    (n : ℕ) (p : Program) (v u : ℕ)
    → suc n < word_size
    → InvAll n p
    → Succeeds (suc n) p (assigns v u)
unfolding step assign
assigns-Succeeds n p v u w i = elim (Option-cases (get_elem? p.handles v)) [
  | inl e ↦ (p, rw (e, step) refl, later-InvAll n p i)
  | inr (this, e) ↦ elim (Option-cases (get_elem? p.handles u)) [
    | inl f ↦ (p, rw (e, f, step) refl, later-InvAll n p i)
    | inr (other, f) ↦ elim (Bool-cases (v == u)) [
      | inl same ↦ (p, rw (e, f, same, step) refl, later-InvAll n p i)
      | inr differ ↦
          let hs = set (set p.handles v other) u none in
          let (store, r, k) =
            gone-InvAll n p this hs w i
              (λ j. assigned p.handles v u j this other (λ q. ground arith) e f) in
          (record { store = store; handles = hs }, rw (e, f, differ, step, r) refl, k)
    ]
  ]
]

-- Every call of a program succeeds, and keeps the counts right.
step-Succeeds :
    (n : ℕ) (p : Program) (c : HandleCall)
    → suc n < word_size
    → IsProperCall p c
    → InvAll n p
    → Succeeds (suc n) p c
unfolding step
step-Succeeds n p (calls i k) w m v = (
  record {
    store = update p.store i (called (p.store i) k).batch;
    handles = keep i (called (p.store i) k).handles p.handles;
  },
  refl,
  call-InvAll n p i k w m v,
)
step-Succeeds n p declares w m v = (
  record p { handles = none ∷ p.handles },
  refl,
  same-InvAll n p (none ∷ p.handles) v (λ j. omega arith),
)
step-Succeeds n p (moves x) w m v = moves-Succeeds n p x v
step-Succeeds n p (releases x) w m v = releases-Succeeds n p x w v
step-Succeeds n p (destroys x) w m v = destroys-Succeeds n p x w v
step-Succeeds n p (assigns x y) w m v = assigns-Succeeds n p x y w v

abbrev pub IsProperRun : Program → List HandleCall → Type 0
IsProperRun p [] = Unit
IsProperRun p (c ∷ cs) = IsProperCall p c × ((p' : Program) → step p c ≡ ok p' → IsProperRun p' cs)

run_succeeds :
    (n : ℕ) (p : Program) (cs : List HandleCall)
    → n + length cs < word_size
    → IsProperRun p cs
    → InvAll n p
    → (p' : Program) × (run p cs ≡ ok p') × InvAll (n + length cs) p'
unfolding run
run_succeeds n p [] w m v = (p, refl, rw add-zero v)
run_succeeds n p (c ∷ cs) w m v =
    let (q, e, k) = step-Succeeds n p c (omega arith) m.0 v in
    let (p', f, k') = run_succeeds (suc n) q cs (omega arith) (m.1 q e) k in
    (p', rw (e, run) f, rw (add-suc, ← suc-add) k')

-- New batches, and no variable.
abbrev pub new_program : (ℕ → ℕ) → (ℕ → Option DataRepresentation) → Program
new_program ids reps = record { store = λ i. data_batch (ids i) (reps i); handles = [] }

-- After any proper history of fewer than 2^64 calls on new batches, in which handles are moved, assigned, released and
-- destroyed as the program likes, no destructor, `release` or assignment has thrown; for every batch the processing
-- count is the number of variables that point to it, and its state is `processing` exactly if there is one.
pub handles_are_counted :
    (ids : ℕ → ℕ) (reps : ℕ → Option DataRepresentation) (cs : List HandleCall)
    → length cs < word_size
    → IsProperRun (new_program ids reps) cs
    → (p : Program) × (run (new_program ids reps) cs ≡ ok p)
      × ((i : ℕ)
          → ((p.store i).processing_count ≡ pointing i p.handles)
            × (((p.store i).state ≡ processing) ↔ (0 < pointing i p.handles)))
handles_are_counted ids reps cs w m =
    let (p, e, v) =
      run_succeeds 0 (new_program ids reps) cs (omega arith) m
        (record { each = λ i. init-Inv (ids i) (reps i) }) in
    (
      p,
      e,
      λ i.
          let x = v.each i in
          (
            x.counted,
            (λ s. omega (arith, x.busy s, x.counted), λ h. x.locked (omega (arith, x.counted))),
          ),
    )
