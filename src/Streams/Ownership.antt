-- ===== src/Streams/Ownership.antt =====
-- Who has a stream: the pool, one borrower, or nobody.
use cu_cascade.Base.{
  ℕ, zero, suc, ◌+◌, ◌<◌, ◌≡◌, refl, ◌∙◌, ap, inl, inr, ◌≢◌, Bool, true, false, Option, none, some,
  List, [], ◌∷◌, ◌++◌, get_elem?, set, erase_at, All, All-erase_at, All-get_elem?, sum_of,
  sum_of-set, sum_of-erase_at, ltb, ◌==◌, if◌then◌else◌, arith, Bool-cases, ok, Option-cases,
}
use mathlib.Core.Path.{subst}
use cu_cascade.Streams.{
  StreamPool, BorrowedStream, AcquirePolicy, grow, block, emplace_streams, exclusive_stream_pool,
  reset, assign, move, lend, moved_from, destroy, Users, Call, acquires, resets, moves, drops,
  assigns, step, run, reset_at, assign_at,
}

-- How often a stream is in a list, and whether an object has it.
abbrev pub occurs : ℕ → List ℕ → ℕ
occurs a = sum_of (λ s. if s == a then 1 else 0)

abbrev pub holds : ℕ → BorrowedStream → ℕ
holds a b = elim b.stream [ none ↦ 0 | some s ↦ if s == a then 1 else 0 ]

abbrev pub places : ℕ → Users → ℕ
places a u = occurs a u.pool.streams + sum_of (holds a) u.handles + occurs a u.destroyed

abbrev pub is_some : Option ℕ → Bool
is_some none = false
is_some (some s) = true

-- An object has a stream exactly if it has a function to release it.
abbrev pub IsWhole : BorrowedStream → Type 0
IsWhole b = b.release_fn ≡ is_some b.stream

abbrev pub created_by : ℕ → ℕ → ℕ
created_by a n = if ltb a n then 1 else 0

-- Every stream that was created is in one place, and the others are nowhere.
pub record Inv (u : Users) : Type 0 where
  pub once : (a : ℕ) → places a u ≡ created_by a u.pool.next_stream
  pub whole : All IsWhole u.handles

pub All-set :
    (P : BorrowedStream → Type 0) (xs : List BorrowedStream) (i : ℕ) (b : BorrowedStream)
    → All P xs
    → P b
    → All P (set xs i b)
All-set P [] i b h p = tt
All-set P (x ∷ xs) zero b h p = (p, h.1)
All-set P (x ∷ xs) (suc i) b h p = (h.0, All-set P xs i b h.1 p)

abbrev pub users : List ℕ → ℕ → List BorrowedStream → List ℕ → Users
users streams next hs d = record {
  pool = record { streams = streams; next_stream = next };
  handles = hs;
  destroyed = d;
}

acquire-Inv :
    (streams : List ℕ) (next : ℕ) (hs : List BorrowedStream) (d : List ℕ) (policy : AcquirePolicy)
    → Inv (users streams next hs d)
    → Inv (step (users streams next hs d) (acquires policy))
unfolding step
acquire-Inv [] next hs d block h = h
acquire-Inv [] next hs d grow h = record {
  once = λ a. ground (arith, h.once a);
  whole = (refl, h.whole);
}
acquire-Inv (s ∷ rest) next hs d grow h = record {
  once = λ a. omega (arith, h.once a);
  whole = (refl, h.whole);
}
acquire-Inv (s ∷ rest) next hs d block h = record {
  once = λ a. omega (arith, h.once a);
  whole = (refl, h.whole);
}

reset-Inv :
    (u : Users) (i : ℕ) (stream : Option ℕ) (release_fn : Bool)
    → let b : BorrowedStream = record { stream = stream; release_fn = release_fn } in
      get_elem? u.handles i ≡ some b → IsWhole b → Inv u → Inv (reset_at u i b)
unfolding reset
reset-Inv u i (some s) true e w h = record {
  once = λ a. ground (arith, h.once a, sum_of-set (holds a) u.handles i (lend s) moved_from e);
  whole = All-set IsWhole u.handles i moved_from h.whole refl;
}
reset-Inv u i none true e w h = absurd (cc)
reset-Inv u i (some s) false e w h = absurd (cc)
reset-Inv u i none false e w h = record {
  once = λ a. ground (arith, h.once a, sum_of-set (holds a) u.handles i moved_from moved_from e);
  whole = All-set IsWhole u.handles i moved_from h.whole refl;
}

move-Inv :
    (u : Users) (i : ℕ) (b : BorrowedStream)
    → get_elem? u.handles i ≡ some b
    → Inv u
    → Inv (record u { handles = b ∷ set u.handles i moved_from })
move-Inv u i b e h = record {
  once = λ a. omega (arith, h.once a, sum_of-set (holds a) u.handles i b moved_from e);
  whole = (
    All-get_elem? IsWhole u.handles i b h.whole e,
    All-set IsWhole u.handles i moved_from h.whole refl,
  );
}

drop-Inv :
    (u : Users) (i : ℕ) (b : BorrowedStream)
    → get_elem? u.handles i ≡ some b
    → Inv u
    → Inv (record u { handles = erase_at u.handles i; destroyed = destroy b ++ u.destroyed })
drop-Inv u i b e h = record {
  once = λ a. ground (arith, h.once a, sum_of-erase_at (holds a) u.handles i b e);
  whole = All-erase_at IsWhole u.handles i h.whole;
}

get_elem?-set_ne :
    (xs : List BorrowedStream) (i j : ℕ) (b : BorrowedStream)
    → i ≢ j
    → get_elem? (set xs i b) j ≡ get_elem? xs j
get_elem?-set_ne [] i j b h = refl
get_elem?-set_ne (x ∷ xs) zero zero b h = absurd (h refl)
get_elem?-set_ne (x ∷ xs) zero (suc j) b h = refl
get_elem?-set_ne (x ∷ xs) (suc i) zero b h = refl
get_elem?-set_ne (x ∷ xs) (suc i) (suc j) b h = get_elem?-set_ne xs i j b (λ e. h (ap suc e))

assign-Inv :
    (u : Users) (i j : ℕ) (stream : Option ℕ) (release_fn : Bool) (other : BorrowedStream)
    → let b : BorrowedStream = record { stream = stream; release_fn = release_fn } in
      i ≢ j
      → get_elem? u.handles i ≡ some b
      → get_elem? u.handles j ≡ some other
      → IsWhole b
      → Inv u
      → Inv (assign_at u i j b other)
unfolding reset assign
assign-Inv u i j (some s) true other ne e f w h =
    let f' = get_elem?-set_ne u.handles i j other ne ∙ f in
    record {
      once = λ a. ground (
        arith,
        h.once a,
        sum_of-set (holds a) u.handles i (lend s) other e,
        sum_of-set (holds a) (set u.handles i other) j other moved_from f',
      );
      whole =
          All-set IsWhole (set u.handles i other) j moved_from
            (All-set IsWhole u.handles i other h.whole
              (All-get_elem? IsWhole u.handles j other h.whole f))
            refl;
    }
assign-Inv u i j none true other ne e f w h = absurd (cc)
assign-Inv u i j (some s) false other ne e f w h = absurd (cc)
assign-Inv u i j none false other ne e f w h =
    let f' = get_elem?-set_ne u.handles i j other ne ∙ f in
    record {
      once = λ a. ground (
        arith,
        h.once a,
        sum_of-set (holds a) u.handles i moved_from other e,
        sum_of-set (holds a) (set u.handles i other) j other moved_from f',
      );
      whole =
          All-set IsWhole (set u.handles i other) j moved_from
            (All-set IsWhole u.handles i other h.whole
              (All-get_elem? IsWhole u.handles j other h.whole f))
            refl;
    }

IsWhole-at :
    (u : Users) (i : ℕ) (b : BorrowedStream) → Inv u → get_elem? u.handles i ≡ some b → IsWhole b
IsWhole-at u i b h e = All-get_elem? IsWhole u.handles i b h.whole e

-- Every call keeps each stream in one place.
pub step-Inv : (u : Users) (c : Call) → Inv u → Inv (step u c)
unfolding step move
step-Inv u (acquires policy) h =
    acquire-Inv u.pool.streams u.pool.next_stream u.handles u.destroyed policy h
step-Inv u (resets i) h = elim (Option-cases (get_elem? u.handles i)) [
  | inl e ↦ rw (e, step) h
  | inr (b, e) ↦ rw (e, step) (reset-Inv u i b.stream b.release_fn e (IsWhole-at u i b h e) h)
]
step-Inv u (moves i) h = elim (Option-cases (get_elem? u.handles i)) [
  | inl e ↦ rw (e, step) h
  | inr (b, e) ↦ rw (e, step) (move-Inv u i b e h)
]
step-Inv u (drops i) h = elim (Option-cases (get_elem? u.handles i)) [
  | inl e ↦ rw (e, step) h
  | inr (b, e) ↦ rw (e, step) (drop-Inv u i b e h)
]
step-Inv u (assigns i j) h = elim (Option-cases (get_elem? u.handles i)) [
  | inl e ↦ rw (e, step) h
  | inr (b, e) ↦ elim (Option-cases (get_elem? u.handles j)) [
    | inl f ↦ rw (e, f, step) h
    | inr (other, f) ↦ elim (Bool-cases (i == j)) [
      | inl same ↦ rw (e, f, same, step) h
      | inr differ ↦
          rw (e, f, differ, step)
            (assign-Inv u i j b.stream b.release_fn other (λ (q : i ≡ j). ground arith) e f
              (IsWhole-at u i b h e) h)
    ]
  ]
]

run-Inv : (u : Users) (cs : List Call) → Inv u → Inv (run u cs)
unfolding run
run-Inv u [] h = h
run-Inv u (c ∷ cs) h = run-Inv (step u c) cs (step-Inv u c h)

emplace_streams-Inv :
    (n : ℕ) (p : StreamPool)
    → Inv (users p.streams p.next_stream [] [])
    → Inv (users (emplace_streams n p).streams (emplace_streams n p).next_stream [] [])
unfolding emplace_streams
emplace_streams-Inv zero p h = h
emplace_streams-Inv (suc n) p h =
    emplace_streams-Inv n
      (record { streams = p.next_stream ∷ p.streams; next_stream = suc p.next_stream })
      (record { once = λ a. ground (arith, h.once a); whole = tt })

-- The users of a new pool.
abbrev pub users_of : StreamPool → Users
users_of p = users p.streams p.next_stream [] []

-- A pool of no streams is refused. After any history of calls on a new pool of n streams, every stream that was created is
-- in exactly one place, in the pool, with one borrower, or destroyed, and no other stream is anywhere;
-- and an object has a stream exactly if it still has the function that releases it.
pub streams_are_exclusive :
    (n : ℕ) {p : StreamPool} (cs : List Call)
    → exclusive_stream_pool n ≡ ok p
    → let u = run (users_of p) cs in
      (0 < n) × ((a : ℕ) → places a u ≡ created_by a u.pool.next_stream) × All IsWhole u.handles
unfolding exclusive_stream_pool
streams_are_exclusive zero cs e = absurd (cc)
streams_are_exclusive (suc n) {p} cs e =
    let start : StreamPool = record { streams = []; next_stream = 0 } in
    let fresh =
      emplace_streams-Inv (suc n) start (record { once = λ a. ground arith; whole = tt }) in
    let q : emplace_streams (suc n) start ≡ p = ground arith in
    let h = run-Inv (users_of p) cs (subst (λ q'. Inv (users_of q')) q fresh) in
    (omega arith, h.once, h.whole)
