-- ===== src/Streams/Starving.antt =====
-- When a stream comes back to the pool, and when it does not.
use cu_cascade.Base.{
  ℕ, zero, suc, ◌≡◌, refl, sym, ap, ◌+◌, inl, inr, ◌∙◌, none, some, List, [], ◌∷◌, ◌++◌, get_elem?,
  set, replicate, All, All-erase_at, All-get_elem?, length, arith, Option-cases, Bool-cases, ◌==◌,
  ok,
}
use mathlib.Core.Path.{subst}
use cu_cascade.Streams.{
  StreamPool, BorrowedStream, AcquirePolicy, grow, block, emplace_streams, exclusive_stream_pool,
  acquire_stream, release_stream, reset, move, assign, lend, moved_from, Users, Call, acquires,
  resets, moves, drops, assigns, step, run,
}
use cu_cascade.Streams.Ownership.{All-set, users, users_of}

-- Of a pool that has a stream, an acquisition that is reset at once leaves the pool as it was, and without an effect on it the
-- object can be reset again.
pub acquire-reset :
    (p : StreamPool) (policy : AcquirePolicy) {s : ℕ} {rest : List ℕ}
    → p.streams ≡ s ∷ rest
    → let (p', b) = acquire_stream [] p policy in
      (b ≡ some (lend s))
      × (p'.streams ≡ rest)
      × (reset p' (lend s) ≡ (p, moved_from))
      × (reset p moved_from ≡ (p, moved_from))
unfolding acquire_stream reset
acquire-reset p grow e = rw e (refl, refl, ground arith, refl)
acquire-reset p block e = rw e (refl, refl, ground arith, refl)

-- A blocked acquisition takes the stream that another thread releases, after any number of spurious wake-ups, and leaves
-- the pool empty.
pub release_ends_wait :
    (k s next : ℕ) (ws : List (StreamPool → StreamPool))
    → let p : StreamPool = record { streams = []; next_stream = next } in
      acquire_stream (replicate k (λ q. q) ++ (λ q. release_stream q s) ∷ ws) p block
      ≡ (p, some (lend s))
unfolding acquire_stream release_stream
release_ends_wait zero s next [] = refl
release_ends_wait zero s next (w ∷ ws) = refl
release_ends_wait (suc k) s next ws = release_ends_wait k s next ws

abbrev IsMovedFrom : BorrowedStream → Type 0
IsMovedFrom b = b ≡ moved_from

abbrev pub IsBlocking : Call → Type 0
IsBlocking (acquires grow) = ⊥
IsBlocking (acquires block) = Unit
IsBlocking (resets i) = Unit
IsBlocking (moves i) = Unit
IsBlocking (drops i) = Unit
IsBlocking (assigns i j) = Unit

-- No object has a stream, and the pool has none.
record IsStarved (u : Users) : Type 0 where
  no_stream : u.pool.streams ≡ []
  no_borrower : All IsMovedFrom u.handles

starved_at :
    (u : Users) (i : ℕ) (b : BorrowedStream)
    → IsStarved u
    → get_elem? u.handles i ≡ some b
    → get_elem? u.handles i ≡ some moved_from
starved_at u i b h e = e ∙ ap some (All-get_elem? IsMovedFrom u.handles i b h.no_borrower e)

starved_set : (u : Users) (i : ℕ) → IsStarved u → All IsMovedFrom (set u.handles i moved_from)
starved_set u i h = All-set IsMovedFrom u.handles i moved_from h.no_borrower refl

acquire-IsStarved :
    (streams : List ℕ) (next : ℕ) (hs : List BorrowedStream) (d : List ℕ)
    → IsStarved (users streams next hs d)
    → IsStarved (step (users streams next hs d) (acquires block))
unfolding step acquire_stream
acquire-IsStarved [] next hs d h = h
acquire-IsStarved (s ∷ ss) next hs d h = absurd (let e = h.no_stream in cc)

-- No call that blocks changes that.
step-IsStarved : (u : Users) (c : Call) → IsBlocking c → IsStarved u → IsStarved (step u c)
unfolding step reset move assign
step-IsStarved u (acquires block) k h =
    acquire-IsStarved u.pool.streams u.pool.next_stream u.handles u.destroyed h
step-IsStarved u (acquires grow) k h = absurd k
step-IsStarved u (resets i) k h = elim (Option-cases (get_elem? u.handles i)) [
  | inl e ↦ rw (e, step) h
  | inr (b, e) ↦
      rw (starved_at u i b h e, step)
        (record { no_stream = h.no_stream; no_borrower = starved_set u i h })
]
step-IsStarved u (moves i) k h = elim (Option-cases (get_elem? u.handles i)) [
  | inl e ↦ rw (e, step) h
  | inr (b, e) ↦
      rw (starved_at u i b h e, step)
        (record { no_stream = h.no_stream; no_borrower = (refl, starved_set u i h) })
]
step-IsStarved u (drops i) k h = elim (Option-cases (get_elem? u.handles i)) [
  | inl e ↦ rw (e, step) h
  | inr (b, e) ↦
      rw (starved_at u i b h e, step)
        (record {
          no_stream = h.no_stream;
          no_borrower = All-erase_at IsMovedFrom u.handles i h.no_borrower;
        })
]
step-IsStarved u (assigns i j) k h = elim (Option-cases (get_elem? u.handles i)) [
  | inl e ↦ rw (e, step) h
  | inr (b, e) ↦ elim (Option-cases (get_elem? u.handles j)) [
    | inl f ↦ rw (starved_at u i b h e, f, step) h
    | inr (other, f) ↦ elim (Bool-cases (i == j)) [
      | inl same ↦ rw (starved_at u i b h e, starved_at u j other h f, same, step) h
      | inr differ ↦
          rw (starved_at u i b h e, starved_at u j other h f, differ, step)
            (record {
              no_stream = h.no_stream;
              no_borrower =
                  All-set IsMovedFrom (set u.handles i moved_from) j moved_from (starved_set u i h)
                    refl;
            })
    ]
  ]
]

run-IsStarved :
    (u : Users) (cs : List Call) → All IsBlocking cs → IsStarved u → IsStarved (run u cs)
unfolding run
run-IsStarved u [] k h = h
run-IsStarved u (c ∷ cs) k h = run-IsStarved (step u c) cs k.1 (step-IsStarved u c k.0 h)

empty_sleeps :
    (p : StreamPool) (streams : List ℕ)
    → p.streams ≡ streams
    → streams ≡ []
    → acquire_stream [] p block ≡ (p, none)
unfolding acquire_stream
empty_sleeps p streams e f = ground arith

-- To take a stream n times, and to let the object go out of scope each time.
abbrev pub borrow_and_drop : ℕ → List Call
borrow_and_drop zero = []
borrow_and_drop (suc n) = acquires block ∷ drops 0 ∷ borrow_and_drop n

drained :
    (streams : List ℕ) (next : ℕ) (d : List ℕ)
    → IsStarved (run (users streams next [] d) (borrow_and_drop (length streams)))
unfolding run step acquire_stream
drained [] next d = record { no_stream = refl; no_borrower = tt }
drained (s ∷ streams) next d = drained streams next (s ∷ d)

length-emplace_streams :
    (n : ℕ) (p : StreamPool) → length (emplace_streams n p).streams ≡ n + length p.streams
unfolding emplace_streams
length-emplace_streams zero p = omega arith
length-emplace_streams (suc n) p = omega (
  arith,
  length-emplace_streams n
      (record { streams = p.next_stream ∷ p.streams; next_stream = suc p.next_stream }),
)

-- A new pool of n streams lends each of them once if the objects go out of scope without a `reset`: after n
-- acquisitions of that kind, and any further calls but acquisitions that may grow the pool, an
-- acquisition that blocks sleeps.
pub dropped_streams_starve :
    (n : ℕ) {p : StreamPool} (cs : List Call)
    → exclusive_stream_pool n ≡ ok p
    → All IsBlocking cs
    → let u = run (run (users_of p) (borrow_and_drop n)) cs in
      acquire_stream [] u.pool block ≡ (u.pool, none)
unfolding exclusive_stream_pool
dropped_streams_starve zero cs e k = absurd (cc)
dropped_streams_starve (suc n) {p} cs e k =
    let start : StreamPool = record { streams = []; next_stream = 0 } in
    let q : emplace_streams (suc n) start ≡ p = ground arith in
    let l : length p.streams ≡ suc n =
      ap (λ (x : StreamPool). length x.streams) (sym q)
      ∙ length-emplace_streams (suc n) start
      ∙ omega arith in
    let d : IsStarved (run (users_of p) (borrow_and_drop (suc n))) =
      subst (λ m. IsStarved (run (users_of p) (borrow_and_drop m))) l
        (drained p.streams p.next_stream []) in
    let u = run (run (users_of p) (borrow_and_drop (suc n))) cs in
    let h = run-IsStarved (run (users_of p) (borrow_and_drop (suc n))) cs k d in
    empty_sleeps u.pool u.pool.streams refl h.no_stream
