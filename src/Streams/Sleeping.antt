-- ===== src/Streams/Sleeping.antt =====
-- The threads that sleep in `acquire_stream`, and whom `release_stream` of src/memory/stream_pool.cpp wakes: one of those
-- that sleep. A thread that is woken has to get the mutex before it tests whether there is a stream, and another
-- thread can take the stream first. No thread wakes of itself.
use cu_cascade.Base.{
  ℕ, zero, suc, ◌≤◌, ◌<◌, ◌≡◌, refl, Option, none, some, List, [], ◌∷◌, length, arith,
}
use cu_cascade.Streams.{
  StreamPool, BorrowedStream, AcquirePolicy, grow, block, acquire_stream, release_stream, size,
}

-- `woken` threads were notified and have not tested since.
pub record Sleepers : Type 0 where
  pub pool : StreamPool
  pub asleep : ℕ
  pub woken : ℕ

-- A thread has tested: it goes on with a stream, or sleeps.
abbrev pub tested : Sleepers → StreamPool × Option BorrowedStream → Sleepers
tested t (p, none) = record t { pool = p; asleep = suc t.asleep }
tested t (p, some b) = record t { pool = p }

-- A thread calls `acquire_stream`.
unfoldable pub enter : Sleepers → AcquirePolicy → Sleepers
unfolding acquire_stream
enter t policy = tested t (acquire_stream [] t.pool policy)

-- One of so many sleeping threads is notified, if there is one.
abbrev pub notify_one : Sleepers → ℕ → Sleepers
notify_one t zero = t
notify_one t (suc n) = record t { asleep = n; woken = suc t.woken }

unfoldable pub release_and_wake : Sleepers → ℕ → Sleepers
unfolding release_stream
release_and_wake t s = notify_one (record t { pool = release_stream t.pool s }) t.asleep

-- One of so many threads that were woken tests again, if there is one.
unfoldable pub resume : Sleepers → ℕ → Sleepers
unfolding acquire_stream
resume t zero = t
resume t (suc n) = tested (record t { woken = n }) (acquire_stream [] t.pool block)

pub data Turn : Type 0 where
  acquires : AcquirePolicy → Turn
  releases : ℕ → Turn
  resumes : Turn

unfoldable pub turn : Sleepers → Turn → Sleepers
unfolding enter release_and_wake resume
turn t (acquires policy) = enter t policy
turn t (releases s) = release_and_wake t s
turn t resumes = resume t t.woken

unfoldable pub turns : Sleepers → List Turn → Sleepers
turns t [] = t
turns t (x ∷ xs) = turns (turn t x) xs

-- Where a thread sleeps, for each stream of the pool another one is on its way.
abbrev IsServed : Sleepers → Type 0
IsServed t = 0 < t.asleep → length t.pool.streams ≤ t.woken

tested-IsServed :
    (streams : List ℕ) (next asleep woken : ℕ) (policy : AcquirePolicy)
    → (0 < asleep → length streams ≤ suc woken)
    → let p : StreamPool = record { streams = streams; next_stream = next } in
      IsServed
        (tested (record { pool = p; asleep = asleep; woken = woken }) (acquire_stream [] p policy))
unfolding acquire_stream
tested-IsServed [] next asleep woken grow h k = omega arith
tested-IsServed (s ∷ ss) next asleep woken grow h k = omega (arith, h k)
tested-IsServed [] next asleep woken block h k = omega arith
tested-IsServed (s ∷ ss) next asleep woken block h k = omega (arith, h k)

notified-IsServed :
    (t : Sleepers) (n : ℕ)
    → t.asleep ≡ n
    → (0 < n → length t.pool.streams ≤ suc t.woken)
    → IsServed (notify_one t n)
notified-IsServed t zero e h k = absurd (omega (arith, e))
notified-IsServed t (suc n) e h k = h (omega arith)

resumed-IsServed : (t : Sleepers) (n : ℕ) → t.woken ≡ n → IsServed t → IsServed (resume t n)
unfolding resume
resumed-IsServed t zero e h = h
resumed-IsServed t (suc n) e h =
    tested-IsServed t.pool.streams t.pool.next_stream t.asleep n block (λ k. omega (arith, h k, e))

turn-IsServed : (t : Sleepers) (x : Turn) → IsServed t → IsServed (turn t x)
unfolding turn enter release_and_wake release_stream
turn-IsServed t (acquires policy) h =
    tested-IsServed t.pool.streams t.pool.next_stream t.asleep t.woken policy
      (λ k. omega (arith, h k))
turn-IsServed t (releases s) h =
    notified-IsServed (record t { pool = release_stream t.pool s }) t.asleep refl
      (λ k. omega (arith, h k))
turn-IsServed t resumes h = resumed-IsServed t t.woken refl h

turns-IsServed : (t : Sleepers) (xs : List Turn) → IsServed t → IsServed (turns t xs)
unfolding turns
turns-IsServed t [] h = h
turns-IsServed t (x ∷ xs) h = turns-IsServed (turn t x) xs (turn-IsServed t x h)

-- The threads of a new pool: none sleeps.
abbrev pub nobody_asleep : StreamPool → Sleepers
nobody_asleep p = record { pool = p; asleep = 0; woken = 0 }

-- No wake-up is lost: whatever threads acquire and return streams, in any order, and whenever those that are woken go on,
-- while a thread sleeps at least as many are on their way as the pool has streams. So if all that were woken have gone
-- on, a thread sleeps only where the pool is empty.
pub no_lost_wakeup :
    (p : StreamPool) (xs : List Turn)
    → let t = turns (nobody_asleep p) xs in
      (0 < t.asleep → size t.pool ≤ t.woken) × (t.woken ≡ 0 → 0 < t.asleep → t.pool.streams ≡ [])
unfolding size
no_lost_wakeup p xs =
    let h = turns-IsServed (nobody_asleep p) xs (λ k. absurd (omega arith)) in
    (h, λ w k. empty (turns (nobody_asleep p) xs).pool.streams (omega (arith, h k, w)))
  where
    empty : (ss : List ℕ) → length ss ≤ 0 → ss ≡ []
    empty [] l = refl
    empty (s ∷ ss) l = absurd (omega arith)
