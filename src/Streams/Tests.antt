-- ===== src/Streams/Tests.antt =====
-- The theorems at a pool of two streams.
use cu_cascade.Base.{◌≤◌, ℕ, ◌≡◌, refl, List, [], ◌∷◌, All, none, ok, ◌<◌}
use cu_cascade.Streams.{
  StreamPool, block, grow, acquires, resets, moves, drops, assigns, run, exclusive_stream_pool,
  acquire_stream, release_stream, size, Call,
}
use cu_cascade.Streams.Sleeping.{
  Turn, turns, turn, enter, resume, release_and_wake, nobody_asleep, no_lost_wakeup,
}
use cu_cascade.Streams.Ownership.{places, created_by, users_of, IsWhole, streams_are_exclusive}
use cu_cascade.Streams.Starving.{dropped_streams_starve, borrow_and_drop}

abbrev pool : StreamPool
pool = record { streams = 1 ∷ 0 ∷ []; next_stream = 2 }

abbrev calls : List Call
calls =
    acquires block ∷ acquires grow ∷ moves 0 ∷ assigns 2 1 ∷ acquires grow ∷ drops 0 ∷ resets 1 ∷ []

two_streams : exclusive_stream_pool 2 ≡ ok pool
unfolding exclusive_stream_pool
two_streams = refl

-- To assign over an object gives its stream back, so that no third one is created.
reassigned : (run (users_of pool) calls).pool ≡ record { streams = []; next_stream = 2 }
unfolding run
reassigned = refl

streams_are_exclusive_example :
    let u = run (users_of pool) calls in
    (0 < 2) × ((a : ℕ) → places a u ≡ created_by a u.pool.next_stream) × All IsWhole u.handles
streams_are_exclusive_example = streams_are_exclusive 2 calls two_streams

dropped_streams_starve_example :
    let u = run (run (users_of pool) (borrow_and_drop 2)) (acquires block ∷ resets 0 ∷ []) in
    acquire_stream [] u.pool block ≡ (u.pool, none)
dropped_streams_starve_example =
    dropped_streams_starve 2 (acquires block ∷ resets 0 ∷ []) two_streams (tt, (tt, tt))

-- Two streams are taken, two threads sleep, and one stream comes back: one of the two is woken, and another
-- thread takes the stream first, so that both sleep again.
abbrev waits_for_one : List Turn
waits_for_one =
    Turn.acquires block
    ∷ Turn.acquires block
    ∷ Turn.acquires block
    ∷ Turn.acquires block
    ∷ Turn.releases 0
    ∷ Turn.acquires grow
    ∷ Turn.resumes
    ∷ []

both_sleep :
    let t = turns (nobody_asleep pool) waits_for_one in
    (t.asleep ≡ 2) × (t.woken ≡ 0) × (t.pool.streams ≡ [])
unfolding turns turn enter resume release_and_wake acquire_stream release_stream
both_sleep = (refl, refl, refl)

no_lost_wakeup_example :
    let t = turns (nobody_asleep pool) waits_for_one in
    (0 < t.asleep → size t.pool ≤ t.woken) × (t.woken ≡ 0 → 0 < t.asleep → t.pool.streams ≡ [])
no_lost_wakeup_example = no_lost_wakeup pool waits_for_one
