-- ===== src/Streams.antt =====
-- include/memory/stream_pool.hpp and src/memory/stream_pool.cpp. A CUDA stream is known by a number: the n-th
-- stream that CUDA creates is n. The head of the list is the back of the vector. The pool's methods run under its
-- mutex; a blocking `acquire_stream` takes the changes that the other threads make up to each of its wake-ups, and
-- is `none` while it still sleeps. `Users` is the client: its variables of type `borrowed_stream`, and the streams
-- that were destroyed.
pub mod Ownership
pub mod Starving
pub mod Sleeping
mod Tests
use cu_cascade.Base.{
  ℕ, zero, suc, Bool, true, false, Option, none, some, List, [], ◌∷◌, ◌++◌, length, get_elem?, set,
  erase_at, ◌==◌, if◌then◌else◌, Result, ok, err, logic_error,
}

pub record StreamPool : Type 0 where
  pub streams : List ℕ
  pub next_stream : ℕ

-- `release_fn` tells whether there is one; it is `release_stream` of the pool. A stream that was moved out is `none`.
pub record BorrowedStream : Type 0 where
  pub stream : Option ℕ
  pub release_fn : Bool

pub data AcquirePolicy : Type 0 where
  grow block : AcquirePolicy

-- The loop of the constructor.
unfoldable pub emplace_streams : ℕ → StreamPool → StreamPool
emplace_streams zero p = p
emplace_streams (suc i) p =
    emplace_streams i
      (record { streams = p.next_stream ∷ p.streams; next_stream = suc p.next_stream })

unfoldable pub exclusive_stream_pool : ℕ → Result StreamPool
unfolding emplace_streams
exclusive_stream_pool pool_size =
    if pool_size == 0
    then err logic_error
    else ok (emplace_streams pool_size (record { streams = []; next_stream = 0 }))

unfoldable pub size : StreamPool → ℕ
size p = length p.streams

-- The notification is a wake-up of the list that `acquire_stream` takes; Sleeping has it with the threads.
unfoldable pub release_stream : StreamPool → ℕ → StreamPool
release_stream p s = record p { streams = s ∷ p.streams }

abbrev pub lend : ℕ → BorrowedStream
lend s = record { stream = some s; release_fn = true }

-- The wait for a stream, and the stream from the back.
unfoldable pub take_back :
    List (StreamPool → StreamPool) → StreamPool → StreamPool × Option BorrowedStream
take_back [] p = elim p.streams [
  | [] ↦ (p, none)
  | s ∷ rest ↦ (record p { streams = rest }, some (lend s))
]
take_back (w ∷ ws) p = elim p.streams [
  | [] ↦ take_back ws (w p)
  | s ∷ rest ↦ (record p { streams = rest }, some (lend s))
]

unfoldable pub acquire_stream :
    List (StreamPool → StreamPool) → StreamPool → AcquirePolicy → StreamPool × Option BorrowedStream
unfolding take_back
acquire_stream waits p block = take_back waits p
acquire_stream waits p grow = elim p.streams [
  | [] ↦ (record p { next_stream = suc p.next_stream }, some (lend p.next_stream))
  | s ∷ rest ↦ (record p { streams = rest }, some (lend s))
]

abbrev pub moved_from : BorrowedStream
moved_from = record { stream = none; release_fn = false }

-- What `std::move(_stream)` leaves to `emplace_back`.
abbrev pub release_moved : StreamPool → Option ℕ → StreamPool
unfolding release_stream
release_moved p none = p
release_moved p (some s) = release_stream p s

unfoldable pub reset : StreamPool → BorrowedStream → StreamPool × BorrowedStream
unfolding release_moved
reset p b = if b.release_fn then (release_moved p b.stream, moved_from) else (p, b)

-- The move constructor: the new object, and what is left of the other.
unfoldable pub move : BorrowedStream → BorrowedStream × BorrowedStream
move other = (other, moved_from)

-- The move assignment of another object: the pool, this object, and the other.
unfoldable pub assign :
    StreamPool → BorrowedStream → BorrowedStream → StreamPool × BorrowedStream × BorrowedStream
unfolding reset
assign p b other = ((reset p b).0, other, moved_from)

-- The destructor of the member `_stream`, which is all that the destructor does.
abbrev pub destroy : BorrowedStream → List ℕ
destroy b = elim b.stream [ none ↦ [] | some s ↦ s ∷ [] ]

pub record Users : Type 0 where
  pub pool : StreamPool
  pub handles : List BorrowedStream
  pub destroyed : List ℕ

pub data Call : Type 0 where
  acquires : AcquirePolicy → Call
  resets moves drops : ℕ → Call
  assigns : ℕ → ℕ → Call

abbrev pub keep : List BorrowedStream → Option BorrowedStream → List BorrowedStream
keep hs none = hs
keep hs (some b) = b ∷ hs

abbrev pub reset_at : Users → ℕ → BorrowedStream → Users
unfolding reset
reset_at u i b = let (p, b') = reset u.pool b in record u { pool = p; handles = set u.handles i b' }

abbrev pub assign_at : Users → ℕ → ℕ → BorrowedStream → BorrowedStream → Users
unfolding assign
assign_at u i j b other =
    let (p, b', other') = assign u.pool b other in
    record u { pool = p; handles = set (set u.handles i b') j other' }

-- A call on a variable that is not there changes nothing. To assign an object to itself does nothing.
unfoldable pub step : Users → Call → Users
unfolding acquire_stream reset move assign
step u (acquires policy) =
    let (p, b) = acquire_stream [] u.pool policy in
    record u { pool = p; handles = keep u.handles b }
step u (resets i) = elim (get_elem? u.handles i) [ none ↦ u | some b ↦ reset_at u i b ]
step u (moves i) = elim (get_elem? u.handles i) [
  | none ↦ u
  | some b ↦ record u { handles = (move b).0 ∷ set u.handles i (move b).1 }
]
step u (drops i) = elim (get_elem? u.handles i) [
  | none ↦ u
  | some b ↦ record u { handles = erase_at u.handles i; destroyed = destroy b ++ u.destroyed }
]
step u (assigns i j) = elim (get_elem? u.handles i) [
  | none ↦ u
  | some b ↦ elim (get_elem? u.handles j) [
    | none ↦ u
    | some other ↦ if i == j then u else assign_at u i j b other
  ]
]

unfoldable pub run : Users → List Call → Users
unfolding step
run u [] = u
run u (c ∷ cs) = run (step u c) cs
