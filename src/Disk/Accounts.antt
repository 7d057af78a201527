-- ===== src/Disk/Accounts.antt =====
-- The limiter and the arenas that its clients hold: the limiter's total is what the arenas hold.
use cu_cascade.Base.{
  ℕ, suc, ◌+◌, ◌-◌, ◌^◌, ◌≤◌, ◌<◌, ◌≡◌, refl, Option, none, some, List, [], ◌∷◌, arith,
  Option-cases, inl, inr, ◌∙◌, length, get_elem?, erase_at, sum_of, sum_of-erase_at,
  length-erase_at,
}
use cu_cascade.Base.Words.{add64, sub64, word_size}
use cu_cascade.Base.Int.{pos, to_i64}
use cu_cascade.Base.Text.{Text}
use cu_cascade.Batch.{MemorySpaceId}
use cu_cascade.Disk.{
  DiskAccessLimiter, DiskReservedArena, size_in_bytes, disk_access_limiter, get_available_memory,
  get_total_reserved_bytes, get_active_reservation_count, get_peak_reserved_bytes, reserve,
  reserve_upto, do_release_reservation,
}

pub record Client : Type 0 where
  pub limiter : DiskAccessLimiter
  pub arenas : List DiskReservedArena

pub data Call : Type 0 where
  reserves reserves_upto releases : ℕ → Call

abbrev hold : Client → DiskAccessLimiter × Option DiskReservedArena → Client
hold c (l, none) = record c { limiter = l }
hold c (l, some a) = record { limiter = l; arenas = a ∷ c.arenas }

-- To release the `i`-th arena, if there is one, is to destroy it.
unfoldable pub step : Client → Call → Client
step c (reserves n) = hold c (reserve c.limiter n)
step c (reserves_upto n) = record {
  limiter = (reserve_upto c.limiter n).0;
  arenas = (reserve_upto c.limiter n).1 ∷ c.arenas;
}
step c (releases i) = elim (get_elem? c.arenas i) [
  | none ↦ c
  | some a ↦ record { limiter = do_release_reservation c.limiter a; arenas = erase_at c.arenas i }
]

unfoldable pub run : Client → List Call → Client
run c [] = c
run c (k ∷ ks) = run (step c k) ks

abbrev pub bytes : DiskReservedArena → ℕ
bytes a = size_in_bytes a.size

pub record Inv (c : Client) : Type 0 where
  pub accounted : c.limiter.total_allocated_bytes ≡ sum_of bytes c.arenas
  pub limited : c.limiter.total_allocated_bytes ≤ c.limiter.memory_limit
  pub small : c.limiter.memory_limit < 2 ^ 63
  pub peaked : c.limiter.total_allocated_bytes ≤ c.limiter.peak_total_allocated_bytes
  pub counted : c.limiter.total_reservation_count ≡ length c.arenas
  pub few : length c.arenas < word_size

release-Inv :
    (c : Client) (i : ℕ) (a : DiskReservedArena)
    → get_elem? c.arenas i ≡ some a
    → Inv c
    → Inv (record { limiter = do_release_reservation c.limiter a; arenas = erase_at c.arenas i })
unfolding do_release_reservation sub64
release-Inv c i a e v =
    ground (arith, sum_of-erase_at {0} bytes c.arenas i a e, length-erase_at c.arenas i a e)

-- Every reservation and release keeps the limiter's total equal to the sizes of the live arenas, within
-- the reservation limit and the peak, and its count equal to their number, with a limit below 2^63 and
-- fewer than 2^64 arenas.
pub step-Inv : (c : Client) (k : Call) → suc (length c.arenas) < word_size → Inv c → Inv (step c k)
unfolding step reserve reserve_upto add64 to_i64
step-Inv c (reserves n) w v = ground arith
step-Inv c (reserves_upto n) w v = ground arith
step-Inv c (releases i) w v = elim (Option-cases (get_elem? c.arenas i)) [
  | inl e ↦ rw (e, step) v
  | inr (a, e) ↦ rw (e, step) (release-Inv c i a e v)
]

length-step : (c : Client) (k : Call) → length (step c k).arenas ≤ suc (length c.arenas)
unfolding step
length-step c (reserves n) = ground arith
length-step c (reserves_upto n) = ground arith
length-step c (releases i) = elim (Option-cases (get_elem? c.arenas i)) [
  | inl e ↦ rw (e, step) (omega arith)
  | inr (a, e) ↦ rw (e, step) (omega (arith, length-erase_at {0} c.arenas i a e))
]

run-Inv :
    (c : Client) (ks : List Call) → length c.arenas + length ks < word_size → Inv c → Inv (run c ks)
unfolding run
run-Inv c [] w v = v
run-Inv c (k ∷ ks) w v =
    run-Inv (step c k) ks (omega (arith, length-step c k)) (step-Inv c k (omega arith) v)

limit-step :
    (c : Client) (k : Call)
    → ((step c k).limiter.memory_limit ≡ c.limiter.memory_limit)
      × ((step c k).limiter.capacity ≡ c.limiter.capacity)
unfolding step reserve reserve_upto do_release_reservation
limit-step c k = ground arith

limit-run :
    (c : Client) (ks : List Call)
    → ((run c ks).limiter.memory_limit ≡ c.limiter.memory_limit)
      × ((run c ks).limiter.capacity ≡ c.limiter.capacity)
unfolding run
limit-run c [] = (refl, refl)
limit-run c (k ∷ ks) =
    let (a, b) = limit-step c k in let (x, y) = limit-run (step c k) ks in (x ∙ a, y ∙ b)

abbrev pub new_client : MemorySpaceId → ℕ → ℕ → Text → Client
new_client id limit capacity path = record {
  limiter = disk_access_limiter id limit capacity path;
  arenas = [];
}

-- After any history of fewer than 2^64 calls on a new limiter, with a limit below 2^63 and at most the
-- capacity: the reserved bytes are what the live arenas hold together, they never exceed the limit nor the peak, with
-- the available bytes they make up the capacity, and the active reservations are counted exactly.
pub run_accounts :
    (id : MemorySpaceId) (limit capacity : ℕ) (path : Text) (ks : List Call)
    → limit < 2 ^ 63
    → limit ≤ capacity
    → length ks < word_size
    → let c = run (new_client id limit capacity path) ks in
      (get_total_reserved_bytes c.limiter ≡ sum_of bytes c.arenas)
      × (get_total_reserved_bytes c.limiter ≤ limit)
      × (get_available_memory c.limiter + get_total_reserved_bytes c.limiter ≡ capacity)
      × (get_active_reservation_count c.limiter ≡ length c.arenas)
      × (get_total_reserved_bytes c.limiter ≤ get_peak_reserved_bytes c.limiter)
unfolding disk_access_limiter get_total_reserved_bytes get_available_memory
    get_active_reservation_count get_peak_reserved_bytes
run_accounts id limit capacity path ks s h w =
    let v = run-Inv (new_client id limit capacity path) ks (omega arith) (omega arith) in
    let l = limit-run (new_client id limit capacity path) ks in ground (arith, v, l)

-- A reservation that fits under the limit with what is reserved is made, at the size asked for. To
-- destroy its arena gives the bytes back: total and count are again what they were, with a limit below
-- 2^63.
pub reserve_release :
    (l : DiskAccessLimiter) (n : ℕ)
    → l.total_allocated_bytes + n ≤ l.memory_limit
    → l.memory_limit < 2 ^ 63
    → l.total_reservation_count < word_size
    → (l' : DiskAccessLimiter) × (a : DiskReservedArena) × (reserve l n ≡ (l', some a))
      × (a.size ≡ pos n)
      × (do_release_reservation l' a
          ≡ record l { peak_total_allocated_bytes = l'.peak_total_allocated_bytes })
unfolding reserve do_release_reservation add64 sub64 to_i64
reserve_release l n h s w = (
  (reserve l n).0,
  record { size = pos n; base_name = l.mounting_path },
  ground arith,
  refl,
  ground arith,
)

-- A reservation that does not fit is refused, and nothing changes. `reserve_upto` makes one of as much
-- as fits, also of nothing; to destroy it gives the bytes back.
pub reserve_refused :
    (l : DiskAccessLimiter) (n : ℕ)
    → l.total_allocated_bytes ≤ l.memory_limit
    → l.memory_limit < l.total_allocated_bytes + n
    → l.memory_limit < 2 ^ 63
    → l.total_reservation_count < word_size
    → (reserve l n ≡ (l, none))
      × ((reserve_upto l n).1.size ≡ pos (l.memory_limit - l.total_allocated_bytes))
      × (do_release_reservation (reserve_upto l n).0 (reserve_upto l n).1 ≡ record l {
        peak_total_allocated_bytes = (reserve_upto l n).0.peak_total_allocated_bytes;
      })
unfolding reserve reserve_upto do_release_reservation add64 sub64 to_i64
reserve_refused l n h f s w = (ground arith, ground arith, ground arith)
