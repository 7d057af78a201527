-- ===== src/Atomics.antt =====
-- include/utils/atomics.hpp, at `std::size_t`: a peak tracker and a bounded counter. A loop around
-- `compare_exchange_weak` takes the values that the failed exchanges load, one for each failure: other
-- threads wrote them, or they are unchanged at a spurious failure. After the last of them the exchange
-- succeeds, so the list is the interference that the call meets, and every call ends.
pub mod Sequential
pub mod Interference
pub mod Threads
mod Tests
use cu_cascade.Base.{
  ℕ, ◌+◌, ◌-◌, Bool, true, false, ◌||◌, Option, none, some, List, [], ◌∷◌, ltb, leb, if◌then◌else◌,
  min,
}
use cu_cascade.Base.Words.{add64, sub64}

-- What a loop leaves: the value that it wrote, if it wrote one, and what it returns.
pub record Update (A : Type 0) : Type 0 where
  pub written : Option ℕ
  pub value : A

-- The counter afterwards, that held `current` at the last exchange.
abbrev pub counter_after : {A : Type 0} → ℕ → Update A → ℕ
counter_after current u = elim u.written [ none ↦ current | some v ↦ v ]

-- `add` and `sub` return the new value, which is also the counter's.
unfoldable pub add : ℕ → ℕ → ℕ
add value diff = add64 value diff

unfoldable pub sub : ℕ → ℕ → ℕ
sub value diff = sub64 value diff

-- The test of `try_add` that refuses.
abbrev pub no_room : ℕ → ℕ → ℕ → Bool
no_room current diff upper_bound = ltb upper_bound current || ltb (upper_bound - current) diff

unfoldable pub try_add : ℕ → List ℕ → ℕ → ℕ → Update (Bool × ℕ)
try_add current [] diff upper_bound =
    if no_room current diff upper_bound
    then record { written = none; value = (false, current) }
    else record { written = some (add64 current diff); value = (true, add64 current diff) }
try_add current (v ∷ observed) diff upper_bound =
    if no_room current diff upper_bound
    then record { written = none; value = (false, current) }
    else try_add v observed diff upper_bound

-- `diff` is an in-out parameter: the value is the pair of `diff` afterwards and of the result.
unfoldable pub add_bounded : ℕ → List ℕ → ℕ → ℕ → Update (ℕ × ℕ)
add_bounded current [] diff upper_bound =
    if ltb current upper_bound
    then (let d = min diff (upper_bound - current) in
        record { written = some (add64 current d); value = (d, add64 current d) })
    else record { written = none; value = (0, current) }
add_bounded current (v ∷ observed) diff upper_bound =
    if ltb current upper_bound
    then add_bounded v observed (min diff (upper_bound - current)) upper_bound
    else record { written = none; value = (0, current) }

abbrev pub too_low : ℕ → ℕ → ℕ → Bool
too_low current diff lower_bound = ltb current lower_bound || ltb (current - lower_bound) diff

unfoldable pub try_sub : ℕ → List ℕ → ℕ → ℕ → Update (Bool × ℕ)
try_sub current [] diff lower_bound =
    if too_low current diff lower_bound
    then record { written = none; value = (false, current) }
    else record { written = some (sub64 current diff); value = (true, sub64 current diff) }
try_sub current (v ∷ observed) diff lower_bound =
    if too_low current diff lower_bound
    then record { written = none; value = (false, current) }
    else try_sub v observed diff lower_bound

unfoldable pub sub_bounded : ℕ → List ℕ → ℕ → ℕ → Update (ℕ × ℕ)
sub_bounded current [] diff lower_bound =
    if ltb lower_bound current
    then (let d = min diff (current - lower_bound) in
        record { written = some (sub64 current d); value = (d, sub64 current d) })
    else record { written = none; value = (0, current) }
sub_bounded current (v ∷ observed) diff lower_bound =
    if ltb lower_bound current
    then sub_bounded v observed (min diff (current - lower_bound)) lower_bound
    else record { written = none; value = (0, current) }

-- `update_peak`: the value that the peak has afterwards.
unfoldable pub update_peak : ℕ → List ℕ → ℕ → ℕ
update_peak peak [] current = if ltb peak current then current else peak
update_peak peak (v ∷ observed) current =
    if ltb peak current then update_peak v observed current else peak
