-- ===== src/Atomics/Sequential.antt =====
-- The bounded counter when no other thread interferes.
use cu_cascade.Base.{ℕ, ◌+◌, ◌-◌, ◌≤◌, ◌<◌, ◌≡◌, true, false, none, some, [], arith, min, max}
use cu_cascade.Base.Words.{word_size, add64, sub64}
use cu_cascade.Atomics.{counter_after, try_add, add_bounded, try_sub, sub_bounded, update_peak, sub}

-- With the bound below 2^64, `try_add` succeeds exactly if the sum stays within the bound, although it
-- is never formed before the test. It then writes the sum, without wrap-around, and returns it; else it
-- returns the counter and writes nothing.
pub try_add_iff :
    (value diff upper_bound : ℕ)
    → upper_bound < word_size
    → (value + diff ≤ upper_bound
        → try_add value [] diff upper_bound
          ≡ record { written = some (value + diff); value = (true, value + diff) })
      × (upper_bound < value + diff
          → try_add value [] diff upper_bound ≡ record { written = none; value = (false, value) })
unfolding try_add add64
try_add_iff value diff upper_bound w = (λ h. ground arith, λ h. ground arith)

-- `add_bounded` adds as much of `diff` as fits under the bound, and reports how much that was; over the
-- bound, nothing.
pub add_bounded_exact :
    (value diff upper_bound : ℕ)
    → upper_bound < word_size
    → let u = add_bounded value [] diff upper_bound in
      (counter_after value u ≡ value + min diff (upper_bound - value))
      × (u.value.0 ≡ min diff (upper_bound - value))
      × (u.value.1 ≡ counter_after value u)
unfolding add_bounded add64
add_bounded_exact value diff upper_bound w = (ground arith, ground arith, ground arith)

-- `try_sub` and `sub_bounded` keep to their lower bounds in the same way.
pub try_sub_iff :
    (value diff lower_bound : ℕ)
    → value < word_size
    → (lower_bound + diff ≤ value
        → try_sub value [] diff lower_bound
          ≡ record { written = some (value - diff); value = (true, value - diff) })
      × (value < lower_bound + diff
          → try_sub value [] diff lower_bound ≡ record { written = none; value = (false, value) })
unfolding try_sub sub64
try_sub_iff value diff lower_bound w = (λ h. ground arith, λ h. ground arith)

pub sub_bounded_exact :
    (value diff lower_bound : ℕ)
    → value < word_size
    → let u = sub_bounded value [] diff lower_bound in
      (counter_after value u ≡ value - min diff (value - lower_bound))
      × (u.value.0 ≡ min diff (value - lower_bound))
      × (u.value.1 ≡ counter_after value u)
unfolding sub_bounded sub64
sub_bounded_exact value diff lower_bound w = (ground arith, ground arith, ground arith)

-- What a `try_add` has added, `sub` takes away again.
pub sub-try_add :
    (value diff upper_bound : ℕ)
    → upper_bound < word_size
    → value + diff ≤ upper_bound
    → sub (counter_after value (try_add value [] diff upper_bound)) diff ≡ value
unfolding try_add sub add64 sub64
sub-try_add value diff upper_bound w h = ground arith

pub update_peak-max : (peak current : ℕ) → update_peak peak [] current ≡ max peak current
unfolding update_peak
update_peak-max peak current = ground arith
