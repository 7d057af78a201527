-- ===== src/Base/Words.antt =====
-- `std::size_t` and `std::uint64_t`: 64-bit words, with the wrap-around written out.
use Prim.Native.Nat.{ℕ, ◌+◌, ◌-◌, ◌%◌, ◌^◌, ◌≤◌, ◌<◌}
use mathlib.Core.Path.{◌≡◌}
use native.Mathlib.Omega.{arith}

abbrev pub word_size : ℕ
word_size = 2 ^ 64

-- a + b and a - b. `-` on ℕ stops at 0, so the modulus is added first.
unfoldable pub add64 : ℕ → ℕ → ℕ
add64 a b = (a + b) % word_size

unfoldable pub sub64 : ℕ → ℕ → ℕ
sub64 a b = (a + (word_size - b % word_size)) % word_size

pub add64-lt : (a b : ℕ) → add64 a b < word_size
unfolding add64
add64-lt a b = omega arith

pub add64_exact : (a b : ℕ) → a + b < word_size → add64 a b ≡ a + b
unfolding add64
add64_exact a b h = omega arith

pub sub64_exact : (a b : ℕ) → b ≤ a → a < word_size → sub64 a b ≡ a - b
unfolding sub64
sub64_exact a b h w = omega arith

pub sub64-add64 : (a b : ℕ) → a < word_size → b < word_size → sub64 (add64 a b) b ≡ a
unfolding add64 sub64
sub64-add64 a b ha hb = omega arith
