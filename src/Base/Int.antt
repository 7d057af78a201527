-- ===== src/Base/Int.antt =====
-- Signed integers over the native numbers, and `std::int64_t`: conversions between 64-bit words and
-- signed integers, in two's complement.
use Prim.Native.Nat.{ℕ, suc, ◌+◌, ◌-◌, ◌%◌, ◌^◌, ◌≤◌, ◌<◌}
use mathlib.Core.Path.{◌≡◌}
use mathlib.Core.Bool.{Bool}
use native.Mathlib.Omega.{arith}
use cu_cascade.Base.Tests.{ltb, leb, ◌==◌, if◌then◌else◌}
use cu_cascade.Base.Words.{word_size}

-- `negsuc n` is -(n + 1).
pub data ℤ : Type 0 where
  pos : ℕ → ℤ
  negsuc : ℕ → ℤ

abbrev pub pos_part : ℤ → ℕ
pos_part (pos n) = n
pos_part (negsuc n) = 0

abbrev pub neg_part : ℤ → ℕ
neg_part (pos n) = 0
neg_part (negsuc n) = suc n

-- a - b, as an integer.
abbrev pub sub_ℕ : ℕ → ℕ → ℤ
sub_ℕ a b = if leb b a then pos (a - b) else negsuc (b - a - 1)

infixl 65 ◌+ℤ◌ ◌-ℤ◌
unfoldable pub ◌+ℤ◌ : ℤ → ℤ → ℤ
a +ℤ b = sub_ℕ (pos_part a + pos_part b) (neg_part a + neg_part b)

unfoldable pub ◌-ℤ◌ : ℤ → ℤ → ℤ
a -ℤ b = sub_ℕ (pos_part a + neg_part b) (neg_part a + pos_part b)

abbrev pub ltb_ℤ : ℤ → ℤ → Bool
ltb_ℤ a b = ltb (pos_part a + neg_part b) (pos_part b + neg_part a)

abbrev pub leb_ℤ : ℤ → ℤ → Bool
leb_ℤ a b = leb (pos_part a + neg_part b) (pos_part b + neg_part a)

abbrev pub eqb_ℤ : ℤ → ℤ → Bool
eqb_ℤ a b = (pos_part a + neg_part b) == (pos_part b + neg_part a)

-- `static_cast<int64_t>` of a word.
unfoldable pub to_i64 : ℕ → ℤ
to_i64 w = if ltb w (2 ^ 63) then pos w else negsuc (word_size - w - 1)

-- `static_cast<std::size_t>` of a signed integer.
unfoldable pub to_u64 : ℤ → ℕ
to_u64 (pos n) = n % word_size
to_u64 (negsuc n) = word_size - 1 - n % word_size

pub to_i64_exact : (w : ℕ) → w < 2 ^ 63 → to_i64 w ≡ pos w
unfolding to_i64
to_i64_exact w h = ground arith

pub to_u64-to_i64 : (w : ℕ) → w < word_size → to_u64 (to_i64 w) ≡ w
unfolding to_i64 to_u64
to_u64-to_i64 w h = ground arith

-- Sum and difference of `std::int64_t`, which wrap for atomics.
unfoldable pub add_i64 : ℤ → ℤ → ℤ
unfolding ◌+ℤ◌ to_i64 to_u64
add_i64 a b = to_i64 (to_u64 (a +ℤ b))

unfoldable pub sub_i64 : ℤ → ℤ → ℤ
unfolding ◌-ℤ◌ to_i64 to_u64
sub_i64 a b = to_i64 (to_u64 (a -ℤ b))

pub add_i64_exact : (a b : ℕ) → a + b < 2 ^ 63 → add_i64 (pos a) (pos b) ≡ pos (a + b)
unfolding add_i64
add_i64_exact a b h = ground arith

pub sub_i64_exact : (a b : ℕ) → b ≤ a → a < 2 ^ 63 → sub_i64 (pos a) (pos b) ≡ pos (a - b)
unfolding sub_i64
sub_i64_exact a b h w = ground arith
