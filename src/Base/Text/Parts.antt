-- ===== src/Base/Text/Parts.antt =====
-- Texts that are split at a character, and numbers that are read.
use mathlib.Core.Path.{◌≡◌, refl}
use mathlib.Core.Bool.{false}
use mathlib.Core.Option.{none, some}
use mathlib.Core.List.{List, [], ◌∷◌, ◌++◌}
use native.Mathlib.Omega.{arith}
use Prim.Native.Nat.{ℕ, ◌+◌, ◌*◌, ◌^◌, ◌<◌}
use cu_cascade.Base.Tests.{◌==◌, lt→ltb}
use cu_cascade.Base.Results.{ok}
use cu_cascade.Base.Int.{pos}
use cu_cascade.Base.Text.{
  Text, break_at, split_at, digit_value, read_digits, stoi, skip_prefix, is_space,
}

-- The character does not occur.
abbrev pub IsFree : ℕ → Text → Type 0
IsFree c [] = Unit
IsFree c (x ∷ xs) = ((x == c) ≡ false) × IsFree c xs

pub break_at_free : (c : ℕ) (t : Text) → IsFree c t → break_at c t ≡ none
break_at_free c [] h = refl
break_at_free c (x ∷ xs) h = rw (h.0, break_at_free c xs h.1) refl

pub break_at_first :
    (c : ℕ) (t rest : Text) → IsFree c t → break_at c (t ++ c ∷ rest) ≡ some (t, rest)
break_at_first c [] rest h = ground arith
break_at_first c (x ∷ xs) rest h = rw (h.0, break_at_first c xs rest h.1) refl

pub split_at_free : (c : ℕ) (t : Text) → IsFree c t → split_at c t ≡ t ∷ []
split_at_free c [] h = refl
split_at_free c (x ∷ xs) h = rw (h.0, split_at_free c xs h.1) refl

pub split_at_first :
    (c : ℕ) (t rest : Text) → IsFree c t → split_at c (t ++ c ∷ rest) ≡ t ∷ split_at c rest
split_at_first c [] rest h = ground arith
split_at_first c (x ∷ xs) rest h = rw (h.0, split_at_first c xs rest h.1) refl

pub IsFree-append : (c : ℕ) (s t : Text) → IsFree c s → IsFree c t → IsFree c (s ++ t)
IsFree-append c [] t h k = k
IsFree-append c (x ∷ s) t h k = (h.0, IsFree-append c s t h.1 k)

-- A decimal number, by its digits.
abbrev pub print_digits : List ℕ → Text
print_digits [] = []
print_digits (d ∷ ds) = (48 + d) ∷ print_digits ds

abbrev pub value_from : ℕ → List ℕ → ℕ
value_from n [] = n
value_from n (d ∷ ds) = value_from (n * 10 + d) ds

abbrev pub AreDigits : List ℕ → Type 0
AreDigits [] = Unit
AreDigits (d ∷ ds) = (d < 10) × AreDigits ds

pub print_digits-IsFree : (c : ℕ) (ds : List ℕ) → c < 48 → AreDigits ds → IsFree c (print_digits ds)
print_digits-IsFree c [] l h = tt
print_digits-IsFree c (d ∷ ds) l h = (ground arith, print_digits-IsFree c ds l h.1)

digit_value-print : (d : ℕ) → d < 10 → digit_value (48 + d) ≡ d
digit_value-print d h = ground arith

read_digits-print :
    (n : ℕ) (ds : List ℕ) → AreDigits ds → read_digits 10 n (print_digits ds) ≡ value_from n ds
read_digits-print n [] h = refl
read_digits-print n (d ∷ ds) h =
    rw (digit_value-print d h.0, lt→ltb d 10 h.0) (read_digits-print (n * 10 + d) ds h.1)

skip_prefix_decimal : (cs : Text) → skip_prefix 10 cs ≡ cs
skip_prefix_decimal [] = refl
skip_prefix_decimal (z ∷ []) = refl
skip_prefix_decimal (z ∷ x ∷ []) = refl
skip_prefix_decimal (z ∷ x ∷ c ∷ cs) = refl

not_space : (d : ℕ) → is_space (48 + d) ≡ false
not_space d = ground arith

not_sign : (c d : ℕ) → c < 48 → ((48 + d) == c) ≡ false
not_sign c d h = ground arith

-- `stoi` reads a decimal number that is an `int`.
pub stoi-print :
    (d : ℕ) (ds : List ℕ)
    → AreDigits (d ∷ ds)
    → value_from 0 (d ∷ ds) < 2 ^ 31
    → stoi 10 (print_digits (d ∷ ds)) ≡ ok (pos (value_from 0 (d ∷ ds)))
unfolding stoi
stoi-print d ds h l =
    let p : Text = print_digits ds in
    let digit = digit_value-print d h.0 in
    let small = lt→ltb d 10 h.0 in
    let value = read_digits-print (0 * 10 + d) ds h.1 in
    rw
      (
        stoi,
        not_space d,
        not_sign 45 d (omega arith),
        not_sign 43 d (omega arith),
        skip_prefix_decimal ((48 + d) ∷ p),
        digit,
        small,
        value,
        lt→ltb _ (2 ^ 31) l,
      )
      refl
