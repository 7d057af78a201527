-- ===== src/Base/Text.antt =====
-- Strings as lists of character codes, and what the code uses of `std::string`, `std::getline` and `std::stoi`.
pub mod Parts
use cu_cascade.Base.Tests.{ltb, leb, ◌==◌, if◌then◌else◌}
use cu_cascade.Base.Results.{Error, invalid_argument, out_of_range, Result, ok, err, ◌>>=◌}
use cu_cascade.Base.Int.{ℤ, pos, sub_ℕ}
use mathlib.Core.Bool.{Bool, true, false, ◌&&◌, ◌||◌}
use mathlib.Core.Option.{Option, none, some}
use mathlib.Core.List.{List, [], ◌∷◌, ◌++◌, map}
use Prim.Native.Nat.{ℕ, zero, suc, ◌+◌, ◌-◌, ◌*◌, ◌^◌}

abbrev pub Text : Type 0
Text = List ℕ

abbrev pub comma : ℕ
comma = 44

abbrev pub dash : ℕ
dash = 45

abbrev pub colon : ℕ
colon = 58

-- What stands before a character's first occurrence and after it, if it occurs.
abbrev pub break_at : ℕ → Text → Option (Text × Text)
break_at c [] = none
break_at c (x ∷ xs) =
    if x == c
    then some ([], xs)
    else elim (break_at c xs) [ none ↦ none | some (before, after) ↦ some (x ∷ before, after) ]

-- The parts between the occurrences of a character.
abbrev pub split_at : ℕ → Text → List Text
split_at c [] = [] ∷ []
split_at c (x ∷ xs) =
    if x == c
    then [] ∷ split_at c xs
    else elim (split_at c xs) [ [] ↦ (x ∷ []) ∷ [] | part ∷ parts ↦ (x ∷ part) ∷ parts ]

-- `std::getline` gives no part after a delimiter at the end.
abbrev pub getlines : List Text → List Text
getlines [] = []
getlines ([] ∷ []) = []
getlines ((x ∷ part) ∷ []) = (x ∷ part) ∷ []
getlines (part ∷ next ∷ parts) = part ∷ getlines (next ∷ parts)

abbrev pub tolower : ℕ → ℕ
tolower c = if leb 65 c && leb c 90 then c + 32 else c

abbrev pub is_space : ℕ → Bool
is_space c = c == 32 || (leb 9 c && leb c 13)

abbrev pub skip_spaces : Text → Text
skip_spaces [] = []
skip_spaces (c ∷ cs) = if is_space c then skip_spaces cs else c ∷ cs

-- A digit's value, 36 for another character.
abbrev pub digit_value : ℕ → ℕ
digit_value c =
    if leb 48 c && leb c 57
    then c - 48
    else if leb 97 c && leb c 122
    then c - 87
    else if leb 65 c && leb c 90
    then c - 55
    else 36

-- The digits from the front on, after `n`.
abbrev pub read_digits : ℕ → ℕ → Text → ℕ
read_digits base n [] = n
read_digits base n (c ∷ cs) =
    if ltb (digit_value c) base then read_digits base (n * base + digit_value c) cs else n

-- A number needs a digit at its front.
abbrev pub read_number : ℕ → Text → Result ℕ
read_number base [] = err invalid_argument
read_number base (c ∷ cs) =
    if ltb (digit_value c) base then ok (read_digits base 0 (c ∷ cs)) else err invalid_argument

-- In base 16, "0x" before a digit is passed over.
abbrev pub skip_prefix : ℕ → Text → Text
skip_prefix base (z ∷ x ∷ c ∷ cs) =
    if base == 16 && z == 48 && (x == 120 || x == 88) && ltb (digit_value c) 16
    then c ∷ cs
    else z ∷ x ∷ c ∷ cs
skip_prefix base [] = []
skip_prefix base (z ∷ []) = z ∷ []
skip_prefix base (z ∷ x ∷ []) = z ∷ x ∷ []

abbrev pub read_positive : ℕ → Text → Result ℤ
read_positive base cs = read_number base (skip_prefix base cs) >>= λ n.
    if ltb n (2 ^ 31) then ok (pos n) else err out_of_range

abbrev pub read_negative : ℕ → Text → Result ℤ
read_negative base cs = read_number base (skip_prefix base cs) >>= λ n.
    if leb n (2 ^ 31) then ok (sub_ℕ 0 n) else err out_of_range

abbrev pub read_signed : ℕ → Text → Result ℤ
read_signed base [] = err invalid_argument
read_signed base (c ∷ cs) =
    if c == 45
    then read_negative base cs
    else if c == 43
    then read_positive base cs
    else read_positive base (c ∷ cs)

-- `std::stoi(s, nullptr, base)`
unfoldable pub stoi : ℕ → Text → Result ℤ
stoi base s = read_signed base (skip_spaces s)
