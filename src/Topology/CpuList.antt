-- ===== src/Topology/CpuList.antt =====
-- CPU lists: the lists that the kernel prints are read as the cores that they name.
use mathlib.Core.List.{append-nil}
use cu_cascade.Base.{
  ℕ, zero, suc, ◌-◌, ◌^◌, ◌<◌, ◌≤◌, ◌≡◌, refl, ap, ◌∙◌, true, false, none, some, List, [], ◌∷◌,
  ◌++◌, arith, ok, Bool-cases, inl, inr,
}
use cu_cascade.Base.Int.{ℤ, pos, ◌+ℤ◌, ◌-ℤ◌, ltb_ℤ, eqb_ℤ}
use cu_cascade.Base.Text.{Text, comma, dash, break_at, split_at, getlines, stoi}
use cu_cascade.Base.Text.Parts.{
  IsFree, break_at_free, break_at_first, split_at_free, split_at_first, IsFree-append, print_digits,
  value_from, AreDigits, print_digits-IsFree, stoi-print,
}
use cu_cascade.Topology.{count_from, cpu_range, parse_token, parse_tokens, parse_cpu_list}

-- A number is its first digit and the others. An item is one core or the first and the last of a range.
pub data Item : Type 0 where
  core : ℕ → List ℕ → Item
  range : ℕ → List ℕ → ℕ → List ℕ → Item

abbrev pub value : ℕ → List ℕ → ℕ
value d ds = value_from 0 (d ∷ ds)

abbrev pub print_number : ℕ → List ℕ → Text
print_number d ds = print_digits (d ∷ ds)

abbrev pub print_item : Item → Text
print_item (core d ds) = print_number d ds
print_item (range d ds e es) = print_number d ds ++ dash ∷ print_number e es

abbrev pub print_items : Item → List Item → Text
print_items i [] = print_item i
print_items i (j ∷ js) = print_item i ++ comma ∷ print_items j js

-- `n` numbers from `a` on.
abbrev pub numbers_from : ℕ → ℕ → List ℤ
numbers_from a zero = []
numbers_from a (suc n) = pos a ∷ numbers_from (suc a) n

-- The cores that an item names; a range whose end is before its start names none.
abbrev pub cores_of : Item → List ℤ
cores_of (core d ds) = pos (value d ds) ∷ []
cores_of (range d ds e es) = numbers_from (value d ds) (suc (value e es) - value d ds)

abbrev pub cores_of_all : Item → List Item → List ℤ
cores_of_all i [] = cores_of i
cores_of_all i (j ∷ js) = cores_of i ++ cores_of_all j js

-- Decimal digits, and numbers below the largest `int`.
abbrev pub IsItem : Item → Type 0
IsItem (core d ds) = AreDigits (d ∷ ds) × (value d ds < 2 ^ 31 - 1)
IsItem (range d ds e es) =
    AreDigits (d ∷ ds) × AreDigits (e ∷ es) × (value d ds < 2 ^ 31 - 1) × (value e es < 2 ^ 31 - 1)

next_pos : (a : ℕ) → pos a +ℤ pos 1 ≡ pos (suc a)
unfolding ◌+ℤ◌
next_pos a = ground arith

count_from-pos : (a n : ℕ) → count_from (pos a) n ≡ numbers_from a n
count_from-pos a zero = refl
count_from-pos a (suc n) = rw (next_pos a, count_from-pos (suc a) n) refl

difference : (a b : ℕ) → a ≤ b → pos b -ℤ pos a ≡ pos (b - a)
unfolding ◌-ℤ◌
difference a b h = ground arith

empty_range : (a b : ℕ) → ltb_ℤ (pos b) (pos a) ≡ true → suc b - a ≡ 0
unfolding ◌-ℤ◌
empty_range a b h = ground arith

in_order : (a b : ℕ) → ltb_ℤ (pos b) (pos a) ≡ false → a ≤ b
unfolding ◌-ℤ◌
in_order a b h = ground arith

not_largest : (b : ℕ) → b < 2 ^ 31 - 1 → eqb_ℤ (pos b) (pos (2 ^ 31 - 1)) ≡ false
unfolding ◌-ℤ◌
not_largest b h = ground arith

rounds : (a b : ℕ) → a ≤ b → suc (b - a) ≡ suc b - a
rounds a b h = omega arith

cpu_range-pos :
    (a b : ℕ) → b < 2 ^ 31 - 1 → cpu_range (pos a) (pos b) ≡ ok (numbers_from a (suc b - a))
cpu_range-pos a b h = elim (Bool-cases (ltb_ℤ (pos b) (pos a))) [
  | inl q ↦ rw (q, empty_range a b q) refl
  | inr q ↦
      rw (q, not_largest b h, difference a b (in_order a b q), count_from-pos a (suc (b - a)))
        (ap (λ n. ok (numbers_from a n)) (rounds a b (in_order a b q)))
]

parse_core :
    (t : Text) (n : ℤ) → break_at dash t ≡ none → stoi 10 t ≡ ok n → parse_token t ≡ ok (n ∷ [])
unfolding parse_token
parse_core t n h k = rw (parse_token, h, k) refl

parse_range :
    (t a b : Text) (m n : ℤ)
    → break_at dash t ≡ some (a, b)
    → stoi 10 a ≡ ok m
    → stoi 10 b ≡ ok n
    → parse_token t ≡ cpu_range m n
unfolding parse_token
parse_range t a b m n h k l = rw (parse_token, h, k, l) refl

parse_token-item : (i : Item) → IsItem i → parse_token (print_item i) ≡ ok (cores_of i)
parse_token-item (core d ds) h =
    parse_core (print_number d ds) (pos (value d ds))
      (break_at_free dash (print_number d ds) (print_digits-IsFree dash (d ∷ ds) (omega arith) h.0))
      (stoi-print d ds h.0 (omega (arith, h.1)))
parse_token-item (range d ds e es) h =
    parse_range (print_item (range d ds e es)) (print_number d ds) (print_number e es)
      (pos (value d ds)) (pos (value e es))
      (break_at_first dash (print_number d ds) (print_number e es)
        (print_digits-IsFree dash (d ∷ ds) (omega arith) h.0))
      (stoi-print d ds h.0 (omega (arith, h.2))) (stoi-print e es h.1 (omega (arith, h.3)))
    ∙ cpu_range-pos (value d ds) (value e es) h.3

item-IsFree : (i : Item) → IsItem i → IsFree comma (print_item i)
item-IsFree (core d ds) h = print_digits-IsFree comma (d ∷ ds) (omega arith) h.0
item-IsFree (range d ds e es) h =
    IsFree-append comma (print_number d ds) (dash ∷ print_number e es)
      (print_digits-IsFree comma (d ∷ ds) (omega arith) h.0)
      (refl, print_digits-IsFree comma (e ∷ es) (omega arith) h.1)

abbrev AreItems : Item → List Item → Type 0
AreItems i [] = IsItem i
AreItems i (j ∷ js) = IsItem i × AreItems j js

tokens : Item → List Item → List Text
tokens i [] = print_item i ∷ []
tokens i (j ∷ js) = print_item i ∷ tokens j js

split-items :
    (i : Item) (is : List Item) → AreItems i is → split_at comma (print_items i is) ≡ tokens i is
unfolding tokens
split-items i [] h = split_at_free comma (print_item i) (item-IsFree i h)
split-items i (j ∷ js) h =
    split_at_first comma (print_item i) (print_items j js) (item-IsFree i h.0)
    ∙ ap (λ ts. print_item i ∷ ts) (split-items j js h.1)

getlines-item : (i : Item) → getlines (print_item i ∷ []) ≡ print_item i ∷ []
getlines-item (core d ds) = refl
getlines-item (range d ds e es) = refl

getlines-items : (i : Item) (is : List Item) → getlines (tokens i is) ≡ tokens i is
unfolding tokens
getlines-items i [] = getlines-item i
getlines-items i (j ∷ []) = ap (λ ts. print_item i ∷ ts) (getlines-items j [])
getlines-items i (j ∷ k ∷ ks) = ap (λ ts. print_item i ∷ ts) (getlines-items j (k ∷ ks))

parse_tokens-items :
    (i : Item) (is : List Item)
    → AreItems i is
    → parse_tokens (tokens i is) ≡ ok (cores_of_all i is)
unfolding tokens
parse_tokens-items i [] h = rw (parse_token-item i h) (ap ok (append-nil (cores_of i)))
parse_tokens-items i (j ∷ js) h = rw (parse_token-item i h.0, parse_tokens-items j js h.1) refl

-- `parse_cpu_list` reads what prints a list of cores and ranges, in decimal and separated by commas, as "0-31,128-159",
-- as the cores that they name, in order, if the numbers are below 2^31 - 1. A range that ends before it starts names no
-- core.
pub parse-print :
    (i : Item) (is : List Item)
    → AreItems i is
    → parse_cpu_list (print_items i is) ≡ ok (cores_of_all i is)
unfolding parse_cpu_list
parse-print i is h = rw (split-items i is h, getlines-items i is) (parse_tokens-items i is h)
