-- ===== src/Operators/Order.antt =====
-- The order of the keys.
use cu_cascade.Base.{ℕ, ◌≡◌, refl, true, false, List, [], ◌∷◌, arith}
use cu_cascade.Operators.{OperatorPortKey, string_eq, string_less, key_eq, key_less, equivalent}

string_eq-path : (xs ys : List ℕ) → string_eq xs ys ≡ true → xs ≡ ys
string_eq-path [] [] h = refl
string_eq-path [] (y ∷ ys) h = cc
string_eq-path (x ∷ xs) [] h = cc
string_eq-path (x ∷ xs) (y ∷ ys) h =
    let p : x ≡ y = ground arith in let q = string_eq-path xs ys (ground arith) in λ i. p i ∷ q i

string_less_irrefl : (xs : List ℕ) → string_less xs xs ≡ false
string_less_irrefl [] = refl
string_less_irrefl (x ∷ xs) = ground (arith, string_less_irrefl xs)

string_less_trans :
    (xs ys zs : List ℕ)
    → string_less xs ys ≡ true
    → string_less ys zs ≡ true
    → string_less xs zs ≡ true
string_less_trans xs ys [] h k = cc
string_less_trans xs [] (z ∷ zs) h k = cc
string_less_trans [] (y ∷ ys) (z ∷ zs) h k = refl
string_less_trans (x ∷ xs) (y ∷ ys) (z ∷ zs) h k = ground (arith, string_less_trans xs ys zs)

string_less-total :
    (xs ys : List ℕ)
    → string_less xs ys ≡ false
    → string_less ys xs ≡ false
    → string_eq xs ys ≡ true
string_less-total [] [] h k = refl
string_less-total [] (y ∷ ys) h k = cc
string_less-total (x ∷ xs) [] h k = cc
string_less-total (x ∷ xs) (y ∷ ys) h k = ground (arith, string_less-total xs ys)

string_eq-less : (xs ys : List ℕ) → string_eq xs ys ≡ true → string_less xs ys ≡ false
string_eq-less xs ys h = rw (string_eq-path xs ys h) (string_less_irrefl ys)

string_eq_refl : (xs : List ℕ) → string_eq xs xs ≡ true
string_eq_refl [] = refl
string_eq_refl (x ∷ xs) = ground (arith, string_eq_refl xs)

string_eq-sym : (xs ys : List ℕ) → string_eq xs ys ≡ string_eq ys xs
string_eq-sym [] [] = refl
string_eq-sym [] (y ∷ ys) = refl
string_eq-sym (x ∷ xs) [] = refl
string_eq-sym (x ∷ xs) (y ∷ ys) = ground (arith, string_eq-sym xs ys)

pub key_eq_refl : (a : OperatorPortKey) → key_eq a a ≡ true
key_eq_refl a = ground (arith, string_eq_refl a.port_id)

pub key_eq-sym : (a b : OperatorPortKey) → key_eq a b ≡ key_eq b a
key_eq-sym a b = ground (arith, string_eq-sym a.port_id b.port_id)

key_less_irrefl : (a : OperatorPortKey) → key_less a a ≡ false
key_less_irrefl a = ground (arith, string_less_irrefl a.port_id)

key_less_trans :
    (a b c : OperatorPortKey) → key_less a b ≡ true → key_less b c ≡ true → key_less a c ≡ true
key_less_trans a b c h k = ground (arith, string_less_trans a.port_id b.port_id c.port_id)

-- The map takes two keys for the same exactly if `operator==` does.
pub equivalent-key_eq : (a b : OperatorPortKey) → equivalent a b ≡ key_eq a b
equivalent-key_eq a b = ground (
  arith,
  string_less-total a.port_id b.port_id,
  string_eq-less a.port_id b.port_id,
  string_eq-less b.port_id a.port_id,
  string_eq-sym a.port_id b.port_id,
)

pub key_eq-path : (a b : OperatorPortKey) → key_eq a b ≡ true → a ≡ b
key_eq-path a b h =
    let p : a.operator_id ≡ b.operator_id = ground arith in
    let q = string_eq-path a.port_id b.port_id (ground arith) in
    λ i. record { operator_id = p i; port_id = q i }

-- `operator<` is the strict total order that `std::map` asks for, and agrees with `operator==`: no key is less than
-- itself, it is transitive, and of two keys either one is less or they are the same.
pub key_less_order :
    (a b c : OperatorPortKey)
    → (key_less a a ≡ false)
      × (key_less a b ≡ true → key_less b c ≡ true → key_less a c ≡ true)
      × (equivalent a b ≡ key_eq a b)
      × (key_eq a b ≡ true → a ≡ b)
key_less_order a b c =
    (key_less_irrefl a, key_less_trans a b c, equivalent-key_eq a b, key_eq-path a b)
