-- ===== src/Converter/Bytes.antt =====
-- The bytes of a list of blocks, read one after another, and what a write does to them.
use mathlib.Core.Path.{subst, ap₂}
use cu_cascade.Base.{
  ℕ, zero, suc, ◌+◌, ◌-◌, ◌*◌, ◌≤◌, ◌<◌, ◌≡◌, ◌≢◌, refl, sym, ◌∙◌, some, List, [], ◌∷◌, ltb,
  if◌then◌else◌, get_elem?, length, arith, All, All-get_elem?,
}
use cu_cascade.Converter.{Memory, Buffer, write_block, write_buffer, Cursor, advance}

-- Where the `i`-th block begins.
abbrev pub base : ℕ → ℕ → ℕ
base block_size zero = 0
base block_size (suc i) = block_size + base block_size i

abbrev pub position : ℕ → Cursor → ℕ
position block_size c = base block_size c.block_index + c.block_offset

abbrev pub byte_at : Memory → ℕ → List ℕ → ℕ → ℕ
byte_at m block_size [] p = 0
byte_at m block_size (b ∷ blocks) p =
    if ltb p block_size then m b p else byte_at m block_size blocks (p - block_size)

abbrev pub IsDistinct : List ℕ → Type 0
IsDistinct [] = Unit
IsDistinct (b ∷ blocks) = All (λ x. x ≢ b) blocks × IsDistinct blocks

pub base-mul : (block_size n : ℕ) → base block_size n ≡ n * block_size
base-mul block_size zero = omega arith
base-mul block_size (suc n) = grind (arith, base-mul block_size n)

pub byte_at-cursor :
    (m : Memory) (block_size : ℕ) (blocks : List ℕ) (i o b p : ℕ)
    → get_elem? blocks i ≡ some b
    → o < block_size
    → p ≡ base block_size i + o
    → byte_at m block_size blocks p ≡ m b o
byte_at-cursor m block_size [] i o b p e h q = cc
byte_at-cursor m block_size (x ∷ blocks) zero o b p e h q =
    let same : p ≡ o = omega arith in let found : x ≡ b = cc in ground arith
byte_at-cursor m block_size (x ∷ blocks) (suc i) o b p e h q =
    let earlier = byte_at-cursor m block_size blocks i o b (p - block_size) e h (omega arith) in
    ground arith

pub block_of_position :
    (block_size i o : ℕ) (blocks : List ℕ)
    → base block_size i + o < base block_size (length blocks)
    → (b : ℕ) × (get_elem? blocks i ≡ some b)
block_of_position block_size i o [] h = absurd (omega arith)
block_of_position block_size zero o (x ∷ blocks) h = (x, refl)
block_of_position block_size (suc i) o (x ∷ blocks) h =
    block_of_position block_size i o blocks (omega arith)

pub byte_at-elsewhere :
    (m : Memory) (block_size : ℕ) (blocks : List ℕ) (b o n : ℕ) (src : Buffer) (p : ℕ)
    → All (λ x. x ≢ b) blocks
    → byte_at (write_block m b o n src) block_size blocks p ≡ byte_at m block_size blocks p
byte_at-elsewhere m block_size [] b o n src p h = refl
byte_at-elsewhere m block_size (x ∷ blocks) b o n src p h =
    ground (arith, byte_at-elsewhere m block_size blocks b o n src (p - block_size))

write_at :
    (m : Memory) (b o n : ℕ) (src : Buffer) (p : ℕ)
    → write_block m b o n src b p ≡ write_buffer (m b) o n src p
write_at m b o n src p = ground arith

write_away :
    (m : Memory) (x b o n : ℕ) (src : Buffer) (p : ℕ) → x ≢ b → write_block m b o n src x p ≡ m x p
write_away m x b o n src p h = ground arith

-- A write within the first part of a buffer, and one behind it.
write_before :
    (f g : Buffer) (o n block_size : ℕ) (src : Buffer) (p : ℕ)
    → o + n ≤ block_size
    → (if ltb p block_size then write_buffer g o n src p else f (p - block_size))
      ≡ write_buffer (λ y. if ltb y block_size then g y else f (y - block_size)) o n src p
write_before f g o n block_size src p h = ground arith

write_behind :
    (f g : Buffer) (q n block_size : ℕ) (src : Buffer) (p : ℕ)
    → block_size ≤ q
    → (if ltb p block_size then g p else write_buffer f (q - block_size) n src (p - block_size))
      ≡ write_buffer (λ y. if ltb y block_size then g y else f (y - block_size)) q n src p
write_behind f g q n block_size src p h = ground arith

write_first :
    (m : Memory) (block_size : ℕ) (b : ℕ) (blocks : List ℕ) (o n : ℕ) (src : Buffer) (p : ℕ)
    → All (λ x. x ≢ b) blocks
    → o + n ≤ block_size
    → byte_at (write_block m b o n src) block_size (b ∷ blocks) p
      ≡ write_buffer (byte_at m block_size (b ∷ blocks)) o n src p
write_first m block_size b blocks o n src p d h =
    ap₂ (λ s t. if ltb p block_size then s else t) (write_at m b o n src p)
      (byte_at-elsewhere m block_size blocks b o n src (p - block_size) d)
    ∙ write_before (byte_at m block_size blocks) (m b) o n block_size src p h

pub byte_at-write :
    (m : Memory) (block_size : ℕ) (blocks : List ℕ) (i b o n q : ℕ) (src : Buffer) (p : ℕ)
    → IsDistinct blocks
    → get_elem? blocks i ≡ some b
    → o + n ≤ block_size
    → q ≡ base block_size i + o
    → byte_at (write_block m b o n src) block_size blocks p
      ≡ write_buffer (byte_at m block_size blocks) q n src p
byte_at-write m block_size [] i b o n q src p d e h w = cc
byte_at-write m block_size (x ∷ blocks) zero b o n q src p d e h w =
    let found : x ≡ b = cc in
    let same : o ≡ q = omega arith in
    subst
      (λ c.
        byte_at (write_block m c o n src) block_size (x ∷ blocks) p
        ≡ write_buffer (byte_at m block_size (x ∷ blocks)) q n src p)
      found
      (subst
        (λ r.
          byte_at (write_block m x o n src) block_size (x ∷ blocks) p
          ≡ write_buffer (byte_at m block_size (x ∷ blocks)) r n src p)
        same (write_first m block_size x blocks o n src p d.0 h))
byte_at-write m block_size (x ∷ blocks) (suc i) b o n q src p d e h w =
    ap₂ (λ s t. if ltb p block_size then s else t)
      (write_away m x b o n src p (λ y. All-get_elem? (λ z. z ≢ x) blocks i b d.0 e (sym y)))
      (byte_at-write m block_size blocks i b o n (q - block_size) src (p - block_size) d.1 e h
        (omega arith))
    ∙ write_behind (byte_at m block_size blocks) (m x) q n block_size src p (omega arith)

pub position-advance :
    (block_size n : ℕ) (c : Cursor)
    → c.block_offset + n ≤ block_size
    → position block_size (advance c block_size n) ≡ position block_size c + n
position-advance block_size n c h = ground arith

pub advance_within :
    (block_size n : ℕ) (c : Cursor)
    → 0 < block_size
    → c.block_offset + n ≤ block_size
    → (advance c block_size n).block_offset < block_size
advance_within block_size n c z h = ground arith
