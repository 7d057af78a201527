-- ===== src/Converter/Copying.antt =====
-- The three loops of the conversions: that they end, and where each byte then is.
use cu_cascade.Base.{
  ℕ, zero, suc, ◌+◌, ◌-◌, ◌≤◌, ◌<◌, ◌≡◌, ◌≢◌, refl, sym, ap, ◌∙◌, Bool, true, false, ◌&&◌, some,
  List, ltb, leb, ltb→lt, if◌then◌else◌, get_elem?, length, arith, All, All-get_elem?, Bool-cases,
  inl, inr, min,
}
use cu_cascade.Converter.{
  Memory, Buffer, write_block, write_buffer, Cursor, advance, copied, copy_to_blocks,
  copy_from_blocks, copy_between_blocks,
}
use cu_cascade.Converter.Bytes.{
  base, position, byte_at, IsDistinct, byte_at-cursor, block_of_position, byte_at-write,
  byte_at-elsewhere, position-advance, advance_within,
}

-- The bytes from one position to another, taken from `s`.
abbrev pub overwrite : Buffer → ℕ → ℕ → Buffer → Buffer
overwrite f from to s p = if leb from p && ltb p to then s p else f p

overwrite_nothing :
    (f : Buffer) (from to : ℕ) (s : Buffer) (p : ℕ) → to ≤ from → overwrite f from to s p ≡ f p
overwrite_nothing f from to s p h = ground arith

pub overwrite_whole : (f s : Buffer) (size p : ℕ) → p < size → overwrite f 0 size s p ≡ s p
overwrite_whole f s size p h = ground arith

overwrite_twice :
    (f g : Buffer) (a b c : ℕ) (s : Buffer) (p : ℕ)
    → a ≤ b
    → b ≤ c
    → g p ≡ overwrite f a b s p
    → overwrite g b c s p ≡ overwrite f a c s p
overwrite_twice f g a b c s p h k e = ground arith

if_cong : (b : Bool) (x y z : ℕ) → (b ≡ true → x ≡ y) → (if b then x else z) ≡ (if b then y else z)
if_cong true x y z h = h refl
if_cong false x y z h = refl

in_range : (o n p : ℕ) → (leb o p && ltb p (o + n)) ≡ true → (o ≤ p) × (p - o < n)
in_range o n p h = (ground arith, ground arith)

write_buffer-overwrite :
    (f : Buffer) (o n : ℕ) (src s : Buffer) (p : ℕ)
    → ((k : ℕ) → k < n → src k ≡ s (o + k))
    → write_buffer f o n src p ≡ overwrite f o (o + n) s p
write_buffer-overwrite f o n src s p h =
    if_cong (leb o p && ltb p (o + n)) (src (p - o)) (s p) (f p)
      (λ t. let (low, high) = in_range o n p t in h (p - o) high ∙ ap s (omega (arith, low)))

-- A cursor of a loop that has copied the bytes below `done`.
pub record IsAt (block_size : ℕ) (blocks : List ℕ) (size : ℕ) (c : Cursor) (done : ℕ) : Type 0 where
  pub enough : size ≤ base block_size (length blocks)
  pub at : position block_size c ≡ done
  pub within : c.block_offset < block_size

pub IsAt-advance :
    (block_size : ℕ) (blocks : List ℕ) (size : ℕ) (c : Cursor) (done n : ℕ)
    → IsAt block_size blocks size c done
    → n ≤ block_size - c.block_offset
    → IsAt block_size blocks size (advance c block_size n) (done + n)
IsAt-advance block_size blocks size c done n a h = record {
  enough = a.enough;
  at = position-advance block_size n c (omega (arith, a.within)) ∙ ap (λ (k : ℕ). k + n) a.at;
  within = advance_within block_size n c (omega (arith, a.within)) (omega (arith, a.within));
}

pub IsAt-block :
    (block_size : ℕ) (blocks : List ℕ) (size : ℕ) (c : Cursor) (done : ℕ)
    → IsAt block_size blocks size c done
    → done < size
    → (b : ℕ) × (get_elem? blocks c.block_index ≡ some b)
IsAt-block block_size blocks size c done a h =
    block_of_position block_size c.block_index c.block_offset blocks (omega (arith, a.at, a.enough))

-- What a round reads from the block under the cursor.
pub IsAt-read :
    (m : Memory) (block_size : ℕ) (blocks : List ℕ) (size : ℕ) (c : Cursor) (done b k : ℕ)
    → IsAt block_size blocks size c done
    → get_elem? blocks c.block_index ≡ some b
    → k < block_size - c.block_offset
    → byte_at m block_size blocks (done + k) ≡ m b (c.block_offset + k)
IsAt-read m block_size blocks size c done b k a e h =
    byte_at-cursor m block_size blocks c.block_index (c.block_offset + k) b (done + k) e
      (omega arith) (omega (arith, a.at))

-- What a round writes to it.
pub IsAt-write :
    (m : Memory) (block_size : ℕ) (blocks : List ℕ) (size : ℕ) (c : Cursor) (done b n : ℕ)
    (src s : Buffer) (p : ℕ)
    → IsAt block_size blocks size c done
    → IsDistinct blocks
    → get_elem? blocks c.block_index ≡ some b
    → n ≤ block_size - c.block_offset
    → ((k : ℕ) → k < n → src k ≡ s (done + k))
    → byte_at (write_block m b c.block_offset n src) block_size blocks p
      ≡ overwrite (byte_at m block_size blocks) done (done + n) s p
IsAt-write m block_size blocks size c done b n src s p a d e h w =
    byte_at-write m block_size blocks c.block_index b c.block_offset n done src p d e
      (omega (arith, a.within)) (sym a.at)
    ∙ write_buffer-overwrite (byte_at m block_size blocks) done n src s p w

not_below : (a b : ℕ) → ltb a b ≡ false → b ≤ a
not_below a b h = ground arith

-- The bytes that one round leaves, and then the rest of the loop.
rest_of_round :
    (f f' : Buffer) (g : Buffer) (done n size : ℕ) (s : Buffer)
    → done + n ≤ size
    → ((p : ℕ) → f' p ≡ overwrite f done (done + n) s p)
    → ((p : ℕ) → g p ≡ overwrite f' (done + n) size s p)
    → (p : ℕ) → g p ≡ overwrite f done size s p
rest_of_round f f' g done n size s h one rest p =
    rest p ∙ overwrite_twice f f' done (done + n) size s p (omega arith) h (one p)

copy_to_blocks_end :
    (rounds : ℕ) (src : Buffer) (size : ℕ) (blocks : List ℕ) (block_size : ℕ) (m : Memory)
    (c : Cursor) (done : ℕ)
    → ltb done size ≡ false
    → copy_to_blocks rounds src size blocks block_size m c done ≡ copied m
unfolding copy_to_blocks
copy_to_blocks_end zero src size blocks block_size m c done q = rw q refl
copy_to_blocks_end (suc rounds) src size blocks block_size m c done q = rw q refl

copy_to_blocks_round :
    (rounds : ℕ) (src : Buffer) (size : ℕ) (blocks : List ℕ) (block_size : ℕ) (m : Memory)
    (c : Cursor) (done b : ℕ)
    → ltb done size ≡ true
    → get_elem? blocks c.block_index ≡ some b
    → let n = min (size - done) (block_size - c.block_offset) in
      copy_to_blocks (suc rounds) src size blocks block_size m c done
      ≡ copy_to_blocks rounds src size blocks block_size
          (write_block m b c.block_offset n (λ k. src (done + k)))
          (advance c block_size n)
          (done + n)
unfolding copy_to_blocks
copy_to_blocks_round rounds src size blocks block_size m c done b q e = rw (q, e) refl

-- The loop from GPU memory ends, with the bytes from `done` on in the blocks.
pub copy_to_blocks_ends :
    (rounds : ℕ) (src : Buffer) (size : ℕ) (blocks : List ℕ) (block_size : ℕ) (m : Memory)
    (c : Cursor) (done : ℕ)
    → IsAt block_size blocks size c done
    → done ≤ size
    → size ≤ done + rounds
    → (m' : Memory) × (copy_to_blocks rounds src size blocks block_size m c done ≡ copied m')
      × (IsDistinct blocks
          → (p : ℕ)
          → byte_at m' block_size blocks p
            ≡ overwrite (byte_at m block_size blocks) done size src p)
copy_to_blocks_ends zero src size blocks block_size m c done a h k = (
  m,
  copy_to_blocks_end zero src size blocks block_size m c done (ground arith),
  λ d p. sym (overwrite_nothing (byte_at m block_size blocks) done size src p (omega arith)),
)
copy_to_blocks_ends (suc rounds) src size blocks block_size m c done a h k =
    elim (Bool-cases (ltb done size)) [
      | inr q ↦ (
        m,
        copy_to_blocks_end (suc rounds) src size blocks block_size m c done q,
        λ d p. sym (
            overwrite_nothing (byte_at m block_size blocks) done size src p
              (not_below done size q)),
      )
      | inl q ↦
          let (b, e) = IsAt-block block_size blocks size c done a (ltb→lt done size q) in
          let n = min (size - done) (block_size - c.block_offset) in
          let (m', r, w) =
            copy_to_blocks_ends rounds src size blocks block_size
              (write_block m b c.block_offset n (λ k. src (done + k))) (advance c block_size n)
              (done + n) (IsAt-advance block_size blocks size c done n a (omega arith))
              (omega arith) (omega (arith, a.within, ltb→lt done size q)) in
          (
            m',
            copy_to_blocks_round rounds src size blocks block_size m c done b q e ∙ r,
            λ d.
                rest_of_round (byte_at m block_size blocks) _ (byte_at m' block_size blocks) done n
                  size src (omega arith)
                  (λ p.
                    IsAt-write m block_size blocks size c done b n (λ k. src (done + k)) src p a d e
                      (omega arith) (λ k l. refl))
                  (w d),
          )
    ]

copy_from_blocks_end :
    (rounds : ℕ) (m : Memory) (size : ℕ) (blocks : List ℕ) (block_size : ℕ) (f : Buffer)
    (c : Cursor) (done : ℕ)
    → ltb done size ≡ false
    → copy_from_blocks rounds m size blocks block_size f c done ≡ copied f
unfolding copy_from_blocks
copy_from_blocks_end zero m size blocks block_size f c done q = rw q refl
copy_from_blocks_end (suc rounds) m size blocks block_size f c done q = rw q refl

copy_from_blocks_round :
    (rounds : ℕ) (m : Memory) (size : ℕ) (blocks : List ℕ) (block_size : ℕ) (f : Buffer)
    (c : Cursor) (done b : ℕ)
    → ltb done size ≡ true
    → get_elem? blocks c.block_index ≡ some b
    → let n = min (size - done) (block_size - c.block_offset) in
      copy_from_blocks (suc rounds) m size blocks block_size f c done
      ≡ copy_from_blocks rounds m size blocks block_size
          (write_buffer f done n (λ k. m b (c.block_offset + k)))
          (advance c block_size n)
          (done + n)
unfolding copy_from_blocks
copy_from_blocks_round rounds m size blocks block_size f c done b q e = rw (q, e) refl

-- The loop to GPU memory ends, with the bytes of the blocks from `done` on in the buffer.
pub copy_from_blocks_ends :
    (rounds : ℕ) (m : Memory) (size : ℕ) (blocks : List ℕ) (block_size : ℕ) (f : Buffer)
    (c : Cursor) (done : ℕ)
    → IsAt block_size blocks size c done
    → done ≤ size
    → size ≤ done + rounds
    → (g : Buffer) × (copy_from_blocks rounds m size blocks block_size f c done ≡ copied g)
      × ((p : ℕ) → g p ≡ overwrite f done size (byte_at m block_size blocks) p)
copy_from_blocks_ends zero m size blocks block_size f c done a h k = (
  f,
  copy_from_blocks_end zero m size blocks block_size f c done (ground arith),
  λ p. sym (overwrite_nothing f done size (byte_at m block_size blocks) p (omega arith)),
)
copy_from_blocks_ends (suc rounds) m size blocks block_size f c done a h k =
    elim (Bool-cases (ltb done size)) [
      | inr q ↦ (
        f,
        copy_from_blocks_end (suc rounds) m size blocks block_size f c done q,
        λ p.
            sym (
              overwrite_nothing f done size (byte_at m block_size blocks) p
                (not_below done size q)),
      )
      | inl q ↦
          let (b, e) = IsAt-block block_size blocks size c done a (ltb→lt done size q) in
          let n = min (size - done) (block_size - c.block_offset) in
          let f' = write_buffer f done n (λ k. m b (c.block_offset + k)) in
          let (g, r, w) =
            copy_from_blocks_ends rounds m size blocks block_size f' (advance c block_size n)
              (done + n) (IsAt-advance block_size blocks size c done n a (omega arith))
              (omega arith) (omega (arith, a.within, ltb→lt done size q)) in
          (
            g,
            copy_from_blocks_round rounds m size blocks block_size f c done b q e ∙ r,
            rest_of_round f f' g done n size (byte_at m block_size blocks) (omega arith)
                (λ p.
                  write_buffer-overwrite f done n (λ k. m b (c.block_offset + k))
                    (byte_at m block_size blocks) p
                    (λ k l. sym (IsAt-read m block_size blocks size c done b k a e (omega arith))))
                w,
          )
    ]

-- No block is in both lists.
abbrev pub IsDisjoint : List ℕ → List ℕ → Type 0
IsDisjoint src dst = All (λ (b : ℕ). All (λ x. x ≢ b) src) dst

copy_between_blocks_end :
    (rounds : ℕ) (m : Memory) (size : ℕ) (src : List ℕ) (src_size : ℕ) (dst : List ℕ) (dst_size : ℕ)
    (s d : Cursor) (done : ℕ)
    → ltb done size ≡ false
    → copy_between_blocks rounds m size src src_size dst dst_size s d done ≡ copied m
unfolding copy_between_blocks
copy_between_blocks_end zero m size src src_size dst dst_size s d done q = rw q refl
copy_between_blocks_end (suc rounds) m size src src_size dst dst_size s d done q = rw q refl

copy_between_blocks_round :
    (rounds : ℕ) (m : Memory) (size : ℕ) (src : List ℕ) (src_size : ℕ) (dst : List ℕ) (dst_size : ℕ)
    (s d : Cursor) (done a b : ℕ)
    → ltb done size ≡ true
    → get_elem? src s.block_index ≡ some a
    → get_elem? dst d.block_index ≡ some b
    → let n = min (size - done) (min (src_size - s.block_offset) (dst_size - d.block_offset)) in
      copy_between_blocks (suc rounds) m size src src_size dst dst_size s d done
      ≡ copy_between_blocks rounds
          (write_block m b d.block_offset n (λ k. m a (s.block_offset + k)))
          size
          src
          src_size
          dst
          dst_size
          (advance s src_size n)
          (advance d dst_size n)
          (done + n)
unfolding copy_between_blocks
copy_between_blocks_round rounds m size src src_size dst dst_size s d done a b q e e' =
    rw (q, e, e') refl

overwrite_source :
    (f g s t : Buffer) (a b : ℕ) (p : ℕ)
    → s p ≡ t p
    → g p ≡ overwrite f a b s p
    → g p ≡ overwrite f a b t p
overwrite_source f g s t a b p h e = ground arith

-- The loop between two lists of blocks ends, with the bytes of the one in the other, whatever the sizes
-- of their blocks.
pub copy_between_blocks_ends :
    (rounds : ℕ) (m : Memory) (size : ℕ) (src : List ℕ) (src_size : ℕ) (dst : List ℕ) (dst_size : ℕ)
    (s d : Cursor) (done : ℕ)
    → IsAt src_size src size s done
    → IsAt dst_size dst size d done
    → done ≤ size
    → size ≤ done + rounds
    → (m' : Memory) × (copy_between_blocks rounds m size src src_size dst dst_size s d done
        ≡ copied m')
      × (IsDistinct dst
          → IsDisjoint src dst
          → (p : ℕ)
          → byte_at m' dst_size dst p
            ≡ overwrite (byte_at m dst_size dst) done size (byte_at m src_size src) p)
copy_between_blocks_ends zero m size src src_size dst dst_size s d done u v h k = (
  m,
  copy_between_blocks_end zero m size src src_size dst dst_size s d done (ground arith),
  λ i j p. sym (
      overwrite_nothing (byte_at m dst_size dst) done size (byte_at m src_size src) p
        (omega arith)),
)
copy_between_blocks_ends (suc rounds) m size src src_size dst dst_size s d done u v h k =
    elim (Bool-cases (ltb done size)) [
      | inr q ↦ (
        m,
        copy_between_blocks_end (suc rounds) m size src src_size dst dst_size s d done q,
        λ i j p. sym (
            overwrite_nothing (byte_at m dst_size dst) done size (byte_at m src_size src) p
              (not_below done size q)),
      )
      | inl q ↦
          let (a, e) = IsAt-block src_size src size s done u (ltb→lt done size q) in
          let (b, e') = IsAt-block dst_size dst size d done v (ltb→lt done size q) in
          let n = min (size - done) (min (src_size - s.block_offset) (dst_size - d.block_offset)) in
          let m1 = write_block m b d.block_offset n (λ k. m a (s.block_offset + k)) in
          let (m', r, w) =
            copy_between_blocks_ends rounds m1 size src src_size dst dst_size (advance s src_size n)
              (advance d dst_size n) (done + n)
              (IsAt-advance src_size src size s done n u (omega arith))
              (IsAt-advance dst_size dst size d done n v (omega arith)) (omega arith)
              (omega (arith, u.within, v.within, ltb→lt done size q)) in
          (
            m',
            copy_between_blocks_round rounds m size src src_size dst dst_size s d done a b q e e'
                ∙ r,
            λ i j.
                rest_of_round (byte_at m dst_size dst) (byte_at m1 dst_size dst)
                  (byte_at m' dst_size dst) done n size (byte_at m src_size src) (omega arith)
                  (λ p.
                    IsAt-write m dst_size dst size d done b n (λ k. m a (s.block_offset + k))
                      (byte_at m src_size src) p v i e' (omega arith)
                      (λ k l. sym (IsAt-read m src_size src size s done a k u e (omega arith))))
                  (λ p.
                    overwrite_source (byte_at m1 dst_size dst) (byte_at m' dst_size dst)
                      (byte_at m1 src_size src) (byte_at m src_size src) (done + n) size p
                      (byte_at-elsewhere m src_size src b d.block_offset n
                        (λ k. m a (s.block_offset + k)) p
                        (All-get_elem? (λ (y : ℕ). All (λ x. x ≢ y) src) dst d.block_index b j e'))
                      (w i j p)),
          )
    ]
