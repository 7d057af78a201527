-- ===== src/Host/Amounts.antt =====
-- What an allocation of a reservation is charged upstream, and what its return gives back: the growth
-- and the fall of the larger of the reservation's size and its allocated bytes.
use cu_cascade.Base.{ℕ, ◌+◌, ◌-◌, ◌^◌, ◌≤◌, ◌<◌, ◌≡◌, ap, ◌∙◌, max, arith}
use cu_cascade.Base.Int.{
  ℤ, pos, negsuc, pos_part, to_i64, to_u64, add_i64, sub_i64, to_i64_exact, add_i64_exact,
  sub_i64_exact,
}
use cu_cascade.Host.{upstream_share, reclaimed_share}

pub post_up : (pre n : ℕ) → pre + n < 2 ^ 63 → add_i64 (pos pre) (to_i64 n) ≡ pos (pre + n)
post_up pre n h = rw (to_i64_exact n (omega arith)) (add_i64_exact pre n h)

pub post_down : (pre n : ℕ) → n ≤ pre → pre < 2 ^ 63 → sub_i64 (pos pre) (to_i64 n) ≡ pos (pre - n)
post_down pre n h w = rw (to_i64_exact n (omega arith)) (sub_i64_exact pre n h w)

pub difference : (a b : ℕ) → b ≤ a → a < 2 ^ 63 → to_u64 (sub_i64 (pos a) (pos b)) ≡ a - b
unfolding to_u64
difference a b h w = rw (sub_i64_exact a b h w) (omega arith)

pub upstream_share_lem :
    (pre n size : ℕ)
    → pre + n < 2 ^ 63
    → upstream_share (pos pre) (add_i64 (pos pre) (to_i64 n)) (pos size) n + max size pre
      ≡ max size (pre + n)
unfolding upstream_share
upstream_share_lem pre n size h = rw (post_up pre n h) (ground (arith, difference (pre + n) size))

pub reclaimed_share_lem :
    (pre n size : ℕ)
    → n ≤ pre
    → pre < 2 ^ 63
    → reclaimed_share (pos pre) (sub_i64 (pos pre) (to_i64 n)) (pos size) n + max size (pre - n)
      ≡ max size pre
unfolding reclaimed_share
reclaimed_share_lem pre n size h w = rw (post_down pre n h w) (ground (arith, difference pre size))

-- The same at integers that are no negative numbers.
pub allocate_share :
    (size pre : ℤ) (n : ℕ)
    → size ≡ pos (pos_part size)
    → pre ≡ pos (pos_part pre)
    → pos_part pre + n < 2 ^ 63
    → (add_i64 pre (to_i64 n) ≡ pos (pos_part pre + n))
      × (upstream_share pre (add_i64 pre (to_i64 n)) size n + max (pos_part size) (pos_part pre)
          ≡ max (pos_part size) (pos_part pre + n))
allocate_share (pos a) (pos b) n e f h = (post_up b n h, upstream_share_lem b n a h)
allocate_share (pos a) (negsuc b) n e f h = cc
allocate_share (negsuc a) b n e f h = cc

pub return_share :
    (size pre : ℤ) (n : ℕ)
    → size ≡ pos (pos_part size)
    → pre ≡ pos (pos_part pre)
    → n ≤ pos_part pre
    → pos_part pre < 2 ^ 63
    → (sub_i64 pre (to_i64 n) ≡ pos (pos_part pre - n))
      × (reclaimed_share pre (sub_i64 pre (to_i64 n)) size n
            + max (pos_part size) (pos_part pre - n)
          ≡ max (pos_part size) (pos_part pre))
return_share (pos a) (pos b) n e f h w = (post_down b n h w, reclaimed_share_lem b n a h w)
return_share (pos a) (negsuc b) n e f h w = cc
return_share (negsuc a) b n e f h w = cc

-- An allocation that is counted and uncounted again.
pub uncounted :
    (pre : ℤ) (n : ℕ)
    → pre ≡ pos (pos_part pre)
    → pos_part pre + n < 2 ^ 63
    → sub_i64 (add_i64 pre (to_i64 n)) (to_i64 n) ≡ pre
uncounted (pos b) n e h =
    rw (post_up b n h) (post_down (b + n) n (omega arith) h ∙ ap pos (omega arith))
uncounted (negsuc b) n e h = cc
