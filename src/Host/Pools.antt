-- ===== src/Host/Pools.antt =====
-- The pools that the constructor allocates.
use mathlib.Core.Path.{subst}
use cu_cascade.Base.{
  ℕ, zero, suc, ◌+◌, ◌*◌, ◌%◌, ◌^◌, ◌<◌, ◌≡◌, refl, ap, ◌∙◌, Option, none, some, List, [], ◌∷◌, max,
  arith, length, map, length-append, ok,
}
use cu_cascade.Base.Words.{word_size}
use cu_cascade.Host.{
  HostResource, pool_blocks, expand_pool, expand_initial, fixed_size_host_memory_resource, destroy,
}
use cu_cascade.Host.Charges.{Inv}
use cu_cascade.Host.Collecting.{SameAccounts, SameAccounts-trans}

length-pool_blocks : (large size n : ℕ) → length (pool_blocks large size n) ≡ n
length-pool_blocks large size zero = refl
length-pool_blocks large size (suc n) = ap suc (length-pool_blocks large size n)

-- The resource has `n` pools more, whose blocks are free.
record Expanded (n : ℕ) (r r' : HostResource) : Type 0 where
  pub accounts : SameAccounts r r'
  pub pools : length r'.allocated_blocks ≡ n + length r.allocated_blocks
  pub blocks : length r'.free_blocks ≡ n * r.pool_size + length r.free_blocks

expand_initial-Expanded :
    (larges : List ℕ) (r : HostResource)
    → (r' : HostResource) × (expand_initial (length larges) r (map some larges) ≡ ok r')
      × Expanded (length larges) r r'
unfolding expand_pool
expand_initial-Expanded [] r =
    (r, refl, record { accounts = ground arith; pools = omega arith; blocks = omega arith })
expand_initial-Expanded (large ∷ larges) r =
    let (r', e, x) = expand_initial-Expanded larges (expand_pool r large) in
    (
      r',
      e,
      record {
        accounts = SameAccounts-trans r (expand_pool r large) r' (ground arith) x.accounts;
        pools = omega (arith, x.pools);
        blocks = omega (
          arith,
          x.blocks,
          length-append (pool_blocks large r.block_size r.pool_size) r.free_blocks,
          length-pool_blocks large r.block_size r.pool_size,
        );
      },
    )

-- The loop changes nothing but the blocks, if it ends without an exception.
pub expand_initial-SameAccounts :
    (n : ℕ) (r : HostResource) (upstream : List (Option ℕ)) (r' : HostResource)
    → expand_initial n r upstream ≡ ok r'
    → SameAccounts r r'
unfolding expand_pool
expand_initial-SameAccounts zero r upstream r' e =
    let same : r ≡ r' = cc in subst (SameAccounts r) same (ground arith)
expand_initial-SameAccounts (suc n) r [] r' e = cc
expand_initial-SameAccounts (suc n) r (none ∷ upstream) r' e = cc
expand_initial-SameAccounts (suc n) r (some large ∷ upstream) r' e =
    SameAccounts-trans r (expand_pool r large) r' (ground arith)
      (expand_initial-SameAccounts n (expand_pool r large) upstream r' e)

pub idle-Inv :
    (r r' : HostResource)
    → SameAccounts r r'
    → r.allocated_bytes ≡ 0
    → r.active_reservations ≡ []
    → max r.memory_limit r.memory_capacity < 2 ^ 62
    → Inv 0 r'
idle-Inv r r' s z e small = record {
  accounted = rw (s.slots, e) (omega (arith, s.bytes, z));
  limited = omega (arith, s.bytes, z);
  small = rw (s.limit, s.capacity) small;
  counted = rw (s.slots, e) tt;
}

length-returned :
    (size : ℕ) (bs : List ℕ) → length {A = ℕ × ℕ} (map (λ b. (b, size)) bs) ≡ length bs
length-returned size [] = refl
length-returned size (b ∷ bs) = ap suc (length-returned size bs)

-- A host resource that is constructed with as many answers of the upstream resource as pools has nothing allocated and
-- nothing reserved, so that its accounts hold, and has all the blocks of its pools free. Its destructor gives each pool back.
pub constructed-Inv :
    (align_up : ℕ → ℕ → ℕ) (alignment limit capacity block_size pool_size : ℕ) (larges : List ℕ)
    → max limit capacity < 2 ^ 62
    → (r : HostResource) × (fixed_size_host_memory_resource align_up alignment
          (map some larges)
          limit
          capacity
          block_size
          pool_size
          (length larges)
        ≡ ok r)
      × Inv 0 r
      × (length r.free_blocks ≡ length larges * pool_size)
      × (length (destroy r).1 ≡ length larges)
unfolding fixed_size_host_memory_resource destroy
constructed-Inv align_up alignment limit capacity block_size pool_size larges small =
    let (r, e, x) = expand_initial-Expanded larges _ in
    (
      r,
      e,
      idle-Inv _ r x.accounts refl refl small,
      omega (arith, x.blocks),
      length-returned ((r.block_size * r.pool_size) % word_size) r.allocated_blocks
          ∙ omega (arith, x.pools),
    )
