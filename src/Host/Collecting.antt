-- ===== src/Host/Collecting.antt =====
-- The loop of `allocate_multiple_blocks` that collects the blocks.
use cu_cascade.Base.{
  reverse_onto, length-reverse_onto, ℕ, zero, suc, ◌+◌, ◌≡◌, refl, sym, ◌∙◌, Option, none, some,
  List, [], ◌∷◌, ◌++◌, arith, length,
}
use cu_cascade.Host.{
  HostResource, NextBlock, got, upstream_threw, still_empty, pop_free, next_block, expand_pool,
  pool_blocks, Taking, taken, upstream_failed, exhausted, take_blocks,
}

-- Nothing but the blocks differs.
pub record SameAccounts (r r' : HostResource) : Type 0 where
  pub limit : r'.memory_limit ≡ r.memory_limit
  pub capacity : r'.memory_capacity ≡ r.memory_capacity
  pub size : r'.block_size ≡ r.block_size
  pub pool : r'.pool_size ≡ r.pool_size
  pub bytes : r'.allocated_bytes ≡ r.allocated_bytes
  pub slots : r'.active_reservations ≡ r.active_reservations
  pub peak : r'.peak_allocated_bytes ≡ r.peak_allocated_bytes
  pub next : r'.next_uuid ≡ r.next_uuid

pub SameAccounts-trans :
    (a b c : HostResource) → SameAccounts a b → SameAccounts b c → SameAccounts a c
SameAccounts-trans a b c p q = record {
  limit = q.limit ∙ p.limit;
  capacity = q.capacity ∙ p.capacity;
  size = q.size ∙ p.size;
  pool = q.pool ∙ p.pool;
  bytes = q.bytes ∙ p.bytes;
  slots = q.slots ∙ p.slots;
  peak = q.peak ∙ p.peak;
  next = q.next ∙ p.next;
}

-- What one round of the loop does.
data Next (r : HostResource) : NextBlock → Type 0 where
  next_got :
      (b : ℕ) (r' : HostResource) (up : List (Option ℕ)) → SameAccounts r r' → Next r (got b r' up)
  next_threw : Next r upstream_threw
  next_empty : (r' : HostResource) → SameAccounts r r' → r.pool_size ≡ 0 → Next r (still_empty r')

pop_free-Next :
    (r r' : HostResource) (up : List (Option ℕ)) (free : List ℕ)
    → SameAccounts r r'
    → (free ≡ [] → r.pool_size ≡ 0)
    → Next r (pop_free r' up free)
pop_free-Next r r' up [] s z = next_empty r' s (z refl)
pop_free-Next r r' up (b ∷ bs) s z = next_got b _ up (SameAccounts-trans r r' _ s (ground arith))

pool_blocks-nil : (large size n : ℕ) (free : List ℕ) → pool_blocks large size n ++ free ≡ [] → n ≡ 0
pool_blocks-nil large size zero free e = refl
pool_blocks-nil large size (suc n) free e = cc

next_block-Next :
    (r : HostResource) (up : List (Option ℕ)) (free : List ℕ) → Next r (next_block r up free)
unfolding next_block expand_pool
next_block-Next r up (b ∷ bs) = next_got _ _ _ (ground arith)
next_block-Next r [] [] = next_threw
next_block-Next r (none ∷ up) [] = next_threw
next_block-Next r (some large ∷ up) [] =
    pop_free-Next r _ up _ (ground arith)
      (pool_blocks-nil large r.block_size r.pool_size r.free_blocks)

-- The loop changes nothing but the blocks. It collects as many as it is asked for, unless the upstream
-- resource throws; with a pool size of 0 alone it can end for want of a block.
pub data Took (n : ℕ) (r : HostResource) (allocated : List ℕ) : HostResource × Taking → Type 0 where
  all_taken :
      (r' : HostResource) (bs : List ℕ)
      → SameAccounts r r'
      → length bs ≡ n + length allocated
      → Took n r allocated (r', taken bs)
  threw : (r' : HostResource) → SameAccounts r r' → Took n r allocated (r', upstream_failed)
  ran_out :
      (r' : HostResource) → SameAccounts r r' → r.pool_size ≡ 0 → Took n r allocated (r', exhausted)

pub take-Took :
    (n : ℕ) (r : HostResource) (allocated : List ℕ) (up : List (Option ℕ))
    → Took n r allocated (take_blocks n r allocated up)
unfolding take_blocks
take-Took zero r allocated up =
    all_taken r (reverse_onto allocated []) (ground arith)
      (omega (arith, length-reverse_onto allocated []))
take-Took (suc n) r allocated up =
    go (λ r' b up'. take-Took n r' (b ∷ allocated) up') (next_block r up r.free_blocks) refl
      (next_block-Next r up r.free_blocks)
  where
    later :
        (r' : HostResource) (b : ℕ) (t : HostResource × Taking)
        → SameAccounts r r'
        → Took n r' (b ∷ allocated) t
        → Took (suc n) r allocated t
    later r' b t s (all_taken q bs k l) =
        all_taken q bs (SameAccounts-trans r r' q s k) (omega arith)
    later r' b t s (threw q k) = threw q (SameAccounts-trans r r' q s k)
    later r' b t s (ran_out q k z) = ran_out q (SameAccounts-trans r r' q s k) (sym s.pool ∙ z)

    go :
        ((r' : HostResource) (b : ℕ) (up' : List (Option ℕ))
          → Took n r' (b ∷ allocated) (take_blocks n r' (b ∷ allocated) up'))
        → (o : NextBlock) → next_block r up r.free_blocks ≡ o
        → Next r o
        → Took (suc n) r allocated (take_blocks (suc n) r allocated up)
    go ih (got b r' up') e (next_got _ _ _ s) = rw (e, take_blocks) (later r' b _ s (ih r' b up'))
    go ih upstream_threw e next_threw = rw (e, take_blocks) (threw r (ground arith))
    go ih (still_empty r') e (next_empty _ s z) =
        rw (e, take_blocks) (ran_out _ (SameAccounts-trans r r' _ s (ground arith)) z)
