-- ===== src/Converter/Tables.antt =====
-- The conversions between tables: what they leave of the host resource, and what they return.
use cu_cascade.Base.{
  ℕ, zero, suc, ◌*◌, ◌/◌, ◌≤◌, ◌<◌, ◌≡◌, refl, ◌∙◌, ◌⊎◌, false, Option, none, some, List, [], ◌∷◌,
  if◌then◌else◌, ◌==◌, length, arith, inl, inr, null_dereference, Result, ok, err,
}
use cu_cascade.Host.{HostResource, Allocation, is_empty, no_reservation, allocate_multiple_blocks}
use cu_cascade.Host.Grants.{Grant, granted, refused, failed, allocate-Grant}
use cu_cascade.Converter.{
  Memory, Buffer, Copy, copied, copy_to_blocks, copy_from_blocks, copy_between_blocks, start,
  allocation_block_size, PackedColumns, HostTable, fill, convert_gpu_to_host, convert_host_to_host,
}
use cu_cascade.Converter.Bytes.{base, byte_at, IsDistinct, base-mul}
use cu_cascade.Converter.Copying.{
  overwrite_whole, IsDisjoint, copy_to_blocks_ends, copy_from_blocks_ends, copy_between_blocks_ends,
}

-- `rmm::align_up` rounds up to a multiple.
abbrev pub IsAligned : (ℕ → ℕ → ℕ) → ℕ → ℕ → Type 0
IsAligned align_up n b = (n ≤ align_up n b) × (align_up n b / b * b ≡ align_up n b)

-- The blocks have room for the bytes.
abbrev pub HasRoom : ℕ → ℕ → List ℕ → Type 0
HasRoom size block_size blocks =
    (size ≡ 0) ⊎ ((0 < block_size) × (size ≤ base block_size (length blocks)))

-- What a conversion to host memory returns, from what the allocation returned.
abbrev pub table_of : ℕ → List ℕ → HostResource × Result (Option Allocation) → Result HostTable
table_of size metadata (r, err e) = err e
table_of size metadata (r, ok none) = err null_dereference
table_of size metadata (r, ok (some a)) = ok (record {
  allocation = a;
  block_size = allocation_block_size r a;
  metadata = metadata;
  data_size = size;
})

-- Different blocks hold the bytes `f` below the size.
abbrev pub Holds : Memory → ℕ → ℕ → List ℕ → Buffer → Type 0
Holds m size block_size blocks f =
    IsDistinct blocks → (p : ℕ) → p < size → byte_at m block_size blocks p ≡ f p

-- A table, if there is one, has room for its bytes, and `Q` of its blocks.
abbrev pub Stored : (ℕ → List ℕ → Memory → Type 0) → Memory → Result HostTable → Type 0
Stored Q m (err e) = Unit
Stored Q m (ok t) =
    HasRoom t.data_size t.block_size t.allocation.blocks × Q t.block_size t.allocation.blocks m

abbrev Allocated : ℕ → HostResource × Result (Option Allocation) → Type 0
Allocated size (r, err e) = Unit
Allocated size (r, ok none) = Unit
Allocated size (r, ok (some a)) = HasRoom size (allocation_block_size r a) a.blocks

fill_ends :
    (m : Memory) (metadata : List ℕ) (size : ℕ) (loop : List ℕ → ℕ → Copy Memory)
    (Q : ℕ → List ℕ → Memory → Type 0) (g : HostResource × Result (Option Allocation))
    → Allocated size g
    → ((blocks : List ℕ) (block_size : ℕ)
        → HasRoom size block_size blocks
        → (m' : Memory) × (loop blocks block_size ≡ copied m') × Q block_size blocks m')
    → (m' : Memory) × (fill m metadata size loop g
        ≡ some (record { resource = g.0; memory = m'; table = table_of size metadata g }))
      × Stored Q m' (table_of size metadata g)
fill_ends m metadata size loop Q (r, err e) a h = (m, refl, tt)
fill_ends m metadata size loop Q (r, ok none) a h = (m, refl, tt)
fill_ends m metadata size loop Q (r, ok (some x)) a h =
    let (m', e, q) = h x.blocks (allocation_block_size r x) a in (m', rw e refl, (a, q))

room_in :
    (size block_size : ℕ) (blocks : List ℕ)
    → 0 < block_size
    → 0 < size
    → size ≤ length blocks * block_size
    → HasRoom size (if is_empty blocks then 0 else block_size) blocks
room_in size block_size [] p s h = absurd (omega arith)
room_in size block_size (b ∷ blocks) p s h =
    inr (p, omega (arith, base-mul block_size (suc (length blocks))))

Grant-Allocated :
    (size total block_size : ℕ) (g : HostResource × Result (Option Allocation))
    → 0 < block_size
    → 0 < size
    → size ≤ total
    → total / block_size * block_size ≡ total
    → Grant total block_size g
    → Allocated size g
Grant-Allocated size total block_size _ p s h k (granted r a e l) =
    room_in size r.block_size a.blocks (omega (arith, e)) s (rw (l, e) (omega (arith, k)))
Grant-Allocated size total block_size _ p s h k (refused r) = tt
Grant-Allocated size total block_size _ p s h k (failed r e) = tt

nonzero : (n : ℕ) → (suc n == 0) ≡ false
nonzero n = ground arith

allocate-Allocated :
    (align_up : ℕ → ℕ → ℕ) (upstream : List (Option ℕ)) (r : HostResource) (size : ℕ)
    → 0 < r.block_size
    → IsAligned align_up size r.block_size
    → Allocated size (allocate_multiple_blocks align_up r size no_reservation upstream)
unfolding allocate_multiple_blocks
allocate-Allocated align_up upstream r zero p h = inl refl
allocate-Allocated align_up upstream r (suc n) p h = rw (nonzero n) (
    Grant-Allocated (suc n) (align_up (suc n) r.block_size) r.block_size _ p (omega arith) h.0 h.1
      (allocate-Grant r (align_up (suc n) r.block_size) upstream))

-- The three loops, from their start.
to_blocks_whole :
    (src : Buffer) (size : ℕ) (m : Memory) (blocks : List ℕ) (block_size : ℕ)
    → HasRoom size block_size blocks
    → (m' : Memory) × (copy_to_blocks size src size blocks block_size m start 0 ≡ copied m')
      × Holds m' size block_size blocks src
unfolding copy_to_blocks
to_blocks_whole src zero m blocks block_size h = (m, refl, λ d p l. absurd (omega arith))
to_blocks_whole src (suc n) m blocks block_size (inl z) = absurd (omega arith)
to_blocks_whole src (suc n) m blocks block_size (inr (p, h)) =
    let (m', e, w) =
      copy_to_blocks_ends (suc n) src (suc n) blocks block_size m start 0
        (record { enough = h; at = refl; within = p }) (omega arith) (omega arith) in
    (m', e, λ d p l. w d p ∙ overwrite_whole (byte_at m block_size blocks) src (suc n) p l)

pub to_buffer_whole :
    (m : Memory) (size : ℕ) (blocks : List ℕ) (block_size : ℕ) (fresh : Buffer)
    → HasRoom size block_size blocks
    → (g : Buffer) × (copy_from_blocks size m size blocks block_size fresh start 0 ≡ copied g)
      × ((p : ℕ) → p < size → g p ≡ byte_at m block_size blocks p)
unfolding copy_from_blocks
to_buffer_whole m zero blocks block_size fresh h = (fresh, refl, λ p l. absurd (omega arith))
to_buffer_whole m (suc n) blocks block_size fresh (inl z) = absurd (omega arith)
to_buffer_whole m (suc n) blocks block_size fresh (inr (p, h)) =
    let (g, e, w) =
      copy_from_blocks_ends (suc n) m (suc n) blocks block_size fresh start 0
        (record { enough = h; at = refl; within = p }) (omega arith) (omega arith) in
    (g, e, λ q l. w q ∙ overwrite_whole fresh (byte_at m block_size blocks) (suc n) q l)

between_whole :
    (m : Memory) (size : ℕ) (src : List ℕ) (src_size : ℕ) (dst : List ℕ) (dst_size : ℕ)
    → HasRoom size src_size src
    → HasRoom size dst_size dst
    → (m' : Memory) × (copy_between_blocks size m size src src_size dst dst_size start start 0
        ≡ copied m')
      × (IsDisjoint src dst → Holds m' size dst_size dst (byte_at m src_size src))
unfolding copy_between_blocks
between_whole m zero src src_size dst dst_size h k = (m, refl, λ j d p l. absurd (omega arith))
between_whole m (suc n) src src_size dst dst_size (inl z) k = absurd (omega arith)
between_whole m (suc n) src src_size dst dst_size h (inl z) = absurd (omega arith)
between_whole m (suc n) src src_size dst dst_size (inr (p, h)) (inr (p', k)) =
    let (m', e, w) =
      copy_between_blocks_ends (suc n) m (suc n) src src_size dst dst_size start start 0
        (record { enough = h; at = refl; within = p })
        (record { enough = k; at = refl; within = p' }) (omega arith) (omega arith) in
    (
      m',
      e,
      λ j d q l.
          w d j q ∙ overwrite_whole (byte_at m dst_size dst) (byte_at m src_size src) (suc n) q l,
    )

-- `convert_gpu_to_host` ends, for a host resource whose block size is not 0: its loop does not outrun the blocks. It
-- returns a table exactly if the allocation returned blocks, throws what the allocation threw, and dereferences a null
-- pointer if the allocation returned one. The table has the size and the metadata of the packed columns, room for the
-- bytes, and the bytes in order, if the blocks have different addresses.
pub gpu_to_host_ends :
    (align_up : ℕ → ℕ → ℕ) (upstream : List (Option ℕ)) (packed : PackedColumns) (r : HostResource)
    (m : Memory)
    → 0 < r.block_size
    → IsAligned align_up packed.size r.block_size
    → let g = allocate_multiple_blocks align_up r packed.size no_reservation upstream in
      (m' : Memory) × (convert_gpu_to_host align_up upstream packed r m
        ≡ some (record {
          resource = g.0;
          memory = m';
          table = table_of packed.size packed.metadata g;
        }))
      × Stored
          (λ block_size blocks m''. Holds m'' packed.size block_size blocks packed.gpu_data)
          m'
          (table_of packed.size packed.metadata g)
unfolding convert_gpu_to_host
gpu_to_host_ends align_up upstream packed r m p h =
    fill_ends m packed.metadata packed.size _ _ _
      (allocate-Allocated align_up upstream r packed.size p h)
      (λ blocks block_size room.
        to_blocks_whole packed.gpu_data packed.size m blocks block_size room)

-- `convert_host_to_host` likewise, from a table with room for its bytes and whatever its block size: the new table
-- has the bytes of the old one if no block of the one is a block of the other.
pub host_to_host_ends :
    (align_up : ℕ → ℕ → ℕ) (upstream : List (Option ℕ)) (t : HostTable) (r : HostResource)
    (m : Memory)
    → HasRoom t.data_size t.block_size t.allocation.blocks
    → 0 < r.block_size
    → IsAligned align_up t.data_size r.block_size
    → let g = allocate_multiple_blocks align_up r t.data_size no_reservation upstream in
      (m' : Memory) × (convert_host_to_host align_up upstream t r m
        ≡ some (record { resource = g.0; memory = m'; table = table_of t.data_size t.metadata g }))
      × Stored
          (λ block_size blocks m''.
            IsDisjoint t.allocation.blocks blocks
            → Holds m'' t.data_size block_size blocks (byte_at m t.block_size t.allocation.blocks))
          m'
          (table_of t.data_size t.metadata g)
unfolding convert_host_to_host
host_to_host_ends align_up upstream t r m room p h =
    fill_ends m t.metadata t.data_size _ _ _
      (allocate-Allocated align_up upstream r t.data_size p h)
      (λ blocks block_size room'.
        between_whole m t.data_size t.allocation.blocks t.block_size blocks block_size room room')
