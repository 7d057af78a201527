-- ===== src/Converter/RoundTrip.antt =====
-- A table that goes to host memory, from there to other blocks of host memory, and back to the GPU.
use mathlib.Core.Path.{subst}
use cu_cascade.Base.{ℕ, ◌<◌, ◌≡◌, sym, ap, ◌∙◌, Option, none, some, List, Result, ok, err}
use cu_cascade.Host.{HostResource, Allocation}
use cu_cascade.Converter.{
  Memory, Buffer, copied, PackedColumns, HostTable, Converted, convert_gpu_to_host,
  convert_host_to_host, convert_host_to_gpu,
}
use cu_cascade.Converter.Bytes.{byte_at, IsDistinct}
use cu_cascade.Converter.Copying.{IsDisjoint}
use cu_cascade.Converter.Tables.{
  IsAligned, HasRoom, Holds, Stored, table_of, gpu_to_host_ends, host_to_host_ends, to_buffer_whole,
}

-- `cudf::pack` and `cudf::unpack`: a table is read again from its bytes and metadata.
pub record Cudf (A : Type 0) : Type 0 where
  pub pack : A → PackedColumns
  pub unpack : List ℕ → Buffer → A
  pub unpack-pack :
      (a : A) (f : Buffer)
      → ((p : ℕ) → p < (pack a).size → f p ≡ (pack a).gpu_data p)
      → unpack (pack a).metadata f ≡ a

-- A table in host memory whose bytes are those of packed columns.
pub record IsCopy (packed : PackedColumns) (m : Memory) (t : HostTable) : Type 0 where
  pub size : t.data_size ≡ packed.size
  pub metadata : t.metadata ≡ packed.metadata
  pub room : HasRoom t.data_size t.block_size t.allocation.blocks
  pub bytes :
      (p : ℕ) → p < packed.size → byte_at m t.block_size t.allocation.blocks p ≡ packed.gpu_data p

some_injective : {A : Type 0} (a b : A) → some a ≡ some b → a ≡ b
some_injective a b e = cc

table_of_fields :
    (size : ℕ) (metadata : List ℕ) (g : HostResource × Result (Option Allocation)) (t : HostTable)
    → table_of size metadata g ≡ ok t
    → (t.data_size ≡ size) × (t.metadata ≡ metadata)
table_of_fields size metadata (r, err x) t e = cc
table_of_fields size metadata (r, ok none) t e = cc
table_of_fields size metadata (r, ok (some a)) t e = (cc, cc)

-- What the table that a conversion returned has, from what the conversion stored.
table_of_facts :
    (size : ℕ) (metadata : List ℕ) (g : HostResource × Result (Option Allocation)) (m' : Memory)
    (Q : ℕ → List ℕ → Memory → Type 0) (c : Option Converted) (o : Converted) (t : HostTable)
    → c ≡ some (record { resource = g.0; memory = m'; table = table_of size metadata g })
    → Stored Q m' (table_of size metadata g)
    → c ≡ some o
    → o.table ≡ ok t
    → (t.data_size ≡ size)
      × (t.metadata ≡ metadata)
      × HasRoom t.data_size t.block_size t.allocation.blocks
      × Q t.block_size t.allocation.blocks o.memory
table_of_facts size metadata g m' Q c o t e s e' k =
    let same = some_injective _ o (sym e ∙ e') in
    let table = ap (λ (x : Converted). x.table) same ∙ k in
    let (n, d) = table_of_fields size metadata g t table in
    let (room, q) =
      subst (λ x. Stored Q o.memory x) table
        (subst (λ x. Stored Q x (table_of size metadata g)) (ap (λ (x : Converted). x.memory) same)
          s) in
    (n, d, room, q)

module _ (align_up : ℕ → ℕ → ℕ) (upstream : List (Option ℕ)) where
  -- A conversion from GPU memory that returns a table in different blocks has copied it.
  pub gpu_to_host-IsCopy :
      (packed : PackedColumns) (r : HostResource) (m : Memory) (o : Converted) (t : HostTable)
      → 0 < r.block_size
      → IsAligned align_up packed.size r.block_size
      → convert_gpu_to_host align_up upstream packed r m ≡ some o
      → o.table ≡ ok t
      → IsDistinct t.allocation.blocks
      → IsCopy packed o.memory t
  gpu_to_host-IsCopy packed r m o t p h e k d =
      let (m', e', s) = gpu_to_host_ends align_up upstream packed r m p h in
      let (n, d', room, q) =
        table_of_facts packed.size packed.metadata _ m'
          (λ x x' x''. Holds x'' packed.size x x' packed.gpu_data) _ o t e' s e k in
      record { size = n; metadata = d'; room = room; bytes = q d }

  -- And one between blocks of host memory, from a copy to a copy.
  pub host_to_host-IsCopy :
      (packed : PackedColumns) (r : HostResource) (m : Memory) (t : HostTable) (o : Converted)
      (t' : HostTable)
      → 0 < r.block_size
      → IsAligned align_up packed.size r.block_size
      → IsCopy packed m t
      → convert_host_to_host align_up upstream t r m ≡ some o
      → o.table ≡ ok t'
      → IsDistinct t'.allocation.blocks
      → IsDisjoint t.allocation.blocks t'.allocation.blocks
      → IsCopy packed o.memory t'
  host_to_host-IsCopy packed r m t o t' p h c e k d j =
      let (m', e', s) = host_to_host_ends align_up upstream t r m c.room p (rw c.size h) in
      let (n, d', room, q) =
        table_of_facts t.data_size t.metadata _ m'
          (λ x x' x''.
            IsDisjoint t.allocation.blocks x'
            → Holds x'' t.data_size x x' (byte_at m t.block_size t.allocation.blocks))
          _ o t' e' s e k in
      record {
        size = n ∙ c.size;
        metadata = d' ∙ c.metadata;
        room = room;
        bytes = λ i l. q j d i (rw c.size l) ∙ c.bytes i l;
      }

-- A conversion back to the GPU ends, with the bytes of the copy.
host_to_gpu-IsCopy :
    (packed : PackedColumns) (m : Memory) (t : HostTable) (fresh : Buffer)
    → IsCopy packed m t
    → (g : Buffer) × (convert_host_to_gpu t m fresh ≡ copied g)
      × ((p : ℕ) → p < packed.size → g p ≡ packed.gpu_data p)
unfolding convert_host_to_gpu
host_to_gpu-IsCopy packed m t fresh c =
    let (g, e, w) = to_buffer_whole m t.data_size t.allocation.blocks t.block_size fresh c.room in
    (g, e, λ p l. w p (rw c.size l) ∙ c.bytes p l)

-- A table that `convert_gpu_to_host` has put into host memory, and `convert_host_to_host` then into other blocks, of a
-- resource whose blocks may have another size, comes back from `convert_host_to_gpu` as it was, in a buffer whose bytes
-- were arbitrary. The blocks of each copy have different addresses, and no block is in both.
pub gpu_host_host_gpu :
    {A : Type 0} (cudf : Cudf A) (a : A) (align_up : ℕ → ℕ → ℕ) (up up' : List (Option ℕ))
    (r r' : HostResource) (m : Memory) (o o' : Converted) (t t' : HostTable) (fresh : Buffer)
    → 0 < r.block_size
    → 0 < r'.block_size
    → IsAligned align_up (cudf.pack a).size r.block_size
    → IsAligned align_up (cudf.pack a).size r'.block_size
    → convert_gpu_to_host align_up up (cudf.pack a) r m ≡ some o
    → o.table ≡ ok t
    → convert_host_to_host align_up up' t r' o.memory ≡ some o'
    → o'.table ≡ ok t'
    → IsDistinct t.allocation.blocks
    → IsDistinct t'.allocation.blocks
    → IsDisjoint t.allocation.blocks t'.allocation.blocks
    → (g : Buffer) × (convert_host_to_gpu t' o'.memory fresh ≡ copied g)
      × (cudf.unpack t'.metadata g ≡ a)
gpu_host_host_gpu cudf a align_up up up' r r' m o o' t t' fresh p p' h h' e k e' k' d d' j =
    let first = gpu_to_host-IsCopy align_up up (cudf.pack a) r m o t p h e k d in
    let second =
      host_to_host-IsCopy align_up up' (cudf.pack a) r' o.memory t o' t' p' h' first e' k' d' j in
    let (g, c, w) = host_to_gpu-IsCopy (cudf.pack a) o'.memory t' fresh second in
    (g, c, rw second.metadata (cudf.unpack-pack a g w))
