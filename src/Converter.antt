-- ===== src/Converter.antt =====
-- src/data/representation_converter.cpp and include/data/representation_converter.hpp, with
-- include/memory/host_table.hpp and src/data/cpu_data_representation.cpp: the registry of converters, and
-- the conversions between a table in GPU memory and a table in blocks of host memory.
-- Host memory is what each block holds at each offset; a block is known by its address. A buffer in GPU
-- memory is its bytes. cudf packs a table into bytes and metadata and unpacks it again: both functions
-- are parameters, and so is the registered converter.
pub mod Bytes
pub mod Copying
pub mod Tables
pub mod RoundTrip
pub mod Registry
pub mod Peers
mod Tests
use cu_cascade.Base.{
  ℕ, zero, suc, ◌+◌, ◌-◌, ◌*◌, Bool, true, false, ◌&&◌, Option, none, some, List, [], ◌∷◌, ltb, leb,
  ◌==◌, if◌then◌else◌, get_elem?, min, Error, runtime_error, out_of_range, null_dereference, Result,
  ok, err, ◌>>=◌,
}
use cu_cascade.Host.{
  HostResource, Allocation, no_reservation, is_empty, allocate_multiple_blocks, destroy_allocation,
}

-- The bytes at a block's offsets.
abbrev pub Memory : Type 0
Memory = ℕ → ℕ → ℕ

abbrev pub Buffer : Type 0
Buffer = ℕ → ℕ

-- `memcpy` of `n` bytes to a block at an offset; `src k` is the `k`-th of them.
abbrev pub write_block : Memory → ℕ → ℕ → ℕ → Buffer → Memory
write_block m block offset n src b i =
    if b == block && (leb offset i && ltb i (offset + n)) then src (i - offset) else m b i

abbrev pub write_buffer : Buffer → ℕ → ℕ → Buffer → Buffer
write_buffer d offset n src i = if leb offset i && ltb i (offset + n) then src (i - offset) else d i

-- A place in a list of blocks.
pub record Cursor : Type 0 where
  pub block_index : ℕ
  pub block_offset : ℕ

-- The end of a round: on to the next block if this one is full.
abbrev pub advance : Cursor → ℕ → ℕ → Cursor
advance c block_size n =
    if c.block_offset + n == block_size
    then record { block_index = suc c.block_index; block_offset = 0 }
    else record { block_index = c.block_index; block_offset = c.block_offset + n }

-- How a loop ends: by its test, by the exception of `at`, or not within the rounds that it is given.
pub data Copy (A : Type 0) : Type 0 where
  copied : A → Copy A
  no_block running : Copy A

-- The loop of `convert_gpu_to_host`.
unfoldable pub copy_to_blocks : ℕ → Buffer → ℕ → List ℕ → ℕ → Memory → Cursor → ℕ → Copy Memory
copy_to_blocks zero src size blocks block_size m c source_offset =
    if ltb source_offset size then running else copied m
copy_to_blocks (suc rounds) src size blocks block_size m c source_offset =
    let n = min (size - source_offset) (block_size - c.block_offset) in
    let later = λ (b : ℕ).
      copy_to_blocks rounds src size blocks block_size
        (write_block m b c.block_offset n (λ k. src (source_offset + k))) (advance c block_size n)
        (source_offset + n) in
    if ltb source_offset size
    then elim (get_elem? blocks c.block_index) [ none ↦ no_block | some b ↦ later b ]
    else copied m

-- The loop of `convert_host_to_gpu`.
unfoldable pub copy_from_blocks : ℕ → Memory → ℕ → List ℕ → ℕ → Buffer → Cursor → ℕ → Copy Buffer
copy_from_blocks zero m size blocks block_size d c dst_offset =
    if ltb dst_offset size then running else copied d
copy_from_blocks (suc rounds) m size blocks block_size d c dst_offset =
    let n = min (size - dst_offset) (block_size - c.block_offset) in
    let later = λ (b : ℕ).
      copy_from_blocks rounds m size blocks block_size
        (write_buffer d dst_offset n (λ k. m b (c.block_offset + k))) (advance c block_size n)
        (dst_offset + n) in
    if ltb dst_offset size
    then elim (get_elem? blocks c.block_index) [ none ↦ no_block | some b ↦ later b ]
    else copied d

-- The loop of `convert_host_to_host`.
unfoldable pub copy_between_blocks :
    ℕ → Memory → ℕ → List ℕ → ℕ → List ℕ → ℕ → Cursor → Cursor → ℕ → Copy Memory
copy_between_blocks zero m size src src_size dst dst_size s d done =
    if ltb done size then running else copied m
copy_between_blocks (suc rounds) m size src src_size dst dst_size s d done =
    let n = min (size - done) (min (src_size - s.block_offset) (dst_size - d.block_offset)) in
    let later = λ (a b : ℕ).
      copy_between_blocks rounds (write_block m b d.block_offset n (λ k. m a (s.block_offset + k)))
        size src src_size dst dst_size (advance s src_size n) (advance d dst_size n) (done + n) in
    if ltb done size
    then elim (get_elem? src s.block_index) [
      | none ↦ no_block
      | some a ↦ elim (get_elem? dst d.block_index) [ none ↦ no_block | some b ↦ later a b ]
    ]
    else copied m

abbrev pub start : Cursor
start = record { block_index = 0; block_offset = 0 }

-- `block_size()` of an allocation: that of its resource, or 0 for the empty one, which has none.
abbrev pub allocation_block_size : HostResource → Allocation → ℕ
allocation_block_size r a = if is_empty a.blocks then 0 else r.block_size

-- `cudf::packed_columns`
pub record PackedColumns : Type 0 where
  pub gpu_data : Buffer
  pub size : ℕ
  pub metadata : List ℕ

-- `host_table_allocation`, with the size of its blocks.
pub record HostTable : Type 0 where
  pub allocation : Allocation
  pub block_size : ℕ
  pub metadata : List ℕ
  pub data_size : ℕ

-- `get_size_in_bytes` of a `host_table_representation`.
unfoldable pub get_size_in_bytes : HostTable → ℕ
get_size_in_bytes t = t.data_size

-- The outcome of a conversion, with what it leaves of the host resource and of the memory.
pub record Converted : Type 0 where
  pub resource : HostResource
  pub memory : Memory
  pub table : Result HostTable

-- A loop that does not end is kept apart from its exception.
abbrev pub finish : HostResource → Memory → HostTable → Copy Memory → Option Converted
finish r m t (copied m') = some (record { resource = r; memory = m'; table = ok t })
finish r m t no_block =
    some (record {
      resource = destroy_allocation r t.allocation;
      memory = m;
      table = err out_of_range;
    })
finish r m t running = none

-- After the allocation, which may have thrown or have returned a null pointer.
abbrev pub fill :
    Memory
    → List ℕ
    → ℕ
    → (List ℕ → ℕ → Copy Memory)
    → HostResource × Result (Option Allocation)
    → Option Converted
fill m metadata size loop (r, err e) = some (record { resource = r; memory = m; table = err e })
fill m metadata size loop (r, ok none) =
    some (record { resource = r; memory = m; table = err null_dereference })
fill m metadata size loop (r, ok (some a)) =
    finish r m
      (record {
        allocation = a;
        block_size = allocation_block_size r a;
        metadata = metadata;
        data_size = size;
      })
      (loop a.blocks (allocation_block_size r a))

module _ (align_up : ℕ → ℕ → ℕ) (upstream : List (Option ℕ)) where
  -- The GPU table is given packed. `none`: the loop has not ended after `size` rounds.
  unfoldable pub convert_gpu_to_host : PackedColumns → HostResource → Memory → Option Converted
  unfolding allocate_multiple_blocks copy_to_blocks
  convert_gpu_to_host packed r m =
      fill m packed.metadata packed.size
        (λ blocks block_size.
          copy_to_blocks packed.size packed.gpu_data packed.size blocks block_size m start 0)
        (allocate_multiple_blocks align_up r packed.size no_reservation upstream)

  -- The target memory space has a host resource; without one the source throws.
  unfoldable pub convert_host_to_host : HostTable → HostResource → Memory → Option Converted
  unfolding allocate_multiple_blocks copy_between_blocks
  convert_host_to_host t r m =
      fill m t.metadata t.data_size
        (λ blocks block_size.
          copy_between_blocks t.data_size m t.data_size t.allocation.blocks t.block_size blocks
            block_size start start 0)
        (allocate_multiple_blocks align_up r t.data_size no_reservation upstream)

-- The new device buffer, of the bytes `fresh` at first.
unfoldable pub convert_host_to_gpu : HostTable → Memory → Buffer → Copy Buffer
unfolding copy_from_blocks
convert_host_to_gpu t m fresh =
    copy_from_blocks t.data_size m t.data_size t.allocation.blocks t.block_size fresh start 0

-- Types of representations, by their `type_index`.
pub record ConverterKey : Type 0 where
  pub source_type : ℕ
  pub target_type : ℕ

abbrev pub key_eq : ConverterKey → ConverterKey → Bool
key_eq a b = a.source_type == b.source_type && a.target_type == b.target_type

abbrev pub gpu_table : ℕ
gpu_table = 0

abbrev pub host_table : ℕ
host_table = 1

module _ {C : Type 0} where
  abbrev pub find_converter : List (ConverterKey × C) → ConverterKey → Option C
  find_converter [] key = none
  find_converter ((k, c) ∷ cs) key = if key_eq k key then some c else find_converter cs key

  abbrev pub erase_converter : List (ConverterKey × C) → ConverterKey → List (ConverterKey × C)
  erase_converter [] key = []
  erase_converter ((k, c) ∷ cs) key = if key_eq k key then cs else (k, c) ∷ erase_converter cs key

  unfoldable pub register_converter :
      List (ConverterKey × C) → ConverterKey → C → Result (List (ConverterKey × C))
  register_converter cs key c = elim (find_converter cs key) [
    | some old ↦ err runtime_error
    | none ↦ ok ((key, c) ∷ cs)
  ]

  unfoldable pub has_converter : List (ConverterKey × C) → ConverterKey → Bool
  has_converter cs key = elim (find_converter cs key) [ none ↦ false | some c ↦ true ]

  -- What is called is the converter that stood in the registry.
  unfoldable pub convert :
      {A : Type 0} → List (ConverterKey × C) → ConverterKey → (C → Result A) → Result A
  convert cs key call = elim (find_converter cs key) [ none ↦ err runtime_error | some c ↦ call c ]

  unfoldable pub unregister_converter :
      List (ConverterKey × C) → ConverterKey → List (ConverterKey × C) × Bool
  unfolding has_converter
  unregister_converter cs key = (erase_converter cs key, has_converter cs key)

  unfoldable pub clear : List (ConverterKey × C) → List (ConverterKey × C)
  clear cs = []

  -- One registration after another; an exception leaves those before it.
  unfoldable pub register_all :
      List (ConverterKey × C)
      → List (ConverterKey × C)
      → List (ConverterKey × C) × Result (Unit {0})
  unfolding register_converter
  register_all cs [] = (cs, ok tt)
  register_all cs ((k, c) ∷ rest) = elim (register_converter cs k c) [
    | err e ↦ (cs, err e)
    | ok cs' ↦ register_all cs' rest
  ]

  unfoldable pub register_builtin_converters :
      List (ConverterKey × C) → C → C → C → C → List (ConverterKey × C) × Result (Unit {0})
  unfolding register_all
  register_builtin_converters cs gpu_to_gpu gpu_to_host host_to_gpu host_to_host = register_all cs (
      (record { source_type = gpu_table; target_type = gpu_table }, gpu_to_gpu)
      ∷ (record { source_type = gpu_table; target_type = host_table }, gpu_to_host)
      ∷ (record { source_type = host_table; target_type = gpu_table }, host_to_gpu)
      ∷ (record { source_type = host_table; target_type = host_table }, host_to_host)
      ∷ [])

  -- The templates of the header, at the types of the two representations.
  unfoldable pub register_converter_of :
      List (ConverterKey × C) → ℕ → ℕ → C → Result (List (ConverterKey × C))
  unfolding register_converter
  register_converter_of cs source target c =
      register_converter cs (record { source_type = source; target_type = target }) c

  unfoldable pub has_converter_of : List (ConverterKey × C) → ℕ → ℕ → Bool
  unfolding has_converter
  has_converter_of cs source target =
      has_converter cs (record { source_type = source; target_type = target })

  unfoldable pub unregister_converter_of :
      List (ConverterKey × C) → ℕ → ℕ → List (ConverterKey × C) × Bool
  unfolding unregister_converter
  unregister_converter_of cs source target =
      unregister_converter cs (record { source_type = source; target_type = target })

  -- To a type that is known when the code runs, or when it is compiled.
  unfoldable pub convert_to_type :
      {A : Type 0} → List (ConverterKey × C) → ℕ → ℕ → (C → Result A) → Result A
  unfolding convert
  convert_to_type cs source target call =
      convert cs (record { source_type = source; target_type = target }) call

-- The packed table, copied as a whole into a new buffer on the other GPU, of the bytes `fresh` at first.
unfoldable pub convert_gpu_to_gpu : PackedColumns → Buffer → PackedColumns
convert_gpu_to_gpu packed fresh = record packed {
  gpu_data = write_buffer fresh 0 packed.size packed.gpu_data;
}
