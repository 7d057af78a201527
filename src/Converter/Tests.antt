-- ===== src/Converter/Tests.antt =====
-- Runs of the conversions and of the registry, and the theorems at inputs that meet their hypotheses.
use cu_cascade.Base.{
  ◌≢◌, true, false, Result, ok, ℕ, ◌+◌, ◌-◌, ◌*◌, ◌/◌, ◌≡◌, refl, ◌∙◌, Option, none, some, List, [],
  ◌∷◌, arith, err, runtime_error, null_dereference,
}
use cu_cascade.Atomics.{try_add, update_peak}
use cu_cascade.Base.Words.{add64}
use cu_cascade.Host.{
  HostResource, no_reservation, slot_of, take_blocks, next_block, expand_pool, allocate_blocks,
  allocate_multiple_blocks,
}
use cu_cascade.Converter.{
  unregister_converter, gpu_table, host_table, has_converter, find_converter, convert,
  register_converter, Memory, Buffer, copied, HostTable, Converted, convert_gpu_to_host,
  convert_host_to_host, convert_host_to_gpu, copy_to_blocks, copy_between_blocks, ConverterKey,
}
use cu_cascade.Converter.Bytes.{IsDistinct}
use cu_cascade.Converter.Tables.{Holds, Stored, table_of, gpu_to_host_ends}
use cu_cascade.Converter.RoundTrip.{Cudf, gpu_host_host_gpu}
use cu_cascade.Converter.Registry.{IsUnique, register-find}

abbrev align_up : ℕ → ℕ → ℕ
align_up n block = (n + block - 1) / block * block

abbrev host : ℕ → ℕ → HostResource
host block_size capacity = record {
  memory_limit = capacity;
  memory_capacity = capacity;
  block_size = block_size;
  pool_size = 2;
  allocated_blocks = [];
  free_blocks = [];
  allocated_bytes = 0;
  peak_allocated_bytes = 0;
  active_reservations = [];
  next_uuid = 0;
}

-- A table is a number here, and its ten bytes count on from it.
abbrev counting : Cudf ℕ
counting = record {
  pack = λ n. record { gpu_data = λ p. n + p; size = 10; metadata = 7 ∷ [] };
  unpack = λ metadata f. f 0;
  unpack-pack = λ a f h. h 0 (omega arith) ∙ omega arith;
}

abbrev nowhere : Memory
nowhere b i = 0

abbrev upstream : List (Option ℕ)
upstream = some 100 ∷ some 200 ∷ []

abbrev upstream' : List (Option ℕ)
upstream' = some 400 ∷ []

abbrev table : ℕ → List ℕ → HostTable
table block_size blocks = record {
  allocation = record { blocks = blocks; reserved_memory = none };
  block_size = block_size;
  metadata = 7 ∷ [];
  data_size = 10;
}

abbrev first : HostTable
first = table 4 (104 ∷ 100 ∷ 204 ∷ [])

abbrev second : HostTable
second = table 8 (408 ∷ 400 ∷ [])

abbrev result : Option Converted → Converted
result (some o) = o
result none = record { resource = host 0 0; memory = nowhere; table = err runtime_error }

abbrev stored : Converted
stored = result (convert_gpu_to_host align_up upstream (counting.pack 5) (host 4 64) nowhere)

abbrev moved : Converted
moved = result (convert_host_to_host align_up upstream' first (host 8 64) stored.memory)

gpu_to_host_ends_example :
    let g = allocate_multiple_blocks align_up (host 4 64) 10 no_reservation upstream in
    (m' : Memory) × (convert_gpu_to_host align_up upstream (counting.pack 5) (host 4 64) nowhere
      ≡ some (record { resource = g.0; memory = m'; table = table_of 10 (7 ∷ []) g }))
    × Stored
        (λ block_size blocks m''. Holds m'' 10 block_size blocks (λ p. 5 + p))
        m'
        (table_of 10 (7 ∷ []) g)
gpu_to_host_ends_example =
    gpu_to_host_ends align_up upstream (counting.pack 5) (host 4 64) nowhere (omega arith)
      (omega arith, refl)

first-IsDistinct : IsDistinct (104 ∷ 100 ∷ 204 ∷ [])
first-IsDistinct = ground arith

gpu_host_host_gpu_example :
    (g : Buffer) × (convert_host_to_gpu second moved.memory (λ p. 99) ≡ copied g) × (g 0 ≡ 5)
unfolding convert_gpu_to_host allocate_multiple_blocks allocate_blocks slot_of take_blocks
    next_block expand_pool try_add add64 update_peak convert_host_to_host copy_to_blocks
    copy_between_blocks
gpu_host_host_gpu_example =
    gpu_host_host_gpu counting 5 align_up upstream upstream' (host 4 64) (host 8 64) nowhere stored
      moved first second (λ p. 99) (omega arith) (omega arith) (omega arith, refl)
      (omega arith, refl) refl refl refl refl first-IsDistinct (ground arith) (ground arith)

-- With room for two blocks, the third of which the ten bytes need, the conversion dereferences a null pointer.
refused :
    (result (convert_gpu_to_host align_up upstream (counting.pack 5) (host 4 8) nowhere)).table
    ≡ err null_dereference
unfolding convert_gpu_to_host allocate_multiple_blocks allocate_blocks slot_of take_blocks
    next_block expand_pool try_add add64 update_peak copy_to_blocks
refused = refl

abbrev key : ℕ → ℕ → ConverterKey
key source target = record { source_type = source; target_type = target }

abbrev registry : List (ConverterKey × ℕ)
registry = (key 0 1, 10) ∷ (key 1 0, 20) ∷ []

registry-IsUnique : IsUnique registry
registry-IsUnique = (refl, (refl, tt))

abbrev to_host : ConverterKey
to_host = record { source_type = gpu_table; target_type = host_table }

abbrev from_host : ConverterKey
from_host = record { source_type = host_table; target_type = gpu_table }

-- Converters that add a number.
abbrev one_converter : List (ConverterKey × ℕ)
one_converter = (to_host, 7) ∷ []

abbrev call_with_5 : ℕ → Result ℕ
call_with_5 c = ok (5 + c)

register-find_example :
    (has_converter one_converter from_host ≡ false
      → (cs : List (ConverterKey × ℕ)) × (register_converter one_converter from_host 9 ≡ ok cs)
        × (find_converter cs from_host ≡ some 9)
        × ((k : ConverterKey)
            → from_host ≢ k
            → find_converter cs k ≡ find_converter one_converter k)
        × (convert cs from_host call_with_5 ≡ call_with_5 9)
        × (unregister_converter cs from_host ≡ (one_converter, true)))
    × (has_converter one_converter from_host ≡ true
        → register_converter one_converter from_host 9 ≡ err runtime_error)
register-find_example = register-find one_converter from_host 9 call_with_5
