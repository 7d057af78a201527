-- ===== src/Converter/Peers.antt =====
-- The copy of a table from one GPU to another.
use cu_cascade.Base.{ℕ, ◌<◌, ◌≡◌, arith}
use cu_cascade.Converter.{Buffer, write_buffer, convert_gpu_to_gpu}
use cu_cascade.Converter.RoundTrip.{Cudf}

copied_bytes : (fresh src : Buffer) (n p : ℕ) → p < n → write_buffer fresh 0 n src p ≡ src p
copied_bytes fresh src n p h = ground arith

-- A table that is converted from one GPU to another is the same there, whatever the new buffer held.
pub gpu_gpu :
    {A : Type 0} (cudf : Cudf A) (a : A) (fresh : Buffer)
    → let packed = convert_gpu_to_gpu (cudf.pack a) fresh in
      cudf.unpack packed.metadata packed.gpu_data ≡ a
unfolding convert_gpu_to_gpu
gpu_gpu cudf a fresh =
    cudf.unpack-pack a (write_buffer fresh 0 (cudf.pack a).size (cudf.pack a).gpu_data)
      (λ p h. copied_bytes fresh (cudf.pack a).gpu_data (cudf.pack a).size p h)
