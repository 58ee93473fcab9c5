-- ===== src/Gguf/Wrapped.antt =====
-- Where the int64 of internal/download/file_ops.go wraps, the check accepts a tensor that is beyond the
-- file.
use inference_budget_control.Prelude.{ℕ, ◌+◌, ◌-◌, ◌^◌, ◌≤◌, ◌<◌, [], ◌∷◌, ◌≡◌, arith, false, some}
use inference_budget_control.Prelude.Int.{
  ℤ, pos, negsuc, ◌+ℤ◌, ◌≤ℤ◌, int64, ltb_ℤ, int64-pos, max_int64,
}
use inference_budget_control.Prelude.Results.{ok}
use inference_budget_control.Gguf.{TensorInfo}
use inference_budget_control.Gguf.Bounds.{
  QuantInfo, quant_types, find_quant, compute_tensor_data_size, end_offset, check_tensors,
  validate_gguf_tensor_bounds,
}
use inference_budget_control.Gguf.Within.{
  data_size, IsModest, align_up, IsWithin, blocks_size-exact, tensor_data_start-exact,
}

int64-wrapped : (n : ℕ) → 2 ^ 63 ≤ n → n < 2 ^ 64 → int64 (pos n) ≡ negsuc (2 ^ 64 - 1 - n)
unfolding int64
int64-wrapped n big fits = ground arith

end_offset-wrapped :
    (start offset size : ℕ)
    → 2 ^ 63 ≤ offset
    → offset < 2 ^ 64
    → start + size < 2 ^ 63
    → end_offset (pos start) offset size ≤ℤ pos (start + size)
unfolding end_offset int64 ◌+ℤ◌
end_offset-wrapped start offset size big fits small =
    rw (int64-wrapped offset big fits, int64-pos size (omega arith)) (ground arith)

not_beyond : (e m file_size : ℤ) → e ≤ℤ m → m ≤ℤ file_size → ltb_ℤ file_size e ≡ false
not_beyond e m file_size low inside = ground arith

beyond : (n : ℕ) (file_size : ℤ) → 2 ^ 63 ≤ n → file_size ≤ℤ max_int64 → ¬ (pos n ≤ℤ file_size)
beyond n file_size big measured within = omega arith

-- A tensor of a known type whose offset is at least 2^63 is accepted, though it ends beyond the
-- file, where its data would fit at offset 0, and the sizes stay within uint64 and int64.
pub validate_gguf_tensor_bounds_wraps :
    (t : TensorInfo) (q : QuantInfo) (header_size alignment : ℕ) (file_size : ℤ)
    → header_size + alignment < 2 ^ 63
    → find_quant t.kind quant_types ≡ some q
    → IsModest q t.dimensions
    → 2 ^ 63 ≤ t.offset
    → t.offset < 2 ^ 64
    → align_up header_size alignment + data_size q t.dimensions < 2 ^ 63
    → pos (align_up header_size alignment + data_size q t.dimensions) ≤ℤ file_size
    → file_size ≤ℤ max_int64
    → (validate_gguf_tensor_bounds (t ∷ []) header_size alignment file_size ≡ ok tt)
      × ¬ IsWithin (align_up header_size alignment) file_size t
unfolding validate_gguf_tensor_bounds check_tensors compute_tensor_data_size
validate_gguf_tensor_bounds_wraps t q h a file_size small known modest big fits room inside
      measured =
    let s = align_up h a in
    let size = data_size q t.dimensions in
    let low = end_offset-wrapped s t.offset size big fits room in
    (
      rw (
        tensor_data_start-exact h a small,
        known,
        blocks_size-exact q t.dimensions modest,
        not_beyond (end_offset (pos s) t.offset size) (pos (s + size)) file_size low inside,
      ),
      λ w. beyond (s + t.offset + size) file_size (omega arith) measured (rw known at w),
    )
