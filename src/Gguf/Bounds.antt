-- ===== src/Gguf/Bounds.antt =====
-- internal/download/file_ops.go: `ggufQuantTypes`, `computeTensorDataSize` and
-- `validateGGUFTensorBounds`. The arithmetic is that of uint64 and int64.
use inference_budget_control.Prelude.{
  ℕ, ◌+◌, ◌-◌, ◌*◌, ◌/◌, ◌%◌, ◌^◌, List, [], ◌∷◌, ◌==◌, Bool, true, false, if◌then◌else◌, Option,
  some, none,
}
use inference_budget_control.Prelude.Int.{ℤ, pos, ◌+ℤ◌, int64, ltb_ℤ}
use inference_budget_control.Prelude.Results.{Result, ok, err}
use inference_budget_control.Gguf.{GgufError, out_of_bounds, TensorInfo}

-- ggufQuantInfo
pub record QuantInfo : Type 0 where
  pub block_size : ℕ
  pub bytes_per_block : ℕ

abbrev pub quant : ℕ → ℕ → QuantInfo
quant block_size bytes_per_block = record {
  block_size = block_size;
  bytes_per_block = bytes_per_block;
}

-- ggufQuantTypes
abbrev pub quant_types : List (ℕ × QuantInfo)
quant_types =
    (0, quant 1 4)
    ∷ (1, quant 1 2)
    ∷ (2, quant 32 18)
    ∷ (3, quant 32 20)
    ∷ (6, quant 32 22)
    ∷ (7, quant 32 24)
    ∷ (8, quant 32 34)
    ∷ (9, quant 32 40)
    ∷ (10, quant 256 84)
    ∷ (11, quant 256 110)
    ∷ (12, quant 256 144)
    ∷ (13, quant 256 176)
    ∷ (14, quant 256 210)
    ∷ (16, quant 256 66)
    ∷ (17, quant 256 74)
    ∷ (18, quant 256 98)
    ∷ (19, quant 256 56)
    ∷ (20, quant 32 18)
    ∷ (21, quant 256 110)
    ∷ (22, quant 256 82)
    ∷ (23, quant 256 136)
    ∷ (24, quant 1 1)
    ∷ (25, quant 1 2)
    ∷ (26, quant 1 4)
    ∷ (27, quant 1 8)
    ∷ (28, quant 1 8)
    ∷ (29, quant 256 56)
    ∷ (30, quant 1 2)
    ∷ []

unfoldable pub find_quant : ℕ → List (ℕ × QuantInfo) → Option QuantInfo
find_quant t [] = none
find_quant t ((own, q) ∷ rest) = if own == t then some q else find_quant t rest

abbrev pub u64 : ℕ → ℕ
u64 n = n % 2 ^ 64

-- The product of the dimensions, or none at a dimension of 0, where the code returns a size of 0.
unfoldable pub num_elements : ℕ → List ℕ → Option ℕ
num_elements n [] = some n
num_elements n (d ∷ ds) = let rest = num_elements (u64 (n * d)) ds in if d == 0 then none else rest

abbrev pub blocks_size : QuantInfo → Option ℕ → ℕ
blocks_size q none = 0
blocks_size q (some n) =
    u64 (u64 (u64 (n + q.block_size) + 2 ^ 64 - 1) / q.block_size * q.bytes_per_block)

abbrev pub size_of : Option QuantInfo → List ℕ → Option ℕ
size_of none dimensions = none
size_of (some q) dimensions = some (blocks_size q (num_elements 1 dimensions))

-- The size of a tensor's data, where its type is known.
unfoldable pub compute_tensor_data_size : TensorInfo → Option ℕ
compute_tensor_data_size t = size_of (find_quant t.kind quant_types) t.dimensions

-- Where the data of the tensors starts: int64(alignment - remainder) is added to the header's size.
unfoldable pub tensor_data_start : ℤ → ℕ → ℕ → ℤ
tensor_data_start header_size remainder alignment =
    if alignment == 0
    then header_size
    else if remainder == 0
    then header_size
    else int64 (header_size +ℤ int64 (pos (alignment - remainder)))

unfoldable pub end_offset : ℤ → ℕ → ℕ → ℤ
end_offset start offset size = int64 (int64 (start +ℤ int64 (pos offset)) +ℤ int64 (pos size))

-- Whether the data of a tensor ends within the file; an unknown type is not checked.
abbrev pub ends_within : ℤ → ℤ → ℕ → Option ℕ → Bool
ends_within start file_size offset none = true
ends_within start file_size offset (some size) =
    if ltb_ℤ file_size (end_offset start offset size) then false else true

unfoldable pub check_tensors : ℤ → ℤ → List TensorInfo → Result GgufError (Unit {0})
check_tensors start file_size [] = ok tt
check_tensors start file_size (t ∷ ts) =
    if ends_within start file_size t.offset (compute_tensor_data_size t)
    then check_tensors start file_size ts
    else err (out_of_bounds t.name)

unfoldable pub validate_gguf_tensor_bounds :
    List TensorInfo → ℕ → ℕ → ℤ → Result GgufError (Unit {0})
validate_gguf_tensor_bounds tensors header_size alignment file_size =
    check_tensors (tensor_data_start (pos header_size) (header_size % alignment) alignment)
      file_size tensors
