-- ===== src/Gguf/Header.antt =====
-- internal/download/file_ops.go: `readGGUFFileHeader` and `validateGGUFHeader`.
use inference_budget_control.Prelude.{ℕ, ◌+◌, List, [], ◌∷◌, ltb, ◌||◌, if◌then◌else◌}
use inference_budget_control.Prelude.Int.{ℤ}
use inference_budget_control.Prelude.Results.{Result, ok, err, ◌>>=◌}
use inference_budget_control.Prelude.Bytes.{same_bytes}
use inference_budget_control.Gguf.{
  GgufError, invalid_magic, unsupported_version, implausible_tensors, implausible_metadata,
  TensorInfo,
}
use inference_budget_control.Gguf.Reader.{Bytes, Read, read_full, read_uint}
use inference_budget_control.Gguf.Metadata.{parse_gguf_metadata}
use inference_budget_control.Gguf.Tensors.{parse_gguf_tensor_infos}
use inference_budget_control.Gguf.Bounds.{validate_gguf_tensor_bounds}

-- ggufHeader
pub record FileHeader : Type 0 where
  pub version : ℕ
  pub tensor_count : ℕ
  pub metadata_count : ℕ

-- "GGUF"
abbrev pub gguf_magic : Bytes
gguf_magic = b'G' ∷ b'G' ∷ b'U' ∷ b'F' ∷ []

abbrev pub max_count : ℕ
max_count = 1000000

unfoldable pub check_counts : FileHeader → Bytes → Read (FileHeader × Bytes)
check_counts h rest =
    if ltb max_count h.tensor_count
    then err (implausible_tensors h.tensor_count)
    else if ltb max_count h.metadata_count
    then err (implausible_metadata h.metadata_count)
    else ok (h, rest)

-- The counts, after a version that is supported.
unfoldable pub read_counts : ℕ → Bytes → Read (FileHeader × Bytes)
read_counts version input =
    if ltb version 2 || ltb 4 version then err (unsupported_version version) else do
      (tensors, after_tensors) ← read_uint 8 input
      (metadata, rest) ← read_uint 8 after_tensors
      check_counts (record { version = version; tensor_count = tensors; metadata_count = metadata })
          rest

-- The version and the counts, after the magic number.
unfoldable pub read_version : Bytes → Bytes → Read (FileHeader × Bytes)
read_version magic input =
    if same_bytes magic gguf_magic
    then (do (version, rest) ← read_uint 4 input; read_counts version rest)
    else err invalid_magic

unfoldable pub read_gguf_file_header : Bytes → Read (FileHeader × Bytes)
read_gguf_file_header input = do (magic, rest) ← read_full 4 input; read_version magic rest

-- What validateGGUFHeader has read when it comes to the bounds.
pub record ParsedHeader : Type 0 where
  pub alignment : ℕ
  pub tensors : List TensorInfo
  pub bytes_read : ℕ

unfoldable pub parse_header : Bytes → Read (ParsedHeader × Bytes)
parse_header input = do
  (header, after_header) ← read_gguf_file_header input
  (alignment, n, after_metadata) ← parse_gguf_metadata header.metadata_count after_header
  (tensors, m, rest) ← parse_gguf_tensor_infos header.tensor_count after_metadata
  ok (record { alignment = alignment; tensors = tensors; bytes_read = 24 + n + m }, rest)

unfoldable pub validate_gguf_header : Bytes → ℤ → Result GgufError (Unit {0})
validate_gguf_header input actual_size = do
  (h, rest) ← parse_header input
  validate_gguf_tensor_bounds h.tensors h.bytes_read h.alignment actual_size
