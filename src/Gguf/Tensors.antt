-- ===== src/Gguf/Tensors.antt =====
-- internal/download/file_ops.go: `parseGGUFTensorInfos`.
use inference_budget_control.Prelude.{ℕ, zero, suc, ◌+◌, ◌*◌, List, [], ◌∷◌, ltb, if◌then◌else◌}
use inference_budget_control.Prelude.Results.{ok, err, ◌>>=◌}
use inference_budget_control.Gguf.{implausible_dimensions, TensorInfo}
use inference_budget_control.Gguf.Reader.{Bytes, Read, read_uint, read_gguf_string}

unfoldable pub read_dimensions : ℕ → Bytes → Read (List ℕ × Bytes)
unfolding read_uint
read_dimensions zero input = ok ([], input)
read_dimensions (suc n) input = do
  (d, after) ← read_uint 8 input
  (ds, rest) ← read_dimensions n after
  ok (d ∷ ds, rest)

-- A tensor from its dimensions on.
unfoldable pub read_shape : Bytes → ℕ → ℕ → Bytes → Read (TensorInfo × ℕ × Bytes)
read_shape name n n_dims input = if ltb 8 n_dims then err (implausible_dimensions n_dims) else do
  (dimensions, after_dims) ← read_dimensions n_dims input
  (kind, after_kind) ← read_uint 4 after_dims
  (offset, rest) ← read_uint 8 after_kind
  ok (
    record { name = name; n_dims = n_dims; dimensions = dimensions; kind = kind; offset = offset },
    n + 4 + 8 * n_dims + 4 + 8,
    rest,
  )

-- One turn of the loop.
unfoldable pub parse_tensor_info : Bytes → Read (TensorInfo × ℕ × Bytes)
parse_tensor_info input = do
  (name, n, after_name) ← read_gguf_string input
  (n_dims, after_count) ← read_uint 4 after_name
  read_shape name n n_dims after_count

-- The loop, with `count` tensors left.
unfoldable pub parse_infos : ℕ → ℕ → Bytes → Read (List TensorInfo × ℕ × Bytes)
parse_infos zero bytes_read input = ok ([], bytes_read, input)
parse_infos (suc count) bytes_read input = do
  (t, n, after) ← parse_tensor_info input
  (ts, total, rest) ← parse_infos count (bytes_read + n) after
  ok (t ∷ ts, total, rest)

unfoldable pub parse_gguf_tensor_infos : ℕ → Bytes → Read (List TensorInfo × ℕ × Bytes)
unfolding parse_infos
parse_gguf_tensor_infos count input = parse_infos count 0 input
