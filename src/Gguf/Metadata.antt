-- ===== src/Gguf/Metadata.antt =====
-- internal/download/file_ops.go: `parseGGUFMetadata`. Of the metadata only the alignment is kept.
use inference_budget_control.Prelude.{ℕ, zero, suc, ◌+◌, [], ◌∷◌, if◌then◌else◌, Option, some, none}
use inference_budget_control.Prelude.Results.{ok, ◌>>=◌}
use inference_budget_control.Prelude.Bytes.{same_bytes}
use inference_budget_control.Gguf.Reader.{Bytes, Read, read_uint, read_gguf_string}
use inference_budget_control.Gguf.Values.{skip_metadata_value, read_metadata_value}

-- "general.alignment"
abbrev pub alignment_key : Bytes
alignment_key =
    b'g' ∷ b'e' ∷ b'n' ∷ b'e' ∷ b'r' ∷ b'a' ∷ b'l' ∷ b'.' ∷ b'a' ∷ b'l' ∷ b'i' ∷ b'g' ∷ b'n' ∷ b'm'
    ∷ b'e' ∷ b'n' ∷ b't' ∷ []

-- The switch on the type of the alignment's value.
abbrev pub set_alignment : Option ℕ → ℕ → ℕ
set_alignment none alignment = alignment
set_alignment (some v) alignment = v

-- The value of one pair: the new alignment and the bytes that were counted.
unfoldable pub read_pair : Bytes → ℕ → ℕ → Bytes → Read (ℕ × ℕ × Bytes)
read_pair key t alignment input =
    let aligned = do
      (v, n, rest) ← read_metadata_value t input
      ok (set_alignment v alignment, n, rest)
    in let skipped = do (n, rest) ← skip_metadata_value t input; ok (alignment, n, rest)
      in if same_bytes key alignment_key then aligned else skipped

-- One turn of the loop.
unfoldable pub parse_pair : ℕ → Bytes → Read (ℕ × ℕ × Bytes)
parse_pair alignment input = do
  (key, n, after_key) ← read_gguf_string input
  (t, after_type) ← read_uint 4 after_key
  (alignment', m, rest) ← read_pair key t alignment after_type
  ok (alignment', n + 4 + m, rest)

-- The loop, with `count` pairs left.
unfoldable pub parse_pairs : ℕ → ℕ → ℕ → Bytes → Read (ℕ × ℕ × Bytes)
parse_pairs zero alignment bytes_read input = ok (alignment, bytes_read, input)
parse_pairs (suc count) alignment bytes_read input = do
  (alignment', n, rest) ← parse_pair alignment input
  parse_pairs count alignment' (bytes_read + n) rest

unfoldable pub parse_gguf_metadata : ℕ → Bytes → Read (ℕ × ℕ × Bytes)
unfolding parse_pairs
parse_gguf_metadata count input = parse_pairs count 32 0 input
