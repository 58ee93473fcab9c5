-- ===== src/Gguf/Reader.antt =====
-- internal/download/file_ops.go: `readGGUFString`, `readBytes`, and what they use of io and
-- encoding/binary. A function returns its value, the number of bytes that the code counts for it, and
-- what is left to read.
use inference_budget_control.Prelude.{
  ℕ, zero, suc, ◌+◌, ◌*◌, ◌^◌, List, [], ◌∷◌, ltb, if◌then◌else◌,
}
use inference_budget_control.Prelude.Results.{Result, ok, err, ◌>>=◌}
use inference_budget_control.Gguf.{GgufError, short_read, long_string}

abbrev pub Bytes : Type 0
Bytes = List ℕ

abbrev pub Read : Type 0 → Type 0
Read A = Result GgufError A

-- io.ReadFull into a buffer of the given length.
unfoldable pub read_full : ℕ → Bytes → Read (Bytes × Bytes)
read_full zero input = ok ([], input)
read_full (suc n) [] = err short_read
read_full (suc n) (x ∷ input) = do (buffer, rest) ← read_full n input; ok (x ∷ buffer, rest)

-- binary.LittleEndian
unfoldable pub little_endian : Bytes → ℕ
little_endian [] = 0
little_endian (x ∷ bytes) = x + 256 * little_endian bytes

-- binary.Read of an unsigned number of `width` bytes.
unfoldable pub read_uint : ℕ → Bytes → Read (ℕ × Bytes)
unfolding read_full little_endian
read_uint width input = do (buffer, rest) ← read_full width input; ok (little_endian buffer, rest)

abbrev pub max_string : ℕ
max_string = 2 ^ 20

unfoldable pub read_text : ℕ → Bytes → Read (Bytes × ℕ × Bytes)
unfolding read_full
read_text length input =
    if ltb max_string length
    then err (long_string length)
    else do (text, rest) ← read_full length input; ok (text, 8 + length, rest)

unfoldable pub read_gguf_string : Bytes → Read (Bytes × ℕ × Bytes)
unfolding read_uint read_text
read_gguf_string input = do (length, rest) ← read_uint 8 input; read_text length rest

unfoldable pub read_bytes : ℕ → Bytes → Read (ℕ × Bytes)
unfolding read_full
read_bytes n input = do (buffer, rest) ← read_full n input; ok (n, rest)
