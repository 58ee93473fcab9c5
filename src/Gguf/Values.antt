-- ===== src/Gguf/Values.antt =====
-- internal/download/file_ops.go: `skipGGUFMetadataValue` and `readGGUFMetadataValue`. The counts are
-- sums of bytes that were read, so no int64 overflows.
use inference_budget_control.Prelude.{
  ℕ, zero, suc, ◌+◌, ltb, ◌==◌, ◌||◌, if◌then◌else◌, length, Option, some, none,
}
use inference_budget_control.Prelude.Results.{ok, err, ◌>>=◌}
use inference_budget_control.Gguf.{long_array, unknown_type, out_of_fuel}
use inference_budget_control.Gguf.Reader.{Bytes, Read, read_uint, read_bytes, read_gguf_string}

-- The cases of the switch on the type of a value.
pub data ValueKind : Type 0 where
  fixed : ℕ → ValueKind
  text : ValueKind
  array : ValueKind
  unknown : ValueKind

unfoldable pub value_kind : ℕ → ValueKind
value_kind t =
    if t == 0 || t == 1 || t == 7
    then fixed 1
    else if t == 2 || t == 3
    then fixed 2
    else if t == 4 || t == 5 || t == 6
    then fixed 4
    else if t == 10 || t == 11 || t == 12
    then fixed 8
    else if t == 8
    then text
    else if t == 9
    then array
    else unknown

-- The loop over the elements of an array, each skipped by `one`.
unfoldable pub skip_elements : (Bytes → Read (ℕ × Bytes)) → ℕ → ℕ → Bytes → Read (ℕ × Bytes)
skip_elements one zero total input = ok (total, input)
skip_elements one (suc count) total input = do
  (n, rest) ← one input
  skip_elements one count (total + n) rest

abbrev pub max_array : ℕ
max_array = 100000000

unfoldable pub skip_array : (ℕ → Bytes → Read (ℕ × Bytes)) → ℕ → ℕ → Bytes → Read (ℕ × Bytes)
unfolding skip_elements
skip_array skip element count input =
    if ltb max_array count
    then err (long_array count)
    else skip_elements (skip element) count 12 input

-- One call of skipGGUFMetadataValue, whose recursive calls are those of `skip`.
unfoldable pub skip_as : (ℕ → Bytes → Read (ℕ × Bytes)) → ValueKind → ℕ → Bytes → Read (ℕ × Bytes)
unfolding read_bytes read_gguf_string read_uint skip_array
skip_as skip (fixed width) t input = read_bytes width input
skip_as skip text t input = do (string, n, rest) ← read_gguf_string input; ok (n, rest)
skip_as skip array t input = do
  (element, after_type) ← read_uint 4 input
  (count, after_count) ← read_uint 8 after_type
  skip_array skip element count after_count
skip_as skip unknown t input = err (unknown_type t)

unfoldable pub skip_within : ℕ → ℕ → Bytes → Read (ℕ × Bytes)
unfolding skip_as value_kind
skip_within zero t input = err out_of_fuel
skip_within (suc depth) t input = skip_as (skip_within depth) (value_kind t) t input

-- An array takes twelve bytes, so the input is longer than its arrays are deep.
unfoldable pub skip_metadata_value : ℕ → Bytes → Read (ℕ × Bytes)
unfolding skip_within
skip_metadata_value t input = skip_within (suc (length input)) t input

-- What readGGUFMetadataValue returns of a value: a number of 32 or 64 bits, or nil.
unfoldable pub read_metadata_value : ℕ → Bytes → Read (Option ℕ × ℕ × Bytes)
unfolding read_uint
read_metadata_value t input =
    let narrow = do (v, rest) ← read_uint 4 input; ok (some v, 4, rest)
    in let wide = do (v, rest) ← read_uint 8 input; ok (some v, 8, rest)
      in let other = do (n, rest) ← skip_metadata_value t input; ok (none, n, rest)
        in if t == 4 then narrow else if t == 10 then wide else other
