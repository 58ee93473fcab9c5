-- ===== src/Xet/Decompress.antt =====
-- internal/xet/decompress.go. The LZ4 library is a parameter: what its reader gives for the data up to
-- the end of the stream, or none for an error.
use inference_budget_control.Prelude.{
  ℕ, zero, suc, ◌+◌, ◌*◌, ◌/◌, ◌%◌, [], ltb, ◌==◌, ◌&&◌, Option, some, none, length, if◌then◌else◌,
}
use inference_budget_control.Prelude.Results.{Result, ok, err, ◌>>=◌}
use inference_budget_control.Prelude.Bytes.{take, get_or, set, replicate}
use inference_budget_control.Xet.{Bytes, ChunkHeader, XetError, unsupported_compression, lz4_failed}

-- if srcIdx < n && dstIdx < len(result) { result[dstIdx] = data[srcIdx] }
unfoldable pub copy_byte : Bytes → ℕ → ℕ → Bytes → Bytes
copy_byte input source target result =
    if ltb source (length input) && ltb target (length result)
    then set result target (get_or input source 0)
    else result

-- The inner loop, over j from 0 to 3.
unfoldable pub copy_group : Bytes → ℕ → ℕ → Bytes → Bytes
unfolding copy_byte
copy_group input groups i result = copy_byte input (i + 3 * groups) (i * 4 + 3) (
    copy_byte input (i + 2 * groups) (i * 4 + 2) (
      copy_byte input (i + 1 * groups) (i * 4 + 1)
        (copy_byte input (i + 0 * groups) (i * 4 + 0) result)))

-- The outer loop, for `left` more groups from `i` on.
unfoldable pub copy_groups : Bytes → ℕ → ℕ → ℕ → Bytes → Bytes
unfolding copy_group
copy_groups input groups i zero result = result
copy_groups input groups i (suc left) result =
    copy_groups input groups (suc i) left (copy_group input groups i result)

-- The loop over the remainder, for `left` more bytes from `j` on.
unfoldable pub copy_remainder : Bytes → ℕ → ℕ → ℕ → Bytes → Bytes
unfolding copy_byte
copy_remainder input groups j zero result = result
copy_remainder input groups j (suc left) result =
    copy_remainder input groups (suc j) left
      (copy_byte input (groups + j * groups) (groups * 4 + j) result)

-- `remainder` is the length of the data modulo 4, which is not 0.
unfoldable pub undo_byte_grouping4_partial : Bytes → ℕ → Bytes
unfolding copy_groups copy_remainder
undo_byte_grouping4_partial input expected_size =
    let groups = length input / 4 in
    let remainder = length input % 4 in
    let size = if expected_size == 0 then groups * 4 + remainder else expected_size in
    copy_remainder input groups 0 remainder (copy_groups input groups 0 groups (replicate size 0))

-- if expectedSize > 0 && len(result) > expectedSize
abbrev pub trim : ℕ → Bytes → Bytes
trim expected_size result =
    if ltb 0 expected_size && ltb expected_size (length result)
    then take expected_size result
    else result

unfoldable pub undo_byte_grouping4 : Bytes → ℕ → Bytes
unfolding copy_groups
undo_byte_grouping4 input expected_size =
    if length input == 0
    then []
    else if length input % 4 == 0
    then trim expected_size
        (copy_groups input (length input / 4) 0 (length input / 4) (replicate (length input) 0))
    else undo_byte_grouping4_partial input expected_size

module _ (lz4 : Bytes → Option Bytes) where
  -- The size that is expected only sets the capacity of the buffer.
  unfoldable pub decompress_lz4 : Bytes → Result XetError Bytes
  decompress_lz4 input = elim (lz4 input) [ none ↦ err lz4_failed | some out ↦ ok out ]

  unfoldable pub decompress : ChunkHeader → Bytes → Result XetError Bytes
  unfolding decompress_lz4
  decompress header input =
      let grouped = do
        out ← decompress_lz4 input
        ok (undo_byte_grouping4 out header.uncompressed_size)
      in if header.compression_type == 0
        then ok input
        else if header.compression_type == 1
        then decompress_lz4 input
        else if header.compression_type == 2
        then grouped
        else err (unsupported_compression header.compression_type)
