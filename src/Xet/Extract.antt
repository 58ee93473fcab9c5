-- ===== src/Xet/Extract.antt =====
-- internal/xet/download.go: the chunks of a range of a xorb, and the file that the terms name. The
-- client is a parameter: what it fetches, with the spare bytes behind the length of the slice that it
-- returns, or none for an error.
use inference_budget_control.Prelude.{
  ℕ, zero, suc, ◌-◌, String, List, [], ◌∷◌, ◌++◌, ◌&&◌, Option, some, none, length, if◌then◌else◌,
}
use inference_budget_control.Prelude.Int.{ℤ, pos, ◌+ℤ◌, leb_ℤ, pos_part, int64}
use inference_budget_control.Prelude.Dict.{Dict, lookup}
use inference_budget_control.Prelude.Results.{Result, ok, err, ◌>>=◌}
use inference_budget_control.Prelude.Bytes.{take, drop}
use inference_budget_control.Xet.{
  Bytes, ChunkHeader, XetError, no_fetch_info, fetch_failed, panicked, ByteRange, FetchInfo, Term,
}
use inference_budget_control.Xet.Headers.{XorbIterator, new_xorb_iterator, has_next, next}
use inference_budget_control.Xet.Decompress.{decompress}

-- The bytes of a slice, and those between its length and its capacity.
pub record Slice : Type 0 where
  pub content : Bytes
  pub spare : Bytes

-- data[start:end], which reaches up to the capacity.
unfoldable pub reslice : Slice → ByteRange → Result XetError Bytes
reslice s r =
    let all = s.content ++ s.spare in
    if leb_ℤ (pos 0) r.start && leb_ℤ r.start r.stop && leb_ℤ r.stop (pos (length all))
    then ok (take (pos_part r.stop - pos_part r.start) (drop (pos_part r.start) all))
    else err panicked

-- The sum of the lengths of the terms, as an int64.
unfoldable pub total_size : ℤ → List Term → ℤ
total_size sum [] = sum
total_size sum (t ∷ ts) = total_size (int64 (sum +ℤ t.unpacked_length)) ts

module _ (lz4 : Bytes → Option Bytes) where
  -- The loop over the chunks, each decompressed and put behind `result`; `none` of the step is the
  -- break at a nil header.
  abbrev pub append_chunk :
      (XorbIterator → Bytes → Result XetError Bytes)
      → Bytes
      → Option (ChunkHeader × Bytes) × XorbIterator
      → Result XetError Bytes
  append_chunk rest result (none, it) = ok result
  append_chunk rest result (some (header, input), it) = do
    out ← decompress lz4 header input
    rest it (result ++ out)

  -- A chunk takes at least eight bytes, so the length of the data is fuel enough.
  unfoldable pub extract_from : ℕ → XorbIterator → Bytes → Result XetError Bytes
  extract_from zero it result = ok result
  extract_from (suc fuel) it result =
      let rest = extract_from fuel in
      let step = do chunk ← next it; append_chunk rest result chunk
      in if has_next it then step else ok result

  unfoldable pub extract_range : Bytes → Result XetError Bytes
  extract_range input = extract_from (length input) (new_xorb_iterator input) []

  unfoldable pub extract_chunks : Slice → ByteRange → Result XetError Bytes
  unfolding extract_range
  extract_chunks xorb r = reslice xorb r >>= extract_range

  module _ (fetch : FetchInfo → Option Slice) where
    -- fetchXorbData takes the first entry.
    unfoldable pub fetch_xorb_data : String → Option (List FetchInfo) → Result XetError Slice
    fetch_xorb_data hash none = err (no_fetch_info hash)
    fetch_xorb_data hash (some []) = err (fetch_failed hash)
    fetch_xorb_data hash (some (info ∷ infos)) = elim (fetch info) [
      | none ↦ err (fetch_failed hash)
      | some xorb ↦ ok xorb
    ]

    -- The loop over the terms.
    unfoldable pub reconstruct_terms :
        Dict (List FetchInfo) → Bytes → List Term → Result XetError Bytes
    unfolding extract_chunks fetch_xorb_data
    reconstruct_terms infos result [] = ok result
    reconstruct_terms infos result (t ∷ ts) = do
      xorb ← fetch_xorb_data t.hash (lookup t.hash infos)
      chunks ← extract_chunks xorb t.range
      reconstruct_terms infos (result ++ chunks) ts

    -- The capacity of the result is the sum of the lengths, and a negative one panics. That one beyond the
    -- memory panics too is left out.
    unfoldable pub reconstruct : Dict (List FetchInfo) → List Term → Result XetError Bytes
    unfolding reconstruct_terms total_size
    reconstruct infos terms =
        if leb_ℤ (pos 0) (total_size (pos 0) terms)
        then reconstruct_terms infos [] terms
        else err panicked
