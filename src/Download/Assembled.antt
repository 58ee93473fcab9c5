-- ===== src/Download/Assembled.antt =====
-- What `assembleChunks` of internal/download/chunked.go makes of complete parts.
use inference_budget_control.Prelude.{
  ℕ, suc, ◌+◌, ◌-◌, ◌^◌, ◌<◌, List, [], ◌∷◌, ◌++◌, false, Option, some, none, ◌≡◌, refl, sym, ◌∙◌,
  ap, length, arith,
}
use inference_budget_control.Prelude.Int.{pos}
use inference_budget_control.Download.{ChunkRange}
use inference_budget_control.Download.Chunks.{compute_chunks}
use inference_budget_control.Download.Tiling.{Tiles, compute_chunks-Tiles}
use inference_budget_control.Download.Assembly.{
  Refusals, Files, slice, copy_bytes, open_and_copy, copy_parts, publish, after_copy,
  assemble_chunks,
}
use inference_budget_control.Prelude.Bytes.{
  take, drop, take-++-drop, drop-drop, drop-all, append_assoc, append_nil,
}

-- The part of each chunk holds the chunk's bytes of the file.
abbrev pub HoldsSlices : {B : Type 0} → (ℕ → Option (List B)) → List B → List ChunkRange → Type 0
HoldsSlices parts bytes [] = Unit
HoldsSlices parts bytes (c ∷ cs) =
    (parts c.index ≡ some (slice bytes c)) × HoldsSlices parts bytes cs

-- No system call fails.
abbrev pub RefusesNothing : Refusals → Type 0
RefusesNothing r =
    (r.refused_create ≡ false)
    × ((i : ℕ) → r.refused_open i ≡ false)
    × ((i : ℕ) → r.refused_copy i ≡ none)
    × (r.refused_sync ≡ false)
    × (r.refused_close ≡ false)
    × (r.refused_rename ≡ false)

module _ {B : Type 0} (bytes : List B) where
  slice-at :
      (c : ChunkRange) (at len : ℕ)
      → c.start ≡ pos at
      → c.stop ≡ pos (at + len - 1)
      → 0 < len
      → slice bytes c ≡ take len (drop at bytes)
  slice-at c at len e e' some_len = rw (e, e') (ap (λ k. take k (drop at bytes)) (omega arith))

  slice-++-drop :
      (c : ChunkRange) (at len : ℕ)
      → c.start ≡ pos at
      → c.stop ≡ pos (at + len - 1)
      → 0 < len
      → slice bytes c ++ drop (at + len) bytes ≡ drop at bytes
  slice-++-drop c at len e e' some_len =
      ap (λ t. t ++ drop (at + len) bytes) (slice-at c at len e e' some_len)
      ∙ ap (λ t. take len (drop at bytes) ++ t) (sym (drop-drop at len bytes))
      ∙ take-++-drop len (drop at bytes)

  copy_parts-drop :
      (r : Refusals) (parts : ℕ → Option (List B)) (out : List B) (cs : List ChunkRange)
      (size i at : ℕ)
      → RefusesNothing r
      → Tiles size i at (length bytes) cs
      → HoldsSlices parts bytes cs
      → copy_parts r parts out cs ≡ (out ++ drop at bytes, none)
  unfolding copy_parts open_and_copy copy_bytes
  copy_parts-drop r parts out [] size i at works tiles holds =
      ap (λ t. (t, none))
        (sym (append_nil out)
          ∙ ap (λ t. out ++ t) (sym (drop-all bytes) ∙ ap (λ k. drop k bytes) (sym tiles)))
  copy_parts-drop r parts out (c ∷ cs) size i at works tiles holds =
      let (e, e_start, (len, some_len, small, e_stop, rest)) = tiles in
      rw (works.1 c.index, holds.0, works.2 c.index)
        (copy_parts-drop r parts (out ++ slice bytes c) cs size (suc i) (at + len) works rest
            holds.1
          ∙ ap (λ t. (t, none))
              (append_assoc out (slice bytes c) (drop (at + len) bytes)
                ∙ ap (λ t. out ++ t) (slice-++-drop c at len e_start e_stop some_len)))

  -- Where each part holds its chunk's bytes of a file that is not empty, the chunk size is
  -- positive, an int64 holds the sum of the two sizes and no system call fails, assembleChunks
  -- leaves the file itself at the local path, removes the temporary file and reports no error.
  pub assemble_chunks-bytes :
      (size : ℕ) (r : Refusals) (files : Files B)
      → 0 < size
      → 0 < length bytes
      → length bytes + size < 2 ^ 63
      → RefusesNothing r
      → HoldsSlices files.parts bytes (compute_chunks size (length bytes))
      → assemble_chunks r files (compute_chunks size (length bytes))
        ≡ (record { whole = some bytes; temp = none; parts = files.parts }, none)
  unfolding assemble_chunks after_copy publish
  assemble_chunks-bytes size r files some_size some_file small works holds =
      let (create, opens, copy, sync, close, rename) = works in
      let tiles = compute_chunks-Tiles size (length bytes) some_size some_file small in
      rw
        (
          create,
          copy_parts-drop r files.parts [] (compute_chunks size (length bytes)) size 0 0 works tiles
              holds,
          sync,
          close,
          rename,
        )
        refl
