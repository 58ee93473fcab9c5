-- ===== src/Xet/Writer.antt =====
-- internal/xet/download.go: `reconstructToWriter`, which writes each chunk out as soon as it is
-- decompressed. What the writer does with bytes is a parameter: whether it takes them behind those
-- that it has.
use inference_budget_control.Prelude.{
  ℕ, zero, suc, List, [], ◌∷◌, ◌++◌, ◌≡◌, refl, subst, Bool, true, Option, some, none, length,
  if◌then◌else◌, Bool-cases, inl, inr,
}
use inference_budget_control.Prelude.Int.{pos, leb_ℤ}
use inference_budget_control.Prelude.Dict.{Dict, lookup}
use inference_budget_control.Prelude.Results.{Result, ok, err, ◌>>=◌, Result-cases}
use inference_budget_control.Prelude.Bytes.{append_assoc, append_nil}
use inference_budget_control.Xet.{
  Bytes, ChunkHeader, XetError, write_failed, ByteRange, FetchInfo, Term,
}
use inference_budget_control.Xet.Headers.{XorbIterator, new_xorb_iterator, has_next, next}
use inference_budget_control.Xet.Decompress.{decompress}
use inference_budget_control.Xet.Extract.{
  Slice, reslice, total_size, extract_from, extract_range, extract_chunks, fetch_xorb_data,
  reconstruct_terms, reconstruct,
}

-- What has been written, and the error that ended the writing, if one did.
pub record Output : Type 0 where
  pub written : Bytes
  pub failure : Option XetError

abbrev pub stopped : {V : Type 0} → Bytes → Result XetError V → (V → Output) → Output
stopped written (err why) next = record { written = written; failure = some why }
stopped written (ok v) next = next v

-- if err := step(); err != nil { return err }, for a step that writes.
abbrev pub go_on : Output → (Bytes → Output) → Output
go_on out next = elim out.failure [ some why ↦ out | none ↦ next out.written ]

module _ (lz4 : Bytes → Option Bytes) (takes : Bytes → Bytes → Bool) where
  -- A failed Write is taken to write nothing of the chunk.
  abbrev pub write : Bytes → Bytes → Result XetError Bytes
  write written chunk = if takes written chunk then ok (written ++ chunk) else err write_failed

  abbrev pub write_chunk :
      (XorbIterator → Bytes → Output) → Bytes → Option (ChunkHeader × Bytes) × XorbIterator → Output
  write_chunk rest written (none, it) = record { written = written; failure = none }
  write_chunk rest written (some (header, input), it) =
      stopped written (decompress lz4 header input)
        λ out. stopped written (write written out) λ more. rest it more

  unfoldable pub extract_to : ℕ → XorbIterator → Bytes → Output
  extract_to zero it written = record { written = written; failure = none }
  extract_to (suc fuel) it written =
      let rest = extract_to fuel in
      if has_next it
      then stopped written (next it) (λ chunk. write_chunk rest written chunk)
      else record { written = written; failure = none }

  unfoldable pub extract_chunks_to_writer : Slice → ByteRange → Bytes → Output
  unfolding extract_to
  extract_chunks_to_writer xorb r written =
      stopped written (reslice xorb r)
        λ input. extract_to (length input) (new_xorb_iterator input) written

  unfoldable pub reconstruct_to_writer :
      (FetchInfo → Option Slice) → Dict (List FetchInfo) → Bytes → List Term → Output
  unfolding extract_chunks_to_writer fetch_xorb_data
  reconstruct_to_writer fetch infos written [] = record { written = written; failure = none }
  reconstruct_to_writer fetch infos written (t ∷ ts) =
      stopped written (fetch_xorb_data lz4 fetch t.hash (lookup t.hash infos)) λ xorb.
        go_on (extract_chunks_to_writer xorb t.range written)
          λ more. reconstruct_to_writer fetch infos more ts

-- What was written tells what `reconstruct` would have returned.
abbrev pub Agrees : Output → Result XetError Bytes → Type 0
Agrees out (ok result) = out ≡ record { written = result; failure = none }
Agrees out (err why) = out.failure ≡ some why

go_on_failed :
    (w : Bytes) (o : Option XetError) (f : Bytes → Output) (why : XetError)
    → o ≡ some why
    → (go_on (record { written = w; failure = o }) f).failure ≡ some why
go_on_failed w none f why h = cc
go_on_failed w (some x) f why h = h

go_on-Agrees :
    (out : Output) (r : Result XetError Bytes) (f : Bytes → Output)
    (g : Bytes → Result XetError Bytes)
    → Agrees out r
    → ((b : Bytes) → Agrees (f b) (g b))
    → Agrees (go_on out f) (r >>= g)
go_on-Agrees out (err why) f g h next = go_on_failed out.written out.failure f why h
go_on-Agrees out (ok b) f g h next = rw h (next b)

behind_first :
    (before : Bytes) (r : Result XetError Bytes) (g : Bytes → Result XetError Bytes)
    → ((r >>= λ out. ok (before ++ out)) >>= g) ≡ (r >>= λ out. g (before ++ out))
behind_first before (err why) g = refl
behind_first before (ok out) g = refl

module _ (lz4 : Bytes → Option Bytes) (takes : Bytes → Bytes → Bool)
    (all_taken : (written chunk : Bytes) → takes written chunk ≡ true) where
  extract_to-from :
      (fuel : ℕ) (it : XorbIterator) (written before : Bytes)
      → Agrees
          (extract_to lz4 takes fuel it (before ++ written))
          (extract_from lz4 fuel it written >>= λ out. ok (before ++ out))
  unfolding extract_to extract_from
  extract_to-from zero it written before = refl
  extract_to-from (suc fuel) it written before = elim (Bool-cases (has_next it)) [
    | inr e ↦ rw e refl
    | inl e ↦ rw e (elim (Result-cases (next it)) [
      | inr (why, e₁) ↦ rw e₁ refl
      | inl ((none, after), e₁) ↦ rw e₁ refl
      | inl ((some (header, input), after), e₁) ↦
          rw e₁ (elim (Result-cases (decompress lz4 header input)) [
            | inr (why, e₂) ↦ rw e₂ refl
            | inl (out, e₂) ↦
                rw (e₂, all_taken (before ++ written) out, append_assoc before written out)
                  (extract_to-from fuel after (written ++ out) before)
          ])
    ])
  ]

  -- The bytes of one range, behind those written.
  extract_chunks_to_writer-chunks :
      (xorb : Slice) (r : ByteRange) (before : Bytes)
      → Agrees
          (extract_chunks_to_writer lz4 takes xorb r before)
          (extract_chunks lz4 xorb r >>= λ out. ok (before ++ out))
  unfolding extract_chunks_to_writer extract_chunks extract_range
  extract_chunks_to_writer-chunks xorb r before = elim (Result-cases (reslice xorb r)) [
    | inr (why, e) ↦ rw e refl
    | inl (input, e) ↦ rw e (
        subst
          (λ b. Agrees (extract_to lz4 takes (length input) (new_xorb_iterator input) b) (
            extract_from lz4 (length input) (new_xorb_iterator input) [] >>= λ out.
            ok (before ++ out)))
          (append_nil before) (extract_to-from (length input) (new_xorb_iterator input) [] before))
  ]

  module _ (fetch : FetchInfo → Option Slice) (infos : Dict (List FetchInfo)) where
    reconstruct_to_writer-terms :
        (ts : List Term) (before : Bytes)
        → Agrees
            (reconstruct_to_writer lz4 takes fetch infos before ts)
            (reconstruct_terms lz4 fetch infos before ts)
    unfolding reconstruct_to_writer reconstruct_terms
    reconstruct_to_writer-terms [] before = refl
    reconstruct_to_writer-terms (t ∷ ts) before =
        elim (Result-cases (fetch_xorb_data lz4 fetch t.hash (lookup t.hash infos))) [
          | inr (why, e) ↦ rw e refl
          | inl (xorb, e) ↦ rw e (
              subst
                (λ r.
                  Agrees
                    (go_on (extract_chunks_to_writer lz4 takes xorb t.range before)
                      λ more. reconstruct_to_writer lz4 takes fetch infos more ts)
                    r)
                (behind_first before (extract_chunks lz4 xorb t.range)
                  (λ b. reconstruct_terms lz4 fetch infos b ts))
                (go_on-Agrees (extract_chunks_to_writer lz4 takes xorb t.range before)
                  (extract_chunks lz4 xorb t.range >>= λ out. ok (before ++ out))
                  (λ more. reconstruct_to_writer lz4 takes fetch infos more ts)
                  (λ b. reconstruct_terms lz4 fetch infos b ts)
                  (extract_chunks_to_writer-chunks xorb t.range before)
                  (λ b. reconstruct_to_writer-terms ts b)))
        ]

    -- For a writer that takes everything, and terms whose lengths do not sum to a negative int64,
    -- reconstructToWriter writes exactly what reconstruct returns and ends without an error, or
    -- both end with the same error, whatever the client fetches.
    pub reconstruct_to_writer-Agrees :
        (ts : List Term)
        → leb_ℤ (pos 0) (total_size (pos 0) ts) ≡ true
        → Agrees
            (reconstruct_to_writer lz4 takes fetch infos [] ts)
            (reconstruct lz4 fetch infos ts)
    unfolding reconstruct
    reconstruct_to_writer-Agrees ts sum = rw sum (reconstruct_to_writer-terms ts [])
