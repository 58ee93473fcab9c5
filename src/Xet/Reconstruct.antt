-- ===== src/Xet/Reconstruct.antt =====
-- internal/xet/download.go: the file that `reconstruct` puts together from the fetched data.
use inference_budget_control.Prelude.{
  ℕ, ◌+◌, ◌-◌, ◌<◌, ◌≤◌, List, [], ◌∷◌, ◌++◌, String, ◌≡◌, refl, sym, ◌∙◌, ap, arith, length,
  length-append, true, ◌&&◌, Option, some, All, inl, inr,
}
use inference_budget_control.Prelude.Int.{pos, leb_ℤ}
use inference_budget_control.Prelude.Dict.{Dict, lookup}
use inference_budget_control.Prelude.Results.{Result, ok, err, ◌>>=◌, Result-cases}
use inference_budget_control.Prelude.Bytes.{append_assoc, append_nil, drop-append, take-append}
use inference_budget_control.Xet.{Bytes, XetError, ByteRange, FetchInfo, Term}
use inference_budget_control.Xet.Decompress.{decompress}
use inference_budget_control.Xet.Extract.{
  Slice, reslice, total_size, extract_chunks, fetch_xorb_data, reconstruct_terms, reconstruct,
}
use inference_budget_control.Xet.RoundTrip.{
  XorbChunk, IsChunk, put_chunks, decompress_all, extract_range-put,
}

-- A term with what the client fetches for it: in the range of the term stand the chunks and fewer
-- than eight bytes more.
pub record Piece : Type 0 where
  pub term : Term
  pub info : FetchInfo
  pub others : List FetchInfo
  pub fetched : Slice
  pub before : Bytes
  pub chunks : List XorbChunk
  pub tail : Bytes
  pub after : Bytes

-- The range of `n` bytes behind the first `m`.
abbrev pub behind : ℕ → ℕ → ByteRange
behind m n = record { start = pos m; stop = pos (m + n) }

abbrev pub IsPiece : (FetchInfo → Option Slice) → Dict (List FetchInfo) → Piece → Type 0
IsPiece fetch infos p =
    (lookup p.term.hash infos ≡ some (p.info ∷ p.others))
    × (fetch p.info ≡ some p.fetched)
    × (p.fetched.content ++ p.fetched.spare
        ≡ p.before ++ ((put_chunks p.chunks ++ p.tail) ++ p.after))
    × (p.term.range ≡ behind (length p.before) (length (put_chunks p.chunks ++ p.tail)))
    × All IsChunk p.chunks
    × (length p.tail < 8)

abbrev pub all_chunks : List Piece → List XorbChunk
all_chunks [] = []
all_chunks (p ∷ ps) = p.chunks ++ all_chunks ps

abbrev pub all_terms : List Piece → List Term
all_terms [] = []
all_terms (p ∷ ps) = p.term ∷ all_terms ps

inside :
    (b m n : ℕ)
    → b + m ≤ n
    → (leb_ℤ (pos 0) (pos b) && leb_ℤ (pos b) (pos (b + m)) && leb_ℤ (pos (b + m)) (pos n)) ≡ true
inside b m n h = ground arith

less_first : (b m : ℕ) → b + m - b ≡ m
less_first b m = omega arith

reslice-middle :
    (s : Slice) (before middle after : Bytes)
    → s.content ++ s.spare ≡ before ++ (middle ++ after)
    → reslice s (behind (length before) (length middle)) ≡ ok middle
unfolding reslice
reslice-middle s before middle after whole =
    let b = length before in
    let m = length middle in
    let size = length-append before (middle ++ after) in
    let size' = length-append middle after in
    rw
      (
        whole,
        inside b m (length (before ++ (middle ++ after))) (omega (arith, size, size')),
        less_first b m,
        drop-append before (middle ++ after),
        take-append middle after,
      )
      refl

module _ (lz4 : Bytes → Option Bytes) where
  -- The bytes behind those that there are already.
  abbrev pub onto : Bytes → Result XetError Bytes → Result XetError Bytes
  onto result r = r >>= λ out. ok (result ++ out)

  onto-nil : (r : Result XetError Bytes) → onto [] r ≡ r
  onto-nil (err e) = refl
  onto-nil (ok out) = refl

  onto-onto : (a b : Bytes) (r : Result XetError Bytes) → onto (a ++ b) r ≡ onto a (onto b r)
  onto-onto a b (err e) = refl
  onto-onto a b (ok out) = ap ok (append_assoc a b out)

  decompress_all-append :
      (cs ds : List XorbChunk)
      → decompress_all lz4 (cs ++ ds)
        ≡ (decompress_all lz4 cs >>= λ a. onto a (decompress_all lz4 ds))
  decompress_all-append [] ds = sym (onto-nil (decompress_all lz4 ds))
  decompress_all-append (c ∷ cs) ds = elim (Result-cases (decompress lz4 c.header c.payload)) [
    | inr (why, e) ↦ rw e refl
    | inl (out, e) ↦
        rw (e, decompress_all-append cs ds)
          (elim (Result-cases (decompress_all lz4 cs)) [
            | inr (why, e') ↦ rw e' refl
            | inl (more, e') ↦ rw e' (sym (onto-onto out more (decompress_all lz4 ds)))
          ])
  ]

  module _ (fetch : FetchInfo → Option Slice) (infos : Dict (List FetchInfo)) where
    -- The client's answer is what fetchXorbData returns.
    fetched_first :
        (hash : String) (info : FetchInfo) (others : List FetchInfo) (xorb : Slice)
        → fetch info ≡ some xorb
        → fetch_xorb_data lz4 fetch hash (some (info ∷ others)) ≡ ok xorb
    unfolding fetch_xorb_data
    fetched_first hash info others xorb got = rw (fetch_xorb_data, got) refl

    reconstruct_terms-put :
        (ps : List Piece) (result : Bytes)
        → All (IsPiece fetch infos) ps
        → reconstruct_terms lz4 fetch infos result (all_terms ps)
          ≡ onto result (decompress_all lz4 (all_chunks ps))
    unfolding reconstruct_terms extract_chunks
    reconstruct_terms-put [] result are = ap ok (sym (append_nil result))
    reconstruct_terms-put (p ∷ ps) result ((found, got, whole, at, are_chunks, short), are) =
        rw
          (
            found,
            fetched_first p.term.hash p.info p.others p.fetched got,
            at,
            reslice-middle p.fetched p.before (put_chunks p.chunks ++ p.tail) p.after whole,
            extract_range-put lz4 p.chunks p.tail are_chunks short,
            decompress_all-append p.chunks (all_chunks ps),
          )
          (elim (Result-cases (decompress_all lz4 p.chunks)) [
            | inl (out, e) ↦ rw e (
                reconstruct_terms-put ps (result ++ out) are
                ∙ onto-onto result out (decompress_all lz4 (all_chunks ps)))
            | inr (why, e) ↦ rw e refl
          ])

    -- Where each term names, in what the client fetches for it, a range that holds serialized
    -- chunks and fewer than eight bytes behind them, and the lengths of the terms do not sum to a
    -- negative int64, reconstruct gives the decompressed data of all these chunks in order, or the
    -- first error of the decompression.
    pub reconstruct-put :
        (ps : List Piece)
        → All (IsPiece fetch infos) ps
        → leb_ℤ (pos 0) (total_size (pos 0) (all_terms ps)) ≡ true
        → reconstruct lz4 fetch infos (all_terms ps) ≡ decompress_all lz4 (all_chunks ps)
    unfolding reconstruct
    reconstruct-put ps are sum =
        rw sum (reconstruct_terms-put ps [] are ∙ onto-nil (decompress_all lz4 (all_chunks ps)))
