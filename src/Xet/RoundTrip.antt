-- ===== src/Xet/RoundTrip.antt =====
-- What internal/xet reads from chunks that `Serialize` and their data make up.
use inference_budget_control.Prelude.{
  ℕ, zero, suc, ◌+◌, ◌^◌, ◌≤◌, ◌<◌, List, [], ◌∷◌, ◌++◌, ◌≡◌, refl, sym, ◌∙◌, ap, arith, length,
  length-append, ltb, leb, true, false, Option, some, All, inl, inr,
}
use inference_budget_control.Prelude.Results.{Result, ok, err, ◌>>=◌, Result-cases}
use inference_budget_control.Prelude.Bytes.{
  take, drop, append_assoc, append_nil, drop-append, take-append, drop-drop,
}
use inference_budget_control.Xet.{Bytes, ChunkHeader, XetError}
use inference_budget_control.Xet.Headers.{parse_chunk_header, serialize, has_next, take_chunk, next}
use inference_budget_control.Xet.Decompress.{decompress}
use inference_budget_control.Xet.Extract.{extract_from, extract_range}

abbrev pub IsHeader : ChunkHeader → Type 0
IsHeader h = (h.compressed_size < 2 ^ 24) × (h.uncompressed_size < 2 ^ 24)

pub parse_chunk_header-serialize :
    (h : ChunkHeader) → IsHeader h → parse_chunk_header (serialize h) ≡ ok h
unfolding parse_chunk_header serialize
parse_chunk_header-serialize h is = ap ok (ground arith)

-- A chunk of a xorb: its header and the data behind it.
pub record XorbChunk : Type 0 where
  pub header : ChunkHeader
  pub payload : Bytes

abbrev pub IsChunk : XorbChunk → Type 0
IsChunk c = IsHeader c.header × (c.header.compressed_size ≡ length c.payload)

abbrev pub put_chunk : XorbChunk → Bytes
put_chunk c = serialize c.header ++ c.payload

abbrev pub put_chunks : List XorbChunk → Bytes
put_chunks [] = []
put_chunks (c ∷ cs) = put_chunk c ++ put_chunks cs

-- The data of the chunks, one after another, or the first error.
abbrev pub decompress_all : (Bytes → Option Bytes) → List XorbChunk → Result XetError Bytes
decompress_all lz4 [] = ok []
decompress_all lz4 (c ∷ cs) = do
  out ← decompress lz4 c.header c.payload
  rest ← decompress_all lz4 cs
  ok (out ++ rest)

length-serialize : (h : ChunkHeader) → length (serialize h) ≡ 8
unfolding serialize
length-serialize h = refl

-- The iterator stands at `offset`, behind `before`.
abbrev At : Bytes → ℕ → Bytes → Bytes → Type 0
At input offset before after = (before ++ after ≡ input) × (length before ≡ offset)

drop-At :
    (input : Bytes) (offset : ℕ) (before after : Bytes)
    → At input offset before after
    → drop offset input ≡ after
drop-At input offset before after (e, l) = rw (← e, ← l) (drop-append before after)

length-At :
    (input : Bytes) (offset : ℕ) (before after : Bytes)
    → At input offset before after
    → length input ≡ offset + length after
length-At input offset before after (e, l) =
    ap length (sym e) ∙ length-append before after ∙ ap (λ n. n + length after) l

take_header : (h : ChunkHeader) (rest : Bytes) → take 8 (serialize h ++ rest) ≡ serialize h
unfolding serialize
take_header h rest = refl

drop_header : (h : ChunkHeader) (rest : Bytes) → drop 8 (serialize h ++ rest) ≡ rest
unfolding serialize
drop_header h rest = refl

not_less : (m n : ℕ) → n ≤ m → ltb m n ≡ false
not_less m n h = ground arith

at_most : (m n : ℕ) → n ≤ m → leb n m ≡ true
at_most m n h = ground arith

not_at_most : (m n : ℕ) → m < n → leb n m ≡ false
not_at_most m n h = ground arith

length-put_chunk :
    (c : XorbChunk) (after : Bytes)
    → IsChunk c
    → length (put_chunk c ++ after) ≡ 8 + c.header.compressed_size + length after
length-put_chunk c after is = omega (
  arith,
  length-append (put_chunk c) after,
  length-append (serialize c.header) c.payload,
  length-serialize c.header,
  is.1,
)

next-chunk :
    (c : XorbChunk) (input : Bytes) (offset : ℕ) (before after : Bytes)
    → IsChunk c
    → At input offset before (put_chunk c ++ after)
    → next (record { input = input; offset = offset })
      ≡ ok (
        some (c.header, c.payload),
        record { input = input; offset = offset + 8 + c.header.compressed_size },
      )
unfolding next take_chunk
next-chunk c input offset before after is at =
    let size = length-At input offset before (put_chunk c ++ after) at in
    let size' = length-put_chunk c after is in
    let rest : drop offset input ≡ serialize c.header ++ (c.payload ++ after) =
      drop-At input offset before (put_chunk c ++ after) at
      ∙ append_assoc (serialize c.header) c.payload after in
    let behind : drop (offset + 8) input ≡ c.payload ++ after =
      sym (drop-drop offset 8 input)
      ∙ ap (λ l. drop 8 l) rest
      ∙ drop_header c.header (c.payload ++ after) in
    let payload : take c.header.compressed_size (c.payload ++ after) ≡ c.payload =
      ap (λ n. take n (c.payload ++ after)) is.1 ∙ take-append c.payload after in
    rw (
      not_less (length input) (offset + 8) (omega (arith, size, size')),
      rest,
      take_header c.header (c.payload ++ after),
      parse_chunk_header-serialize c.header is.0,
      not_less (length input) (offset + 8 + c.header.compressed_size) (omega (arith, size, size')),
      behind,
      payload,
    )

-- Behind the header and the data of a chunk.
At-next :
    (c : XorbChunk) (input : Bytes) (offset : ℕ) (before after : Bytes)
    → IsChunk c
    → At input offset before (put_chunk c ++ after)
    → At input (offset + 8 + c.header.compressed_size) (before ++ put_chunk c) after
At-next c input offset before after is (e, l) = (
  append_assoc before (put_chunk c) after ∙ e,
  omega (
    arith,
    length-append before (put_chunk c),
    length-append (serialize c.header) c.payload,
    length-serialize c.header,
    is.1,
    l,
  ),
)

append_rest :
    (r : Result XetError Bytes) (result out : Bytes)
    → (r >>= λ rest. ok ((result ++ out) ++ rest))
      ≡ ((r >>= λ rest. ok (out ++ rest)) >>= λ o. ok (result ++ o))
append_rest (err e) result out = refl
append_rest (ok rest) result out = ap ok (append_assoc result out rest)

extract_from-put :
    (lz4 : Bytes → Option Bytes) (cs : List XorbChunk) (fuel : ℕ) (input : Bytes) (offset : ℕ)
    (before tail result : Bytes)
    → All IsChunk cs
    → length tail < 8
    → At input offset before (put_chunks cs ++ tail)
    → length (put_chunks cs ++ tail) ≤ fuel
    → extract_from lz4 fuel (record { input = input; offset = offset }) result
      ≡ (decompress_all lz4 cs >>= λ out. ok (result ++ out))
unfolding extract_from has_next
extract_from-put lz4 [] zero input offset before tail result are short at enough =
    ap ok (sym (append_nil result))
extract_from-put lz4 [] (suc fuel) input offset before tail result are short at enough =
    let size = length-At input offset before tail at in
    rw (not_at_most (length input) (offset + 8) (omega (arith, size)))
      (ap ok (sym (append_nil result)))
extract_from-put lz4 (c ∷ cs) zero input offset before tail result are short at enough = absurd (
    omega
      (arith, length-append (put_chunks (c ∷ cs)) tail, length-put_chunk c (put_chunks cs) are.0))
extract_from-put lz4 (c ∷ cs) (suc fuel) input offset before tail result are short at enough =
    let after = put_chunks cs ++ tail in
    let joined = append_assoc (put_chunk c) (put_chunks cs) tail in
    let at' : At input offset before (put_chunk c ++ after) =
      (ap (λ x. before ++ x) (sym joined) ∙ at.0, at.1) in
    let size = length-At input offset before (put_chunk c ++ after) at' in
    let size' = length-put_chunk c after are.0 in
    rw
      (
        at_most (length input) (offset + 8) (omega (arith, size, size')),
        next-chunk c input offset before after are.0 at',
      )
      (elim (Result-cases (decompress lz4 c.header c.payload)) [
        | inr (e, failed) ↦ rw failed
        | inl (out, done) ↦ rw done (
            extract_from-put lz4 cs fuel input (offset + 8 + c.header.compressed_size)
              (before ++ put_chunk c) tail (result ++ out) are.1 short
              (At-next c input offset before after are.0 at')
              (omega (arith, enough, size', ap length joined))
            ∙ append_rest (decompress_all lz4 cs) result out)
      ])

-- Chunks.
pub extract_range-put :
    (lz4 : Bytes → Option Bytes) (cs : List XorbChunk) (tail : Bytes)
    → All IsChunk cs
    → length tail < 8
    → extract_range lz4 (put_chunks cs ++ tail) ≡ decompress_all lz4 cs
unfolding extract_range
extract_range-put lz4 cs tail are short =
    extract_from-put lz4 cs (length (put_chunks cs ++ tail)) (put_chunks cs ++ tail) 0 [] tail []
      are short (refl, refl) (omega arith)
    ∙ same (decompress_all lz4 cs)
  where
    same : (r : Result XetError Bytes) → (r >>= λ out. ok ([] ++ out)) ≡ r
    same (err e) = refl
    same (ok out) = refl
