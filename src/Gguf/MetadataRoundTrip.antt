-- ===== src/Gguf/MetadataRoundTrip.antt =====
-- What `parseGGUFMetadata` of internal/download/file_ops.go reads from well-formed pairs.
use inference_budget_control.Prelude.{
  ℕ, ◌+◌, List, [], ◌∷◌, ◌++◌, ◌≡◌, sym, ap, arith, length, length-append, true, Bool-cases, inl,
  inr, ◌==◌, if◌then◌else◌, ◌||◌, All, some, none,
}
use inference_budget_control.Prelude.Results.{ok}
use inference_budget_control.Gguf.Reader.{Bytes, little_endian, read_uint}
use inference_budget_control.Gguf.Values.{fixed, value_kind, read_metadata_value}
use inference_budget_control.Gguf.Metadata.{alignment_key, read_pair, parse_pair, parse_pairs}
use inference_budget_control.Prelude.Bytes.{append_assoc, same_bytes}
use inference_budget_control.Gguf.Format.{
  put_uint, put_string, Value, scalar, string, items, put, IsValue, Pair, put_pair, IsPair,
  put_pairs, alignment_after,
}
use inference_budget_control.Gguf.RoundTrip.{
  read_full-append, read_uint-put, Fits-32, read_gguf_string-put, length-put_string,
  length-put_uint, skip_metadata_value-put,
}

fixed_width :
    (t : ℕ) (b : Bytes) (width : ℕ)
    → value_kind t ≡ fixed (length b)
    → value_kind t ≡ fixed width
    → length b ≡ width
fixed_width t b width is e = cc

-- A number of 32 or 64 bits is read from its own bytes.
read_scalar-put :
    (t : ℕ) (v : Value) (rest : Bytes) (width : ℕ)
    → IsValue t v
    → value_kind t ≡ fixed width
    → (read_uint width (put v ++ rest) ≡ ok (little_endian (put v), rest))
      × (width ≡ length (put v))
unfolding IsValue put read_uint
read_scalar-put t (scalar b) rest width is e =
    let same = fixed_width t b width is e in (rw (← same, read_full-append b rest), sym same)
read_scalar-put t (string s) rest width is e = absurd (cc is.0)
read_scalar-put t (items element vs) rest width is e = absurd (cc is.0)

is_4 : (t : ℕ) → t == 4 ≡ true → value_kind t ≡ fixed 4
unfolding value_kind
is_4 t h = let e : t ≡ 4 = ground arith in rw e

is_10 : (t : ℕ) → t == 10 ≡ true → value_kind t ≡ fixed 8
unfolding value_kind
is_10 t h = let e : t ≡ 10 = ground arith in rw e

read_metadata_value-put :
    (t : ℕ) (v : Value) (rest : Bytes)
    → IsValue t v
    → read_metadata_value t (put v ++ rest)
      ≡ ok (if t == 4 || t == 10 then some (little_endian (put v)) else none, length (put v), rest)
unfolding read_metadata_value
read_metadata_value-put t v rest is = elim (Bool-cases (t == 4)) [
  | inl narrow ↦
      let (read, size) = read_scalar-put t v rest 4 is (is_4 t narrow) in
      rw (narrow, read) (ap (λ n. ok (some (little_endian (put v)), n, rest)) size)
  | inr other ↦ elim (Bool-cases (t == 10)) [
    | inl wide ↦
        let (read, size) = read_scalar-put t v rest 8 is (is_10 t wide) in
        rw (other, wide, read) (ap (λ n. ok (some (little_endian (put v)), n, rest)) size)
    | inr neither ↦ rw (other, neither, skip_metadata_value-put t v rest is)
  ]
]

read_pair-put :
    (alignment : ℕ) (p : Pair) (rest : Bytes)
    → IsValue p.kind p.value
    → read_pair p.key p.kind alignment (put p.value ++ rest)
      ≡ ok (alignment_after alignment (p ∷ []), length (put p.value), rest)
unfolding read_pair
read_pair-put alignment p rest is = elim (Bool-cases (same_bytes p.key alignment_key)) [
  | inr skipped ↦ rw (skipped, skip_metadata_value-put p.kind p.value rest is)
  | inl aligned ↦ elim (Bool-cases (p.kind == 4 || p.kind == 10)) [
    | inl number ↦ rw (aligned, read_metadata_value-put p.kind p.value rest is, number)
    | inr other ↦ rw (aligned, read_metadata_value-put p.kind p.value rest is, other)
  ]
]

pub length-put_pair : (p : Pair) → 8 + length p.key + 4 + length (put p.value) ≡ length (put_pair p)
length-put_pair p = omega (
  arith,
  length-append (put_string p.key) (put_uint 4 p.kind ++ put p.value),
  length-append (put_uint 4 p.kind) (put p.value),
  length-put_string p.key,
  length-put_uint 4 p.kind,
)

parse_pair-put :
    (alignment : ℕ) (p : Pair) (rest : Bytes)
    → IsPair p
    → parse_pair alignment (put_pair p ++ rest)
      ≡ ok (alignment_after alignment (p ∷ []), length (put_pair p), rest)
unfolding parse_pair
parse_pair-put alignment p rest is =
    let value = put p.value in
    rw
      (
        append_assoc (put_string p.key) (put_uint 4 p.kind ++ value) rest,
        read_gguf_string-put p.key ((put_uint 4 p.kind ++ value) ++ rest) is.0,
        append_assoc (put_uint 4 p.kind) value rest,
        read_uint-put 4 p.kind (value ++ rest) (Fits-32 p.kind is.1),
        read_pair-put alignment p rest is.2,
      )
      (ap (λ n. ok (alignment_after alignment (p ∷ []), n, rest)) (length-put_pair p))

pub parse_pairs-put :
    (ps : List Pair) (alignment bytes_read : ℕ) (rest : Bytes)
    → All IsPair ps
    → parse_pairs (length ps) alignment bytes_read (put_pairs ps ++ rest)
      ≡ ok (alignment_after alignment ps, bytes_read + length (put_pairs ps), rest)
unfolding parse_pairs
parse_pairs-put [] alignment bytes_read rest are = ap (λ n. ok (alignment, n, rest)) (omega arith)
parse_pairs-put (p ∷ ps) alignment bytes_read rest are =
    let next = alignment_after alignment (p ∷ []) in
    rw
      (
        append_assoc (put_pair p) (put_pairs ps) rest,
        parse_pair-put alignment p (put_pairs ps ++ rest) are.0,
        parse_pairs-put ps next (bytes_read + length (put_pair p)) rest are.1,
      )
      (ap (λ n. ok (alignment_after next ps, n, rest))
        (omega (arith, length-append (put_pair p) (put_pairs ps))))
