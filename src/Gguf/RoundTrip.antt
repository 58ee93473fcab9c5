-- ===== src/Gguf/RoundTrip.antt =====
-- What internal/download/file_ops.go reads from the bytes of values, pairs and tensors.
use inference_budget_control.Prelude.{
  ℕ, zero, suc, ◌+◌, ◌/◌, ◌^◌, ◌≤◌, ◌<◌, [], ◌∷◌, ◌++◌, ◌≡◌, refl, sym, ◌∙◌, ap, arith, length,
  length-append, ltb, false,
}
use inference_budget_control.Prelude.Results.{ok}
use inference_budget_control.Gguf.Reader.{
  Bytes, read_full, little_endian, read_uint, read_text, read_gguf_string, read_bytes, max_string,
}
use inference_budget_control.Gguf.Values.{
  skip_elements, skip_array, max_array, skip_as, skip_metadata_value,
}
use inference_budget_control.Gguf.Nesting.{skip_metadata_value-unrolled}
use inference_budget_control.Prelude.Bytes.{append_assoc}
use inference_budget_control.Gguf.Format.{
  put_uint, put_string, Value, scalar, string, items, Values, nil, cons, put, put_all, count,
  IsValue, AreValues,
}

pub read_full-append : (b rest : Bytes) → read_full (length b) (b ++ rest) ≡ ok (b, rest)
unfolding read_full
read_full-append [] rest = refl
read_full-append (x ∷ b) rest = rw (read_full-append b rest)

-- A number that the given number of bytes can hold.
abbrev pub Fits : ℕ → ℕ → Type 0
Fits zero v = v ≡ 0
Fits (suc width) v = Fits width (v / 256)

read_full-put :
    (width v : ℕ) (rest : Bytes)
    → read_full width (put_uint width v ++ rest) ≡ ok (put_uint width v, rest)
unfolding read_full put_uint
read_full-put zero v rest = refl
read_full-put (suc width) v rest = rw (read_full-put width (v / 256) rest)

little_endian-put : (width v : ℕ) → Fits width v → little_endian (put_uint width v) ≡ v
unfolding little_endian put_uint
little_endian-put zero v fits = sym fits
little_endian-put (suc width) v fits = omega (arith, little_endian-put width (v / 256) fits)

pub read_uint-put :
    (width v : ℕ) (rest : Bytes)
    → Fits width v
    → read_uint width (put_uint width v ++ rest) ≡ ok (v, rest)
unfolding read_uint
read_uint-put width v rest fits =
    rw (read_full-put width v rest) (ap (λ n. ok (n, rest)) (little_endian-put width v fits))

pub length-put_uint : (width v : ℕ) → length (put_uint width v) ≡ width
unfolding put_uint
length-put_uint zero v = refl
length-put_uint (suc width) v = ap suc (length-put_uint width (v / 256))

pub Fits-32 : (v : ℕ) → v < 2 ^ 32 → Fits 4 v
Fits-32 v h = omega arith

pub Fits-64 : (v : ℕ) → v < 2 ^ 64 → Fits 8 v
Fits-64 v h = omega arith

pub not_above : (limit n : ℕ) → n ≤ limit → ltb limit n ≡ false
not_above limit n h = ground arith

pub read_gguf_string-put :
    (s rest : Bytes)
    → length s ≤ max_string
    → read_gguf_string (put_string s ++ rest) ≡ ok (s, 8 + length s, rest)
unfolding read_gguf_string read_text
read_gguf_string-put s rest short = rw (
  append_assoc (put_uint 8 (length s)) s rest,
  read_uint-put 8 (length s) (s ++ rest) (Fits-64 (length s) (omega arith)),
  not_above max_string (length s) short,
  read_full-append s rest,
)

pub length-put_string : (s : Bytes) → length (put_string s) ≡ 8 + length s
length-put_string s =
    omega (arith, length-append (put_uint 8 (length s)) s, length-put_uint 8 (length s))

mutual
  unfolding put IsValue skip_as skip_array skip_elements read_bytes

  pub skip_metadata_value-put :
      (t : ℕ) (v : Value) (rest : Bytes)
      → IsValue t v
      → skip_metadata_value t (put v ++ rest) ≡ ok (length (put v), rest)
  skip_metadata_value-put t (scalar b) rest is =
      skip_metadata_value-unrolled t (b ++ rest) ∙ rw (is, read_full-append b rest)
  skip_metadata_value-put t (string s) rest is =
      skip_metadata_value-unrolled t (put_string s ++ rest)
      ∙ rw (is.0, read_gguf_string-put s rest is.1)
          (ap (λ n. ok (n, rest)) (sym (length-put_string s)))
  skip_metadata_value-put t (items element vs) rest is =
      let counted = put_uint 8 (count vs) in
      let body = put_all vs in
      skip_metadata_value-unrolled t ((put_uint 4 element ++ (counted ++ body)) ++ rest)
      ∙ rw
          (
            is.0,
            append_assoc (put_uint 4 element) (counted ++ body) rest,
            read_uint-put 4 element ((counted ++ body) ++ rest) (Fits-32 element is.1),
            append_assoc counted body rest,
            read_uint-put 8 (count vs) (body ++ rest) (Fits-64 (count vs) (omega (arith, is.2))),
            not_above max_array (count vs) is.2,
            skip_elements-put element vs 12 rest is.3,
          )
          (ap (λ n. ok (n, rest))
            (omega (
              arith,
              length-append (put_uint 4 element) (counted ++ body),
              length-append counted body,
              length-put_uint 4 element,
              length-put_uint 8 (count vs),
            )))

  skip_elements-put :
      (t : ℕ) (vs : Values) (total : ℕ) (rest : Bytes)
      → AreValues t vs
      → skip_elements (skip_metadata_value t) (count vs) total (put_all vs ++ rest)
        ≡ ok (total + length (put_all vs), rest)
  skip_elements-put t nil total rest are = ap (λ n. ok (n, rest)) (omega arith)
  skip_elements-put t (cons v vs) total rest are =
      rw
        (
          append_assoc (put v) (put_all vs) rest,
          skip_metadata_value-put t v (put_all vs ++ rest) are.0,
          skip_elements-put t vs (total + length (put v)) rest are.1,
        )
        (ap (λ n. ok (n, rest)) (omega (arith, length-append (put v) (put_all vs))))
