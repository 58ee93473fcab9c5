-- ===== src/Gguf/TensorRoundTrip.antt =====
-- What `parseGGUFTensorInfos` of internal/download/file_ops.go reads from well-formed tensors.
use inference_budget_control.Prelude.{
  ℕ, zero, suc, ◌+◌, ◌*◌, ◌^◌, ◌<◌, List, [], ◌∷◌, ◌++◌, ◌≡◌, refl, ap, arith, length,
  length-append, All,
}
use inference_budget_control.Prelude.Results.{ok}
use inference_budget_control.Gguf.{TensorInfo}
use inference_budget_control.Gguf.Reader.{Bytes}
use inference_budget_control.Gguf.Tensors.{
  read_dimensions, read_shape, parse_tensor_info, parse_infos,
}
use inference_budget_control.Prelude.Bytes.{append_assoc}
use inference_budget_control.Gguf.Format.{
  put_uint, put_string, put_numbers, put_tensor, IsTensor, put_tensors,
}
use inference_budget_control.Gguf.RoundTrip.{
  read_uint-put, Fits-32, Fits-64, not_above, read_gguf_string-put, length-put_string,
  length-put_uint,
}

length-put_numbers : (ds : List ℕ) → length (put_numbers ds) ≡ 8 * length ds
length-put_numbers [] = refl
length-put_numbers (d ∷ ds) = omega (
  arith,
  length-append (put_uint 8 d) (put_numbers ds),
  length-put_uint 8 d,
  length-put_numbers ds,
)

read_dimensions-put :
    (ds : List ℕ) (n : ℕ) (rest : Bytes)
    → length ds ≡ n
    → All (λ d. d < 2 ^ 64) ds
    → read_dimensions n (put_numbers ds ++ rest) ≡ ok (ds, rest)
unfolding read_dimensions
read_dimensions-put [] zero rest e narrow = refl
read_dimensions-put [] (suc n) rest e narrow = absurd (omega (arith, e))
read_dimensions-put (d ∷ ds) zero rest e narrow = absurd (omega (arith, e))
read_dimensions-put (d ∷ ds) (suc n) rest e narrow = rw (
  append_assoc (put_uint 8 d) (put_numbers ds) rest,
  read_uint-put 8 d (put_numbers ds ++ rest) (Fits-64 d narrow.0),
  read_dimensions-put ds n rest (omega (arith, e)) narrow.1,
)

pub length-put_tensor :
    (t : TensorInfo)
    → IsTensor t
    → 8 + length t.name + 4 + 8 * t.n_dims + 4 + 8 ≡ length (put_tensor t)
length-put_tensor t is =
    let dims = put_numbers t.dimensions in
    let last = put_uint 8 t.offset in
    omega (
      arith,
      length-append (put_string t.name)
          (put_uint 4 t.n_dims ++ (dims ++ (put_uint 4 t.kind ++ last))),
      length-append (put_uint 4 t.n_dims) (dims ++ (put_uint 4 t.kind ++ last)),
      length-append dims (put_uint 4 t.kind ++ last),
      length-append (put_uint 4 t.kind) last,
      length-put_string t.name,
      length-put_uint 4 t.n_dims,
      length-put_numbers t.dimensions,
      length-put_uint 4 t.kind,
      length-put_uint 8 t.offset,
      is.counted,
    )

parse_tensor_info-put :
    (t : TensorInfo) (rest : Bytes)
    → IsTensor t
    → parse_tensor_info (put_tensor t ++ rest) ≡ ok (t, length (put_tensor t), rest)
unfolding parse_tensor_info read_shape
parse_tensor_info-put t rest is =
    let name = put_string t.name in
    let dims = put_numbers t.dimensions in
    let last = put_uint 8 t.offset in
    rw
      (
        append_assoc name (put_uint 4 t.n_dims ++ (dims ++ (put_uint 4 t.kind ++ last))) rest,
        read_gguf_string-put t.name
            ((put_uint 4 t.n_dims ++ (dims ++ (put_uint 4 t.kind ++ last))) ++ rest) is.short_name,
        append_assoc (put_uint 4 t.n_dims) (dims ++ (put_uint 4 t.kind ++ last)) rest,
        read_uint-put 4 t.n_dims ((dims ++ (put_uint 4 t.kind ++ last)) ++ rest)
            (Fits-32 t.n_dims (omega arith)),
      )
      (rw
        (
          not_above 8 t.n_dims is.few,
          append_assoc dims (put_uint 4 t.kind ++ last) rest,
          read_dimensions-put t.dimensions t.n_dims ((put_uint 4 t.kind ++ last) ++ rest) is.counted
              is.narrow,
          append_assoc (put_uint 4 t.kind) last rest,
          read_uint-put 4 t.kind (last ++ rest) (Fits-32 t.kind is.kind_fits),
          read_uint-put 8 t.offset rest (Fits-64 t.offset is.offset_fits),
        )
        (ap (λ n. ok (t, n, rest)) (length-put_tensor t is)))

pub parse_infos-put :
    (ts : List TensorInfo) (bytes_read : ℕ) (rest : Bytes)
    → All IsTensor ts
    → parse_infos (length ts) bytes_read (put_tensors ts ++ rest)
      ≡ ok (ts, bytes_read + length (put_tensors ts), rest)
unfolding parse_infos
parse_infos-put [] bytes_read rest are = ap (λ n. ok ([], n, rest)) (omega arith)
parse_infos-put (t ∷ ts) bytes_read rest are =
    rw
      (
        append_assoc (put_tensor t) (put_tensors ts) rest,
        parse_tensor_info-put t (put_tensors ts ++ rest) are.0,
        parse_infos-put ts (bytes_read + length (put_tensor t)) rest are.1,
      )
      (ap (λ n. ok (t ∷ ts, n, rest))
        (omega (arith, length-append (put_tensor t) (put_tensors ts))))
