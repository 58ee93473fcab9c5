-- ===== src/Gguf/Position.antt =====
-- Where `validateGGUFHeader` of internal/download/file_ops.go stands when it checks the bounds.
use inference_budget_control.Prelude.{
  ℕ, zero, suc, ◌+◌, ◌*◌, List, ◌≡◌, refl, sym, arith, ltb, ◌||◌, Bool-cases, inl, inr, ◌==◌,
  Option, some,
}
use inference_budget_control.Prelude.Results.{ok, ◌>>=◌, >>=-eq-ok, carry, ok-ne-err}
use inference_budget_control.Prelude.Bytes.{same_bytes}
use inference_budget_control.Gguf.{TensorInfo}
use inference_budget_control.Gguf.Reader.{Bytes, read_full, read_uint, read_gguf_string}
use inference_budget_control.Gguf.Values.{skip_metadata_value, read_metadata_value}
use inference_budget_control.Gguf.Metadata.{
  alignment_key, read_pair, parse_pair, parse_pairs, parse_gguf_metadata,
}
use inference_budget_control.Gguf.Tensors.{
  read_dimensions, read_shape, parse_tensor_info, parse_infos, parse_gguf_tensor_infos,
}
use inference_budget_control.Gguf.Header.{
  FileHeader, gguf_magic, max_count, check_counts, read_counts, read_version, read_gguf_file_header,
  ParsedHeader, parse_header,
}
use inference_budget_control.Gguf.Consumed.{
  Took, Took-zero, Took-add, Took-read_full, read_uint-Took, read_gguf_string-Took,
  skip_metadata_value-Took,
}

narrow-Took :
    (width : ℕ) (input : Bytes) {r : Option ℕ × ℕ × Bytes}
    → (read_uint width input >>= λ v. ok (some v.0, width, v.1)) ≡ ok r
    → Took r.1 input r.2
narrow-Took width input e =
    let (v, read, e') = >>=-eq-ok (read_uint width input) _ e in
    carry (λ (r : Option ℕ × ℕ × Bytes). Took r.1 input r.2) _ (read_uint-Took width input read) e'

read_metadata_value-Took :
    (t : ℕ) (input : Bytes) {r : Option ℕ × ℕ × Bytes}
    → read_metadata_value t input ≡ ok r
    → Took r.1 input r.2
unfolding read_metadata_value
read_metadata_value-Took t input e = elim (Bool-cases (t == 4)) [
  | inl narrow ↦ narrow-Took 4 input (rw (narrow, read_metadata_value) at e)
  | inr other ↦ elim (Bool-cases (t == 10)) [
    | inl wide ↦ narrow-Took 8 input (rw (other, wide, read_metadata_value) at e)
    | inr rest ↦
        let (v, read, e') =
          >>=-eq-ok (skip_metadata_value t input) _ (rw (other, rest, read_metadata_value) at e) in
        carry (λ (r : Option ℕ × ℕ × Bytes). Took r.1 input r.2) _
          (skip_metadata_value-Took t input v read) e'
  ]
]

read_pair-Took :
    (key : Bytes) (t alignment : ℕ) (input : Bytes) {r : ℕ × ℕ × Bytes}
    → read_pair key t alignment input ≡ ok r
    → Took r.1 input r.2
unfolding read_pair
read_pair-Took key t alignment input e = elim (Bool-cases (same_bytes key alignment_key)) [
  | inl aligned ↦
      let (v, read, e') =
        >>=-eq-ok (read_metadata_value t input) _ (rw (aligned, read_pair) at e) in
      carry (λ (r : ℕ × ℕ × Bytes). Took r.1 input r.2) _ (read_metadata_value-Took t input read) e'
  | inr skipped ↦
      let (v, read, e') =
        >>=-eq-ok (skip_metadata_value t input) _ (rw (skipped, read_pair) at e) in
      carry (λ (r : ℕ × ℕ × Bytes). Took r.1 input r.2) _ (skip_metadata_value-Took t input v read)
        e'
]

parse_pair-Took :
    (alignment : ℕ) (input : Bytes) {r : ℕ × ℕ × Bytes}
    → parse_pair alignment input ≡ ok r
    → Took r.1 input r.2
unfolding parse_pair
parse_pair-Took alignment input e =
    let ((key, n, after_key), a, e₁) = >>=-eq-ok (read_gguf_string input) _ e in
    let ((t, after_type), b, e₂) = >>=-eq-ok (read_uint 4 after_key) _ e₁ in
    let ((al, m, rest), c, e₃) = >>=-eq-ok (read_pair key t alignment after_type) _ e₂ in
    carry (λ (r : ℕ × ℕ × Bytes). Took r.1 input r.2) _
      (Took-add refl (Took-add refl (read_gguf_string-Took input a) (read_uint-Took 4 after_key b))
        (read_pair-Took key t alignment after_type c))
      e₃

parse_pairs-Took :
    (count alignment bytes_read : ℕ) (all input : Bytes) {r : ℕ × ℕ × Bytes}
    → Took bytes_read all input
    → parse_pairs count alignment bytes_read input ≡ ok r
    → Took r.1 all r.2
unfolding parse_pairs
parse_pairs-Took zero alignment bytes_read all input before e =
    carry (λ (r : ℕ × ℕ × Bytes). Took r.1 all r.2) _ before e
parse_pairs-Took (suc count) alignment bytes_read all input before e =
    let ((al, n, rest), a, e₁) = >>=-eq-ok (parse_pair alignment input) _ e in
    parse_pairs-Took count al (bytes_read + n) all rest
      (Took-add refl before (parse_pair-Took alignment input a)) e₁

read_dimensions-Took :
    (n : ℕ) (input : Bytes) {r : List ℕ × Bytes}
    → read_dimensions n input ≡ ok r
    → Took (8 * n) input r.1
unfolding read_dimensions
read_dimensions-Took zero input e =
    carry (λ (r : List ℕ × Bytes). Took 0 input r.1) _ (Took-zero input) e
read_dimensions-Took (suc n) input e =
    let ((d, after), a, e₁) = >>=-eq-ok (read_uint 8 input) _ e in
    let ((ds, rest), b, e₂) = >>=-eq-ok (read_dimensions n after) _ e₁ in
    carry (λ (r : List ℕ × Bytes). Took (8 * suc n) input r.1) _
      (Took-add (omega arith) (read_uint-Took 8 input a) (read_dimensions-Took n after b)) e₂

read_shape-Took :
    (name : Bytes) (n n_dims : ℕ) (all input : Bytes) {r : TensorInfo × ℕ × Bytes}
    → Took (n + 4) all input
    → read_shape name n n_dims input ≡ ok r
    → Took r.1 all r.2
unfolding read_shape
read_shape-Took name n n_dims all input before e = elim (Bool-cases (ltb 8 n_dims)) [
  | inl many ↦ absurd (ok-ne-err _ _ (sym (rw (many, read_shape) at e)))
  | inr few ↦
      let ((ds, after), a, e₁) =
        >>=-eq-ok (read_dimensions n_dims input) _ (rw (few, read_shape) at e) in
      let ((kind, after'), b, e₂) = >>=-eq-ok (read_uint 4 after) _ e₁ in
      let ((offset, rest), c, e₃) = >>=-eq-ok (read_uint 8 after') _ e₂ in
      carry (λ (r : TensorInfo × ℕ × Bytes). Took r.1 all r.2) _
        (Took-add refl
          (Took-add refl (Took-add refl before (read_dimensions-Took n_dims input a))
            (read_uint-Took 4 after b))
          (read_uint-Took 8 after' c))
        e₃
]

parse_tensor_info-Took :
    (input : Bytes) {r : TensorInfo × ℕ × Bytes}
    → parse_tensor_info input ≡ ok r
    → Took r.1 input r.2
unfolding parse_tensor_info
parse_tensor_info-Took input e =
    let ((name, n, after), a, e₁) = >>=-eq-ok (read_gguf_string input) _ e in
    let ((n_dims, after'), b, e₂) = >>=-eq-ok (read_uint 4 after) _ e₁ in
    read_shape-Took name n n_dims input after'
      (Took-add refl (read_gguf_string-Took input a) (read_uint-Took 4 after b)) e₂

parse_infos-Took :
    (count bytes_read : ℕ) (all input : Bytes) {r : List TensorInfo × ℕ × Bytes}
    → Took bytes_read all input
    → parse_infos count bytes_read input ≡ ok r
    → Took r.1 all r.2
unfolding parse_infos
parse_infos-Took zero bytes_read all input before e =
    carry (λ (r : List TensorInfo × ℕ × Bytes). Took r.1 all r.2) _ before e
parse_infos-Took (suc count) bytes_read all input before e =
    let ((t, n, after), a, e₁) = >>=-eq-ok (parse_tensor_info input) _ e in
    let ((ts, total, rest), b, e₂) = >>=-eq-ok (parse_infos count (bytes_read + n) after) _ e₁ in
    carry (λ (r : List TensorInfo × ℕ × Bytes). Took r.1 all r.2) _
      (parse_infos-Took count (bytes_read + n) all after
        (Took-add refl before (parse_tensor_info-Took input a)) b)
      e₂

check_counts-Took :
    (h : FileHeader) (all input : Bytes) {r : FileHeader × Bytes}
    → Took 24 all input
    → check_counts h input ≡ ok r
    → Took 24 all r.1
unfolding check_counts
check_counts-Took h all input before e = elim (Bool-cases (ltb max_count h.tensor_count)) [
  | inl many ↦ absurd (ok-ne-err _ _ (sym (rw (many, check_counts) at e)))
  | inr few ↦ elim (Bool-cases (ltb max_count h.metadata_count)) [
    | inl many ↦ absurd (ok-ne-err _ _ (sym (rw (few, many, check_counts) at e)))
    | inr few' ↦
        carry (λ (r : FileHeader × Bytes). Took 24 all r.1) _ before
          (rw (few, few', check_counts) at e)
  ]
]

read_counts-Took :
    (version : ℕ) (all input : Bytes) {r : FileHeader × Bytes}
    → Took 8 all input
    → read_counts version input ≡ ok r
    → Took 24 all r.1
unfolding read_counts
read_counts-Took version all input before e = elim (Bool-cases (ltb version 2 || ltb 4 version)) [
  | inl unsupported ↦ absurd (ok-ne-err _ _ (sym (rw (unsupported, read_counts) at e)))
  | inr supported ↦
      let ((n, after), a, e₁) =
        >>=-eq-ok (read_uint 8 input) _ (rw (supported, read_counts) at e) in
      let ((m, rest), b, e₂) = >>=-eq-ok (read_uint 8 after) _ e₁ in
      check_counts-Took (record { version = version; tensor_count = n; metadata_count = m }) all
        rest
        (Took-add refl (Took-add refl before (read_uint-Took 8 input a)) (read_uint-Took 8 after b))
        e₂
]

read_version-Took :
    (magic all input : Bytes) {r : FileHeader × Bytes}
    → Took 4 all input
    → read_version magic input ≡ ok r
    → Took 24 all r.1
unfolding read_version
read_version-Took magic all input before e = elim (Bool-cases (same_bytes magic gguf_magic)) [
  | inr other ↦ absurd (ok-ne-err _ _ (sym (rw (other, read_version) at e)))
  | inl same ↦
      let ((version, rest), a, e₁) =
        >>=-eq-ok (read_uint 4 input) _ (rw (same, read_version) at e) in
      read_counts-Took version all rest (Took-add refl before (read_uint-Took 4 input a)) e₁
]

read_gguf_file_header-Took :
    (input : Bytes) {r : FileHeader × Bytes}
    → read_gguf_file_header input ≡ ok r
    → Took 24 input r.1
unfolding read_gguf_file_header
read_gguf_file_header-Took input e =
    let ((magic, rest), a, e₁) = >>=-eq-ok (read_full 4 input) _ e in
    read_version-Took magic input rest (Took-read_full 4 input (magic, rest) a) e₁

-- Whatever bytes validateGGUFHeader reads without an error, the size that it computes for the
-- header is the number of bytes that it has taken.
pub parse_header-Took :
    (input : Bytes) {r : ParsedHeader × Bytes}
    → parse_header input ≡ ok r
    → Took r.0.bytes_read input r.1
unfolding parse_header parse_gguf_metadata parse_gguf_tensor_infos
parse_header-Took input e =
    let ((header, after), a, e₁) = >>=-eq-ok (read_gguf_file_header input) _ e in
    let ((alignment, n, after'), b, e₂) =
      >>=-eq-ok (parse_gguf_metadata header.metadata_count after) _ e₁ in
    let ((tensors, m, rest), c, e₃) =
      >>=-eq-ok (parse_gguf_tensor_infos header.tensor_count after') _ e₂ in
    carry (λ (r : ParsedHeader × Bytes). Took r.0.bytes_read input r.1) _
      (Took-add refl
        (Took-add refl (read_gguf_file_header-Took input a)
          (parse_pairs-Took header.metadata_count 32 0 after after (Took-zero after) b))
        (parse_infos-Took header.tensor_count 0 after' after' (Took-zero after') c))
      e₃
