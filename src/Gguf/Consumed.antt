-- ===== src/Gguf/Consumed.antt =====
-- The readers of internal/download/file_ops.go count the bytes that they take.
use inference_budget_control.Prelude.{
  ℕ, zero, suc, ◌+◌, [], ◌∷◌, ◌++◌, ◌≡◌, refl, sym, ◌∙◌, ap, arith, length, length-append, ltb,
  Bool-cases, inl, inr,
}
use inference_budget_control.Prelude.Results.{ok, >>=-eq-ok, carry, ok-ne-err}
use inference_budget_control.Prelude.Bytes.{append_assoc}
use inference_budget_control.Gguf.Reader.{
  Bytes, Read, read_full, read_uint, read_text, read_gguf_string, read_bytes, max_string,
}
use inference_budget_control.Gguf.Values.{
  ValueKind, fixed, text, array, unknown, value_kind, skip_elements, skip_array, max_array, skip_as,
  skip_within, skip_metadata_value,
}

-- The first `n` bytes of `input` were taken, and `rest` is what is left.
abbrev pub Took : ℕ → Bytes → Bytes → Type 0
Took n input rest = (taken : Bytes) × (taken ++ rest ≡ input) × (length taken ≡ n)

pub Took-zero : (input : Bytes) → Took 0 input input
Took-zero input = ([], refl, refl)

pub Took-add :
    {n m k : ℕ} {input middle rest : Bytes}
    → n + m ≡ k
    → Took n input middle
    → Took m middle rest
    → Took k input rest
Took-add {rest = rest} e (a, p, i) (b, q, j) =
    (a ++ b, append_assoc a b rest ∙ ap (λ t. a ++ t) q ∙ p, length-append a b ∙ omega arith)

pub length-Took : {n : ℕ} {input rest : Bytes} → Took n input rest → n + length rest ≡ length input
length-Took {rest = rest} (a, p, i) = omega (arith, length-append a rest, ap length p)

pub read_full-Took :
    (n : ℕ) (input : Bytes) {r : Bytes × Bytes}
    → read_full n input ≡ ok r
    → (r.0 ++ r.1 ≡ input) × (length r.0 ≡ n)
unfolding read_full
read_full-Took zero input e = carry (λ r. (r.0 ++ r.1 ≡ input) × (length r.0 ≡ 0)) _ (refl, refl) e
read_full-Took (suc n) [] e = absurd (cc)
read_full-Took (suc n) (x ∷ input) e =
    let (r, read, e') = >>=-eq-ok (read_full n input) _ e in
    let (p, l) = read_full-Took n input read in
    carry (λ r. (r.0 ++ r.1 ≡ x ∷ input) × (length r.0 ≡ suc n)) _ (ap (λ t. x ∷ t) p, ap suc l) e'

pub Took-read_full :
    (n : ℕ) (input : Bytes) (r : Bytes × Bytes) → read_full n input ≡ ok r → Took n input r.1
Took-read_full n input r e = let h = read_full-Took n input e in (r.0, h.0, h.1)

pub read_uint-Took :
    (width : ℕ) (input : Bytes) {r : ℕ × Bytes}
    → read_uint width input ≡ ok r
    → Took width input r.1
unfolding read_uint
read_uint-Took width input e =
    let (r, read, e') = >>=-eq-ok (read_full width input) _ e in
    carry (λ (s : ℕ × Bytes). Took width input s.1) _ (Took-read_full width input r read) e'

pub read_bytes-Took :
    (n : ℕ) (input : Bytes) {r : ℕ × Bytes} → read_bytes n input ≡ ok r → Took r.0 input r.1
unfolding read_bytes
read_bytes-Took n input e =
    let (r, read, e') = >>=-eq-ok (read_full n input) _ e in
    carry (λ (s : ℕ × Bytes). Took s.0 input s.1) (n, r.1) (Took-read_full n input r read) e'

read_text-Took :
    (n : ℕ) (input : Bytes) {r : Bytes × ℕ × Bytes}
    → read_text n input ≡ ok r
    → (r.1 ≡ 8 + n) × Took n input r.2
unfolding read_text
read_text-Took n input e = elim (Bool-cases (ltb max_string n)) [
  | inl long ↦ absurd (ok-ne-err _ _ (sym (rw (long, read_text) at e)))
  | inr short ↦
      let (r, read, e') = >>=-eq-ok (read_full n input) _ (rw (short, read_text) at e) in
      carry (λ (s : Bytes × ℕ × Bytes). (s.1 ≡ 8 + n) × Took n input s.2) _
        (refl, Took-read_full n input r read) e'
]

pub read_gguf_string-Took :
    (input : Bytes) {r : Bytes × ℕ × Bytes} → read_gguf_string input ≡ ok r → Took r.1 input r.2
unfolding read_gguf_string
read_gguf_string-Took input e =
    let ((n, after), read, e') = >>=-eq-ok (read_uint 8 input) _ e in
    let (count, took) = read_text-Took n after e' in
    Took-add (sym count) (read_uint-Took 8 input read) took

-- A reader of values counts what it takes.
abbrev pub Counts : (Bytes → Read (ℕ × Bytes)) → Type 0
Counts read = (input : Bytes) (r : ℕ × Bytes) → read input ≡ ok r → Took r.0 input r.1

pub skip_elements-Took :
    (one : Bytes → Read (ℕ × Bytes)) (count total start : ℕ) (input all : Bytes) {r : ℕ × Bytes}
    → Counts one
    → Took total all input
    → skip_elements one count total input ≡ ok r
    → Took r.0 all r.1
unfolding skip_elements
skip_elements-Took one zero total start input all counts before e =
    carry (λ r. Took r.0 all r.1) _ before e
skip_elements-Took one (suc count) total start input all counts before e =
    let ((n, rest), read, e') = >>=-eq-ok (one input) _ e in
    skip_elements-Took one count (total + n) start rest all counts
      (Took-add refl before (counts input (n, rest) read)) e'

skip_array-Took :
    (skip : ℕ → Bytes → Read (ℕ × Bytes)) (element count : ℕ) (input all : Bytes) {r : ℕ × Bytes}
    → ((t : ℕ) → Counts (skip t))
    → Took 12 all input
    → skip_array skip element count input ≡ ok r
    → Took r.0 all r.1
unfolding skip_array
skip_array-Took skip element count input all counts before e =
    elim (Bool-cases (ltb max_array count)) [
      | inl long ↦ absurd (ok-ne-err _ _ (sym (rw (long, skip_array) at e)))
      | inr short ↦
          skip_elements-Took (skip element) count 12 0 input all (counts element) before
            (rw (short, skip_array) at e)
    ]

pub skip_as-Took :
    (skip : ℕ → Bytes → Read (ℕ × Bytes)) (kind : ValueKind) (t : ℕ)
    → ((t : ℕ) → Counts (skip t))
    → Counts (skip_as skip kind t)
unfolding skip_as
skip_as-Took skip (fixed width) t counts input r e = read_bytes-Took width input e
skip_as-Took skip text t counts input r e =
    let ((s, n, rest), read, e') = >>=-eq-ok (read_gguf_string input) _ e in
    carry (λ r. Took r.0 input r.1) _ (read_gguf_string-Took input read) e'
skip_as-Took skip array t counts input r e =
    let ((element, after), read, e') = >>=-eq-ok (read_uint 4 input) _ e in
    let ((count, after'), read', e'') = >>=-eq-ok (read_uint 8 after) _ e' in
    skip_array-Took skip element count after' input counts
      (Took-add refl (read_uint-Took 4 input read) (read_uint-Took 8 after read')) e''
skip_as-Took skip unknown t counts input r e = absurd (ok-ne-err _ _ (sym e))

pub skip_within-Took : (depth t : ℕ) → Counts (skip_within depth t)
unfolding skip_within
skip_within-Took zero t input r e = absurd (ok-ne-err _ _ (sym e))
skip_within-Took (suc depth) t input r e =
    skip_as-Took (skip_within depth) (value_kind t) t (skip_within-Took depth) input r e

pub skip_metadata_value-Took : (t : ℕ) → Counts (skip_metadata_value t)
unfolding skip_metadata_value
skip_metadata_value-Took t input r e = skip_within-Took (suc (length input)) t input r e
