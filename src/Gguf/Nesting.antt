-- ===== src/Gguf/Nesting.antt =====
-- `skipGGUFMetadataValue` of internal/download/file_ops.go ends: the fuel of its model is enough, and
-- with it the model satisfies the recursion of the code.
use inference_budget_control.Prelude.{
  ℕ, zero, suc, ◌+◌, ◌<◌, [], ◌∷◌, ◌≡◌, ◌≢◌, refl, arith, length, ltb, Bool-cases, inl, inr,
}
use inference_budget_control.Prelude.Results.{ok, err, Result-cases, >>=-ne-err}
use inference_budget_control.Gguf.{out_of_fuel}
use inference_budget_control.Gguf.Reader.{
  Bytes, Read, read_full, read_uint, read_text, read_bytes, read_gguf_string, max_string,
}
use inference_budget_control.Gguf.Values.{
  ValueKind, fixed, text, array, unknown, value_kind, skip_elements, skip_array, max_array, skip_as,
  skip_within, skip_metadata_value,
}
use inference_budget_control.Gguf.Consumed.{length-Took, read_uint-Took, Counts, skip_within-Took}

-- Two readers do the same on inputs of a length below `bound`.
abbrev pub Agree : ℕ → (Bytes → Read (ℕ × Bytes)) → (Bytes → Read (ℕ × Bytes)) → Type 0
Agree bound f g = (input : Bytes) → length input < bound → f input ≡ g input

skip_elements-Agree :
    (f g : Bytes → Read (ℕ × Bytes)) (bound count total : ℕ)
    → Counts f
    → Agree bound f g
    → Agree bound (skip_elements f count total) (skip_elements g count total)
unfolding skip_elements
skip_elements-Agree f g bound zero total counts same input short = refl
skip_elements-Agree f g bound (suc count) total counts same input short =
    elim (Result-cases (f input)) [
      | inr (e, failed) ↦ rw (← same input short, failed)
      | inl ((n, rest), read) ↦
          rw (← same input short, read)
            (skip_elements-Agree f g bound count (total + n) counts same rest
              (omega (arith, length-Took (counts input (n, rest) read))))
    ]

skip_array-Agree :
    (f g : ℕ → Bytes → Read (ℕ × Bytes)) (bound element count : ℕ)
    → Counts (f element)
    → Agree bound (f element) (g element)
    → Agree bound (skip_array f element count) (skip_array g element count)
unfolding skip_array
skip_array-Agree f g bound element count counts same input short =
    elim (Bool-cases (ltb max_array count)) [
      | inl long ↦ rw long
      | inr few ↦
          rw few
            (skip_elements-Agree (f element) (g element) bound count 12 counts same input short)
    ]

-- An array is twelve bytes longer than its elements.
skip_as-Agree :
    (f g : ℕ → Bytes → Read (ℕ × Bytes)) (bound : ℕ) (kind : ValueKind) (t : ℕ)
    → ((t : ℕ) → Counts (f t))
    → ((t : ℕ) → Agree bound (f t) (g t))
    → Agree (12 + bound) (skip_as f kind t) (skip_as g kind t)
unfolding skip_as
skip_as-Agree f g bound (fixed width) t counts same input short = refl
skip_as-Agree f g bound text t counts same input short = refl
skip_as-Agree f g bound unknown t counts same input short = refl
skip_as-Agree f g bound array t counts same input short = elim (Result-cases (read_uint 4 input)) [
  | inr (e, failed) ↦ rw failed
  | inl ((element, after), read) ↦ elim (Result-cases (read_uint 8 after)) [
    | inr (e, failed) ↦ rw (read, failed)
    | inl ((count, after'), read') ↦
        rw (read, read')
          (skip_array-Agree f g bound element count (counts element) (same element) after' (
            omega (
              arith,
              length-Took (read_uint-Took 4 input read),
              length-Took (read_uint-Took 8 after read'),
            )))
  ]
]

skip_within-same :
    (f g t : ℕ) (input : Bytes)
    → length input < f
    → length input < g
    → skip_within f t input ≡ skip_within g t input
unfolding skip_within
skip_within-same zero g t input enough more = absurd (omega arith)
skip_within-same (suc f) zero t input enough more = absurd (omega arith)
skip_within-same (suc f) (suc g) t input enough more =
    skip_as-Agree (skip_within f) (skip_within g) (length input) (value_kind t) t
      (skip_within-Took f) (λ t' i short. skip_within-same f g t' i (omega arith) (omega arith))
      input (omega arith)

-- Unrolled.
pub skip_metadata_value-unrolled :
    (t : ℕ) (input : Bytes)
    → skip_metadata_value t input ≡ skip_as skip_metadata_value (value_kind t) t input
unfolding skip_metadata_value skip_within
skip_metadata_value-unrolled t input =
    skip_as-Agree (skip_within (length input)) skip_metadata_value (length input) (value_kind t) t
      (skip_within-Took (length input))
      (λ t' i short. skip_within-same (length input) (suc (length i)) t' i short (omega arith))
      input (omega arith)

-- A reader that never runs out of fuel on inputs of a length below `bound`.
abbrev Ends : ℕ → (Bytes → Read (ℕ × Bytes)) → Type 0
Ends bound f = (input : Bytes) → length input < bound → f input ≢ err out_of_fuel

read_full-ends : (n : ℕ) (input : Bytes) → read_full n input ≢ err out_of_fuel
unfolding read_full
read_full-ends zero input = λ e. cc
read_full-ends (suc n) [] = λ e. cc
read_full-ends (suc n) (x ∷ input) =
    >>=-ne-err (read_full n input) _ out_of_fuel (read_full-ends n input) (λ a read e. cc)

read_uint-ends : (n : ℕ) (input : Bytes) → read_uint n input ≢ err out_of_fuel
unfolding read_uint
read_uint-ends n input =
    >>=-ne-err (read_full n input) _ out_of_fuel (read_full-ends n input) (λ a read e. cc)

read_text-ends : (n : ℕ) (input : Bytes) → read_text n input ≢ err out_of_fuel
unfolding read_text
read_text-ends n input = elim (Bool-cases (ltb max_string n)) [
  | inl long ↦ rw long (λ e. cc)
  | inr short ↦
      rw short
        (>>=-ne-err (read_full n input) _ out_of_fuel (read_full-ends n input) (λ a read e. cc))
]

read_gguf_string-ends : (input : Bytes) → read_gguf_string input ≢ err out_of_fuel
unfolding read_gguf_string
read_gguf_string-ends input =
    >>=-ne-err (read_uint 8 input) _ out_of_fuel (read_uint-ends 8 input)
      (λ a read. read_text-ends a.0 a.1)

skip_elements-Ends :
    (one : Bytes → Read (ℕ × Bytes)) (bound count total : ℕ)
    → Counts one
    → Ends bound one
    → Ends bound (skip_elements one count total)
unfolding skip_elements
skip_elements-Ends one bound zero total counts ends input short = λ e. cc
skip_elements-Ends one bound (suc count) total counts ends input short =
    >>=-ne-err (one input) _ out_of_fuel (ends input short)
      (λ (a : ℕ × Bytes) (read : one input ≡ ok a).
        skip_elements-Ends one bound count (total + a.0) counts ends a.1
          (omega (arith, length-Took (counts input a read))))

skip_array-Ends :
    (skip : ℕ → Bytes → Read (ℕ × Bytes)) (bound element count : ℕ)
    → Counts (skip element)
    → Ends bound (skip element)
    → Ends bound (skip_array skip element count)
unfolding skip_array
skip_array-Ends skip bound element count counts ends input short =
    elim (Bool-cases (ltb max_array count)) [
      | inl long ↦ rw long (λ e. cc)
      | inr few ↦ rw few (skip_elements-Ends (skip element) bound count 12 counts ends input short)
    ]

skip_as-Ends :
    (skip : ℕ → Bytes → Read (ℕ × Bytes)) (bound : ℕ) (kind : ValueKind) (t : ℕ)
    → ((t : ℕ) → Counts (skip t))
    → ((t : ℕ) → Ends bound (skip t))
    → Ends (12 + bound) (skip_as skip kind t)
unfolding skip_as read_bytes
skip_as-Ends skip bound (fixed width) t counts ends input short =
    >>=-ne-err (read_full width input) _ out_of_fuel (read_full-ends width input) (λ a read e. cc)
skip_as-Ends skip bound text t counts ends input short =
    >>=-ne-err (read_gguf_string input) _ out_of_fuel (read_gguf_string-ends input) (λ a read e. cc)
skip_as-Ends skip bound unknown t counts ends input short = λ e. cc
skip_as-Ends skip bound array t counts ends input short =
    >>=-ne-err (read_uint 4 input) _ out_of_fuel (read_uint-ends 4 input)
      (λ (a : ℕ × Bytes) (read : read_uint 4 input ≡ ok a).
        >>=-ne-err (read_uint 8 a.1) _ out_of_fuel (read_uint-ends 8 a.1)
          (λ (b : ℕ × Bytes) (read' : read_uint 8 a.1 ≡ ok b).
            skip_array-Ends skip bound a.0 b.0 (counts a.0) (ends a.0) b.1 (
              omega (
                arith,
                length-Took (read_uint-Took 4 input read),
                length-Took (read_uint-Took 8 a.1 read'),
              ))))

skip_within-Ends : (depth t : ℕ) → Ends depth (skip_within depth t)
unfolding skip_within
skip_within-Ends zero t input short = absurd (omega arith)
skip_within-Ends (suc depth) t input short =
    skip_as-Ends (skip_within depth) depth (value_kind t) t (skip_within-Took depth)
      (skip_within-Ends depth) input (omega arith)

pub skip_metadata_value-ends :
    (t : ℕ) (input : Bytes) → skip_metadata_value t input ≢ err out_of_fuel
unfolding skip_metadata_value
skip_metadata_value-ends t input = skip_within-Ends (suc (length input)) t input (omega arith)

-- On every input skipGGUFMetadataValue ends: the fuel of the model never runs out, and with it the
-- model satisfies the recursion of the code.
pub skip_metadata_value_lem :
    (t : ℕ) (input : Bytes)
    → (skip_metadata_value t input ≢ err out_of_fuel)
      × (skip_metadata_value t input ≡ skip_as skip_metadata_value (value_kind t) t input)
skip_metadata_value_lem t input =
    (skip_metadata_value-ends t input, skip_metadata_value-unrolled t input)
