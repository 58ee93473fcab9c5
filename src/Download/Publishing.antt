-- ===== src/Download/Publishing.antt =====
-- What `assembleChunks` of internal/download/chunked.go leaves when the system refuses a step.
use inference_budget_control.Prelude.{
  ℕ, List, [], ◌∷◌, ◌++◌, Bool, true, false, Option, some, none, ◌≡◌, refl, sym, ◌∙◌, ap, ◌⊎◌, inl,
  inr, Bool-cases, ◌≢◌, All,
}
use inference_budget_control.Download.{ChunkRange}
use inference_budget_control.Download.Assembly.{
  Refusals, AssemblyError, Files, copy_bytes, open_and_copy, stop_at_error, copy_parts, publish,
  after_copy, assemble_chunks,
}
use inference_budget_control.Prelude.Bytes.{append_assoc, append_nil}

-- The contents of the parts, one after another.
abbrev pub bytes_of : {B : Type 0} → Option (List B) → List B
bytes_of none = []
bytes_of (some bytes) = bytes

abbrev pub joined : {B : Type 0} → (ℕ → Option (List B)) → List ChunkRange → List B
joined parts [] = []
joined parts (c ∷ cs) = bytes_of (parts c.index) ++ joined parts cs

-- The file was replaced by the parts' contents, every part being there, or it was left and there is an
-- error.
abbrev pub IsAllOrNothing :
    {B : Type 0} → Files B → List ChunkRange → Files B × Option AssemblyError → Type 0
IsAllOrNothing files chunks result =
    (All (λ c. files.parts c.index ≢ none) chunks
      × (result ≡ (
        record { whole = some (joined files.parts chunks); temp = none; parts = files.parts },
        none,
      )))
    ⊎ ((result.0.whole ≡ files.whole) × (result.0.parts ≡ files.parts) × (result.1 ≢ none))

module _ {B : Type 0} where
  stop_at_error-none :
      (one rest : List B × Option AssemblyError)
      → (stop_at_error one rest).1 ≡ none
      → (one.1 ≡ none) × (stop_at_error one rest ≡ rest)
  stop_at_error-none (out, none) rest e = (refl, refl)
  stop_at_error-none (out, some x) rest e = absurd (cc)

  open_and_copy-none :
      (i : ℕ) (refused : Bool) (part : Option (List B)) (failure : Option ℕ) (out : List B)
      → (open_and_copy i refused part failure out).1 ≡ none
      → (part ≢ none) × (open_and_copy i refused part failure out ≡ (out ++ bytes_of part, none))
  unfolding open_and_copy copy_bytes
  open_and_copy-none i true part failure out e = absurd (cc)
  open_and_copy-none i false none failure out e = absurd (cc)
  open_and_copy-none i false (some bytes) none out e = ((λ n. cc), refl)
  open_and_copy-none i false (some bytes) (some n) out e = absurd (cc)

  copy_parts-joined :
      (r : Refusals) (parts : ℕ → Option (List B)) (out : List B) (cs : List ChunkRange)
      → (copy_parts r parts out cs).1 ≡ none
      → All (λ c. parts c.index ≢ none) cs
        × (copy_parts r parts out cs ≡ (out ++ joined parts cs, none))
  unfolding copy_parts
  copy_parts-joined r parts out [] e = (tt, ap (λ t. (t, none)) (sym (append_nil out)))
  copy_parts-joined r parts out (c ∷ cs) e =
      let one =
        open_and_copy c.index (r.refused_open c.index) (parts c.index) (r.refused_copy c.index)
          out in
      let (no_error, goes_on) = stop_at_error-none one (copy_parts r parts one.0 cs) e in
      let (present, copied) =
        open_and_copy-none c.index (r.refused_open c.index) (parts c.index) (r.refused_copy c.index)
          out no_error in
      let (presents, rest) = copy_parts-joined r parts one.0 cs (sym (ap (λ t. t.1) goes_on) ∙ e) in
      (
        (present, presents),
        goes_on
            ∙ rest
            ∙ ap (λ t. (t.0 ++ joined parts cs, none)) copied
            ∙ ap (λ t. (t, none)) (append_assoc out (bytes_of (parts c.index)) (joined parts cs)),
      )

  publish-IsAllOrNothing :
      (r : Refusals) (files : Files B) (chunks : List ChunkRange) (out : List B)
      → All (λ c. files.parts c.index ≢ none) chunks
      → out ≡ joined files.parts chunks
      → IsAllOrNothing files chunks (publish r files out)
  unfolding publish
  publish-IsAllOrNothing r files chunks out presents e = elim (Bool-cases r.refused_sync) [
    | inl s ↦ rw s (inr (refl, refl, λ n. cc))
    | inr s ↦ elim (Bool-cases r.refused_close) [
      | inl c ↦ rw (s, c) (inr (refl, refl, λ n. cc))
      | inr c ↦ elim (Bool-cases r.refused_rename) [
        | inl m ↦ rw (s, c, m) (inr (refl, refl, λ n. cc))
        | inr m ↦
            rw (s, c, m)
              (inl (
                presents,
                ap (λ t. (record { whole = some t; temp = none; parts = files.parts }, none)) e,
              ))
      ]
    ]
  ]

  after_copy-IsAllOrNothing :
      (r : Refusals) (files : Files B) (chunks : List ChunkRange)
      (copied : List B × Option AssemblyError)
      → (copied.1 ≡ none
          → All (λ c. files.parts c.index ≢ none) chunks
            × (copied ≡ (joined files.parts chunks, none)))
      → IsAllOrNothing files chunks (after_copy r files copied)
  unfolding after_copy publish
  after_copy-IsAllOrNothing r files chunks (out, some e) h = inr (refl, refl, λ n. cc)
  after_copy-IsAllOrNothing r files chunks (out, none) h =
      let (presents, e) = h refl in
      publish-IsAllOrNothing r files chunks out presents (ap (λ t. t.0) e)

  -- Whatever system calls fail, assembleChunks either reports no error, every part was there, and
  -- the local path holds the parts' contents in order and the temporary file is gone; or it
  -- reports an error and the local path and the parts are as they were.
  pub assemble_chunks-IsAllOrNothing :
      (r : Refusals) (files : Files B) (chunks : List ChunkRange)
      → IsAllOrNothing files chunks (assemble_chunks r files chunks)
  unfolding assemble_chunks
  assemble_chunks-IsAllOrNothing r files chunks = elim (Bool-cases r.refused_create) [
    | inl c ↦ rw c (inr (refl, refl, λ n. cc))
    | inr c ↦ rw c (
        after_copy-IsAllOrNothing r files chunks (copy_parts r files.parts [] chunks)
          (copy_parts-joined r files.parts [] chunks))
  ]
