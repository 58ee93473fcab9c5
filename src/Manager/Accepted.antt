-- ===== src/Manager/Accepted.antt =====
-- What `performDownload` leaves when it ends, and that the check of internal/download/file_ops.go
-- accepts it.
use inference_budget_control.Prelude.{
  ℕ, List, [], ◌∷◌, ◌++◌, String, ◌==◌, ◌≡◌, refl, arith, Bool, true, Option, some, length, All,
  Bool-cases, ◌⊎◌, inl, inr,
}
use inference_budget_control.Prelude.Int.{pos}
use inference_budget_control.Prelude.Dict.{Dict, lookup}
use inference_budget_control.Prelude.Results.{Result, ok, err}
use inference_budget_control.Gguf.{GgufError}
use inference_budget_control.Gguf.Header.{validate_gguf_header}
use inference_budget_control.Manager.{Bytes, Store, FileManifest}
use inference_budget_control.Manager.Verify.{
  Issue, bad_gguf, VerifyError, verification_failed, report, read_manifest, verify_file,
  find_issues, verify_files, verify_checksum, checksum_issues, verify_files_deep, gguf_issues,
}

-- An issue that only the content of a GGUF file can give.
abbrev pub IsGgufIssue : Issue → Type 0
IsGgufIssue issue = (path : String) × (why : GgufError) × (issue ≡ bad_gguf path why)

-- VerifyFiles finds at most such issues.
abbrev pub OnlyGguf : Result VerifyError (Unit {0}) → Type 0
OnlyGguf r =
    (r ≡ ok tt)
    ⊎ ((issues : List Issue) × (r ≡ err (verification_failed issues)) × All IsGgufIssue issues)

All-append : (P : Issue → Type 0) (xs ys : List Issue) → All P xs → All P ys → All P (xs ++ ys)
All-append P [] ys h k = k
All-append P (x ∷ xs) ys h k = (h.0, All-append P xs ys h.1 k)

report-OnlyGguf : (issues : List Issue) → All IsGgufIssue issues → OnlyGguf (report issues)
report-OnlyGguf [] h = inl refl
report-OnlyGguf (i ∷ is) h = inr (i ∷ is, refl, h)

equal_numbers : (a b : ℕ) → a ≡ b → b == a ≡ true
equal_numbers a b h = ground arith

-- Every entry has a file of its size.
abbrev pub Stored : Store → Dict ℕ → Type 0
Stored store sizes =
    All
      (λ (e : String × ℕ). (bytes : Bytes) × (lookup e.0 store ≡ some bytes) × (e.1 ≡ length bytes))
      sizes

-- Every entry has a file of its checksum.
abbrev pub Checked : (Bytes → Option FileManifest) → (Bytes → String) → Store → Dict String → Type 0
Checked decode sha256 store checksums =
    All (λ (e : String × String). verify_checksum decode sha256 store e.0 e.1 ≡ true) checksums

module _ (is_gguf : String → Bool) (decode : Bytes → Option FileManifest) where
  gguf_issues-All :
      (path : String) (r : Result GgufError (Unit {0}))
      → All IsGgufIssue (gguf_issues decode is_gguf path r)
  gguf_issues-All path (err why) = ((path, why, refl), tt)
  gguf_issues-All path (ok done) = tt

  verify_file-All :
      (path : String) (size : ℕ) (bytes : Bytes)
      → size ≡ length bytes
      → All IsGgufIssue (verify_file decode is_gguf path size (some bytes))
  unfolding verify_file
  verify_file-All path size bytes same =
      rw (equal_numbers size (length bytes) same) (elim (Bool-cases (is_gguf path)) [
        | inl e ↦ rw e (gguf_issues-All path (validate_gguf_header bytes (pos size)))
        | inr e ↦ rw e tt
      ])

  find_issues-All :
      (store : Store) (sizes : Dict ℕ)
      → Stored store sizes
      → All IsGgufIssue (find_issues decode is_gguf store sizes)
  unfolding find_issues
  find_issues-All store [] h = tt
  find_issues-All store ((path, size) ∷ sizes) ((bytes, at, same), h) =
      All-append IsGgufIssue (verify_file decode is_gguf path size (lookup path store))
        (find_issues decode is_gguf store sizes) (rw at (verify_file-All path size bytes same))
        (find_issues-All store sizes h)

  module _ (sha256 : Bytes → String) where
    checksum_issues-none :
        (store : Store) (checksums : Dict String)
        → Checked decode sha256 store checksums
        → checksum_issues decode sha256 store checksums ≡ []
    unfolding checksum_issues
    checksum_issues-none store [] h = refl
    checksum_issues-none store ((path, expected) ∷ checksums) h =
        rw (h.0) (checksum_issues-none store checksums h.1)

    -- R
    pub verify-accepts :
        (store : Store) (manifest : FileManifest)
        → read_manifest decode store ≡ ok manifest
        → Stored store manifest.files
        → Checked decode sha256 store manifest.checksums
        → OnlyGguf (verify_files decode is_gguf store)
          × (verify_files_deep decode sha256 store ≡ ok tt)
    unfolding verify_files verify_files_deep
    verify-accepts store manifest reads stored checked = (
      rw reads (
          report-OnlyGguf (find_issues decode is_gguf store manifest.files)
            (find_issues-All store manifest.files stored)),
      rw (reads, checksum_issues-none store manifest.checksums checked) refl,
    )
