-- ===== src/Manager/Kept.antt =====
-- The manifest that `performDownload` of internal/download/manager.go writes behind the files.
use inference_budget_control.Prelude.{
  ℕ, List, [], ◌∷◌, String, str_eq, eq_iff, eq_refl, ◌≡◌, ◌≢◌, refl, sym, ◌∙◌, ap, Bool, true,
  false, Option, none, some, All, Bool-cases, inl, inr,
}
use inference_budget_control.Prelude.Dict.{Dict, lookup, insert, lookup-insert, Distinct}
use inference_budget_control.Manager.{Bytes, Store, FileManifest, manifest_file}
use inference_budget_control.Manager.Status.{Status}
use inference_budget_control.Manager.Verify.{same_hash, verify_checksum}
use inference_budget_control.Manager.Perform.{
  meta_by_name, add_checksum, checksums_of, known_checksums, verify_checksums,
}
use inference_budget_control.Manager.Sizes.{
  Ends, Ends-mono, set_error_fails, Known, AllKeys, insert-AllKeys,
}
use inference_budget_control.Manager.Accepted.{Stored, Checked}

-- A path that is not the manifest's.
abbrev pub Free : String → Type 0
Free path = path ≢ manifest_file

checksums_of-AllKeys :
    (by_name : Dict String) (paths : List String) (m : Dict String)
    → All Free paths
    → AllKeys Free m
    → AllKeys Free (checksums_of by_name paths m)
unfolding checksums_of
checksums_of-AllKeys by_name [] m free h = h
checksums_of-AllKeys by_name (path ∷ paths) m free h =
    checksums_of-AllKeys by_name paths (add_checksum path (lookup path by_name) m) free.1
      (added (lookup path by_name))
  where
    added : (o : Option String) → AllKeys Free (add_checksum path o m)
    added none = h
    added (some hash) = insert-AllKeys Free path hash m free.0 h

pub known_checksums-AllKeys :
    (metadata : Option (List (String × String))) (paths : List String)
    → All Free paths
    → AllKeys Free (known_checksums metadata paths)
unfolding known_checksums
known_checksums-AllKeys none paths free = tt
known_checksums-AllKeys (some entries) paths free =
    checksums_of-AllKeys (meta_by_name entries []) paths [] free tt

pub none_ne_some : (n : ℕ) → ◌≡◌ {A = Option ℕ} none (some n) → ⊥
none_ne_some n h = cc

-- What `lookup` tells of the entries of a map that holds each key once.
pub entries_of-Known :
    (sizes : Dict ℕ) (store : Store) → Distinct sizes → Known sizes store [] → Stored store sizes
unfolding lookup
entries_of-Known [] store d known = tt
entries_of-Known ((path, size) ∷ sizes) store (fresh, d) known = (
  elim (known path size (rw (eq_refl path) refl)) [ inl found ↦ found | inr later ↦ absurd later ],
  entries_of-Known sizes store d λ own n found. known own n (elim (Bool-cases (str_eq path own)) [
    | inr e ↦ rw e found
    | inl e ↦
        absurd
          (none_ne_some n (sym fresh ∙ ap (λ k. lookup k sizes) ((eq_iff path own).0 e) ∙ found))
  ]),
)

other_key : (path : String) → Free path → str_eq manifest_file path ≡ false
other_key path free = elim (Bool-cases (str_eq manifest_file path)) [
  | inl e ↦ absurd (free (sym ((eq_iff manifest_file path).0 e)))
  | inr e ↦ e
]

lookup-behind :
    (path : String) (encoded : Bytes) (store : Store)
    → Free path
    → lookup path (insert manifest_file encoded store) ≡ lookup path store
lookup-behind path encoded store free =
    rw (lookup-insert manifest_file path encoded store, other_key path free) refl

-- The manifest is written behind the files.
pub keeps_files :
    (encoded : Bytes) (store : Store) (sizes : Dict ℕ)
    → AllKeys Free sizes
    → Stored store sizes
    → Stored (insert manifest_file encoded store) sizes
keeps_files encoded store [] free h = tt
keeps_files encoded store ((path, size) ∷ sizes) free ((bytes, at, same), h) = (
  (bytes, lookup-behind path encoded store free.0 ∙ at, same),
  keeps_files encoded store sizes free.1 h,
)

module _ (encode : FileManifest → Bytes) (decode : Bytes → Option FileManifest)
    (sha256 : Bytes → String) (is_gguf : String → Bool) where
  pub keeps_checksums :
      (encoded : Bytes) (store : Store) (checksums : Dict String)
      → AllKeys Free checksums
      → Checked decode sha256 store checksums
      → Checked decode sha256 (insert manifest_file encoded store) checksums
  unfolding verify_checksum
  keeps_checksums encoded store [] free h = tt
  keeps_checksums encoded store ((path, expected) ∷ checksums) free h = (
    ap (λ o. same_hash decode sha256 expected o) (lookup-behind path encoded store free.0) ∙ h.0,
    keeps_checksums encoded store checksums free.1 h.1,
  )

  pub verify_checksums-Checked :
      (checksums : Dict String) (store : Store) (status : Status)
      → Ends
          (λ done. Checked decode sha256 store checksums)
          (verify_checksums encode decode sha256 checksums store status)
  unfolding verify_checksums
  verify_checksums-Checked [] store status = tt
  verify_checksums-Checked ((path, expected) ∷ rest) store status =
      elim (Bool-cases (verify_checksum decode sha256 store path expected)) [
        | inr e ↦ rw e (set_error_fails _ status)
        | inl e ↦ rw e (
            Ends-mono {V = Unit {0}} (λ done. Checked decode sha256 store rest)
              (λ done. (true ≡ true) × Checked decode sha256 store rest)
              (verify_checksums encode decode sha256 rest store status) (λ done c. (refl, c))
              (verify_checksums-Checked rest store status))
      ]
