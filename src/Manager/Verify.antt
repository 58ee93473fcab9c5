-- ===== src/Manager/Verify.antt =====
-- internal/download/file_ops.go: the ready marker, the manifest, `VerifyFiles`, `VerifyFilesDeep` and
-- `CheckAndVerifyReadyMarkerDetailed`. JSON, SHA256 and filepath.Ext are parameters. A file that is
-- there can be read.
use inference_budget_control.Prelude.{
  ℕ, List, [], ◌∷◌, ◌++◌, String, str_eq, ◌==◌, Bool, true, false, Option, none, some, length,
  if◌then◌else◌,
}
use inference_budget_control.Prelude.Int.{pos}
use inference_budget_control.Prelude.Dict.{Dict, lookup, insert, delete}
use inference_budget_control.Prelude.Results.{Result, ok, err, ◌>>=◌}
use inference_budget_control.Gguf.{GgufError}
use inference_budget_control.Gguf.Header.{validate_gguf_header}
use inference_budget_control.Manager.{Bytes, Store, FileManifest, manifest_file, ready_marker_file}

pub data Issue : Type 0 where
  missing : String → Issue
  size_mismatch : String → ℕ → ℕ → Issue
  bad_gguf : String → GgufError → Issue
  bad_checksum : String → Issue

pub data VerifyError : Type 0 where
  no_manifest : VerifyError
  malformed_manifest : VerifyError
  verification_failed : List Issue → VerifyError

unfoldable pub write_ready_marker : Store → Store
write_ready_marker store = insert ready_marker_file [] store

abbrev pub is_there : {V : Type 0} → Option V → Bool
is_there none = false
is_there (some v) = true

unfoldable pub check_ready_marker : Store → Bool
check_ready_marker store = is_there (lookup ready_marker_file store)

unfoldable pub remove_ready_marker : Store → Store
remove_ready_marker store = delete ready_marker_file store

-- if len(issues) > 0
abbrev pub report : List Issue → Result VerifyError (Unit {0})
report [] = ok tt
report (i ∷ is) = err (verification_failed (i ∷ is))

module _ (encode : FileManifest → Bytes) where
  unfoldable pub write_manifest : FileManifest → Store → Store
  write_manifest manifest store = insert manifest_file (encode manifest) store

module _ (decode : Bytes → Option FileManifest) where
  abbrev pub or_malformed : Option FileManifest → Result VerifyError FileManifest
  or_malformed none = err malformed_manifest
  or_malformed (some manifest) = ok manifest

  abbrev pub read_content : Option Bytes → Result VerifyError FileManifest
  read_content none = err no_manifest
  read_content (some bytes) = or_malformed (decode bytes)

  unfoldable pub read_manifest : Store → Result VerifyError FileManifest
  read_manifest store = read_content (lookup manifest_file store)

  module _ (is_gguf : String → Bool) where
    abbrev pub gguf_issues : String → Result GgufError (Unit {0}) → List Issue
    gguf_issues path (err why) = bad_gguf path why ∷ []
    gguf_issues path (ok done) = []

    -- One turn of the loop over the manifest's files.
    unfoldable pub verify_file : String → ℕ → Option Bytes → List Issue
    verify_file path expected_size none = missing path ∷ []
    verify_file path expected_size (some bytes) =
        if length bytes == expected_size
        then (if is_gguf path
            then gguf_issues path (validate_gguf_header bytes (pos expected_size))
            else [])
        else size_mismatch path expected_size (length bytes) ∷ []

    unfoldable pub find_issues : Store → Dict ℕ → List Issue
    unfolding verify_file
    find_issues store [] = []
    find_issues store ((path, expected_size) ∷ files) =
        verify_file path expected_size (lookup path store) ++ find_issues store files

    unfoldable pub verify_files : Store → Result VerifyError (Unit {0})
    unfolding read_manifest find_issues
    verify_files store = do
      manifest ← read_manifest store
      report (find_issues store manifest.files)

    -- What the check answers: MarkerExists, Verified and Error.
    pub record VerificationResult : Type 0 where
      pub marker_exists : Bool
      pub verified : Bool
      pub failure : Option VerifyError

    module _ (remove_all : Store → Store) where
      abbrev pub after_verify : Store → Result VerifyError (Unit {0}) → Store × VerificationResult
      after_verify store (ok done) =
          (store, record { marker_exists = true; verified = true; failure = none })
      after_verify store (err why) = (
        remove_all (remove_ready_marker store),
        record { marker_exists = true; verified = false; failure = some why },
      )

      unfoldable pub check_and_verify_ready_marker_detailed : Store → Store × VerificationResult
      unfolding verify_files check_ready_marker remove_ready_marker
      check_and_verify_ready_marker_detailed store =
          if check_ready_marker store
          then after_verify store (verify_files store)
          else (store, record { marker_exists = false; verified = false; failure = none })

  module _ (sha256 : Bytes → String) where
    abbrev pub same_hash : String → Option Bytes → Bool
    same_hash expected none = false
    same_hash expected (some bytes) = str_eq (sha256 bytes) expected

    -- Whether VerifyChecksum returns nil.
    unfoldable pub verify_checksum : Store → String → String → Bool
    verify_checksum store path expected = same_hash expected (lookup path store)

    unfoldable pub checksum_issues : Store → Dict String → List Issue
    unfolding verify_checksum
    checksum_issues store [] = []
    checksum_issues store ((path, expected) ∷ checksums) =
        let rest = checksum_issues store checksums in
        if verify_checksum store path expected then rest else bad_checksum path ∷ rest

    -- Without checksums there are no issues.
    unfoldable pub verify_files_deep : Store → Result VerifyError (Unit {0})
    unfolding read_manifest checksum_issues
    verify_files_deep store = do
      manifest ← read_manifest store
      report (checksum_issues store manifest.checksums)
