-- ===== src/Manager/Completed.antt =====
-- How `performDownload` of internal/download/manager.go ends.
use inference_budget_control.Prelude.{
  ℕ, List, [], ◌∷◌, String, ◌≡◌, refl, Bool, false, Option, none, some, if◌then◌else◌, All,
  All-mono, Bool-cases, ◌⊎◌, inl, inr,
}
use inference_budget_control.Prelude.Dict.{lookup, lookup-insert}
use inference_budget_control.Prelude.Results.{Result, ok, err, ◌>>=◌}
use inference_budget_control.Manager.{
  Bytes, Store, DownloadSpec, FileManifest, downloading, complete, failed, manifest_file,
}
use inference_budget_control.Manager.Status.{
  DownloadError, Status, write_manifest_failed, make_directory, no_repository, list_files, no_files,
  cancelled, set_phase, set_progress, set_complete,
}
use inference_budget_control.Manager.Resolve.{should_exclude, resolve_files}
use inference_budget_control.Manager.Verify.{
  read_manifest, write_manifest, verify_files, verify_files_deep,
}
use inference_budget_control.Manager.Perform.{
  Surroundings, Progress, PerformStep, give_up, perform_files, known_checksums, verify_checksums,
  finish, some_files, resolved, start_files, run_download, ended, perform_download,
}
use inference_budget_control.Manager.Chosen.{Fine, resolve_files-All}
use inference_budget_control.Manager.Sized.{IsHonest}
use inference_budget_control.Manager.Sizes.{
  Ends, if-Ends, >>=-Ends, set_error_fails, Inv, init_files-Inv, perform_files-Inv,
}
use inference_budget_control.Manager.Accepted.{Checked, OnlyGguf, verify-accepts}
use inference_budget_control.Manager.Kept.{
  Free, known_checksums-AllKeys, none_ne_some, entries_of-Known, keeps_files, keeps_checksums,
  verify_checksums-Checked,
}

module _ (encode : FileManifest → Bytes) (decode : Bytes → Option FileManifest)
    (sha256 : Bytes → String) (is_gguf : String → Bool) where
  -- The status is complete, and the files are as the manifest says.
  abbrev pub IsVerified : Store × Status → Type 0
  IsVerified (store, status) =
      (status.phase ≡ complete)
      × OnlyGguf (verify_files decode is_gguf store)
      × (verify_files_deep decode sha256 store ≡ ok tt)

  reads_back :
      (manifest : FileManifest) (store : Store)
      → decode (encode manifest) ≡ some manifest
      → read_manifest decode (write_manifest encode manifest store) ≡ ok manifest
  unfolding read_manifest write_manifest
  reads_back manifest store codec =
      rw (lookup-insert manifest_file manifest_file (encode manifest) store, codec) refl

  set_complete_lem : (status : Status) → (set_complete status).phase ≡ complete
  unfolding set_complete set_phase
  set_complete_lem status = refl

  module _ (codec : (manifest : FileManifest) → decode (encode manifest) ≡ some manifest) where
    finish-IsVerified :
        (env : Surroundings) (paths : List String) (p : Progress)
        → All Free paths
        → Inv Free [] p
        → Ends IsVerified (finish encode decode sha256 env paths p)
    unfolding finish write_manifest
    finish-IsVerified env paths p free (distinct, keys, known) =
        let checksums = known_checksums env.metadata paths in
        let manifest : FileManifest = record { files = p.file_sizes; checksums = checksums } in
        let written : PerformStep (Store × Status) =
          if env.writes_manifest
          then ok (
            write_manifest encode manifest p.store,
            set_complete (set_progress p.downloaded_bytes p.downloaded_bytes p.status),
          )
          else give_up write_manifest_failed p.store p.status in
        >>=-Ends {V = Unit {0}} (λ done. Checked decode sha256 p.store checksums) IsVerified
          (verify_checksums encode decode sha256 checksums p.store p.status) (λ done. written)
          (verify_checksums-Checked encode decode sha256 is_gguf checksums p.store p.status)
          (λ done checked. elim (Bool-cases env.writes_manifest) [
            | inr e ↦ rw e (set_error_fails write_manifest_failed p.status)
            | inl e ↦ rw e (
                let (files, deep) =
                  verify-accepts is_gguf decode sha256 (write_manifest encode manifest p.store)
                    manifest (reads_back manifest p.store (codec manifest))
                    (keeps_files (encode manifest) p.store p.file_sizes keys
                      (entries_of-Known p.file_sizes p.store distinct known))
                    (keeps_checksums encode decode sha256 is_gguf (encode manifest) p.store
                      checksums (known_checksums-AllKeys env.metadata paths free) checked) in
                (set_complete_lem _, files, deep))
          ])

    module _ (matches : String → String → Option Bool) (parts : String → List String)
        (spec : DownloadSpec) where
      some_files-Free :
          (store : Store) (status : Status) (r : Result DownloadError (List String))
          → Fine (All Free) r
          → Ends (All Free) (some_files encode decode sha256 matches parts spec store status r)
      some_files-Free store status (err why) h = set_error_fails why status
      some_files-Free store status (ok []) h = set_error_fails no_files status
      some_files-Free store status (ok (path ∷ paths)) h = h

      resolved-Free :
          (store : Store) (status : Status) (listing : Option (List String))
          → ((names : List String) → listing ≡ some names → All Free names)
          → Ends (All Free) (resolved encode decode sha256 matches parts spec store status listing)
      resolved-Free store status none free = set_error_fails list_files status
      resolved-Free store status (some names) free =
          let fine = resolve_files-All matches parts spec Free names (
            All-mono Free
              (λ name. should_exclude matches parts name spec.exclude ≡ false → Free name) names
              (λ name f e. f) (free names refl)) in
          some_files-Free store status (resolve_files matches parts spec names) fine

      start_files-Inv :
          (paths : List String) (store : Store) (status : Status)
          → All Free paths
          → Inv Free paths (start_files encode decode sha256 matches parts spec paths store status)
      unfolding lookup
      start_files-Inv paths store status free =
          init_files-Inv Free paths paths _ free (λ file h. h) tt tt
            (λ path size found. absurd (none_ne_some size found))

      run_files-IsVerified :
          (env : Surroundings) (store : Store) (started : Status)
          → ((i : ℕ) → IsHonest (env.attempts i))
          → ((names : List String) → env.listing ≡ some names → All Free names)
          → Ends IsVerified (
              resolved encode decode sha256 matches parts spec store started env.listing
              >>= λ paths.
                  perform_files env 0 paths
                    (start_files encode decode sha256 matches parts spec paths store started)
                  >>= λ p. finish encode decode sha256 env paths p)
      run_files-IsVerified env store started honest free =
          >>=-Ends (All Free) IsVerified
            (resolved encode decode sha256 matches parts spec store started env.listing) _
            (resolved-Free store started env.listing free)
            (λ paths all.
              >>=-Ends (Inv Free []) IsVerified _ _
                (perform_files-Inv Free env honest 0 paths _ all
                  (start_files-Inv paths store started all))
                (λ p inv. finish-IsVerified env paths p all inv))

      run_download-IsVerified :
          (env : Surroundings) (store : Store) (status : Status)
          → ((i : ℕ) → IsHonest (env.attempts i))
          → ((names : List String) → env.listing ≡ some names → All Free names)
          → Ends IsVerified (run_download encode decode sha256 matches parts spec env store status)
      unfolding run_download
      run_download-IsVerified env store status honest free =
          let started = set_phase downloading status in
          if-Ends IsVerified env.cancelled_waiting _ _ (set_error_fails cancelled status) (
            if-Ends IsVerified env.makes_directory _ _
              (if-Ends IsVerified env.opens_repository _ _
                (run_files-IsVerified env store started honest free)
                (set_error_fails no_repository started))
              (set_error_fails make_directory started))

      ended-IsVerified :
          (r : PerformStep (Store × Status))
          → Ends IsVerified r
          → ((ended encode decode sha256 matches parts spec r).1.phase ≡ failed)
            ⊎ IsVerified (ended encode decode sha256 matches parts spec r)
      ended-IsVerified (err (store, status)) h = inl h
      ended-IsVerified (ok (store, status)) h = inr h

      -- Where the manifest can be read back from what is written of it, the chunked downloader
      -- reports the length of what it leaves and the repository lists no file with the name of the
      -- manifest, performDownload ends as failed; or it ends as complete, VerifyFiles then finds
      -- at most damaged GGUF contents, and VerifyFilesDeep finds nothing.
      pub perform_download-IsVerified :
          (env : Surroundings) (store : Store) (status : Status)
          → ((i : ℕ) → IsHonest (env.attempts i))
          → ((names : List String) → env.listing ≡ some names → All Free names)
          → ((perform_download encode decode sha256 matches parts spec env store status).1.phase
              ≡ failed)
            ⊎ IsVerified (perform_download encode decode sha256 matches parts spec env store status)
      unfolding perform_download
      perform_download-IsVerified env store status honest free =
          ended-IsVerified (run_download encode decode sha256 matches parts spec env store status)
            (run_download-IsVerified env store status honest free)
