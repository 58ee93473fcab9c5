-- ===== src/Manager/Perform.antt =====
-- internal/download/manager.go: `performDownload`, from the moment at which it has its slot of the
-- semaphore. The progress that is shown while a file is downloaded is overwritten afterwards.
use inference_budget_control.Prelude.{
  ℕ, suc, ◌*◌, List, [], ◌∷◌, String, str_eq, Bool, Option, none, some, length, if◌then◌else◌,
}
use inference_budget_control.Prelude.Int.{ℤ, pos, ◌+ℤ◌, int64}
use inference_budget_control.Prelude.Dict.{Dict, lookup, insert}
use inference_budget_control.Prelude.Results.{Result, ok, err, ◌>>=◌}
use inference_budget_control.Manager.{
  Bytes, Store, DownloadSpec, FileManifest, pending, downloading, complete,
}
use inference_budget_control.Manager.Status.{
  DownloadError, cancelled, make_directory, no_repository, list_files, no_files, download_failed,
  checksum_failed, write_manifest_failed, Status, set_progress, set_phase, set_error, set_complete,
  update_file_progress,
}
use inference_budget_control.Manager.Resolve.{resolve_files}
use inference_budget_control.Manager.Fetch.{Attempt, Fetched, download_file}
use inference_budget_control.Manager.Verify.{verify_checksum, write_manifest}

-- What the outside answers during one download. `during i` and `attempts i` belong to the i-th file.
pub record Surroundings : Type 0 where
  pub cancelled_waiting : Bool
  pub makes_directory : Bool
  pub opens_repository : Bool
  pub listing : Option (List String)
  pub during : ℕ → Bool
  pub makes_file_directory : ℕ → Bool
  pub attempts : ℕ → Attempt
  pub metadata : Option (List (String × String))
  pub writes_manifest : Bool

-- The files of the directory, the status, and the variables of the loop.
pub record Progress : Type 0 where
  pub store : Store
  pub status : Status
  pub file_sizes : Dict ℕ
  pub downloaded_bytes : ℤ

-- A step that ends the download with an error leaves the files and the status.
abbrev pub PerformStep : Type 0 → Type 0
PerformStep V = Result (Store × Status) V

abbrev pub give_up : {V : Type 0} → DownloadError → Store → Status → PerformStep V
give_up why store status = err (store, set_error why status)

-- UpdateFileProgress(file, 0, 0, PhasePending) and fileSizes[file] = 0.
unfoldable pub init_files : List String → Progress → Progress
unfolding update_file_progress
init_files [] p = p
init_files (file ∷ files) p = init_files files (record {
  store = p.store;
  status = update_file_progress file (pos 0) (pos 0) pending p.status;
  file_sizes = insert file 0 p.file_sizes;
  downloaded_bytes = p.downloaded_bytes;
})

-- m.semaphore, ctx.Done() and the rest of the file's directory come before; here the file is there.
abbrev pub put_content : String → Option Bytes → Store → Store
put_content path none store = store
put_content path (some bytes) store = insert path bytes store

-- `remaining` is the number of files that are left.
abbrev pub after_file : String → ℕ → Progress → Fetched → PerformStep Progress
after_file path remaining p (content, err why) =
    give_up (download_failed path) (put_content path content p.store) p.status
after_file path remaining p (content, ok size) =
    let sum = int64 (p.downloaded_bytes +ℤ pos size) in
    let total = int64 (sum +ℤ pos (remaining * 1024 * 1024)) in
    ok (record {
      store = put_content path content p.store;
      status =
          set_progress sum total
            (update_file_progress path (pos size) (pos size) complete p.status);
      file_sizes = insert path size p.file_sizes;
      downloaded_bytes = sum;
    })

-- One turn of the loop over the files.
unfoldable pub perform_file : Surroundings → ℕ → ℕ → String → Progress → PerformStep Progress
unfolding download_file
perform_file env i remaining path p =
    let started = update_file_progress path (pos 0) (pos 0) downloading p.status in
    if env.during i
    then give_up cancelled p.store p.status
    else if env.makes_file_directory i
    then after_file path remaining
        (record {
          store = p.store;
          status = started;
          file_sizes = p.file_sizes;
          downloaded_bytes = p.downloaded_bytes;
        })
        (download_file (env.attempts i) (lookup path p.store))
    else give_up make_directory p.store started

unfoldable pub perform_files : Surroundings → ℕ → List String → Progress → PerformStep Progress
unfolding perform_file
perform_files env i [] p = ok p
perform_files env i (path ∷ paths) p = do
  p' ← perform_file env i (length paths) path p
  perform_files env (suc i) paths p'

-- The entries of the metadata with a SHA256, the last of each name.
unfoldable pub meta_by_name : List (String × String) → Dict String → Dict String
meta_by_name [] m = m
meta_by_name ((name, hash) ∷ rest) m =
    meta_by_name rest (if str_eq hash "" then m else insert name hash m)

abbrev pub add_checksum : String → Option String → Dict String → Dict String
add_checksum path none m = m
add_checksum path (some hash) m = insert path hash m

unfoldable pub checksums_of : Dict String → List String → Dict String → Dict String
checksums_of by_name [] m = m
checksums_of by_name (path ∷ paths) m =
    checksums_of by_name paths (add_checksum path (lookup path by_name) m)

-- Without metadata no checksum is known.
unfoldable pub known_checksums : Option (List (String × String)) → List String → Dict String
unfolding meta_by_name checksums_of
known_checksums none paths = []
known_checksums (some entries) paths = checksums_of (meta_by_name entries []) paths []

module _ (encode : FileManifest → Bytes) (decode : Bytes → Option FileManifest)
    (sha256 : Bytes → String) where
  -- The loop over the checksums, up to the first that differs.
  unfoldable pub verify_checksums : Dict String → Store → Status → PerformStep (Unit {0})
  verify_checksums [] store status = ok tt
  verify_checksums ((path, expected) ∷ rest) store status =
      let later = verify_checksums rest store status in
      if verify_checksum decode sha256 store path expected
      then later
      else give_up (checksum_failed path) store status

  -- From the metadata on.
  unfoldable pub finish : Surroundings → List String → Progress → PerformStep (Store × Status)
  unfolding verify_checksums known_checksums
  finish env paths p =
      let checksums = known_checksums env.metadata paths in
      let manifest : FileManifest = record { files = p.file_sizes; checksums = checksums } in
      let done = set_complete (set_progress p.downloaded_bytes p.downloaded_bytes p.status) in
      let written : PerformStep (Store × Status) =
        if env.writes_manifest
        then ok (write_manifest encode manifest p.store, done)
        else give_up write_manifest_failed p.store p.status in
      do checked ← verify_checksums checksums p.store p.status; written

  module _ (matches : String → String → Option Bool) (parts : String → List String)
      (spec : DownloadSpec) where
    -- The files that resolveFiles chooses from the repository's.
    abbrev pub some_files :
        Store → Status → Result DownloadError (List String) → PerformStep (List String)
    some_files store status (err why) = give_up why store status
    some_files store status (ok []) = give_up no_files store status
    some_files store status (ok (path ∷ paths)) = ok (path ∷ paths)

    abbrev pub resolved : Store → Status → Option (List String) → PerformStep (List String)
    resolved store status none = give_up list_files store status
    resolved store status (some all_files) =
        some_files store status (resolve_files matches parts spec all_files)

    abbrev pub start_files : List String → Store → Status → Progress
    start_files paths store status =
        let p =
          init_files paths (record {
            store = store;
            status = status;
            file_sizes = [];
            downloaded_bytes = pos 0;
          }) in
        record {
          store = p.store;
          status = set_progress (pos 0) (pos (length paths)) p.status;
          file_sizes = p.file_sizes;
          downloaded_bytes = p.downloaded_bytes;
        }

    unfoldable pub run_download : Surroundings → Store → Status → PerformStep (Store × Status)
    unfolding finish perform_files
    run_download env store status =
        let started = set_phase downloading status in
        let go = do
          paths ← resolved store started env.listing
          p ← perform_files env 0 paths (start_files paths store started)
          finish env paths p
        in if env.cancelled_waiting
          then give_up cancelled store status
          else if env.makes_directory
          then (if env.opens_repository then go else give_up no_repository store started)
          else give_up make_directory store started

    abbrev pub ended : PerformStep (Store × Status) → Store × Status
    ended (err left) = left
    ended (ok left) = left

    unfoldable pub perform_download : Surroundings → Store → Status → Store × Status
    unfolding run_download
    perform_download env store status = ended (run_download env store status)
