-- ===== src/Manager/Status.antt =====
-- internal/download/status.go: the status of one download. Its times, the percentage and the texts of
-- errors are left out.
use inference_budget_control.Prelude.{
  List, [], ◌∷◌, String, str_eq, Bool, true, false, Option, none, some, if◌then◌else◌,
}
use inference_budget_control.Prelude.Int.{ℤ, pos}
use inference_budget_control.Manager.{
  DownloadPhase, pending, downloading, complete, failed, FileStatus,
}

-- What ended a download: the error that SetError is given.
pub data DownloadError : Type 0 where
  cancelled : DownloadError
  make_directory : DownloadError
  no_repository : DownloadError
  list_files : DownloadError
  bad_pattern : String → DownloadError
  no_files : DownloadError
  download_failed : String → DownloadError
  checksum_failed : String → DownloadError
  write_manifest_failed : DownloadError

pub record Status : Type 0 where
  pub phase : DownloadPhase
  pub bytes_total : ℤ
  pub bytes_done : ℤ
  pub files : List FileStatus
  pub failure : Option DownloadError

-- The Status that Download stores.
abbrev pub new_status : Status
new_status = record {
  phase = pending;
  bytes_total = pos 0;
  bytes_done = pos 0;
  files = [];
  failure = none;
}

unfoldable pub set_progress : ℤ → ℤ → Status → Status
set_progress bytes_done bytes_total s = record {
  phase = s.phase;
  bytes_total = bytes_total;
  bytes_done = bytes_done;
  files = s.files;
  failure = s.failure;
}

unfoldable pub set_phase : DownloadPhase → Status → Status
set_phase phase s = record {
  phase = phase;
  bytes_total = s.bytes_total;
  bytes_done = s.bytes_done;
  files = s.files;
  failure = s.failure;
}

unfoldable pub set_error : DownloadError → Status → Status
set_error why s = record {
  phase = failed;
  bytes_total = s.bytes_total;
  bytes_done = s.bytes_done;
  files = s.files;
  failure = some why;
}

unfoldable pub set_complete : Status → Status
unfolding set_phase
set_complete s = set_phase complete s

-- The loop over the files of UpdateFileProgress.
unfoldable pub update_file : FileStatus → List FileStatus → List FileStatus
update_file new [] = new ∷ []
update_file new (f ∷ fs) =
    let rest = update_file new fs in if str_eq f.path new.path then new ∷ fs else f ∷ rest

unfoldable pub update_file_progress : String → ℤ → ℤ → DownloadPhase → Status → Status
unfolding update_file
update_file_progress path bytes_done bytes_total phase s =
    let new : FileStatus = record {
      path = path;
      phase = phase;
      bytes_done = bytes_done;
      bytes_total = bytes_total;
    } in
    record {
      phase = s.phase;
      bytes_total = s.bytes_total;
      bytes_done = s.bytes_done;
      files = update_file new s.files;
      failure = s.failure;
    }

abbrev pub ends : DownloadPhase → Bool
ends pending = false
ends downloading = false
ends complete = true
ends failed = true

-- IsComplete
unfoldable pub is_complete : Status → Bool
is_complete s = ends s.phase
