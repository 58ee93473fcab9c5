-- ===== src/Download/Progress.antt =====
-- internal/download/progress.go: the counters, the files and the window of speeds of ProgressTracker.
-- The times and the speed of a file are left out, and so are the snapshot and the estimates, which are
-- numbers of type float64. `speed_of` is the speed of some bytes in some nanoseconds, as an int64.
use inference_budget_control.Prelude.{
  ℕ, ◌-◌, String, List, [], ◌∷◌, ◌++◌, Option, none, some, length, if◌then◌else◌, ltb, leb,
}
use inference_budget_control.Prelude.Int.{ℤ, pos, ◌+ℤ◌, ◌-ℤ◌, ltb_ℤ, int64}
use inference_budget_control.Prelude.Dict.{Dict, lookup, insert}
use inference_budget_control.Prelude.Bytes.{drop}
use inference_budget_control.Manager.{DownloadPhase, pending, downloading, complete, failed}

pub record FileProgress : Type 0 where
  pub total : ℤ
  pub completed : ℤ
  pub phase : DownloadPhase

pub record ProgressTracker : Type 0 where
  pub total_bytes : ℤ
  pub completed_bytes : ℤ
  pub files : Dict FileProgress
  pub start_time : ℕ
  pub last_update : ℕ
  pub speeds : List ℤ

abbrev pub speed_window_size : ℕ
speed_window_size = 10

-- 500 ms
abbrev pub speed_sample_interval : ℕ
speed_sample_interval = 500000000

abbrev pub new_progress_tracker : ProgressTracker
new_progress_tracker = record {
  total_bytes = pos 0;
  completed_bytes = pos 0;
  files = [];
  start_time = 0;
  last_update = 0;
  speeds = [];
}

-- p.files[path], or a file that is new.
abbrev pub file_or_new : Option FileProgress → FileProgress
file_or_new none = record { total = pos 0; completed = pos 0; phase = pending }
file_or_new (some f) = f

unfoldable pub set_file_total : String → ℤ → ProgressTracker → ProgressTracker
set_file_total path total p =
    let f = file_or_new (lookup path p.files) in
    record p {
      total_bytes = int64 (p.total_bytes +ℤ total);
      files =
          insert path (record { total = total; completed = f.completed; phase = pending }) p.files;
    }

-- The window keeps its last speeds.
abbrev pub slide : List ℤ → List ℤ
slide speeds = if ltb speed_window_size (length speeds) then drop 1 speeds else speeds

module _ (speed_of : ℤ → ℕ → ℤ) where
  unfoldable pub record_speed_sample : ℕ → ProgressTracker → ProgressTracker
  record_speed_sample now p =
      let speed = speed_of p.completed_bytes (now - p.start_time) in
      if ltb (now - p.last_update) speed_sample_interval
      then p
      else if leb now p.start_time
      then record p { last_update = now }
      else record p { last_update = now; speeds = slide (p.speeds ++ speed ∷ []) }

  unfoldable pub update_file_progress : ℕ → String → ℤ → ProgressTracker → ProgressTracker
  unfolding record_speed_sample
  update_file_progress now path completed p =
      let f = file_or_new (lookup path p.files) in
      let delta = int64 (completed -ℤ f.completed) in
      record_speed_sample now (record p {
        completed_bytes = int64 (p.completed_bytes +ℤ delta);
        files =
            insert path (record { total = f.total; completed = completed; phase = downloading })
              p.files;
      })

-- A file whose bytes are fewer than its total is counted as whole.
abbrev pub complete_found : String → Option FileProgress → ProgressTracker → ProgressTracker
complete_found path none p = p
complete_found path (some f) p =
    let whole : ProgressTracker = record p {
      completed_bytes = int64 (p.completed_bytes +ℤ int64 (f.total -ℤ f.completed));
      files =
          insert path (record { total = f.total; completed = f.total; phase = complete }) p.files;
    } in
    let kept : ProgressTracker = record p {
      files =
          insert path (record { total = f.total; completed = f.completed; phase = complete })
            p.files;
    } in
    if ltb_ℤ f.completed f.total then whole else kept

unfoldable pub complete_file : String → ProgressTracker → ProgressTracker
complete_file path p = complete_found path (lookup path p.files) p

abbrev pub fail_found : String → Option FileProgress → ProgressTracker → ProgressTracker
fail_found path none p = p
fail_found path (some f) p = record p {
  files = insert path (record { total = f.total; completed = f.completed; phase = failed }) p.files;
}

unfoldable pub fail_file : String → ProgressTracker → ProgressTracker
fail_file path p = fail_found path (lookup path p.files) p

unfoldable pub start : ℕ → ProgressTracker → ProgressTracker
start now p = record p { start_time = now; last_update = now }

unfoldable pub reset : ProgressTracker → ProgressTracker
reset p = new_progress_tracker
