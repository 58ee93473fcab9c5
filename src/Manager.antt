-- ===== src/Manager.antt =====
-- internal/download: the manager of downloads, in manager.go, status.go and spec.go, and the check of
-- what it left, in file_ops.go. The files of one model's directory are a map from paths to contents;
-- paths are taken as clean, so that two of them name one file only if they are equal.
pub mod Status
pub mod Resolve
pub mod Fetch
pub mod Verify
pub mod Perform
pub mod Sized
pub mod Sizes
pub mod Accepted
pub mod Chosen
pub mod Kept
pub mod Completed
pub mod Resumed
use inference_budget_control.Prelude.{ℕ, String, List}
use inference_budget_control.Prelude.Int.{ℤ}
use inference_budget_control.Prelude.Dict.{Dict}

abbrev pub Bytes : Type 0
Bytes = List ℕ

abbrev pub Store : Type 0
Store = Dict Bytes

pub data DownloadPhase : Type 0 where
  pending : DownloadPhase
  downloading : DownloadPhase
  complete : DownloadPhase
  failed : DownloadPhase

-- FileStatus
pub record FileStatus : Type 0 where
  pub path : String
  pub phase : DownloadPhase
  pub bytes_done : ℤ
  pub bytes_total : ℤ

-- A file's size and its SHA256.
pub record FileManifest : Type 0 where
  pub files : Dict ℕ
  pub checksums : Dict String

-- The fields of DownloadSpec that the choice of the files depends on.
pub record DownloadSpec : Type 0 where
  pub files : List String
  pub patterns : List String
  pub exclude : List String

abbrev pub manifest_file : String
manifest_file = ".manifest"

abbrev pub ready_marker_file : String
ready_marker_file = ".ready"
