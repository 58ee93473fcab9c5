-- ===== src/Download.antt =====
-- internal/download/chunked.go: the parts of a chunked download; and the progress of progress.go. Bytes are a parameter; a file is the
-- list of its bytes, and the file system maps a path to a file.
pub mod Chunks
pub mod Tiling
pub mod Assembly
pub mod Assembled
pub mod Publishing
pub mod Retry
pub mod Retried
pub mod Progress
pub mod Counted
use inference_budget_control.Prelude.{ℕ}
use inference_budget_control.Prelude.Int.{ℤ}

-- `stop` is the field End, inclusive.
pub record ChunkRange : Type 0 where
  pub index : ℕ
  pub start : ℤ
  pub stop : ℤ

abbrev pub default_chunk_size : ℕ
default_chunk_size = 1073741824
