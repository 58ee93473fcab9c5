-- ===== src/Xet.antt =====
-- internal/xet: the chunks of a xorb, and the files that are put together from them. A byte is a number
-- below 256.
pub mod Headers
pub mod Decompress
pub mod Extract
pub mod Urls
pub mod RoundTrip
pub mod Grouping
pub mod Remainder
pub mod Reconstruct
pub mod Writer
pub mod UrlRoundTrip
use inference_budget_control.Prelude.{ℕ, String, List}
use inference_budget_control.Prelude.Int.{ℤ}

abbrev pub Bytes : Type 0
Bytes = List ℕ

pub record ChunkHeader : Type 0 where
  pub version : ℕ
  pub compressed_size : ℕ
  pub compression_type : ℕ
  pub uncompressed_size : ℕ

-- `panicked` is a slice or a capacity out of range.
pub data XetError : Type 0 where
  short_header : ℕ → XetError
  beyond_xorb : ℕ → XetError
  unsupported_compression : ℕ → XetError
  lz4_failed : XetError
  no_fetch_info : String → XetError
  fetch_failed : String → XetError
  write_failed : XetError
  panicked : XetError

pub record ByteRange : Type 0 where
  pub start : ℤ
  pub stop : ℤ

pub record FetchInfo : Type 0 where
  pub url : String
  pub url_range : ByteRange
  pub range : ByteRange

-- ReconstructionTerm
pub record Term : Type 0 where
  pub hash : String
  pub unpacked_length : ℤ
  pub range : ByteRange
