-- ===== src/Gguf.antt =====
-- The check of a GGUF file in internal/download/file_ops.go. A file is the list of its bytes, each a
-- number below 256, up to where its reading ends or fails; the text of a name is its bytes.
pub mod Reader
pub mod Values
pub mod Metadata
pub mod Tensors
pub mod Bounds
pub mod Header
pub mod Consumed
pub mod Nesting
pub mod Position
pub mod Format
pub mod RoundTrip
pub mod TensorRoundTrip
pub mod MetadataRoundTrip
pub mod FileRoundTrip
pub mod Within
pub mod Wrapped
use inference_budget_control.Prelude.{ℕ, List}

pub data GgufError : Type 0 where
  short_read : GgufError
  invalid_magic : GgufError
  unsupported_version : ℕ → GgufError
  implausible_tensors : ℕ → GgufError
  implausible_metadata : ℕ → GgufError
  long_string : ℕ → GgufError
  long_array : ℕ → GgufError
  unknown_type : ℕ → GgufError
  implausible_dimensions : ℕ → GgufError
  out_of_bounds : List ℕ → GgufError
  -- No error of the code: the recursion of the model ran out of fuel.
  out_of_fuel : GgufError

-- ggufTensorInfo; `kind` is the field typeID.
pub record TensorInfo : Type 0 where
  pub name : List ℕ
  pub n_dims : ℕ
  pub dimensions : List ℕ
  pub kind : ℕ
  pub offset : ℕ
