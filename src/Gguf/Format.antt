-- ===== src/Gguf/Format.antt =====
-- The GGUF format, as internal/download/file_ops.go reads it: values, pairs, tensors and headers, and
-- their bytes.
use inference_budget_control.Prelude.{
  ℕ, zero, suc, ◌/◌, ◌%◌, ◌^◌, ◌≤◌, ◌<◌, List, [], ◌∷◌, ◌++◌, ◌≡◌, length, ◌==◌, ◌||◌,
  if◌then◌else◌, All,
}
use inference_budget_control.Prelude.Bytes.{same_bytes}
use inference_budget_control.Gguf.{TensorInfo}
use inference_budget_control.Gguf.Reader.{Bytes, little_endian, max_string}
use inference_budget_control.Gguf.Values.{fixed, text, array, value_kind, max_array}
use inference_budget_control.Gguf.Metadata.{alignment_key}
use inference_budget_control.Gguf.Header.{gguf_magic, max_count}

-- The `width` lowest bytes of a number, lowest first.
unfoldable pub put_uint : ℕ → ℕ → Bytes
put_uint zero v = []
put_uint (suc width) v = (v % 256) ∷ put_uint width (v / 256)

abbrev pub put_string : Bytes → Bytes
put_string s = put_uint 8 (length s) ++ s

mutual
  pub data Value : Type 0 where
    scalar : Bytes → Value
    string : Bytes → Value
    items : ℕ → Values → Value

  pub data Values : Type 0 where
    nil : Values
    cons : Value → Values → Values

unfoldable mutual
  pub put : Value → Bytes
  put (scalar b) = b
  put (string s) = put_string s
  put (items element vs) = put_uint 4 element ++ (put_uint 8 (count vs) ++ put_all vs)

  pub put_all : Values → Bytes
  put_all nil = []
  put_all (cons v vs) = put v ++ put_all vs

  pub count : Values → ℕ
  count nil = 0
  count (cons v vs) = suc (count vs)

-- A value of the type `t`, within the limits of the code.
unfoldable mutual
  pub IsValue : ℕ → Value → Type 0
  IsValue t (scalar b) = value_kind t ≡ fixed (length b)
  IsValue t (string s) = (value_kind t ≡ text) × (length s ≤ max_string)
  IsValue t (items element vs) =
      (value_kind t ≡ array) × (element < 2 ^ 32) × (count vs ≤ max_array) × AreValues element vs

  pub AreValues : ℕ → Values → Type 0
  AreValues t nil = Unit
  AreValues t (cons v vs) = IsValue t v × AreValues t vs

pub record Pair : Type 0 where
  pub key : Bytes
  pub kind : ℕ
  pub value : Value

abbrev pub put_pair : Pair → Bytes
put_pair p = put_string p.key ++ (put_uint 4 p.kind ++ put p.value)

abbrev pub IsPair : Pair → Type 0
IsPair p = (length p.key ≤ max_string) × (p.kind < 2 ^ 32) × IsValue p.kind p.value

abbrev pub put_pairs : List Pair → Bytes
put_pairs [] = []
put_pairs (p ∷ ps) = put_pair p ++ put_pairs ps

-- The alignment that the pairs leave, where it was `alignment` before: that of the last pair of the
-- key, among those whose value is a number of 32 or 64 bits.
abbrev pub alignment_after : ℕ → List Pair → ℕ
alignment_after alignment [] = alignment
alignment_after alignment (p ∷ ps) =
    alignment_after
      (if same_bytes p.key alignment_key
        then (if p.kind == 4 || p.kind == 10 then little_endian (put p.value) else alignment)
        else alignment)
      ps

abbrev pub put_numbers : List ℕ → Bytes
put_numbers [] = []
put_numbers (d ∷ ds) = put_uint 8 d ++ put_numbers ds

abbrev pub put_tensor : TensorInfo → Bytes
put_tensor t =
    put_string t.name
    ++ (put_uint 4 t.n_dims
        ++ (put_numbers t.dimensions ++ (put_uint 4 t.kind ++ put_uint 8 t.offset)))

pub record IsTensor (t : TensorInfo) : Type 0 where
  pub short_name : length t.name ≤ max_string
  pub counted : length t.dimensions ≡ t.n_dims
  pub few : t.n_dims ≤ 8
  pub narrow : All (λ d. d < 2 ^ 64) t.dimensions
  pub kind_fits : t.kind < 2 ^ 32
  pub offset_fits : t.offset < 2 ^ 64

abbrev pub put_tensors : List TensorInfo → Bytes
put_tensors [] = []
put_tensors (t ∷ ts) = put_tensor t ++ put_tensors ts

pub record GgufFile : Type 0 where
  pub version : ℕ
  pub pairs : List Pair
  pub tensors : List TensorInfo

abbrev pub put_counts : GgufFile → Bytes
put_counts f =
    put_uint 4 f.version ++ (put_uint 8 (length f.tensors) ++ put_uint 8 (length f.pairs))

abbrev pub put_file : GgufFile → Bytes
put_file f = gguf_magic ++ (put_counts f ++ (put_pairs f.pairs ++ put_tensors f.tensors))

pub record IsFile (f : GgufFile) : Type 0 where
  pub old : 2 ≤ f.version
  pub new : f.version ≤ 4
  pub few_tensors : length f.tensors ≤ max_count
  pub few_pairs : length f.pairs ≤ max_count
  pub are_pairs : All IsPair f.pairs
  pub are_tensors : All IsTensor f.tensors
