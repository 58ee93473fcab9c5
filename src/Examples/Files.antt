-- ===== src/Examples/Files.antt =====
-- A small GGUF file, for internal/download/file_ops.go.
use inference_budget_control.Prelude.{
  ◌-◌, ◌^◌, [], ◌∷◌, ◌++◌, ◌≡◌, ◌≢◌, refl, length, arith, ◌↔◌, All,
}
use inference_budget_control.Prelude.Int.{pos}
use inference_budget_control.Prelude.Results.{ok, err}
use inference_budget_control.Gguf.{TensorInfo, out_of_fuel}
use inference_budget_control.Gguf.Reader.{Bytes, little_endian}
use inference_budget_control.Gguf.Values.{value_kind, skip_as, skip_metadata_value}
use inference_budget_control.Gguf.Metadata.{alignment_key}
use inference_budget_control.Gguf.Bounds.{find_quant, quant, validate_gguf_tensor_bounds}
use inference_budget_control.Gguf.Header.{parse_header}
use inference_budget_control.Gguf.Consumed.{Took}
use inference_budget_control.Gguf.Nesting.{skip_metadata_value_lem}
use inference_budget_control.Gguf.Position.{parse_header-Took}
use inference_budget_control.Gguf.Format.{
  scalar, string, items, nil, cons, put, IsValue, GgufFile, IsFile, put_file,
}
use inference_budget_control.Gguf.FileRoundTrip.{parse_header-put}
use inference_budget_control.Gguf.Within.{IsWithin, validate_gguf_tensor_bounds_iff}
use inference_budget_control.Gguf.Wrapped.{validate_gguf_tensor_bounds_wraps}

-- Two by two numbers of 32 bits.
abbrev square : TensorInfo
square = record { name = b'w' ∷ []; n_dims = 2; dimensions = 2 ∷ 2 ∷ []; kind = 0; offset = 0 }

-- An alignment of 64, and an array of two arrays of bytes.
abbrev small_file : GgufFile
small_file = record {
  version = 3;
  pairs =
      record { key = alignment_key; kind = 4; value = scalar (64 ∷ 0 ∷ 0 ∷ 0 ∷ []) }
      ∷ record {
        key = b'a' ∷ [];
        kind = 9;
        value = items 9 (
            cons (items 0 (cons (scalar (1 ∷ [])) (cons (scalar (2 ∷ [])) nil)))
              (cons (items 8 (cons (string (b'x' ∷ [])) nil)) nil));
      }
      ∷ [];
  tensors = square ∷ [];
}

small_file-IsFile : IsFile small_file
unfolding IsValue value_kind put
small_file-IsFile = record {
  old = omega arith;
  new = omega arith;
  few_tensors = omega arith;
  few_pairs = omega arith;
  are_pairs = (
    (omega arith, omega arith, refl),
    (
      (
        omega arith,
        omega arith,
        (
          refl,
          omega arith,
          omega arith,
          (
            (refl, omega arith, omega arith, (refl, (refl, tt))),
            ((refl, omega arith, omega arith, ((refl, omega arith), tt)), tt),
          ),
        ),
      ),
      tt,
    ),
  );
  are_tensors = (
    record {
      short_name = omega arith;
      counted = refl;
      few = omega arith;
      narrow = (omega arith, (omega arith, tt));
      kind_fits = omega arith;
      offset_fits = omega arith;
    },
    tt,
  );
}

abbrev no_data : Bytes
no_data = []

parse_header-put_example :
    parse_header (put_file small_file ++ no_data)
    ≡ ok (
      record { alignment = 64; tensors = square ∷ []; bytes_read = length (put_file small_file) },
      no_data,
    )
unfolding put little_endian
parse_header-put_example = parse_header-put small_file no_data small_file-IsFile

parse_header-Took_example :
    Took (length (put_file small_file)) (put_file small_file ++ no_data) no_data
parse_header-Took_example =
    parse_header-Took (put_file small_file ++ no_data)
      (parse_header-put small_file no_data small_file-IsFile)

-- An array of one array of no strings.
abbrev nested : Bytes
nested =
    9 ∷ 0 ∷ 0 ∷ 0 ∷ 1 ∷ 0 ∷ 0 ∷ 0 ∷ 0 ∷ 0 ∷ 0 ∷ 0 ∷ 8 ∷ 0 ∷ 0 ∷ 0 ∷ 0 ∷ 0 ∷ 0 ∷ 0 ∷ 0 ∷ 0 ∷ 0 ∷ 0
    ∷ []

skip_metadata_value_lem_example :
    (skip_metadata_value 9 nested ≢ err out_of_fuel)
    × (skip_metadata_value 9 nested ≡ skip_as skip_metadata_value (value_kind 9) 9 nested)
skip_metadata_value_lem_example = skip_metadata_value_lem 9 nested

validate_gguf_tensor_bounds_iff_example :
    (validate_gguf_tensor_bounds (square ∷ []) 100 64 (pos 144) ≡ ok tt)
    ↔ All (IsWithin 128 (pos 144)) (square ∷ [])
unfolding find_quant
validate_gguf_tensor_bounds_iff_example =
    validate_gguf_tensor_bounds_iff (square ∷ []) 100 64 (pos 144) (omega arith)
      (((omega arith, omega arith), omega arith), tt)

validate_gguf_tensor_bounds_wraps_example :
    let far = record square { offset = 2 ^ 64 - 200 } in
    (validate_gguf_tensor_bounds (far ∷ []) 100 64 (pos 144) ≡ ok tt) × ¬ IsWithin 128 (pos 144) far
unfolding find_quant
validate_gguf_tensor_bounds_wraps_example =
    validate_gguf_tensor_bounds_wraps (record square { offset = 2 ^ 64 - 200 }) (quant 1 4) 100 64
      (pos 144) (omega arith) refl (omega arith, omega arith) (omega arith) (omega arith)
      (omega arith) (omega arith) (omega arith)
