-- ===== src/Examples/Xets.antt =====
-- A file of two terms, quads of bytes and a URL, for internal/xet.
use inference_budget_control.Prelude.{
  [], ◌∷◌, ◌++◌, ◌≡◌, refl, arith, true, Option, some, none, List,
}
use inference_budget_control.Prelude.Int.{pos, int64, ◌+ℤ◌}
use inference_budget_control.Prelude.Dict.{Dict, lookup}
use inference_budget_control.Prelude.Results.{ok}
use inference_budget_control.Xet.{Bytes, FetchInfo}
use inference_budget_control.Xet.Headers.{serialize}
use inference_budget_control.Xet.Decompress.{undo_byte_grouping4}
use inference_budget_control.Xet.Extract.{Slice, total_size, reconstruct}
use inference_budget_control.Xet.RoundTrip.{XorbChunk, put_chunks, decompress_all}
use inference_budget_control.Xet.Grouping.{group, flatten, undo_byte_grouping4-group}
use inference_budget_control.Xet.Remainder.{undo_byte_grouping4_ignores_remainder}
use inference_budget_control.Xet.Reconstruct.{Piece, behind, all_terms, all_chunks, reconstruct-put}
use inference_budget_control.Xet.Writer.{
  Agrees, reconstruct_to_writer, reconstruct_to_writer-Agrees,
}
use inference_budget_control.Xet.Urls.{
  HuggingFaceUrl, slash, hf_scheme, parse_hugging_face_url, to_string,
}
use inference_budget_control.Xet.UrlRoundTrip.{
  parse_hugging_face_url-to_string, parse_hf_protocol-hf_url, hf_url,
}

-- A library that gives each byte twice.
abbrev twice : Bytes → Option Bytes
twice [] = some []
twice (b ∷ bs) = elim (twice bs) [ none ↦ none | some out ↦ some (b ∷ b ∷ out) ]

abbrev stored : XorbChunk
stored = record {
  header = record { version = 0; compressed_size = 3; compression_type = 0; uncompressed_size = 3 };
  payload = 7 ∷ 8 ∷ 9 ∷ [];
}

abbrev packed : XorbChunk
packed = record {
  header = record { version = 0; compressed_size = 1; compression_type = 1; uncompressed_size = 2 };
  payload = 5 ∷ [];
}

abbrev xorb_url : FetchInfo
xorb_url = record {
  url = "https://cas/x";
  url_range = record { start = pos 0; stop = pos 20 };
  range = record { start = pos 0; stop = pos 2 };
}

abbrev infos : Dict (List FetchInfo)
infos = ("x", xorb_url ∷ []) ∷ []

abbrev fetched : Slice
fetched = record { content = put_chunks (stored ∷ packed ∷ []); spare = 0 ∷ [] }

abbrev fetch : FetchInfo → Option Slice
fetch info = some fetched

-- The first chunk, and then both with a byte behind them.
abbrev first_piece : Piece
first_piece = record {
  term = record { hash = "x"; unpacked_length = pos 3; range = behind 0 11 };
  info = xorb_url;
  others = [];
  fetched = fetched;
  before = [];
  chunks = stored ∷ [];
  tail = [];
  after = put_chunks (packed ∷ []) ++ 0 ∷ [];
}

abbrev second_piece : Piece
second_piece = record {
  term = record { hash = "x"; unpacked_length = pos 5; range = behind 0 21 };
  info = xorb_url;
  others = [];
  fetched = fetched;
  before = [];
  chunks = stored ∷ packed ∷ [];
  tail = 0 ∷ [];
  after = [];
}

reconstruct-put_example :
    reconstruct twice fetch infos (all_terms (first_piece ∷ second_piece ∷ []))
    ≡ decompress_all twice (all_chunks (first_piece ∷ second_piece ∷ []))
unfolding lookup serialize total_size int64 ◌+ℤ◌
reconstruct-put_example =
    reconstruct-put twice fetch infos (first_piece ∷ second_piece ∷ [])
      (
        (refl, refl, refl, refl, (((omega arith, omega arith), refl), tt), omega arith),
        (
          (
            refl,
            refl,
            refl,
            refl,
            (((omega arith, omega arith), refl), (((omega arith, omega arith), refl), tt)),
            omega arith,
          ),
          tt,
        ),
      )
      refl

reconstruct_to_writer-Agrees_example :
    Agrees
      (reconstruct_to_writer twice
        (λ written chunk. true)
        fetch
        infos
        []
        (all_terms (first_piece ∷ second_piece ∷ [])))
      (reconstruct twice fetch infos (all_terms (first_piece ∷ second_piece ∷ [])))
unfolding total_size int64 ◌+ℤ◌
reconstruct_to_writer-Agrees_example =
    reconstruct_to_writer-Agrees twice (λ written chunk. true) (λ written chunk. refl) fetch infos
      (all_terms (first_piece ∷ second_piece ∷ [])) refl

undo_byte_grouping4-group_example :
    undo_byte_grouping4 (group ((1, 2, 3, 4) ∷ (5, 6, 7, 8) ∷ [])) 8
    ≡ flatten ((1, 2, 3, 4) ∷ (5, 6, 7, 8) ∷ [])
undo_byte_grouping4-group_example =
    undo_byte_grouping4-group ((1, 2, 3, 4) ∷ (5, 6, 7, 8) ∷ []) 8 (omega arith)

undo_byte_grouping4_ignores_remainder_example :
    undo_byte_grouping4 (1 ∷ 2 ∷ 3 ∷ 4 ∷ 5 ∷ []) 5 ≡ undo_byte_grouping4 (1 ∷ 2 ∷ 3 ∷ 4 ∷ 9 ∷ []) 5
undo_byte_grouping4_ignores_remainder_example =
    undo_byte_grouping4_ignores_remainder (1 ∷ 2 ∷ 3 ∷ 4 ∷ []) (5 ∷ []) (9 ∷ []) refl 1 5 refl
      (omega arith) (omega arith) (omega arith)

-- https://huggingface.co/a/b/resolve/v/f/g
abbrev some_url : HuggingFaceUrl
some_url = record {
  namespace = b'a' ∷ [];
  repo = b'b' ∷ [];
  branch = b'v' ∷ [];
  file_path = b'f' ∷ slash ∷ b'g' ∷ [];
}

parse_hugging_face_url-to_string_example : parse_hugging_face_url (to_string some_url) ≡ ok some_url
parse_hugging_face_url-to_string_example =
    parse_hugging_face_url-to_string some_url
      ((omega arith, tt), (omega arith, tt), (omega arith, tt), refl)

parse_hf_protocol-hf_url_example :
    parse_hugging_face_url
      (hf_scheme ++ (b'a' ∷ slash ∷ b'b' ∷ slash ∷ (b'd' ∷ [] ++ slash ∷ b'f' ∷ [])))
    ≡ ok (hf_url (b'a' ∷ []) (b'b' ∷ []) (b'd' ∷ []) (b'f' ∷ []))
parse_hf_protocol-hf_url_example =
    parse_hf_protocol-hf_url (b'a' ∷ []) (b'b' ∷ []) (b'd' ∷ []) (b'f' ∷ []) (omega arith, tt)
      (omega arith, tt) (omega arith, tt)
