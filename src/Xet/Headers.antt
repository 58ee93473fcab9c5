-- ===== src/Xet/Headers.antt =====
-- internal/xet/xorb.go: the header of a chunk, and the iterator over the chunks of a xorb. The code
-- joins shifted bytes by `|`; they do not overlap, so that is their sum.
use inference_budget_control.Prelude.{
  ℕ, ◌+◌, ◌*◌, ◌/◌, ◌%◌, [], ◌∷◌, ltb, leb, Bool, Option, some, none, length, if◌then◌else◌,
}
use inference_budget_control.Prelude.Results.{Result, ok, err, ◌>>=◌}
use inference_budget_control.Prelude.Bytes.{take, drop, get_or}
use inference_budget_control.Xet.{Bytes, ChunkHeader, XetError, short_header, beyond_xorb}

abbrev pub chunk_header_size : ℕ
chunk_header_size = 8

-- Three bytes from the index `i` on, lowest first.
abbrev pub three_bytes : Bytes → ℕ → ℕ
three_bytes input i =
    get_or input i 0 + 256 * get_or input (i + 1) 0 + 65536 * get_or input (i + 2) 0

unfoldable pub parse_chunk_header : Bytes → Result XetError ChunkHeader
parse_chunk_header input =
    if ltb (length input) chunk_header_size
    then err (short_header (length input))
    else ok (record {
      version = get_or input 0 0;
      compressed_size = three_bytes input 1;
      compression_type = get_or input 4 0;
      uncompressed_size = three_bytes input 5;
    })

unfoldable pub serialize : ChunkHeader → Bytes
serialize h =
    h.version
    ∷ (h.compressed_size % 256)
    ∷ (h.compressed_size / 256 % 256)
    ∷ (h.compressed_size / 65536 % 256)
    ∷ h.compression_type
    ∷ (h.uncompressed_size % 256)
    ∷ (h.uncompressed_size / 256 % 256)
    ∷ (h.uncompressed_size / 65536 % 256)
    ∷ []

-- XorbIterator; `input` is its field data.
pub record XorbIterator : Type 0 where
  pub input : Bytes
  pub offset : ℕ

abbrev pub new_xorb_iterator : Bytes → XorbIterator
new_xorb_iterator input = record { input = input; offset = 0 }

unfoldable pub has_next : XorbIterator → Bool
has_next it = leb (it.offset + chunk_header_size) (length it.input)

-- A header and its data, or nil at the end, with the iterator afterwards.
abbrev pub Next : Type 0
Next = Result XetError (Option (ChunkHeader × Bytes) × XorbIterator)

unfoldable pub take_chunk : XorbIterator → ChunkHeader → Next
take_chunk it header =
    let chunk_start = it.offset + chunk_header_size in
    let chunk_end = chunk_start + header.compressed_size in
    if ltb (length it.input) chunk_end
    then err (beyond_xorb chunk_end)
    else ok (
      some (header, take header.compressed_size (drop chunk_start it.input)),
      record { input = it.input; offset = chunk_end },
    )

unfoldable pub next : XorbIterator → Next
next it =
    if ltb (length it.input) (it.offset + chunk_header_size)
    then ok (none, it)
    else (parse_chunk_header (take chunk_header_size (drop it.offset it.input)) >>= take_chunk it)
