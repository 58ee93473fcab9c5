-- ===== src/Gguf/FileRoundTrip.antt =====
-- What `validateGGUFHeader` of internal/download/file_ops.go reads from a well-formed file.
use inference_budget_control.Prelude.{
  ℕ, ◌+◌, ◌≤◌, ◌++◌, ◌≡◌, ap, arith, length, length-append, ltb, false, ◌||◌,
}
use inference_budget_control.Prelude.Results.{ok}
use inference_budget_control.Gguf.Reader.{Bytes, read_full}
use inference_budget_control.Gguf.Metadata.{parse_gguf_metadata}
use inference_budget_control.Gguf.Tensors.{parse_gguf_tensor_infos}
use inference_budget_control.Gguf.Header.{
  gguf_magic, max_count, check_counts, read_counts, read_version, read_gguf_file_header,
  parse_header,
}
use inference_budget_control.Prelude.Bytes.{append_assoc}
use inference_budget_control.Gguf.Format.{
  put_uint, put_pairs, alignment_after, put_tensors, GgufFile, put_counts, put_file, IsFile,
}
use inference_budget_control.Gguf.RoundTrip.{
  read_uint-put, Fits-32, Fits-64, not_above, length-put_uint,
}
use inference_budget_control.Gguf.TensorRoundTrip.{parse_infos-put}
use inference_budget_control.Gguf.MetadataRoundTrip.{parse_pairs-put}

supported : (v : ℕ) → 2 ≤ v → v ≤ 4 → (ltb v 2 || ltb 4 v) ≡ false
supported v old new = ground arith

read_gguf_file_header-put :
    (f : GgufFile) (rest : Bytes)
    → IsFile f
    → read_gguf_file_header (gguf_magic ++ (put_counts f ++ rest))
      ≡ ok (
        record {
          version = f.version;
          tensor_count = length f.tensors;
          metadata_count = length f.pairs;
        },
        rest,
      )
unfolding read_gguf_file_header read_version read_counts check_counts read_full
read_gguf_file_header-put f rest is =
    let n = length f.tensors in
    let m = length f.pairs in
    rw (
      append_assoc (put_uint 4 f.version) (put_uint 8 n ++ put_uint 8 m) rest,
      read_uint-put 4 f.version ((put_uint 8 n ++ put_uint 8 m) ++ rest)
          (Fits-32 f.version (omega (arith, is.new))),
      supported f.version is.old is.new,
      append_assoc (put_uint 8 n) (put_uint 8 m) rest,
      read_uint-put 8 n (put_uint 8 m ++ rest) (Fits-64 n (omega (arith, is.few_tensors))),
      read_uint-put 8 m rest (Fits-64 m (omega (arith, is.few_pairs))),
      not_above max_count n is.few_tensors,
      not_above max_count m is.few_pairs,
    )

length-put_file :
    (f : GgufFile)
    → 24 + (0 + length (put_pairs f.pairs)) + (0 + length (put_tensors f.tensors))
      ≡ length (put_file f)
length-put_file f =
    let n = length f.tensors in
    let m = length f.pairs in
    omega (
      arith,
      length-append gguf_magic (put_counts f ++ (put_pairs f.pairs ++ put_tensors f.tensors)),
      length-append (put_counts f) (put_pairs f.pairs ++ put_tensors f.tensors),
      length-append (put_pairs f.pairs) (put_tensors f.tensors),
      length-append (put_uint 4 f.version) (put_uint 8 n ++ put_uint 8 m),
      length-append (put_uint 8 n) (put_uint 8 m),
      length-put_uint 4 f.version,
      length-put_uint 8 n,
      length-put_uint 8 m,
    )

-- From the bytes of a well-formed file, whatever follows them, the reading of validateGGUFHeader
-- gives the file's tensors, the alignment that its metadata sets or 32, and as the header's size
-- the number of the bytes; values are scalars, strings and nested arrays within the limits of the
-- code.
pub parse_header-put :
    (f : GgufFile) (rest : Bytes)
    → IsFile f
    → parse_header (put_file f ++ rest)
      ≡ ok (
        record {
          alignment = alignment_after 32 f.pairs;
          tensors = f.tensors;
          bytes_read = length (put_file f);
        },
        rest,
      )
unfolding parse_header parse_gguf_metadata parse_gguf_tensor_infos
parse_header-put f rest is =
    let ps = put_pairs f.pairs in
    let ts = put_tensors f.tensors in
    rw
      (
        append_assoc (put_counts f) (ps ++ ts) rest,
        read_gguf_file_header-put f ((ps ++ ts) ++ rest) is,
        append_assoc ps ts rest,
        parse_pairs-put f.pairs 32 0 (ts ++ rest) is.are_pairs,
        parse_infos-put f.tensors 0 rest is.are_tensors,
      )
      (ap
        (λ (n : ℕ). ok (
          record { alignment = alignment_after 32 f.pairs; tensors = f.tensors; bytes_read = n },
          rest,
        ))
        (length-put_file f))
