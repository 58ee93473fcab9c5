-- ===== src/Download/Chunks.antt =====
-- internal/download/chunked.go: `computeChunks`. The file's size is not negative, and neither is the
-- chunk size; the arithmetic is that of int64.
use inference_budget_control.Prelude.{ℕ, zero, suc, ◌*◌, ◌/◌, List, [], ◌∷◌, if◌then◌else◌, ◌==◌}
use inference_budget_control.Prelude.Int.{ℤ, pos, negsuc, ◌+ℤ◌, ◌-ℤ◌, int64, leb_ℤ}
use inference_budget_control.Download.{ChunkRange, default_chunk_size}

-- (fileSize + chunkSize - 1) / chunkSize, and 1 where that is not positive.
unfoldable pub ceiling : ℤ → ℕ → ℕ
ceiling (pos n) chunk_size = let q = n / chunk_size in if q == 0 then 1 else q
ceiling (negsuc n) chunk_size = 1

unfoldable pub chunk_count : ℕ → ℕ → ℕ
unfolding ceiling
chunk_count chunk_size file_size =
    ceiling (int64 (int64 (pos file_size +ℤ pos chunk_size) -ℤ pos 1)) chunk_size

-- chunks[i]
unfoldable pub chunk_at : ℕ → ℕ → ℕ → ChunkRange
chunk_at chunk_size file_size i =
    let start = int64 (pos (i * chunk_size)) in
    let stop = int64 (int64 (start +ℤ pos chunk_size) -ℤ pos 1) in
    record {
      index = i;
      start = start;
      stop = if leb_ℤ (pos file_size) stop then pos file_size -ℤ pos 1 else stop;
    }

-- The loop, for `left` more chunks from the index `i` on.
unfoldable pub chunks_from : ℕ → ℕ → ℕ → ℕ → List ChunkRange
unfolding chunk_at
chunks_from chunk_size file_size i zero = []
chunks_from chunk_size file_size i (suc left) =
    chunk_at chunk_size file_size i ∷ chunks_from chunk_size file_size (suc i) left

unfoldable pub compute_chunks : ℕ → ℕ → List ChunkRange
unfolding chunk_count chunks_from
compute_chunks size file_size =
    let chunk_size = if size == 0 then default_chunk_size else size in
    chunks_from chunk_size file_size 0 (chunk_count chunk_size file_size)
