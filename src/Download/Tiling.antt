-- ===== src/Download/Tiling.antt =====
-- The chunks of internal/download/chunked.go cover the file.
use inference_budget_control.Prelude.{
  ℕ, zero, suc, ◌+◌, ◌-◌, ◌*◌, ◌/◌, ◌^◌, ◌<◌, ◌≤◌, List, [], ◌∷◌, false, ◌≡◌, refl, sym, ◌∙◌, ap,
  ◌==◌, arith,
}
use native.Mathlib.Nat.{add-div_right, div-mul-le_self, lt-div-mul-add}
use inference_budget_control.Prelude.Int.{int64-pos, int64-+ℤ, int64--ℤ, pos, ◌+ℤ◌, ◌-ℤ◌, int64}
use inference_budget_control.Download.{ChunkRange}
use inference_budget_control.Download.Chunks.{
  chunk_count, chunk_at, chunks_from, compute_chunks, ceiling,
}

-- The ranges are numbered from `i`, not empty, at most `chunk_size` long, and one after another they
-- cover the bytes from `at` to `size`.
abbrev pub Tiles : ℕ → ℕ → ℕ → ℕ → List ChunkRange → Type 0
Tiles chunk_size i at size [] = at ≡ size
Tiles chunk_size i at size (c ∷ cs) =
    (c.index ≡ i)
    × (c.start ≡ pos at)
    × ((len : ℕ) × (0 < len)
        × (len ≤ chunk_size)
        × (c.stop ≡ pos (at + len - 1))
        × Tiles chunk_size (suc i) (at + len) size cs)

chunk_at-start : (c n i : ℕ) → i * c < 2 ^ 63 → (chunk_at c n i).start ≡ pos (i * c)
unfolding chunk_at
chunk_at-start c n i small = int64-pos (i * c) small

-- The last byte of a whole chunk.
whole_stop :
    (c i : ℕ)
    → 0 < c
    → i * c + c < 2 ^ 63
    → int64 (int64 (int64 (pos (i * c)) +ℤ pos c) -ℤ pos 1) ≡ pos (i * c + c - 1)
whole_stop c i some_size small =
    rw
      (
        int64-pos (i * c) (omega arith),
        int64-+ℤ (i * c) c small,
        int64--ℤ (i * c + c) 1 small (omega arith),
      )
      refl

chunk_at-stop_full :
    (c n i : ℕ) → 0 < c → i * c + c ≤ n → n < 2 ^ 63 → (chunk_at c n i).stop ≡ pos (i * c + c - 1)
unfolding chunk_at
chunk_at-stop_full c n i some_size within small =
    rw (whole_stop c i some_size (omega arith)) (ground arith)

chunk_at-stop_last :
    (c n i : ℕ)
    → 0 < c
    → i * c < n
    → n ≤ i * c + c
    → n + c < 2 ^ 63
    → (chunk_at c n i).stop ≡ pos (n - 1)
unfolding chunk_at ◌-ℤ◌
chunk_at-stop_last c n i some_size starts ends small =
    rw (whole_stop c i some_size (omega arith)) (ground arith)

lt_of_le_pred : {m n : ℕ} → 0 < n → m ≤ n - 1 → m < n
lt_of_le_pred some below = omega arith

le_of_pred_lt : {m n : ℕ} → n - 1 < m → n ≤ m
le_of_pred_lt below = omega arith

ceiling_div : (c n : ℕ) → 0 < c → 0 < n → (n + c - 1) / c ≡ suc ((n - 1) / c)
ceiling_div c n some_size some_file =
    ap (λ m. m / c) (omega arith) ∙ add-div_right (n - 1) some_size ∙ omega arith

ceiling_lem :
    (c n : ℕ)
    → 0 < c
    → 0 < n
    → (q : ℕ) × (ceiling (pos (n + c - 1)) c ≡ suc q) × (q * c < n) × (n ≤ q * c + c)
unfolding ceiling
ceiling_lem c n some_size some_file = (
  (n - 1) / c,
  rw (ceiling_div c n some_size some_file) (ground arith),
  lt_of_le_pred some_file (div-mul-le_self (n - 1) c),
  le_of_pred_lt (lt-div-mul-add some_size),
)

chunk_count-ceiling :
    (c n : ℕ)
    → 0 < c
    → 0 < n
    → n + c < 2 ^ 63
    → (q : ℕ) × (chunk_count c n ≡ suc q) × (q * c < n) × (n ≤ q * c + c)
unfolding chunk_count
chunk_count-ceiling c n some_size some_file small =
    rw (int64-+ℤ n c small, int64--ℤ (n + c) 1 small (omega arith))
      (ceiling_lem c n some_size some_file)

-- From the index `i` on, with `left` + 1 chunks to go.
chunks_from-Tiles :
    (c n i at left : ℕ)
    → at ≡ i * c
    → 0 < c
    → at + left * c < n
    → n ≤ at + left * c + c
    → n + c < 2 ^ 63
    → Tiles c i at n (chunks_from c n i (suc left))
unfolding chunks_from
chunks_from-Tiles c n i at zero e some_size starts ends small = (
  refl,
  chunk_at-start c n i (omega arith) ∙ ap pos (sym e),
  (
    n - at,
    omega arith,
    omega arith,
    chunk_at-stop_last c n i some_size (omega arith) (omega arith) small ∙ ap pos (omega arith),
    omega arith,
  ),
)
chunks_from-Tiles c n i at (suc left) e some_size starts ends small = (
  refl,
  chunk_at-start c n i (omega arith) ∙ ap pos (sym e),
  (
    c,
    some_size,
    omega arith,
    chunk_at-stop_full c n i some_size (omega arith) (omega arith) ∙ ap pos (omega arith),
    chunks_from-Tiles c n (suc i) (at + c) left (omega arith) some_size (omega arith) (omega arith)
        small,
  ),
)

size_nonzero : (n : ℕ) → 0 < n → n == 0 ≡ false
size_nonzero n some = ground arith

-- Where the chunk size and the file's size are positive and an int64 holds their sum,
-- computeChunks gives ranges numbered from 0, none empty and none above the chunk size, that one
-- after another cover the bytes from 0 to the file's size.
pub compute_chunks-Tiles :
    (size file_size : ℕ)
    → 0 < size
    → 0 < file_size
    → file_size + size < 2 ^ 63
    → Tiles size 0 0 file_size (compute_chunks size file_size)
unfolding compute_chunks
compute_chunks-Tiles size file_size some_size some_file small =
    let (q, e, starts, ends) = chunk_count-ceiling size file_size some_size some_file small in
    rw (size_nonzero size some_size, e)
      (chunks_from-Tiles size file_size 0 0 q (omega arith) some_size (omega arith) (omega arith)
        small)
