-- ===== src/Examples/Downloads.antt =====
-- A file of ten bytes in chunks of four, for internal/download/chunked.go, and the calls of a tracker of
-- progress.go.
use inference_budget_control.Prelude.{
  ℕ, zero, suc, ◌*◌, ◌/◌, ◌≤◌, ◌<◌, List, [], ◌∷◌, true, false, Option, some, none, ◌≡◌, ◌≢◌, refl,
  sym, arith, length, All, ltb, if◌then◌else◌,
}
use inference_budget_control.Prelude.Int.{pos, int64, int64-pos, ◌+ℤ◌, ◌-ℤ◌}
use inference_budget_control.Prelude.Sums.{sum_by}
use inference_budget_control.Download.Chunks.{
  compute_chunks, chunk_count, chunks_from, chunk_at, ceiling,
}
use inference_budget_control.Download.Tiling.{Tiles, compute_chunks-Tiles}
use inference_budget_control.Download.Assembly.{
  Refusals, Files, copy_bytes, open_and_copy, copy_parts, after_copy, assemble_chunks,
}
use inference_budget_control.Download.Assembled.{assemble_chunks-bytes}
use inference_budget_control.Download.Retry.{
  Backoff, Attempts, next_delay, after_try, after_sleep, retry_loop, download_chunk_with_retry,
}
use inference_budget_control.Download.Retried.{
  download_chunk_with_retry-bounds, download_chunk_with_retry-succeeds,
}
use inference_budget_control.Download.Progress.{new_progress_tracker}
use inference_budget_control.Download.Counted.{
  Call, total_of, note_of, complete_of, fail_of, start_at, IsCounted, calls, calls-IsCounted,
}
use inference_budget_control.Download.Publishing.{IsAllOrNothing, assemble_chunks-IsAllOrNothing}

abbrev ten_bytes : List ℕ
ten_bytes = 0 ∷ 1 ∷ 2 ∷ 3 ∷ 4 ∷ 5 ∷ 6 ∷ 7 ∷ 8 ∷ 9 ∷ []

abbrev ten_parts : ℕ → Option (List ℕ)
ten_parts zero = some (0 ∷ 1 ∷ 2 ∷ 3 ∷ [])
ten_parts (suc zero) = some (4 ∷ 5 ∷ 6 ∷ 7 ∷ [])
ten_parts (suc (suc i)) = some (8 ∷ 9 ∷ [])

abbrev ten_files : Files ℕ
ten_files = record { whole = none; temp = none; parts = ten_parts }

abbrev no_refusal : Refusals
no_refusal = record {
  refused_create = false;
  refused_open = λ i. false;
  refused_copy = λ i. none;
  refused_sync = false;
  refused_close = false;
  refused_rename = false;
}

compute_chunks-Tiles_example : Tiles 4 0 0 10 (compute_chunks 4 10)
compute_chunks-Tiles_example = compute_chunks-Tiles 4 10 (omega arith) (omega arith) (omega arith)

assemble_chunks-bytes_example :
    assemble_chunks no_refusal ten_files (compute_chunks 4 10)
    ≡ (record { whole = some ten_bytes; temp = none; parts = ten_parts }, none)
unfolding compute_chunks chunk_count chunks_from chunk_at ceiling int64 ◌+ℤ◌ ◌-ℤ◌
assemble_chunks-bytes_example =
    assemble_chunks-bytes ten_bytes 4 no_refusal ten_files (omega arith) (omega arith) (omega arith)
      (refl, (λ i. refl), (λ i. refl), refl, refl, refl) (refl, (refl, (refl, tt)))

-- The copy of the second part fails after a byte.
abbrev second_refused : ℕ → Option ℕ
second_refused zero = none
second_refused (suc i) = some 1

torn_copy :
    let result =
      assemble_chunks
        (record no_refusal { refused_copy = second_refused })
        ten_files
        (compute_chunks 4 10) in
    (result.0.whole ≡ none) × (result.0.temp ≡ some (0 ∷ 1 ∷ 2 ∷ 3 ∷ 4 ∷ []))
unfolding assemble_chunks after_copy copy_parts open_and_copy copy_bytes compute_chunks chunk_count
    chunks_from chunk_at ceiling int64 ◌+ℤ◌ ◌-ℤ◌
torn_copy = (refl, refl)

assemble_chunks-IsAllOrNothing_example : IsAllOrNothing ten_files (compute_chunks 4 10) (
    assemble_chunks
      (record no_refusal { refused_copy = second_refused })
      ten_files
      (compute_chunks 4 10))
assemble_chunks-IsAllOrNothing_example =
    assemble_chunks-IsAllOrNothing (record no_refusal { refused_copy = second_refused }) ten_files
      (compute_chunks 4 10)

-- The third attempt succeeds.
abbrev third : ℕ → Option ℕ
third i = if ltb i 2 then some i else none

abbrev third_time : Attempts ℕ
third_time = record {
  try = third;
  slept = λ j. true;
  cancelled = λ j. false;
  draw = λ j. 7;
  scaled = λ d. d * 16 / 10;
}

abbrev short_backoff : Backoff
short_backoff = record { initial = 400; max_delay = 500; jitter = 120; max_retries = 3 }

third_time_sleeps : (download_chunk_with_retry short_backoff third_time).sleeps ≡ 400 ∷ 500 ∷ []
unfolding download_chunk_with_retry retry_loop after_sleep after_try next_delay
third_time_sleeps = refl

download_chunk_with_retry-bounds_example :
    let run = download_chunk_with_retry short_backoff third_time in
    All (λ d. d ≤ 500) run.sleeps × (length run.sleeps ≤ 3) × (run.attempts ≤ 4)
download_chunk_with_retry-bounds_example =
    download_chunk_with_retry-bounds short_backoff third_time (omega arith)

fails_before : (j : ℕ) → j < 2 → third_time.try j ≢ none
fails_before j below = ground arith

download_chunk_with_retry-succeeds_example :
    ((download_chunk_with_retry short_backoff third_time).error ≡ none)
    × ((download_chunk_with_retry short_backoff third_time).attempts ≡ 3)
download_chunk_with_retry-succeeds_example =
    download_chunk_with_retry-succeeds short_backoff third_time 2 (omega arith) refl fails_before
      (λ j. refl) (λ j. refl)

-- A file of ten bytes that is read and then complete, and one that fails.
abbrev some_calls : List Call
some_calls =
    total_of "a" (pos 10)
    ∷ start_at 5
    ∷ note_of 600000000 "a" (pos 4)
    ∷ note_of 1200000000 "b" (pos 3)
    ∷ fail_of "b"
    ∷ complete_of "a"
    ∷ []

calls-IsCounted_example : IsCounted (calls (λ bytes elapsed. bytes) some_calls new_progress_tracker)
unfolding sum_by
calls-IsCounted_example =
    calls-IsCounted (λ bytes elapsed. bytes) some_calls new_progress_tracker
      (sym (int64-pos 0 (omega arith)), omega arith)
