-- ===== src/Download/Retried.antt =====
-- The retries of internal/download/chunked.go end in time, and in success where an attempt succeeds.
use inference_budget_control.Prelude.{
  ℕ, zero, suc, ◌+◌, ◌≤◌, ◌<◌, Bool, true, false, Option, some, none, ◌≡◌, ◌≢◌, refl, ◌∙◌, ap,
  length, All, arith, if◌then◌else◌, ◌==◌,
}
use inference_budget_control.Download.Retry.{
  Backoff, Attempts, Retried, cap_delay, next_delay, after_try, after_sleep, retry_loop,
  download_chunk_with_retry,
}

-- No delay is above the cap, the sleeps are fewer than the attempts allowed, and these are not passed.
abbrev pub IsBounded : {E : Type 0} → Backoff → ℕ → Retried E → Type 0
IsBounded b left run =
    All (λ d. d ≤ b.max_delay) run.sleeps × (length run.sleeps ≤ left) × (run.attempts ≤ left)

module _ {E : Type 0} (b : Backoff) (t : Attempts E) where
  cap_delay-le : (max_delay delay : ℕ) → cap_delay max_delay delay ≤ max_delay
  cap_delay-le max_delay delay = ground arith

  next_delay-le : (attempt delay : ℕ) → next_delay b t attempt delay ≤ b.max_delay
  unfolding next_delay
  next_delay-le attempt delay = cap_delay-le b.max_delay _

  after_try-IsBounded :
      (left : ℕ) (result : Option E) (cancelled : Bool) (later : Retried E)
      → IsBounded b left later
      → All (λ d. d ≤ b.max_delay) (after_try result cancelled later).sleeps
        × (length (after_try result cancelled later).sleeps ≤ left)
        × ((after_try result cancelled later).attempts ≤ suc left)
  unfolding after_try
  after_try-IsBounded left none cancelled later h = (tt, omega arith, omega arith)
  after_try-IsBounded left (some e) true later h = (tt, omega arith, omega arith)
  after_try-IsBounded left (some e) false later h = (h.0, h.1, omega (arith, h.2))

  after_sleep-IsBounded :
      (left : ℕ) (first slept : Bool) (delay : ℕ) (run : Retried E)
      → delay ≤ b.max_delay
      → All (λ d. d ≤ b.max_delay) run.sleeps
      → length run.sleeps ≤ left
      → run.attempts ≤ suc left
      → All (λ d. d ≤ b.max_delay) (after_sleep first slept delay run).sleeps
        × (length (after_sleep first slept delay run).sleeps ≤ (if first then left else suc left))
        × ((after_sleep first slept delay run).attempts ≤ suc left)
  unfolding after_sleep
  after_sleep-IsBounded left true slept delay run low h len few = (h, len, few)
  after_sleep-IsBounded left false false delay run low h len few =
      ((low, tt), omega arith, omega arith)
  after_sleep-IsBounded left false true delay run low h len few = ((low, h), omega arith, few)

  choice-le :
      (first : Bool) (left len : ℕ) → len ≤ (if first then left else suc left) → len ≤ suc left
  choice-le true left len h = omega arith
  choice-le false left len h = h

  low_next :
      (first : Bool) (attempt delay : ℕ)
      → delay ≤ b.max_delay
      → (if first then delay else next_delay b t attempt delay) ≤ b.max_delay
  low_next true attempt delay low = low
  low_next false attempt delay low = next_delay-le attempt delay

  -- One turn of the loop, whose sleep is left out at the first attempt.
  turn-IsBounded :
      (left : ℕ) (first slept : Bool) (delay : ℕ) (result : Option E) (cancelled : Bool)
      (later : Retried E)
      → delay ≤ b.max_delay
      → IsBounded b left later
      → let run = after_sleep first slept delay (after_try result cancelled later) in
        All (λ d. d ≤ b.max_delay) run.sleeps
        × (length run.sleeps ≤ (if first then left else suc left))
        × (run.attempts ≤ suc left)
  turn-IsBounded left first slept delay result cancelled later low h =
      let one = after_try-IsBounded left result cancelled later h in
      after_sleep-IsBounded left first slept delay (after_try result cancelled later) low one.0
        one.1 one.2

  retry_loop-IsBounded :
      (left attempt delay : ℕ) (last : Option E)
      → delay ≤ b.max_delay
      → IsBounded b left (retry_loop b t left attempt delay last)
  unfolding retry_loop
  retry_loop-IsBounded zero attempt delay last low = (tt, omega arith, omega arith)
  retry_loop-IsBounded (suc left) attempt delay last low =
      let next = if attempt == 0 then delay else next_delay b t attempt delay in
      let one =
        turn-IsBounded left (attempt == 0) (t.slept attempt) delay (t.try attempt)
          (t.cancelled attempt) (retry_loop b t left (suc attempt) next (t.try attempt)) low
          (retry_loop-IsBounded left (suc attempt) next (t.try attempt)
            (low_next (attempt == 0) attempt delay low)) in
      (one.0, choice-le (attempt == 0) left _ one.1, one.2)

  -- For an initial delay within the maximum, whatever the attempts return, downloadChunkWithRetry
  -- sleeps at most MaxRetries times and never longer than the maximum, and makes at most
  -- MaxRetries + 1 attempts.
  pub download_chunk_with_retry-bounds :
      b.initial ≤ b.max_delay
      → let run = download_chunk_with_retry b t in
        All (λ d. d ≤ b.max_delay) run.sleeps
        × (length run.sleeps ≤ b.max_retries)
        × (run.attempts ≤ suc b.max_retries)
  unfolding download_chunk_with_retry retry_loop
  download_chunk_with_retry-bounds low =
      turn-IsBounded b.max_retries true (t.slept 0) b.initial (t.try 0) (t.cancelled 0)
        (retry_loop b t b.max_retries 1 b.initial (t.try 0)) low
        (retry_loop-IsBounded b.max_retries 1 b.initial (t.try 0) low)

  after_sleep-run :
      (first slept : Bool) (delay : ℕ) (run : Retried E)
      → (first ≡ false → slept ≡ true)
      → ((after_sleep first slept delay run).error ≡ run.error)
        × ((after_sleep first slept delay run).attempts ≡ run.attempts)
  unfolding after_sleep
  after_sleep-run true slept delay run h = (refl, refl)
  after_sleep-run false true delay run h = (refl, refl)
  after_sleep-run false false delay run h = absurd (cc (h refl))

  turn-succeeds :
      (first slept cancelled : Bool) (delay : ℕ) (result : Option E) (later : Retried E)
      → slept ≡ true
      → result ≡ none
      → let run = after_sleep first slept delay (after_try result cancelled later) in
        (run.error ≡ none) × (run.attempts ≡ 1)
  unfolding after_try
  turn-succeeds first slept cancelled delay none later s e =
      after_sleep-run first slept delay (after_try none cancelled later) (λ f. s)
  turn-succeeds first slept cancelled delay (some x) later s e = absurd (cc)

  turn-fails :
      (first slept cancelled : Bool) (delay : ℕ) (result : Option E) (later : Retried E)
      → slept ≡ true
      → cancelled ≡ false
      → result ≢ none
      → let run = after_sleep first slept delay (after_try result cancelled later) in
        (run.error ≡ later.error) × (run.attempts ≡ suc later.attempts)
  unfolding after_try
  turn-fails first slept cancelled delay none later s c e = absurd (e refl)
  turn-fails first slept true delay (some x) later s c e = absurd (cc)
  turn-fails first slept false delay (some x) later s c e =
      after_sleep-run first slept delay (after_try (some x) false later) (λ f. s)

  -- `i` attempts fail and the next one succeeds.
  retry_loop-succeeds :
      (left attempt delay i : ℕ) (last : Option E)
      → i < left
      → t.try (attempt + i) ≡ none
      → ((j : ℕ) → j < i → t.try (attempt + j) ≢ none)
      → ((j : ℕ) → t.cancelled j ≡ false)
      → ((j : ℕ) → t.slept j ≡ true)
      → ((retry_loop b t left attempt delay last).error ≡ none)
        × ((retry_loop b t left attempt delay last).attempts ≡ suc i)
  unfolding retry_loop after_try
  retry_loop-succeeds zero attempt delay i last enough e before alive slept = absurd (omega arith)
  retry_loop-succeeds (suc left) attempt delay zero last enough e before alive slept =
      turn-succeeds (attempt == 0) (t.slept attempt) (t.cancelled attempt) delay (t.try attempt) _
        (slept attempt) (ap t.try (omega arith) ∙ e)
  retry_loop-succeeds (suc left) attempt delay (suc i) last enough e before alive slept =
      let next = if attempt == 0 then delay else next_delay b t attempt delay in
      let one =
        turn-fails (attempt == 0) (t.slept attempt) (t.cancelled attempt) delay (t.try attempt)
          (retry_loop b t left (suc attempt) next (t.try attempt)) (slept attempt) (alive attempt)
          (λ n. before 0 (omega arith) (ap t.try (omega arith) ∙ n)) in
      let rest =
        retry_loop-succeeds left (suc attempt) next i (t.try attempt) (omega arith)
          (ap t.try (omega arith) ∙ e)
          (λ j below n. before (suc j) (omega arith) (ap t.try (omega arith) ∙ n)) alive slept in
      (one.0 ∙ rest.0, one.1 ∙ ap suc rest.1)

  -- Where an attempt within the retries succeeds, every one before it fails, every sleep runs to
  -- its end and the context does not end, downloadChunkWithRetry returns no error, and makes
  -- exactly the attempts up to that one.
  pub download_chunk_with_retry-succeeds :
      (i : ℕ)
      → i ≤ b.max_retries
      → t.try i ≡ none
      → ((j : ℕ) → j < i → t.try j ≢ none)
      → ((j : ℕ) → t.cancelled j ≡ false)
      → ((j : ℕ) → t.slept j ≡ true)
      → ((download_chunk_with_retry b t).error ≡ none)
        × ((download_chunk_with_retry b t).attempts ≡ suc i)
  unfolding download_chunk_with_retry
  download_chunk_with_retry-succeeds i within e before alive slept =
      retry_loop-succeeds (suc b.max_retries) 0 b.initial i none (omega arith)
        (ap t.try (omega arith) ∙ e) (λ j below n. before j below (ap t.try (omega arith) ∙ n))
        alive slept
