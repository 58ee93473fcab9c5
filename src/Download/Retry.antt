-- ===== src/Download/Retry.antt =====
-- internal/download/chunked.go: `downloadChunkWithRetry`. What each attempt returns, whether the
-- context ends, the product of floats and the random numbers are given. A delay is a number of
-- nanoseconds.
use inference_budget_control.Prelude.{
  ℕ, zero, suc, ◌+◌, List, [], ◌∷◌, Bool, true, false, Option, some, none, if◌then◌else◌, ◌==◌, ltb,
}

-- backoffConfig, but for the multiplier.
pub record Backoff : Type 0 where
  pub initial : ℕ
  pub max_delay : ℕ
  pub jitter : ℕ
  pub max_retries : ℕ

-- By the number of the attempt: the error of downloadChunk; whether the sleep before it ran to its
-- end; whether the context has ended after it; rand.Int63n. `scaled` multiplies by the multiplier.
pub record Attempts (E : Type 0) : Type 0 where
  pub try : ℕ → Option E
  pub slept : ℕ → Bool
  pub cancelled : ℕ → Bool
  pub draw : ℕ → ℕ
  pub scaled : ℕ → ℕ

pub data RetryError (E : Type 0) : Type 0 where
  interrupted : RetryError E
  not_retried : E → RetryError E
  exhausted : ℕ → Option E → RetryError E

-- The number of attempts, the sleeps and the error that is returned.
pub record Retried (E : Type 0) : Type 0 where
  pub attempts : ℕ
  pub sleeps : List ℕ
  pub error : Option (RetryError E)

abbrev pub cap_delay : ℕ → ℕ → ℕ
cap_delay max_delay delay = if ltb max_delay delay then max_delay else delay

unfoldable pub next_delay : {E : Type 0} → Backoff → Attempts E → ℕ → ℕ → ℕ
next_delay b t attempt delay =
    let longer = t.scaled delay in
    cap_delay b.max_delay (if b.jitter == 0 then longer else longer + t.draw attempt)

-- `later` is what the loop does from the next attempt on.
unfoldable pub after_try : {E : Type 0} → Option E → Bool → Retried E → Retried E
after_try none cancelled later = record { attempts = 1; sleeps = []; error = none }
after_try (some e) true later = record { attempts = 1; sleeps = []; error = some (not_retried e) }
after_try (some e) false later = record {
  attempts = suc later.attempts;
  sleeps = later.sleeps;
  error = later.error;
}

-- The sleep before each attempt but the first.
unfoldable pub after_sleep : {E : Type 0} → Bool → Bool → ℕ → Retried E → Retried E
after_sleep true slept delay run = run
after_sleep false false delay run = record {
  attempts = 0;
  sleeps = delay ∷ [];
  error = some interrupted;
}
after_sleep false true delay run = record {
  attempts = run.attempts;
  sleeps = delay ∷ run.sleeps;
  error = run.error;
}

-- The loop with `left` attempts left.
unfoldable pub retry_loop : {E : Type 0} → Backoff → Attempts E → ℕ → ℕ → ℕ → Option E → Retried E
unfolding after_try after_sleep next_delay
retry_loop b t zero attempt delay last = record {
  attempts = 0;
  sleeps = [];
  error = some (exhausted b.max_retries last);
}
retry_loop b t (suc left) attempt delay last =
    let next = if attempt == 0 then delay else next_delay b t attempt delay in
    let later = retry_loop b t left (suc attempt) next (t.try attempt) in
    after_sleep (attempt == 0) (t.slept attempt) delay
      (after_try (t.try attempt) (t.cancelled attempt) later)

unfoldable pub download_chunk_with_retry : {E : Type 0} → Backoff → Attempts E → Retried E
unfolding retry_loop
download_chunk_with_retry b t = retry_loop b t (suc b.max_retries) 0 b.initial none
