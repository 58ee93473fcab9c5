-- ===== src/Manager/Resumed.antt =====
-- Resuming a download in internal/download/manager.go, at a server that answers for one file.
use inference_budget_control.Prelude.{
  ℕ, ◌+◌, ◌<◌, [], ◌∷◌, ◌++◌, ◌==◌, ◌≡◌, refl, sym, ◌∙◌, ap, arith, Bool, true, false, ◌||◌, Option,
  some, length, length-append, leb, if◌then◌else◌,
}
use inference_budget_control.Prelude.Results.{Result, ok}
use inference_budget_control.Prelude.Bytes.{drop, append_nil, drop-append}
use inference_budget_control.Manager.{Bytes}
use inference_budget_control.Manager.Fetch.{
  Response, FetchError, Attempt, resume_download_file, try_resume_download, after_resume,
}

-- A server that answers range requests by the rest of the file, or by 416 where there is none.
abbrev pub serves : Bytes → ℕ → Option Response
serves file offset = some (
    if leb (length file) offset
    then record { status = 416; body = []; broken = false }
    else record { status = 206; body = drop offset file; broken = false })

-- A server that answers every request by the whole file.
abbrev pub serves_whole : Bytes → Option Response
serves_whole file = some (record { status = 200; body = file; broken = false })

no_empty : (b : Bool) (n : ℕ) → b ≡ false → 0 < n → (b || n == 0) ≡ false
no_empty b n e h = ground arith

if_no : {A : Type 0} (b : Bool) (x y : A) → b ≡ false → (if b then x else y) ≡ y
if_no b x y e = rw e refl

-- A request that is made, and what follows when it succeeds.
try_reaches :
    (a : Attempt) (here : Bytes)
    → a.stat_fails ≡ false
    → a.open_fails ≡ false
    → 0 < length here
    → try_resume_download a (some here)
      ≡ after_resume a (length here) (resume_download_file (a.serve (length here)) here)
unfolding try_resume_download
try_reaches a here stat opens some_bytes =
    if_no (a.stat_fails || length here == 0) _ _
      (no_empty a.stat_fails (length here) stat some_bytes)
    ∙ if_no a.open_fails _ _ opens

after_resume-ok :
    (a : Attempt) (n written : ℕ) (bytes : Bytes)
    → a.sync_fails ≡ false
    → after_resume a n (bytes, ok written) ≡ (some bytes, ok (n + written))
after_resume-ok a n written bytes sync =
    ap (λ (r : Result FetchError ℕ). (some bytes, r)) (if_no a.sync_fails _ _ sync)

at_end : (n : ℕ) → leb n n ≡ true
at_end n = ground arith

before_end : (n k m : ℕ) → m ≡ n + (k + 1) → leb m n ≡ false
before_end n k m e = ground arith

resume_download_file-serves :
    (here rest : Bytes)
    → resume_download_file (serves (here ++ rest) (length here)) here
      ≡ (here ++ rest, ok (length rest))
unfolding resume_download_file
resume_download_file-serves here [] = rw (append_nil here, at_end (length here)) refl
resume_download_file-serves here (r ∷ rs) =
    rw
      (
        before_end (length here) (length rs) (length (here ++ r ∷ rs))
            (omega (arith, length-append here (r ∷ rs))),
        drop-append here (r ∷ rs),
      )
      refl

-- Where a part of the file that is not empty stands at the local path, the server answers the
-- request by the rest of the file, or by 416 where there is none, and no system call fails,
-- tryResumeDownload leaves the whole file and returns its length.
pub try_resume_download-completes :
    (a : Attempt) (here rest : Bytes)
    → a.stat_fails ≡ false
    → a.open_fails ≡ false
    → a.sync_fails ≡ false
    → 0 < length here
    → a.serve (length here) ≡ serves (here ++ rest) (length here)
    → try_resume_download a (some here) ≡ (some (here ++ rest), ok (length (here ++ rest)))
try_resume_download-completes a here rest stat opens sync some_bytes served =
    try_reaches a here stat opens some_bytes
    ∙ ap (λ r. after_resume a (length here) (resume_download_file r here)) served
    ∙ ap (λ r. after_resume a (length here) r) (resume_download_file-serves here rest)
    ∙ after_resume-ok a (length here) (length rest) (here ++ rest) sync
    ∙ ap (λ n. (some (here ++ rest), ok n)) (sym (length-append here rest))

-- Where the server ignores the range and answers 200 with the whole file, and no system call
-- fails, tryResumeDownload reports success and leaves the part that was there with the whole file
-- behind it.
pub try_resume_download-doubles :
    (a : Attempt) (here rest : Bytes)
    → a.stat_fails ≡ false
    → a.open_fails ≡ false
    → a.sync_fails ≡ false
    → 0 < length here
    → a.serve (length here) ≡ serves_whole (here ++ rest)
    → try_resume_download a (some here)
      ≡ (some (here ++ (here ++ rest)), ok (length here + length (here ++ rest)))
unfolding resume_download_file
try_resume_download-doubles a here rest stat opens sync some_bytes served =
    try_reaches a here stat opens some_bytes
    ∙ ap (λ r. after_resume a (length here) (resume_download_file r here)) served
    ∙ after_resume-ok a (length here) (length (here ++ rest)) (here ++ (here ++ rest)) sync
