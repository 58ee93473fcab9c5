-- ===== src/Manager/Sized.antt =====
-- The sizes that `downloadFile` of internal/download/manager.go returns.
use inference_budget_control.Prelude.{
  ℕ, ◌+◌, [], ◌==◌, ◌≡◌, refl, sym, arith, Bool, true, false, not, ◌||◌, Option, none, some, length,
  length-append, Bool-cases, inl, inr,
}
use inference_budget_control.Prelude.Results.{Result, ok, err}
use inference_budget_control.Manager.{Bytes}
use inference_budget_control.Manager.Fetch.{
  Response, FetchError, Attempt, Fetched, resume_download_file, try_resume_download, fetch_fresh,
  download_file, after_resume, after_fresh, or_fresh, after_chunked, after_xet,
}

-- The size that is reported is the length of the file that is left.
abbrev pub Sized : Fetched → Type 0
Sized (content, err why) = Unit {0}
Sized (none, ok size) = ⊥
Sized (some bytes, ok size) = size ≡ length bytes

abbrev pub Reports : Option Bytes × Option ℕ → Type 0
Reports (content, none) = Unit {0}
Reports (none, some size) = ⊥
Reports (some bytes, some size) = size ≡ length bytes

-- The chunked downloader reports the length of the file that it leaves.
abbrev pub IsHonest : Attempt → Type 0
IsHonest a = (content : Option Bytes) → Reports (a.chunked content)

-- What is written stands behind the first `n` bytes.
abbrev pub Appended : ℕ → Bytes × Result FetchError ℕ → Type 0
Appended n (bytes, err why) = Unit {0}
Appended n (bytes, ok written) = n + written ≡ length bytes

resume_download_file-Appended :
    (r : Option Response) (dest : Bytes) → Appended (length dest) (resume_download_file r dest)
unfolding resume_download_file
resume_download_file-Appended none dest = tt
resume_download_file-Appended (some r) dest = elim (Bool-cases (r.status == 416)) [
  | inl e ↦ rw e (omega arith)
  | inr e ↦ rw e (elim (Bool-cases (not (r.status == 200 || r.status == 206))) [
    | inl e₁ ↦ rw e₁ tt
    | inr e₁ ↦ rw e₁ (elim (Bool-cases r.broken) [
      | inl e₂ ↦ rw e₂ tt
      | inr e₂ ↦ rw e₂ (sym (length-append dest r.body))
    ])
  ])
]

after_resume-Sized :
    (a : Attempt) (n : ℕ) (r : Bytes × Result FetchError ℕ)
    → Appended n r
    → Sized (after_resume a n r)
after_resume-Sized a n (bytes, err why) h = tt
after_resume-Sized a n (bytes, ok written) h = elim (Bool-cases a.sync_fails) [
  | inl e ↦ rw e tt
  | inr e ↦ rw e h
]

after_fresh-Sized :
    (a : Attempt) (r : Bytes × Result FetchError ℕ) → Appended 0 r → Sized (after_fresh a r)
after_fresh-Sized a (bytes, err why) h = tt
after_fresh-Sized a (bytes, ok written) h = elim (Bool-cases a.sync_fails) [
  | inl e ↦ rw e tt
  | inr e ↦ rw e (omega (arith, h))
]

try_resume_download-Sized :
    (a : Attempt) (content : Option Bytes) → Sized (try_resume_download a content)
unfolding try_resume_download
try_resume_download-Sized a none = tt
try_resume_download-Sized a (some bytes) = elim (Bool-cases (a.stat_fails || length bytes == 0)) [
  | inl e ↦ rw e tt
  | inr e ↦ rw e (elim (Bool-cases a.open_fails) [
    | inl e₁ ↦ rw e₁ tt
    | inr e₁ ↦ rw e₁ (
        after_resume-Sized a (length bytes) (resume_download_file (a.serve (length bytes)) bytes)
          (resume_download_file-Appended (a.serve (length bytes)) bytes))
  ])
]

fetch_fresh-Sized : (a : Attempt) (content : Option Bytes) → Sized (fetch_fresh a content)
unfolding fetch_fresh
fetch_fresh-Sized a content = elim (Bool-cases a.create_fails) [
  | inl e ↦ rw e tt
  | inr e ↦ rw e (
      after_fresh-Sized a (resume_download_file a.serve_fresh [])
        (resume_download_file-Appended a.serve_fresh []))
]

or_fresh-Sized : (a : Attempt) (f : Fetched) → Sized f → Sized (or_fresh a f)
or_fresh-Sized a (content, err why) h = fetch_fresh-Sized a content
or_fresh-Sized a (content, ok size) h = h

after_chunked-Sized :
    (a : Attempt) (c : Option Bytes × Option ℕ) → Reports c → Sized (after_chunked a c)
after_chunked-Sized a (content, none) h =
    or_fresh-Sized a (try_resume_download a content) (try_resume_download-Sized a content)
after_chunked-Sized a (none, some size) h = h
after_chunked-Sized a (some bytes, some size) h = h

after_xet-Sized : (a : Attempt) (x : Option Bytes × Bool) → IsHonest a → Sized (after_xet a x)
after_xet-Sized a (content, false) honest =
    after_chunked-Sized a (a.chunked content) (honest content)
after_xet-Sized a (none, true) honest = tt
after_xet-Sized a (some bytes, true) honest = elim (Bool-cases a.stat_fails) [
  | inl e ↦ rw e tt
  | inr e ↦ rw e refl
]

pub download_file-Sized :
    (a : Attempt) (content : Option Bytes) → IsHonest a → Sized (download_file a content)
unfolding download_file
download_file-Sized a content honest = after_xet-Sized a (a.xet content) honest
