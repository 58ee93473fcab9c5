-- ===== src/Manager/Fetch.antt =====
-- The download of one file: `downloadFile` and `tryResumeDownload` of internal/download/manager.go, and
-- `ResumeDownloadFile` of internal/huggingface/client.go.
use inference_budget_control.Prelude.{
  ℕ, ◌+◌, [], ◌++◌, ◌==◌, Bool, true, false, ◌||◌, not, Option, none, some, length, if◌then◌else◌,
}
use inference_budget_control.Prelude.Results.{Result, ok, err}
use inference_budget_control.Manager.{Bytes}

pub data FetchError : Type 0 where
  request_failed : FetchError
  unexpected_status : ℕ → FetchError
  copy_failed : ℕ → FetchError
  stat_failed : FetchError
  no_partial_file : FetchError
  open_failed : FetchError
  create_failed : FetchError
  sync_failed : FetchError

-- A response: its status, the bytes of its body that arrive, and whether the reading then failed.
pub record Response : Type 0 where
  pub status : ℕ
  pub body : Bytes
  pub broken : Bool

-- The destination afterwards, and the number of bytes written; none is a request that failed.
unfoldable pub resume_download_file : Option Response → Bytes → Bytes × Result FetchError ℕ
resume_download_file none dest = (dest, err request_failed)
resume_download_file (some r) dest =
    if r.status == 416
    then (dest, ok 0)
    else if not (r.status == 200 || r.status == 206)
    then (dest, err (unexpected_status r.status))
    else if r.broken
    then (dest ++ r.body, err (copy_failed (length r.body)))
    else (dest ++ r.body, ok (length r.body))

-- What the outside answers while one file is downloaded. `xet` and `chunked` tell what the two
-- downloaders make of the file at the local path; `serve` answers a request from an offset on.
pub record Attempt : Type 0 where
  pub xet : Option Bytes → Option Bytes × Bool
  pub chunked : Option Bytes → Option Bytes × Option ℕ
  pub serve : ℕ → Option Response
  pub serve_fresh : Option Response
  pub stat_fails : Bool
  pub open_fails : Bool
  pub create_fails : Bool
  pub sync_fails : Bool

-- The file at the local path, and the size or the error.
abbrev pub Fetched : Type 0
Fetched = Option Bytes × Result FetchError ℕ

-- Behind the request of a resumed download.
abbrev pub after_resume : Attempt → ℕ → Bytes × Result FetchError ℕ → Fetched
after_resume a local_size (bytes, err why) = (some bytes, err why)
after_resume a local_size (bytes, ok written) =
    (some bytes, (if a.sync_fails then err sync_failed else ok (local_size + written)))

unfoldable pub try_resume_download : Attempt → Option Bytes → Fetched
unfolding resume_download_file
try_resume_download a none = (none, err no_partial_file)
try_resume_download a (some bytes) =
    if a.stat_fails || length bytes == 0
    then (some bytes, err no_partial_file)
    else if a.open_fails
    then (some bytes, err open_failed)
    else after_resume a (length bytes) (resume_download_file (a.serve (length bytes)) bytes)

-- Behind the request of a fresh download.
abbrev pub after_fresh : Attempt → Bytes × Result FetchError ℕ → Fetched
after_fresh a (bytes, err why) = (some bytes, err why)
after_fresh a (bytes, ok written) =
    (some bytes, (if a.sync_fails then err sync_failed else ok written))

unfoldable pub fetch_fresh : Attempt → Option Bytes → Fetched
unfolding resume_download_file
fetch_fresh a content =
    if a.create_fails
    then (content, err create_failed)
    else after_fresh a (resume_download_file a.serve_fresh [])

abbrev pub or_fresh : Attempt → Fetched → Fetched
or_fresh a (content, ok size) = (content, ok size)
or_fresh a (content, err why) = fetch_fresh a content

abbrev pub after_chunked : Attempt → Option Bytes × Option ℕ → Fetched
after_chunked a (content, some size) = (content, ok size)
after_chunked a (content, none) = or_fresh a (try_resume_download a content)

abbrev pub stat_size : Bool → Option Bytes → Result FetchError ℕ
stat_size fails none = err stat_failed
stat_size fails (some bytes) = if fails then err stat_failed else ok (length bytes)

abbrev pub after_xet : Attempt → Option Bytes × Bool → Fetched
after_xet a (content, true) = (content, stat_size a.stat_fails content)
after_xet a (content, false) = after_chunked a (a.chunked content)

unfoldable pub download_file : Attempt → Option Bytes → Fetched
unfolding fetch_fresh try_resume_download
download_file a content = after_xet a (a.xet content)
