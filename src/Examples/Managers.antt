-- ===== src/Examples/Managers.antt =====
-- A download of one file that is there in part, for the manager of internal/download.
use inference_budget_control.Prelude.{
  [], ◌∷◌, List, String, ◌≡◌, ◌⊎◌, refl, arith, subst, Bool, true, false, Option, none, some, All,
}
use mathlib.Core.Option.{some-injective}
use inference_budget_control.Prelude.Results.{ok}
use inference_budget_control.Manager.{Bytes, Store, DownloadSpec, failed}
use inference_budget_control.Manager.Status.{new_status}
use inference_budget_control.Manager.Fetch.{Attempt, try_resume_download}
use inference_budget_control.Manager.Perform.{Surroundings, perform_download}
use inference_budget_control.Manager.Kept.{Free}
use inference_budget_control.Manager.Completed.{IsVerified, perform_download-IsVerified}
use inference_budget_control.Manager.Resumed.{
  serves, serves_whole, try_resume_download-completes, try_resume_download-doubles,
}
use inference_budget_control.Manager.Chosen.{Fine, IsListed, resolve_files-IsListed}
use inference_budget_control.Manager.Resolve.{resolve_files}
use inference_budget_control.Examples.Codec.{encode, decode, decode-encode}

-- The two other downloaders fail, and the server answers range requests.
abbrev attempt : Attempt
attempt = record {
  xet = λ content. (content, false);
  chunked = λ content. (content, none);
  serve = serves (1 ∷ 2 ∷ 3 ∷ []);
  serve_fresh = serves_whole (1 ∷ 2 ∷ 3 ∷ []);
  stat_fails = false;
  open_fails = false;
  create_fails = false;
  sync_fails = false;
}

-- The same with a server that ignores ranges.
abbrev whole_attempt : Attempt
whole_attempt = record {
  xet = λ content. (content, false);
  chunked = λ content. (content, none);
  serve = λ offset. serves_whole (1 ∷ 2 ∷ 3 ∷ []);
  serve_fresh = serves_whole (1 ∷ 2 ∷ 3 ∷ []);
  stat_fails = false;
  open_fails = false;
  create_fails = false;
  sync_fails = false;
}

abbrev outside : Surroundings
outside = record {
  cancelled_waiting = false;
  makes_directory = true;
  opens_repository = true;
  listing = some ("w" ∷ []);
  during = λ i. false;
  makes_file_directory = λ i. true;
  attempts = λ i. attempt;
  metadata = some (("w", "h") ∷ []);
  writes_manifest = true;
}

abbrev partial_store : Store
partial_store = ("w", 1 ∷ 2 ∷ []) ∷ []

abbrev spec : DownloadSpec
spec = record { files = "w" ∷ []; patterns = []; exclude = [] }

abbrev matches : String → String → Option Bool
matches pattern name = some false

abbrev parts : String → List String
parts name = name ∷ []

abbrev sha256 : Bytes → String
sha256 bytes = "h"

abbrev is_gguf : String → Bool
is_gguf name = false

w-Free : Free "w"
w-Free h = cc

listing-Free : (names : List String) → outside.listing ≡ some names → All Free names
listing-Free names e = subst (λ n. All Free n) (some-injective ("w" ∷ []) names e) (w-Free, tt)

perform_download-IsVerified_example :
    ((perform_download encode decode sha256 matches parts spec outside partial_store
        new_status).1.phase
      ≡ failed)
    ⊎ IsVerified encode decode sha256 is_gguf
        (perform_download encode decode sha256 matches parts spec outside partial_store new_status)
perform_download-IsVerified_example =
    perform_download-IsVerified encode decode sha256 is_gguf decode-encode matches parts spec
      outside partial_store new_status (λ i content. tt) listing-Free

try_resume_download-completes_example :
    try_resume_download attempt (some (1 ∷ 2 ∷ [])) ≡ (some (1 ∷ 2 ∷ 3 ∷ []), ok 3)
try_resume_download-completes_example =
    try_resume_download-completes attempt (1 ∷ 2 ∷ []) (3 ∷ []) refl refl refl (omega arith) refl

try_resume_download-doubles_example :
    try_resume_download whole_attempt (some (1 ∷ 2 ∷ [])) ≡ (some (1 ∷ 2 ∷ 1 ∷ 2 ∷ 3 ∷ []), ok 5)
try_resume_download-doubles_example =
    try_resume_download-doubles whole_attempt (1 ∷ 2 ∷ []) (3 ∷ []) refl refl refl (omega arith)
      refl

resolve_files-IsListed_example :
    Fine
      (All (IsListed matches parts spec ("w" ∷ "v" ∷ [])))
      (resolve_files matches parts spec ("w" ∷ "v" ∷ []))
resolve_files-IsListed_example = resolve_files-IsListed matches parts spec ("w" ∷ "v" ∷ [])
