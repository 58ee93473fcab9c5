-- ===== src/Xet/Urls.antt =====
-- internal/xet/file_id.go: the URLs of files on the HuggingFace Hub, which are texts of bytes.
use inference_budget_control.Prelude.{
  ℕ, zero, suc, List, [], ◌∷◌, ◌++◌, ◌==◌, ◌||◌, Option, some, none, if◌then◌else◌,
}
use inference_budget_control.Prelude.Results.{Result, ok, err}
use inference_budget_control.Prelude.Bytes.{same_bytes}
use inference_budget_control.Xet.{Bytes}

-- HuggingFaceURL
pub record HuggingFaceUrl : Type 0 where
  pub namespace : Bytes
  pub repo : Bytes
  pub branch : Bytes
  pub file_path : Bytes

-- With the text that the message holds.
pub data UrlError : Type 0 where
  invalid_url : Bytes → UrlError
  invalid_hf_url : Bytes → UrlError

abbrev pub slash : ℕ
slash = b'/'

abbrev pub hf_scheme : Bytes
hf_scheme = b'h' ∷ b'f' ∷ b':' ∷ b'/' ∷ b'/' ∷ []

abbrev pub https_scheme : Bytes
https_scheme = b'h' ∷ b't' ∷ b't' ∷ b'p' ∷ b's' ∷ b':' ∷ b'/' ∷ b'/' ∷ []

abbrev pub http_scheme : Bytes
http_scheme = b'h' ∷ b't' ∷ b't' ∷ b'p' ∷ b':' ∷ b'/' ∷ b'/' ∷ []

abbrev pub long_host : Bytes
long_host =
    b'h' ∷ b'u' ∷ b'g' ∷ b'g' ∷ b'i' ∷ b'n' ∷ b'g' ∷ b'f' ∷ b'a' ∷ b'c' ∷ b'e' ∷ b'.' ∷ b'c' ∷ b'o'
    ∷ []

abbrev pub short_host : Bytes
short_host = b'h' ∷ b'f' ∷ b'.' ∷ b'c' ∷ b'o' ∷ []

abbrev pub resolve_kind : Bytes
resolve_kind = b'r' ∷ b'e' ∷ b's' ∷ b'o' ∷ b'l' ∷ b'v' ∷ b'e' ∷ []

abbrev pub blob_kind : Bytes
blob_kind = b'b' ∷ b'l' ∷ b'o' ∷ b'b' ∷ []

abbrev pub main_branch : Bytes
main_branch = b'm' ∷ b'a' ∷ b'i' ∷ b'n' ∷ []

abbrev pub master_branch : Bytes
master_branch = b'm' ∷ b'a' ∷ b's' ∷ b't' ∷ b'e' ∷ b'r' ∷ []

-- What stands behind a prefix, if the text has it.
unfoldable pub cut_prefix : Bytes → Bytes → Option Bytes
cut_prefix [] text = some text
cut_prefix (p ∷ ps) [] = none
cut_prefix (p ∷ ps) (c ∷ cs) = let rest = cut_prefix ps cs in if p == c then rest else none

-- strings.TrimPrefix
unfoldable pub trim_prefix : Bytes → Bytes → Bytes
unfolding cut_prefix
trim_prefix prefix text = elim (cut_prefix prefix text) [ none ↦ text | some rest ↦ rest ]

abbrev pub prepend : ℕ → Option (Bytes × Bytes) → Option (Bytes × Bytes)
prepend c none = none
prepend c (some (before, after)) = some (c ∷ before, after)

-- What stands before and behind the first slash.
unfoldable pub cut_slash : Bytes → Option (Bytes × Bytes)
cut_slash [] = none
cut_slash (c ∷ cs) =
    let later = prepend c (cut_slash cs) in if c == slash then some ([], cs) else later

-- strings.SplitN(text, "/", n + 1)
unfoldable pub split : ℕ → Bytes → List Bytes
split zero text = text ∷ []
split (suc n) text =
    let rest = split n in
    elim (cut_slash text) [ none ↦ text ∷ [] | some (before, after) ↦ before ∷ rest after ]

-- The branch and the path behind `resolve` or `blob`.
abbrev pub branch_and_path : Bytes → Bytes → List Bytes → HuggingFaceUrl
branch_and_path namespace repo [] = record {
  namespace = namespace;
  repo = repo;
  branch = [];
  file_path = [];
}
branch_and_path namespace repo (branch ∷ []) = record {
  namespace = namespace;
  repo = repo;
  branch = branch;
  file_path = [];
}
branch_and_path namespace repo (branch ∷ path ∷ more) = record {
  namespace = namespace;
  repo = repo;
  branch = branch;
  file_path = path;
}

abbrev pub from_parts : Bytes → List Bytes → Result UrlError HuggingFaceUrl
from_parts url (namespace ∷ repo ∷ kind ∷ rest ∷ more) =
    if same_bytes kind resolve_kind || same_bytes kind blob_kind
    then ok (branch_and_path namespace repo (split 1 rest))
    else ok (record { namespace = namespace; repo = repo; branch = kind; file_path = rest })
from_parts url parts = err (invalid_url url)

-- The branch and the path of an hf:// URL, from what stands behind the repository.
abbrev pub hf_path : Bytes → Bytes → Bytes → List Bytes → HuggingFaceUrl
hf_path namespace repo remaining (first ∷ path ∷ more) =
    if same_bytes first main_branch || same_bytes first master_branch
    then record { namespace = namespace; repo = repo; branch = first; file_path = path }
    else record { namespace = namespace; repo = repo; branch = main_branch; file_path = remaining }
hf_path namespace repo remaining parts = record {
  namespace = namespace;
  repo = repo;
  branch = main_branch;
  file_path = remaining;
}

abbrev pub from_hf_parts : Bytes → List Bytes → Result UrlError HuggingFaceUrl
from_hf_parts url (namespace ∷ repo ∷ []) =
    ok (record { namespace = namespace; repo = repo; branch = main_branch; file_path = [] })
from_hf_parts url (namespace ∷ repo ∷ remaining ∷ more) =
    ok (hf_path namespace repo remaining (split 1 remaining))
from_hf_parts url parts = err (invalid_hf_url url)

unfoldable pub parse_hf_protocol : Bytes → Result UrlError HuggingFaceUrl
unfolding split trim_prefix
parse_hf_protocol url = let rest = trim_prefix hf_scheme url in from_hf_parts rest (split 2 rest)

-- The URL without its scheme and host.
unfoldable pub without_host : Bytes → Bytes
unfolding trim_prefix
without_host url =
    trim_prefix (short_host ++ slash ∷ []) (
      trim_prefix (long_host ++ slash ∷ [])
        (trim_prefix http_scheme (trim_prefix https_scheme url)))

unfoldable pub parse_hugging_face_url : Bytes → Result UrlError HuggingFaceUrl
unfolding parse_hf_protocol without_host cut_prefix split
parse_hugging_face_url url =
    let rest = without_host url in
    elim (cut_prefix hf_scheme url) [
      | some after ↦ parse_hf_protocol url
      | none ↦ from_parts rest (split 3 rest)
    ]

-- String
unfoldable pub to_string : HuggingFaceUrl → Bytes
to_string u =
    https_scheme
    ++ (long_host
        ++ slash
          ∷ (u.namespace
              ++ slash
                ∷ (u.repo ++ slash ∷ (resolve_kind ++ slash ∷ (u.branch ++ slash ∷ u.file_path)))))

-- RepositoryID
unfoldable pub repository_id : HuggingFaceUrl → Bytes
repository_id u = u.namespace ++ slash ∷ u.repo
