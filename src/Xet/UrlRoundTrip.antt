-- ===== src/Xet/UrlRoundTrip.antt =====
-- internal/xet/file_id.go: parsing gives back the URL that was printed.
use inference_budget_control.Prelude.{
  ℕ, suc, [], ◌∷◌, ◌++◌, ◌==◌, ◌≡◌, ◌≢◌, refl, sym, arith, false, ◌||◌, some, none, if◌then◌else◌,
  All, Bool-cases, inl, inr,
}
use inference_budget_control.Prelude.Results.{ok}
use inference_budget_control.Prelude.Bytes.{same_bytes}
use inference_budget_control.Xet.{Bytes}
use inference_budget_control.Xet.Urls.{
  HuggingFaceUrl, slash, hf_scheme, short_host, resolve_kind, main_branch, master_branch,
  cut_prefix, trim_prefix, cut_slash, split, from_parts, parse_hf_protocol, without_host,
  parse_hugging_face_url, to_string,
}

abbrev pub NoSlash : Bytes → Type 0
NoSlash name = All (λ c. c ≢ slash) name

other_byte : (c d : ℕ) → c ≢ d → c == d ≡ false
other_byte c d h = ground arith

cut_slash-append :
    (name rest : Bytes) → NoSlash name → cut_slash (name ++ slash ∷ rest) ≡ some (name, rest)
unfolding cut_slash
cut_slash-append [] rest h = refl
cut_slash-append (c ∷ cs) rest h = rw (other_byte c slash h.0, cut_slash-append cs rest h.1) refl

split-append :
    (n : ℕ) (name rest : Bytes)
    → NoSlash name
    → split (suc n) (name ++ slash ∷ rest) ≡ name ∷ split n rest
unfolding split
split-append n name rest h = rw (split, cut_slash-append name rest h) refl

-- A whole segment is cut off only if it is the one looked for.
cut_prefix-segment :
    (prefix name rest : Bytes)
    → NoSlash prefix
    → NoSlash name
    → cut_prefix (prefix ++ slash ∷ []) (name ++ slash ∷ rest)
      ≡ (if same_bytes prefix name then some rest else none)
unfolding cut_prefix
cut_prefix-segment [] [] rest h k = refl
cut_prefix-segment [] (c ∷ cs) rest h k = rw (other_byte slash c (λ e. k.0 (sym e))) refl
cut_prefix-segment (p ∷ ps) [] rest h k = rw (other_byte p slash h.0) refl
cut_prefix-segment (p ∷ ps) (c ∷ cs) rest h k = elim (Bool-cases (p == c)) [
  | inl e ↦ rw (e, cut_prefix-segment ps cs rest h.1 k.1) refl
  | inr e ↦ rw e refl
]

short_host-NoSlash : NoSlash short_host
short_host-NoSlash = (omega arith, (omega arith, (omega arith, (omega arith, (omega arith, tt)))))

resolve_kind-NoSlash : NoSlash resolve_kind
resolve_kind-NoSlash = (
  omega arith,
  (omega arith, (omega arith, (omega arith, (omega arith, (omega arith, (omega arith, tt)))))),
)

-- A URL that can be told from its text.
abbrev pub IsPlain : HuggingFaceUrl → Type 0
IsPlain u =
    NoSlash u.namespace
    × NoSlash u.repo
    × NoSlash u.branch
    × (same_bytes short_host u.namespace ≡ false)

without_host-to_string :
    (u : HuggingFaceUrl)
    → IsPlain u
    → without_host (to_string u)
      ≡ u.namespace
        ++ slash ∷ (u.repo ++ slash ∷ (resolve_kind ++ slash ∷ (u.branch ++ slash ∷ u.file_path)))
unfolding without_host to_string trim_prefix
without_host-to_string u (n, r, b, other) =
    let rest = u.repo ++ slash ∷ (resolve_kind ++ slash ∷ (u.branch ++ slash ∷ u.file_path)) in
    rw (trim_prefix, cut_prefix-segment short_host u.namespace rest short_host-NoSlash n, other)
      refl

parse_parts :
    (u : HuggingFaceUrl) (url : Bytes)
    → IsPlain u
    → from_parts url (
        split 3 (
          u.namespace
          ++ slash
            ∷ (u.repo ++ slash ∷ (resolve_kind ++ slash ∷ (u.branch ++ slash ∷ u.file_path)))))
      ≡ ok u
unfolding split
parse_parts u url (n, r, b, other) =
    rw
      (
        split-append 2 u.namespace
            (u.repo ++ slash ∷ (resolve_kind ++ slash ∷ (u.branch ++ slash ∷ u.file_path))) n,
        split-append 1 u.repo (resolve_kind ++ slash ∷ (u.branch ++ slash ∷ u.file_path)) r,
      )
      (rw
        (
          split-append 0 resolve_kind (u.branch ++ slash ∷ u.file_path) resolve_kind-NoSlash,
          split-append 0 u.branch u.file_path b,
        )
        refl)

-- ParseHuggingFaceURL gives back the URL that String printed, where the namespace, the repository
-- and the branch have no slash and the namespace is not hf.co; the path is any text.
pub parse_hugging_face_url-to_string :
    (u : HuggingFaceUrl) → IsPlain u → parse_hugging_face_url (to_string u) ≡ ok u
unfolding parse_hugging_face_url to_string cut_prefix
parse_hugging_face_url-to_string u is = rw (without_host-to_string u is) (
    parse_parts u
      (u.namespace
        ++ slash ∷ (u.repo ++ slash ∷ (resolve_kind ++ slash ∷ (u.branch ++ slash ∷ u.file_path))))
      is)

-- The two readings of an hf:// URL.
abbrev pub hf_url : Bytes → Bytes → Bytes → Bytes → HuggingFaceUrl
hf_url namespace repo first path =
    if same_bytes first main_branch || same_bytes first master_branch
    then record { namespace = namespace; repo = repo; branch = first; file_path = path }
    else record {
      namespace = namespace;
      repo = repo;
      branch = main_branch;
      file_path = first ++ slash ∷ path;
    }

-- R
pub parse_hf_protocol-hf_url :
    (namespace repo first path : Bytes)
    → NoSlash namespace
    → NoSlash repo
    → NoSlash first
    → parse_hugging_face_url
        (hf_scheme ++ (namespace ++ slash ∷ (repo ++ slash ∷ (first ++ slash ∷ path))))
      ≡ ok (hf_url namespace repo first path)
unfolding parse_hugging_face_url cut_prefix parse_hf_protocol trim_prefix
parse_hf_protocol-hf_url namespace repo first path n r f =
    rw
      (
        split-append 1 namespace (repo ++ slash ∷ (first ++ slash ∷ path)) n,
        split-append 0 repo (first ++ slash ∷ path) r,
      )
      (rw (split, cut_slash-append first path f)
        (elim (Bool-cases (same_bytes first main_branch || same_bytes first master_branch)) [
          | inl e ↦ rw e refl
          | inr e ↦ rw e refl
        ]))
