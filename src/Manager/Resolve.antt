-- ===== src/Manager/Resolve.antt =====
-- internal/download/manager.go: `resolveFiles` and `shouldExclude`. `matches` is filepath.Match, with
-- none for a malformed pattern, and `parts` is strings.Split at slashes.
use inference_budget_control.Prelude.{
  List, [], ◌∷◌, ◌++◌, String, str_eq, Bool, true, false, not, ◌&&◌, ◌||◌, Option, none, some,
  if◌then◌else◌, keep,
}
use inference_budget_control.Prelude.Results.{Result, ok, err, ◌>>=◌}
use inference_budget_control.Manager.{DownloadSpec}
use inference_budget_control.Manager.Status.{DownloadError, bad_pattern}

-- Whether a list holds a text.
unfoldable pub holds : String → List String → Bool
holds name [] = false
holds name (x ∷ xs) = str_eq name x || holds name xs

abbrev pub no_names : List String → Bool
no_names [] = true
no_names (x ∷ xs) = false

module _ (matches : String → String → Option Bool) (parts : String → List String) where
  -- err == nil && matched
  abbrev pub is_match : Option Bool → Bool
  is_match none = false
  is_match (some b) = b

  unfoldable pub any_part : String → List String → Bool
  any_part pattern [] = false
  any_part pattern (p ∷ ps) = is_match (matches pattern p) || any_part pattern ps

  unfoldable pub should_exclude : String → List String → Bool
  unfolding any_part
  should_exclude path [] = false
  should_exclude path (pattern ∷ patterns) =
      is_match (matches pattern path)
      || any_part pattern (parts path)
      || should_exclude path patterns

  -- The loop over the patterns, up to the first that matches.
  unfoldable pub matches_any : String → List String → Result DownloadError Bool
  matches_any path [] = ok false
  matches_any path (pattern ∷ patterns) =
      let rest = matches_any path patterns in
      elim (matches pattern path) [
        | none ↦ err (bad_pattern pattern)
        | some matched ↦ if matched then ok true else rest
      ]

  -- if !seen[file.Name] { append; seen[file.Name] = true }: `seen` holds what `chosen` does.
  abbrev pub add_once : String → List String → List String
  add_once name chosen = if holds name chosen then chosen else chosen ++ name ∷ []

  -- One turn of the loop over the repository's files.
  unfoldable pub choose_file :
      DownloadSpec → List String → String → Result DownloadError (List String)
  unfolding should_exclude matches_any holds
  choose_file spec chosen name =
      let by_pattern = do
        matched ← matches_any name spec.patterns
        ok (if matched then add_once name chosen else chosen)
      in if should_exclude name spec.exclude
        then ok chosen
        else if holds name spec.files
        then ok (add_once name chosen)
        else by_pattern

  unfoldable pub choose_files :
      DownloadSpec → List String → List String → Result DownloadError (List String)
  unfolding choose_file
  choose_files spec chosen [] = ok chosen
  choose_files spec chosen (name ∷ names) = do
    chosen' ← choose_file spec chosen name
    choose_files spec chosen' names

  unfoldable pub resolve_files : DownloadSpec → List String → Result DownloadError (List String)
  unfolding choose_files should_exclude
  resolve_files spec all_files = do
    chosen ← choose_files spec [] all_files
    ok (
        if no_names spec.files && no_names spec.patterns
        then chosen ++ keep (λ name. not (should_exclude name spec.exclude)) all_files
        else chosen)
