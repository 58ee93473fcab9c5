-- ===== src/Manager/Chosen.antt =====
-- The files that `resolveFiles` of internal/download/manager.go chooses.
use inference_budget_control.Prelude.{
  List, [], ◌∷◌, ◌++◌, String, ◌≡◌, refl, Bool, true, false, not, ◌&&◌, Option, keep, All,
  Bool-cases, inl, inr,
}
use inference_budget_control.Prelude.Results.{Result, ok, err, Result-cases}
use inference_budget_control.Manager.{DownloadSpec}
use inference_budget_control.Manager.Status.{DownloadError}
use inference_budget_control.Manager.Sizes.{In}
use inference_budget_control.Manager.Resolve.{
  holds, no_names, should_exclude, matches_any, add_once, choose_file, choose_files, resolve_files,
}

-- If there is a value, it has the property.
abbrev pub Fine : {V : Type 0} → (V → Type 0) → Result DownloadError V → Type 0
Fine P (err why) = Unit {0}
Fine P (ok v) = P v

module _ (matches : String → String → Option Bool) (parts : String → List String)
    (spec : DownloadSpec) (P : String → Type 0) where
  All-append : (xs ys : List String) → All P xs → All P ys → All P (xs ++ ys)
  All-append [] ys h k = k
  All-append (x ∷ xs) ys h k = (h.0, All-append xs ys h.1 k)

  add_once-All :
      (name : String) (chosen : List String)
      → P name
      → All P chosen
      → All P (add_once matches parts name chosen)
  add_once-All name chosen p h = elim (Bool-cases (holds name chosen)) [
    | inl e ↦ rw e h
    | inr e ↦ rw e (All-append chosen (name ∷ []) h (p, tt))
  ]

  choose_file-All :
      (chosen : List String) (name : String)
      → (should_exclude matches parts name spec.exclude ≡ false → P name)
      → All P chosen
      → Fine (All P) (choose_file matches parts spec chosen name)
  unfolding choose_file
  choose_file-All chosen name p h =
      elim (Bool-cases (should_exclude matches parts name spec.exclude)) [
        | inl e ↦ rw e h
        | inr e ↦ rw e (elim (Bool-cases (holds name spec.files)) [
          | inl e₁ ↦ rw e₁ (add_once-All name chosen (p e) h)
          | inr e₁ ↦ rw e₁ (elim (Result-cases (matches_any matches parts name spec.patterns)) [
            | inr (why, e₂) ↦ rw e₂ tt
            | inl (true, e₂) ↦ rw e₂ (add_once-All name chosen (p e) h)
            | inl (false, e₂) ↦ rw e₂ h
          ])
        ])
      ]

  -- What is kept of each name suffices.
  abbrev Enough : String → Type 0
  Enough name = should_exclude matches parts name spec.exclude ≡ false → P name

  choose_files-All :
      (names chosen : List String)
      → All Enough names
      → All P chosen
      → Fine (All P) (choose_files matches parts spec chosen names)
  unfolding choose_files
  choose_files-All [] chosen p h = h
  choose_files-All (name ∷ names) chosen p h =
      let one = choose_file-All chosen name p.0 h in
      elim (Result-cases (choose_file matches parts spec chosen name)) [
        | inr (why, e) ↦ rw e tt
        | inl (more, e) ↦ rw e (choose_files-All names more p.1 (rw e at one))
      ]

  keep-All :
      (names : List String)
      → All Enough names
      → All P (keep (λ name. not (should_exclude matches parts name spec.exclude)) names)
  keep-All [] p = tt
  keep-All (name ∷ names) p = elim (Bool-cases (should_exclude matches parts name spec.exclude)) [
    | inl e ↦ rw (e, All) (keep-All names p.1)
    | inr e ↦ rw (e, All) (p.0 e, keep-All names p.1)
  ]

  pub resolve_files-All :
      (all_files : List String)
      → All Enough all_files
      → Fine (All P) (resolve_files matches parts spec all_files)
  unfolding resolve_files
  resolve_files-All all_files p =
      let chosen = choose_files-All all_files [] p tt in
      elim (Result-cases (choose_files matches parts spec [] all_files)) [
        | inr (why, e) ↦ rw e tt
        | inl (more, e) ↦ rw e (elim (Bool-cases (no_names spec.files && no_names spec.patterns)) [
          | inr e₁ ↦ rw e₁ (rw e at chosen)
          | inl e₁ ↦ rw e₁ (
              All-append more
                (keep (λ name. not (should_exclude matches parts name spec.exclude)) all_files)
                (rw e at chosen) (keep-All all_files p))
        ])
      ]

module _ (matches : String → String → Option Bool) (parts : String → List String)
    (spec : DownloadSpec) where
  -- A file of the repository that no exclude pattern matches.
  abbrev pub IsListed : List String → String → Type 0
  IsListed all_files name =
      In name all_files × (should_exclude matches parts name spec.exclude ≡ false)

  All-IsListed :
      (names all_files : List String)
      → ((name : String) → In name names → In name all_files)
      → All (Enough matches parts spec (IsListed all_files)) names
  All-IsListed [] all_files within = tt
  All-IsListed (name ∷ names) all_files within = (
    (λ e. (within name (inl refl), e)),
    All-IsListed names all_files (λ other h. within other (inr h)),
  )

  -- Every file that resolveFiles chooses is one that the repository lists and that no exclude
  -- pattern matches.
  pub resolve_files-IsListed :
      (all_files : List String)
      → Fine (All (IsListed all_files)) (resolve_files matches parts spec all_files)
  resolve_files-IsListed all_files =
      resolve_files-All matches parts spec (IsListed all_files) all_files
        (All-IsListed all_files all_files (λ name h. h))
