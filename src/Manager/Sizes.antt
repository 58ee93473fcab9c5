-- ===== src/Manager/Sizes.antt =====
-- The sizes that `performDownload` of internal/download/manager.go collects are those of the files.
use inference_budget_control.Prelude.{
  ℕ, suc, List, [], ◌∷◌, String, str_eq, eq_iff, ◌≡◌, refl, sym, ◌∙◌, subst, Bool, true, false,
  none, some, length, if◌then◌else◌, All, Bool-cases, ◌⊎◌, inl, inr,
}
use mathlib.Core.Option.{some-injective}
use inference_budget_control.Prelude.Dict.{
  Dict, lookup, insert, lookup-insert, lookup-insert_from, Distinct, insert-Distinct,
}
use inference_budget_control.Prelude.Results.{ok, err, ◌>>=◌}
use inference_budget_control.Manager.{Bytes, Store, failed}
use inference_budget_control.Manager.Status.{DownloadError, Status, set_error}
use inference_budget_control.Manager.Fetch.{Fetched, download_file}
use inference_budget_control.Manager.Sized.{Sized, IsHonest, download_file-Sized}
use inference_budget_control.Manager.Perform.{
  Surroundings, Progress, PerformStep, init_files, after_file, perform_file, perform_files,
}

-- A step that gives up leaves the status as failed; otherwise its value has the property.
abbrev pub Ends : {V : Type 0} → (V → Type 0) → PerformStep V → Type 0
Ends P (err (store, status)) = status.phase ≡ failed
Ends P (ok v) = P v

pub >>=-Ends :
    {V W : Type 0} (P : V → Type 0) (Q : W → Type 0) (step : PerformStep V)
    (next : V → PerformStep W)
    → Ends P step
    → ((v : V) → P v → Ends Q (next v))
    → Ends Q (step >>= next)
>>=-Ends P Q (err left) next h k = h
>>=-Ends P Q (ok v) next h k = k v h

pub Ends-mono :
    {V : Type 0} (P Q : V → Type 0) (step : PerformStep V)
    → ((v : V) → P v → Q v)
    → Ends P step
    → Ends Q step
Ends-mono P Q (err left) more h = h
Ends-mono P Q (ok v) more h = more v h

pub if-Ends :
    {V : Type 0} (P : V → Type 0) (b : Bool) (kept left : PerformStep V)
    → Ends P kept
    → Ends P left
    → Ends P (if b then kept else left)
if-Ends P true kept left h k = h
if-Ends P false kept left h k = k

pub set_error_fails :
    (why : DownloadError) (status : Status) → (set_error why status).phase ≡ failed
unfolding set_error
set_error_fails why status = refl

abbrev pub In : String → List String → Type 0
In path [] = ⊥
In path (x ∷ xs) = (path ≡ x) ⊎ In path xs

-- Every size is that of its file, but for the paths that are still to come.
abbrev pub Known : Dict ℕ → Store → List String → Type 0
Known sizes store rest =
    (path : String) (size : ℕ)
    → lookup path sizes ≡ some size
    → ((bytes : Bytes) × (lookup path store ≡ some bytes) × (size ≡ length bytes)) ⊎ In path rest

module _ {V : Type 0} (P : String → Type 0) where
  abbrev pub AllKeys : Dict V → Type 0
  AllKeys m = All (λ (e : String × V). P e.0) m

  pub insert-AllKeys :
      (key : String) (v : V) (m : Dict V) → P key → AllKeys m → AllKeys (insert key v m)
  unfolding insert
  insert-AllKeys key v [] p h = (p, tt)
  insert-AllKeys key v ((own, old) ∷ rest) p h = elim (Bool-cases (str_eq own key)) [
    | inl e ↦ rw (e, All) (p, h.1)
    | inr e ↦ rw (e, All) (h.0, insert-AllKeys key v rest p h.1)
  ]

found_inserted :
    {V : Type 0} (key own : String) (v w : V) (m : Dict V) (t : Bool)
    → str_eq key own ≡ t
    → lookup own (insert key v m) ≡ some w
    → (if t then some v else lookup own m) ≡ some w
found_inserted key own v w m t e h = rw (← e, ← lookup-insert key own v m) h

true_ne_false : true ≡ false → ⊥
true_ne_false h = cc

insert-Known :
    (path : String) (bytes : Bytes) (size : ℕ) (sizes : Dict ℕ) (store : Store) (rest : List String)
    → size ≡ length bytes
    → Known sizes store (path ∷ rest)
    → Known (insert path size sizes) (insert path bytes store) rest
insert-Known path bytes size sizes store rest same known own n found =
    elim (Bool-cases (str_eq path own)) [
      | inl t ↦
          let here : size ≡ n =
            some-injective size n (found_inserted path own size n sizes true t found) in
          inl (bytes, rw (lookup-insert path own bytes store, t) refl, sym here ∙ same)
      | inr t ↦ elim (known own n (found_inserted path own size n sizes false t found)) [
        | inl (b, at, e) ↦ inl (b, rw (lookup-insert path own bytes store, t) at, e)
        | inr (inl e) ↦ absurd (true_ne_false (sym ((eq_iff path own).1 (sym e)) ∙ t))
        | inr (inr later) ↦ inr later
      ]
    ]

module _ (P : String → Type 0) where
  abbrev pub Inv : List String → Progress → Type 0
  Inv rest p = Distinct p.file_sizes × AllKeys P p.file_sizes × Known p.file_sizes p.store rest

  after_file-Inv :
      (path : String) (rest : List String) (remaining : ℕ) (p : Progress) (f : Fetched)
      → Sized f
      → P path
      → Inv (path ∷ rest) p
      → Ends (Inv rest) (after_file path remaining p f)
  after_file-Inv path rest remaining p (content, err why) sized ok_path inv =
      set_error_fails _ p.status
  after_file-Inv path rest remaining p (none, ok size) sized ok_path inv = absurd sized
  after_file-Inv path rest remaining p (some bytes, ok size) sized ok_path (d, k, known) = (
    insert-Distinct path size p.file_sizes d,
    insert-AllKeys P path size p.file_sizes ok_path k,
    insert-Known path bytes size p.file_sizes p.store rest sized known,
  )

  module _ (env : Surroundings) (honest : (i : ℕ) → IsHonest (env.attempts i)) where
    perform_file-Inv :
        (i remaining : ℕ) (path : String) (rest : List String) (p : Progress)
        → P path
        → Inv (path ∷ rest) p
        → Ends (Inv rest) (perform_file env i remaining path p)
    unfolding perform_file
    perform_file-Inv i remaining path rest p ok_path inv = elim (Bool-cases (env.during i)) [
      | inl e ↦ rw e (set_error_fails _ p.status)
      | inr e ↦ rw e (elim (Bool-cases (env.makes_file_directory i)) [
        | inr e₁ ↦ rw e₁ (set_error_fails _ _)
        | inl e₁ ↦ rw e₁ (
            after_file-Inv path rest remaining _
              (download_file (env.attempts i) (lookup path p.store))
              (download_file-Sized (env.attempts i) (lookup path p.store) (honest i)) ok_path inv)
      ])
    ]

    pub perform_files-Inv :
        (i : ℕ) (paths : List String) (p : Progress)
        → All P paths
        → Inv paths p
        → Ends (Inv []) (perform_files env i paths p)
    unfolding perform_files
    perform_files-Inv i [] p all inv = inv
    perform_files-Inv i (path ∷ paths) p all inv =
        >>=-Ends (Inv paths) (Inv []) (perform_file env i (length paths) path p)
          (λ p'. perform_files env (suc i) paths p')
          (perform_file-Inv i (length paths) path paths p all.0 inv)
          (λ p' inv'. perform_files-Inv (suc i) paths p' all.1 inv')

-- All keys are among the paths.
abbrev pub KeysIn : Dict ℕ → List String → Type 0
KeysIn sizes all = (path : String) (size : ℕ) → lookup path sizes ≡ some size → In path all

pub init_files-Inv :
    (P : String → Type 0) (files all : List String) (p : Progress)
    → All P files
    → ((file : String) → In file files → In file all)
    → Distinct p.file_sizes
    → AllKeys P p.file_sizes
    → KeysIn p.file_sizes all
    → Inv P all (init_files files p)
unfolding init_files
init_files-Inv P [] all p ok_files within d keys known =
    (d, keys, λ path size found. inr (known path size found))
init_files-Inv P (file ∷ files) all p ok_files within d keys known =
    init_files-Inv P files all _ ok_files.1 (λ f h. within f (inr h))
      (insert-Distinct file 0 p.file_sizes d) (insert-AllKeys P file 0 p.file_sizes ok_files.0 keys)
      (λ path size found. elim (lookup-insert_from file path 0 p.file_sizes found) [
        | inl (same, none_yet) ↦ subst (λ k. In k all) same (within file (inl refl))
        | inr before ↦ known path size before
      ])
