-- ===== src/Prelude/Dict.antt =====
-- Go's `map[string]V` as an association list. The order of the list stands for one order of
-- iteration; Go leaves that order open, and the theorems about loops hold for every list.
use inference_budget_control.Prelude.{
  String, str_eq, eq_iff, ◌≡◌, refl, sym, ◌∙◌, Option, none, some, List, [], ◌∷◌, arith,
  if◌then◌else◌, Bool, true, false, Bool-cases, ◌⊎◌, inl, inr,
}
use mathlib.Core.Option.{some-injective}

abbrev pub Dict {ℓ} : Type ℓ → Type ℓ
Dict V = List (String × V)

module _ {ℓ} {V : Type ℓ} where
  -- v, ok := m[key]
  unfoldable pub lookup : String → Dict V → Option V
  lookup key [] = none
  lookup key ((own, new) ∷ rest) = if str_eq own key then some new else lookup key rest

  -- m[key] = new
  unfoldable pub insert : String → V → Dict V → Dict V
  insert key new [] = (key, new) ∷ []
  insert key new ((own, old) ∷ rest) =
      if str_eq own key then (key, new) ∷ rest else (own, old) ∷ insert key new rest

  -- delete(m, key)
  unfoldable pub delete : String → Dict V → Dict V
  delete key [] = []
  delete key ((own, old) ∷ rest) =
      let less = delete key rest in if str_eq own key then less else (own, old) ∷ less

  -- if v, ok := m[key]; ok { m[key] = f(v) }, for a map of pointers whose target is changed.
  unfoldable pub modify : String → (V → V) → Dict V → Dict V
  modify key f [] = []
  modify key f ((own, old) ∷ rest) =
      if str_eq own key then (own, f old) ∷ rest else (own, old) ∷ modify key f rest

  pub lookup-insert :
      (key own : String) (new : V) (rest : Dict V)
      → lookup own (insert key new rest) ≡ (if str_eq key own then some new else lookup own rest)
  unfolding lookup insert
  lookup-insert key own new [] = refl
  lookup-insert key own new ((at, old) ∷ rest) =
      ground (arith, eq_iff key own, eq_iff at key, eq_iff at own, lookup-insert key own new rest)

  pub lookup-delete :
      (k j : String) (m : Dict V)
      → lookup j (delete k m) ≡ (if str_eq k j then none else lookup j m)
  unfolding lookup delete
  lookup-delete k j [] = ground arith
  lookup-delete k j ((i, w) ∷ m) =
      ground (arith, eq_iff k j, eq_iff i k, eq_iff i j, lookup-delete k j m)

  abbrev pub map_some : (V → V) → Option V → Option V
  map_some f none = none
  map_some f (some v) = some (f v)

  pub lookup-modify :
      (k j : String) (f : V → V) (m : Dict V)
      → lookup j (modify k f m) ≡ (if str_eq k j then map_some f (lookup j m) else lookup j m)
  unfolding lookup modify
  lookup-modify k j f [] = ground arith
  lookup-modify k j f ((i, w) ∷ m) =
      ground (arith, eq_iff k j, eq_iff i k, eq_iff i j, lookup-modify k j f m)

  -- A map holds each key once.
  abbrev pub Distinct : Dict V → Type ℓ
  Distinct [] = Unit
  Distinct ((k, v) ∷ m) = (lookup k m ≡ none) × Distinct m

  pub insert-Distinct : (k : String) (v : V) (m : Dict V) → Distinct m → Distinct (insert k v m)
  unfolding insert lookup
  insert-Distinct k v [] d = (refl, tt)
  insert-Distinct k v ((j, w) ∷ m) d =
      ground
        (arith, eq_iff j k, eq_iff k j, insert-Distinct k v m d.1, lookup-insert k j v m, d.0, d.1)

  pub delete-Distinct : (k : String) (m : Dict V) → Distinct m → Distinct (delete k m)
  unfolding delete lookup
  delete-Distinct k [] d = tt
  delete-Distinct k ((j, w) ∷ m) d =
      ground (arith, eq_iff j k, eq_iff k j, delete-Distinct k m d.1, lookup-delete k j m, d.0, d.1)

  pub modify-Distinct : (k : String) (f : V → V) (m : Dict V) → Distinct m → Distinct (modify k f m)
  unfolding modify lookup
  modify-Distinct k f [] d = tt
  modify-Distinct k f ((j, w) ∷ m) d =
      ground
        (arith, eq_iff j k, eq_iff k j, modify-Distinct k f m d.1, lookup-modify k j f m, d.0, d.1)

  -- Deleting a key that is absent changes nothing.
  pub delete_absent : (k : String) (m : Dict V) → lookup k m ≡ none → delete k m ≡ m
  unfolding delete lookup
  delete_absent k [] h = refl
  delete_absent k ((j, w) ∷ m) h = ground (arith, eq_iff j k, delete_absent k m)

  modified_from :
      (f : V → V) (t : Bool) (o : Option V) {b : V}
      → (if t then map_some f o else o) ≡ some b
      → (c : V) × (o ≡ some c) × (b ≡ (if t then f c else c))
  modified_from f true none h = cc
  modified_from f false none h = cc
  modified_from f true (some c) {b} h = (c, refl, sym (some-injective (f c) b h))
  modified_from f false (some c) {b} h = (c, refl, sym (some-injective c b h))

  -- Where a value found after `modify` comes from.
  pub lookup-modify_from :
      (k j : String) (f : V → V) (m : Dict V) {b : V}
      → lookup j (modify k f m) ≡ some b
      → (c : V) × (lookup j m ≡ some c) × (b ≡ (if str_eq k j then f c else c))
  lookup-modify_from k j f m h =
      modified_from f (str_eq k j) (lookup j m) (sym (lookup-modify k j f m) ∙ h)

  -- Where a value found after `insert` comes from.
  pub lookup-insert_from :
      (k j : String) (v : V) (m : Dict V) {b : V}
      → lookup j (insert k v m) ≡ some b
      → ((k ≡ j) × (b ≡ v)) ⊎ (lookup j m ≡ some b)
  lookup-insert_from k j v m {b} h =
      let h' = sym (lookup-insert k j v m) ∙ h in
      elim (Bool-cases (str_eq k j)) [
        | inl t ↦ inl ((eq_iff k j).0 t, sym (some-injective v b (rw t at h')))
        | inr t ↦ inr (rw t at h')
      ]
