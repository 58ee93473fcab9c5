-- ===== src/Prelude/Sums.antt =====
-- Sums of an integer weight over the values of a map, and predicates that all its values satisfy.
use inference_budget_control.Prelude.{
  String, str_eq, eq_iff, ◌≡◌, Option, none, some, [], ◌∷◌, All, Bool-cases, inl, inr, subst,
}
use mathlib.Core.Option.{some-injective}
use inference_budget_control.Prelude.Int.{ℤ, pos, ◌+ℤ◌, int_laws, parts_of_eq}
use inference_budget_control.Prelude.Dict.{Dict, lookup, insert, delete, Distinct, delete_absent}

module _ {ℓ} {V : Type ℓ} where
  unfoldable pub sum_by : (V → ℤ) → Dict V → ℤ
  sum_by w [] = pos 0
  sum_by w ((k, v) ∷ m) = w v +ℤ sum_by w m

  -- What the value under a key, if there is one, adds to a sum.
  abbrev pub weight_of : (V → ℤ) → Option V → ℤ
  weight_of w none = pos 0
  weight_of w (some v) = w v

  pub sum_by-insert :
      (w : V → ℤ) (k : String) (v : V) (m : Dict V)
      → sum_by w (insert k v m) +ℤ weight_of w (lookup k m) ≡ sum_by w m +ℤ w v
  unfolding sum_by insert lookup
  sum_by-insert w k v [] = omega int_laws
  sum_by-insert w k v ((j, x) ∷ m) = elim (Bool-cases (str_eq j k)) [
    | inl e ↦ rw e (omega int_laws)
    | inr e ↦ rw e (omega (int_laws, parts_of_eq (sum_by-insert w k v m)))
  ]

  pub sum_by-delete :
      (w : V → ℤ) (k : String) (m : Dict V)
      → Distinct m
      → sum_by w (delete k m) +ℤ weight_of w (lookup k m) ≡ sum_by w m
  unfolding sum_by delete lookup
  sum_by-delete w k [] d = omega int_laws
  sum_by-delete w k ((j, x) ∷ m) d = elim (Bool-cases (str_eq j k)) [
    | inl e ↦ rw (e, delete_absent k m (rw ((eq_iff j k).0 e) at (d.0))) (omega int_laws)
    | inr e ↦ rw e (omega (int_laws, parts_of_eq (sum_by-delete w k m d.1)))
  ]

  -- A predicate on every value of a map.
  abbrev pub AllValues {κ} : (V → Type κ) → Dict V → Type κ
  AllValues P m = All (λ e. P e.1) m

module _ {ℓ κ} {V : Type ℓ} (P : V → Type κ) where
  pub insert-AllValues :
      (k : String) (v : V) (m : Dict V) → P v → AllValues P m → AllValues P (insert k v m)
  unfolding insert
  insert-AllValues k v [] p h = (p, tt)
  insert-AllValues k v ((j, x) ∷ m) p h = elim (Bool-cases (str_eq j k)) [
    | inl e ↦ rw (e, All) (p, h.1)
    | inr e ↦ rw (e, All) (h.0, insert-AllValues k v m p h.1)
  ]

  pub delete-AllValues : (k : String) (m : Dict V) → AllValues P m → AllValues P (delete k m)
  unfolding delete
  delete-AllValues k [] h = tt
  delete-AllValues k ((j, x) ∷ m) h = elim (Bool-cases (str_eq j k)) [
    | inl e ↦ rw (e, All) (delete-AllValues k m h.1)
    | inr e ↦ rw (e, All) (h.0, delete-AllValues k m h.1)
  ]

  pub lookup-AllValues :
      (k : String) (m : Dict V) {v : V} → AllValues P m → lookup k m ≡ some v → P v
  unfolding lookup
  lookup-AllValues k [] h e = cc
  lookup-AllValues k ((j, x) ∷ m) {v} h e = elim (Bool-cases (str_eq j k)) [
    | inl t ↦ subst P (some-injective x v (rw t at e)) h.0
    | inr t ↦ lookup-AllValues k m h.1 (rw t at e)
  ]
