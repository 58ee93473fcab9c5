-- ===== src/Prelude/Results.antt =====
-- Go's `(value, error)`: a value, or an error of the type `E`.
use mathlib.Core.Logic.{◌≢◌, ◌⊎◌, inl, inr}
use mathlib.Core.Path.{◌≡◌, refl, subst}

pub data Result {ℓ} (E : Type 0) (V : Type ℓ) : Type ℓ where
  err : E → Result E V
  ok : V → Result E V

module _ {ℓ} {E : Type 0} {V : Type ℓ} where
  pub ok-injective : (v w : V) → ◌≡◌ {A = Result E V} (ok v) (ok w) → v ≡ w
  ok-injective v w same = cc

  pub ok-ne-err : (v : V) (why : E) → ok v ≡ err why → ⊥
  ok-ne-err v why same = cc

  -- What holds of the value of a result that is known holds of the value that it equals.
  pub carry {κ} : (P : V → Type κ) (v : V) {w : V} → P v → ◌≡◌ {A = Result E V} (ok v) (ok w) → P w
  carry P v {w} holds same = subst P (ok-injective v w same) holds

  pub Result-cases : (r : Result E V) → ((v : V) × (r ≡ ok v)) ⊎ ((why : E) × (r ≡ err why))
  Result-cases (err why) = inr (why, refl)
  Result-cases (ok v) = inl (v, refl)

-- `if err != nil { return err }` after a step.
infixl 5 ◌>>=◌
abbrev pub ◌>>=◌ {ℓ κ} :
    {E : Type 0} {V : Type ℓ} {W : Type κ} → Result E V → (V → Result E W) → Result E W
err why >>= next = err why
ok v >>= next = next v

module _ {ℓ κ} {E : Type 0} {V : Type ℓ} {W : Type κ} (step : Result E V)
    (next : V → Result E W) where
  -- A chain that succeeds has a first step that does.
  pub >>=-eq-ok : {w : W} → (step >>= next) ≡ ok w → (v : V) × (step ≡ ok v) × (next v ≡ ok w)
  >>=-eq-ok {w} whole = elim (Result-cases step) [
    | inl (v, first) ↦ (v, first, rw first at whole)
    | inr (why, first) ↦ absurd (ok-ne-err w why (cc (rw first at whole)))
  ]

  pub >>=-ne-err :
      (why : E)
      → step ≢ err why
      → ((v : V) → step ≡ ok v → next v ≢ err why)
      → (step >>= next) ≢ err why
  >>=-ne-err why first later = elim (Result-cases step) [
    | inl (v, e) ↦ rw e (later v e)
    | inr (other, e) ↦ rw e (λ h. first (cc))
  ]
