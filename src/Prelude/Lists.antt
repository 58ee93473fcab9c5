-- ===== src/Prelude/Lists.antt =====
-- Lists measured by native numbers, Boolean filters, and predicates over lists.
use Prim.Native.Nat.{ℕ, zero, suc, ◌+◌, ◌%◌}
use mathlib.Core.Path.{◌≡◌}
use mathlib.Core.Bool.{Bool, true}
use mathlib.Core.List.{List, [], ◌∷◌, ◌++◌}
use mathlib.Core.Option.{Option, none, some}
use mathlib.Core.Logic.{inl, inr}
use native.Mathlib.Omega.{arith}
use inference_budget_control.Prelude.Tests.{Bool-cases, if◌then◌else◌}

module _ {ℓ} {A : Type ℓ} where
  abbrev pub length : List A → ℕ
  length [] = 0
  length (x ∷ xs) = suc (length xs)

  abbrev pub get_elem? : List A → ℕ → Option A
  get_elem? [] i = none
  get_elem? (x ∷ xs) zero = some x
  get_elem? (x ∷ xs) (suc i) = get_elem? xs i

  pub length-append : (xs ys : List A) → length (xs ++ ys) ≡ length xs + length ys
  length-append [] ys = omega arith
  length-append (x ∷ xs) ys = omega (arith, length-append xs ys)

  abbrev pub All {κ} : (A → Type κ) → List A → Type κ
  All P [] = Unit
  All P (x ∷ xs) = P x × All P xs

  -- `for … { if p(x) { out = append(out, x) } }`.
  abbrev pub keep : (A → Bool) → List A → List A
  keep p [] = []
  keep p (x ∷ xs) = let rest = keep p xs in if p x then x ∷ rest else rest

pub All-keep {ℓ κ} :
    {A : Type ℓ} {P : A → Type κ} (p : A → Bool) (xs : List A)
    → ((x : A) → p x ≡ true → P x)
    → All P (keep p xs)
All-keep p [] h = tt
All-keep {P} p (x ∷ xs) h =
    let rest = All-keep {P = P} p xs h in
    elim (Bool-cases (p x)) [ inl e ↦ rw (e, All) (h x e, rest) | inr e ↦ rw (e, All) rest ]

pub rem_one : (i : ℕ) → i % 1 ≡ 0
rem_one i = omega arith

module _ {ℓ κ κ'} {A : Type ℓ} (P : A → Type κ) (Q : A → Type κ') where
  pub All-mono : (xs : List A) → ((x : A) → P x → Q x) → All P xs → All Q xs
  All-mono [] f h = tt
  All-mono (x ∷ xs) f h = (f x h.0, All-mono xs f h.1)

  pub All-zip : (xs : List A) → All P xs → All Q xs → All (λ x. P x × Q x) xs
  All-zip [] h q = tt
  All-zip (x ∷ xs) h q = ((h.0, q.0), All-zip xs h.1 q.1)

pub All-keep_of {ℓ κ} :
    {A : Type ℓ} (P : A → Type κ) (p : A → Bool) (xs : List A) → All P xs → All P (keep p xs)
All-keep_of P p [] h = tt
All-keep_of P p (x ∷ xs) h =
    let rest = All-keep_of P p xs h.1 in
    elim (Bool-cases (p x)) [ inl e ↦ rw (e, All) (h.0, rest) | inr e ↦ rw (e, All) rest ]
