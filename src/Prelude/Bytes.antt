-- ===== src/Prelude/Bytes.antt =====
-- Lists of bytes, cut and joined by native numbers.
use inference_budget_control.Prelude.{
  ℕ, zero, suc, ◌+◌, List, [], ◌∷◌, ◌++◌, ◌≡◌, refl, sym, ◌∙◌, ap, length, arith, ◌==◌, Bool, true,
  false, ◌&&◌,
}

abbrev pub take : {B : Type 0} → ℕ → List B → List B
take zero bytes = []
take (suc n) [] = []
take (suc n) (x ∷ bytes) = x ∷ take n bytes

abbrev pub drop : {B : Type 0} → ℕ → List B → List B
drop zero bytes = bytes
drop (suc n) [] = []
drop (suc n) (x ∷ bytes) = drop n bytes

module _ {B : Type 0} where
  pub take-++-drop : (n : ℕ) (l : List B) → take n l ++ drop n l ≡ l
  take-++-drop zero l = refl
  take-++-drop (suc n) [] = refl
  take-++-drop (suc n) (x ∷ l) = ap (λ t. x ∷ t) (take-++-drop n l)

  drop-nil : (n : ℕ) → drop {B = B} n [] ≡ []
  drop-nil zero = refl
  drop-nil (suc n) = refl

  pub drop-drop : (m n : ℕ) (l : List B) → drop n (drop m l) ≡ drop (m + n) l
  drop-drop zero n l = ap (λ k. drop k l) (omega arith)
  drop-drop (suc m) n [] = drop-nil n ∙ sym (drop-nil (suc m + n))
  drop-drop (suc m) n (x ∷ l) =
      let e : suc (m + n) ≡ suc m + n = omega arith in drop-drop m n l ∙ ap (λ k. drop k (x ∷ l)) e

  pub drop-all : (l : List B) → drop (length l) l ≡ []
  drop-all [] = refl
  drop-all (x ∷ l) = drop-all l

  pub append_assoc : (xs ys zs : List B) → (xs ++ ys) ++ zs ≡ xs ++ (ys ++ zs)
  append_assoc [] ys zs = refl
  append_assoc (x ∷ xs) ys zs = ap (λ t. x ∷ t) (append_assoc xs ys zs)

  pub append_nil : (xs : List B) → xs ++ [] ≡ xs
  append_nil [] = refl
  append_nil (x ∷ xs) = ap (λ t. x ∷ t) (append_nil xs)

-- data[i], and `fill` beyond the end, where the code tests the length first.
abbrev pub get_or : {B : Type 0} → List B → ℕ → B → B
get_or [] i fill = fill
get_or (x ∷ bytes) zero fill = x
get_or (x ∷ bytes) (suc i) fill = get_or bytes i fill

-- result[i] = b; beyond the end it changes nothing.
abbrev pub set : {B : Type 0} → List B → ℕ → B → List B
set [] i b = []
set (x ∷ bytes) zero b = b ∷ bytes
set (x ∷ bytes) (suc i) b = x ∷ set bytes i b

-- make([]byte, n)
abbrev pub replicate : {B : Type 0} → ℕ → B → List B
replicate zero b = []
replicate (suc n) b = b ∷ replicate n b

module _ {B : Type 0} where
  pub drop-append : (xs ys : List B) → drop (length xs) (xs ++ ys) ≡ ys
  drop-append [] ys = refl
  drop-append (x ∷ xs) ys = drop-append xs ys

  pub take-append : (xs ys : List B) → take (length xs) (xs ++ ys) ≡ xs
  take-append [] ys = refl
  take-append (x ∷ xs) ys = ap (λ t. x ∷ t) (take-append xs ys)

-- string(a) == string(b)
abbrev pub same_bytes : List ℕ → List ℕ → Bool
same_bytes [] [] = true
same_bytes [] (y ∷ ys) = false
same_bytes (x ∷ xs) [] = false
same_bytes (x ∷ xs) (y ∷ ys) = x == y && same_bytes xs ys
