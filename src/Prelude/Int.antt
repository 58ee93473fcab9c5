-- ===== src/Prelude/Int.antt =====
-- Signed integers over the native numbers, under the library's names (its ℤ stands on the unary ℕ).
-- Sums and orders go through the two parts of an integer, which are numbers that `omega` reads.
use inference_budget_control.Prelude.{
  ◌∙◌, ap, ℕ, suc, ◌+◌, ◌-◌, ◌*◌, ◌/◌, ◌≤◌, ◌<◌, ◌%◌, ◌^◌, ◌≡◌, refl, ◌⊎◌, Bool, arith, ltb, leb,
  if◌then◌else◌, Ordering, Bool-cases, inl, inr,
}
use Prim.Native.Nat.{compare}

-- `negsuc n` is -(n + 1).
pub data ℤ : Type 0 where
  pos : ℕ → ℤ
  negsuc : ℕ → ℤ

abbrev pub pos_part : ℤ → ℕ
pos_part (pos n) = n
pos_part (negsuc n) = 0

abbrev pub neg_part : ℤ → ℕ
neg_part (pos n) = 0
neg_part (negsuc n) = suc n

-- a - b, as an integer.
abbrev pub sub_ℕ : ℕ → ℕ → ℤ
sub_ℕ a b = if leb b a then pos (a - b) else negsuc (b - a - 1)

infixl 65 ◌+ℤ◌ ◌-ℤ◌
infix 50 ◌≤ℤ◌ ◌≈◌
unfoldable pub ◌+ℤ◌ : ℤ → ℤ → ℤ
a +ℤ b = sub_ℕ (pos_part a + pos_part b) (neg_part a + neg_part b)

unfoldable pub ◌-ℤ◌ : ℤ → ℤ → ℤ
a -ℤ b = sub_ℕ (pos_part a + neg_part b) (neg_part a + pos_part b)

abbrev pub ◌≤ℤ◌ : ℤ → ℤ → Type 0
a ≤ℤ b = pos_part a + neg_part b ≤ pos_part b + neg_part a

abbrev pub compare_ℤ : ℤ → ℤ → Ordering
compare_ℤ a b = compare (pos_part a + neg_part b) (pos_part b + neg_part a)

abbrev pub ltb_ℤ : ℤ → ℤ → Bool
ltb_ℤ a b = ltb (pos_part a + neg_part b) (pos_part b + neg_part a)

abbrev pub leb_ℤ : ℤ → ℤ → Bool
leb_ℤ a b = leb (pos_part a + neg_part b) (pos_part b + neg_part a)

-- One lemma for each operation lets `omega` work with the operations shut, at any depth.
pub +ℤ_parts :
    (a b : ℤ)
    → pos_part (a +ℤ b) + neg_part a + neg_part b ≡ neg_part (a +ℤ b) + pos_part a + pos_part b
unfolding ◌+ℤ◌
+ℤ_parts a b = ground arith

pub -ℤ_parts :
    (a b : ℤ)
    → pos_part (a -ℤ b) + neg_part a + pos_part b ≡ neg_part (a -ℤ b) + pos_part a + neg_part b
unfolding ◌-ℤ◌
-ℤ_parts a b = ground arith

pub eq_of_parts : (a b : ℤ) → pos_part a + neg_part b ≡ pos_part b + neg_part a → a ≡ b
eq_of_parts a b h = ground arith

-- To hand `omega` an equation of integers.
pub parts_of_eq : {a b : ℤ} → a ≡ b → pos_part a + neg_part b ≡ pos_part b + neg_part a
parts_of_eq {a} {b} e = ground arith

pub ruleset int_laws = (arith, +ℤ_parts, -ℤ_parts, eq_of_parts)

-- The value that an `int64` holds after an operation whose exact result is the argument.
unfoldable pub int64 : ℤ → ℤ
int64 z =
    let u = (pos_part z + (2 ^ 64 - neg_part z % 2 ^ 64)) % 2 ^ 64 in
    if ltb u (2 ^ 63) then pos u else negsuc (2 ^ 64 - 1 - u)

abbrev pub IsInt64 : ℤ → Type 0
IsInt64 z = (pos_part z < 2 ^ 63) × (neg_part z ≤ 2 ^ 63)

pub int64_of_IsInt64 : (z : ℤ) → IsInt64 z → int64 z ≡ z
unfolding int64
int64_of_IsInt64 z h = ground arith

pub int64-pos : (n : ℕ) → n < 2 ^ 63 → int64 (pos n) ≡ pos n
int64-pos n small = int64_of_IsInt64 (pos n) (small, omega arith)

pub int64-+ℤ : (a b : ℕ) → a + b < 2 ^ 63 → int64 (pos a +ℤ pos b) ≡ pos (a + b)
unfolding ◌+ℤ◌
int64-+ℤ a b small = ap int64 (ground arith) ∙ int64-pos (a + b) small

pub int64--ℤ : (a b : ℕ) → a < 2 ^ 63 → b ≤ a → int64 (pos a -ℤ pos b) ≡ pos (a - b)
unfolding ◌-ℤ◌
int64--ℤ a b small below = ap int64 (ground arith) ∙ int64-pos (a - b) (omega arith)

abbrev pub max_int64 : ℤ
max_int64 = pos (2 ^ 63 - 1)

pub int64_of_range : (z : ℤ) → pos 0 ≤ℤ z → z ≤ℤ max_int64 → int64 z ≡ z
int64_of_range (pos n) l u = int64_of_IsInt64 (pos n) (omega arith, omega arith)
int64_of_range (negsuc n) l u = absurd (omega arith)

-- Integers are congruent modulo 2^64.
abbrev pub ◌≈◌ : ℤ → ℤ → Type 0
a ≈ b =
    (k : ℕ) × (k' : ℕ) × (pos_part a + neg_part b + 2 ^ 64 * k
      ≡ pos_part b + neg_part a + 2 ^ 64 * k')

residue_same :
    (a c b d k k' : ℕ)
    → a + d + 2 ^ 64 * k ≡ b + c + 2 ^ 64 * k'
    → (a + (2 ^ 64 - c % 2 ^ 64)) % 2 ^ 64 ≡ (b + (2 ^ 64 - d % 2 ^ 64)) % 2 ^ 64
residue_same a c b d k k' h = omega arith

pub int64_same : (a b : ℤ) → a ≈ b → int64 a ≡ int64 b
unfolding int64
int64_same a b (k, k', h) =
    rw (residue_same (pos_part a) (neg_part a) (pos_part b) (neg_part b) k k' h) refl

signed_parts :
    (p n u : ℕ)
    → u ≡ (p + (2 ^ 64 - n % 2 ^ 64)) % 2 ^ 64
    → let z = if ltb u (2 ^ 63) then pos u else negsuc (2 ^ 64 - 1 - u) in
      (k : ℕ) × (k' : ℕ) × (pos_part z + n + 2 ^ 64 * k ≡ p + neg_part z + 2 ^ 64 * k')
signed_parts p n u e = elim (Bool-cases (ltb u (2 ^ 63))) [
  | inl t ↦ rw t ((p + (2 ^ 64 - n % 2 ^ 64)) / 2 ^ 64, n / 2 ^ 64 + 1, omega (arith, e))
  | inr t ↦ rw t ((p + (2 ^ 64 - n % 2 ^ 64)) / 2 ^ 64, n / 2 ^ 64, omega (arith, e))
]

pub int64-≈ : (z : ℤ) → int64 z ≈ z
unfolding int64
int64-≈ z = signed_parts (pos_part z) (neg_part z) _ refl
