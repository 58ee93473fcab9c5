-- ===== src/Quantity.antt =====
-- k8s.io/apimachinery/pkg/api/resource, which internal/budget and internal/proxy call and which is
-- not part of the repository: a quantity is an exact number with a text form. `amount` is that
-- number in a fixed unit, and the laws are the documented meaning of `Add`, `Sub`,
-- `Cmp` and `NewQuantity(0, …)`.
use inference_budget_control.Prelude.{String, Option, ◌≡◌, Ordering, Bool, true, false, ◌↔◌, arith}
use inference_budget_control.Prelude.Int.{ℤ, pos, ◌+ℤ◌, ◌-ℤ◌, ◌≤ℤ◌, compare_ℤ}

pub record Quantities (Q : Type 0) : Type 0 where
  -- ParseQuantity. MustParse panics where this is `none`.
  pub parse : String → Option Q
  pub new_quantity : ℤ → Q
  pub add : Q → Q → Q
  pub sub : Q → Q → Q
  pub cmp : Q → Q → Ordering
  -- Value, the int64 rounded away from zero.
  pub value : Q → ℤ
  pub to_string : Q → String
  pub amount : Q → ℤ
  pub amount-zero : amount (new_quantity (pos 0)) ≡ pos 0
  pub amount-add : (a b : Q) → amount (add a b) ≡ amount a +ℤ amount b
  pub amount-sub : (a b : Q) → amount (sub a b) ≡ amount a -ℤ amount b
  pub cmp-amount : (a b : Q) → cmp a b ≡ compare_ℤ (amount a) (amount b)

-- The tests `c <= 0`, `c >= 0` and `c > 0` on a result of `Cmp`.
abbrev pub is_le : Ordering → Bool
is_le Ordering.gt = false
is_le _ = true

abbrev pub is_ge : Ordering → Bool
is_ge Ordering.lt = false
is_ge _ = true

abbrev pub is_gt : Ordering → Bool
is_gt Ordering.gt = true
is_gt _ = false

module _ {Q : Type 0} ⦃ops : Quantities Q⦄ where
  pub is_ge_iff : (a b : Q) → (is_ge (ops.cmp a b) ≡ true) ↔ (ops.amount b ≤ℤ ops.amount a)
  is_ge_iff a b = rw (ops.cmp-amount a b) (ground arith)

  pub is_le_iff : (a b : Q) → (is_le (ops.cmp a b) ≡ true) ↔ (ops.amount a ≤ℤ ops.amount b)
  is_le_iff a b = rw (ops.cmp-amount a b) (ground arith)

  pub is_gt_iff : (a b : Q) → (is_gt (ops.cmp a b) ≡ true) ↔ (¬ (ops.amount a ≤ℤ ops.amount b))
  is_gt_iff a b = rw (ops.cmp-amount a b) (ground arith)

  pub is_gt_not : (a b : Q) → is_gt (ops.cmp a b) ≡ false → ops.amount a ≤ℤ ops.amount b
  is_gt_not a b h =
      let h' : is_gt (compare_ℤ (ops.amount a) (ops.amount b)) ≡ false =
        rw (ops.cmp-amount a b) at h in
      ground arith
