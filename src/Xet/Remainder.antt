-- ===== src/Xet/Remainder.antt =====
-- `undoByteGrouping4Partial` of internal/xet/decompress.go, and the bytes behind the last whole group.
use inference_budget_control.Prelude.{
  ℕ, zero, suc, ◌+◌, ◌*◌, ◌/◌, ◌%◌, ◌≤◌, ◌<◌, [], ◌∷◌, ◌++◌, ◌≡◌, refl, sym, ◌∙◌, ap, arith, length,
  length-append, ◌==◌, false, if◌then◌else◌,
}
use inference_budget_control.Prelude.Bytes.{get_or, replicate}
use inference_budget_control.Xet.{Bytes}
use inference_budget_control.Xet.Decompress.{
  copy_byte, copy_group, copy_groups, copy_remainder, undo_byte_grouping4_partial,
  undo_byte_grouping4,
}

-- The grouping of some bytes is left as it is by what stands behind them.
get_or-left :
    (xs ys zs : Bytes) (i : ℕ) → i < length xs → get_or (xs ++ ys) i 0 ≡ get_or (xs ++ zs) i 0
get_or-left [] ys zs i below = absurd (omega arith)
get_or-left (x ∷ xs) ys zs zero below = refl
get_or-left (x ∷ xs) ys zs (suc i) below = get_or-left xs ys zs i (omega (arith, below))

in_planes : (k j : ℕ) → 0 < k → j < 3 → k + j * k < 4 * k
in_planes k zero h b = omega (arith, h)
in_planes k (suc zero) h b = omega (arith, h)
in_planes k (suc (suc zero)) h b = omega (arith, h)
in_planes k (suc (suc (suc j))) h b = absurd (omega (arith, b))

partial_size : (k r n : ℕ) → n ≡ 4 * k + r → r < 4 → (n / 4 ≡ k) × (n % 4 ≡ r)
partial_size k r n e small = (omega arith, omega arith)

-- The result before anything is copied.
abbrev room : ℕ → ℕ → ℕ → Bytes
room k r expected_size = replicate (if expected_size == 0 then k * 4 + r else expected_size) 0

is_some : (n : ℕ) → 0 < n → n == 0 ≡ false
is_some n h = ground arith

undo_with_rest :
    (input : Bytes) (k r expected_size : ℕ)
    → length input ≡ 4 * k + r
    → 0 < r
    → r < 4
    → 0 < k
    → undo_byte_grouping4 input expected_size
      ≡ copy_remainder input k 0 r (copy_groups input k 0 k (room k r expected_size))
unfolding undo_byte_grouping4 undo_byte_grouping4_partial
undo_with_rest input k r expected_size size rest small some_ =
    let (groups, left) = partial_size k r (length input) size small in
    rw (is_some (length input) (omega (arith, size, some_)), groups, left, is_some r rest) refl

module _ (main t t' : Bytes) (same : length t ≡ length t') where
  length-same : length (main ++ t) ≡ length (main ++ t')
  length-same = omega (arith, length-append main t, length-append main t', same)

  copy_byte-same :
      (source target : ℕ) (result : Bytes)
      → source < length main
      → copy_byte (main ++ t) source target result ≡ copy_byte (main ++ t') source target result
  unfolding copy_byte
  copy_byte-same source target result below = rw (length-same, get_or-left main t t' source below)

  copy_group-same :
      (k i : ℕ) (result : Bytes)
      → length main ≡ 4 * k
      → i < k
      → copy_group (main ++ t) k i result ≡ copy_group (main ++ t') k i result
  unfolding copy_group
  copy_group-same k i result size below =
      let r₀ = copy_byte (main ++ t') (i + 0 * k) (i * 4 + 0) result in
      let r₁ = copy_byte (main ++ t') (i + 1 * k) (i * 4 + 1) r₀ in
      let r₂ = copy_byte (main ++ t') (i + 2 * k) (i * 4 + 2) r₁ in
      rw
        (
          copy_byte-same (i + 0 * k) (i * 4 + 0) result (omega (arith, size, below)),
          copy_byte-same (i + 1 * k) (i * 4 + 1) r₀ (omega (arith, size, below)),
          copy_byte-same (i + 2 * k) (i * 4 + 2) r₁ (omega (arith, size, below)),
          copy_byte-same (i + 3 * k) (i * 4 + 3) r₂ (omega (arith, size, below)),
        )
        refl

  copy_groups-same :
      (k i left : ℕ) (result : Bytes)
      → length main ≡ 4 * k
      → i + left ≤ k
      → copy_groups (main ++ t) k i left result ≡ copy_groups (main ++ t') k i left result
  unfolding copy_groups
  copy_groups-same k i zero result size below = refl
  copy_groups-same k i (suc left) result size below =
      rw (copy_group-same k i result size (omega arith))
        (copy_groups-same k (suc i) left (copy_group (main ++ t') k i result) size (omega arith))

  copy_remainder-same :
      (k j left : ℕ) (result : Bytes)
      → length main ≡ 4 * k
      → 0 < k
      → j + left ≤ 3
      → copy_remainder (main ++ t) k j left result ≡ copy_remainder (main ++ t') k j left result
  unfolding copy_remainder
  copy_remainder-same k j zero result size some_ below = refl
  copy_remainder-same k j (suc left) result size some_ below =
      rw
        (copy_byte-same (k + j * k) (k * 4 + j) result
          (omega (arith, size, in_planes k j some_ (omega arith))))
        (copy_remainder-same k (suc j) left (copy_byte (main ++ t') (k + j * k) (k * 4 + j) result)
          size some_ (omega arith))

  -- The one to three bytes behind the last whole group of grouped data do not reach the result of
  -- undoByteGrouping4: with other bytes there, it is the same.
  pub undo_byte_grouping4_ignores_remainder :
      (k expected_size : ℕ)
      → length main ≡ 4 * k
      → 0 < k
      → 0 < length t
      → length t < 4
      → undo_byte_grouping4 (main ++ t) expected_size
        ≡ undo_byte_grouping4 (main ++ t') expected_size
  unfolding undo_byte_grouping4 undo_byte_grouping4_partial
  undo_byte_grouping4_ignores_remainder k expected_size size some_ rest small =
      let n = length-append main t in
      let n' = length-append main t' in
      undo_with_rest (main ++ t) k (length t) expected_size (omega (arith, n, size)) rest small
        some_
      ∙ copy_remainder-same k 0 (length t)
          (copy_groups (main ++ t) k 0 k (room k (length t) expected_size)) size some_ (omega arith)
      ∙ ap (λ r. copy_remainder (main ++ t') k 0 (length t) r)
          (copy_groups-same k 0 k (room k (length t) expected_size) size (omega arith))
      ∙ sym (
          undo_with_rest (main ++ t') k (length t) expected_size (omega (arith, n', size, same))
            rest small some_)
