-- ===== src/Budget/Peaks.antt =====
-- The peaks of internal/budget/tracker.go after `RecordUsage`.
use inference_budget_control.Prelude.{
  String, str_eq, eq_iff, eq_refl, Option, none, some, List, [], ◌∷◌, ◌≡◌, ◌≢◌, refl, inl, inr,
  arith, if◌then◌else◌, All, Option-cases, Bool-cases, ◌>>=◌, sym, ◌∙◌,
}
use inference_budget_control.Prelude.Int.{ℤ, ◌≤ℤ◌}
use inference_budget_control.Prelude.Dict.{lookup, lookup-insert}
use inference_budget_control.Quantity.{Quantities, is_gt, is_gt_iff, is_gt_not}
use inference_budget_control.Budget.{Tracker, model_key}
use inference_budget_control.Budget.Usage.{record_usage, peak_of, raise_peak, first_usage}

module _ {Q : Type 0} ⦃ops : Quantities Q⦄ where
  -- The peak that a recording leaves under the model's key.
  peak_of-record_usage :
      (t : Tracker Q) (name namespace : String) (observed : Q)
      → (t' : Tracker Q) × (record_usage t name namespace (some observed) ≡ some t')
        × ((key : String)
            → peak_of t' key ≡ (
                if str_eq (model_key name namespace) key
                then raise_peak (some observed) (peak_of t key)
                else peak_of t key))
        × (t'.allocations ≡ t.allocations)
        × (t'.node_budgets ≡ t.node_budgets)
  unfolding record_usage peak_of raise_peak
  peak_of-record_usage t name namespace observed =
      elim (Option-cases (lookup (model_key name namespace) t.usage_tracking)) [
        | inl absent ↦
            rw (absent, record_usage)
              (
                _,
                refl,
                (λ key. ground (
                  arith,
                  eq_iff (model_key name namespace) key,
                  lookup-insert (model_key name namespace) key (first_usage name namespace observed)
                      t.usage_tracking,
                )),
                refl,
                refl,
              )
        | inr (u, present) ↦
            rw (present, record_usage)
              (
                _,
                refl,
                (λ key. ground (
                  arith,
                  eq_iff (model_key name namespace) key,
                  lookup-insert (model_key name namespace) key
                      (record u { observed_peak = raise_peak (some observed) u.observed_peak })
                      t.usage_tracking,
                )),
                refl,
                refl,
              )
      ]

  -- The recordings of one model in a row; `none` would be a panic.
  unfoldable pub record_all : Tracker Q → String → String → List Q → Option (Tracker Q)
  record_all t name namespace [] = some t
  record_all t name namespace (o ∷ os) = do
    t' ← record_usage t name namespace (some o)
    record_all t' name namespace os

  -- A peak is recorded, and it is at least the amount.
  abbrev pub IsPeakOver : ℤ → Option Q → Type 0
  IsPeakOver z none = ⊥
  IsPeakOver z (some peak) = z ≤ℤ ops.amount peak

  raise_peak-new : (o : Q) (peak : Option Q) → IsPeakOver (ops.amount o) (raise_peak (some o) peak)
  unfolding raise_peak
  raise_peak-new o none = omega arith
  raise_peak-new o (some peak) = elim (Bool-cases (is_gt (ops.cmp o peak))) [
    | inl up ↦ rw (up, raise_peak) (omega arith)
    | inr kept ↦ rw (kept, raise_peak) (is_gt_not o peak kept)
  ]

  raise_peak-old :
      (z : ℤ) (o : Q) (peak : Option Q)
      → IsPeakOver z peak
      → IsPeakOver z (raise_peak (some o) peak)
  unfolding raise_peak
  raise_peak-old z o none h = absurd h
  raise_peak-old z o (some peak) h = elim (Bool-cases (is_gt (ops.cmp o peak))) [
    | inl up ↦ let more = (is_gt_iff o peak).0 up in rw (up, raise_peak) (omega arith)
    | inr kept ↦ rw (kept, raise_peak) h
  ]

  -- Recording observations succeeds; the model's peak is then at least each of them and any
  -- earlier peak, and the peaks of other models, the allocations and the pools are unchanged.
  pub record_all-peak :
      (t : Tracker Q) (name namespace : String) (os : List Q)
      → (t' : Tracker Q) × (record_all t name namespace os ≡ some t')
        × All (λ o. IsPeakOver (ops.amount o) (peak_of t' (model_key name namespace))) os
        × ((z : ℤ)
            → IsPeakOver z (peak_of t (model_key name namespace))
            → IsPeakOver z (peak_of t' (model_key name namespace)))
        × ((key : String) → key ≢ model_key name namespace → peak_of t' key ≡ peak_of t key)
        × (t'.allocations ≡ t.allocations)
        × (t'.node_budgets ≡ t.node_budgets)
  unfolding record_all
  record_all-peak t name namespace [] = (t, refl, tt, (λ z h. h), (λ key h. refl), refl, refl)
  record_all-peak t name namespace (o ∷ os) =
      let key = model_key name namespace in
      let (t', done, peaks, same_a, same_b) = peak_of-record_usage t name namespace o in
      let (t'', rest, over, kept, others, same_a', same_b') =
        record_all-peak t' name namespace os in
      let own : peak_of t' key ≡ raise_peak (some o) (peak_of t key) =
        peaks key ∙ rw (eq_refl key) refl in
      (
        t'',
        rw (done, record_all) rest,
        (kept (ops.amount o) (rw own (raise_peak-new o (peak_of t key))), over),
        (λ z h. kept z (rw own (raise_peak-old z o (peak_of t key) h))),
        (λ other h. others other h ∙ peaks other ∙ elim (Bool-cases (str_eq key other)) [
          | inl same ↦ absurd (h (sym ((eq_iff key other).0 same)))
          | inr apart ↦ rw apart refl
        ]),
        same_a' ∙ same_a,
        same_b' ∙ same_b,
      )
