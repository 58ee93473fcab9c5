-- ===== src/Budget/Usage.antt =====
-- internal/budget/tracker.go: observed memory, utilization and recommendations. float64 is the
-- parameter `Floats`, and the words around the values in a recommendation are left out.
use inference_budget_control.Prelude.{
  String, Option, none, some, List, [], ◌∷◌, Bool, if◌then◌else◌, ◌>>=◌,
}
use inference_budget_control.Prelude.Int.{ℤ, pos, ltb_ℤ}
use inference_budget_control.Prelude.Dict.{Dict, lookup, insert}
use inference_budget_control.Quantity.{Quantities, is_gt}
use inference_budget_control.Budget.{ModelAllocation, ModelUsage, Tracker, model_key}

-- The operations of float64 that the tracker uses; no law of rounding is assumed.
pub record Floats (F : Type 0) : Type 0 where
  pub of_int : ℤ → F
  pub div : F → F → F
  pub mul : F → F → F
  pub sub : F → F → F
  pub lt : F → F → Bool
  -- int64(math.Ceil(x)) and int(x)
  pub ceil_to_int : F → ℤ
  pub to_int : F → ℤ
  -- The constants 0.9 and 1.1.
  pub low_utilization : F
  pub safety_buffer : F

-- "Consider reducing memory from … to …", with the observed peak and the percentage where
-- `GetUtilization` adds them.
pub data Recommendation : Type 0 where
  reduce : String → String → Recommendation
  reduce_observed : String → String → String → ℤ → Recommendation

pub record UtilizationInfo (Q F : Type 0) : Type 0 where
  pub name : String
  pub namespace : String
  pub declared : Q
  pub observed_peak : Option Q
  pub utilization : F
  pub recommendation : Option Recommendation

module _ {F : Type 0} (floats : Floats F) where
  ratio : ℤ → ℤ → F
  ratio observed declared =
      if ltb_ℤ (pos 0) declared
      then floats.div (floats.of_int observed) (floats.of_int declared)
      else floats.of_int (pos 0)

  -- int((1 - info.Utilization) * 100)
  overprovisioned_percent : F → ℤ
  overprovisioned_percent u =
      floats.to_int (floats.mul (floats.sub (floats.of_int (pos 1)) u) (floats.of_int (pos 100)))

module _ {Q : Type 0} ⦃ops : Quantities Q⦄ where
  -- observedMemory != nil && (peak == nil || observedMemory.Cmp(*peak) > 0)
  unfoldable pub raise_peak : Option Q → Option Q → Option Q
  raise_peak none peak = peak
  raise_peak (some observed) none = some observed
  raise_peak (some observed) (some peak) =
      if is_gt (ops.cmp observed peak) then some observed else some peak

  unfoldable pub first_usage : String → String → Q → ModelUsage Q
  first_usage name namespace observed = record {
    name = name;
    namespace = namespace;
    observed_peak = some observed;
  }

  -- A nil observation for a model that is not tracked yet is dereferenced: a panic.
  unfoldable pub record_usage : Tracker Q → String → String → Option Q → Option (Tracker Q)
  unfolding raise_peak first_usage
  record_usage t name namespace observed =
      let key = model_key name namespace in
      elim (lookup key t.usage_tracking) [
        | some usage ↦ some (record t {
          usage_tracking =
              insert key (record usage { observed_peak = raise_peak observed usage.observed_peak })
                t.usage_tracking;
        })
        | none ↦ do
          o ← observed
          some (record t {
            usage_tracking = insert key (first_usage name namespace o) t.usage_tracking;
          })
      ]

  -- The peak under a key: `none` where the model is not tracked or has no peak.
  unfoldable pub peak_of : Tracker Q → String → Option Q
  peak_of t key = do usage ← lookup key t.usage_tracking; usage.observed_peak

  module _ {F : Type 0} (floats : Floats F) where
    -- int64(math.Ceil(observedValue * 1.1)), as a quantity.
    recommended : ℤ → Q
    recommended observed =
        ops.new_quantity
          (floats.ceil_to_int (floats.mul (floats.of_int observed) floats.safety_buffer))

    unfoldable pub get_utilization :
        Tracker Q → String → String → String → Option (UtilizationInfo Q F)
    unfolding ratio recommended overprovisioned_percent
    get_utilization t name namespace declared_memory = do
      declared ← ops.parse declared_memory
      some (elim (peak_of t (model_key name namespace)) [
        | none ↦ record {
          name = name;
          namespace = namespace;
          declared = declared;
          observed_peak = none;
          utilization = floats.of_int (pos 0);
          recommendation = none;
        }
        | some peak ↦
            let observed = ops.value peak in
            let u = ratio floats observed (ops.value declared) in
            record {
              name = name;
              namespace = namespace;
              declared = declared;
              observed_peak = some peak;
              utilization = u;
              recommendation =
                  if floats.lt u floats.low_utilization
                  then some (
                      reduce_observed (ops.to_string declared)
                        (ops.to_string (recommended observed)) (ops.to_string peak)
                        (overprovisioned_percent floats u))
                  else none;
            }
      ])

    overprovisioned_info : ModelAllocation Q → Q → F → UtilizationInfo Q F
    overprovisioned_info a peak u = record {
      name = a.name;
      namespace = a.namespace;
      declared = a.memory;
      observed_peak = some peak;
      utilization = u;
      recommendation =
          some (reduce (ops.to_string a.memory) (ops.to_string (recommended (ops.value peak))));
    }

    -- One turn of the loop of `GetOverprovisionedModels`.
    overprovisioned_of : Option Q → ModelAllocation Q → Option (UtilizationInfo Q F)
    unfolding overprovisioned_info recommended
    overprovisioned_of none a = none
    overprovisioned_of (some peak) a =
        let u = floats.div (floats.of_int (ops.value peak)) (floats.of_int (ops.value a.memory)) in
        if ltb_ℤ (pos 0) (ops.value a.memory)
        then (if floats.lt u floats.low_utilization
            then some (overprovisioned_info a peak u)
            else none)
        else none

    overprovisioned_from : Tracker Q → Dict (ModelAllocation Q) → List (UtilizationInfo Q F)
    unfolding overprovisioned_of
    overprovisioned_from t [] = []
    overprovisioned_from t ((key, a) ∷ m) =
        let rest = overprovisioned_from t m in
        elim (overprovisioned_of (peak_of t key) a) [ none ↦ rest | some info ↦ info ∷ rest ]

    unfoldable pub get_overprovisioned_models : Tracker Q → List (UtilizationInfo Q F)
    unfolding overprovisioned_from
    get_overprovisioned_models t = overprovisioned_from t t.allocations
