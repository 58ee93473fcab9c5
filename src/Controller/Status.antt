-- ===== src/Controller/Status.antt =====
-- internal/controller/inferencemodel_controller.go: `updateStatus`. What Kubernetes and the metrics
-- server answer is an argument; `none` is the panic of resource.MustParse.
use inference_budget_control.Prelude.{
  ℕ, String, str_eq, str_append, Option, none, some, List, [], ◌∷◌, Bool, true, false, not, ◌||◌,
  ◌>>=◌, if◌then◌else◌,
}
use inference_budget_control.Prelude.Int.{pos}
use inference_budget_control.Quantity.{Quantities}
use inference_budget_control.Budget.{Tracker}
use inference_budget_control.Budget.Usage.{Floats, UtilizationInfo, record_usage, get_utilization}
use inference_budget_control.Registry.{state_ready, set_state}
use inference_budget_control.Proxy.Waiting.{Condition, is_ready}
use inference_budget_control.Controller.{
  ModelStatus, ScaledModel, Cluster, Outcome, requeue, failed, requeue_after, Write, written,
  conflict, write_failed, idle_check_interval,
}
use inference_budget_control.Controller.Conditions.{same_bool, set_condition_on_model}

-- The pod that was fetched: its conditions and its phase.
pub record PodView : Type 0 where
  pub conditions : List Condition
  pub phase : String

-- `usage` is the memory of the first container that reports one, and `none` where there is no
-- metrics client, it fails, or no container reports memory.
pub record StatusAnswers (Q : Type 0) : Type 0 where
  pub now : ℕ
  pub usage : Option Q
  pub status_write : Write

-- The values of a condition: its status, reason and message.
abbrev pub Values : Type 0
Values = Bool × String × String

unfoldable pub ready_values : Bool → String → Values
ready_values true phase = (true, "Deployed", "Pod is ready and serving traffic")
ready_values false phase =
    if str_eq phase "Running"
    then (false, "Deploying", "Pod is running but not yet ready")
    else (false, "Pending", str_append "Pod is " phase)

unfoldable pub available_values : Bool → Values → Values
available_values true values = (true, "Deployed", "Model is available and serving requests")
available_values false values = (false, values.1, values.2)

abbrev pub is_nil {ℓ} : {A : Type ℓ} → List A → Bool
is_nil [] = true
is_nil (a ∷ as') = false

unfoldable pub needs_write : ModelStatus → ModelStatus → Bool
needs_write old new =
    not (same_bool old.ready new.ready)
    || (is_nil new.conditions || not (str_eq old.observed_peak_memory new.observed_peak_memory))

-- The Ready and the Available condition.
unfoldable pub with_conditions : Bool → String → ℕ → ModelStatus → ModelStatus
unfolding ready_values available_values
with_conditions ready phase now status =
    let r = ready_values ready phase in
    let a = available_values ready r in
    let first = set_condition_on_model status.conditions "Ready" r.0 r.1 r.2 now in
    record status { conditions = (set_condition_on_model first.0 "Available" a.0 a.1 a.2 now).0 }

-- The status before the conditions are set.
unfoldable pub with_pod : Bool → ScaledModel → ModelStatus → ModelStatus
with_pod ready model status = record status {
  ready = ready;
  replicas = 1;
  available_replicas = 1;
  declared_memory = model.memory;
}

module _ {Q : Type 0} ⦃ops : Quantities Q⦄ where
  -- RecordUsage, for a pod that is ready and reports its memory.
  unfoldable pub observe : Bool → Option Q → ScaledModel → Tracker Q → Option (Tracker Q)
  observe true (some memory) model t = record_usage t model.name model.namespace (some memory)
  observe true none model t = some t
  observe false usage model t = some t

  -- The registry says that a ready pod is ready.
  unfoldable pub note_ready : Bool → ScaledModel → ℕ → Cluster Q → Cluster Q
  note_ready true model now s = record s {
    world = record (s.world) {
      registry = set_state s.world.registry model.namespace model.name state_ready now;
    };
  }
  note_ready false model now s = s

  -- The write of the status, where it is needed.
  unfoldable pub store : Bool → Write → ModelStatus → Cluster Q → Cluster Q × Outcome
  store false answer status s = (s, requeue_after idle_check_interval)
  store true written status s = (record s { status = status }, requeue_after idle_check_interval)
  store true conflict status s = (s, requeue)
  store true write_failed status s = (s, failed)

  module _ {F : Type 0} (floats : Floats F) where
    -- The percentage is within int32.
    unfoldable pub with_utilization : UtilizationInfo Q F → ModelStatus → ModelStatus
    with_utilization info status = elim info.observed_peak [
      | none ↦ status
      | some peak ↦ record status {
        observed_peak_memory = ops.to_string peak;
        utilization_percent = floats.to_int (floats.mul info.utilization (floats.of_int (pos 100)));
        recommendation = elim info.recommendation [
          | none ↦ status.recommendation
          | some text ↦ some text
        ];
      }
    ]

    -- What follows the tracker's part.
    unfoldable pub finish_status :
        Bool
        → PodView
        → StatusAnswers Q
        → ScaledModel
        → Cluster Q
        → UtilizationInfo Q F
        → Cluster Q × Outcome
    unfolding with_utilization with_pod with_conditions note_ready needs_write store
    finish_status ready pod env model s info =
        let new =
          with_conditions ready pod.phase env.now
            (with_utilization info (with_pod ready model s.status)) in
        store (needs_write s.status new) env.status_write new (note_ready ready model env.now s)

    unfoldable pub update_status :
        ScaledModel → PodView → StatusAnswers Q → Cluster Q → Option (Cluster Q × Outcome)
    unfolding observe finish_status
    update_status model pod env s = do
      tracker ← observe (is_ready pod.conditions) env.usage model s.world.tracker
      info ← get_utilization floats tracker model.name model.namespace model.memory
      some (
          finish_status (is_ready pod.conditions) pod env model
            (record s { world = record (s.world) { tracker = tracker } }) info)
