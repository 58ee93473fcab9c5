-- ===== src/Controller/Idle.antt =====
-- internal/controller/inferencemodel_controller.go: `handleIdleScaling`, `deleteIdlePod` and
-- `updateLastRequestAnnotation`, for a controller with a registry.
use inference_budget_control.Prelude.{
  ℕ, String, Option, none, some, ◌∷◌, Bool, true, false, ◌||◌, if◌then◌else◌, ltb, ◌==◌,
}
use inference_budget_control.Prelude.Int.{ℤ, pos, negsuc, ◌-ℤ◌, int64, ltb_ℤ, sub_ℕ}
use inference_budget_control.Quantity.{Quantities}
use inference_budget_control.Budget.{release_model}
use inference_budget_control.Registry.{DeploymentEntry, entry_key, get, delete_entry}
use inference_budget_control.Controller.{
  ScaledModel, Cluster, Outcome, completed, failed, requeue_after, Write, written, Removal, removed,
  already_gone, removal_failed, idle_check_interval, default_cooldown,
}
use inference_budget_control.Controller.Conditions.{set_condition_on_model, is_scaled_down}

-- What Kubernetes answers: the update of the status, the deletion of the pod and the update of its
-- annotation, which is an error or not. `draw` is the choice in `nodeSelectorKey`.
pub record IdleAnswers : Type 0 where
  pub now : ℕ
  pub draw : ℕ
  pub status_write : Write
  pub pod_removal : Removal
  pub annotation_written : Bool

-- entry != nil && entry.ActiveRequests > 0
abbrev pub has_requests : Option DeploymentEntry → Bool
has_requests none = false
has_requests (some e) = ltb 0 e.active_requests

abbrev pub is_zero : ℤ → Bool
is_zero (pos n) = n == 0
is_zero (negsuc n) = false

abbrev pub or_zero : Option ℤ → ℤ
or_zero none = pos 0
or_zero (some z) = z

abbrev pub unless_zero : ℤ → ℤ → ℤ
unless_zero z other = if is_zero z then other else z

-- The delay, else the period, else five minutes; a duration of 0 counts as none.
unfoldable pub cooldown : ScaledModel → ℤ
cooldown model =
    unless_zero (unless_zero (or_zero model.scale_to_zero_delay) (or_zero model.cooldown_period))
      default_cooldown

-- Scaling is disabled, or the policy is MemoryPressureOnly.
unfoldable pub never_idle : ScaledModel → Bool
never_idle model = elim model.scaling_enabled [
  | none ↦ model.memory_pressure_only
  | some on ↦ if on then model.memory_pressure_only else true
]

-- time.Since(lastRequest), by the wall clock.
abbrev pub idle_time : ℕ → ℕ → ℤ
idle_time now last = sub_ℕ now last

-- min(cooldownPeriod - idleTime, IdleCheckInterval)
unfoldable pub next_check : ℤ → ℤ → ℤ
next_check period idle =
    let left = int64 (period -ℤ idle) in
    if ltb_ℤ idle_check_interval left then idle_check_interval else left

module _ {Q : Type 0} ⦃ops : Quantities Q⦄ where
  -- `setCondition` for the condition Ready, on the stored status, and whether it succeeded.
  unfoldable pub set_ready_condition :
      Cluster Q → Bool → String → String → ℕ → Write → Cluster Q × Bool
  set_ready_condition s status reason message now write =
      let r = set_condition_on_model s.status.conditions "Ready" status reason message now in
      elim r.1 [
        | false ↦ (s, true)
        | true ↦ elim write [
          | written ↦ (record s { status = record (s.status) { conditions = r.0 } }, true)
          | _ ↦ (s, false)
        ]
      ]

  -- "Remove from registry" and "Release memory budget".
  unfoldable pub forget : ScaledModel → ℕ → Cluster Q → Cluster Q
  forget model draw s = record s {
    world = record (s.world) {
      registry = delete_entry s.world.registry model.namespace model.name;
      tracker = release_model s.world.tracker draw model.name model.namespace;
    };
  }

  -- The pod's deletion and what follows it.
  unfoldable pub after_lock :
      ScaledModel → IdleAnswers → Removal → Cluster Q × Bool → Cluster Q × Outcome
  unfolding forget
  after_lock model env pod (s, false) = (s, failed)
  after_lock model env removal_failed (s, true) = (s, failed)
  after_lock model env already_gone (s, true) =
      (forget model env.draw s, requeue_after idle_check_interval)
  after_lock model env removed (s, true) = (
    forget model env.draw (record s {
      world = record (s.world) { deleted = entry_key model.namespace model.name ∷ s.world.deleted };
    }),
    requeue_after idle_check_interval,
  )

  unfoldable pub delete_idle_pod : ScaledModel → IdleAnswers → Cluster Q → Cluster Q × Outcome
  unfolding set_ready_condition after_lock
  delete_idle_pod model env s =
      let deletion = after_lock model env env.pod_removal (
        set_ready_condition s false "ScaledToZero" "Model pod deleted due to inactivity" env.now
          env.status_write) in
      if has_requests (get s.world.registry model.namespace model.name)
        || is_scaled_down s.status.conditions
      then (s, requeue_after idle_check_interval)
      else deletion

  unfoldable pub update_last_request_annotation :
      IdleAnswers → Bool → Cluster Q → Cluster Q × Outcome
  update_last_request_annotation env true s =
      (record s { last_request = some env.now }, requeue_after idle_check_interval)
  update_last_request_annotation env false s = (s, failed)

  -- From the cooldown period on.
  unfoldable pub check_idle : ScaledModel → IdleAnswers → Option ℕ → Cluster Q → Cluster Q × Outcome
  unfolding update_last_request_annotation delete_idle_pod next_check cooldown
  check_idle model env none s = update_last_request_annotation env env.annotation_written s
  check_idle model env (some last) s =
      let deletion = delete_idle_pod model env s in
      let idle = idle_time env.now last in
      if ltb_ℤ (cooldown model) idle
      then deletion
      else (s, requeue_after (next_check (cooldown model) idle))

  unfoldable pub handle_idle_scaling : ScaledModel → IdleAnswers → Cluster Q → Cluster Q × Outcome
  unfolding never_idle check_idle
  handle_idle_scaling model env s =
      let checked = check_idle model env s.last_request s in
      if never_idle model || has_requests (get s.world.registry model.namespace model.name)
      then (s, completed)
      else checked
