-- ===== src/Controller/Reconcile.antt =====
-- internal/controller/inferencemodel_controller.go: `Reconcile` from the pod's fetch on,
-- `handleDeletion` and `needsDownload`.
use inference_budget_control.Prelude.{
  ℕ, String, str_eq, Option, some, Bool, true, false, not, ◌&&◌, if◌then◌else◌,
}
use inference_budget_control.Prelude.Int.{pos, ltb_ℤ}
use inference_budget_control.Quantity.{Quantities}
use inference_budget_control.Budget.{release_model}
use inference_budget_control.Budget.Usage.{Floats}
use inference_budget_control.Registry.{state_nonexistent, set_state}
use inference_budget_control.Controller.{
  ModelStatus, ScaledModel, Cluster, Outcome, completed, requeue, failed, requeue_after, Write,
  written, idle_check_interval,
}
use inference_budget_control.Controller.Conditions.{set_condition_on_model}
use inference_budget_control.Controller.Idle.{IdleAnswers, forget, handle_idle_scaling}
use inference_budget_control.Controller.Status.{PodView, StatusAnswers, update_status}

pub data PodFetch : Type 0 where
  pod_missing fetch_failed : PodFetch
  pod_found : PodView → PodFetch

abbrev pub written_or : Write → ModelStatus → ModelStatus → ModelStatus
written_or written new old = new
written_or _ new old = old

-- A HuggingFace source, and a download that is not complete or whose marker is gone.
unfoldable pub needs_download : Bool → String → Bool → Bool
needs_download hugging_face phase marked =
    hugging_face && (if str_eq phase "Complete" then not marked else true)

-- The stored status after the two writes for a pod that is missing.
unfoldable pub scaled_to_zero : ModelStatus → ℕ → Write → Write → ModelStatus
scaled_to_zero status now first second =
    let new = record status {
      phase = "ScaledToZero";
      ready = false;
      replicas = 0;
      available_replicas = 0;
    } in
    let r =
      set_condition_on_model new.conditions "Ready" true "ScaledToZero"
        "Scaled to zero, waiting for first request" now in
    let stored = written_or first new status in
    if r.1 then written_or second (record new { conditions = r.0 }) stored else stored

module _ {Q : Type 0} ⦃ops : Quantities Q⦄ where
  -- Whether the model has the finalizer, and whether its removal succeeds.
  unfoldable pub handle_deletion : Bool → Bool → ScaledModel → ℕ → Cluster Q → Cluster Q × Outcome
  handle_deletion false removes model draw s = (s, completed)
  handle_deletion true removes model draw s =
      (forget model draw s, (if removes then completed else failed))

  unfoldable pub without_pod : ScaledModel → IdleAnswers → Write → Cluster Q → Cluster Q
  unfolding scaled_to_zero
  without_pod model env second s = record s {
    world = record (s.world) {
      tracker = release_model s.world.tracker env.draw model.name model.namespace;
      registry = set_state s.world.registry model.namespace model.name state_nonexistent env.now;
    };
    status = scaled_to_zero s.status env.now env.status_write second;
  }

  module _ {F : Type 0} (floats : Floats F) where
    -- After handleIdleScaling: result.Requeue || result.RequeueAfter > 0 ends the reconciliation.
    unfoldable pub after_idle :
        ScaledModel → PodView → StatusAnswers Q → Cluster Q × Outcome → Option (Cluster Q × Outcome)
    after_idle model pod env (s, failed) = some (s, failed)
    after_idle model pod env (s, requeue) = some (s, requeue)
    after_idle model pod env (s, completed) = update_status floats model pod env s
    after_idle model pod env (s, requeue_after delay) =
        let updated = update_status floats model pod env s in
        if ltb_ℤ (pos 0) delay then some (s, requeue_after delay) else updated

    unfoldable pub reconcile_pod :
        ScaledModel
        → PodFetch
        → IdleAnswers
        → Write
        → StatusAnswers Q
        → Cluster Q
        → Option (Cluster Q × Outcome)
    unfolding without_pod after_idle
    reconcile_pod model pod_missing idle second env s =
        some (without_pod model idle second s, requeue_after idle_check_interval)
    reconcile_pod model fetch_failed idle second env s = some (s, failed)
    reconcile_pod model (pod_found pod) idle second env s =
        after_idle model pod env (handle_idle_scaling model idle s)
