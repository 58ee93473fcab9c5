-- ===== src/Controller/Skipped.antt =====
-- internal/controller/inferencemodel_controller.go: what a reconciliation does not get to.
use inference_budget_control.Prelude.{
  ℕ, String, eq_iff, some, List, [], ◌∷◌, true, false, ◌≡◌, refl, sym, ◌∙◌, ap, Bool-cases, inl,
  inr, arith,
}
use inference_budget_control.Prelude.Int.{pos, ltb_ℤ}
use inference_budget_control.Quantity.{Quantities}
use inference_budget_control.Budget.Usage.{Floats}
use inference_budget_control.Registry.{get}
use inference_budget_control.Controller.{
  StatusCondition, ScaledModel, Cluster, failed, requeue_after, Write, written, conflict,
  write_failed, Removal, removed, already_gone, removal_failed, idle_check_interval,
}
use inference_budget_control.Controller.Conditions.{
  is_same, set_condition_on_model, set_condition_on_model-values, is_scaled_down,
}
use inference_budget_control.Controller.Idle.{
  IdleAnswers, has_requests, cooldown, never_idle, idle_time, next_check, set_ready_condition,
  after_lock, delete_idle_pod, check_idle, handle_idle_scaling,
}
use inference_budget_control.Controller.Status.{PodView, StatusAnswers}
use inference_budget_control.Controller.Reconcile.{pod_found, after_idle, reconcile_pod}

-- The condition that deleteIdlePod sets is the one that isScaledDown looks for.
is_scaled_down-set_condition_on_model :
    (cs : List StatusCondition) (message : String) (now : ℕ)
    → is_scaled_down (set_condition_on_model cs "Ready" false "ScaledToZero" message now).0 ≡ true
unfolding is_scaled_down set_condition_on_model is_same
is_scaled_down-set_condition_on_model [] message now = refl
is_scaled_down-set_condition_on_model (c ∷ cs) message now = ground (
  arith,
  eq_iff c.type_ "Ready",
  eq_iff c.reason "ScaledToZero",
  is_scaled_down-set_condition_on_model cs message now,
)

module _ {Q : Type 0} ⦃ops : Quantities Q⦄ where
  set_ready_condition-locks :
      (s : Cluster Q) (message : String) (now : ℕ) (write : Write)
      → write ≡ written
      → let r = set_ready_condition s false "ScaledToZero" message now write in
        (r ≡ (r.0, true)) × (is_scaled_down r.0.status.conditions ≡ true) × (r.0.world ≡ s.world)
  unfolding set_ready_condition
  set_ready_condition-locks s message now written h =
      let r = set_condition_on_model s.status.conditions "Ready" false "ScaledToZero" message now in
      let down = is_scaled_down-set_condition_on_model s.status.conditions message now in
      let (_, _, kept) =
        set_condition_on_model-values s.status.conditions "Ready" false "ScaledToZero" message
          now in
      elim (Bool-cases r.1) [
        | inl changed ↦ rw (changed, set_ready_condition) (refl, down, refl)
        | inr same ↦
            rw (same, set_ready_condition) (refl, ap is_scaled_down (sym (kept same)) ∙ down, refl)
      ]
  set_ready_condition-locks s message now conflict h = cc
  set_ready_condition-locks s message now write_failed h = cc

  after_lock-failed :
      (model : ScaledModel) (env : IdleAnswers) (answer : Removal) (s : Cluster Q)
      → answer ≡ removal_failed
      → after_lock model env answer (s, true) ≡ (s, failed)
  unfolding after_lock
  after_lock-failed model env removal_failed s h = refl
  after_lock-failed model env removed s h = cc
  after_lock-failed model env already_gone s h = cc

  delete_idle_pod-locked :
      (model : ScaledModel) (env : IdleAnswers) (s : Cluster Q)
      → is_scaled_down s.status.conditions ≡ true
      → delete_idle_pod model env s ≡ (s, requeue_after idle_check_interval)
  unfolding delete_idle_pod
  delete_idle_pod-locked model env s down =
      elim (Bool-cases (has_requests (get s.world.registry model.namespace model.name))) [
        | inl busy ↦ rw (busy, delete_idle_pod) refl
        | inr quiet ↦ rw (quiet, down, delete_idle_pod) refl
      ]

  -- Where deleteIdlePod has set its condition and the deletion of the pod fails, every later call
  -- leaves everything as it is.
  pub delete_idle_pod-stuck :
      (model : ScaledModel) (env later : IdleAnswers) (s : Cluster Q)
      → has_requests (get s.world.registry model.namespace model.name) ≡ false
      → is_scaled_down s.status.conditions ≡ false
      → env.status_write ≡ written
      → env.pod_removal ≡ removal_failed
      → let t = delete_idle_pod model env s in
        (t.1 ≡ failed)
        × (t.0.world ≡ s.world)
        × (delete_idle_pod model later t.0 ≡ (t.0, requeue_after idle_check_interval))
  unfolding delete_idle_pod
  delete_idle_pod-stuck model env later s quiet free wrote fails =
      let message : String = "Model pod deleted due to inactivity" in
      let locked = set_ready_condition s false "ScaledToZero" message env.now env.status_write in
      let (whole, down, same) =
        set_ready_condition-locks s message env.now env.status_write wrote in
      let result : delete_idle_pod model env s ≡ (locked.0, failed) =
        rw (quiet, free, delete_idle_pod)
          (ap (after_lock model env env.pod_removal) whole
            ∙ after_lock-failed model env env.pod_removal locked.0 fails) in
      rw result (refl, same, delete_idle_pod-locked model later locked.0 down)

  -- Where a pod is found of a model that scales and has no request in flight, and the next check
  -- of its idle time lies ahead, the reconciliation changes nothing, whatever the pod's conditions
  -- are.
  pub reconcile_pod-skips :
      {F : Type 0} (floats : Floats F) (model : ScaledModel) (pod : PodView) (idle : IdleAnswers)
      (second : Write) (env : StatusAnswers Q) (s : Cluster Q) (last : ℕ)
      → never_idle model ≡ false
      → has_requests (get s.world.registry model.namespace model.name) ≡ false
      → s.last_request ≡ some last
      → ltb_ℤ (cooldown model) (idle_time idle.now last) ≡ false
      → ltb_ℤ (pos 0) (next_check (cooldown model) (idle_time idle.now last)) ≡ true
      → reconcile_pod floats model (pod_found pod) idle second env s
        ≡ some (s, requeue_after (next_check (cooldown model) (idle_time idle.now last)))
  unfolding reconcile_pod after_idle handle_idle_scaling check_idle
  reconcile_pod-skips floats model pod idle second env s last on quiet annotated recent later =
      let checked : check_idle model idle s.last_request s
          ≡ (s, requeue_after (next_check (cooldown model) (idle_time idle.now last))) =
        ap (λ o. check_idle model idle o s) annotated ∙ rw (recent, check_idle) refl in
      let handled : handle_idle_scaling model idle s
          ≡ (s, requeue_after (next_check (cooldown model) (idle_time idle.now last))) =
        rw (on, quiet, handle_idle_scaling) checked in
      ap (after_idle floats model pod env) handled ∙ rw (later, after_idle) refl
