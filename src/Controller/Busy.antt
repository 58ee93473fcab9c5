-- ===== src/Controller/Busy.antt =====
-- internal/controller/inferencemodel_controller.go: the reconciliation of a model whose requests are
-- in flight.
use inference_budget_control.Prelude.{
  ℕ, String, Option, none, some, Bool, true, false, ◌||◌, ◌≡◌, refl, sym, ◌∙◌, ap, subst,
  Option-cases, inl, inr, >>=-eq-some, arith,
}
use mathlib.Core.Option.{some-injective}
use inference_budget_control.Prelude.Dict.{lookup}
use inference_budget_control.Quantity.{Quantities}
use inference_budget_control.Budget.{Tracker, model_key}
use inference_budget_control.Budget.Usage.{Floats, record_usage, get_utilization}
use inference_budget_control.Registry.{get, state_ready}
use inference_budget_control.Registry.Requests.{active, active-set_state}
use inference_budget_control.Proxy.{World}
use inference_budget_control.Proxy.Waiting.{is_ready}
use inference_budget_control.Controller.{
  ModelStatus, ScaledModel, Cluster, Outcome, completed, Write, written, conflict, write_failed,
}
use inference_budget_control.Controller.Idle.{
  IdleAnswers, has_requests, never_idle, handle_idle_scaling,
}
use inference_budget_control.Controller.Status.{
  PodView, StatusAnswers, with_utilization, with_pod, with_conditions, needs_write, observe,
  note_ready, store, finish_status, update_status,
}
use inference_budget_control.Controller.Reconcile.{pod_found, after_idle, reconcile_pod}

module _ {Q : Type 0} ⦃ops : Quantities Q⦄ where
  -- The same allocations and pools, the same pods deleted, and the same requests in flight.
  abbrev pub IsKept : World Q → World Q → Type 0
  IsKept v w =
      (w.tracker.allocations ≡ v.tracker.allocations)
      × (w.tracker.node_budgets ≡ v.tracker.node_budgets)
      × (w.deleted ≡ v.deleted)
      × ((key : String) → active key w.registry ≡ active key v.registry)

  record_usage-kept :
      (t : Tracker Q) (name namespace : String) (observed : Q) {t' : Tracker Q}
      → record_usage t name namespace (some observed) ≡ some t'
      → (t'.allocations ≡ t.allocations) × (t'.node_budgets ≡ t.node_budgets)
  unfolding record_usage
  record_usage-kept t name namespace observed {t'} e =
      elim (Option-cases (lookup (model_key name namespace) t.usage_tracking)) [
        | inl absent ↦
            let same = some-injective _ t' (rw (absent, record_usage) at e) in
            (
              ap (λ (x : Tracker Q). x.allocations) (sym same),
              ap (λ (x : Tracker Q). x.node_budgets) (sym same),
            )
        | inr (usage, present) ↦
            let same = some-injective _ t' (rw (present, record_usage) at e) in
            (
              ap (λ (x : Tracker Q). x.allocations) (sym same),
              ap (λ (x : Tracker Q). x.node_budgets) (sym same),
            )
      ]

  observe-kept :
      (ready : Bool) (usage : Option Q) (model : ScaledModel) (t : Tracker Q) {t' : Tracker Q}
      → observe ready usage model t ≡ some t'
      → (t'.allocations ≡ t.allocations) × (t'.node_budgets ≡ t.node_budgets)
  unfolding observe
  observe-kept true (some memory) model t e =
      record_usage-kept t model.name model.namespace memory e
  observe-kept true none model t {t'} e =
      let same = some-injective t t' e in
      (
        ap (λ (x : Tracker Q). x.allocations) (sym same),
        ap (λ (x : Tracker Q). x.node_budgets) (sym same),
      )
  observe-kept false usage model t {t'} e =
      let same = some-injective t t' e in
      (
        ap (λ (x : Tracker Q). x.allocations) (sym same),
        ap (λ (x : Tracker Q). x.node_budgets) (sym same),
      )

  note_ready-IsKept :
      (ready : Bool) (model : ScaledModel) (now : ℕ) (s : Cluster Q)
      → IsKept s.world (note_ready ready model now s).world
  unfolding note_ready
  note_ready-IsKept true model now s = (
    refl,
    refl,
    refl,
    λ key. active-set_state s.world.registry model.namespace model.name state_ready now key,
  )
  note_ready-IsKept false model now s = (refl, refl, refl, λ key. refl)

  store-world :
      (wanted : Bool) (answer : Write) (status : ModelStatus) (s : Cluster Q)
      → (store wanted answer status s).0.world ≡ s.world
  unfolding store
  store-world false answer status s = refl
  store-world true written status s = refl
  store-world true conflict status s = refl
  store-world true write_failed status s = refl

  module _ {F : Type 0} (floats : Floats F) (model : ScaledModel) where
    update_status-IsKept :
        (pod : PodView) (env : StatusAnswers Q) (s : Cluster Q) {r : Cluster Q × Outcome}
        → update_status floats model pod env s ≡ some r
        → IsKept s.world r.0.world
    unfolding update_status finish_status
    update_status-IsKept pod env s {r} e =
        let ready = is_ready pod.conditions in
        let (t, observed, e') = >>=-eq-some (observe ready env.usage model s.world.tracker) _ e in
        let (info, _, e'') =
          >>=-eq-some (get_utilization floats t model.name model.namespace model.memory) _ e' in
        let s' : Cluster Q = record s { world = record (s.world) { tracker = t } } in
        let new =
          with_conditions ready pod.phase env.now
            (with_utilization floats info (with_pod ready model s.status)) in
        let (same_a, same_b) = observe-kept ready env.usage model s.world.tracker observed in
        let (_, _, _, counts) = note_ready-IsKept ready model env.now s' in
        let (a, b, c, _) = note_ready-IsKept ready model env.now s' in
        let world =
          store-world (needs_write s.status new) env.status_write new
            (note_ready ready model env.now s') in
        subst (λ (x : Cluster Q × Outcome). IsKept s.world x.0.world) (some-injective _ r e'')
          (rw world (a ∙ same_a, b ∙ same_b, c, counts))

    -- Where a request for the model is in flight and its pod is found, the reconciliation leaves
    -- the allocations, the pools and the deleted pods as they are, and every count of requests in
    -- flight.
    pub reconcile_pod-busy :
        (pod : PodView) (idle : IdleAnswers) (second : Write) (env : StatusAnswers Q)
        (s : Cluster Q) {r : Cluster Q × Outcome}
        → has_requests (get s.world.registry model.namespace model.name) ≡ true
        → reconcile_pod floats model (pod_found pod) idle second env s ≡ some r
        → IsKept s.world r.0.world
    unfolding reconcile_pod after_idle handle_idle_scaling
    reconcile_pod-busy pod idle second env s {r} busy e =
        let either : (never_idle model
              || has_requests (get s.world.registry model.namespace model.name))
            ≡ true =
          ground arith in
        let handled : handle_idle_scaling model idle s ≡ (s, completed) =
          rw (either, handle_idle_scaling) refl in
        update_status-IsKept pod env s (ap (after_idle floats model pod env) (sym handled) ∙ e)
