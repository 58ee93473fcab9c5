-- ===== src/Proxy/Counts.antt =====
-- internal/proxy/handler.go: what `ensureDeployment` and the waiting for a pod do to the registry's
-- count of the model's requests in flight.
use inference_budget_control.Prelude.{
  ℕ, ◌+◌, ◌<◌, some, List, [], ◌∷◌, Bool, true, false, ◌≡◌, refl, sym, ◌∙◌, ap, >>=-eq-some, arith,
  Bool-cases, Option-cases, inl, inr, String,
}
use mathlib.Core.Option.{some-injective, none-ne-some}
use inference_budget_control.Prelude.Dict.{lookup}
use inference_budget_control.Quantity.{Quantities}
use inference_budget_control.Budget.{Tracker, sync_allocation, allocate, can_allocate}
use inference_budget_control.Registry.{
  Registry, DeploymentEntry, DeploymentState, entry_key, get, state_creating, state_ready,
  state_nonexistent,
}
use inference_budget_control.Registry.Requests.{active, active-set_state}
use inference_budget_control.Registry.Idle.{IsIdle}
use inference_budget_control.Registry.Keyed.{IsKeyed}
use inference_budget_control.Proxy.{InferenceModel, Config, World, Env}
use inference_budget_control.Proxy.Waiting.{
  Turn, timed_out, cancelled, ticked, WaitResult, poll_ready, pod_is_ready, wait_for_pod_ready,
}
use inference_budget_control.Proxy.Evicted.{try_evict_for_global_limit-busy}
use inference_budget_control.Proxy.Deployment.{
  Answers, Creation, create_failed, already_exists, pod_created, Ensured, exceeds_global,
  admit_global, with_state, after_allocate, allocate_and_wait, create_pod, after_build,
  after_backend, after_limit, admit_and_create, ensure_by, ensure_deployment, is_ready_entry,
  insufficient_budget,
}

-- A request in flight makes the model's entry busy.
busy-entry :
    (key : String) (r : Registry) (now idle : ℕ)
    → 0 < active key r
    → (e : DeploymentEntry) × (lookup key r ≡ some e) × (¬ IsIdle now idle e)
unfolding active
busy-entry key r now idle running = elim (Option-cases (lookup key r)) [
  | inl absent ↦ absurd (ground arith)
  | inr (e, found) ↦ (e, found, λ h. ground arith)
]

module _ {Q : Type 0} ⦃ops : Quantities Q⦄ where
  -- The count of the model's requests in flight.
  abbrev pub count_of_model : InferenceModel → World Q → ℕ
  count_of_model model w = active (entry_key model.namespace model.name) w.registry

  with_state-count :
      (w : World Q) (model : InferenceModel) (state : DeploymentState) (now : ℕ)
      → count_of_model model (with_state w model state now) ≡ count_of_model model w
  with_state-count w model state now =
      active-set_state w.registry model.namespace model.name state now
        (entry_key model.namespace model.name)

  -- Waiting for the pod leaves the count alone.
  pub wait_for_pod_ready-count :
      (w : World Q) (model : InferenceModel) (draw : ℕ) (turns : List (ℕ × Turn))
      {r : World Q × WaitResult}
      → wait_for_pod_ready w model draw turns ≡ some r
      → count_of_model model r.0 ≡ count_of_model model w
  unfolding wait_for_pod_ready pod_is_ready
  wait_for_pod_ready-count w model draw [] {r} e =
      ap (λ (x : World Q × WaitResult). count_of_model model x.0) (sym (some-injective _ r e))
  wait_for_pod_ready-count w model draw ((now, timed_out) ∷ turns) {r} e =
      ap (λ (x : World Q × WaitResult). count_of_model model x.0) (sym (some-injective _ r e))
      ∙ with_state-count w model state_nonexistent now
  wait_for_pod_ready-count w model draw ((now, cancelled) ∷ turns) {r} e =
      ap (λ (x : World Q × WaitResult). count_of_model model x.0) (sym (some-injective _ r e))
  wait_for_pod_ready-count w model draw ((now, ticked poll) ∷ turns) {r} e =
      elim (Bool-cases (poll_ready poll)) [
        | inl ready ↦
            let (_, _, e') =
              >>=-eq-some
                (sync_allocation w.tracker draw model.name model.namespace model.memory
                  model.node_selector)
                _ (rw (ready, wait_for_pod_ready) at e) in
            ap (λ (x : World Q × WaitResult). count_of_model model x.0)
              (sym (some-injective _ r e'))
            ∙ with_state-count w model state_ready now
        | inr later ↦
            wait_for_pod_ready-count w model draw turns (rw (later, wait_for_pod_ready) at e)
      ]

  admit_global-count :
      (config : Config) (env : Env) (model : InferenceModel) (memory : Q) (w : World Q)
      → IsKeyed w.registry
      → 0 < count_of_model model w
      → count_of_model model (admit_global config env model memory w).0 ≡ count_of_model model w
  unfolding admit_global active
  admit_global-count config env model memory w v running =
      let key = entry_key model.namespace model.name in
      let (e, found, busy) = busy-entry key w.registry env.now config.eviction_min_idle running in
      elim (Bool-cases (exceeds_global config w memory)) [
        | inr fits ↦ rw (fits, admit_global) refl
        | inl over ↦
            rw
              (
                over,
                admit_global,
                (try_evict_for_global_limit-busy config env model (ops.value memory) w key e v found
                    busy).0,
              )
              refl
      ]

  module _ (config : Config) (env : Env) (answers : Answers) (model : InferenceModel) where
    after_allocate-count :
        (w : World Q) (t : Tracker Q) (done : Bool) {r : World Q × Ensured}
        → after_allocate env answers model w (t, done) ≡ some r
        → count_of_model model r.0 ≡ count_of_model model w
    unfolding after_allocate
    after_allocate-count w t false {r} e =
        ap (λ (x : World Q × Ensured). count_of_model model x.0) (sym (some-injective _ r e))
        ∙ with_state-count w model state_nonexistent env.now
    after_allocate-count w t true {r} e =
        let (done, waited, e') =
          >>=-eq-some
            (wait_for_pod_ready (record w { tracker = t }) model (env.draw 5) answers.turns) _ e in
        ap (λ (x : World Q × Ensured). count_of_model model x.0) (sym (some-injective _ r e'))
        ∙ wait_for_pod_ready-count (record w { tracker = t }) model (env.draw 5) answers.turns
            waited

    allocate_and_wait-count :
        (w : World Q) {r : World Q × Ensured}
        → allocate_and_wait env answers model w ≡ some r
        → count_of_model model r.0 ≡ count_of_model model w
    unfolding allocate_and_wait
    allocate_and_wait-count w e =
        let ((t, done), _, e') =
          >>=-eq-some
            (allocate w.tracker (λ i. env.draw (i + 2)) model.name model.namespace model.memory
              model.node_selector)
            _ e in
        after_allocate-count w t done e'

    create_pod-count :
        (creation : Creation) (w : World Q) {r : World Q × Ensured}
        → create_pod env answers creation model w ≡ some r
        → count_of_model model r.0 ≡ count_of_model model w
    unfolding create_pod
    create_pod-count create_failed w {r} e =
        ap (λ (x : World Q × Ensured). count_of_model model x.0) (sym (some-injective _ r e))
        ∙ with_state-count w model state_nonexistent env.now
    create_pod-count already_exists w e = allocate_and_wait-count w e
    create_pod-count pod_created w e =
        allocate_and_wait-count
          (record w { created = entry_key model.namespace model.name ∷ w.created }) e

    after_build-count :
        (built : Bool) (w : World Q) {r : World Q × Ensured}
        → after_build env answers built model w ≡ some r
        → count_of_model model r.0 ≡ count_of_model model w
    unfolding after_build
    after_build-count false w {r} e =
        ap (λ (x : World Q × Ensured). count_of_model model x.0) (sym (some-injective _ r e))
        ∙ with_state-count w model state_nonexistent env.now
    after_build-count true w e = create_pod-count answers.creation w e

    after_backend-count :
        (found : Bool) (w : World Q) {r : World Q × Ensured}
        → after_backend env answers found model w ≡ some r
        → count_of_model model r.0 ≡ count_of_model model w
    unfolding after_backend
    after_backend-count false w {r} e =
        ap (λ (x : World Q × Ensured). count_of_model model x.0) (sym (some-injective _ r e))
    after_backend-count true w e =
        after_build-count answers.pod_built (with_state w model state_creating env.now) e
        ∙ with_state-count w model state_creating env.now

    after_limit-count :
        (w : World Q) (admitted : Bool) {r : World Q × Ensured}
        → after_limit env answers model (w, admitted) ≡ some r
        → count_of_model model r.0 ≡ count_of_model model w
    unfolding after_limit
    after_limit-count w false {r} e =
        ap (λ (x : World Q × Ensured). count_of_model model x.0) (sym (some-injective _ r e))
    after_limit-count w true e = after_backend-count answers.backend_found w e

    admit_and_create-count :
        (w : World Q) {r : World Q × Ensured}
        → IsKeyed w.registry
        → 0 < count_of_model model w
        → admit_and_create config env answers model w ≡ some r
        → count_of_model model r.0 ≡ count_of_model model w
    unfolding admit_and_create
    admit_and_create-count w {r} v running e =
        let (fits, _, e') =
          >>=-eq-some
            (can_allocate w.tracker env.draw model.name model.namespace model.memory
              model.node_selector)
            _ e in
        let (memory, _, e'') = >>=-eq-some (ops.parse model.memory) _ e' in decided memory fits e''
      where
        decided :
            (memory : Q) (fits : Bool)
            → (elim fits [
              | false ↦ some (w, insufficient_budget)
              | true ↦ after_limit env answers model (admit_global config env model memory w)
            ])
              ≡ some r
            → count_of_model model r.0 ≡ count_of_model model w
        decided memory false q =
            ap (λ (x : World Q × Ensured). count_of_model model x.0) (sym (some-injective _ r q))
        decided memory true q =
            after_limit-count (admit_global config env model memory w).0
              (admit_global config env model memory w).1 q
            ∙ admit_global-count config env model memory w v running

    ensure_by-count :
        (kept : Bool) (w : World Q) {r : World Q × Ensured}
        → IsKeyed w.registry
        → 0 < count_of_model model w
        → ensure_by kept config env answers model w ≡ some r
        → count_of_model model r.0 ≡ count_of_model model w
    unfolding ensure_by
    ensure_by-count false w v running e = absurd (none-ne-some _ e)
    ensure_by-count true w {r} v running e =
        elim (Bool-cases (is_ready_entry (get w.registry model.namespace model.name))) [
          | inl ready ↦
              ap (λ (x : World Q × Ensured). count_of_model model x.0)
                (sym (some-injective _ r (rw (ready, ensure_by) at e)))
          | inr cold ↦ admit_and_create-count w v running (rw (cold, ensure_by) at e)
        ]

    -- While a request for the model is in flight, `ensureDeployment` leaves the count of the model's
    -- requests alone, on every path and whatever it evicts.
    pub ensure_deployment-count :
        (w : World Q) {r : World Q × Ensured}
        → IsKeyed w.registry
        → 0 < count_of_model model w
        → ensure_deployment config env answers model w ≡ some r
        → count_of_model model r.0 ≡ count_of_model model w
    unfolding ensure_deployment
    ensure_deployment-count w v running e = ensure_by-count config.has_registry w v running e
