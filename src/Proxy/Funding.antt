-- ===== src/Proxy/Funding.antt =====
-- internal/proxy/handler.go: the allocation and the wait of `ensureDeployment`, for a request that has
-- room under the global limit.
use inference_budget_control.Prelude.{
  ℕ, ◌+◌, some, List, [], ◌∷◌, ◌≡◌, refl, sym, ◌∙◌, ap, subst, Bool, true, false, if◌then◌else◌,
  eq_refl, arith, Bool-cases, inl, inr, >>=-eq-some,
}
use mathlib.Core.Option.{some-injective}
use inference_budget_control.Prelude.Int.{ℤ, pos, ◌+ℤ◌, ◌≤ℤ◌}
use inference_budget_control.Prelude.Dict.{lookup, insert, lookup-insert}
use inference_budget_control.Quantity.{Quantities}
use inference_budget_control.Budget.{
  Tracker, ModelAllocation, allocate, commit, new_allocation, sync_allocation, model_key,
}
use inference_budget_control.Budget.Cases.{allocate_cases}
use inference_budget_control.Budget.Total.{IsFunded, exact_total, insert-IsFunded}
use inference_budget_control.Registry.{state_creating, entry_key}
use inference_budget_control.Proxy.{InferenceModel, World, Env}
use inference_budget_control.Proxy.Waiting.{
  Turn, timed_out, cancelled, ticked, WaitResult, poll_ready, pod_is_ready, wait_for_pod_ready,
}
use inference_budget_control.Proxy.Deployment.{
  Answers, Creation, create_failed, already_exists, pod_created, Ensured, after_allocate,
  allocate_and_wait, create_pod, after_build, after_backend, after_limit, with_state,
}
use inference_budget_control.Proxy.Room.{IsUnder}

module _ {Q : Type 0} ⦃ops : Quantities Q⦄ where
  -- Waiting for a pod whose model is allocated leaves the tracker alone.
  pub wait_for_pod_ready-tracker :
      (w : World Q) (model : InferenceModel) (draw : ℕ) (turns : List (ℕ × Turn))
      (a : ModelAllocation Q) {r : World Q × WaitResult}
      → lookup (model_key model.name model.namespace) w.tracker.allocations ≡ some a
      → wait_for_pod_ready w model draw turns ≡ some r
      → r.0.tracker ≡ w.tracker
  unfolding wait_for_pod_ready pod_is_ready sync_allocation
  wait_for_pod_ready-tracker w model draw [] a {r} present e =
      ap (λ (x : World Q × WaitResult). x.0.tracker) (sym (some-injective _ r e))
  wait_for_pod_ready-tracker w model draw ((now, timed_out) ∷ turns) a {r} present e =
      ap (λ (x : World Q × WaitResult). x.0.tracker) (sym (some-injective _ r e))
  wait_for_pod_ready-tracker w model draw ((now, cancelled) ∷ turns) a {r} present e =
      ap (λ (x : World Q × WaitResult). x.0.tracker) (sym (some-injective _ r e))
  wait_for_pod_ready-tracker w model draw ((now, ticked poll) ∷ turns) a {r} present e =
      elim (Bool-cases (poll_ready poll)) [
        | inl ready ↦ ground arith
        | inr later ↦
            wait_for_pod_ready-tracker w model draw turns a present
              (rw (later, wait_for_pod_ready) at e)
      ]

  after_allocate-tracker :
      (env : Env) (answers : Answers) (model : InferenceModel) (w : World Q) (t : Tracker Q)
      (done : Bool) (a : ModelAllocation Q) {r : World Q × Ensured}
      → (done ≡ true → lookup (model_key model.name model.namespace) t.allocations ≡ some a)
      → after_allocate env answers model w (t, done) ≡ some r
      → r.0.tracker ≡ (if done then t else w.tracker)
  unfolding after_allocate
  after_allocate-tracker env answers model w t false a {r} h e =
      ap (λ (x : World Q × Ensured). x.0.tracker) (sym (some-injective _ r e))
  after_allocate-tracker env answers model w t true a {r} h e =
      let (done, waited, e') =
        >>=-eq-some (wait_for_pod_ready (record w { tracker = t }) model (env.draw 5) answers.turns)
          _ e in
      ap (λ (x : World Q × Ensured). x.0.tracker) (sym (some-injective _ r e'))
      ∙ wait_for_pod_ready-tracker (record w { tracker = t }) model (env.draw 5) answers.turns a
          (h refl) waited

  module _ (env : Env) (answers : Answers) (model : InferenceModel) (memory : Q)
      (parsed : ops.parse model.memory ≡ some memory) (p : pos 0 ≤ℤ ops.value memory) where
    allocate_and_wait-IsUnder :
        (limit : ℤ) (w : World Q) {r : World Q × Ensured}
        → IsUnder limit w
        → exact_total w.tracker.allocations +ℤ ops.value memory ≤ℤ limit
        → allocate_and_wait env answers model w ≡ some r
        → IsUnder limit r.0
    unfolding allocate_and_wait commit
    allocate_and_wait-IsUnder limit w {r} v space e =
        let draw = λ (i : ℕ). env.draw (i + 2) in
        let key = model_key model.name model.namespace in
        let own = new_allocation model.name model.namespace memory model.node_selector in
        let ((t, done), allocated, e') =
          >>=-eq-some
            (allocate w.tracker draw model.name model.namespace model.memory model.node_selector) _
            e in
        elim (allocate_cases w.tracker draw model.name model.namespace model.memory
          model.node_selector allocated) [
            | inl refused ↦
                let same =
                  after_allocate-tracker env answers model w t done own (λ ok. cc (refused.0, ok))
                    e' in
                let same' : r.0.tracker ≡ w.tracker = rw refused.0 at same in
                subst (λ (x : Tracker Q). IsFunded limit x.allocations) (sym same') v
            | inr (memory', ok, parsed', _, committed) ↦
                let eq = some-injective memory' memory (sym parsed' ∙ parsed) in
                let full : t.allocations ≡ insert key own w.tracker.allocations =
                  ap (λ (x : Tracker Q). x.allocations) committed
                  ∙ ap
                      (λ m.
                        insert key (new_allocation model.name model.namespace m model.node_selector)
                          w.tracker.allocations)
                      eq in
                let same =
                  after_allocate-tracker env answers model w t done own
                    (λ ok.
                      rw (full, lookup-insert key key own w.tracker.allocations, eq_refl key) refl)
                    e' in
                let same' : r.0.tracker ≡ t = rw ok at same in
                subst (λ (x : Tracker Q). IsFunded limit x.allocations) (sym same')
                  (rw full (insert-IsFunded limit key own w.tracker.allocations p space v.nonneg))
          ]

    create_pod-IsUnder :
        (limit : ℤ) (creation : Creation) (w : World Q) {r : World Q × Ensured}
        → IsUnder limit w
        → exact_total w.tracker.allocations +ℤ ops.value memory ≤ℤ limit
        → create_pod env answers creation model w ≡ some r
        → IsUnder limit r.0
    unfolding create_pod
    create_pod-IsUnder limit create_failed w {r} v space e =
        subst (λ (x : World Q × Ensured). IsUnder limit x.0) (some-injective _ r e) v
    create_pod-IsUnder limit already_exists w v space e =
        allocate_and_wait-IsUnder limit w v space e
    create_pod-IsUnder limit pod_created w v space e =
        allocate_and_wait-IsUnder limit
          (record w { created = entry_key model.namespace model.name ∷ w.created }) v space e

    after_build-IsUnder :
        (limit : ℤ) (built : Bool) (w : World Q) {r : World Q × Ensured}
        → IsUnder limit w
        → exact_total w.tracker.allocations +ℤ ops.value memory ≤ℤ limit
        → after_build env answers built model w ≡ some r
        → IsUnder limit r.0
    unfolding after_build
    after_build-IsUnder limit false w {r} v space e =
        subst (λ (x : World Q × Ensured). IsUnder limit x.0) (some-injective _ r e) v
    after_build-IsUnder limit true w v space e =
        create_pod-IsUnder limit answers.creation w v space e

    after_backend-IsUnder :
        (limit : ℤ) (found : Bool) (w : World Q) {r : World Q × Ensured}
        → IsUnder limit w
        → exact_total w.tracker.allocations +ℤ ops.value memory ≤ℤ limit
        → after_backend env answers found model w ≡ some r
        → IsUnder limit r.0
    unfolding after_backend
    after_backend-IsUnder limit false w {r} v space e =
        subst (λ (x : World Q × Ensured). IsUnder limit x.0) (some-injective _ r e) v
    after_backend-IsUnder limit true w v space e =
        after_build-IsUnder limit answers.pod_built (with_state w model state_creating env.now) v
          space e

    pub after_limit-IsUnder :
        (limit : ℤ) (w : World Q) (admitted : Bool) {r : World Q × Ensured}
        → IsUnder limit w
        → (admitted ≡ true → exact_total w.tracker.allocations +ℤ ops.value memory ≤ℤ limit)
        → after_limit env answers model (w, admitted) ≡ some r
        → IsUnder limit r.0
    unfolding after_limit
    after_limit-IsUnder limit w false {r} v space e =
        subst (λ (x : World Q × Ensured). IsUnder limit x.0) (some-injective _ r e) v
    after_limit-IsUnder limit w true v space e =
        after_backend-IsUnder limit answers.backend_found w v (space refl) e
