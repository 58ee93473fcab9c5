-- ===== src/Proxy/InFlight.antt =====
-- internal/proxy/handler.go: the count of requests in flight over a whole request.
use inference_budget_control.Prelude.{
  ℕ, suc, String, some, Bool, true, false, ◌≡◌, ◌≢◌, refl, sym, ◌∙◌, subst, >>=-eq-some, arith,
  Option-cases, inl, inr, eq_refl,
}
use mathlib.Core.Option.{some-injective}
use inference_budget_control.Prelude.Dict.{lookup, lookup-insert, lookup-modify}
use inference_budget_control.Quantity.{Quantities}
use inference_budget_control.Budget.{sync_allocation}
use inference_budget_control.Registry.{
  Registry, DeploymentEntry, DeploymentState, entry_key, get, record_request, new_entry,
  state_nonexistent, state_creating, state_ready, state_deleting,
}
use inference_budget_control.Registry.Requests.{active-record_request, active-finish_request}
use inference_budget_control.Registry.Keyed.{IsKeyed, record_request-IsKeyed}
use inference_budget_control.Proxy.{InferenceModel, Config, World, Env}
use inference_budget_control.Proxy.Waiting.{WaitResult, wait_ok, waiting, wait_for_pod_ready}
use inference_budget_control.Proxy.Deployment.{Ensured, ensured, still_waiting, ensure_deployment}
use inference_budget_control.Proxy.Serving.{
  Reply, unanswered, Verdict, proceed, reply, Backend, not_requested, left, unreachable, answered,
  Outside, state_of, finished, settle_ensured, settle_waited, ensure, prepare, deferred, noted,
  forward, conclude, serve_model,
}
use inference_budget_control.Proxy.Counts.{
  count_of_model, wait_for_pod_ready-count, ensure_deployment-count,
}

state_of-record_request :
    (r : Registry) (namespace name : String) (now : ℕ)
    → state_of (get r namespace name) ≢ state_deleting
    → state_of (get (record_request r namespace name now) namespace name) ≢ state_deleting
unfolding get record_request
state_of-record_request r namespace name now h =
    let own = entry_key namespace name in
    elim (Option-cases (lookup own r)) [
      | inl absent ↦
          rw
            (
              absent,
              get,
              record_request,
              lookup-insert own own (new_entry namespace name state_creating now 1) r,
              eq_refl own,
            )
            (λ e. cc)
      | inr (e, present) ↦
          rw
            (
              present,
              get,
              record_request,
              lookup-modify own own
                  (λ (e : DeploymentEntry). record e {
                    active_requests = suc e.active_requests;
                    last_request_time = now;
                  })
                  r,
              eq_refl own,
              present,
            )
            (rw (get, present) at h)
    ]

module _ {Q : Type 0} ⦃ops : Quantities Q⦄ (model : InferenceModel) where
  -- The count after the part before the backend: with the request, or without it where it is over.
  IsCounted : ℕ → World Q × Verdict → Type 0
  IsCounted n (w, proceed) = count_of_model model w ≡ suc n
  IsCounted n (w, reply unanswered) = Unit
  IsCounted n (w, reply _) = count_of_model model w ≡ n

  finished-count :
      (n : ℕ) (w : World Q)
      → count_of_model model w ≡ suc n
      → count_of_model model (finished w model) ≡ n
  finished-count n w h =
      let key = entry_key model.namespace model.name in
      let down = active-finish_request w.registry model.namespace model.name key in
      let less = rw (eq_refl key, h) at down in omega arith

  settle_ensured-IsCounted :
      (n : ℕ) (w : World Q) (result : Ensured)
      → count_of_model model w ≡ suc n
      → IsCounted n (settle_ensured model (w, result))
  unfolding IsCounted settle_ensured
  settle_ensured-IsCounted n w ensured h = h
  settle_ensured-IsCounted n w still_waiting h = tt
  settle_ensured-IsCounted n w _ h = finished-count n w h

  settle_waited-IsCounted :
      (n : ℕ) (w : World Q) (result : WaitResult)
      → count_of_model model w ≡ suc n
      → IsCounted n (settle_waited model (w, result))
  unfolding IsCounted settle_waited
  settle_waited-IsCounted n w wait_ok h = h
  settle_waited-IsCounted n w waiting h = tt
  settle_waited-IsCounted n w _ h = finished-count n w h

  ensure-IsCounted :
      (config : Config) (env : Env) (outside : Outside) (n : ℕ) (w : World Q)
      {r : World Q × Verdict}
      → IsKeyed w.registry
      → count_of_model model w ≡ suc n
      → ensure config env outside model w ≡ some r
      → IsCounted n r
  unfolding ensure
  ensure-IsCounted config env outside n w {r} v h e =
      let ((w', result), done, e') =
        >>=-eq-some (ensure_deployment config env outside.answers model w) _ e in
      let same =
        ensure_deployment-count config env outside.answers model w v (rw h (omega arith)) done in
      subst (IsCounted n) (some-injective _ r e') (settle_ensured-IsCounted n w' result (same ∙ h))

  prepare-IsCounted :
      (config : Config) (env : Env) (outside : Outside) (n : ℕ) (state : DeploymentState)
      (w : World Q) {r : World Q × Verdict}
      → state ≢ state_deleting
      → IsKeyed w.registry
      → count_of_model model w ≡ suc n
      → prepare config env outside model state w ≡ some r
      → IsCounted n r
  unfolding prepare IsCounted
  prepare-IsCounted config env outside n state_nonexistent w live v h e =
      ensure-IsCounted config env outside n w v h e
  prepare-IsCounted config env outside n state_creating w {r} live v h e =
      let ((w', result), done, e') =
        >>=-eq-some (wait_for_pod_ready w model (env.draw 5) outside.answers.turns) _ e in
      let same = wait_for_pod_ready-count w model (env.draw 5) outside.answers.turns done in
      subst (IsCounted n) (some-injective _ r e') (settle_waited-IsCounted n w' result (same ∙ h))
  prepare-IsCounted config env outside n state_ready w {r} live v h e =
      let (t, _, e') =
        >>=-eq-some
          (sync_allocation w.tracker (env.draw 6) model.name model.namespace model.memory
            model.node_selector)
          _ e in
      subst (IsCounted n) (some-injective _ r e') h
  prepare-IsCounted config env outside n state_deleting w live v h e = absurd (live refl)

  conclude-IsCounted :
      (kept : Bool) (env : Env) (backend : Backend) (n : ℕ) (w : World Q) (v : Verdict)
      → kept ≡ true
      → IsCounted n (w, v)
      → (conclude kept env backend model (w, v)).1 ≢ unanswered
      → count_of_model model (conclude kept env backend model (w, v)).0 ≡ n
  unfolding conclude forward deferred IsCounted
  conclude-IsCounted false env backend n w v on h q = cc
  conclude-IsCounted true env not_requested n w proceed on h q = finished-count n w h
  conclude-IsCounted true env left n w proceed on h q = finished-count n w h
  conclude-IsCounted true env unreachable n w proceed on h q = finished-count n w h
  conclude-IsCounted true env answered n w proceed on h q = finished-count n (noted env model w) h
  conclude-IsCounted true env backend n w (reply unanswered) on h q = absurd (q refl)
  conclude-IsCounted true env backend n w (reply _) on h q = h

  -- With a registry that is keyed by its entries, a request for a model whose deployment is not
  -- being deleted leaves the count of the model's requests in flight as it was, whatever the
  -- answer.
  pub serve_model-count :
      (config : Config) (env : Env) (outside : Outside) (w : World Q) {r : World Q × Reply}
      → config.has_registry ≡ true
      → IsKeyed w.registry
      → state_of (get w.registry model.namespace model.name) ≢ state_deleting
      → serve_model config env outside model w ≡ some r
      → r.1 ≢ unanswered
      → count_of_model model r.0 ≡ count_of_model model w
  unfolding serve_model
  serve_model-count config env outside w {r} on v live e answered' =
      let key = entry_key model.namespace model.name in
      let started : World Q = record w {
        registry = record_request w.registry model.namespace model.name env.now;
      } in
      let up = active-record_request w.registry model.namespace model.name env.now key in
      let one : count_of_model model started ≡ suc (count_of_model model w) =
        rw (eq_refl key) at up in
      let ((w', verdict), ready, e') =
        >>=-eq-some
          (prepare config env outside model
            (state_of (get started.registry model.namespace model.name)) started)
          _ e in
      let counted =
        prepare-IsCounted config env outside (count_of_model model w)
          (state_of (get started.registry model.namespace model.name)) started
          (state_of-record_request w.registry model.namespace model.name env.now live)
          (record_request-IsKeyed w.registry model.namespace model.name env.now v) one ready in
      let same = some-injective _ r e' in
      subst (λ (x : World Q × Reply). count_of_model model x.0 ≡ count_of_model model w) same
        (conclude-IsCounted config.has_registry env outside.backend (count_of_model model w) w'
          verdict on counted
          (subst (λ (x : World Q × Reply). x.1 ≢ unanswered) (sym same) answered'))
