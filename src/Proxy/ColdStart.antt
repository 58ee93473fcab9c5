-- ===== src/Proxy/ColdStart.antt =====
-- internal/proxy/handler.go: a request for a model that the registry does not know.
use inference_budget_control.Prelude.{
  ℕ, String, eq_refl, none, some, List, [], ◌∷◌, ◌≡◌, refl, sym, ◌∙◌, ap, Bool, true, false,
  >>=-eq-some, arith, Bool-cases, inl, inr,
}
use mathlib.Core.Option.{some-injective}
use inference_budget_control.Prelude.Dict.{lookup, lookup-insert}
use inference_budget_control.Quantity.{Quantities}
use inference_budget_control.Budget.{sync_allocation}
use inference_budget_control.Registry.{
  Registry, DeploymentState, get, entry_key, record_request, new_entry, state_creating,
}
use inference_budget_control.Proxy.{InferenceModel, Config, World, Env}
use inference_budget_control.Proxy.Waiting.{
  Turn, timed_out, cancelled, ticked, WaitResult, wait_ok, waiting, poll_ready, pod_is_ready,
  wait_for_pod_ready,
}
use inference_budget_control.Proxy.Serving.{
  Reply, Verdict, proceed, reply, Outside, settle_waited, prepare, conclude, forward, serve_model,
  state_of, Backend, not_requested, left, unreachable, answered, deferred, noted,
}

pub get-record_request-unknown :
    (r : Registry) (namespace name : String) (now : ℕ)
    → lookup (entry_key namespace name) r ≡ none
    → get (record_request r namespace name now) namespace name
      ≡ some (new_entry namespace name state_creating now 1)
unfolding get record_request
get-record_request-unknown r namespace name now absent =
    let own = entry_key namespace name in
    rw (absent, get, record_request)
      (ground (
        arith,
        eq_refl own,
        lookup-insert own own (new_entry namespace name state_creating now 1) r,
      ))

module _ {Q : Type 0} ⦃ops : Quantities Q⦄ where
  -- Waiting creates and deletes no pod.
  pub wait_for_pod_ready-created :
      (w : World Q) (model : InferenceModel) (draw : ℕ) (turns : List (ℕ × Turn))
      {r : World Q × WaitResult}
      → wait_for_pod_ready w model draw turns ≡ some r
      → r.0.created ≡ w.created
  unfolding wait_for_pod_ready pod_is_ready
  wait_for_pod_ready-created w model draw [] {r} e =
      ap (λ (x : World Q × WaitResult). x.0.created) (sym (some-injective _ r e))
  wait_for_pod_ready-created w model draw ((now, timed_out) ∷ turns) {r} e =
      ap (λ (x : World Q × WaitResult). x.0.created) (sym (some-injective _ r e))
  wait_for_pod_ready-created w model draw ((now, cancelled) ∷ turns) {r} e =
      ap (λ (x : World Q × WaitResult). x.0.created) (sym (some-injective _ r e))
  wait_for_pod_ready-created w model draw ((now, ticked poll) ∷ turns) {r} e =
      elim (Bool-cases (poll_ready poll)) [
        | inl ready ↦
            let (_, _, e') =
              >>=-eq-some
                (sync_allocation w.tracker draw model.name model.namespace model.memory
                  model.node_selector)
                _ (rw (ready, wait_for_pod_ready) at e) in
            ap (λ (x : World Q × WaitResult). x.0.created) (sym (some-injective _ r e'))
        | inr later ↦
            wait_for_pod_ready-created w model draw turns (rw (later, wait_for_pod_ready) at e)
      ]

  settle_waited-created :
      (model : InferenceModel) (w : World Q) (result : WaitResult)
      → (settle_waited model (w, result)).0.created ≡ w.created
  unfolding settle_waited
  settle_waited-created model w wait_ok = refl
  settle_waited-created model w waiting = refl
  settle_waited-created model w _ = refl

  deferred-created :
      (has_registry : Bool) (model : InferenceModel) (w : World Q)
      → (deferred has_registry model w).created ≡ w.created
  unfolding deferred
  deferred-created true model w = refl
  deferred-created false model w = refl

  conclude-created :
      (has_registry : Bool) (env : Env) (backend : Backend) (model : InferenceModel) (w : World Q)
      (v : Verdict)
      → (conclude has_registry env backend model (w, v)).0.created ≡ w.created
  unfolding conclude forward
  conclude-created has_registry env not_requested model w proceed =
      deferred-created has_registry model w
  conclude-created has_registry env left model w proceed = deferred-created has_registry model w
  conclude-created has_registry env unreachable model w proceed =
      deferred-created has_registry model w
  conclude-created has_registry env answered model w proceed =
      deferred-created has_registry model (noted env model w)
  conclude-created has_registry env backend model w (reply r) = refl

  prepare-creating-created :
      (config : Config) (env : Env) (outside : Outside) (model : InferenceModel) (w : World Q)
      {r : World Q × Verdict}
      → prepare config env outside model state_creating w ≡ some r
      → r.0.created ≡ w.created
  unfolding prepare
  prepare-creating-created config env outside model w {r} e =
      let (waited, done, e') =
        >>=-eq-some (wait_for_pod_ready w model (env.draw 5) outside.answers.turns) _ e in
      ap (λ (x : World Q × Verdict). x.0.created) (sym (some-injective _ r e'))
      ∙ settle_waited-created model waited.0 waited.1
      ∙ wait_for_pod_ready-created w model (env.draw 5) outside.answers.turns done

  -- A request for a model that the registry does not know creates no pod, whatever Kubernetes
  -- answers.
  pub serve_model-unknown :
      (config : Config) (env : Env) (outside : Outside) (model : InferenceModel) (w : World Q)
      {r : World Q × Reply}
      → lookup (entry_key model.namespace model.name) w.registry ≡ none
      → serve_model config env outside model w ≡ some r
      → r.0.created ≡ w.created
  unfolding serve_model new_entry
  serve_model-unknown config env outside model w {r} absent e =
      let start : World Q = record w {
        registry = record_request w.registry model.namespace model.name env.now;
      } in
      let state-eq : state_of (get start.registry model.namespace model.name) ≡ state_creating =
        ap state_of
          (get-record_request-unknown w.registry model.namespace model.name env.now absent) in
      let (v, ready, e') =
        >>=-eq-some
          (prepare config env outside model
            (state_of (get start.registry model.namespace model.name)) start)
          _ e in
      ap (λ (x : World Q × Reply). x.0.created) (sym (some-injective _ r e'))
      ∙ conclude-created config.has_registry env outside.backend model v.0 v.1
      ∙ prepare-creating-created config env outside model start (
          ap (λ (s : DeploymentState). prepare config env outside model s start) (sym state-eq)
          ∙ ready)
