-- ===== src/Proxy/Legacy.antt =====
-- internal/proxy/handler.go: the path of the handlers for a server without a registry, with
-- `handleInsufficientMemory` and `triggerScaleUp`.
use inference_budget_control.Prelude.{ℕ, ◌+◌, Option, none, some, Bool, true, false, ◌>>=◌, map}
use inference_budget_control.Quantity.{Quantities}
use inference_budget_control.Budget.{
  ModelAllocation, Tracker, allocate, get_available_memory, get_blocking_models,
}
use inference_budget_control.Proxy.{InferenceModel, Config, World, Env}
use inference_budget_control.Proxy.Idle.{get_idle_duration}
use inference_budget_control.Proxy.Waiting.{WaitResult, wait_ok, waiting, wait_for_model_ready}
use inference_budget_control.Proxy.Eviction.{try_evict_idle_models}
use inference_budget_control.Proxy.Deployment.{
  Ensured, ensured, still_waiting, can_scale_up, ensure_deployment,
}
use inference_budget_control.Proxy.Serving.{
  BlockingModel, InsufficientMemory, Reply, scale_up_failed, model_not_ready, no_answer, panicked,
  unanswered, insufficient_memory, Verdict, proceed, reply, PodLookup, pod_there, pod_absent,
  lookup_failed, Outside, conclude,
}

-- What `triggerScaleUp` comes to.
pub data ScaleUp : Type 0 where
  scaled no_budget pod_unknown not_ensured nil_registry scale_waiting : ScaleUp

abbrev pub of_ensured : Ensured → ScaleUp
of_ensured ensured = scaled
of_ensured still_waiting = scale_waiting
of_ensured _ = not_ensured

module _ {Q : Type 0} ⦃ops : Quantities Q⦄ where
  unfoldable pub blocking_model : World Q → ℕ → ModelAllocation Q → BlockingModel
  blocking_model w now a = record {
    model = a.name;
    memory = ops.to_string a.memory;
    idle_for = get_idle_duration w.last_request a.namespace a.name now;
  }

  unfoldable pub insufficient : Env → InferenceModel → World Q → InsufficientMemory
  unfolding blocking_model
  insufficient env model w = record {
    model = model.model_name;
    requested = model.memory;
    available = ops.to_string (get_available_memory w.tracker (env.draw 7) model.node_selector);
    blocking =
        map (λ a. blocking_model w env.now a)
          (get_blocking_models w.tracker (λ i. env.draw (i + 20)) model.node_selector);
  }

  -- The details of the answer 429, or `none` where eviction made room.
  unfoldable pub after_eviction :
      Env → InferenceModel → World Q × Bool → Option (World Q × Option InsufficientMemory)
  unfolding insufficient
  after_eviction env model (w, true) = some (w, none)
  after_eviction env model (w, false) = do
    _ ← ops.parse model.memory
    some (w, some (insufficient env model w))

  unfoldable pub handle_insufficient_memory :
      Config → Env → InferenceModel → World Q → Option (World Q × Option InsufficientMemory)
  unfolding after_eviction
  handle_insufficient_memory config env model w =
      try_evict_idle_models config env model w >>= after_eviction env model

  -- The pod is not there: `ensureDeployment`, which needs the registry.
  unfoldable pub ensure_absent :
      Bool → Config → Env → Outside → InferenceModel → World Q → Option (World Q × ScaleUp)
  ensure_absent false config env outside model w = some (w, nil_registry)
  ensure_absent true config env outside model w = do
    r ← ensure_deployment config env outside.answers model w
    some (r.0, of_ensured r.1)

  -- What follows `Get` of the pod.
  unfoldable pub after_lookup :
      PodLookup → Config → Env → Outside → InferenceModel → World Q → Option (World Q × ScaleUp)
  unfolding ensure_absent
  after_lookup pod_there config env outside model w = some (w, scaled)
  after_lookup lookup_failed config env outside model w = some (w, pod_unknown)
  after_lookup pod_absent config env outside model w =
      ensure_absent config.has_registry config env outside model w

  -- What follows `Allocate`.
  unfoldable pub after_budget :
      Config
      → Env
      → Outside
      → InferenceModel
      → World Q
      → Tracker Q × Bool
      → Option (World Q × ScaleUp)
  unfolding after_lookup
  after_budget config env outside model w (t, false) = some (w, no_budget)
  after_budget config env outside model w (t, true) =
      after_lookup outside.pod_lookup config env outside model (record w { tracker = t })

  unfoldable pub trigger_scale_up :
      Config → Env → Outside → InferenceModel → World Q → Option (World Q × ScaleUp)
  unfolding after_budget
  trigger_scale_up config env outside model w =
      allocate w.tracker (λ i. env.draw (i + 8)) model.name model.namespace model.memory
        model.node_selector
      >>= after_budget config env outside model w

  -- The waiting for a model that was scaled up.
  unfoldable pub settle_ready : WaitResult → World Q → World Q × Verdict
  settle_ready wait_ok w = (w, proceed)
  settle_ready waiting w = (w, reply unanswered)
  settle_ready _ w = (w, reply model_not_ready)

  unfoldable pub settle_scaled : Outside → World Q × ScaleUp → World Q × Verdict
  unfolding settle_ready
  settle_scaled outside (w, scaled) =
      settle_ready (wait_for_model_ready outside.ready_ticks outside.ready_end) w
  settle_scaled outside (w, nil_registry) = (w, reply panicked)
  settle_scaled outside (w, scale_waiting) = (w, reply unanswered)
  settle_scaled outside (w, _) = (w, reply scale_up_failed)

  unfoldable pub scale_up :
      Config → Env → Outside → InferenceModel → World Q → Option (World Q × Verdict)
  unfolding settle_scaled
  scale_up config env outside model w = do
    r ← trigger_scale_up config env outside model w
    some (settle_scaled outside r)

  -- After an eviction the handler returns whether or not the model became ready.
  unfoldable pub answer_nothing : World Q × Verdict → World Q × Verdict
  answer_nothing (w, proceed) = (w, reply no_answer)
  answer_nothing (w, reply r) = (w, reply r)

  unfoldable pub settle_insufficient :
      Config
      → Env
      → Outside
      → InferenceModel
      → World Q × Option InsufficientMemory
      → Option (World Q × Verdict)
  unfolding answer_nothing
  settle_insufficient config env outside model (w, some details) =
      some (w, reply (insufficient_memory details))
  settle_insufficient config env outside model (w, none) = do
    r ← scale_up config env outside model w
    some (answer_nothing r)

  -- What follows `canScaleUp`.
  unfoldable pub after_check :
      Config → Env → Outside → InferenceModel → World Q → Bool → Option (World Q × Verdict)
  unfolding settle_insufficient
  after_check config env outside model w true = scale_up config env outside model w
  after_check config env outside model w false =
      handle_insufficient_memory config env model w >>= settle_insufficient config env outside model

  -- The state of the model that the look-up read is `Status.Ready`.
  unfoldable pub prepare_legacy :
      Bool → Config → Env → Outside → InferenceModel → World Q → Option (World Q × Verdict)
  unfolding after_check
  prepare_legacy true config env outside model w = some (w, proceed)
  prepare_legacy false config env outside model w =
      can_scale_up config env model w >>= after_check config env outside model w

  unfoldable pub serve_legacy :
      Config → Env → Outside → InferenceModel → World Q → Option (World Q × Reply)
  serve_legacy config env outside model w = do
    r ← prepare_legacy model.ready config env outside model w
    some (conclude config.has_registry env outside.backend model r)
