-- ===== src/Proxy/Serving.antt =====
-- internal/proxy/handler.go: `openaiPassthroughHandler` from `RecordRequest` on, for a server with a
-- registry, and `forwardToBackend` as far as it changes state.
use inference_budget_control.Prelude.{ℕ, String, Option, none, some, List, Bool, true, false, ◌>>=◌}
use inference_budget_control.Quantity.{Quantities}
use inference_budget_control.Budget.{sync_allocation}
use inference_budget_control.Registry.{
  DeploymentState, DeploymentEntry, state_nonexistent, state_creating, state_ready, state_deleting,
  get, record_request, finish_request,
}
use inference_budget_control.Proxy.{InferenceModel, Config, World, Env}
use inference_budget_control.Proxy.Idle.{note_request}
use inference_budget_control.Proxy.Waiting.{
  Turn, WaitResult, wait_ok, waiting, wait_for_pod_ready, wait_for_pod_deleted,
}
use inference_budget_control.Proxy.Deployment.{
  Answers, Ensured, ensured, still_waiting, ensure_deployment,
}

-- A model that blocks an allocation, and the details of the answer 429.
pub record BlockingModel : Type 0 where
  pub model : String
  pub memory : String
  pub idle_for : ℕ

pub record InsufficientMemory : Type 0 where
  pub model : String
  pub requested : String
  pub available : String
  pub blocking : List BlockingModel

-- The answer of a handler, named by its `code`. `client_left` is an aborted request, `no_answer` a
-- return without one, `panicked` a panic, and `unanswered` a call that still waits.
pub data Reply : Type 0 where
  invalid_request internal_error model_not_found model_downloading pod_failed deployment_timeout
        scale_up_failed model_not_ready backend_unavailable client_left no_answer panicked forwarded
        unanswered :
      Reply
  insufficient_memory : InsufficientMemory → Reply

-- The part before the backend either ends the request or lets it proceed.
pub data Verdict : Type 0 where
  proceed : Verdict
  reply : Reply → Verdict

-- What becomes of the request to the backend.
pub data Backend : Type 0 where
  not_requested left unreachable answered : Backend

-- What `Get` of a pod answers in `triggerScaleUp`.
pub data PodLookup : Type 0 where
  pod_there pod_absent lookup_failed : PodLookup

-- What the outside answers to one request: the calls of `ensureDeployment`, the turns of
-- `waitForPodDeleted`, the backend, and for a server without a registry the look-up of the pod, with
-- what `waitForModelReady` reads and how its loop ends otherwise.
pub record Outside : Type 0 where
  pub answers : Answers
  pub deletion_turns : List (ℕ × Turn)
  pub backend : Backend
  pub pod_lookup : PodLookup
  pub ready_ticks : List (Option Bool)
  pub ready_end : WaitResult

-- The state that the handler switches on.
abbrev pub state_of : Option DeploymentEntry → DeploymentState
state_of none = state_nonexistent
state_of (some e) = e.state

module _ {Q : Type 0} ⦃ops : Quantities Q⦄ where
  abbrev pub finished : World Q → InferenceModel → World Q
  finished w model = record w { registry = finish_request w.registry model.namespace model.name }

  -- After `ensureDeployment`: an error ends the request with `pod_failed`.
  unfoldable pub settle_ensured : InferenceModel → World Q × Ensured → World Q × Verdict
  settle_ensured model (w, ensured) = (w, proceed)
  settle_ensured model (w, still_waiting) = (w, reply unanswered)
  settle_ensured model (w, _) = (finished w model, reply pod_failed)

  -- After `waitForPodReady` for a pod that is being created.
  unfoldable pub settle_waited : InferenceModel → World Q × WaitResult → World Q × Verdict
  settle_waited model (w, wait_ok) = (w, proceed)
  settle_waited model (w, waiting) = (w, reply unanswered)
  settle_waited model (w, _) = (finished w model, reply deployment_timeout)

  unfoldable pub ensure :
      Config → Env → Outside → InferenceModel → World Q → Option (World Q × Verdict)
  unfolding settle_ensured
  ensure config env outside model w = do
    r ← ensure_deployment config env outside.answers model w
    some (settle_ensured model r)

  -- Waiting for a deletion: its error is only logged.
  unfoldable pub recreate :
      Config → Env → Outside → InferenceModel → World Q × WaitResult → Option (World Q × Verdict)
  unfolding ensure
  recreate config env outside model (w, waiting) = some (w, reply unanswered)
  recreate config env outside model (w, _) = ensure config env outside model w

  -- The `switch` on the registry's state.
  unfoldable pub prepare :
      Config
      → Env
      → Outside
      → InferenceModel
      → DeploymentState
      → World Q
      → Option (World Q × Verdict)
  unfolding ensure recreate settle_waited
  prepare config env outside model state_nonexistent w = ensure config env outside model w
  prepare config env outside model state_creating w = do
    r ← wait_for_pod_ready w model (env.draw 5) outside.answers.turns
    some (settle_waited model r)
  prepare config env outside model state_ready w = do
    r ←
        sync_allocation w.tracker (env.draw 6) model.name model.namespace model.memory
          model.node_selector
    some (record w { tracker = r.0 }, proceed)
  prepare config env outside model state_deleting w =
      recreate config env outside model (wait_for_pod_deleted w model outside.deletion_turns)

  -- The deferred `FinishRequest`.
  unfoldable pub deferred : Bool → InferenceModel → World Q → World Q
  deferred true model w = finished w model
  deferred false model w = w

  abbrev pub noted : Env → InferenceModel → World Q → World Q
  noted env model w = record w {
    last_request = note_request w.last_request model.namespace model.name env.now;
  }

  -- `forwardToBackend`, or `forwardRawRequest`, and the deferred call.
  unfoldable pub forward : Bool → Env → Backend → InferenceModel → World Q → World Q × Reply
  unfolding deferred
  forward has_registry env not_requested model w = (deferred has_registry model w, internal_error)
  forward has_registry env left model w = (deferred has_registry model w, client_left)
  forward has_registry env unreachable model w =
      (deferred has_registry model w, backend_unavailable)
  forward has_registry env answered model w =
      (deferred has_registry model (noted env model w), forwarded)

  unfoldable pub conclude :
      Bool → Env → Backend → InferenceModel → World Q × Verdict → World Q × Reply
  unfolding forward
  conclude has_registry env backend model (w, proceed) = forward has_registry env backend model w
  conclude has_registry env backend model (w, reply r) = (w, r)

  -- From `RecordRequest` to the end.
  unfoldable pub serve_model :
      Config → Env → Outside → InferenceModel → World Q → Option (World Q × Reply)
  serve_model config env outside model w = do
    let started = record w {
      registry = record_request w.registry model.namespace model.name env.now;
    }
    r ←
        prepare config env outside model
          (state_of (get started.registry model.namespace model.name)) started
    some (conclude config.has_registry env outside.backend model r)
