-- ===== src/Proxy/Waiting.antt =====
-- internal/proxy/handler.go: the loops that wait for a pod. Their `select` is a list of what it
-- chose, turn by turn, with the time; a list that ends leaves the call waiting.
use inference_budget_control.Prelude.{
  ℕ, String, str_eq, Option, none, some, List, [], ◌∷◌, Bool, true, false, ◌&&◌, ◌||◌,
  if◌then◌else◌, ◌>>=◌,
}
use inference_budget_control.Quantity.{Quantities}
use inference_budget_control.Budget.{sync_allocation}
use inference_budget_control.Registry.{state_nonexistent, state_ready, set_state, delete_entry}
use inference_budget_control.Proxy.{InferenceModel, World}

pub record Condition : Type 0 where
  pub type_ : String
  pub status : String

-- What `Get` of the pod answers: an error, that there is none, or its conditions.
pub data PodPoll : Type 0 where
  poll_error poll_missing : PodPoll
  poll_found : List Condition → PodPoll

pub data Turn : Type 0 where
  timed_out cancelled : Turn
  ticked : PodPoll → Turn

pub data WaitResult : Type 0 where
  wait_ok wait_timeout wait_cancelled waiting : WaitResult

-- A condition PodReady with status True.
unfoldable pub is_ready : List Condition → Bool
is_ready [] = false
is_ready (c ∷ cs) = (str_eq c.type_ "Ready" && str_eq c.status "True") || is_ready cs

unfoldable pub poll_ready : PodPoll → Bool
unfolding is_ready
poll_ready (poll_found conditions) = is_ready conditions
poll_ready _ = false

unfoldable pub poll_gone : PodPoll → Bool
poll_gone poll_missing = true
poll_gone _ = false

-- `waitForModelReady`: each tick reads `Status.Ready` of the model again, `none` on an error.
unfoldable pub wait_for_model_ready : List (Option Bool) → WaitResult → WaitResult
wait_for_model_ready [] end = end
wait_for_model_ready (none ∷ ticks) end = wait_for_model_ready ticks end
wait_for_model_ready (some ready ∷ ticks) end =
    let rest = wait_for_model_ready ticks end in if ready then wait_ok else rest

module _ {Q : Type 0} ⦃ops : Quantities Q⦄ where
  -- The pod is ready: the registry says so, and the allocation is made if there is none.
  unfoldable pub pod_is_ready : World Q → InferenceModel → ℕ → ℕ → Option (World Q × WaitResult)
  pod_is_ready w model now draw = do
    r ← sync_allocation w.tracker draw model.name model.namespace model.memory model.node_selector
    some (
      record w {
        registry = set_state w.registry model.namespace model.name state_ready now;
        tracker = r.0;
      },
      wait_ok,
    )

  -- `draw` is Go's choice in the one call of `nodeSelectorKey`; `none` is a panic.
  unfoldable pub wait_for_pod_ready :
      World Q → InferenceModel → ℕ → List (ℕ × Turn) → Option (World Q × WaitResult)
  wait_for_pod_ready w model draw [] = some (w, waiting)
  wait_for_pod_ready w model draw ((now, timed_out) ∷ turns) = some (
    record w { registry = set_state w.registry model.namespace model.name state_nonexistent now },
    wait_timeout,
  )
  wait_for_pod_ready w model draw ((now, cancelled) ∷ turns) = some (w, wait_cancelled)
  wait_for_pod_ready w model draw ((now, ticked poll) ∷ turns) =
      let rest = wait_for_pod_ready w model draw turns in
      if poll_ready poll then pod_is_ready w model now draw else rest

  -- `waitForPodDeleted`: only an answer that there is no pod ends the loop by itself.
  unfoldable pub wait_for_pod_deleted :
      World Q → InferenceModel → List (ℕ × Turn) → World Q × WaitResult
  wait_for_pod_deleted w model [] = (w, waiting)
  wait_for_pod_deleted w model ((now, timed_out) ∷ turns) = (w, wait_timeout)
  wait_for_pod_deleted w model ((now, cancelled) ∷ turns) = (w, wait_cancelled)
  wait_for_pod_deleted w model ((now, ticked poll) ∷ turns) =
      let rest = wait_for_pod_deleted w model turns in
      if poll_gone poll
      then (record w { registry = delete_entry w.registry model.namespace model.name }, wait_ok)
      else rest
