-- ===== src/Proxy/Deployment.antt =====
-- internal/proxy/handler.go: `canScaleUp`, `ensureDeployment` and `triggerScaleUp`, as one thread
-- runs them.
use inference_budget_control.Prelude.{
  ℕ, ◌+◌, Option, none, some, List, ◌∷◌, Bool, true, false, not, ◌&&◌, if◌then◌else◌, ◌>>=◌,
}
use inference_budget_control.Prelude.Int.{pos, ◌+ℤ◌, int64, ltb_ℤ}
use inference_budget_control.Quantity.{Quantities}
use inference_budget_control.Budget.{Tracker, allocate, can_allocate, get_total_allocated_memory}
use inference_budget_control.Registry.{
  DeploymentState, state_nonexistent, state_creating, state_ready, same_state, DeploymentEntry,
  entry_key, get, set_state,
}
use inference_budget_control.Proxy.{InferenceModel, Config, World, Env}
use inference_budget_control.Proxy.Waiting.{Turn, WaitResult, wait_ok, waiting, wait_for_pod_ready}
use inference_budget_control.Proxy.Eviction.{try_evict_for_global_limit}

pub data Creation : Type 0 where
  pod_created already_exists create_failed : Creation

-- What Kubernetes answers to the calls of `ensureDeployment`: whether the InferenceBackend is found,
-- `buildPod` and `SetControllerReference` succeed, the pod's creation, and the waiting loop.
pub record Answers : Type 0 where
  pub backend_found : Bool
  pub pod_built : Bool
  pub creation : Creation
  pub turns : List (ℕ × Turn)

pub data Ensured : Type 0 where
  ensured insufficient_budget insufficient_global backend_missing build_failed creation_failed
        allocation_failed not_ready still_waiting :
      Ensured

abbrev pub of_wait : WaitResult → Ensured
of_wait wait_ok = ensured
of_wait waiting = still_waiting
of_wait _ = not_ready

abbrev pub is_ready_entry : Option DeploymentEntry → Bool
is_ready_entry none = false
is_ready_entry (some e) = same_state e.state state_ready

module _ {Q : Type 0} ⦃ops : Quantities Q⦄ where
  -- totalAllocated+requestedMemory.Value() > s.MaxMemoryBytes, where a maximum is set.
  unfoldable pub exceeds_global : Config → World Q → Q → Bool
  exceeds_global config w memory =
      ltb_ℤ (pos 0) config.max_memory_bytes
      && ltb_ℤ config.max_memory_bytes
          (int64 (get_total_allocated_memory w.tracker +ℤ ops.value memory))

  unfoldable pub can_scale_up : Config → Env → InferenceModel → World Q → Option Bool
  can_scale_up config env model w = do
    fits ←
        can_allocate w.tracker env.draw model.name model.namespace model.memory model.node_selector
    memory ← ops.parse model.memory
    some (fits && not (exceeds_global config w memory))

  -- The check of the global limit, with eviction and the check after it.
  unfoldable pub admit_global : Config → Env → InferenceModel → Q → World Q → World Q × Bool
  admit_global config env model memory w =
      if exceeds_global config w memory
      then (let (w', freed) = try_evict_for_global_limit config env model (ops.value memory) w in
          (w', freed && not (exceeds_global config w' memory)))
      else (w, true)

  abbrev pub with_state : World Q → InferenceModel → DeploymentState → ℕ → World Q
  with_state w model state now = record w {
    registry = set_state w.registry model.namespace model.name state now;
  }

  -- What follows `Allocate`: the clean-up where it refused, else the waiting loop.
  unfoldable pub after_allocate :
      Env → Answers → InferenceModel → World Q → Tracker Q × Bool → Option (World Q × Ensured)
  after_allocate env answers model w (t, false) = some (
    record (with_state w model state_nonexistent env.now) {
      deleted = entry_key model.namespace model.name ∷ w.deleted;
    },
    allocation_failed,
  )
  after_allocate env answers model w (t, true) = do
    done ← wait_for_pod_ready (record w { tracker = t }) model (env.draw 5) answers.turns
    some (done.0, of_wait done.1)

  -- From "Allocate memory budget" to the end: the pod exists.
  unfoldable pub allocate_and_wait :
      Env → Answers → InferenceModel → World Q → Option (World Q × Ensured)
  unfolding after_allocate
  allocate_and_wait env answers model w =
      allocate w.tracker (λ i. env.draw (i + 2)) model.name model.namespace model.memory
        model.node_selector
      >>= after_allocate env answers model w

  -- The creation of the pod.
  unfoldable pub create_pod :
      Env → Answers → Creation → InferenceModel → World Q → Option (World Q × Ensured)
  create_pod env answers create_failed model w =
      some (with_state w model state_nonexistent env.now, creation_failed)
  create_pod env answers already_exists model w = allocate_and_wait env answers model w
  create_pod env answers pod_created model w =
      allocate_and_wait env answers model
        (record w { created = entry_key model.namespace model.name ∷ w.created })

  -- What follows `buildPod` and `SetControllerReference`.
  unfoldable pub after_build :
      Env → Answers → Bool → InferenceModel → World Q → Option (World Q × Ensured)
  after_build env answers false model w =
      some (with_state w model state_nonexistent env.now, build_failed)
  after_build env answers true model w = create_pod env answers answers.creation model w

  -- What follows the look-up of the InferenceBackend.
  unfoldable pub after_backend :
      Env → Answers → Bool → InferenceModel → World Q → Option (World Q × Ensured)
  after_backend env answers false model w = some (w, backend_missing)
  after_backend env answers true model w =
      after_build env answers answers.pod_built model (with_state w model state_creating env.now)

  -- What follows the check of the global limit.
  unfoldable pub after_limit :
      Env → Answers → InferenceModel → World Q × Bool → Option (World Q × Ensured)
  after_limit env answers model (w, false) = some (w, insufficient_global)
  after_limit env answers model (w, true) = after_backend env answers answers.backend_found model w

  -- The two checks of the budget, and what follows them.
  unfoldable pub admit_and_create :
      Config → Env → Answers → InferenceModel → World Q → Option (World Q × Ensured)
  admit_and_create config env answers model w = do
    fits ←
        can_allocate w.tracker env.draw model.name model.namespace model.memory model.node_selector
    memory ← ops.parse model.memory
    elim fits [
      | false ↦ some (w, insufficient_budget)
      | true ↦ after_limit env answers model (admit_global config env model memory w)
    ]

  -- The double check of the state. A nil registry is dereferenced at once: a panic.
  unfoldable pub ensure_by :
      Bool → Config → Env → Answers → InferenceModel → World Q → Option (World Q × Ensured)
  ensure_by false config env answers model w = none
  ensure_by true config env answers model w =
      if is_ready_entry (get w.registry model.namespace model.name)
      then some (w, ensured)
      else admit_and_create config env answers model w

  unfoldable pub ensure_deployment :
      Config → Env → Answers → InferenceModel → World Q → Option (World Q × Ensured)
  unfolding ensure_by
  ensure_deployment config env answers model w =
      ensure_by config.has_registry config env answers model w
