-- ===== src/Proxy.antt =====
-- internal/proxy: the state that the admission code of the proxy shares with the controller, the
-- parts of an InferenceModel that it reads, and what Kubernetes answers.
pub mod Idle
pub mod Waiting
pub mod Eviction
pub mod Deployment
pub mod Evicted
pub mod Room
pub mod Funding
pub mod Limit
pub mod Race
pub mod Serving
pub mod Legacy
pub mod Handlers
pub mod MissingPod
pub mod Counts
pub mod InFlight
pub mod SingleFlight
pub mod ColdStart
use inference_budget_control.Prelude.{
  ℕ, String, str_eq, Option, none, some, List, [], ◌∷◌, Bool, if◌then◌else◌,
}
use inference_budget_control.Prelude.Int.{ℤ}
use inference_budget_control.Prelude.Dict.{Dict}
use inference_budget_control.Budget.{NodeSelector, Tracker}
use inference_budget_control.Registry.{Registry}

-- An InferenceModel (api/v1alpha1/inferencemodel_types.go), as far as the proxy's admission reads it.
pub record InferenceModel : Type 0 where
  pub name : String
  pub namespace : String
  -- Spec.ModelName, Spec.Resources.Memory, Spec.NodeSelector
  pub model_name : String
  pub memory : String
  pub node_selector : NodeSelector
  -- Status.DownloadPhase, Status.Ready
  pub download_phase : String
  pub ready : Bool

-- The settings of `Server`. `has_registry` says that `Registry` is not nil.
pub record Config : Type 0 where
  pub max_memory_bytes : ℤ
  pub eviction_min_idle : ℕ
  pub has_registry : Bool

-- The tracker, the registry and the idle tracker, and the pods that the code has created and
-- deleted, newest first.
pub record World (Q : Type 0) : Type 0 where
  pub tracker : Tracker Q
  pub registry : Registry
  pub last_request : Dict ℕ
  pub created : List String
  pub deleted : List String

-- What `Get` and then `Delete` of a pod answer.
pub data PodDeletion : Type 0 where
  get_failed pod_deleted pod_gone delete_failed : PodDeletion

-- What is outside one call: the clock, Go's choices in each call of `nodeSelectorKey`, and the
-- answers of Kubernetes to the eviction of a pod, by the pod's key.
pub record Env : Type 0 where
  pub now : ℕ
  pub draw : ℕ → ℕ
  pub release_draw : String → ℕ
  pub check_draw : String → ℕ → ℕ
  pub pod_deletion : String → PodDeletion

-- `lookupInferenceModelByName`, on the list that Kubernetes returned.
unfoldable pub lookup_model : String → List InferenceModel → Option InferenceModel
lookup_model model_name [] = none
lookup_model model_name (m ∷ ms) =
    if str_eq m.model_name model_name then some m else lookup_model model_name ms
