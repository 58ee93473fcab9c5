-- ===== src/Controller.antt =====
-- internal/controller/inferencemodel_controller.go: the state of one reconciliation. Kubernetes keeps
-- the status of the model and the annotation of its pod; the tracker and the registry are the proxy's.
pub mod Conditions
pub mod Idle
pub mod Status
pub mod Reconcile
pub mod Busy
pub mod Deletion
pub mod Skipped
use inference_budget_control.Prelude.{ℕ, String, Option, List, Bool}
use inference_budget_control.Prelude.Int.{ℤ, pos}
use inference_budget_control.Budget.Usage.{Recommendation}
use inference_budget_control.Proxy.{World}

-- metav1.Condition, without the observed generation, which is always 0.
pub record StatusCondition : Type 0 where
  pub type_ : String
  pub status : Bool
  pub reason : String
  pub message : String
  pub last_transition_time : ℕ

-- InferenceModelStatus, as far as the reconciliation of a pod writes it.
pub record ModelStatus : Type 0 where
  pub conditions : List StatusCondition
  pub phase : String
  pub ready : Bool
  pub replicas : ℕ
  pub available_replicas : ℕ
  pub declared_memory : String
  pub observed_peak_memory : String
  pub utilization_percent : ℤ
  pub recommendation : Option Recommendation

-- The model's name and what its reconciliation reads of its specification. A delay is what
-- time.ParseDuration makes of its text, and `none` where the text is empty or no duration.
pub record ScaledModel : Type 0 where
  pub name : String
  pub namespace : String
  pub memory : String
  pub scaling_enabled : Option Bool
  pub memory_pressure_only : Bool
  pub scale_to_zero_delay : Option ℤ
  pub cooldown_period : Option ℤ

-- `status` is the stored one. `last_request` is the time in the pod's annotation, and `none` where
-- the annotation is missing or no time.
pub record Cluster (Q : Type 0) : Type 0 where
  pub world : World Q
  pub status : ModelStatus
  pub last_request : Option ℕ

-- ctrl.Result, or an error.
pub data Outcome : Type 0 where
  completed requeue failed : Outcome
  requeue_after : ℤ → Outcome

pub data Write : Type 0 where
  written conflict write_failed : Write

pub data Removal : Type 0 where
  removed already_gone removal_failed : Removal

-- One minute and five minutes, in nanoseconds.
abbrev pub idle_check_interval : ℤ
idle_check_interval = pos 60000000000

abbrev pub default_cooldown : ℤ
default_cooldown = pos 300000000000
