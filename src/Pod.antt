-- ===== src/Pod.antt =====
-- internal/proxy/handler.go: what `buildPod` reads and makes. The types of k8s.io/api that the code
-- passes on, and the constructors that it calls, are the parameter `Kube`.
pub mod Resolve
pub mod Resources
pub mod Build
pub mod Placeholders
pub mod Guaranteed
pub mod Ports
use inference_budget_control.Prelude.{ℕ, String, Option, List, Bool}
use inference_budget_control.Budget.{NodeSelector}

pub record Kube : Type 1 where
  pub EnvVar : Type 0
  pub Volume : Type 0
  pub VolumeMount : Type 0
  pub Toleration : Type 0
  pub Affinity : Type 0
  pub Container : Type 0
  pub ContainerPort : Type 0
  pub SecurityContext : Type 0
  pub ResourceRequirements : Type 0
  -- EnvVar{Name, Value}
  pub env_var : String → String → EnvVar
  -- Volume{Name} with a PersistentVolumeClaim
  pub claim_volume : String → String → Volume
  -- VolumeMount{Name, MountPath}
  pub volume_mount : String → String → VolumeMount
  -- Toleration{Key, TolerationOpExists, TaintEffectNoSchedule}
  pub no_schedule_exists : String → Toleration

pub record ImageReference : Type 0 where
  pub repository : String
  pub tag : String
  pub digest : String

pub record GpuConfig : Type 0 where
  pub exclusive : Bool
  pub shared : Bool
  pub resource_name : String

-- Ports are not negative.
pub record BackendOverrides : Type 0 where
  pub image : Option ImageReference
  pub port : Option ℕ
  pub readiness_path : Option String
  pub gpu : Option GpuConfig

pub record HuggingFaceSource : Type 0 where
  pub model_file : String
  pub mmproj_file : String
  pub context_size : String

pub record PvcSource : Type 0 where
  pub path : String
  pub model_file : String
  pub mmproj_file : String

pub record ModelResources : Type 0 where
  pub memory : String
  pub cpu : String
  pub memory_limit : String

pub record SidecarConfig (K : Kube) : Type 0 where
  pub name : String
  pub image : String
  pub ports : List (K.ContainerPort)
  pub args : List String
  pub env : List (K.EnvVar)
  pub resources : Option (K.ResourceRequirements)

-- An InferenceModel, with the fields of its specification that the pod depends on.
pub record ModelSpec (K : Kube) : Type 0 where
  pub name : String
  pub namespace : String
  pub model_name : String
  pub backend : String
  pub hugging_face : Option HuggingFaceSource
  pub pvc_source : Option PvcSource
  pub storage_pvc : String
  pub storage_model_dir : String
  pub resources : ModelResources
  pub node_selector : NodeSelector
  pub tolerations : List (K.Toleration)
  pub affinity : Option (K.Affinity)
  pub service_port : Option ℕ
  pub sidecar : Option (SidecarConfig K)
  pub env : List (K.EnvVar)
  pub args : List String
  pub backend_overrides : Option BackendOverrides

pub record BackendSpec (K : Kube) : Type 0 where
  pub image : ImageReference
  pub port : ℕ
  pub command : List String
  pub args : List String
  pub readiness_path : String
  pub liveness_path : String
  pub env : List (K.EnvVar)
  pub security_context : Option (K.SecurityContext)
  pub volumes : List (K.Volume)
  pub volume_mounts : List (K.VolumeMount)
  pub init_containers : List (K.Container)
  pub gpu : Option GpuConfig
