-- ===== src/Pod/Build.antt =====
-- internal/proxy/handler.go: `buildPod`, with the containers and the specification of the pod.
use inference_budget_control.Prelude.{
  ℕ, String, Option, none, some, List, [], ◌∷◌, ◌++◌, Bool, true, false, ◌||◌, if◌then◌else◌, ◌>>=◌,
}
use inference_budget_control.Quantity.{Quantities}
use inference_budget_control.Budget.{NodeSelector}
use inference_budget_control.Pod.{Kube, GpuConfig, SidecarConfig, ModelSpec, BackendSpec}
use inference_budget_control.Pod.Resolve.{
  is_empty, gpu_config, resolve_port, resolve_image, resolve_probe_paths, build_container_env,
  build_volume_config, uses_cache, SourcePaths, resolve_source_paths, build_container_args,
}
use inference_budget_control.Pod.Resources.{Requirements, build_resource_requirements}

pub record Probe : Type 0 where
  pub path : String
  pub port : ℕ
  pub initial_delay_seconds : ℕ
  pub period_seconds : ℕ
  pub timeout_seconds : ℕ
  pub failure_threshold : ℕ

-- The container "inference". Its readiness probe has a success threshold of 1.
pub record MainContainer (K : Kube) (Q : Type 0) : Type 0 where
  pub image : String
  pub port : ℕ
  pub env : List (K.EnvVar)
  pub volume_mounts : List (K.VolumeMount)
  pub resources : Requirements Q
  pub startup_probe : Probe
  pub readiness_probe : Probe
  pub liveness_probe : Probe
  pub args : List String
  pub command : List String
  pub security_context : Option (K.SecurityContext)

pub record PodSpec (K : Kube) (Q : Type 0) : Type 0 where
  pub main : MainContainer K Q
  pub sidecar : Option (SidecarConfig K)
  pub node_selector : NodeSelector
  pub volumes : List (K.Volume)
  pub tolerations : List (K.Toleration)
  pub affinity : Option (K.Affinity)
  pub init_containers : List (K.Container)

-- The pod; the annotation of the last request's time is left out.
pub record Pod (K : Kube) (Q : Type 0) : Type 0 where
  pub name : String
  pub namespace : String
  pub labels : List (String × String)
  pub annotations : List (String × String)
  pub spec : PodSpec K Q

abbrev pub probe : String → ℕ → ℕ → ℕ → ℕ → Probe
probe path port initial period failures = record {
  path = path;
  port = port;
  initial_delay_seconds = initial;
  period_seconds = period;
  timeout_seconds = 5;
  failure_threshold = failures;
}

-- gpuConfig != nil && (gpuConfig.Exclusive || gpuConfig.Shared)
unfoldable pub uses_gpu : Option GpuConfig → Bool
uses_gpu none = false
uses_gpu (some g) = g.exclusive || g.shared

-- The model's tolerations, or the one of GPU nodes where it has none and uses a GPU.
unfoldable pub pod_tolerations : (K : Kube) → List (K.Toleration) → Bool → List (K.Toleration)
pod_tolerations K (t ∷ ts) gpu = t ∷ ts
pod_tolerations K [] true = K.no_schedule_exists "nvidia.com/gpu" ∷ []
pod_tolerations K [] false = []

module _ {K : Kube} where
  unfoldable pub build_deployment_labels : ModelSpec K → List (String × String)
  build_deployment_labels model =
      ("app.kubernetes.io/name", model.name)
      ∷ ("app.kubernetes.io/component", "inference-server")
      ∷ ("inference.eh-ops.io/model", model.model_name)
      ∷ ("inference.eh-ops.io/backend", model.backend)
      ∷ ("inference.eh-ops.io/managed", "true")
      ∷ []

  unfoldable pub build_main_container :
      {Q : Type 0}
      → ModelSpec K
      → BackendSpec K
      → ℕ
      → String × String
      → List (K.EnvVar)
      → List (K.VolumeMount)
      → List String
      → Requirements Q
      → MainContainer K Q
  build_main_container model backend port paths env mounts args resources = record {
    image = resolve_image model backend;
    port = port;
    env = env;
    volume_mounts = mounts;
    resources = resources;
    startup_probe = probe paths.0 port 1 10 180;
    readiness_probe = probe paths.0 port 0 10 3;
    liveness_probe = probe paths.1 port 0 30 3;
    args = args;
    command = backend.command;
    security_context = backend.security_context;
  }

  -- The sidecar's name is "sidecar" where it is empty.
  unfoldable pub named_sidecar : Option (SidecarConfig K) → Option (SidecarConfig K)
  named_sidecar none = none
  named_sidecar (some s) = some (record s { name = if is_empty s.name then "sidecar" else s.name })

  unfoldable pub build_pod_spec :
      {Q : Type 0} → ModelSpec K → BackendSpec K → MainContainer K Q → List (K.Volume) → PodSpec K Q
  unfolding named_sidecar pod_tolerations uses_gpu
  build_pod_spec model backend container volumes = record {
    main = container;
    sidecar = named_sidecar model.sidecar;
    node_selector = model.node_selector;
    volumes = volumes;
    tolerations = pod_tolerations K model.tolerations (uses_gpu (gpu_config model backend));
    affinity = model.affinity;
    init_containers = backend.init_containers;
  }

  -- The environment with HF_SOURCE, for a HuggingFace model with a volume.
  unfoldable pub with_hf_source : ModelSpec K → SourcePaths → List (K.EnvVar) → List (K.EnvVar)
  with_hf_source model paths env =
      if uses_cache model then env ++ (K.env_var "HF_SOURCE" paths.hf_source ∷ []) else env

  -- `none` is a panic or an error of SetControllerReference, which `owned` says.
  unfoldable pub build_pod :
      {Q : Type 0} ⦃ops : Quantities Q⦄ → Bool → ModelSpec K → BackendSpec K → Option (Pod K Q)
  unfolding build_deployment_labels build_main_container build_pod_spec with_hf_source
  build_pod owned model backend =
      let port = resolve_port model backend in
      let paths = resolve_source_paths model in
      let volumes = build_volume_config model backend in
      build_resource_requirements model backend >>= λ resources.
      let container =
        build_main_container model backend port (resolve_probe_paths model backend)
          (with_hf_source model paths (build_container_env model backend port)) volumes.1
          (build_container_args model backend paths) resources in
      if owned
      then some (record {
        name = model.name;
        namespace = model.namespace;
        labels = build_deployment_labels model;
        annotations =
            ("inference.eh-ops.io/memory", model.resources.memory)
            ∷ ("inference.eh-ops.io/backend", model.backend)
            ∷ [];
        spec = build_pod_spec model backend container volumes.0;
      })
      else none
