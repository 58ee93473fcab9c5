-- ===== src/Examples/Pods.antt =====
-- Tests of the models of `buildPod` in internal/proxy/handler.go.
use inference_budget_control.Prelude.{
  eq_iff, String, none, some, [], ◌∷◌, ◌≡◌, ◌≢◌, refl, true, false, arith,
}
use inference_budget_control.Prelude.Int.{ℤ, pos}
use inference_budget_control.Prelude.Dict.{insert, lookup}
use inference_budget_control.Pod.{Kube, ModelSpec, BackendSpec}
use inference_budget_control.Pod.Resolve.{
  SourcePaths, build_container_args, substitute, replace_all, context_args, resolve_port,
  backend_port, override, gpu_config,
}
use inference_budget_control.Pod.Resources.{
  Requirements, build_resource_requirements, with_memory, with_gpu, put_parsed, gpu_resource_name,
}
use inference_budget_control.Pod.Build.{build_pod, build_main_container, build_pod_spec}
use inference_budget_control.Pod.Guaranteed.{build_pod-IsGuaranteed}
use inference_budget_control.Pod.Ports.{backend_port_mismatch}
use inference_budget_control.Examples.{whole_units}

abbrev names_only : Kube
names_only = record {
  EnvVar = String × String;
  Volume = String;
  VolumeMount = String;
  Toleration = String;
  Affinity = Unit;
  Container = String;
  ContainerPort = Unit;
  SecurityContext = Unit;
  ResourceRequirements = Unit;
  env_var = λ name value. (name, value);
  claim_volume = λ name claim. claim;
  volume_mount = λ name path. path;
  no_schedule_exists = λ key. key;
}

-- A vision model that asks for 4 and no CPU, on a backend with a GPU and the port 9000.
abbrev vision : ModelSpec names_only
vision = record {
  name = "vision";
  namespace = "ml";
  model_name = "org/vision";
  backend = "llama";
  hugging_face =
      some (record { model_file = "model.gguf"; mmproj_file = "mmproj.gguf"; context_size = "" });
  pvc_source = none;
  storage_pvc = "models";
  storage_model_dir = "";
  resources = record { memory = "4"; cpu = ""; memory_limit = "" };
  node_selector = none;
  tolerations = [];
  affinity = none;
  service_port = none;
  sidecar = none;
  env = [];
  args = [];
  backend_overrides = none;
}

abbrev llama : BackendSpec names_only
llama = record {
  image = record { repository = "llama"; tag = "1"; digest = "" };
  port = 9000;
  command = [];
  args = "--model" ∷ "$(HF_SOURCE)" ∷ "--mmproj" ∷ "$(MMPROJ_SOURCE)" ∷ [];
  readiness_path = "";
  liveness_path = "";
  env = [];
  security_context = none;
  volumes = [];
  volume_mounts = [];
  init_containers = [];
  gpu = some (record { exclusive = true; shared = false; resource_name = "" });
}

abbrev vision_paths : SourcePaths
vision_paths = record { hf_source = "/models/a"; mmproj_source = "/models/b" }

vision_args :
    build_container_args vision llama vision_paths
    ≡ "--model" ∷ "$(HF_SOURCE)" ∷ "--mmproj" ∷ "/models/b" ∷ []
unfolding build_container_args substitute replace_all context_args
vision_args = refl

abbrev vision_resources : Requirements ℤ
vision_resources = record {
  requests = ("memory", pos 4) ∷ ("nvidia.com/gpu", pos 1) ∷ [];
  limits = ("memory", pos 4) ∷ ("nvidia.com/gpu", pos 1) ∷ [];
}

build_pod-Guaranteed_example :
    lookup "nvidia.com/gpu" vision_resources.limits
    ≡ lookup "nvidia.com/gpu" vision_resources.requests
unfolding build_pod build_resource_requirements with_memory with_gpu put_parsed gpu_resource_name
    gpu_config insert build_main_container build_pod_spec
build_pod-Guaranteed_example =
    build_pod-IsGuaranteed true vision llama refl refl "nvidia.com/gpu"
      (λ e. ground (arith, eq_iff "cpu" "nvidia.com/gpu"))

backend_port_mismatch_example : backend_port vision ≢ 9000
unfolding build_pod build_resource_requirements with_memory with_gpu put_parsed gpu_resource_name
    gpu_config insert build_main_container build_pod_spec resolve_port override
backend_port_mismatch_example =
    backend_port_mismatch {Q = ℤ} true vision llama refl refl (λ e. ground arith)
      (λ e. ground arith) refl
