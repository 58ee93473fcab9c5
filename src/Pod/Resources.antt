-- ===== src/Pod/Resources.antt =====
-- internal/proxy/handler.go: `buildResourceRequirements`.
use inference_budget_control.Prelude.{
  String, Option, none, some, [], true, false, ◌||◌, if◌then◌else◌, ◌>>=◌,
}
use inference_budget_control.Prelude.Dict.{Dict, insert}
use inference_budget_control.Quantity.{Quantities}
use inference_budget_control.Pod.{Kube, GpuConfig, ModelResources, ModelSpec, BackendSpec}
use inference_budget_control.Pod.Resolve.{is_empty, gpu_config}

-- corev1.ResourceRequirements, as far as it is filled.
pub record Requirements (Q : Type 0) : Type 0 where
  pub requests : Dict Q
  pub limits : Dict Q

unfoldable pub gpu_resource_name : GpuConfig → String
gpu_resource_name g =
    if is_empty g.resource_name
    then (if g.shared then "amd.com/gpu-shared" else "nvidia.com/gpu")
    else g.resource_name

module _ {Q : Type 0} ⦃ops : Quantities Q⦄ where
  -- One entry of a list, where the text is not empty and parses.
  unfoldable pub put_parsed : String → String → Dict Q → Dict Q
  put_parsed name text list =
      if is_empty text
      then list
      else elim (ops.parse text) [ none ↦ list | some q ↦ insert name q list ]

  unfoldable pub with_memory : ModelResources → Requirements Q
  unfolding put_parsed
  with_memory r = record {
    requests = put_parsed "cpu" r.cpu (put_parsed "memory" r.memory []);
    limits =
        if is_empty r.memory_limit
        then put_parsed "memory" r.memory []
        else put_parsed "memory" r.memory_limit [];
  }

  -- The GPU; `none` is a panic of MustParse("1").
  unfoldable pub with_gpu : Option GpuConfig → Requirements Q → Option (Requirements Q)
  with_gpu none r = some r
  with_gpu (some g) r = elim (g.exclusive || g.shared) [
    | false ↦ some r
    | true ↦ ops.parse "1" >>= λ one. some (record {
      requests = insert (gpu_resource_name g) one r.requests;
      limits = insert (gpu_resource_name g) one r.limits;
    })
  ]

  unfoldable pub build_resource_requirements :
      {K : Kube} → ModelSpec K → BackendSpec K → Option (Requirements Q)
  unfolding with_memory with_gpu
  build_resource_requirements model backend =
      with_gpu (gpu_config model backend) (with_memory model.resources)
