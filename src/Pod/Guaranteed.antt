-- ===== src/Pod/Guaranteed.antt =====
-- internal/proxy/handler.go: the requests and the limits of the inference container that `buildPod`
-- makes.
use inference_budget_control.Prelude.{
  String, eq_iff, Option, none, some, [], ◌≡◌, ◌≢◌, refl, sym, subst, Bool, true, false, arith,
  >>=-eq-some, ◌||◌, Option-cases, Bool-cases, inl, inr,
}
use mathlib.Core.Option.{some-injective, none-ne-some}
use inference_budget_control.Prelude.Dict.{Dict, lookup, lookup-insert}
use inference_budget_control.Quantity.{Quantities}
use inference_budget_control.Pod.{Kube, GpuConfig, ModelResources, ModelSpec, BackendSpec}
use inference_budget_control.Pod.Resolve.{is_empty, gpu_config}
use inference_budget_control.Pod.Resources.{
  Requirements, gpu_resource_name, put_parsed, with_memory, with_gpu, build_resource_requirements,
}
use inference_budget_control.Pod.Build.{Pod, build_pod, build_main_container, build_pod_spec}

module _ {Q : Type 0} ⦃ops : Quantities Q⦄ where
  put_parsed-other :
      (name text k : String) (list : Dict Q)
      → name ≢ k
      → lookup k (put_parsed name text list) ≡ lookup k list
  unfolding put_parsed
  put_parsed-other name text k list apart = elim (Bool-cases (is_empty text)) [
    | inl empty ↦ rw (empty, put_parsed) refl
    | inr given ↦ elim (Option-cases (ops.parse text)) [
      | inl wrong ↦ rw (given, put_parsed, wrong) refl
      | inr (q, parsed) ↦
          rw (given, put_parsed, parsed)
            (ground (arith, lookup-insert name k q list, eq_iff name k))
    ]
  ]

  -- The same limit as request, on every resource but the CPU.
  abbrev pub IsGuaranteed : Requirements Q → Type 0
  IsGuaranteed r = (k : String) → "cpu" ≢ k → lookup k r.limits ≡ lookup k r.requests

  with_memory-IsGuaranteed :
      (r : ModelResources) → is_empty r.memory_limit ≡ true → IsGuaranteed (with_memory r)
  unfolding with_memory
  with_memory-IsGuaranteed r same k apart =
      rw (same) (sym (put_parsed-other "cpu" r.cpu k (put_parsed "memory" r.memory []) apart))

  with_gpu-IsGuaranteed :
      (g : Option GpuConfig) (r : Requirements Q) {r' : Requirements Q}
      → IsGuaranteed r
      → with_gpu g r ≡ some r'
      → IsGuaranteed r'
  unfolding with_gpu
  with_gpu-IsGuaranteed none r {r'} v e = subst IsGuaranteed (some-injective r r' e) v
  with_gpu-IsGuaranteed (some g) r {r'} v e = elim (Bool-cases (g.exclusive || g.shared)) [
    | inr off ↦ subst IsGuaranteed (some-injective r r' (rw (off, with_gpu) at e)) v
    | inl on ↦
        let (one, _, e') = >>=-eq-some (ops.parse "1") _ (rw (on, with_gpu) at e) in
        let name = gpu_resource_name g in
        subst IsGuaranteed (some-injective _ r' e') (λ k apart. ground (
          arith,
          lookup-insert name k one r.limits,
          lookup-insert name k one r.requests,
          v k apart,
        ))
  ]

  -- The inference container that buildPod makes for a model without a memory limit of its own has
  -- the same limit as request on every resource but the CPU; of a sidecar and of init containers
  -- nothing is said.
  pub build_pod-IsGuaranteed :
      {K : Kube} (owned : Bool) (model : ModelSpec K) (backend : BackendSpec K) {pod : Pod K Q}
      → is_empty model.resources.memory_limit ≡ true
      → build_pod owned model backend ≡ some pod
      → IsGuaranteed pod.spec.main.resources
  unfolding build_pod build_resource_requirements build_main_container build_pod_spec
  build_pod-IsGuaranteed false model backend same e =
      let (_, _, e') = >>=-eq-some (build_resource_requirements model backend) _ e in
      absurd (none-ne-some _ e')
  build_pod-IsGuaranteed {K} true model backend {pod} same e =
      let (resources, built, e') = >>=-eq-some (build_resource_requirements model backend) _ e in
      subst (λ (p : Pod K Q). IsGuaranteed p.spec.main.resources) (some-injective _ pod e')
        (with_gpu-IsGuaranteed (gpu_config model backend) (with_memory model.resources)
          (with_memory-IsGuaranteed model.resources same) built)
