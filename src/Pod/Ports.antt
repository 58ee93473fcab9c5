-- ===== src/Pod/Ports.antt =====
-- internal/proxy/handler.go: the port on which the inference container of a pod listens, and the one to
-- which requests go.
use inference_budget_control.Prelude.{
  none, some, ◌≡◌, ◌≢◌, refl, sym, ◌∙◌, subst, Bool, true, false, arith, >>=-eq-some,
}
use mathlib.Core.Option.{some-injective, none-ne-some}
use inference_budget_control.Quantity.{Quantities}
use inference_budget_control.Pod.{Kube, ModelSpec, BackendSpec}
use inference_budget_control.Pod.Resolve.{resolve_port, backend_port, override}
use inference_budget_control.Pod.Resources.{build_resource_requirements}
use inference_budget_control.Pod.Build.{Pod, build_pod, build_main_container, build_pod_spec}

module _ {Q : Type 0} ⦃ops : Quantities Q⦄ {K : Kube} where
  -- The inference container and its three probes use the port that resolvePort gives.
  pub build_pod-ports :
      (owned : Bool) (model : ModelSpec K) (backend : BackendSpec K) {pod : Pod K Q}
      → build_pod owned model backend ≡ some pod
      → let main = pod.spec.main in
        (main.port ≡ resolve_port model backend)
        × (main.startup_probe.port ≡ main.port)
        × (main.readiness_probe.port ≡ main.port)
        × (main.liveness_probe.port ≡ main.port)
  unfolding build_pod build_main_container build_pod_spec
  build_pod-ports false model backend e =
      let (_, _, e') = >>=-eq-some (build_resource_requirements model backend) _ e in
      absurd (none-ne-some _ e')
  build_pod-ports true model backend {pod} e =
      let (_, _, e') = >>=-eq-some (build_resource_requirements model backend) _ e in
      subst
        (λ (p : Pod K Q).
          let main = p.spec.main in
          (main.port ≡ resolve_port model backend)
          × (main.startup_probe.port ≡ main.port)
          × (main.readiness_probe.port ≡ main.port)
          × (main.liveness_probe.port ≡ main.port))
        (some-injective _ pod e') (refl, refl, refl, refl)

  -- For a backend with a port other than 8080 and a model that overrides nothing and names no port
  -- of its service, requests go to a port other than the one on which the inference container of
  -- the pod listens; of a sidecar nothing is said.
  pub backend_port_mismatch :
      (owned : Bool) (model : ModelSpec K) (backend : BackendSpec K) {pod : Pod K Q}
      → model.service_port ≡ none
      → model.backend_overrides ≡ none
      → backend.port ≢ 0
      → backend.port ≢ 8080
      → build_pod owned model backend ≡ some pod
      → backend_port model ≢ pod.spec.main.port
  unfolding resolve_port backend_port override
  backend_port_mismatch owned model backend {pod} no_port no_override given apart built same =
      let listens = (build_pod-ports owned model backend built).0 in
      let named : pod.spec.main.port ≡ backend.port =
        listens ∙ rw (no_override, override) (ground arith) in
      let goes : backend_port model ≡ 8080 = rw no_port refl in apart (sym named ∙ sym same ∙ goes)
