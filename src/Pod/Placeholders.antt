-- ===== src/Pod/Placeholders.antt =====
-- internal/proxy/handler.go: the placeholders in the arguments of a pod's container.
use inference_budget_control.Prelude.{String, List, [], ◌∷◌, ◌++◌, map, false, ◌≡◌, refl, ap, arith}
use inference_budget_control.Pod.{Kube, ModelSpec, BackendSpec}
use inference_budget_control.Pod.Resolve.{
  SourcePaths, is_empty, substitute, context_args, build_container_args,
}

map-pointwise :
    (f g : String → String) (xs : List String) → ((x : String) → f x ≡ g x) → map f xs ≡ map g xs
map-pointwise f g [] h = refl
map-pointwise f g (x ∷ xs) h = cc (h x, map-pointwise f g xs h)

substitute-mmproj :
    (paths : SourcePaths) (hf arg : String)
    → is_empty paths.mmproj_source ≡ false
    → substitute (record paths { hf_source = hf }) arg ≡ substitute paths arg
unfolding substitute
substitute-mmproj paths hf arg given = ground arith

-- Where the model has a projector file, the arguments of the container do not depend on the path
-- of the model file.
pub build_container_args-mmproj :
    {K : Kube} (model : ModelSpec K) (backend : BackendSpec K) (paths : SourcePaths) (hf : String)
    → is_empty paths.mmproj_source ≡ false
    → build_container_args model backend (record paths { hf_source = hf })
      ≡ build_container_args model backend paths
unfolding build_container_args
build_container_args-mmproj model backend paths hf given =
    ap (λ xs. xs ++ context_args model.hugging_face)
      (map-pointwise (substitute (record paths { hf_source = hf })) (substitute paths)
        (backend.args ++ model.args) (λ arg. substitute-mmproj paths hf arg given))
