-- ===== src/Pod/Resolve.antt =====
-- internal/proxy/handler.go: from the port of a pod to its arguments; api/v1alpha1/shared_types.go: the
-- image's name; and the Go library's `strings.ReplaceAll` and `%d`, as far as they are used.
use Prim.Native.String.{len as byte_len}
use text.Mathlib.Text.{starts_with}
use inference_budget_control.Prelude.{
  ℕ, zero, suc, ◌-◌, ◌/◌, ◌%◌, String, str_eq, str_append, Option, none, some, List, [], ◌∷◌, ◌++◌,
  map, Bool, true, false, not, if◌then◌else◌, ltb, ◌==◌,
}
use inference_budget_control.Pod.{
  Kube, ImageReference, GpuConfig, BackendOverrides, HuggingFaceSource, ModelSpec, BackendSpec,
}

digit : ℕ → String
digit n =
    if n == 0
    then "0"
    else (if n == 1
        then "1"
        else (if n == 2
            then "2"
            else (if n == 3
                then "3"
                else (if n == 4
                    then "4"
                    else (if n == 5
                        then "5"
                        else (if n == 6
                            then "6"
                            else (if n == 7 then "7" else (if n == 8 then "8" else "9"))))))))

-- The digits of a number below 10 ^ (fuel + 1).
decimal_from : ℕ → ℕ → String
unfolding digit
decimal_from zero n = digit (n % 10)
decimal_from (suc fuel) n =
    let above = decimal_from fuel (n / 10) in
    if ltb n 10 then digit n else str_append above (digit (n % 10))

-- %d of an int32, which has at most ten digits.
unfoldable pub decimal : ℕ → String
unfolding decimal_from
decimal n = decimal_from 9 n

-- After `skip` more characters of a match, each match of `old` from the left becomes `new`.
replace_from : ℕ → String → String → String → String
replace_from skip old new String.[] = String.[]
replace_from (suc skip) old new (String.◌∷◌ c s) = replace_from skip old new s
replace_from zero old new (String.◌∷◌ c s) = elim (starts_with (String.◌∷◌ c s) old) [
  | true ↦ str_append new (replace_from (byte_len old - 1) old new s)
  | false ↦ String.◌∷◌ c (replace_from zero old new s)
]

-- strings.ReplaceAll, for an `old` of ASCII characters that is not empty.
unfoldable pub replace_all : String → String → String → String
unfolding replace_from
replace_all s old new = replace_from zero old new s

abbrev pub is_empty : String → Bool
is_empty s = str_eq s ""

-- `GetImage`, of a reference that is not nil.
unfoldable pub get_image : ImageReference → String
get_image i =
    if not (is_empty i.digest)
    then str_append (str_append i.repository "@") i.digest
    else (if not (is_empty i.tag)
        then str_append (str_append i.repository ":") i.tag
        else i.repository)

abbrev pub or_else {ℓ} : {A : Type ℓ} → Option A → A → A
or_else none a = a
or_else (some b) a = b

-- Of HF_SOURCE and MMPROJ_SOURCE.
pub record SourcePaths : Type 0 where
  pub hf_source : String
  pub mmproj_source : String

abbrev pub in_dir : String → String → String
in_dir dir file = str_append (str_append dir "/") file

abbrev pub file_or_dir : String → String → String
file_or_dir dir file = if is_empty file then dir else in_dir dir file

abbrev pub file_or_none : String → String → String
file_or_none dir file = if is_empty file then "" else in_dir dir file

-- The two tests of the loop in `buildContainerArgs`. Both read the argument as it was.
unfoldable pub substitute : SourcePaths → String → String
unfolding replace_all
substitute paths arg =
    let first =
      if is_empty paths.hf_source then arg else replace_all arg "$(HF_SOURCE)" paths.hf_source in
    if is_empty paths.mmproj_source
    then first
    else replace_all arg "$(MMPROJ_SOURCE)" paths.mmproj_source

-- --ctx-size, where the source is a HuggingFace one with a context size.
unfoldable pub context_args : Option HuggingFaceSource → List String
context_args none = []
context_args (some hf) =
    if is_empty hf.context_size then [] else "--ctx-size" ∷ hf.context_size ∷ []

unfoldable pub override {ℓ} :
    {A : Type ℓ} → (BackendOverrides → Option A) → Option BackendOverrides → A → A
override field none a = a
override field (some o) a = or_else (field o) a

context_env : (K : Kube) → Option HuggingFaceSource → List (K.EnvVar)
context_env K none = []
context_env K (some hf) =
    if is_empty hf.context_size then [] else K.env_var "CONTEXT_SIZE" hf.context_size ∷ []

module _ {K : Kube} where
  unfoldable pub resolve_port : ModelSpec K → BackendSpec K → ℕ
  unfolding override
  resolve_port model backend =
      override (λ o. o.port) model.backend_overrides
        (if backend.port == 0 then 8080 else backend.port)

  unfoldable pub resolve_image : ModelSpec K → BackendSpec K → String
  unfolding override get_image
  resolve_image model backend =
      get_image (override (λ o. o.image) model.backend_overrides backend.image)

  -- The readiness path and the liveness path.
  unfoldable pub resolve_probe_paths : ModelSpec K → BackendSpec K → String × String
  unfolding override
  resolve_probe_paths model backend =
      let readiness =
        override (λ o. o.readiness_path) model.backend_overrides
          (if is_empty backend.readiness_path then "/health" else backend.readiness_path) in
      (readiness, (if is_empty backend.liveness_path then readiness else backend.liveness_path))

  unfoldable pub gpu_config : ModelSpec K → BackendSpec K → Option GpuConfig
  gpu_config model backend = elim model.backend_overrides [
    | none ↦ backend.gpu
    | some o ↦ elim o.gpu [ none ↦ backend.gpu | some g ↦ some g ]
  ]

  unfoldable pub build_container_env : ModelSpec K → BackendSpec K → ℕ → List (K.EnvVar)
  unfolding context_env
  build_container_env model backend port =
      (K.env_var "MODEL_NAME" model.model_name
        ∷ K.env_var "BACKEND_URL" (str_append "http://localhost:" (decimal port))
        ∷ K.env_var "PORT" (decimal port)
        ∷ [])
      ++ context_env K model.hugging_face
      ++ backend.env
      ++ model.env

  -- model.Spec.Source.HuggingFace != nil && model.Spec.Storage.PVC != ""
  unfoldable pub uses_cache : ModelSpec K → Bool
  uses_cache model = elim model.hugging_face [
    | none ↦ false
    | some hf ↦ not (is_empty model.storage_pvc)
  ]

  unfoldable pub build_volume_config :
      ModelSpec K → BackendSpec K → List (K.Volume) × List (K.VolumeMount)
  build_volume_config model backend =
      let cached = uses_cache model in
      (
        (if cached
            then backend.volumes ++ (K.claim_volume "model-cache" model.storage_pvc ∷ [])
            else backend.volumes),
        (if cached
            then backend.volume_mounts ++ (K.volume_mount "model-cache" "/models" ∷ [])
            else backend.volume_mounts),
      )

  unfoldable pub get_model_dir : ModelSpec K → String
  get_model_dir model = str_append "/models/" (
      if is_empty model.storage_model_dir
      then replace_all model.model_name "/" "-"
      else model.storage_model_dir)

  unfoldable pub resolve_source_paths : ModelSpec K → SourcePaths
  resolve_source_paths model = elim model.hugging_face [
    | some hf ↦ record {
      hf_source = file_or_dir (get_model_dir model) hf.model_file;
      mmproj_source = file_or_none (get_model_dir model) hf.mmproj_file;
    }
    | none ↦ elim model.pvc_source [
      | some pvc ↦ record {
        hf_source = file_or_dir pvc.path pvc.model_file;
        mmproj_source = file_or_none pvc.path pvc.mmproj_file;
      }
      | none ↦ record { hf_source = ""; mmproj_source = "" }
    ]
  ]

  unfoldable pub build_container_args : ModelSpec K → BackendSpec K → SourcePaths → List String
  unfolding substitute context_args
  build_container_args model backend paths =
      map (substitute paths) (backend.args ++ model.args) ++ context_args model.hugging_face

  -- The port that `forwardToBackend` and `getBackendURL` connect to.
  unfoldable pub backend_port : ModelSpec K → ℕ
  backend_port model = or_else model.service_port 8080

  unfoldable pub get_backend_url : ModelSpec K → String
  unfolding backend_port
  get_backend_url model =
      str_append
        (str_append (str_append (str_append (str_append "http://" model.name) ".") model.namespace)
          ".svc:")
        (decimal (backend_port model))
