-- ===== src/Proxy/Handlers.antt =====
-- internal/proxy/handler.go: the handlers, from the request's body to the answer. JSON and forms are
-- decoded by libraries; what they return is an argument.
use inference_budget_control.Prelude.{
  String, str_eq, Option, none, some, List, Bool, true, false, not, ◌&&◌, ◌>>=◌, if◌then◌else◌,
}
use inference_budget_control.Quantity.{Quantities}
use inference_budget_control.Registry.{
  DeploymentState, state_nonexistent, state_creating, state_ready, state_deleting, get,
  record_request,
}
use inference_budget_control.Proxy.{InferenceModel, Config, World, Env, lookup_model}
use inference_budget_control.Proxy.Serving.{
  Reply, invalid_request, internal_error, model_not_found, model_downloading, Verdict, proceed,
  Outside, prepare, conclude, serve_model, state_of,
}
use inference_budget_control.Proxy.Legacy.{serve_legacy}

-- The body of a request: unreadable, not of the expected form, or its field `model`.
pub data Body : Type 0 where
  unreadable malformed : Body
  decoded : String → Body

-- DownloadPhase != "" && DownloadPhase != Complete
unfoldable pub is_downloading : String → Bool
is_downloading phase = not (str_eq phase "") && not (str_eq phase "Complete")

-- The field `model`, or the server's default where it is empty.
unfoldable pub with_default : String → String → String
with_default default_model name =
    if str_eq name "" && not (str_eq default_model "") then default_model else name

module _ {Q : Type 0} ⦃ops : Quantities Q⦄ where
  -- A server with a registry, or one without.
  unfoldable pub serve_by :
      Bool → Config → Env → Outside → InferenceModel → World Q → Option (World Q × Reply)
  serve_by true config env outside model w = serve_model config env outside model w
  serve_by false config env outside model w = serve_legacy config env outside model w

  -- The look-up of the model, on what Kubernetes listed (`none` is an error), and the check of its
  -- download.
  unfoldable pub serve_named :
      Config
      → Env
      → Outside
      → Option (List InferenceModel)
      → String
      → World Q
      → Option (World Q × Reply)
  unfolding is_downloading
  serve_named config env outside none model_name w = some (w, internal_error)
  serve_named config env outside (some models) model_name w =
      elim (lookup_model model_name models) [
        | none ↦ some (w, model_not_found)
        | some model ↦ elim (is_downloading model.download_phase) [
          | true ↦ some (w, model_downloading)
          | false ↦ serve_by config.has_registry config env outside model w
        ]
      ]

  unfoldable pub openai_passthrough_handler :
      Config
      → Env
      → Outside
      → String
      → Option (List InferenceModel)
      → Body
      → World Q
      → Option (World Q × Reply)
  unfolding with_default
  openai_passthrough_handler config env outside default_model models unreadable w =
      some (w, invalid_request)
  openai_passthrough_handler config env outside default_model models malformed w =
      some (w, invalid_request)
  openai_passthrough_handler config env outside default_model models (decoded name) w =
      serve_named config env outside models (with_default default_model name) w

  -- The `switch` of `multipartPassthroughHandler`: it differs in the state Ready.
  unfoldable pub prepare_multipart :
      Config
      → Env
      → Outside
      → InferenceModel
      → DeploymentState
      → World Q
      → Option (World Q × Verdict)
  prepare_multipart config env outside model state_nonexistent w =
      prepare config env outside model state_nonexistent w
  prepare_multipart config env outside model state_creating w =
      prepare config env outside model state_creating w
  prepare_multipart config env outside model state_ready w = some (w, proceed)
  prepare_multipart config env outside model state_deleting w =
      prepare config env outside model state_deleting w

  unfoldable pub serve_multipart :
      Bool → Config → Env → Outside → InferenceModel → World Q → Option (World Q × Reply)
  unfolding prepare_multipart
  serve_multipart false config env outside model w = serve_legacy config env outside model w
  serve_multipart true config env outside model w = do
    let started = record w {
      registry = record_request w.registry model.namespace model.name env.now;
    }
    r ←
        prepare_multipart config env outside model
          (state_of (get started.registry model.namespace model.name)) started
    some (conclude config.has_registry env outside.backend model r)

  -- The form's field `model` is empty where it is missing; there is no check of a download.
  unfoldable pub multipart_passthrough_handler :
      Config
      → Env
      → Outside
      → Option (List InferenceModel)
      → String
      → World Q
      → Option (World Q × Reply)
  multipart_passthrough_handler config env outside models name w =
      if str_eq name "" then some (w, invalid_request) else elim models [
        | none ↦ some (w, internal_error)
        | some listed ↦ elim (lookup_model name listed) [
          | none ↦ some (w, model_not_found)
          | some model ↦ serve_multipart config.has_registry config env outside model w
        ]
      ]
