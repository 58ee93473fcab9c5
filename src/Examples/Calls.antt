-- ===== src/Examples/Calls.antt =====
-- Tests of the models of `deploymentMutex` and of a whole request in internal/proxy/handler.go.
use inference_budget_control.Prelude.{some, [], ◌∷◌, ℕ, ◌≡◌, ◌≢◌, ◌⊎◌, refl, true, arith}
use inference_budget_control.Prelude.Int.{ℤ}
use inference_budget_control.Prelude.Dict.{lookup, insert, modify}
use inference_budget_control.Budget.{sync_allocation, model_key}
use inference_budget_control.Registry.{get, entry_key, record_request, finish_request}
use inference_budget_control.Registry.Keyed.{IsKeyed}
use inference_budget_control.Proxy.{World}
use inference_budget_control.Proxy.Idle.{note_request}
use inference_budget_control.Proxy.Waiting.{wait_timeout}
use inference_budget_control.Proxy.Deployment.{create_failed}
use inference_budget_control.Proxy.Serving.{
  Outside, answered, pod_there, forwarded, serve_model, prepare, conclude, forward, deferred,
}
use inference_budget_control.Proxy.Counts.{count_of_model}
use inference_budget_control.Proxy.InFlight.{serve_model-count}
use inference_budget_control.Proxy.SingleFlight.{
  Flights, not_called, queued, inside, no_calls, load_or_store, put, FlightReach, at_start,
  returned, then_step, loads, locks, reach-IsSingle, single_flight_broken,
}
use inference_budget_control.Examples.{
  whole_units, chat_busy, model, started_world, limit_ten, at_hundred,
}

chat_busy-IsKeyed : IsKeyed chat_busy
unfolding lookup entry_key
chat_busy-IsKeyed = record { distinct = (refl, (refl, tt)); keyed = (refl, (refl, tt)) }

abbrev backend_up : Outside
backend_up = record {
  answers = record { backend_found = true; pod_built = true; creation = create_failed; turns = [] };
  deletion_turns = [];
  backend = answered;
  pod_lookup = pod_there;
  ready_ticks = [];
  ready_end = wait_timeout;
}

-- Chat answers another request: afterwards its one earlier request is still counted.
abbrev chat_served : World ℤ
chat_served = record started_world {
  registry = finish_request (record_request chat_busy "ml" "chat" 100) "ml" "chat";
  last_request = ("ml/chat", 100) ∷ [];
}

serve_model-count_example :
    count_of_model (model "chat" "4") chat_served ≡ count_of_model (model "chat" "4") started_world
unfolding get lookup entry_key serve_model record_request modify prepare sync_allocation model_key
    conclude forward deferred note_request insert
serve_model-count_example =
    serve_model-count (model "chat" "4") limit_ten at_hundred backend_up started_world
      {r = (chat_served, forwarded)} refl chat_busy-IsKeyed (λ e. cc) refl (λ e. cc)

-- The call 5 is inside, and 6 waits.
abbrev one_waits : Flights
one_waits = record {
  stored = some 0;
  fresh = 1;
  calls = put 5 (inside 0) (put 6 (queued 0) (put 5 (queued 0) (λ i. not_called)));
}

reach-IsSingle_example : (one_waits.calls 6 ≢ inside 0) ⊎ ((k : ℕ) × (one_waits.calls k ≡ returned))
unfolding no_calls load_or_store
reach-IsSingle_example =
    reach-IsSingle
      (then_step (then_step (then_step at_start (loads 5 refl)) (loads 6 refl))
        (locks 5 0 refl (λ j e. ground arith)))
      5 6 0 0 (λ e. ground arith) refl

single_flight_broken_example :
    (s : Flights) × FlightReach no_calls s × (s.calls 2 ≡ inside 0) × (s.calls 3 ≡ inside 1)
single_flight_broken_example =
    single_flight_broken 1 2 3 (λ e. ground arith) (λ e. ground arith) (λ e. ground arith)
