-- ===== src/Examples/Servers.antt =====
-- Tests of the models of internal/proxy.
use inference_budget_control.Prelude.{eq_iff, none, [], ◌∷◌, ◌≡◌, refl, true, false, arith}
use inference_budget_control.Prelude.Int.{ℤ, pos, ◌+ℤ◌, ◌-ℤ◌, ◌≤ℤ◌, int64}
use inference_budget_control.Prelude.Dict.{lookup, insert, delete, modify}
use inference_budget_control.Prelude.Sums.{sum_by}
use inference_budget_control.Budget.{
  model_key, node_selector_key, release_model, can_allocate, can_allocate_locked, commit,
  release_existing, fits_new, fits_update, get_allocation, get_total_allocated_memory, total_from,
  allocate, sync_allocation,
}
use inference_budget_control.Budget.Total.{exact_total}
use inference_budget_control.Registry.{
  state_creating, state_ready, state_nonexistent, entry_key, finish_request, get, record_request,
  set_state, delete_entry, get_idle_entries_sorted, sort_by_time, new_entry,
}
use inference_budget_control.Registry.Keyed.{IsKeyed}
use inference_budget_control.Proxy.{World, Config}
use inference_budget_control.Proxy.Waiting.{
  wait_timeout, timed_out, ticked, poll_found, poll_missing, wait_for_pod_ready, pod_is_ready,
  poll_ready, is_ready,
}
use inference_budget_control.Proxy.Eviction.{
  evict_turn, evict, try_evict_for_global_limit, evict_until_freed, needed_memory,
}
use inference_budget_control.Proxy.Evicted.{IsSameFor, try_evict_for_global_limit-busy}
use inference_budget_control.Proxy.Deployment.{
  Answers, pod_created, ensured, ensure_deployment, ensure_by, exceeds_global, admit_global,
  admit_and_create, after_limit, after_backend, after_build, create_pod, allocate_and_wait,
  after_allocate,
}
use inference_budget_control.Proxy.Room.{IsUnder}
use inference_budget_control.Proxy.Limit.{ensure_deployment-IsUnder}
use inference_budget_control.Proxy.Race.{Two, Reach, before_check, after_allocation, race_exceeds}
use inference_budget_control.Proxy.Serving.{
  Outside, answered, pod_absent, deployment_timeout, serve_model, prepare, settle_waited, conclude,
}
use inference_budget_control.Proxy.ColdStart.{serve_model-unknown}
use inference_budget_control.Examples.{
  whole_units, no_draw, entry, chat_busy, model, started_world, limit_ten, at_hundred,
}

chat_busy-IsKeyed : IsKeyed chat_busy
unfolding lookup entry_key
chat_busy-IsKeyed = record { distinct = (refl, (refl, tt)); keyed = (refl, (refl, tt)) }

-- The world after embed, the idle model, was evicted.
abbrev without_embed : World ℤ
without_embed = evict at_hundred started_world (entry "embed" 20 0)

try_evict_for_global_limit-busy_example :
    IsSameFor "ml/chat" started_world
      (try_evict_for_global_limit limit_ten at_hundred (model "rank" "6") (pos 6) started_world).0
unfolding lookup
try_evict_for_global_limit-busy_example =
    try_evict_for_global_limit-busy limit_ten at_hundred (model "rank" "6") (pos 6) started_world
      "ml/chat" (entry "chat" 40 1) chat_busy-IsKeyed refl (λ idle. ground arith)

abbrev pod_comes : Answers
pod_comes = record {
  backend_found = true;
  pod_built = true;
  creation = pod_created;
  turns =
      (110, ticked poll_missing)
      ∷ (115, ticked (poll_found (record { type_ = "Ready"; status = "True" } ∷ [])))
      ∷ [];
}

-- A request of 6 for rank makes room by the eviction of embed.
abbrev with_rank : World ℤ
with_rank = record {
  tracker =
      commit (without_embed.tracker) no_draw
        (record { name = "rank"; namespace = "ml"; memory = pos 6; node_selector = none });
  registry =
      set_state (set_state (without_embed.registry) "ml" "rank" state_creating 100) "ml" "rank"
        state_ready 115;
  last_request = [];
  created = "ml/rank" ∷ [];
  deleted = "ml/embed" ∷ [];
}

ensure_deployment-IsUnder_example : IsUnder (pos 10) with_rank
unfolding ◌+ℤ◌ ◌-ℤ◌ exact_total sum_by ensure_deployment ensure_by get lookup entry_key
    admit_and_create can_allocate model_key fits_new node_selector_key after_limit admit_global
    exceeds_global int64 get_total_allocated_memory total_from try_evict_for_global_limit
    get_idle_entries_sorted evict_until_freed evict_turn get_allocation allocate can_allocate_locked
    commit fits_update release_existing release_model sync_allocation delete insert modify
    after_allocate after_backend after_build allocate_and_wait create_pod evict needed_memory
    is_ready pod_is_ready poll_ready wait_for_pod_ready delete_entry new_entry set_state
    sort_by_time
ensure_deployment-IsUnder_example =
    ensure_deployment-IsUnder limit_ten at_hundred pod_comes (model "rank" "6") (pos 6) refl
      (ground arith) started_world {r = (with_rank, ensured)} (λ le. ground arith) (ground arith)
      (record { nonneg = (ground arith, (ground arith, tt)); within = ground arith }) refl

abbrev fresh_world : World ℤ
fresh_world = record {
  tracker = record { node_budgets = []; allocations = []; usage_tracking = [] };
  registry = [];
  last_request = [];
  created = [];
  deleted = [];
}

race_exceeds_example :
    (s : Two ℤ) × Reach limit_ten at_hundred
      (model "chat" "6")
      (model "rank" "6")
      (record { world = fresh_world; first = before_check; second = before_check })
      s
    × (s.first ≡ after_allocation)
    × (s.second ≡ after_allocation)
    × (¬ (exact_total s.world.tracker.allocations ≤ℤ pos 10))
unfolding exceeds_global get_total_allocated_memory total_from lookup ◌+ℤ◌ model_key exact_total
    sum_by int64
race_exceeds_example =
    race_exceeds limit_ten at_hundred (model "chat" "6") (model "rank" "6") (pos 6) (pos 6)
      fresh_world refl (λ e. ground (arith, eq_iff "ml/chat" "ml/rank")) refl refl refl refl refl
      refl (λ le. ground arith)

-- A first request for rank, whose pod nobody makes: the waiting loop times out.
abbrev no_pod : Outside
no_pod = record {
  answers = record {
    backend_found = true;
    pod_built = true;
    creation = pod_created;
    turns = (110, ticked poll_missing) ∷ (400, timed_out) ∷ [];
  };
  deletion_turns = [];
  backend = answered;
  pod_lookup = pod_absent;
  ready_ticks = [];
  ready_end = wait_timeout;
}

abbrev gave_up : World ℤ
gave_up = record fresh_world {
  registry =
      (
        "ml/rank",
        record {
          name = "rank";
          namespace = "ml";
          state = state_nonexistent;
          last_request_time = 100;
          active_requests = 0;
          created_at = 100;
        },
      )
      ∷ [];
}

serve_model-unknown_example : gave_up.created ≡ []
unfolding lookup serve_model prepare get record_request insert entry_key wait_for_pod_ready
    poll_ready conclude settle_waited finish_request set_state modify
serve_model-unknown_example =
    serve_model-unknown limit_ten at_hundred no_pod (model "rank" "6") fresh_world
      {r = (gave_up, deployment_timeout)} refl refl

abbrev no_registry : Config
no_registry = record limit_ten { has_registry = false }
