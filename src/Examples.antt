-- ===== src/Examples.antt =====
-- Concrete data for the tests: quantities of whole units, two pools with two models, a registry.
pub mod Budgets
pub mod Requests
pub mod Servers
pub mod Calls
pub mod Pods
pub mod Controllers
pub mod Downloads
pub mod Files
pub mod Codec
pub mod Managers
pub mod Xets
use inference_budget_control.Prelude.{
  ℕ, String, str_eq, Option, none, some, [], ◌∷◌, Bool, true, false, refl, if◌then◌else◌,
}
use inference_budget_control.Prelude.Int.{ℤ, pos, ◌+ℤ◌, ◌-ℤ◌, compare_ℤ}
use inference_budget_control.Quantity.{Quantities}
use inference_budget_control.Budget.{NodeSelector, ModelAllocation, Tracker, new_allocation}
use inference_budget_control.Registry.{DeploymentEntry, Registry, state_ready, DeploymentState}
use inference_budget_control.Proxy.{InferenceModel, World, Config, Env, pod_deleted}

abbrev pub parse_units : String → Option ℤ
parse_units s =
    if str_eq s "1"
    then some (pos 1)
    else (if str_eq s "3"
        then some (pos 3)
        else (if str_eq s "4" then some (pos 4) else (if str_eq s "6" then some (pos 6) else none)))

instance abbrev pub whole_units : Quantities ℤ
whole_units = record {
  parse = parse_units;
  new_quantity = λ z. z;
  add = ◌+ℤ◌;
  sub = ◌-ℤ◌;
  cmp = compare_ℤ;
  value = λ z. z;
  to_string = λ z. "";
  amount = λ z. z;
  amount-zero = refl;
  amount-add = λ a b. refl;
  amount-sub = λ a b. refl;
  cmp-amount = λ a b. refl;
}

abbrev pub no_draw : ℕ → ℕ
no_draw i = 0

abbrev pub zone_a : NodeSelector
zone_a = some (("zone", "a") ∷ [])

abbrev pub zone_b : NodeSelector
zone_b = some (("zone", "b") ∷ [])

abbrev pub chat_allocation : ModelAllocation ℤ
chat_allocation = new_allocation "chat" "ml" (pos 4) zone_a

-- The model chat holds 4 of the 10 of zone a; zone b has 3 of 4 in use, by embed.
abbrev pub two_pools : Tracker ℤ
two_pools = record {
  node_budgets =
      ("zone=a", record { total = pos 10; allocated = pos 4 })
      ∷ ("zone=b", record { total = pos 4; allocated = pos 3 })
      ∷ [];
  allocations =
      ("ml/chat", chat_allocation) ∷ ("ml/embed", new_allocation "embed" "ml" (pos 3) zone_b) ∷ [];
  usage_tracking = [];
}

abbrev pub entry : String → ℕ → ℕ → DeploymentEntry
entry name last active = record {
  name = name;
  namespace = "ml";
  state = state_ready;
  last_request_time = last;
  active_requests = active;
  created_at = 1;
}

-- At time 100, chat has a request in flight, and embed has been idle since 20.
abbrev pub chat_busy : Registry
chat_busy = ("ml/chat", entry "chat" 40 1) ∷ ("ml/embed", entry "embed" 20 0) ∷ []

abbrev pub model : String → String → InferenceModel
model name memory = record {
  name = name;
  namespace = "ml";
  model_name = name;
  memory = memory;
  node_selector = none;
  download_phase = "";
  ready = false;
}

abbrev pub started_world : World ℤ
started_world = record {
  tracker = two_pools;
  registry = chat_busy;
  last_request = [];
  created = [];
  deleted = [];
}

abbrev pub limit_ten : Config
limit_ten = record { max_memory_bytes = pos 10; eviction_min_idle = 30; has_registry = true }

abbrev pub at_hundred : Env
at_hundred = record {
  now = 100;
  draw = no_draw;
  release_draw = λ key. 0;
  check_draw = λ key i. 0;
  pod_deletion = λ key. pod_deleted;
}
