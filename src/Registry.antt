-- ===== src/Registry.antt =====
-- internal/registry/registry.go: the deployment registry. Times are nanoseconds since a fixed start
-- and an argument of the method that reads the clock; a method runs under the registry's lock.
pub mod Requests
pub mod Keyed
pub mod Idle
use inference_budget_control.Prelude.{
  ℕ, suc, ◌+◌, ◌-◌, String, str_append, Option, none, some, List, [], ◌∷◌, map, Bool, true, false,
  ◌&&◌, if◌then◌else◌, ltb, leb, ◌==◌, keep,
}
use inference_budget_control.Prelude.Dict.{Dict, lookup, insert, delete, modify}

pub data DeploymentState : Type 0 where
  state_nonexistent state_creating state_ready state_deleting : DeploymentState

unfoldable pub state_string : DeploymentState → String
state_string state_nonexistent = "Nonexistent"
state_string state_creating = "Creating"
state_string state_ready = "Ready"
state_string state_deleting = "Deleting"

pub record DeploymentEntry : Type 0 where
  pub name : String
  pub namespace : String
  pub state : DeploymentState
  pub last_request_time : ℕ
  pub active_requests : ℕ
  pub created_at : ℕ

abbrev pub Registry : Type 0
Registry = Dict DeploymentEntry

unfoldable pub new_registry : Registry
new_registry = []

unfoldable pub entry_key : String → String → String
entry_key namespace name = str_append (str_append namespace "/") name

unfoldable pub get : Registry → String → String → Option DeploymentEntry
get r namespace name = lookup (entry_key namespace name) r

unfoldable pub new_entry : String → String → DeploymentState → ℕ → ℕ → DeploymentEntry
new_entry namespace name state now active = record {
  name = name;
  namespace = namespace;
  state = state;
  last_request_time = now;
  active_requests = active;
  created_at = now;
}

unfoldable pub set_state : Registry → String → String → DeploymentState → ℕ → Registry
unfolding new_entry
set_state r namespace name state now =
    let key = entry_key namespace name in
    elim (lookup key r) [
      | some _ ↦ modify key (λ e. record e { state = state }) r
      | none ↦ insert key (new_entry namespace name state now 0) r
    ]

unfoldable pub record_request : Registry → String → String → ℕ → Registry
unfolding new_entry
record_request r namespace name now =
    let key = entry_key namespace name in
    elim (lookup key r) [
      | some _ ↦
          modify key
            (λ e. record e { active_requests = suc e.active_requests; last_request_time = now }) r
      | none ↦ insert key (new_entry namespace name state_creating now 1) r
    ]

abbrev finish_entry : DeploymentEntry → DeploymentEntry
finish_entry e =
    if ltb 0 e.active_requests then record e { active_requests = e.active_requests - 1 } else e

unfoldable pub finish_request : Registry → String → String → Registry
finish_request r namespace name = modify (entry_key namespace name) (λ e. finish_entry e) r

unfoldable pub delete_entry : Registry → String → String → Registry
delete_entry r namespace name = delete (entry_key namespace name) r

abbrev pub same_state : DeploymentState → DeploymentState → Bool
same_state state_nonexistent state_nonexistent = true
same_state state_creating state_creating = true
same_state state_ready state_ready = true
same_state state_deleting state_deleting = true
same_state _ _ = false

abbrev pub entries : Registry → List DeploymentEntry
entries r = map (λ e. e.1) r

unfoldable pub list_by_state : Registry → DeploymentState → List DeploymentEntry
list_by_state r state = keep (λ e. same_state e.state state) (entries r)

-- `LastRequestTime.Before(now.Add(-idle))`; the difference stops at 0, where nothing is before it.
abbrev pub is_idle : ℕ → ℕ → DeploymentEntry → Bool
is_idle now idle e = (e.active_requests == 0) && ltb e.last_request_time (now - idle)

unfoldable pub get_idle_entries : Registry → ℕ → ℕ → List DeploymentEntry
get_idle_entries r now idle_timeout = keep (is_idle now idle_timeout) (entries r)

-- `sort.Slice` by the last request time. Go leaves the order of equal times open; this sort keeps it.
insert_by_time : DeploymentEntry → List DeploymentEntry → List DeploymentEntry
insert_by_time e [] = e ∷ []
insert_by_time e (x ∷ xs) =
    if leb e.last_request_time x.last_request_time then e ∷ x ∷ xs else x ∷ insert_by_time e xs

unfoldable pub sort_by_time : List DeploymentEntry → List DeploymentEntry
unfolding insert_by_time
sort_by_time [] = []
sort_by_time (e ∷ es) = insert_by_time e (sort_by_time es)

unfoldable pub get_idle_entries_sorted : Registry → ℕ → ℕ → List DeploymentEntry
unfolding sort_by_time
get_idle_entries_sorted r now min_idle_time =
    sort_by_time (keep (is_idle now min_idle_time) (entries r))
