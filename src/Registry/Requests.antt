-- ===== src/Registry/Requests.antt =====
-- The counts of active requests of internal/registry/registry.go.
use inference_budget_control.Prelude.{
  ℕ, suc, ◌-◌, String, str_eq, eq_iff, eq_refl, Option, none, some, List, [], ◌∷◌, ◌≡◌, refl,
  if◌then◌else◌, arith, Option-cases, inl, inr, ap, ◌∙◌,
}
use inference_budget_control.Prelude.Dict.{lookup, lookup-insert, lookup-modify, lookup-delete}
use inference_budget_control.Registry.{
  Registry, DeploymentEntry, DeploymentState, state_creating, entry_key, set_state, record_request,
  finish_request, delete_entry, new_entry, finish_entry,
}

abbrev count_of : Option DeploymentEntry → ℕ
count_of none = 0
count_of (some e) = e.active_requests

-- The count under a key; a deployment with no entry has no request in flight.
unfoldable pub active : String → Registry → ℕ
active key r = count_of (lookup key r)

pub active-record_request :
    (r : Registry) (namespace name : String) (now : ℕ) (key : String)
    → active key (record_request r namespace name now)
      ≡ (if str_eq (entry_key namespace name) key then suc (active key r) else active key r)
unfolding active record_request
active-record_request r namespace name now key =
    let own = entry_key namespace name in
    elim (Option-cases (lookup own r)) [
      | inl absent ↦
          rw (absent, record_request)
            (ground (
              arith,
              eq_iff own key,
              lookup-insert own key (new_entry namespace name state_creating now 1) r,
            ))
      | inr (e, present) ↦
          rw (present, record_request)
            (ground (
              arith,
              eq_iff own key,
              lookup-modify own key
                  (λ (e : DeploymentEntry). record e {
                    active_requests = suc e.active_requests;
                    last_request_time = now;
                  })
                  r,
            ))
    ]

pub active-finish_request :
    (r : Registry) (namespace name : String) (key : String)
    → active key (finish_request r namespace name)
      ≡ (if str_eq (entry_key namespace name) key then active key r - 1 else active key r)
unfolding active finish_request
active-finish_request r namespace name key =
    let own = entry_key namespace name in
    ground
      (arith, eq_iff own key, lookup-modify own key (λ (e : DeploymentEntry). finish_entry e) r)

pub active-set_state :
    (r : Registry) (namespace name : String) (state : DeploymentState) (now : ℕ) (key : String)
    → active key (set_state r namespace name state now) ≡ active key r
unfolding active set_state
active-set_state r namespace name state now key =
    let own = entry_key namespace name in
    elim (Option-cases (lookup own r)) [
      | inl absent ↦
          rw (absent, set_state)
            (ground (
              arith,
              eq_iff own key,
              lookup-insert own key (new_entry namespace name state now 0) r,
            ))
      | inr (e, present) ↦
          rw (present, set_state)
            (ground (
              arith,
              eq_iff own key,
              lookup-modify own key (λ (e : DeploymentEntry). record e { state = state }) r,
            ))
    ]

pub active-delete_entry :
    (r : Registry) (namespace name : String) (key : String)
    → active key (delete_entry r namespace name)
      ≡ (if str_eq (entry_key namespace name) key then 0 else active key r)
unfolding active delete_entry
active-delete_entry r namespace name key =
    let own = entry_key namespace name in ground (arith, eq_iff own key, lookup-delete own key r)

-- What happens to the count of one deployment, in the order of the lock.
pub data Event : Type 0 where
  starts finishes : String → String → Event
  sets_state : String → String → DeploymentState → Event

unfoldable pub apply : Registry → ℕ × Event → Registry
apply r (now, starts namespace name) = record_request r namespace name now
apply r (now, finishes namespace name) = finish_request r namespace name
apply r (now, sets_state namespace name state) = set_state r namespace name state now

unfoldable pub run : Registry → List (ℕ × Event) → Registry
run r [] = r
run r (e ∷ es) = run (apply r e) es

-- The counter that the registry is meant to keep: it goes up on a start of this deployment and down
-- on a finish, and stops at zero.
count_event : String → ℕ → ℕ × Event → ℕ
count_event key n (now, starts namespace name) =
    if str_eq (entry_key namespace name) key then suc n else n
count_event key n (now, finishes namespace name) =
    if str_eq (entry_key namespace name) key then n - 1 else n
count_event key n (now, sets_state namespace name state) = n

unfoldable pub count_events : String → ℕ → List (ℕ × Event) → ℕ
unfolding count_event
count_events key n [] = n
count_events key n (e ∷ es) = count_events key (count_event key n e) es

active-apply :
    (key : String) (r : Registry) (e : ℕ × Event)
    → active key (apply r e) ≡ count_event key (active key r) e
unfolding apply count_event
active-apply key r (now, starts namespace name) = active-record_request r namespace name now key
active-apply key r (now, finishes namespace name) = active-finish_request r namespace name key
active-apply key r (now, sets_state namespace name state) =
    active-set_state r namespace name state now key

-- From any registry and through any history of starts, finishes and changes of state, the active
-- count of a deployment is the counter of its own starts and finishes.
pub active-run :
    (key : String) (r : Registry) (es : List (ℕ × Event))
    → active key (run r es) ≡ count_events key (active key r) es
unfolding run count_events
active-run key r [] = refl
active-run key r (e ∷ es) =
    active-run key (apply r e) es ∙ ap (λ n. count_events key n es) (active-apply key r e)

-- A request that starts and finishes leaves every count as it was.
pub finish_request-record_request :
    (r : Registry) (namespace name : String) (now : ℕ) (key : String)
    → active key (finish_request (record_request r namespace name now) namespace name)
      ≡ active key r
finish_request-record_request r namespace name now key = ground (
  arith,
  active-finish_request (record_request r namespace name now) namespace name key,
  active-record_request r namespace name now key,
)

-- An entry that is deleted while a request runs forgets it: the next request and the end of the
-- first leave the count at zero.
pub delete_entry-forgets :
    (r : Registry) (namespace name : String) (start : ℕ)
    → active (entry_key namespace name) (
        finish_request
          (record_request (delete_entry r namespace name) namespace name start)
          namespace
          name)
      ≡ 0
delete_entry-forgets r namespace name start =
    let key = entry_key namespace name in
    finish_request-record_request (delete_entry r namespace name) namespace name start key
    ∙ rw (active-delete_entry r namespace name key, eq_refl key) refl
