-- ===== src/Examples/Requests.antt =====
-- Tests of the models of internal/registry/registry.go.
use mathlib.Core.List.{Mem, Perm}
use inference_budget_control.Prelude.{ℕ, some, List, [], ◌∷◌, ◌≡◌, All, String}
use inference_budget_control.Prelude.Dict.{lookup}
use inference_budget_control.Registry.{
  DeploymentEntry, state_ready, get_idle_entries, get_idle_entries_sorted,
}
use inference_budget_control.Registry.Requests.{
  Event, starts, finishes, sets_state, active, run, count_events, active-run,
}
use inference_budget_control.Registry.Idle.{IsOldestFirst, IsIdle, get_idle_entries_sorted-lru}
use inference_budget_control.Examples.{chat_busy}

-- Chat starts two requests and ends one, in between is a change of its state and an end of another model.
abbrev history : List (ℕ × Event)
history =
    (101, starts "ml" "chat")
    ∷ (102, finishes "ml" "embed")
    ∷ (103, sets_state "ml" "chat" state_ready)
    ∷ (104, starts "ml" "chat")
    ∷ (105, finishes "ml" "chat")
    ∷ []

active-run_example :
    active "ml/chat" (run chat_busy history)
    ≡ count_events "ml/chat" (active "ml/chat" chat_busy) history
active-run_example = active-run "ml/chat" chat_busy history

get_idle_entries_sorted-lru_example :
    IsOldestFirst (get_idle_entries_sorted chat_busy 100 30)
    × Perm (get_idle_entries_sorted chat_busy 100 30) (get_idle_entries chat_busy 100 30)
    × All (IsIdle 100 30) (get_idle_entries_sorted chat_busy 100 30)
    × ((key : String) (e : DeploymentEntry)
        → lookup key chat_busy ≡ some e
        → IsIdle 100 30 e
        → Mem e (get_idle_entries_sorted chat_busy 100 30))
get_idle_entries_sorted-lru_example = get_idle_entries_sorted-lru chat_busy 100 30
