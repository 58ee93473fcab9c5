-- ===== src/Proxy/Idle.antt =====
-- internal/proxy/server.go: the idle tracker.
use inference_budget_control.Prelude.{
  ℕ, ◌-◌, ◌≡◌, String, str_eq, eq_iff, Option, none, some, arith, if◌then◌else◌,
}
use inference_budget_control.Prelude.Dict.{Dict, lookup, insert, lookup-insert}
use inference_budget_control.Registry.{entry_key}

abbrev pub IdleTracker : Type 0
IdleTracker = Dict ℕ

unfoldable pub note_request : IdleTracker → String → String → ℕ → IdleTracker
note_request t namespace name now = insert (entry_key namespace name) now t

elapsed : ℕ → Option ℕ → ℕ
elapsed now none = 0
elapsed now (some last) = now - last

-- `time.Since` of the last request, by a clock that does not go back; 0 for an unknown model.
unfoldable pub get_idle_duration : IdleTracker → String → String → ℕ → ℕ
unfolding elapsed
get_idle_duration t namespace name now = elapsed now (lookup (entry_key namespace name) t)

unfoldable pub get_idle_since : IdleTracker → String → String → Option ℕ
get_idle_since t namespace name = lookup (entry_key namespace name) t

-- After a request the model's idle time counts from it, and no other model's idle time changes.
pub get_idle_duration-note_request :
    (t : IdleTracker) (namespace name namespace' name' : String) (at later : ℕ)
    → get_idle_duration (note_request t namespace name at) namespace' name' later ≡ (
        if str_eq (entry_key namespace name) (entry_key namespace' name')
        then later - at
        else get_idle_duration t namespace' name' later)
unfolding get_idle_duration note_request
get_idle_duration-note_request t namespace name namespace' name' at later = ground (
  arith,
  eq_iff (entry_key namespace name) (entry_key namespace' name'),
  lookup-insert (entry_key namespace name) (entry_key namespace' name') at t,
)
