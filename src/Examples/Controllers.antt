-- ===== src/Examples/Controllers.antt =====
-- Tests of the models of internal/controller.
use inference_budget_control.Prelude.{ℕ, String, none, some, [], ◌∷◌, true, false, ◌≡◌, refl, ◌⊎◌}
use inference_budget_control.Prelude.Int.{ℤ, pos, ◌-ℤ◌, ltb_ℤ}
use inference_budget_control.Prelude.Dict.{lookup, insert}
use inference_budget_control.Budget.{model_key}
use inference_budget_control.Budget.Usage.{
  Floats, record_usage, first_usage, get_utilization, peak_of,
}
use inference_budget_control.Registry.{get, entry_key, set_state, state_ready}
use inference_budget_control.Proxy.{World}
use inference_budget_control.Proxy.Waiting.{is_ready}
use inference_budget_control.Controller.{
  StatusCondition, ModelStatus, ScaledModel, Cluster, requeue_after, written, removed,
  idle_check_interval,
}
use inference_budget_control.Controller.Conditions.{set_condition_on_model, is_scaled_down}
use inference_budget_control.Controller.Idle.{
  IdleAnswers, cooldown, never_idle, handle_idle_scaling, check_idle, delete_idle_pod,
  set_ready_condition, after_lock, forget,
}
use inference_budget_control.Controller.Status.{
  PodView, StatusAnswers, update_status, observe, finish_status, note_ready, store, needs_write,
  with_conditions, with_pod, with_utilization,
}
use inference_budget_control.Controller.Reconcile.{reconcile_pod, after_idle}
use inference_budget_control.Controller.Deletion.{IsIdlePod, IsForgotten, handle_idle_scaling-world}
use inference_budget_control.Controller.Busy.{IsKept, reconcile_pod-busy}
use inference_budget_control.Examples.{whole_units, two_pools, chat_busy, started_world}

-- Numbers without fractions in place of float64.
abbrev whole_floats : Floats ℤ
whole_floats = record {
  of_int = λ z. z;
  div = λ a b. a;
  mul = λ a b. b;
  sub = ◌-ℤ◌;
  lt = ltb_ℤ;
  ceil_to_int = λ z. z;
  to_int = λ z. z;
  low_utilization = pos 1;
  safety_buffer = pos 1;
}

abbrev deployed : StatusCondition
deployed = record {
  type_ = "Ready";
  status = true;
  reason = "Deployed";
  message = "Pod is ready and serving traffic";
  last_transition_time = 3;
}

abbrev running : ModelStatus
running = record {
  conditions = deployed ∷ [];
  phase = "Deploying";
  ready = true;
  replicas = 1;
  available_replicas = 1;
  declared_memory = "3";
  observed_peak_memory = "";
  utilization_percent = pos 0;
  recommendation = none;
}

-- A model that may idle for 50.
abbrev scaled : String → String → ScaledModel
scaled name memory = record {
  name = name;
  namespace = "ml";
  memory = memory;
  scaling_enabled = none;
  memory_pressure_only = false;
  scale_to_zero_delay = some (pos 50);
  cooldown_period = none;
}

abbrev since_twenty : Cluster ℤ
since_twenty = record { world = started_world; status = running; last_request = some 20 }

abbrev idle_at : ℕ → IdleAnswers
idle_at now = record {
  now = now;
  draw = 0;
  status_write = written;
  pod_removal = removed;
  annotation_written = true;
}

handle_idle_scaling-world_example :
    let t = (handle_idle_scaling (scaled "embed" "3") (idle_at 100) since_twenty).0 in
    (t.world ≡ started_world)
    ⊎ (IsIdlePod (scaled "embed" "3") (idle_at 100) since_twenty
        × IsForgotten (scaled "embed" "3") t)
handle_idle_scaling-world_example =
    handle_idle_scaling-world (scaled "embed" "3") (idle_at 100) since_twenty

-- At 100, embed has been idle for longer than 50: its allocation goes.
embed_deleted :
    (handle_idle_scaling (scaled "embed" "3") (idle_at 100) since_twenty).0.world.deleted
    ≡ "ml/embed" ∷ []
unfolding handle_idle_scaling check_idle delete_idle_pod cooldown never_idle get lookup entry_key
    is_scaled_down set_ready_condition set_condition_on_model after_lock forget
embed_deleted = refl

abbrev ready_pod : PodView
ready_pod = record {
  conditions = record { type_ = "Ready"; status = "True" } ∷ [];
  phase = "Running";
}

abbrev measured : StatusAnswers ℤ
measured = record { now = 60; usage = some (pos 3); status_write = written }

-- Chat has a request in flight; its pod reports a memory of 3.
abbrev chat_measured : World ℤ
chat_measured = record started_world {
  tracker = record two_pools { usage_tracking = ("ml/chat", first_usage "chat" "ml" (pos 3)) ∷ [] };
  registry = set_state chat_busy "ml" "chat" state_ready 60;
}

reconcile_pod-busy_example : IsKept started_world chat_measured
unfolding get lookup entry_key reconcile_pod after_idle handle_idle_scaling never_idle update_status
    observe record_usage model_key insert get_utilization peak_of first_usage finish_status
    note_ready store needs_write with_conditions with_pod with_utilization is_ready
    set_condition_on_model
reconcile_pod-busy_example =
    reconcile_pod-busy whole_floats (scaled "chat" "4") ready_pod (idle_at 60) written measured
      since_twenty
      {r = (record since_twenty { world = chat_measured }, requeue_after idle_check_interval)} refl
      refl
