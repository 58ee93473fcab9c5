-- ===== src/Controller/Deletion.antt =====
-- internal/controller/inferencemodel_controller.go: when `handleIdleScaling` deletes the pod, and what
-- it leaves then.
use inference_budget_control.Prelude.{
  ℕ, String, Option, none, some, ◌∷◌, Bool, true, false, ◌||◌, ◌≡◌, refl, ◌∙◌, ◌⊎◌, inl, inr,
  Bool-cases, Option-cases, eq_refl, arith,
}
use inference_budget_control.Prelude.Int.{ltb_ℤ}
use inference_budget_control.Prelude.Dict.{lookup, lookup-delete}
use inference_budget_control.Quantity.{Quantities}
use inference_budget_control.Budget.{Tracker, model_key, release_model, get_allocation}
use inference_budget_control.Registry.{Registry, entry_key, get, delete_entry}
use inference_budget_control.Controller.{
  ScaledModel, Cluster, Removal, removed, already_gone, removal_failed, written, conflict,
  write_failed, Write,
}
use inference_budget_control.Controller.Conditions.{set_condition_on_model, is_scaled_down}
use inference_budget_control.Controller.Idle.{
  IdleAnswers, has_requests, cooldown, never_idle, idle_time, set_ready_condition, forget,
  after_lock, delete_idle_pod, update_last_request_annotation, check_idle, handle_idle_scaling,
}

get-delete_entry :
    (r : Registry) (namespace name : String)
    → get (delete_entry r namespace name) namespace name ≡ none
unfolding get delete_entry
get-delete_entry r namespace name =
    let key = entry_key namespace name in rw (lookup-delete key key r, eq_refl key) refl

neither : (a b : Bool) → (a || b) ≡ false → (a ≡ false) × (b ≡ false)
neither a b h = ground arith

module _ {Q : Type 0} ⦃ops : Quantities Q⦄ where
  get_allocation-release_model :
      (t : Tracker Q) (draw : ℕ) (name namespace : String)
      → get_allocation (release_model t draw name namespace) name namespace ≡ none
  unfolding get_allocation release_model
  get_allocation-release_model t draw name namespace =
      let key = model_key name namespace in
      elim (Option-cases (lookup key t.allocations)) [
        | inl absent ↦ rw (absent, release_model) absent
        | inr (a, present) ↦
            rw (present, release_model, lookup-delete key key t.allocations, eq_refl key) refl
      ]

  -- The model has no entry in the registry and no allocation.
  abbrev pub IsForgotten : ScaledModel → Cluster Q → Type 0
  IsForgotten model s =
      (get s.world.registry model.namespace model.name ≡ none)
      × (get_allocation s.world.tracker model.name model.namespace ≡ none)

  forget-IsForgotten :
      (model : ScaledModel) (draw : ℕ) (s : Cluster Q) → IsForgotten model (forget model draw s)
  unfolding forget
  forget-IsForgotten model draw s = (
    get-delete_entry s.world.registry model.namespace model.name,
    get_allocation-release_model s.world.tracker draw model.name model.namespace,
  )

  set_ready_condition-world :
      (s : Cluster Q) (status : Bool) (reason message : String) (now : ℕ) (write : Write)
      → (set_ready_condition s status reason message now write).0.world ≡ s.world
  unfolding set_ready_condition
  set_ready_condition-world s status reason message now write =
      decided (set_condition_on_model s.status.conditions "Ready" status reason message now).1 write
    where
      decided :
          (changed : Bool) (write : Write)
          → (let r : Cluster Q × Bool = elim changed [
            | false ↦ (s, true)
            | true ↦ elim write [
              | written ↦ (
                record s {
                  status = record (s.status) {
                    conditions =
                        (set_condition_on_model s.status.conditions "Ready" status reason message
                          now).0;
                  };
                },
                true,
              )
              | _ ↦ (s, false)
            ]
          ] in
              r.0.world ≡ s.world)
      decided false write = refl
      decided true written = refl
      decided true conflict = refl
      decided true write_failed = refl

  after_lock-world :
      (model : ScaledModel) (env : IdleAnswers) (answer : Removal) (s : Cluster Q) (locked : Bool)
      → let t = (after_lock model env answer (s, locked)).0 in
        (t.world ≡ s.world) ⊎ IsForgotten model t
  unfolding after_lock
  after_lock-world model env answer s false = inl refl
  after_lock-world model env removal_failed s true = inl refl
  after_lock-world model env already_gone s true = inr (forget-IsForgotten model env.draw s)
  after_lock-world model env removed s true = inr (
      forget-IsForgotten model env.draw (record s {
        world = record (s.world) {
          deleted = entry_key model.namespace model.name ∷ s.world.deleted;
        };
      }))

  -- Why a pod may be deleted: no request is in flight, the lock of another deletion is not set, and
  -- the pod's annotation is older than the cooldown period.
  abbrev pub IsIdlePod : ScaledModel → IdleAnswers → Cluster Q → Type 0
  IsIdlePod model env s =
      (never_idle model ≡ false)
      × (has_requests (get s.world.registry model.namespace model.name) ≡ false)
      × (is_scaled_down s.status.conditions ≡ false)
      × ((last : ℕ) × (s.last_request ≡ some last)
          × (ltb_ℤ (cooldown model) (idle_time env.now last) ≡ true))

  delete_idle_pod-world :
      (model : ScaledModel) (env : IdleAnswers) (s : Cluster Q)
      → let t = (delete_idle_pod model env s).0 in
        (t.world ≡ s.world) ⊎ ((is_scaled_down s.status.conditions ≡ false) × IsForgotten model t)
  unfolding delete_idle_pod
  delete_idle_pod-world model env s =
      let busy = has_requests (get s.world.registry model.namespace model.name) in
      let locked =
        set_ready_condition s false "ScaledToZero" "Model pod deleted due to inactivity" env.now
          env.status_write in
      elim (Bool-cases (busy || is_scaled_down s.status.conditions)) [
        | inl skip ↦ rw (skip, delete_idle_pod) (inl refl)
        | inr go ↦
            rw (go, delete_idle_pod)
              (elim (after_lock-world model env env.pod_removal locked.0 locked.1) [
                | inl same ↦ inl (
                    same
                    ∙ set_ready_condition-world s false "ScaledToZero"
                        "Model pod deleted due to inactivity" env.now env.status_write)
                | inr gone ↦ inr ((neither busy (is_scaled_down s.status.conditions) go).1, gone)
              ])
      ]

  update_last_request_annotation-world :
      (env : IdleAnswers) (done : Bool) (s : Cluster Q)
      → (update_last_request_annotation env done s).0.world ≡ s.world
  unfolding update_last_request_annotation
  update_last_request_annotation-world env true s = refl
  update_last_request_annotation-world env false s = refl

  check_idle-world :
      (model : ScaledModel) (env : IdleAnswers) (annotated : Option ℕ) (s : Cluster Q)
      → let t = (check_idle model env annotated s).0 in
        (t.world ≡ s.world)
        ⊎ ((is_scaled_down s.status.conditions ≡ false)
            × ((last : ℕ) × (annotated ≡ some last)
                × (ltb_ℤ (cooldown model) (idle_time env.now last) ≡ true))
            × IsForgotten model t)
  unfolding check_idle
  check_idle-world model env none s =
      inl (update_last_request_annotation-world env env.annotation_written s)
  check_idle-world model env (some last) s =
      elim (Bool-cases (ltb_ℤ (cooldown model) (idle_time env.now last))) [
        | inr recent ↦ rw (recent, check_idle) (inl refl)
        | inl old ↦
            rw (old, check_idle)
              (elim (delete_idle_pod-world model env s) [
                | inl same ↦ inl same
                | inr (free, gone) ↦ inr (free, (last, refl, old), gone)
              ])
      ]

  -- handleIdleScaling leaves the tracker, the registry and the pods as they are, or the model has
  -- afterwards neither a registry entry nor an allocation; and then scaling was enabled, no
  -- request was in flight, no other deletion was under way, and the time in the pod's annotation
  -- was longer ago than the cooldown period.
  pub handle_idle_scaling-world :
      (model : ScaledModel) (env : IdleAnswers) (s : Cluster Q)
      → let t = (handle_idle_scaling model env s).0 in
        (t.world ≡ s.world) ⊎ (IsIdlePod model env s × IsForgotten model t)
  unfolding handle_idle_scaling
  handle_idle_scaling-world model env s =
      let busy = has_requests (get s.world.registry model.namespace model.name) in
      elim (Bool-cases (never_idle model || busy)) [
        | inl skip ↦ rw (skip, handle_idle_scaling) (inl refl)
        | inr go ↦
            rw (go, handle_idle_scaling)
              (elim (check_idle-world model env s.last_request s) [
                | inl same ↦ inl same
                | inr (free, old, gone) ↦
                    let (on, none_running) = neither (never_idle model) busy go in
                    inr ((on, none_running, free, old), gone)
              ])
      ]
