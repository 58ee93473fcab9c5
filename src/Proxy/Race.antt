-- ===== src/Proxy/Race.antt =====
-- internal/proxy/handler.go: two calls of `ensureDeployment` for different models at once. The mutex
-- of `ensureDeployment` is one for each model, so between the check of the global limit and
-- `Allocate` of one call the other may run.
use inference_budget_control.Prelude.{
  ℕ, String, eq_iff, none, some, [], ◌≡◌, ◌≢◌, refl, ◌∙◌, ap, true, false, arith,
}
use inference_budget_control.Prelude.Int.{◌+ℤ◌, ◌≤ℤ◌, int_laws, parts_of_eq}
use inference_budget_control.Prelude.Dict.{lookup, modify, lookup-insert}
use inference_budget_control.Prelude.Sums.{sum_by-insert}
use inference_budget_control.Quantity.{Quantities}
use inference_budget_control.Budget.{
  Tracker, ModelAllocation, allocate, commit, new_allocation, model_key, can_allocate_locked,
  fits_new, release_existing,
}
use inference_budget_control.Budget.Total.{exact_total, bytes}
use inference_budget_control.Proxy.{InferenceModel, Config, World, Env}
use inference_budget_control.Proxy.Deployment.{exceeds_global, admit_global}

-- Where a call of `ensureDeployment` stands.
pub data Phase : Type 0 where
  before_check after_check after_allocation : Phase

pub record Two (Q : Type 0) : Type 0 where
  pub world : World Q
  pub first : Phase
  pub second : Phase

module _ {Q : Type 0} ⦃ops : Quantities Q⦄ (config : Config) (env : Env)
    (one two : InferenceModel) where
  -- One call passes the check of the global limit, or allocates, while the other stands still.
  pub data Step : Two Q → Two Q → Type 0 where
    check_first :
        {s : Two Q} {w : World Q} (memory : Q)
        → s.first ≡ before_check
        → ops.parse one.memory ≡ some memory
        → admit_global config env one memory s.world ≡ (w, true)
        → Step s (record { world = w; first = after_check; second = s.second })
    check_second :
        {s : Two Q} {w : World Q} (memory : Q)
        → s.second ≡ before_check
        → ops.parse two.memory ≡ some memory
        → admit_global config env two memory s.world ≡ (w, true)
        → Step s (record { world = w; first = s.first; second = after_check })
    allocate_first :
        {s : Two Q} {t : Tracker Q}
        → s.first ≡ after_check
        → allocate s.world.tracker env.draw one.name one.namespace one.memory one.node_selector
          ≡ some (t, true)
        → Step s (record {
          world = record (s.world) { tracker = t };
          first = after_allocation;
          second = s.second;
        })
    allocate_second :
        {s : Two Q} {t : Tracker Q}
        → s.second ≡ after_check
        → allocate s.world.tracker env.draw two.name two.namespace two.memory two.node_selector
          ≡ some (t, true)
        → Step s (record {
          world = record (s.world) { tracker = t };
          first = s.first;
          second = after_allocation;
        })

  pub data Reach (s : Two Q) : Two Q → Type 0 where
    here : Reach s s
    next : {t u : Two Q} → Reach s t → Step t u → Reach s u

module _ {Q : Type 0} ⦃ops : Quantities Q⦄ where
  admitted :
      (config : Config) (env : Env) (model : InferenceModel) (memory : Q) (w : World Q)
      → exceeds_global config w memory ≡ false
      → admit_global config env model memory w ≡ (w, true)
  unfolding admit_global
  admitted config env model memory w e = rw (e, admit_global) refl

  -- Without budgets of pools `Allocate` never refuses.
  allocates :
      (t : Tracker Q) (draw : ℕ → ℕ) (model : InferenceModel) (memory : Q)
      → ops.parse model.memory ≡ some memory
      → t.node_budgets ≡ []
      → lookup (model_key model.name model.namespace) t.allocations ≡ none
      → allocate t draw model.name model.namespace model.memory model.node_selector
        ≡ some (
          commit t draw (new_allocation model.name model.namespace memory model.node_selector),
          true,
        )
  unfolding allocate can_allocate_locked fits_new lookup
  allocates t draw model memory p empty absent = rw (p, absent, ap (lookup _) empty) refl

  commit-no_pools :
      (t : Tracker Q) (draw : ℕ → ℕ) (a : ModelAllocation Q)
      → t.node_budgets ≡ []
      → lookup (model_key a.name a.namespace) t.allocations ≡ none
      → (commit t draw a).node_budgets ≡ []
  unfolding commit release_existing modify
  commit-no_pools t draw a empty absent = rw (absent, release_existing, empty) refl

  commit-other :
      (t : Tracker Q) (draw : ℕ → ℕ) (a : ModelAllocation Q) (key : String)
      → model_key a.name a.namespace ≢ key
      → lookup key (commit t draw a).allocations ≡ lookup key t.allocations
  unfolding commit
  commit-other t draw a key apart =
      let own = model_key a.name a.namespace in
      ground (arith, lookup-insert own key a t.allocations, eq_iff own key)

  commit-total :
      (t : Tracker Q) (draw : ℕ → ℕ) (a : ModelAllocation Q)
      → lookup (model_key a.name a.namespace) t.allocations ≡ none
      → exact_total (commit t draw a).allocations ≡ exact_total t.allocations +ℤ bytes a
  unfolding commit exact_total
  commit-total t draw a absent =
      let sums = sum_by-insert (λ a. bytes a) (model_key a.name a.namespace) a t.allocations in
      omega (int_laws, parts_of_eq (rw absent at sums))

  -- Two models that each fit the global limit alone and not together are both allocated, and over
  -- the limit, when both calls of ensureDeployment pass the check before either allocates; no pool
  -- has a budget.
  pub race_exceeds :
      (config : Config) (env : Env) (one two : InferenceModel) (m₁ m₂ : Q) (w : World Q)
      → w.tracker.node_budgets ≡ []
      → model_key one.name one.namespace ≢ model_key two.name two.namespace
      → lookup (model_key one.name one.namespace) w.tracker.allocations ≡ none
      → lookup (model_key two.name two.namespace) w.tracker.allocations ≡ none
      → ops.parse one.memory ≡ some m₁
      → ops.parse two.memory ≡ some m₂
      → exceeds_global config w m₁ ≡ false
      → exceeds_global config w m₂ ≡ false
      → ¬ (
          exact_total w.tracker.allocations +ℤ ops.value m₁ +ℤ ops.value m₂
          ≤ℤ config.max_memory_bytes)
      → (s : Two Q) × Reach config env one two
          (record { world = w; first = before_check; second = before_check })
          s
        × (s.first ≡ after_allocation)
        × (s.second ≡ after_allocation)
        × (¬ (exact_total s.world.tracker.allocations ≤ℤ config.max_memory_bytes))
  race_exceeds config env one two m₁ m₂ w empty apart absent₁ absent₂ p₁ p₂ fits₁ fits₂ over =
      let a₁ = new_allocation one.name one.namespace m₁ one.node_selector in
      let a₂ = new_allocation two.name two.namespace m₂ two.node_selector in
      let t₁ : Tracker Q = commit w.tracker env.draw a₁ in
      let t₂ : Tracker Q = commit t₁ env.draw a₂ in
      let still : lookup (model_key two.name two.namespace) t₁.allocations ≡ none =
        commit-other w.tracker env.draw a₁ (model_key two.name two.namespace) apart ∙ absent₂ in
      (
        record {
          world = record w { tracker = t₂ };
          first = after_allocation;
          second = after_allocation;
        },
        next
            (next
              (next (next here (check_first m₁ refl p₁ (admitted config env one m₁ w fits₁)))
                (check_second m₂ refl p₂ (admitted config env two m₂ w fits₂)))
              (allocate_first refl (allocates w.tracker env.draw one m₁ p₁ empty absent₁)))
            (allocate_second refl (
              allocates t₁ env.draw two m₂ p₂ (commit-no_pools w.tracker env.draw a₁ empty absent₁)
                still)),
        refl,
        refl,
        λ le. over (
            omega (
              int_laws,
              parts_of_eq (commit-total w.tracker env.draw a₁ absent₁),
              parts_of_eq (commit-total t₁ env.draw a₂ still),
            )),
      )
