-- ===== src/Proxy/Limit.antt =====
-- internal/proxy/handler.go: the global memory limit, as long as one request at a time is served.
use inference_budget_control.Prelude.{
  some, ◌≡◌, subst, Bool, true, false, Bool-cases, inl, inr, >>=-eq-some,
}
use mathlib.Core.Option.{some-injective, none-ne-some}
use inference_budget_control.Prelude.Int.{pos, ◌+ℤ◌, ◌≤ℤ◌, max_int64}
use inference_budget_control.Quantity.{Quantities}
use inference_budget_control.Budget.{can_allocate}
use inference_budget_control.Registry.{get}
use inference_budget_control.Proxy.{InferenceModel, Config, World, Env}
use inference_budget_control.Proxy.Deployment.{
  Answers, Ensured, admit_global, after_limit, insufficient_budget, admit_and_create, ensure_by,
  ensure_deployment, is_ready_entry,
}
use inference_budget_control.Proxy.Room.{IsUnder, admit_global-IsUnder, admit_global-room}
use inference_budget_control.Proxy.Funding.{after_limit-IsUnder}

module _ {Q : Type 0} ⦃ops : Quantities Q⦄ where
  module _ (config : Config) (env : Env) (answers : Answers) (model : InferenceModel) (memory : Q)
      (parsed : ops.parse model.memory ≡ some memory) (p : pos 0 ≤ℤ ops.value memory) where
    admit_and_create-IsUnder :
        (w : World Q) {r : World Q × Ensured}
        → ¬ (config.max_memory_bytes ≤ℤ pos 0)
        → config.max_memory_bytes +ℤ ops.value memory ≤ℤ max_int64
        → IsUnder config.max_memory_bytes w
        → admit_and_create config env answers model w ≡ some r
        → IsUnder config.max_memory_bytes r.0
    unfolding admit_and_create
    admit_and_create-IsUnder w {r} on small v e =
        let (fits, _, e') =
          >>=-eq-some
            (can_allocate w.tracker env.draw model.name model.namespace model.memory
              model.node_selector)
            _ e in
        decided fits (rw parsed at e')
      where
        decided :
            (fits : Bool)
            → (elim fits [
              | false ↦ some (w, insufficient_budget)
              | true ↦ after_limit env answers model (admit_global config env model memory w)
            ])
              ≡ some r
            → IsUnder config.max_memory_bytes r.0
        decided false q =
            subst (λ (x : World Q × Ensured). IsUnder config.max_memory_bytes x.0)
              (some-injective _ r q) v
        decided true q =
            after_limit-IsUnder env answers model memory parsed p config.max_memory_bytes
              (admit_global config env model memory w).0 (admit_global config env model memory w).1
              (admit_global-IsUnder config env model memory w v)
              (admit_global-room config env model memory w on small p v) q

    ensure_by-IsUnder :
        (has_registry : Bool) (w : World Q) {r : World Q × Ensured}
        → ¬ (config.max_memory_bytes ≤ℤ pos 0)
        → config.max_memory_bytes +ℤ ops.value memory ≤ℤ max_int64
        → IsUnder config.max_memory_bytes w
        → ensure_by has_registry config env answers model w ≡ some r
        → IsUnder config.max_memory_bytes r.0
    unfolding ensure_by
    ensure_by-IsUnder false w {r} on small v e = absurd (none-ne-some _ e)
    ensure_by-IsUnder true w {r} on small v e =
        elim (Bool-cases (is_ready_entry (get w.registry model.namespace model.name))) [
          | inl ready ↦
              subst (λ (x : World Q × Ensured). IsUnder config.max_memory_bytes x.0)
                (some-injective _ r (rw (ready, ensure_by) at e)) v
          | inr cold ↦ admit_and_create-IsUnder w on small v (rw (cold, ensure_by) at e)
        ]

    -- A request at a time, ensureDeployment keeps the memory of all models within the global limit
    -- on every path, for a limit that is set and stays within int64 with the request, and memory
    -- that is not negative.
    pub ensure_deployment-IsUnder :
        (w : World Q) {r : World Q × Ensured}
        → ¬ (config.max_memory_bytes ≤ℤ pos 0)
        → config.max_memory_bytes +ℤ ops.value memory ≤ℤ max_int64
        → IsUnder config.max_memory_bytes w
        → ensure_deployment config env answers model w ≡ some r
        → IsUnder config.max_memory_bytes r.0
    unfolding ensure_deployment
    ensure_deployment-IsUnder w on small v e = ensure_by-IsUnder config.has_registry w on small v e
