-- ===== src/Proxy/MissingPod.antt =====
-- internal/proxy/handler.go: a server without a registry and a model whose pod does not exist.
use inference_budget_control.Prelude.{
  ◌+◌, Option, none, some, Bool, true, false, ◌≡◌, ◌≢◌, subst, >>=-eq-some,
}
use mathlib.Core.Option.{some-injective}
use inference_budget_control.Quantity.{Quantities}
use inference_budget_control.Budget.{Tracker, allocate}
use inference_budget_control.Proxy.{InferenceModel, Config, World, Env}
use inference_budget_control.Proxy.Deployment.{can_scale_up}
use inference_budget_control.Proxy.Serving.{
  Reply, forwarded, Verdict, proceed, reply, PodLookup, pod_there, pod_absent, lookup_failed,
  Outside, conclude, InsufficientMemory,
}
use inference_budget_control.Proxy.Legacy.{
  ScaleUp, no_budget, nil_registry, ensure_absent, after_lookup, after_budget, trigger_scale_up,
  settle_scaled, scale_up, answer_nothing, settle_insufficient, handle_insufficient_memory,
  after_check, prepare_legacy, serve_legacy,
}

-- The request is over, without an answer of the backend.
IsRefused : Verdict → Type 0
IsRefused (reply forwarded) = ⊥
IsRefused (reply _) = Unit
IsRefused proceed = ⊥

IsUnscaled : ScaleUp → Type 0
IsUnscaled no_budget = Unit
IsUnscaled nil_registry = Unit
IsUnscaled _ = ⊥

module _ {Q : Type 0} ⦃ops : Quantities Q⦄ (config : Config) (env : Env) (outside : Outside)
    (model : InferenceModel) where
  ensure_absent-IsUnscaled :
      (kept : Bool) (w : World Q) {r : World Q × ScaleUp}
      → kept ≡ false
      → ensure_absent kept config env outside model w ≡ some r
      → IsUnscaled r.1
  unfolding ensure_absent IsUnscaled
  ensure_absent-IsUnscaled false w {r} nil e =
      subst (λ (x : World Q × ScaleUp). IsUnscaled x.1) (some-injective _ r e) tt
  ensure_absent-IsUnscaled true w nil e = cc

  after_lookup-IsUnscaled :
      (pod : PodLookup) (w : World Q) {r : World Q × ScaleUp}
      → pod ≡ pod_absent
      → config.has_registry ≡ false
      → after_lookup pod config env outside model w ≡ some r
      → IsUnscaled r.1
  unfolding after_lookup
  after_lookup-IsUnscaled pod_absent w absent nil e =
      ensure_absent-IsUnscaled config.has_registry w nil e
  after_lookup-IsUnscaled pod_there w absent nil e = cc
  after_lookup-IsUnscaled lookup_failed w absent nil e = cc

  after_budget-IsUnscaled :
      (w : World Q) (t : Tracker Q) (done : Bool) {r : World Q × ScaleUp}
      → outside.pod_lookup ≡ pod_absent
      → config.has_registry ≡ false
      → after_budget config env outside model w (t, done) ≡ some r
      → IsUnscaled r.1
  unfolding after_budget IsUnscaled
  after_budget-IsUnscaled w t false {r} absent nil e =
      subst (λ (x : World Q × ScaleUp). IsUnscaled x.1) (some-injective _ r e) tt
  after_budget-IsUnscaled w t true absent nil e =
      after_lookup-IsUnscaled outside.pod_lookup (record w { tracker = t }) absent nil e

  settle_scaled-IsRefused :
      (w : World Q) (s : ScaleUp) → IsUnscaled s → IsRefused (settle_scaled outside (w, s)).1
  unfolding settle_scaled IsUnscaled IsRefused
  settle_scaled-IsRefused w no_budget h = tt
  settle_scaled-IsRefused w nil_registry h = tt
  settle_scaled-IsRefused w _ h = absurd h

  scale_up-IsRefused :
      (w : World Q) {r : World Q × Verdict}
      → outside.pod_lookup ≡ pod_absent
      → config.has_registry ≡ false
      → scale_up config env outside model w ≡ some r
      → IsRefused r.1
  unfolding scale_up trigger_scale_up
  scale_up-IsRefused w {r} absent nil e =
      let (s, triggered, e') = >>=-eq-some (trigger_scale_up config env outside model w) _ e in
      let ((t, done), _, e'') =
        >>=-eq-some
          (allocate w.tracker (λ i. env.draw (i + 8)) model.name model.namespace model.memory
            model.node_selector)
          _ triggered in
      subst (λ (x : World Q × Verdict). IsRefused x.1) (some-injective _ r e')
        (settle_scaled-IsRefused s.0 s.1 (after_budget-IsUnscaled w t done absent nil e''))

  answer_nothing-IsRefused :
      (w : World Q) (v : Verdict) → IsRefused v → IsRefused (answer_nothing (w, v)).1
  unfolding answer_nothing IsRefused
  answer_nothing-IsRefused w proceed h = absurd h
  answer_nothing-IsRefused w (reply r) h = h

  settle_insufficient-IsRefused :
      (w : World Q) (details : Option InsufficientMemory) {r : World Q × Verdict}
      → outside.pod_lookup ≡ pod_absent
      → config.has_registry ≡ false
      → settle_insufficient config env outside model (w, details) ≡ some r
      → IsRefused r.1
  unfolding settle_insufficient IsRefused
  settle_insufficient-IsRefused w (some details) {r} absent nil e =
      subst (λ (x : World Q × Verdict). IsRefused x.1) (some-injective _ r e) tt
  settle_insufficient-IsRefused w none {r} absent nil e =
      let (s, scaled', e') = >>=-eq-some (scale_up config env outside model w) _ e in
      subst (λ (x : World Q × Verdict). IsRefused x.1) (some-injective _ r e')
        (answer_nothing-IsRefused s.0 s.1 (scale_up-IsRefused w absent nil scaled'))

  after_check-IsRefused :
      (w : World Q) (fits : Bool) {r : World Q × Verdict}
      → outside.pod_lookup ≡ pod_absent
      → config.has_registry ≡ false
      → after_check config env outside model w fits ≡ some r
      → IsRefused r.1
  unfolding after_check
  after_check-IsRefused w true absent nil e = scale_up-IsRefused w absent nil e
  after_check-IsRefused w false absent nil e =
      let ((w', details), _, e') =
        >>=-eq-some (handle_insufficient_memory config env model w) _ e in
      settle_insufficient-IsRefused w' details absent nil e'

  prepare_legacy-IsRefused :
      (ready : Bool) (w : World Q) {r : World Q × Verdict}
      → ready ≡ false
      → outside.pod_lookup ≡ pod_absent
      → config.has_registry ≡ false
      → prepare_legacy ready config env outside model w ≡ some r
      → IsRefused r.1
  unfolding prepare_legacy
  prepare_legacy-IsRefused true w off absent nil e = cc
  prepare_legacy-IsRefused false w off absent nil e =
      let (fits, _, e') = >>=-eq-some (can_scale_up config env model w) _ e in
      after_check-IsRefused w fits absent nil e'

  conclude-IsRefused :
      (w : World Q) (v : Verdict)
      → IsRefused v
      → (conclude config.has_registry env outside.backend model (w, v)).1 ≢ forwarded
  unfolding conclude IsRefused
  conclude-IsRefused w proceed h = absurd h
  conclude-IsRefused w (reply r) h = λ same. subst (λ (x : Reply). IsRefused (reply x)) same h

  -- Without a registry, a request for a model that is not ready and has no pod never reaches a
  -- backend.
  pub serve_legacy-missing_pod :
      (w : World Q) {r : World Q × Reply}
      → model.ready ≡ false
      → outside.pod_lookup ≡ pod_absent
      → config.has_registry ≡ false
      → serve_legacy config env outside model w ≡ some r
      → r.1 ≢ forwarded
  unfolding serve_legacy
  serve_legacy-missing_pod w {r} off absent nil e =
      let ((w', v), prepared, e') =
        >>=-eq-some (prepare_legacy model.ready config env outside model w) _ e in
      subst (λ (x : World Q × Reply). x.1 ≢ forwarded) (some-injective _ r e')
        (conclude-IsRefused w' v (prepare_legacy-IsRefused model.ready w off absent nil prepared))
