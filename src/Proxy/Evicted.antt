-- ===== src/Proxy/Evicted.antt =====
-- internal/proxy/handler.go: what eviction leaves alone.
use inference_budget_control.Prelude.{
  ℕ, String, eq_iff, Option, none, some, List, [], ◌∷◌, ◌≡◌, ◌≢◌, refl, ◌∙◌, subst, Bool, true,
  false, ◌&&◌, if◌then◌else◌, ◌>>=◌, All, arith, Option-cases, Bool-cases, inl, inr, >>=-eq-some,
}
use mathlib.Core.Option.{some-injective}
use inference_budget_control.Prelude.Int.{ℤ, pos, ◌+ℤ◌, int64, leb_ℤ, ltb_ℤ}
use inference_budget_control.Prelude.Dict.{lookup, lookup-delete}
use inference_budget_control.Quantity.{Quantities}
use inference_budget_control.Budget.{
  Tracker, ModelAllocation, get_allocation, release_model, model_key,
}
use inference_budget_control.Registry.{
  DeploymentEntry, entry_key, delete_entry, get_idle_entries_sorted,
}
use inference_budget_control.Registry.Idle.{IsIdle}
use inference_budget_control.Registry.Keyed.{own_key, IsKeyed, busy-not-listed}
use inference_budget_control.Proxy.{InferenceModel, Config, World, Env}
use inference_budget_control.Proxy.Eviction.{
  after_check, evict, evict_turn, evict_until_fits, try_evict_idle_models, evict_until_freed,
  needed_memory, try_evict_for_global_limit,
}

module _ {Q : Type 0} ⦃ops : Quantities Q⦄ where
  release_model-other :
      (t : Tracker Q) (draw : ℕ) (name namespace key : String)
      → model_key name namespace ≢ key
      → lookup key (release_model t draw name namespace).allocations ≡ lookup key t.allocations
  unfolding release_model
  release_model-other t draw name namespace key apart =
      let own = model_key name namespace in
      elim (Option-cases (lookup own t.allocations)) [
        | inl absent ↦ rw (absent, release_model) refl
        | inr (a, present) ↦
            rw (present, release_model)
              (ground (arith, lookup-delete own key t.allocations, eq_iff own key))
      ]

  -- The registry's entry and the tracker's allocation under a key are the same in two worlds.
  abbrev pub IsSameFor : String → World Q → World Q → Type 0
  IsSameFor key w w' =
      (lookup key w'.registry ≡ lookup key w.registry)
      × (lookup key w'.tracker.allocations ≡ lookup key w.tracker.allocations)

  IsSameFor-trans :
      (key : String) (u v w : World Q) → IsSameFor key u v → IsSameFor key v w → IsSameFor key u w
  IsSameFor-trans key u v w h q = (q.0 ∙ h.0, q.1 ∙ h.1)

  pub evict_turn_cases :
      (env : Env) (model : InferenceModel) (w : World Q) (entry : DeploymentEntry)
      {r : World Q × ModelAllocation Q}
      → evict_turn env model w entry ≡ some r
      → (r.0 ≡ evict env w entry) × (get_allocation w.tracker entry.name entry.namespace ≡ some r.1)
  unfolding evict_turn
  evict_turn_cases env model w entry e = (ground arith, ground arith)

  evict-other :
      (env : Env) (w : World Q) (entry : DeploymentEntry) (key : String)
      → own_key entry ≢ key
      → IsSameFor key w (evict env w entry)
  unfolding evict delete_entry
  evict-other env w entry key apart = (
    ground (arith, lookup-delete (own_key entry) key w.registry, eq_iff (own_key entry) key),
    release_model-other w.tracker (env.release_draw (own_key entry)) entry.name entry.namespace key
        (unfold model_key entry_key in apart),
  )

  evict_turn-other :
      (env : Env) (model : InferenceModel) (w : World Q) (entry : DeploymentEntry) (key : String)
      {r : World Q × ModelAllocation Q}
      → own_key entry ≢ key
      → evict_turn env model w entry ≡ some r
      → IsSameFor key w r.0
  evict_turn-other env model w entry key apart e =
      rw (evict_turn_cases env model w entry e).0 (evict-other env w entry key apart)

  evict_until_freed-other :
      (env : Env) (model : InferenceModel) (needed freed : ℤ) (w : World Q)
      (es : List DeploymentEntry) (key : String)
      → All (λ x. own_key x ≢ key) es
      → IsSameFor key w (evict_until_freed env model needed freed w es).0
  unfolding evict_until_freed
  evict_until_freed-other env model needed freed w [] key h = (refl, refl)
  evict_until_freed-other env model needed freed w (e ∷ es) key h =
      elim (Option-cases (evict_turn env model w e)) [
        | inl skip ↦
            rw (skip, evict_until_freed)
              (evict_until_freed-other env model needed freed w es key h.1)
        | inr ((w', alloc), evicted) ↦
            let freed' = int64 (freed +ℤ ops.value alloc.memory) in
            let one = evict_turn-other env model w e key h.0 evicted in
            elim (Bool-cases (leb_ℤ needed freed')) [
              | inl enough ↦ rw (evicted, evict_until_freed, enough) one
              | inr more ↦
                  rw (evicted, evict_until_freed, more)
                    (IsSameFor-trans key w w' (evict_until_freed env model needed freed' w' es).0
                      one (evict_until_freed-other env model needed freed' w' es key h.1))
            ]
      ]

  after_check-other :
      (key : String) (w w' : World Q) (rest : Option (World Q × Bool)) {r : World Q × Bool}
      → IsSameFor key w w'
      → (rest ≡ some r → IsSameFor key w r.0)
      → (c : Option Bool) → after_check c w' rest ≡ some r
      → IsSameFor key w r.0
  unfolding after_check
  after_check-other key w w' rest one more none q = cc
  after_check-other key w w' rest {r} one more (some true) q =
      subst (λ (x : World Q × Bool). IsSameFor key w x.0) (some-injective (w', true) r q) one
  after_check-other key w w' rest one more (some false) q = more q

  evict_until_fits-other :
      (env : Env) (model : InferenceModel) (w : World Q) (es : List DeploymentEntry) (key : String)
      {r : World Q × Bool}
      → All (λ x. own_key x ≢ key) es
      → evict_until_fits env model w es ≡ some r
      → IsSameFor key w r.0
  unfolding evict_until_fits
  evict_until_fits-other env model w [] key {r} h q =
      subst (λ (x : World Q × Bool). IsSameFor key w x.0) (some-injective (w, false) r q)
        (refl, refl)
  evict_until_fits-other env model w (e ∷ es) key {r} h q =
      elim (Option-cases (evict_turn env model w e)) [
        | inl skip ↦
            evict_until_fits-other env model w es key h.1 (rw (skip, evict_until_fits) at q)
        | inr ((w', alloc), evicted) ↦
            let one = evict_turn-other env model w e key h.0 evicted in
            after_check-other key w w' (evict_until_fits env model w' es) one
              (λ q'.
                IsSameFor-trans key w w' r.0 one
                  (evict_until_fits-other env model w' es key h.1 q'))
              _ (rw (evicted, evict_until_fits) at q)
      ]

  -- In a registry keyed by its entries, tryEvictIdleModels leaves the registry entry and the
  -- allocation of every deployment as they are that has a request in flight or had one within the
  -- minimum idle time.
  pub try_evict_idle_models-busy :
      (config : Config) (env : Env) (model : InferenceModel) (w : World Q) (key : String)
      (e : DeploymentEntry) {r : World Q × Bool}
      → IsKeyed w.registry
      → lookup key w.registry ≡ some e
      → ¬ IsIdle env.now config.eviction_min_idle e
      → try_evict_idle_models config env model w ≡ some r
      → IsSameFor key w r.0
  unfolding try_evict_idle_models
  try_evict_idle_models-busy config env model w key e {r} v found busy q =
      started (get_idle_entries_sorted w.registry env.now config.eviction_min_idle)
        (busy-not-listed w.registry env.now config.eviction_min_idle key e v found busy)
        (ltb_ℤ (pos 0) config.max_memory_bytes && config.has_registry) q
    where
      none_evicted : some (w, false) ≡ some r → IsSameFor key w r.0
      none_evicted q =
          subst (λ (x : World Q × Bool). IsSameFor key w x.0) (some-injective (w, false) r q)
            (refl, refl)

      started :
          (es : List DeploymentEntry)
          → All (λ x. own_key x ≢ key) es
          → (on : Bool)
          → (if on
              then (elim es [
                | [] ↦ some (w, false)
                | entry ∷ rest ↦
                    ops.parse model.memory >>= λ _. evict_until_fits env model w (entry ∷ rest)
              ])
              else some (w, false))
            ≡ some r
          → IsSameFor key w r.0
      started es h false q = none_evicted q
      started [] h true q = none_evicted q
      started (x ∷ xs) h true q =
          evict_until_fits-other env model w (x ∷ xs) key h
            (>>=-eq-some (ops.parse model.memory) _ q).2

  -- In a registry keyed by its entries, tryEvictIdleModelsForGlobalLimit leaves the registry entry
  -- and the allocation of every deployment as they are that has a request in flight or had one
  -- within the minimum idle time.
  pub try_evict_for_global_limit-busy :
      (config : Config) (env : Env) (model : InferenceModel) (requested : ℤ) (w : World Q)
      (key : String) (e : DeploymentEntry)
      → IsKeyed w.registry
      → lookup key w.registry ≡ some e
      → ¬ IsIdle env.now config.eviction_min_idle e
      → IsSameFor key w (try_evict_for_global_limit config env model requested w).0
  unfolding try_evict_for_global_limit
  try_evict_for_global_limit-busy config env model requested w key e v found busy =
      started (get_idle_entries_sorted w.registry env.now config.eviction_min_idle)
        (busy-not-listed w.registry env.now config.eviction_min_idle key e v found busy)
        config.has_registry
    where
      started :
          (es : List DeploymentEntry)
          → All (λ x. own_key x ≢ key) es
          → (on : Bool)
          → (let r : World Q × Bool =
                if on
                then (elim es [
                  | [] ↦ (w, false)
                  | entry ∷ rest ↦
                      evict_until_freed env model
                        (needed_memory config w requested)
                        (pos 0)
                        w
                        (entry ∷ rest)
                ])
                else (w, false) in
              IsSameFor key w r.0)
      started es h false = (refl, refl)
      started [] h true = (refl, refl)
      started (x ∷ xs) h true =
          evict_until_freed-other env model (needed_memory config w requested) (pos 0) w (x ∷ xs)
            key h
