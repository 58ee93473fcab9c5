-- ===== src/Registry/Keyed.antt =====
-- The map of internal/registry/registry.go is keyed by the names of its entries.
use inference_budget_control.Prelude.{
  ℕ, suc, eq_refl, subst, ◌≢◌, All-mono, All-zip, All-keep, All-keep_of, String, str_eq, eq_iff,
  some, [], ◌∷◌, ◌≡◌, refl, sym, ◌∙◌, ap, arith, All, Bool-cases, inl, inr, keep, Option-cases,
}
use mathlib.Core.Option.{some-injective}
use inference_budget_control.Registry.Idle.{IsIdle, All-sort_by_time, is_idle-IsIdle}
use inference_budget_control.Prelude.Dict.{
  lookup, insert, delete, modify, Distinct, insert-Distinct, modify-Distinct, delete-Distinct,
}
use inference_budget_control.Registry.{
  Registry, DeploymentEntry, DeploymentState, entries, entry_key, set_state, delete_entry,
  record_request, state_creating, new_entry, get_idle_entries_sorted, is_idle,
}

abbrev pub own_key : DeploymentEntry → String
own_key e = entry_key e.namespace e.name

abbrev AllKeyed : Registry → Type 0
AllKeyed [] = Unit
AllKeyed ((k, e) ∷ r) = (k ≡ own_key e) × AllKeyed r

-- Each entry stands under the key of its own name, and each key once.
pub record IsKeyed (r : Registry) : Type 0 where
  pub distinct : Distinct r
  pub keyed : AllKeyed r

insert-AllKeyed :
    (k : String) (e : DeploymentEntry) (r : Registry)
    → k ≡ own_key e
    → AllKeyed r
    → AllKeyed (insert k e r)
unfolding insert
insert-AllKeyed k e [] h a = (h, tt)
insert-AllKeyed k e ((j, x) ∷ r) h a = elim (Bool-cases (str_eq j k)) [
  | inl same ↦ rw (same, AllKeyed) (h, a.1)
  | inr other ↦ rw (other, AllKeyed) (a.0, insert-AllKeyed k e r h a.1)
]

delete-AllKeyed : (k : String) (r : Registry) → AllKeyed r → AllKeyed (delete k r)
unfolding delete
delete-AllKeyed k [] a = tt
delete-AllKeyed k ((j, x) ∷ r) a = elim (Bool-cases (str_eq j k)) [
  | inl same ↦ rw (same, AllKeyed) (delete-AllKeyed k r a.1)
  | inr other ↦ rw (other, AllKeyed) (a.0, delete-AllKeyed k r a.1)
]

modify-AllKeyed :
    (k : String) (f : DeploymentEntry → DeploymentEntry) (r : Registry)
    → ((e : DeploymentEntry) → own_key (f e) ≡ own_key e)
    → AllKeyed r
    → AllKeyed (modify k f r)
unfolding modify
modify-AllKeyed k f [] h a = tt
modify-AllKeyed k f ((j, x) ∷ r) h a = elim (Bool-cases (str_eq j k)) [
  | inl same ↦ rw (same, AllKeyed) (a.0 ∙ sym (h x), a.1)
  | inr other ↦ rw (other, AllKeyed) (a.0, modify-AllKeyed k f r h a.1)
]

pub delete_entry-IsKeyed :
    (r : Registry) (namespace name : String) → IsKeyed r → IsKeyed (delete_entry r namespace name)
unfolding delete_entry
delete_entry-IsKeyed r namespace name v = record {
  distinct = delete-Distinct (entry_key namespace name) r v.distinct;
  keyed = delete-AllKeyed (entry_key namespace name) r v.keyed;
}

pub set_state-IsKeyed :
    (r : Registry) (namespace name : String) (state : DeploymentState) (now : ℕ)
    → IsKeyed r
    → IsKeyed (set_state r namespace name state now)
unfolding set_state
set_state-IsKeyed r namespace name state now v =
    let key = entry_key namespace name in
    elim (Option-cases (lookup key r)) [
      | inl absent ↦
          rw (absent, set_state)
            (record {
              distinct = insert-Distinct key (new_entry namespace name state now 0) r v.distinct;
              keyed = insert-AllKeyed key (new_entry namespace name state now 0) r refl v.keyed;
            })
      | inr (e, present) ↦
          rw (present, set_state)
            (record {
              distinct = modify-Distinct key (λ e. record e { state = state }) r v.distinct;
              keyed = modify-AllKeyed key (λ e. record e { state = state }) r (λ e. refl) v.keyed;
            })
    ]

pub record_request-IsKeyed :
    (r : Registry) (namespace name : String) (now : ℕ)
    → IsKeyed r
    → IsKeyed (record_request r namespace name now)
unfolding record_request
record_request-IsKeyed r namespace name now v =
    let key = entry_key namespace name in
    let new = new_entry namespace name state_creating now 1 in
    let count = λ (e : DeploymentEntry). record e {
      active_requests = suc e.active_requests;
      last_request_time = now;
    } in
    elim (Option-cases (lookup key r)) [
      | inl absent ↦
          rw (absent, record_request)
            (record {
              distinct = insert-Distinct key new r v.distinct;
              keyed = insert-AllKeyed key new r refl v.keyed;
            })
      | inr (e, present) ↦
          rw (present, record_request)
            (record {
              distinct = modify-Distinct key count r v.distinct;
              keyed = modify-AllKeyed key count r (λ e. refl) v.keyed;
            })
    ]

-- A listed entry is the one that its own key finds.
own-found :
    (r : Registry) → Distinct r → AllKeyed r → All (λ e. lookup (own_key e) r ≡ some e) (entries r)
unfolding lookup
own-found [] d a = tt
own-found ((k, e) ∷ r) d a = (
  rw (sym (a.0), eq_refl k) refl,
  All-mono (λ x. lookup (own_key x) r ≡ some x) (λ x. lookup (own_key x) ((k, e) ∷ r) ≡ some x)
      (entries r) (λ x found. ground (arith, eq_iff k (own_key x), d.0)) (own-found r d.1 a.1),
)

-- A deployment with a request in flight, or with a request since the cutoff, is not among the
-- entries that are up for eviction.
pub busy-not-listed :
    (r : Registry) (now idle : ℕ) (key : String) (e : DeploymentEntry)
    → IsKeyed r
    → lookup key r ≡ some e
    → ¬ IsIdle now idle e
    → All (λ x. own_key x ≢ key) (get_idle_entries_sorted r now idle)
unfolding get_idle_entries_sorted
busy-not-listed r now idle key e v found busy =
    let p = is_idle now idle in
    let IsListed = λ (x : DeploymentEntry). IsIdle now idle x × (lookup (own_key x) r ≡ some x) in
    All-sort_by_time (λ x. own_key x ≢ key) (keep p (entries r))
      (All-mono IsListed (λ x. own_key x ≢ key) (keep p (entries r))
        (λ x h same. busy (
          subst (IsIdle now idle) (some-injective x e (sym h.1 ∙ ap (λ k. lookup k r) same ∙ found))
            h.0))
        (All-zip (IsIdle now idle) (λ x. lookup (own_key x) r ≡ some x) (keep p (entries r))
          (All-keep p (entries r) (is_idle-IsIdle now idle))
          (All-keep_of (λ x. lookup (own_key x) r ≡ some x) p (entries r)
            (own-found r v.distinct v.keyed))))
