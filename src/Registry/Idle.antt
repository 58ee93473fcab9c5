-- ===== src/Registry/Idle.antt =====
-- The eviction order of internal/registry/registry.go: which entries `GetIdleEntriesSorted` returns,
-- and in which order.
use mathlib.Core.List.{Mem, Perm, mem-cons_self, mem-cons_of_mem}
use mathlib.Core.List.Perm
use mathlib.Core.Option.{some-injective}
use inference_budget_control.Prelude.{
  ℕ, ◌+◌, ◌<◌, ◌≤◌, String, str_eq, some, List, [], ◌∷◌, ◌≡◌, Bool, true, arith, All, All-keep,
  All-mono, keep, leb, Bool-cases, inl, inr, subst, sym, ap, ◌∙◌,
}
use inference_budget_control.Prelude.Dict.{lookup}
use inference_budget_control.Registry.{
  Registry, DeploymentEntry, entries, is_idle, get_idle_entries, get_idle_entries_sorted,
  sort_by_time, insert_by_time,
}

-- Oldest request first.
abbrev pub IsOldestFirst : List DeploymentEntry → Type 0
IsOldestFirst [] = Unit
IsOldestFirst (e ∷ es) = All (λ x. e.last_request_time ≤ x.last_request_time) es × IsOldestFirst es

insert_by_time-perm :
    (e : DeploymentEntry) (es : List DeploymentEntry) → Perm (insert_by_time e es) (e ∷ es)
unfolding insert_by_time
insert_by_time-perm e [] = Perm.refl (e ∷ [])
insert_by_time-perm e (x ∷ xs) = elim (Bool-cases (leb e.last_request_time x.last_request_time)) [
  | inl first ↦ rw first (Perm.refl (e ∷ x ∷ xs))
  | inr later ↦ rw later (Perm.trans (Perm.cons x (insert_by_time-perm e xs)) (Perm.swap e x xs))
]

sort_by_time-perm : (es : List DeploymentEntry) → Perm (sort_by_time es) es
unfolding sort_by_time
sort_by_time-perm [] = Perm.refl []
sort_by_time-perm (e ∷ es) =
    Perm.trans (insert_by_time-perm e (sort_by_time es)) (Perm.cons e (sort_by_time-perm es))

All-insert_by_time :
    (P : DeploymentEntry → Type 0) (e : DeploymentEntry) (es : List DeploymentEntry)
    → P e
    → All P es
    → All P (insert_by_time e es)
unfolding insert_by_time
All-insert_by_time P e [] p h = (p, tt)
All-insert_by_time P e (x ∷ xs) p h =
    elim (Bool-cases (leb e.last_request_time x.last_request_time)) [
      | inl first ↦ rw (first, All) (p, h)
      | inr later ↦ rw (later, All) (h.0, All-insert_by_time P e xs p h.1)
    ]

pub All-sort_by_time :
    (P : DeploymentEntry → Type 0) (es : List DeploymentEntry) → All P es → All P (sort_by_time es)
unfolding sort_by_time
All-sort_by_time P [] h = tt
All-sort_by_time P (e ∷ es) h =
    All-insert_by_time P e (sort_by_time es) h.0 (All-sort_by_time P es h.1)

insert_by_time-IsOldestFirst :
    (e : DeploymentEntry) (es : List DeploymentEntry)
    → IsOldestFirst es
    → IsOldestFirst (insert_by_time e es)
unfolding insert_by_time
insert_by_time-IsOldestFirst e [] h = (tt, tt)
insert_by_time-IsOldestFirst e (x ∷ xs) h =
    elim (Bool-cases (leb e.last_request_time x.last_request_time)) [
      | inl first ↦
          let le : e.last_request_time ≤ x.last_request_time = ground arith in
          rw (first, IsOldestFirst)
            (
              (
                le,
                All-mono (λ y. x.last_request_time ≤ y.last_request_time)
                    (λ y. e.last_request_time ≤ y.last_request_time) xs (λ y xy. omega arith) h.0,
              ),
              h,
            )
      | inr later ↦
          let le : x.last_request_time ≤ e.last_request_time = ground arith in
          rw (later, IsOldestFirst)
            (
              All-insert_by_time (λ y. x.last_request_time ≤ y.last_request_time) e xs le h.0,
              insert_by_time-IsOldestFirst e xs h.1,
            )
    ]

sort_by_time-IsOldestFirst : (es : List DeploymentEntry) → IsOldestFirst (sort_by_time es)
unfolding sort_by_time
sort_by_time-IsOldestFirst [] = tt
sort_by_time-IsOldestFirst (e ∷ es) =
    insert_by_time-IsOldestFirst e (sort_by_time es) (sort_by_time-IsOldestFirst es)

-- No request in flight, and none for longer than `idle`.
abbrev pub IsIdle : ℕ → ℕ → DeploymentEntry → Type 0
IsIdle now idle e = (e.active_requests ≡ 0) × (e.last_request_time + idle < now)

pub is_idle-IsIdle :
    (now idle : ℕ) (e : DeploymentEntry) → is_idle now idle e ≡ true → IsIdle now idle e
is_idle-IsIdle now idle e h = ground arith

IsIdle-is_idle :
    (now idle : ℕ) (e : DeploymentEntry) → IsIdle now idle e → is_idle now idle e ≡ true
IsIdle-is_idle now idle e h = ground arith

mem-keep :
    (p : DeploymentEntry → Bool) (key : String) (r : Registry) (e : DeploymentEntry)
    → lookup key r ≡ some e
    → p e ≡ true
    → Mem e (keep p (entries r))
unfolding lookup
mem-keep p key [] e h t = cc
mem-keep p key ((k, x) ∷ r) e h t = elim (Bool-cases (str_eq k key)) [
  | inl here ↦
      let same : x ≡ e = some-injective x e (rw here at h) in
      rw (ap p same ∙ t, keep)
        (subst (λ z. Mem e (z ∷ keep p (entries r))) (sym same) mem-cons_self)
  | inr away ↦ elim (Bool-cases (p x)) [
    | inl kept ↦ rw (kept, keep) (mem-cons_of_mem x (mem-keep p key r e (rw away at h) t))
    | inr dropped ↦ rw (dropped, keep) (mem-keep p key r e (rw away at h) t)
  ]
]

-- GetIdleEntriesSorted returns a permutation of what GetIdleEntries returns, oldest request first;
-- each entry of it has no request in flight and had none for longer than asked, and each such
-- entry that the registry finds by a key is in it.
pub get_idle_entries_sorted-lru :
    (r : Registry) (now idle : ℕ)
    → IsOldestFirst (get_idle_entries_sorted r now idle)
      × Perm (get_idle_entries_sorted r now idle) (get_idle_entries r now idle)
      × All (IsIdle now idle) (get_idle_entries_sorted r now idle)
      × ((key : String) (e : DeploymentEntry)
          → lookup key r ≡ some e
          → IsIdle now idle e
          → Mem e (get_idle_entries_sorted r now idle))
unfolding get_idle_entries_sorted get_idle_entries
get_idle_entries_sorted-lru r now idle =
    let found = keep (is_idle now idle) (entries r) in
    (
      sort_by_time-IsOldestFirst found,
      sort_by_time-perm found,
      All-sort_by_time (IsIdle now idle) found
          (All-keep (is_idle now idle) (entries r) (is_idle-IsIdle now idle)),
      λ key e h q.
          (Perm.mem_iff (sort_by_time-perm found)).1
            (mem-keep (is_idle now idle) key r e h (IsIdle-is_idle now idle e q)),
    )
