-- ===== src/Proxy/SingleFlight.antt =====
-- internal/proxy/handler.go: `deploymentMutex`, by which `ensureDeployment` means to let one call for
-- each model run at a time. The steps are those of the calls for one model; threads are numbers.
use inference_budget_control.Prelude.{
  ℕ, suc, Option, none, some, ◌≡◌, ◌≢◌, ◌⊎◌, refl, sym, ◌∙◌, ap, subst, if◌then◌else◌, ◌==◌, arith,
  Bool-cases, inl, inr,
}
use mathlib.Core.Option.{some-injective, none-ne-some}

-- Where a call stands, with its mutex: before `LoadOrStore`, before `Lock`, between `Lock` and
-- `Unlock`, between `Unlock` and `Delete`, and after.
pub data Call : Type 0 where
  not_called : Call
  queued inside leaving : ℕ → Call
  returned : Call

-- The mutex stored under the model's key, the number of the next new mutex, and the calls.
pub record Flights : Type 0 where
  pub stored : Option ℕ
  pub fresh : ℕ
  pub calls : ℕ → Call

unfoldable pub no_calls : Flights
no_calls = record { stored = none; fresh = 0; calls = λ i. not_called }

abbrev pub put : ℕ → Call → (ℕ → Call) → ℕ → Call
put i c calls j = if j == i then c else calls j

-- LoadOrStore(key, &sync.Mutex{})
unfoldable pub load_or_store : ℕ → Option ℕ → Flights → Flights
load_or_store i (some m) s = record s { calls = put i (queued m) s.calls }
load_or_store i none s = record {
  stored = some s.fresh;
  fresh = suc s.fresh;
  calls = put i (queued s.fresh) s.calls;
}

pub data FlightStep (s : Flights) : Flights → Type 0 where
  loads : (i : ℕ) → s.calls i ≡ not_called → FlightStep s (load_or_store i s.stored s)
  locks :
      (i m : ℕ)
      → s.calls i ≡ queued m
      → ((j : ℕ) → s.calls j ≢ inside m)
      → FlightStep s (record s { calls = put i (inside m) s.calls })
  unlocks :
      (i m : ℕ)
      → s.calls i ≡ inside m
      → FlightStep s (record s { calls = put i (leaving m) s.calls })
  deletes :
      (i m : ℕ)
      → s.calls i ≡ leaving m
      → FlightStep s (record { stored = none; fresh = s.fresh; calls = put i returned s.calls })

pub data FlightReach (s : Flights) : Flights → Type 0 where
  at_start : FlightReach s s
  then_step : {t u : Flights} → FlightReach s t → FlightStep t u → FlightReach s u

-- One call at a time holds a mutex.
abbrev IsExclusive : Flights → Type 0
IsExclusive s = (i j m : ℕ) → s.calls i ≡ inside m → s.calls j ≡ inside m → i ≡ j

put-IsExclusive :
    (i : ℕ) (c : Call) (calls : ℕ → Call)
    → ((m : ℕ) → c ≢ inside m)
    → ((i j m : ℕ) → calls i ≡ inside m → calls j ≡ inside m → i ≡ j)
    → (j k m : ℕ) → put i c calls j ≡ inside m
    → put i c calls k ≡ inside m
    → j ≡ k
put-IsExclusive i c calls other v j k m p q = elim (Bool-cases (j == i)) [
  | inl here ↦ absurd (other m (rw here at p))
  | inr away ↦ elim (Bool-cases (k == i)) [
    | inl here ↦ absurd (other m (rw here at q))
    | inr away' ↦ v j k m (rw away at p) (rw away' at q)
  ]
]

locks-IsExclusive :
    (i n : ℕ) (calls : ℕ → Call)
    → ((j : ℕ) → calls j ≢ inside n)
    → ((i j m : ℕ) → calls i ≡ inside m → calls j ≡ inside m → i ≡ j)
    → (j k m : ℕ) → put i (inside n) calls j ≡ inside m
    → put i (inside n) calls k ≡ inside m
    → j ≡ k
locks-IsExclusive i n calls free v j k m p q =
    let take = λ (x : ℕ) (e : inside n ≡ inside m) (h : calls x ≡ inside m). free x (h ∙ sym e) in
    elim (Bool-cases (j == i)) [
      | inl here ↦ elim (Bool-cases (k == i)) [
        | inl here' ↦ ground arith
        | inr away' ↦ absurd (take k (rw here at p) (rw away' at q))
      ]
      | inr away ↦ elim (Bool-cases (k == i)) [
        | inl here' ↦ absurd (take j (rw here' at q) (rw away at p))
        | inr away' ↦ v j k m (rw away at p) (rw away' at q)
      ]
    ]

step-IsExclusive : {s t : Flights} → FlightStep s t → IsExclusive s → IsExclusive t
unfolding load_or_store
step-IsExclusive {s} (loads i h) v = loaded s.stored
  where
    loaded : (o : Option ℕ) → IsExclusive (load_or_store i o s)
    loaded none = put-IsExclusive i (queued s.fresh) s.calls (λ m e. cc) v
    loaded (some n) = put-IsExclusive i (queued n) s.calls (λ m e. cc) v
step-IsExclusive {s} (locks i n h free) v = locks-IsExclusive i n s.calls free v
step-IsExclusive {s} (unlocks i n h) v = put-IsExclusive i (leaving n) s.calls (λ m e. cc) v
step-IsExclusive {s} (deletes i n h) v = put-IsExclusive i returned s.calls (λ m e. cc) v

reach-IsExclusive : {s : Flights} → FlightReach no_calls s → IsExclusive s
unfolding no_calls
reach-IsExclusive at_start = λ i j m p q. cc
reach-IsExclusive (then_step before step) = step-IsExclusive step (reach-IsExclusive before)

-- The mutex that a call has from `LoadOrStore` to `Delete`.
abbrev Has : Call → ℕ → Type 0
Has not_called m = ⊥
Has (queued n) m = n ≡ m
Has (inside n) m = n ≡ m
Has (leaving n) m = n ≡ m
Has returned m = ⊥

-- Every call has the mutex that is stored.
abbrev IsShared : Option ℕ → (ℕ → Call) → Type 0
IsShared stored calls = (i m : ℕ) → Has (calls i) m → stored ≡ some m

abbrev HasReturned : (ℕ → Call) → Type 0
HasReturned calls = (k : ℕ) × (calls k ≡ returned)

put-IsShared :
    (i : ℕ) (c : Call) (calls : ℕ → Call) (stored : Option ℕ)
    → ((m : ℕ) → Has c m → stored ≡ some m)
    → IsShared stored calls
    → IsShared stored (put i c calls)
put-IsShared i c calls stored new old j m has = elim (Bool-cases (j == i)) [
  | inl here ↦ new m (rw here at has)
  | inr away ↦ old j m (rw away at has)
]

-- A call that has returned stays so: the call that takes a step is another one.
put-HasReturned :
    (i : ℕ) (c : Call) (calls : ℕ → Call)
    → calls i ≢ returned
    → HasReturned calls
    → HasReturned (put i c calls)
put-HasReturned i c calls runs (k, done) = elim (Bool-cases (k == i)) [
  | inl here ↦ absurd (runs (subst (λ j. calls j ≡ returned) (ground arith) done))
  | inr away ↦ (k, rw away done)
]

-- Until a call has returned, all calls share one mutex.
abbrev IsOneFlight : Flights → Type 0
IsOneFlight s = HasReturned s.calls ⊎ IsShared s.stored s.calls

-- A step that neither stores a mutex nor deletes it.
move-IsOneFlight :
    (i : ℕ) (c : Call) (s : Flights)
    → s.calls i ≢ returned
    → ((m : ℕ) → Has c m → Has (s.calls i) m)
    → IsOneFlight s
    → IsOneFlight (record s { calls = put i c s.calls })
move-IsOneFlight i c s runs keeps (inl done) = inl (put-HasReturned i c s.calls runs done)
move-IsOneFlight i c s runs keeps (inr shared) =
    inr (put-IsShared i c s.calls s.stored (λ m has. shared i m (keeps m has)) shared)

load-IsOneFlight :
    (i : ℕ) (s : Flights) (o : Option ℕ)
    → s.stored ≡ o
    → s.calls i ≡ not_called
    → IsOneFlight s
    → IsOneFlight (load_or_store i o s)
unfolding load_or_store
load-IsOneFlight i s none same idle (inl done) =
    inl (put-HasReturned i (queued s.fresh) s.calls (λ e. cc) done)
load-IsOneFlight i s (some n) same idle (inl done) =
    inl (put-HasReturned i (queued n) s.calls (λ e. cc) done)
load-IsOneFlight i s none same idle (inr shared) =
    let nothing_held =
      λ (j m : ℕ) (has : Has (s.calls j) m). absurd (none-ne-some m (sym same ∙ shared j m has)) in
    inr (put-IsShared i (queued s.fresh) s.calls (some s.fresh) (λ m has. ap some has) nothing_held)
load-IsOneFlight i s (some n) same idle (inr shared) =
    inr (put-IsShared i (queued n) s.calls s.stored (λ m has. same ∙ ap some has) shared)

step-IsOneFlight : {s t : Flights} → FlightStep s t → IsOneFlight s → IsOneFlight t
step-IsOneFlight {s} (loads i idle) v = load-IsOneFlight i s s.stored refl idle v
step-IsOneFlight {s} (locks i n at free) v =
    move-IsOneFlight i (inside n) s (λ e. cc) (λ m has. subst (λ c. Has c m) (sym at) has) v
step-IsOneFlight {s} (unlocks i n at) v =
    move-IsOneFlight i (leaving n) s (λ e. cc) (λ m has. subst (λ c. Has c m) (sym at) has) v
step-IsOneFlight {s} (deletes i n at) v = inl (i, ground arith)

reach-IsOneFlight : {s : Flights} → FlightReach no_calls s → IsOneFlight s
unfolding no_calls
reach-IsOneFlight at_start = inr (λ i m has. absurd has)
reach-IsOneFlight (then_step before step) = step-IsOneFlight step (reach-IsOneFlight before)

-- In every state that the calls of ensureDeployment for one model reach, while one call is inside,
-- another call is not inside with any mutex, or some call has already returned.
pub reach-IsSingle :
    {s : Flights}
    → FlightReach no_calls s
    → (i j m n : ℕ) → i ≢ j
    → s.calls i ≡ inside m
    → (s.calls j ≢ inside n) ⊎ ((k : ℕ) × (s.calls k ≡ returned))
reach-IsSingle {s} reached i j m n apart in_i = elim (reach-IsOneFlight reached) [
  | inl done ↦ inr done
  | inr shared ↦ inl (λ in_j.
      let mine = shared i m (subst (λ c. Has c m) (sym in_i) refl) in
      let theirs = shared j n (subst (λ c. Has c n) (sym in_j) refl) in
      let one : m ≡ n = some-injective m n (sym mine ∙ theirs) in
      apart (reach-IsExclusive reached i j m in_i (in_j ∙ ap inside (sym one))))
]

-- Of any three calls of ensureDeployment for one model, the second can be inside with the first
-- mutex while the third is inside with a new one.
pub single_flight_broken :
    (i j k : ℕ)
    → i ≢ j
    → i ≢ k
    → j ≢ k
    → (s : Flights) × FlightReach no_calls s × (s.calls j ≡ inside 0) × (s.calls k ≡ inside 1)
unfolding no_calls load_or_store
single_flight_broken i j k ij ik jk = (
  _,
  then_step
      (then_step
        (then_step
          (then_step
            (then_step
              (then_step (then_step (then_step at_start (loads i refl)) (loads j (ground arith)))
                (locks i 0 (ground arith) (λ x e. ground arith)))
              (unlocks i 0 (ground arith)))
            (locks j 0 (ground arith) (λ x e. ground arith)))
          (deletes i 0 (ground arith)))
        (loads k (ground arith)))
      (locks k 1 (ground arith) (λ x e. ground arith)),
  (ground arith),
  (ground arith),
)
