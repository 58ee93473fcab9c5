-- ===== src/Controller/Conditions.antt =====
-- internal/controller/inferencemodel_controller.go: `setConditionOnModel` and `isScaledDown`.
use inference_budget_control.Prelude.{
  ℕ, String, str_eq, eq_iff, eq_refl, Option, none, some, List, [], ◌∷◌, Bool, true, false, not,
  ◌&&◌, ◌≡◌, ◌≢◌, refl, ap, if◌then◌else◌, arith, Bool-cases, inl, inr,
}
use inference_budget_control.Controller.{StatusCondition}

abbrev pub same_bool : Bool → Bool → Bool
same_bool true b = b
same_bool false b = not b

-- Status, Reason and Message are as given.
unfoldable pub is_same : Bool → String → String → StatusCondition → Bool
is_same status reason message c =
    same_bool c.status status && str_eq c.reason reason && str_eq c.message message

abbrev pub new_condition : String → Bool → String → String → ℕ → StatusCondition
new_condition type_ status reason message now = record {
  type_ = type_;
  status = status;
  reason = reason;
  message = message;
  last_transition_time = now;
}

-- The conditions afterwards, and whether they changed.
unfoldable pub set_condition_on_model :
    List StatusCondition → String → Bool → String → String → ℕ → List StatusCondition × Bool
unfolding is_same
set_condition_on_model [] type_ status reason message now =
    (new_condition type_ status reason message now ∷ [], true)
set_condition_on_model (c ∷ cs) type_ status reason message now =
    let rest = set_condition_on_model cs type_ status reason message now in
    if str_eq c.type_ type_
    then (if is_same status reason message c
        then (c ∷ cs, false)
        else (new_condition type_ status reason message now ∷ cs, true))
    else (c ∷ rest.0, rest.1)

-- The first condition of the type Ready decides.
unfoldable pub is_scaled_down : List StatusCondition → Bool
is_scaled_down [] = false
is_scaled_down (c ∷ cs) =
    let rest = is_scaled_down cs in
    if str_eq c.type_ "Ready" then not c.status && str_eq c.reason "ScaledToZero" else rest

-- The first condition of a type.
unfoldable pub find_condition : String → List StatusCondition → Option StatusCondition
find_condition type_ [] = none
find_condition type_ (c ∷ cs) =
    let rest = find_condition type_ cs in if str_eq c.type_ type_ then some c else rest

abbrev pub HasValues : Bool → String → String → Option StatusCondition → Type 0
HasValues status reason message none = ⊥
HasValues status reason message (some c) =
    (c.status ≡ status) × (c.reason ≡ reason) × (c.message ≡ message)

is_same-HasValues :
    (status : Bool) (reason message : String) (c : StatusCondition)
    → is_same status reason message c ≡ true
    → HasValues status reason message (some c)
unfolding is_same
is_same-HasValues status reason message c h =
    ground (arith, eq_iff c.reason reason, eq_iff c.message message)

-- After setConditionOnModel the first condition of its type has the given values and the first
-- condition of each other type is as it was; where it says that nothing changed, the list is the
-- same.
pub set_condition_on_model-values :
    (cs : List StatusCondition) (type_ : String) (status : Bool) (reason message : String) (now : ℕ)
    → let r = set_condition_on_model cs type_ status reason message now in
      HasValues status reason message (find_condition type_ r.0)
      × ((other : String) → other ≢ type_ → find_condition other r.0 ≡ find_condition other cs)
      × (r.1 ≡ false → r.0 ≡ cs)
unfolding set_condition_on_model find_condition
set_condition_on_model-values [] type_ status reason message now = (
  rw (eq_refl type_, HasValues) (refl, refl, refl),
  (λ other apart. ground (arith, eq_iff type_ other)),
  λ h. cc,
)
set_condition_on_model-values (c ∷ cs) type_ status reason message now =
    let (values, others, kept) = set_condition_on_model-values cs type_ status reason message now in
    elim (Bool-cases (str_eq c.type_ type_)) [
      | inr away ↦
          rw (away, set_condition_on_model, find_condition, away)
            (
              values,
              (λ other apart. rw (others other apart) refl),
              (λ h. ap (λ xs. c ∷ xs) (kept h)),
            )
      | inl here ↦ elim (Bool-cases (is_same status reason message c)) [
        | inl same ↦
            rw (here, same, set_condition_on_model, find_condition, here)
              (is_same-HasValues status reason message c same, (λ other apart. refl), (λ h. refl))
        | inr changed ↦
            rw (here, changed, set_condition_on_model, find_condition, eq_refl type_, HasValues)
              (
                (refl, refl, refl),
                (λ other apart.
                    ground (arith, eq_iff type_ other, eq_iff c.type_ type_, eq_iff c.type_ other)),
                (λ h. cc),
              )
      ]
    ]
