-- ===== src/Worker/PluginPlan.antt =====
-- The Plugin calls that precede the model (apps/worker/src/plugin-plan.ts), with the faults that
-- the worker tells apart (apps/worker/src/engine.ts). The source of the plan, the executor of a
-- call and the abort signal are not this code's: they are parameters.
use agent_builder.Common.{
  ℕ, suc, ◌+◌, Bool, false, ◌||◌, List, [], ◌∷◌, ◌++◌, Option, none, some, String, length, any, leb,
  ◌==◌, if◌then◌else◌,
}
use agent_builder.Worker.Json.{Json}

-- What `throw` can carry here.
pub data Fault : Type 0 where
  worker_fault : String → Bool → Fault
  plugin_error : String → Bool → Fault
  lease_lost run_cancelled worker_stopping timeout_error syntax_error other_fault : Fault

pub data Outcome {ℓ} (A : Type ℓ) : Type ℓ where
  returned : A → Outcome A
  thrown : Fault → Outcome A

infixl 5 ◌>>=!◌
abbrev pub ◌>>=!◌ {ℓ κ} : {A : Type ℓ} {B : Type κ} → Outcome A → (A → Outcome B) → Outcome B
thrown fault >>=! next = thrown fault
returned value >>=! next = next value

abbrev pub Returns {ℓ κ} : {A : Type ℓ} → (A → Type κ) → Outcome A → Type κ
Returns P (thrown fault) = Unit
Returns P (returned value) = P value

-- A number that may be negative, infinite or no number at all.
pub data Cost : Type 0 where
  amount : ℕ → Cost
  invalid : Cost

pub record PluginResult : Type 0 where
  pub output : Json
  pub cost : Option Cost

-- The call itself is its number, and the context keys are numbers.
pub record PlannedCall : Type 0 where
  pub ordinal : ℕ
  pub context_key : ℕ
  pub call : ℕ

pub record PlanResult : Type 0 where
  pub context : List (ℕ × Json)
  pub cost : ℕ
  pub invocation_count : ℕ

abbrev pub has_own : ℕ → List (ℕ × Json) → Bool
has_own key context = any (λ e. e.0 == key) context

-- The order of the plan; `none` stands for the ordinal -1 before the first call.
abbrev pub out_of_order : ℕ → Option ℕ → Bool
out_of_order ordinal none = false
out_of_order ordinal (some prior) = leb ordinal prior

abbrev pub add_plugin_cost : Option Cost → ℕ → Outcome ℕ
add_plugin_cost none total = returned total
add_plugin_cost (some invalid) total = thrown (plugin_error "PLUGIN_COST_INVALID" false)
add_plugin_cost (some (amount n)) total = returned (total + n)

-- The signal before the `i`-th call: aborted or not, with an `Error` as its reason or without.
abbrev pub Signal : Type 0
Signal = ℕ → Option (Option Fault)

abbrev pub abort_reason : Option Fault → Fault
abort_reason none = plugin_error "PLUGIN_CALL_CANCELLED" false
abort_reason (some reason) = reason

module _ (execute_call : ℕ → Outcome PluginResult) (aborted : Signal) where
  -- The loop over the calls left, before the `i`-th.
  unfoldable pub execute_calls :
      ℕ → Option ℕ → List (ℕ × Json) → ℕ → List PlannedCall → Outcome (List (ℕ × Json) × ℕ)
  execute_calls i prior context total [] = returned (context, total)
  execute_calls i prior context total (item ∷ rest) = elim (aborted i) [
    | some reason ↦ thrown (abort_reason reason)
    | none ↦
        if out_of_order item.ordinal prior || has_own item.context_key context
        then thrown (plugin_error "PLUGIN_CALL_PLAN_INVALID" false)
        else (execute_call item.call >>=! λ result. add_plugin_cost result.cost total >>=! λ cost.
            execute_calls (suc i) (some item.ordinal)
              (context ++ ((item.context_key, result.output) ∷ [])) cost rest)
  ]

  unfoldable pub execute_plan : List PlannedCall → Outcome PlanResult
  unfolding execute_calls
  execute_plan planned = execute_calls 0 none [] 0 planned >>=! λ r.
      returned (record { context = r.0; cost = r.1; invocation_count = length planned })

pub Returns-then {ℓ κ ν} :
    {A : Type ℓ} {B : Type κ} (P : B → Type ν) (m : Outcome A) (f : A → Outcome B)
    → ((a : A) → Returns P (f a))
    → Returns P (m >>=! f)
Returns-then P (returned a) f k = k a
Returns-then P (thrown e) f k = tt

pub Returns-bind {ℓ κ ι ν} :
    {A : Type ℓ} {B : Type κ} (Q : A → Type ι) (P : B → Type ν) (m : Outcome A) (f : A → Outcome B)
    → Returns Q m
    → ((a : A) → Q a → Returns P (f a))
    → Returns P (m >>=! f)
Returns-bind Q P (returned a) f h k = k a h
Returns-bind Q P (thrown e) f h k = tt
