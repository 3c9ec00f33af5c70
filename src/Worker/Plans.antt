-- ===== src/Worker/Plans.antt =====
-- A plan of Plugin calls is executed to its end (apps/worker/src/plugin-plan.ts).
use agent_builder.Common.{
  ℕ, suc, ◌+◌, ◌≡◌, ◌∙◌, refl, sym, subst, inl, inr, ◌⊎◌, List, [], ◌∷◌, ◌++◌, Option, none, some,
  All, length,
}
use agent_builder.Worker.Json.{Json}
use agent_builder.Worker.PluginPlan.{
  Outcome, returned, thrown, ◌>>=!◌, amount, PlannedCall, PluginResult, PlanResult, Signal,
  add_plugin_cost, execute_calls, execute_plan,
}
use agent_builder.Worker.Stream.{IsIncreasing, AreFresh, keys_of, any-keys_of, keys_of-append}

-- A result whose cost, if it has one, is a number that is not negative.
abbrev pub IsPriced : PluginResult → Type 0
IsPriced result = (result.cost ≡ none) ⊎ ((n : ℕ) × (result.cost ≡ some (amount n)))

-- The executor answers the call.
abbrev pub IsAnswered : (ℕ → Outcome PluginResult) → PlannedCall → Type 0
IsAnswered execute_call item =
    (result : PluginResult) × (execute_call item.call ≡ returned result) × IsPriced result

abbrev pub DoesReturn {ℓ} : {A : Type ℓ} → Outcome A → Type 0
DoesReturn (returned a) = Unit
DoesReturn (thrown e) = ⊥

-- A priced result adds to the total.
add_plugin_cost-returned :
    (result : PluginResult) (total : ℕ)
    → IsPriced result
    → (sum : ℕ) × (add_plugin_cost result.cost total ≡ returned sum)
add_plugin_cost-returned result total (inl e) = (total, rw e refl)
add_plugin_cost-returned result total (inr (n, e)) = (total + n, rw e refl)

module _ (execute_call : ℕ → Outcome PluginResult) (aborted : Signal)
    (live : (i : ℕ) → aborted i ≡ none) where
  execute_calls-DoesReturn :
      (i : ℕ) (prior : Option ℕ) (context : List (ℕ × Json)) (total : ℕ)
      (planned : List PlannedCall)
      → IsIncreasing prior planned
      → AreFresh (keys_of context) planned
      → All (IsAnswered execute_call) planned
      → DoesReturn (execute_calls execute_call aborted i prior context total planned)
  unfolding execute_calls
  execute_calls-DoesReturn i prior context total [] up fresh answered = tt
  execute_calls-DoesReturn i prior context total (item ∷ rest) up fresh
        ((result, e, priced), answered) =
      let unused = sym (any-keys_of item.context_key context) ∙ fresh.0 in
      let (sum, added) = add_plugin_cost-returned result total priced in
      rw (live i, execute_calls, up.0, unused, e, added)
        (execute_calls-DoesReturn (suc i) (some item.ordinal)
          (context ++ ((item.context_key, result.output) ∷ [])) sum rest up.1
          (subst (λ l. AreFresh l rest)
            (sym (keys_of-append context item.context_key result.output)) fresh.1)
          answered)

-- If the ordinals of a plan grow, no context key is repeated, the signal is never aborted, and the
-- executor answers every call with a result whose cost is valid, then the plan is executed to its
-- end.
pub execute_plan-DoesReturn :
    (execute_call : ℕ → Outcome PluginResult) (aborted : Signal) (planned : List PlannedCall)
    → ((i : ℕ) → aborted i ≡ none)
    → IsIncreasing none planned
    → AreFresh [] planned
    → All (IsAnswered execute_call) planned
    → DoesReturn (execute_plan execute_call aborted planned)
unfolding execute_plan
execute_plan-DoesReturn execute_call aborted planned live up fresh answered =
    after_calls (execute_calls execute_call aborted 0 none [] 0 planned)
      (execute_calls-DoesReturn execute_call aborted live 0 none [] 0 planned up fresh answered)
  where
    result_of : List (ℕ × Json) × ℕ → PlanResult
    result_of r = record { context = r.0; cost = r.1; invocation_count = length planned }

    after_calls :
        (m : Outcome (List (ℕ × Json) × ℕ))
        → DoesReturn m
        → DoesReturn (m >>=! λ r. returned (result_of r))
    after_calls (returned r) h = tt
    after_calls (thrown e) h = absurd h
