-- ===== src/Worker/Plugins/Settled.antt =====
-- How the attempts to record the end of an invocation come out
-- (apps/worker/src/plugin-execution.ts).
use agent_builder.Common.{
  ℕ, zero, suc, ◌+◌, ◌≡◌, ◌≤◌, ◌<◌, ◌⊎◌, inl, inr, refl, sym, subst, List, Bool-cases, ℕ_discrete,
  true, false, arith,
}
use agent_builder.Worker.Json.{Json}
use agent_builder.Worker.PluginPlan.{Fault, plugin_error, Outcome, returned, thrown}
use agent_builder.Worker.Plugins.{AuthorityScope, PluginCall}
use agent_builder.Worker.Plugins.Executor.{
  LedgerEvent, Appended, inserted, PluginCallResult, same_authority_scope, is_permanent, attempted,
  caught, caught_code, ended_failure, called, tried, Answers, Action, Ending, recorded, unavailable,
  refused, Body, done, failing, lost, authorized, succeeded_event, failed_event, append_terminal,
  ended, complete_checked, complete_call, call_checked, run_begun, execute_call,
}

-- One of the attempts is taken.
abbrev pub IsStored : (ℕ → Outcome Appended) → ℕ → ℕ → Type 0
IsStored answer attempt left =
    (n : ℕ) × (attempt ≤ n) × (n < attempt + left) × (a : Appended) × (answer n ≡ returned a)

-- One of the attempts is refused for good.
abbrev pub IsRefused : (ℕ → Outcome Appended) → ℕ → ℕ → Fault → Type 0
IsRefused answer attempt left fault =
    (n : ℕ) × (attempt ≤ n)
    × (n < attempt + left)
    × (answer n ≡ thrown fault)
    × (is_permanent fault ≡ true)

-- Every attempt fails, none of them for good.
abbrev pub AllFail : (ℕ → Outcome Appended) → ℕ → ℕ → Type 0
AllFail answer attempt left =
    (n : ℕ)
    → attempt ≤ n
    → n < attempt + left
    → (fault : Fault) × (answer n ≡ thrown fault) × (is_permanent fault ≡ false)

abbrev IsEnding : (ℕ → Outcome Appended) → ℕ → ℕ → Ending → Type 0
IsEnding answer attempt left recorded = IsStored answer attempt left
IsEnding answer attempt left unavailable = AllFail answer attempt left
IsEnding answer attempt left (refused fault) = IsRefused answer attempt left fault

later-IsEnding :
    (answer : ℕ → Outcome Appended) (attempt left : ℕ) (e : Ending) (fault : Fault)
    → answer attempt ≡ thrown fault
    → is_permanent fault ≡ false
    → IsEnding answer (suc attempt) left e
    → IsEnding answer attempt (suc left) e
later-IsEnding answer attempt left recorded fault q p (n, low, high, a, e) =
    (n, omega (arith, low), omega (arith, high), a, e)
later-IsEnding answer attempt left (refused other) fault q p (n, low, high, e, f) =
    (n, omega (arith, low), omega (arith, high), e, f)
later-IsEnding answer attempt left unavailable fault q p h = λ n low high.
    elim (ℕ_discrete attempt n) [
      | yes e ↦ (fault, subst (λ m. answer m ≡ thrown fault) e q, p)
      | no ne ↦ h n (ground (arith, low, ne)) (omega (arith, high))
    ]

append_terminal-IsEnding :
    (answer : ℕ → Outcome Appended) (event : LedgerEvent) (attempt left : ℕ)
    → IsEnding answer attempt left (append_terminal answer event attempt left).0
unfolding append_terminal
append_terminal-IsEnding answer event attempt zero = λ n low high. absurd (omega (arith, low, high))
append_terminal-IsEnding answer event attempt (suc left) =
    step (answer attempt) refl (append_terminal answer event (suc attempt) left)
      (append_terminal-IsEnding answer event (suc attempt) left)
  where
    step :
        (o : Outcome Appended)
        → answer attempt ≡ o
        → (rest : Ending × List Action) → IsEnding answer (suc attempt) left rest.0
        → IsEnding answer attempt (suc left) (attempted event o rest).0
    step (returned a) q (ending, actions) h = (attempt, omega arith, omega arith, a, q)
    step (thrown fault) q (ending, actions) h = elim (Bool-cases (is_permanent fault)) [
      | inl p ↦ rw p (attempt, omega arith, omega arith, q, p)
      | inr p ↦ rw p (later-IsEnding answer attempt left ending fault q p h)
    ]

-- How an execution whose first event was taken comes out: a result only if its end is stored; an
-- error with its end stored or refused for good; or the error that the ledger is unavailable, after
-- every attempt failed.
pub data IsSettled (w : Answers) (attempts : ℕ) : Outcome PluginCallResult → Type 0 where
  stored_result :
      (r : PluginCallResult) → IsStored w.on_success 1 attempts → IsSettled w attempts (returned r)
  stored_failure :
      (fault : Fault) → IsStored w.on_failure 1 attempts → IsSettled w attempts (thrown fault)
  refused_failure :
      (fault : Fault)
      → IsRefused w.on_failure 1 attempts fault
      → IsSettled w attempts (thrown fault)
  exhausted :
      AllFail w.on_success 1 attempts ⊎ AllFail w.on_failure 1 attempts
      → IsSettled w attempts (thrown (plugin_error "PLUGIN_INVOCATION_LEDGER_UNAVAILABLE" true))

module _ (digest : Json → ℕ) (attempts : ℕ) (call : PluginCall) (w : Answers) where
  -- What a body shows of the attempts to record a success.
  abbrev IsBody : Body → Type 0
  IsBody (done r) = IsStored w.on_success 1 attempts
  IsBody lost = AllFail w.on_success 1 attempts
  IsBody (failing fault) = Unit

  ended-IsBody :
      (r : PluginCallResult) (x : Ending × List Action)
      → IsEnding w.on_success 1 attempts x.0
      → IsBody (ended digest attempts call w r x).0
  ended-IsBody r (recorded, actions) h = h
  ended-IsBody r (unavailable, actions) h = h
  ended-IsBody r (refused fault, actions) h = tt

  complete_checked-IsBody :
      (first : AuthorityScope) (r : PluginCallResult) (o : Outcome AuthorityScope)
      → IsBody (complete_checked digest attempts call w first r o).0
  complete_checked-IsBody first r (thrown fault) = tt
  complete_checked-IsBody first r (returned now) =
      elim (Bool-cases (same_authority_scope now first)) [
        | inl p ↦ rw p (
            ended-IsBody r
              (append_terminal w.on_success (succeeded_event digest attempts call w r) 1 attempts)
              (append_terminal-IsEnding w.on_success (succeeded_event digest attempts call w r) 1
                attempts))
        | inr p ↦ rw p tt
      ]

  complete_call-IsBody :
      (first : AuthorityScope) (o : Outcome PluginCallResult)
      → IsBody (complete_call digest attempts call w first o).0
  complete_call-IsBody first (thrown fault) = tt
  complete_call-IsBody first (returned r) =
      complete_checked-IsBody first r (authorized digest attempts call w w.completed)

  called-IsBody :
      (now : AuthorityScope) (x : Body × List Action)
      → IsBody x.0
      → IsBody (called digest attempts call w now x).0
  called-IsBody now (body, actions) h = h

  call_checked-IsBody :
      (first : AuthorityScope) (o : Outcome AuthorityScope)
      → IsBody (call_checked digest attempts call w first o).0
  call_checked-IsBody first (thrown fault) = tt
  call_checked-IsBody first (returned now) = elim (Bool-cases (same_authority_scope now first)) [
    | inl p ↦ rw p (
        called-IsBody now (complete_call digest attempts call w first w.tool)
          (complete_call-IsBody first w.tool))
    | inr p ↦ rw p tt
  ]

  ended_failure-IsSettled :
      (fault : Fault) (x : Ending × List Action)
      → IsEnding w.on_failure 1 attempts x.0
      → IsSettled w attempts (ended_failure digest attempts call w fault x).0
  ended_failure-IsSettled fault (recorded, actions) h = stored_failure fault h
  ended_failure-IsSettled fault (unavailable, actions) h = exhausted (inr h)
  ended_failure-IsSettled fault (refused other, actions) h = refused_failure other h

  pub tried-IsSettled :
      (x : Body × List Action)
      → IsBody x.0
      → IsSettled w attempts (tried digest attempts call w x).0
  tried-IsSettled (done r, actions) h = stored_result r h
  tried-IsSettled (lost, actions) h = exhausted (inl h)
  tried-IsSettled (failing fault, actions) h =
      let event =
        failed_event digest attempts call w (caught_code digest attempts call w w.aborted fault) in
      ended_failure-IsSettled (caught digest attempts call w w.aborted fault)
        (append_terminal w.on_failure event 1 attempts)
        (append_terminal-IsEnding w.on_failure event 1 attempts)

  -- The execution from its first event on.
  pub execute_call-IsSettled :
      (scope : AuthorityScope)
      → authorized digest attempts call w w.initial ≡ returned scope
      → w.begun ≡ returned inserted
      → IsSettled w attempts (execute_call digest attempts call w).0
  unfolding execute_call
  execute_call-IsSettled scope permitted new = rw permitted (
      subst (λ o. IsSettled w attempts (run_begun digest attempts call w scope o).0) (sym new)
        (tried-IsSettled
          (call_checked digest attempts call w scope (authorized digest attempts call w w.current))
          (call_checked-IsBody scope (authorized digest attempts call w w.current))))
