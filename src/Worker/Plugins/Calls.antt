-- ===== src/Worker/Plugins/Calls.antt =====
-- What one execution of a Plugin call does to the world (apps/worker/src/plugin-execution.ts).
use agent_builder.Common.{
  ℕ, zero, suc, ◌≡◌, inl, inr, refl, ap, true, List, [], ◌∷◌, ◌++◌, Result, ok, err, Bool-cases,
  arith,
}
use mathlib.Core.List.{append-nil}
use agent_builder.Worker.Json.{Json}
use agent_builder.Worker.PluginPlan.{Outcome, returned, thrown}
use agent_builder.Worker.Plugins.{AuthorityScope, PluginCall, AuthorizationSnapshot}
use agent_builder.Worker.Plugins.Authorize.{assert_worker_plugin_authorization}
use agent_builder.Worker.Plugins.Narrowing.{
  IsPermitted, assert_worker_plugin_authorization-IsPermitted,
}
use agent_builder.Worker.Plugins.Executor.{
  LedgerEvent, Appended, inserted, existing, PluginCallResult, same_authority_scope, raised,
  attempted, caught, caught_code, ended_failure, tried, Answers, Action, append, call_tool, Ending,
  recorded, unavailable, refused, Body, done, failing, lost, authorized, succeeded_event,
  failed_event, append_terminal, ended, complete_checked, complete_call, call_checked, caught_body,
  run_begun, run_authorized, execute_call,
}

-- The scopes with which a Plugin is called, among actions.
abbrev pub calls : List Action → List AuthorityScope
calls [] = []
calls (append event ∷ actions) = calls actions
calls (call_tool scope ∷ actions) = scope ∷ calls actions

calls-append : (xs ys : List Action) → calls (xs ++ ys) ≡ calls xs ++ calls ys
calls-append [] ys = refl
calls-append (append event ∷ xs) ys = calls-append xs ys
calls-append (call_tool scope ∷ xs) ys = ap (λ l. scope ∷ l) (calls-append xs ys)

append_terminal-calls :
    (answer : ℕ → Outcome Appended) (event : LedgerEvent) (attempt left : ℕ)
    → calls (append_terminal answer event attempt left).1 ≡ []
unfolding append_terminal
append_terminal-calls answer event attempt zero = refl
append_terminal-calls answer event attempt (suc left) =
    step (answer attempt) (append_terminal answer event (suc attempt) left)
      (append_terminal-calls answer event (suc attempt) left)
  where
    step :
        (o : Outcome Appended) (rest : Ending × List Action)
        → calls rest.1 ≡ []
        → calls (attempted event o rest).1 ≡ []
    step (returned a) (ending, actions) e = refl
    step (thrown fault) (ending, actions) e = ground (arith, e)

-- A returned authorization was permitted.
raised-ok :
    (r : Result AuthorityScope) (scope : AuthorityScope) → raised r ≡ returned scope → r ≡ ok scope
raised-ok (ok a) scope e = cc
raised-ok (err code) scope e = absurd cc

module _ (digest : Json → ℕ) (attempts : ℕ) (call : PluginCall) (w : Answers) where
  pub authorized-IsPermitted :
      (o : Outcome AuthorizationSnapshot) (scope : AuthorityScope)
      → authorized digest attempts call w o ≡ returned scope
      → (s : AuthorizationSnapshot) × (o ≡ returned s) × IsPermitted call s scope
  authorized-IsPermitted (thrown fault) scope e = absurd cc
  authorized-IsPermitted (returned s) scope e = (
    s,
    refl,
    assert_worker_plugin_authorization-IsPermitted call s scope
        (raised-ok (assert_worker_plugin_authorization call s) scope e),
  )

  caught_body-calls : (b : Body) → calls (caught_body digest attempts call w b).1 ≡ []
  caught_body-calls (done r) = refl
  caught_body-calls lost = refl
  caught_body-calls (failing fault) =
      let event =
        failed_event digest attempts call w (caught_code digest attempts call w w.aborted fault) in
      ended_failure-calls (append_terminal w.on_failure event 1 attempts)
        (append_terminal-calls w.on_failure event 1 attempts)
    where
      ended_failure-calls :
          (x : Ending × List Action)
          → calls x.1 ≡ []
          → calls
              (ended_failure digest attempts call w
                (caught digest attempts call w w.aborted fault)
                x).1
            ≡ []
      ended_failure-calls (recorded, actions) e = e
      ended_failure-calls (unavailable, actions) e = e
      ended_failure-calls (refused other, actions) e = e

  ended-calls :
      (r : PluginCallResult) (x : Ending × List Action)
      → calls x.1 ≡ []
      → calls (ended digest attempts call w r x).1 ≡ []
  ended-calls r (recorded, actions) e = e
  ended-calls r (unavailable, actions) e = e
  ended-calls r (refused fault, actions) e = e

  complete_call-calls :
      (scope : AuthorityScope) (o : Outcome PluginCallResult)
      → calls (complete_call digest attempts call w scope o).1 ≡ []
  complete_call-calls scope (thrown fault) = refl
  complete_call-calls scope (returned r) = checked (authorized digest attempts call w w.completed)
    where
      checked :
          (o : Outcome AuthorityScope)
          → calls (complete_checked digest attempts call w scope r o).1 ≡ []
      checked (thrown fault) = refl
      checked (returned now) = elim (Bool-cases (same_authority_scope now scope)) [
        | inl q ↦ rw q (
            ended-calls r
              (append_terminal w.on_success (succeeded_event digest attempts call w r) 1 attempts)
              (append_terminal-calls w.on_success (succeeded_event digest attempts call w r) 1
                attempts))
        | inr q ↦ rw q refl
      ]

  -- A Plugin is called at most once, where the store took the first event as new, with the scope of a
  -- check that the call passed just before, the same as at the start.
  pub data IsGuarded : List AuthorityScope → Type 0 where
    not_called : IsGuarded []
    called_once :
        (first now : AuthorityScope) (s t : AuthorizationSnapshot)
        → w.initial ≡ returned s
        → IsPermitted call s first
        → w.begun ≡ returned inserted
        → w.current ≡ returned t
        → IsPermitted call t now
        → same_authority_scope now first ≡ true
        → IsGuarded (now ∷ [])

  module _ (first : AuthorityScope) (s : AuthorizationSnapshot) (read : w.initial ≡ returned s)
      (permitted : IsPermitted call s first) (new : w.begun ≡ returned inserted) where
    tried-IsGuarded :
        (x : Body × List Action)
        → IsGuarded (calls x.1)
        → IsGuarded (calls (tried digest attempts call w x).1)
    tried-IsGuarded (body, actions) g =
        rw
          (
            calls-append actions (caught_body digest attempts call w body).1,
            caught_body-calls body,
            append-nil (calls actions),
          )
          g

    call_checked-IsGuarded :
        (o : Outcome AuthorityScope)
        → authorized digest attempts call w w.current ≡ o
        → IsGuarded (calls (call_checked digest attempts call w first o).1)
    call_checked-IsGuarded (thrown fault) e = not_called
    call_checked-IsGuarded (returned now) e = elim (Bool-cases (same_authority_scope now first)) [
      | inl q ↦
          let (t, current, p) = authorized-IsPermitted w.current now e in
          rw (q, complete_call-calls first w.tool)
            (called_once first now s t read permitted new current p q)
      | inr q ↦ rw q not_called
    ]

  run_begun-IsGuarded :
      (first : AuthorityScope) (s : AuthorizationSnapshot)
      → w.initial ≡ returned s
      → IsPermitted call s first
      → (o : Outcome Appended) → w.begun ≡ o
      → IsGuarded (calls (run_begun digest attempts call w first o).1)
  run_begun-IsGuarded first s read permitted (thrown fault) e = not_called
  run_begun-IsGuarded first s read permitted (returned existing) e = not_called
  run_begun-IsGuarded first s read permitted (returned inserted) e =
      tried-IsGuarded first s read permitted e
        (call_checked digest attempts call w first (authorized digest attempts call w w.current))
        (call_checked-IsGuarded first s read permitted e
          (authorized digest attempts call w w.current) refl)

  run_authorized-IsGuarded :
      (o : Outcome AuthorityScope)
      → authorized digest attempts call w w.initial ≡ o
      → IsGuarded (calls (run_authorized digest attempts call w o).1)
  run_authorized-IsGuarded (thrown fault) e = not_called
  run_authorized-IsGuarded (returned scope) e =
      let (s, read, permitted) = authorized-IsPermitted w.initial scope e in
      run_begun-IsGuarded scope s read permitted w.begun refl

  -- Whatever the store, the Plugin and the monitor answer, an execution calls the Plugin at most once,
  -- and only if the store took the running event as new, with a scope for which the call is permitted
  -- by the snapshot read just before and which is the one permitted at the start; where the store answers
  -- that the event exists, the Plugin is not called.
  pub execute_call-IsGuarded : IsGuarded (calls (execute_call digest attempts call w).1)
  unfolding execute_call
  execute_call-IsGuarded =
      run_authorized-IsGuarded (authorized digest attempts call w w.initial) refl
