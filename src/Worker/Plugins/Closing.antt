-- ===== src/Worker/Plugins/Closing.antt =====
-- The end of an invocation that was started (apps/worker/src/plugin-execution.ts).
use agent_builder.Common.{
  ℕ, zero, suc, ◌≡◌, ◌≤◌, ◌⊎◌, inl, inr, refl, sym, ◌∙◌, ap, List, [], ◌∷◌, ◌++◌, Bool-cases, arith,
}
use mathlib.Core.List.{append_assoc, append-nil}
use agent_builder.Worker.Json.{Json}
use agent_builder.Worker.PluginPlan.{Fault, Outcome, returned, thrown}
use agent_builder.Worker.Plugins.{AuthorityScope, PluginCall}
use agent_builder.Worker.Plugins.Executor.{
  LedgerEvent, Appended, inserted, PluginCallResult, same_authority_scope, is_permanent, attempted,
  caught, caught_code, ended_failure, called, tried, Answers, Action, append, call_tool, Ending,
  recorded, unavailable, refused, Body, done, failing, lost, authorized, running_event,
  succeeded_event, failed_event, append_terminal, ended, complete_checked, complete_call,
  call_checked, caught_body, execute_call,
}
use agent_builder.Worker.Plugins.Settled.{IsSettled, execute_call-IsSettled}

-- The last action is the end of an invocation.
pub record IsClosed (key : ℕ) (actions : List Action) : Type 0 where
  pub before : List Action
  pub event : LedgerEvent
  pub last : actions ≡ before ++ (append event ∷ [])
  pub sequence : event.sequence ≡ 2
  pub invocation : event.invocation_key ≡ key

IsClosed-append : (key : ℕ) (xs ys : List Action) → IsClosed key ys → IsClosed key (xs ++ ys)
IsClosed-append key xs ys c = record {
  before = xs ++ c.before;
  event = c.event;
  last = ap (λ l. xs ++ l) c.last ∙ sym (append_assoc xs c.before (append c.event ∷ []));
  sequence = c.sequence;
  invocation = c.invocation;
}

one-IsClosed :
    (key : ℕ) (event : LedgerEvent)
    → event.sequence ≡ 2
    → event.invocation_key ≡ key
    → IsClosed key (append event ∷ [])
one-IsClosed key event s k = record {
  before = [];
  event = event;
  last = refl;
  sequence = s;
  invocation = k;
}

attempted-IsClosed :
    (key : ℕ) (event : LedgerEvent) (o : Outcome Appended) (rest : Ending × List Action)
    → event.sequence ≡ 2
    → event.invocation_key ≡ key
    → (rest.1 ≡ []) ⊎ IsClosed key rest.1
    → IsClosed key (attempted event o rest).1
attempted-IsClosed key event (returned a) (ending, actions) s k c = one-IsClosed key event s k
attempted-IsClosed key event (thrown fault) (ending, actions) s k c =
    elim (Bool-cases (is_permanent fault)) [
      | inl p ↦ rw p (one-IsClosed key event s k)
      | inr p ↦ rw p (elim c [
        | inl none_left ↦ rw none_left (one-IsClosed key event s k)
        | inr closed ↦ IsClosed-append key (append event ∷ []) actions closed
      ])
    ]

append_terminal-IsClosed :
    (key : ℕ) (answer : ℕ → Outcome Appended) (event : LedgerEvent) (attempt left : ℕ)
    → event.sequence ≡ 2
    → event.invocation_key ≡ key
    → ((append_terminal answer event attempt left).1 ≡ []) × (left ≡ 0)
      ⊎ IsClosed key (append_terminal answer event attempt left).1
unfolding append_terminal
append_terminal-IsClosed key answer event attempt zero s k = inl (refl, refl)
append_terminal-IsClosed key answer event attempt (suc left) s k = inr (
    attempted-IsClosed key event (answer attempt) (append_terminal answer event (suc attempt) left)
      s k
      (elim (append_terminal-IsClosed key answer event (suc attempt) left s k) [
        | inl (e, z) ↦ inl e
        | inr c ↦ inr c
      ]))

module _ (digest : Json → ℕ) (attempts : ℕ) (call : PluginCall) (w : Answers)
    (some_attempt : 1 ≤ attempts) where
  terminal-IsClosed :
      (answer : ℕ → Outcome Appended) (event : LedgerEvent)
      → event.sequence ≡ 2
      → event.invocation_key ≡ call.invocation_key
      → IsClosed call.invocation_key (append_terminal answer event 1 attempts).1
  terminal-IsClosed answer event s k =
      elim (append_terminal-IsClosed call.invocation_key answer event 1 attempts s k) [
        | inl (e, z) ↦ absurd (omega (arith, z, some_attempt))
        | inr c ↦ c
      ]

  -- A body with an error, or with its end recorded or tried.
  abbrev IsTried : Body × List Action → Type 0
  IsTried (done r, actions) = IsClosed call.invocation_key actions
  IsTried (lost, actions) = IsClosed call.invocation_key actions
  IsTried (failing fault, actions) = Unit

  ended-IsTried :
      (r : PluginCallResult) (x : Ending × List Action)
      → IsClosed call.invocation_key x.1
      → IsTried (ended digest attempts call w r x)
  ended-IsTried r (recorded, actions) c = c
  ended-IsTried r (unavailable, actions) c = c
  ended-IsTried r (refused fault, actions) c = tt

  complete_checked-IsTried :
      (first : AuthorityScope) (r : PluginCallResult) (o : Outcome AuthorityScope)
      → IsTried (complete_checked digest attempts call w first r o)
  complete_checked-IsTried first r (thrown fault) = tt
  complete_checked-IsTried first r (returned now) =
      elim (Bool-cases (same_authority_scope now first)) [
        | inl p ↦ rw p (
            ended-IsTried r
              (append_terminal w.on_success (succeeded_event digest attempts call w r) 1 attempts)
              (terminal-IsClosed w.on_success (succeeded_event digest attempts call w r) refl refl))
        | inr p ↦ rw p tt
      ]

  complete_call-IsTried :
      (first : AuthorityScope) (o : Outcome PluginCallResult)
      → IsTried (complete_call digest attempts call w first o)
  complete_call-IsTried first (thrown fault) = tt
  complete_call-IsTried first (returned r) =
      complete_checked-IsTried first r (authorized digest attempts call w w.completed)

  called-IsTried :
      (now : AuthorityScope) (x : Body × List Action)
      → IsTried x
      → IsTried (called digest attempts call w now x)
  called-IsTried now (done r, actions) t =
      IsClosed-append call.invocation_key (call_tool now ∷ []) actions t
  called-IsTried now (lost, actions) t =
      IsClosed-append call.invocation_key (call_tool now ∷ []) actions t
  called-IsTried now (failing fault, actions) t = tt

  call_checked-IsTried :
      (first : AuthorityScope) (o : Outcome AuthorityScope)
      → IsTried (call_checked digest attempts call w first o)
  call_checked-IsTried first (thrown fault) = tt
  call_checked-IsTried first (returned now) = elim (Bool-cases (same_authority_scope now first)) [
    | inl p ↦ rw p (
        called-IsTried now (complete_call digest attempts call w first w.tool)
          (complete_call-IsTried first w.tool))
    | inr p ↦ rw p tt
  ]

  ended_failure-actions :
      (fault : Fault) (x : Ending × List Action)
      → IsClosed call.invocation_key x.1
      → IsClosed call.invocation_key (ended_failure digest attempts call w fault x).1
  ended_failure-actions fault (recorded, actions) c = c
  ended_failure-actions fault (unavailable, actions) c = c
  ended_failure-actions fault (refused other, actions) c = c

  tried-IsClosed :
      (x : Body × List Action)
      → IsTried x
      → IsClosed call.invocation_key (tried digest attempts call w x).1
  tried-IsClosed (done r, actions) t = rw (append-nil actions) t
  tried-IsClosed (lost, actions) t = rw (append-nil actions) t
  tried-IsClosed (failing fault, actions) t =
      let event =
        failed_event digest attempts call w (caught_code digest attempts call w w.aborted fault) in
      IsClosed-append call.invocation_key actions
        (caught_body digest attempts call w (failing fault)).1
        (ended_failure-actions (caught digest attempts call w w.aborted fault)
          (append_terminal w.on_failure event 1 attempts)
          (terminal-IsClosed w.on_failure event refl refl))

  execute_call-last :
      (scope : AuthorityScope)
      → authorized digest attempts call w w.initial ≡ returned scope
      → w.begun ≡ returned inserted
      → IsClosed call.invocation_key (execute_call digest attempts call w).1
  unfolding execute_call
  execute_call-last scope permitted new =
      rw (permitted, new)
        (IsClosed-append call.invocation_key (append (running_event digest attempts call w) ∷ [])
          (tried digest attempts call w (
            call_checked digest attempts call w scope
              (authorized digest attempts call w w.current))).1
          (tried-IsClosed
            (call_checked digest attempts call w scope
              (authorized digest attempts call w w.current))
            (call_checked-IsTried scope (authorized digest attempts call w w.current))))

  -- When the first event of an invocation was taken as new, with one attempt or more, the last thing
  -- that the execution does is to append the second event of that invocation, whatever the Plugin, the
  -- store and the monitor answer. A result is returned only if one of those attempts was taken;
  -- otherwise an attempt was taken or refused for good, or every attempt failed, the second event may
  -- be missing, and the error says that the ledger is unavailable.
  pub execute_call-IsClosed :
      (scope : AuthorityScope)
      → authorized digest attempts call w w.initial ≡ returned scope
      → w.begun ≡ returned inserted
      → IsClosed call.invocation_key (execute_call digest attempts call w).1
        × IsSettled w attempts (execute_call digest attempts call w).0
  execute_call-IsClosed scope permitted new = (
    execute_call-last scope permitted new,
    execute_call-IsSettled digest attempts call w scope permitted new,
  )
