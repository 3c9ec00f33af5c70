-- ===== src/Worker/Plugins/Endings.antt =====
-- How an execution of a Plugin call ends (apps/worker/src/plugin-execution.ts).
use agent_builder.Common.{
  ℕ, zero, suc, ◌≡◌, ◌≤◌, ◌<◌, ◌+◌, ◌⊎◌, inl, inr, refl, ◌∙◌, ap, true, List, Bool-cases, arith,
}
use agent_builder.Worker.Json.{Json}
use agent_builder.Worker.PluginPlan.{Outcome, returned, thrown}
use agent_builder.Worker.Plugins.{AuthorityScope, PluginCall, AuthorizationSnapshot}
use agent_builder.Worker.Plugins.Narrowing.{IsPermitted}
use agent_builder.Worker.Plugins.Executor.{
  LedgerEvent, Appended, inserted, existing, PluginCallResult, same_authority_scope, is_permanent,
  attempted, caught, caught_code, ended_failure, Answers, Action, Ending, recorded, unavailable,
  refused, Body, done, failing, lost, authorized, succeeded_event, failed_event, append_terminal,
  ended, complete_checked, complete_call, call_checked, caught_body, run_begun, run_authorized,
  execute_call,
}
use agent_builder.Worker.Plugins.Calls.{authorized-IsPermitted}

attempted-recorded :
    (event : LedgerEvent) (o : Outcome Appended) (rest : Ending × List Action)
    → (attempted event o rest).0 ≡ recorded
    → ((a : Appended) × (o ≡ returned a)) ⊎ (rest.0 ≡ recorded)
attempted-recorded event (returned a) rest e = inl (a, refl)
attempted-recorded event (thrown fault) (ending, actions) e =
    elim (Bool-cases (is_permanent fault)) [
      | inl p ↦ absurd (ground (arith, rw p at e))
      | inr p ↦ inr (rw p at e)
    ]

append_terminal-recorded :
    (answer : ℕ → Outcome Appended) (event : LedgerEvent) (attempt left : ℕ)
    → (append_terminal answer event attempt left).0 ≡ recorded
    → (k : ℕ) × (a : Appended) × (answer k ≡ returned a) × (attempt ≤ k) × (k < attempt + left)
unfolding append_terminal
append_terminal-recorded answer event attempt zero e = absurd cc
append_terminal-recorded answer event attempt (suc left) e =
    elim (attempted-recorded event (answer attempt)
      (append_terminal answer event (suc attempt) left) e) [
        | inl (a, q) ↦ (attempt, a, q, omega arith, omega arith)
        | inr h ↦
            let (k, a, got, low, high) =
              append_terminal-recorded answer event (suc attempt) left h in
            (k, a, got, omega (arith, low), omega (arith, high))
      ]

ended-done :
    (digest : Json → ℕ) (attempts : ℕ) (call : PluginCall) (w : Answers) (r s : PluginCallResult)
    (x : Ending × List Action)
    → (ended digest attempts call w r x).0 ≡ done s
    → (x.0 ≡ recorded) × (r ≡ s)
ended-done digest attempts call w r s (recorded, actions) e = (refl, cc)
ended-done digest attempts call w r s (unavailable, actions) e = absurd cc
ended-done digest attempts call w r s (refused fault, actions) e = absurd cc

caught_body-returned :
    (digest : Json → ℕ) (attempts : ℕ) (call : PluginCall) (w : Answers) (b : Body)
    (r : PluginCallResult)
    → (caught_body digest attempts call w b).0 ≡ returned r
    → b ≡ done r
caught_body-returned digest attempts call w (done s) r e = cc
caught_body-returned digest attempts call w lost r e = absurd cc
caught_body-returned digest attempts call w (failing fault) r e = absurd (
    failure_ne
      (append_terminal w.on_failure
        (failed_event digest attempts call w (caught_code digest attempts call w w.aborted fault)) 1
        attempts)
      e)
  where
    failure_ne :
        (x : Ending × List Action)
        → (ended_failure digest attempts call w (caught digest attempts call w w.aborted fault) x).0
          ≡ returned r
        → ⊥
    failure_ne (recorded, actions) h = cc
    failure_ne (unavailable, actions) h = cc
    failure_ne (refused other, actions) h = cc

module _ (digest : Json → ℕ) (attempts : ℕ) (call : PluginCall) (w : Answers) where
  -- What stands behind a result: the first event was new, the Plugin answered the result, the call was
  -- permitted before and after it with one and the same scope, and the store recorded the success.
  pub record IsCompleted (r : PluginCallResult) : Type 0 where
    pub first : AuthorityScope
    pub last : AuthorityScope
    pub before : AuthorizationSnapshot
    pub after : AuthorizationSnapshot
    pub read : w.initial ≡ returned before
    pub permitted : IsPermitted call before first
    pub new : w.begun ≡ returned inserted
    pub answered : w.tool ≡ returned r
    pub reread : w.completed ≡ returned after
    pub still_permitted : IsPermitted call after last
    pub same : same_authority_scope last first ≡ true
    pub attempt : ℕ
    pub answer : Appended
    pub at_least : 1 ≤ attempt
    pub at_most : attempt ≤ attempts
    pub recorded_by : w.on_success attempt ≡ returned answer

  -- The later part of it, of a result that the Plugin answered.
  record IsRecorded (first : AuthorityScope) (r : PluginCallResult) : Type 0 where
    last : AuthorityScope
    reread : authorized digest attempts call w w.completed ≡ returned last
    same : same_authority_scope last first ≡ true
    attempt : ℕ
    answer : Appended
    at_least : 1 ≤ attempt
    at_most : attempt ≤ attempts
    recorded_by : w.on_success attempt ≡ returned answer

  complete_checked-done :
      (first : AuthorityScope) (s r : PluginCallResult) (o : Outcome AuthorityScope)
      → authorized digest attempts call w w.completed ≡ o
      → (complete_checked digest attempts call w first s o).0 ≡ done r
      → (s ≡ r) × IsRecorded first r
  complete_checked-done first s r (thrown fault) q e = absurd cc
  complete_checked-done first s r (returned now) q e =
      elim (Bool-cases (same_authority_scope now first)) [
        | inl p ↦
            let (last, same) =
              ended-done digest attempts call w s r
                (append_terminal w.on_success (succeeded_event digest attempts call w s) 1 attempts)
                (rw p at e) in
            let (k, a, got, low, high) =
              append_terminal-recorded w.on_success (succeeded_event digest attempts call w s) 1
                attempts last in
            (
              same,
              record {
                last = now;
                reread = q;
                same = p;
                attempt = k;
                answer = a;
                at_least = low;
                at_most = omega (arith, high);
                recorded_by = got;
              },
            )
        | inr p ↦ absurd (ground (arith, rw p at e))
      ]

  complete_call-done :
      (first : AuthorityScope) (r : PluginCallResult) (o : Outcome PluginCallResult)
      → w.tool ≡ o
      → (complete_call digest attempts call w first o).0 ≡ done r
      → (w.tool ≡ returned r) × IsRecorded first r
  complete_call-done first r (thrown fault) q e = absurd cc
  complete_call-done first r (returned s) q e =
      let (same, rest) =
        complete_checked-done first s r (authorized digest attempts call w w.completed) refl e in
      (q ∙ ap returned same, rest)

  call_checked-done :
      (first : AuthorityScope) (r : PluginCallResult) (o : Outcome AuthorityScope)
      → (call_checked digest attempts call w first o).0 ≡ done r
      → (w.tool ≡ returned r) × IsRecorded first r
  call_checked-done first r (thrown fault) e = absurd cc
  call_checked-done first r (returned now) e = elim (Bool-cases (same_authority_scope now first)) [
    | inl p ↦ complete_call-done first r w.tool refl (rw p at e)
    | inr p ↦ absurd (ground (arith, rw p at e))
  ]

  run_begun-returned :
      (first : AuthorityScope) (r : PluginCallResult) (o : Outcome Appended)
      → (run_begun digest attempts call w first o).0 ≡ returned r
      → (o ≡ returned inserted) × (w.tool ≡ returned r) × IsRecorded first r
  run_begun-returned first r (thrown fault) e = absurd cc
  run_begun-returned first r (returned existing) e = absurd cc
  run_begun-returned first r (returned inserted) e =
      let body =
        call_checked digest attempts call w first (authorized digest attempts call w w.current) in
      let (answered, rest) =
        call_checked-done first r (authorized digest attempts call w w.current)
          (caught_body-returned digest attempts call w body.0 r e) in
      (refl, answered, rest)

  run_authorized-returned :
      (r : PluginCallResult) (o : Outcome AuthorityScope)
      → authorized digest attempts call w w.initial ≡ o
      → (run_authorized digest attempts call w o).0 ≡ returned r
      → IsCompleted r
  run_authorized-returned r (thrown fault) q e = absurd cc
  run_authorized-returned r (returned scope) q e =
      let (s, read, permitted) = authorized-IsPermitted digest attempts call w w.initial scope q in
      let (new, answered, rest) = run_begun-returned scope r w.begun e in
      let (t, reread, still) =
        authorized-IsPermitted digest attempts call w w.completed rest.last rest.reread in
      record {
        first = scope;
        last = rest.last;
        before = s;
        after = t;
        read = read;
        permitted = permitted;
        new = new;
        answered = answered;
        reread = reread;
        still_permitted = still;
        same = rest.same;
        attempt = rest.attempt;
        answer = rest.answer;
        at_least = rest.at_least;
        at_most = rest.at_most;
        recorded_by = rest.recorded_by;
      }

  -- An execution returns only what the Plugin answered, only if the call was permitted before the first
  -- event, which was new, and again after the answer, with one and the same scope, and only once the
  -- store has taken the success in one of the attempts.
  pub execute_call-IsCompleted :
      (r : PluginCallResult) → (execute_call digest attempts call w).0 ≡ returned r → IsCompleted r
  unfolding execute_call
  execute_call-IsCompleted r e =
      run_authorized-returned r (authorized digest attempts call w w.initial) refl e
