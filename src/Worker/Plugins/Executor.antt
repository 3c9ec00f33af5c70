-- ===== src/Worker/Plugins/Executor.antt =====
-- `WorkerPluginExecutor.execute` (apps/worker/src/plugin-execution.ts). What the store, the Plugin and
-- the clock answer is a parameter, and so is the abort of the monitor; the actions that the executor
-- takes are listed in their order.
use agent_builder.Common.{
  ℕ, zero, suc, String, Bool, true, false, not, ◌&&◌, ◌||◌, List, [], ◌∷◌, ◌++◌, Option, none, some,
  opt_eq, ◌==◌, all, Result, ok, err, if◌then◌else◌,
}
use agent_builder.Worker.Json.{Json}
use agent_builder.Worker.PluginPlan.{
  Fault, worker_fault, plugin_error, lease_lost, run_cancelled, worker_stopping, timeout_error,
  syntax_error, other_fault, Outcome, returned, thrown, abort_reason,
}
use agent_builder.Worker.Execute.{same_code}
use agent_builder.Worker.Plugins.{
  PluginEffect, same_effect, limit_keys, limit_of, AuthorityScope, PluginCall,
  AuthorizationSnapshot,
}
use agent_builder.Worker.Plugins.Authorize.{assert_worker_plugin_authorization}

pub data InvocationState : Type 0 where
  running succeeded failed cancelled : InvocationState

-- `PluginInvocationLedgerEvent`.
pub record LedgerEvent : Type 0 where
  pub invocation_key : ℕ
  pub plan_id : ℕ
  pub sequence : ℕ
  pub run_id : ℕ
  pub worker_id : ℕ
  pub installation_id : ℕ
  pub tool_name : ℕ
  pub effect : PluginEffect
  pub state : InvocationState
  pub input_digest : ℕ
  pub output_digest : Option ℕ
  pub latency_ms : Option ℕ
  pub cost_usd : Option ℕ
  pub error_code : Option String

pub data Appended : Type 0 where
  inserted existing : Appended

pub record PluginCallResult : Type 0 where
  pub output : Json
  pub latency_ms : ℕ
  pub cost_usd : Option ℕ

-- The code compares the texts of the limits, which are parsed and so list their keys in one order.
abbrev pub same_limits : AuthorityScope → AuthorityScope → Bool
same_limits a b = all (λ k. opt_eq (limit_of a.limits k) (limit_of b.limits k)) limit_keys

abbrev pub same_authority_scope : AuthorityScope → AuthorityScope → Bool
same_authority_scope a b =
    a.installation_id == b.installation_id
    && a.plugin_version_id == b.plugin_version_id
    && a.plugin_digest == b.plugin_digest
    && a.tool == b.tool
    && same_effect a.effect b.effect
    && a.scope_description == b.scope_description
    && same_limits a b

-- `runtimeCode`, `cancelledCode`, and whether `appendTerminal` throws at once.
abbrev pub runtime_code : Fault → String
runtime_code (plugin_error code retryable) = code
runtime_code (worker_fault code retryable) = "PLUGIN_RUNTIME_FAILED"
runtime_code lease_lost = "PLUGIN_RUNTIME_FAILED"
runtime_code run_cancelled = "PLUGIN_RUNTIME_FAILED"
runtime_code worker_stopping = "PLUGIN_RUNTIME_FAILED"
runtime_code timeout_error = "PLUGIN_RUNTIME_FAILED"
runtime_code syntax_error = "PLUGIN_RUNTIME_FAILED"
runtime_code other_fault = "PLUGIN_RUNTIME_FAILED"

abbrev pub is_permanent : Fault → Bool
is_permanent (plugin_error code retryable) = not retryable
is_permanent (worker_fault code retryable) = false
is_permanent lease_lost = false
is_permanent run_cancelled = false
is_permanent worker_stopping = false
is_permanent timeout_error = false
is_permanent syntax_error = false
is_permanent other_fault = false

-- What the world answers in one execution: the three readings of the authorization, the store on the
-- first event, the Plugin, and the store on each attempt to end the invocation; and the reason of an
-- abort, an `Error` or none, where the signal is aborted when an error is caught.
pub record Answers : Type 0 where
  pub initial : Outcome AuthorizationSnapshot
  pub begun : Outcome Appended
  pub current : Outcome AuthorizationSnapshot
  pub tool : Outcome PluginCallResult
  pub completed : Outcome AuthorizationSnapshot
  pub on_success : ℕ → Outcome Appended
  pub on_failure : ℕ → Outcome Appended
  pub aborted : Option (Option Fault)
  pub elapsed : ℕ

-- What the executor does to the world.
pub data Action : Type 0 where
  append : LedgerEvent → Action
  call_tool : AuthorityScope → Action

-- How an attempt to end the invocation comes out.
pub data Ending : Type 0 where
  recorded unavailable : Ending
  refused : Fault → Ending

-- The `try` block: a result, an error, or a result that could not be recorded.
pub data Body : Type 0 where
  done : PluginCallResult → Body
  failing : Fault → Body
  lost : Body

-- An error of the check is not retryable.
abbrev pub raised : Result AuthorityScope → Outcome AuthorityScope
raised (ok scope) = returned scope
raised (err code) = thrown (plugin_error code false)

-- One attempt of `appendTerminal`, with what the next ones come to.
abbrev pub attempted : LedgerEvent → Outcome Appended → Ending × List Action → Ending × List Action
attempted event (returned _) (ending, actions) = (recorded, append event ∷ [])
attempted event (thrown fault) (ending, actions) =
    if is_permanent fault
    then (refused fault, append event ∷ [])
    else (ending, append event ∷ actions)

-- `appendTerminal`, with the number of the next attempt and the attempts left.
unfoldable pub append_terminal : (ℕ → Outcome Appended) → LedgerEvent → ℕ → ℕ → Ending × List Action
append_terminal answer event attempt zero = (unavailable, [])
append_terminal answer event attempt (suc left) =
    attempted event (answer attempt) (append_terminal answer event (suc attempt) left)

module _ (digest : Json → ℕ) (attempts : ℕ) (call : PluginCall) (w : Answers) where
  abbrev pub cancelled_code : String → Bool
  cancelled_code code =
      same_code code "PLUGIN_DISABLED"
      || same_code code "PLUGIN_AUTHORITY_INACTIVE"
      || same_code code "PLUGIN_AUTHORITY_CHANGED"
      || same_code code "PLUGIN_CALL_CANCELLED"
      || same_code code "RUN_CANCELLED"

  abbrev pub authorized : Outcome AuthorizationSnapshot → Outcome AuthorityScope
  authorized (thrown fault) = thrown fault
  authorized (returned s) = raised (assert_worker_plugin_authorization call s)

  abbrev pub running_event : LedgerEvent
  running_event = record {
    invocation_key = call.invocation_key;
    plan_id = call.plan_id;
    sequence = 1;
    run_id = call.run_id;
    worker_id = call.worker_id;
    installation_id = call.installation_id;
    tool_name = call.tool;
    effect = call.effect;
    state = running;
    input_digest = digest call.input;
    output_digest = none;
    latency_ms = none;
    cost_usd = none;
    error_code = none;
  }

  abbrev pub succeeded_event : PluginCallResult → LedgerEvent
  succeeded_event r = record running_event {
    sequence = 2;
    state = succeeded;
    output_digest = some (digest r.output);
    latency_ms = some r.latency_ms;
    cost_usd = r.cost_usd;
  }

  abbrev pub failed_event : String → LedgerEvent
  failed_event code = record running_event {
    sequence = 2;
    state = if cancelled_code code then cancelled else failed;
    latency_ms = some w.elapsed;
    error_code = some code;
  }

  abbrev pub ended : PluginCallResult → Ending × List Action → Body × List Action
  ended r (recorded, actions) = (done r, actions)
  ended r (unavailable, actions) = (lost, actions)
  ended r (refused fault, actions) = (failing fault, actions)

  -- After the call: the authorization once more, and the result.
  abbrev pub complete_checked :
      AuthorityScope → PluginCallResult → Outcome AuthorityScope → Body × List Action
  complete_checked scope r (thrown fault) = (failing fault, [])
  complete_checked scope r (returned now) =
      if same_authority_scope now scope
      then ended r (append_terminal w.on_success (succeeded_event r) 1 attempts)
      else (failing (plugin_error "PLUGIN_AUTHORITY_CHANGED" false), [])

  abbrev pub complete_call : AuthorityScope → Outcome PluginCallResult → Body × List Action
  complete_call scope (thrown fault) = (failing fault, [])
  complete_call scope (returned r) = complete_checked scope r (authorized w.completed)

  abbrev pub called : AuthorityScope → Body × List Action → Body × List Action
  called now (body, actions) = (body, call_tool now ∷ actions)

  abbrev pub call_checked : AuthorityScope → Outcome AuthorityScope → Body × List Action
  call_checked scope (thrown fault) = (failing fault, [])
  call_checked scope (returned now) =
      if same_authority_scope now scope
      then called now (complete_call scope w.tool)
      else (failing (plugin_error "PLUGIN_AUTHORITY_CHANGED" false), [])

  -- What is recorded and what is thrown: the error, or the reason of the abort.
  abbrev pub caught_code : Option (Option Fault) → Fault → String
  caught_code none fault = runtime_code fault
  caught_code (some none) fault = "PLUGIN_RUNTIME_FAILED"
  caught_code (some (some reason)) fault = runtime_code reason

  abbrev pub caught : Option (Option Fault) → Fault → Fault
  caught none fault = fault
  caught (some reason) fault = abort_reason reason

  abbrev pub ended_failure : Fault → Ending × List Action → Outcome PluginCallResult × List Action
  ended_failure fault (recorded, actions) = (thrown fault, actions)
  ended_failure fault (unavailable, actions) =
      (thrown (plugin_error "PLUGIN_INVOCATION_LEDGER_UNAVAILABLE" true), actions)
  ended_failure fault (refused other, actions) = (thrown other, actions)

  -- The `catch` block.
  abbrev pub caught_body : Body → Outcome PluginCallResult × List Action
  caught_body (done r) = (returned r, [])
  caught_body lost = (thrown (plugin_error "PLUGIN_INVOCATION_LEDGER_UNAVAILABLE" true), [])
  caught_body (failing fault) =
      ended_failure (caught w.aborted fault)
        (append_terminal w.on_failure (failed_event (caught_code w.aborted fault)) 1 attempts)

  abbrev pub followed :
      List Action → Outcome PluginCallResult × List Action → Outcome PluginCallResult × List Action
  followed actions (result, more) = (result, actions ++ more)

  -- The `try` statement.
  abbrev pub tried : Body × List Action → Outcome PluginCallResult × List Action
  tried (body, actions) = followed actions (caught_body body)

  abbrev pub run_begun : AuthorityScope → Outcome Appended → Outcome PluginCallResult × List Action
  run_begun scope (thrown fault) = (thrown fault, [])
  run_begun scope (returned existing) =
      (thrown (plugin_error "PLUGIN_INVOCATION_ALREADY_STARTED" false), [])
  run_begun scope (returned inserted) = tried (call_checked scope (authorized w.current))

  abbrev pub run_authorized : Outcome AuthorityScope → Outcome PluginCallResult × List Action
  run_authorized (thrown fault) = (thrown fault, [])
  run_authorized (returned scope) = followed (append running_event ∷ []) (run_begun scope w.begun)

  unfoldable pub execute_call : Outcome PluginCallResult × List Action
  execute_call = run_authorized (authorized w.initial)
