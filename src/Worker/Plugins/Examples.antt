-- ===== src/Worker/Plugins/Examples.antt =====
-- A Plugin call with what the store answers, on which the theorems about the executor and the ledger
-- are used (apps/worker/src/plugin-execution.ts, apps/worker/src/plugin-store.ts).
use agent_builder.Common.{
  ◌/◌, ◌*◌, ℕ, ◌≡◌, ◌≢◌, ◌≤◌, inl, inr, refl, true, false, [], ◌∷◌, none, some, ok, ◌==◌,
  if◌then◌else◌, arith,
}
use agent_builder.Worker.Json.{Json, null}
use agent_builder.Worker.PluginPlan.{returned, thrown, plugin_error}
use agent_builder.Worker.Plugins.{
  read, db, control_plane, PluginLimits, AuthorityScope, enabled, PluginCall, required, active,
  AuthorizationSnapshot,
}
use agent_builder.Worker.Plugins.Authorize.{
  forbid, assert_scope_narrows_tool, assert_grant_narrows_requirement, matching_authority_scope,
  assert_snapshot, assert_worker_plugin_authorization,
}
use agent_builder.Worker.Plugins.Narrowing.{
  IsPermitted, assert_worker_plugin_authorization-IsPermitted,
}
use agent_builder.Worker.Plugins.Executor.{
  LedgerEvent, inserted, existing, Answers, authorized, running_event, succeeded_event,
  append_terminal, execute_call,
}
use agent_builder.Worker.Plugins.Calls.{calls, IsGuarded, execute_call-IsGuarded}
use agent_builder.Worker.Plugins.Endings.{IsCompleted, execute_call-IsCompleted}
use agent_builder.Worker.Plugins.Settled.{IsSettled}
use agent_builder.Worker.Plugins.Closing.{IsClosed, execute_call-IsClosed}
use agent_builder.Worker.Plugins.Invocations.{
  Invocation, Readings, fail_if, check_beginning, check_end, row_of, ledger_fault,
  append_invocation,
}
use agent_builder.Worker.Plugins.Order.{Ledger, empty, appended, IsInOrder, Ledger-IsInOrder}
use agent_builder.Worker.Plugins.Repeats.{
  append_invocation-again, append_invocation-diverges, Limited, none_yet, next, count,
  Limited-count,
}

abbrev limits : PluginLimits
limits = record {
  timeout_ms = 1000;
  max_response_bytes = 100;
  max_records = none;
  max_invocations_per_run = 1;
  maximum_bytes_billed = none;
  max_estimated_cost_usd = some 1200;
}

abbrev pub scope : AuthorityScope
scope = record {
  installation_id = 8;
  plugin_version_id = 6;
  plugin_digest = 7;
  tool = 9;
  effect = read;
  scope_description = 0;
  limits = limits;
}

abbrev pub call : PluginCall
call = record {
  invocation_key = 30;
  plan_id = 31;
  requirement_id = 32;
  run_id = 33;
  worker_id = 34;
  release_id = 35;
  release_digest = 36;
  entry_resource_version_id = 37;
  context_digest = 38;
  installation_id = 8;
  plugin_version_id = 6;
  plugin_digest = 7;
  tool = 9;
  effect = read;
  input = null;
}

abbrev pub snapshot : AuthorizationSnapshot
snapshot = record {
  run = record {
    id = 33;
    release_id = 35;
    release_digest = 36;
    entry_resource_version_id = 37;
    context_digest = 38;
    cancellation_requested = false;
    development_draft = false;
    plugin_approval_satisfied = true;
    lease_owner = some 34;
  };
  release_id = 35;
  release_digest = 36;
  entry_resource_version_id = 37;
  belongs_to_release = true;
  plugin_reachable_through_dependencies = true;
  installation = record {
    id = 8;
    plugin_version_id = 6;
    plugin_digest = 7;
    transport = db;
    placement = control_plane;
    state = enabled;
    development_only = false;
  };
  requirement = record {
    id = 32;
    run_id = 33;
    installation_id = 8;
    plugin_version_id = 6;
    plugin_digest = 7;
    capability_name = 9;
    effect = read;
    context_digest = 38;
    execution_placement = control_plane;
    approval_required = true;
    authority_scope = scope;
    state = required;
  };
  plan = record { id = 31; run_id = 33; requirement_id = 32; invocation_key = 30 };
  authority = record {
    state = active;
    release_id = 35;
    release_digest = 36;
    entry_resource_version_id = 37;
    context_digest = 38;
    scopes = scope ∷ [];
  };
  definition = record {
    plugin_version_id = 6;
    plugin_digest = 7;
    transport = db;
    placement = control_plane;
    tools = record { name = 9; effect = read; limits = limits } ∷ [];
  };
}

-- The first attempt to record the success fails, the second one goes through.
abbrev answers : Answers
answers = record {
  initial = returned snapshot;
  begun = returned inserted;
  current = returned snapshot;
  tool = returned (record { output = null; latency_ms = 3; cost_usd = some 1200 });
  completed = returned snapshot;
  on_success = λ n. if n == 1 then thrown (plugin_error "ECONNRESET" true) else returned existing;
  on_failure = λ n. returned inserted;
  aborted = none;
  elapsed = 4;
}

abbrev digest : Json → ℕ
digest json = 41

pub permitted : assert_worker_plugin_authorization call snapshot ≡ ok scope
unfolding assert_worker_plugin_authorization assert_snapshot forbid matching_authority_scope
    assert_scope_narrows_tool assert_grant_narrows_requirement
permitted = refl

answer_returned :
    (execute_call digest 3 call answers).0
    ≡ returned (record { output = null; latency_ms = 3; cost_usd = some 1200 })
unfolding execute_call append_terminal assert_worker_plugin_authorization assert_snapshot forbid
    matching_authority_scope assert_scope_narrows_tool assert_grant_narrows_requirement
answer_returned = refl

authorized_there : authorized digest 3 call answers (returned snapshot) ≡ returned scope
unfolding assert_worker_plugin_authorization assert_snapshot forbid matching_authority_scope
    assert_scope_narrows_tool assert_grant_narrows_requirement
authorized_there = refl

-- A column that keeps a hundredth of the unit of a cost.
abbrev kept_places : ℕ → ℕ
kept_places cost = cost / 100 * 100

abbrev readings : Readings
readings = record {
  run = some (record {
    workspace_id = 1;
    department_id = none;
    is_running = true;
    cancel_requested = false;
    lease_owner = some 34;
    grant = some (active, scope ∷ []);
  });
  installation = some (record {
    workspace_id = 1;
    department_id = none;
    plugin_version_id = 6;
    plugin_digest = 7;
    state = enabled;
  });
  required = true;
  stored_cost = kept_places;
}

abbrev started : LedgerEvent
started = running_event digest 3 call answers

abbrev succeeded_there : LedgerEvent
succeeded_there =
    succeeded_event digest 3 call answers
      (record { output = null; latency_ms = 3; cost_usd = some 1200 })

abbrev rows : LedgerEvent → Invocation
rows e =
    row_of e
      (record {
        workspace_id = 1;
        department_id = none;
        is_running = true;
        cancel_requested = false;
        lease_owner = some 34;
        grant = some (active, scope ∷ []);
      })
      (record {
        workspace_id = 1;
        department_id = none;
        plugin_version_id = 6;
        plugin_digest = 7;
        state = enabled;
      })
      kept_places

begun : append_invocation started readings [] ≡ returned (inserted, rows started ∷ [])
unfolding append_invocation check_beginning fail_if
begun = refl

ended :
    append_invocation succeeded_there readings (rows started ∷ [])
    ≡ returned (inserted, rows succeeded_there ∷ rows started ∷ [])
unfolding append_invocation check_end fail_if
ended = refl

ledger : Ledger (rows succeeded_there ∷ rows started ∷ [])
ledger =
    appended succeeded_there readings inserted
      (appended started readings inserted empty (inl refl) begun) (inr refl) ended

limited : Limited 1 (rows succeeded_there ∷ rows started ∷ [])
limited =
    next succeeded_there readings inserted
      (next started readings inserted none_yet (inl refl) (omega arith, tt) begun) (inr refl)
      (omega arith, tt) ended

assert_worker_plugin_authorization-IsPermitted_example : IsPermitted call snapshot scope
assert_worker_plugin_authorization-IsPermitted_example =
    assert_worker_plugin_authorization-IsPermitted call snapshot scope permitted

execute_call-IsGuarded_example :
    IsGuarded digest 3 call answers (calls (execute_call digest 3 call answers).1)
execute_call-IsGuarded_example = execute_call-IsGuarded digest 3 call answers

execute_call-IsCompleted_example :
    IsCompleted digest 3 call answers
      (record { output = null; latency_ms = 3; cost_usd = some 1200 })
execute_call-IsCompleted_example =
    execute_call-IsCompleted digest 3 call answers
      (record { output = null; latency_ms = 3; cost_usd = some 1200 }) answer_returned

execute_call-IsClosed_example :
    IsClosed 30 (execute_call digest 3 call answers).1
    × IsSettled answers 3 (execute_call digest 3 call answers).0
execute_call-IsClosed_example =
    execute_call-IsClosed digest 3 call answers (omega arith) scope authorized_there refl

Ledger-IsInOrder_example : IsInOrder (rows succeeded_there ∷ rows started ∷ [])
Ledger-IsInOrder_example = Ledger-IsInOrder (rows succeeded_there ∷ rows started ∷ []) ledger

append_invocation-again_example :
    append_invocation succeeded_there readings (rows succeeded_there ∷ rows started ∷ [])
    ≡ returned (existing, rows succeeded_there ∷ rows started ∷ [])
append_invocation-again_example =
    append_invocation-again succeeded_there readings readings (rows started ∷ [])
      (rows succeeded_there ∷ rows started ∷ []) inserted refl ended

kept_places_rounds : kept_places 1250 ≢ 1250
kept_places_rounds e = omega (arith, e)

-- A cost that the column rounds.
abbrev costly : LedgerEvent
costly = record succeeded_there { cost_usd = some 1250 }

costly_there :
    append_invocation costly readings (rows started ∷ [])
    ≡ returned (inserted, rows costly ∷ rows started ∷ [])
unfolding append_invocation check_end fail_if
costly_there = refl

append_invocation-diverges_example :
    append_invocation costly readings (rows costly ∷ rows started ∷ [])
    ≡ thrown (ledger_fault "PLUGIN_INVOCATION_LEDGER_DIVERGED")
append_invocation-diverges_example =
    append_invocation-diverges costly readings readings (rows started ∷ [])
      (rows costly ∷ rows started ∷ []) 1250 refl kept_places_rounds costly_there

Limited-count_example : count 33 8 9 (rows succeeded_there ∷ rows started ∷ []) ≤ 1
Limited-count_example = Limited-count 1 (rows succeeded_there ∷ rows started ∷ []) limited 33 8 9
