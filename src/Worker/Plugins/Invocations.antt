-- ===== src/Worker/Plugins/Invocations.antt =====
-- The ledger of Plugin invocations (`appendInvocation` in apps/worker/src/plugin-store.ts). The rows that
-- the transaction reads are a parameter; the rows of the ledger are its state, the newest first. The
-- columns that nothing reads back (times, the summary, the scope of the tenant) are left out.
use agent_builder.Common.{
  ℕ, leb, ◌==◌, opt_eq, String, Bool, true, false, not, ◌&&◌, ◌||◌, List, [], ◌∷◌, Option, none,
  some, if◌then◌else◌, keep, length, find_first, min,
}
use agent_builder.Worker.Execute.{same_code}
use agent_builder.Worker.PluginPlan.{Fault, plugin_error, Outcome, returned, thrown, ◌>>=!◌}
use agent_builder.Worker.Plugins.{
  PluginEffect, same_effect, InstallationState, is_enabled, AuthorityState, is_active,
  AuthorityScope,
}
use agent_builder.Worker.Plugins.Executor.{
  InvocationState, running, succeeded, failed, cancelled, LedgerEvent, Appended, inserted, existing,
}

abbrev state_number : InvocationState → ℕ
state_number running = 0
state_number succeeded = 1
state_number failed = 2
state_number cancelled = 3

abbrev pub same_state : InvocationState → InvocationState → Bool
same_state a b = state_number a == state_number b

-- A row: the event, as it was recorded.
pub record Invocation : Type 0 where
  pub workspace_id : ℕ
  pub department_id : Option ℕ
  pub invocation_key : ℕ
  pub plan_id : ℕ
  pub legacy_plan_unresolved : Bool
  pub sequence : ℕ
  pub run_id : ℕ
  pub installation_id : ℕ
  pub plugin_version_id : ℕ
  pub plugin_digest : ℕ
  pub tool_name : ℕ
  pub effect : PluginEffect
  pub state : InvocationState
  pub request_digest : ℕ
  pub response_digest : Option ℕ
  pub error_code : Option String
  pub latency_ms : Option ℕ
  pub cost_usd : Option ℕ

-- The run, with its grant, and the installation, as the transaction reads them.
pub record RunRow : Type 0 where
  pub workspace_id : ℕ
  pub department_id : Option ℕ
  pub is_running : Bool
  pub cancel_requested : Bool
  pub lease_owner : Option ℕ
  pub grant : Option (AuthorityState × List AuthorityScope)

pub record InstallationRow : Type 0 where
  pub workspace_id : ℕ
  pub department_id : Option ℕ
  pub plugin_version_id : ℕ
  pub plugin_digest : ℕ
  pub state : InstallationState

-- What a transaction finds beside the ledger; `required` is whether a requirement of the run, its plan
-- and its capability are those of the event, and `stored_cost` is what the column, a decimal of eight
-- places, keeps of a cost.
pub record Readings : Type 0 where
  pub run : Option RunRow
  pub installation : Option InstallationRow
  pub required : Bool
  pub stored_cost : ℕ → ℕ

abbrev pub same_code_or_null : Option String → Option String → Bool
same_code_or_null none none = true
same_code_or_null none (some b) = false
same_code_or_null (some a) none = false
same_code_or_null (some a) (some b) = same_code a b

-- `normalizedLatency`, of whole milliseconds.
abbrev pub normalized_latency : Option ℕ → Option ℕ
normalized_latency none = none
normalized_latency (some n) = some (min 2147483647 n)

abbrev pub departments_compatible : Option ℕ → Option ℕ → Bool
departments_compatible of_run none = true
departments_compatible of_run (some candidate) = opt_eq of_run (some candidate)

abbrev pub is_event_row : LedgerEvent → ℕ → Invocation → Bool
is_event_row e sequence i = i.invocation_key == e.invocation_key && i.sequence == sequence

abbrev pub identical : LedgerEvent → Invocation → Bool
identical e i =
    i.plan_id == e.plan_id
    && not i.legacy_plan_unresolved
    && i.run_id == e.run_id
    && i.installation_id == e.installation_id
    && i.tool_name == e.tool_name
    && same_effect i.effect e.effect
    && same_state i.state e.state
    && i.request_digest == e.input_digest
    && opt_eq i.response_digest e.output_digest
    && same_code_or_null i.error_code e.error_code
    && opt_eq i.latency_ms (normalized_latency e.latency_ms)
    && opt_eq i.cost_usd e.cost_usd

abbrev pub ledger_fault : String → Fault
ledger_fault code = plugin_error code false

unfoldable pub fail_if : Bool → String → Outcome (Unit {0})
fail_if true code = thrown (ledger_fault code)
fail_if false code = returned tt

abbrev pub is_invocation_scope : LedgerEvent → InstallationRow → AuthorityScope → Bool
is_invocation_scope e installation s =
    s.installation_id == e.installation_id
    && s.plugin_version_id == installation.plugin_version_id
    && s.tool == e.tool_name

abbrev pub only_invocation_scope : List AuthorityScope → Outcome AuthorityScope
only_invocation_scope [] = thrown (ledger_fault "PLUGIN_AUTHORITY_SCOPE_MISMATCH")
only_invocation_scope (s ∷ []) = returned s
only_invocation_scope (s ∷ other ∷ more) = thrown (ledger_fault "PLUGIN_AUTHORITY_SCOPE_MISMATCH")

-- The first events of a tool in a run.
abbrev pub is_prior : ℕ → ℕ → ℕ → Invocation → Bool
is_prior run installation tool i =
    i.run_id == run && i.installation_id == installation && i.tool_name == tool && i.sequence == 1

abbrev pub prior_invocations : LedgerEvent → List Invocation → ℕ
prior_invocations e rows = length (keep (is_prior e.run_id e.installation_id e.tool_name) rows)

abbrev pub granted_scopes :
    Option (AuthorityState × List AuthorityScope) → Outcome (List AuthorityScope)
granted_scopes none = thrown (ledger_fault "PLUGIN_AUTHORITY_INACTIVE")
granted_scopes (some (state, scopes)) =
    if is_active state then returned scopes else thrown (ledger_fault "PLUGIN_AUTHORITY_INACTIVE")

abbrev pub is_granted : Option (AuthorityState × List AuthorityScope) → Bool
is_granted none = false
is_granted (some (state, scopes)) = is_active state

-- The first event of an invocation.
unfoldable pub check_beginning :
    LedgerEvent → RunRow → InstallationRow → Bool → List Invocation → Outcome (Unit {0})
check_beginning e run installation required rows =
    fail_if
      (not run.is_running
        || not (opt_eq run.lease_owner (some e.worker_id))
        || not (is_enabled installation.state))
      "PLUGIN_DISABLED"
    >>=! λ _. fail_if (not required) "PLUGIN_REQUIREMENT_SNAPSHOT_MISMATCH" >>=! λ _.
        granted_scopes run.grant >>=! λ scopes.
        only_invocation_scope (keep (is_invocation_scope e installation) scopes) >>=! λ scope.
        fail_if (leb scope.limits.max_invocations_per_run (prior_invocations e rows))
          "PLUGIN_INVOCATION_LIMIT_EXCEEDED"

abbrev pub is_begun_by : LedgerEvent → Invocation → Bool
is_begun_by e i =
    i.plan_id == e.plan_id
    && not i.legacy_plan_unresolved
    && i.run_id == e.run_id
    && i.installation_id == e.installation_id
    && i.tool_name == e.tool_name
    && i.request_digest == e.input_digest

abbrev pub has_begun : LedgerEvent → Option Invocation → Bool
has_begun e none = false
has_begun e (some i) = is_begun_by e i

-- The second event: the first is there, and a success is of a run in force.
unfoldable pub check_end :
    LedgerEvent → RunRow → InstallationRow → List Invocation → Outcome (Unit {0})
check_end e run installation rows =
    fail_if (not (has_begun e (find_first (is_event_row e 1) rows)))
      "PLUGIN_INVOCATION_LEDGER_INVALID"
    >>=! λ _.
        fail_if
          (same_state e.state succeeded
            && (not run.is_running
                || not (opt_eq run.lease_owner (some e.worker_id))
                || run.cancel_requested
                || not (is_enabled installation.state)
                || not (is_granted run.grant)))
          (if run.cancel_requested then "RUN_CANCELLED" else "PLUGIN_DISABLED")

abbrev pub stored : (ℕ → ℕ) → Option ℕ → Option ℕ
stored stored_cost none = none
stored stored_cost (some cost) = some (stored_cost cost)

abbrev pub row_of : LedgerEvent → RunRow → InstallationRow → (ℕ → ℕ) → Invocation
row_of e run installation stored_cost = record {
  workspace_id = run.workspace_id;
  department_id = run.department_id;
  invocation_key = e.invocation_key;
  plan_id = e.plan_id;
  legacy_plan_unresolved = false;
  sequence = e.sequence;
  run_id = e.run_id;
  installation_id = e.installation_id;
  plugin_version_id = installation.plugin_version_id;
  plugin_digest = installation.plugin_digest;
  tool_name = e.tool_name;
  effect = e.effect;
  state = e.state;
  request_digest = e.input_digest;
  response_digest = e.output_digest;
  error_code = e.error_code;
  latency_ms = normalized_latency e.latency_ms;
  cost_usd = stored stored_cost e.cost_usd;
}

abbrev pub other_tenant : RunRow → InstallationRow → Bool
other_tenant run installation =
    not (run.workspace_id == installation.workspace_id)
    || not (departments_compatible run.department_id installation.department_id)

abbrev pub check_event :
    LedgerEvent → RunRow → InstallationRow → Bool → List Invocation → Outcome (Unit {0})
check_event e run installation required rows =
    if e.sequence == 1
    then check_beginning e run installation required rows
    else check_end e run installation rows

-- A new event.
abbrev pub insert_event :
    LedgerEvent
    → Option RunRow
    → Option InstallationRow
    → Bool
    → (ℕ → ℕ)
    → List Invocation
    → Outcome (Appended × List Invocation)
insert_event e (some run) (some installation) required stored_cost rows =
    fail_if (other_tenant run installation) "PLUGIN_WORKSPACE_SCOPE_MISMATCH" >>=! λ _.
    check_event e run installation required rows >>=! λ _.
    returned (inserted, row_of e run installation stored_cost ∷ rows)
insert_event e _ _ required stored_cost rows =
    thrown (ledger_fault "PLUGIN_INVOCATION_LEDGER_INVALID")

abbrev pub append_event :
    LedgerEvent
    → Readings
    → List Invocation
    → Option Invocation
    → Outcome (Appended × List Invocation)
append_event e r rows (some i) =
    if identical e i
    then returned (existing, rows)
    else thrown (ledger_fault "PLUGIN_INVOCATION_LEDGER_DIVERGED")
append_event e r rows none = insert_event e r.run r.installation r.required r.stored_cost rows

abbrev pub is_misnumbered : LedgerEvent → Bool
is_misnumbered e =
    (e.sequence == 1 && not (same_state e.state running))
    || (e.sequence == 2 && same_state e.state running)

unfoldable pub append_invocation :
    LedgerEvent → Readings → List Invocation → Outcome (Appended × List Invocation)
append_invocation e r rows = fail_if (is_misnumbered e) "PLUGIN_INVOCATION_LEDGER_INVALID" >>=! λ _.
    append_event e r rows (find_first (is_event_row e e.sequence) rows)
