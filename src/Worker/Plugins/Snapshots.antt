-- ===== src/Worker/Plugins/Snapshots.antt =====
-- The snapshot that a Plugin call is checked against (`revalidate`, `authorityState` in
-- apps/worker/src/plugin-store.ts). The two rows that it reads are its arguments; what the query of
-- `reachability` finds and the digests of a payload are parameters.
use agent_builder.Common.{
  ℕ, leb, ltb, ◌==◌, String, Bool, false, not, ◌&&◌, ◌||◌, List, [], ◌∷◌, Option, none, some,
  if◌then◌else◌, keep, is_some,
}
use agent_builder.Worker.Candidate.{is_approved, is_human_decision}
use agent_builder.Worker.Json.{Json}
use agent_builder.Worker.PluginPlan.{Outcome, returned, thrown, ◌>>=!◌}
use agent_builder.Worker.Plugins.{
  Placement, is_control_plane, AuthorityScope, PluginCall, required, AuthorityState, active,
  revoked, expired, exhausted, is_active, AuthorizationSnapshot,
}
use agent_builder.Worker.Plugins.Invocations.{fail_if, ledger_fault, departments_compatible}
use agent_builder.Worker.Plugins.Loading.{input_at_path}
use agent_builder.Worker.Plugins.Tables.{
  GrantRow, ApprovalRow, RequiredRow, PlannedRow, RunRequirement, ExecutingRun, InstalledPlugin,
}

-- The state of a grant that is not in force.
abbrev pub not_in_force : AuthorityState → AuthorityState
not_in_force active = expired
not_in_force revoked = revoked
not_in_force expired = expired
not_in_force exhausted = exhausted

abbrev pub authority_state : AuthorityState → ℕ → ℕ → ℕ → AuthorityState
authority_state state valid_from valid_until now =
    if is_active state && leb valid_from now && ltb now valid_until
    then active
    else not_in_force state

abbrev pub is_approval : Option ApprovalRow → Bool
is_approval none = false
is_approval (some a) =
    is_approved a.state && is_human_decision a.decided_by a.rationale && is_some a.decided_at

abbrev pub same_placement : Placement → Placement → Bool
same_placement a b = if is_control_plane a then is_control_plane b else not (is_control_plane b)

-- The one element of a list.
abbrev pub only : {A : Type 0} → String → List A → Outcome A
only code [] = thrown (ledger_fault code)
only code (a ∷ []) = returned a
only code (a ∷ b ∷ more) = thrown (ledger_fault code)

abbrev pub present : {A : Type 0} → String → Option A → Outcome A
present code none = thrown (ledger_fault code)
present code (some a) = returned a

abbrev pub other_workspace : ExecutingRun → GrantRow → InstalledPlugin → Bool
other_workspace run grant plugin =
    not (run.workspace_id == run.release.workspace_id)
    || not (run.workspace_id == grant.workspace_id)
    || not (run.workspace_id == plugin.workspace_id)
    || not (departments_compatible run.department_id run.release.department_id)
    || not (departments_compatible run.department_id grant.department_id)
    || not (departments_compatible run.department_id plugin.department_id)

module _ (call : PluginCall) where
  -- The `where` of the query.
  abbrev pub is_required_row : RequiredRow → Bool
  is_required_row r =
      r.id == call.requirement_id
      && r.installation_id == call.installation_id
      && r.plugin_version_id == call.plugin_version_id
      && r.capability_name == call.tool

  abbrev pub is_planned_row : PlannedRow → Bool
  is_planned_row p = p.id == call.plan_id

  abbrev pub is_required_scope : RunRequirement → Bool
  is_required_scope r =
      r.scope.installation_id == call.installation_id
      && r.scope.plugin_version_id == call.plugin_version_id
      && r.scope.tool == call.tool

-- `reachable` answers for a release, an entry, a version of a Plugin and its digest.
module _ (digest : Json → ℕ) (scope_digest : AuthorityScope → ℕ)
    (reachable : ℕ → ℕ → ℕ → ℕ → Bool × Bool) (now : ℕ) (call : PluginCall) where
  abbrev pub mismatched_requirement : RunRequirement → InstalledPlugin → RequiredRow → Bool
  mismatched_requirement r plugin requirement =
      not (same_placement r.execution_placement plugin.installation.placement)
      || (if r.approval_required
          then not requirement.approval_required
          else requirement.approval_required)
      || not (scope_digest r.scope == scope_digest requirement.authority_scope)

  abbrev pub invalid_definition : InstalledPlugin → Bool
  invalid_definition plugin =
      not plugin.manifest_is_plugin
      || not plugin.family_is_plugin
      || not (plugin.manifest_version == plugin.version)

  abbrev pub snapshot_of :
      ExecutingRun
      → ℕ
      → InstalledPlugin
      → GrantRow
      → RequiredRow
      → PlannedRow
      → RunRequirement
      → AuthorizationSnapshot
  snapshot_of run entry plugin grant requirement plan r = record {
    run = record {
      id = run.id;
      release_id = run.release_id;
      release_digest = run.release_digest;
      entry_resource_version_id = entry;
      context_digest = run.context_digest;
      cancellation_requested = is_some run.cancel_requested_at;
      development_draft = run.development_draft;
      plugin_approval_satisfied =
          not run.requires_plugin_approval || is_approval run.approval_request;
      lease_owner = run.lease_owner;
    };
    release_id = run.release.id;
    release_digest = run.release.digest;
    entry_resource_version_id = entry;
    belongs_to_release =
        (reachable run.release_id entry plugin.installation.plugin_version_id
          plugin.installation.plugin_digest).0;
    plugin_reachable_through_dependencies =
        (reachable run.release_id entry plugin.installation.plugin_version_id
          plugin.installation.plugin_digest).1;
    installation = plugin.installation;
    requirement = record {
      id = requirement.id;
      run_id = requirement.run_id;
      installation_id = requirement.installation_id;
      plugin_version_id = requirement.plugin_version_id;
      plugin_digest = requirement.plugin_digest;
      capability_name = requirement.capability_name;
      effect = requirement.effect;
      context_digest = requirement.context_digest;
      execution_placement = r.execution_placement;
      approval_required = requirement.approval_required;
      authority_scope = requirement.authority_scope;
      state = required;
    };
    plan = record {
      id = plan.id;
      run_id = plan.run_id;
      requirement_id = plan.requirement_id;
      invocation_key = plan.invocation_key;
    };
    authority = record {
      state = authority_state grant.state grant.valid_from grant.valid_until now;
      release_id = grant.release_id;
      release_digest = grant.release_digest;
      entry_resource_version_id = grant.entry_resource_version_id;
      context_digest = grant.context_digest;
      scopes = grant.plugin_scopes;
    };
    definition = plugin.definition;
  }

  abbrev pub revalidate_rows :
      ExecutingRun → ℕ → InstalledPlugin → GrantRow → Outcome AuthorizationSnapshot
  revalidate_rows run entry plugin grant =
      fail_if (other_workspace run grant plugin) "PLUGIN_WORKSPACE_SCOPE_MISMATCH" >>=! λ _.
      only "PLUGIN_REQUIREMENT_SNAPSHOT_MISMATCH"
        (keep (is_required_row call) run.plugin_requirements)
      >>=! λ requirement.
          only "PLUGIN_CALL_PLAN_MISMATCH" (keep (is_planned_row call) run.plugin_call_plans)
          >>=! λ plan. input_at_path run.input plan.input_path >>=! λ planned.
              fail_if (not (digest planned == digest call.input)) "PLUGIN_CALL_PLAN_INPUT_MISMATCH"
              >>=! λ _.
                  only "PLUGIN_REQUIREMENT_SNAPSHOT_MISMATCH"
                    (keep (is_required_scope call) run.required_plugin_scopes)
                  >>=! λ r.
                      fail_if (mismatched_requirement r plugin requirement)
                        "PLUGIN_REQUIREMENT_SNAPSHOT_MISMATCH"
                      >>=! λ _.
                          fail_if (invalid_definition plugin) "PLUGIN_DEFINITION_INVALID" >>=! λ _.
                          returned (snapshot_of run entry plugin grant requirement plan r)

  abbrev pub revalidate_run : ExecutingRun → Option InstalledPlugin → Outcome AuthorizationSnapshot
  revalidate_run run installation =
      fail_if run.legacy_entrypoint_unresolved "PLUGIN_ENTRYPOINT_UNRESOLVED" >>=! λ _.
      present "PLUGIN_ENTRYPOINT_UNRESOLVED" run.entry_resource_version_id >>=! λ entry.
      present "PLUGIN_INSTALLATION_NOT_FOUND" installation >>=! λ plugin.
      fail_if (not run.is_running) "PLUGIN_RUN_NOT_EXECUTING" >>=! λ _.
      present "PLUGIN_AUTHORITY_INACTIVE" run.authority_grant >>=! λ grant.
      revalidate_rows run entry plugin grant

  unfoldable pub revalidate_call :
      Option ExecutingRun → Option InstalledPlugin → Outcome AuthorizationSnapshot
  revalidate_call run installation =
      present "PLUGIN_RUN_NOT_FOUND" run >>=! λ r. revalidate_run r installation
