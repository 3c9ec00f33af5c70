-- ===== src/Worker/Plugins/Rows.antt =====
-- The rows behind the example of a Plugin call, on which the theorem about snapshots is used
-- (apps/worker/src/plugin-store.ts).
use agent_builder.Common.{ℕ, ◌≡◌, refl, Bool, true, false, [], ◌∷◌, none, some, ◌==◌}
use agent_builder.Worker.Candidate.{trim}
use agent_builder.Worker.Json.{Json, null}
use agent_builder.Worker.Model.{approved}
use agent_builder.Worker.PluginPlan.{returned}
use agent_builder.Worker.Plugins.{read, control_plane, AuthorityScope, active}
use agent_builder.Worker.Plugins.Examples.{call, scope, snapshot, permitted}
use agent_builder.Worker.Plugins.Invocations.{fail_if}
use agent_builder.Worker.Plugins.Snapshots.{revalidate_call}
use agent_builder.Worker.Plugins.Tables.{ExecutingRun, InstalledPlugin}
use agent_builder.Worker.Plugins.Backed.{IsBacked, revalidate_call-IsBacked}

abbrev digest : Json → ℕ
digest null = 1
digest _ = 0

abbrev scope_digest : AuthorityScope → ℕ
scope_digest s = s.tool

abbrev reachable : ℕ → ℕ → ℕ → ℕ → Bool × Bool
reachable release entry version of_version = (release == 35, version == 6)

abbrev run : ExecutingRun
run = record {
  id = 33;
  workspace_id = 1;
  department_id = some 2;
  release_id = 35;
  entry_resource_version_id = some 37;
  legacy_entrypoint_unresolved = false;
  release_digest = 36;
  context_digest = 38;
  input = null;
  cancel_requested_at = none;
  lease_owner = some 34;
  development_draft = false;
  requires_plugin_approval = true;
  is_running = true;
  required_plugin_scopes =
      record { scope = scope; execution_placement = control_plane; approval_required = true } ∷ [];
  release = record { id = 35; workspace_id = 1; department_id = none; digest = 36 };
  authority_grant = some (record {
    workspace_id = 1;
    department_id = some 2;
    release_id = 35;
    release_digest = 36;
    entry_resource_version_id = 37;
    context_digest = 38;
    state = active;
    valid_from = 10;
    valid_until = 20;
    plugin_scopes = scope ∷ [];
  });
  approval_request = some (record {
    state = approved;
    decided_by = some "maria";
    rationale = some (97 ∷ 98 ∷ 99 ∷ 97 ∷ 98 ∷ 99 ∷ 97 ∷ 98 ∷ 99 ∷ 97 ∷ []);
    decided_at = some 9;
  });
  plugin_requirements =
      record {
        id = 32;
        run_id = 33;
        installation_id = 8;
        plugin_version_id = 6;
        plugin_digest = 7;
        capability_name = 9;
        effect = read;
        approval_required = true;
        authority_scope = scope;
        context_digest = 38;
      }
      ∷ [];
  plugin_call_plans =
      record { id = 31; run_id = 33; requirement_id = 32; invocation_key = 30; input_path = [] }
      ∷ [];
}

abbrev plugin : InstalledPlugin
plugin = record {
  installation = snapshot.installation;
  workspace_id = 1;
  department_id = none;
  version = 1;
  manifest_is_plugin = true;
  family_is_plugin = true;
  manifest_version = 1;
  definition = snapshot.definition;
}

revalidated :
    revalidate_call digest scope_digest reachable 15 call (some run) (some plugin)
    ≡ returned snapshot
unfolding revalidate_call fail_if trim
revalidated = refl

revalidate_call-IsBacked_example : IsBacked digest scope_digest 15 call (some run) (some plugin)
revalidate_call-IsBacked_example =
    revalidate_call-IsBacked digest scope_digest reachable 15 call (some run) (some plugin) snapshot
      scope revalidated permitted
