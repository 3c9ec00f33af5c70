-- ===== src/Worker/Plugins/Tables.antt =====
-- The rows that `revalidate` reads (apps/worker/src/plugin-store.ts); their columns are parsed already, and
-- the secrets of the installation are left out.
use agent_builder.Common.{ℕ, String, Bool, List, Option}
use agent_builder.Worker.Json.{Json}
use agent_builder.Worker.Model.{ApprovalState}
use agent_builder.Worker.Plugins.{
  PluginEffect, Placement, AuthorityScope, PluginDefinition, Installation, AuthorityState,
}
use agent_builder.Worker.Plugins.Loading.{Segment}

pub record GrantRow : Type 0 where
  pub workspace_id : ℕ
  pub department_id : Option ℕ
  pub release_id : ℕ
  pub release_digest : ℕ
  pub entry_resource_version_id : ℕ
  pub context_digest : ℕ
  pub state : AuthorityState
  pub valid_from : ℕ
  pub valid_until : ℕ
  pub plugin_scopes : List AuthorityScope

pub record ApprovalRow : Type 0 where
  pub state : ApprovalState
  pub decided_by : Option String
  pub rationale : Option (List ℕ)
  pub decided_at : Option ℕ

-- A row of the requirements of the run.
pub record RequiredRow : Type 0 where
  pub id : ℕ
  pub run_id : ℕ
  pub installation_id : ℕ
  pub plugin_version_id : ℕ
  pub plugin_digest : ℕ
  pub capability_name : ℕ
  pub effect : PluginEffect
  pub approval_required : Bool
  pub authority_scope : AuthorityScope
  pub context_digest : ℕ

pub record PlannedRow : Type 0 where
  pub id : ℕ
  pub run_id : ℕ
  pub requirement_id : ℕ
  pub invocation_key : ℕ
  pub input_path : List Segment

-- `runPluginRequirementSchema`: a scope, where it executes and whether it asks for approval.
pub record RunRequirement : Type 0 where
  pub scope : AuthorityScope
  pub execution_placement : Placement
  pub approval_required : Bool

pub record ReleaseRow : Type 0 where
  pub id : ℕ
  pub workspace_id : ℕ
  pub department_id : Option ℕ
  pub digest : ℕ

pub record ExecutingRun : Type 0 where
  pub id : ℕ
  pub workspace_id : ℕ
  pub department_id : Option ℕ
  pub release_id : ℕ
  pub entry_resource_version_id : Option ℕ
  pub legacy_entrypoint_unresolved : Bool
  pub release_digest : ℕ
  pub context_digest : ℕ
  pub input : Json
  pub cancel_requested_at : Option ℕ
  pub lease_owner : Option ℕ
  pub development_draft : Bool
  pub requires_plugin_approval : Bool
  pub is_running : Bool
  pub required_plugin_scopes : List RunRequirement
  pub release : ReleaseRow
  pub authority_grant : Option GrantRow
  pub approval_request : Option ApprovalRow
  pub plugin_requirements : List RequiredRow
  pub plugin_call_plans : List PlannedRow

-- `definition` is what its manifest defines.
pub record InstalledPlugin : Type 0 where
  pub installation : Installation
  pub workspace_id : ℕ
  pub department_id : Option ℕ
  pub version : ℕ
  pub manifest_is_plugin : Bool
  pub family_is_plugin : Bool
  pub manifest_version : ℕ
  pub definition : PluginDefinition
