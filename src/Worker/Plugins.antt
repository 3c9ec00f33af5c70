-- ===== src/Worker/Plugins.antt =====
-- What the worker knows of a Plugin call before it is made (apps/worker/src/plugin-execution.ts, with
-- the limits of packages/runtime/src/plugin-runtime.ts). A limit is not negative; a limit of cost is in
-- units of 10^-8 USD.
pub mod Authorize
pub mod Current
pub mod Narrowing
pub mod Executor
pub mod Calls
pub mod Endings
pub mod Settled
pub mod Closing
pub mod Invocations
pub mod Appends
pub mod Order
pub mod Repeats
pub mod Loading
pub mod Loaded
pub mod Tables
pub mod Snapshots
pub mod Revalidated
pub mod Backed
mod Plans
mod Rows
mod Examples
use agent_builder.Common.{
  ℕ, String, Bool, true, false, ◌&&◌, List, [], ◌∷◌, Option, none, some, opt_eq, ◌==◌, all,
}
use agent_builder.Worker.Json.{Json}

pub data PluginEffect : Type 0 where
  read write destructive : PluginEffect

abbrev pub effect_rank : PluginEffect → ℕ
effect_rank read = 0
effect_rank write = 1
effect_rank destructive = 2

abbrev pub same_effect : PluginEffect → PluginEffect → Bool
same_effect a b = effect_rank a == effect_rank b

pub data PluginTransport : Type 0 where
  mcp http cli db : PluginTransport

abbrev transport_number : PluginTransport → ℕ
transport_number mcp = 0
transport_number http = 1
transport_number cli = 2
transport_number db = 3

abbrev pub same_transport : PluginTransport → PluginTransport → Bool
same_transport a b = transport_number a == transport_number b

pub data Placement : Type 0 where
  control_plane workstation : Placement

abbrev pub is_control_plane : Placement → Bool
is_control_plane control_plane = true
is_control_plane workstation = false

pub record PluginLimits : Type 0 where
  pub timeout_ms : ℕ
  pub max_response_bytes : ℕ
  pub max_records : Option ℕ
  pub max_invocations_per_run : ℕ
  pub maximum_bytes_billed : Option ℕ
  pub max_estimated_cost_usd : Option ℕ

pub data LimitKey : Type 0 where
  timeout_ms max_response_bytes max_records max_invocations_per_run maximum_bytes_billed
        max_estimated_cost_usd :
      LimitKey

abbrev pub limit_keys : List LimitKey
limit_keys =
    timeout_ms ∷ max_response_bytes ∷ max_records ∷ max_invocations_per_run ∷ maximum_bytes_billed
    ∷ max_estimated_cost_usd ∷ []

-- `limits[key]`.
abbrev pub limit_of : PluginLimits → LimitKey → Option ℕ
limit_of l timeout_ms = some l.timeout_ms
limit_of l max_response_bytes = some l.max_response_bytes
limit_of l max_records = l.max_records
limit_of l max_invocations_per_run = some l.max_invocations_per_run
limit_of l maximum_bytes_billed = l.maximum_bytes_billed
limit_of l max_estimated_cost_usd = l.max_estimated_cost_usd

pub record AuthorityScope : Type 0 where
  pub installation_id : ℕ
  pub plugin_version_id : ℕ
  pub plugin_digest : ℕ
  pub tool : ℕ
  pub effect : PluginEffect
  pub scope_description : ℕ
  pub limits : PluginLimits

pub record PluginTool : Type 0 where
  pub name : ℕ
  pub effect : PluginEffect
  pub limits : PluginLimits

pub record PluginDefinition : Type 0 where
  pub plugin_version_id : ℕ
  pub plugin_digest : ℕ
  pub transport : PluginTransport
  pub placement : Placement
  pub tools : List PluginTool

pub data InstallationState : Type 0 where
  installed enabled disabled degraded : InstallationState

abbrev pub is_enabled : InstallationState → Bool
is_enabled enabled = true
is_enabled installed = false
is_enabled disabled = false
is_enabled degraded = false

pub record Installation : Type 0 where
  pub id : ℕ
  pub plugin_version_id : ℕ
  pub plugin_digest : ℕ
  pub transport : PluginTransport
  pub placement : Placement
  pub state : InstallationState
  pub development_only : Bool

-- `WorkerPluginCall`.
pub record PluginCall : Type 0 where
  pub invocation_key : ℕ
  pub plan_id : ℕ
  pub requirement_id : ℕ
  pub run_id : ℕ
  pub worker_id : ℕ
  pub release_id : ℕ
  pub release_digest : ℕ
  pub entry_resource_version_id : ℕ
  pub context_digest : ℕ
  pub installation_id : ℕ
  pub plugin_version_id : ℕ
  pub plugin_digest : ℕ
  pub tool : ℕ
  pub effect : PluginEffect
  pub input : Json

pub record RunSnapshot : Type 0 where
  pub id : ℕ
  pub release_id : ℕ
  pub release_digest : ℕ
  pub entry_resource_version_id : ℕ
  pub context_digest : ℕ
  pub cancellation_requested : Bool
  pub development_draft : Bool
  pub plugin_approval_satisfied : Bool
  pub lease_owner : Option ℕ

pub data RequirementState : Type 0 where
  required cancelled : RequirementState

abbrev pub is_required : RequirementState → Bool
is_required required = true
is_required cancelled = false

pub data AuthorityState : Type 0 where
  active revoked expired exhausted : AuthorityState

abbrev pub is_active : AuthorityState → Bool
is_active active = true
is_active revoked = false
is_active expired = false
is_active exhausted = false

pub record RequirementSnapshot : Type 0 where
  pub id : ℕ
  pub run_id : ℕ
  pub installation_id : ℕ
  pub plugin_version_id : ℕ
  pub plugin_digest : ℕ
  pub capability_name : ℕ
  pub effect : PluginEffect
  pub context_digest : ℕ
  pub execution_placement : Placement
  pub approval_required : Bool
  pub authority_scope : AuthorityScope
  pub state : RequirementState

pub record PlanSnapshot : Type 0 where
  pub id : ℕ
  pub run_id : ℕ
  pub requirement_id : ℕ
  pub invocation_key : ℕ

pub record AuthoritySnapshot : Type 0 where
  pub state : AuthorityState
  pub release_id : ℕ
  pub release_digest : ℕ
  pub entry_resource_version_id : ℕ
  pub context_digest : ℕ
  pub scopes : List AuthorityScope

-- `PluginCallAuthorizationSnapshot`; `release` and `entrypoint` are written out.
pub record AuthorizationSnapshot : Type 0 where
  pub run : RunSnapshot
  pub release_id : ℕ
  pub release_digest : ℕ
  pub entry_resource_version_id : ℕ
  pub belongs_to_release : Bool
  pub plugin_reachable_through_dependencies : Bool
  pub installation : Installation
  pub requirement : RequirementSnapshot
  pub plan : PlanSnapshot
  pub authority : AuthoritySnapshot
  pub definition : PluginDefinition
