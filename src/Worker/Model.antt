-- ===== src/Worker/Model.antt =====
-- The rows that apps/worker/src/store.ts reads and writes, and the database that holds them.
-- Identifiers, digests and names, which the code only compares, are numbers. Times are
-- milliseconds. Costs are counted in units of 10^-8 USD, the scale of the Decimal(18, 8) columns.
use agent_builder.Common.{ℕ, String, Bool, true, false, ◌&&◌, List, Option, some, opt_eq}
use agent_builder.Worker.Json.{Json, Fields}

pub data RunState : Type 0 where
  awaiting_approval queued running succeeded failed cancelled paused_budget paused_plugin : RunState

pub data GrantState : Type 0 where
  active revoked exhausted expired : GrantState

pub data ApprovalState : Type 0 where
  pending approved rejected cancelled : ApprovalState

pub data ProviderKind : Type 0 where
  deterministic anthropic gateway : ProviderKind

pub data Backoff : Type 0 where
  fixed exponential : Backoff

pub data Suppression : Type 0 where
  plugin_invocation_started : Suppression

pub record RunError : Type 0 where
  pub code : String
  pub retry_suppressed_by : Option Suppression

pub record Run : Type 0 where
  pub id : ℕ
  pub workspace : ℕ
  pub department : Option ℕ
  pub release : ℕ
  pub entry_version : Option ℕ
  pub legacy_entrypoint_unresolved : Bool
  pub release_digest : ℕ
  pub context_digest : ℕ
  pub project : Option ℕ
  pub grant : Option ℕ
  pub digest_snapshot : Option ℕ
  pub development_draft : Bool
  pub requires_plugin_approval : Bool
  pub required_tools : List ℕ
  pub input : Fields
  pub provider_kind : ProviderKind
  pub provider_version : ℕ
  pub model : ℕ
  pub pricing_version : ℕ
  pub max_input_tokens : ℕ
  pub max_output_tokens : ℕ
  pub max_cost : ℕ
  pub upper_cost : ℕ
  pub actual_cost : Option ℕ
  pub attempts : ℕ
  pub max_attempts : ℕ
  pub backoff : Backoff
  pub state : RunState
  pub message : String
  pub progress : ℕ
  pub approval_reasons : List String
  pub error : Option RunError
  pub lease_owner : Option ℕ
  pub lease_expires_at : Option ℕ
  pub heartbeat_at : Option ℕ
  pub cancel_requested_at : Option ℕ
  pub started_at : Option ℕ
  pub finished_at : Option ℕ
  pub created_at : ℕ
  pub updated_at : ℕ

pub record Grant : Type 0 where
  pub id : ℕ
  pub release : ℕ
  pub release_digest : ℕ
  pub entry_version : ℕ
  pub context_digest : ℕ
  pub project : Option ℕ
  pub state : GrantState
  pub valid_from : ℕ
  pub valid_until : ℕ
  pub spent : ℕ
  pub reserved : ℕ
  pub total_budget : ℕ
  pub max_per_run : ℕ
  pub used_runs : ℕ
  pub max_runs : ℕ
  pub input_constraints : Fields
  pub tool_scopes : List ℕ

-- The rows that carry the run state machine and the cost ledger.
pub record Core : Type 0 where
  pub runs : List Run
  pub grants : List Grant

pub record RunEvent : Type 0 where
  pub workspace : ℕ
  pub department : Option ℕ
  pub run : ℕ
  pub sequence : ℕ
  pub phase : String
  pub state : String
  pub message : String
  pub duration_ms : Option ℕ
  pub cost : Option ℕ
  pub metadata : Fields

pub record AuditEvent : Type 0 where
  pub workspace : ℕ
  pub department : Option ℕ
  pub actor : String
  pub action : String
  pub entity_type : String
  pub entity_id : ℕ
  pub details : Fields

pub record PlatformEvent : Type 0 where
  pub workspace : ℕ
  pub department : Option ℕ
  pub kind : String
  pub entity_type : String
  pub entity_id : ℕ
  pub summary : Fields
  pub actor : String

pub record MetricSample : Type 0 where
  pub workspace : ℕ
  pub department : Option ℕ
  pub run : ℕ
  pub name : String
  pub value : ℕ
  pub unit : String
  pub metadata : Fields

pub record OutcomeRecord : Type 0 where
  pub run : ℕ
  pub output : Json
  pub confidence : ℕ
  pub citations : Json
  pub unresolved_items : Json
  pub quality_score : ℕ

-- The step `model-execution` of a run; no other step key is written here.
pub record RunStep : Type 0 where
  pub run : ℕ
  pub state : String
  pub result : Fields

-- A rationale is the list of its UTF-16 code units.
pub record Approval : Type 0 where
  pub run : ℕ
  pub state : ApprovalState
  pub request_version : ℕ
  pub decision_group_key : Option ℕ
  pub decision_group_size : Option ℕ
  pub reasons : List String
  pub requested_by : String
  pub decided_by : Option String
  pub rationale : Option (List ℕ)
  pub decided_at : Option ℕ

pub data DeliveryState : Type 0 where
  delivered failed : DeliveryState

-- The attempt key `briefing:<run>:<state>` is its two parts.
pub record DeliveryAttempt : Type 0 where
  pub workspace : ℕ
  pub department : Option ℕ
  pub snapshot : ℕ
  pub key_run : ℕ
  pub key_state : DeliveryState
  pub state : DeliveryState
  pub error : Option String
  pub delivered_at : Option ℕ

pub record DigestSnapshot : Type 0 where
  pub id : ℕ
  pub workspace : ℕ
  pub department : Option ℕ
  pub scope_key : ℕ
  pub actor : ℕ
  pub sequence_from : ℕ
  pub sequence_through : ℕ

pub record Cursor : Type 0 where
  pub workspace : ℕ
  pub scope_key : ℕ
  pub actor : ℕ
  pub last_sequence : ℕ
  pub last_delivered_at : Option ℕ

-- The other tables that the worker writes, the newest row first where rows are appended.
pub record Journal : Type 0 where
  pub run_events : List RunEvent
  pub audit : List AuditEvent
  pub platform_events : List PlatformEvent
  pub metrics : List MetricSample
  pub outcomes : List OutcomeRecord
  pub steps : List RunStep
  pub approvals : List Approval
  pub deliveries : List DeliveryAttempt
  pub cursors : List Cursor

pub record Release : Type 0 where
  pub id : ℕ
  pub digest : ℕ
  pub project : Option ℕ

pub record Channel : Type 0 where
  pub workspace : ℕ
  pub key : ℕ
  pub current_release : Option ℕ
  pub promoted_at : Option ℕ

-- A tool of a skill: a name, or an exact Plugin reference.
pub data Tool : Type 0 where
  named : ℕ → Tool
  plugin_reference : Tool

pub data Definition : Type 0 where
  skill : String → List Tool → Definition
  other : Definition

pub record ReleaseResource : Type 0 where
  pub release : ℕ
  pub version : ℕ
  pub digest : ℕ

pub record ResourceVersion : Type 0 where
  pub id : ℕ
  pub digest : ℕ
  pub definition : Definition

pub record DependencyPin : Type 0 where
  pub source : ℕ
  pub target : ℕ
  pub target_digest : ℕ

-- The tables that the worker only reads.
pub record Catalog : Type 0 where
  pub releases : List Release
  pub channels : List Channel
  pub resources : List ReleaseResource
  pub versions : List ResourceVersion
  pub pins : List DependencyPin
  pub snapshots : List DigestSnapshot
  pub plugin_invocations : List ℕ

pub record Db : Type 0 where
  pub core : Core
  pub journal : Journal
  pub catalog : Catalog

pub record Usage : Type 0 where
  pub input_tokens : ℕ
  pub output_tokens : ℕ

pub record Settlement : Type 0 where
  pub usage : Usage
  pub actual_cost : ℕ
  pub plugin_cost : Option ℕ
  pub latency_ms : ℕ
  pub pricing_version : ℕ
  pub provider_kind : ProviderKind
  pub provider_version : ℕ
  pub model : ℕ

pub record BriefOutput : Type 0 where
  pub content : Json
  pub confidence : ℕ
  pub citations : Json
  pub unresolved_items : Json

pub record CompletedRun : Type 0 where
  pub settlement : Settlement
  pub output : BriefOutput
  pub quality_score : ℕ

pub record ClaimedRun : Type 0 where
  pub id : ℕ
  pub release : ℕ
  pub release_digest : ℕ
  pub entry_version : Option ℕ
  pub context_digest : ℕ
  pub grant : Option ℕ
  pub development_draft : Bool
  pub production_epoch : Option ℕ
  pub input : Fields
  pub provider_kind : ProviderKind
  pub provider_version : ℕ
  pub model : ℕ
  pub pricing_version : ℕ
  pub max_input_tokens : ℕ
  pub max_output_tokens : ℕ
  pub max_cost : ℕ
  pub upper_cost : ℕ
  pub attempts : ℕ
  pub max_attempts : ℕ
  pub backoff : Backoff

-- Tests on the enumerations.
abbrev pub is_running : RunState → Bool
is_running running = true
is_running _ = false

abbrev pub is_queued : RunState → Bool
is_queued queued = true
is_queued _ = false

abbrev pub is_deterministic : ProviderKind → Bool
is_deterministic deterministic = true
is_deterministic _ = false

abbrev pub same_delivery : DeliveryState → DeliveryState → Bool
same_delivery delivered delivered = true
same_delivery failed failed = true
same_delivery _ _ = false

-- `state = 'running' AND leaseOwner = ${workerId}`.
abbrev pub owned_by : ℕ → Run → Bool
owned_by worker r = is_running r.state && opt_eq r.lease_owner (some worker)
