-- ===== src/Contracts/Broker/Types.antt =====
-- The data of the workstation broker (packages/contracts/src/workstation-broker-schemas.ts).
use agent_builder.Common.{ℕ, String, Bool, List, Option}

pub data Residency : Type 0 where
  control_plane workstation : Residency

pub data WorkstationState : Type 0 where
  control_plane_ready waiting_for_user leased executing completed failed cancelled expired :
      WorkstationState

pub data WorkflowKind : Type 0 where
  daily_brief other : WorkflowKind

pub record Requirement : Type 0 where
  pub plugin_version_id : ℕ
  pub plugin_digest : ℕ
  pub installation_id : ℕ
  pub tool : ℕ
  pub residency : Residency

pub record PlacementRequest : Type 0 where
  pub run_id : ℕ
  pub workspace_id : ℕ
  pub department_id : Option ℕ
  pub actor_id : ℕ
  pub required_user_sid : ℕ
  pub required_device_certificate_thumbprint : ℕ
  pub schedule_id : Option ℕ
  pub workflow_kind : WorkflowKind
  pub freshness_window_seconds : Option ℕ
  pub requirements : List Requirement
  pub requested_at : ℕ

-- `workstation-expired:${runId}`.
pub data EventKey : Type 0 where
  workstation_expired : ℕ → EventKey

pub record Snapshot : Type 0 where
  pub run_id : ℕ
  pub workspace_id : ℕ
  pub department_id : Option ℕ
  pub schedule_id : Option ℕ
  pub state : WorkstationState
  pub placement : Residency
  pub required_actor_id : ℕ
  pub required_user_sid : ℕ
  pub required_device_certificate_thumbprint : ℕ
  pub freshness_window_seconds : Option ℕ
  pub waiting_since : Option ℕ
  pub expires_at : Option ℕ
  pub work_order_id : Option ℕ
  pub lease_id : Option ℕ
  pub nonce : Option ℕ
  pub attention_required : Bool
  pub attention_reason : Option String
  pub external_effects_allowed : Bool
  pub digest_event_key : Option EventKey

-- What the caller adds to a snapshot for a work order.
pub record WorkOrderInput : Type 0 where
  pub entry_resource_version_id : ℕ
  pub release_digest : ℕ
  pub installation_id : ℕ
  pub plugin_version_id : ℕ
  pub plugin_digest : ℕ
  pub tool : ℕ
  pub issued_at : ℕ
  pub not_before : ℕ
  pub lease_expires_at : ℕ
  pub invocation_key : ℕ
  pub input : ℕ

pub record WorkOrder : Type 0 where
  pub work_order_id : ℕ
  pub lease_id : ℕ
  pub run_id : ℕ
  pub workspace_id : ℕ
  pub department_id : Option ℕ
  pub details : WorkOrderInput
  pub required_actor_id : ℕ
  pub required_user_sid : ℕ
  pub required_device_certificate_thumbprint : ℕ
  pub expires_at : ℕ
  pub freshness_window_seconds : ℕ
  pub nonce : ℕ

pub data ProofKind : Type 0 where
  fixture_oidc entra_wam : ProofKind

pub record Handshake : Type 0 where
  pub work_order_id : ℕ
  pub lease_id : ℕ
  pub nonce : ℕ
  pub actor_id : ℕ
  pub user_sid : ℕ
  pub user_proof_kind : ProofKind
  pub user_access_token : ℕ
  pub device_certificate_thumbprint : ℕ
  pub device_challenge_signature : ℕ

pub data VerifierKind : Type 0 where
  fixture control_plane_verifier : VerifierKind

pub record Binding : Type 0 where
  pub work_order_id : ℕ
  pub lease_id : ℕ
  pub nonce : ℕ
  pub actor_id : ℕ
  pub user_sid : ℕ
  pub device_certificate_thumbprint : ℕ
  pub user_token_digest : ℕ
  pub device_proof_digest : ℕ
  pub verified_at : ℕ
  pub verifier : VerifierKind

-- `WorkstationIdentityVerifier`: each proof verifies or not, or the call is rejected.
pub record IdentityVerifier : Type 0 where
  pub verify_user_proof : ℕ → ℕ → ProofKind → ℕ → Option Bool
  pub verify_device_proof : ℕ → ℕ → ℕ → Option Bool
  pub kind : VerifierKind

-- Its message is one literal.
pub record DigestItem : Type 0 where
  pub idempotency_key : EventKey
  pub run_id : ℕ
  pub occurred_at : ℕ
  pub late_effects_performed : Bool
