-- ===== src/Contracts/Broker.antt =====
-- The workstation broker (packages/contracts/src/workstation-broker-domain.ts and
-- workstation-broker-schemas.ts). Identifiers are numbers, as the schemas normalize them; a time is in
-- milliseconds; the random identifiers, the proofs and the digest function are parameters.
pub mod Types
pub mod Resume
pub mod Lifecycle
pub mod Expiry
pub mod Attempts
pub mod Effects
pub mod Proofs
pub mod Orders
use agent_builder.Common.{
  ℕ, ◌+◌, ◌*◌, ◌-◌, ltb, leb, ◌==◌, opt_eq, mem, String, Bool, true, false, not, ◌&&◌, ◌||◌, List,
  [], ◌∷◌, Option, none, some, is_none, is_some, Result, ok, err, ◌>>=◌, if◌then◌else◌, length, any,
}
use agent_builder.Contracts.Broker.Types.*

abbrev pub daily_brief_freshness_window_seconds : ℕ
daily_brief_freshness_window_seconds = 7200

abbrev pub default_ad_hoc_workstation_freshness_seconds : ℕ
default_ad_hoc_workstation_freshness_seconds = 3600

abbrev pub is_workstation : Residency → Bool
is_workstation workstation = true
is_workstation control_plane = false

abbrev pub is_waiting : WorkstationState → Bool
is_waiting waiting_for_user = true
is_waiting control_plane_ready = false
is_waiting leased = false
is_waiting executing = false
is_waiting completed = false
is_waiting failed = false
is_waiting cancelled = false
is_waiting expired = false

abbrev pub is_expired_state : WorkstationState → Bool
is_expired_state expired = true
is_expired_state waiting_for_user = false
is_expired_state control_plane_ready = false
is_expired_state leased = false
is_expired_state executing = false
is_expired_state completed = false
is_expired_state failed = false
is_expired_state cancelled = false

abbrev pub is_daily_brief : WorkflowKind → Bool
is_daily_brief daily_brief = true
is_daily_brief other = false

-- `.int().min(60).max(86_400)`, `.nullable()`.
abbrev pub within_window : ℕ → Bool
within_window seconds = leb 60 seconds && leb seconds 86400

abbrev pub within_window_or_null : Option ℕ → Bool
within_window_or_null none = true
within_window_or_null (some seconds) = within_window seconds

-- What the schemas bound.
abbrev pub parse_request : PlacementRequest → Result PlacementRequest
parse_request r =
    if within_window_or_null r.freshness_window_seconds && leb (length r.requirements) 100
    then ok r
    else err "ZodError"

abbrev pub parse_snapshot : Snapshot → Result Snapshot
parse_snapshot s = if within_window_or_null s.freshness_window_seconds then ok s else err "ZodError"

-- The identifiers that the caller gives, and the random ones in their place.
pub record PlacementIds : Type 0 where
  pub work_order_id : Option ℕ
  pub lease_id : Option ℕ
  pub nonce : Option ℕ

pub record RandomIds : Type 0 where
  pub work_order_id : ℕ
  pub lease_id : ℕ
  pub nonce : ℕ

abbrev pub or_else : Option ℕ → ℕ → ℕ
or_else none n = n
or_else (some m) n = m

abbrev pub freshness_of : PlacementRequest → ℕ
freshness_of r = or_else r.freshness_window_seconds (
    if is_daily_brief r.workflow_kind
    then daily_brief_freshness_window_seconds
    else default_ad_hoc_workstation_freshness_seconds)

abbrev pub requires_workstation : PlacementRequest → Bool
requires_workstation r = any (λ q. is_workstation q.residency) r.requirements

abbrev pub control_plane_snapshot : PlacementRequest → Snapshot
control_plane_snapshot r = record {
  run_id = r.run_id;
  workspace_id = r.workspace_id;
  department_id = r.department_id;
  schedule_id = r.schedule_id;
  state = control_plane_ready;
  placement = control_plane;
  required_actor_id = r.actor_id;
  required_user_sid = r.required_user_sid;
  required_device_certificate_thumbprint = r.required_device_certificate_thumbprint;
  freshness_window_seconds = none;
  waiting_since = none;
  expires_at = none;
  work_order_id = none;
  lease_id = none;
  nonce = none;
  attention_required = false;
  attention_reason = none;
  external_effects_allowed = true;
  digest_event_key = none;
}

abbrev pub waiting_snapshot : PlacementRequest → PlacementIds → RandomIds → Snapshot
waiting_snapshot r ids random = record {
  run_id = r.run_id;
  workspace_id = r.workspace_id;
  department_id = r.department_id;
  schedule_id = r.schedule_id;
  state = waiting_for_user;
  placement = workstation;
  required_actor_id = r.actor_id;
  required_user_sid = r.required_user_sid;
  required_device_certificate_thumbprint = r.required_device_certificate_thumbprint;
  freshness_window_seconds = some (freshness_of r);
  waiting_since = some r.requested_at;
  expires_at = some (r.requested_at + freshness_of r * 1000);
  work_order_id = some (or_else ids.work_order_id random.work_order_id);
  lease_id = some (or_else ids.lease_id random.lease_id);
  nonce = some (or_else ids.nonce random.nonce);
  attention_required = true;
  attention_reason = some "Waiting for you to sign in.";
  external_effects_allowed = false;
  digest_event_key = none;
}

abbrev pub lacks_freshness : PlacementRequest → Bool
lacks_freshness r =
    is_some r.schedule_id
    && not (is_daily_brief r.workflow_kind)
    && is_none r.freshness_window_seconds

abbrev pub place_parsed : PlacementRequest → PlacementIds → RandomIds → Result Snapshot
place_parsed r ids random =
    if not (requires_workstation r)
    then parse_snapshot (control_plane_snapshot r)
    else if lacks_freshness r
    then err "A workstation-dependent schedule requires freshnessWindowSeconds"
    else parse_snapshot (waiting_snapshot r ids random)

unfoldable pub place_execution : PlacementRequest → PlacementIds → RandomIds → Result Snapshot
place_execution input ids random = parse_request input >>= λ r. place_parsed r ids random

-- `superRefine` and the bound of the freshness window.
abbrev pub outlives : WorkOrder → Bool
outlives o =
    ltb o.details.not_before o.details.issued_at
    || leb o.expires_at o.details.not_before
    || leb o.details.lease_expires_at o.details.not_before
    || ltb o.expires_at o.details.lease_expires_at
    || ltb (o.freshness_window_seconds * 1000) (o.expires_at - o.details.issued_at)

abbrev pub parse_order : WorkOrder → Result WorkOrder
parse_order o =
    if not (within_window o.freshness_window_seconds) || outlives o then err "ZodError" else ok o

abbrev pub order_from : Snapshot → WorkOrderInput → ℕ → ℕ → ℕ → ℕ → ℕ → WorkOrder
order_from s input work_order_id lease_id nonce expires_at freshness = record {
  work_order_id = work_order_id;
  lease_id = lease_id;
  run_id = s.run_id;
  workspace_id = s.workspace_id;
  department_id = s.department_id;
  details = input;
  required_actor_id = s.required_actor_id;
  required_user_sid = s.required_user_sid;
  required_device_certificate_thumbprint = s.required_device_certificate_thumbprint;
  expires_at = expires_at;
  freshness_window_seconds = freshness;
  nonce = nonce;
}

-- The five fields that a complete waiting state has.
abbrev pub order_of :
    Snapshot
    → WorkOrderInput
    → Option ℕ
    → Option ℕ
    → Option ℕ
    → Option ℕ
    → Option ℕ
    → Result WorkOrder
order_of s input (some work_order_id) (some lease_id) (some nonce) (some expires_at)
      (some freshness) =
    parse_order (order_from s input work_order_id lease_id nonce expires_at freshness)
order_of s input _ _ _ _ _ =
    err "Only a complete waiting_for_user state can issue a workstation work order"

abbrev pub order_waiting : Snapshot → WorkOrderInput → Result WorkOrder
order_waiting s input =
    if is_waiting s.state
    then order_of s input s.work_order_id s.lease_id s.nonce s.expires_at s.freshness_window_seconds
    else err "Only a complete waiting_for_user state can issue a workstation work order"

unfoldable pub create_work_order : Snapshot → WorkOrderInput → Result WorkOrder
create_work_order snapshot input = parse_snapshot snapshot >>= λ s. order_waiting s input
