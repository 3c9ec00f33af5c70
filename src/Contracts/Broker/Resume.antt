-- ===== src/Contracts/Broker/Resume.antt =====
-- The later operations of the workstation broker: the proof of both identities, the resumption and the
-- expiry of a waiting run (packages/contracts/src/workstation-broker-domain.ts).
use agent_builder.Common.{
  ℕ, ltb, leb, ◌==◌, opt_eq, mem, Bool, true, false, not, ◌&&◌, ◌||◌, List, Option, none, some,
  Result, ok, err, ◌>>=◌, if◌then◌else◌,
}
use agent_builder.Contracts.Broker.Types.{
  leased, expired, workstation_expired, Snapshot, WorkOrder, Handshake, Binding, IdentityVerifier,
  DigestItem,
}
use agent_builder.Contracts.Broker.{is_waiting, is_expired_state, parse_snapshot, parse_order}

abbrev pub exact_matches : Handshake → WorkOrder → Bool
exact_matches h o =
    h.work_order_id == o.work_order_id
    && h.lease_id == o.lease_id
    && h.nonce == o.nonce
    && h.actor_id == o.required_actor_id
    && h.user_sid == o.required_user_sid
    && h.device_certificate_thumbprint == o.required_device_certificate_thumbprint

-- `Promise.all` of the two proofs.
abbrev pub both_verified : Option Bool → Option Bool → Result Bool
both_verified none _ = err "rejected"
both_verified (some user) none = err "rejected"
both_verified (some user) (some device) = ok (user && device)

module _ (digest : ℕ → ℕ) (verifier : IdentityVerifier) where
  abbrev pub binding_of : WorkOrder → Handshake → ℕ → Binding
  binding_of o h now = record {
    work_order_id = o.work_order_id;
    lease_id = o.lease_id;
    nonce = o.nonce;
    actor_id = o.required_actor_id;
    user_sid = o.required_user_sid;
    device_certificate_thumbprint = o.required_device_certificate_thumbprint;
    user_token_digest = digest h.user_access_token;
    device_proof_digest = digest h.device_challenge_signature;
    verified_at = now;
    verifier = verifier.kind;
  }

  abbrev pub proofs_of : Handshake → Result Bool
  proofs_of h =
      both_verified
        (verifier.verify_user_proof h.actor_id h.user_sid h.user_proof_kind h.user_access_token)
        (verifier.verify_device_proof h.device_certificate_thumbprint h.nonce
          h.device_challenge_signature)

  abbrev pub bind_verified : WorkOrder → Handshake → ℕ → Bool → Result Binding
  bind_verified o h now false = err "Both the current user and enrolled device proofs must verify"
  bind_verified o h now true = ok (binding_of o h now)

  abbrev pub verify_parsed : WorkOrder → Handshake → ℕ → Result Binding
  verify_parsed o h now =
      if ltb now o.details.not_before || leb o.expires_at now
      then err "The workstation work order is not currently valid"
      else if leb o.details.lease_expires_at now
      then err "The workstation work-order lease has expired"
      else if not (exact_matches h o)
      then err "The actor, user, device, work order, lease, and nonce must match exactly"
      else proofs_of h >>= bind_verified o h now

  unfoldable pub verify_dual_identity_binding : WorkOrder → Handshake → ℕ → Result Binding
  verify_dual_identity_binding order h now = parse_order order >>= λ o. verify_parsed o h now

-- `expiresAt === null || now >= expiresAt`, and `expiresAt === null || now < expiresAt`.
abbrev pub has_expired : Option ℕ → ℕ → Bool
has_expired none now = true
has_expired (some at) now = leb at now

abbrev pub not_yet : Option ℕ → ℕ → Bool
not_yet none now = true
not_yet (some at) now = ltb now at

abbrev pub binding_matches : Binding → Snapshot → Bool
binding_matches b s =
    opt_eq (some b.work_order_id) s.work_order_id
    && opt_eq (some b.lease_id) s.lease_id
    && opt_eq (some b.nonce) s.nonce
    && b.actor_id == s.required_actor_id
    && b.user_sid == s.required_user_sid
    && b.device_certificate_thumbprint == s.required_device_certificate_thumbprint

abbrev pub leased_snapshot : Snapshot → Snapshot
leased_snapshot s = record s {
  state = leased;
  attention_required = false;
  attention_reason = none;
  external_effects_allowed = true;
}

abbrev pub resume_parsed : Snapshot → Binding → ℕ → List ℕ → Result Snapshot
resume_parsed s b now consumed =
    if not (is_waiting s.state)
    then err "Only waiting_for_user runs can resume"
    else if has_expired s.expires_at now
    then err "The waiting run expired and cannot perform work"
    else if mem b.nonce consumed
    then err "The work-order nonce has already been consumed"
    else if not (binding_matches b s)
    then err "Verified identity does not match the waiting actor and device binding"
    else if ltb now b.verified_at
    then err "Identity verification cannot come from the future"
    else parse_snapshot (leased_snapshot s)

unfoldable pub resume_waiting_execution : Snapshot → Binding → ℕ → List ℕ → Result Snapshot
resume_waiting_execution snapshot b now consumed =
    parse_snapshot snapshot >>= λ s. resume_parsed s b now consumed

abbrev pub expired_snapshot : Snapshot → Snapshot
expired_snapshot s = record s {
  state = expired;
  attention_required = false;
  attention_reason = none;
  external_effects_allowed = false;
  digest_event_key = some (workstation_expired s.run_id);
}

abbrev pub digest_item : Snapshot → ℕ → DigestItem
digest_item s now = record {
  idempotency_key = workstation_expired s.run_id;
  run_id = s.run_id;
  occurred_at = now;
  late_effects_performed = false;
}

abbrev pub expire_parsed : Snapshot → ℕ → Result (Snapshot × Option DigestItem)
expire_parsed s now =
    if is_expired_state s.state
    then ok (s, none)
    else if not (is_waiting s.state)
    then err "Only waiting_for_user runs may expire"
    else if not_yet s.expires_at now
    then err "The waiting run has not reached its expiry"
    else parse_snapshot (expired_snapshot s) >>= λ t. ok (t, some (digest_item s now))

unfoldable pub expire_waiting_execution : Snapshot → ℕ → Result (Snapshot × Option DigestItem)
expire_waiting_execution snapshot now = parse_snapshot snapshot >>= λ s. expire_parsed s now
