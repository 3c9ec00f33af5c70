-- ===== src/Contracts/Broker/Proofs.antt =====
-- The proof of both identities, and what it is good for (packages/contracts/src/workstation-broker-domain.ts).
use agent_builder.Common.{
  ℕ, ◌≡◌, ◌≤◌, ◌<◌, refl, sym, subst, Bool, true, false, not, ◌||◌, Option, none, some, ok, ltb,
  leb, Ensures, Ensures-bind, Ensures-unless, Ensures-ok, arith,
}
use agent_builder.Contracts.Broker.Types.{WorkOrder, Handshake, Binding, IdentityVerifier}
use agent_builder.Contracts.Broker.{within_window}
use agent_builder.Contracts.Broker.{outlives, parse_order}
use agent_builder.Contracts.Broker.Resume.{
  exact_matches, both_verified, proofs_of, bind_verified, verify_parsed,
  verify_dual_identity_binding,
}

-- What stands behind a binding: the order was valid, the proofs of the user and of the device were
-- asked for and both verified, and the handshake named what the order requires.
pub record IsProven (verifier : IdentityVerifier) (o : WorkOrder) (h : Handshake) (now : ℕ)
    (b : Binding) : Type 0 where
  pub started : o.details.not_before ≤ now
  pub before_lease : now < o.details.lease_expires_at
  pub before_expiry : now < o.expires_at
  pub user :
      verifier.verify_user_proof o.required_actor_id o.required_user_sid h.user_proof_kind
        h.user_access_token
      ≡ some true
  pub device :
      verifier.verify_device_proof o.required_device_certificate_thumbprint o.nonce
        h.device_challenge_signature
      ≡ some true
  pub order : b.work_order_id ≡ o.work_order_id
  pub lease : b.lease_id ≡ o.lease_id
  pub nonce : b.nonce ≡ o.nonce
  pub actor : b.actor_id ≡ o.required_actor_id
  pub sid : b.user_sid ≡ o.required_user_sid
  pub thumbprint : b.device_certificate_thumbprint ≡ o.required_device_certificate_thumbprint
  pub moment : b.verified_at ≡ now

both-true :
    (user device : Option Bool)
    → Ensures
        (λ b. b ≡ true → (user ≡ some true) × (device ≡ some true))
        (both_verified user device)
both-true none device = tt
both-true (some user) none = tt
both-true (some user) (some device) = λ e. (ground arith, ground arith)

-- What the handshake names.
pub record IsNamed (h : Handshake) (o : WorkOrder) : Type 0 where
  pub order : h.work_order_id ≡ o.work_order_id
  pub lease : h.lease_id ≡ o.lease_id
  pub nonce : h.nonce ≡ o.nonce
  pub actor : h.actor_id ≡ o.required_actor_id
  pub sid : h.user_sid ≡ o.required_user_sid
  pub thumbprint : h.device_certificate_thumbprint ≡ o.required_device_certificate_thumbprint

exact_matches-IsNamed : (h : Handshake) (o : WorkOrder) → exact_matches h o ≡ true → IsNamed h o
exact_matches-IsNamed h o e = record {
  order = ground (arith, e);
  lease = ground (arith, e);
  nonce = ground (arith, e);
  actor = ground (arith, e);
  sid = ground (arith, e);
  thumbprint = ground (arith, e);
}

bind_verified-IsProven :
    (digest : ℕ → ℕ) (verifier : IdentityVerifier) (o : WorkOrder) (h : Handshake) (now : ℕ)
    (b : Bool)
    → o.details.not_before ≤ now
    → now < o.details.lease_expires_at
    → now < o.expires_at
    → IsNamed h o
    → (b ≡ true
        → (verifier.verify_user_proof h.actor_id h.user_sid h.user_proof_kind h.user_access_token
            ≡ some true)
          × (verifier.verify_device_proof h.device_certificate_thumbprint h.nonce
                h.device_challenge_signature
              ≡ some true))
    → Ensures (IsProven verifier o h now) (bind_verified digest verifier o h now b)
bind_verified-IsProven digest verifier o h now false started lease expiry n both = tt
bind_verified-IsProven digest verifier o h now true started lease expiry n both =
    let (user, device) = both refl in
    record {
      started = started;
      before_lease = lease;
      before_expiry = expiry;
      user = rw (sym n.actor, sym n.sid) user;
      device = rw (sym n.thumbprint, sym n.nonce) device;
      order = refl;
      lease = refl;
      nonce = refl;
      actor = refl;
      sid = refl;
      thumbprint = refl;
      moment = refl;
    }

pub parse_order-same : (P : WorkOrder → Type 0) (o : WorkOrder) → P o → Ensures P (parse_order o)
parse_order-same P o h =
    Ensures-unless P (not (within_window o.freshness_window_seconds) || outlives o) _ (ok o)
      (λ e. h)

-- A binding is made only while the work order and its lease are valid, for the order, the lease, the
-- nonce, the actor, the user and the device of the work order, and only where the verifier verified
-- both the proof of that user and the answer of that device to that nonce.
pub verify_dual_identity_binding-IsProven :
    (digest : ℕ → ℕ) (verifier : IdentityVerifier) (order : WorkOrder) (h : Handshake) (now : ℕ)
    (b : Binding)
    → verify_dual_identity_binding digest verifier order h now ≡ ok b
    → IsProven verifier order h now b
unfolding verify_dual_identity_binding
verify_dual_identity_binding-IsProven digest verifier order h now b e =
    let P = IsProven verifier order h now in
    Ensures-ok P (verify_dual_identity_binding digest verifier order h now) b e (
      Ensures-bind (λ q. q ≡ order) P (parse_order order)
        (λ q. verify_parsed digest verifier q h now) (parse_order-same (λ q. q ≡ order) order refl)
        (λ q same.
          subst (λ q. Ensures P (verify_parsed digest verifier q h now)) (sym same)
            (Ensures-unless P (ltb now order.details.not_before || leb order.expires_at now) _ _
              (λ e1. Ensures-unless P (leb order.details.lease_expires_at now) _ _ (λ e2.
                Ensures-unless P (not (exact_matches h order)) _ _ (λ e3.
                  Ensures-bind _ P (proofs_of digest verifier h)
                    (bind_verified digest verifier order h now)
                    (both-true
                      (verifier.verify_user_proof h.actor_id h.user_sid h.user_proof_kind
                        h.user_access_token)
                      (verifier.verify_device_proof h.device_certificate_thumbprint h.nonce
                        h.device_challenge_signature))
                    (λ both proven.
                      bind_verified-IsProven digest verifier order h now both (ground (arith, e1))
                        (ground (arith, e2)) (ground (arith, e1))
                        (exact_matches-IsNamed h order (ground (arith, e3))) proven)))))))
