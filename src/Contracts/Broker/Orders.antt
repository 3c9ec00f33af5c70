-- ===== src/Contracts/Broker/Orders.antt =====
-- Work orders, and the way from one to a lease (packages/contracts/src/workstation-broker-domain.ts).
use agent_builder.Common.{
  ℕ, ◌≡◌, ◌≤◌, ◌<◌, ◌+◌, ◌*◌, refl, sym, subst, true, false, not, ◌||◌, List, Option, none, some,
  ==_refl, ok, ltb, opt_eq, mem, Ensures, Ensures-bind, Ensures-when, Ensures-unless, Ensures-ok,
  arith,
}
use agent_builder.Contracts.Broker.Types.{
  Snapshot, WorkOrderInput, WorkOrder, Handshake, Binding, IdentityVerifier,
}
use agent_builder.Contracts.Broker.{
  is_waiting, parse_snapshot, within_window, within_window_or_null,
}
use agent_builder.Contracts.Broker.Resume.{
  resume_waiting_execution, binding_matches, has_expired, leased_snapshot,
}
use agent_builder.Contracts.Broker.{
  order_from, outlives, create_work_order, order_waiting, order_of,
}
use agent_builder.Contracts.Broker.Resume.{verify_dual_identity_binding}
use agent_builder.Contracts.Broker.Proofs.{verify_dual_identity_binding-IsProven}

-- A work order of a snapshot: it names what the snapshot requires, begins no earlier than it is issued,
-- has its lease in its time, and ends within the freshness window.
pub record IsIssued (s : Snapshot) (input : WorkOrderInput) (o : WorkOrder) : Type 0 where
  pub waiting : is_waiting s.state ≡ true
  pub window : within_window_or_null s.freshness_window_seconds ≡ true
  pub begins : input.issued_at ≤ input.not_before
  pub leases : input.not_before < input.lease_expires_at
  pub ends : input.lease_expires_at ≤ o.expires_at
  pub fresh : o.expires_at ≤ input.issued_at + o.freshness_window_seconds * 1000
  pub at_most : o.freshness_window_seconds ≤ 86400
  pub details : o.details ≡ input
  pub ordered : s.work_order_id ≡ some o.work_order_id
  pub leasing : s.lease_id ≡ some o.lease_id
  pub nonced : s.nonce ≡ some o.nonce
  pub expiry : s.expires_at ≡ some o.expires_at
  pub run : s.run_id ≡ o.run_id
  pub actor : o.required_actor_id ≡ s.required_actor_id
  pub sid : o.required_user_sid ≡ s.required_user_sid
  pub thumbprint :
      o.required_device_certificate_thumbprint ≡ s.required_device_certificate_thumbprint

order_of-IsIssued :
    (s : Snapshot) (input : WorkOrderInput) (order lease nonce expires freshness : Option ℕ)
    → is_waiting s.state ≡ true
    → within_window_or_null s.freshness_window_seconds ≡ true
    → s.work_order_id ≡ order
    → s.lease_id ≡ lease
    → s.nonce ≡ nonce
    → s.expires_at ≡ expires
    → Ensures (IsIssued s input) (order_of s input order lease nonce expires freshness)
order_of-IsIssued s input (some order) (some lease) (some nonce) (some expires) (some freshness) w f
      e1 e2 e3 e4 =
    Ensures-unless (IsIssued s input)
      (not (within_window freshness)
        || outlives (order_from s input order lease nonce expires freshness))
      _ _
      (λ e. record {
        waiting = w;
        window = f;
        begins = ground (arith, e);
        leases = ground (arith, e);
        ends = ground (arith, e);
        fresh = ground (arith, e);
        at_most = ground (arith, e);
        details = refl;
        ordered = e1;
        leasing = e2;
        nonced = e3;
        expiry = e4;
        run = refl;
        actor = refl;
        sid = refl;
        thumbprint = refl;
      })
order_of-IsIssued s input none lease token expires freshness w f e1 e2 e3 e4 = tt
order_of-IsIssued s input (some order) none token expires freshness w f e1 e2 e3 e4 = tt
order_of-IsIssued s input (some order) (some lease) none expires freshness w f e1 e2 e3 e4 = tt
order_of-IsIssued s input (some order) (some lease) (some nonce) none freshness w f e1 e2 e3 e4 = tt
order_of-IsIssued s input (some order) (some lease) (some nonce) (some expires) none w f e1 e2 e3
      e4 =
    tt

-- A work order is made only of a waiting snapshot that is complete; it carries the identifiers, the
-- actor, the user, the device and the expiry of that snapshot, is valid from its issue at the earliest,
-- gives a lease that ends with it at the latest, and ends within its freshness window, of a day at most.
pub create_work_order-IsIssued :
    (s : Snapshot) (input : WorkOrderInput) (o : WorkOrder)
    → create_work_order s input ≡ ok o
    → IsIssued s input o
unfolding create_work_order
create_work_order-IsIssued s input o e =
    let P = IsIssued s input in
    Ensures-ok P (create_work_order s input) o e (
      Ensures-bind (λ q. (q ≡ s) × (within_window_or_null s.freshness_window_seconds ≡ true)) P
        (parse_snapshot s) (λ q. order_waiting q input)
        (Ensures-when (λ q. (q ≡ s) × (within_window_or_null s.freshness_window_seconds ≡ true))
          (within_window_or_null s.freshness_window_seconds) _ (ok s) (λ f. (refl, f)))
        (λ q same.
          subst (λ q. Ensures P (order_waiting q input)) (sym same.0)
            (Ensures-when P (is_waiting s.state) _ _ (λ w.
              order_of-IsIssued s input s.work_order_id s.lease_id s.nonce s.expires_at
                s.freshness_window_seconds w same.1 refl refl refl refl))))

opt_eq-some : (a c : ℕ) (m : Option ℕ) → m ≡ some c → a ≡ c → opt_eq (some a) m ≡ true
opt_eq-some a c m e f = rw (e, f) (==_refl c)

-- A work order of a snapshot leads to its lease: where both proofs verified for it, the run is resumed
-- at any later time before the expiry, if its nonce was not consumed, and may then have effects.
pub verify_dual_identity_binding-resumes :
    (digest : ℕ → ℕ) (verifier : IdentityVerifier) (s : Snapshot) (input : WorkOrderInput)
    (o : WorkOrder) (h : Handshake) (verified now : ℕ) (b : Binding) (consumed : List ℕ)
    → create_work_order s input ≡ ok o
    → verify_dual_identity_binding digest verifier o h verified ≡ ok b
    → verified ≤ now
    → now < o.expires_at
    → mem o.nonce consumed ≡ false
    → resume_waiting_execution s b now consumed ≡ ok (leased_snapshot s)
unfolding resume_waiting_execution
verify_dual_identity_binding-resumes digest verifier s input o h verified now b consumed made bound
      later in_time unused =
    let i = create_work_order-IsIssued s input o made in
    let p = verify_dual_identity_binding-IsProven digest verifier o h verified b bound in
    let matching : binding_matches b s ≡ true = ground (
      arith,
      opt_eq-some b.work_order_id o.work_order_id s.work_order_id i.ordered p.order,
      opt_eq-some b.lease_id o.lease_id s.lease_id i.leasing p.lease,
      opt_eq-some b.nonce o.nonce s.nonce i.nonced p.nonce,
      p.actor,
      p.sid,
      p.thumbprint,
      i.actor,
      i.sid,
      i.thumbprint,
    ) in
    let in_window : has_expired s.expires_at now ≡ false = rw i.expiry (ground (arith, in_time)) in
    let past : ltb now b.verified_at ≡ false = ground (arith, later, p.moment) in
    let first : mem b.nonce consumed ≡ false = rw p.nonce unused in
    rw (i.window, i.waiting, in_window, first, matching, past, i.window) refl
