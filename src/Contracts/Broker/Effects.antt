-- ===== src/Contracts/Broker/Effects.antt =====
-- External effects wait for both identities (packages/contracts/src/workstation-broker-domain.ts).
use agent_builder.Common.{
  ◌+◌, ◌*◌, ◌<◌, ◌≤◌, opt_eq, mem, ap, none, some, ℕ, ◌≡◌, refl, true, false, not, List, Option,
  Ensures, Ensures-then, Ensures-if, Ensures-unless, Ensures-ok, arith,
}
use agent_builder.Contracts.Broker.Types.{
  workstation, PlacementRequest, Snapshot, Binding, DigestItem,
}
use agent_builder.Contracts.Broker.{
  PlacementIds, RandomIds, requires_workstation, place_execution, parse_request,
}
use agent_builder.Contracts.Broker.Lifecycle.{
  Reached, placed, resumed, expiring, IsOffered, IsWellFormed, on_control_plane, in_waiting,
  in_lease, at_end, parse_snapshot-same, IsResumed, resume-IsResumed,
}
use agent_builder.Contracts.Broker.{is_waiting, is_expired_state, lacks_freshness, waiting_snapshot}
use agent_builder.Contracts.Broker.Resume.{has_expired, leased_snapshot}
use agent_builder.Contracts.Broker.Expiry.{
  waiting-IsOffered, Reached-IsWellFormed, expire-IsExpiring, IsExpiring, again, due,
}

-- The resumption that stands last in a history: the snapshot, the binding and the time it was asked for
-- with, and the nonces consumed by then.
abbrev pub last_resumption : {t : Snapshot} → Reached t → Option (Snapshot × Binding × ℕ × List ℕ)
last_resumption (placed r ids random e) = none
last_resumption (resumed {s} b now consumed r e) = some (s, b, now, consumed)
last_resumption (expiring now d r e) = last_resumption r

-- How a run on a workstation came to its effects: the last resumption of its history had every right.
pub record IsAuthorized (t : Snapshot) (history : Reached t) : Type 0 where
  pub waiting : Snapshot
  pub binding : Binding
  pub now : ℕ
  pub consumed : List ℕ
  pub last : last_resumption history ≡ some (waiting, binding, now, consumed)
  pub offered : IsOffered waiting
  pub state : is_waiting waiting.state ≡ true
  pub order : waiting.work_order_id ≡ some binding.work_order_id
  pub lease : waiting.lease_id ≡ some binding.lease_id
  pub nonce : waiting.nonce ≡ some binding.nonce
  pub actor : binding.actor_id ≡ waiting.required_actor_id
  pub sid : binding.user_sid ≡ waiting.required_user_sid
  pub thumbprint :
      binding.device_certificate_thumbprint ≡ waiting.required_device_certificate_thumbprint
  pub verified : binding.verified_at ≤ now
  pub in_time : now < offered.since + offered.seconds * 1000
  pub fresh : mem binding.nonce consumed ≡ false
  pub result : t ≡ leased_snapshot waiting

opt_eq-some : (a : ℕ) (o : Option ℕ) → opt_eq (some a) o ≡ true → o ≡ some a
opt_eq-some a none e = absurd (ground (arith, e))
opt_eq-some a (some b) e = ap some (ground (arith, e))

has_expired-false : (at now : ℕ) (o : Option ℕ) → o ≡ some at → has_expired o now ≡ false → now < at
has_expired-false at now none e h = absurd (ground (arith, e))
has_expired-false at now (some b) e h = ground (arith, e, h)

IsResumed-IsAuthorized :
    (s : Snapshot) (b : Binding) (now : ℕ) (consumed : List ℕ) (t : Snapshot) (history : Reached t)
    → last_resumption history ≡ some (s, b, now, consumed)
    → IsOffered s
    → IsResumed s b now consumed t
    → IsAuthorized t history
IsResumed-IsAuthorized s b now consumed t history l o q = record {
  waiting = s;
  binding = b;
  now = now;
  consumed = consumed;
  last = l;
  offered = o;
  state = q.waiting;
  order = opt_eq-some b.work_order_id s.work_order_id (ground (arith, q.matching));
  lease = opt_eq-some b.lease_id s.lease_id (ground (arith, q.matching));
  nonce = opt_eq-some b.nonce s.nonce (ground (arith, q.matching));
  actor = ground (arith, q.matching);
  sid = ground (arith, q.matching);
  thumbprint = ground (arith, q.matching);
  verified = q.past;
  in_time = has_expired-false (o.since + o.seconds * 1000) now s.expires_at o.expiry q.in_time;
  fresh = q.fresh;
  result = q.result;
}

-- External effects on the control plane only.
abbrev IsClosed : Snapshot → Type 0
IsClosed t = t.placement ≡ workstation → t.external_effects_allowed ≡ false

place_execution-IsClosed :
    (r : PlacementRequest) (ids : PlacementIds) (random : RandomIds)
    → Ensures IsClosed (place_execution r ids random)
unfolding place_execution
place_execution-IsClosed r ids random = Ensures-then IsClosed (parse_request r) _ (λ q.
    Ensures-if IsClosed (not (requires_workstation q)) _ _ (λ e p. cc)
      (λ e.
        Ensures-unless IsClosed (lacks_freshness q) _ _
          (λ f. parse_snapshot-same IsClosed (waiting_snapshot q ids random) (λ p. refl))))

expired-closed :
    (s : Snapshot)
    → IsWellFormed s
    → is_expired_state s.state ≡ true
    → s.external_effects_allowed ≡ true
    → ⊥
expired-closed s (on_control_plane state p e a) h q = ground (arith, state, h)
expired-closed s (in_waiting state o a n d) h q = ground (arith, state, h)
expired-closed s (in_lease state o a n d) h q = ground (arith, state, h)
expired-closed s (at_end state o a n d) h q = ground (arith, a, q)

-- An expiry ends in a snapshot without effects.
expiring-closed :
    (s t : Snapshot) (now : ℕ) (d : Option DigestItem)
    → IsWellFormed s
    → t.external_effects_allowed ≡ true
    → IsExpiring s now (t, d)
    → ⊥
expiring-closed s t now d w a (again q) = expired-closed s w q a
expiring-closed s t now d w a (due q f) = ground (arith, a)

-- Where a run on a workstation may have external effects, it was resumed, and the last resumption of its
-- history was of a waiting snapshot with a whole work order, by a binding of the work order, the lease,
-- the nonce, the actor, the user and the device of that snapshot, made no later than the resumption,
-- before its expiry and with a nonce that was not consumed.
pub Reached-IsAuthorized :
    (t : Snapshot) (history : Reached t)
    → t.placement ≡ workstation
    → t.external_effects_allowed ≡ true
    → IsAuthorized t history
Reached-IsAuthorized t (placed r ids random e) p a = absurd (
    clash (
      Ensures-ok IsClosed (place_execution r ids random) t e (place_execution-IsClosed r ids random)
        p))
  where
    clash : t.external_effects_allowed ≡ false → ⊥
    clash q = cc
Reached-IsAuthorized t (resumed {s} b now consumed r e) p a =
    let q = Ensures-ok (IsResumed s b now consumed) _ t e (resume-IsResumed s b now consumed) in
    IsResumed-IsAuthorized s b now consumed t (resumed b now consumed r e) refl
      (waiting-IsOffered s (Reached-IsWellFormed s r) q.waiting).0 q
Reached-IsAuthorized t (expiring {s} now d r e) p a = absurd (
    expiring-closed s t now d (Reached-IsWellFormed s r) a
      (Ensures-ok (IsExpiring s now) _ (t, d) e (expire-IsExpiring s now)))
