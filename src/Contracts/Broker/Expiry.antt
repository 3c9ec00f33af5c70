-- ===== src/Contracts/Broker/Expiry.antt =====
-- The expiry of a waiting run (packages/contracts/src/workstation-broker-domain.ts).
use agent_builder.Common.{
  ℕ, ◌≡◌, refl, sym, subst, true, false, not, Option, none, some, Ensures, Ensures-bind, Ensures-if,
  Ensures-unless, Ensures-ok, arith,
}
use agent_builder.Contracts.Broker.Types.{Snapshot, DigestItem}
use agent_builder.Contracts.Broker.{is_waiting, is_expired_state, place_execution, parse_snapshot}
use agent_builder.Contracts.Broker.Resume.{
  expire_waiting_execution, expire_parsed, not_yet, leased_snapshot, expired_snapshot, digest_item,
}
use agent_builder.Contracts.Broker.Lifecycle.{
  Reached, placed, resumed, expiring, IsOffered, IsWellFormed, on_control_plane, in_waiting,
  in_lease, at_end, parse_snapshot-same, place_execution-IsWellFormed, IsResumed, resume-IsResumed,
}

-- What an expiry finds and does: nothing to a run that has expired; a waiting run whose time has come
-- expires, with a digest item.
pub data IsExpiring (s : Snapshot) (now : ℕ) : Snapshot × Option DigestItem → Type 0 where
  again : is_expired_state s.state ≡ true → IsExpiring s now (s, none)
  due :
      is_waiting s.state ≡ true
      → not_yet s.expires_at now ≡ false
      → IsExpiring s now (expired_snapshot s, some (digest_item s now))

pub expire-IsExpiring :
    (s : Snapshot) (now : ℕ) → Ensures (IsExpiring s now) (expire_waiting_execution s now)
unfolding expire_waiting_execution
expire-IsExpiring s now =
    let P = IsExpiring s now in
    Ensures-bind (λ q. q ≡ s) P (parse_snapshot s) (λ q. expire_parsed q now)
      (parse_snapshot-same (λ q. q ≡ s) s refl)
      (λ q e.
        subst (λ q. Ensures P (expire_parsed q now)) (sym e)
          (Ensures-if P (is_expired_state s.state) _ _ (λ e1. again e1)
            (λ e1. Ensures-unless P (not (is_waiting s.state)) _ _ (λ e2.
              Ensures-unless P (not_yet s.expires_at now) _ _ (λ e3.
                Ensures-bind (λ t. t ≡ expired_snapshot s) P (parse_snapshot (expired_snapshot s)) _
                  (parse_snapshot-same (λ t. t ≡ expired_snapshot s) (expired_snapshot s) refl)
                  (λ t f.
                    subst (λ t. IsExpiring s now (t, some (digest_item s now))) (sym f)
                      (due (ground (arith, e2)) e3)))))))

IsOffered-leased : (s : Snapshot) → IsOffered s → IsOffered (leased_snapshot s)
IsOffered-leased s o = record {
  seconds = o.seconds;
  since = o.since;
  order = o.order;
  lease = o.lease;
  nonce = o.nonce;
  placement = o.placement;
  freshness = o.freshness;
  at_least = o.at_least;
  at_most = o.at_most;
  waiting = o.waiting;
  expiry = o.expiry;
  ordered = o.ordered;
  leasing = o.leasing;
  nonced = o.nonced;
}

IsOffered-expired : (s : Snapshot) → IsOffered s → IsOffered (expired_snapshot s)
IsOffered-expired s o = record {
  seconds = o.seconds;
  since = o.since;
  order = o.order;
  lease = o.lease;
  nonce = o.nonce;
  placement = o.placement;
  freshness = o.freshness;
  at_least = o.at_least;
  at_most = o.at_most;
  waiting = o.waiting;
  expiry = o.expiry;
  ordered = o.ordered;
  leasing = o.leasing;
  nonced = o.nonced;
}

-- A well-formed snapshot that waits is the offered one.
pub waiting-IsOffered :
    (s : Snapshot)
    → IsWellFormed s
    → is_waiting s.state ≡ true
    → IsOffered s × (s.digest_event_key ≡ none)
waiting-IsOffered s (on_control_plane q _ _ _) e = absurd (ground (arith, q, e))
waiting-IsOffered s (in_waiting q o _ _ k) e = (o, k)
waiting-IsOffered s (in_lease q _ _ _ _) e = absurd (ground (arith, q, e))
waiting-IsOffered s (at_end q _ _ _ _) e = absurd (ground (arith, q, e))

step-IsWellFormed :
    (s t : Snapshot) (now : ℕ) (d : Option DigestItem)
    → IsWellFormed s
    → IsExpiring s now (t, d)
    → IsWellFormed t
step-IsWellFormed s t now d w (again e) = w
step-IsWellFormed s t now d w (due e n) =
    let (o, k) = waiting-IsOffered s w e in at_end refl (IsOffered-expired s o) refl refl refl

-- Every snapshot of the broker is in one of four states, and shows what belongs to it: a control-plane
-- run may have external effects and never expires; a run on a workstation has a whole work order that
-- expires its freshness window after the request, and external effects are allowed in the lease only.
pub Reached-IsWellFormed : (s : Snapshot) → Reached s → IsWellFormed s
Reached-IsWellFormed s (placed r ids random e) =
    Ensures-ok IsWellFormed (place_execution r ids random) s e
      (place_execution-IsWellFormed r ids random)
Reached-IsWellFormed t (resumed {s} b now consumed r e) =
    let q = Ensures-ok (IsResumed s b now consumed) _ t e (resume-IsResumed s b now consumed) in
    let (o, k) = waiting-IsOffered s (Reached-IsWellFormed s r) q.waiting in
    subst IsWellFormed (sym q.result) (in_lease refl (IsOffered-leased s o) refl refl k)
Reached-IsWellFormed t (expiring {s} now d r e) =
    step-IsWellFormed s t now d (Reached-IsWellFormed s r)
      (Ensures-ok (IsExpiring s now) _ (t, d) e (expire-IsExpiring s now))
