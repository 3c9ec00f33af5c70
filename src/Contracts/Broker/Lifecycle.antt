-- ===== src/Contracts/Broker/Lifecycle.antt =====
-- What holds of a snapshot along its life (packages/contracts/src/workstation-broker-domain.ts).
use agent_builder.Common.{
  ℕ, ◌≡◌, ◌≤◌, ◌+◌, ◌*◌, refl, sym, subst, true, false, not, List, Option, none, some, ok, ltb, mem,
  Ensures, Ensures-then, Ensures-bind, Ensures-if, Ensures-when, Ensures-unless, arith,
}
use agent_builder.Contracts.Broker.Types.{
  control_plane, workstation, control_plane_ready, waiting_for_user, leased, expired,
  PlacementRequest, workstation_expired, Snapshot, Binding, DigestItem,
}
use agent_builder.Contracts.Broker.{
  is_waiting, PlacementIds, RandomIds, freshness_of, requires_workstation, place_execution,
  parse_snapshot, parse_request, lacks_freshness, within_window, within_window_or_null, or_else,
}
use agent_builder.Contracts.Broker.Resume.{
  resume_waiting_execution, expire_waiting_execution, resume_parsed, binding_matches, has_expired,
  leased_snapshot,
}

-- The snapshots that the broker makes: of a placement, and of what is done with them.
pub data Reached : Snapshot → Type 0 where
  placed :
      {s : Snapshot} (r : PlacementRequest) (ids : PlacementIds) (random : RandomIds)
      → place_execution r ids random ≡ ok s
      → Reached s
  resumed :
      {s t : Snapshot} (b : Binding) (now : ℕ) (consumed : List ℕ)
      → Reached s
      → resume_waiting_execution s b now consumed ≡ ok t
      → Reached t
  expiring :
      {s t : Snapshot} (now : ℕ) (d : Option DigestItem)
      → Reached s
      → expire_waiting_execution s now ≡ ok (t, d)
      → Reached t

-- A run that was placed on a workstation carries a whole work order, whose expiry is the freshness
-- window after the request.
pub record IsOffered (s : Snapshot) : Type 0 where
  pub seconds : ℕ
  pub since : ℕ
  pub order : ℕ
  pub lease : ℕ
  pub nonce : ℕ
  pub placement : s.placement ≡ workstation
  pub freshness : s.freshness_window_seconds ≡ some seconds
  pub at_least : 60 ≤ seconds
  pub at_most : seconds ≤ 86400
  pub waiting : s.waiting_since ≡ some since
  pub expiry : s.expires_at ≡ some (since + seconds * 1000)
  pub ordered : s.work_order_id ≡ some order
  pub leasing : s.lease_id ≡ some lease
  pub nonced : s.nonce ≡ some nonce

-- The four states that are reached, with what each shows.
pub data IsWellFormed (s : Snapshot) : Type 0 where
  on_control_plane :
      s.state ≡ control_plane_ready
      → s.placement ≡ control_plane
      → s.expires_at ≡ none
      → s.external_effects_allowed ≡ true
      → IsWellFormed s
  in_waiting :
      s.state ≡ waiting_for_user
      → IsOffered s
      → s.external_effects_allowed ≡ false
      → s.attention_required ≡ true
      → s.digest_event_key ≡ none
      → IsWellFormed s
  in_lease :
      s.state ≡ leased
      → IsOffered s
      → s.external_effects_allowed ≡ true
      → s.attention_required ≡ false
      → s.digest_event_key ≡ none
      → IsWellFormed s
  at_end :
      s.state ≡ expired
      → IsOffered s
      → s.external_effects_allowed ≡ false
      → s.attention_required ≡ false
      → s.digest_event_key ≡ some (workstation_expired s.run_id)
      → IsWellFormed s

pub parse_snapshot-same :
    (P : Snapshot → Type 0) (s : Snapshot) → P s → Ensures P (parse_snapshot s)
parse_snapshot-same P s h =
    Ensures-when P (within_window_or_null s.freshness_window_seconds) _ (ok s) (λ e. h)

pub place_execution-IsWellFormed :
    (r : PlacementRequest) (ids : PlacementIds) (random : RandomIds)
    → Ensures IsWellFormed (place_execution r ids random)
unfolding place_execution
place_execution-IsWellFormed r ids random = Ensures-then IsWellFormed (parse_request r) _ (λ q.
    Ensures-if IsWellFormed (not (requires_workstation q)) _ _
      (λ e. on_control_plane refl refl refl refl)
      (λ e. Ensures-unless IsWellFormed (lacks_freshness q) _ _ (λ f.
        Ensures-when IsWellFormed (within_window (freshness_of q)) _ _ (λ w.
          in_waiting refl
            (record {
              seconds = freshness_of q;
              since = q.requested_at;
              order = or_else ids.work_order_id random.work_order_id;
              lease = or_else ids.lease_id random.lease_id;
              nonce = or_else ids.nonce random.nonce;
              placement = refl;
              freshness = refl;
              at_least = ground (arith, w);
              at_most = ground (arith, w);
              waiting = refl;
              expiry = refl;
              ordered = refl;
              leasing = refl;
              nonced = refl;
            })
            refl refl refl))))

-- What a resumption finds and does.
pub record IsResumed (s : Snapshot) (b : Binding) (now : ℕ) (consumed : List ℕ) (t : Snapshot)
    : Type 0 where
  pub waiting : is_waiting s.state ≡ true
  pub in_time : has_expired s.expires_at now ≡ false
  pub fresh : mem b.nonce consumed ≡ false
  pub matching : binding_matches b s ≡ true
  pub past : b.verified_at ≤ now
  pub result : t ≡ leased_snapshot s

pub resume-IsResumed :
    (s : Snapshot) (b : Binding) (now : ℕ) (consumed : List ℕ)
    → Ensures (IsResumed s b now consumed) (resume_waiting_execution s b now consumed)
unfolding resume_waiting_execution
resume-IsResumed s b now consumed =
    let P = IsResumed s b now consumed in
    Ensures-bind (λ q. q ≡ s) P (parse_snapshot s) (λ q. resume_parsed q b now consumed)
      (parse_snapshot-same (λ q. q ≡ s) s refl)
      (λ q e.
        subst (λ q. Ensures P (resume_parsed q b now consumed)) (sym e)
          (Ensures-unless P (not (is_waiting s.state)) _ _ (λ e1.
            Ensures-unless P (has_expired s.expires_at now) _ _ (λ e2.
              Ensures-unless P (mem b.nonce consumed) _ _ (λ e3.
                Ensures-unless P (not (binding_matches b s)) _ _ (λ e4.
                  Ensures-unless P (ltb now b.verified_at) _ _ (λ e5.
                    parse_snapshot-same P (leased_snapshot s) (record {
                      waiting = ground (arith, e1);
                      in_time = e2;
                      fresh = e3;
                      matching = ground (arith, e4);
                      past = ground (arith, e5);
                      result = refl;
                    }))))))))
