-- ===== src/Worker/Revocation.antt =====
-- A revoked grant stays revoked, whatever the workers call (apps/worker/src/store.ts).
use agent_builder.Common.{
  ℕ, ◌+◌, ◌-◌, ◌≡◌, refl, inl, inr, Option, none, some, All, All-find_row, All-update_row,
  find_row-key, Option-cases, arith,
}
use agent_builder.Worker.Model.{Run, Grant, revoked, Core, Db, Settlement, Catalog}
use agent_builder.Worker.Grants.{
  find_grant, find_grant_of, update_run, update_grant, on_grant, settled, reassess, settle_grant,
  release_reservation, reconcile_incurred_cost,
}
use agent_builder.Worker.Cancel.{cancel_run, cancel_core, cancel_claimed}
use agent_builder.Worker.Complete.{publish_core, complete}
use agent_builder.Worker.Failure.{
  pause_run, pause_core, pause_for_plugin, requeue_run, requeue_core, fail_run, fail_core,
  fail_or_retry,
}
use agent_builder.Worker.Recover.{recovered_run, recover_core, recover_expired_leases}
use agent_builder.Worker.Claim.{reserve, start_core, claim_next}
use agent_builder.Worker.Heartbeat.{heartbeat}
use agent_builder.Worker.Outcomes.{cancel_within_core}
use agent_builder.Worker.Outcomes.Completion.{complete_core}
use agent_builder.Worker.Outcomes.Failure.{pause_for_plugin_core, fail_or_retry_core}
use agent_builder.Worker.Outcomes.Claim.{claim_next_core}
use agent_builder.Worker.Outcomes.Recover.{recover_expired_leases_core}
use agent_builder.Worker.Outcomes.Heartbeat.{heartbeat_core}
use agent_builder.Worker.Calls.{
  Call, recovers, claims, beats, completes, cancels, pauses, fails, after, settled_core,
}
use agent_builder.Worker.Invariant.{IsWellFormed}
use agent_builder.Worker.Budget.{find_grant_of-id}
use agent_builder.Worker.Outcomes.Claim.{IsStarted}
use agent_builder.Worker.Authority.{IsStarted-IsAuthorized}

module _ (id : ℕ) where
  -- The grant under the key is revoked.
  abbrev pub IsRevoked : Grant → Type 0
  IsRevoked g = g.id ≡ id → g.state ≡ revoked

  abbrev pub AllRevoked : Core → Type 0
  AllRevoked c = All IsRevoked c.grants

  settled-IsRevoked :
      (spent reserved : ℕ) (g : Grant) → IsRevoked g → IsRevoked (settled spent reserved g)
  unfolding settled reassess
  settled-IsRevoked spent reserved g h = λ e. rw (h e, settled) refl

  on_grant-AllRevoked :
      (grant : Option ℕ) (k : Grant → Grant) (c : Core)
      → ((g : Grant) → IsRevoked g → IsRevoked (k g))
      → AllRevoked c
      → AllRevoked (on_grant grant k c)
  unfolding on_grant update_grant
  on_grant-AllRevoked none k c keeps h = h
  on_grant-AllRevoked (some gid) k c keeps h = elim (Option-cases (find_grant gid c.grants)) [
    | inl missing ↦ rw (missing, on_grant) h
    | inr (g, at) ↦
        let named : g.id ≡ gid = find_row-key (λ x. x.id) gid c.grants g at in
        rw (at, on_grant, named)
          (All-update_row IsRevoked (λ x. x.id) gid k c.grants g h at
            (keeps g (All-find_row IsRevoked (λ x. x.id) gid c.grants g h at)))
  ]

  settle_grant-AllRevoked :
      (c : Core) (f : Run → Run) (r : Run) (s : Option Settlement)
      → AllRevoked c
      → AllRevoked (settle_grant r.grant r.upper_cost s (update_run r.id f c))
  unfolding settle_grant release_reservation reconcile_incurred_cost update_run
  settle_grant-AllRevoked c f r none h =
      on_grant-AllRevoked r.grant _ (update_run r.id f c)
        (λ g. settled-IsRevoked g.spent (g.reserved - r.upper_cost) g) h
  settle_grant-AllRevoked c f r (some s) h =
      on_grant-AllRevoked r.grant _ (update_run r.id f c)
        (λ g. settled-IsRevoked (g.spent + s.actual_cost) (g.reserved - r.upper_cost) g) h

  recover_core-AllRevoked :
      (catalog : Catalog) (now : ℕ) (c : Core) (r : Run)
      → AllRevoked c
      → AllRevoked (recover_core catalog now r c)
  unfolding recover_core release_reservation update_run
  recover_core-AllRevoked catalog now c r h =
      on_grant-AllRevoked r.grant _ (update_run r.id (recovered_run catalog now) c)
        (λ g. settled-IsRevoked g.spent (g.reserved - r.upper_cost) g) h

  -- A grant under which a run is started is not revoked.
  start_core-AllRevoked :
      (now worker lease_ms : ℕ) (db : Db) (r : Run) (g : Grant)
      → IsStarted now db r g
      → AllRevoked db.core
      → AllRevoked (start_core worker lease_ms now r g db.core)
  unfolding start_core update_grant update_run reserve
  start_core-AllRevoked now worker lease_ms db r g started h =
      let at = find_grant_of-id r.grant db.core.grants g started.granted in
      let usable = (IsStarted-IsAuthorized now db r g started).usable in
      let before = All-find_row IsRevoked (λ x. x.id) g.id db.core.grants g h at in
      All-update_row IsRevoked (λ x. x.id) g.id (reserve r) db.core.grants g h at
        (λ e. absurd (ground (arith, before e, usable)))

  publish_core-AllRevoked :
      (c : Core) (grant : Option ℕ) (r : Run) (g : Grant) (s : Settlement) (now : ℕ)
      → find_grant_of grant c.grants ≡ some g
      → AllRevoked c
      → AllRevoked (publish_core r g s now c)
  unfolding publish_core update_grant update_run
  publish_core-AllRevoked c grant r g s now granted h =
      let at = find_grant_of-id grant c.grants g granted in
      All-update_row IsRevoked (λ x. x.id) g.id _ c.grants g h at
        (settled-IsRevoked (g.spent + s.actual_cost) (g.reserved - r.upper_cost) g
          (All-find_row IsRevoked (λ x. x.id) g.id c.grants g h at))

-- In a well-formed database, a grant that is revoked is still revoked after any call of the store.
pub after-AllRevoked :
    (id : ℕ) (call : Call) (db : Db)
    → IsWellFormed db.core
    → AllRevoked id db.core
    → AllRevoked id (after call db).core
unfolding after cancel_claimed cancel_core pause_core requeue_core fail_core update_run
after-AllRevoked id (recovers locked now) db w h =
    settled_core (AllRevoked id) (recover_expired_leases locked now db) db h (
      recover_expired_leases_core (AllRevoked id) now
        (λ catalog c r found runs k. recover_core-AllRevoked id catalog now c r k) locked db
        w.runs.keyed h)
after-AllRevoked id (claims locked worker lease_ms now) db w h =
    settled_core (AllRevoked id) (claim_next locked worker lease_ms now db) db h (
      claim_next_core (AllRevoked id) locked worker lease_ms now db h (λ r reason at. h) (λ r at. h)
        (λ r g at started. start_core-AllRevoked id now worker lease_ms db r g started h))
after-AllRevoked id (beats run worker lease_ms epoch now) db w h =
    settled_core (AllRevoked id) (heartbeat run worker lease_ms epoch now db) db h
      (heartbeat_core (AllRevoked id) run worker lease_ms epoch now db h (λ r held. h))
after-AllRevoked id (completes accepts run worker result now) db w h =
    let s = some result.settlement in
    settled_core (AllRevoked id) (complete accepts run worker result now db) db h (
      complete_core (AllRevoked id) accepts run worker result now db h
        (λ r held. settle_grant-AllRevoked id db.core (cancel_run s now) r s h)
        (λ r g p.
          publish_core-AllRevoked id db.core run.grant r g result.settlement now p.granted h))
after-AllRevoked id (cancels run worker incurred now) db w h =
    settled_core (AllRevoked id) (cancel_claimed run worker incurred now db) db h (
      cancel_within_core (AllRevoked id) run worker incurred now db h
        (λ r held. settle_grant-AllRevoked id db.core (cancel_run incurred now) r incurred h))
after-AllRevoked id (pauses run worker code incurred now) db w h =
    settled_core (AllRevoked id) (pause_for_plugin run worker code incurred now db) db h (
      pause_for_plugin_core (AllRevoked id) run worker code incurred now db h
        (λ r held. settle_grant-AllRevoked id db.core (cancel_run incurred now) r incurred h)
        (λ r held. settle_grant-AllRevoked id db.core (pause_run code incurred now) r incurred h))
after-AllRevoked id (fails run worker code retryable incurred reported now) db w h =
    settled_core (AllRevoked id) (fail_or_retry run worker code retryable incurred reported now db)
      db h
      (fail_or_retry_core (AllRevoked id) run worker code retryable incurred reported now db h
        (λ r held. settle_grant-AllRevoked id db.core (cancel_run incurred now) r incurred h)
        (λ r held q.
          settle_grant-AllRevoked id db.core (requeue_run code incurred now) r incurred h)
        (λ r s held.
          settle_grant-AllRevoked id db.core (fail_run code s incurred now) r incurred h))
