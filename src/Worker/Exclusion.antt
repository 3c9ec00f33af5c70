-- ===== src/Worker/Exclusion.antt =====
-- Mutual exclusion over the runs (apps/worker/src/store.ts): a call of a worker leaves alone every
-- run that is not queued and that the worker does not hold, but for recovery of an expired lease.
use agent_builder.Common.{
  inl, inr, ◌<◌, Bool, Bool-cases, none, find_row-key, ℕ, ◌≡◌, ◌≢◌, refl, sym, subst, ◌∙◌, true,
  false, List, Option, some, some_inj, find_row-update_row, ℕ_discrete, ==_iff, arith,
}
use agent_builder.Worker.Model.{Run, Core, Db, Settlement, is_queued, is_running, owned_by}
use agent_builder.Worker.Journal.{find_run}
use agent_builder.Worker.Grants.{update_run, settle_grant}
use agent_builder.Worker.Cancel.{cancel_run, cancel_core, cancel_claimed}
use agent_builder.Worker.Complete.{succeed_run, publish_core, complete}
use agent_builder.Worker.Failure.{
  pause_run, pause_core, pause_for_plugin, requeue_run, requeue_core, fail_run, fail_core,
  fail_or_retry,
}
use agent_builder.Worker.Claim.{send_back, pause_for_budget, start_run, start_core, claim_next}
use agent_builder.Worker.Heartbeat.{heartbeat, renew}
use agent_builder.Worker.Outcomes.{IsHeld, cancel_within_core}
use agent_builder.Worker.Outcomes.Completion.{complete_core}
use agent_builder.Worker.Outcomes.Failure.{pause_for_plugin_core, fail_or_retry_core}
use agent_builder.Worker.Outcomes.Claim.{claim_next_core, IsCandidate-facts}
use agent_builder.Worker.Recover.{passed, is_expired, recover_core, recover_expired_leases}
use agent_builder.Worker.Outcomes.Recover.{recover_core-others, recover_expired_leases_rows}
use agent_builder.Worker.Outcomes.Heartbeat.{heartbeat_core}
use agent_builder.Worker.Calls.{
  Call, recovers, claims, beats, completes, cancels, pauses, fails, after, IsBy, settled_core,
  settled_db,
}
use agent_builder.Worker.Runs.{HasSoundRuns, settle_grant-runs}

-- A row under another key, or another row, is not the one that an update writes.
find_run-update_run :
    (c : Core) (rows : List Run) (r x : Run) (id : ℕ) (f : Run → Run)
    → rows ≡ (update_run r.id f c).runs
    → ((y : Run) → (f y).id ≡ y.id)
    → find_run r.id c.runs ≡ some r
    → find_run id c.runs ≡ some x
    → r ≢ x
    → find_run id rows ≡ some x
unfolding update_run
find_run-update_run c rows r x id f same keeps found at other = elim (ℕ_discrete r.id id) [
  | yes e ↦
      absurd (other (some_inj (sym found ∙ subst (λ i. find_run i c.runs ≡ some x) (sym e) at)))
  | no n ↦
      rw (same, find_row-update_row (λ y. y.id) r.id id f c.runs keeps)
        (ground (arith, ==_iff r.id id))
]

-- The lease of a running run has expired when recovery is called.
abbrev pub IsOverdue : Call → Run → Type 0
IsOverdue (recovers locked now) x =
    (is_running x.state ≡ true) × (t : ℕ) × (x.lease_expires_at ≡ some t) × (t < now)
IsOverdue _ x = ⊥

passed-expired : (now : ℕ) (o : Option ℕ) → passed now o ≡ true → (t : ℕ) × (o ≡ some t) × (t < now)
passed-expired now none e = absurd (ground (arith, e))
passed-expired now (some t) e = (t, refl, ground (arith, e))

is_expired-IsOverdue :
    (locked : ℕ → Bool) (now : ℕ) (x : Run)
    → is_expired locked now x ≡ true
    → IsOverdue (recovers locked now) x
is_expired-IsOverdue locked now x e =
    let (t, at, before) = passed-expired now x.lease_expires_at (ground (arith, e)) in
    (ground (arith, e), t, at, before)

module _ (w id : ℕ) (x : Run) (settled : is_queued x.state ≡ false)
    (foreign : owned_by w x ≡ false) where
  -- The row as it was.
  abbrev Kept : Core → Type 0
  Kept c = find_run id c.runs ≡ some x

  held-ne : (run : ℕ) (c : Core) (r : Run) → IsHeld run w c r → r ≢ x
  held-ne run c r h e = cc (subst (λ y. owned_by w y ≡ false) (sym e) foreign, owns)
    where
      owns : owned_by w r ≡ true
      owns = ground (arith, h.owner, h.runs)

  queued-ne : (r : Run) → is_queued r.state ≡ true → r ≢ x
  queued-ne r waits e = cc (subst (λ (y : Run). is_queued y.state ≡ true) e waits)

  -- A held run is settled under its own key.
  settled-Kept :
      (run : ℕ) (c : Core) (f : Run → Run) (s : Option Settlement) (r : Run)
      → ((y : Run) → (f y).id ≡ y.id)
      → Kept c
      → IsHeld run w c r
      → Kept (settle_grant r.grant r.upper_cost s (update_run r.id f c))
  settled-Kept run c f s r keeps k h =
      find_run-update_run c _ r x id f
        (settle_grant-runs r.grant r.upper_cost s (update_run r.id f c)) keeps h.found k
        (held-ne run c r h)

  -- Recovery of other rows.
  recovers-Kept :
      (locked : ℕ → Bool) (now : ℕ) (db : Db)
      → is_expired locked now x ≡ false
      → HasSoundRuns db.core
      → Kept db.core
      → Kept (settled_db (recover_expired_leases locked now db) db).core
  recovers-Kept locked now db alive h k =
      settled_core Kept (recover_expired_leases locked now db) db k (
        recover_expired_leases_rows Kept locked now
          (λ catalog c r found due kept.
            let named : x.id ≡ id = find_row-key (λ y. y.id) id c.runs x kept in
            let at : find_run x.id c.runs ≡ some x =
              subst (λ i. find_run i c.runs ≡ some x) (sym named) kept in
            subst (λ i. find_run i (recover_core catalog now r c).runs ≡ some x) named
              (recover_core-others catalog now r x c
                (λ e.
                  let same : r ≡ x =
                    some_inj (sym found ∙ subst (λ i. find_run i c.runs ≡ some x) (sym e) at) in
                  cc (subst (λ y. is_expired locked now y ≡ true) same due, alive))
                at))
          db h.keyed k)

  by-Kept :
      (call : Call) (db : Db)
      → IsBy w call
      → (¬ IsOverdue call x)
      → HasSoundRuns db.core
      → Kept db.core
      → Kept (after call db).core
  unfolding after cancel_claimed cancel_core pause_core requeue_core fail_core publish_core
      start_core start_run renew send_back pause_for_budget
  by-Kept (recovers locked now) db by alive h k = elim (Bool-cases (is_expired locked now x)) [
    | inl due ↦ absurd (alive (is_expired-IsOverdue locked now x due))
    | inr e ↦ recovers-Kept locked now db e h k
  ]
  by-Kept (claims locked worker lease_ms now) db by alive h k =
      settled_core Kept (claim_next locked worker lease_ms now db) db k (
        claim_next_core Kept locked worker lease_ms now db k
          (λ r reason e.
            let q = IsCandidate-facts locked now db r h.keyed e in
            find_run-update_run db.core _ r x id (send_back reason now) refl (λ y. refl) q.found k
              (queued-ne r q.waits))
          (λ r e.
            let q = IsCandidate-facts locked now db r h.keyed e in
            find_run-update_run db.core _ r x id (pause_for_budget now) refl (λ y. refl) q.found k
              (queued-ne r q.waits))
          (λ r g e started.
            let q = IsCandidate-facts locked now db r h.keyed e in
            find_run-update_run db.core _ r x id (start_run worker lease_ms now) refl (λ y. refl)
              q.found k (queued-ne r q.waits)))
  by-Kept (beats run worker lease_ms epoch now) db by alive h k =
      settled_core Kept (heartbeat run worker lease_ms epoch now db) db k (
        rw by (
          heartbeat_core Kept run w lease_ms epoch now db k (λ r held.
            find_run-update_run db.core _ r x id (renew lease_ms now) refl (λ y. refl) held.found k
              (held-ne run db.core r held))))
  by-Kept (completes accepts run worker result now) db by alive h k =
      settled_core Kept (complete accepts run worker result now db) db k (
        rw by (
          complete_core Kept accepts run w result now db k
            (λ r held.
              settled-Kept run.id db.core (cancel_run (some result.settlement) now)
                (some result.settlement) r (λ y. refl) k held)
            (λ r g p.
              find_run-update_run db.core _ r x id (succeed_run result.settlement now) refl
                (λ y. refl) p.held.found k (held-ne run.id db.core r p.held))))
  by-Kept (cancels run worker incurred now) db by alive h k =
      settled_core Kept (cancel_claimed run worker incurred now db) db k (
        rw by (
          cancel_within_core Kept run w incurred now db k (λ r held.
            settled-Kept run db.core (cancel_run incurred now) incurred r (λ y. refl) k held)))
  by-Kept (pauses run worker code incurred now) db by alive h k =
      settled_core Kept (pause_for_plugin run worker code incurred now db) db k (
        rw by (
          pause_for_plugin_core Kept run w code incurred now db k
            (λ r held.
              settled-Kept run db.core (cancel_run incurred now) incurred r (λ y. refl) k held)
            (λ r held.
              settled-Kept run db.core (pause_run code incurred now) incurred r (λ y. refl) k
                held)))
  by-Kept (fails run worker code retryable incurred reported now) db by alive h k =
      settled_core Kept (fail_or_retry run worker code retryable incurred reported now db) db k (
        rw by (
          fail_or_retry_core Kept run w code retryable incurred reported now db k
            (λ r held.
              settled-Kept run db.core (cancel_run incurred now) incurred r (λ y. refl) k held)
            (λ r held q.
              settled-Kept run db.core (requeue_run code incurred now) incurred r (λ y. refl) k
                held)
            (λ r s held.
              settled-Kept run db.core (fail_run code s incurred now) incurred r (λ y. refl) k
                held)))

-- Where the runs are sound, a call of a worker leaves a run exactly as it is, unless the run is
-- queued, the worker holds its lease, or the call is a recovery that finds the run running with a lease
-- that has expired: no worker ends, renews or charges a run of another whose lease holds, and none
-- touches a run that has ended or waits for a person.
pub after-foreign :
    (w : ℕ) (call : Call) (db : Db) (id : ℕ) (x : Run)
    → IsBy w call
    → (¬ IsOverdue call x)
    → HasSoundRuns db.core
    → find_run id db.core.runs ≡ some x
    → is_queued x.state ≡ false
    → owned_by w x ≡ false
    → find_run id (after call db).core.runs ≡ some x
after-foreign w call db id x by alive h at settled foreign =
    by-Kept w id x settled foreign call db by alive h at
