-- ===== src/Worker/Budget/Calls.antt =====
-- Every call of the worker store (apps/worker/src/store.ts) keeps the grants in order.
use agent_builder.Common.{some}
use agent_builder.Worker.Model.{Run, Core, Db}
use agent_builder.Worker.Grants.{update_run}
use agent_builder.Worker.Cancel.{cancel_run, cancel_core, cancel_claimed}
use agent_builder.Worker.Complete.{complete}
use agent_builder.Worker.Failure.{
  pause_run, pause_core, pause_for_plugin, requeue_run, requeue_core, fail_run, fail_core,
  fail_or_retry,
}
use agent_builder.Worker.Recover.{recover_expired_leases}
use agent_builder.Worker.Claim.{claim_next}
use agent_builder.Worker.Heartbeat.{heartbeat}
use agent_builder.Worker.Outcomes.{IsHeld, cancel_within_core}
use agent_builder.Worker.Outcomes.Completion.{complete_core}
use agent_builder.Worker.Outcomes.Failure.{pause_for_plugin_core, fail_or_retry_core}
use agent_builder.Worker.Outcomes.Claim.{claim_next_core}
use agent_builder.Worker.Outcomes.Recover.{recover_expired_leases_core}
use agent_builder.Worker.Outcomes.Heartbeat.{heartbeat_core}
use agent_builder.Worker.Calls.{
  Call, recovers, claims, beats, completes, cancels, pauses, fails, after, settled_core,
}
use agent_builder.Worker.Invariant.{IsWellFormed}
use agent_builder.Worker.Budget.{
  HasFunds, WithinEstimate, settle_grant-HasFunds, recover_core-HasFunds, start_core-HasFunds,
  publish_core-HasFunds,
}

-- The cost that a call reports for a run that the worker holds keeps to the run's estimate.
abbrev pub IsEstimated : Call → Core → Type 0
IsEstimated (completes accepts run worker result now) c =
    (r : Run) → IsHeld run.id worker c r → WithinEstimate (some result.settlement) r
IsEstimated (cancels run worker incurred now) c =
    (r : Run) → IsHeld run worker c r → WithinEstimate incurred r
IsEstimated (pauses run worker code incurred now) c =
    (r : Run) → IsHeld run worker c r → WithinEstimate incurred r
IsEstimated (fails run worker code retryable incurred reported now) c =
    (r : Run) → IsHeld run worker c r → WithinEstimate incurred r
IsEstimated _ c = Unit

-- In a well-formed database, where the reported cost of an attempt keeps to the estimate that was
-- reserved for it, every call keeps each grant within its total budget, and active only while it
-- has runs and budget left.
pub after-HasFunds :
    (call : Call) (db : Db)
    → IsEstimated call db.core
    → IsWellFormed db.core
    → HasFunds db.core
    → HasFunds (after call db).core
unfolding after cancel_claimed cancel_core pause_core requeue_core fail_core update_run
after-HasFunds (recovers locked now) db e w h =
    settled_core HasFunds (recover_expired_leases locked now db) db h (
      recover_expired_leases_core HasFunds now
        (λ catalog c r found runs k. recover_core-HasFunds catalog now c r k) locked db w.runs.keyed
        h)
after-HasFunds (claims locked worker lease_ms now) db e w h =
    settled_core HasFunds (claim_next locked worker lease_ms now db) db h (
      claim_next_core HasFunds locked worker lease_ms now db h (λ r reason at. h) (λ r at. h)
        (λ r g at started.
          start_core-HasFunds db.core r g worker lease_ms now started.granted started.funded h))
after-HasFunds (beats run worker lease_ms epoch now) db e w h =
    settled_core HasFunds (heartbeat run worker lease_ms epoch now db) db h
      (heartbeat_core HasFunds run worker lease_ms epoch now db h (λ r held. h))
after-HasFunds (completes accepts run worker result now) db e w h =
    let s = some result.settlement in
    settled_core HasFunds (complete accepts run worker result now db) db h (
      complete_core HasFunds accepts run worker result now db h
        (λ r held.
          settle_grant-HasFunds db.core (cancel_run s now) r s held.found held.runs (e r held)
            w.ledger h)
        (λ r g p.
          publish_core-HasFunds db.core run.grant r g result.settlement now p.granted p.funded h))
after-HasFunds (cancels run worker incurred now) db e w h =
    settled_core HasFunds (cancel_claimed run worker incurred now db) db h (
      cancel_within_core HasFunds run worker incurred now db h (λ r held.
        settle_grant-HasFunds db.core (cancel_run incurred now) r incurred held.found held.runs
          (e r held) w.ledger h))
after-HasFunds (pauses run worker code incurred now) db e w h =
    settled_core HasFunds (pause_for_plugin run worker code incurred now db) db h (
      pause_for_plugin_core HasFunds run worker code incurred now db h
        (λ r held.
          settle_grant-HasFunds db.core (cancel_run incurred now) r incurred held.found held.runs
            (e r held) w.ledger h)
        (λ r held.
          settle_grant-HasFunds db.core (pause_run code incurred now) r incurred held.found
            held.runs (e r held) w.ledger h))
after-HasFunds (fails run worker code retryable incurred reported now) db e w h =
    settled_core HasFunds (fail_or_retry run worker code retryable incurred reported now db) db h (
      fail_or_retry_core HasFunds run worker code retryable incurred reported now db h
        (λ r held.
          settle_grant-HasFunds db.core (cancel_run incurred now) r incurred held.found held.runs
            (e r held) w.ledger h)
        (λ r held q.
          settle_grant-HasFunds db.core (requeue_run code incurred now) r incurred held.found
            held.runs (e r held) w.ledger h)
        (λ r s held.
          settle_grant-HasFunds db.core (fail_run code s incurred now) r incurred held.found
            held.runs (e r held) w.ledger h))
