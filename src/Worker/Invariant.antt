-- ===== src/Worker/Invariant.antt =====
-- The invariant of the worker store (apps/worker/src/store.ts): sound runs and a balanced ledger,
-- kept by every call, and so by every sequence of calls of any workers.
use agent_builder.Common.{refl, List, [], ◌∷◌, some}
use agent_builder.Worker.Model.{Core, Db}
use agent_builder.Worker.Cancel.{cancel_claimed}
use agent_builder.Worker.Claim.{send_back, pause_for_budget}
use agent_builder.Worker.Complete.{complete}
use agent_builder.Worker.Failure.{pause_for_plugin, fail_or_retry}
use agent_builder.Worker.Recover.{recover_expired_leases}
use agent_builder.Worker.Claim.{claim_next}
use agent_builder.Worker.Heartbeat.{heartbeat}
use agent_builder.Worker.Outcomes.{cancel_within_core}
use agent_builder.Worker.Outcomes.Completion.{complete_core}
use agent_builder.Worker.Outcomes.Failure.{pause_for_plugin_core, fail_or_retry_core}
use agent_builder.Worker.Outcomes.Claim.{claim_next_core, IsCandidate-facts}
use agent_builder.Worker.Outcomes.Recover.{recover_expired_leases_core}
use agent_builder.Worker.Outcomes.Heartbeat.{heartbeat_core}
use agent_builder.Worker.Calls.{
  Call, recovers, claims, beats, completes, cancels, pauses, fails, after, after_all, IsGenuine,
  AllGenuine, settled_core,
}
use agent_builder.Worker.Runs.{
  HasSoundRuns, cancel_core-HasSoundRuns, pause_core-HasSoundRuns, requeue_core-HasSoundRuns,
  fail_core-HasSoundRuns, publish_core-HasSoundRuns, recover_core-HasSoundRuns,
  start_core-HasSoundRuns, renew-HasSoundRuns, send_back-HasSoundRuns,
  pause_for_budget-HasSoundRuns,
}
use agent_builder.Worker.Ledger.{IsBalanced}
use agent_builder.Worker.Ledger.Operations.{
  cancel_core-IsBalanced, pause_core-IsBalanced, requeue_core-IsBalanced, fail_core-IsBalanced,
  publish_core-IsBalanced, recover_core-IsBalanced, start_core-IsBalanced, queued-IsBalanced,
  renew-IsBalanced,
}

pub record IsWellFormed (c : Core) : Type 0 where
  pub runs : HasSoundRuns c
  pub ledger : IsBalanced c

-- Every call of the store, a completion being genuine, keeps the invariant.
after-IsWellFormed :
    (call : Call) (db : Db)
    → IsGenuine call db.core
    → IsWellFormed db.core
    → IsWellFormed (after call db).core
unfolding after cancel_claimed
after-IsWellFormed (recovers locked now) db genuine w =
    settled_core IsWellFormed (recover_expired_leases locked now db) db w (
      recover_expired_leases_core IsWellFormed now
        (λ catalog c r found runs v. record {
          runs = recover_core-HasSoundRuns c r found v.runs catalog now;
          ledger = recover_core-IsBalanced c r found runs v.ledger catalog now;
        })
        locked db w.runs.keyed w)
after-IsWellFormed (claims locked worker lease_ms now) db genuine w =
    let c = db.core in
    settled_core IsWellFormed (claim_next locked worker lease_ms now db) db w (
      claim_next_core IsWellFormed locked worker lease_ms now db w
        (λ r reason e.
          let q = IsCandidate-facts locked now db r w.runs.keyed e in
          record {
            runs = send_back-HasSoundRuns c r q.found w.runs reason now q.waits;
            ledger =
                queued-IsBalanced c (send_back reason now) r q.found q.waits
                  (unfold send_back in refl) w.ledger;
          })
        (λ r e.
          let q = IsCandidate-facts locked now db r w.runs.keyed e in
          record {
            runs = pause_for_budget-HasSoundRuns c r q.found w.runs now q.waits;
            ledger =
                queued-IsBalanced c (pause_for_budget now) r q.found q.waits
                  (unfold pause_for_budget in refl) w.ledger;
          })
        (λ r g e started.
          let q = IsCandidate-facts locked now db r w.runs.keyed e in
          record {
            runs = start_core-HasSoundRuns c r q.found w.runs g worker lease_ms now q.waits;
            ledger =
                start_core-IsBalanced c r g worker lease_ms now q.found q.waits started.granted
                  w.ledger;
          }))
after-IsWellFormed (beats run worker lease_ms epoch now) db genuine w =
    settled_core IsWellFormed (heartbeat run worker lease_ms epoch now db) db w (
      heartbeat_core IsWellFormed run worker lease_ms epoch now db w (λ r h. record {
        runs = renew-HasSoundRuns db.core r h.found w.runs lease_ms now;
        ledger = renew-IsBalanced db.core r lease_ms now h.found w.ledger;
      }))
after-IsWellFormed (completes accepts run worker result now) db genuine w =
    let s = result.settlement in
    settled_core IsWellFormed (complete accepts run worker result now db) db w (
      complete_core IsWellFormed accepts run worker result now db w
        (λ r h. record {
          runs = cancel_core-HasSoundRuns db.core r h.found w.runs (some s) now;
          ledger = cancel_core-IsBalanced db.core r h.found h.runs w.ledger (some s) now;
        })
        (λ r g p. record {
          runs = publish_core-HasSoundRuns db.core r p.held.found w.runs g s now;
          ledger =
              publish_core-IsBalanced db.core r p.held.found p.held.runs w.ledger g s now
                (rw (genuine r p.held) p.granted);
        }))
after-IsWellFormed (cancels run worker incurred now) db genuine w =
    settled_core IsWellFormed (cancel_claimed run worker incurred now db) db w (
      cancel_within_core IsWellFormed run worker incurred now db w (λ r h. record {
        runs = cancel_core-HasSoundRuns db.core r h.found w.runs incurred now;
        ledger = cancel_core-IsBalanced db.core r h.found h.runs w.ledger incurred now;
      }))
after-IsWellFormed (pauses run worker code incurred now) db genuine w =
    settled_core IsWellFormed (pause_for_plugin run worker code incurred now db) db w (
      pause_for_plugin_core IsWellFormed run worker code incurred now db w
        (λ r h. record {
          runs = cancel_core-HasSoundRuns db.core r h.found w.runs incurred now;
          ledger = cancel_core-IsBalanced db.core r h.found h.runs w.ledger incurred now;
        })
        (λ r h. record {
          runs = pause_core-HasSoundRuns db.core r h.found w.runs code incurred now;
          ledger = pause_core-IsBalanced db.core r h.found h.runs w.ledger code incurred now;
        }))
after-IsWellFormed (fails run worker code retryable incurred reported now) db genuine w =
    settled_core IsWellFormed (fail_or_retry run worker code retryable incurred reported now db) db
      w
      (fail_or_retry_core IsWellFormed run worker code retryable incurred reported now db w
        (λ r h. record {
          runs = cancel_core-HasSoundRuns db.core r h.found w.runs incurred now;
          ledger = cancel_core-IsBalanced db.core r h.found h.runs w.ledger incurred now;
        })
        (λ r h q. record {
          runs = requeue_core-HasSoundRuns db.core r h.found w.runs code incurred now q.left;
          ledger = requeue_core-IsBalanced db.core r h.found h.runs w.ledger code incurred now;
        })
        (λ r s h. record {
          runs = fail_core-HasSoundRuns db.core r h.found w.runs code s incurred now;
          ledger = fail_core-IsBalanced db.core r h.found h.runs w.ledger code s incurred now;
        }))

-- The invariant, if it holds to begin with, holds after any sequence of calls of any workers,
-- where each completion is genuine when it is made: the keys of the runs are distinct, the attempts
-- of each run are within their limit, and below it while the run is queued, no run but a running one
-- has a lease owner and each running one has, and each grant's reserved cost is the sum of the upper
-- costs of the running runs that it authorizes.
pub after_all-IsWellFormed :
    (calls : List Call) (db : Db)
    → AllGenuine calls db
    → IsWellFormed db.core
    → IsWellFormed (after_all calls db).core
unfolding after_all
after_all-IsWellFormed [] db genuine w = w
after_all-IsWellFormed (c ∷ cs) db genuine w =
    after_all-IsWellFormed cs (after c db) genuine.1 (after-IsWellFormed c db genuine.0 w)
