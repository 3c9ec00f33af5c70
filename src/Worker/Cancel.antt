-- ===== src/Worker/Cancel.antt =====
-- `cancelWithinTransaction` and `cancelClaimed` (apps/worker/src/store.ts), with the run updates and
-- the step updates that the other operations of the store share. A transaction reads the clock
-- once, as `now`.
use agent_builder.Common.{
  ℕ, ◌+◌, String, Bool, true, false, Option, none, some, Result, ok, err, ◌>>=◌, if◌then◌else◌,
  find_row, update_row, is_some,
}
use agent_builder.Worker.Json.{Fields, end, field, num, bool, str}
use agent_builder.Worker.Model.{
  Run, RunState, cancelled, Core, Journal, Catalog, Db, Settlement, owned_by,
}
use agent_builder.Worker.Journal.{
  find_run, append_run_event, append_platform_event, append_audit, record_digest_delivery,
  delivery_failed,
}
use agent_builder.Worker.Grants.{update_run, settle_grant, settle_samples, or_zero}

-- `WHERE "id" = ${runId} AND "state" = 'running' AND "leaseOwner" = ${workerId} FOR UPDATE`.
unfoldable pub lock_run : ℕ → ℕ → Core → Option Run
lock_run run worker c = elim (find_run run c.runs) [
  | none ↦ none
  | some r ↦ if owned_by worker r then some r else none
]

-- The cost of a run after an attempt; a run with no incurred cost keeps what it had.
abbrev pub add_cost : Option Settlement → Option ℕ → Option ℕ
add_cost none cost = cost
add_cost (some s) cost = some (or_zero cost + s.actual_cost)

-- A run in a new state, with its lease given up.
abbrev pub leave : RunState → String → Option Settlement → ℕ → Run → Run
leave state message incurred now r = record r {
  state = state;
  message = message;
  actual_cost = add_cost incurred r.actual_cost;
  lease_owner = none;
  lease_expires_at = none;
  heartbeat_at = none;
  updated_at = now;
}

unfoldable pub cancel_run : Option Settlement → ℕ → Run → Run
cancel_run incurred now r = record (leave cancelled "Cancelled" incurred now r) {
  finished_at = some now;
}

abbrev pub write_step : ℕ → String → Fields → Journal → Journal
write_step run state result j = record j {
  steps = update_row (λ s. s.run) run (λ s. record s { state = state; result = result }) j.steps;
}

-- `runStep.update`, which throws where the row is missing.
unfoldable pub update_step : ℕ → String → Fields → Journal → Result Journal
update_step run state result j =
    if is_some (find_row (λ s. s.run) run j.steps)
    then ok (write_step run state result j)
    else err "P2025"

-- The cost of an attempt as an event shows it.
abbrev pub incurred_cost : Option Settlement → Option ℕ
incurred_cost none = none
incurred_cost (some s) = some s.actual_cost

unfoldable pub cancel_core : Run → Option Settlement → ℕ → Core → Core
unfolding cancel_run update_run settle_grant
cancel_core r incurred now c =
    settle_grant r.grant r.upper_cost incurred (update_run r.id (cancel_run incurred now) c)

unfoldable pub cancel_journal :
    Core → Catalog → Run → Option Settlement → ℕ → Journal → Result Journal
unfolding settle_samples append_audit append_run_event append_platform_event record_digest_delivery
cancel_journal core catalog r incurred now j = do
  sampled ← settle_samples core r.id r.attempts incurred j
  let stepped = write_step r.id "cancelled" (field "code" (str "CANCELLED") end) sampled
  let audited =
      append_audit "execution.cancelled" r
        (field "providerCostRecorded" (bool (is_some incurred)) end) stepped
  logged ←
      append_run_event core r.id
        (record {
          phase = "outcome";
          state = "cancelled";
          message = "The run was cancelled before publishing an outcome.";
          duration_ms = none;
          cost = incurred_cost incurred;
          metadata = field "code" (str "RUN_CANCELLED") end;
        })
        audited
  announced ←
      append_platform_event core r.id "execution.cancelled"
        (field "code" (str "RUN_CANCELLED")
          (field "costUsd" (num (or_zero (incurred_cost incurred))) end))
        logged
  record_digest_delivery core catalog r.id (delivery_failed "RUN_CANCELLED") now announced

-- A transaction that has changed the core and then writes its journal; a throw rolls both back.
unfoldable pub commit {ℓ} : {A : Type ℓ} → A → Core → Result Journal → Db → Result (A × Db)
commit a core written db = do j ← written; ok (a, record db { core = core; journal = j })

unfoldable pub cancel_locked : Run → Option Settlement → ℕ → Db → Result (Bool × Db)
unfolding cancel_core cancel_journal commit
cancel_locked r incurred now db =
    let core = cancel_core r incurred now db.core in
    commit true core (cancel_journal core db.catalog r incurred now db.journal) db

-- `cancelWithinTransaction`: false, and nothing written, unless the worker holds the running run.
unfoldable pub cancel_within : ℕ → ℕ → Option Settlement → ℕ → Db → Result (Bool × Db)
unfolding lock_run cancel_locked
cancel_within run worker incurred now db = elim (lock_run run worker db.core) [
  | none ↦ ok (false, db)
  | some r ↦ cancel_locked r incurred now db
]

-- `cancelClaimed`.
unfoldable pub cancel_claimed : ℕ → ℕ → Option Settlement → ℕ → Db → Result (Bool × Db)
unfolding cancel_within
cancel_claimed run worker incurred now db = cancel_within run worker incurred now db
