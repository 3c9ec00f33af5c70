-- ===== src/Worker/Recover.antt =====
-- `recoverExpiredLeases` (apps/worker/src/store.ts).
use agent_builder.Common.{
  ℕ, ltb, leb, String, Bool, true, false, not, ◌&&◌, ◌||◌, List, [], ◌∷◌, Option, none, some,
  Result, ok, ◌>>=◌, ◌==◌, if◌then◌else◌, is_some, mem, keep, length,
}
use agent_builder.Worker.Json.{Fields, end, field, num, str}
use agent_builder.Worker.Model.{
  Run, RunState, queued, Suppression, plugin_invocation_started, Core, Journal, Catalog, Db,
  is_running,
}
use agent_builder.Worker.Journal.{
  append_run_event, append_platform_event, append_audit, record_digest_delivery, delivery_failed,
}
use agent_builder.Worker.Grants.{update_run, release_reservation}
use agent_builder.Worker.Cancel.{leave}
use agent_builder.Worker.Failure.{run_error, suppression_field, backoff_name}

abbrev pub passed : ℕ → Option ℕ → Bool
passed now none = false
passed now (some t) = ltb t now

-- The `WHERE` clause; `locked` are the rows that another transaction holds and the query skips.
abbrev pub is_expired : (ℕ → Bool) → ℕ → Run → Bool
is_expired locked now r =
    is_running r.state && (passed now r.lease_expires_at && (is_some r.grant && not (locked r.id)))

abbrev pub expiry : Run → ℕ
expiry r = elim r.lease_expires_at [ none ↦ 0 | some t ↦ t ]

-- `ORDER BY "leaseExpiresAt" ASC, "id" ASC`.
abbrev pub expires_before : Run → Run → Bool
expires_before r s = ltb (expiry r) (expiry s) || (expiry r == expiry s && leb r.id s.id)

unfoldable pub insert_by_expiry : Run → List Run → List Run
insert_by_expiry r [] = r ∷ []
insert_by_expiry r (s ∷ rest) =
    if expires_before r s then r ∷ s ∷ rest else s ∷ insert_by_expiry r rest

unfoldable pub sort_by_expiry : List Run → List Run
unfolding insert_by_expiry
sort_by_expiry [] = []
sort_by_expiry (r ∷ rest) = insert_by_expiry r (sort_by_expiry rest)

unfoldable pub expired_runs : (ℕ → Bool) → ℕ → List Run → List Run
unfolding sort_by_expiry
expired_runs locked now runs = sort_by_expiry (keep (is_expired locked now) runs)

abbrev pub recovery_suppression : Catalog → Run → Option Suppression
recovery_suppression catalog r =
    if mem r.id catalog.plugin_invocations then some plugin_invocation_started else none

-- No attempt is left, or a Plugin was invoked.
abbrev pub is_terminal : Catalog → Run → Bool
is_terminal catalog r = leb r.max_attempts r.attempts || is_some (recovery_suppression catalog r)

abbrev pub failure_code : Option Suppression → String
failure_code none = "WORKER_LEASE_EXHAUSTED"
failure_code (some s) = "PLUGIN_INVOCATION_RETRY_BLOCKED"

unfoldable pub recovered_run : Catalog → ℕ → Run → Run
recovered_run catalog now r =
    if is_terminal catalog r
    then record (leave RunState.failed
        (if is_some (recovery_suppression catalog r)
          then "Execution stopped after a Plugin invocation because its result cannot be replayed safely"
          else "Execution retry limit exhausted after worker interruption")
        none now r) {
          error = some (
              run_error (failure_code (recovery_suppression catalog r))
                (recovery_suppression catalog r));
          finished_at = some now;
        }
    else leave queued "Recovered after worker interruption" none now r

unfoldable pub recover_core : Catalog → ℕ → Run → Core → Core
unfolding recovered_run update_run release_reservation
recover_core catalog now r c =
    release_reservation r.grant r.upper_cost (update_run r.id (recovered_run catalog now) c)

abbrev recovery_fields : Catalog → Run → Fields
recovery_fields catalog r = field "attempt" (num r.attempts) (
    field "maxAttempts" (num r.max_attempts) (
      field "retryBackoff" (str (backoff_name r.backoff))
        (suppression_field (recovery_suppression catalog r))))

abbrev recovery_message : Bool → Option Suppression → String
recovery_message true none = "Worker recovery exhausted the retry limit."
recovery_message true (some s) =
    "Worker recovery blocked replay after a Plugin invocation had started."
recovery_message false s = "Worker recovery returned the run to the queue."

-- The writes for a terminal run that follow its event.
unfoldable pub recover_terminal : Core → Catalog → ℕ → Run → Journal → Result Journal
unfolding append_platform_event record_digest_delivery
recover_terminal core catalog now r j = do
  let code = failure_code (recovery_suppression catalog r)
  announced ←
      append_platform_event core r.id "execution.failed"
        (field "code" (str code) (suppression_field (recovery_suppression catalog r))) j
  record_digest_delivery core catalog r.id (delivery_failed code) now announced

unfoldable pub recover_journal : Core → Catalog → ℕ → Run → Journal → Result Journal
unfolding append_run_event recover_terminal
recover_journal core catalog now r j = do
  logged ←
      append_run_event core r.id
        (record {
          phase = "worker-recovery";
          state = if is_terminal catalog r then "failed" else "queued";
          message = recovery_message (is_terminal catalog r) (recovery_suppression catalog r);
          duration_ms = none;
          cost = none;
          metadata = recovery_fields catalog r;
        })
        j
  if is_terminal catalog r then recover_terminal core catalog now r logged else ok logged

unfoldable pub recover_one : ℕ → Run → Db → Result Db
unfolding recover_core recover_journal
recover_one now r db = do
  let core = recover_core db.catalog now r db.core
  j ← recover_journal core db.catalog now r db.journal
  ok (record db { core = core; journal = j })

-- The loop over the expired runs.
unfoldable pub recover_all : ℕ → List Run → Db → Result Db
unfolding recover_one
recover_all now [] db = ok db
recover_all now (r ∷ rest) db = recover_one now r db >>= recover_all now rest

unfoldable pub audit_failed : Catalog → List Run → Journal → Journal
unfolding append_audit
audit_failed catalog [] j = j
audit_failed catalog (r ∷ rest) j = audit_failed catalog rest (
    append_audit "execution.recovery_failed" r
      (field "code" (str (failure_code (recovery_suppression catalog r)))
        (suppression_field (recovery_suppression catalog r)))
      j)

unfoldable pub audit_requeued : List Run → Journal → Journal
unfolding append_audit
audit_requeued [] j = j
audit_requeued (r ∷ rest) j =
    audit_requeued rest (append_audit "execution.requeued_after_restart" r end j)

pub record RecoverySummary : Type 0 where
  pub requeued : ℕ
  pub failed : ℕ

unfoldable pub recover_expired_leases : (ℕ → Bool) → ℕ → Db → Result (RecoverySummary × Db)
unfolding expired_runs recover_all audit_failed audit_requeued
recover_expired_leases locked now db = do
  let expired = expired_runs locked now db.core.runs
  let failed = keep (is_terminal db.catalog) expired
  let requeued = keep (λ r. not (is_terminal db.catalog r)) expired
  after ← recover_all now expired db
  ok (
    record { requeued = length requeued; failed = length failed },
    record after {
      journal = audit_requeued requeued (audit_failed db.catalog failed after.journal);
    },
  )
