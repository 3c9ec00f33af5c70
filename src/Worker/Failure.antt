-- ===== src/Worker/Failure.antt =====
-- `pauseForPlugin`, `failOrRetry` and `retryDelayMs` (apps/worker/src/store.ts).
use agent_builder.Common.{
  ℕ, ◌*◌, ◌^◌, min, ltb, String, Bool, true, false, ◌&&◌, Option, none, some, Result, ok, ◌>>=◌,
  if◌then◌else◌, is_some, is_none, mem,
}
use agent_builder.Worker.Json.{Fields, end, field, num, str}
use agent_builder.Worker.Model.{
  Run, RunState, RunError, queued, paused_plugin, Backoff, fixed, exponential, Suppression,
  plugin_invocation_started, Core, Journal, Catalog, Db, Settlement,
}
use agent_builder.Worker.Journal.{
  append_run_event, append_platform_event, append_audit, record_digest_delivery, delivery_failed,
}
use agent_builder.Worker.Grants.{update_run, settle_grant, settle_samples, or_zero}
use agent_builder.Worker.Cancel.{
  lock_run, leave, write_step, update_step, incurred_cost, commit, cancel_within,
}

abbrev pub run_error : String → Option Suppression → RunError
run_error code suppression = record { code = code; retry_suppressed_by = suppression }

unfoldable pub pause_run : String → Option Settlement → ℕ → Run → Run
pause_run code incurred now r =
    record (leave paused_plugin "A required Plugin became unavailable. The run is held." incurred
      now r) { error = some (run_error code none) }

unfoldable pub pause_core : Run → String → Option Settlement → ℕ → Core → Core
unfolding pause_run update_run settle_grant
pause_core r code incurred now c =
    settle_grant r.grant r.upper_cost incurred (update_run r.id (pause_run code incurred now) c)

unfoldable pub pause_journal : Core → Run → String → Option Settlement → Journal → Result Journal
unfolding settle_samples append_audit append_run_event
pause_journal core r code incurred j = do
  let stepped = write_step r.id "paused_plugin" (field "code" (str code) end) j
  sampled ← settle_samples core r.id r.attempts incurred stepped
  let audited = append_audit "execution.paused_plugin" r (field "code" (str code) end) sampled
  append_run_event core r.id
      (record {
        phase = "plugin-execution";
        state = "paused";
        message = "The run is held because its exact required Plugin became unavailable.";
        duration_ms = none;
        cost = incurred_cost incurred;
        metadata = field "code" (str code) end;
      })
      audited

unfoldable pub pause_locked : Run → String → Option Settlement → ℕ → Db → Result (Bool × Db)
unfolding pause_core pause_journal commit
pause_locked r code incurred now db =
    let core = pause_core r code incurred now db.core in
    commit true core (pause_journal core r code incurred db.journal) db

unfoldable pub pause_for_plugin : ℕ → ℕ → String → Option Settlement → ℕ → Db → Result (Bool × Db)
unfolding lock_run cancel_within pause_locked
pause_for_plugin run worker code incurred now db = elim (lock_run run worker db.core) [
  | none ↦ ok (false, db)
  | some r ↦
      if is_some r.cancel_requested_at
      then cancel_within run worker incurred now db
      else pause_locked r code incurred now db
]

unfoldable pub retry_delay_ms : Backoff → ℕ → ℕ
retry_delay_ms fixed attempt = 1000
retry_delay_ms exponential attempt = min 300000 (1000 * 2 ^ min attempt 8)

pub data DispositionState : Type 0 where
  requeued failed cancelled lease_lost : DispositionState

pub record Disposition : Type 0 where
  pub state : DispositionState
  pub retry_after_ms : Option ℕ

abbrev pub backoff_name : Backoff → String
backoff_name fixed = "fixed"
backoff_name exponential = "exponential"

unfoldable pub requeue_run : String → Option Settlement → ℕ → Run → Run
requeue_run code incurred now r =
    record (leave queued "Retry scheduled after execution failure" incurred now r) {
      error = some (run_error code none);
    }

unfoldable pub requeue_core : Run → String → Option Settlement → ℕ → Core → Core
unfolding requeue_run update_run settle_grant
requeue_core r code incurred now c =
    settle_grant r.grant r.upper_cost incurred (update_run r.id (requeue_run code incurred now) c)

unfoldable pub requeue_journal : Core → Run → String → Option Settlement → Journal → Result Journal
unfolding retry_delay_ms settle_samples update_step append_audit append_run_event
requeue_journal core r code incurred j = do
  let delay = retry_delay_ms r.backoff r.attempts
  let shown = field "retryBackoff" (str (backoff_name r.backoff)) end
  stepped ←
      update_step r.id "retrying" (field "code" (str code) (field "retryAfterMs" (num delay) end)) j
  let audited =
      append_audit "execution.retry_scheduled" r
        (field "code" (str code) (field "retryAfterMs" (num delay) shown)) stepped
  logged ←
      append_run_event core r.id
        (record {
          phase = "retry";
          state = "queued";
          message = "A retryable worker failure returned the run to the queue.";
          duration_ms = none;
          cost = incurred_cost incurred;
          metadata = field "code" (str code) (
              field "retryAfterMs" (num delay) (
                field "retryBackoff" (str (backoff_name r.backoff))
                  (field "attempt" (num r.attempts) end)));
        })
        audited
  settle_samples core r.id r.attempts incurred logged

unfoldable pub fail_run : String → Option Suppression → Option Settlement → ℕ → Run → Run
fail_run code suppression incurred now r =
    record (leave RunState.failed
      (if is_some suppression
        then "Execution stopped after a Plugin invocation because its result cannot be replayed safely"
        else "Execution failed")
      incurred now r) { error = some (run_error code suppression); finished_at = some now }

unfoldable pub fail_core : Run → String → Option Suppression → Option Settlement → ℕ → Core → Core
unfolding fail_run update_run settle_grant
fail_core r code suppression incurred now c =
    settle_grant r.grant r.upper_cost incurred
      (update_run r.id (fail_run code suppression incurred now) c)

-- `...(retryWasSuppressed ? { retrySuppressedBy } : {})`.
abbrev pub suppression_field : Option Suppression → Fields
suppression_field none = end
suppression_field (some plugin_invocation_started) =
    field "retrySuppressedBy" (str "plugin_invocation_started") end

unfoldable pub fail_journal :
    Core
    → Catalog
    → Run
    → String
    → Option Suppression
    → Option Settlement
    → ℕ
    → Journal
    → Result Journal
unfolding settle_samples update_step append_audit append_run_event append_platform_event
    record_digest_delivery
fail_journal core catalog r code suppression incurred now j = do
  let shown = suppression_field suppression
  stepped ← update_step r.id "failed" (field "code" (str code) shown) j
  let audited = append_audit "execution.failed" r (field "code" (str code) shown) stepped
  logged ←
      append_run_event core r.id
        (record {
          phase = "outcome";
          state = "failed";
          message =
              if is_some suppression
              then "Automatic retry was blocked because a Plugin invocation had already started."
              else "The run exhausted its retries without an outcome.";
          duration_ms = none;
          cost = incurred_cost incurred;
          metadata = field "code" (str code) (field "attempt" (num r.attempts) shown);
        })
        audited
  announced ←
      append_platform_event core r.id "execution.failed"
        (field "code" (str code) (field "costUsd" (num (or_zero (incurred_cost incurred))) shown))
        logged
  reported ← record_digest_delivery core catalog r.id (delivery_failed code) now announced
  settle_samples core r.id r.attempts incurred reported

unfoldable pub requeue_locked :
    Run → String → Option Settlement → ℕ → Db → Result (Disposition × Db)
unfolding requeue_core requeue_journal commit
requeue_locked r code incurred now db =
    let core = requeue_core r code incurred now db.core in
    commit
      (record { state = requeued; retry_after_ms = some (retry_delay_ms r.backoff r.attempts) })
      core (requeue_journal core r code incurred db.journal) db

unfoldable pub fail_locked :
    Run → String → Option Suppression → Option Settlement → ℕ → Db → Result (Disposition × Db)
unfolding fail_core fail_journal commit
fail_locked r code suppression incurred now db =
    let core = fail_core r code suppression incurred now db.core in
    commit (record { state = failed; retry_after_ms = none }) core
      (fail_journal core db.catalog r code suppression incurred now db.journal) db

-- The suppression that the caller reports, or that the invocations of the run show.
abbrev pub effective_suppression : Option Suppression → ℕ → Catalog → Option Suppression
effective_suppression (some s) run catalog = some s
effective_suppression none run catalog =
    if mem run catalog.plugin_invocations then some plugin_invocation_started else none

abbrev pub may_retry : Run → Bool → Option Suppression → Bool
may_retry r retryable suppression =
    retryable && (is_none suppression && ltb r.attempts r.max_attempts)

-- The run is failed with the suppression only where a retry would have been due.
abbrev pub shown_suppression : Bool → Option Suppression → Option Suppression
shown_suppression true s = s
shown_suppression false s = none

unfoldable pub fail_or_retry_locked :
    Run
    → ℕ
    → String
    → Bool
    → Option Settlement
    → Option Suppression
    → ℕ
    → Db
    → Result (Disposition × Db)
unfolding cancel_within requeue_locked fail_locked
fail_or_retry_locked r worker code retryable incurred reported now db =
    let suppression = effective_suppression reported r.id db.catalog in
    if is_some r.cancel_requested_at
    then (do
      (held, after) ← cancel_within r.id worker incurred now db
      ok (record { state = cancelled; retry_after_ms = none }, after))
    else if may_retry r retryable suppression
    then requeue_locked r code incurred now db
    else fail_locked r code (shown_suppression retryable suppression) incurred now db

-- `failOrRetry`, of the run that was claimed under this id.
unfoldable pub fail_or_retry :
    ℕ
    → ℕ
    → String
    → Bool
    → Option Settlement
    → Option Suppression
    → ℕ
    → Db
    → Result (Disposition × Db)
unfolding lock_run fail_or_retry_locked
fail_or_retry run worker code retryable incurred reported now db =
    elim (lock_run run worker db.core) [
      | none ↦ ok (record { state = lease_lost; retry_after_ms = none }, db)
      | some r ↦ fail_or_retry_locked r worker code retryable incurred reported now db
    ]
