-- ===== src/Worker/Outcomes/Failure.antt =====
-- The branches of `pauseForPlugin` and `failOrRetry` (apps/worker/src/store.ts) as rules.
use agent_builder.Common.{
  ℕ, ◌<◌, ◌≡◌, ◌∙◌, inl, inr, String, Bool, true, false, Option, none, some, Option-cases,
  Bool-cases, is_some, mem, arith,
}
use agent_builder.Worker.Model.{Run, Core, Db, Settlement, Suppression, Catalog}
use agent_builder.Worker.Cancel.{lock_run, cancel_core, cancel_within}
use agent_builder.Worker.Failure.{
  pause_core, pause_locked, pause_for_plugin, Disposition, DispositionState, requeue_core,
  requeue_locked, fail_core, fail_locked, fail_or_retry_locked, fail_or_retry, may_retry,
  effective_suppression,
}
use agent_builder.Worker.Outcomes.{
  CoreEnsures, IsHeld, lock_run-IsHeld, commit_core, cancel_within_core, answer_core,
}

pub pause_for_plugin_core {κ} :
    (P : Core → Type κ) (run worker : ℕ) (code : String) (incurred : Option Settlement) (now : ℕ)
    (db : Db)
    → P db.core
    → ((r : Run) → IsHeld run worker db.core r → P (cancel_core r incurred now db.core))
    → ((r : Run) → IsHeld run worker db.core r → P (pause_core r code incurred now db.core))
    → CoreEnsures P (pause_for_plugin run worker code incurred now db)
unfolding pause_for_plugin pause_locked
pause_for_plugin_core P run worker code incurred now db same cancels pauses =
    elim (Option-cases (lock_run run worker db.core)) [
      | inl e ↦ rw (e, pause_for_plugin) same
      | inr (r, e) ↦ elim (Bool-cases (is_some r.cancel_requested_at)) [
        | inl c ↦
            rw (e, pause_for_plugin, c)
              (cancel_within_core P run worker incurred now db same cancels)
        | inr c ↦
            rw (e, pause_for_plugin, c)
              (commit_core P _ _ _ db (pauses r (lock_run-IsHeld run worker db.core r e)))
      ]
    ]

-- A retry is due: the failure is retryable, no Plugin was invoked, and an attempt is left.
pub record IsRetried (r : Run) (catalog : Catalog) (retryable : Bool)
    (reported : Option Suppression) : Type 0 where
  pub wanted : retryable ≡ true
  pub reported_none : reported ≡ none
  pub uninvoked : mem r.id catalog.plugin_invocations ≡ false
  pub left : r.attempts < r.max_attempts

pub may_retry-IsRetried :
    (r : Run) (catalog : Catalog) (retryable : Bool) (reported : Option Suppression)
    → may_retry r retryable (effective_suppression reported r.id catalog) ≡ true
    → IsRetried r catalog retryable reported
may_retry-IsRetried r catalog retryable (some s) h = ground arith
may_retry-IsRetried r catalog retryable none h = ground arith

module _ {κ} (P : Core → Type κ) (run worker : ℕ) (code : String) (retryable : Bool)
    (incurred : Option Settlement) (reported : Option Suppression) (now : ℕ) (db : Db) where
  locked_core :
      (r : Run)
      → IsHeld run worker db.core r
      → P db.core
      → ((x : Run) → IsHeld run worker db.core x → P (cancel_core x incurred now db.core))
      → (IsRetried r db.catalog retryable reported → P (requeue_core r code incurred now db.core))
      → ((s : Option Suppression) → P (fail_core r code s incurred now db.core))
      → CoreEnsures P (fail_or_retry_locked r worker code retryable incurred reported now db)
  unfolding fail_or_retry_locked requeue_locked fail_locked
  locked_core r held same cancels requeues fails =
      let suppression = effective_suppression reported r.id db.catalog in
      elim (Bool-cases (is_some r.cancel_requested_at)) [
        | inl c ↦
            rw (c, fail_or_retry_locked)
              (answer_core {B = Disposition} P (cancel_within r.id worker incurred now db)
                (record { state = DispositionState.cancelled; retry_after_ms = none })
                (cancel_within_core P r.id worker incurred now db same (λ x h. cancels x (record {
                  found = h.found;
                  named = h.named ∙ held.named;
                  runs = h.runs;
                  owner = h.owner;
                }))))
        | inr c ↦ elim (Bool-cases (may_retry r retryable suppression)) [
          | inl m ↦
              rw (c, fail_or_retry_locked, m)
                (commit_core P _ _ _ db
                  (requeues (may_retry-IsRetried r db.catalog retryable reported m)))
          | inr m ↦ rw (c, fail_or_retry_locked, m) (commit_core P _ _ _ db (fails _))
        ]
      ]

  pub fail_or_retry_core :
      P db.core
      → ((r : Run) → IsHeld run worker db.core r → P (cancel_core r incurred now db.core))
      → ((r : Run)
          → IsHeld run worker db.core r
          → IsRetried r db.catalog retryable reported
          → P (requeue_core r code incurred now db.core))
      → ((r : Run) (s : Option Suppression)
          → IsHeld run worker db.core r
          → P (fail_core r code s incurred now db.core))
      → CoreEnsures P (fail_or_retry run worker code retryable incurred reported now db)
  unfolding fail_or_retry
  fail_or_retry_core same cancels requeues fails =
      elim (Option-cases (lock_run run worker db.core)) [
        | inl e ↦ rw (e, fail_or_retry) same
        | inr (r, e) ↦
            let held = lock_run-IsHeld run worker db.core r e in
            rw (e, fail_or_retry)
              (locked_core r held same cancels (requeues r held) (λ s. fails r s held))
      ]
