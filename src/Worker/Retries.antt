-- ===== src/Worker/Retries.antt =====
-- When an attempt is made again (apps/worker/src/store.ts): the disposition of a failure, the delay
-- of a retry, and the attempts at a serializable transaction.
use agent_builder.Common.{
  ℕ, zero, suc, ◌*◌, ◌^◌, ◌≤◌, ◌<◌, ◌≡◌, ◌∙◌, subst, ap, refl, min, inl, inr, ◌⊎◌, String, Bool,
  true, false, Option, none, some, Result, ok, err, Ensures, Ensures-then, is_some, Bool-cases,
  arith,
}
use native.Mathlib.Nat.{pow-le-pow_right}
use agent_builder.Worker.Model.{
  Run, RunState, Core, Backoff, fixed, exponential, Db, Settlement, Suppression, Catalog,
}
use agent_builder.Worker.Cancel.{lock_run, commit}
use agent_builder.Worker.Failure.{
  retry_delay_ms, Disposition, requeued, failed, fail_or_retry, fail_or_retry_locked,
  requeue_locked, fail_locked, requeue_run, fail_run, requeue_core, fail_core, requeue_journal,
  fail_journal, may_retry, effective_suppression, shown_suppression,
}
use agent_builder.Worker.Candidate.{backoff_seconds}
use agent_builder.Worker.Heartbeat.{
  Attempt, done, serialization_failure, other_error, retry_from, with_serializable_transaction,
}
use agent_builder.Worker.Journal.{find_run}
use agent_builder.Worker.Outcomes.{lock_run-IsHeld}
use agent_builder.Worker.Runs.{settled-find_run}
use agent_builder.Worker.Outcomes.Failure.{IsRetried, may_retry-IsRetried}

power-le : (k : ℕ) → k ≤ 8 → 2 ^ k ≤ 256
power-le k h = pow-le-pow_right (omega arith) h

-- The delay that a failure reports is the one that the candidate query waits for, and it never
-- passes 256 seconds, below the cap of 300 that both are written with.
pub retry_delay-backoff_seconds :
    (b : Backoff) (attempts : ℕ)
    → (retry_delay_ms b attempts ≡ 1000 * backoff_seconds b attempts)
      × (retry_delay_ms b attempts ≤ 256000)
unfolding retry_delay_ms backoff_seconds
retry_delay-backoff_seconds fixed attempts = (omega arith, omega arith)
retry_delay-backoff_seconds exponential attempts =
    (omega arith, omega (arith, power-le (min attempts 8) (omega arith)))

-- The row of a run after an attempt of it: in a state, free of its lease, with the attempts it had.
pub record IsLeft (r : Run) (state : RunState) (c : Core) : Type 0 where
  pub row : Run
  pub found : find_run r.id c.runs ≡ some row
  pub state_there : row.state ≡ state
  pub free : row.lease_owner ≡ none
  pub attempts : row.attempts ≡ r.attempts

-- What a failure of a held run that nobody cancelled comes to, in the answer and in the row.
abbrev pub IsDisposed : Run → Catalog → Bool → Option Suppression → Disposition × Db → Type 0
IsDisposed r catalog retryable reported (d, after) =
    ((d.state ≡ requeued)
      × IsRetried r catalog retryable reported
      × (d.retry_after_ms ≡ some (1000 * backoff_seconds r.backoff r.attempts))
      × IsLeft r RunState.queued after.core)
    ⊎ ((d.state ≡ failed)
        × (¬ IsRetried r catalog retryable reported)
        × IsLeft r RunState.failed after.core)

requeue_core-IsLeft :
    (r : Run) (code : String) (incurred : Option Settlement) (now : ℕ) (c : Core)
    → find_run r.id c.runs ≡ some r
    → IsLeft r RunState.queued (requeue_core r code incurred now c)
unfolding requeue_core requeue_run
requeue_core-IsLeft r code incurred now c found = record {
  row = requeue_run code incurred now r;
  found =
      settled-find_run c r (requeue_run code incurred now) r.upper_cost incurred found (λ x. refl);
  state_there = refl;
  free = refl;
  attempts = refl;
}

fail_core-IsLeft :
    (r : Run) (code : String) (shown : Option Suppression) (incurred : Option Settlement) (now : ℕ)
    (c : Core)
    → find_run r.id c.runs ≡ some r
    → IsLeft r RunState.failed (fail_core r code shown incurred now c)
unfolding fail_core fail_run
fail_core-IsLeft r code shown incurred now c found = record {
  row = fail_run code shown incurred now r;
  found =
      settled-find_run c r (fail_run code shown incurred now) r.upper_cost incurred found
        (λ x. refl);
  state_there = refl;
  free = refl;
  attempts = refl;
}

IsRetried-may_retry :
    (r : Run) (catalog : Catalog) (retryable : Bool) (reported : Option Suppression)
    → IsRetried r catalog retryable reported
    → may_retry r retryable (effective_suppression reported r.id catalog) ≡ true
IsRetried-may_retry r catalog retryable reported q =
    ground (arith, q.wanted, q.reported_none, q.uninvoked, q.left)

-- If a failed attempt of a run that a worker holds and nobody cancelled is settled without an
-- error, then it is made again exactly when the failure is retryable, no suppression is reported
-- and no Plugin invocation is on file for the run, and an attempt is left: the run is then queued, and
-- the delay of its backoff is answered. Otherwise the run is failed. Either way its lease is given up
-- and its attempts stay as they are.
pub fail_or_retry-IsDisposed :
    (run worker : ℕ) (code : String) (retryable : Bool) (incurred : Option Settlement)
    (reported : Option Suppression) (now : ℕ) (db : Db) (r : Run)
    → lock_run run worker db.core ≡ some r
    → is_some r.cancel_requested_at ≡ false
    → Ensures
        (IsDisposed r db.catalog retryable reported)
        (fail_or_retry run worker code retryable incurred reported now db)
unfolding fail_or_retry fail_or_retry_locked requeue_locked fail_locked commit
fail_or_retry-IsDisposed run worker code retryable incurred reported now db r held wanted =
    let suppression = effective_suppression reported r.id db.catalog in
    let Disposed = IsDisposed r db.catalog retryable reported in
    let found = (lock_run-IsHeld run worker db.core r held).found in
    elim (Bool-cases (may_retry r retryable suppression)) [
      | inl m ↦
          rw (held, fail_or_retry)
            (rw (wanted, fail_or_retry_locked, m)
              (Ensures-then Disposed
                (requeue_journal (requeue_core r code incurred now db.core) r code incurred
                  db.journal)
                _
                (λ j. inl (
                  refl,
                  may_retry-IsRetried r db.catalog retryable reported m,
                  ap (λ (n : ℕ). some n) (retry_delay-backoff_seconds r.backoff r.attempts).0,
                  requeue_core-IsLeft r code incurred now db.core found,
                ))))
      | inr m ↦
          let shown = shown_suppression retryable suppression in
          rw (held, fail_or_retry)
            (rw (wanted, fail_or_retry_locked, m)
              (Ensures-then Disposed
                (fail_journal (fail_core r code shown incurred now db.core) db.catalog r code shown
                  incurred now db.journal)
                _
                (λ j. inr (
                  refl,
                  λ q. cc (m, IsRetried-may_retry r db.catalog retryable reported q),
                  fail_core-IsLeft r code shown incurred now db.core found,
                ))))
    ]

-- The attempts below `k` all end in a serialization failure.
abbrev pub FailsBelow {ℓ} : {A : Type ℓ} → ℕ → (ℕ → Attempt A) → Type ℓ
FailsBelow k operation =
    (j : ℕ) → j < k → (code : String) × (operation j ≡ serialization_failure code)

abbrev pub is_serialization_failure {ℓ} : {A : Type ℓ} → Attempt A → Bool
is_serialization_failure (serialization_failure code) = true
is_serialization_failure (done a) = false
is_serialization_failure (other_error code) = false

-- What an attempt that is not repeated comes to.
abbrev pub outcome {ℓ} : {A : Type ℓ} → Attempt A → Result A
outcome (done a) = ok a
outcome (serialization_failure code) = err code
outcome (other_error code) = err code

retry_from-again {ℓ} :
    {A : Type ℓ} (left i : ℕ) (operation : ℕ → Attempt A)
    → ((code : String) × (operation i ≡ serialization_failure code))
    → i < 3
    → retry_from (suc left) i operation ≡ retry_from left (suc i) operation
unfolding retry_from
retry_from-again left i operation (code, e) h = rw (e, retry_from) (ground arith)

retry_from-decides {ℓ} :
    {A : Type ℓ} (left i : ℕ) (operation : ℕ → Attempt A)
    → (i ≡ 3) ⊎ (is_serialization_failure (operation i) ≡ false)
    → retry_from (suc left) i operation ≡ outcome (operation i)
unfolding retry_from
retry_from-decides left i operation h = step (operation i) refl
  where
    step :
        (a : Attempt _)
        → operation i ≡ a
        → retry_from (suc left) i operation ≡ outcome (operation i)
    step (done a) e = rw (e, retry_from) refl
    step (other_error code) e = rw (e, retry_from) refl
    step (serialization_failure code) e =
        rw (e, retry_from)
          (ground (arith, subst (λ a. (i ≡ 3) ⊎ (is_serialization_failure a ≡ false)) e h))

-- If the attempts before the `k`-th all end in a serialization failure, and the `k`-th does not or
-- is the fourth and last, then the transaction ends as that attempt does.
pub with_serializable_transaction-outcome {ℓ} :
    {A : Type ℓ} (operation : ℕ → Attempt A) (k : ℕ)
    → k < 4
    → FailsBelow k operation
    → (k ≡ 3) ⊎ (is_serialization_failure (operation k) ≡ false)
    → with_serializable_transaction operation ≡ outcome (operation k)
unfolding with_serializable_transaction
with_serializable_transaction-outcome operation zero h fails d = retry_from-decides 3 0 operation d
with_serializable_transaction-outcome operation (suc zero) h fails d =
    retry_from-again 3 0 operation (fails 0 (omega arith)) (omega arith)
    ∙ retry_from-decides 2 1 operation d
with_serializable_transaction-outcome operation (suc (suc zero)) h fails d =
    retry_from-again 3 0 operation (fails 0 (omega arith)) (omega arith)
    ∙ retry_from-again 2 1 operation (fails 1 (omega arith)) (omega arith)
    ∙ retry_from-decides 1 2 operation d
with_serializable_transaction-outcome operation (suc (suc (suc zero))) h fails d =
    retry_from-again 3 0 operation (fails 0 (omega arith)) (omega arith)
    ∙ retry_from-again 2 1 operation (fails 1 (omega arith)) (omega arith)
    ∙ retry_from-again 1 2 operation (fails 2 (omega arith)) (omega arith)
    ∙ retry_from-decides 0 3 operation d
with_serializable_transaction-outcome operation (suc (suc (suc (suc k)))) h fails d =
    absurd (omega arith)
