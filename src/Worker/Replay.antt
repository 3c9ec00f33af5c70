-- ===== src/Worker/Replay.antt =====
-- The engine and the store together (apps/worker/src/engine.ts, apps/worker/src/store.ts): an
-- attempt that called a Plugin is not made again.
use agent_builder.Common.{
  ℕ, ◌≡◌, ◌⊎◌, sym, subst, mem, inl, inr, Bool, true, false, Option, none, some, String, Result, ok,
  err, Ensures, is_some, All, All-map,
}
use agent_builder.Worker.Model.{Run, RunState, Settlement, Suppression, ClaimedRun, Catalog, Db}
use agent_builder.Worker.Cancel.{lock_run}
use agent_builder.Worker.Failure.{Disposition, failed, fail_or_retry}
use agent_builder.Worker.Outcomes.{lock_run-IsHeld}
use agent_builder.Worker.Outcomes.Failure.{IsRetried}
use agent_builder.Worker.Engine.{Progress, Pricing, Provider, World}
use agent_builder.Worker.Execute.{Action, fails, completes, cancels, pauses, try_execute, execute}
use agent_builder.Worker.Settling.{IsGuarded, execute-IsGuarded}
use agent_builder.Worker.Retries.{IsLeft, IsDisposed, fail_or_retry-IsDisposed}

Ensures-map {ℓ κ ν} :
    {A : Type ℓ} (P : A → Type κ) (Q : A → Type ν) (m : Result A)
    → ((a : A) → P a → Q a)
    → Ensures P m
    → Ensures Q m
Ensures-map P Q (ok a) f h = f a h
Ensures-map P Q (err e) f h = tt

is_some_ne {ℓ} : {A : Type ℓ} {a : A} (o : Option A) → o ≡ some a → o ≡ none → ⊥
is_some_ne none e q = cc
is_some_ne (some b) e q = cc

-- A Plugin was called in the attempt: the engine noted it when its plan came back, or an invocation of
-- the run is on file.
abbrev pub HasInvoked : Progress → ℕ → Catalog → Type 0
HasInvoked p run catalog = (p.plugin_started ≡ true) ⊎ (mem run catalog.plugin_invocations ≡ true)

-- A guarded failure after a Plugin call is not one that is retried.
guarded-not-IsRetried :
    (p : Progress) (r : Run) (catalog : Catalog) (code : String) (retryable : Bool)
    (incurred : Option Settlement) (reported : Option Suppression)
    → HasInvoked p r.id catalog
    → IsGuarded p (fails code retryable incurred reported)
    → ¬ IsRetried r catalog retryable reported
guarded-not-IsRetried p r catalog code retryable incurred reported (inr filed) g q =
    absurd (clash filed q.uninvoked)
  where
    clash :
        mem r.id catalog.plugin_invocations ≡ true → mem r.id catalog.plugin_invocations ≡ false → ⊥
    clash a b = cc
guarded-not-IsRetried p r catalog code true incurred reported (inl started) g q =
    absurd (is_some_ne reported (g started) q.reported_none)
guarded-not-IsRetried p r catalog code false incurred reported (inl started) g q =
    absurd (off q.wanted)
  where
    off : false ≡ true → ⊥
    off e = cc

-- The run has failed, in the answer and in its row.
abbrev pub HasFailed : Run → Disposition × Db → Type 0
HasFailed r (d, after) = (d.state ≡ failed) × IsLeft r RunState.failed after.core

-- A failure that is reported after a Plugin call fails the run.
fail_or_retry-not_replayed :
    (p : Progress) (run worker : ℕ) (code : String) (retryable : Bool)
    (incurred : Option Settlement) (reported : Option Suppression) (now : ℕ) (db : Db) (r : Run)
    → HasInvoked p run db.catalog
    → IsGuarded p (fails code retryable incurred reported)
    → lock_run run worker db.core ≡ some r
    → is_some r.cancel_requested_at ≡ false
    → Ensures (HasFailed r) (fail_or_retry run worker code retryable incurred reported now db)
fail_or_retry-not_replayed p run worker code retryable incurred reported now db r invoked g held
      wanted =
    let named = (lock_run-IsHeld run worker db.core r held).named in
    let invoked_there = subst (λ i. HasInvoked p i db.catalog) (sym named) invoked in
    Ensures-map (IsDisposed r db.catalog retryable reported) (HasFailed r)
      (fail_or_retry run worker code retryable incurred reported now db)
      (λ d disposed. elim disposed [
        | inl (s, q, delay, left) ↦ absurd (
            guarded-not-IsRetried p r db.catalog code retryable incurred reported invoked_there g q)
        | inr (s, q, left) ↦ (s, left)
      ])
      (fail_or_retry-IsDisposed run worker code retryable incurred reported now db r held wanted)

-- What the store makes of an action: a failure is not followed by another attempt.
abbrev pub IsFinal : ℕ → ℕ → ℕ → Db → Run → Action → Type 0
IsFinal run worker now db r (fails code retryable incurred reported) =
    Ensures (HasFailed r) (fail_or_retry run worker code retryable incurred reported now db)
IsFinal run worker now db r _ = Unit

guarded-IsFinal :
    (p : Progress) (run worker now : ℕ) (db : Db) (r : Run)
    → HasInvoked p run db.catalog
    → lock_run run worker db.core ≡ some r
    → is_some r.cancel_requested_at ≡ false
    → (a : Action) → IsGuarded p a
    → IsFinal run worker now db r a
guarded-IsFinal p run worker now db r invoked held wanted (fails code retryable incurred reported)
      g =
    fail_or_retry-not_replayed p run worker code retryable incurred reported now db r invoked g held
      wanted
guarded-IsFinal p run worker now db r invoked held wanted (completes result) g = tt
guarded-IsFinal p run worker now db r invoked held wanted (cancels incurred) g = tt
guarded-IsFinal p run worker now db r invoked held wanted (pauses code incurred) g = tt

-- If an invocation of the run is on file, or the engine noted that its plan of Plugin calls came back
-- with a call made, and the worker holds the run and nobody cancelled it, then any failure that the
-- engine reports makes the store fail the run, unless the store throws: the run's row is failed and
-- free of its lease, and does not go back to the queue.
pub execute-IsFinal :
    (run : ClaimedRun) (provider : Provider) (pricing : Pricing) (w : World) (worker now : ℕ)
    (db : Db) (r : Run)
    → HasInvoked (try_execute run provider pricing w).0 run.id db.catalog
    → lock_run run.id worker db.core ≡ some r
    → is_some r.cancel_requested_at ≡ false
    → All (IsFinal run.id worker now db r) (execute run provider pricing w)
execute-IsFinal run provider pricing w worker now db r invoked held wanted =
    let p = (try_execute run provider pricing w).0 in
    All-map (IsGuarded p) (IsFinal run.id worker now db r) (execute run provider pricing w)
      (guarded-IsFinal p run.id worker now db r invoked held wanted)
      (execute-IsGuarded run provider pricing w)
