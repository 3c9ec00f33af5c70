-- ===== src/Worker/Calls.antt =====
-- The calls that workers make of the store (WorkerStore in apps/worker/src/types.ts), and the
-- database after a sequence of them. Each call is one transaction: if it throws, it is rolled back.
use agent_builder.Common.{ℕ, ◌≡◌, String, Bool, List, [], ◌∷◌, Option, Result, ok, err}
use agent_builder.Worker.Model.{
  Run, Core, Db, Settlement, Suppression, ClaimedRun, CompletedRun, BriefOutput,
}
use agent_builder.Worker.Cancel.{cancel_claimed}
use agent_builder.Worker.Complete.{complete}
use agent_builder.Worker.Failure.{pause_for_plugin, fail_or_retry}
use agent_builder.Worker.Recover.{recover_expired_leases}
use agent_builder.Worker.Claim.{claim_next}
use agent_builder.Worker.Heartbeat.{heartbeat}
use agent_builder.Worker.Outcomes.{CoreEnsures, IsHeld}

-- The last argument of each call is the time.
pub data Call : Type 0 where
  recovers : (ℕ → Bool) → ℕ → Call
  claims : (ℕ → Bool) → ℕ → ℕ → ℕ → Call
  beats : ℕ → ℕ → ℕ → Option ℕ → ℕ → Call
  completes : (BriefOutput → Bool) → ClaimedRun → ℕ → CompletedRun → ℕ → Call
  cancels : ℕ → ℕ → Option Settlement → ℕ → Call
  pauses : ℕ → ℕ → String → Option Settlement → ℕ → Call
  fails : ℕ → ℕ → String → Bool → Option Settlement → Option Suppression → ℕ → Call

-- What a transaction leaves.
abbrev pub settled_db {ℓ} : {A : Type ℓ} → Result (A × Db) → Db → Db
settled_db (ok r) db = r.1
settled_db (err e) db = db

unfoldable pub after : Call → Db → Db
after (recovers locked now) db = settled_db (recover_expired_leases locked now db) db
after (claims locked worker lease_ms now) db =
    settled_db (claim_next locked worker lease_ms now db) db
after (beats run worker lease_ms epoch now) db =
    settled_db (heartbeat run worker lease_ms epoch now db) db
after (completes accepts run worker result now) db =
    settled_db (complete accepts run worker result now db) db
after (cancels run worker incurred now) db =
    settled_db (cancel_claimed run worker incurred now db) db
after (pauses run worker code incurred now) db =
    settled_db (pause_for_plugin run worker code incurred now db) db
after (fails run worker code retryable incurred reported now) db =
    settled_db (fail_or_retry run worker code retryable incurred reported now db) db

unfoldable pub after_all : List Call → Db → Db
unfolding after
after_all [] db = db
after_all (c ∷ cs) db = after_all cs (after c db)

-- A completion reports the claim under which the worker holds the run: the grant is the run's.
abbrev pub IsGenuine : Call → Core → Type 0
IsGenuine (completes accepts run worker result now) c =
    (r : Run) → IsHeld run.id worker c r → r.grant ≡ run.grant
IsGenuine _ c = Unit

-- Each call of a sequence is genuine when it is made.
abbrev pub AllGenuine : List Call → Db → Type 0
AllGenuine [] db = Unit
AllGenuine (c ∷ cs) db = IsGenuine c db.core × AllGenuine cs (after c db)

-- The worker that makes a call; any worker recovers leases, and does not name itself.
abbrev pub IsBy : ℕ → Call → Type 0
IsBy w (recovers locked now) = Unit
IsBy w (claims locked worker lease_ms now) = worker ≡ w
IsBy w (beats run worker lease_ms epoch now) = worker ≡ w
IsBy w (completes accepts run worker result now) = worker ≡ w
IsBy w (cancels run worker incurred now) = worker ≡ w
IsBy w (pauses run worker code incurred now) = worker ≡ w
IsBy w (fails run worker code retryable incurred reported now) = worker ≡ w

-- What holds before a transaction, and after it if it commits, holds of what it leaves.
pub settled_core {ℓ κ} :
    {A : Type ℓ} (P : Core → Type κ) (m : Result (A × Db)) (db : Db)
    → P db.core
    → CoreEnsures P m
    → P (settled_db m db).core
settled_core P (ok r) db h k = k
settled_core P (err e) db h k = h
