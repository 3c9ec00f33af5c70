-- ===== src/Worker/Outcomes.antt =====
-- What each operation of the worker store can make of the core of the database, as rules: to show
-- a predicate of every result, show it of each branch. The journal never matters to them.
pub mod Completion
pub mod Failure
pub mod Claim
pub mod Recover
pub mod Heartbeat
use agent_builder.Common.{
  ℕ, Bool, true, false, ◌≡◌, refl, inl, inr, Option, none, some, Result, ok, err, ◌>>=◌, Ensures,
  Ensures-then, find_row-key, Option-cases, arith,
}
use agent_builder.Worker.Model.{Run, Core, Journal, Db, Settlement, is_running}
use agent_builder.Worker.Journal.{find_run}
use agent_builder.Worker.Cancel.{lock_run, cancel_core, commit, cancel_locked, cancel_within}

-- A predicate of the core that a transaction leaves, if it commits.
abbrev pub CoreEnsures {ℓ κ} : {A : Type ℓ} → (Core → Type κ) → Result (A × Db) → Type κ
CoreEnsures P m = Ensures (λ r. P r.1.core) m

-- The worker holds the row: it is running, under the worker's lease.
pub record IsHeld (run worker : ℕ) (c : Core) (r : Run) : Type 0 where
  pub found : find_run r.id c.runs ≡ some r
  pub named : r.id ≡ run
  pub runs : is_running r.state ≡ true
  pub owner : r.lease_owner ≡ some worker

pub lock_run-IsHeld :
    (run worker : ℕ) (c : Core) (r : Run) → lock_run run worker c ≡ some r → IsHeld run worker c r
unfolding lock_run
lock_run-IsHeld run worker c r h = ground (arith, find_row-key (λ x. x.id) run c.runs r)

pub commit_core {ℓ κ} :
    {A : Type ℓ} (P : Core → Type κ) (a : A) (core : Core) (written : Result Journal) (db : Db)
    → P core
    → CoreEnsures P (commit a core written db)
unfolding commit
commit_core P a core written db h = Ensures-then _ written _ (λ j. h)

pub cancel_within_core {κ} :
    (P : Core → Type κ) (run worker : ℕ) (incurred : Option Settlement) (now : ℕ) (db : Db)
    → P db.core
    → ((r : Run) → IsHeld run worker db.core r → P (cancel_core r incurred now db.core))
    → CoreEnsures P (cancel_within run worker incurred now db)
unfolding cancel_within cancel_locked
cancel_within_core P run worker incurred now db same cancels =
    elim (Option-cases (lock_run run worker db.core)) [
      | inl e ↦ rw (e, cancel_within) same
      | inr (r, e) ↦
          rw (e, cancel_within)
            (commit_core P _ _ _ db (cancels r (lock_run-IsHeld run worker db.core r e)))
    ]

-- A transaction that answers otherwise leaves the same core.
pub answer_core {κ} :
    {A B : Type 0} (P : Core → Type κ) (m : Result (A × Db)) (b : B)
    → CoreEnsures P m
    → CoreEnsures {A = B} P (m >>= (λ x. ok (b, x.1)))
answer_core P (ok x) b h = h
answer_core P (err e) b h = tt
