-- ===== src/Worker/Runs.antt =====
-- What the worker store (apps/worker/src/store.ts) keeps of every run: its attempts within their
-- limit, and a lease exactly while it runs. Keys stay distinct.
use agent_builder.Common.{
  ℕ, ◌≤◌, ◌<◌, ◌≡◌, refl, String, true, false, Option, none, some, is_some, All, All-find_row,
  All-update_row, Distinct, Distinct-update_row, find_row-update_row, ==_refl, arith,
}
use agent_builder.Worker.Model.{
  Run, Grant, Core, Catalog, Settlement, Suppression, is_running, is_queued,
}
use agent_builder.Worker.Journal.{find_run}
use agent_builder.Worker.Grants.{update_run, settle_grant, release_reservation}
use agent_builder.Worker.Cancel.{cancel_run, cancel_core}
use agent_builder.Worker.Complete.{succeed_run, publish_core}
use agent_builder.Worker.Failure.{
  pause_run, pause_core, requeue_run, requeue_core, fail_run, fail_core,
}
use agent_builder.Worker.Recover.{recovered_run, recover_core}
use agent_builder.Worker.Claim.{send_back, pause_for_budget, start_run, start_core}
use agent_builder.Worker.Heartbeat.{renew}

pub record IsSound (r : Run) : Type 0 where
  pub left : is_queued r.state ≡ true → r.attempts < r.max_attempts
  pub within : r.attempts ≤ r.max_attempts
  pub leased : is_running r.state ≡ true → is_some r.lease_owner ≡ true
  pub free : is_running r.state ≡ false → r.lease_owner ≡ none

pub record HasSoundRuns (c : Core) : Type 0 where
  pub keyed : Distinct (λ r. r.id) c.runs
  pub sound : All IsSound c.runs

-- Grants do not matter to the runs.
pub settle_grant-runs :
    (grant : Option ℕ) (amount : ℕ) (s : Option Settlement) (c : Core)
    → (settle_grant grant amount s c).runs ≡ c.runs
unfolding settle_grant
settle_grant-runs grant amount none c = ground arith
settle_grant-runs grant amount (some s) c = ground arith

pub release_reservation-runs :
    (grant : Option ℕ) (amount : ℕ) (c : Core) → (release_reservation grant amount c).runs ≡ c.runs
unfolding release_reservation
release_reservation-runs grant amount c = ground arith

-- The row of a run that is written and then settled.
pub settled-find_run :
    (c : Core) (r : Run) (f : Run → Run) (amount : ℕ) (s : Option Settlement)
    → find_run r.id c.runs ≡ some r
    → ((x : Run) → (f x).id ≡ x.id)
    → find_run r.id (settle_grant r.grant amount s (update_run r.id f c)).runs ≡ some (f r)
unfolding update_run
settled-find_run c r f amount s found keeps =
    rw (settle_grant-runs r.grant amount s (update_run r.id f c)) (
      rw (find_row-update_row (λ x. x.id) r.id r.id f c.runs keeps)
        (ground (arith, found, ==_refl r.id)))

-- A row that is rewritten soundly under its key keeps the table sound.
pub update_run-HasSoundRuns :
    (c : Core) (f : Run → Run) (r : Run)
    → find_run r.id c.runs ≡ some r
    → ((x : Run) → (f x).id ≡ x.id)
    → IsSound (f r)
    → HasSoundRuns c
    → HasSoundRuns (update_run r.id f c)
unfolding update_run
update_run-HasSoundRuns c f r found keeps good h = record {
  keyed = Distinct-update_row (λ x. x.id) r.id f c.runs keeps h.keyed;
  sound = All-update_row IsSound (λ x. x.id) r.id f c.runs r h.sound found good;
}

same_runs : (c d : Core) → d.runs ≡ c.runs → HasSoundRuns c → HasSoundRuns d
same_runs c d e h = record { keyed = rw e h.keyed; sound = rw e h.sound }

module _ (c : Core) (r : Run) (found : find_run r.id c.runs ≡ some r) (h : HasSoundRuns c) where
  row-IsSound : IsSound r
  row-IsSound = All-find_row IsSound (λ x. x.id) r.id c.runs r h.sound found

  settled_run :
      (f : Run → Run) (s : Option Settlement)
      → ((x : Run) → (f x).id ≡ x.id)
      → IsSound (f r)
      → HasSoundRuns (settle_grant r.grant r.upper_cost s (update_run r.id f c))
  settled_run f s keeps good =
      same_runs (update_run r.id f c) _
        (settle_grant-runs r.grant r.upper_cost s (update_run r.id f c))
        (update_run-HasSoundRuns c f r found keeps good h)

  pub cancel_core-HasSoundRuns :
      (s : Option Settlement) (now : ℕ) → HasSoundRuns (cancel_core r s now c)
  unfolding cancel_core
  cancel_core-HasSoundRuns s now =
      settled_run (cancel_run s now) s (λ x. refl) (ground (arith, row-IsSound))

  pub pause_core-HasSoundRuns :
      (code : String) (s : Option Settlement) (now : ℕ) → HasSoundRuns (pause_core r code s now c)
  unfolding pause_core
  pause_core-HasSoundRuns code s now =
      settled_run (pause_run code s now) s (λ x. refl) (ground (arith, row-IsSound))

  pub requeue_core-HasSoundRuns :
      (code : String) (s : Option Settlement) (now : ℕ)
      → r.attempts < r.max_attempts
      → HasSoundRuns (requeue_core r code s now c)
  unfolding requeue_core
  requeue_core-HasSoundRuns code s now left =
      settled_run (requeue_run code s now) s (λ x. refl) (ground (arith, row-IsSound))

  pub fail_core-HasSoundRuns :
      (code : String) (p : Option Suppression) (s : Option Settlement) (now : ℕ)
      → HasSoundRuns (fail_core r code p s now c)
  unfolding fail_core
  fail_core-HasSoundRuns code p s now =
      settled_run (fail_run code p s now) s (λ x. refl) (ground (arith, row-IsSound))

  pub publish_core-HasSoundRuns :
      (g : Grant) (s : Settlement) (now : ℕ) → HasSoundRuns (publish_core r g s now c)
  unfolding publish_core
  publish_core-HasSoundRuns g s now = same_runs (update_run r.id (succeed_run s now) c) _ refl (
      update_run-HasSoundRuns c (succeed_run s now) r found (λ x. refl)
        (ground (arith, row-IsSound)) h)

  pub recover_core-HasSoundRuns :
      (catalog : Catalog) (now : ℕ) → HasSoundRuns (recover_core catalog now r c)
  unfolding recover_core recovered_run
  recover_core-HasSoundRuns catalog now =
      same_runs (update_run r.id (recovered_run catalog now) c) _
        (release_reservation-runs r.grant r.upper_cost
          (update_run r.id (recovered_run catalog now) c))
        (update_run-HasSoundRuns c (recovered_run catalog now) r found (λ x. ground arith)
          (ground (arith, row-IsSound)) h)

  pub start_core-HasSoundRuns :
      (g : Grant) (worker lease_ms now : ℕ)
      → is_queued r.state ≡ true
      → HasSoundRuns (start_core worker lease_ms now r g c)
  unfolding start_core
  start_core-HasSoundRuns g worker lease_ms now waits =
      same_runs (update_run r.id (start_run worker lease_ms now) c) _ refl (
        update_run-HasSoundRuns c (start_run worker lease_ms now) r found (λ x. refl)
          (ground
            (arith, (All-find_row IsSound (λ x. x.id) r.id c.runs r h.sound found).left waits))
          h)

  pub renew-HasSoundRuns :
      (lease_ms now : ℕ) → HasSoundRuns (update_run r.id (renew lease_ms now) c)
  unfolding renew
  renew-HasSoundRuns lease_ms now =
      update_run-HasSoundRuns c (renew lease_ms now) r found (λ x. refl)
        (ground (arith, All-find_row IsSound (λ x. x.id) r.id c.runs r h.sound found)) h

  pub send_back-HasSoundRuns :
      (reason : String) (now : ℕ)
      → is_queued r.state ≡ true
      → HasSoundRuns (update_run r.id (send_back reason now) c)
  unfolding send_back
  send_back-HasSoundRuns reason now waits =
      update_run-HasSoundRuns c (send_back reason now) r found (λ x. refl)
        (ground (arith, All-find_row IsSound (λ x. x.id) r.id c.runs r h.sound found)) h

  pub pause_for_budget-HasSoundRuns :
      (now : ℕ) → is_queued r.state ≡ true → HasSoundRuns (update_run r.id (pause_for_budget now) c)
  unfolding pause_for_budget
  pause_for_budget-HasSoundRuns now waits =
      update_run-HasSoundRuns c (pause_for_budget now) r found (λ x. refl)
        (ground (arith, All-find_row IsSound (λ x. x.id) r.id c.runs r h.sound found)) h
