-- ===== src/Worker/Ledger/Operations.antt =====
-- Each rewriting of runs and grants in the worker store (apps/worker/src/store.ts) keeps the cost
-- ledger balanced.
use agent_builder.Common.{
  ℕ, ◌≡◌, refl, subst, inl, inr, String, true, false, Option, none, some, Option-cases,
  find_row-key, arith,
}
use agent_builder.Worker.Model.{
  Run, Grant, Core, Settlement, Suppression, is_running, is_queued, Catalog,
}
use agent_builder.Worker.Journal.{find_run}
use agent_builder.Worker.Grants.{find_grant, find_grant_of, update_run, settle_grant}
use agent_builder.Worker.Cancel.{cancel_run, cancel_core}
use agent_builder.Worker.Complete.{succeed_run, publish_core}
use agent_builder.Worker.Failure.{
  pause_run, pause_core, requeue_run, requeue_core, fail_run, fail_core,
}
use agent_builder.Worker.Recover.{recovered_run, recover_core}
use agent_builder.Worker.Claim.{start_run, reserve, start_core}
use agent_builder.Worker.Heartbeat.{renew}
use agent_builder.Worker.Ledger.{
  IsBalanced, leave-IsBalanced, update_run-IsBalanced, move-IsBalanced, on_grant-of,
}

-- A held run that stops is settled, with or without an incurred cost.
settle-IsBalanced :
    (c : Core) (f : Run → Run) (r : Run) (incurred : Option Settlement)
    → find_run r.id c.runs ≡ some r
    → is_running r.state ≡ true
    → is_running (f r).state ≡ false
    → IsBalanced c
    → IsBalanced (settle_grant r.grant r.upper_cost incurred (update_run r.id f c))
unfolding settle_grant
settle-IsBalanced c f r none found runs left b =
    leave-IsBalanced c f _ r found runs left (λ x. refl) (λ x. refl) b
settle-IsBalanced c f r (some s) found runs left b =
    leave-IsBalanced c f _ r found runs left (λ x. refl) (λ x. refl) b

module _ (c : Core) (r : Run) (found : find_run r.id c.runs ≡ some r)
    (runs : is_running r.state ≡ true) (b : IsBalanced c) where
  pub cancel_core-IsBalanced :
      (s : Option Settlement) (now : ℕ) → IsBalanced (cancel_core r s now c)
  unfolding cancel_core
  cancel_core-IsBalanced s now = settle-IsBalanced c (cancel_run s now) r s found runs refl b

  pub pause_core-IsBalanced :
      (code : String) (s : Option Settlement) (now : ℕ) → IsBalanced (pause_core r code s now c)
  unfolding pause_core
  pause_core-IsBalanced code s now =
      settle-IsBalanced c (pause_run code s now) r s found runs refl b

  pub requeue_core-IsBalanced :
      (code : String) (s : Option Settlement) (now : ℕ) → IsBalanced (requeue_core r code s now c)
  unfolding requeue_core
  requeue_core-IsBalanced code s now =
      settle-IsBalanced c (requeue_run code s now) r s found runs refl b

  pub fail_core-IsBalanced :
      (code : String) (p : Option Suppression) (s : Option Settlement) (now : ℕ)
      → IsBalanced (fail_core r code p s now c)
  unfolding fail_core
  fail_core-IsBalanced code p s now =
      settle-IsBalanced c (fail_run code p s now) r s found runs refl b

  pub recover_core-IsBalanced :
      (catalog : Catalog) (now : ℕ) → IsBalanced (recover_core catalog now r c)
  unfolding recover_core
  recover_core-IsBalanced catalog now =
      leave-IsBalanced c (recovered_run catalog now) _ r found runs (ground arith) (λ x. refl)
        (λ x. refl) b

  -- The grant that is charged is the one that the run holds.
  pub publish_core-IsBalanced :
      (g : Grant) (s : Settlement) (now : ℕ)
      → find_grant_of r.grant c.grants ≡ some g
      → IsBalanced (publish_core r g s now c)
  unfolding publish_core update_run
  publish_core-IsBalanced g s now granted =
      subst IsBalanced (on_grant-of r.grant _ (update_run r.id (succeed_run s now) c) g granted)
        (leave-IsBalanced c (succeed_run s now) _ r found runs refl (λ x. refl) (λ x. refl) b)

-- A queued run holds nothing, so it may be rewritten while it does not run.
pub queued-IsBalanced :
    (c : Core) (f : Run → Run) (r : Run)
    → find_run r.id c.runs ≡ some r
    → is_queued r.state ≡ true
    → is_running (f r).state ≡ false
    → IsBalanced c
    → IsBalanced (update_run r.id f c)
queued-IsBalanced c f r found waits left b =
    update_run-IsBalanced c r.id f r found (λ g row h. ground arith) b

-- Starting a run reserves what it may cost, and holds it.
pub start_core-IsBalanced :
    (c : Core) (r : Run) (g : Grant) (worker lease_ms now : ℕ)
    → find_run r.id c.runs ≡ some r
    → is_queued r.state ≡ true
    → find_grant_of r.grant c.grants ≡ some g
    → IsBalanced c
    → IsBalanced (start_core worker lease_ms now r g c)
unfolding start_core reserve start_run
start_core-IsBalanced c r g worker lease_ms now found waits granted b =
    elim (Option-cases r.grant) [
      | inl e ↦ absurd (ground arith)
      | inr (gid, e) ↦
          let at : find_grant gid c.grants ≡ some g = ground arith in
          move-IsBalanced c r.id g.id (start_run worker lease_ms now) (reserve r) r found
            (λ x. refl) (λ row h k. ground (arith, find_row-key (λ x. x.id) gid c.grants g at))
            (λ j n. ground (arith, find_row-key (λ x. x.id) gid c.grants g at)) b
    ]

-- A heartbeat changes the lease alone.
pub renew-IsBalanced :
    (c : Core) (r : Run) (lease_ms now : ℕ)
    → find_run r.id c.runs ≡ some r
    → IsBalanced c
    → IsBalanced (update_run r.id (renew lease_ms now) c)
unfolding renew
renew-IsBalanced c r lease_ms now found b =
    update_run-IsBalanced c r.id (renew lease_ms now) r found (λ g row h. refl) b
