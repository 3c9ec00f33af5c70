-- ===== src/Worker/Budget.antt =====
-- The budget of a grant (apps/worker/src/store.ts): what is spent and reserved stays within the
-- total, and a grant is active only while it has runs and budget left.
pub mod Calls
use agent_builder.Common.{
  ℕ, ◌+◌, ◌-◌, ◌≤◌, ◌<◌, ◌≡◌, refl, sym, subst, ap, inl, inr, Bool, true, false, leb, String, List,
  Option, none, some, some_inj, All, All-find_row, All-update_row, Distinct, find_row, update_row,
  find_row-key, Option-cases, arith,
}
use agent_builder.Worker.Model.{
  Run, Grant, GrantState, active, revoked, exhausted, expired, Core, Db, Settlement, Catalog,
  Suppression, ClaimedRun, CompletedRun, BriefOutput, is_running, is_queued,
}
use agent_builder.Worker.Journal.{find_run}
use agent_builder.Worker.Grants.{
  find_grant, find_grant_of, update_run, update_grant, on_grant, settled, reassess, settle_grant,
  release_reservation, reconcile_incurred_cost,
}
use agent_builder.Worker.Complete.{publish_core}
use agent_builder.Worker.Recover.{recovered_run, recover_core}
use agent_builder.Worker.Claim.{reserve, start_core}
use agent_builder.Worker.Ledger.{IsBalanced, held_of-le}

-- A grant in order: its budget covers what is spent and reserved, and while it is active it has
-- both runs and budget left.
pub record IsFunded (g : Grant) : Type 0 where
  pub covered : g.spent + g.reserved ≤ g.total_budget
  pub runs_left : g.state ≡ active → g.used_runs < g.max_runs
  pub budget_left : g.state ≡ active → g.spent + g.reserved < g.total_budget

abbrev pub HasFunds : Core → Type 0
HasFunds c = All IsFunded c.grants

settled-IsFunded :
    (g : Grant) (spent reserved : ℕ)
    → spent + reserved ≤ g.total_budget
    → IsFunded (settled spent reserved g)
unfolding settled
settled-IsFunded g spent reserved h = ground arith

reserve-IsFunded :
    (r : Run) (g : Grant)
    → IsFunded g
    → g.spent + g.reserved + r.upper_cost ≤ g.total_budget
    → IsFunded (reserve r g)
unfolding reserve
reserve-IsFunded r g h funded = ground arith

-- Rewriting the grant of a column, or none.
on_grant-HasFunds :
    (grant : Option ℕ) (k : Grant → Grant) (c : Core)
    → ((g : Grant) → find_grant_of grant c.grants ≡ some g → IsFunded g → IsFunded (k g))
    → HasFunds c
    → HasFunds (on_grant grant k c)
unfolding on_grant update_grant
on_grant-HasFunds none k c keeps h = h
on_grant-HasFunds (some id) k c keeps h = elim (Option-cases (find_grant id c.grants)) [
  | inl missing ↦ rw (missing, on_grant) h
  | inr (g, at) ↦
      let named : g.id ≡ id = find_row-key (λ x. x.id) id c.grants g at in
      rw (at, on_grant, named)
        (All-update_row IsFunded (λ x. x.id) id k c.grants g h at
          (keeps g at (All-find_row IsFunded (λ x. x.id) id c.grants g h at)))
]

-- The incurred cost of an attempt keeps to the estimate that was reserved for it.
abbrev pub WithinEstimate : Option Settlement → Run → Type 0
WithinEstimate none r = Unit
WithinEstimate (some s) r = s.actual_cost ≤ r.upper_cost

-- A running run holds part of what its grant has reserved.
upper_cost-le-reserved :
    (c : Core) (r : Run) (g : Grant)
    → find_run r.id c.runs ≡ some r
    → is_running r.state ≡ true
    → find_grant_of r.grant c.grants ≡ some g
    → IsBalanced c
    → r.upper_cost ≤ g.reserved
upper_cost-le-reserved c r g found runs granted b = elim (Option-cases r.grant) [
  | inl e ↦ absurd (ground arith)
  | inr (gid, e) ↦
      let at : find_grant gid c.grants ≡ some g = ground arith in
      ground (arith, b gid g at, held_of-le gid r.id c.runs r found)
]

-- Settling an attempt keeps the grants in order, if its cost keeps to the estimate.
pub settle_grant-HasFunds :
    (c : Core) (f : Run → Run) (r : Run) (s : Option Settlement)
    → find_run r.id c.runs ≡ some r
    → is_running r.state ≡ true
    → WithinEstimate s r
    → IsBalanced c
    → HasFunds c
    → HasFunds (settle_grant r.grant r.upper_cost s (update_run r.id f c))
unfolding settle_grant update_run
settle_grant-HasFunds c f r none found runs e b h =
    on_grant-HasFunds r.grant _ (update_run r.id f c)
      (λ g at k. settled-IsFunded g g.spent (g.reserved - r.upper_cost) (omega (arith, k.covered)))
      h
settle_grant-HasFunds c f r (some s) found runs e b h =
    on_grant-HasFunds r.grant _ (update_run r.id f c)
      (λ g at k.
        settled-IsFunded g (g.spent + s.actual_cost) (g.reserved - r.upper_cost)
          (omega (arith, k.covered, e, upper_cost-le-reserved c r g found runs at b)))
      h

pub recover_core-HasFunds :
    (catalog : Catalog) (now : ℕ) (c : Core) (r : Run)
    → HasFunds c
    → HasFunds (recover_core catalog now r c)
unfolding recover_core release_reservation update_run
recover_core-HasFunds catalog now c r h =
    on_grant-HasFunds r.grant _ (update_run r.id (recovered_run catalog now) c)
      (λ g at k. settled-IsFunded g g.spent (g.reserved - r.upper_cost) (omega (arith, k.covered)))
      h

-- A grant that is read through a column is on file under its own key.
pub find_grant_of-id :
    (grant : Option ℕ) (gs : List Grant) (g : Grant)
    → find_grant_of grant gs ≡ some g
    → find_grant g.id gs ≡ some g
find_grant_of-id none gs g e = absurd (ground arith)
find_grant_of-id (some id) gs g e =
    subst (λ i. find_grant i gs ≡ some g) (sym (find_row-key (λ x. x.id) id gs g e)) e

pub start_core-HasFunds :
    (c : Core) (r : Run) (g : Grant) (worker lease_ms now : ℕ)
    → find_grant_of r.grant c.grants ≡ some g
    → g.spent + g.reserved + r.upper_cost ≤ g.total_budget
    → HasFunds c
    → HasFunds (start_core worker lease_ms now r g c)
unfolding start_core update_grant update_run
start_core-HasFunds c r g worker lease_ms now granted funded h =
    let at = find_grant_of-id r.grant c.grants g granted in
    All-update_row IsFunded (λ x. x.id) g.id (reserve r) c.grants g h at
      (reserve-IsFunded r g (All-find_row IsFunded (λ x. x.id) g.id c.grants g h at) funded)

pub publish_core-HasFunds :
    (c : Core) (grant : Option ℕ) (r : Run) (g : Grant) (s : Settlement) (now : ℕ)
    → find_grant_of grant c.grants ≡ some g
    → g.spent + s.actual_cost + (g.reserved - r.upper_cost) ≤ g.total_budget
    → HasFunds c
    → HasFunds (publish_core r g s now c)
unfolding publish_core update_grant update_run
publish_core-HasFunds c grant r g s now granted funded h =
    All-update_row IsFunded (λ x. x.id) g.id _ c.grants g h
      (find_grant_of-id grant c.grants g granted)
      (settled-IsFunded g (g.spent + s.actual_cost) (g.reserved - r.upper_cost) funded)
