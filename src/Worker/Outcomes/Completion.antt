-- ===== src/Worker/Outcomes/Completion.antt =====
-- The branches of `complete` (apps/worker/src/store.ts) as a rule.
use agent_builder.Common.{
  ℕ, ◌+◌, ◌-◌, ◌≤◌, ◌≡◌, refl, subst, ◌⊎◌, inl, inr, String, Bool, false, Option, none, some,
  Option-cases, Bool-cases, arith,
}
use agent_builder.Worker.Model.{
  Run, Grant, Core, Catalog, Db, Settlement, ClaimedRun, CompletedRun, BriefOutput,
}
use agent_builder.Worker.Grants.{find_grant_of}
use agent_builder.Worker.Cancel.{lock_run, cancel_core, cancel_within}
use agent_builder.Worker.Complete.{
  Completion, lost, abandon, refuse, publish, decide_completion, decide_locked, decide_grant,
  publish_core, publish_locked, abandon_run, carry_out, complete, over_budget,
}
use agent_builder.Worker.Outcomes.{
  CoreEnsures, IsHeld, lock_run-IsHeld, commit_core, cancel_within_core, answer_core,
}

-- The decision to publish: the worker holds the run, no cancellation was asked for, the cost keeps
-- to both of its bounds, and the grant on file covers it.
pub record IsPublishable (db : Db) (run : ClaimedRun) (worker : ℕ) (s : Settlement) (r : Run)
    (g : Grant) : Type 0 where
  pub held : IsHeld run.id worker db.core r
  pub wanted : r.cancel_requested_at ≡ none
  pub granted : find_grant_of run.grant db.core.grants ≡ some g
  pub capped : s.actual_cost ≤ run.max_cost
  pub estimated : s.actual_cost ≤ run.upper_cost
  pub funded : g.spent + s.actual_cost + (g.reserved - r.upper_cost) ≤ g.total_budget

decide_grant-publish :
    (catalog : Catalog) (run : ClaimedRun) (x r : Run) (grant : Option Grant) (g : Grant)
    (s : Settlement) (now : ℕ)
    → decide_grant catalog run x grant s now ≡ publish r g
    → (x ≡ r)
      × (grant ≡ some g)
      × (g.spent + s.actual_cost + (g.reserved - r.upper_cost) ≤ g.total_budget)
unfolding decide_grant over_budget
decide_grant-publish catalog run x r none g s now h = cc
decide_grant-publish catalog run x r (some y) g s now h = ground arith

decide_locked-publish :
    (db : Db) (run : ClaimedRun) (x r : Run) (g : Grant) (s : Settlement) (now : ℕ)
    → decide_locked db run x s now ≡ publish r g
    → (x.cancel_requested_at ≡ none)
      × (s.actual_cost ≤ run.max_cost)
      × (s.actual_cost ≤ run.upper_cost)
      × (decide_grant db.catalog run x (find_grant_of run.grant db.core.grants) s now ≡ publish r g)
unfolding decide_locked
decide_locked-publish db run x r g s now h = ground arith

pub decide_completion-publish :
    (db : Db) (run : ClaimedRun) (worker : ℕ) (s : Settlement) (now : ℕ) (r : Run) (g : Grant)
    → decide_completion db run worker s now ≡ publish r g
    → IsPublishable db run worker s r g
unfolding decide_completion
decide_completion-publish db run worker s now r g h =
    elim (Option-cases (lock_run run.id worker db.core)) [
      | inl e ↦ absurd (ground arith)
      | inr (x, e) ↦
          let (wanted, capped, estimated, rest) =
            decide_locked-publish db run x r g s now (ground arith) in
          let (same, granted, funded) = decide_grant-publish db.catalog run x r _ g s now rest in
          record {
            held =
                subst (IsHeld run.id worker db.core) same
                  (lock_run-IsHeld run.id worker db.core x e);
            wanted = subst (λ (y : Run). y.cancel_requested_at ≡ none) same wanted;
            granted = granted;
            capped = capped;
            estimated = estimated;
            funded = funded;
          }
    ]

Completion-cases :
    (v : Completion)
    → (v ≡ lost)
      ⊎ (v ≡ abandon)
      ⊎ ((code : String) × (v ≡ refuse code))
      ⊎ ((r : Run) × (g : Grant) × (v ≡ publish r g))
Completion-cases lost = inl refl
Completion-cases abandon = inr (inl refl)
Completion-cases (refuse code) = inr (inr (inl (code, refl)))
Completion-cases (publish r g) = inr (inr (inr (r, g, refl)))

pub complete_core {κ} :
    (P : Core → Type κ) (accepts : BriefOutput → Bool) (run : ClaimedRun) (worker : ℕ)
    (result : CompletedRun) (now : ℕ) (db : Db)
    → P db.core
    → ((r : Run)
        → IsHeld run.id worker db.core r
        → P (cancel_core r (some result.settlement) now db.core))
    → ((r : Run) (g : Grant)
        → IsPublishable db run worker result.settlement r g
        → P (publish_core r g result.settlement now db.core))
    → CoreEnsures P (complete accepts run worker result now db)
unfolding complete carry_out abandon_run publish_locked
complete_core P accepts run worker result now db same cancels publishes =
    elim (Bool-cases (accepts result.output)) [
      | inr no_output ↦ rw (no_output, complete) tt
      | inl accepted ↦
          elim (Completion-cases (decide_completion db run worker result.settlement now)) [
            | inl e ↦ rw (accepted, e, complete, carry_out) same
            | inr (inl e) ↦
                rw (accepted, e, complete, carry_out)
                  (answer_core {B = Bool} P
                    (cancel_within run.id worker (some result.settlement) now db) false
                    (cancel_within_core P run.id worker (some result.settlement) now db same
                      cancels))
            | inr (inr (inl (code, e))) ↦ rw (accepted, e, complete, carry_out) tt
            | inr (inr (inr (r, g, e))) ↦
                rw (accepted, e, complete, carry_out)
                  (commit_core P _ _ _ db
                    (publishes r g (decide_completion-publish db run worker _ now r g e)))
          ]
    ]
