-- ===== src/Worker/Authority.antt =====
-- What a started run rests on (`claimNext` in apps/worker/src/store.ts), and that a revoked grant
-- stays revoked.
use agent_builder.Common.{
  ℕ, ◌+◌, ◌≤◌, ◌<◌, ◌≡◌, ◌≢◌, refl, inl, inr, ◌⊎◌, Bool, true, false, Option, none, some, Ensures,
  Ensures-then, opt_eq, Option-cases, arith,
}
use agent_builder.Worker.Json.{satisfies_constraints}
use agent_builder.Worker.Model.{Run, Grant, active, exhausted, Db, ClaimedRun}
use agent_builder.Worker.Grants.{find_grant_of, update_run}
use agent_builder.Worker.Cancel.{commit}
use agent_builder.Worker.Complete.{
  production_required, current_release_of, promoted_at_of, lock_production_channel,
}
use agent_builder.Worker.Requirements.{requirements_of}
use agent_builder.Worker.Candidate.{
  next_candidate, Standing, standing_of, unusable_grant, scope_invalid, per_run_limit_exceeded,
  grant_covers, tools_covered, plugin_approved, plugin_approval_satisfied, epoch_approved,
  release_project,
}
use agent_builder.Worker.Claim.{
  decide_claim, carry_out_claim, claim_next, is_unauthorized, send_back, pause_for_budget,
  start_core, send_back_journal, pause_budget_journal, start_journal, to_claimed_run,
}
use agent_builder.Worker.Outcomes.Claim.{IsStarted, decide_claim-start, ClaimVerdict-cases}

-- The authority of a run that is started.
pub record IsAuthorized (now : ℕ) (db : Db) (r : Run) (g : Grant) : Type 0 where
  pub usable : (g.state ≡ active) ⊎ ((g.state ≡ exhausted) × (r.attempts ≢ 0))
  pub valid : (g.valid_from ≤ now) × (now < g.valid_until)
  pub runs_left : r.attempts ≡ 0 → g.used_runs < g.max_runs
  pub same_context : g.context_digest ≡ r.context_digest
  pub allowed : satisfies_constraints g.input_constraints r.input ≡ true
  pub tools : tools_covered (requirements_of db.catalog r.release r.entry_version) r g ≡ true
  pub affordable : r.upper_cost ≤ g.max_per_run
  pub decided : r.requires_plugin_approval ≡ true → plugin_approved r db.journal.approvals ≡ true
  pub production :
      production_required r.development_draft r.provider_kind ≡ true
      → let channel =
          lock_production_channel (release_project r db.catalog.releases) db.catalog.channels in
        (opt_eq (current_release_of channel) (some r.release) ≡ true)
        × (epoch_approved db r (promoted_at_of channel) ≡ true)

unusable-usable :
    (now : ℕ) (r : Run) (g : Grant)
    → unusable_grant now r (some g) ≡ false
    → ((g.state ≡ active) ⊎ ((g.state ≡ exhausted) × (r.attempts ≢ 0)))
      × ((g.valid_from ≤ now) × (now < g.valid_until))
      × (r.attempts ≡ 0 → g.used_runs < g.max_runs)
unfolding unusable_grant
unusable-usable now r g h = (ground arith, (ground arith, ground arith), λ e. ground arith)

-- The parts of a scope that is not invalid.
scope-parts :
    (db : Db) (s : Standing) (r : Run) (g : Grant)
    → scope_invalid db s r (some g) ≡ false
    → (s.plugin_approved ≡ true)
      × (s.current_release ≡ true)
      × (s.epoch_approved ≡ true)
      × (grant_covers s.requirements r g ≡ true)
unfolding scope_invalid
scope-parts db s r g h = (ground arith, ground arith, ground arith, ground arith)

covers-parts :
    (db : Db) (r : Run) (g : Grant)
    → grant_covers (requirements_of db.catalog r.release r.entry_version) r g ≡ true
    → (g.context_digest ≡ r.context_digest)
      × (satisfies_constraints g.input_constraints r.input ≡ true)
      × (tools_covered (requirements_of db.catalog r.release r.entry_version) r g ≡ true)
unfolding grant_covers
covers-parts db r g h = (ground arith, ground arith, ground arith)

standing-parts :
    (db : Db) (r : Run)
    → (standing_of db r).plugin_approved ≡ true
    → (standing_of db r).current_release ≡ true
    → (standing_of db r).epoch_approved ≡ true
    → (r.requires_plugin_approval ≡ true → plugin_approved r db.journal.approvals ≡ true)
      × (production_required r.development_draft r.provider_kind ≡ true
          → let channel =
              lock_production_channel (release_project r db.catalog.releases) db.catalog.channels in
            (opt_eq (current_release_of channel) (some r.release) ≡ true)
            × (epoch_approved db r (promoted_at_of channel) ≡ true))
unfolding standing_of plugin_approval_satisfied
standing-parts db r a b c = (λ q. ground arith, λ p. (parts p).0 b c)
  where
    parts :
        production_required r.development_draft r.provider_kind ≡ true
        → ((standing_of db r).current_release ≡ true
            → (standing_of db r).epoch_approved ≡ true
            → let channel =
                lock_production_channel
                  (release_project r db.catalog.releases)
                  db.catalog.channels in
              (opt_eq (current_release_of channel) (some r.release) ≡ true)
              × (epoch_approved db r (promoted_at_of channel) ≡ true))
          × Unit {0}
    parts p = (λ b c. (rw (p, standing_of) at b, rw (p, standing_of) at c), tt)

pub IsStarted-IsAuthorized :
    (now : ℕ) (db : Db) (r : Run) (g : Grant) → IsStarted now db r g → IsAuthorized now db r g
unfolding is_unauthorized per_run_limit_exceeded requirements_of standing_of
IsStarted-IsAuthorized now db r g started =
    let (usable, valid, runs) = unusable-usable now r g (ground (arith, started.authorized)) in
    let (human, current, epoch, covers) =
      scope-parts db (standing_of db r) r g (ground (arith, started.authorized)) in
    let (context, allowed, tools) = covers-parts db r g covers in
    let (decided, production) = standing-parts db r human current epoch in
    record {
      usable = usable;
      valid = valid;
      runs_left = runs;
      same_context = context;
      allowed = allowed;
      tools = tools;
      affordable = ground (arith, started.authorized);
      decided = decided;
      production = production;
    }

-- What a claim that starts a run says of it.
abbrev pub Starts : ℕ → (ℕ → Bool) → Db → Option ClaimedRun → Type 0
Starts now locked db none = Unit
Starts now locked db (some run) =
    (r : Run) × (g : Grant) × (next_candidate locked now db.catalog.releases db.core.runs ≡ some r)
    × (find_grant_of r.grant db.core.grants ≡ some g)
    × IsAuthorized now db r g
    × (g.spent + g.reserved + r.upper_cost ≤ g.total_budget)
    × (run.id ≡ r.id)

-- If a claim hands a run to a worker, the run is the candidate of the queue and its grant on file
-- covers it: the grant is active (or exhausted by an earlier attempt of this run), inside its
-- window, with runs and budget left, its constraints hold of the input, the tools agree, a Plugin
-- call that needs a human decision has one, and a production run is of the channel's current
-- release with its epoch approved.
pub claim_next-IsAuthorized :
    (locked : ℕ → Bool) (worker lease_ms now : ℕ) (db : Db)
    → Ensures (λ p. Starts now locked db p.0) (claim_next locked worker lease_ms now db)
unfolding claim_next carry_out_claim commit to_claimed_run
claim_next-IsAuthorized locked worker lease_ms now db =
    elim (Option-cases (next_candidate locked now db.catalog.releases db.core.runs)) [
      | inl e ↦ rw (e, claim_next) tt
      | inr (r, e) ↦ elim (ClaimVerdict-cases (decide_claim now db r)) [
        | inl (reason, v) ↦
            rw (e, claim_next, v, carry_out_claim)
              (Ensures-then (λ p. Starts now locked db p.0)
                (send_back_journal (update_run r.id (send_back reason now) db.core) r reason
                  db.journal)
                _ (λ j. tt))
        | inr (inl v) ↦
            rw (e, claim_next, v, carry_out_claim)
              (Ensures-then (λ p. Starts now locked db p.0)
                (pause_budget_journal (update_run r.id (pause_for_budget now) db.core) r db.journal)
                _ (λ j. tt))
        | inr (inr (g, v)) ↦
            let started = decide_claim-start now db r g v in
            rw (e, claim_next, v, carry_out_claim)
              (Ensures-then (λ p. Starts now locked db p.0)
                (start_journal (start_core worker lease_ms now r g db.core) worker r db.journal) _
                (λ j. (
                  r,
                  g,
                  e,
                  started.granted,
                  IsStarted-IsAuthorized now db r g started,
                  started.funded,
                  refl,
                )))
      ]
    ]
