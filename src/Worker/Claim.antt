-- ===== src/Worker/Claim.antt =====
-- The second half of `claimNext` (apps/worker/src/store.ts): the candidate goes back for approval,
-- is paused for its budget, or is started under a lease.
use agent_builder.Common.{
  ℕ, ◌+◌, ltb, leb, String, Bool, not, ◌&&◌, ◌||◌, List, [], ◌∷◌, Option, none, some, Result, ok,
  ◌==◌, if◌then◌else◌, find_row, update_row, is_some,
}
use agent_builder.Worker.Json.{Fields, end, field, num, str}
use agent_builder.Worker.Model.{
  Run, awaiting_approval, paused_budget, running, Grant, GrantState, pending, Core, Journal, Db,
  Approval, ClaimedRun,
}
use agent_builder.Worker.Journal.{append_run_event, append_audit, system_actor}
use agent_builder.Worker.Grants.{update_run, update_grant}
use agent_builder.Worker.Cancel.{write_step, commit}
use agent_builder.Worker.Complete.{promoted_at_of}
use agent_builder.Worker.Candidate.{
  next_candidate, claim_grant, unusable_grant, Standing, standing_of, scope_invalid,
  per_run_limit_exceeded,
}

pub data ClaimVerdict : Type 0 where
  revalidate : String → ClaimVerdict
  pause : ClaimVerdict
  start : Grant → ClaimVerdict

abbrev grant_reason : Option Grant → String
grant_reason none = "Authority grant is unavailable, expired, or exhausted"
grant_reason (some g) = elim g.state [
  | GrantState.revoked ↦ "Authority grant was revoked"
  | _ ↦ "Authority grant is unavailable, expired, or exhausted"
]

unfoldable pub revalidation_reason : Db → Standing → Run → Option Grant → String
unfolding scope_invalid per_run_limit_exceeded
revalidation_reason db s r grant =
    if s.production && not s.current_release
    then "The queued release is no longer the current production release"
    else if s.production && not s.epoch_approved
    then "The first run of this production release epoch requires human approval"
    else if not s.plugin_approved
    then "An approval-required Plugin call needs a human decision for this run"
    else if scope_invalid db s r grant
    then "Authority grant does not cover the exact release input and tool scopes"
    else if per_run_limit_exceeded r grant
    then "Authority grant per-run cost ceiling is insufficient"
    else grant_reason grant

-- `estimatedUpperCostUsd > total - spent - reserved`, with the subtractions moved across.
unfoldable pub budget_insufficient : Run → Grant → Bool
budget_insufficient r g = ltb g.total_budget (g.spent + g.reserved + r.upper_cost)

unfoldable pub is_unauthorized : ℕ → Db → Standing → Run → Option Grant → Bool
unfolding unusable_grant scope_invalid per_run_limit_exceeded
is_unauthorized now db s r grant =
    unusable_grant now r grant || (scope_invalid db s r grant || per_run_limit_exceeded r grant)

unfoldable pub decide_grant_claim : ℕ → Db → Standing → Run → Option Grant → ClaimVerdict
decide_grant_claim now db s r none = revalidate (revalidation_reason db s r none)
decide_grant_claim now db s r (some g) =
    if is_unauthorized now db s r (some g)
    then revalidate (revalidation_reason db s r (some g))
    else if budget_insufficient r g
    then pause
    else start g

unfoldable pub decide_claim : ℕ → Db → Run → ClaimVerdict
unfolding decide_grant_claim standing_of claim_grant
decide_claim now db r =
    decide_grant_claim now db (standing_of db r) r (claim_grant r db.core.grants)

unfoldable pub send_back : String → ℕ → Run → Run
send_back reason now r = record r {
  state = awaiting_approval;
  grant = none;
  message = reason;
  approval_reasons = reason ∷ [];
  updated_at = now;
}

abbrev fresh_approval : ℕ → String → Approval
fresh_approval run reason = record {
  run = run;
  state = pending;
  request_version = 1;
  decision_group_key = none;
  decision_group_size = none;
  reasons = reason ∷ [];
  requested_by = system_actor;
  decided_by = none;
  rationale = none;
  decided_at = none;
}

-- `approvalRequest.upsert`: a request that exists is reopened under the next version.
unfoldable pub request_approval : ℕ → String → List Approval → List Approval
request_approval run reason approvals =
    if is_some (find_row (λ a. a.run) run approvals)
    then update_row (λ a. a.run) run
        (λ a. record (fresh_approval a.run reason) { request_version = a.request_version + 1 })
        approvals
    else fresh_approval run reason ∷ approvals

unfoldable pub send_back_journal : Core → Run → String → Journal → Result Journal
unfolding request_approval append_audit append_run_event
send_back_journal core r reason j = do
  let asked = record j { approvals = request_approval r.id reason j.approvals }
  let audited =
      append_audit "execution.authority_revalidation_failed" r (field "reason" (str reason) end)
        asked
  append_run_event core r.id
      (record {
        phase = "authority";
        state = "awaiting_approval";
        message = reason;
        duration_ms = none;
        cost = none;
        metadata = end;
      })
      audited

unfoldable pub pause_for_budget : ℕ → Run → Run
pause_for_budget now r = record r {
  state = paused_budget;
  message = "Paused because the authority cost budget is reserved or exhausted";
  approval_reasons = "Authority cost budget is insufficient" ∷ [];
  updated_at = now;
}

unfoldable pub pause_budget_journal : Core → Run → Journal → Result Journal
unfolding append_audit append_run_event
pause_budget_journal core r j = do
  let code = field "code" (str "AUTHORITY_COST_BUDGET_EXCEEDED") end
  append_run_event core r.id
      (record {
        phase = "budget";
        state = "paused";
        message = "The authority cost budget cannot cover this run.";
        duration_ms = none;
        cost = none;
        metadata = code;
      })
      (append_audit "execution.paused_budget" r code j)

unfoldable pub start_run : ℕ → ℕ → ℕ → Run → Run
start_run worker lease_ms now r = record r {
  state = running;
  message = "Executing";
  progress = 10;
  attempts = r.attempts + 1;
  lease_owner = some worker;
  lease_expires_at = some (now + lease_ms);
  heartbeat_at = some now;
  started_at = some now;
  error = none;
  updated_at = now;
}

abbrev pub first_run : Run → ℕ
first_run r = if r.attempts == 0 then 1 else 0

-- The grant with the run's upper cost reserved; it is exhausted where that uses it up.
unfoldable pub reserve : Run → Grant → Grant
reserve r g = record g {
  used_runs = g.used_runs + first_run r;
  reserved = g.reserved + r.upper_cost;
  state =
      if leb g.max_runs (g.used_runs + first_run r)
        || leb g.total_budget (g.spent + (g.reserved + r.upper_cost))
      then GrantState.exhausted
      else g.state;
}

unfoldable pub start_core : ℕ → ℕ → ℕ → Run → Grant → Core → Core
unfolding start_run reserve update_run update_grant
start_core worker lease_ms now r g c =
    update_grant g.id (reserve r) (update_run r.id (start_run worker lease_ms now) c)

-- `runStep.upsert`.
unfoldable pub open_step : ℕ → Fields → Journal → Journal
open_step run result j =
    if is_some (find_row (λ s. s.run) run j.steps)
    then write_step run "running" result j
    else record j { steps = record { run = run; state = "running"; result = result } ∷ j.steps }

unfoldable pub start_journal : Core → ℕ → Run → Journal → Result Journal
unfolding open_step append_audit append_run_event
start_journal core worker r j = do
  let attempt = field "attempt" (num (r.attempts + 1)) end
  let stepped = open_step r.id attempt j
  let audited = append_audit "execution.claimed" r (field "workerId" (num worker) attempt) stepped
  append_run_event core r.id
      (record {
        phase = "model-execution";
        state = "running";
        message = "The worker claimed the run and started model execution.";
        duration_ms = none;
        cost = none;
        metadata = field "workerId" (num worker) attempt;
      })
      audited

-- `toClaimedRun`.
unfoldable pub to_claimed_run : Run → Option ℕ → ClaimedRun
to_claimed_run r epoch = record {
  id = r.id;
  release = r.release;
  release_digest = r.release_digest;
  entry_version = r.entry_version;
  context_digest = r.context_digest;
  grant = r.grant;
  development_draft = r.development_draft;
  production_epoch = epoch;
  input = r.input;
  provider_kind = r.provider_kind;
  provider_version = r.provider_version;
  model = r.model;
  pricing_version = r.pricing_version;
  max_input_tokens = r.max_input_tokens;
  max_output_tokens = r.max_output_tokens;
  max_cost = r.max_cost;
  upper_cost = r.upper_cost;
  attempts = r.attempts + 1;
  max_attempts = r.max_attempts;
  backoff = r.backoff;
}

unfoldable pub carry_out_claim :
    ClaimVerdict → Run → ℕ → ℕ → ℕ → Db → Result (Option ClaimedRun × Db)
unfolding send_back pause_for_budget update_run start_core send_back_journal pause_budget_journal
    start_journal to_claimed_run standing_of commit
carry_out_claim (revalidate reason) r worker lease_ms now db =
    let core = update_run r.id (send_back reason now) db.core in
    commit none core (send_back_journal core r reason db.journal) db
carry_out_claim pause r worker lease_ms now db =
    let core = update_run r.id (pause_for_budget now) db.core in
    commit none core (pause_budget_journal core r db.journal) db
carry_out_claim (start g) r worker lease_ms now db =
    let core = start_core worker lease_ms now r g db.core in
    commit (some (to_claimed_run r (promoted_at_of (standing_of db r).channel))) core
      (start_journal core worker r db.journal) db

-- `claimNext`.
unfoldable pub claim_next : (ℕ → Bool) → ℕ → ℕ → ℕ → Db → Result (Option ClaimedRun × Db)
unfolding next_candidate decide_claim carry_out_claim
claim_next locked worker lease_ms now db =
    elim (next_candidate locked now db.catalog.releases db.core.runs) [
      | none ↦ ok (none, db)
      | some r ↦ carry_out_claim (decide_claim now db r) r worker lease_ms now db
    ]
