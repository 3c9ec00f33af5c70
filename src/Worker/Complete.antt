-- ===== src/Worker/Complete.antt =====
-- `complete`, `lockProductionChannel` and the checks of a production epoch
-- (apps/worker/src/store.ts).
use agent_builder.Common.{
  ℕ, ◌+◌, ◌-◌, ltb, leb, String, Bool, true, false, not, ◌&&◌, ◌||◌, List, [], ◌∷◌, ◌++◌, Option,
  none, some, Result, ok, err, ◌>>=◌, ◌==◌, opt_eq, if◌then◌else◌, find_first, is_some, any,
}
use agent_builder.Worker.Json.{Fields, end, field, num, bool, str}
use agent_builder.Worker.Model.{
  Run, succeeded, Grant, GrantState, ProviderKind, Core, Journal, Catalog, Db, Channel,
  MetricSample, Settlement, BriefOutput, CompletedRun, ClaimedRun, is_deterministic,
}
use agent_builder.Worker.Journal.{
  append_run_event, append_platform_event, append_audit, record_digest_delivery, delivery_made,
}
use agent_builder.Worker.Grants.{
  find_grant_of, update_run, update_grant, settled, or_zero, sample, plugin_sample, kind_name,
}
use agent_builder.Worker.Cancel.{lock_run, leave, update_step, commit, cancel_within}

-- `key = projectId ?? 'default'`; the name 'default' is the number 0.
abbrev pub channel_key : Option ℕ → ℕ
channel_key none = 0
channel_key (some project) = project

-- The first row with the key; the query does not name the workspace.
unfoldable pub lock_production_channel : Option ℕ → List Channel → Option Channel
lock_production_channel project channels = find_first (λ c. c.key == channel_key project) channels

-- `!developmentDraft || providerKind !== 'deterministic'`.
abbrev pub production_required : Bool → ProviderKind → Bool
production_required draft kind = not draft || not (is_deterministic kind)

abbrev pub current_release_of : Option Channel → Option ℕ
current_release_of none = none
current_release_of (some c) = c.current_release

abbrev pub promoted_at_of : Option Channel → Option ℕ
promoted_at_of none = none
promoted_at_of (some c) = c.promoted_at

-- The channel still names the release, and the epoch in which the run was claimed.
unfoldable pub epoch_current : Option Channel → ℕ → Option ℕ → Bool
epoch_current channel release epoch =
    opt_eq (current_release_of channel) (some release)
    && (is_some epoch && opt_eq (promoted_at_of channel) epoch)

abbrev pub is_withdrawn : GrantState → Bool
is_withdrawn GrantState.revoked = true
is_withdrawn GrantState.expired = true
is_withdrawn _ = false

abbrev pub out_of_window : Grant → ℕ → Bool
out_of_window g now = ltb now g.valid_from || leb g.valid_until now

-- What `complete` decides after its reads, in the order of its checks.
pub data Completion : Type 0 where
  lost abandon : Completion
  refuse : String → Completion
  publish : Run → Grant → Completion

-- The authority that the claim relied on is gone.
unfoldable pub authority_withdrawn : Catalog → ClaimedRun → Run → Grant → ℕ → Bool
unfolding lock_production_channel epoch_current
authority_withdrawn catalog run r g now =
    is_withdrawn g.state
    || (not (g.context_digest == run.context_digest)
        || (out_of_window g now
            || (production_required r.development_draft r.provider_kind
                && not (
                    epoch_current (lock_production_channel r.project catalog.channels) r.release
                      run.production_epoch))))

-- `spent + reserved > total + Number.EPSILON`: the epsilon is far below a unit of cost.
unfoldable pub over_budget : Run → Grant → Settlement → Bool
over_budget r g s = ltb g.total_budget (g.spent + s.actual_cost + (g.reserved - r.upper_cost))

unfoldable pub decide_grant :
    Catalog → ClaimedRun → Run → Option Grant → Settlement → ℕ → Completion
unfolding authority_withdrawn over_budget
decide_grant catalog run r none s now = refuse "AUTHORITY_GRANT_MISSING_AT_COMPLETION"
decide_grant catalog run r (some g) s now =
    if authority_withdrawn catalog run r g now
    then abandon
    else if over_budget r g s
    then refuse "AUTHORITY_COST_BUDGET_EXCEEDED_AT_COMPLETION"
    else publish r g

unfoldable pub decide_locked : Db → ClaimedRun → Run → Settlement → ℕ → Completion
unfolding decide_grant
decide_locked db run r s now =
    if is_some r.cancel_requested_at
    then abandon
    else if ltb run.max_cost s.actual_cost || ltb run.upper_cost s.actual_cost
    then refuse "MODEL_COST_EXCEEDED_RESERVED_BUDGET"
    else decide_grant db.catalog run r (find_grant_of run.grant db.core.grants) s now

unfoldable pub decide_completion : Db → ClaimedRun → ℕ → Settlement → ℕ → Completion
unfolding lock_run decide_locked
decide_completion db run worker s now = elim (lock_run run.id worker db.core) [
  | none ↦ lost
  | some r ↦ decide_locked db run r s now
]

unfoldable pub succeed_run : Settlement → ℕ → Run → Run
succeed_run s now r = record (leave succeeded "Completed" (some s) now r) {
  progress = 100;
  finished_at = some now;
}

unfoldable pub publish_core : Run → Grant → Settlement → ℕ → Core → Core
unfolding succeed_run update_run update_grant settled
publish_core r g s now c =
    update_grant g.id (λ x. settled (x.spent + s.actual_cost) (x.reserved - r.upper_cost) x)
      (update_run r.id (succeed_run s now) c)

unfoldable pub published_samples : Run → CompletedRun → List MetricSample
published_samples r result =
    let s = result.settlement in
    sample r "model.input_tokens" s.usage.input_tokens "tokens" end
    ∷ sample r "model.output_tokens" s.usage.output_tokens "tokens" end
    ∷ sample r "model.cost" (s.actual_cost - or_zero s.plugin_cost) "usd"
        (field "pricingVersion" (num s.pricing_version) end)
    ∷ (plugin_sample r s end
        ++ sample r "run.latency" s.latency_ms "ms" end
          ∷ sample r "outcome.quality" result.quality_score "ratio" end
          ∷ [])

-- `outcomeRecord.create`; the run is a unique key.
unfoldable pub add_outcome : ℕ → CompletedRun → Journal → Result Journal
add_outcome run result j =
    if any (λ o. o.run == run) j.outcomes
    then err "P2002"
    else ok (record j {
      outcomes =
          record {
            run = run;
            output = result.output.content;
            confidence = result.output.confidence;
            citations = result.output.citations;
            unresolved_items = result.output.unresolved_items;
            quality_score = result.quality_score;
          }
          ∷ j.outcomes;
    })

abbrev provider_fields : Settlement → Fields → Fields
provider_fields s rest =
    field "providerKind" (str (kind_name s.provider_kind))
      (field "providerVersion" (num s.provider_version) (field "model" (num s.model) rest))

unfoldable pub publish_journal : Core → Catalog → Run → CompletedRun → ℕ → Journal → Result Journal
unfolding add_outcome published_samples update_step append_audit append_run_event
    append_platform_event record_digest_delivery
publish_journal core catalog r result now j = do
  let s = result.settlement
  recorded ← add_outcome r.id result j
  let sampled = record recorded { metrics = published_samples r result ++ recorded.metrics }
  stepped ←
      update_step r.id "succeeded" (field "outcomeRecorded" (bool true) (provider_fields s end))
        sampled
  let audited =
      append_audit "execution.succeeded" r
        (provider_fields s (field "pricingVersion" (num s.pricing_version) end)) stepped
  logged ←
      append_run_event core r.id
        (record {
          phase = "outcome";
          state = "succeeded";
          message = "The run produced and recorded a validated outcome.";
          duration_ms = some s.latency_ms;
          cost = some s.actual_cost;
          metadata = provider_fields s end;
        })
        audited
  announced ←
      append_platform_event core r.id "execution.succeeded"
        (field "costUsd" (num s.actual_cost) (
          field "latencyMs" (num s.latency_ms)
            (field "qualityScore" (num result.quality_score) end)))
        logged
  record_digest_delivery core catalog r.id delivery_made now announced

unfoldable pub publish_locked : Run → Grant → CompletedRun → ℕ → Db → Result (Bool × Db)
unfolding publish_core publish_journal commit
publish_locked r g result now db =
    let core = publish_core r g result.settlement now db.core in
    commit true core (publish_journal core db.catalog r result now db.journal) db

-- `cancelWithinTransaction(...)`, then `return false`.
unfoldable pub abandon_run : ClaimedRun → ℕ → Settlement → ℕ → Db → Result (Bool × Db)
unfolding cancel_within
abandon_run run worker s now db = do
  (held, after) ← cancel_within run.id worker (some s) now db
  ok (false, after)

unfoldable pub carry_out : Completion → ClaimedRun → ℕ → CompletedRun → ℕ → Db → Result (Bool × Db)
unfolding abandon_run publish_locked
carry_out lost run worker result now db = ok (false, db)
carry_out abandon run worker result now db = abandon_run run worker result.settlement now db
carry_out (refuse code) run worker result now db = err code
carry_out (publish r g) run worker result now db = publish_locked r g result now db

-- `complete`; `accepts` is the validation of the output by `dailyBriefOutputSchema`.
unfoldable pub complete :
    (BriefOutput → Bool) → ClaimedRun → ℕ → CompletedRun → ℕ → Db → Result (Bool × Db)
unfolding decide_completion carry_out
complete accepts run worker result now db =
    if accepts result.output
    then carry_out (decide_completion db run worker result.settlement now) run worker result now db
    else err "ZodError"
