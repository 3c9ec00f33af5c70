-- ===== src/Worker/Grants.antt =====
-- The cost ledger of an authority grant (apps/worker/src/store.ts): releasing a reservation,
-- reconciling an incurred cost, and the samples that an unpublished attempt leaves.
use agent_builder.Common.{
  ℕ, ◌+◌, ◌-◌, ltb, leb, String, Bool, false, ◌||◌, List, [], ◌∷◌, ◌++◌, Option, none, some, Result,
  ok, err, if◌then◌else◌, find_row, update_row,
}
use agent_builder.Worker.Json.{Fields, end, field, num, bool, str}
use agent_builder.Worker.Model.{
  Run, ProviderKind, deterministic, anthropic, gateway, Grant, GrantState, active, exhausted, Core,
  Journal, MetricSample, Settlement,
}
use agent_builder.Worker.Journal.{find_run}

abbrev pub find_grant : ℕ → List Grant → Option Grant
find_grant = find_row (λ g. g.id)

-- `WHERE "id" = ${grantId}`: no row where the column is null.
abbrev pub find_grant_of : Option ℕ → List Grant → Option Grant
find_grant_of none gs = none
find_grant_of (some id) gs = find_grant id gs

unfoldable pub update_run : ℕ → (Run → Run) → Core → Core
update_run id f c = record c { runs = update_row (λ r. r.id) id f c.runs }

unfoldable pub update_grant : ℕ → (Grant → Grant) → Core → Core
update_grant id f c = record c { grants = update_row (λ g. g.id) id f c.grants }

-- An active or exhausted grant is exhausted exactly when its runs or its budget are used up.
unfoldable pub reassess : Bool → GrantState → GrantState
reassess done active = if done then exhausted else active
reassess done exhausted = if done then exhausted else active
reassess done s = s

abbrev pub is_used_up : Grant → ℕ → ℕ → Bool
is_used_up g spent reserved = leb g.max_runs g.used_runs || leb g.total_budget (spent + reserved)

-- A grant with its spent and reserved costs rewritten, and its state reassessed.
unfoldable pub settled : ℕ → ℕ → Grant → Grant
unfolding reassess
settled spent reserved g = record g {
  spent = spent;
  reserved = reserved;
  state = reassess (is_used_up g spent reserved) g.state;
}

-- The grant of a column is read under a lock and rewritten; nothing is done where it is missing.
unfoldable pub on_grant : Option ℕ → (Grant → Grant) → Core → Core
unfolding update_grant
on_grant grant k c = elim (find_grant_of grant c.grants) [
  | none ↦ c
  | some g ↦ update_grant g.id k c
]

-- `Math.max(0, reserved - amount)` is the truncated difference.
unfoldable pub release_reservation : Option ℕ → ℕ → Core → Core
unfolding settled on_grant
release_reservation grant amount c = on_grant grant (λ x. settled x.spent (x.reserved - amount) x) c

unfoldable pub reconcile_incurred_cost : Option ℕ → ℕ → Settlement → Core → Core
unfolding settled on_grant
reconcile_incurred_cost grant amount incurred c =
    on_grant grant (λ x. settled (x.spent + incurred.actual_cost) (x.reserved - amount) x) c

abbrev pub or_zero : Option ℕ → ℕ
or_zero none = 0
or_zero (some n) = n

abbrev pub sample : Run → String → ℕ → String → Fields → MetricSample
sample r name value unit metadata = record {
  workspace = r.workspace;
  department = r.department;
  run = r.id;
  name = name;
  value = value;
  unit = unit;
  metadata = metadata;
}

abbrev pub plugin_sample : Run → Settlement → Fields → List MetricSample
plugin_sample r s metadata =
    if ltb 0 (or_zero s.plugin_cost)
    then sample r "plugin.cost" (or_zero s.plugin_cost) "usd" metadata ∷ []
    else []

abbrev unpublished : ℕ → Fields
unpublished attempt = field "attempt" (num attempt) (field "outcomePublished" (bool false) end)

abbrev pub kind_name : ProviderKind → String
kind_name deterministic = "deterministic"
kind_name anthropic = "anthropic"
kind_name gateway = "gateway"

-- The samples of an attempt whose outcome was not published.
unfoldable pub attempt_samples : Run → ℕ → Settlement → List MetricSample
attempt_samples r attempt s =
    sample r "model.input_tokens" s.usage.input_tokens "tokens" (unpublished attempt)
    ∷ sample r "model.output_tokens" s.usage.output_tokens "tokens" (unpublished attempt)
    ∷ sample r "model.cost" (s.actual_cost - or_zero s.plugin_cost) "usd" (
        field "attempt" (num attempt) (
          field "pricingVersion" (num s.pricing_version) (
            field "providerKind" (str (kind_name s.provider_kind)) (
              field "providerVersion" (num s.provider_version)
                (field "model" (num s.model) (field "outcomePublished" (bool false) end))))))
    ∷ (plugin_sample r s (unpublished attempt)
        ++ sample r "run.latency" s.latency_ms "ms" (unpublished attempt) ∷ [])

-- The effect of `settleAttempt` on the grant.
unfoldable pub settle_grant : Option ℕ → ℕ → Option Settlement → Core → Core
unfolding release_reservation reconcile_incurred_cost
settle_grant grant amount none c = release_reservation grant amount c
settle_grant grant amount (some incurred) c = reconcile_incurred_cost grant amount incurred c

-- The effect of `settleAttempt` on the samples.
unfoldable pub settle_samples : Core → ℕ → ℕ → Option Settlement → Journal → Result Journal
unfolding attempt_samples
settle_samples core run attempt none j = ok j
settle_samples core run attempt (some incurred) j = elim (find_run run core.runs) [
  | none ↦ err "EXECUTION_RUN_MISSING_FOR_METRICS"
  | some r ↦ ok (record j { metrics = attempt_samples r attempt incurred ++ j.metrics })
]
