-- ===== src/Worker/Examples.antt =====
-- The store and the engine (apps/worker/src) on a small database: one run, its grant, and a release
-- with one skill.
use agent_builder.Common.{
  ℕ, ◌+◌, ◌*◌, inl, inr, ◌≡◌, ◌≤◌, refl, subst, Bool, true, false, List, [], ◌∷◌, none, some, All,
  Ensures, arith, find_row, find_row-single, sum_by, if◌then◌else◌, ◌==◌,
}
use agent_builder.Worker.Json.{end}
use agent_builder.Worker.Model.{
  Run, Grant, Db, Journal, Catalog, queued, running, active, revoked, deterministic, exponential,
  skill, named,
}
use agent_builder.Worker.Journal.{find_run}
use agent_builder.Worker.Cancel.{lock_run}
use agent_builder.Worker.Claim.{claim_next}
use agent_builder.Worker.Candidate.{next_candidate}
use agent_builder.Worker.Failure.{fail_or_retry, retry_delay_ms}
use agent_builder.Worker.Calls.{Call, claims, beats, cancels, fails, after, after_all}
use agent_builder.Worker.Ledger.{IsBalanced, reserved_by, held_of}
use agent_builder.Worker.Budget.{HasFunds}
use agent_builder.Worker.PluginPlan.{execute_plan, execute_calls}
use agent_builder.Worker.Execute.{
  assert_lease, assert_execution_snapshot, prepare, call_plugins, run_stream, run_model,
  try_execute, execute,
}
use agent_builder.Worker.Replay.{IsFinal, execute-IsFinal}
use agent_builder.Worker.EngineExamples.{claimed, provider, pricing, slow_world}
use agent_builder.Worker.Exclusion.{after-foreign}
use agent_builder.Worker.Budget.Calls.{after-HasFunds}
use agent_builder.Worker.Revocation.{AllRevoked, after-AllRevoked}
use agent_builder.Worker.Authority.{Starts, claim_next-IsAuthorized}
use agent_builder.Worker.Queue.{IsCandidateOf, next_candidate-IsFirst}
use agent_builder.Worker.Retries.{
  IsDisposed, fail_or_retry-IsDisposed, outcome, with_serializable_transaction-outcome,
  retry_delay-backoff_seconds,
}
use agent_builder.Worker.Heartbeat.{
  Attempt, done, serialization_failure, with_serializable_transaction,
}
use agent_builder.Worker.Candidate.{backoff_seconds}
use agent_builder.Worker.Invariant.{IsWellFormed, after_all-IsWellFormed}

abbrev queued_run : Run
queued_run = record {
  id = 1;
  workspace = 1;
  department = none;
  release = 3;
  entry_version = some 4;
  legacy_entrypoint_unresolved = false;
  release_digest = 30;
  context_digest = 40;
  project = some 6;
  grant = some 5;
  digest_snapshot = none;
  development_draft = true;
  requires_plugin_approval = false;
  required_tools = 8 ∷ [];
  input = end;
  provider_kind = deterministic;
  provider_version = 1;
  model = 1;
  pricing_version = 1;
  max_input_tokens = 1000;
  max_output_tokens = 1000;
  max_cost = 50;
  upper_cost = 40;
  actual_cost = none;
  attempts = 0;
  max_attempts = 3;
  backoff = exponential;
  state = queued;
  message = "Queued";
  progress = 0;
  approval_reasons = [];
  error = none;
  lease_owner = none;
  lease_expires_at = none;
  heartbeat_at = none;
  cancel_requested_at = none;
  started_at = none;
  finished_at = none;
  created_at = 100;
  updated_at = 100;
}

-- The run as worker 7 holds it.
abbrev running_run : Run
running_run = record queued_run {
  state = running;
  attempts = 1;
  lease_owner = some 7;
  lease_expires_at = some 61000;
}

abbrev idle_grant : Grant
idle_grant = record {
  id = 5;
  release = 3;
  release_digest = 30;
  entry_version = 4;
  context_digest = 40;
  project = some 6;
  state = active;
  valid_from = 0;
  valid_until = 1000000;
  spent = 0;
  reserved = 0;
  total_budget = 100;
  max_per_run = 50;
  used_runs = 0;
  max_runs = 2;
  input_constraints = end;
  tool_scopes = 8 ∷ [];
}

abbrev reserving_grant : Grant
reserving_grant = record idle_grant { reserved = 40; used_runs = 1 }

abbrev empty_journal : Journal
empty_journal = record {
  run_events = [];
  audit = [];
  platform_events = [];
  metrics = [];
  outcomes = [];
  steps = [];
  approvals = [];
  deliveries = [];
  cursors = [];
}

abbrev small_catalog : Catalog
small_catalog = record {
  releases = record { id = 3; digest = 30; project = some 6 } ∷ [];
  channels = [];
  resources = record { release = 3; version = 4; digest = 31 } ∷ [];
  versions = record { id = 4; digest = 31; definition = skill "daily-brief" (named 8 ∷ []) } ∷ [];
  pins = [];
  snapshots = [];
  plugin_invocations = [];
}

abbrev db_of : Run → Grant → Db
db_of r g = record {
  core = record { runs = r ∷ []; grants = g ∷ [] };
  journal = empty_journal;
  catalog = small_catalog;
}

abbrev queued_db : Db
queued_db = db_of queued_run idle_grant

abbrev running_db : Db
running_db = db_of running_run reserving_grant

abbrev nothing_locked : ℕ → Bool
nothing_locked id = false

single-IsBalanced :
    (r : Run) (x : Grant)
    → x.reserved ≡ held_of x.id r
    → IsBalanced (record { runs = r ∷ []; grants = x ∷ [] })
unfolding reserved_by sum_by
single-IsBalanced r x h g row e =
    let (named_g, same) = find_row-single (λ y. y.id) g x row e in
    subst (λ y. y.reserved ≡ held_of g r + 0) same
      (subst (λ i. x.reserved ≡ held_of i r + 0) named_g (omega (arith, h)))

queued_db-IsWellFormed : IsWellFormed queued_db.core
unfolding reserved_by
queued_db-IsWellFormed = record {
  runs = record {
    keyed = ground arith;
    sound = (
      record {
        left = λ e. omega arith;
        within = omega arith;
        leased = λ e. absurd cc;
        free = λ e. refl;
      },
      tt,
    );
  };
  ledger = single-IsBalanced queued_run idle_grant refl;
}

running_db-IsWellFormed : IsWellFormed running_db.core
unfolding reserved_by
running_db-IsWellFormed = record {
  runs = record {
    keyed = ground arith;
    sound = (
      record {
        left = λ e. absurd cc;
        within = omega arith;
        leased = λ e. refl;
        free = λ e. absurd cc;
      },
      tt,
    );
  };
  ledger = single-IsBalanced running_run reserving_grant refl;
}

running_db-HasFunds : HasFunds running_db.core
running_db-HasFunds = (
  record { covered = omega arith; runs_left = λ e. omega arith; budget_left = λ e. omega arith },
  tt,
)

held_by_seven : find_run 1 running_db.core.runs ≡ some running_run
unfolding find_row
held_by_seven = refl

locked_by_seven : lock_run 1 7 running_db.core ≡ some running_run
unfolding lock_run find_row
locked_by_seven = refl

-- A claim, a heartbeat and a failure of the one run.
abbrev calls : List Call
calls =
    claims nothing_locked 7 60000 1000
    ∷ beats 1 7 60000 none 2000
    ∷ fails 1 7 "MODEL_TIMEOUT" true none none 3000
    ∷ []

after_all-IsWellFormed_example : IsWellFormed (after_all calls queued_db).core
after_all-IsWellFormed_example =
    after_all-IsWellFormed calls queued_db (tt, (tt, (tt, tt))) queued_db-IsWellFormed

after-foreign_example :
    find_run 1 (after (cancels 1 8 none 2000) running_db).core.runs ≡ some running_run
after-foreign_example =
    after-foreign 8 (cancels 1 8 none 2000) running_db 1 running_run refl (λ e. e)
      running_db-IsWellFormed.runs held_by_seven refl refl

after-HasFunds_example : HasFunds (after (cancels 1 7 none 2000) running_db).core
after-HasFunds_example =
    after-HasFunds (cancels 1 7 none 2000) running_db (λ r h. tt) running_db-IsWellFormed
      running_db-HasFunds

claim_next-IsAuthorized_example :
    Ensures
      (λ p. Starts 1000 nothing_locked queued_db p.0)
      (claim_next nothing_locked 7 60000 1000 queued_db)
claim_next-IsAuthorized_example = claim_next-IsAuthorized nothing_locked 7 60000 1000 queued_db

next_candidate-IsFirst_example :
    IsCandidateOf nothing_locked 1000 small_catalog.releases
      (queued_run ∷ running_run ∷ [])
      (next_candidate nothing_locked 1000 small_catalog.releases (queued_run ∷ running_run ∷ []))
next_candidate-IsFirst_example =
    next_candidate-IsFirst nothing_locked 1000 small_catalog.releases
      (queued_run ∷ running_run ∷ [])

fail_or_retry-IsDisposed_example :
    Ensures
      (IsDisposed running_run small_catalog true none)
      (fail_or_retry 1 7 "MODEL_TIMEOUT" true none none 3000 running_db)
fail_or_retry-IsDisposed_example =
    fail_or_retry-IsDisposed 1 7 "MODEL_TIMEOUT" true none none 3000 running_db running_run
      locked_by_seven refl

-- Two serialization failures, then an answer.
abbrev third_time : ℕ → Attempt ℕ
third_time n = if n == 2 then done 9 else serialization_failure "P2034"

with_serializable_transaction-outcome_example :
    with_serializable_transaction third_time ≡ outcome (third_time 2)
with_serializable_transaction-outcome_example =
    with_serializable_transaction-outcome third_time 2 (omega arith)
      (λ j below. ("P2034", ground arith)) (inr refl)

retry_delay-backoff_seconds_example :
    (retry_delay_ms exponential 3 ≡ 1000 * backoff_seconds exponential 3)
    × (retry_delay_ms exponential 3 ≤ 256000)
retry_delay-backoff_seconds_example = retry_delay-backoff_seconds exponential 3

slow_world_started : (try_execute claimed provider pricing slow_world).0.plugin_started ≡ true
unfolding try_execute prepare assert_lease assert_execution_snapshot call_plugins execute_plan
    execute_calls run_model run_stream
slow_world_started = refl

execute-IsFinal_example :
    All (IsFinal 1 7 3000 running_db running_run) (execute claimed provider pricing slow_world)
execute-IsFinal_example =
    execute-IsFinal claimed provider pricing slow_world 7 3000 running_db running_run
      (inl slow_world_started) locked_by_seven refl

-- The run is still running when its grant is revoked.
abbrev revoked_db : Db
revoked_db = db_of running_run (record reserving_grant { state = revoked })

revoked_db-IsWellFormed : IsWellFormed revoked_db.core
revoked_db-IsWellFormed = record {
  runs = record {
    keyed = running_db-IsWellFormed.runs.keyed;
    sound = running_db-IsWellFormed.runs.sound;
  };
  ledger = single-IsBalanced running_run (record reserving_grant { state = revoked }) refl;
}

after-AllRevoked_example : AllRevoked 5 (after (cancels 1 7 none 2000) revoked_db).core
after-AllRevoked_example =
    after-AllRevoked 5 (cancels 1 7 none 2000) revoked_db revoked_db-IsWellFormed ((λ e. refl), tt)
