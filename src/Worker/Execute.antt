-- ===== src/Worker/Execute.antt =====
-- `execute` of the engine (apps/worker/src/engine.ts): what is tried, and what is done about a
-- fault. The aborts of the lease monitor reach it as faults of the stream and of the Plugin calls.
use agent_builder.Common.{
  ℕ, ◌+◌, ◌*◌, Bool, true, false, not, ◌&&◌, ◌||◌, List, [], ◌∷◌, Option, none, some, Ordering,
  String, any, ltb, ◌==◌, if◌then◌else◌,
}
use Prim.Native.String
use agent_builder.Worker.Model.{
  Usage, Settlement, Suppression, plugin_invocation_started, BriefOutput, CompletedRun, ClaimedRun,
}
use agent_builder.Worker.Heartbeat.{HeartbeatResult}
use agent_builder.Worker.PluginPlan.{
  Fault, worker_fault, plugin_error, lease_lost, run_cancelled, worker_stopping, Outcome, returned,
  thrown, ◌>>=!◌, PlanResult, execute_plan,
}
use agent_builder.Worker.Engine.{
  Response, no_usage, nothing_read, consume_model_stream, classify_failure, Pricing, Provider,
  World, Progress, kind_number,
}

abbrev pub check : Bool → Fault → Outcome (Unit {0})
check true f = thrown f
check false f = returned tt

abbrev pub is_other_provider : ClaimedRun → Provider → Bool
is_other_provider run provider =
    not (kind_number run.provider_kind == kind_number provider.kind)
    || (not (run.provider_version == provider.version) || not (run.model == provider.model))

-- `assertExecutionSnapshot`.
unfoldable pub assert_execution_snapshot : ClaimedRun → Provider → Pricing → Outcome (Unit {0})
assert_execution_snapshot run provider pricing =
    check (is_other_provider run provider) (worker_fault "MODEL_PROVIDER_SNAPSHOT_MISMATCH" false)
    >>=! λ _.
        check (not (run.pricing_version == pricing.version))
          (worker_fault "MODEL_PRICING_SNAPSHOT_MISMATCH" false)

unfoldable pub assert_lease : HeartbeatResult → Outcome (Unit {0})
assert_lease lease =
    check (not lease.owned) lease_lost >>=! λ _. check lease.cancellation_requested run_cancelled

abbrev pub assert_context : Option ℕ → ℕ → Outcome (Unit {0})
assert_context none digest = thrown (worker_fault "EXECUTION_CONTEXT_UNAVAILABLE" false)
assert_context (some loaded) digest =
    check (not (loaded == digest)) (worker_fault "EXECUTION_CONTEXT_SNAPSHOT_MISMATCH" false)

-- What is asserted before any Plugin or model is called.
unfoldable pub prepare : ClaimedRun → Provider → Pricing → World → Outcome (Unit {0})
unfolding assert_lease assert_execution_snapshot
prepare run provider pricing w = w.initial_lease >>=! assert_lease >>=! λ _.
    assert_execution_snapshot run provider pricing >>=! λ _.
    assert_context w.context_digest run.context_digest >>=! λ _.
    check (not w.input_valid) (worker_fault "RUN_INPUT_SCHEMA_INVALID" false)

-- Without a coordinator no Plugin is called.
unfoldable pub call_plugins : World → Outcome PlanResult
call_plugins w = elim w.planned_calls [
  | none ↦ returned (record { context = []; cost = 0; invocation_count = 0 })
  | some load ↦ load >>=! execute_plan w.execute_call w.aborted
]

unfoldable pub price : Pricing → Usage → ℕ
price pricing u = u.input_tokens * pricing.input_price + u.output_tokens * pricing.output_price

abbrev pub settlement_of : Provider → Pricing → World → Usage → ℕ → Settlement
settlement_of provider pricing w u plugin_cost = record {
  usage = u;
  actual_cost = price pricing u + plugin_cost;
  plugin_cost = some plugin_cost;
  latency_ms = w.latency_ms;
  pricing_version = pricing.version;
  provider_kind = provider.kind;
  provider_version = provider.version;
  model = provider.model;
}

abbrev pub parsed : Option BriefOutput → Outcome BriefOutput
parsed none = thrown (worker_fault "MODEL_OUTPUT_SCHEMA_INVALID" true)
parsed (some output) = returned output

-- What is asserted of a response, and the completion that it makes.
unfoldable pub evaluate :
    ClaimedRun → Provider → Pricing → World → ℕ → Response → Outcome CompletedRun
evaluate run provider pricing w plugin_cost response =
    check (ltb run.max_input_tokens response.usage.input_tokens)
      (worker_fault "MODEL_INPUT_TOKEN_BUDGET_EXCEEDED" false)
    >>=! λ _. w.extract_json response.text >>=! λ json. parsed (w.parse_output json) >>=! λ output.
        check (w.has_invalid_citations output)
          (worker_fault "MODEL_CITATION_OUTSIDE_INPUT_PROVENANCE" false)
        >>=! λ _. returned (record {
          settlement = settlement_of provider pricing w response.usage plugin_cost;
          output = output;
          quality_score = w.quality output;
        })

unfoldable pub nothing_observed : Progress
nothing_observed = record { observed = none; plugin_cost = 0; plugin_started = false }

abbrev after_plugins : PlanResult → Progress
after_plugins plugins = record {
  observed = none;
  plugin_cost = plugins.cost;
  plugin_started = ltb 0 plugins.invocation_count;
}

-- From the answer of the Plugins on; the last argument is whether the context has their key.
unfoldable pub run_stream :
    ClaimedRun → Provider → Pricing → World → PlanResult → Bool → Progress × Outcome CompletedRun
unfolding consume_model_stream evaluate
run_stream run provider pricing w plugins true =
    (after_plugins plugins, thrown (worker_fault "PLUGIN_CONTEXT_KEY_CONFLICT" false))
run_stream run provider pricing w plugins false =
    let (reading, response) =
      consume_model_stream w.byte_length run.max_output_tokens nothing_read
        (w.stream plugins.context) in
    (
      record (after_plugins plugins) { observed = reading.observed },
      response >>=! evaluate run provider pricing w plugins.cost,
    )

unfoldable pub run_model :
    ClaimedRun → Provider → Pricing → World → PlanResult → Progress × Outcome CompletedRun
unfolding run_stream
run_model run provider pricing w plugins =
    run_stream run provider pricing w plugins w.context_has_plugin_results

abbrev pub with_plugins :
    ClaimedRun → Provider → Pricing → World → Outcome PlanResult → Progress × Outcome CompletedRun
with_plugins run provider pricing w (thrown fault) = (nothing_observed, thrown fault)
with_plugins run provider pricing w (returned plugins) = run_model run provider pricing w plugins

-- The `try` block, up to the call of `complete`.
unfoldable pub try_execute :
    ClaimedRun → Provider → Pricing → World → Progress × Outcome CompletedRun
unfolding prepare call_plugins run_model nothing_observed
try_execute run provider pricing w =
    with_plugins run provider pricing w (prepare run provider pricing w >>=! λ _. call_plugins w)

-- `incurredUsage`.
unfoldable pub incurred_usage : Provider → Pricing → World → Progress → Option Settlement
incurred_usage provider pricing w p = elim p.observed [
  | none ↦
      if p.plugin_cost == 0
      then none
      else some (settlement_of provider pricing w no_usage p.plugin_cost)
  | some u ↦ some (settlement_of provider pricing w u p.plugin_cost)
]

-- The calls of the store that settle a run.
pub data Action : Type 0 where
  completes : CompletedRun → Action
  cancels : Option Settlement → Action
  pauses : String → Option Settlement → Action
  fails : String → Bool → Option Settlement → Option Suppression → Action

abbrev pub same_code : String → String → Bool
same_code a b = elim (String.compare a b) [ Ordering.eq ↦ true | _ ↦ false ]

unfoldable pub is_unavailable : String → Bool
is_unavailable code =
    any (λ s. same_code s code)
      ("PLUGIN_DISABLED" ∷ "PLUGIN_WORKSTATION_UNAVAILABLE" ∷ "PLUGIN_HTTP_UNAVAILABLE"
        ∷ "PLUGIN_MCP_UNAVAILABLE" ∷ "PLUGIN_CLI_UNAVAILABLE" ∷ "PLUGIN_DB_UNAVAILABLE" ∷ [])

unfoldable pub fail_with : Fault → Progress → Option Settlement → Action
unfolding classify_failure
fail_with fault p incurred =
    let (code, retryable) = classify_failure fault in
    fails code retryable incurred
      (if retryable && p.plugin_started then some plugin_invocation_started else none)

-- The `catch` block.
unfoldable pub handle_fault : Fault → Progress → Option Settlement → List Action
unfolding is_unavailable fail_with
handle_fault worker_stopping p incurred = []
handle_fault lease_lost p incurred = []
handle_fault run_cancelled p incurred = cancels incurred ∷ []
handle_fault (plugin_error code retryable) p incurred =
    if is_unavailable code
    then pauses code incurred ∷ []
    else if same_code code "PLUGIN_RUN_LEASE_LOST"
    then []
    else if same_code code "RUN_CANCELLED"
    then cancels incurred ∷ []
    else fail_with (plugin_error code retryable) p incurred ∷ []
handle_fault fault p incurred = fail_with fault p incurred ∷ []

abbrev pub after_complete : Option Fault → Progress → Option Settlement → List Action
after_complete none p incurred = []
after_complete (some fault) p incurred = handle_fault fault p incurred

-- A completion that throws is caught like any other fault.
unfoldable pub act : Provider → Pricing → World → Progress → Outcome CompletedRun → List Action
unfolding handle_fault incurred_usage
act provider pricing w p (thrown fault) = handle_fault fault p (incurred_usage provider pricing w p)
act provider pricing w p (returned result) =
    completes result ∷ after_complete w.complete_fault p (incurred_usage provider pricing w p)

unfoldable pub execute : ClaimedRun → Provider → Pricing → World → List Action
unfolding try_execute act
execute run provider pricing w =
    let (p, result) = try_execute run provider pricing w in act provider pricing w p result
