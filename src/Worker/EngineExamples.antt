-- ===== src/Worker/EngineExamples.antt =====
-- The engine (apps/worker/src/engine.ts) on a run whose model answers at once.
use agent_builder.Common.{
  inr, ℕ, refl, true, false, ◌||◌, String, List, [], ◌∷◌, none, some, any, arith,
}
use Prim.Native.String
use agent_builder.Worker.Json.{null, end}
use agent_builder.Worker.Model.{ClaimedRun, fixed, deterministic}
use agent_builder.Worker.PluginPlan.{
  Outcome, returned, Returns, timeout_error, PlannedCall, PluginResult, amount, execute_plan,
}
use agent_builder.Worker.Engine.{
  StreamItem, event, breaks, text_delta, usage, complete, nothing_read, consume_model_stream,
  Pricing, Provider, World,
}
use agent_builder.Worker.Execute.{try_execute}
use agent_builder.Worker.Stream.{
  is_complete, IsWithinLimits, consume_model_stream-IsWithinLimits, IsPlan, execute_plan-IsPlan,
}
use agent_builder.Worker.Plans.{DoesReturn, execute_plan-DoesReturn}
use agent_builder.Worker.Settling.{IsAdmissible, try_execute-IsAdmissible}

abbrev pub claimed : ClaimedRun
claimed = record {
  id = 1;
  release = 3;
  release_digest = 30;
  entry_version = some 4;
  context_digest = 40;
  grant = some 5;
  development_draft = true;
  production_epoch = none;
  input = end;
  provider_kind = deterministic;
  provider_version = 1;
  model = 1;
  pricing_version = 1;
  max_input_tokens = 1000;
  max_output_tokens = 1000;
  max_cost = 50;
  upper_cost = 40;
  attempts = 1;
  max_attempts = 3;
  backoff = fixed;
}

abbrev pub pricing : Pricing
pricing = record { version = 1; input_price = 1; output_price = 2 }

abbrev pub provider : Provider
provider = record { kind = deterministic; version = 1; model = 1 }

abbrev answer : List StreamItem
answer =
    event (text_delta "{}")
    ∷ event (usage (record { input_tokens = 10; output_tokens = 5 }))
    ∷ event complete
    ∷ []

abbrev planned : List PlannedCall
planned =
    record { ordinal = 0; context_key = 1; call = 11 }
    ∷ record { ordinal = 2; context_key = 3; call = 12 }
    ∷ []

abbrev call_plugin : ℕ → Outcome PluginResult
call_plugin n = returned (record { output = null; cost = some (amount 4) })

-- The bytes of a text of ASCII characters.
abbrev bytes : String → ℕ
bytes text = String.len text

abbrev pub world : World
world = record {
  initial_lease = returned (record { owned = true; cancellation_requested = false });
  context_digest = some 40;
  context_has_plugin_results = false;
  input_valid = true;
  planned_calls = some (returned planned);
  execute_call = call_plugin;
  aborted = λ i. none;
  stream = λ context. answer;
  byte_length = bytes;
  extract_json = λ text. returned null;
  parse_output = λ json.
      some (record { content = null; confidence = 90; citations = null; unresolved_items = null });
  has_invalid_citations = λ output. false;
  quality = λ output. 80;
  latency_ms = 1200;
  complete_fault = none;
}

-- The model times out after the Plugin calls.
abbrev pub slow_world : World
slow_world = record world { stream = λ context. breaks timeout_error ∷ [] }

try_execute-IsAdmissible_example :
    Returns
      (IsAdmissible claimed provider pricing world)
      (try_execute claimed provider pricing world).1
try_execute-IsAdmissible_example = try_execute-IsAdmissible claimed provider pricing world refl

consume_model_stream-IsWithinLimits_example :
    Returns
      (IsWithinLimits bytes 1000 (nothing_read.completed || any is_complete answer))
      (consume_model_stream bytes 1000 nothing_read answer).1
consume_model_stream-IsWithinLimits_example =
    consume_model_stream-IsWithinLimits bytes 1000 nothing_read answer (omega arith) (omega arith)

execute_plan-IsPlan_example :
    Returns (IsPlan planned) (execute_plan call_plugin (λ i. none) planned)
execute_plan-IsPlan_example = execute_plan-IsPlan call_plugin (λ i. none) planned

execute_plan-DoesReturn_example : DoesReturn (execute_plan call_plugin (λ i. none) planned)
execute_plan-DoesReturn_example =
    execute_plan-DoesReturn call_plugin (λ i. none) planned (λ i. refl) (refl, (refl, tt))
      (refl, (refl, tt))
      (
        (record { output = null; cost = some (amount 4) }, refl, inr (4, refl)),
        ((record { output = null; cost = some (amount 4) }, refl, inr (4, refl)), tt),
      )
