-- ===== src/Worker/Engine.antt =====
-- The execution of one claimed run (apps/worker/src/engine.ts): the model stream, the checks before
-- and after it, and the call of the store that each fault leads to. The provider, the schemas, the
-- context on disk and the clock are not this code's: they are the fields of `World`.
use agent_builder.Common.{
  ℕ, ◌*◌, max, Bool, true, false, List, [], ◌∷◌, Option, none, some, String, ltb, if◌then◌else◌,
}
use Prim.Native.String.{◌++◌ as ◌<>◌}
use agent_builder.Worker.Json.{Json}
use agent_builder.Worker.Model.{ProviderKind, Usage, BriefOutput}
use agent_builder.Worker.Heartbeat.{HeartbeatResult}
use agent_builder.Worker.PluginPlan.{
  Fault, worker_fault, plugin_error, timeout_error, syntax_error, Outcome, returned, thrown,
  PlannedCall, PluginResult, Signal,
}

pub data StreamEvent : Type 0 where
  text_delta : String → StreamEvent
  usage : Usage → StreamEvent
  complete : StreamEvent

-- What the next value of the stream is, where it is not its end: an event, or a rejection, of the
-- provider or because the signal aborted.
pub data StreamItem : Type 0 where
  event : StreamEvent → StreamItem
  breaks : Fault → StreamItem

pub record Response : Type 0 where
  pub text : String
  pub usage : Usage

-- What the stream has given so far; `observed` is what the callback `onUsage` was last given.
pub record Reading : Type 0 where
  pub text : String
  pub usage : Usage
  pub observed : Option Usage
  pub completed : Bool

abbrev pub no_usage : Usage
no_usage = record { input_tokens = 0; output_tokens = 0 }

abbrev pub nothing_read : Reading
nothing_read = record { text = ""; usage = no_usage; observed = none; completed = false }

module _ (byte_length : String → ℕ) (max_output_tokens : ℕ) where
  abbrev pub maximum_bytes : ℕ
  maximum_bytes = max 4096 (max_output_tokens * 8)

  -- One event, and the fault that it raises.
  unfoldable pub read_event : StreamEvent → Reading → Reading × Option Fault
  read_event (text_delta delta) r =
      let text = r.text <> delta in
      (
        record r { text = text },
        if ltb maximum_bytes (byte_length text)
            then some (worker_fault "MODEL_OUTPUT_LIMIT_EXCEEDED" false)
            else none,
      )
  read_event (usage u) r = (
    record r { usage = u; observed = some u },
    if ltb max_output_tokens u.output_tokens
        then some (worker_fault "MODEL_OUTPUT_TOKEN_BUDGET_EXCEEDED" false)
        else none,
  )
  read_event complete r = (record r { completed = true }, none)

  -- The loop, and what follows it at the end of the stream.
  unfoldable pub consume_model_stream : Reading → List StreamItem → Reading × Outcome Response
  unfolding read_event
  consume_model_stream r [] =
      if r.completed
      then (r, returned (record { text = r.text; usage = r.usage }))
      else (r, thrown (worker_fault "MODEL_STREAM_INCOMPLETE" true))
  consume_model_stream r (breaks fault ∷ rest) = (r, thrown fault)
  consume_model_stream r (event e ∷ rest) =
      let (s, fault) = read_event e r in
      let later = consume_model_stream s rest in
      elim fault [ some f ↦ (s, thrown f) | none ↦ later ]

-- `classifyFailure`: the code, and whether it is retryable.
unfoldable pub classify_failure : Fault → String × Bool
classify_failure (worker_fault code retryable) = (code, retryable)
classify_failure (plugin_error code retryable) = (code, false)
classify_failure timeout_error = ("MODEL_TIMEOUT", true)
classify_failure syntax_error = ("MODEL_OUTPUT_INVALID_JSON", true)
classify_failure _ = ("MODEL_PROVIDER_FAILED", true)

-- Prices in 10^-8 USD for each token.
pub record Pricing : Type 0 where
  pub version : ℕ
  pub input_price : ℕ
  pub output_price : ℕ

pub record Provider : Type 0 where
  pub kind : ProviderKind
  pub version : ℕ
  pub model : ℕ

pub record World : Type 0 where
  pub initial_lease : Outcome HeartbeatResult
  pub context_digest : Option ℕ
  pub context_has_plugin_results : Bool
  pub input_valid : Bool
  pub planned_calls : Option (Outcome (List PlannedCall))
  pub execute_call : ℕ → Outcome PluginResult
  pub aborted : Signal
  pub stream : List (ℕ × Json) → List StreamItem
  pub byte_length : String → ℕ
  pub extract_json : String → Outcome Json
  pub parse_output : Json → Option BriefOutput
  pub has_invalid_citations : BriefOutput → Bool
  pub quality : BriefOutput → ℕ
  pub latency_ms : ℕ
  pub complete_fault : Option Fault

-- What is known of the run when a fault is caught.
pub record Progress : Type 0 where
  pub observed : Option Usage
  pub plugin_cost : ℕ
  pub plugin_started : Bool

abbrev pub kind_number : ProviderKind → ℕ
kind_number ProviderKind.deterministic = 0
kind_number ProviderKind.anthropic = 1
kind_number ProviderKind.gateway = 2
