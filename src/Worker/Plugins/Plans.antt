-- ===== src/Worker/Plugins/Plans.antt =====
-- A run with two planned calls, on which the theorem about loading is used
-- (apps/worker/src/plugin-store.ts).
use agent_builder.Common.{ℕ, ◌≡◌, ◌+◌, ◌*◌, refl, true, false, List, [], ◌∷◌, some}
use agent_builder.Worker.Json.{num, obj, arr, nil, cons, end, field, get}
use agent_builder.Worker.PluginPlan.{returned}
use agent_builder.Worker.Plugins.{read}
use agent_builder.Worker.Plugins.Invocations.{fail_if}
use agent_builder.Worker.Plugins.Loading.{
  Segment, index, key, RequirementRow, PlanRow, LoadedRun, ClaimedIdentity, PlannedPluginCall,
  call_of, load_planned_calls,
}
use agent_builder.Worker.Plugins.Loaded.{IsLoaded, load_planned_calls-IsLoaded}

abbrev key_of : ℕ → ℕ → ℕ
key_of run ordinal = run * 100 + ordinal

abbrev requirement : RequirementRow
requirement = record {
  id = 2;
  run_id = 1;
  installation_id = 8;
  plugin_version_id = 6;
  plugin_digest = 7;
  capability_name = 9;
  effect = read;
  context_digest = 38;
}

abbrev plan : ℕ → List Segment → PlanRow
plan n path = record {
  id = n;
  run_id = 1;
  requirement_id = 2;
  ordinal = n;
  invocation_key = key_of 1 n;
  input_path = path;
  output_context_key = n;
  requirement = requirement;
}

-- The second of the list under `rows`.
abbrev second_row : List Segment
second_row = key "rows" ∷ index 1 ∷ []

-- The rows of the plans stand out of order.
abbrev run : LoadedRun
run = record {
  id = 1;
  release_id = 35;
  release_digest = 36;
  entry_resource_version_id = some 37;
  legacy_entrypoint_unresolved = false;
  context_digest = 38;
  input = obj (field "rows" (arr (cons (num 4) (cons (num 5) nil))) end);
  is_running = true;
  lease_owner = some 34;
  plans = plan 1 second_row ∷ plan 0 [] ∷ [];
}

abbrev claimed : ClaimedIdentity
claimed = record {
  id = 1;
  release_id = 35;
  release_digest = 36;
  entry_resource_version_id = 37;
  context_digest = 38;
}

abbrev planned : List PlannedPluginCall
planned =
    call_of key_of claimed 34 run 37 (plan 0 []) run.input
    ∷ call_of key_of claimed 34 run 37 (plan 1 second_row) (num 5)
    ∷ []

load_planned_calls-planned : load_planned_calls key_of claimed 34 (some run) ≡ returned planned
unfolding load_planned_calls fail_if get
load_planned_calls-planned = refl

load_planned_calls-IsLoaded_example : IsLoaded key_of claimed 34 (some run) planned
load_planned_calls-IsLoaded_example =
    load_planned_calls-IsLoaded key_of claimed 34 (some run) planned load_planned_calls-planned
