-- ===== src/Worker/Plugins/Loading.antt =====
-- The planned calls of a run (`loadPlannedCalls`, `inputAtPath` in apps/worker/src/plugin-store.ts). The
-- row of the run with its plans is what the query reads; the text `<run>:plugin:<ordinal>` of a key is a
-- parameter, and the path of a plan is one that its schema has parsed.
use agent_builder.Common.{
  ℕ, suc, zero, leb, ◌==◌, opt_eq, String, Bool, not, ◌||◌, List, [], ◌∷◌, Option, none, some,
  if◌then◌else◌,
}
use agent_builder.Worker.Json.{Json, arr, obj, Items, nil, cons, get}
use agent_builder.Worker.PluginPlan.{Outcome, returned, thrown, ◌>>=!◌}
use agent_builder.Worker.Plugins.{PluginEffect, PluginCall}
use agent_builder.Worker.Plugins.Invocations.{fail_if, ledger_fault}

-- A segment of an input path.
pub data Segment : Type 0 where
  index : ℕ → Segment
  key : String → Segment

abbrev pub item_at : ℕ → Items → Option Json
item_at n nil = none
item_at zero (cons x xs) = some x
item_at (suc n) (cons x xs) = item_at n xs

abbrev pub step_into : Json → Segment → Option Json
step_into (arr xs) (index n) = item_at n xs
step_into (obj fs) (key k) = get k fs
step_into _ _ = none

abbrev pub found_input : Option Json → Outcome Json
found_input none = thrown (ledger_fault "PLUGIN_CALL_PLAN_INPUT_MISSING")
found_input (some x) = returned x

abbrev pub input_at_path : Json → List Segment → Outcome Json
input_at_path input [] = returned input
input_at_path input (s ∷ path) =
    found_input (step_into input s) >>=! λ next. input_at_path next path

pub record RequirementRow : Type 0 where
  pub id : ℕ
  pub run_id : ℕ
  pub installation_id : ℕ
  pub plugin_version_id : ℕ
  pub plugin_digest : ℕ
  pub capability_name : ℕ
  pub effect : PluginEffect
  pub context_digest : ℕ

pub record PlanRow : Type 0 where
  pub id : ℕ
  pub run_id : ℕ
  pub requirement_id : ℕ
  pub ordinal : ℕ
  pub invocation_key : ℕ
  pub input_path : List Segment
  pub output_context_key : ℕ
  pub requirement : RequirementRow

pub record LoadedRun : Type 0 where
  pub id : ℕ
  pub release_id : ℕ
  pub release_digest : ℕ
  pub entry_resource_version_id : Option ℕ
  pub legacy_entrypoint_unresolved : Bool
  pub context_digest : ℕ
  pub input : Json
  pub is_running : Bool
  pub lease_owner : Option ℕ
  pub plans : List PlanRow

-- What the worker claimed.
pub record ClaimedIdentity : Type 0 where
  pub id : ℕ
  pub release_id : ℕ
  pub release_digest : ℕ
  pub entry_resource_version_id : ℕ
  pub context_digest : ℕ

pub record PlannedPluginCall : Type 0 where
  pub ordinal : ℕ
  pub output_context_key : ℕ
  pub call : PluginCall

-- `orderBy: { ordinal: 'asc' }`.
abbrev pub insert_plan : PlanRow → List PlanRow → List PlanRow
insert_plan p [] = p ∷ []
insert_plan p (q ∷ qs) =
    let rest = insert_plan p qs in if leb p.ordinal q.ordinal then p ∷ q ∷ qs else q ∷ rest

abbrev pub sort_plans : List PlanRow → List PlanRow
sort_plans [] = []
sort_plans (p ∷ ps) = insert_plan p (sort_plans ps)

module _ (key_of : ℕ → ℕ → ℕ) (claimed : ClaimedIdentity) (worker : ℕ) where
  abbrev pub other_claim : LoadedRun → ℕ → Bool
  other_claim run entry =
      not run.is_running
      || not (opt_eq run.lease_owner (some worker))
      || not (run.id == claimed.id)
      || not (run.release_id == claimed.release_id)
      || not (run.release_digest == claimed.release_digest)
      || not (entry == claimed.entry_resource_version_id)
      || not (run.context_digest == claimed.context_digest)

  abbrev pub other_plan_row : LoadedRun → PlanRow → Bool
  other_plan_row run plan =
      not (plan.run_id == run.id)
      || not (plan.requirement_id == plan.requirement.id)
      || not (plan.requirement.run_id == run.id)
      || not (plan.invocation_key == key_of run.id plan.ordinal)
      || not (plan.requirement.context_digest == run.context_digest)

  abbrev pub call_of : LoadedRun → ℕ → PlanRow → Json → PlannedPluginCall
  call_of run entry plan input = record {
    ordinal = plan.ordinal;
    output_context_key = plan.output_context_key;
    call = record {
      invocation_key = plan.invocation_key;
      plan_id = plan.id;
      requirement_id = plan.requirement.id;
      run_id = run.id;
      worker_id = worker;
      release_id = run.release_id;
      release_digest = run.release_digest;
      entry_resource_version_id = entry;
      context_digest = run.context_digest;
      installation_id = plan.requirement.installation_id;
      plugin_version_id = plan.requirement.plugin_version_id;
      plugin_digest = plan.requirement.plugin_digest;
      tool = plan.requirement.capability_name;
      effect = plan.requirement.effect;
      input = input;
    };
  }

  abbrev pub load_plan : LoadedRun → ℕ → PlanRow → Outcome PlannedPluginCall
  load_plan run entry plan = fail_if (other_plan_row run plan) "PLUGIN_CALL_PLAN_MISMATCH" >>=! λ _.
      input_at_path run.input plan.input_path >>=! λ input. returned (call_of run entry plan input)

  abbrev pub load_plans : LoadedRun → ℕ → List PlanRow → Outcome (List PlannedPluginCall)
  load_plans run entry [] = returned []
  load_plans run entry (p ∷ ps) = load_plan run entry p >>=! λ first.
      load_plans run entry ps >>=! λ rest. returned (first ∷ rest)

  abbrev pub load_entry : LoadedRun → Option ℕ → Outcome (List PlannedPluginCall)
  load_entry run none = thrown (ledger_fault "PLUGIN_ENTRYPOINT_UNRESOLVED")
  load_entry run (some entry) = fail_if (other_claim run entry) "PLUGIN_RUN_LEASE_LOST" >>=! λ _.
      load_plans run entry (sort_plans run.plans)

  abbrev pub load_run : Option LoadedRun → Outcome (List PlannedPluginCall)
  load_run none = thrown (ledger_fault "PLUGIN_RUN_NOT_FOUND")
  load_run (some run) =
      fail_if run.legacy_entrypoint_unresolved "PLUGIN_ENTRYPOINT_UNRESOLVED" >>=! λ _.
      load_entry run run.entry_resource_version_id

  unfoldable pub load_planned_calls : Option LoadedRun → Outcome (List PlannedPluginCall)
  load_planned_calls run = load_run run
