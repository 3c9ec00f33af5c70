-- ===== src/Runtime/Aim/Examples.antt =====
-- A small program with one part that may be drawn as ready, on which the theorems about the evidence
-- policy are used (packages/runtime/src/aim).
use agent_builder.Common.{ℕ, ◌≡◌, refl, Bool, true, false, List, [], ◌∷◌, Option, none, some, ◌==◌}
use agent_builder.Runtime.Aim.{
  production, go, satisfied, unsatisfied, authoritative, CriterionResult, PartStatus, Part,
  certified, Program, latest_at,
}
use agent_builder.Runtime.Aim.Demands.{evaluate_part_evidence}
use agent_builder.Runtime.Aim.Gates.{IsReady, evaluate_part_evidence-IsReady}
use agent_builder.Runtime.Aim.Latest.{IsLatest, latest_at-IsLatest}
use agent_builder.Runtime.Aim.States.{certification_evidence_fresh, group_state}
use agent_builder.Runtime.Aim.Certified.{IsCertifiedBy, group_state-IsCertifiedBy}

abbrev results : List CriterionResult
results =
    record { effective_at = 100; state = unsatisfied; evidence_refs = [] }
    ∷ record { effective_at = 200; state = satisfied; evidence_refs = 5 ∷ [] }
    ∷ record { effective_at = 9000000; state = unsatisfied; evidence_refs = [] }
    ∷ []

abbrev program : Program
program = record {
  default_evidence_freshness_sla_hours = 1;
  sources =
      record {
        id = 1;
        observed_at = 100;
        freshness_sla_hours = none;
        reconciliation_status = authoritative;
        synthetic = false;
      }
      ∷ [];
  evidence = record { id = 5; source_id = 1; observed_at = 150; freshness_sla_hours = some 2 } ∷ [];
  milestones =
      record {
        gate_criteria =
            record {
              id = 7;
              required = true;
              affected_part_ids = 3 ∷ [];
              required_metric_ids = 8 ∷ [];
              evidence_refs = [];
              result_history = results;
            }
            ∷ [];
      }
      ∷ [];
  synthetic = false;
  agents =
      record {
        id = 20;
        certification_status = certified;
        synthetic = false;
        group_ids = 21 ∷ [];
        certification_evidence_refs = 5 ∷ [];
        source_refs = 1 ∷ [];
      }
      ∷ [];
  groups = record { id = 21; is_primary = true } ∷ [];
  metrics = [];
  workstreams = [];
  interfaces = [];
}

abbrev part : Part
part = record {
  id = 3;
  evidence_refs = [];
  baseline_latency_metric_id = none;
  current_latency_metric_id = none;
  target_latency_metric_id = none;
}

abbrev ready : Option PartStatus
ready = some (record {
  effective_at = 100;
  lifecycle = production;
  readiness = go;
  evidence_refs = 5 ∷ [];
  source_ref = 1;
})

abbrev has_metric : ℕ → Bool
has_metric id = id == 8

drawn : (evaluate_part_evidence program part ready 1000 has_metric).may_render_go ≡ true
unfolding evaluate_part_evidence
drawn = refl

-- Two hours after the evidence.
warned : (evaluate_part_evidence program part ready 8000000 has_metric).warning ≡ true
unfolding evaluate_part_evidence
warned = refl

certified_there :
    (group_state program 1000 (record { id = 21; is_primary = true })).has_certified_agent ≡ true
unfolding group_state certification_evidence_fresh
certified_there = refl

evaluate_part_evidence-IsReady_example : IsReady program part ready 1000 has_metric
evaluate_part_evidence-IsReady_example =
    evaluate_part_evidence-IsReady program part ready 1000 has_metric drawn

latest_at-IsLatest_example :
    IsLatest
      (λ (r : CriterionResult). r.effective_at)
      1000
      results
      (latest_at (λ (r : CriterionResult). r.effective_at) results 1000)
latest_at-IsLatest_example =
    latest_at-IsLatest (λ (r : CriterionResult). r.effective_at) 1000 results

group_state-IsCertifiedBy_example :
    IsCertifiedBy program 1000 (record { id = 21; is_primary = true })
group_state-IsCertifiedBy_example =
    group_state-IsCertifiedBy program 1000 (record { id = 21; is_primary = true }) certified_there
