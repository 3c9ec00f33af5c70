-- ===== src/Runtime/Aim/Demands.antt =====
-- What a part must show at a selected time (`evaluatePartEvidence` in
-- packages/runtime/src/aim/evidence-policy.ts).
use agent_builder.Common.{
  ℕ, ltb, ◌==◌, Bool, true, false, not, ◌&&◌, ◌||◌, List, [], ◌∷◌, ◌++◌, Option, none, some,
  is_some, is_none, if◌then◌else◌, keep, mem, any,
}
use agent_builder.Runtime.Aim.{
  is_go, is_satisfied, is_conflicting, EvidenceReference, Source, CriterionResult, Criterion,
  Milestone, PartStatus, Part, Program, is_older, find_source, source_hours, is_evidence_fresh,
  latest_at, add_ids, sort_ids, GateStatus, gate_satisfied, not_applicable, evidence_missing,
  evidence_stale, criteria_unsatisfied, metrics_missing, source_conflict, source_stale,
  is_gate_satisfied,
}

-- What the loops gather.
pub record Demand : Type 0 where
  pub evidence_ids : List ℕ
  pub metric_ids : List ℕ
  pub criterion_ids : List ℕ
  pub criteria_unsatisfied : Bool

abbrev pub result_at : Criterion → ℕ → Option CriterionResult
result_at c selected = latest_at (λ (r : CriterionResult). r.effective_at) c.result_history selected

abbrev pub is_result_satisfied : Option CriterionResult → Bool
is_result_satisfied none = false
is_result_satisfied (some r) = is_satisfied r.state

abbrev pub result_evidence : Option CriterionResult → List ℕ
result_evidence none = []
result_evidence (some r) = r.evidence_refs

abbrev pub concerns : Part → Criterion → Bool
concerns part c = c.required && mem part.id c.affected_part_ids

abbrev pub add_criterion : Part → ℕ → Demand → Criterion → Demand
add_criterion part selected d c =
    if concerns part c
    then record {
      evidence_ids =
          add_ids (result_evidence (result_at c selected)) (add_ids c.evidence_refs d.evidence_ids);
      metric_ids = add_ids c.required_metric_ids d.metric_ids;
      criterion_ids = d.criterion_ids ++ (c.id ∷ []);
      criteria_unsatisfied =
          d.criteria_unsatisfied || not (is_result_satisfied (result_at c selected));
    }
    else d

abbrev pub add_criteria : Part → ℕ → Demand → List Criterion → Demand
add_criteria part selected d [] = d
add_criteria part selected d (c ∷ cs) =
    add_criteria part selected (add_criterion part selected d c) cs

abbrev pub add_milestones : Part → ℕ → Demand → List Milestone → Demand
add_milestones part selected d [] = d
add_milestones part selected d (m ∷ ms) =
    add_milestones part selected (add_criteria part selected d m.gate_criteria) ms

abbrev pub status_evidence : Option PartStatus → List ℕ
status_evidence none = []
status_evidence (some s) = s.evidence_refs

abbrev pub first_demand : Part → Option PartStatus → Demand
first_demand part status = record {
  evidence_ids = add_ids (status_evidence status) (add_ids part.evidence_refs []);
  metric_ids = [];
  criterion_ids = [];
  criteria_unsatisfied = false;
}

abbrev pub latency_ids : Part → List (Option ℕ)
latency_ids part =
    part.baseline_latency_metric_id ∷ part.current_latency_metric_id ∷ part.target_latency_metric_id
    ∷ []

abbrev pub defined_ids : List (Option ℕ) → List ℕ
defined_ids [] = []
defined_ids (none ∷ ids) = defined_ids ids
defined_ids (some id ∷ ids) = id ∷ defined_ids ids

abbrev pub add_latency : Part → Demand → Demand
add_latency part d =
    if any is_some (latency_ids part)
    then record d {
      metric_ids = add_ids (defined_ids (latency_ids part)) d.metric_ids;
      criteria_unsatisfied = d.criteria_unsatisfied || any is_none (latency_ids part);
    }
    else d

abbrev pub demand : Program → Part → Option PartStatus → ℕ → Demand
demand p part status selected =
    add_latency part (add_milestones part selected (first_demand part status) p.milestones)

-- `evidenceById.get`: the last of an identifier.
abbrev pub find_evidence_from :
    ℕ → Option EvidenceReference → List EvidenceReference → Option EvidenceReference
find_evidence_from id found [] = found
find_evidence_from id found (e ∷ es) =
    find_evidence_from id (if e.id == id then some e else found) es

abbrev pub find_evidence : Program → ℕ → Option EvidenceReference
find_evidence p id = find_evidence_from id none p.evidence

abbrev pub is_unavailable_at : ℕ → Option EvidenceReference → Bool
is_unavailable_at selected none = true
is_unavailable_at selected (some e) = ltb selected e.observed_at

abbrev pub is_stale_at : Program → ℕ → Option EvidenceReference → Bool
is_stale_at p selected none = false
is_stale_at p selected (some e) =
    not (ltb selected e.observed_at) && not (is_evidence_fresh e p selected)

abbrev pub missing_evidence : Program → ℕ → List ℕ → List ℕ
missing_evidence p selected ids = keep (λ id. is_unavailable_at selected (find_evidence p id)) ids

abbrev pub stale_evidence : Program → ℕ → List ℕ → List ℕ
stale_evidence p selected ids = keep (λ id. is_stale_at p selected (find_evidence p id)) ids

abbrev pub available_evidence : Program → ℕ → List ℕ → List ℕ
available_evidence p selected ids =
    keep
      (λ id.
        not (is_unavailable_at selected (find_evidence p id))
        && not (is_stale_at p selected (find_evidence p id)))
      ids

abbrev pub is_empty : List ℕ → Bool
is_empty [] = true
is_empty (x ∷ xs) = false

abbrev pub status_source : Program → Option PartStatus → Option Source
status_source p none = none
status_source p (some s) = find_source p s.source_ref

abbrev pub is_conflicting_source : Option Source → Bool
is_conflicting_source none = false
is_conflicting_source (some s) = is_conflicting s.reconciliation_status

abbrev pub is_stale_source : Program → ℕ → Option Source → Bool
is_stale_source p selected none = false
is_stale_source p selected (some s) = is_older s.observed_at selected (source_hours p (some s))

abbrev pub is_go_status : Option PartStatus → Bool
is_go_status none = false
is_go_status (some s) = is_go s.readiness

-- `AimEvidenceGate`, less the reasons.
pub record EvidenceGate : Type 0 where
  pub status : GateStatus
  pub may_render_go : Bool
  pub warning : Bool
  pub evidence_ids : List ℕ
  pub stale_evidence_ids : List ℕ
  pub missing_metric_ids : List ℕ
  pub criterion_ids : List ℕ

-- `metrics.has`, of the metrics that have a state.
abbrev pub missing_metrics : (ℕ → Bool) → List ℕ → List ℕ
missing_metrics has_metric ids = keep (λ id. not (has_metric id)) ids

module _ (p : Program) (part : Part) (status : Option PartStatus) (selected : ℕ)
    (has_metric : ℕ → Bool) where
  abbrev pub gate_status : GateStatus
  gate_status =
      let d = demand p part status selected in
      if is_conflicting_source (status_source p status)
      then source_conflict
      else if is_stale_source p selected (status_source p status)
      then source_stale
      else if is_go_status status && is_empty d.evidence_ids
      then evidence_missing
      else if not (is_empty (missing_evidence p selected d.evidence_ids))
      then evidence_missing
      else if not (is_empty (stale_evidence p selected d.evidence_ids))
      then evidence_stale
      else if not (is_empty (missing_metrics has_metric d.metric_ids))
      then metrics_missing
      else if d.criteria_unsatisfied
      then criteria_unsatisfied
      else if not (is_go_status status)
      then not_applicable
      else gate_satisfied

  unfoldable pub evaluate_part_evidence : EvidenceGate
  evaluate_part_evidence =
      let d = demand p part status selected in
      let may = is_go_status status && is_gate_satisfied gate_status in
      record {
        status = gate_status;
        may_render_go = may;
        warning = is_go_status status && not may;
        evidence_ids = sort_ids (available_evidence p selected d.evidence_ids);
        stale_evidence_ids = sort_ids (stale_evidence p selected d.evidence_ids);
        missing_metric_ids = sort_ids (missing_metrics has_metric d.metric_ids);
        criterion_ids = sort_ids d.criterion_ids;
      }
