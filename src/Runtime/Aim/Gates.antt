-- ===== src/Runtime/Aim/Gates.antt =====
-- A part is drawn as ready on evidence only (packages/runtime/src/aim/evidence-policy.ts).
use agent_builder.Common.{
  ◌+◌, ◌*◌, ◌≤◌, ℕ, ◌≡◌, ◌≤◌, refl, Bool, true, false, not, ◌&&◌, List, [], ◌∷◌, Option, none, some,
  is_some, is_none, if◌then◌else◌, any, ltb, All, arith,
}
use agent_builder.Runtime.Aim.{
  or_default, source_hours, find_source, EvidenceReference, PartStatus, Part, Program,
  is_evidence_fresh, add_ids, is_gate_satisfied, gate_satisfied, not_applicable, evidence_missing,
  evidence_stale, criteria_unsatisfied, metrics_missing, source_conflict, source_stale,
}
use agent_builder.Runtime.Aim.Demands.{
  add_milestones, status_evidence, first_demand, latency_ids, defined_ids, demand, find_evidence,
  is_unavailable_at, is_stale_at, missing_evidence, stale_evidence, is_empty, status_source,
  is_conflicting_source, is_stale_source, is_go_status, missing_metrics, gate_status,
  evaluate_part_evidence,
}
use agent_builder.Runtime.Aim.Gathered.{
  keep-All, add_ids-All, IsCovered, add_milestones-IsMet, add_latency-IsMet,
}

-- The hours for which evidence is fresh: its own, those of its source, or those of the program.
abbrev pub hours_of : Program → EvidenceReference → ℕ
hours_of p e = or_default e.freshness_sla_hours (source_hours p (find_source p e.source_id))

-- The evidence is there at the selected time, and no older than its hours.
abbrev pub IsShown : Program → ℕ → ℕ → Type 0
IsShown p selected id =
    (e : EvidenceReference) × (find_evidence p id ≡ some e)
    × (e.observed_at ≤ selected)
    × (selected ≤ e.observed_at + hours_of p e * 3600000)

-- What stands behind a part that may be drawn as ready.
pub record IsReady (p : Program) (part : Part) (status : Option PartStatus) (selected : ℕ)
    (has_metric : ℕ → Bool) : Type 0 where
  pub asserted : is_go_status status ≡ true
  pub agreed : is_conflicting_source (status_source p status) ≡ false
  pub current : is_stale_source p selected (status_source p status) ≡ false
  pub some_evidence : is_empty (demand p part status selected).evidence_ids ≡ false
  pub part_shown : All (IsShown p selected) part.evidence_refs
  pub status_shown : All (IsShown p selected) (status_evidence status)
  pub criteria_covered :
      All
        (λ m.
          All
            (IsCovered (IsShown p selected) (λ id. has_metric id ≡ true) part selected)
            m.gate_criteria)
        p.milestones
  pub latency_measured :
      any is_some (latency_ids part) ≡ true
      → (any is_none (latency_ids part) ≡ false)
        × All (λ id. has_metric id ≡ true) (defined_ids (latency_ids part))

shown :
    (p : Program) (selected : ℕ) (o : Option EvidenceReference)
    → is_unavailable_at selected o ≡ false
    → is_stale_at p selected o ≡ false
    → (e : EvidenceReference) × (o ≡ some e)
      × (e.observed_at ≤ selected)
      × (selected ≤ e.observed_at + hours_of p e * 3600000)
shown p selected none u s = absurd (ground (arith, u))
shown p selected (some e) u s =
    (e, refl, ground (arith, u), recent (is_evidence_fresh e p selected) refl s)
  where
    recent :
        (b : Bool)
        → is_evidence_fresh e p selected ≡ b
        → (not (ltb selected e.observed_at) && not b) ≡ false
        → selected ≤ e.observed_at + hours_of p e * 3600000
    recent true fresh h = ground (arith, fresh)
    recent false fresh h = absurd (ground (arith, u, h))

All-IsShown :
    (p : Program) (selected : ℕ) (ids : List ℕ)
    → All (λ id. is_unavailable_at selected (find_evidence p id) ≡ false) ids
    → All (λ id. is_stale_at p selected (find_evidence p id) ≡ false) ids
    → All (IsShown p selected) ids
All-IsShown p selected [] u s = tt
All-IsShown p selected (id ∷ ids) u s =
    (shown p selected (find_evidence p id) u.0 s.0, All-IsShown p selected ids u.1 s.1)

All-has_metric :
    (has_metric : ℕ → Bool) (ids : List ℕ)
    → All (λ id. not (has_metric id) ≡ false) ids
    → All (λ id. has_metric id ≡ true) ids
All-has_metric has_metric [] h = tt
All-has_metric has_metric (id ∷ ids) h = (ground (arith, h.0), All-has_metric has_metric ids h.1)

-- The conditions of a satisfied gate, from the chain of tests.
passed :
    (b1 b2 b3 b4 b5 b6 b7 b8 : Bool)
    → is_gate_satisfied (
        if b1
        then source_conflict
        else if b2
        then source_stale
        else if b3
        then evidence_missing
        else if b4
        then evidence_missing
        else if b5
        then evidence_stale
        else if b6
        then metrics_missing
        else if b7
        then criteria_unsatisfied
        else if b8
        then not_applicable
        else gate_satisfied)
      ≡ true
    → (b1 ≡ false)
      × (b2 ≡ false)
      × (b3 ≡ false)
      × (b4 ≡ false)
      × (b5 ≡ false)
      × (b6 ≡ false)
      × (b7 ≡ false)
passed true b2 b3 b4 b5 b6 b7 b8 e = absurd (ground (arith, e))
passed false true b3 b4 b5 b6 b7 b8 e = absurd (ground (arith, e))
passed false false true b4 b5 b6 b7 b8 e = absurd (ground (arith, e))
passed false false false true b5 b6 b7 b8 e = absurd (ground (arith, e))
passed false false false false true b6 b7 b8 e = absurd (ground (arith, e))
passed false false false false false true b7 b8 e = absurd (ground (arith, e))
passed false false false false false false true b8 e = absurd (ground (arith, e))
passed false false false false false false false b8 e = (refl, refl, refl, refl, refl, refl, refl)

-- A part may be drawn as ready only if its status says so at the selected time, the source of the
-- status is neither conflicting nor stale, some evidence is asked for, all evidence of the part, of the
-- status, of every required criterion that concerns the part and of its latest result is observed by
-- then and no older than the hours that hold for it, every such criterion is satisfied by its latest result and has its metrics, and the
-- latency metrics are all declared and measured, where one is.
pub evaluate_part_evidence-IsReady :
    (p : Program) (part : Part) (status : Option PartStatus) (selected : ℕ) (has_metric : ℕ → Bool)
    → (evaluate_part_evidence p part status selected has_metric).may_render_go ≡ true
    → IsReady p part status selected has_metric
unfolding evaluate_part_evidence
evaluate_part_evidence-IsReady p part status selected has_metric may =
    let asserted : is_go_status status ≡ true = ground (arith, may) in
    let gate : is_gate_satisfied (gate_status p part status selected has_metric) ≡ true =
      ground (arith, may) in
    let d = demand p part status selected in
    let (agreed, current, evidence, present, fresh, measured, met) =
      passed (is_conflicting_source (status_source p status))
        (is_stale_source p selected (status_source p status))
        (is_go_status status && is_empty d.evidence_ids)
        (not (is_empty (missing_evidence p selected d.evidence_ids)))
        (not (is_empty (stale_evidence p selected d.evidence_ids)))
        (not (is_empty (missing_metrics has_metric d.metric_ids))) d.criteria_unsatisfied
        (not (is_go_status status)) gate in
    let all_shown =
      All-IsShown p selected d.evidence_ids
        (keep-All (λ id. is_unavailable_at selected (find_evidence p id)) d.evidence_ids
          (ground (arith, present)))
        (keep-All (λ id. is_stale_at p selected (find_evidence p id)) d.evidence_ids
          (ground (arith, fresh))) in
    let all_measured =
      All-has_metric has_metric d.metric_ids
        (keep-All (λ id. not (has_metric id)) d.metric_ids (ground (arith, measured))) in
    let (before, latency) =
      add_latency-IsMet (IsShown p selected) (λ id. has_metric id ≡ true) part selected
        (add_milestones part selected (first_demand part status) p.milestones)
        (all_shown, all_measured, met) in
    let (first, covered) =
      add_milestones-IsMet (IsShown p selected) (λ id. has_metric id ≡ true) part selected
        (first_demand part status) p.milestones before in
    let (of_status, rest) =
      add_ids-All (IsShown p selected) (status_evidence status) (add_ids part.evidence_refs [])
        first.0 in
    record {
      asserted = asserted;
      agreed = agreed;
      current = current;
      some_evidence = ground (arith, asserted, evidence);
      part_shown = (add_ids-All (IsShown p selected) part.evidence_refs [] rest).0;
      status_shown = of_status;
      criteria_covered = covered;
      latency_measured = latency;
    }
