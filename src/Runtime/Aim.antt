-- ===== src/Runtime/Aim.antt =====
-- The evidence policy of a program (packages/runtime/src/aim/evidence-policy.ts): what a part must show
-- at a selected time before it may be drawn as ready. Identifiers are numbers in the order of their
-- texts; the reasons, a text for each status, are left out.

pub mod Demands
pub mod Gathered
pub mod Gates
pub mod Latest
pub mod States
pub mod Certified
mod Examples
use agent_builder.Common.{
  ℕ, ◌-◌, ◌*◌, ltb, leb, ◌==◌, Bool, true, false, not, ◌&&◌, ◌||◌, List, [], ◌∷◌, ◌++◌, Option,
  none, some, is_some, is_none, if◌then◌else◌, keep, find_first, mem, map, any,
}

pub data Lifecycle : Type 0 where
  planned poc pilot production retired : Lifecycle

pub data Readiness : Type 0 where
  unknown no_go conditional go : Readiness

abbrev pub is_go : Readiness → Bool
is_go go = true
is_go unknown = false
is_go no_go = false
is_go conditional = false

pub data CriterionState : Type 0 where
  unknown_result unsatisfied satisfied : CriterionState

abbrev pub is_satisfied : CriterionState → Bool
is_satisfied satisfied = true
is_satisfied unsatisfied = false
is_satisfied unknown_result = false

pub data ReconciliationStatus : Type 0 where
  authoritative corroborated conflicting unverified : ReconciliationStatus

abbrev pub is_conflicting : ReconciliationStatus → Bool
is_conflicting conflicting = true
is_conflicting authoritative = false
is_conflicting corroborated = false
is_conflicting unverified = false

pub record EvidenceReference : Type 0 where
  pub id : ℕ
  pub source_id : ℕ
  pub observed_at : ℕ
  pub freshness_sla_hours : Option ℕ

pub record Source : Type 0 where
  pub id : ℕ
  pub observed_at : ℕ
  pub freshness_sla_hours : Option ℕ
  pub reconciliation_status : ReconciliationStatus
  pub synthetic : Bool

pub record CriterionResult : Type 0 where
  pub effective_at : ℕ
  pub state : CriterionState
  pub evidence_refs : List ℕ

pub record Criterion : Type 0 where
  pub id : ℕ
  pub required : Bool
  pub affected_part_ids : List ℕ
  pub required_metric_ids : List ℕ
  pub evidence_refs : List ℕ
  pub result_history : List CriterionResult

pub record Milestone : Type 0 where
  pub gate_criteria : List Criterion

pub record PartStatus : Type 0 where
  pub effective_at : ℕ
  pub lifecycle : Lifecycle
  pub readiness : Readiness
  pub evidence_refs : List ℕ
  pub source_ref : ℕ

pub record Part : Type 0 where
  pub id : ℕ
  pub evidence_refs : List ℕ
  pub baseline_latency_metric_id : Option ℕ
  pub current_latency_metric_id : Option ℕ
  pub target_latency_metric_id : Option ℕ

pub data CertificationStatus : Type 0 where
  candidate certified : CertificationStatus

pub record Agent : Type 0 where
  pub id : ℕ
  pub certification_status : CertificationStatus
  pub synthetic : Bool
  pub group_ids : List ℕ
  pub certification_evidence_refs : List ℕ
  pub source_refs : List ℕ

pub record Group : Type 0 where
  pub id : ℕ
  pub is_primary : Bool

-- The values of metrics are numbers that nothing here computes with.
pub record Observation : Type 0 where
  pub observed_at : ℕ
  pub value : ℕ
  pub source_ref : ℕ
  pub evidence_refs : List ℕ

pub record MetricSeries : Type 0 where
  pub id : ℕ
  pub observations : List Observation

pub record Workstream : Type 0 where
  pub id : ℕ
  pub source_refs : List ℕ

pub data InterfaceState : Type 0 where
  interface_planned manual governed stale interface_retired : InterfaceState

pub record InterfaceEvent : Type 0 where
  pub effective_at : ℕ
  pub state : InterfaceState
  pub evidence_refs : List ℕ

pub record InterfaceContract : Type 0 where
  pub id : ℕ
  pub evidence_refs : List ℕ
  pub status_history : List InterfaceEvent

-- `AimProgramManifest`, as far as the policy and the states read it.
pub record Program : Type 0 where
  pub default_evidence_freshness_sla_hours : ℕ
  pub sources : List Source
  pub evidence : List EvidenceReference
  pub milestones : List Milestone
  pub synthetic : Bool
  pub agents : List Agent
  pub groups : List Group
  pub metrics : List MetricSeries
  pub workstreams : List Workstream
  pub interfaces : List InterfaceContract

-- `ageHours` compared with a number of hours, in milliseconds; an age is not below 0.
abbrev pub is_older : ℕ → ℕ → ℕ → Bool
is_older observed_at selected hours = ltb (hours * 3600000) (selected - observed_at)

abbrev pub or_default : Option ℕ → ℕ → ℕ
or_default none n = n
or_default (some m) n = m

abbrev pub find_source : Program → ℕ → Option Source
find_source p id = find_first (λ s. s.id == id) p.sources

abbrev pub source_hours : Program → Option Source → ℕ
source_hours p none = p.default_evidence_freshness_sla_hours
source_hours p (some s) = or_default s.freshness_sla_hours p.default_evidence_freshness_sla_hours

abbrev pub is_evidence_fresh : EvidenceReference → Program → ℕ → Bool
is_evidence_fresh e p selected =
    if ltb selected e.observed_at
    then false
    else not (
        is_older e.observed_at selected
          (or_default e.freshness_sla_hours (source_hours p (find_source p e.source_id))))

-- `latestAt`: the fold over the history.
abbrev pub newer {ℓ} : {A : Type ℓ} → (A → ℕ) → ℕ → Option A → A → Option A
newer effective_at selected none event =
    if leb (effective_at event) selected then some event else none
newer effective_at selected (some latest) event =
    if leb (effective_at event) selected && ltb (effective_at latest) (effective_at event)
    then some event
    else some latest

abbrev pub latest_from {ℓ} : {A : Type ℓ} → (A → ℕ) → ℕ → Option A → List A → Option A
latest_from effective_at selected latest [] = latest
latest_from effective_at selected latest (event ∷ events) =
    latest_from effective_at selected (newer effective_at selected latest event) events

abbrev pub latest_at {ℓ} : {A : Type ℓ} → (A → ℕ) → List A → ℕ → Option A
latest_at effective_at history selected = latest_from effective_at selected none history

-- `Set.add`, and `forEach` of it.
abbrev pub add_id : ℕ → List ℕ → List ℕ
add_id id ids = if mem id ids then ids else ids ++ (id ∷ [])

abbrev pub add_ids : List ℕ → List ℕ → List ℕ
add_ids [] ids = ids
add_ids (x ∷ xs) ids = add_ids xs (add_id x ids)

-- `[...ids].sort()`.
abbrev insert_id : ℕ → List ℕ → List ℕ
insert_id x [] = x ∷ []
insert_id x (y ∷ ys) = let rest = insert_id x ys in if ltb x y then x ∷ y ∷ ys else y ∷ rest

abbrev pub sort_ids : List ℕ → List ℕ
sort_ids [] = []
sort_ids (x ∷ xs) = insert_id x (sort_ids xs)

pub data GateStatus : Type 0 where
  gate_satisfied not_applicable evidence_missing evidence_stale criteria_unsatisfied metrics_missing
        source_conflict source_stale :
      GateStatus

abbrev pub is_gate_satisfied : GateStatus → Bool
is_gate_satisfied gate_satisfied = true
is_gate_satisfied not_applicable = false
is_gate_satisfied evidence_missing = false
is_gate_satisfied evidence_stale = false
is_gate_satisfied criteria_unsatisfied = false
is_gate_satisfied metrics_missing = false
is_gate_satisfied source_conflict = false
is_gate_satisfied source_stale = false
