-- ===== src/Runtime/Aim/States.antt =====
-- The states of agents, groups, metrics, workstreams and interfaces at a selected time
-- (packages/runtime/src/aim/state-at-time.ts). Labels and other fields that are passed on are left out.
use agent_builder.Common.{
  ℕ, ltb, ◌==◌, Bool, true, false, not, ◌&&◌, ◌||◌, List, [], ◌∷◌, Option, none, some,
  if◌then◌else◌, keep, mem, map, all, length,
}
use agent_builder.Runtime.Aim.{
  is_conflicting, Source, EvidenceReference, CertificationStatus, candidate, certified, Agent,
  Group, Observation, MetricSeries, Workstream, InterfaceState, interface_planned, manual, governed,
  stale, interface_retired, InterfaceEvent, InterfaceContract, Program, is_older, find_source,
  source_hours, is_evidence_fresh, latest_at, sort_ids,
}
use agent_builder.Runtime.Aim.Demands.{find_evidence}

-- `sourceById.get`: the last of an identifier.
abbrev pub last_source : ℕ → Option Source → List Source → Option Source
last_source id found [] = found
last_source id found (s ∷ ss) = last_source id (if s.id == id then some s else found) ss

abbrev pub source_by_id : Program → ℕ → Option Source
source_by_id p id = last_source id none p.sources

abbrev pub is_certified : CertificationStatus → Bool
is_certified certified = true
is_certified candidate = false

abbrev pub is_usable : Program → Option Source → Bool
is_usable p none = false
is_usable p (some s) =
    not (is_conflicting s.reconciliation_status) && (p.synthetic || not s.synthetic)

abbrev pub is_usable_evidence : Program → ℕ → Option EvidenceReference → Bool
is_usable_evidence p selected none = false
is_usable_evidence p selected (some e) =
    is_usable p (source_by_id p e.source_id) && is_evidence_fresh e p selected

abbrev pub has_any : List ℕ → Bool
has_any [] = false
has_any (x ∷ xs) = true

unfoldable pub certification_evidence_fresh : Program → ℕ → Agent → Bool
certification_evidence_fresh p selected a =
    all (λ id. is_usable p (source_by_id p id)) a.source_refs
    && has_any a.certification_evidence_refs
    && all (λ id. is_usable_evidence p selected (find_evidence p id)) a.certification_evidence_refs

pub record AgentState : Type 0 where
  pub id : ℕ
  pub certification_status : CertificationStatus
  pub evidence_fresh : Bool
  pub synthetic : Bool
  pub group_ids : List ℕ

abbrev pub agent_state : Program → ℕ → Agent → AgentState
agent_state p selected a = record {
  id = a.id;
  certification_status = a.certification_status;
  evidence_fresh = certification_evidence_fresh p selected a;
  synthetic = a.synthetic;
  group_ids = a.group_ids;
}

abbrev pub counts_as_certified : Program → AgentState → Bool
counts_as_certified p a =
    is_certified a.certification_status && a.evidence_fresh && (p.synthetic || not a.synthetic)

pub record GroupState : Type 0 where
  pub id : ℕ
  pub is_primary : Bool
  pub agent_ids : List ℕ
  pub certified_agent_count : ℕ
  pub has_certified_agent : Bool

abbrev pub group_agents : Program → ℕ → Group → List AgentState
group_agents p selected g = keep (λ a. mem g.id a.group_ids) (map (agent_state p selected) p.agents)

abbrev pub certified_agents : Program → ℕ → Group → List AgentState
certified_agents p selected g = keep (counts_as_certified p) (group_agents p selected g)

unfoldable pub group_state : Program → ℕ → Group → GroupState
group_state p selected g = record {
  id = g.id;
  is_primary = g.is_primary;
  agent_ids = map (λ (a : AgentState). a.id) (group_agents p selected g);
  certified_agent_count = length (certified_agents p selected g);
  has_certified_agent = ltb 0 (length (certified_agents p selected g));
}

-- `groupCoverage`.
abbrev pub groups_without_certified_agent : Program → ℕ → List ℕ
groups_without_certified_agent p selected =
    map (λ (g : GroupState). g.id)
      (keep (λ g. not g.has_certified_agent)
        (keep (λ g. g.is_primary) (map (group_state p selected) p.groups)))

pub record MetricState : Type 0 where
  pub id : ℕ
  pub value : ℕ
  pub observed_at : ℕ
  pub source_ref : ℕ
  pub evidence_refs : List ℕ
  pub is_stale : Bool

abbrev metric_observed : Program → ℕ → MetricSeries → Option Observation → Option MetricState
metric_observed p selected m none = none
metric_observed p selected m (some o) = some (record {
  id = m.id;
  value = o.value;
  observed_at = o.observed_at;
  source_ref = o.source_ref;
  evidence_refs = o.evidence_refs;
  is_stale = is_older o.observed_at selected (source_hours p (find_source p o.source_ref));
})

unfoldable pub metric_at : Program → ℕ → MetricSeries → Option MetricState
metric_at p selected m =
    metric_observed p selected m
      (latest_at (λ (o : Observation). o.observed_at) m.observations selected)

-- `workstreamStates`: a workstream all of whose sources are there, agree and are current.
abbrev pub is_current_source : Program → ℕ → Option Source → Bool
is_current_source p selected none = false
is_current_source p selected (some s) = not (
    is_conflicting s.reconciliation_status
    || ltb selected s.observed_at
    || is_older s.observed_at selected (source_hours p (some s)))

unfoldable pub workstream_states : Program → ℕ → List Workstream
workstream_states p selected =
    keep
      (λ w.
        has_any w.source_refs
        && all (λ id. is_current_source p selected (source_by_id p id)) w.source_refs)
      p.workstreams

abbrev pub is_governed : InterfaceState → Bool
is_governed governed = true
is_governed interface_planned = false
is_governed manual = false
is_governed stale = false
is_governed interface_retired = false

pub record InterfaceView : Type 0 where
  pub id : ℕ
  pub state : InterfaceState
  pub effective_at : Option ℕ
  pub evidence_refs : List ℕ
  pub is_governed_now : Bool

abbrev interface_view : InterfaceContract → Option InterfaceEvent → InterfaceView
interface_view c none = record {
  id = c.id;
  state = interface_planned;
  effective_at = none;
  evidence_refs = c.evidence_refs;
  is_governed_now = false;
}
interface_view c (some e) = record {
  id = c.id;
  state = e.state;
  effective_at = some e.effective_at;
  evidence_refs = e.evidence_refs;
  is_governed_now = is_governed e.state;
}

unfoldable pub interface_states : Program → ℕ → List InterfaceView
interface_states p selected =
    map
      (λ (c : InterfaceContract).
        interface_view c
          (latest_at (λ (e : InterfaceEvent). e.effective_at) c.status_history selected))
      p.interfaces

abbrev pub available_evidence_ids : Program → ℕ → List ℕ
available_evidence_ids p selected =
    sort_ids (
      map (λ (e : EvidenceReference). e.id) (keep (λ e. is_evidence_fresh e p selected) p.evidence))
