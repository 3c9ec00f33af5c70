-- ===== src/Backend/Lifecycle.antt =====
-- The transitions of agents, specifications, generation jobs and certification runs
-- (packages/contracts/src/state-machines.ts, apps/backend/src/services/transitions.ts).
use agent_builder.Common.{
  ℕ, ◌≡◌, Bool, List, [], ◌∷◌, Result, ok, err, ◌==◌, if◌then◌else◌, any, String,
}

pub data AgentStatus : Type 0 where
  draft generating ready shadow certifying certified rejected active failed retired : AgentStatus

pub data SpecStatus : Type 0 where
  draft ready generating generated : SpecStatus

pub data JobStatus : Type 0 where
  queued running succeeded failed : JobStatus

pub data CertificationRunState : Type 0 where
  queued running passed failed error : CertificationRunState

-- The comparison of names that `includes` makes, by number.
abbrev pub agent_number : AgentStatus → ℕ
agent_number draft = 0
agent_number generating = 1
agent_number ready = 2
agent_number shadow = 3
agent_number certifying = 4
agent_number certified = 5
agent_number rejected = 6
agent_number active = 7
agent_number failed = 8
agent_number retired = 9

abbrev pub spec_number : SpecStatus → ℕ
spec_number draft = 0
spec_number ready = 1
spec_number generating = 2
spec_number generated = 3

abbrev pub job_number : JobStatus → ℕ
job_number queued = 0
job_number running = 1
job_number succeeded = 2
job_number failed = 3

abbrev pub certification_number : CertificationRunState → ℕ
certification_number queued = 0
certification_number running = 1
certification_number passed = 2
certification_number failed = 3
certification_number error = 4

unfoldable pub agent_transitions : AgentStatus → List AgentStatus
agent_transitions draft = generating ∷ retired ∷ []
agent_transitions generating = ready ∷ failed ∷ []
agent_transitions ready = shadow ∷ retired ∷ []
agent_transitions shadow = certifying ∷ failed ∷ retired ∷ []
agent_transitions certifying = certified ∷ rejected ∷ shadow ∷ []
agent_transitions certified = certifying ∷ active ∷ retired ∷ []
agent_transitions rejected = retired ∷ []
agent_transitions active = retired ∷ []
agent_transitions failed = draft ∷ retired ∷ []
agent_transitions retired = []

unfoldable pub spec_transitions : SpecStatus → List SpecStatus
spec_transitions draft = ready ∷ []
spec_transitions ready = generating ∷ []
spec_transitions generating = generated ∷ ready ∷ []
spec_transitions generated = []

unfoldable pub job_transitions : JobStatus → List JobStatus
job_transitions queued = running ∷ failed ∷ []
job_transitions running = succeeded ∷ failed ∷ []
job_transitions succeeded = []
job_transitions failed = []

unfoldable pub certification_transitions : CertificationRunState → List CertificationRunState
certification_transitions queued = running ∷ error ∷ []
certification_transitions running = passed ∷ failed ∷ error ∷ []
certification_transitions passed = []
certification_transitions failed = []
certification_transitions error = []

abbrev pub can_transition {ℓ} : {A : Type ℓ} → (A → ℕ) → (A → List A) → A → A → Bool
can_transition number transitions from to = any (λ x. number x == number to) (transitions from)

-- `assertAllowed`: the error is its code.
unfoldable pub assert_allowed {ℓ} :
    {A : Type ℓ} → (A → ℕ) → (A → List A) → A → A → String → Result (Unit {0})
assert_allowed number transitions from to code =
    if can_transition number transitions from to then ok tt else err code

unfoldable pub assert_agent_transition : AgentStatus → AgentStatus → Result (Unit {0})
unfolding agent_transitions assert_allowed
assert_agent_transition from to =
    assert_allowed agent_number agent_transitions from to "INVALID_AGENT_TRANSITION"

unfoldable pub assert_spec_transition : SpecStatus → SpecStatus → Result (Unit {0})
unfolding spec_transitions assert_allowed
assert_spec_transition from to =
    assert_allowed spec_number spec_transitions from to "INVALID_SPEC_TRANSITION"

unfoldable pub assert_job_transition : JobStatus → JobStatus → Result (Unit {0})
unfolding job_transitions assert_allowed
assert_job_transition from to =
    assert_allowed job_number job_transitions from to "INVALID_JOB_TRANSITION"

unfoldable pub assert_certification_transition :
    CertificationRunState → CertificationRunState → Result (Unit {0})
unfolding certification_transitions assert_allowed
assert_certification_transition from to =
    assert_allowed certification_number certification_transitions from to
      "INVALID_CERTIFICATION_TRANSITION"

-- The states that the transitions lead through, the latest first.
pub data Walk {ℓ} {A : Type ℓ} (step : A → A → Result (Unit {0})) (from : A)
    : List A → A → Type ℓ where
  here : Walk step from [] from
  next :
      {visited : List A} {at : A} (to : A)
      → Walk step from visited at
      → step at to ≡ ok tt
      → Walk step from (at ∷ visited) to
