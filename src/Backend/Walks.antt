-- ===== src/Backend/Walks.antt =====
-- The histories that the transitions allow (packages/contracts/src/state-machines.ts).
use agent_builder.Common.{
  ℕ, zero, suc, ◌≤◌, ◌<◌, ◌≡◌, ◌∙◌, refl, sym, ap, subst, All, length, ℕ_discrete, ==_iff, Bool,
  true, List, [], ◌∷◌, Result, ok, ◌==◌, any, String, arith,
}
use agent_builder.Backend.Lifecycle.{
  AgentStatus, draft, generating, ready, shadow, certifying, certified, rejected, active, failed,
  retired, JobStatus, queued, running, succeeded, CertificationRunState, passed, error,
  agent_number, job_number, certification_number, agent_transitions, job_transitions,
  certification_transitions, assert_allowed, assert_agent_transition, assert_job_transition,
  assert_certification_transition, Walk, here, next,
}

-- A name is the only one with its number, if the number can be read back.
any-elim {ℓ κ} :
    {A : Type ℓ} (P : A → Type κ) (number : A → ℕ) (named : ℕ → A) (to : A) (xs : List A)
    → ((a : A) → named (number a) ≡ a)
    → All P xs
    → any (λ x. number x == number to) xs ≡ true
    → P to
any-elim P number named to [] back h e = cc
any-elim P number named to (x ∷ xs) back h e = elim (ℕ_discrete (number x) (number to)) [
  | yes q ↦ subst P (sym (back x) ∙ ap named q ∙ back to) h.0
  | no n ↦ any-elim P number named to xs back h.1 (ground (arith, ==_iff (number x) (number to)))
]

assert_allowed-elim {ℓ κ} :
    {A : Type ℓ} (P : A → Type κ) (number : A → ℕ) (named : ℕ → A) (transitions : A → List A)
    (from to : A) (code : String)
    → ((a : A) → named (number a) ≡ a)
    → All P (transitions from)
    → assert_allowed number transitions from to code ≡ ok tt
    → P to
unfolding assert_allowed
assert_allowed-elim P number named transitions from to code back h e =
    any-elim P number named to (transitions from) back h (ground (arith, e))

-- The entry at a position, or another value past the end.
abbrev entry {ℓ} : {A : Type ℓ} → A → List A → ℕ → A
entry a [] n = a
entry a (x ∷ xs) zero = x
entry a (x ∷ xs) (suc n) = entry a xs n

-- An agent's state by its number.
agent_named : ℕ → AgentStatus
agent_named =
    entry retired (
      draft ∷ generating ∷ ready ∷ shadow ∷ certifying ∷ certified ∷ rejected ∷ active ∷ failed
      ∷ [])

agent_named-agent_number : (s : AgentStatus) → agent_named (agent_number s) ≡ s
unfolding agent_named
agent_named-agent_number draft = refl
agent_named-agent_number generating = refl
agent_named-agent_number ready = refl
agent_named-agent_number shadow = refl
agent_named-agent_number certifying = refl
agent_named-agent_number certified = refl
agent_named-agent_number rejected = refl
agent_named-agent_number active = refl
agent_named-agent_number failed = refl
agent_named-agent_number retired = refl

-- The states without which a draft does not come to a state.
abbrev pub stages : AgentStatus → List AgentStatus
stages ready = generating ∷ []
stages shadow = generating ∷ ready ∷ []
stages certifying = generating ∷ ready ∷ shadow ∷ []
stages certified = generating ∷ ready ∷ shadow ∷ certifying ∷ []
stages rejected = generating ∷ ready ∷ shadow ∷ certifying ∷ []
stages active = generating ∷ ready ∷ shadow ∷ certifying ∷ certified ∷ []
stages _ = []

abbrev pub visits : List AgentStatus → AgentStatus → Bool
visits visited s = any (λ x. agent_number x == agent_number s) visited

visits-next :
    (visited : List AgentStatus) (at to : AgentStatus)
    → All (λ s. visits visited s ≡ true) (stages at)
    → assert_agent_transition at to ≡ ok tt
    → All (λ s. visits (at ∷ visited) s ≡ true) (stages to)
unfolding assert_agent_transition agent_transitions
visits-next visited at to h e =
    assert_allowed-elim (λ x. All (λ s. visits (at ∷ visited) s ≡ true) (stages x)) agent_number
      agent_named agent_transitions at to "INVALID_AGENT_TRANSITION" agent_named-agent_number
      (onward at h) e
  where
    onward :
        (x : AgentStatus)
        → All (λ s. visits visited s ≡ true) (stages x)
        → All (λ y. All (λ s. visits (x ∷ visited) s ≡ true) (stages y)) (agent_transitions x)
    onward draft h = ground arith
    onward generating h = ground arith
    onward ready h = ground arith
    onward shadow h = ground arith
    onward certifying h = ground arith
    onward certified h = ground arith
    onward rejected h = ground arith
    onward active h = ground arith
    onward failed h = ground arith
    onward retired h = ground arith

-- However its state changes, an agent that was a draft is active only after it was generated, made
-- ready, shadowed and certified; and each of these states only after those before it.
pub Walk-stages :
    (visited : List AgentStatus) (at : AgentStatus)
    → Walk assert_agent_transition draft visited at
    → All (λ s. visits visited s ≡ true) (stages at)
Walk-stages _ _ here = tt
Walk-stages _ _ (next to w e) = visits-next _ _ to (Walk-stages _ _ w) e

job_named : ℕ → JobStatus
job_named = entry failed (queued ∷ running ∷ succeeded ∷ [])

job_named-job_number : (s : JobStatus) → job_named (job_number s) ≡ s
unfolding job_named
job_named-job_number queued = refl
job_named-job_number running = refl
job_named-job_number succeeded = refl
job_named-job_number failed = refl

certification_named : ℕ → CertificationRunState
certification_named = entry error (queued ∷ running ∷ passed ∷ failed ∷ [])

certification_named-number :
    (s : CertificationRunState) → certification_named (certification_number s) ≡ s
unfolding certification_named
certification_named-number queued = refl
certification_named-number running = refl
certification_named-number passed = refl
certification_named-number failed = refl
certification_named-number error = refl

-- A walk along which a bounded rank grows is short.
Walk-length {ℓ} :
    {A : Type ℓ} (step : A → A → Result (Unit {0})) (rank : A → ℕ) (from : A)
    → ((x y : A) → step x y ≡ ok tt → rank x < rank y)
    → (visited : List A) (at : A) → Walk step from visited at
    → length visited ≤ rank at
Walk-length step rank from grows _ _ here = omega arith
Walk-length step rank from grows _ _ (next {visited} {at} to w e) =
    omega (arith, Walk-length step rank from grows visited at w, grows at to e)

abbrev job_rank : JobStatus → ℕ
job_rank queued = 0
job_rank running = 1
job_rank _ = 2

abbrev certification_rank : CertificationRunState → ℕ
certification_rank queued = 0
certification_rank running = 1
certification_rank _ = 2

job_rank-grows : (x y : JobStatus) → assert_job_transition x y ≡ ok tt → job_rank x < job_rank y
unfolding assert_job_transition job_transitions
job_rank-grows x y e =
    assert_allowed-elim (λ z. job_rank x < job_rank z) job_number job_named job_transitions x y
      "INVALID_JOB_TRANSITION" job_named-job_number (onward x) e
  where
    onward : (x : JobStatus) → All (λ z. job_rank x < job_rank z) (job_transitions x)
    onward queued = ground arith
    onward running = ground arith
    onward succeeded = tt
    onward failed = tt

certification_rank-grows :
    (x y : CertificationRunState)
    → assert_certification_transition x y ≡ ok tt
    → certification_rank x < certification_rank y
unfolding assert_certification_transition certification_transitions
certification_rank-grows x y e =
    assert_allowed-elim (λ z. certification_rank x < certification_rank z) certification_number
      certification_named certification_transitions x y "INVALID_CERTIFICATION_TRANSITION"
      certification_named-number (onward x) e
  where
    onward :
        (x : CertificationRunState)
        → All (λ z. certification_rank x < certification_rank z) (certification_transitions x)
    onward queued = ground arith
    onward running = ground arith
    onward passed = tt
    onward failed = tt
    onward error = tt

-- The state of a generation job changes at most twice, from whatever state.
job_Walk-length :
    (from : JobStatus) (visited : List JobStatus) (at : JobStatus)
    → Walk assert_job_transition from visited at
    → length visited ≤ 2
job_Walk-length from visited at w =
    omega
      (arith, Walk-length assert_job_transition job_rank from job_rank-grows visited at w, top at)
  where
    top : (s : JobStatus) → job_rank s ≤ 2
    top queued = omega arith
    top running = omega arith
    top succeeded = omega arith
    top failed = omega arith

-- The state of a certification run changes at most twice, from whatever state.
certification_Walk-length :
    (from : CertificationRunState) (visited : List CertificationRunState)
    (at : CertificationRunState)
    → Walk assert_certification_transition from visited at
    → length visited ≤ 2
certification_Walk-length from visited at w = omega (
  arith,
  Walk-length assert_certification_transition certification_rank from certification_rank-grows
      visited at w,
  top at,
)
  where
    top : (s : CertificationRunState) → certification_rank s ≤ 2
    top queued = omega arith
    top running = omega arith
    top passed = omega arith
    top failed = omega arith
    top error = omega arith
