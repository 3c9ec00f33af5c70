-- ===== src/Backend/Examples.antt =====
-- The semaphore and the transitions (apps/backend/src) on short histories.
use agent_builder.Common.{◌≡◌, ◌↔◌, refl, true, any, leb, none, some, ok, List, [], ◌∷◌, All, arith}
use agent_builder.Backend.Semaphore.{
  Semaphore, Session, new_semaphore, acquire, release, arrive, leave, Reached, opened, arrived,
  left, IsFair, Reached-IsFair,
}
use agent_builder.Backend.Lifecycle.{
  AgentStatus, assert_agent_transition, assert_allowed, agent_transitions, Walk, here, next,
}
use agent_builder.Backend.Access.{
  PlatformRole, role_rank, require_minimum_role, require_minimum_role-ok, AggregateScope, selects,
  aggregate_scope_where, is_in_principal_scope, selects-aggregate_scope_where,
}
use agent_builder.Backend.Walks.{stages, visits, Walk-stages}

abbrev idle : Semaphore
idle = record { active = 0; waiting = []; capacity = 1 }

abbrev fresh : Session
fresh = record { semaphore = idle; entered = []; ended = 0 }

-- Two operations come, the first one ends.
history : Reached 1 (4 ∷ 5 ∷ []) (leave (arrive 5 (arrive 4 fresh)))
unfolding new_semaphore arrive leave acquire release
history = left (arrived 5 (arrived 4 (opened idle refl))) (omega arith)

Reached-IsFair_example : IsFair 1 (4 ∷ 5 ∷ []) (leave (arrive 5 (arrive 4 fresh)))
Reached-IsFair_example = Reached-IsFair 1 (4 ∷ 5 ∷ []) (leave (arrive 5 (arrive 4 fresh))) history

abbrev visited : List AgentStatus
visited = AgentStatus.generating ∷ AgentStatus.draft ∷ []

agent-Walk : Walk assert_agent_transition AgentStatus.draft visited AgentStatus.ready
unfolding assert_agent_transition agent_transitions assert_allowed
agent-Walk = next AgentStatus.ready (next AgentStatus.generating here refl) refl

Walk-stages_example : All (λ s. visits visited s ≡ true) (stages AgentStatus.ready)
Walk-stages_example = Walk-stages visited AgentStatus.ready agent-Walk

abbrev roles : List PlatformRole
roles = PlatformRole.builder ∷ []

require_minimum_role-ok_example :
    (require_minimum_role roles PlatformRole.owner ≡ ok tt)
    ↔ (any (λ r. leb (role_rank PlatformRole.owner) (role_rank r)) roles ≡ true)
require_minimum_role-ok_example = require_minimum_role-ok roles PlatformRole.owner

abbrev principal : AggregateScope
principal = record { workspace = 1; department = some 2 }

abbrev global_record : AggregateScope
global_record = record { workspace = 1; department = none }

selects-aggregate_scope_where_example :
    selects (aggregate_scope_where principal) global_record
    ≡ is_in_principal_scope global_record principal
selects-aggregate_scope_where_example = selects-aggregate_scope_where principal global_record
