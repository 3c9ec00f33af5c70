-- ===== src/Contracts/Examples.antt =====
-- A run that waits for its user, on which the theorems about the workstation broker are used
-- (packages/contracts/src/workstation-broker-domain.ts).
use agent_builder.Common.{ℕ, ◌≡◌, refl, true, [], ◌∷◌, none, some, ok, err, arith}
use agent_builder.Contracts.Broker.Types.{
  workstation, other, PlacementRequest, Snapshot, WorkOrderInput, WorkOrder, fixture_oidc,
  Handshake, fixture, Binding, IdentityVerifier,
}
use agent_builder.Contracts.Broker.{
  PlacementIds, RandomIds, place_execution, waiting_snapshot, create_work_order, order_from,
}
use agent_builder.Contracts.Broker.Resume.{
  verify_dual_identity_binding, resume_waiting_execution, binding_of, leased_snapshot,
}
use agent_builder.Contracts.Broker.Lifecycle.{Reached, placed, resumed, IsWellFormed}
use agent_builder.Contracts.Broker.Expiry.{Reached-IsWellFormed}
use agent_builder.Contracts.Broker.Attempts.{expire_all, expired_at, expire_all-first}
use agent_builder.Contracts.Broker.Effects.{IsAuthorized, Reached-IsAuthorized}
use agent_builder.Contracts.Broker.Proofs.{IsProven, verify_dual_identity_binding-IsProven}
use agent_builder.Contracts.Broker.Orders.{
  IsIssued, create_work_order-IsIssued, verify_dual_identity_binding-resumes,
}

abbrev request : PlacementRequest
request = record {
  run_id = 1;
  workspace_id = 2;
  department_id = none;
  actor_id = 3;
  required_user_sid = 4;
  required_device_certificate_thumbprint = 5;
  schedule_id = none;
  workflow_kind = other;
  freshness_window_seconds = some 60;
  requirements =
      record {
        plugin_version_id = 6;
        plugin_digest = 7;
        installation_id = 8;
        tool = 9;
        residency = workstation;
      }
      ∷ [];
  requested_at = 1000;
}

abbrev no_ids : PlacementIds
no_ids = record { work_order_id = none; lease_id = none; nonce = none }

abbrev drawn : RandomIds
drawn = record { work_order_id = 10; lease_id = 11; nonce = 12 }

abbrev waiting : Snapshot
waiting = waiting_snapshot request no_ids drawn

abbrev input : WorkOrderInput
input = record {
  entry_resource_version_id = 20;
  release_digest = 21;
  installation_id = 8;
  plugin_version_id = 6;
  plugin_digest = 7;
  tool = 9;
  issued_at = 1000;
  not_before = 1000;
  lease_expires_at = 50000;
  invocation_key = 22;
  input = 23;
}

abbrev order : WorkOrder
order = order_from waiting input 10 11 12 61000 60

abbrev shaken : Handshake
shaken = record {
  work_order_id = 10;
  lease_id = 11;
  nonce = 12;
  actor_id = 3;
  user_sid = 4;
  user_proof_kind = fixture_oidc;
  user_access_token = 30;
  device_certificate_thumbprint = 5;
  device_challenge_signature = 31;
}

abbrev trusting : IdentityVerifier
trusting = record {
  verify_user_proof = λ actor sid kind token. some true;
  verify_device_proof = λ thumbprint nonce signature. some true;
  kind = fixture;
}

abbrev digest : ℕ → ℕ
digest n = n

abbrev bound : Binding
bound = binding_of digest trusting order shaken 2000

waiting-Reached : Reached waiting
unfolding place_execution
waiting-Reached = placed request no_ids drawn refl

made : create_work_order waiting input ≡ ok order
unfolding create_work_order
made = refl

verified : verify_dual_identity_binding digest trusting order shaken 2000 ≡ ok bound
unfolding verify_dual_identity_binding
verified = refl

resumption : resume_waiting_execution waiting bound 3000 [] ≡ ok (leased_snapshot waiting)
unfolding resume_waiting_execution
resumption = refl

replayed :
    resume_waiting_execution waiting bound 3000 (12 ∷ [])
    ≡ err "The work-order nonce has already been consumed"
unfolding resume_waiting_execution
replayed = refl

leased-Reached : Reached (leased_snapshot waiting)
leased-Reached = resumed bound 3000 [] waiting-Reached resumption

Reached-IsWellFormed_example : IsWellFormed (leased_snapshot waiting)
Reached-IsWellFormed_example = Reached-IsWellFormed (leased_snapshot waiting) leased-Reached

Reached-IsAuthorized_example : IsAuthorized (leased_snapshot waiting) leased-Reached
Reached-IsAuthorized_example =
    Reached-IsAuthorized (leased_snapshot waiting) leased-Reached refl refl

verify_dual_identity_binding-IsProven_example : IsProven trusting order shaken 2000 bound
verify_dual_identity_binding-IsProven_example =
    verify_dual_identity_binding-IsProven digest trusting order shaken 2000 bound verified

create_work_order-IsIssued_example : IsIssued waiting input order
create_work_order-IsIssued_example = create_work_order-IsIssued waiting input order made

verify_dual_identity_binding-resumes_example :
    resume_waiting_execution waiting bound 3000 [] ≡ ok (leased_snapshot waiting)
verify_dual_identity_binding-resumes_example =
    verify_dual_identity_binding-resumes digest trusting waiting input order shaken 2000 3000 bound
      [] made verified (omega arith) (omega arith) refl

expire_all-first_example :
    expire_all waiting (5000 ∷ 61000 ∷ 70000 ∷ []) ≡ expired_at waiting (some 61000)
expire_all-first_example =
    expire_all-first waiting 61000 (5000 ∷ 61000 ∷ 70000 ∷ []) waiting-Reached refl refl
