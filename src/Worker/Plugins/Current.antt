-- ===== src/Worker/Plugins/Current.antt =====
-- What the checks of a snapshot against a call let pass (apps/worker/src/plugin-execution.ts).
use agent_builder.Common.{
  >>-parts, ℕ, ◌≡◌, refl, ◌==◌, opt_eq, String, Bool, true, false, not, ◌&&◌, ◌||◌, some, Result,
  ok, ◌>>◌, arith,
}
use agent_builder.Worker.Plugins.{
  same_effect, is_enabled, is_required, is_active, same_transport, PluginCall,
  AuthorizationSnapshot,
}
use agent_builder.Worker.Plugins.Authorize.{
  forbid, is_scope_of, other_release, other_plan, other_entrypoint, other_context, other_authority,
  other_installation, off_control_plane, other_requirement, assert_snapshot,
}

forbid-false : (b : Bool) (code : String) → forbid b code ≡ ok tt → b ≡ false
unfolding forbid
forbid-false true code e = absurd cc
forbid-false false code e = refl

-- A guard that let pass what followed.
pub forbid-parts :
    {A : Type 0} (b : Bool) (code : String) (rest : Result A) (a : A)
    → (forbid b code >> rest) ≡ ok a
    → (b ≡ false) × (rest ≡ ok a)
forbid-parts b code rest a e =
    let (first, second) = >>-parts (forbid b code) rest a e in (forbid-false b code first, second)

-- Everything that is written down for the call is of one release, entry, context, installation,
-- version and requirement: those of the call.
pub record IsSameCall (call : PluginCall) (s : AuthorizationSnapshot) : Type 0 where
  pub run : s.run.id ≡ call.run_id
  pub run_release : s.run.release_id ≡ call.release_id
  pub run_digest : s.run.release_digest ≡ call.release_digest
  pub release : s.release_id ≡ call.release_id
  pub release_digest : s.release_digest ≡ call.release_digest
  pub authority_release : s.authority.release_id ≡ call.release_id
  pub authority_digest : s.authority.release_digest ≡ call.release_digest
  pub plan : s.plan.id ≡ call.plan_id
  pub plan_run : s.plan.run_id ≡ call.run_id
  pub plan_requirement : s.plan.requirement_id ≡ call.requirement_id
  pub invocation : s.plan.invocation_key ≡ call.invocation_key
  pub requirement : s.requirement.id ≡ call.requirement_id
  pub requirement_run : s.requirement.run_id ≡ call.run_id
  pub run_entry : s.run.entry_resource_version_id ≡ call.entry_resource_version_id
  pub entry : s.entry_resource_version_id ≡ call.entry_resource_version_id
  pub authority_entry : s.authority.entry_resource_version_id ≡ call.entry_resource_version_id
  pub run_context : s.run.context_digest ≡ call.context_digest
  pub requirement_context : s.requirement.context_digest ≡ call.context_digest
  pub authority_context : s.authority.context_digest ≡ call.context_digest
  pub installation : s.installation.id ≡ call.installation_id
  pub required_installation : s.requirement.installation_id ≡ call.installation_id
  pub installed_version : s.installation.plugin_version_id ≡ call.plugin_version_id
  pub required_version : s.requirement.plugin_version_id ≡ call.plugin_version_id
  pub defined_version : s.definition.plugin_version_id ≡ call.plugin_version_id
  pub installed_digest : s.installation.plugin_digest ≡ call.plugin_digest
  pub required_digest : s.requirement.plugin_digest ≡ call.plugin_digest
  pub defined_digest : s.definition.plugin_digest ≡ call.plugin_digest
  pub required_tool : s.requirement.capability_name ≡ call.tool
  pub required_effect : same_effect s.requirement.effect call.effect ≡ true
  pub required_scope : is_scope_of call s.requirement.authority_scope ≡ true
  pub scope_effect : same_effect s.requirement.authority_scope.effect call.effect ≡ true

-- What the checks of the snapshot let pass.
pub record IsCurrent (call : PluginCall) (s : AuthorizationSnapshot) : Type 0 where
  pub release : other_release call s ≡ false
  pub lease : opt_eq s.run.lease_owner (some call.worker_id) ≡ true
  pub plan : other_plan call s ≡ false
  pub entrypoint : other_entrypoint call s ≡ false
  pub context : other_context call s ≡ false
  pub going : s.run.cancellation_requested ≡ false
  pub approved : (s.requirement.approval_required && not s.run.plugin_approval_satisfied) ≡ false
  pub in_force : is_active s.authority.state ≡ true
  pub authority : other_authority call s ≡ false
  pub installation : other_installation call s ≡ false
  pub enabled_there : is_enabled s.installation.state ≡ true
  pub required_there : is_required s.requirement.state ≡ true
  pub development : (s.installation.development_only && not s.run.development_draft) ≡ false
  pub here : off_control_plane call s ≡ false
  pub transport : same_transport s.installation.transport s.definition.transport ≡ true
  pub requirement : other_requirement call s ≡ false

pub assert_snapshot-IsCurrent :
    (call : PluginCall) (s : AuthorizationSnapshot)
    → assert_snapshot call s ≡ ok tt
    → IsCurrent call s
unfolding assert_snapshot
assert_snapshot-IsCurrent call s e =
    let (a1, e1) = forbid-parts _ _ _ tt e in
    let (a2, e2) = forbid-parts _ _ _ tt e1 in
    let (a3, e3) = forbid-parts _ _ _ tt e2 in
    let (a4, e4) = forbid-parts _ _ _ tt e3 in
    let (a5, e5) = forbid-parts _ _ _ tt e4 in
    let (a6, e6) = forbid-parts _ _ _ tt e5 in
    let (a7, e7) = forbid-parts _ _ _ tt e6 in
    let (a8, e8) = forbid-parts _ _ _ tt e7 in
    let (a9, e9) = forbid-parts _ _ _ tt e8 in
    let (a10, e10) = forbid-parts _ _ _ tt e9 in
    let (a11, e11) = forbid-parts _ _ _ tt e10 in
    let (a12, e12) = forbid-parts _ _ _ tt e11 in
    let (a13, e13) = forbid-parts _ _ _ tt e12 in
    let (a14, e14) = forbid-parts _ _ _ tt e13 in
    record {
      release = a1;
      lease = ground (arith, a2);
      plan = a3;
      entrypoint = a4;
      context = a5;
      going = a6;
      approved = a7;
      in_force = ground (arith, a8);
      authority = a9;
      installation = a10;
      enabled_there = ground (arith, a11);
      required_there = ground (arith, a11);
      development = a12;
      here = a13;
      transport = ground (arith, a14);
      requirement = forbid-false _ _ e14;
    }

equal : (m n : ℕ) → (m == n) ≡ true → m ≡ n
equal m n e = ground (arith, e)

-- Four tests of which none fails.
none-fails :
    (a b c d : Bool)
    → (not a || not b || not c || not d) ≡ false
    → (a ≡ true) × (b ≡ true) × (c ≡ true) × (d ≡ true)
none-fails true true true true e = (refl, refl, refl, refl)
none-fails true true true false e = absurd (ground (arith, e))
none-fails true true false d e = absurd (ground (arith, e))
none-fails true false c d e = absurd (ground (arith, e))
none-fails false b c d e = absurd (ground (arith, e))

pub IsCurrent-IsSameCall :
    (call : PluginCall) (s : AuthorizationSnapshot) → IsCurrent call s → IsSameCall call s
IsCurrent-IsSameCall call s c =
    let (tool, effect, scope, scope_effect) = none-fails _ _ _ _ c.requirement in
    record {
      run = ground (arith, c.release);
      run_release = ground (arith, c.release);
      run_digest = ground (arith, c.release);
      release = ground (arith, c.release);
      release_digest = ground (arith, c.release);
      authority_release = ground (arith, c.authority);
      authority_digest = ground (arith, c.authority);
      plan = ground (arith, c.plan);
      plan_run = ground (arith, c.plan);
      plan_requirement = ground (arith, c.plan);
      invocation = ground (arith, c.plan);
      requirement = ground (arith, c.plan);
      requirement_run = ground (arith, c.installation);
      run_entry = ground (arith, c.entrypoint);
      entry = ground (arith, c.entrypoint);
      authority_entry = ground (arith, c.entrypoint);
      run_context = ground (arith, c.context);
      requirement_context = ground (arith, c.context);
      authority_context = ground (arith, c.context);
      installation = ground (arith, c.installation);
      required_installation = ground (arith, c.installation);
      installed_version = ground (arith, c.installation);
      required_version = ground (arith, c.installation);
      defined_version = ground (arith, c.installation);
      installed_digest = ground (arith, c.installation);
      required_digest = ground (arith, c.installation);
      defined_digest = ground (arith, c.installation);
      required_tool = equal s.requirement.capability_name call.tool tool;
      required_effect = effect;
      required_scope = scope;
      scope_effect = scope_effect;
    }
