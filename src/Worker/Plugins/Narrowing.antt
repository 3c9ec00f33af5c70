-- ===== src/Worker/Plugins/Narrowing.antt =====
-- What the check of a Plugin call means (apps/worker/src/plugin-execution.ts,
-- packages/runtime/src/plugin-runtime.ts).
use agent_builder.Common.{
  >>-parts, >>=-parts, ℕ, ◌≡◌, ◌≤◌, inl, inr, refl, ap, subst, ◌==◌, opt_eq, String, Bool, true,
  false, List, [], ◌∷◌, Option, none, some, ok, keep, find_first, any, Bool-cases, arith,
}
use agent_builder.Worker.Plugins.{
  same_effect, is_control_plane, LimitKey, timeout_ms, max_response_bytes, max_records,
  max_invocations_per_run, maximum_bytes_billed, max_estimated_cost_usd, limit_keys, limit_of,
  AuthorityScope, PluginTool, is_enabled, is_required, is_active, same_transport, PluginCall,
  AuthorizationSnapshot, PluginLimits,
}
use agent_builder.Worker.Plugins.Authorize.{
  exceeds, is_broader, each_key, assert_scope_narrows_tool, assert_grant_narrows_requirement,
  is_scope_of, only_scope, matching_authority_scope, assert_snapshot, tool_found,
  assert_worker_plugin_authorization,
}
use agent_builder.Worker.Plugins.Current.{
  forbid-parts, IsSameCall, assert_snapshot-IsCurrent, IsCurrent-IsSameCall,
}

-- Limits that are no larger than others, and declared there.
abbrev pub AreWithin : PluginLimits → PluginLimits → Type 0
AreWithin limits declared =
    (k : LimitKey) (n : ℕ)
    → limit_of limits k ≡ some n
    → (most : ℕ) × (limit_of declared k ≡ some most) × (n ≤ most)

exceeds-within :
    (value most : Option ℕ) (n : ℕ)
    → exceeds value most ≡ false
    → value ≡ some n
    → (m : ℕ) × (most ≡ some m) × (n ≤ m)
exceeds-within none most n e q = absurd (ground (arith, q))
exceeds-within (some v) none n e q = absurd (ground (arith, e))
exceeds-within (some v) (some m) n e q = (m, refl, ground (arith, e, q))

each_key-any :
    (bad : LimitKey → Bool) (code : String) (keys : List LimitKey)
    → each_key bad code keys ≡ ok tt
    → any bad keys ≡ false
each_key-any bad code [] e = refl
each_key-any bad code (k ∷ ks) e =
    let (first, rest) = forbid-parts (bad k) code (each_key bad code ks) tt e in
    rw (first, each_key-any bad code ks rest) refl

any-key : (bad : LimitKey → Bool) → any bad limit_keys ≡ false → (k : LimitKey) → bad k ≡ false
any-key bad e timeout_ms = ground (arith, e)
any-key bad e max_response_bytes = ground (arith, e)
any-key bad e max_records = ground (arith, e)
any-key bad e max_invocations_per_run = ground (arith, e)
any-key bad e maximum_bytes_billed = ground (arith, e)
any-key bad e max_estimated_cost_usd = ground (arith, e)

each_key-AreWithin :
    (limits declared : PluginLimits) (code : String)
    → each_key (is_broader limits declared) code limit_keys ≡ ok tt
    → AreWithin limits declared
each_key-AreWithin limits declared code e k n q =
    exceeds-within (limit_of limits k) (limit_of declared k) n
      (any-key (is_broader limits declared)
        (each_key-any (is_broader limits declared) code limit_keys e) k)
      q

assert_scope_narrows_tool-AreWithin :
    (tool : PluginTool) (scope : AuthorityScope)
    → assert_scope_narrows_tool tool scope ≡ ok tt
    → AreWithin scope.limits tool.limits
unfolding assert_scope_narrows_tool
assert_scope_narrows_tool-AreWithin tool scope e =
    each_key-AreWithin scope.limits tool.limits _
      (forbid-parts _ _ _ tt (forbid-parts _ _ _ tt e).1).1

assert_grant_narrows_requirement-AreWithin :
    (grant requirement : AuthorityScope)
    → assert_grant_narrows_requirement grant requirement ≡ ok tt
    → AreWithin grant.limits requirement.limits
unfolding assert_grant_narrows_requirement
assert_grant_narrows_requirement-AreWithin grant requirement e =
    each_key-AreWithin grant.limits requirement.limits _ (forbid-parts _ _ _ tt e).1

-- A call that may be made: all that is written down for it agrees with it, the run is the worker's under
-- its lease and not cancelled, an approval that is required was given, the installation, the requirement
-- and the authority are in force, an installation for development serves drafts only, all is on the
-- control plane and over the transport of the definition, the entry belongs to the release and the Plugin
-- to its closure, and exactly one scope of the grant covers the call, with limits no larger than those of
-- the requirement, and these no larger than those of the tool.
pub record IsPermitted (call : PluginCall) (s : AuthorizationSnapshot) (scope : AuthorityScope)
    : Type 0 where
  pub same : IsSameCall call s
  pub lease : s.run.lease_owner ≡ some call.worker_id
  pub member : s.belongs_to_release ≡ true
  pub reachable : s.plugin_reachable_through_dependencies ≡ true
  pub going : s.run.cancellation_requested ≡ false
  pub approved : s.requirement.approval_required ≡ true → s.run.plugin_approval_satisfied ≡ true
  pub in_force : is_active s.authority.state ≡ true
  pub enabled_there : is_enabled s.installation.state ≡ true
  pub required_there : is_required s.requirement.state ≡ true
  pub drafts_only : s.installation.development_only ≡ true → s.run.development_draft ≡ true
  pub installed_here : is_control_plane s.installation.placement ≡ true
  pub required_here : is_control_plane s.requirement.execution_placement ≡ true
  pub here : is_control_plane s.definition.placement ≡ true
  pub transport : same_transport s.installation.transport s.definition.transport ≡ true
  pub only : keep (is_scope_of call) s.authority.scopes ≡ scope ∷ []
  pub effect : same_effect scope.effect call.effect ≡ true
  pub tool : PluginTool
  pub declared : find_first (λ t. t.name == call.tool) s.definition.tools ≡ some tool
  pub same_tool_effect : same_effect tool.effect call.effect ≡ true
  pub within_requirement : AreWithin scope.limits s.requirement.authority_scope.limits
  pub requirement_within : AreWithin s.requirement.authority_scope.limits tool.limits
  pub within_tool : AreWithin scope.limits tool.limits

only_scope-only :
    (call : PluginCall) (scopes : List AuthorityScope) (scope : AuthorityScope)
    → only_scope call scopes ≡ ok scope
    → (scopes ≡ scope ∷ []) × (same_effect scope.effect call.effect ≡ true)
only_scope-only call [] scope e = absurd cc
only_scope-only call (first ∷ other ∷ more) scope e = absurd cc
only_scope-only call (first ∷ []) scope e =
    elim (Bool-cases (same_effect first.effect call.effect)) [
      | inl q ↦ ground (arith, e, q)
      | inr q ↦ absurd (ground (arith, e, q))
    ]

ok_inj : {A : Type 0} (a b : A) → ok a ≡ ok b → a ≡ b
ok_inj a b e = cc

tool_found-declared :
    (call : PluginCall) (s : AuthorizationSnapshot) (o : Option PluginTool) (tool : PluginTool)
    → tool_found call s o ≡ ok tool
    → (o ≡ some tool) × (same_effect tool.effect call.effect ≡ true)
tool_found-declared call s none tool e = absurd cc
tool_found-declared call s (some t) tool e = elim (Bool-cases (same_effect t.effect call.effect)) [
  | inl q ↦ ground (arith, e, q)
  | inr q ↦ absurd (ground (arith, e, q))
]

opt_eq-some : (o : Option ℕ) (n : ℕ) → opt_eq o (some n) ≡ true → o ≡ some n
opt_eq-some none n e = absurd (ground (arith, e))
opt_eq-some (some m) n e = ap some (ground (arith, e))

-- A call that the check lets pass is permitted by the scope that it answers: the run, the release, the
-- plan, the entry, the context, the grant, the installation and the requirement are those of the call,
-- the lease is its worker's, nothing is cancelled, missing an approval, out of force or off the control
-- plane, an installation for development serves drafts only, and that scope is the only one of the grant
-- for the call, with limits within those of the requirement and of the tool.
pub assert_worker_plugin_authorization-IsPermitted :
    (call : PluginCall) (s : AuthorizationSnapshot) (scope : AuthorityScope)
    → assert_worker_plugin_authorization call s ≡ ok scope
    → IsPermitted call s scope
unfolding assert_worker_plugin_authorization matching_authority_scope
assert_worker_plugin_authorization-IsPermitted call s scope e =
    let (checked, e1) = >>-parts (assert_snapshot call s) _ scope e in
    let c = assert_snapshot-IsCurrent call s checked in
    let (found, matched, e2) =
      >>=-parts (matching_authority_scope call s.authority.scopes) _ scope e1 in
    let (tool, found_tool, e3) =
      >>=-parts (tool_found call s (find_first (λ t. t.name == call.tool) s.definition.tools)) _
        scope e2 in
    let (n1, e4) =
      >>-parts (assert_scope_narrows_tool tool s.requirement.authority_scope) _ scope e3 in
    let (n2, e5) =
      >>-parts (assert_grant_narrows_requirement found s.requirement.authority_scope) _ scope e4 in
    let (n3, e6) = >>-parts (assert_scope_narrows_tool tool found) _ scope e5 in
    let (declared, same_tool) = tool_found-declared call s _ tool found_tool in
    let (only, same) = only_scope-only call _ found matched in
    subst (IsPermitted call s) (ok_inj found scope e6) (record {
      same = IsCurrent-IsSameCall call s c;
      lease = opt_eq-some s.run.lease_owner call.worker_id c.lease;
      member = ground (arith, c.entrypoint);
      reachable = ground (arith, c.entrypoint);
      going = c.going;
      approved = λ q. ground (arith, c.approved, q);
      in_force = c.in_force;
      enabled_there = c.enabled_there;
      required_there = c.required_there;
      drafts_only = λ q. ground (arith, c.development, q);
      installed_here = ground (arith, c.here);
      required_here = ground (arith, c.here);
      here = ground (arith, c.here);
      transport = c.transport;
      only = only;
      effect = same;
      tool = tool;
      declared = declared;
      same_tool_effect = same_tool;
      within_requirement =
          assert_grant_narrows_requirement-AreWithin found s.requirement.authority_scope n2;
      requirement_within =
          assert_scope_narrows_tool-AreWithin tool s.requirement.authority_scope n1;
      within_tool = assert_scope_narrows_tool-AreWithin tool found n3;
    })
