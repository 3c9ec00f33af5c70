-- ===== src/Worker/Plugins/Backed.antt =====
-- What a snapshot says of the rows that it was read from (apps/worker/src/plugin-store.ts and
-- apps/worker/src/plugin-execution.ts).
use agent_builder.Common.{
  sym, ℕ, ◌≡◌, ◌≤◌, ◌<◌, refl, inl, inr, leb, ltb, Bool, true, false, not, ◌&&◌, ◌||◌, [], ◌∷◌,
  Option, some, if◌then◌else◌, keep, ok, subst, arith, Bool-cases, is_some,
}
use agent_builder.Worker.Json.{Json}
use agent_builder.Worker.PluginPlan.{returned}
use agent_builder.Worker.Plugins.{
  AuthorityScope, PluginCall, AuthorityState, active, revoked, expired, exhausted, is_active,
  AuthorizationSnapshot,
}
use agent_builder.Worker.Plugins.Authorize.{assert_worker_plugin_authorization}
use agent_builder.Worker.Plugins.Narrowing.{
  IsPermitted, assert_worker_plugin_authorization-IsPermitted,
}
use agent_builder.Worker.Plugins.Invocations.{departments_compatible}
use agent_builder.Worker.Plugins.Loading.{input_at_path}
use agent_builder.Worker.Plugins.Tables.{
  GrantRow, RequiredRow, PlannedRow, RunRequirement, ExecutingRun, InstalledPlugin,
}
use agent_builder.Worker.Plugins.Snapshots.{
  not_in_force, authority_state, is_approval, is_required_row, is_planned_row, is_required_scope,
  snapshot_of, revalidate_call,
}
use agent_builder.Worker.Plugins.Revalidated.{revalidate_call-IsRevalidated}

not_in_force-is_active : (state : AuthorityState) → is_active (not_in_force state) ≡ false
not_in_force-is_active active = refl
not_in_force-is_active revoked = refl
not_in_force-is_active expired = refl
not_in_force-is_active exhausted = refl

-- A grant is in force just if it is active and the time is in its window.
authority_state-is_active :
    (state : AuthorityState) (valid_from valid_until now : ℕ)
    → is_active (authority_state state valid_from valid_until now) ≡ true
    → (is_active state && leb valid_from now && ltb now valid_until) ≡ true
authority_state-is_active state valid_from valid_until now e =
    elim (Bool-cases (is_active state && leb valid_from now && ltb now valid_until)) [
      | inl there ↦ there
      | inr away ↦ absurd (no away)
    ]
  where
    no : (is_active state && leb valid_from now && ltb now valid_until) ≡ false → ⊥
    no away =
        let lost : is_active (not_in_force state) ≡ true =
          subst (λ b. is_active (if b then active else not_in_force state) ≡ true) away e in
        ground (arith, lost, not_in_force-is_active state)

-- The rows behind a call that was checked: the run is running under the lease of the worker and on the
-- entry that the release names; its grant is active and in its window; the grant, the release and the
-- installation are of its workspace; a human decision is there when the plugins of the run ask for it;
-- the requirement, the plan and the scope are the only ones of the call, and the input of the call has
-- the digest of what stands at the path of the plan.
pub record IsBacked (digest : Json → ℕ) (scope_digest : AuthorityScope → ℕ) (now : ℕ)
    (call : PluginCall) (o : Option ExecutingRun) (i : Option InstalledPlugin) : Type 0 where
  pub run : ExecutingRun
  pub plugin : InstalledPlugin
  pub grant : GrantRow
  pub requirement : RequiredRow
  pub plan : PlannedRow
  pub r : RunRequirement
  pub planned : Json
  pub found : o ≡ some run
  pub there : i ≡ some plugin
  pub running_there : run.is_running ≡ true
  pub same_run : run.id ≡ call.run_id
  pub lease : run.lease_owner ≡ some call.worker_id
  pub going : is_some run.cancel_requested_at ≡ false
  pub granted : run.authority_grant ≡ some grant
  pub active_there : is_active grant.state ≡ true
  pub begun : grant.valid_from ≤ now
  pub not_over : now < grant.valid_until
  pub workspace : (run.workspace_id ≡ grant.workspace_id) × (run.workspace_id ≡ plugin.workspace_id)
  pub department : departments_compatible run.department_id plugin.department_id ≡ true
  pub human :
      requirement.approval_required ≡ true
      → run.requires_plugin_approval ≡ true
      → is_approval run.approval_request ≡ true
  pub only_requirement : keep (is_required_row call) run.plugin_requirements ≡ requirement ∷ []
  pub only_plan : keep (is_planned_row call) run.plugin_call_plans ≡ plan ∷ []
  pub only_scope : keep (is_required_scope call) run.required_plugin_scopes ≡ r ∷ []
  pub same_scope : scope_digest r.scope ≡ scope_digest requirement.authority_scope
  pub input : input_at_path run.input plan.input_path ≡ returned planned
  pub same_input : digest planned ≡ digest call.input

module _ (digest : Json → ℕ) (scope_digest : AuthorityScope → ℕ)
    (reachable : ℕ → ℕ → ℕ → ℕ → Bool × Bool) (now : ℕ) (call : PluginCall) where
  -- A call whose snapshot is read and passes the check is backed by the rows of the run and of the
  -- installation: the run is running, not cancelled, and leased by the worker of the call; its grant is
  -- active and its window holds now; grant and installation are of the workspace of the run; where both
  -- the requirement and the run ask for a decision, a human approval is recorded; the requirement, the
  -- plan and the scope of the call are each the only ones, and the input has the digest of the planned
  -- one.
  pub revalidate_call-IsBacked :
      (o : Option ExecutingRun) (i : Option InstalledPlugin) (s : AuthorizationSnapshot)
      (scope : AuthorityScope)
      → revalidate_call digest scope_digest reachable now call o i ≡ returned s
      → assert_worker_plugin_authorization call s ≡ ok scope
      → IsBacked digest scope_digest now call o i
  revalidate_call-IsBacked o i s scope e checked =
      let v = revalidate_call-IsRevalidated digest scope_digest reachable now call o i s e in
      let w = v.rows in
      let permitted : IsPermitted call
          (snapshot_of digest scope_digest reachable now call v.run w.entry v.plugin v.grant
            w.requirement w.plan w.r)
          scope =
        subst (λ t. IsPermitted call t scope) (sym w.made)
          (assert_worker_plugin_authorization-IsPermitted call s scope checked) in
      let in_force =
        authority_state-is_active v.grant.state v.grant.valid_from v.grant.valid_until now
          permitted.in_force in
      record {
        run = v.run;
        plugin = v.plugin;
        grant = v.grant;
        requirement = w.requirement;
        plan = w.plan;
        r = w.r;
        planned = w.planned;
        found = v.found;
        there = v.there;
        running_there = ground (arith, v.running_there);
        same_run = permitted.same.run;
        lease = permitted.lease;
        going = permitted.going;
        granted = v.granted;
        active_there = ground (arith, in_force);
        begun = ground (arith, in_force);
        not_over = ground (arith, in_force);
        workspace = (ground (arith, w.same_workspace), ground (arith, w.same_workspace));
        department = ground (arith, w.same_workspace);
        human = λ q h. decided v.run h (permitted.approved q);
        only_requirement = w.only_requirement;
        only_plan = w.only_plan;
        only_scope = w.only_scope;
        same_scope = ground (arith, w.same_requirement);
        input = w.input;
        same_input = ground (arith, w.same_input);
      }
    where
      decided :
          (run : ExecutingRun)
          → run.requires_plugin_approval ≡ true
          → (not run.requires_plugin_approval || is_approval run.approval_request) ≡ true
          → is_approval run.approval_request ≡ true
      decided run h e = ground (arith, h, e)
