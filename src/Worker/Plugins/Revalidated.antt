-- ===== src/Worker/Plugins/Revalidated.antt =====
-- The rows that a snapshot is made of (apps/worker/src/plugin-store.ts).
use agent_builder.Common.{
  ap, ℕ, ◌≡◌, refl, ◌==◌, String, Bool, false, not, List, [], ◌∷◌, Option, none, some, keep,
}
use agent_builder.Worker.Json.{Json}
use agent_builder.Worker.PluginPlan.{Fault, returned, thrown, ◌>>=!◌}
use agent_builder.Worker.Plugins.{AuthorityScope, PluginCall, AuthorizationSnapshot}
use agent_builder.Worker.Plugins.Appends.{fail_if-parts, >>=!-parts, returned_inj}
use agent_builder.Worker.Plugins.Loading.{input_at_path}
use agent_builder.Worker.Plugins.Tables.{
  GrantRow, RequiredRow, PlannedRow, RunRequirement, ExecutingRun, InstalledPlugin,
}
use agent_builder.Worker.Plugins.Snapshots.{
  only, present, other_workspace, is_required_row, is_planned_row, is_required_scope,
  mismatched_requirement, snapshot_of, revalidate_rows, revalidate_run, revalidate_call,
}

only-returned :
    {A : Type 0} (code : String) (xs : List A) (a : A) → only code xs ≡ returned a → xs ≡ a ∷ []
only-returned code [] a e = absurd cc
only-returned code (x ∷ []) a e = ap (λ y. y ∷ []) (returned_inj x a e)
only-returned code (x ∷ y ∷ more) a e = absurd cc

present-returned :
    {A : Type 0} (code : String) (o : Option A) (a : A) → present code o ≡ returned a → o ≡ some a
present-returned code none a e = absurd cc
present-returned code (some x) a e = ap some (returned_inj x a e)

thrown≢returned : {A : Type 0} (fault : Fault) (a : A) → thrown fault ≡ returned a → ⊥
thrown≢returned fault a e = absurd cc

module _ (digest : Json → ℕ) (scope_digest : AuthorityScope → ℕ)
    (reachable : ℕ → ℕ → ℕ → ℕ → Bool × Bool) (now : ℕ) (call : PluginCall) where
  -- The rows that a snapshot is made of.
  pub record IsSnapshotOf (run : ExecutingRun) (plugin : InstalledPlugin) (grant : GrantRow)
      (s : AuthorizationSnapshot) : Type 0 where
    pub entry : ℕ
    pub requirement : RequiredRow
    pub plan : PlannedRow
    pub r : RunRequirement
    pub planned : Json
    pub same_workspace : other_workspace run grant plugin ≡ false
    pub only_requirement : keep (is_required_row call) run.plugin_requirements ≡ requirement ∷ []
    pub only_plan : keep (is_planned_row call) run.plugin_call_plans ≡ plan ∷ []
    pub input : input_at_path run.input plan.input_path ≡ returned planned
    pub same_input : not (digest planned == digest call.input) ≡ false
    pub only_scope : keep (is_required_scope call) run.required_plugin_scopes ≡ r ∷ []
    pub same_requirement :
        mismatched_requirement digest scope_digest reachable now call r plugin requirement ≡ false
    pub made :
        snapshot_of digest scope_digest reachable now call run entry plugin grant requirement plan r
        ≡ s

  revalidate_rows-IsSnapshotOf :
      (run : ExecutingRun) (entry : ℕ) (plugin : InstalledPlugin) (grant : GrantRow)
      (s : AuthorizationSnapshot)
      → revalidate_rows digest scope_digest reachable now call run entry plugin grant ≡ returned s
      → IsSnapshotOf run plugin grant s
  revalidate_rows-IsSnapshotOf run entry plugin grant s e =
      let (workspace, e1) = fail_if-parts _ _ _ s e in
      let (requirement, q, e2) = >>=!-parts _ _ s e1 in
      let (plan, p, e3) = >>=!-parts _ _ s e2 in
      let (planned, input, e4) = >>=!-parts _ _ s e3 in
      let (same_input, e5) = fail_if-parts _ _ _ s e4 in
      let (r, o, e6) = >>=!-parts _ _ s e5 in
      let (same_requirement, e7) = fail_if-parts _ _ _ s e6 in
      let (valid, e8) = fail_if-parts _ _ _ s e7 in
      record {
        entry = entry;
        requirement = requirement;
        plan = plan;
        r = r;
        planned = planned;
        same_workspace = workspace;
        only_requirement = only-returned _ _ requirement q;
        only_plan = only-returned _ _ plan p;
        input = input;
        same_input = same_input;
        only_scope = only-returned _ _ r o;
        same_requirement = same_requirement;
        made = returned_inj _ s e8;
      }

  -- The rows that were found, and what was checked of them.
  pub record IsRevalidated (o : Option ExecutingRun) (i : Option InstalledPlugin)
      (s : AuthorizationSnapshot) : Type 0 where
    pub run : ExecutingRun
    pub plugin : InstalledPlugin
    pub grant : GrantRow
    pub found : o ≡ some run
    pub there : i ≡ some plugin
    pub running_there : not run.is_running ≡ false
    pub granted : run.authority_grant ≡ some grant
    pub rows : IsSnapshotOf run plugin grant s

  granted-IsRevalidated :
      (run : ExecutingRun) (plugin : InstalledPlugin) (entry : ℕ) (s : AuthorizationSnapshot)
      → not run.is_running ≡ false
      → (present "PLUGIN_AUTHORITY_INACTIVE" run.authority_grant >>=! λ grant.
          revalidate_rows digest scope_digest reachable now call run entry plugin grant)
        ≡ returned s
      → IsRevalidated (some run) (some plugin) s
  granted-IsRevalidated run plugin entry s going e =
      let (grant, granted, e1) = >>=!-parts _ _ s e in
      record {
        run = run;
        plugin = plugin;
        grant = grant;
        found = refl;
        there = refl;
        running_there = going;
        granted = present-returned _ run.authority_grant grant granted;
        rows = revalidate_rows-IsSnapshotOf run entry plugin grant s e1;
      }

  found-IsRevalidated :
      (run : ExecutingRun) (i : Option InstalledPlugin) (s : AuthorizationSnapshot)
      → revalidate_run digest scope_digest reachable now call run i ≡ returned s
      → IsRevalidated (some run) i s
  found-IsRevalidated run none s e =
      let (resolved, e1) = fail_if-parts _ _ _ s e in
      let (n, entered, e2) =
        >>=!-parts (present "PLUGIN_ENTRYPOINT_UNRESOLVED" run.entry_resource_version_id) _ s e1 in
      absurd (thrown≢returned _ s e2)
  found-IsRevalidated run (some plugin) s e =
      let (resolved, e1) = fail_if-parts _ _ _ s e in
      let (n, entered, e2) =
        >>=!-parts (present "PLUGIN_ENTRYPOINT_UNRESOLVED" run.entry_resource_version_id) _ s e1 in
      let (going, e3) = fail_if-parts _ _ _ s e2 in granted-IsRevalidated run plugin n s going e3

  pub revalidate_call-IsRevalidated :
      (o : Option ExecutingRun) (i : Option InstalledPlugin) (s : AuthorizationSnapshot)
      → revalidate_call digest scope_digest reachable now call o i ≡ returned s
      → IsRevalidated o i s
  unfolding revalidate_call
  revalidate_call-IsRevalidated none i s e = absurd cc
  revalidate_call-IsRevalidated (some run) i s e = found-IsRevalidated run i s e
