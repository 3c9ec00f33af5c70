-- ===== src/Worker/Plugins/Authorize.antt =====
-- The check before and after each Plugin call (`assertWorkerPluginAuthorization` in
-- apps/worker/src/plugin-execution.ts, `assertScopeNarrowsTool` in
-- packages/runtime/src/plugin-runtime.ts). A thrown error is its code; none of them is retryable.
use agent_builder.Common.{
  ℕ, ltb, ◌==◌, opt_eq, String, Bool, true, false, not, ◌&&◌, ◌||◌, List, [], ◌∷◌, Option, none,
  some, Result, ok, err, ◌>>=◌, ◌>>◌, if◌then◌else◌, keep, find_first,
}
use agent_builder.Worker.Plugins.{
  effect_rank, same_effect, same_transport, is_control_plane, LimitKey, limit_keys, limit_of,
  AuthorityScope, PluginTool, is_enabled, is_active, is_required, PluginCall, AuthorizationSnapshot,
  PluginLimits,
}

-- `if (...) throw new PluginRuntimeError(code, false)`.
unfoldable pub forbid : Bool → String → Result (Unit {0})
forbid true code = err code
forbid false code = ok tt

-- `max === undefined || value > max`, where the value is defined.
abbrev pub exceeds : Option ℕ → Option ℕ → Bool
exceeds none most = false
exceeds (some value) none = true
exceeds (some value) (some most) = ltb most value

abbrev pub is_broader : PluginLimits → PluginLimits → LimitKey → Bool
is_broader scope declared key = exceeds (limit_of scope key) (limit_of declared key)

abbrev pub each_key : (LimitKey → Bool) → String → List LimitKey → Result (Unit {0})
each_key bad code [] = ok tt
each_key bad code (k ∷ ks) = forbid (bad k) code >> each_key bad code ks

unfoldable pub assert_scope_narrows_tool : PluginTool → AuthorityScope → Result (Unit {0})
assert_scope_narrows_tool tool scope =
    forbid (not (scope.tool == tool.name) || not (same_effect scope.effect tool.effect))
      "PLUGIN_AUTHORITY_SCOPE_MISMATCH"
    >> (forbid (ltb (effect_rank scope.effect) (effect_rank tool.effect)) "PLUGIN_EFFECT_ESCALATION"
        >> each_key (is_broader scope.limits tool.limits) "PLUGIN_LIMIT_ESCALATION" limit_keys)

abbrev pub other_identity : AuthorityScope → AuthorityScope → Bool
other_identity grant requirement =
    not (grant.installation_id == requirement.installation_id)
    || not (grant.plugin_version_id == requirement.plugin_version_id)
    || not (grant.plugin_digest == requirement.plugin_digest)
    || not (grant.tool == requirement.tool)
    || not (same_effect grant.effect requirement.effect)

unfoldable pub assert_grant_narrows_requirement :
    AuthorityScope → AuthorityScope → Result (Unit {0})
assert_grant_narrows_requirement grant requirement =
    forbid (other_identity grant requirement) "PLUGIN_REQUIREMENT_SCOPE_MISMATCH"
    >> each_key (is_broader grant.limits requirement.limits) "PLUGIN_REQUIREMENT_SCOPE_BROADENED"
        limit_keys

abbrev pub is_scope_of : PluginCall → AuthorityScope → Bool
is_scope_of call scope =
    scope.plugin_version_id == call.plugin_version_id
    && scope.plugin_digest == call.plugin_digest
    && scope.installation_id == call.installation_id
    && scope.tool == call.tool

-- One scope exactly, of the effect of the call.
abbrev pub only_scope : PluginCall → List AuthorityScope → Result AuthorityScope
only_scope call [] = err "PLUGIN_AUTHORITY_SCOPE_MISMATCH"
only_scope call (scope ∷ []) =
    if same_effect scope.effect call.effect then ok scope else err "PLUGIN_EFFECT_ESCALATION"
only_scope call (scope ∷ other ∷ more) = err "PLUGIN_AUTHORITY_SCOPE_MISMATCH"

unfoldable pub matching_authority_scope : PluginCall → List AuthorityScope → Result AuthorityScope
matching_authority_scope call scopes = only_scope call (keep (is_scope_of call) scopes)

module _ (call : PluginCall) (s : AuthorizationSnapshot) where
  abbrev pub other_release : Bool
  other_release =
      not (s.run.id == call.run_id)
      || not (s.run.release_id == call.release_id)
      || not (s.release_id == call.release_id)
      || not (s.run.release_digest == call.release_digest)
      || not (s.release_digest == call.release_digest)

  abbrev pub other_plan : Bool
  other_plan =
      not (s.plan.id == call.plan_id)
      || not (s.plan.run_id == call.run_id)
      || not (s.plan.requirement_id == call.requirement_id)
      || not (s.plan.invocation_key == call.invocation_key)
      || not (s.requirement.id == call.requirement_id)

  abbrev pub other_entrypoint : Bool
  other_entrypoint =
      not (s.run.entry_resource_version_id == call.entry_resource_version_id)
      || not (s.entry_resource_version_id == call.entry_resource_version_id)
      || not (s.authority.entry_resource_version_id == call.entry_resource_version_id)
      || not s.belongs_to_release
      || not s.plugin_reachable_through_dependencies

  abbrev pub other_context : Bool
  other_context =
      not (s.run.context_digest == call.context_digest)
      || not (s.requirement.context_digest == call.context_digest)
      || not (s.authority.context_digest == call.context_digest)

  abbrev pub other_authority : Bool
  other_authority =
      not (s.authority.release_id == call.release_id)
      || not (s.authority.release_digest == call.release_digest)

  abbrev pub other_installation : Bool
  other_installation =
      not (s.installation.id == call.installation_id)
      || not (s.requirement.installation_id == call.installation_id)
      || not (s.requirement.run_id == call.run_id)
      || not (s.installation.plugin_version_id == call.plugin_version_id)
      || not (s.requirement.plugin_version_id == call.plugin_version_id)
      || not (s.definition.plugin_version_id == call.plugin_version_id)
      || not (s.installation.plugin_digest == call.plugin_digest)
      || not (s.requirement.plugin_digest == call.plugin_digest)
      || not (s.definition.plugin_digest == call.plugin_digest)

  abbrev pub off_control_plane : Bool
  off_control_plane =
      not (is_control_plane s.installation.placement)
      || not (is_control_plane s.requirement.execution_placement)
      || not (is_control_plane s.definition.placement)

  abbrev pub other_requirement : Bool
  other_requirement =
      not (s.requirement.capability_name == call.tool)
      || not (same_effect s.requirement.effect call.effect)
      || not (is_scope_of call s.requirement.authority_scope)
      || not (same_effect s.requirement.authority_scope.effect call.effect)

  -- The checks of the snapshot against the call, in their order.
  unfoldable pub assert_snapshot : Result (Unit {0})
  assert_snapshot =
      forbid other_release "PLUGIN_RELEASE_SNAPSHOT_MISMATCH"
      >> (forbid (not (opt_eq s.run.lease_owner (some call.worker_id))) "PLUGIN_RUN_LEASE_LOST"
          >> (forbid other_plan "PLUGIN_CALL_PLAN_MISMATCH"
              >> (forbid other_entrypoint "PLUGIN_ENTRYPOINT_AUTHORITY_MISMATCH"
                  >> (forbid other_context "PLUGIN_CONTEXT_SNAPSHOT_MISMATCH"
                      >> (forbid s.run.cancellation_requested "RUN_CANCELLED"
                          >> (forbid
                                (s.requirement.approval_required
                                  && not s.run.plugin_approval_satisfied)
                                "PLUGIN_PER_RUN_APPROVAL_REQUIRED"
                              >> (forbid (not (is_active s.authority.state))
                                    "PLUGIN_AUTHORITY_INACTIVE"
                                  >> (forbid other_authority "PLUGIN_RELEASE_SNAPSHOT_MISMATCH"
                                      >> (forbid other_installation
                                            "PLUGIN_INSTALLATION_SNAPSHOT_MISMATCH"
                                          >> (forbid
                                                (not (is_enabled s.installation.state)
                                                  || not (is_required s.requirement.state))
                                                "PLUGIN_DISABLED"
                                              >> (forbid
                                                    (s.installation.development_only
                                                      && not s.run.development_draft)
                                                    "PLUGIN_DEVELOPMENT_INSTALLATION_FORBIDDEN"
                                                  >> (forbid off_control_plane
                                                        "PLUGIN_WORKSTATION_UNAVAILABLE"
                                                      >> (forbid
                                                            (not (
                                                            same_transport s.installation.transport
                                                            s.definition.transport))
                                                            "PLUGIN_TRANSPORT_MISMATCH"
                                                          >> forbid other_requirement
                                                            "PLUGIN_REQUIREMENT_SNAPSHOT_MISMATCH")))))))))))))

  abbrev pub tool_found : Option PluginTool → Result PluginTool
  tool_found none = err "PLUGIN_TOOL_NOT_FOUND"
  tool_found (some tool) =
      if same_effect tool.effect call.effect then ok tool else err "PLUGIN_EFFECT_ESCALATION"

  abbrev pub narrowed : AuthorityScope → PluginTool → Result AuthorityScope
  narrowed scope tool =
      assert_scope_narrows_tool tool s.requirement.authority_scope
      >> (assert_grant_narrows_requirement scope s.requirement.authority_scope
          >> (assert_scope_narrows_tool tool scope >> ok scope))

  unfoldable pub assert_worker_plugin_authorization : Result AuthorityScope
  assert_worker_plugin_authorization =
      assert_snapshot
      >> (matching_authority_scope call s.authority.scopes >>= λ scope.
          tool_found (find_first (λ t. t.name == call.tool) s.definition.tools) >>= narrowed scope)
