-- ===== src/Worker/Candidate.antt =====
-- The first half of `claimNext` (apps/worker/src/store.ts): which queued run is the candidate, and
-- whether its grant, its release and its approvals still cover it.
use text.Mathlib.Text.{starts_with}
use mathlib.Core.List.{reverse}
use agent_builder.Common.{
  ℕ, ◌+◌, ◌*◌, ◌^◌, min, ltb, leb, String, Bool, true, false, not, ◌&&◌, ◌||◌, List, [], ◌∷◌,
  Option, none, some, ◌==◌, opt_eq, if◌then◌else◌, any, find_row, is_some, mem, length,
}
use agent_builder.Worker.Json.{satisfies_constraints}
use agent_builder.Worker.Model.{
  Run, Grant, GrantState, ApprovalState, approved, Backoff, fixed, exponential, Channel, Approval,
  Release, Db, is_queued,
}
use agent_builder.Worker.Journal.{find_run}
use agent_builder.Worker.Grants.{find_grant_of}
use agent_builder.Worker.Complete.{
  lock_production_channel, production_required, current_release_of, promoted_at_of, out_of_window,
}
use agent_builder.Worker.Requirements.{Requirements, requirements_of}

-- The `CASE` of the candidate query, in seconds.
unfoldable pub backoff_seconds : Backoff → ℕ → ℕ
backoff_seconds fixed attempts = 1
backoff_seconds exponential attempts = min 300 (2 ^ min attempts 8)

abbrev pub backoff_elapsed : ℕ → Run → Bool
backoff_elapsed now r =
    r.attempts == 0 || leb (r.updated_at + 1000 * backoff_seconds r.backoff r.attempts) now

abbrev pub find_release : ℕ → List Release → Option Release
find_release = find_row (λ x. x.id)

-- The `WHERE` clause, the join with the release, and the rows that `SKIP LOCKED` leaves out.
unfoldable pub is_claimable : (ℕ → Bool) → ℕ → List Release → Run → Bool
is_claimable locked now releases r =
    is_queued r.state
    && (is_some r.entry_version
        && (not r.legacy_entrypoint_unresolved
            && (is_some r.grant
                && (backoff_elapsed now r
                    && (is_some (find_release r.release releases) && not (locked r.id))))))

-- `ORDER BY "createdAt" ASC, "id" ASC`.
unfoldable pub created_before : Run → Run → Bool
created_before r s =
    ltb r.created_at s.created_at || (r.created_at == s.created_at && leb r.id s.id)

abbrev pub earlier : Run → Option Run → Run
earlier r none = r
earlier r (some s) = if created_before r s then r else s

unfoldable pub next_candidate : (ℕ → Bool) → ℕ → List Release → List Run → Option Run
next_candidate locked now releases [] = none
next_candidate locked now releases (r ∷ rs) =
    let rest = next_candidate locked now releases rs in
    if is_claimable locked now releases r then some (earlier r rest) else rest

-- The grant of the candidate, if it is for the same release and digest.
unfoldable pub claim_grant : Run → List Grant → Option Grant
claim_grant r grants = elim (find_grant_of r.grant grants) [
  | none ↦ none
  | some g ↦ if g.release == r.release && g.release_digest == r.release_digest then some g else none
]

abbrev bars_claim : Bool → GrantState → Bool
bars_claim first GrantState.revoked = true
bars_claim first GrantState.expired = true
bars_claim first GrantState.exhausted = first
bars_claim first GrantState.active = false

unfoldable pub unusable_grant : ℕ → Run → Option Grant → Bool
unusable_grant now r none = true
unusable_grant now r (some g) =
    let first = r.attempts == 0 in
    bars_claim first g.state || (out_of_window g now || first && leb g.max_runs g.used_runs)

-- JavaScript's white space and line terminators, as UTF-16 code units.
abbrev is_space : ℕ → Bool
is_space c =
    (leb 9 c && leb c 13)
    || (c == 32
        || (c == 160
            || (c == 0x1680
                || ((leb 0x2000 c && leb c 0x200a)
                    || (c == 0x2028
                        || (c == 0x2029
                            || (c == 0x202f || (c == 0x205f || (c == 0x3000 || c == 0xfeff)))))))))

abbrev trim_start : List ℕ → List ℕ
trim_start [] = []
trim_start (c ∷ cs) = let rest = trim_start cs in if is_space c then rest else c ∷ cs

unfoldable pub trim : List ℕ → List ℕ
trim cs = reverse (trim_start (reverse (trim_start cs)))

abbrev pub is_approved : ApprovalState → Bool
is_approved approved = true
is_approved _ = false

-- A human decision: not by a system actor, with a rationale of ten characters.
abbrev pub is_human_decision : Option String → Option (List ℕ) → Bool
is_human_decision (some by) (some why) =
    not (starts_with by "system:") && leb 10 (length (trim why))
is_human_decision _ _ = false

unfoldable pub plugin_approved : Run → List Approval → Bool
unfolding trim
plugin_approved r approvals = elim (find_row (λ a. a.run) r.id approvals) [
  | none ↦ false
  | some a ↦
      is_approved a.state && (is_some a.decided_at && is_human_decision a.decided_by a.rationale)
]

unfoldable pub plugin_approval_satisfied : Run → List Approval → Bool
unfolding plugin_approved
plugin_approval_satisfied r approvals =
    not r.requires_plugin_approval || plugin_approved r approvals

abbrev decided_since : ℕ → Option ℕ → Bool
decided_since start none = false
decided_since start (some t) = leb start t

abbrev run_of_release : ℕ → ℕ → Option Run → Bool
run_of_release release digest none = false
run_of_release release digest (some x) =
    x.release == release && (x.release_digest == digest && not x.development_draft)

-- `hasProductionEpochApproval`.
unfoldable pub epoch_approval : ℕ → ℕ → ℕ → List Run → List Approval → Bool
epoch_approval release digest promoted_at runs approvals =
    any
      (λ a.
        run_of_release release digest (find_run a.run runs)
        && (is_approved a.state
            && (is_some a.decided_by && decided_since promoted_at a.decided_at)))
      approvals

unfoldable pub epoch_approved : Db → Run → Option ℕ → Bool
unfolding epoch_approval
epoch_approved db r none = false
epoch_approved db r (some t) =
    epoch_approval r.release r.release_digest t db.core.runs db.journal.approvals

abbrev pub release_project : Run → List Release → Option ℕ
release_project r releases = elim (find_release r.release releases) [
  | none ↦ none
  | some x ↦ x.project
]

abbrev digest_current : Run → List Release → Bool
digest_current r releases = elim (find_release r.release releases) [
  | none ↦ false
  | some x ↦ x.digest == r.release_digest
]

abbrev within : List ℕ → List ℕ → Bool
within [] ys = true
within (x ∷ xs) ys = mem x ys && within xs ys

-- The tools that the release needs are exactly those of the run, and the grant has them all.
unfoldable pub tools_covered : Requirements → Run → Grant → Bool
tools_covered q r g =
    within q.tools r.required_tools
    && (within r.required_tools q.tools && within q.tools g.tool_scopes)

unfoldable pub grant_covers : Requirements → Run → Grant → Bool
unfolding tools_covered satisfies_constraints
grant_covers q r g =
    opt_eq (some g.entry_version) r.entry_version
    && (g.context_digest == r.context_digest
        && (opt_eq g.project r.project
            && (satisfies_constraints g.input_constraints r.input && tools_covered q r g)))

-- What the claim reads about the candidate.
pub record Standing : Type 0 where
  pub production : Bool
  pub channel : Option Channel
  pub current_release : Bool
  pub epoch_approved : Bool
  pub plugin_approved : Bool
  pub requirements : Requirements

unfoldable pub standing_of : Db → Run → Standing
unfolding lock_production_channel epoch_approved plugin_approval_satisfied requirements_of
standing_of db r =
    let production = production_required r.development_draft r.provider_kind in
    let channel =
      if production
      then lock_production_channel (release_project r db.catalog.releases) db.catalog.channels
      else none in
    record {
      production = production;
      channel = channel;
      current_release = not production || opt_eq (current_release_of channel) (some r.release);
      epoch_approved = not production || epoch_approved db r (promoted_at_of channel);
      plugin_approved = plugin_approval_satisfied r db.journal.approvals;
      requirements = requirements_of db.catalog r.release r.entry_version;
    }

abbrev covered : Standing → Run → Option Grant → Bool
covered s r none = false
covered s r (some g) = grant_covers s.requirements r g

-- `scopeInvalid`; without a grant the optional reads differ from every value.
unfoldable pub scope_invalid : Db → Standing → Run → Option Grant → Bool
unfolding grant_covers
scope_invalid db s r grant =
    not (digest_current r db.catalog.releases)
    || (not s.plugin_approved
        || (not s.current_release
            || (not s.epoch_approved
                || (not s.requirements.daily_brief
                    || (not (opt_eq r.project (release_project r db.catalog.releases))
                        || not (covered s r grant))))))

unfoldable pub per_run_limit_exceeded : Run → Option Grant → Bool
per_run_limit_exceeded r none = false
per_run_limit_exceeded r (some g) = ltb g.max_per_run r.upper_cost
