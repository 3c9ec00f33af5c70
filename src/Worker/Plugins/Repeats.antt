-- ===== src/Worker/Plugins/Repeats.antt =====
-- Repeated events, and the limit of invocations (apps/worker/src/plugin-store.ts).
use agent_builder.Common.{
  ℕ, suc, ◌≡◌, ◌≢◌, ◌≤◌, ◌⊎◌, inl, inr, refl, ap, subst, ◌==◌, opt_eq, String, Bool, true, false,
  List, [], ◌∷◌, Option, none, some, keep, length, find_first, Bool-cases, ==_refl, All, arith,
}
use text.Mathlib.TextPositions.{compare_refl}
use agent_builder.Worker.Execute.{same_code}
use agent_builder.Worker.PluginPlan.{returned, thrown}
use agent_builder.Worker.Plugins.{AuthorityScope, AuthorityState, is_active}
use agent_builder.Worker.Plugins.Executor.{LedgerEvent, Appended, inserted, existing}
use agent_builder.Worker.Plugins.Invocations.{
  same_code_or_null, normalized_latency, Invocation, RunRow, InstallationRow, Readings,
  is_event_row, identical, ledger_fault, fail_if, is_prior, only_invocation_scope,
  is_invocation_scope, granted_scopes, check_beginning, stored, row_of, is_misnumbered,
  append_invocation,
}
use agent_builder.Worker.Plugins.Appends.{
  fail_if-parts, fail_if-false, >>=!-parts, returned_inj, IsAppended, unchanged, added,
  append_invocation-IsAppended,
}

same_code_refl : (s : String) → same_code s s ≡ true
same_code_refl s = rw (compare_refl s, same_code) refl

same_code_or_null_refl : (o : Option String) → same_code_or_null o o ≡ true
same_code_or_null_refl none = refl
same_code_or_null_refl (some s) = same_code_refl s

opt_eq_refl : (o : Option ℕ) → opt_eq o o ≡ true
opt_eq_refl none = refl
opt_eq_refl (some n) = ==_refl n

-- The column keeps the cost of an event as it is: it has no more than eight places.
abbrev pub IsKept : (ℕ → ℕ) → Option ℕ → Type 0
IsKept stored_cost none = Unit
IsKept stored_cost (some cost) = stored_cost cost ≡ cost

stored-IsKept :
    (stored_cost : ℕ → ℕ) (o : Option ℕ) → IsKept stored_cost o → stored stored_cost o ≡ o
stored-IsKept stored_cost none k = refl
stored-IsKept stored_cost (some cost) k = ap (λ (c : ℕ). some c) k

identical-row_of :
    (e : LedgerEvent) (run : RunRow) (installation : InstallationRow) (stored_cost : ℕ → ℕ)
    → IsKept stored_cost e.cost_usd
    → identical e (row_of e run installation stored_cost) ≡ true
identical-row_of e run installation stored_cost kept =
    rw (stored-IsKept stored_cost e.cost_usd kept) ground (
      arith,
      same_code_or_null_refl e.error_code,
      opt_eq_refl e.output_digest,
      opt_eq_refl (normalized_latency e.latency_ms),
      opt_eq_refl e.cost_usd,
    )

repeated :
    (e : LedgerEvent) (s : Readings) (rows : List Invocation) (i : Invocation)
    → is_misnumbered e ≡ false
    → find_first (is_event_row e e.sequence) rows ≡ some i
    → identical e i ≡ true
    → append_invocation e s rows ≡ returned (existing, rows)
unfolding append_invocation fail_if
repeated e s rows i m f same = rw (m, f, same) refl

-- An event that was appended, and whose cost the column of eight decimal places keeps as it is, is
-- there: the same event is answered as existing and changes nothing, whatever the run, the grant and
-- the installation have become.
pub append_invocation-again :
    (e : LedgerEvent) (r s : Readings) (rows after : List Invocation) (a : Appended)
    → IsKept r.stored_cost e.cost_usd
    → append_invocation e r rows ≡ returned (a, after)
    → append_invocation e s after ≡ returned (existing, after)
append_invocation-again e r s rows after a kept h =
    again_after a after (append_invocation-IsAppended e r rows a after h)
  where
    again_after :
        (b : Appended) (later : List Invocation)
        → IsAppended e r rows b later
        → append_invocation e s later ≡ returned (existing, later)
    again_after b later (unchanged i m f same) = repeated e s rows i m f same
    again_after b later (added run installation m new q1 q2 tenant checked) =
        repeated e s (row_of e run installation r.stored_cost ∷ rows)
          (row_of e run installation r.stored_cost) m
          (ground (arith, ==_refl e.invocation_key, ==_refl e.sequence))
          (identical-row_of e run installation r.stored_cost kept)

changed_cost :
    (stored_cost : ℕ → ℕ) (o : Option ℕ) (cost : ℕ)
    → o ≡ some cost
    → stored_cost cost ≢ cost
    → opt_eq (stored stored_cost o) o ≡ false
changed_cost stored_cost o cost q other = rw q (elim (Bool-cases (stored_cost cost == cost)) [
  | inl e ↦ absurd (other (ground (arith, e)))
  | inr e ↦ e
])

-- The row of an event whose cost the column changes is not the event.
row_of-differs :
    (e : LedgerEvent) (run : RunRow) (installation : InstallationRow) (stored_cost : ℕ → ℕ)
    (cost : ℕ)
    → e.cost_usd ≡ some cost
    → stored_cost cost ≢ cost
    → identical e (row_of e run installation stored_cost) ≡ false
row_of-differs e run installation stored_cost cost q other =
    ground (arith, changed_cost stored_cost e.cost_usd cost q other)

diverged :
    (e : LedgerEvent) (s : Readings) (rows : List Invocation) (i : Invocation)
    → is_misnumbered e ≡ false
    → find_first (is_event_row e e.sequence) rows ≡ some i
    → identical e i ≡ false
    → append_invocation e s rows ≡ thrown (ledger_fault "PLUGIN_INVOCATION_LEDGER_DIVERGED")
unfolding append_invocation fail_if
diverged e s rows i m f unlike = rw (m, f, unlike) refl

-- An event that was added, and whose cost the column of eight decimal places does not keep as it is, is
-- refused as divergent when it is repeated, whatever the run, the grant and the installation have
-- become.
pub append_invocation-diverges :
    (e : LedgerEvent) (r s : Readings) (rows after : List Invocation) (cost : ℕ)
    → e.cost_usd ≡ some cost
    → r.stored_cost cost ≢ cost
    → append_invocation e r rows ≡ returned (inserted, after)
    → append_invocation e s after ≡ thrown (ledger_fault "PLUGIN_INVOCATION_LEDGER_DIVERGED")
append_invocation-diverges e r s rows after cost q other h =
    refused inserted after refl (append_invocation-IsAppended e r rows inserted after h)
  where
    refused :
        (a : Appended) (later : List Invocation)
        → a ≡ inserted
        → IsAppended e r rows a later
        → append_invocation e s later ≡ thrown (ledger_fault "PLUGIN_INVOCATION_LEDGER_DIVERGED")
    refused a later q1 (unchanged i m f same) = absurd (cc)
    refused a later q1 (added run installation m new q2 q3 tenant checked) =
        diverged e s (row_of e run installation r.stored_cost ∷ rows)
          (row_of e run installation r.stored_cost) m
          (ground (arith, ==_refl e.invocation_key, ==_refl e.sequence))
          (row_of-differs e run installation r.stored_cost cost q other)

-- The scopes that a transaction reads allow no more than a number of invocations.
abbrev pub scopes_of : Option RunRow → List AuthorityScope
scopes_of none = []
scopes_of (some run) = elim run.grant [ none ↦ [] | some (state, scopes) ↦ scopes ]

pub data Limited (most : ℕ) : List Invocation → Type 0 where
  none_yet : Limited most []
  next :
      {rows after : List Invocation} (e : LedgerEvent) (r : Readings) (a : Appended)
      → Limited most rows
      → (e.sequence ≡ 1) ⊎ (e.sequence ≡ 2)
      → All (λ s. s.limits.max_invocations_per_run ≤ most) (scopes_of r.run)
      → append_invocation e r rows ≡ returned (a, after)
      → Limited most after

abbrev pub count : ℕ → ℕ → ℕ → List Invocation → ℕ
count run installation tool rows = length (keep (is_prior run installation tool) rows)

All-keep : {A : Type 0} (P : A → Type 0) (p : A → Bool) (xs : List A) → All P xs → All P (keep p xs)
All-keep P p [] h = tt
All-keep P p (x ∷ xs) h = elim (Bool-cases (p x)) [
  | inl q ↦ rw q (h.0, All-keep P p xs h.1)
  | inr q ↦ rw q (All-keep P p xs h.1)
]

only-limit :
    (most : ℕ) (scopes : List AuthorityScope) (s : AuthorityScope)
    → All (λ t. t.limits.max_invocations_per_run ≤ most) scopes
    → only_invocation_scope scopes ≡ returned s
    → s.limits.max_invocations_per_run ≤ most
only-limit most [] s h e = absurd cc
only-limit most (t ∷ other ∷ more) s h e = absurd cc
only-limit most (t ∷ []) s h e =
    subst (λ u. u.limits.max_invocations_per_run ≤ most) (returned_inj t s e) h.0

granted-limit :
    (most : ℕ) (grant : Option (AuthorityState × List AuthorityScope))
    (scopes : List AuthorityScope)
    → granted_scopes grant ≡ returned scopes
    → All
        (λ t. t.limits.max_invocations_per_run ≤ most)
        (elim grant [ none ↦ [] | some (state, all) ↦ all ])
    → All (λ t. t.limits.max_invocations_per_run ≤ most) scopes
granted-limit most none scopes e h = absurd cc
granted-limit most (some (state, all)) scopes e h = elim (Bool-cases (is_active state)) [
  | inl q ↦
      subst (All (λ t. t.limits.max_invocations_per_run ≤ most))
        (returned_inj all scopes (rw q at e)) h
  | inr q ↦ absurd (ground (arith, rw q at e))
]

-- A first event leaves room for itself.
beginning-count :
    (most : ℕ) (e : LedgerEvent) (run : RunRow) (installation : InstallationRow) (required : Bool)
    (rows : List Invocation)
    → All (λ s. s.limits.max_invocations_per_run ≤ most) (scopes_of (some run))
    → check_beginning e run installation required rows ≡ returned tt
    → suc (count e.run_id e.installation_id e.tool_name rows) ≤ most
unfolding check_beginning
beginning-count most e run installation required rows h checked =
    let (a1, e1) = fail_if-parts _ _ _ tt checked in
    let (a2, e2) = fail_if-parts _ _ _ tt e1 in
    let (scopes, granted, e3) = >>=!-parts (granted_scopes run.grant) _ tt e2 in
    let (s, only, e4) =
      >>=!-parts (only_invocation_scope (keep (is_invocation_scope e installation) scopes)) _ tt
        e3 in
    let room = fail_if-false _ _ tt e4 in
    let limit =
      only-limit most (keep (is_invocation_scope e installation) scopes) s
        (All-keep (λ t. t.limits.max_invocations_per_run ≤ most)
          (is_invocation_scope e installation) scopes
          (granted-limit most run.grant scopes granted h))
        only in
    ground (arith, room, limit)

step-count :
    (most run installation tool : ℕ) (e : LedgerEvent) (r : Readings) (a : Appended)
    (rows after : List Invocation)
    → count run installation tool rows ≤ most
    → All (λ s. s.limits.max_invocations_per_run ≤ most) (scopes_of r.run)
    → IsAppended e r rows a after
    → count run installation tool after ≤ most
step-count most run installation tool e r a rows after h limited (unchanged i m found same) = h
step-count most run installation tool e r a rows after h limited
      (added row place m new q1 q2 tenant checked) =
    elim (Bool-cases (is_prior run installation tool (row_of e row place r.stored_cost))) [
      | inl q ↦
          let one : (e.sequence == 1) ≡ true = ground (arith, q) in
          let room =
            beginning-count most e row place r.required rows
              (subst (λ o. All (λ s. s.limits.max_invocations_per_run ≤ most) (scopes_of o)) q1
                limited)
              (rw one at checked) in
          let of_run : e.run_id ≡ run = ground (arith, q) in
          let of_place : e.installation_id ≡ installation = ground (arith, q) in
          let of_tool : e.tool_name ≡ tool = ground (arith, q) in
          let room1 =
            subst (λ x. suc (count x e.installation_id e.tool_name rows) ≤ most) of_run room in
          let room2 = subst (λ x. suc (count run x e.tool_name rows) ≤ most) of_place room1 in
          rw q (subst (λ x. suc (count run installation x rows) ≤ most) of_tool room2)
      | inr q ↦ rw q h
    ]

-- Where no grant that is read allows more than a number of invocations, no more than that many are
-- begun of a tool of an installation in one run, in whatever order the events are appended.
pub Limited-count :
    (most : ℕ) (rows : List Invocation)
    → Limited most rows
    → (run installation tool : ℕ) → count run installation tool rows ≤ most
Limited-count most [] none_yet run installation tool = omega arith
Limited-count most after (next {rows} e r a l s limited h) run installation tool =
    step-count most run installation tool e r a rows after
      (Limited-count most rows l run installation tool) limited
      (append_invocation-IsAppended e r rows a after h)
