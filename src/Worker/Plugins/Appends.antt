-- ===== src/Worker/Plugins/Appends.antt =====
-- What stands in the ledger of Plugin invocations (apps/worker/src/plugin-store.ts).
use agent_builder.Common.{
  ◌≡◌, inl, inr, refl, subst, String, Bool, true, false, List, ◌∷◌, Option, none, some, find_first,
  Bool-cases, arith,
}
use agent_builder.Worker.PluginPlan.{Outcome, returned, thrown, ◌>>=!◌}
use agent_builder.Worker.Plugins.Executor.{LedgerEvent, Appended, inserted, existing}
use agent_builder.Worker.Plugins.Invocations.{
  Invocation, RunRow, InstallationRow, Readings, is_event_row, identical, fail_if, row_of,
  other_tenant, check_event, insert_event, append_event, is_misnumbered, append_invocation,
}

-- A guard that let pass what followed.
pub fail_if-parts :
    {A : Type 0} (b : Bool) (code : String) (rest : Unit {0} → Outcome A) (a : A)
    → (fail_if b code >>=! rest) ≡ returned a
    → (b ≡ false) × (rest tt ≡ returned a)
unfolding fail_if
fail_if-parts true code rest a e = absurd cc
fail_if-parts false code rest a e = (refl, e)

pub fail_if-false :
    (b : Bool) (code : String) (u : Unit {0}) → fail_if b code ≡ returned u → b ≡ false
unfolding fail_if
fail_if-false true code u e = absurd cc
fail_if-false false code u e = refl

pub >>=!-parts :
    {A B : Type 0} (m : Outcome A) (rest : A → Outcome B) (b : B)
    → (m >>=! rest) ≡ returned b
    → (a : A) × (m ≡ returned a) × (rest a ≡ returned b)
>>=!-parts (returned a) rest b e = (a, refl, e)
>>=!-parts (thrown fault) rest b e = absurd cc

pub returned_inj : {A : Type 0} (a b : A) → returned a ≡ returned b → a ≡ b
returned_inj a b e = cc

-- How the ledger changes: the row of the event is put first, and it was checked, or nothing changes.
pub data IsAppended (e : LedgerEvent) (r : Readings) (rows : List Invocation)
    : Appended → List Invocation → Type 0 where
  unchanged :
      (i : Invocation)
      → is_misnumbered e ≡ false
      → find_first (is_event_row e e.sequence) rows ≡ some i
      → identical e i ≡ true
      → IsAppended e r rows existing rows
  added :
      (run : RunRow) (installation : InstallationRow)
      → is_misnumbered e ≡ false
      → find_first (is_event_row e e.sequence) rows ≡ none
      → r.run ≡ some run
      → r.installation ≡ some installation
      → other_tenant run installation ≡ false
      → check_event e run installation r.required rows ≡ returned tt
      → IsAppended e r rows inserted (row_of e run installation r.stored_cost ∷ rows)

insert_event-IsAppended :
    (e : LedgerEvent) (r : Readings) (rows : List Invocation)
    → is_misnumbered e ≡ false
    → find_first (is_event_row e e.sequence) rows ≡ none
    → (run : Option RunRow) (installation : Option InstallationRow) → r.run ≡ run
    → r.installation ≡ installation
    → (a : Appended) (after : List Invocation)
    → insert_event e run installation r.required r.stored_cost rows ≡ returned (a, after)
    → IsAppended e r rows a after
insert_event-IsAppended e r rows m n none installation q1 q2 a after h = absurd cc
insert_event-IsAppended e r rows m n (some run) none q1 q2 a after h = absurd cc
insert_event-IsAppended e r rows m n (some run) (some installation) q1 q2 a after h =
    let (tenant, h1) = fail_if-parts _ _ _ (a, after) h in
    let (u, checked, h2) =
      >>=!-parts (check_event e run installation r.required rows) _ (a, after) h1 in
    subst (λ (x : Appended × List Invocation). IsAppended e r rows x.0 x.1)
      (returned_inj (inserted, row_of e run installation r.stored_cost ∷ rows) (a, after) h2)
      (added run installation m n q1 q2 tenant checked)

append_event-IsAppended :
    (e : LedgerEvent) (r : Readings) (rows : List Invocation)
    → is_misnumbered e ≡ false
    → (o : Option Invocation) → find_first (is_event_row e e.sequence) rows ≡ o
    → (a : Appended) (after : List Invocation) → append_event e r rows o ≡ returned (a, after)
    → IsAppended e r rows a after
append_event-IsAppended e r rows m none q a after h =
    insert_event-IsAppended e r rows m q r.run r.installation refl refl a after h
append_event-IsAppended e r rows m (some i) q a after h = elim (Bool-cases (identical e i)) [
  | inl p ↦
      subst (λ (x : Appended × List Invocation). IsAppended e r rows x.0 x.1)
        (returned_inj (existing, rows) (a, after) (rw p at h)) (unchanged i m q p)
  | inr p ↦ absurd (ground (arith, rw p at h))
]

pub append_invocation-IsAppended :
    (e : LedgerEvent) (r : Readings) (rows : List Invocation) (a : Appended)
    (after : List Invocation)
    → append_invocation e r rows ≡ returned (a, after)
    → IsAppended e r rows a after
unfolding append_invocation
append_invocation-IsAppended e r rows a after h =
    let (m, h1) = fail_if-parts _ _ _ (a, after) h in
    append_event-IsAppended e r rows m (find_first (is_event_row e e.sequence) rows) refl a after h1
