-- ===== src/Worker/Plugins/Order.antt =====
-- Every ledger of Plugin invocations is in order (apps/worker/src/plugin-store.ts).
use agent_builder.Common.{
  ℕ, ◌≡◌, ◌⊎◌, inl, inr, refl, ◌==◌, Bool, true, false, ◌&&◌, List, [], ◌∷◌, Option, none, some,
  find_first, arith,
}
use agent_builder.Worker.PluginPlan.{returned}
use agent_builder.Worker.Plugins.Executor.{running, LedgerEvent, Appended}
use agent_builder.Worker.Plugins.Invocations.{
  same_state, Invocation, RunRow, InstallationRow, Readings, is_event_row, is_begun_by, has_begun,
  check_end, row_of, check_event, is_misnumbered, append_invocation,
}
use agent_builder.Worker.Plugins.Appends.{
  fail_if-parts, IsAppended, unchanged, added, append_invocation-IsAppended,
}

-- The ledgers that come of appends in any order, by any workers, whatever the transactions read.
pub data Ledger : List Invocation → Type 0 where
  empty : Ledger []
  appended :
      {rows after : List Invocation} (e : LedgerEvent) (r : Readings) (a : Appended)
      → Ledger rows
      → (e.sequence ≡ 1) ⊎ (e.sequence ≡ 2)
      → append_invocation e r rows ≡ returned (a, after)
      → Ledger after

abbrev pub is_row : ℕ → ℕ → Invocation → Bool
is_row key sequence i = i.invocation_key == key && i.sequence == sequence

-- A first row is running; a second row has ended, and the first one of the same invocation, plan, run,
-- installation, tool and request is among the earlier rows.
pub data IsNumbered (i : Invocation) (earlier : List Invocation) : Type 0 where
  first : i.sequence ≡ 1 → same_state i.state running ≡ true → IsNumbered i earlier
  second :
      i.sequence ≡ 2
      → same_state i.state running ≡ false
      → (j : Invocation) → find_first (is_row i.invocation_key 1) earlier ≡ some j
      → j.plan_id ≡ i.plan_id
      → j.run_id ≡ i.run_id
      → j.installation_id ≡ i.installation_id
      → j.tool_name ≡ i.tool_name
      → j.request_digest ≡ i.request_digest
      → IsNumbered i earlier

-- Each row is the only one of its invocation and its number.
abbrev pub IsInOrder : List Invocation → Type 0
IsInOrder [] = Unit
IsInOrder (i ∷ earlier) =
    (find_first (is_row i.invocation_key i.sequence) earlier ≡ none)
    × IsNumbered i earlier
    × IsInOrder earlier

has_begun-row :
    (e : LedgerEvent) (o : Option Invocation)
    → has_begun e o ≡ true
    → (j : Invocation) × (o ≡ some j) × (is_begun_by e j ≡ true)
has_begun-row e none h = absurd (ground (arith, h))
has_begun-row e (some j) h = (j, refl, h)

row_of-IsNumbered :
    (e : LedgerEvent) (run : RunRow) (installation : InstallationRow) (required : Bool)
    (stored_cost : ℕ → ℕ) (rows : List Invocation)
    → (e.sequence ≡ 1) ⊎ (e.sequence ≡ 2)
    → is_misnumbered e ≡ false
    → check_event e run installation required rows ≡ returned tt
    → IsNumbered (row_of e run installation stored_cost) rows
unfolding check_end
row_of-IsNumbered e run installation required stored_cost rows (inl one) m checked =
    first one (ground (arith, one, m))
row_of-IsNumbered e run installation required stored_cost rows (inr two) m checked =
    let other : (e.sequence == 1) ≡ false = ground (arith, two) in
    let ending : check_end e run installation rows ≡ returned tt = (rw other at checked) in
    let (begun, rest) = fail_if-parts _ _ _ tt ending in
    let (j, found, same) =
      has_begun-row e (find_first (is_event_row e 1) rows) (ground (arith, begun)) in
    second two (ground (arith, two, m)) j found (ground (arith, same)) (ground (arith, same))
      (ground (arith, same)) (ground (arith, same)) (ground (arith, same))

step-IsInOrder :
    (e : LedgerEvent) (r : Readings) (a : Appended) (rows after : List Invocation)
    → IsInOrder rows
    → (e.sequence ≡ 1) ⊎ (e.sequence ≡ 2)
    → IsAppended e r rows a after
    → IsInOrder after
step-IsInOrder e r a rows after o s (unchanged i m found same) = o
step-IsInOrder e r a rows after o s (added run installation m new q1 q2 tenant checked) =
    (new, row_of-IsNumbered e run installation r.required r.stored_cost rows s m checked, o)

-- However events are appended, the ledger holds at most one row of an invocation and a number; every
-- row of number one is running, and every row of number two has ended and stands after the row of
-- number one of the same invocation, plan, run, installation, tool and request.
pub Ledger-IsInOrder : (rows : List Invocation) → Ledger rows → IsInOrder rows
Ledger-IsInOrder [] empty = tt
Ledger-IsInOrder after (appended {rows} e r a l s h) =
    step-IsInOrder e r a rows after (Ledger-IsInOrder rows l) s
      (append_invocation-IsAppended e r rows a after h)
