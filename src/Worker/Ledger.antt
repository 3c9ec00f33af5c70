-- ===== src/Worker/Ledger.antt =====
-- The cost ledger: what a grant has reserved is the sum over the running runs that it authorizes
-- (the reservations of apps/worker/src/store.ts).
pub mod Operations
use agent_builder.Common.{
  ℕ, ◌+◌, ◌-◌, ◌≤◌, ◌≡◌, refl, sym, ◌≢◌, inl, inr, Bool, true, false, ◌&&◌, List, Option, none,
  some, ◌==◌, ==_iff, opt_eq, if◌then◌else◌, find_row, update_row, sum_by, find_row-update_row,
  find_row-key, find_row-update_row_cases, subst, ap, sum_by-update_row, le-sum_by, Bool-cases,
  Option-cases, arith,
}
use agent_builder.Worker.Model.{Run, RunState, Grant, Core, is_running, Settlement}
use agent_builder.Worker.Journal.{find_run}
use agent_builder.Worker.Grants.{
  find_grant, find_grant_of, on_grant, update_run, update_grant, settled, reassess,
  release_reservation, reconcile_incurred_cost, settle_grant,
}

-- What a run holds of the reservations of a grant.
abbrev pub held_of : ℕ → Run → ℕ
held_of g r = if is_running r.state && opt_eq r.grant (some g) then r.upper_cost else 0

unfoldable pub reserved_by : ℕ → List Run → ℕ
reserved_by g = sum_by (held_of g)

abbrev pub IsBalanced : Core → Type 0
IsBalanced c =
    (g : ℕ) (row : Grant) → find_grant g c.grants ≡ some row → row.reserved ≡ reserved_by g c.runs

-- An update of a run moves a sum by what the run held and holds.
pub reserved_by-update :
    (g id : ℕ) (f : Run → Run) (runs : List Run) (r : Run)
    → find_run id runs ≡ some r
    → reserved_by g (update_row (λ x. x.id) id f runs) + held_of g r
      ≡ reserved_by g runs + held_of g (f r)
unfolding reserved_by
reserved_by-update g id f runs r h = sum_by-update_row (λ x. x.id) (held_of g) id f runs r h

pub held_of-le :
    (g id : ℕ) (runs : List Run) (r : Run)
    → find_run id runs ≡ some r
    → held_of g r ≤ reserved_by g runs
unfolding reserved_by
held_of-le g id runs r h = le-sum_by (λ x. x.id) (held_of g) id runs r h

-- A run that changes what it holds of no grant on file leaves the ledger balanced.
pub update_run-IsBalanced :
    (c : Core) (id : ℕ) (f : Run → Run) (r : Run)
    → find_run id c.runs ≡ some r
    → ((g : ℕ) (row : Grant) → find_grant g c.grants ≡ some row → held_of g (f r) ≡ held_of g r)
    → IsBalanced c
    → IsBalanced (update_run id f c)
unfolding update_run
update_run-IsBalanced c id f r found same balanced g row h =
    omega (arith, reserved_by-update g id f c.runs r found, same g row h, balanced g row h)

-- A run and one grant that move together leave the ledger balanced.
pub move-IsBalanced :
    (c : Core) (id gid : ℕ) (f : Run → Run) (k : Grant → Grant) (r : Run)
    → find_run id c.runs ≡ some r
    → ((x : Grant) → (k x).id ≡ x.id)
    → ((row : Grant)
        → find_grant gid c.grants ≡ some row
        → row.reserved ≡ reserved_by gid c.runs
        → (k row).reserved + held_of gid r ≡ row.reserved + held_of gid (f r))
    → ((g : ℕ) → gid ≢ g → held_of g (f r) ≡ held_of g r)
    → IsBalanced c
    → IsBalanced (update_grant gid k (update_run id f c))
unfolding update_run update_grant
move-IsBalanced c id gid f k r found keeps moved same balanced g row h =
    elim (find_row-update_row_cases (λ x. x.id) gid g k c.grants row keeps h) [
      | inl (e, (old, at, eq)) ↦
          subst (λ i. row.reserved ≡ reserved_by i (update_row (λ x. x.id) id f c.runs)) e
            (omega (
              arith,
              ap (λ (x : Grant). x.reserved) eq,
              moved old at (balanced gid old at),
              reserved_by-update gid id f c.runs r found,
              balanced gid old at,
            ))
      | inr (n, at) ↦
          omega (arith, reserved_by-update g id f c.runs r found, same g n, balanced g row at)
    ]

-- `on_grant` where there is no grant on file, and where there is one.
pub on_grant-missing :
    (grant : Option ℕ) (k : Grant → Grant) (c : Core)
    → find_grant_of grant c.grants ≡ none
    → on_grant grant k c ≡ c
unfolding on_grant
on_grant-missing grant k c h = rw (h, on_grant)

pub on_grant-found :
    (gid : ℕ) (k : Grant → Grant) (c : Core) (g : Grant)
    → find_grant gid c.grants ≡ some g
    → on_grant (some gid) k c ≡ update_grant gid k c
unfolding on_grant
on_grant-found gid k c g h =
    rw (h, on_grant) (ap (λ i. update_grant i k c) (find_row-key (λ x. x.id) gid c.grants g h))

pub on_grant-of :
    (grant : Option ℕ) (k : Grant → Grant) (c : Core) (g : Grant)
    → find_grant_of grant c.grants ≡ some g
    → on_grant grant k c ≡ update_grant g.id k c
unfolding on_grant
on_grant-of grant k c g h = rw (h, on_grant)

-- A running run that stops gives its reservation back, and the ledger stays balanced.
pub leave-IsBalanced :
    (c : Core) (f : Run → Run) (k : Grant → Grant) (r : Run)
    → find_run r.id c.runs ≡ some r
    → is_running r.state ≡ true
    → is_running (f r).state ≡ false
    → ((x : Grant) → (k x).id ≡ x.id)
    → ((x : Grant) → (k x).reserved ≡ x.reserved - r.upper_cost)
    → IsBalanced c
    → IsBalanced (on_grant r.grant k (update_run r.id f c))
unfolding update_run
leave-IsBalanced c f k r found runs left keeps lowers balanced = elim (Option-cases r.grant) [
  | inl e ↦
      rw (e, on_grant-missing none k (update_run r.id f c) refl)
        (update_run-IsBalanced c r.id f r found (λ g row h. ground arith) balanced)
  | inr (gid, e) ↦ elim (Option-cases (find_grant gid c.grants)) [
    | inl missing ↦
        rw (e, on_grant-missing (some gid) k (update_run r.id f c) missing)
          (update_run-IsBalanced c r.id f r found (λ g row h. ground arith) balanced)
    | inr (g, at) ↦
        rw (e, on_grant-found gid k (update_run r.id f c) g at)
          (move-IsBalanced c r.id gid f k r found keeps
            (λ row h b. ground (arith, lowers row, held_of-le gid r.id c.runs r found))
            (λ j n. ground arith) balanced)
  ]
]
