-- ===== src/Worker/Outcomes/Recover.antt =====
-- The loop of `recoverExpiredLeases` (apps/worker/src/store.ts) as a rule, and what the rows of the
-- query are.
use agent_builder.Common.{
  ℕ, ◌≡◌, ◌≢◌, refl, sym, inl, inr, Bool, true, List, [], ◌∷◌, Option, some, ok, Ensures,
  Ensures-then, Ensures-bind, All, All-map, All-keep, All-zip, Distinct, Distinct-keep,
  Distinct-find_row, find_row-update_row, Bool-cases, keep, arith,
}
use agent_builder.Worker.Model.{Run, Core, Journal, Db, Catalog, is_running}
use agent_builder.Worker.Journal.{find_run}
use agent_builder.Worker.Grants.{update_run, release_reservation}
use agent_builder.Worker.Recover.{
  is_expired, insert_by_expiry, sort_by_expiry, expired_runs, expires_before, recovered_run,
  recover_core, recover_journal, recover_one, recover_all, recover_expired_leases,
}
use agent_builder.Worker.Outcomes.{CoreEnsures}

abbrev run_id : Run → ℕ
run_id r = r.id

insert_by_expiry-All {κ} :
    (P : Run → Type κ) (r : Run) (xs : List Run) → P r → All P xs → All P (insert_by_expiry r xs)
unfolding insert_by_expiry
insert_by_expiry-All P r [] p h = (p, tt)
insert_by_expiry-All P r (s ∷ xs) p h = elim (Bool-cases (expires_before r s)) [
  | inl e ↦ rw e (p, h)
  | inr e ↦ rw e (h.0, insert_by_expiry-All P r xs p h.1)
]

sort_by_expiry-All {κ} : (P : Run → Type κ) (xs : List Run) → All P xs → All P (sort_by_expiry xs)
unfolding sort_by_expiry
sort_by_expiry-All P [] h = tt
sort_by_expiry-All P (r ∷ xs) h =
    insert_by_expiry-All P r (sort_by_expiry xs) h.0 (sort_by_expiry-All P xs h.1)

insert_by_expiry-Distinct :
    (r : Run) (xs : List Run)
    → All (λ y. r.id ≢ y.id) xs
    → Distinct run_id xs
    → Distinct run_id (insert_by_expiry r xs)
unfolding insert_by_expiry
insert_by_expiry-Distinct r [] n h = (tt, tt)
insert_by_expiry-Distinct r (s ∷ xs) n h = elim (Bool-cases (expires_before r s)) [
  | inl e ↦ rw e (n, h)
  | inr e ↦ rw e (
    insert_by_expiry-All (λ y. s.id ≢ y.id) r xs (λ q. n.0 (sym q)) h.0,
    insert_by_expiry-Distinct r xs n.1 h.1,
  )
]

sort_by_expiry-Distinct : (xs : List Run) → Distinct run_id xs → Distinct run_id (sort_by_expiry xs)
unfolding sort_by_expiry
sort_by_expiry-Distinct [] h = tt
sort_by_expiry-Distinct (r ∷ xs) h =
    insert_by_expiry-Distinct r (sort_by_expiry xs) (sort_by_expiry-All (λ y. r.id ≢ y.id) xs h.0)
      (sort_by_expiry-Distinct xs h.1)

-- A row of the query: on file under its key, running, with its lease expired.
abbrev pub IsExpired : (ℕ → Bool) → ℕ → Core → Run → Type 0
IsExpired locked now c r = (find_run r.id c.runs ≡ some r) × (is_expired locked now r ≡ true)

pub expired_runs-IsExpired :
    (locked : ℕ → Bool) (now : ℕ) (c : Core)
    → Distinct run_id c.runs
    → All (IsExpired locked now c) (expired_runs locked now c.runs)
      × Distinct run_id (expired_runs locked now c.runs)
unfolding expired_runs
expired_runs-IsExpired locked now c h = (
  sort_by_expiry-All (IsExpired locked now c) (keep (is_expired locked now) c.runs) (
      All-keep (λ r. find_run r.id c.runs ≡ some r) (is_expired locked now) c.runs
        (Distinct-find_row run_id c.runs h)),
  sort_by_expiry-Distinct (keep (is_expired locked now) c.runs)
      (Distinct-keep run_id (is_expired locked now) c.runs h),
)

release_reservation-runs :
    (grant : Option ℕ) (amount : ℕ) (c : Core) → (release_reservation grant amount c).runs ≡ c.runs
unfolding release_reservation
release_reservation-runs grant amount c = ground arith

-- Recovering one run leaves the rows of the others.
pub recover_core-others :
    (catalog : Catalog) (now : ℕ) (r s : Run) (c : Core)
    → r.id ≢ s.id
    → find_run s.id c.runs ≡ some s
    → find_run s.id (recover_core catalog now r c).runs ≡ some s
unfolding recover_core update_run recovered_run
recover_core-others catalog now r s c n h =
    rw
      (release_reservation-runs r.grant r.upper_cost
        (update_run r.id (recovered_run catalog now) c))
      (ground (
        arith,
        find_row-update_row run_id r.id s.id (recovered_run catalog now) c.runs (λ x. ground arith),
      ))

recover_one_core :
    (now : ℕ) (r : Run) (db : Db)
    → Ensures (λ d. d.core ≡ recover_core db.catalog now r db.core) (recover_one now r db)
unfolding recover_one
recover_one_core now r db =
    let core = recover_core db.catalog now r db.core in
    Ensures-then {A = Journal} {B = Db} (λ d. d.core ≡ core)
      (recover_journal core db.catalog now r db.journal)
      (λ j. ok (record db { core = core; journal = j })) (λ j. refl)

module _ {κ} (P : Core → Type κ) (locked : ℕ → Bool) (now : ℕ)
    (each : (catalog : Catalog) (c : Core) (r : Run)
      → find_run r.id c.runs ≡ some r
      → is_expired locked now r ≡ true
      → P c
      → P (recover_core catalog now r c)) where
  IsExpired-recover_core :
      (catalog : Catalog) (r : Run) (rest : List Run) (c : Core)
      → All (λ s. r.id ≢ s.id) rest
      → All (IsExpired locked now c) rest
      → All (IsExpired locked now (recover_core catalog now r c)) rest
  IsExpired-recover_core catalog r rest c n h =
      All-map (λ s. (r.id ≢ s.id) × IsExpired locked now c s)
        (IsExpired locked now (recover_core catalog now r c)) rest
        (λ s q. (recover_core-others catalog now r s c q.0 q.1.0, q.1.1))
        (All-zip (λ s. r.id ≢ s.id) (IsExpired locked now c) rest n h)

  recover_all_core :
      (rs : List Run) (db : Db)
      → All (IsExpired locked now db.core) rs
      → Distinct run_id rs
      → P db.core
      → Ensures (λ d. P d.core) (recover_all now rs db)
  unfolding recover_all
  recover_all_core [] db due apart h = h
  recover_all_core (r ∷ rest) db due apart h =
      Ensures-bind (λ d. d.core ≡ recover_core db.catalog now r db.core) (λ d. P d.core)
        (recover_one now r db) (recover_all now rest) (recover_one_core now r db)
        λ d e.
          recover_all_core rest d
            (rw e (IsExpired-recover_core db.catalog r rest db.core apart.0 due.1)) apart.1
            (rw e (each db.catalog db.core r due.0.0 due.0.1 h))

  pub recover_expired_leases_rows :
      (db : Db)
      → Distinct run_id db.core.runs
      → P db.core
      → CoreEnsures P (recover_expired_leases locked now db)
  unfolding recover_expired_leases
  recover_expired_leases_rows db keyed h =
      let (rows, apart) = expired_runs-IsExpired locked now db.core keyed in
      let rs : List Run = expired_runs locked now db.core.runs in
      Ensures-bind (λ d. P d.core) (λ x. P x.1.core) (recover_all now rs db) _
        (recover_all_core rs db rows apart h) (λ d k. k)

-- The rule where it only matters that the rows are running.
pub recover_expired_leases_core {κ} :
    (P : Core → Type κ) (now : ℕ)
    (each : (catalog : Catalog) (c : Core) (r : Run)
      → find_run r.id c.runs ≡ some r
      → is_running r.state ≡ true
      → P c
      → P (recover_core catalog now r c))
    (locked : ℕ → Bool) (db : Db)
    → Distinct run_id db.core.runs
    → P db.core
    → CoreEnsures P (recover_expired_leases locked now db)
recover_expired_leases_core P now each locked db keyed h =
    recover_expired_leases_rows P locked now
      (λ catalog c r found e p. each catalog c r found (ground (arith, e)) p) db keyed h
