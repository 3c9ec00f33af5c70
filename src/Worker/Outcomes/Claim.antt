-- ===== src/Worker/Outcomes/Claim.antt =====
-- The branches of `claimNext` (apps/worker/src/store.ts) as a rule.
use agent_builder.Common.{
  ℕ, ◌+◌, ◌≤◌, ◌≡◌, refl, sym, ap, subst, ◌∙◌, inl, inr, ◌⊎◌, String, Bool, true, false, List, [],
  ◌∷◌, Option, none, some, Option-cases, some_inj, Bool-cases, arith, All, Distinct,
  Distinct-find_row,
}
use agent_builder.Worker.Model.{Run, Grant, Core, Db, Release, is_queued}
use agent_builder.Worker.Journal.{find_run}
use agent_builder.Worker.Grants.{update_run, find_grant_of}
use agent_builder.Worker.Candidate.{
  is_claimable, created_before, earlier, next_candidate, claim_grant, Standing, standing_of,
}
use agent_builder.Worker.Claim.{
  ClaimVerdict, revalidate, pause, start, decide_grant_claim, decide_claim, send_back,
  pause_for_budget, start_core, carry_out_claim, claim_next, is_unauthorized, budget_insufficient,
}
use agent_builder.Worker.Outcomes.{CoreEnsures, commit_core}

-- The decision to start a candidate: its grant is on file, and can pay for it.
pub record IsStarted (now : ℕ) (db : Db) (r : Run) (g : Grant) : Type 0 where
  pub granted : find_grant_of r.grant db.core.grants ≡ some g
  pub authorized : is_unauthorized now db (standing_of db r) r (some g) ≡ false
  pub funded : g.spent + g.reserved + r.upper_cost ≤ g.total_budget

-- The earlier of two rows is one of them.
earlier-cases :
    (x : Run) (rest : Option Run) → (earlier x rest ≡ x) ⊎ (rest ≡ some (earlier x rest))
earlier-cases x none = inl refl
earlier-cases x (some y) = elim (Bool-cases (created_before x y)) [
  | inl e ↦ inl (rw e)
  | inr e ↦ inr (rw e)
]

next_candidate-All {κ} :
    (P : Run → Type κ) (locked : ℕ → Bool) (now : ℕ) (releases : List Release) (runs : List Run)
    (r : Run)
    → All P runs
    → next_candidate locked now releases runs ≡ some r
    → P r × (is_claimable locked now releases r ≡ true)
unfolding next_candidate
next_candidate-All P locked now releases [] r h e = absurd (ground arith)
next_candidate-All P locked now releases (x ∷ xs) r h e =
    elim (Bool-cases (is_claimable locked now releases x)) [
      | inr c ↦ next_candidate-All P locked now releases xs r h.1 (rw c at e)
      | inl c ↦
          let first : some (earlier x (next_candidate locked now releases xs)) ≡ some r =
            rw c at e in
          elim (earlier-cases x (next_candidate locked now releases xs)) [
            | inl same ↦
                subst (λ y. P y × (is_claimable locked now releases y ≡ true))
                  (some_inj (ap some (sym same) ∙ first)) (h.0, c)
            | inr later ↦ next_candidate-All P locked now releases xs r h.1 (later ∙ first)
          ]
    ]

-- The candidate is the row on file under its key, and it waits in the queue.
pub record IsCandidate (c : Core) (r : Run) : Type 0 where
  pub found : find_run r.id c.runs ≡ some r
  pub waits : is_queued r.state ≡ true

pub IsCandidate-facts :
    (locked : ℕ → Bool) (now : ℕ) (db : Db) (r : Run)
    → Distinct (λ x. x.id) db.core.runs
    → next_candidate locked now db.catalog.releases db.core.runs ≡ some r
    → IsCandidate db.core r
unfolding is_claimable
IsCandidate-facts locked now db r keyed e =
    let (found, claimable) =
      next_candidate-All (λ x. find_run x.id db.core.runs ≡ some x) locked now db.catalog.releases
        db.core.runs r (Distinct-find_row (λ x. x.id) db.core.runs keyed) e in
    record { found = found; waits = ground arith }

claim_grant-found :
    (r : Run) (gs : List Grant) (g : Grant)
    → claim_grant r gs ≡ some g
    → find_grant_of r.grant gs ≡ some g
unfolding claim_grant
claim_grant-found r gs g h = ground arith

decide_grant_claim-start :
    (now : ℕ) (db : Db) (s : Standing) (r : Run) (grant : Option Grant) (g : Grant)
    → decide_grant_claim now db s r grant ≡ start g
    → (grant ≡ some g)
      × (is_unauthorized now db s r (some g) ≡ false)
      × (g.spent + g.reserved + r.upper_cost ≤ g.total_budget)
unfolding decide_grant_claim budget_insufficient
decide_grant_claim-start now db s r none g h = cc
decide_grant_claim-start now db s r (some x) g h = ground arith

pub decide_claim-start :
    (now : ℕ) (db : Db) (r : Run) (g : Grant)
    → decide_claim now db r ≡ start g
    → IsStarted now db r g
unfolding decide_claim
decide_claim-start now db r g h =
    let (found, authorized, funded) =
      decide_grant_claim-start now db (standing_of db r) r (claim_grant r db.core.grants) g h in
    record {
      granted = claim_grant-found r db.core.grants g found;
      authorized = authorized;
      funded = funded;
    }

pub ClaimVerdict-cases :
    (v : ClaimVerdict)
    → ((reason : String) × (v ≡ revalidate reason)) ⊎ (v ≡ pause) ⊎ ((g : Grant) × (v ≡ start g))
ClaimVerdict-cases (revalidate reason) = inl (reason, refl)
ClaimVerdict-cases pause = inr (inl refl)
ClaimVerdict-cases (start g) = inr (inr (g, refl))

pub claim_next_core {κ} :
    (P : Core → Type κ) (locked : ℕ → Bool) (worker lease_ms now : ℕ) (db : Db)
    → P db.core
    → ((r : Run) (reason : String)
        → next_candidate locked now db.catalog.releases db.core.runs ≡ some r
        → P (update_run r.id (send_back reason now) db.core))
    → ((r : Run)
        → next_candidate locked now db.catalog.releases db.core.runs ≡ some r
        → P (update_run r.id (pause_for_budget now) db.core))
    → ((r : Run) (g : Grant)
        → next_candidate locked now db.catalog.releases db.core.runs ≡ some r
        → IsStarted now db r g
        → P (start_core worker lease_ms now r g db.core))
    → CoreEnsures P (claim_next locked worker lease_ms now db)
unfolding claim_next carry_out_claim
claim_next_core P locked worker lease_ms now db same returns pauses starts =
    elim (Option-cases (next_candidate locked now db.catalog.releases db.core.runs)) [
      | inl e ↦ rw (e, claim_next) same
      | inr (r, e) ↦ elim (ClaimVerdict-cases (decide_claim now db r)) [
        | inl (reason, v) ↦
            rw (e, claim_next, v, carry_out_claim) (commit_core P _ _ _ db (returns r reason e))
        | inr (inl v) ↦ rw (e, claim_next, v, carry_out_claim) (commit_core P _ _ _ db (pauses r e))
        | inr (inr (g, v)) ↦
            rw (e, claim_next, v, carry_out_claim)
              (commit_core P _ _ _ db (starts r g e (decide_claim-start now db r g v)))
      ]
    ]
