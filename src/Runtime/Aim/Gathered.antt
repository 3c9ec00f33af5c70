-- ===== src/Runtime/Aim/Gathered.antt =====
-- What is gathered for a part is what its criteria ask (packages/runtime/src/aim/evidence-policy.ts).
use agent_builder.Common.{
  ℕ, ◌≡◌, sym, subst, inl, inr, Bool, true, false, List, [], ◌∷◌, ◌++◌, is_some, is_none, keep, mem,
  any, ◌==◌, ==_iff, All, Bool-cases, arith,
}
use agent_builder.Runtime.Aim.{Criterion, Milestone, Part, add_id, add_ids}
use agent_builder.Runtime.Aim.Demands.{
  Demand, result_at, is_result_satisfied, result_evidence, concerns, add_criterion, add_criteria,
  add_milestones, latency_ids, defined_ids, add_latency, is_empty,
}

All-append : (P : ℕ → Type 0) (xs ys : List ℕ) → All P (xs ++ ys) → All P xs × All P ys
All-append P [] ys h = (tt, h)
All-append P (x ∷ xs) ys h = let (a, b) = All-append P xs ys h.1 in ((h.0, a), b)

mem-All : (P : ℕ → Type 0) (x : ℕ) (xs : List ℕ) → mem x xs ≡ true → All P xs → P x
mem-All P x [] e h = absurd (ground (arith, e))
mem-All P x (y ∷ ys) e h = elim (Bool-cases (x == y)) [
  | inl q ↦ subst P (sym ((==_iff x y).0 q)) h.0
  | inr q ↦ mem-All P x ys (ground (arith, e, q)) h.1
]

add_id-All : (P : ℕ → Type 0) (x : ℕ) (ids : List ℕ) → All P (add_id x ids) → P x × All P ids
add_id-All P x ids h = elim (Bool-cases (mem x ids)) [
  | inl q ↦ let all_there = rw q at h in (mem-All P x ids q all_there, all_there)
  | inr q ↦ let (a, b) = All-append P ids (x ∷ []) (rw q at h) in (b.0, a)
]

pub add_ids-All : (P : ℕ → Type 0) (xs ids : List ℕ) → All P (add_ids xs ids) → All P xs × All P ids
add_ids-All P [] ids h = (tt, h)
add_ids-All P (x ∷ xs) ids h =
    let (rest, ids1) = add_ids-All P xs (add_id x ids) h in
    let (first, ids2) = add_id-All P x ids ids1 in ((first, rest), ids2)

pub keep-All :
    (f : ℕ → Bool) (xs : List ℕ) → is_empty (keep f xs) ≡ true → All (λ x. f x ≡ false) xs
keep-All f [] e = tt
keep-All f (x ∷ xs) e = elim (Bool-cases (f x)) [
  | inl q ↦ absurd (ground (arith, rw q at e))
  | inr q ↦ (q, keep-All f xs (rw q at e))
]

module _ (P Q : ℕ → Type 0) (part : Part) (selected : ℕ) where
  -- What is gathered is shown, and nothing is unsatisfied.
  abbrev pub IsMet : Demand → Type 0
  IsMet d = All P d.evidence_ids × All Q d.metric_ids × (d.criteria_unsatisfied ≡ false)

  abbrev pub IsCovered : Criterion → Type 0
  IsCovered c =
      concerns part c ≡ true
      → All P c.evidence_refs
        × All P (result_evidence (result_at c selected))
        × All Q c.required_metric_ids
        × (is_result_satisfied (result_at c selected) ≡ true)

  add_criterion-IsMet :
      (d : Demand) (c : Criterion) → IsMet (add_criterion part selected d c) → IsMet d × IsCovered c
  add_criterion-IsMet d c h = elim (Bool-cases (concerns part c)) [
    | inl q ↦
        let (e, m, u) = rw q at h in
        let (shown, more) =
          add_ids-All P (result_evidence (result_at c selected))
            (add_ids c.evidence_refs d.evidence_ids) e in
        let (own, before) = add_ids-All P c.evidence_refs d.evidence_ids more in
        let (metrics, earlier) = add_ids-All Q c.required_metric_ids d.metric_ids m in
        ((before, earlier, ground (arith, u)), λ w. (own, shown, metrics, ground (arith, u)))
    | inr q ↦ (rw q at h, λ w. absurd (ground (arith, q, w)))
  ]

  add_criteria-IsMet :
      (d : Demand) (cs : List Criterion)
      → IsMet (add_criteria part selected d cs)
      → IsMet d × All IsCovered cs
  add_criteria-IsMet d [] h = (h, tt)
  add_criteria-IsMet d (c ∷ cs) h =
      let (first, rest) = add_criteria-IsMet (add_criterion part selected d c) cs h in
      let (before, covered) = add_criterion-IsMet d c first in (before, (covered, rest))

  pub add_milestones-IsMet :
      (d : Demand) (ms : List Milestone)
      → IsMet (add_milestones part selected d ms)
      → IsMet d × All (λ m. All IsCovered m.gate_criteria) ms
  add_milestones-IsMet d [] h = (h, tt)
  add_milestones-IsMet d (m ∷ ms) h =
      let (first, rest) =
        add_milestones-IsMet (add_criteria part selected d m.gate_criteria) ms h in
      let (before, covered) = add_criteria-IsMet d m.gate_criteria first in
      (before, (covered, rest))

  pub add_latency-IsMet :
      (d : Demand)
      → IsMet (add_latency part d)
      → IsMet d
        × (any is_some (latency_ids part) ≡ true
            → (any is_none (latency_ids part) ≡ false) × All Q (defined_ids (latency_ids part)))
  add_latency-IsMet d h = elim (Bool-cases (any is_some (latency_ids part))) [
    | inl q ↦
        let (e, m, u) = rw q at h in
        let (metrics, before) = add_ids-All Q (defined_ids (latency_ids part)) d.metric_ids m in
        ((e, before, ground (arith, u)), λ w. (ground (arith, u), metrics))
    | inr q ↦ (rw q at h, λ w. absurd (ground (arith, q, w)))
  ]
