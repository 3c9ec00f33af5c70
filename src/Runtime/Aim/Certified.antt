-- ===== src/Runtime/Aim/Certified.antt =====
-- A group has a certified agent on evidence only (packages/runtime/src/aim/state-at-time.ts).
use agent_builder.Common.{
  ℕ, ◌≡◌, ◌<◌, ◌⊎◌, refl, sym, subst, inl, inr, Bool, true, false, not, ◌&&◌, ◌||◌, List, [], ◌∷◌,
  Option, none, some, keep, mem, map, all, length, All, All-map, Bool-cases, arith,
}
use agent_builder.Runtime.Aim.{
  is_conflicting, EvidenceReference, Source, Agent, Group, Program, is_evidence_fresh,
}
use agent_builder.Runtime.Aim.Demands.{find_evidence}
use agent_builder.Runtime.Aim.States.{
  source_by_id, is_certified, is_usable, is_usable_evidence, has_any, certification_evidence_fresh,
  AgentState, agent_state, counts_as_certified, group_agents, group_state,
}

-- An element of a list.
abbrev pub IsIn : {A : Type 0} → A → List A → Type 0
IsIn x [] = ⊥
IsIn x (y ∷ ys) = (y ≡ x) ⊎ IsIn x ys

-- A list of which something was kept has an element with the property.
kept :
    {A : Type 0} (f : A → Bool) (xs : List A)
    → 0 < length (keep f xs)
    → (x : A) × IsIn x xs × (f x ≡ true)
kept f [] h = absurd (omega (arith, h))
kept f (x ∷ xs) h = elim (Bool-cases (f x)) [
  | inl q ↦ (x, inl refl, q)
  | inr q ↦ let (y, there, e) = kept f xs (rw q at h) in (y, inr there, e)
]

kept-IsIn :
    {A : Type 0} (f : A → Bool) (xs : List A) (x : A)
    → IsIn x (keep f xs)
    → IsIn x xs × (f x ≡ true)
kept-IsIn f [] x h = absurd h
kept-IsIn f (y ∷ ys) x h = elim (Bool-cases (f y)) [
  | inl q ↦ elim (rw q at h) [
    | inl e ↦ (inl e, subst (λ z. f z ≡ true) e q)
    | inr r ↦ let (there, holds) = kept-IsIn f ys x r in (inr there, holds)
  ]
  | inr q ↦ let (there, holds) = kept-IsIn f ys x (rw q at h) in (inr there, holds)
]

mapped-IsIn :
    {A B : Type 0} (f : A → B) (xs : List A) (y : B)
    → IsIn y (map f xs)
    → (x : A) × IsIn x xs × (f x ≡ y)
mapped-IsIn f [] y h = absurd h
mapped-IsIn f (x ∷ xs) y (inl e) = (x, inl refl, e)
mapped-IsIn f (x ∷ xs) y (inr r) = let (z, there, e) = mapped-IsIn f xs y r in (z, inr there, e)

all-All : (f : ℕ → Bool) (xs : List ℕ) → all f xs ≡ true → All (λ x. f x ≡ true) xs
all-All f [] e = tt
all-All f (x ∷ xs) e = (ground (arith, e), all-All f xs (ground (arith, e)))

-- A source that is there, agrees, and is synthetic in a synthetic program only.
abbrev pub HasSource : Program → ℕ → Type 0
HasSource p id =
    (s : Source) × (source_by_id p id ≡ some s)
    × (is_conflicting s.reconciliation_status ≡ false)
    × ((p.synthetic || not s.synthetic) ≡ true)

usable-HasSource :
    (p : Program) (o : Option Source)
    → is_usable p o ≡ true
    → (s : Source) × (o ≡ some s)
      × (is_conflicting s.reconciliation_status ≡ false)
      × ((p.synthetic || not s.synthetic) ≡ true)
usable-HasSource p none e = absurd (ground (arith, e))
usable-HasSource p (some s) e = (s, refl, ground (arith, e), ground (arith, e))

abbrev pub HasEvidence : Program → ℕ → ℕ → Type 0
HasEvidence p selected id =
    (e : EvidenceReference) × (find_evidence p id ≡ some e)
    × (is_evidence_fresh e p selected ≡ true)
    × HasSource p e.source_id

usable-HasEvidence :
    (p : Program) (selected : ℕ) (o : Option EvidenceReference)
    → is_usable_evidence p selected o ≡ true
    → (e : EvidenceReference) × (o ≡ some e)
      × (is_evidence_fresh e p selected ≡ true)
      × HasSource p e.source_id
usable-HasEvidence p selected none e = absurd (ground (arith, e))
usable-HasEvidence p selected (some x) e =
    let (usable, fresh) =
      parts (is_usable p (source_by_id p x.source_id)) (is_evidence_fresh x p selected) e in
    (x, refl, fresh, usable-HasSource p (source_by_id p x.source_id) usable)
  where
    parts : (a b : Bool) → (a && b) ≡ true → (a ≡ true) × (b ≡ true)
    parts a b h = (ground (arith, h), ground (arith, h))

-- What stands behind a certified agent of a group.
pub record IsCertifiedBy (p : Program) (selected : ℕ) (g : Group) : Type 0 where
  pub agent : Agent
  pub there : IsIn agent p.agents
  pub member : mem g.id agent.group_ids ≡ true
  pub certified_there : is_certified agent.certification_status ≡ true
  pub real : (p.synthetic || not agent.synthetic) ≡ true
  pub sources : All (HasSource p) agent.source_refs
  pub some_evidence : has_any agent.certification_evidence_refs ≡ true
  pub evidence : All (HasEvidence p selected) agent.certification_evidence_refs

fresh-IsCertifiedBy :
    (p : Program) (selected : ℕ) (g : Group) (a : Agent)
    → IsIn a p.agents
    → mem g.id a.group_ids ≡ true
    → counts_as_certified p (agent_state p selected a) ≡ true
    → IsCertifiedBy p selected g
unfolding certification_evidence_fresh
fresh-IsCertifiedBy p selected g a there member e = record {
  agent = a;
  there = there;
  member = member;
  certified_there = ground (arith, e);
  real = ground (arith, e);
  sources =
      All-map (λ id. is_usable p (source_by_id p id) ≡ true) (HasSource p) a.source_refs
        (λ id q. usable-HasSource p (source_by_id p id) q)
        (all-All (λ id. is_usable p (source_by_id p id)) a.source_refs (ground (arith, e)));
  some_evidence = ground (arith, e);
  evidence =
      All-map (λ id. is_usable_evidence p selected (find_evidence p id) ≡ true)
        (HasEvidence p selected) a.certification_evidence_refs
        (λ id q. usable-HasEvidence p selected (find_evidence p id) q)
        (all-All (λ id. is_usable_evidence p selected (find_evidence p id))
          a.certification_evidence_refs (ground (arith, e)));
}

-- A group shows a certified agent only if the program has an agent of that group that is certified, is
-- synthetic in a synthetic program only, and rests on sources that are there and agree and on some
-- evidence, all of it there, fresh at the selected time and of such a source.
pub group_state-IsCertifiedBy :
    (p : Program) (selected : ℕ) (g : Group)
    → (group_state p selected g).has_certified_agent ≡ true
    → IsCertifiedBy p selected g
unfolding group_state
group_state-IsCertifiedBy p selected g e =
    let (x, in_group, certified) =
      kept (counts_as_certified p) (group_agents p selected g) (ground (arith, e)) in
    let (in_states, member) =
      kept-IsIn (λ (s : AgentState). mem g.id s.group_ids) (map (agent_state p selected) p.agents) x
        in_group in
    let (a, there, same) = mapped-IsIn (agent_state p selected) p.agents x in_states in
    fresh-IsCertifiedBy p selected g a there
      (subst (λ (s : AgentState). mem g.id s.group_ids ≡ true) (sym same) member)
      (subst (λ s. counts_as_certified p s ≡ true) (sym same) certified)
