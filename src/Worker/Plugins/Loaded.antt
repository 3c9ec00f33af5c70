-- ===== src/Worker/Plugins/Loaded.antt =====
-- The calls that are loaded are the planned ones (apps/worker/src/plugin-store.ts).
use agent_builder.Common.{
  ℕ, ◌≡◌, ◌≤◌, refl, ap, subst, inl, inr, leb, opt_eq, true, List, [], ◌∷◌, Option, none, some, All,
  Bool-cases, arith,
}
use agent_builder.Worker.PluginPlan.{returned}
use agent_builder.Worker.Plugins.Appends.{fail_if-parts, >>=!-parts, returned_inj}
use agent_builder.Worker.Plugins.Loading.{
  input_at_path, PlanRow, LoadedRun, ClaimedIdentity, PlannedPluginCall, insert_plan, sort_plans,
  call_of, load_plan, load_plans, load_entry, load_planned_calls,
}

abbrev pub IsSorted : List PlanRow → Type 0
IsSorted [] = Unit
IsSorted (p ∷ ps) = All (λ q. p.ordinal ≤ q.ordinal) ps × IsSorted ps

insert_plan-All :
    (P : PlanRow → Type 0) (p : PlanRow) (ps : List PlanRow)
    → P p
    → All P ps
    → All P (insert_plan p ps)
insert_plan-All P p [] h k = (h, tt)
insert_plan-All P p (q ∷ qs) h k = elim (Bool-cases (leb p.ordinal q.ordinal)) [
  | inl e ↦ rw e (h, k)
  | inr e ↦ rw e (k.0, insert_plan-All P p qs h k.1)
]

All-above :
    (least low : ℕ) (ps : List PlanRow)
    → least ≤ low
    → All (λ q. low ≤ q.ordinal) ps
    → All (λ q. least ≤ q.ordinal) ps
All-above least low [] l h = tt
All-above least low (p ∷ ps) l h = (omega (arith, l, h.0), All-above least low ps l h.1)

insert_plan-IsSorted : (p : PlanRow) (ps : List PlanRow) → IsSorted ps → IsSorted (insert_plan p ps)
insert_plan-IsSorted p [] s = (tt, tt)
insert_plan-IsSorted p (q ∷ qs) s = elim (Bool-cases (leb p.ordinal q.ordinal)) [
  | inl e ↦
      let low : p.ordinal ≤ q.ordinal = ground (arith, e) in
      rw e ((low, All-above p.ordinal q.ordinal qs low s.0), s)
  | inr e ↦ rw e (
    insert_plan-All (λ r. q.ordinal ≤ r.ordinal) p qs (ground (arith, e)) s.0,
    insert_plan-IsSorted p qs s.1,
  )
]

sort_plans-IsSorted : (ps : List PlanRow) → IsSorted (sort_plans ps)
sort_plans-IsSorted [] = tt
sort_plans-IsSorted (p ∷ ps) = insert_plan-IsSorted p (sort_plans ps) (sort_plans-IsSorted ps)

opt_eq-some : (o : Option ℕ) (n : ℕ) → opt_eq o (some n) ≡ true → o ≡ some n
opt_eq-some none n e = absurd (ground (arith, e))
opt_eq-some (some m) n e = ap some (ground (arith, e))

module _ (key_of : ℕ → ℕ → ℕ) (claimed : ClaimedIdentity) (worker : ℕ) where
  -- A call of a plan of the claimed run.
  pub record IsCallOf (run : LoadedRun) (c : PlannedPluginCall) (p : PlanRow) : Type 0 where
    pub ordinal : c.ordinal ≡ p.ordinal
    pub plan : c.call.plan_id ≡ p.id
    pub requirement : c.call.requirement_id ≡ p.requirement_id
    pub run_there : c.call.run_id ≡ run.id
    pub worker_there : c.call.worker_id ≡ worker
    pub release : c.call.release_digest ≡ run.release_digest
    pub context : c.call.context_digest ≡ p.requirement.context_digest
    pub invocation : c.call.invocation_key ≡ key_of run.id p.ordinal
    pub input : input_at_path run.input p.input_path ≡ returned c.call.input

  -- The calls are those of the plans, in their order.
  abbrev pub AreCallsOf : LoadedRun → List PlannedPluginCall → List PlanRow → Type 0
  AreCallsOf run [] [] = Unit
  AreCallsOf run [] (p ∷ ps) = ⊥
  AreCallsOf run (c ∷ cs) [] = ⊥
  AreCallsOf run (c ∷ cs) (p ∷ ps) = IsCallOf run c p × AreCallsOf run cs ps

  load_plan-IsCallOf :
      (run : LoadedRun) (entry : ℕ) (p : PlanRow) (c : PlannedPluginCall)
      → load_plan key_of claimed worker run entry p ≡ returned c
      → IsCallOf run c p
  load_plan-IsCallOf run entry p c e =
      let (same, e1) = fail_if-parts _ _ _ c e in
      let (input, found, e2) = >>=!-parts (input_at_path run.input p.input_path) _ c e1 in
      subst (λ d. IsCallOf run d p)
        (returned_inj (call_of key_of claimed worker run entry p input) c e2)
        (record {
          ordinal = refl;
          plan = refl;
          requirement = ground (arith, same);
          run_there = refl;
          worker_there = refl;
          release = refl;
          context = ground (arith, same);
          invocation = ground (arith, same);
          input = found;
        })

  load_plans-AreCallsOf :
      (run : LoadedRun) (entry : ℕ) (ps : List PlanRow) (cs : List PlannedPluginCall)
      → load_plans key_of claimed worker run entry ps ≡ returned cs
      → AreCallsOf run cs ps
  load_plans-AreCallsOf run entry [] cs e =
      subst (λ l. AreCallsOf run l []) (returned_inj [] cs e) tt
  load_plans-AreCallsOf run entry (p ∷ ps) cs e =
      let (c, loaded, e1) = >>=!-parts (load_plan key_of claimed worker run entry p) _ cs e in
      let (rest, others, e2) = >>=!-parts (load_plans key_of claimed worker run entry ps) _ cs e1 in
      subst (λ l. AreCallsOf run l (p ∷ ps)) (returned_inj (c ∷ rest) cs e2)
        (load_plan-IsCallOf run entry p c loaded, load_plans-AreCallsOf run entry ps rest others)

  -- What is loaded belongs to the claimed run, which is running and leased by the worker.
  pub record IsLoaded (o : Option LoadedRun) (calls : List PlannedPluginCall) : Type 0 where
    pub run : LoadedRun
    pub found : o ≡ some run
    pub running_there : run.is_running ≡ true
    pub lease : run.lease_owner ≡ some worker
    pub claim : run.id ≡ claimed.id
    pub release : run.release_digest ≡ claimed.release_digest
    pub context : run.context_digest ≡ claimed.context_digest
    pub planned : AreCallsOf run calls (sort_plans run.plans)
    pub sorted : IsSorted (sort_plans run.plans)

  load_entry-IsLoaded :
      (run : LoadedRun) (entry : Option ℕ) (calls : List PlannedPluginCall)
      → load_entry key_of claimed worker run entry ≡ returned calls
      → IsLoaded (some run) calls
  load_entry-IsLoaded run none calls e = absurd cc
  load_entry-IsLoaded run (some entry) calls e =
      let (same, e1) = fail_if-parts _ _ _ calls e in
      record {
        run = run;
        found = refl;
        running_there = ground (arith, same);
        lease = opt_eq-some run.lease_owner worker (ground (arith, same));
        claim = ground (arith, same);
        release = ground (arith, same);
        context = ground (arith, same);
        planned = load_plans-AreCallsOf run entry (sort_plans run.plans) calls e1;
        sorted = sort_plans-IsSorted run.plans;
      }

  -- The planned calls are loaded only of the claimed run, while it is running under the lease of the
  -- worker and on the claimed release and context; they are those of its plans, in the order of their
  -- ordinals, each for the requirement, the context and the key of its plan, with the input that stands
  -- at its path.
  pub load_planned_calls-IsLoaded :
      (o : Option LoadedRun) (calls : List PlannedPluginCall)
      → load_planned_calls key_of claimed worker o ≡ returned calls
      → IsLoaded o calls
  unfolding load_planned_calls
  load_planned_calls-IsLoaded none calls e = absurd cc
  load_planned_calls-IsLoaded (some run) calls e =
      let (resolved, e1) = fail_if-parts _ _ _ calls e in
      load_entry-IsLoaded run run.entry_resource_version_id calls e1
