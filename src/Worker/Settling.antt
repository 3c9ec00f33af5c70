-- ===== src/Worker/Settling.antt =====
-- What the engine settles a run with (apps/worker/src/engine.ts): the completions that it makes, and
-- the failures after a Plugin was called.
use agent_builder.Common.{
  ℕ, ◌+◌, ◌≤◌, ◌≡◌, refl, ap, Bool, true, false, not, ◌&&◌, List, [], ◌∷◌, Option, none, some, All,
  String, any, ltb, ◌==◌, if◌then◌else◌, arith,
}
use agent_builder.Worker.Model.{
  Settlement, plugin_invocation_started, BriefOutput, CompletedRun, ClaimedRun,
}
use agent_builder.Worker.Heartbeat.{HeartbeatResult}
use agent_builder.Worker.PluginPlan.{
  Fault, worker_fault, plugin_error, lease_lost, run_cancelled, worker_stopping, timeout_error,
  syntax_error, other_fault, Outcome, returned, thrown, ◌>>=!◌, Returns, Returns-then, Returns-bind,
  PlanResult,
}
use agent_builder.Worker.Engine.{
  Response, nothing_read, consume_model_stream, classify_failure, Pricing, Provider, World,
  Progress, kind_number,
}
use agent_builder.Worker.Execute.{
  assert_lease, assert_execution_snapshot, prepare, call_plugins, price, evaluate, run_model,
  try_execute, check, parsed, is_other_provider, same_code, settlement_of, run_stream, with_plugins,
  assert_context, after_complete, incurred_usage, Action, cancels, fails, fail_with, handle_fault,
  act, execute, is_unavailable,
}
use agent_builder.Worker.Stream.{IsWithinLimits, is_complete, consume_model_stream-IsWithinLimits}

-- A fault in an action list reports that a Plugin was called, where it asks for a retry.
abbrev pub IsGuarded : Progress → Action → Type 0
IsGuarded p (fails code true incurred reported) =
    p.plugin_started ≡ true → reported ≡ some plugin_invocation_started
IsGuarded p _ = Unit

fail_with-IsGuarded :
    (fault : Fault) (p : Progress) (incurred : Option Settlement)
    → IsGuarded p (fail_with fault p incurred)
unfolding fail_with
fail_with-IsGuarded fault p incurred = step (classify_failure fault).0 (classify_failure fault).1
  where
    step :
        (code : String) (retryable : Bool)
        → IsGuarded p (
            fails code retryable incurred
              (if retryable && p.plugin_started then some plugin_invocation_started else none))
    step code true = λ e. rw e refl
    step code false = tt

All-if {ℓ κ} :
    {A : Type ℓ} (P : A → Type κ) (b : Bool) (xs ys : List A)
    → All P xs
    → All P ys
    → All P (if b then xs else ys)
All-if P true xs ys h k = h
All-if P false xs ys h k = k

handle_fault-IsGuarded :
    (fault : Fault) (p : Progress) (incurred : Option Settlement)
    → All (IsGuarded p) (handle_fault fault p incurred)
unfolding handle_fault
handle_fault-IsGuarded worker_stopping p incurred = tt
handle_fault-IsGuarded lease_lost p incurred = tt
handle_fault-IsGuarded run_cancelled p incurred = (tt, tt)
handle_fault-IsGuarded (worker_fault code retryable) p incurred =
    (fail_with-IsGuarded (worker_fault code retryable) p incurred, tt)
handle_fault-IsGuarded timeout_error p incurred = (fail_with-IsGuarded timeout_error p incurred, tt)
handle_fault-IsGuarded syntax_error p incurred = (fail_with-IsGuarded syntax_error p incurred, tt)
handle_fault-IsGuarded other_fault p incurred = (fail_with-IsGuarded other_fault p incurred, tt)
handle_fault-IsGuarded (plugin_error code retryable) p incurred =
    All-if (IsGuarded p) (is_unavailable code) _ _ (tt, tt)
      (All-if (IsGuarded p) (same_code code "PLUGIN_RUN_LEASE_LOST") [] _ tt (
        All-if (IsGuarded p) (same_code code "RUN_CANCELLED") (cancels incurred ∷ [])
          (fail_with (plugin_error code retryable) p incurred ∷ []) (tt, tt)
          (fail_with-IsGuarded (plugin_error code retryable) p incurred, tt)))

-- Once the plan of Plugin calls came back with a call made, a failure that the engine reports as
-- retryable is reported as one that must not be retried.
pub execute-IsGuarded :
    (run : ClaimedRun) (provider : Provider) (pricing : Pricing) (w : World)
    → All (IsGuarded (try_execute run provider pricing w).0) (execute run provider pricing w)
unfolding execute act
execute-IsGuarded run provider pricing w =
    settle (try_execute run provider pricing w).0 (try_execute run provider pricing w).1
  where
    settle :
        (p : Progress) (result : Outcome CompletedRun)
        → All (IsGuarded p) (act provider pricing w p result)
    settle p (thrown fault) = handle_fault-IsGuarded fault p (incurred_usage provider pricing w p)
    settle p (returned result) =
        (tt, caught w.complete_fault p (incurred_usage provider pricing w p))
      where
        caught :
            (f : Option Fault) (p : Progress) (incurred : Option Settlement)
            → All (IsGuarded p) (after_complete f p incurred)
        caught none p incurred = tt
        caught (some fault) p incurred = handle_fault-IsGuarded fault p incurred

-- What a completion rests on.
pub record IsAdmissible (run : ClaimedRun) (provider : Provider) (pricing : Pricing) (w : World)
    (result : CompletedRun) : Type 0 where
  pub leased :
      (l : HeartbeatResult) × (w.initial_lease ≡ returned l)
      × (l.owned ≡ true)
      × (l.cancellation_requested ≡ false)
  pub snapshot :
      (kind_number run.provider_kind ≡ kind_number provider.kind)
      × (run.provider_version ≡ provider.version)
      × (run.model ≡ provider.model)
      × (run.pricing_version ≡ pricing.version)
  pub context : w.context_digest ≡ some run.context_digest
  pub input_tokens : result.settlement.usage.input_tokens ≤ run.max_input_tokens
  pub output_tokens : result.settlement.usage.output_tokens ≤ run.max_output_tokens
  pub cited : w.has_invalid_citations result.output ≡ false
  pub plugins : PlanResult
  pub called_there : call_plugins w ≡ returned plugins
  pub plugin_cost : result.settlement.plugin_cost ≡ some plugins.cost
  pub priced : result.settlement.actual_cost ≡ price pricing result.settlement.usage + plugins.cost

check-Returns {ℓ κ} :
    {B : Type ℓ} (Q : B → Type κ) (b : Bool) (f : Fault) (k : Unit {0} → Outcome B)
    → (b ≡ false → Returns Q (k tt))
    → Returns Q (check b f >>=! k)
check-Returns Q true f k h = tt
check-Returns Q false f k h = h refl

check-alone {κ} :
    (Q : Type κ) (b : Bool) (f : Fault) → (b ≡ false → Q) → Returns (λ u. Q) (check b f)
check-alone Q true f h = tt
check-alone Q false f h = h refl

assert_context-Returns :
    (loaded : Option ℕ) (digest : ℕ)
    → Returns (λ u. loaded ≡ some digest) (assert_context loaded digest)
assert_context-Returns none digest = tt
assert_context-Returns (some n) digest =
    check-alone (some n ≡ some digest) (not (n == digest)) _
      (λ e. ap (λ (m : ℕ). some m) (ground arith))

module _ (run : ClaimedRun) (provider : Provider) (pricing : Pricing) (w : World) where
  IsLeased : Type 0
  IsLeased =
      (l : HeartbeatResult) × (w.initial_lease ≡ returned l)
      × (l.owned ≡ true)
      × (l.cancellation_requested ≡ false)

  IsSnapshot : Type 0
  IsSnapshot =
      (kind_number run.provider_kind ≡ kind_number provider.kind)
      × (run.provider_version ≡ provider.version)
      × (run.model ≡ provider.model)
      × (run.pricing_version ≡ pricing.version)

  IsPrepared : Type 0
  unfolding IsLeased IsSnapshot
  IsPrepared = IsLeased × IsSnapshot × (w.context_digest ≡ some run.context_digest)

  lease-Returns :
      (o : Outcome HeartbeatResult)
      → w.initial_lease ≡ o
      → Returns (λ u. IsLeased) (o >>=! assert_lease)
  unfolding assert_lease IsLeased
  lease-Returns (thrown f) e = tt
  lease-Returns (returned l) e =
      check-Returns (λ u. IsLeased) (not l.owned) lease_lost _
        (λ owned.
          check-alone IsLeased l.cancellation_requested run_cancelled
            (λ c. (l, e, ground arith, c)))

  snapshot-Returns : Returns (λ u. IsSnapshot) (assert_execution_snapshot run provider pricing)
  unfolding assert_execution_snapshot IsSnapshot
  snapshot-Returns =
      check-Returns (λ u. IsSnapshot) (is_other_provider run provider) _ _
        (λ same.
          check-alone IsSnapshot (not (run.pricing_version == pricing.version)) _
            (λ priced. (ground arith, ground arith, ground arith, ground arith)))

  prepare-IsPrepared : Returns (λ u. IsPrepared) (prepare run provider pricing w)
  unfolding prepare IsPrepared
  prepare-IsPrepared =
      Returns-bind (λ u. IsLeased) (λ u. IsPrepared) (w.initial_lease >>=! assert_lease) _
        (lease-Returns w.initial_lease refl)
        (λ _ leased.
          Returns-bind (λ u. IsSnapshot) (λ u. IsPrepared)
            (assert_execution_snapshot run provider pricing) _ snapshot-Returns
            (λ _ snapshot.
              Returns-bind (λ u. w.context_digest ≡ some run.context_digest) (λ u. IsPrepared)
                (assert_context w.context_digest run.context_digest) _
                (assert_context-Returns w.context_digest run.context_digest)
                (λ _ context.
                  check-alone IsPrepared (not w.input_valid) _ (λ _. (leased, snapshot, context)))))

  -- The facts about the response that `evaluate` turns into a completion.
  evaluate-IsAdmissible :
      (plugins : PlanResult) (r : Response)
      → call_plugins w ≡ returned plugins
      → IsPrepared
      → r.usage.output_tokens ≤ run.max_output_tokens
      → Returns
          (IsAdmissible run provider pricing w)
          (evaluate run provider pricing w plugins.cost r)
  unfolding evaluate IsPrepared IsLeased IsSnapshot
  evaluate-IsAdmissible plugins r called h k =
      let P = IsAdmissible run provider pricing w in
      check-Returns P _ _ _ (λ e. Returns-then P (w.extract_json r.text) _ (λ json.
        Returns-then P (parsed (w.parse_output json)) _ (λ output.
          check-Returns P (w.has_invalid_citations output)
            (worker_fault "MODEL_CITATION_OUTSIDE_INPUT_PROVENANCE" false) _
            (λ cited. admissible output h e cited))))
    where
      admissible :
          (output : BriefOutput)
          → IsPrepared
          → ltb run.max_input_tokens r.usage.input_tokens ≡ false
          → w.has_invalid_citations output ≡ false
          → IsAdmissible run provider pricing w (record {
            settlement = settlement_of provider pricing w r.usage plugins.cost;
            output = output;
            quality_score = w.quality output;
          })
      admissible output h e cited = record {
        leased = h.0;
        snapshot = h.1;
        context = h.2;
        input_tokens = ground (arith, e);
        output_tokens = k;
        cited = cited;
        plugins = plugins;
        called_there = called;
        plugin_cost = refl;
        priced = refl;
      }

  run_model-IsAdmissible :
      (plugins : PlanResult)
      → call_plugins w ≡ returned plugins
      → w.byte_length "" ≡ 0
      → IsPrepared
      → Returns (IsAdmissible run provider pricing w) (run_model run provider pricing w plugins).1
  unfolding run_model run_stream
  run_model-IsAdmissible plugins called empty h = streamed w.context_has_plugin_results
    where
      streamed :
          (conflict : Bool)
          → Returns
              (IsAdmissible run provider pricing w)
              (run_stream run provider pricing w plugins conflict).1
      streamed true = tt
      streamed false =
          Returns-bind
            (IsWithinLimits w.byte_length run.max_output_tokens
              (any is_complete (w.stream plugins.context)))
            (IsAdmissible run provider pricing w)
            (consume_model_stream w.byte_length run.max_output_tokens nothing_read
              (w.stream plugins.context)).1
            (evaluate run provider pricing w plugins.cost)
            (consume_model_stream-IsWithinLimits w.byte_length run.max_output_tokens nothing_read
              (w.stream plugins.context) (omega (arith, empty)) (omega arith))
            (λ r within. evaluate-IsAdmissible plugins r called h within.tokens)

-- If the engine completes a run, then the worker held its lease when it began, the provider, the
-- prices and the context are those that the run was claimed with, the usage is within the run's
-- tokens, the citations are valid, and the cost is the price of the usage and the cost that the calls
-- of the Plugins came back with. The empty text is asked to have no bytes.
pub try_execute-IsAdmissible :
    (run : ClaimedRun) (provider : Provider) (pricing : Pricing) (w : World)
    → w.byte_length "" ≡ 0
    → Returns (IsAdmissible run provider pricing w) (try_execute run provider pricing w).1
unfolding try_execute
try_execute-IsAdmissible run provider pricing w empty =
    planned (prepare run provider pricing w) (prepare-IsPrepared run provider pricing w)
  where
    called :
        (o : Outcome PlanResult)
        → call_plugins w ≡ o
        → IsPrepared run provider pricing w
        → Returns (IsAdmissible run provider pricing w) (with_plugins run provider pricing w o).1
    called (thrown f) q h = tt
    called (returned plugins) q h = run_model-IsAdmissible run provider pricing w plugins q empty h

    planned :
        (o : Outcome (Unit {0}))
        → Returns (λ u. IsPrepared run provider pricing w) o
        → Returns
            (IsAdmissible run provider pricing w)
            (with_plugins run provider pricing w (o >>=! λ _. call_plugins w)).1
    planned (thrown f) h = tt
    planned (returned _) h = called (call_plugins w) refl h
