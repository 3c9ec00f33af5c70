-- ===== src/Worker/Stream.antt =====
-- The limits on what a model stream returns (`consumeModelStream` in apps/worker/src/engine.ts) and
-- on the plan of Plugin calls (apps/worker/src/plugin-plan.ts).
use agent_builder.Common.{
  ℕ, suc, ◌≤◌, ◌≡◌, ◌∙◌, refl, sym, ap, subst, inl, inr, Bool, true, false, ◌||◌, List, [], ◌∷◌,
  ◌++◌, map, Option, none, some, String, any, ltb, ◌==◌, Bool-cases, Option-cases, length, arith,
}
use mathlib.Core.List.{append_assoc, append-nil}
use Prim.Native.String.{◌++◌ as ◌<>◌}
use agent_builder.Worker.Json.{Json}
use agent_builder.Worker.PluginPlan.{
  Outcome, returned, thrown, ◌>>=!◌, Returns, Returns-then, PlannedCall, PluginResult, PlanResult,
  Signal, execute_calls, execute_plan, out_of_order, has_own, add_plugin_cost,
}
use agent_builder.Worker.Engine.{
  text_delta, usage, complete, StreamItem, event, breaks, Response, Reading, maximum_bytes,
  read_event, consume_model_stream,
}

abbrev pub is_complete : StreamItem → Bool
is_complete (event complete) = true
is_complete _ = false

-- What holds of a response that is returned.
pub record IsWithinLimits (byte_length : String → ℕ) (max_output : ℕ) (ended : Bool) (r : Response)
    : Type 0 where
  pub bytes : byte_length r.text ≤ maximum_bytes byte_length max_output
  pub tokens : r.usage.output_tokens ≤ max_output
  pub finished : ended ≡ true

or_true : (b : Bool) → (b || true) ≡ true
or_true true = refl
or_true false = refl

-- If the text and the usage read so far are within the limits, then a response that the rest of
-- the stream leads to is within them, and the stream announced its completion.
pub consume_model_stream-IsWithinLimits :
    (byte_length : String → ℕ) (max_output : ℕ) (r : Reading) (items : List StreamItem)
    → byte_length r.text ≤ maximum_bytes byte_length max_output
    → r.usage.output_tokens ≤ max_output
    → Returns
        (IsWithinLimits byte_length max_output (r.completed || any is_complete items))
        (consume_model_stream byte_length max_output r items).1
unfolding consume_model_stream read_event
consume_model_stream-IsWithinLimits byte_length max_output r [] h k =
    elim (Bool-cases r.completed) [
      | inl c ↦ rw (c, consume_model_stream) (record { bytes = h; tokens = k; finished = refl })
      | inr c ↦ rw (c, consume_model_stream) tt
    ]
consume_model_stream-IsWithinLimits byte_length max_output r (breaks f ∷ rest) h k = tt
consume_model_stream-IsWithinLimits byte_length max_output r (event (text_delta d) ∷ rest) h k =
    elim (Bool-cases (ltb (maximum_bytes byte_length max_output) (byte_length (r.text <> d)))) [
      | inl e ↦ rw (e, consume_model_stream, read_event) tt
      | inr e ↦
          rw (e, consume_model_stream, read_event)
            (consume_model_stream-IsWithinLimits byte_length max_output
              (record r { text = r.text <> d }) rest (ground (arith, e)) k)
    ]
consume_model_stream-IsWithinLimits byte_length max_output r (event (usage u) ∷ rest) h k =
    elim (Bool-cases (ltb max_output u.output_tokens)) [
      | inl e ↦ rw (e, consume_model_stream, read_event) tt
      | inr e ↦
          rw (e, consume_model_stream, read_event)
            (consume_model_stream-IsWithinLimits byte_length max_output
              (record r { usage = u; observed = some u }) rest h (ground (arith, e)))
    ]
consume_model_stream-IsWithinLimits byte_length max_output r (event complete ∷ rest) h k =
    subst
      (λ b.
        Returns (IsWithinLimits byte_length max_output b)
          (consume_model_stream byte_length max_output (record r { completed = true }) rest).1)
      (sym (or_true r.completed))
      (consume_model_stream-IsWithinLimits byte_length max_output (record r { completed = true })
        rest h k)

-- The ordinals of the calls left are above the last one, and grow.
abbrev pub IsIncreasing : Option ℕ → List PlannedCall → Type 0
IsIncreasing prior [] = Unit
IsIncreasing prior (p ∷ ps) =
    (out_of_order p.ordinal prior ≡ false) × IsIncreasing (some p.ordinal) ps

abbrev pub keys_of : List (ℕ × Json) → List ℕ
keys_of context = map (λ e. e.0) context

abbrev pub planned_keys : List PlannedCall → List ℕ
planned_keys planned = map (λ p. p.context_key) planned

-- No key of the calls is repeated, nor one of the context.
abbrev pub AreFresh : List ℕ → List PlannedCall → Type 0
AreFresh seen [] = Unit
AreFresh seen (p ∷ ps) =
    (any (λ k. k == p.context_key) seen ≡ false) × AreFresh (seen ++ (p.context_key ∷ [])) ps

-- What the calls left add to the context.
pub record IsExecuted (prior : Option ℕ) (context : List (ℕ × Json)) (planned : List PlannedCall)
    (r : List (ℕ × Json) × ℕ) : Type 0 where
  pub ordered : IsIncreasing prior planned
  pub fresh : AreFresh (keys_of context) planned
  pub keyed : keys_of r.0 ≡ keys_of context ++ planned_keys planned

pub any-keys_of :
    (key : ℕ) (context : List (ℕ × Json))
    → any (λ k. k == key) (keys_of context) ≡ has_own key context
any-keys_of key [] = refl
any-keys_of key (e ∷ es) = ap (λ b. (e.0 == key) || b) (any-keys_of key es)

pub keys_of-append :
    (context : List (ℕ × Json)) (key : ℕ) (output : Json)
    → keys_of (context ++ ((key, output) ∷ [])) ≡ keys_of context ++ (key ∷ [])
keys_of-append [] key output = refl
keys_of-append (e ∷ es) key output = ap (λ (l : List ℕ). e.0 ∷ l) (keys_of-append es key output)

-- One call more is made.
IsExecuted-next :
    (prior : Option ℕ) (context : List (ℕ × Json)) (item : PlannedCall) (rest : List PlannedCall)
    (output : Json) (r : List (ℕ × Json) × ℕ)
    → (out_of_order item.ordinal prior || has_own item.context_key context) ≡ false
    → IsExecuted (some item.ordinal) (context ++ ((item.context_key, output) ∷ [])) rest r
    → IsExecuted prior context (item ∷ rest) r
IsExecuted-next prior context item rest output r e h =
    let added = keys_of-append context item.context_key output in
    record {
      ordered = (ground (arith, e), h.ordered);
      fresh = (
        any-keys_of item.context_key context ∙ ground (arith, e),
        subst (λ l. AreFresh l rest) added h.fresh,
      );
      keyed =
          h.keyed
          ∙ ap (λ l. l ++ planned_keys rest) added
          ∙ append_assoc (keys_of context) (item.context_key ∷ []) (planned_keys rest);
    }

Returns-next :
    (prior : Option ℕ) (context : List (ℕ × Json)) (item : PlannedCall) (rest : List PlannedCall)
    (output : Json)
    → (out_of_order item.ordinal prior || has_own item.context_key context) ≡ false
    → (m : Outcome (List (ℕ × Json) × ℕ))
    → Returns (IsExecuted (some item.ordinal) (context ++ ((item.context_key, output) ∷ [])) rest) m
    → Returns (IsExecuted prior context (item ∷ rest)) m
Returns-next prior context item rest output good (returned r) h =
    IsExecuted-next prior context item rest output r good h
Returns-next prior context item rest output good (thrown e) h = tt

module _ (execute_call : ℕ → Outcome PluginResult) (aborted : Signal) where
  execute_calls-IsExecuted :
      (i : ℕ) (prior : Option ℕ) (context : List (ℕ × Json)) (total : ℕ)
      (planned : List PlannedCall)
      → Returns
          (IsExecuted prior context planned)
          (execute_calls execute_call aborted i prior context total planned)
  unfolding execute_calls
  execute_calls-IsExecuted i prior context total [] = record {
    ordered = tt;
    fresh = tt;
    keyed = sym (append-nil (keys_of context));
  }
  execute_calls-IsExecuted i prior context total (item ∷ rest) = elim (Option-cases (aborted i)) [
    | inr (reason, e) ↦ rw (e, execute_calls) tt
    | inl e ↦
        elim (Bool-cases (out_of_order item.ordinal prior || has_own item.context_key context)) [
          | inl bad ↦ rw (e, execute_calls, bad) tt
          | inr good ↦
              rw (e, execute_calls, good)
                (Returns-then (IsExecuted prior context (item ∷ rest)) (execute_call item.call) _
                  (λ result.
                    Returns-then (IsExecuted prior context (item ∷ rest))
                      (add_plugin_cost result.cost total) _
                      (λ cost. Returns-next prior context item rest result.output good _ (
                        execute_calls-IsExecuted (suc i) (some item.ordinal)
                          (context ++ ((item.context_key, result.output) ∷ [])) cost rest))))
        ]
  ]

-- What a plan that is executed to its end is, and gives.
pub record IsPlan (planned : List PlannedCall) (r : PlanResult) : Type 0 where
  pub ordered : IsIncreasing none planned
  pub fresh : AreFresh [] planned
  pub keyed : keys_of r.context ≡ planned_keys planned
  pub counted : r.invocation_count ≡ length planned

-- If the calls of a plan are all made, then their ordinals grow, no context key is repeated, and
-- the context has the planned keys in the planned order.
pub execute_plan-IsPlan :
    (execute_call : ℕ → Outcome PluginResult) (aborted : Signal) (planned : List PlannedCall)
    → Returns (IsPlan planned) (execute_plan execute_call aborted planned)
unfolding execute_plan
execute_plan-IsPlan execute_call aborted planned =
    map-Returns (execute_calls execute_call aborted 0 none [] 0 planned)
      (execute_calls-IsExecuted execute_call aborted 0 none [] 0 planned)
  where
    map-Returns :
        (m : Outcome (List (ℕ × Json) × ℕ))
        → Returns (IsExecuted none [] planned) m
        → Returns (IsPlan planned) (
            m >>=! λ r.
            returned (record { context = r.0; cost = r.1; invocation_count = length planned }))
    map-Returns (returned r) h = record {
      ordered = h.ordered;
      fresh = h.fresh;
      keyed = h.keyed;
      counted = refl;
    }
    map-Returns (thrown e) h = tt
