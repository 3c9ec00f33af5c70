-- ===== src/Runtime/Aim/Latest.antt =====
-- `latestAt` (packages/runtime/src/aim/evidence-policy.ts, state-at-time.ts) picks the latest event.
use agent_builder.Common.{
  ℕ, ◌≡◌, ◌≤◌, ◌<◌, refl, sym, ap, ◌∙◌, subst, inl, inr, ◌&&◌, List, [], ◌∷◌, ◌++◌, Option, none,
  some, leb, ltb, All, Bool-cases, arith,
}
use mathlib.Core.List.{append_assoc, append-nil}
use agent_builder.Runtime.Aim.{newer, latest_from, latest_at}

All-join : {A : Type 0} (P : A → Type 0) (xs ys : List A) → All P xs → All P ys → All P (xs ++ ys)
All-join P [] ys h k = k
All-join P (x ∷ xs) ys h k = (h.0, All-join P xs ys h.1 k)

All-weaken :
    {A : Type 0} (P Q : A → Type 0) (xs : List A) → ((x : A) → P x → Q x) → All P xs → All Q xs
All-weaken P Q [] f h = tt
All-weaken P Q (x ∷ xs) f h = (f x h.0, All-weaken P Q xs f h.1)

module _ {A : Type 0} (effective_at : A → ℕ) (selected : ℕ) where
  -- The first of the latest events that are in effect at a time; none where none is in effect.
  pub data IsLatest (history : List A) : Option A → Type 0 where
    no_event : All (λ x. selected < effective_at x) history → IsLatest history none
    latest :
        (before after : List A) (event : A)
        → history ≡ before ++ (event ∷ after)
        → effective_at event ≤ selected
        → All (λ x. effective_at x ≤ selected → effective_at x < effective_at event) before
        → All (λ x. effective_at x ≤ selected → effective_at x ≤ effective_at event) after
        → IsLatest history (some event)

  abbrev IsBefore : A → A → Type 0
  IsBefore event x = effective_at x ≤ selected → effective_at x < effective_at event

  abbrev IsUpTo : A → A → Type 0
  IsUpTo event x = effective_at x ≤ selected → effective_at x ≤ effective_at event

  newer-IsLatest :
      (history : List A) (o : Option A) (x : A)
      → IsLatest history o
      → IsLatest (history ++ (x ∷ [])) (newer effective_at selected o x)
  newer-IsLatest history none x (no_event h) = elim (Bool-cases (leb (effective_at x) selected)) [
    | inl q ↦ rw q (
        latest history [] x refl (ground (arith, q))
          (All-weaken (λ y. selected < effective_at y) (IsBefore x) history
            (λ y l m. absurd (omega (arith, l, m))) h)
          tt)
    | inr q ↦ rw q (
        no_event
          (All-join (λ y. selected < effective_at y) history (x ∷ []) h (ground (arith, q), tt)))
  ]
  newer-IsLatest history (some _) x (latest before after event e low h k) =
      elim (Bool-cases
        (leb (effective_at x) selected && ltb (effective_at event) (effective_at x))) [
          | inl q ↦
              let later : effective_at event < effective_at x = ground (arith, q) in
              rw q (
                latest history [] x refl (ground (arith, q))
                  (subst (All (IsBefore x)) (sym e) (
                    All-join (IsBefore x) before (event ∷ after)
                      (All-weaken (IsBefore event) (IsBefore x) before
                        (λ y f m. omega (arith, f m, later)) h)
                      (
                        λ m. later,
                        All-weaken (IsUpTo event) (IsBefore x) after
                            (λ y f m. omega (arith, f m, later)) k,
                      )))
                  tt)
          | inr q ↦ rw q (
              latest before (after ++ (x ∷ [])) event
                (ap (λ l. l ++ (x ∷ [])) e ∙ append_assoc before (event ∷ after) (x ∷ [])) low h
                (All-join (IsUpTo event) after (x ∷ []) k (λ m. ground (arith, q, m), tt)))
        ]

  latest_from-IsLatest :
      (history : List A) (o : Option A) (events : List A)
      → IsLatest history o
      → IsLatest (history ++ events) (latest_from effective_at selected o events)
  latest_from-IsLatest history o [] h = subst (λ l. IsLatest l o) (sym (append-nil history)) h
  latest_from-IsLatest history o (x ∷ xs) h =
      subst
        (λ l. IsLatest l (latest_from effective_at selected (newer effective_at selected o x) xs))
        (append_assoc history (x ∷ []) xs)
        (latest_from-IsLatest (history ++ (x ∷ [])) (newer effective_at selected o x) xs
          (newer-IsLatest history o x h))

  -- The state of a history at a time is its latest event in effect, the first of them where several are
  -- equally late, and there is none exactly where no event is in effect yet.
  pub latest_at-IsLatest :
      (history : List A) → IsLatest history (latest_at effective_at history selected)
  latest_at-IsLatest history = latest_from-IsLatest [] none history (no_event tt)
