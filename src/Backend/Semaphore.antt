-- ===== src/Backend/Semaphore.antt =====
-- The semaphore of the generation jobs (apps/backend/src/generation/semaphore.ts). A waiting
-- operation is its number; the operations that a step lets in are the second part of its answer.
use agent_builder.Common.{
  ℕ, suc, ◌+◌, ◌-◌, ◌≤◌, ◌<◌, ◌≡◌, ◌∙◌, refl, sym, ap, subst, inl, inr, ◌⊎◌, true, List, [], ◌∷◌,
  ◌++◌, length, length-append, Result, ok, err, ltb, if◌then◌else◌, Bool-cases, arith,
}
use mathlib.Core.List.{append_assoc, append-nil}

pub record Semaphore : Type 0 where
  pub active : ℕ
  pub waiting : List ℕ
  pub capacity : ℕ

-- The constructor, for the integers that are not negative.
unfoldable pub new_semaphore : ℕ → Result Semaphore
new_semaphore capacity =
    if ltb capacity 1
    then err "Semaphore capacity must be a positive integer"
    else ok (record { active = 0; waiting = []; capacity = capacity })

-- `acquire`, as far as the operation goes before it waits.
unfoldable pub acquire : ℕ → Semaphore → Semaphore × List ℕ
acquire id s =
    if ltb s.active s.capacity
    then (record s { active = s.active + 1 }, id ∷ [])
    else (record s { waiting = s.waiting ++ (id ∷ []) }, [])

-- The first of the waiting operations is let in, by the callback that it left.
abbrev admit_next : List ℕ → Semaphore → Semaphore × List ℕ
admit_next [] s = (s, [])
admit_next (next ∷ rest) s = (record s { active = s.active + 1; waiting = rest }, next ∷ [])

unfoldable pub release : Semaphore → Semaphore × List ℕ
release s = admit_next s.waiting (record s { active = s.active - 1 })

-- The semaphore with what went through it: the operations let in, in order, and the number of
-- those that ended.
pub record Session : Type 0 where
  pub semaphore : Semaphore
  pub entered : List ℕ
  pub ended : ℕ

unfoldable pub arrive : ℕ → Session → Session
unfolding acquire
arrive id s =
    let (semaphore, let_in) = acquire id s.semaphore in
    record s { semaphore = semaphore; entered = s.entered ++ let_in }

-- An operation that was let in ends, in whatever way: `finally`.
unfoldable pub leave : Session → Session
unfolding release
leave s =
    let (semaphore, let_in) = release s.semaphore in
    record { semaphore = semaphore; entered = s.entered ++ let_in; ended = suc s.ended }

-- The sessions that the arrivals, in this order, can lead to.
pub data Reached (capacity : ℕ) : List ℕ → Session → Type 0 where
  opened :
      (s : Semaphore)
      → new_semaphore capacity ≡ ok s
      → Reached capacity [] (record { semaphore = s; entered = []; ended = 0 })
  arrived :
      {arrivals : List ℕ} {s : Session} (id : ℕ)
      → Reached capacity arrivals s
      → Reached capacity (arrivals ++ (id ∷ [])) (arrive id s)
  left :
      {arrivals : List ℕ} {s : Session}
      → Reached capacity arrivals s
      → s.ended < length s.entered
      → Reached capacity arrivals (leave s)

pub record IsFair (capacity : ℕ) (arrivals : List ℕ) (s : Session) : Type 0 where
  pub bound : s.semaphore.capacity ≡ capacity
  pub counted : s.ended + s.semaphore.active ≡ length s.entered
  pub bounded : s.semaphore.active ≤ capacity
  pub ordered : s.entered ++ s.semaphore.waiting ≡ arrivals
  pub busy : (s.semaphore.waiting ≡ []) ⊎ (s.semaphore.active ≡ capacity)

arrive-IsFair :
    (capacity id : ℕ) (arrivals : List ℕ) (s : Session)
    → IsFair capacity arrivals s
    → IsFair capacity (arrivals ++ (id ∷ [])) (arrive id s)
unfolding arrive acquire
arrive-IsFair capacity id arrivals s f =
    elim (Bool-cases (ltb s.semaphore.active s.semaphore.capacity)) [
      | inl e ↦
          let idle = not_full e in
          rw (e, acquire)
            (record {
              bound = f.bound;
              counted = omega (arith, f.counted, length-append s.entered (id ∷ []));
              bounded = ground (arith, f.bound);
              ordered =
                  rw idle
                    (append-nil (s.entered ++ (id ∷ [])) ∙ ap (λ l. l ++ (id ∷ [])) (all_in idle));
              busy = inl idle;
            })
      | inr e ↦
          rw (e, acquire)
            (record {
              bound = f.bound;
              counted = omega (arith, f.counted, length-append s.entered []);
              bounded = f.bounded;
              ordered =
                  ap (λ l. l ++ (s.semaphore.waiting ++ (id ∷ []))) (append-nil s.entered)
                  ∙ sym (append_assoc s.entered s.semaphore.waiting (id ∷ []))
                  ∙ ap (λ l. l ++ (id ∷ [])) f.ordered;
              busy = inr (ground (arith, f.bound, f.bounded));
            })
    ]
  where
    not_full : ltb s.semaphore.active s.semaphore.capacity ≡ true → s.semaphore.waiting ≡ []
    not_full e = elim f.busy [ inl w ↦ w | inr full ↦ absurd (ground (arith, f.bound)) ]

    all_in : s.semaphore.waiting ≡ [] → s.entered ≡ arrivals
    all_in e = sym (append-nil s.entered) ∙ ap (λ l. s.entered ++ l) (sym e) ∙ f.ordered

leave-IsFair :
    (capacity : ℕ) (arrivals : List ℕ) (s : Session)
    → IsFair capacity arrivals s
    → s.ended < length s.entered
    → IsFair capacity arrivals (leave s)
unfolding leave release
leave-IsFair capacity arrivals s f h = step s.semaphore.waiting refl
  where
    step : (ws : List ℕ) → s.semaphore.waiting ≡ ws → IsFair capacity arrivals (leave s)
    step [] e = rw e (record {
      bound = f.bound;
      counted = omega (arith, f.counted, length-append s.entered [], h);
      bounded = omega (arith, f.bounded);
      ordered = append-nil (s.entered ++ []) ∙ ap (λ l. s.entered ++ l) (sym e) ∙ f.ordered;
      busy = inl refl;
    })
    step (w ∷ ws) e = rw e (record {
      bound = f.bound;
      counted = omega (arith, f.counted, length-append s.entered (w ∷ []), h);
      bounded = omega (arith, f.bounded, f.counted, h);
      ordered = append_assoc s.entered (w ∷ []) ws ∙ ap (λ l. s.entered ++ l) (sym e) ∙ f.ordered;
      busy = inr (omega (arith, full, f.counted, h));
    })
      where
        full : s.semaphore.active ≡ capacity
        full = elim f.busy [ inl none_waits ↦ absurd (ground (arith, e, none_waits)) | inr q ↦ q ]

new_semaphore-IsFair :
    (capacity : ℕ) (s : Semaphore)
    → new_semaphore capacity ≡ ok s
    → IsFair capacity [] (record { semaphore = s; entered = []; ended = 0 })
unfolding new_semaphore
new_semaphore-IsFair capacity s e = elim (Bool-cases (ltb capacity 1)) [
  | inl small ↦ absurd (ground (arith, rw small at e))
  | inr large ↦ subst Opened (idle (rw large at e)) fair
]
  where
    Opened : Semaphore → Type 0
    Opened x = IsFair capacity [] (record { semaphore = x; entered = []; ended = 0 })

    empty : Semaphore
    empty = record { active = 0; waiting = []; capacity = capacity }

    idle : ok empty ≡ ok s → empty ≡ s
    idle q = cc

    fair : Opened empty
    fair = record {
      bound = refl;
      counted = refl;
      bounded = omega arith;
      ordered = refl;
      busy = inl refl;
    }

-- However operations arrive and end, at most `capacity` of them are inside, those inside and those
-- that ended are those let in, they are let in in the order in which they arrived, and one waits
-- only while the semaphore is full.
pub Reached-IsFair :
    (capacity : ℕ) (arrivals : List ℕ) (s : Session)
    → Reached capacity arrivals s
    → IsFair capacity arrivals s
Reached-IsFair capacity _ _ (opened s e) = new_semaphore-IsFair capacity s e
Reached-IsFair capacity _ _ (arrived id r) =
    arrive-IsFair capacity id _ _ (Reached-IsFair capacity _ _ r)
Reached-IsFair capacity _ _ (left r h) = leave-IsFair capacity _ _ (Reached-IsFair capacity _ _ r) h
