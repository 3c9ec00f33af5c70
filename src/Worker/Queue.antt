-- ===== src/Worker/Queue.antt =====
-- The order of the queue (`claimNext` in apps/worker/src/store.ts): first created, first claimed.
use mathlib.Core.List.{Memᴰ}
use mathlib.Core.List.Memᴰ.{head, tail}
use agent_builder.Common.{
  ◌≤◌, ◌<◌, ℕ, ◌≡◌, inl, inr, ◌⊎◌, Bool, true, false, List, [], ◌∷◌, Option, none, some, All,
  All-map, Bool-cases, some_inj, subst, refl, if◌then◌else◌, arith,
}
use agent_builder.Worker.Model.{Run, Release}
use agent_builder.Worker.Candidate.{is_claimable, created_before, earlier, next_candidate}

created_before-total : (r s : Run) → created_before r s ≡ false → created_before s r ≡ true
unfolding created_before
created_before-total r s h = ground arith

created_before_refl : (r : Run) → created_before r r ≡ true
unfolding created_before
created_before_refl r = ground arith

created_before_trans :
    (r s t : Run)
    → created_before r s ≡ true
    → created_before s t ≡ true
    → created_before r t ≡ true
unfolding created_before
created_before_trans r s t h k = ground arith

-- The earlier of two rows comes before both.
earlier-before :
    (x y : Run)
    → (created_before (earlier x (some y)) x ≡ true)
      × (created_before (earlier x (some y)) y ≡ true)
earlier-before x y = elim (Bool-cases (created_before x y)) [
  | inl e ↦ rw e (created_before_refl x, e)
  | inr e ↦ rw e (created_before-total x y e, created_before_refl y)
]

-- A row that comes before every claimable one, by the test of the queue.
abbrev IsEarliest : (ℕ → Bool) → ℕ → List Release → Option Run → Run → Type 0
IsEarliest locked now releases none s = is_claimable locked now releases s ≡ false
IsEarliest locked now releases (some r) s =
    is_claimable locked now releases s ≡ true → created_before r s ≡ true

next_candidate-IsEarliest :
    (locked : ℕ → Bool) (now : ℕ) (releases : List Release) (runs : List Run)
    → All (IsEarliest locked now releases (next_candidate locked now releases runs)) runs
unfolding next_candidate
next_candidate-IsEarliest locked now releases [] = tt
next_candidate-IsEarliest locked now releases (x ∷ xs) =
    step (next_candidate locked now releases xs) (next_candidate-IsEarliest locked now releases xs)
      (Bool-cases (is_claimable locked now releases x))
  where
    step :
        (rest : Option Run)
        → All (IsEarliest locked now releases rest) xs
        → (is_claimable locked now releases x ≡ true) ⊎ (is_claimable locked now releases x ≡ false)
        → let first = if is_claimable locked now releases x then some (earlier x rest) else rest in
          IsEarliest locked now releases first x × All (IsEarliest locked now releases first) xs
    step rest h (inr c) = rw c (no_claim rest, h)
      where
        no_claim : (rest : Option Run) → IsEarliest locked now releases rest x
        no_claim none = c
        no_claim (some r) = λ e. cc
    step none h (inl c) = rw c (
      λ e. created_before_refl x,
      All-map (IsEarliest locked now releases none) (IsEarliest locked now releases (some x)) xs
          (λ s n e. cc) h,
    )
    step (some y) h (inl c) = rw c (
      λ e. (earlier-before x y).0,
      All-map (IsEarliest locked now releases (some y))
          (IsEarliest locked now releases (some (earlier x (some y)))) xs
          (λ s n e. created_before_trans (earlier x (some y)) y s (earlier-before x y).1 (n e)) h,
    )

-- A row that was created before every claimable one, or with it and under a smaller key.
abbrev pub IsFirst : (ℕ → Bool) → ℕ → List Release → Option Run → Run → Type 0
IsFirst locked now releases none s = is_claimable locked now releases s ≡ false
IsFirst locked now releases (some r) s =
    is_claimable locked now releases s ≡ true
    → (r.created_at < s.created_at) ⊎ ((r.created_at ≡ s.created_at) × (r.id ≤ s.id))

IsEarliest-IsFirst :
    (locked : ℕ → Bool) (now : ℕ) (releases : List Release) (first : Option Run) (s : Run)
    → IsEarliest locked now releases first s
    → IsFirst locked now releases first s
unfolding created_before
IsEarliest-IsFirst locked now releases none s h = h
IsEarliest-IsFirst locked now releases (some r) s h = λ e. before (h e)
  where
    before :
        created_before r s ≡ true
        → (r.created_at < s.created_at) ⊎ ((r.created_at ≡ s.created_at) × (r.id ≤ s.id))
    before q = ground arith

-- The candidate is a claimable row of the table.
next_candidate-claimable :
    (locked : ℕ → Bool) (now : ℕ) (releases : List Release) (runs : List Run) (r : Run)
    → next_candidate locked now releases runs ≡ some r
    → Memᴰ r runs × (is_claimable locked now releases r ≡ true)
unfolding next_candidate
next_candidate-claimable locked now releases [] r e = absurd cc
next_candidate-claimable locked now releases (x ∷ xs) r e =
    step (next_candidate locked now releases xs) (next_candidate-claimable locked now releases xs)
      (Bool-cases (is_claimable locked now releases x)) e
  where
    pick :
        (y : Run)
        → is_claimable locked now releases x ≡ true
        → Memᴰ y xs × (is_claimable locked now releases y ≡ true)
        → earlier x (some y) ≡ r
        → Memᴰ r (x ∷ xs) × (is_claimable locked now releases r ≡ true)
    pick y c h q = elim (Bool-cases (created_before x y)) [
      | inl b ↦
          let same : x ≡ r = rw b at q in
          subst (λ z. Memᴰ z (x ∷ xs) × (is_claimable locked now releases z ≡ true)) same
            (head refl, c)
      | inr b ↦
          let same : y ≡ r = rw b at q in
          subst (λ z. Memᴰ z (x ∷ xs) × (is_claimable locked now releases z ≡ true)) same
            (tail h.0, h.1)
    ]

    step :
        (rest : Option Run)
        → ((y : Run) → rest ≡ some y → Memᴰ y xs × (is_claimable locked now releases y ≡ true))
        → (is_claimable locked now releases x ≡ true) ⊎ (is_claimable locked now releases x ≡ false)
        → (if is_claimable locked now releases x then some (earlier x rest) else rest) ≡ some r
        → Memᴰ r (x ∷ xs) × (is_claimable locked now releases r ≡ true)
    step rest h (inr c) q = let (m, k) = h r (rw c at q) in (tail m, k)
    step none h (inl c) q =
        let same : x ≡ r = some_inj (rw c at q) in
        subst (λ z. Memᴰ z (x ∷ xs) × (is_claimable locked now releases z ≡ true)) same
          (head refl, c)
    step (some y) h (inl c) q = pick y c (h y refl) (some_inj (rw c at q))

-- What the candidate of a claim is: a claimable row of the table that comes first of all claimable
-- ones, or none where no row is claimable.
abbrev pub IsCandidateOf : (ℕ → Bool) → ℕ → List Release → List Run → Option Run → Type 0
IsCandidateOf locked now releases runs none =
    All (λ s. is_claimable locked now releases s ≡ false) runs
IsCandidateOf locked now releases runs (some r) =
    Memᴰ r runs
    × (is_claimable locked now releases r ≡ true)
    × All (IsFirst locked now releases (some r)) runs

-- The candidate of a claim is a claimable row of the table, created before every claimable one, or at
-- the same time under a key that is no larger; there is none only if no row is claimable.
pub next_candidate-IsFirst :
    (locked : ℕ → Bool) (now : ℕ) (releases : List Release) (runs : List Run)
    → IsCandidateOf locked now releases runs (next_candidate locked now releases runs)
next_candidate-IsFirst locked now releases runs =
    candidate (next_candidate locked now releases runs)
      (next_candidate-claimable locked now releases runs)
      (All-map (IsEarliest locked now releases first) (IsFirst locked now releases first) runs
        (IsEarliest-IsFirst locked now releases first)
        (next_candidate-IsEarliest locked now releases runs))
  where
    first : Option Run
    first = next_candidate locked now releases runs

    candidate :
        (o : Option Run)
        → ((r : Run) → o ≡ some r → Memᴰ r runs × (is_claimable locked now releases r ≡ true))
        → All (IsFirst locked now releases o) runs
        → IsCandidateOf locked now releases runs o
    candidate none h k = k
    candidate (some r) h k = let (m, c) = h r refl in (m, c, k)
