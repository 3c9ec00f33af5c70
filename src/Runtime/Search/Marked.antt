-- ===== src/Runtime/Search/Marked.antt =====
-- Lemmas on the marks of the search (packages/runtime/src/compiler.ts).
use agent_builder.Common.{
  ℕ, ◌≡◌, ◌≤◌, ◌<◌, ◌↔◌, refl, sym, subst, inl, inr, true, false, not, List, [], ◌∷◌, All, keep,
  length, Bool-cases, arith,
}
use agent_builder.Runtime.Search.{Key, same_key, has, discard}

pub same_key_iff : (a b : Key) → (same_key a b ≡ true) ↔ (a ≡ b)
same_key_iff a b = ground arith

pub same_key_refl : (a : Key) → same_key a a ≡ true
same_key_refl a = ground arith

pub All-has : (P : Key → Type 0) (xs : List Key) (k : Key) → All P xs → has k xs ≡ true → P k
All-has P [] k h e = cc
All-has P (x ∷ xs) k h e = elim (Bool-cases (same_key x k)) [
  | inl q ↦ subst P ((same_key_iff x k).0 q) h.0
  | inr n ↦ All-has P xs k h.1 (ground arith)
]

-- A key that was not there is taken off again.
pub discard-cons : (k : Key) (xs : List Key) → has k xs ≡ false → discard k (k ∷ xs) ≡ xs
discard-cons k xs h = rw (same_key_refl k) (discard-id k xs h)
  where
    discard-id : (k : Key) (xs : List Key) → has k xs ≡ false → discard k xs ≡ xs
    discard-id k [] h = refl
    discard-id k (x ∷ xs) h = ground (arith, discard-id k xs)

-- The nodes that are not in a list.
abbrev pub unmarked : List Key → List Key → ℕ
unmarked nodes xs = length (keep (λ k. not (has k xs)) nodes)

unmarked-le : (nodes xs : List Key) (k : Key) → unmarked nodes (k ∷ xs) ≤ unmarked nodes xs
unmarked-le [] xs k = omega arith
unmarked-le (n ∷ nodes) xs k = ground (arith, unmarked-le nodes xs k)

pub unmarked-lt :
    (nodes xs : List Key) (k : Key)
    → has k nodes ≡ true
    → has k xs ≡ false
    → unmarked nodes (k ∷ xs) < unmarked nodes xs
unmarked-lt [] xs k e h = cc
unmarked-lt (n ∷ nodes) xs k e h = elim (Bool-cases (same_key n k)) [
  | inl q ↦
      let same = (same_key_iff n k).0 q in
      let absent : has n xs ≡ false = subst (λ y. has y xs ≡ false) (sym same) h in
      ground (arith, absent, unmarked-le nodes xs k)
  | inr q ↦ ground (arith, unmarked-lt nodes xs k)
]
