-- ===== src/Runtime/Search/Order.antt =====
-- An order in which dependencies come first has no cycle (packages/runtime/src/compiler.ts).
use agent_builder.Common.{
  ℕ, suc, ◌≡◌, ◌≤◌, ◌<◌, sym, subst, inl, inr, true, false, List, [], ◌∷◌, length, if◌then◌else◌,
  Bool-cases, arith,
}
use agent_builder.Runtime.Search.{Key, same_key, has, Reaches, one, more, IsOrdered}
use agent_builder.Runtime.Search.Marked.{same_key_iff, All-has}

-- How far from the end a key stands.
rank : Key → List Key → ℕ
rank k [] = 0
rank k (x ∷ xs) = if same_key x k then suc (length xs) else rank k xs

rank-le : (k : Key) (xs : List Key) → rank k xs ≤ length xs
unfolding rank
rank-le k [] = omega arith
rank-le k (x ∷ xs) = ground (arith, rank-le k xs)

-- A key that stands behind another is another.
behind_ne : (x k : Key) (xs : List Key) → has x xs ≡ false → has k xs ≡ true → same_key x k ≡ false
behind_ne x k xs h e = elim (Bool-cases (same_key x k)) [
  | inl q ↦ absurd (clash (subst (λ j. has j xs ≡ true) (sym ((same_key_iff x k).0 q)) e))
  | inr q ↦ q
]
  where
    clash : has x xs ≡ true → ⊥
    clash q = cc

module _ (edges : Key → List Key) where
  edge-rank :
      (xs : List Key) (x d : Key)
      → IsOrdered edges xs
      → has x xs ≡ true
      → has d (edges x) ≡ true
      → (has d xs ≡ true) × (rank d xs < rank x xs)
  unfolding rank
  edge-rank [] x d o h e = absurd (ground arith)
  edge-rank (y ∷ ys) x d o h e = elim (Bool-cases (same_key y x)) [
    | inl q ↦
        let at = subst (λ z. has d (edges z) ≡ true) (sym ((same_key_iff y x).0 q)) e in
        let there = All-has (λ k. has k ys ≡ true) (edges y) d o.0 at in
        let apart = behind_ne y d ys o.1 there in
        (ground (arith, there), ground (arith, q, apart, rank-le d ys))
    | inr q ↦
        let later : has x ys ≡ true = ground (arith, h, q) in
        let (there, lower) = edge-rank ys x d o.2 later e in
        let apart = behind_ne y d ys o.1 there in
        (ground (arith, there), ground (arith, q, apart, lower))
  ]

  Reaches-rank :
      (xs : List Key) (x y : Key)
      → IsOrdered edges xs
      → has x xs ≡ true
      → Reaches edges x y
      → (has y xs ≡ true) × (rank y xs < rank x xs)
  Reaches-rank xs x y o h (one e) = edge-rank xs x y o h e
  Reaches-rank xs x z o h (more {y} r e) =
      let (there, lower) = Reaches-rank xs x y o h r in
      let (last, least) = edge-rank xs y z o there e in (last, omega (arith, lower, least))

  pub IsOrdered-acyclic :
      (xs : List Key) (x : Key) → IsOrdered edges xs → has x xs ≡ true → ¬ Reaches edges x x
  IsOrdered-acyclic xs x o h r = absurd (omega (arith, (Reaches-rank xs x x o h r).1))
