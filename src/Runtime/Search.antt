-- ===== src/Runtime/Search.antt =====
-- The depth-first search of `assertAcyclicDependencies` (packages/runtime/src/compiler.ts), over the
-- dependencies of each key, and what it says: cycles, and an order in which dependencies come first.
pub mod Marked
pub mod Visit
pub mod Order
use agent_builder.Common.{
  ℕ, zero, suc, ◌≡◌, Bool, true, false, not, ◌&&◌, ◌||◌, List, [], ◌∷◌, Result, ok, err, ◌>>=◌, All,
  keep, ◌==◌, if◌then◌else◌,
}

-- A resource version: the family in lower case, and the version.
pub record Key : Type 0 where
  pub family : ℕ
  pub version : ℕ

abbrev pub same_key : Key → Key → Bool
same_key a b = a.family == b.family && a.version == b.version

-- `Set.has` and `Set.delete`; `add` is `∷` where the key is not there.
abbrev pub has : Key → List Key → Bool
has k [] = false
has k (x ∷ xs) = same_key x k || has k xs

abbrev pub discard : Key → List Key → List Key
discard k xs = keep (λ x. not (same_key x k)) xs

pub record Marks : Type 0 where
  pub visiting : List Key
  pub visited : List Key

abbrev pub visit_all : (Key → Marks → Result Marks) → List Key → Marks → Result Marks
visit_all visit [] s = ok s
visit_all visit (k ∷ ks) s = visit k s >>= visit_all visit ks

abbrev finish : Key → Marks → Result Marks
finish key s = ok (record { visiting = discard key s.visiting; visited = key ∷ s.visited })

module _ (edges : Key → List Key) where
  -- `visit`, with fuel for the depth.
  unfoldable pub visit : ℕ → Key → Marks → Result Marks
  visit zero key s = err "RangeError"
  visit (suc fuel) key s =
      let below =
        visit_all (visit fuel) (edges key) (record s { visiting = key ∷ s.visiting })
        >>= finish key in
      if has key s.visited
      then ok s
      else if has key s.visiting
      then err "Resource dependency cycle"
      else below

  -- The keys that lead to each other by one dependency or more.
  pub data Reaches (x : Key) : Key → Type 0 where
    one : {y : Key} → has y (edges x) ≡ true → Reaches x y
    more : {y z : Key} → Reaches x y → has z (edges y) ≡ true → Reaches x z

  -- Each key of the list stands once, with its dependencies behind it.
  abbrev pub IsOrdered : List Key → Type 0
  IsOrdered [] = Unit
  IsOrdered (x ∷ xs) = All (λ d. has d xs ≡ true) (edges x) × (has x xs ≡ false) × IsOrdered xs
