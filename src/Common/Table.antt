-- ===== src/Common/Table.antt =====
-- A database table with a unique numeric key: the row with a key is the first one that has it, and
-- an update writes that row alone.
use Prim.Native.Nat.{ℕ, ◌+◌, ◌≤◌}
use mathlib.Core.Path.{◌≡◌, sym, subst, ◌∙◌}
use mathlib.Core.Logic.{◌≢◌, ◌⊎◌, inl, inr}
use native.Mathlib.Decide.{ℕ_discrete}
use mathlib.Core.Option.{Option, none, some}
use mathlib.Core.List.{List, [], ◌∷◌}
use native.Mathlib.Omega.{arith}
use agent_builder.Common.Tests.{◌==◌, if◌then◌else◌, some_inj}
use agent_builder.Common.Lists.{All}

module _ {ℓ} {A : Type ℓ} where
  unfoldable pub find_row : (A → ℕ) → ℕ → List A → Option A
  find_row key k [] = none
  find_row key k (x ∷ xs) = if key x == k then some x else find_row key k xs

  unfoldable pub update_row : (A → ℕ) → ℕ → (A → A) → List A → List A
  update_row key k f [] = []
  update_row key k f (x ∷ xs) = if key x == k then f x ∷ xs else x ∷ update_row key k f xs

  unfoldable pub sum_by : (A → ℕ) → List A → ℕ
  sum_by w [] = 0
  sum_by w (x ∷ xs) = w x + sum_by w xs

  -- A row that an update does not name reads as before; the named row reads as rewritten.
  pub find_row-update_row :
      (key : A → ℕ) (k j : ℕ) (f : A → A) (xs : List A)
      → ((x : A) → key (f x) ≡ key x)
      → find_row key j (update_row key k f xs) ≡ (
          if k == j
          then (elim (find_row key j xs) [ none ↦ none | some x ↦ some (f x) ])
          else find_row key j xs)
  unfolding find_row update_row
  find_row-update_row key k j f [] keeps = ground arith
  find_row-update_row key k j f (x ∷ xs) keeps =
      ground (arith, keeps x, find_row-update_row key k j f xs keeps)

  pub find_row-key :
      (key : A → ℕ) (k : ℕ) (xs : List A) (x : A) → find_row key k xs ≡ some x → key x ≡ k
  unfolding find_row
  find_row-key key k [] x h = ground arith
  find_row-key key k (y ∷ ys) x h = ground (arith, find_row-key key k ys x)

  pub sum_by-update_row :
      (key w : A → ℕ) (k : ℕ) (f : A → A) (xs : List A) (x : A)
      → find_row key k xs ≡ some x
      → sum_by w (update_row key k f xs) + w x ≡ sum_by w xs + w (f x)
  unfolding find_row update_row sum_by
  sum_by-update_row key w k f [] x h = ground arith
  sum_by-update_row key w k f (y ∷ ys) x h = ground (arith, sum_by-update_row key w k f ys x)

  pub le-sum_by :
      (key w : A → ℕ) (k : ℕ) (xs : List A) (x : A) → find_row key k xs ≡ some x → w x ≤ sum_by w xs
  unfolding find_row sum_by
  le-sum_by key w k [] x h = ground arith
  le-sum_by key w k (y ∷ ys) x h = ground (arith, le-sum_by key w k ys x)

  -- A predicate of every row holds of the row that is found, and survives an update that keeps it.
  pub All-find_row {κ} :
      (P : A → Type κ) (key : A → ℕ) (k : ℕ) (xs : List A) (x : A)
      → All P xs
      → find_row key k xs ≡ some x
      → P x
  unfolding find_row
  All-find_row P key k [] x h e = ground arith
  All-find_row P key k (y ∷ ys) x h e = ground (arith, All-find_row P key k ys x h.1)

  pub All-update_row {κ} :
      (P : A → Type κ) (key : A → ℕ) (k : ℕ) (f : A → A) (xs : List A) (x : A)
      → All P xs
      → find_row key k xs ≡ some x
      → P (f x)
      → All P (update_row key k f xs)
  unfolding find_row update_row
  All-update_row P key k f [] x h e p = ground arith
  All-update_row P key k f (y ∷ ys) x h e p = ground (arith, All-update_row P key k f ys x h.1)

  -- A row read after an update is the rewritten one, or was there before under another key.
  pub find_row-update_row_cases :
      (key : A → ℕ) (k j : ℕ) (f : A → A) (xs : List A) (y : A)
      → ((x : A) → key (f x) ≡ key x)
      → find_row key j (update_row key k f xs) ≡ some y
      → ((k ≡ j) × ((x : A) × (find_row key k xs ≡ some x) × (y ≡ f x)))
        ⊎ ((k ≢ j) × (find_row key j xs ≡ some y))
  find_row-update_row_cases key k j f xs y keeps h = elim (ℕ_discrete k j) [
    | yes e ↦ inl (e, hit (subst (λ i. find_row key i (update_row key k f xs) ≡ some y) (sym e) h))
    | no n ↦ inr (n, sym (rest n) ∙ h)
  ]
    where
      hit :
          find_row key k (update_row key k f xs) ≡ some y
          → (x : A) × (find_row key k xs ≡ some x) × (y ≡ f x)
      hit h = ground (arith, find_row-update_row key k k f xs keeps)

      rest : k ≢ j → find_row key j (update_row key k f xs) ≡ find_row key j xs
      rest n = ground (arith, find_row-update_row key k j f xs keeps)

-- The only row of a table.
pub find_row-single {ℓ} :
    {A : Type ℓ} (key : A → ℕ) (id : ℕ) (x y : A)
    → find_row key id (x ∷ []) ≡ some y
    → (key x ≡ id) × (x ≡ y)
unfolding find_row
find_row-single key id x y e = elim (ℕ_discrete (key x) id) [
  | yes q ↦ (q, some_inj (rw⁻¹ e (ground arith)))
  | no n ↦ absurd (ground arith)
]
