-- ===== src/Common/Keys.antt =====
-- Tables whose keys differ from row to row, and how predicates of the rows travel.
use Prim.Native.Nat.{ℕ}
use mathlib.Core.Path.{◌≡◌, ◌∙◌}
use mathlib.Core.Logic.{◌≢◌, inl, inr}
use mathlib.Core.Bool.{Bool, true}
use mathlib.Core.Option.{some}
use mathlib.Core.List.{List, [], ◌∷◌}
use native.Mathlib.Omega.{arith}
use agent_builder.Common.Tests.{◌==◌, Bool-cases}
use agent_builder.Common.Lists.{All, keep}
use agent_builder.Common.Table.{find_row, update_row}

-- No two rows have one key.
abbrev pub Distinct {ℓ} : {A : Type ℓ} → (A → ℕ) → List A → Type 0
Distinct key [] = Unit
Distinct key (x ∷ xs) = All (λ y. key x ≢ key y) xs × Distinct key xs

module _ {ℓ κ} {A : Type ℓ} (P : A → Type κ) where
  pub All-map {ν} : (Q : A → Type ν) (xs : List A) → ((x : A) → P x → Q x) → All P xs → All Q xs
  All-map Q [] f h = tt
  All-map Q (x ∷ xs) f h = (f x h.0, All-map Q xs f h.1)

  pub All-zip {ν} : (Q : A → Type ν) (xs : List A) → All P xs → All Q xs → All (λ x. P x × Q x) xs
  All-zip Q [] h k = tt
  All-zip Q (x ∷ xs) h k = ((h.0, k.0), All-zip Q xs h.1 k.1)

  pub All-keep : (p : A → Bool) (xs : List A) → All P xs → All (λ x. P x × (p x ≡ true)) (keep p xs)
  All-keep p [] h = tt
  All-keep p (x ∷ xs) h = elim (Bool-cases (p x)) [
    | inl e ↦ rw e ((h.0, e), All-keep p xs h.1)
    | inr e ↦ rw e (All-keep p xs h.1)
  ]

module _ {ℓ} {A : Type ℓ} (key : A → ℕ) where
  pub Distinct-keep : (p : A → Bool) (xs : List A) → Distinct key xs → Distinct key (keep p xs)
  Distinct-keep p [] h = tt
  Distinct-keep p (x ∷ xs) h = elim (Bool-cases (p x)) [
    | inl e ↦ rw e (
      All-map (λ y. (key x ≢ key y) × (p y ≡ true)) (λ y. key x ≢ key y) (keep p xs) (λ y h. h.0)
          (All-keep (λ y. key x ≢ key y) p xs h.0),
      Distinct-keep p xs h.1,
    )
    | inr e ↦ rw e (Distinct-keep p xs h.1)
  ]

  All-ne-update_row :
      (k a : ℕ) (f : A → A) (xs : List A)
      → ((x : A) → key (f x) ≡ key x)
      → All (λ y. a ≢ key y) xs
      → All (λ y. a ≢ key y) (update_row key k f xs)
  unfolding update_row
  All-ne-update_row k a f [] keeps h = tt
  All-ne-update_row k a f (x ∷ xs) keeps h = elim (Bool-cases (key x == k)) [
    | inl e ↦ rw e (λ q. h.0 (q ∙ keeps x), h.1)
    | inr e ↦ rw e (h.0, All-ne-update_row k a f xs keeps h.1)
  ]

  pub Distinct-update_row :
      (k : ℕ) (f : A → A) (xs : List A)
      → ((x : A) → key (f x) ≡ key x)
      → Distinct key xs
      → Distinct key (update_row key k f xs)
  unfolding update_row
  Distinct-update_row k f [] keeps h = tt
  Distinct-update_row k f (x ∷ xs) keeps h = elim (Bool-cases (key x == k)) [
    | inl e ↦ rw e (rw (keeps x) h.0, h.1)
    | inr e ↦
        rw e (All-ne-update_row k (key x) f xs keeps h.0, Distinct-update_row k f xs keeps h.1)
  ]

  -- Every row of a keyed table is the one that its key finds.
  pub Distinct-find_row :
      (xs : List A) → Distinct key xs → All (λ y. find_row key (key y) xs ≡ some y) xs
  unfolding find_row
  Distinct-find_row [] h = tt
  Distinct-find_row (x ∷ xs) h = (ground arith, All-both xs h.0 (Distinct-find_row xs h.1))
    where
      All-both :
          (ys : List A)
          → All (λ y. key x ≢ key y) ys
          → All (λ y. find_row key (key y) xs ≡ some y) ys
          → All (λ y. find_row key (key y) (x ∷ xs) ≡ some y) ys
      All-both [] h k = tt
      All-both (y ∷ ys) h k = (miss y h.0 k.0, All-both ys h.1 k.1)
        where
          miss :
              (y : A)
              → key x ≢ key y
              → find_row key (key y) xs ≡ some y
              → find_row key (key y) (x ∷ xs) ≡ some y
          miss y n e = ground arith
