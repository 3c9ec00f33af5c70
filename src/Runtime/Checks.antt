-- ===== src/Runtime/Checks.antt =====
-- Checks that throw where they fail, one after the other (packages/runtime/src/compiler.ts).
use agent_builder.Common.{
  >>-parts, ◌≡◌, refl, String, Bool, true, false, List, [], ◌∷◌, Result, ok, err, ◌>>◌, All,
}

-- `for … of`: each item is checked in turn.
abbrev pub each {ℓ} : {A : Type ℓ} → (A → Result (Unit {0})) → List A → Result (Unit {0})
each check [] = ok tt
each check (x ∷ xs) = check x >> each check xs

abbrev pub refuse : Bool → String → Result (Unit {0})
refuse true message = err message
refuse false message = ok tt

pub each-All :
    {A : Type 0} (check : A → Result (Unit {0})) (xs : List A)
    → each check xs ≡ ok tt
    → All (λ x. check x ≡ ok tt) xs
each-All check [] e = tt
each-All check (x ∷ xs) e =
    let (first, rest) = >>-parts (check x) (each check xs) tt e in (first, each-All check xs rest)

pub ok_inj : {A : Type 0} (a b : A) → ok b ≡ ok a → a ≡ b
ok_inj a b e = cc

pub refuse-false : (b : Bool) (message : String) → refuse b message ≡ ok tt → b ≡ false
refuse-false true message e = absurd cc
refuse-false false message e = refl
