-- ===== src/Common/Throws.antt =====
-- Results of code that throws.
use Prim.Native.String.{String}
use mathlib.Core.Path.{◌≡◌, refl, subst}
use mathlib.Core.Bool.{Bool, true, false}
use agent_builder.Common.Tests.{if◌then◌else◌}

-- A thrown `Error` is its message or code.
pub data Result {ℓ} (A : Type ℓ) : Type ℓ where
  ok : A → Result A
  err : String → Result A

-- What holds of the value if the code did not throw.
abbrev pub Ensures {ℓ κ} : {A : Type ℓ} → (A → Type κ) → Result A → Type κ
Ensures P (err message) = Unit
Ensures P (ok value) = P value

infixl 5 ◌>>=◌ ◌>>◌
-- The code that follows a value; a thrown error passes it by.
abbrev pub ◌>>=◌ {κ ℓ} :
    {Value : Type κ} {Next : Type ℓ} → Result Value → (Value → Result Next) → Result Next
err message >>= next = err message
ok value >>= next = next value

abbrev pub ◌>>◌ {ℓ} : {Last : Type ℓ} → Result (Unit {0}) → Result Last → Result Last
err message >> last = err message
ok _ >> last = last

pub Ensures-bind {ℓ κ ι ν} :
    {A : Type ℓ} {B : Type κ} (Q : A → Type ι) (P : B → Type ν) (m : Result A) (f : A → Result B)
    → Ensures Q m
    → ((a : A) → Q a → Ensures P (f a))
    → Ensures P (m >>= f)
Ensures-bind Q P (ok a) f h k = k a h
Ensures-bind Q P (err e) f h k = tt

-- A step about which nothing is asked.
pub Ensures-then {ℓ κ ν} :
    {A : Type ℓ} {B : Type κ} (P : B → Type ν) (m : Result A) (f : A → Result B)
    → ((a : A) → Ensures P (f a))
    → Ensures P (m >>= f)
Ensures-then P (ok a) f k = k a
Ensures-then P (err e) f k = tt

-- A guard that throws, and one without which the code throws.
pub Ensures-unless {ℓ κ} :
    {A : Type ℓ} (P : A → Type κ) (guard : Bool) (message : String) (rest : Result A)
    → (guard ≡ false → Ensures P rest)
    → Ensures P (if guard then err message else rest)
Ensures-unless P true message rest h = tt
Ensures-unless P false message rest h = h refl

pub Ensures-when {ℓ κ} :
    {A : Type ℓ} (P : A → Type κ) (guard : Bool) (message : String) (rest : Result A)
    → (guard ≡ true → Ensures P rest)
    → Ensures P (if guard then rest else err message)
Ensures-when P true message rest h = h refl
Ensures-when P false message rest h = tt

pub Ensures-if {ℓ κ} :
    {A : Type ℓ} (P : A → Type κ) (guard : Bool) (left right : Result A)
    → (guard ≡ true → Ensures P left)
    → (guard ≡ false → Ensures P right)
    → Ensures P (if guard then left else right)
Ensures-if P true left right h k = h refl
Ensures-if P false left right h k = k refl

-- What is ensured holds of a value that was returned.
pub Ensures-ok {ℓ κ} :
    {A : Type ℓ} (P : A → Type κ) (m : Result A) (a : A) → m ≡ ok a → Ensures P m → P a
Ensures-ok P m a e h = subst (Ensures P) e h

-- The parts of a sequence that returned.
pub >>-parts {ℓ} :
    {A : Type ℓ} (first : Result (Unit {0})) (rest : Result A) (a : A)
    → (first >> rest) ≡ ok a
    → (first ≡ ok tt) × (rest ≡ ok a)
>>-parts (ok _) rest a e = (refl, e)
>>-parts (err message) rest a e = (absurd cc, absurd cc)

pub >>=-parts {κ ℓ} :
    {A : Type κ} {B : Type ℓ} (m : Result A) (next : A → Result B) (b : B)
    → (m >>= next) ≡ ok b
    → (a : A) × (m ≡ ok a) × (next a ≡ ok b)
>>=-parts (ok a) next b e = (a, refl, e)
>>=-parts (err message) next b e = absurd cc
