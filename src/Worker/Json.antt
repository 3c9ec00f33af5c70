-- ===== src/Worker/Json.antt =====
-- JSON values as apps/worker/src/store.ts compares them. Only equality of numbers matters there,
-- so a number is a natural code of it; the keys of `Object.prototype` are left out.
use text.Mathlib.Text.{◌==◌ as str_eq}
use agent_builder.Common.{
  ℕ, String, Bool, true, false, ◌&&◌, ◌||◌, Option, none, some, ◌==◌, if◌then◌else◌,
}

mutual
  pub data Json : Type 0 where
    null : Json
    bool : Bool → Json
    num : ℕ → Json
    str : String → Json
    arr : Items → Json
    obj : Fields → Json

  pub data Items : Type 0 where
    nil : Items
    cons : Json → Items → Items

  pub data Fields : Type 0 where
    end : Fields
    field : String → Json → Fields → Fields

abbrev bool_eq : Bool → Bool → Bool
bool_eq true b = b
bool_eq false true = false
bool_eq false false = true

-- `JSON.stringify(a) === JSON.stringify(b)`: the same value, object keys in the same order.
unfoldable mutual
  pub same_text : Json → Json → Bool
  same_text null null = true
  same_text (bool a) (bool b) = bool_eq a b
  same_text (num a) (num b) = a == b
  same_text (str a) (str b) = str_eq a b
  same_text (arr xs) (arr ys) = same_items xs ys
  same_text (obj fs) (obj gs) = same_fields fs gs
  same_text _ _ = false

  pub same_items : Items → Items → Bool
  same_items nil nil = true
  same_items (cons x xs) (cons y ys) = same_text x y && same_items xs ys
  same_items _ _ = false

  pub same_fields : Fields → Fields → Bool
  same_fields end end = true
  same_fields (field j x fs) (field k y gs) = str_eq j k && (same_text x y && same_fields fs gs)
  same_fields _ _ = false

-- `object[key]`; `none` is `undefined`.
unfoldable pub get : String → Fields → Option Json
get k end = none
get k (field j x fs) = if str_eq j k then some x else get k fs

-- `===` between a value read and a constraint that is neither an array nor an object.
unfoldable pub strict_eq : Option Json → Json → Bool
strict_eq (some null) null = true
strict_eq (some (bool a)) (bool b) = bool_eq a b
strict_eq (some (num a)) (num b) = a == b
strict_eq (some (str a)) (str b) = str_eq a b
strict_eq _ _ = false

-- `expected.some((allowed) => JSON.stringify(allowed) === JSON.stringify(actual))`.
unfoldable pub some_allowed : Items → Option Json → Bool
unfolding same_text
some_allowed nil actual = false
some_allowed (cons x xs) none = false
some_allowed (cons x xs) (some a) = same_text x a || some_allowed xs (some a)

-- The object that an actual value is, if it is one.
abbrev as_object : Option Json → Option Fields
as_object (some (obj fs)) = some fs
as_object _ = none

unfoldable mutual
  unfolding some_allowed strict_eq get

  -- One entry of a constraint object against the value that the input has for its key.
  pub satisfies_value : Json → Option Json → Bool
  satisfies_value (arr allowed) actual = some_allowed allowed actual
  satisfies_value (obj constraints) actual = elim (as_object actual) [
    | none ↦ false
    | some input ↦ satisfies_constraints constraints input
  ]
  satisfies_value null actual = strict_eq actual null
  satisfies_value (bool b) actual = strict_eq actual (bool b)
  satisfies_value (num n) actual = strict_eq actual (num n)
  satisfies_value (str s) actual = strict_eq actual (str s)

  -- `satisfiesConstraints(input, constraints)`, the constraints first.
  pub satisfies_constraints : Fields → Fields → Bool
  satisfies_constraints end input = true
  satisfies_constraints (field key expected rest) input =
      satisfies_value expected (get key input) && satisfies_constraints rest input
