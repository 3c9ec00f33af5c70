-- ===== src/Backend/Access.antt =====
-- Roles and scopes (apps/backend/src/authorization.ts, apps/backend/src/scope.ts).
use agent_builder.Common.{
  ℕ, suc, ◌≡◌, ◌↔◌, ◌∙◌, refl, max, Bool, true, false, ◌&&◌, ◌||◌, List, [], ◌∷◌, ◌++◌, Option,
  none, some, String, Result, ok, err, any, keep, leb, ◌==◌, opt_eq, is_none, arith,
}

pub data PlatformRole : Type 0 where
  consumer builder owner admin : PlatformRole

abbrev pub role_rank : PlatformRole → ℕ
role_rank consumer = 0
role_rank builder = 1
role_rank owner = 2
role_rank admin = 3

abbrev ordered_roles : List PlatformRole
ordered_roles = consumer ∷ builder ∷ owner ∷ admin ∷ []

-- The `reduce` of the assigned roles, one higher: 0 stands for the rank -1 that it starts from.
unfoldable pub maximum_rank : ℕ → List PlatformRole → ℕ
maximum_rank rank [] = rank
maximum_rank rank (role ∷ roles) = maximum_rank (max rank (suc (role_rank role))) roles

unfoldable pub effective_roles : List PlatformRole → List PlatformRole
unfolding maximum_rank
effective_roles assigned =
    let maximum = maximum_rank 0 assigned in
    keep (λ role. leb (suc (role_rank role)) maximum) ordered_roles

abbrev pub includes : List PlatformRole → PlatformRole → Bool
includes roles role = any (λ r. role_rank r == role_rank role) roles

unfoldable pub has_minimum_role : List PlatformRole → PlatformRole → Bool
unfolding effective_roles
has_minimum_role assigned minimum = includes (effective_roles assigned) minimum

abbrev guarded : Bool → Result (Unit {0})
guarded true = ok tt
guarded false = err "AUTHORIZATION_REQUIRED"

-- The handler of a route: it goes on, or the error is its code.
unfoldable pub require_minimum_role : List PlatformRole → PlatformRole → Result (Unit {0})
unfolding has_minimum_role
require_minimum_role assigned minimum = guarded (has_minimum_role assigned minimum)

-- The permissions of a session.
abbrev granted : Bool → List String → List String
granted true permissions = permissions
granted false permissions = []

unfoldable pub session_permissions : List PlatformRole → List String
unfolding effective_roles
session_permissions assigned =
    let roles = effective_roles assigned in
    granted (includes roles consumer) ("catalog:read" ∷ "runs:execute" ∷ [])
    ++ granted (includes roles builder) ("builder:author" ∷ [])
    ++ granted (includes roles owner) ("evidence:review" ∷ "release:govern" ∷ [])
    ++ granted (includes roles admin) ("platform:administer" ∷ [])

-- A workspace and, where it is not null, a department.
pub record AggregateScope : Type 0 where
  pub workspace : ℕ
  pub department : Option ℕ

-- The filter of a query: records without a department, or also those of one department.
pub data AggregateScopeWhere : Type 0 where
  global_only : ℕ → AggregateScopeWhere
  global_or : ℕ → ℕ → AggregateScopeWhere

unfoldable pub aggregate_scope_where : AggregateScope → AggregateScopeWhere
aggregate_scope_where principal = elim principal.department [
  | none ↦ global_only principal.workspace
  | some department ↦ global_or principal.workspace department
]

-- What the filter selects.
unfoldable pub selects : AggregateScopeWhere → AggregateScope → Bool
selects (global_only workspace) r = r.workspace == workspace && is_none r.department
selects (global_or workspace department) r =
    r.workspace == workspace && (is_none r.department || opt_eq r.department (some department))

unfoldable pub is_in_principal_scope : AggregateScope → AggregateScope → Bool
is_in_principal_scope r principal =
    r.workspace == principal.workspace
    && (is_none r.department || opt_eq r.department principal.department)

leb-max :
    (k acc n : ℕ) (b : Bool)
    → (leb (suc k) (max acc (suc n)) || b) ≡ (leb (suc k) acc || (leb k n || b))
leb-max k acc n b = ground arith

maximum_rank-leb :
    (k acc : ℕ) (roles : List PlatformRole)
    → leb (suc k) (maximum_rank acc roles)
      ≡ (leb (suc k) acc || any (λ r. leb k (role_rank r)) roles)
unfolding maximum_rank
maximum_rank-leb k acc [] = ground arith
maximum_rank-leb k acc (role ∷ roles) =
    maximum_rank-leb k (max acc (suc (role_rank role))) roles
    ∙ leb-max k acc (role_rank role) (any (λ r. leb k (role_rank r)) roles)

includes-keep :
    (p : PlatformRole → Bool) (role : PlatformRole) → includes (keep p ordered_roles) role ≡ p role
includes-keep p consumer = ground arith
includes-keep p builder = ground arith
includes-keep p owner = ground arith
includes-keep p admin = ground arith

leb-zero : (n : ℕ) (b : Bool) → (leb (suc n) 0 || b) ≡ b
leb-zero n b = ground arith

guarded-ok : (b : Bool) → (guarded b ≡ ok tt) ↔ (b ≡ true)
guarded-ok true = (λ e. refl, λ e. refl)
guarded-ok false = (λ e. cc, λ e. cc)

-- A principal passes the check of a route exactly if one of the assigned roles ranks at least as
-- high as the role that the route asks for.
pub require_minimum_role-ok :
    (assigned : List PlatformRole) (minimum : PlatformRole)
    → (require_minimum_role assigned minimum ≡ ok tt)
      ↔ (any (λ r. leb (role_rank minimum) (role_rank r)) assigned ≡ true)
unfolding require_minimum_role has_minimum_role effective_roles
require_minimum_role-ok assigned minimum =
    let included =
      includes-keep (λ role. leb (suc (role_rank role)) (maximum_rank 0 assigned)) minimum
      ∙ maximum_rank-leb (role_rank minimum) 0 assigned
      ∙ leb-zero (role_rank minimum) (any (λ r. leb (role_rank minimum) (role_rank r)) assigned) in
    rw included (guarded-ok (any (λ r. leb (role_rank minimum) (role_rank r)) assigned))

-- The filter of a query selects exactly the records that are in the principal's scope.
pub selects-aggregate_scope_where :
    (principal r : AggregateScope)
    → selects (aggregate_scope_where principal) r ≡ is_in_principal_scope r principal
unfolding selects aggregate_scope_where is_in_principal_scope
selects-aggregate_scope_where principal r = ground arith
