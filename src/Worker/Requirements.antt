-- ===== src/Worker/Requirements.antt =====
-- What a release asks of its authority (apps/worker/src/store.ts): the closure of the entry
-- resource over pinned dependencies, and the tools that its skills name.
use text.Mathlib.Text.{◌==◌ as str_eq}
use agent_builder.Common.{
  ℕ, zero, suc, Bool, false, not, ◌&&◌, ◌||◌, List, [], ◌∷◌, ◌++◌, Option, none, some, ◌==◌,
  if◌then◌else◌, any, find_row, mem,
}
use agent_builder.Worker.Model.{
  Catalog, Definition, skill, other, Tool, named, plugin_reference, DependencyPin,
}

abbrev in_release : ℕ → ℕ → ℕ → Catalog → Bool
in_release release version digest catalog =
    any (λ x. x.release == release && (x.version == version && x.digest == digest))
      catalog.resources

abbrev has_version : ℕ → ℕ → Catalog → Bool
has_version version digest catalog =
    any (λ v. v.id == version && v.digest == digest) catalog.versions

-- A pin leaves this version for another of the release, with the pinned digest, off the path.
abbrev is_followed : Catalog → ℕ → List ℕ → ℕ → DependencyPin → Bool
is_followed catalog release path source p =
    p.source == source
    && (in_release release p.target p.target_digest catalog
        && (has_version p.target p.target_digest catalog && not (mem p.target path)))

unfoldable pub follow_pins : (ℕ → List ℕ) → Catalog → ℕ → List ℕ → ℕ → List DependencyPin → List ℕ
follow_pins visit catalog release path source [] = []
follow_pins visit catalog release path source (p ∷ ps) =
    let rest = follow_pins visit catalog release path source ps in
    if is_followed catalog release path source p then visit p.target ++ rest else rest

-- The rows of `entry_closure` below a version: the first argument is 100 less the depth.
unfoldable pub closure_from : ℕ → Catalog → ℕ → List ℕ → ℕ → List ℕ
unfolding follow_pins
closure_from zero catalog release path version = version ∷ []
closure_from (suc levels) catalog release path version =
    version
    ∷ follow_pins (λ t. closure_from levels catalog release (t ∷ path) t) catalog release path
        version catalog.pins

abbrev pub max_depth : ℕ
max_depth = 100

abbrev entry_present : Catalog → ℕ → ℕ → Bool
entry_present catalog release version =
    any
      (λ x. x.release == release && (x.version == version && has_version version x.digest catalog))
      catalog.resources

unfoldable pub entry_closure : Catalog → ℕ → ℕ → List ℕ
unfolding closure_from
entry_closure catalog release version =
    if entry_present catalog release version
    then closure_from max_depth catalog release (version ∷ []) version
    else []

unfoldable pub definitions_of : Catalog → List ℕ → List Definition
definitions_of catalog [] = []
definitions_of catalog (v ∷ vs) =
    let rest = definitions_of catalog vs in
    elim (find_row (λ x. x.id) v catalog.versions) [
      | none ↦ rest
      | some row ↦ row.definition ∷ rest
    ]

pub record Requirements : Type 0 where
  pub daily_brief : Bool
  pub tools : List ℕ

-- `tools.add(tool)` for the tools that are names.
unfoldable pub add_tools : List Tool → List ℕ → List ℕ
add_tools [] names = names
add_tools (named t ∷ ts) names = add_tools ts (if mem t names then names else t ∷ names)
add_tools (plugin_reference ∷ ts) names = add_tools ts names

-- `releaseTools`: only skills count.
unfoldable pub release_tools : List Definition → Requirements → Requirements
unfolding add_tools
release_tools [] q = q
release_tools (other ∷ ds) q = release_tools ds q
release_tools (skill slug tools ∷ ds) q = release_tools ds (record {
  daily_brief = str_eq slug "daily-brief" || q.daily_brief;
  tools = add_tools tools q.tools;
})

unfoldable pub requirements_of : Catalog → ℕ → Option ℕ → Requirements
unfolding entry_closure definitions_of release_tools
requirements_of catalog release none = record { daily_brief = false; tools = [] }
requirements_of catalog release (some version) =
    release_tools (definitions_of catalog (entry_closure catalog release version))
      (record { daily_brief = false; tools = [] })
