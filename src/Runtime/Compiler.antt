-- ===== src/Runtime/Compiler.antt =====
-- The checks of compiled manifests against each other (packages/runtime/src/compiler.ts). Lower case
-- of a family's identifier is a parameter; an error is the beginning of its message.
use agent_builder.Common.{
  ℕ, suc, ltb, Bool, true, false, not, ◌||◌, List, [], ◌∷◌, ◌++◌, map, Option, none, some, Result,
  ok, err, ◌>>=◌, ◌>>◌, ◌==◌, if◌then◌else◌, length, find_first, is_some,
}
use agent_builder.Runtime.Checks.{each, refuse}
use agent_builder.Runtime.Search.{Key, same_key, has, Marks, visit_all, visit}
use agent_builder.Runtime.Manifest.{
  Pin, ToolReference, named, plugin_tool, Limit, number, other_value, Effect, read, write,
  destructive, Capability, Scope, Spec, skill, agent, plugin, plugin_pack, plugin_source, roadmap,
  other_spec, Manifest,
}

-- `new Set(keys).size !== keys.length`.
abbrev pub has_duplicates : List Key → Bool
has_duplicates [] = false
has_duplicates (k ∷ ks) = has k ks || has_duplicates ks

abbrev pub no_marks : Marks
no_marks = record { visiting = []; visited = [] }

-- `resolvePlugin`, `assertTool`.
abbrev pub plugin_capabilities : Spec → Result (List Capability)
plugin_capabilities (plugin capabilities) = ok capabilities
plugin_capabilities (skill inputs outputs tools) = err "references non-Plugin"
plugin_capabilities (agent tools) = err "references non-Plugin"
plugin_capabilities (plugin_pack entries) = err "references non-Plugin"
plugin_capabilities (plugin_source reference capability) = err "references non-Plugin"
plugin_capabilities (roadmap definitions relations) = err "references non-Plugin"
plugin_capabilities other_spec = err "references non-Plugin"

abbrev pub capabilities_of : Option Manifest → Result (List Capability)
capabilities_of none = err "references non-Plugin"
capabilities_of (some m) = plugin_capabilities m.spec

abbrev pub found_tool : Option Capability → Result Capability
found_tool none = err "references unknown Plugin tool"
found_tool (some c) = ok c

-- A limit of a pack is not broader than the capability's.
abbrev pub limit_named : ℕ → List (ℕ × Limit) → Option (ℕ × Limit)
limit_named name limits = find_first (λ l. l.0 == name) limits

abbrev pub broadens_declared : ℕ → Option (ℕ × Limit) → Bool
broadens_declared requested none = true
broadens_declared requested (some (name, other_value)) = true
broadens_declared requested (some (name, number declared)) = ltb declared requested

abbrev pub broadens : Capability → ℕ × Limit → Bool
broadens c (name, other_value) = false
broadens c (name, number requested) = broadens_declared requested (limit_named name c.limits)

abbrev pub read_only : Effect → Result (Unit {0})
read_only read = ok tt
read_only write = err "must reference a read-only Plugin tool"
read_only destructive = err "must reference a read-only Plugin tool"

abbrev pub assert_read_only : Capability → Result (Unit {0})
assert_read_only c = read_only c.effect

module _ (lower : ℕ → ℕ) where
  abbrev pub resource_version_key : ℕ → ℕ → Key
  resource_version_key family version = record { family = lower family; version = version }

  abbrev pub pin_key : Pin → Key
  pin_key p = resource_version_key p.family p.version

  abbrev pub manifest_key : Manifest → Key
  manifest_key m = resource_version_key m.id m.version

  abbrev pub dependency_keys : Manifest → List Key
  dependency_keys m = map pin_key m.dependencies

  -- `byVersion`: its keys in the order of insertion, and its lookup.
  unfoldable pub index_versions : List Key → List Manifest → Result (List Key)
  index_versions seen [] = ok seen
  index_versions seen (m ∷ ms) =
      let rest = index_versions (seen ++ (manifest_key m ∷ [])) ms in
      if has (manifest_key m) seen then err "Duplicate resource version" else rest

  unfoldable pub find_version : Key → List Manifest → Option Manifest
  find_version k ms = find_first (λ m. same_key (manifest_key m) k) ms

  unfoldable pub assert_tool : List Manifest → Pin → ℕ → Result Capability
  unfolding find_version
  assert_tool ms reference tool =
      capabilities_of (find_version (pin_key reference) ms) >>= λ capabilities.
      found_tool (find_first (λ c. c.tool == tool) capabilities)

  abbrev pub assert_scope : List Manifest → Pin → Scope → Result (Unit {0})
  assert_scope ms reference scope = assert_tool ms reference scope.tool >>= λ c.
      each (λ l. refuse (broadens c l) "broadens") scope.limits

  abbrev pub assert_tool_reference : List Manifest → ToolReference → Result (Unit {0})
  assert_tool_reference ms named = ok tt
  assert_tool_reference ms (plugin_tool reference tool) =
      assert_tool ms reference tool >>= λ c. ok tt

  unfoldable pub assert_spec_references : List Manifest → Spec → Result (Unit {0})
  assert_spec_references ms (plugin_pack entries) =
      each (λ e. each (assert_scope ms e.plugin) e.default_scopes) entries
  assert_spec_references ms (plugin_source reference capability) =
      assert_tool ms reference capability >>= assert_read_only
  assert_spec_references ms (skill inputs outputs tools) = each (assert_tool_reference ms) tools
  assert_spec_references ms (agent tools) = each (assert_tool_reference ms) tools
  assert_spec_references ms (plugin capabilities) = ok tt
  assert_spec_references ms (roadmap definitions relations) = ok tt
  assert_spec_references ms other_spec = ok tt

  unfoldable pub assert_plugin_references_valid : List Manifest → Result (Unit {0})
  unfolding index_versions assert_spec_references
  assert_plugin_references_valid ms =
      index_versions [] ms >>= λ keys. each (λ m. assert_spec_references ms m.spec) ms

  -- No dependency twice, and each one among the manifests.
  unfoldable pub assert_dependencies : List Manifest → Manifest → Result (Unit {0})
  unfolding find_version
  assert_dependencies ms m =
      refuse (has_duplicates (dependency_keys m)) "Duplicate exact dependency"
      >> each
          (λ k. refuse (not (is_some (find_version k ms))) "Unresolved exact resource dependency")
          (dependency_keys m)

  -- `manifest?.dependencies ?? []`, as keys.
  abbrev pub edges_of : Option Manifest → List Key
  edges_of none = []
  edges_of (some m) = dependency_keys m

  unfoldable pub dependencies_of : List Manifest → Key → List Key
  unfolding find_version
  dependencies_of ms k = edges_of (find_version k ms)

  -- The search from each key, with fuel for a path through all of them.
  unfoldable pub search_versions : List Manifest → List Key → Result Marks
  unfolding dependencies_of visit
  search_versions ms keys = visit_all (visit (dependencies_of ms) (suc (length keys))) keys no_marks

  unfoldable pub assert_acyclic_dependencies : List Manifest → Result (Unit {0})
  assert_acyclic_dependencies ms = index_versions [] ms >>= λ keys.
      each (assert_dependencies ms) ms >>= λ _.
      assert_plugin_references_valid ms >>= λ _. search_versions ms keys >>= λ marks. ok tt
