-- ===== src/Runtime/Scopes.antt =====
-- `assertPluginReferencesValid` (packages/runtime/src/compiler.ts): what the accepted manifests ask of
-- Plugins is declared there.
use agent_builder.Common.{
  >>=-parts, ℕ, ◌≡◌, ◌≤◌, refl, sym, ap, false, List, [], Option, none, some, ok, ◌==◌, All,
  All-map, find_first, arith,
}
use agent_builder.Runtime.Manifest.{
  Pin, ToolReference, named, plugin_tool, Limit, number, other_value, Effect, read, write,
  destructive, Capability, Scope, Spec, skill, agent, plugin, plugin_pack, plugin_source, roadmap,
  other_spec, Manifest,
}
use agent_builder.Runtime.Compiler.{
  pin_key, find_version, plugin_capabilities, capabilities_of, found_tool, assert_tool, limit_named,
  broadens, broadens_declared, assert_scope, assert_tool_reference, read_only,
  assert_spec_references, assert_plugin_references_valid, index_versions,
}
use agent_builder.Runtime.Checks.{each, refuse, each-All, refuse-false, ok_inj}

-- A limit that is a number is declared, and as large there.
abbrev pub IsDeclared : Capability → ℕ × Limit → Type 0
IsDeclared c (name, other_value) = Unit
IsDeclared c (name, number requested) =
    (label : ℕ) × (most : ℕ) × (limit_named name c.limits ≡ some (label, number most))
    × (requested ≤ most)

narrow :
    (requested : ℕ) (o : Option (ℕ × Limit))
    → broadens_declared requested o ≡ false
    → (label : ℕ) × (most : ℕ) × (o ≡ some (label, number most)) × (requested ≤ most)
narrow requested none e = absurd (ground arith)
narrow requested (some (name, other_value)) e = absurd (ground arith)
narrow requested (some (name, number most)) e = (name, most, refl, ground arith)

broadens-IsDeclared : (c : Capability) (l : ℕ × Limit) → broadens c l ≡ false → IsDeclared c l
broadens-IsDeclared c (name, other_value) e = tt
broadens-IsDeclared c (name, number requested) e = narrow requested (limit_named name c.limits) e

spec-plugin : (s : Spec) (cs : List Capability) → plugin_capabilities s ≡ ok cs → s ≡ plugin cs
spec-plugin (plugin declared) cs e = ap plugin (sym (ok_inj cs declared e))
spec-plugin (skill inputs outputs tools) cs e = absurd cc
spec-plugin (agent tools) cs e = absurd cc
spec-plugin (plugin_pack entries) cs e = absurd cc
spec-plugin (plugin_source reference capability) cs e = absurd cc
spec-plugin (roadmap definitions relations) cs e = absurd cc
spec-plugin other_spec cs e = absurd cc

capabilities-plugin :
    (o : Option Manifest) (cs : List Capability)
    → capabilities_of o ≡ ok cs
    → (m : Manifest) × (o ≡ some m) × (m.spec ≡ plugin cs)
capabilities-plugin none cs e = absurd cc
capabilities-plugin (some m) cs e = (m, refl, spec-plugin m.spec cs e)

found_tool-some : (o : Option Capability) (c : Capability) → found_tool o ≡ ok c → o ≡ some c
found_tool-some none c e = absurd cc
found_tool-some (some d) c e = cc

effect-read : (e : Effect) → read_only e ≡ ok tt → e ≡ read
effect-read read h = refl
effect-read write h = absurd cc
effect-read destructive h = absurd cc

module _ (lower : ℕ → ℕ) where
  -- The manifest of a pin is a Plugin, which declares the tool.
  pub record IsTool (ms : List Manifest) (reference : Pin) (tool : ℕ) (c : Capability)
      : Type 0 where
    pub target : Manifest
    pub capabilities : List Capability
    pub found : find_version lower (pin_key lower reference) ms ≡ some target
    pub is_plugin : target.spec ≡ plugin capabilities
    pub declared : find_first (λ d. d.tool == tool) capabilities ≡ some c

  assert_tool-IsTool :
      (ms : List Manifest) (reference : Pin) (tool : ℕ) (c : Capability)
      → assert_tool lower ms reference tool ≡ ok c
      → IsTool ms reference tool c
  unfolding assert_tool
  assert_tool-IsTool ms reference tool c e =
      let (cs, listed, rest) =
        >>=-parts (capabilities_of (find_version lower (pin_key lower reference) ms)) _ c e in
      let (m, found, spec) =
        capabilities-plugin (find_version lower (pin_key lower reference) ms) cs listed in
      record {
        target = m;
        capabilities = cs;
        found = found;
        is_plugin = spec;
        declared = found_tool-some (find_first (λ d. d.tool == tool) cs) c rest;
      }

  -- What a specification asks of Plugins is declared: a tool that is used, every scope of a pack with
  -- its limits, and a read-only tool of a knowledge source.
  abbrev pub IsDeclaredTool : List Manifest → ToolReference → Type 0
  IsDeclaredTool ms named = Unit
  IsDeclaredTool ms (plugin_tool reference tool) = (c : Capability) × IsTool ms reference tool c

  abbrev pub IsDeclaredScope : List Manifest → Pin → Scope → Type 0
  IsDeclaredScope ms reference s =
      (c : Capability) × IsTool ms reference s.tool c × All (IsDeclared c) s.limits

  abbrev pub AsksDeclared : List Manifest → Spec → Type 0
  AsksDeclared ms (plugin_pack entries) =
      All (λ e. All (IsDeclaredScope ms e.plugin) e.default_scopes) entries
  AsksDeclared ms (plugin_source reference tool) =
      (c : Capability) × IsTool ms reference tool c × (c.effect ≡ read)
  AsksDeclared ms (skill inputs outputs tools) = All (IsDeclaredTool ms) tools
  AsksDeclared ms (agent tools) = All (IsDeclaredTool ms) tools
  AsksDeclared ms (plugin capabilities) = Unit
  AsksDeclared ms (roadmap definitions relations) = Unit
  AsksDeclared ms other_spec = Unit

  scope-IsDeclared :
      (ms : List Manifest) (reference : Pin) (s : Scope)
      → assert_scope lower ms reference s ≡ ok tt
      → IsDeclaredScope ms reference s
  scope-IsDeclared ms reference s e =
      let (c, found, rest) = >>=-parts (assert_tool lower ms reference s.tool) _ tt e in
      (
        c,
        assert_tool-IsTool ms reference s.tool c found,
        All-map (λ l. refuse (broadens c l) "broadens" ≡ ok tt) (IsDeclared c) s.limits
            (λ l q. broadens-IsDeclared c l (refuse-false (broadens c l) "broadens" q))
            (each-All _ s.limits rest),
      )

  tool-IsDeclared :
      (ms : List Manifest) (t : ToolReference)
      → assert_tool_reference lower ms t ≡ ok tt
      → IsDeclaredTool ms t
  tool-IsDeclared ms named e = tt
  tool-IsDeclared ms (plugin_tool reference tool) e =
      let (c, found, rest) = >>=-parts (assert_tool lower ms reference tool) _ tt e in
      (c, assert_tool-IsTool ms reference tool c found)

  tools-AreDeclared :
      (ms : List Manifest) (tools : List ToolReference)
      → each (assert_tool_reference lower ms) tools ≡ ok tt
      → All (IsDeclaredTool ms) tools
  tools-AreDeclared ms tools e =
      All-map (λ t. assert_tool_reference lower ms t ≡ ok tt) (IsDeclaredTool ms) tools
        (tool-IsDeclared ms) (each-All _ tools e)

  spec-AsksDeclared :
      (ms : List Manifest) (s : Spec)
      → assert_spec_references lower ms s ≡ ok tt
      → AsksDeclared ms s
  unfolding assert_spec_references
  spec-AsksDeclared ms (plugin_pack entries) e =
      All-map (λ x. each (assert_scope lower ms x.plugin) x.default_scopes ≡ ok tt)
        (λ x. All (IsDeclaredScope ms x.plugin) x.default_scopes) entries
        (λ x q.
          All-map (λ s. assert_scope lower ms x.plugin s ≡ ok tt) (IsDeclaredScope ms x.plugin)
            x.default_scopes (scope-IsDeclared ms x.plugin) (each-All _ x.default_scopes q))
        (each-All _ entries e)
  spec-AsksDeclared ms (plugin_source reference tool) e =
      let (c, found, rest) = >>=-parts (assert_tool lower ms reference tool) _ tt e in
      (c, assert_tool-IsTool ms reference tool c found, effect-read c.effect rest)
  spec-AsksDeclared ms (skill inputs outputs tools) e = tools-AreDeclared ms tools e
  spec-AsksDeclared ms (agent tools) e = tools-AreDeclared ms tools e
  spec-AsksDeclared ms (plugin capabilities) e = tt
  spec-AsksDeclared ms (roadmap definitions relations) e = tt
  spec-AsksDeclared ms other_spec e = tt

  -- Where the references of the manifests are accepted, each manifest asks only what a Plugin among
  -- them declares: the tools that it uses, the scopes of a pack with no limit above the declared one,
  -- and for a knowledge source a tool that only reads.
  pub assert_plugin_references_valid-AsksDeclared :
      (ms : List Manifest)
      → assert_plugin_references_valid lower ms ≡ ok tt
      → All (λ m. AsksDeclared ms m.spec) ms
  unfolding assert_plugin_references_valid
  assert_plugin_references_valid-AsksDeclared ms e =
      let (keys, indexed, rest) = >>=-parts (index_versions lower [] ms) _ tt e in
      All-map (λ m. assert_spec_references lower ms m.spec ≡ ok tt) (λ m. AsksDeclared ms m.spec) ms
        (λ m. spec-AsksDeclared ms m.spec) (each-All _ ms rest)
