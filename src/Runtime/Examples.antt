-- ===== src/Runtime/Examples.antt =====
-- Small manifests, on which the theorems about the compiler (packages/runtime/src/compiler.ts) are used.
use agent_builder.Common.{ℕ, ◌≡◌, ◌↔◌, refl, [], ◌∷◌, ok, err, All}
use agent_builder.Runtime.Manifest.{Pin, Manifest, agent, plugin_tool, plugin, read}
use agent_builder.Runtime.Compiler.{
  find_version, assert_tool, assert_spec_references, assert_acyclic_dependencies, index_versions,
  assert_dependencies, assert_plugin_references_valid, search_versions,
}
use agent_builder.Runtime.Scopes.{AsksDeclared, assert_plugin_references_valid-AsksDeclared}
use agent_builder.Runtime.Acyclic.{AreChecked, IsAcyclic, assert_acyclic_dependencies-IsAcyclic}

abbrev pin : ℕ → Pin
pin family = record { family = family; version = 1 }

abbrev mail : Manifest
mail = record {
  id = 1;
  version = 1;
  slug = "mail";
  dependencies = [];
  spec = plugin (record { tool = 7; effect = read; limits = [] } ∷ []);
}

abbrev helper : ℕ → Manifest
helper needed = record {
  id = 2;
  version = 1;
  slug = "helper";
  dependencies = pin needed ∷ [];
  spec = agent (plugin_tool (pin 1) 7 ∷ []);
}

abbrev same : ℕ → ℕ
same n = n

two : AreChecked same (mail ∷ helper 1 ∷ [])
unfolding index_versions find_version assert_dependencies assert_tool assert_spec_references
    assert_plugin_references_valid
two = record { indexed = refl; resolved = refl; plugins = refl }

accepted : assert_acyclic_dependencies same (mail ∷ helper 1 ∷ []) ≡ ok tt
unfolding assert_acyclic_dependencies index_versions assert_dependencies find_version assert_tool
    assert_spec_references assert_plugin_references_valid search_versions
accepted = refl

refused : assert_acyclic_dependencies same (mail ∷ helper 2 ∷ []) ≡ err "Resource dependency cycle"
unfolding assert_acyclic_dependencies index_versions assert_dependencies find_version assert_tool
    assert_spec_references assert_plugin_references_valid search_versions
refused = refl

assert_acyclic_dependencies-IsAcyclic_example :
    (assert_acyclic_dependencies same (mail ∷ helper 1 ∷ []) ≡ ok tt)
    ↔ IsAcyclic same (mail ∷ helper 1 ∷ [])
assert_acyclic_dependencies-IsAcyclic_example =
    assert_acyclic_dependencies-IsAcyclic same (mail ∷ helper 1 ∷ []) two

assert_plugin_references_valid-AsksDeclared_example :
    All (λ m. AsksDeclared same (mail ∷ helper 1 ∷ []) m.spec) (mail ∷ helper 1 ∷ [])
assert_plugin_references_valid-AsksDeclared_example =
    assert_plugin_references_valid-AsksDeclared same (mail ∷ helper 1 ∷ []) two.plugins
