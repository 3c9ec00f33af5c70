-- ===== src/Runtime/Manifest.antt =====
-- Resource manifests, as far as the compiler reads them (packages/runtime/src/compiler.ts). The kind
-- of a manifest is the constructor of its specification; what the schemas of a kind accept is taken
-- as parsed.
use agent_builder.Common.{ℕ, String, List, Option}

-- An exact reference to a version of a family.
pub record Pin : Type 0 where
  pub family : ℕ
  pub version : ℕ

-- A tool of a skill or an agent: a name, or a tool of an exact Plugin.
pub data ToolReference : Type 0 where
  named : ToolReference
  plugin_tool : Pin → ℕ → ToolReference

-- The value of a limit: a number, or anything else.
pub data Limit : Type 0 where
  number : ℕ → Limit
  other_value : Limit

pub data Effect : Type 0 where
  read write destructive : Effect

pub record Capability : Type 0 where
  pub tool : ℕ
  pub effect : Effect
  pub limits : List (ℕ × Limit)

pub record Scope : Type 0 where
  pub tool : ℕ
  pub limits : List (ℕ × Limit)

pub record PackEntry : Type 0 where
  pub plugin : Pin
  pub default_scopes : List Scope

-- A declared property of a schema: `maxItems`, where it is declared.
pub record SchemaProperty : Type 0 where
  pub name : String
  pub max_items : Option ℕ

pub data Spec : Type 0 where
  skill : List SchemaProperty → List SchemaProperty → List ToolReference → Spec
  agent : List ToolReference → Spec
  plugin : List Capability → Spec
  plugin_pack : List PackEntry → Spec
  plugin_source : Pin → ℕ → Spec
  roadmap : List Pin → List Pin → Spec
  other_spec : Spec

pub record Manifest : Type 0 where
  pub id : ℕ
  pub version : ℕ
  pub slug : String
  pub dependencies : List Pin
  pub spec : Spec
