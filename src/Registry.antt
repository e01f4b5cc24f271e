-- ===== src/Registry.antt =====
-- pkg/provider/tool/registry.go: the tools of an agent and the executor that dispatches to them. What
-- a tool does is a parameter of it.
pub mod Subset
pub mod Listed
mod Tests
use gonesis.Prelude.{
  Text, codes, text_eq, Bool, true, false, ◌||◌, Option, none, some, List, [], ◌∷◌, ◌++◌,
  if◌then◌else◌,
}
use gonesis.Dict.{Dict, lookup, insert, has_key}
use gonesis.Provider.{Bytes, ToolCall, ToolInfo, ExecError}

-- `Tool`: its definition and `Execute`.
pub record Tool (W : Type 0) : Type 0 where
  pub definition : ToolInfo
  pub execute : List (Bytes × Bytes) → W → (Text × Option ExecError) × W

pub record Registry (W : Type 0) : Type 0 where
  pub tools : Dict (Tool W)
  pub order : List Text

-- The set of names that `Subset` builds.
unfoldable pub is_wanted : List Text → Text → Bool
is_wanted [] name = false
is_wanted (n ∷ names) name = text_eq n name || is_wanted names name

pub unknown_tool : Text → Text
unknown_tool name = codes "{\"error\": \"unknown tool: " ++ name ++ codes "\"}"

module _ {W : Type 0} where
  unfoldable pub add_tool : Registry W → Tool W → Registry W
  add_tool r t = record {
    tools = insert t.definition.name t r.tools;
    order = r.order ++ t.definition.name ∷ [];
  }

  -- `Add`
  unfoldable pub add : Registry W → List (Tool W) → Registry W
  add r [] = r
  add r (t ∷ ts) = add (add_tool r t) ts

  -- `NewRegistry`
  pub new_registry : List (Tool W) → Registry W
  new_registry ts = add (record { tools = []; order = [] }) ts

  -- The definitions behind the names of an order; `none` is the panic on a name without a tool.
  unfoldable pub definitions : Dict (Tool W) → List Text → Option (List ToolInfo)
  definitions tools [] = some []
  definitions tools (name ∷ names) = elim (lookup name tools) [
    | none ↦ none
    | some t ↦ elim (definitions tools names) [
      | none ↦ none
      | some infos ↦ some (t.definition ∷ infos)
    ]
  ]

  -- `Tools`
  abbrev pub list_tools : Registry W → Option (List ToolInfo)
  list_tools r = definitions r.tools r.order

  -- `Subset`, whose loop visits the names of the order; a name without a tool gives a nil tool in Go,
  -- and no entry here.
  unfoldable pub copy_tool : Text → Option (Tool W) → Dict (Tool W) → Dict (Tool W)
  copy_tool name none tools = tools
  copy_tool name (some t) tools = insert name t tools

  unfoldable pub subset_from : Registry W → List Text → List Text → Registry W → Registry W
  subset_from r names [] sub = sub
  subset_from r names (name ∷ order) sub = elim (is_wanted names name) [
    | false ↦ subset_from r names order sub
    | true ↦ subset_from r names order (record {
      tools = copy_tool name (lookup name r.tools) sub.tools;
      order = sub.order ++ name ∷ [];
    })
  ]

  pub subset : Registry W → List Text → Registry W
  subset r names = subset_from r names r.order (record { tools = []; order = [] })

  unfoldable pub run_found : ToolCall → W → Option (Tool W) → (Text × Option ExecError) × W
  run_found tc w none = ((unknown_tool tc.name, none), w)
  run_found tc w (some t) = t.execute tc.args w

  -- `Executor`
  pub executor : Registry W → ToolCall → W → (Text × Option ExecError) × W
  unfolding run_found
  executor r tc w = run_found tc w (lookup tc.name r.tools)
