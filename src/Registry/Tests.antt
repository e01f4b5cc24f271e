-- ===== src/Registry/Tests.antt =====
-- Three tools, and a subset of them.
use gonesis.Prelude.{ℕ, suc, Text, codes, ◌&&◌, none, List, [], ◌∷◌, if◌then◌else◌, map, ◌≡◌}
use gonesis.Provider.{ToolCall}
use gonesis.Registry.{Tool, is_wanted, new_registry, subset, unknown_tool, executor}
use gonesis.Registry.Subset.{executor-subset}

-- A tool that answers with its name.
abbrev tool_of : Text → Tool ℕ
tool_of name = record {
  definition = record { name = name; description = [] };
  execute = λ args w. ((name, none), suc w);
}

abbrev three : List (Tool ℕ)
three = tool_of (codes "bash") ∷ tool_of (codes "grep") ∷ tool_of (codes "spawn_agent") ∷ []

abbrev call_grep : ToolCall
call_grep = record { args = []; id = []; name = codes "grep"; thought_signature = [] }

executor-subset_example :
    executor (subset (new_registry three) (codes "grep" ∷ codes "other" ∷ [])) call_grep 0 ≡ (
      if is_wanted (codes "grep" ∷ codes "other" ∷ []) (codes "grep")
        && is_wanted (map (λ t. t.definition.name) three) (codes "grep")
      then executor (new_registry three) call_grep 0
      else ((unknown_tool (codes "grep"), none), 0))
executor-subset_example = executor-subset three (codes "grep" ∷ codes "other" ∷ []) call_grep 0
