-- ===== src/Tools/Subagent.antt =====
-- pkg/agent/tools/subagent.go: the tools that a subagent gets, and the text that it returns.
use gonesis.Prelude.{
  Text, codes, text_eq, text_eq_iff, Bool, true, false, ◌&&◌, ◌||◌, not, Option, none, some, List,
  [], ◌∷◌, if◌then◌else◌, ◌≡◌, refl, arith, inl, inr, Bool-cases, map,
}
use gonesis.Provider.{Role, user, model, tool, Message, ToolInfo}
use gonesis.Registry.{Registry, is_wanted, list_tools, subset}

-- The names that a subagent without an explicit list does not inherit
unfoldable pub is_excluded : Text → Bool
is_excluded name =
    text_eq name (codes "spawn_agent")
    || text_eq name (codes "todo_create")
    || text_eq name (codes "todo_update")

unfoldable pub inherited : List ToolInfo → List Text
unfolding is_excluded
inherited [] = []
inherited (t ∷ infos) =
    let rest = inherited infos in if is_excluded (t.name) then rest else t.name ∷ rest

-- The child of a parent that lists its tools; `none` is the panic of a name without a tool.
unfoldable pub child_of : {W : Type 0} → Registry W → Option (List ToolInfo) → Option (Registry W)
unfolding inherited
child_of r none = none
child_of r (some infos) = some (subset r (inherited infos))

-- The child's registry, of a parent that has one; `none` in the tools is the omitted list.
unfoldable pub child_registry : {W : Type 0} → Registry W → Option (List Text) → Option (Registry W)
unfolding child_of
child_registry r (some names) = some (subset r names)
child_registry r none = child_of r (list_tools r)

unfoldable pub is_model : Role → Bool
is_model user = false
is_model model = true
is_model tool = false

abbrev pub has_text : Message → Bool
has_text m = is_model (m.role) && not (text_eq (m.content) [])

-- The content of the last message of the model that has one.
unfoldable pub final_text : List Message → Text
unfolding is_model
final_text [] = []
final_text (m ∷ ms) =
    let rest = final_text ms in
    if not (text_eq rest []) then rest else if has_text m then m.content else []

-- The names inherited are those of the parent that are not excluded.
pub is_wanted-inherited :
    (infos : List ToolInfo) (name : Text)
    → is_wanted (inherited infos) name
      ≡ (is_wanted (map (λ (i : ToolInfo). i.name) infos) name && not (is_excluded name))
unfolding is_wanted inherited
is_wanted-inherited [] name = refl
is_wanted-inherited (t ∷ infos) name = elim (Bool-cases (is_excluded (t.name))) [
  | inl e ↦ ground (arith, e, text_eq_iff (t.name) name, is_wanted-inherited infos name)
  | inr e ↦ ground (arith, e, text_eq_iff (t.name) name, is_wanted-inherited infos name)
]
