-- ===== src/Tools/Spawn/Offered.antt =====
-- The tool set that the loop of a subagent gets when no list of tools is asked for.
use gonesis.Prelude.{
  ℕ, Text, codes, text_eq_sym, true, false, not, Option, none, some, List, [], ◌∷◌, if◌then◌else◌,
  All, map, Bool-cases, ◌≡◌, inl, inr, refl, sym, ap, ◌∙◌, arith, text_eq_refl,
}
use mathlib.Core.Path.{subst}
use gonesis.Provider.{Bytes, ToolCall, ToolInfo, ExecError}
use gonesis.Registry.{
  Tool, Registry, is_wanted, new_registry, list_tools, subset, executor, unknown_tool,
}
use gonesis.Registry.Subset.{executor-subset, new_registry-names}
use gonesis.Registry.Listed.{wanted, subset-names}
use gonesis.Tools.Subagent.{is_excluded, inherited, child_of, child_registry, is_wanted-inherited}
use gonesis.Tools.Spawn.{ToolSet, child_of_parent, child_tool_set}

abbrev pub reserved : List Text
reserved = codes "spawn_agent" ∷ codes "todo_create" ∷ codes "todo_update" ∷ []

is_excluded-reserved : (name : Text) → is_excluded name ≡ is_wanted reserved name
unfolding is_excluded is_wanted
is_excluded-reserved name =
    rw
      (
        text_eq_sym name (codes "spawn_agent"),
        text_eq_sym name (codes "todo_create"),
        text_eq_sym name (codes "todo_update"),
      )
      (ground arith)

-- The names without the reserved ones
unfoldable pub kept_names : List Text → List Text
unfolding is_wanted
kept_names [] = []
kept_names (n ∷ names) =
    let rest = kept_names names in if is_wanted reserved n then rest else n ∷ rest

AreWanted : List Text → List Text → Type 0
AreWanted names = All (λ n. is_wanted names n ≡ true)

AreWanted-cons :
    (m : Text) (names order : List Text) → AreWanted names order → AreWanted (m ∷ names) order
unfolding AreWanted is_wanted
AreWanted-cons m names [] h = tt
AreWanted-cons m names (n ∷ order) h = (ground (arith, h.0), AreWanted-cons m names order h.1)

all-AreWanted : (names : List Text) → AreWanted names names
unfolding AreWanted is_wanted
all-AreWanted [] = tt
all-AreWanted (n ∷ names) =
    (rw (text_eq_refl n) refl, AreWanted-cons n names names (all-AreWanted names))

wanted-inherited :
    (infos : List ToolInfo) (order : List Text)
    → AreWanted (map (λ (i : ToolInfo). i.name) infos) order
    → wanted (inherited infos) order ≡ kept_names order
unfolding AreWanted wanted kept_names
wanted-inherited infos [] h = refl
wanted-inherited infos (n ∷ order) h =
    let here : is_wanted (inherited infos) n ≡ not (is_wanted reserved n) =
      is_wanted-inherited infos n ∙ rw (h.0) (ap not (is_excluded-reserved n)) in
    rw (here, wanted-inherited infos order h.1)
      (elim (Bool-cases (is_wanted reserved n)) [
        | inl e ↦ ground (arith, e)
        | inr e ↦ ground (arith, e)
      ])

-- A tool set of nil has nothing to call; any other answers a call of a reserved name with the
-- unknown-tool error, and changes nothing.
abbrev pub Refuses :
    {W : Type 0} → (ToolCall → W → (Text × Option ExecError) × W) → ToolSet W → Type 0
Refuses nil_execute ([], execute) = execute ≡ nil_execute
Refuses {W = W} nil_execute (i ∷ infos, execute) =
    (tc : ToolCall) (w : W)
    → is_wanted reserved (tc.name) ≡ true
    → execute tc w ≡ ((unknown_tool (tc.name), none), w)

child_of_parent-some :
    {W : Type 0} (r child : Registry W)
    → child_registry r none ≡ some child
    → child_of_parent (some r) none ≡ some (some child)
unfolding child_of_parent
child_of_parent-some r child h = ground (arith, h)

child_registry-listed :
    {W : Type 0} (r : Registry W) (infos : List ToolInfo)
    → list_tools r ≡ some infos
    → child_registry r none ≡ some (subset r (inherited infos))
unfolding child_registry child_of
child_registry-listed r infos h = ap (child_of r) h

module _ {W : Type 0} (nil_execute : ToolCall → W → (Text × Option ExecError) × W)
    (schedule : ℕ → W → List ℕ) (parent_cb : Option (Text → Bytes → Text → W → W)) where
  abbrev set_of : Option (Registry W) → Option (ToolSet W)
  set_of = child_tool_set nil_execute schedule parent_cb

  listed-Refuses :
      (child : Registry W) (infos : List ToolInfo)
      → list_tools child ≡ some infos
      → ((tc : ToolCall) (w : W)
          → is_wanted reserved (tc.name) ≡ true
          → executor child tc w ≡ ((unknown_tool (tc.name), none), w))
      → (tools : ToolSet W) × (set_of (some child) ≡ some tools)
        × (tools.0 ≡ infos)
        × Refuses nil_execute tools
  unfolding child_tool_set
  listed-Refuses child [] listed refuses =
      (([], nil_execute), rw (listed, child_tool_set) refl, refl, refl)
  listed-Refuses child (i ∷ infos) listed refuses =
      ((i ∷ infos, executor child), rw (listed, child_tool_set) refl, refl, refuses)

  -- A subagent that is spawned without an explicit list of tools, by an agent with a registry of any
  -- tools, gets a tool set that offers the agent's tools in their order, all but spawn_agent and the
  -- two todo tools. If any is left, a call of one of these three runs nothing, and gets the
  -- unknown-tool answer; if none is left, the tool set is nil.
  pub child_tool_set-offered :
      (ts : List (Tool W))
      → (child : Registry W) × (tools : ToolSet W) × (child_of_parent (some (new_registry ts)) none
          ≡ some (some child))
        × (child_tool_set nil_execute schedule parent_cb (some child) ≡ some tools)
        × (map (λ i. i.name) (tools.0) ≡ kept_names (map (λ t. t.definition.name) ts))
        × Refuses nil_execute tools
  child_tool_set-offered ts =
      let names_of = map (λ (t : Tool W). t.definition.name) ts in
      let (parents, listed, same) = new_registry-names ts in
      let child = subset (new_registry ts) (inherited parents) in
      let (infos, offered, names) = subset-names ts (inherited parents) in
      let (tools, given, those, refuses) = listed-Refuses child infos offered (λ tc w h.
        executor-subset ts (inherited parents) tc w
        ∙ (let unwanted : is_wanted (inherited parents) (tc.name) ≡ false =
              is_wanted-inherited parents (tc.name)
              ∙ ground (arith, h, is_excluded-reserved (tc.name)) in
            rw unwanted refl)) in
      (
        child,
        tools,
        child_of_parent-some (new_registry ts) child
            (child_registry-listed (new_registry ts) parents listed),
        given,
        ap (map (λ (i : ToolInfo). i.name)) those
            ∙ names
            ∙ wanted-inherited parents names_of
                (subst (λ ns. AreWanted ns names_of) (sym same) (all-AreWanted names_of)),
        refuses,
      )
