-- ===== src/Registry/Subset.antt =====
-- A registry lists each tool it was given, and a subset runs the wanted tools alone.
use gonesis.Prelude.{
  Text, text_eq, text_eq_iff, text_eq_refl, Bool, true, false, ◌||◌, ◌&&◌, Option, none, some, List,
  [], ◌∷◌, ◌++◌, if◌then◌else◌, Bool-cases, ◌≡◌, inl, inr, refl, sym, ap, ap₂, ◌∙◌, arith, map,
  append-nil, append_assoc,
}
use gonesis.Dict.{Dict, lookup, insert}
use gonesis.Dict.Laws.{lookup-insert}
use gonesis.Provider.{ToolCall, ToolInfo}
use gonesis.Registry.{
  Tool, Registry, is_wanted, add_tool, add, new_registry, definitions, list_tools, copy_tool,
  subset_from, subset, unknown_tool, executor, run_found,
}

module _ {W : Type 0} where
  -- Every name of the order has a tool, and a tool stands under its own name.
  abbrev pub HasTools : Dict (Tool W) → List Text → Type 0
  HasTools tools [] = Unit
  HasTools tools (name ∷ names) =
      ((t : Tool W) × (lookup name tools ≡ some t) × (t.definition.name ≡ name))
      × HasTools tools names

  pub HasTools-insert :
      (tools : Dict (Tool W)) (t : Tool W) (names : List Text)
      → HasTools tools names
      → HasTools (insert t.definition.name t tools) names
  HasTools-insert tools t [] h = tt
  HasTools-insert tools t (name ∷ names) ((u, found, named), others) =
      (kept (text_eq t.definition.name name) refl, HasTools-insert tools t names others)
    where
      kept :
          (b : Bool)
          → text_eq t.definition.name name ≡ b
          → (v : Tool W) × (lookup name (insert t.definition.name t tools) ≡ some v)
            × (v.definition.name ≡ name)
      kept true e = (
        t,
        lookup-insert t.definition.name name t tools ∙ rw e refl,
        (text_eq_iff t.definition.name name).0 e,
      )
      kept false e = (u, lookup-insert t.definition.name name t tools ∙ rw e found, named)

  pub HasTools-append :
      (tools : Dict (Tool W)) (names : List Text) (name : Text)
      → HasTools tools names
      → HasTools tools (name ∷ [])
      → HasTools tools (names ++ name ∷ [])
  HasTools-append tools [] name h last = last
  HasTools-append tools (n ∷ names) name (first, h) last =
      (first, HasTools-append tools names name h last)

  pub add-HasTools :
      (r : Registry W) (ts : List (Tool W))
      → HasTools r.tools r.order
      → HasTools (add r ts).tools (add r ts).order
  unfolding add add_tool
  add-HasTools r [] h = h
  add-HasTools r (t ∷ ts) h = add-HasTools (add_tool r t) ts (
      HasTools-append _ r.order t.definition.name (HasTools-insert r.tools t r.order h) (
        (
          t,
          lookup-insert t.definition.name t.definition.name t r.tools
              ∙ rw (text_eq_refl t.definition.name) refl,
          refl,
        ),
        tt,
      ))

  pub add-order :
      (r : Registry W) (ts : List (Tool W))
      → (add r ts).order ≡ r.order ++ map (λ t. t.definition.name) ts
  unfolding add add_tool
  add-order r [] = sym (append-nil r.order)
  add-order r (t ∷ ts) =
      add-order (add_tool r t) ts ∙ append_assoc r.order (t.definition.name ∷ []) _

  pub definitions-names :
      (tools : Dict (Tool W)) (names : List Text)
      → HasTools tools names
      → (infos : List ToolInfo) × (definitions tools names ≡ some infos)
        × (map (λ i. i.name) infos ≡ names)
  unfolding definitions
  definitions-names tools [] h = ([], refl, refl)
  definitions-names tools (name ∷ names) ((t, found, named), others) =
      let (infos, listed, same) = definitions-names tools names others in
      (t.definition ∷ infos, rw (found, listed, definitions) refl, ap₂ ◌∷◌ named same)

  -- A new registry lists its tools without a panic: one definition for each tool it was given, of
  -- that name, in their order.
  pub new_registry-names :
      (ts : List (Tool W))
      → (infos : List ToolInfo) × (list_tools (new_registry ts) ≡ some infos)
        × (map (λ i. i.name) infos ≡ map (λ t. t.definition.name) ts)
  unfolding new_registry
  new_registry-names ts =
      let empty : Registry W = record { tools = []; order = [] } in
      let (infos, listed, same) =
        definitions-names (add empty ts).tools (add empty ts).order (add-HasTools empty ts tt) in
      (infos, listed, same ∙ add-order empty ts)

  subset_from-lookup :
      (r : Registry W) (names order : List Text) (sub : Registry W) (n : Text)
      → HasTools r.tools order
      → lookup n (subset_from r names order sub).tools
        ≡ (if is_wanted names n && is_wanted order n then lookup n r.tools else lookup n sub.tools)
  unfolding subset_from is_wanted copy_tool
  subset_from-lookup r names [] sub n h = ground arith
  subset_from-lookup r names (name ∷ order) sub n ((t, found, named), others) =
      elim (Bool-cases (is_wanted names name)) [
        | inl wanted ↦
            rw (wanted, found, subset_from, copy_tool)
              (subset_from-lookup r names order _ n others
                ∙ go_on wanted (lookup-insert name n t sub.tools))
        | inr unwanted ↦
            rw (unwanted, subset_from)
              (subset_from-lookup r names order sub n others ∙ skip unwanted)
      ]
    where
      same_name : text_eq name n ≡ true → is_wanted names name ≡ is_wanted names n
      same_name e = ap (is_wanted names) ((text_eq_iff name n).0 e)

      same_tool : text_eq name n ≡ true → lookup n r.tools ≡ some t
      same_tool e = ap (λ k. lookup k r.tools) (sym ((text_eq_iff name n).0 e)) ∙ found

      skip :
          is_wanted names name ≡ false
          → (if is_wanted names n && is_wanted order n
              then lookup n r.tools
              else lookup n sub.tools)
            ≡ (if is_wanted names n && (text_eq name n || is_wanted order n)
                then lookup n r.tools
                else lookup n sub.tools)
      skip unwanted = elim (Bool-cases (text_eq name n)) [
        | inl e ↦ rw (sym (same_name e), unwanted) refl
        | inr e ↦ rw e refl
      ]

      go_on :
          is_wanted names name ≡ true
          → lookup n (insert name t sub.tools)
            ≡ (if text_eq name n then some t else lookup n sub.tools)
          → (if is_wanted names n && is_wanted order n
              then lookup n r.tools
              else lookup n (insert name t sub.tools))
            ≡ (if is_wanted names n && (text_eq name n || is_wanted order n)
                then lookup n r.tools
                else lookup n sub.tools)
      go_on wanted inserted = elim (Bool-cases (text_eq name n)) [
        | inl e ↦ ground (arith, e, inserted, sym (same_name e) ∙ wanted, same_tool e)
        | inr e ↦ ground (arith, e, inserted)
      ]

  run_found-if :
      (tc : ToolCall) (w : W) (b : Bool) (o : Option (Tool W))
      → run_found tc w (if b then o else none)
        ≡ (if b then run_found tc w o else ((unknown_tool tc.name, none), w))
  unfolding run_found
  run_found-if tc w true o = refl
  run_found-if tc w false o = refl

  -- The executor of a subset runs the tools that are wanted and that the registry was given, as the
  -- registry's executor does; any other call is answered with the unknown-tool error.
  pub executor-subset :
      (ts : List (Tool W)) (names : List Text) (tc : ToolCall) (w : W)
      → let r = new_registry ts in
        executor (subset r names) tc w ≡ (
          if is_wanted names tc.name && is_wanted (map (λ t. t.definition.name) ts) tc.name
          then executor r tc w
          else ((unknown_tool tc.name, none), w))
  unfolding new_registry subset lookup executor
  executor-subset ts names tc w =
      let empty : Registry W = record { tools = []; order = [] } in
      let r = add empty ts in
      let names_of = map (λ (t : Tool W). t.definition.name) ts in
      let found = subset_from-lookup r names r.order empty tc.name (add-HasTools empty ts tt) in
      ap (run_found tc w) found
      ∙ ap
          (λ order. run_found tc w (
            if is_wanted names tc.name && is_wanted order tc.name
            then lookup tc.name r.tools
            else none))
          (add-order empty ts)
      ∙ run_found-if tc w (is_wanted names tc.name && is_wanted names_of tc.name)
          (lookup tc.name r.tools)
