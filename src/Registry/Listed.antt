-- ===== src/Registry/Listed.antt =====
-- A subset lists the wanted ones of the tools that its registry was given.
use gonesis.Prelude.{
  Text, text_eq_refl, some, List, [], ◌∷◌, ◌++◌, if◌then◌else◌, Bool-cases, ◌≡◌, inl, inr, refl,
  sym, ap, ◌∙◌, map, append-nil, append_assoc,
}
use mathlib.Core.Path.{subst}
use gonesis.Dict.{Dict, lookup, insert}
use gonesis.Dict.Laws.{lookup-insert}
use gonesis.Provider.{ToolInfo}
use gonesis.Registry.{
  Tool, Registry, is_wanted, add, new_registry, list_tools, copy_tool, subset_from, subset,
}
use gonesis.Registry.Subset.{
  HasTools, HasTools-insert, HasTools-append, add-HasTools, add-order, definitions-names,
}

-- The names of a list that are wanted
unfoldable pub wanted : List Text → List Text → List Text
wanted names [] = []
wanted names (n ∷ order) =
    let rest = wanted names order in if is_wanted names n then n ∷ rest else rest

module _ {W : Type 0} where
  HasTools-put :
      (tools : Dict (Tool W)) (t : Tool W) (name : Text) (names : List Text)
      → t.definition.name ≡ name
      → HasTools tools names
      → HasTools (insert name t tools) (names ++ name ∷ [])
  HasTools-put tools t name names named h =
      let last : lookup name (insert name t tools) ≡ some t =
        lookup-insert name name t tools ∙ rw (text_eq_refl name) refl in
      HasTools-append (insert name t tools) names name
        (subst (λ n. HasTools (insert n t tools) names) named (HasTools-insert tools t names h))
        ((t, last, named), tt)

  abbrev order_of : Registry W → List Text
  order_of r = r.order

  subset_from-HasTools :
      (r : Registry W) (names order : List Text) (sub : Registry W)
      → HasTools (r.tools) order
      → HasTools (sub.tools) (sub.order)
      → let s = subset_from r names order sub in
        HasTools (s.tools) (s.order) × (s.order ≡ sub.order ++ wanted names order)
  unfolding subset_from copy_tool wanted
  subset_from-HasTools r names [] sub h k = (k, sym (append-nil (sub.order)))
  subset_from-HasTools r names (name ∷ order) sub ((t, found, named), others) k =
      elim (Bool-cases (is_wanted names name)) [
        | inr e ↦ rw (e, subset_from) (subset_from-HasTools r names order sub others k)
        | inl e ↦
            let put : Registry W = record {
              tools = insert name t (sub.tools);
              order = sub.order ++ name ∷ [];
            } in
            let (has, same) =
              subset_from-HasTools r names order put others
                (HasTools-put (sub.tools) t name (sub.order) named k) in
            rw (e, found, subset_from, copy_tool)
              (has, same ∙ append_assoc (sub.order) (name ∷ []) (wanted names order))
      ]

  -- A subset of a new registry lists its tools without a panic: those whose names are wanted, in the
  -- order of the registry.
  pub subset-names :
      (ts : List (Tool W)) (names : List Text)
      → (infos : List ToolInfo) × (list_tools (subset (new_registry ts) names) ≡ some infos)
        × (map (λ i. i.name) infos ≡ wanted names (map (λ t. t.definition.name) ts))
  unfolding subset new_registry
  subset-names ts names =
      let empty : Registry W = record { tools = []; order = [] } in
      let r = add empty ts in
      let (has, order) =
        subset_from-HasTools r names (r.order) empty (add-HasTools empty ts tt) tt in
      let s = subset_from r names (r.order) empty in
      let (infos, listed, same) = definitions-names (s.tools) (s.order) has in
      (infos, listed, same ∙ order ∙ ap (wanted names) (add-order empty ts))
