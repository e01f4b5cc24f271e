-- ===== src/Search/Visible.antt =====
-- The regular files that a walk sees, and that both searches collect from exactly these.
use gonesis.Prelude.{
  ℕ, suc, Text, Bool, true, false, Option, none, some, List, [], ◌∷◌, ◌++◌, append-nil,
  append_assoc, if◌then◌else◌, ◌≡◌, refl, sym, ap, ◌∙◌, inl, inr, Bool-cases,
}
use gonesis.Filepath.{join_path}
use gonesis.Search.Walk.{
  DirEntry, Node, leaf, dir, Nodes, nil, cons, node_name, Step, next, skip_dir, stop, walk_dir,
  walk_entries, continue, into_dir, Walking, called, is_skipped, on_visit, walk,
}

abbrev pub File : Type 0
File = Text × DirEntry

-- Every regular file below a node, but those below a directory in the skip set.
module _ (skip_set : List Text) (walk_root : Text) where
  unfoldable mutual
    pub visible : Text → Node → List File
    visible path (leaf e) = if e.regular then (path, e) ∷ [] else []
    visible path (dir name readable kids) =
        let below = visible_entries path kids in
        if is_skipped skip_set walk_root path name then [] else if readable then below else []

    pub visible_entries : Text → Nodes → List File
    visible_entries path nil = []
    visible_entries path (cons node nodes) =
        visible (join_path path (node_name node)) node ++ visible_entries path nodes

  unfoldable pub visible_files : Option Node → List File
  visible_files none = []
  visible_files (some node) = visible walk_root node

-- What is collected from the files, in their order.
unfoldable pub gather {ℓ} : {A : Type ℓ} → (Text → DirEntry → List A) → List File → List A
gather collect [] = []
gather collect ((path, e) ∷ files) = collect path e ++ gather collect files

gather-append {ℓ} :
    {A : Type ℓ} (collect : Text → DirEntry → List A) (xs ys : List File)
    → gather collect (xs ++ ys) ≡ gather collect xs ++ gather collect ys
unfolding gather
gather-append collect [] ys = refl
gather-append collect ((path, e) ∷ xs) ys =
    ap (λ l. collect path e ++ l) (gather-append collect xs ys)
    ∙ sym (append_assoc (collect path e) (gather collect xs) (gather collect ys))

module _ {A : Type 0} (done : ℕ → Bool) where
  -- What a walk leaves: the items after those that were there, or a context that is done.
  abbrev pub Leaves : List A → List A → Step (Walking A) → Type 0
  Leaves found items (next s) = s.found ≡ found ++ items
  Leaves found items (skip_dir s) = ⊥
  Leaves found items (stop s) = done (s.calls) ≡ true

  continue-Leaves :
      (found xs ys : List A) (r : Step (Walking A)) (rest : Walking A → Step (Walking A))
      → Leaves found xs r
      → ((s : Walking A) → Leaves (s.found) ys (rest s))
      → Leaves found (xs ++ ys) (continue r rest)
  unfolding continue
  continue-Leaves found xs ys (next s) rest h k = more (rest s) (k s)
    where
      more : (r : Step (Walking A)) → Leaves (s.found) ys r → Leaves found (xs ++ ys) r
      more (next t) e = e ∙ ap (λ l. l ++ ys) h ∙ append_assoc found xs ys
      more (skip_dir t) e = e
      more (stop t) e = e
  continue-Leaves found xs ys (skip_dir s) rest h k = absurd h
  continue-Leaves found xs ys (stop s) rest h k = h

module _ {A : Type 0} (done : ℕ → Bool) (skip_set : List Text) (walk_root : Text)
    (collect : Text → DirEntry → List A) where
  mutual
    unfolding walk_dir into_dir on_visit visible gather

    walk_dir-Leaves :
        (path : Text) (node : Node) (s : Walking A)
        → Leaves done
            (s.found)
            (gather collect (visible skip_set walk_root path node))
            (walk_dir (on_visit done skip_set walk_root collect) path node s)
    walk_dir-Leaves path (leaf e) s = elim (Bool-cases (done (s.calls))) [
      | inl d ↦ rw d d
      | inr d ↦ elim (Bool-cases (e.regular)) [
        | inl r ↦ rw (d, r, append-nil)
        | inr r ↦ rw (d, r) (sym (append-nil (s.found)))
      ]
    ]
    walk_dir-Leaves path (dir name true kids) s = elim (Bool-cases (done (s.calls))) [
      | inl d ↦ rw d d
      | inr d ↦ elim (Bool-cases (is_skipped skip_set walk_root path name)) [
        | inl k ↦ rw (d, k) (sym (append-nil (s.found)))
        | inr k ↦ rw (d, k) (walk_entries-Leaves path kids (called s))
      ]
    ]
    walk_dir-Leaves path (dir name false kids) s = elim (Bool-cases (done (s.calls))) [
      | inl d ↦ rw d d
      | inr d ↦ elim (Bool-cases (is_skipped skip_set walk_root path name)) [
        | inl k ↦ rw (d, k) (sym (append-nil (s.found)))
        | inr k ↦ elim (Bool-cases (done (suc (s.calls)))) [
          | inl d₁ ↦ rw (d, k, d₁) d₁
          | inr d₁ ↦ rw (d, k, d₁) (sym (append-nil (s.found)))
        ]
      ]
    ]

    walk_entries-Leaves :
        (path : Text) (nodes : Nodes) (s : Walking A)
        → Leaves done
            (s.found)
            (gather collect (visible_entries skip_set walk_root path nodes))
            (walk_entries (on_visit done skip_set walk_root collect) path nodes s)
    walk_entries-Leaves path nil s = sym (append-nil (s.found))
    walk_entries-Leaves path (cons node nodes) s =
        rw
          (gather-append collect
            (visible skip_set walk_root (join_path path (node_name node)) node))
          (continue-Leaves done (s.found)
            (gather collect (visible skip_set walk_root (join_path path (node_name node)) node))
            (gather collect (visible_entries skip_set walk_root path nodes))
            (walk_dir (on_visit done skip_set walk_root collect) (join_path path (node_name node))
              node s)
            (λ s₁. walk_entries (on_visit done skip_set walk_root collect) path nodes s₁)
            (walk_dir-Leaves (join_path path (node_name node)) node s)
            (walk_entries-Leaves path nodes))

  pub walk-Leaves :
      (root : Option Node)
      → Leaves done []
          (gather collect (visible_files skip_set walk_root root))
          (walk done skip_set walk_root collect root)
  unfolding walk visible_files gather on_visit
  walk-Leaves none = elim (Bool-cases (done 0)) [ inl d ↦ rw d d | inr d ↦ rw d ]
  walk-Leaves (some node) = walk_dir-Leaves walk_root node (record { calls = 0; found = [] })
