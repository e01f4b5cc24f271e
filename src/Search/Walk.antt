-- ===== src/Search/Walk.antt =====
-- filepath.WalkDir over a tree of directory entries, and the files that the two searches see.
use gonesis.Prelude.{
  ℕ, suc, Text, text_eq, Bool, true, false, not, ◌&&◌, ◌||◌, Option, none, some, List, [], ◌∷◌,
  ◌++◌, if◌then◌else◌,
}
use gonesis.Filepath.{join_path}

-- An entry that is not a directory: fs.DirEntry and fs.FileInfo. Info may fail, and so may the
-- reading of the file.
pub record DirEntry : Type 0 where
  pub name : Text
  pub regular : Bool
  pub info : Option (ℕ × ℕ)
  pub content : Option Text

-- A directory lists its entries in the order of os.ReadDir, and says whether ReadDir succeeds.
mutual
  pub data Node : Type 0 where
    leaf : DirEntry → Node
    dir : Text → Bool → Nodes → Node

  pub data Nodes : Type 0 where
    nil : Nodes
    cons : Node → Nodes → Nodes

unfoldable pub node_name : Node → Text
node_name (leaf e) = e.name
node_name (dir name readable kids) = name

-- What a call of the WalkDirFunc is about: no entry at the root, a directory, a directory that
-- ReadDir failed on, another entry.
pub data Visit : Type 0 where
  missing : Visit
  enter_dir : Text → Visit
  failed_dir : Text → Visit
  entry : DirEntry → Visit

-- What it returns: nil, fs.SkipDir or another error, with the state it leaves.
pub data Step {ℓ} (S : Type ℓ) : Type ℓ where
  next : S → Step S
  skip_dir : S → Step S
  stop : S → Step S

-- The loop over a directory's entries: SkipDir ends it, another error ends the walk.
unfoldable pub continue {ℓ} : {S : Type ℓ} → Step S → (S → Step S) → Step S
continue (next s) rest = rest s
continue (skip_dir s) rest = next s
continue (stop s) rest = stop s

-- A directory's own call: SkipDir skips the directory only.
unfoldable pub into_dir {ℓ} : {S : Type ℓ} → Step S → (S → Step S) → Step S
into_dir (next s) rest = rest s
into_dir (skip_dir s) rest = next s
into_dir (stop s) rest = stop s

abbrev pub if_readable {ℓ} : {S : Type ℓ} → Bool → Step S → Step S → Step S
if_readable true entries failed = entries
if_readable false entries failed = failed

module _ {ℓ} {S : Type ℓ} (visit : Text → Visit → S → Step S) where
  unfoldable mutual
    unfolding continue into_dir

    pub walk_dir : Text → Node → S → Step S
    walk_dir path (leaf e) s = visit path (entry e) s
    walk_dir path (dir name readable kids) s = into_dir (visit path (enter_dir name) s) (λ s₁.
        if_readable readable (walk_entries path kids s₁)
          (into_dir (visit path (failed_dir name) s₁) (λ s₂. walk_entries path kids s₂)))

    pub walk_entries : Text → Nodes → S → Step S
    walk_entries path nil s = next s
    walk_entries path (cons node nodes) s =
        continue (walk_dir (join_path path (node_name node)) node s)
          (λ s₁. walk_entries path nodes s₁)

-- The variables that a WalkDirFunc of the package captures: the calls it had, and what it found.
pub record Walking {ℓ} (A : Type ℓ) : Type ℓ where
  pub calls : ℕ
  pub found : List A

unfoldable pub in_set : Text → List Text → Bool
in_set name [] = false
in_set name (d ∷ dirs) = text_eq name d || in_set name dirs

abbrev pub is_skipped : List Text → Text → Text → Text → Bool
is_skipped skip_set walk_root path name = not (text_eq path walk_root) && in_set name skip_set

abbrev pub called {ℓ} : {A : Type ℓ} → Walking A → Walking A
called s = record { calls = suc (s.calls); found = s.found }

-- The WalkDirFunc of Content and of Paths, which differ in what they collect at a regular file.
-- `done n` is whether the context is done at call `n`.
module _ {ℓ} {A : Type ℓ} (done : ℕ → Bool) (skip_set : List Text) (walk_root : Text)
    (collect : Text → DirEntry → List A) where
  unfoldable pub on_visit : Text → Visit → Walking A → Step (Walking A)
  on_visit path missing s = if done (s.calls) then stop s else next (called s)
  on_visit path (enter_dir name) s =
      if done (s.calls)
      then stop s
      else if is_skipped skip_set walk_root path name
      then skip_dir (called s)
      else next (called s)
  on_visit path (failed_dir name) s = if done (s.calls) then stop s else skip_dir (called s)
  on_visit path (entry e) s =
      if done (s.calls)
      then stop s
      else if e.regular
      then next (record { calls = suc (s.calls); found = s.found ++ collect path e })
      else next (called s)

  -- filepath.WalkDir from the walk's root; `none` is a root that has no entry.
  unfoldable pub walk : Option Node → Step (Walking A)
  unfolding walk_dir on_visit in_set
  walk none = on_visit walk_root missing (record { calls = 0; found = [] })
  walk (some node) = walk_dir on_visit walk_root node (record { calls = 0; found = [] })
