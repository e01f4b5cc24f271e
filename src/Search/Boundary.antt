-- ===== src/Search/Boundary.antt =====
-- The workspace boundary: what resolveUnderRoot lets through.
use gonesis.Prelude.{
  Text, true, ok, ◌≡◌, arith, inl, inr, Bool-cases, Option-cases, if◌then◌else◌, List, Option, ◌∷◌,
  All, some, All-append, sym, none, false, [],
}
use gonesis.Filepath.{is_abs, rel, join_path, clean}
use gonesis.Filepath.Clean.{Plain, clean_idem}
use gonesis.Search.Walk.{Node, leaf, dir, Nodes, nil, cons, node_name, is_skipped}
use gonesis.Search.Visible.{File, visible, visible_entries, visible_files}
use gonesis.Search.Content.{walk_root_of}
use gonesis.Filepath.Under.{
  Under, goes_up, rel-Under, is_abs-join_path, is_abs-clean, join_path-Under, Under-refl,
}
use gonesis.Search.{resolve_under_root, absolute}

abbrev requested : Text → Text → Text
requested root p = if is_abs p then p else join_path root p

is_abs-requested : (root p : Text) → is_abs root ≡ true → is_abs (requested root p) ≡ true
is_abs-requested root p h = elim (Bool-cases (is_abs p)) [
  | inl e ↦ rw e e
  | inr e ↦ rw e (is_abs-join_path root p h)
]

-- With an absolute root, a path that resolveUnderRoot returns is the root followed by names: no
-- `..`, no symlink aside, leads out of the root, whatever path was asked for.
pub resolve_under_root-Under :
    (root p path : Text)
    → is_abs root ≡ true
    → resolve_under_root root p ≡ ok path
    → Under root path
unfolding resolve_under_root absolute
resolve_under_root-Under root p path h r = elim (Option-cases (rel root (absolute root p))) [
  | inl e ↦ ground (arith, e)
  | inr (w, e) ↦ elim (Bool-cases (goes_up w)) [
    | inl f ↦ ground (arith, e, f)
    | inr f ↦
        let k : Under root (absolute root p) =
          rel-Under root (requested root p) w h (is_abs-requested root p h) e f in
        ground (arith, e, f, k)
  ]
]

-- The names that a directory lists are names: none is empty, `.` or `..` or holds a slash.
unfoldable mutual
  pub PlainTree : Node → Type 0
  PlainTree (leaf e) = Unit
  PlainTree (dir name readable kids) = PlainEntries kids

  pub PlainEntries : Nodes → Type 0
  PlainEntries nil = Unit
  PlainEntries (cons node nodes) = Plain (node_name node) × PlainTree node × PlainEntries nodes

-- What the file system is below a path.
abbrev pub PlainRoot : Option Node → Type 0
PlainRoot none = Unit
PlainRoot (some node) = PlainTree node

module _ (skip_set : List Text) (walk_root root : Text) where
  abbrev Inside : File → Type 0
  Inside file = Under root (file.0)

  mutual
    unfolding visible PlainTree

    visible-Under :
        (path : Text) (node : Node)
        → Under root path
        → PlainTree node
        → All Inside (visible skip_set walk_root path node)
    visible-Under path (leaf e) u h = elim (Bool-cases (e.regular)) [
      | inl r ↦ rw r (u, tt)
      | inr r ↦ rw r tt
    ]
    visible-Under path (dir name true kids) u h =
        elim (Bool-cases (is_skipped skip_set walk_root path name)) [
          | inl k ↦ rw k tt
          | inr k ↦ rw k (visible_entries-Under path kids u h)
        ]
    visible-Under path (dir name false kids) u h =
        elim (Bool-cases (is_skipped skip_set walk_root path name)) [
          | inl k ↦ rw k tt
          | inr k ↦ rw k tt
        ]

    visible_entries-Under :
        (path : Text) (nodes : Nodes)
        → Under root path
        → PlainEntries nodes
        → All Inside (visible_entries skip_set walk_root path nodes)
    visible_entries-Under path nil u h = tt
    visible_entries-Under path (cons node nodes) u h =
        All-append Inside (visible skip_set walk_root (join_path path (node_name node)) node)
          (visible_entries skip_set walk_root path nodes)
          (visible-Under (join_path path (node_name node)) node
            (join_path-Under root path (node_name node) u h.0) h.1)
          (visible_entries-Under path nodes u h.2)

walk_root_of-Under :
    (root asked walk_root : Text)
    → is_abs root ≡ true
    → walk_root_of root asked ≡ ok walk_root
    → root ≡ clean root
    → Under root walk_root
unfolding walk_root_of
walk_root_of-Under root [] walk_root h r fixed = ground (arith, Under-refl root h)
walk_root_of-Under root (c ∷ asked) walk_root h r fixed =
    resolve_under_root-Under root (c ∷ asked) walk_root h r

-- When the workspace root is absolute, and directories list plain names, every file that a search
-- sees is below the root, whatever path it was asked for: its path is the root's elements followed
-- by names.
pub visible_files-Under :
    (root asked walk_root : Text) (skip_set : List Text) (tree : Option Node)
    → is_abs root ≡ true
    → walk_root_of (clean root) asked ≡ ok walk_root
    → PlainRoot tree
    → All (λ (file : File). Under (clean root) (file.0)) (visible_files skip_set walk_root tree)
unfolding visible_files
visible_files-Under root asked walk_root skip_set none h r plain = tt
visible_files-Under root asked walk_root skip_set (some node) h r plain =
    visible-Under skip_set walk_root (clean root) walk_root node
      (walk_root_of-Under (clean root) asked walk_root (is_abs-clean root h) r
        (sym (clean_idem root h)))
      plain
