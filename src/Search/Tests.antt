-- ===== src/Search/Tests.antt =====
-- A small workspace, and the theorems at it.
use gonesis.Prelude.{
  Text, codes, true, false, none, some, Option, [], ◌∷◌, ok, pos, All, ◌≡◌, refl, arith, text_eq,
}
use gonesis.Strings.{contains, split, join, has_prefix}
use gonesis.Filepath.{clean, rel, join_path}
use gonesis.Filepath.Under.{Under}
use gonesis.Search.{Options, Found, Matchers}
use gonesis.Search.Walk.{node_name, Node, leaf, dir, nil, cons}
use gonesis.Search.Visible.{File, visible_files}
use gonesis.Search.Content.{content, walk_root_of, found_of}
use gonesis.Search.Boundary.{visible_files-Under, PlainTree}
use gonesis.Search.Results.{FoundFrom, content-found_of, Bounded, found_of-bounds}

abbrev file : Text → Text → Node
file name text =
    leaf (record { name = name; regular = true; info = some (9, 1); content = some text })

-- /w/sub holds a.txt and the skipped directory .git.
abbrev sub : Node
sub = dir (codes "sub") true (
    cons (file (codes "a.txt") (codes "ha\nho\n"))
      (cons (dir (codes ".git") true (cons (file (codes "b") (codes "ha")) nil)) nil))

abbrev tree : Text → Option Node
tree path = some sub

-- A pattern is a text that stands at its start: the first character only.
abbrev lib : Matchers
lib = record {
  compile = λ pat. some (λ s. contains 97 s);
  match_name = λ pat name. true;
  validate_pattern = λ pat. true;
  match_path = λ pat path. true;
}

abbrev opts : Options
opts = record {
  pattern = codes "a";
  path = codes "sub";
  glob = [];
  case_insensitive = false;
  head_limit = pos 0;
  max_file_size = pos 0;
  skip_dirs = none;
}

below : walk_root_of (clean (codes "/w")) (codes "sub") ≡ ok (codes "/w/sub")
unfolding walk_root_of clean rel join_path split join text_eq has_prefix
below = refl

sub-PlainTree : PlainTree sub
unfolding PlainTree node_name
sub-PlainTree = (
  (λ e. cc, λ e. cc, λ e. cc, (λ e. cc, (λ e. cc, (λ e. cc, (λ e. cc, (λ e. cc, tt)))))),
  tt,
  (
    (λ e. cc, λ e. cc, λ e. cc, (λ e. cc, (λ e. cc, (λ e. cc, (λ e. cc, tt))))),
    ((λ e. cc, λ e. cc, λ e. cc, (λ e. cc, tt)), tt, tt),
    tt,
  ),
)

visible_files-Under_example :
    All
      (λ (f : File). Under (clean (codes "/w")) (f.0))
      (visible_files (codes ".git" ∷ []) (codes "/w/sub") (some sub))
visible_files-Under_example =
    visible_files-Under (codes "/w") (codes "sub") (codes "/w/sub") (codes ".git" ∷ []) (some sub)
      refl below sub-PlainTree

abbrev found : Found
found = record {
  matches = record { path = codes "sub/a.txt"; line = 1; text = codes "ha" } ∷ [];
  total = 1;
  truncated = false;
}

content_run : content lib tree (λ n. false) (codes "/w") opts ≡ ok found
unfolding content text_eq rel clean join_path split join has_prefix node_name contains
content_run = refl

content-found_of_example : FoundFrom lib tree (λ n. false) (codes "/w") opts found
content-found_of_example =
    content-found_of lib tree (λ n. false) (codes "/w") opts found content_run

found_of-bounds_example : Bounded 1 (found.matches) (found_of (pos 1) (found.matches))
found_of-bounds_example = found_of-bounds 1 (found.matches) (omega arith)
