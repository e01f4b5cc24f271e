-- ===== src/Search/Content.antt =====
-- search.Content
use gonesis.Prelude.{
  ℕ, zero, suc, Text, text_eq, Bool, true, not, ◌||◌, Option, none, some, List, [], ◌∷◌,
  if◌then◌else◌, ltb, Result, ok, err, ◌>>=◌, ℤ, pos, negsuc, length, map,
}
use gonesis.Filepath.{clean, rel}
use gonesis.Search.{
  Options, Match, Found, SearchError, pattern_is_required, context_done, Matchers,
  resolve_under_root, compile_pattern, build_skip_set, default_max_file_size, default_head_limit,
  scan_file, limit_or, over, cap,
}
use gonesis.Search.Walk.{DirEntry, Node, Step, next, skip_dir, stop, Walking, walk}
use gonesis.Search.Sort.{text_less, sort_stable}

-- `size > max`
unfoldable pub exceeds : ℕ → ℤ → Bool
exceeds size (pos max) = ltb max size
exceeds size (negsuc n) = true

unfoldable pub too_large : Option (ℕ × ℕ) → ℤ → Bool
unfolding exceeds
too_large none max_size = true
too_large (some (size, mtime)) max_size = exceeds size max_size

abbrev pub with_path : Text → Match → Match
with_path path m = record { path = path; line = m.line; text = m.text }

abbrev pub glob_accepts : Matchers → Text → Text → Bool
glob_accepts lib glob name = text_eq glob [] || lib.match_name glob name

-- The WalkDirFunc of Content at a regular file
unfoldable pub file_matches :
    Matchers → (Text → Bool) → Text → Text → ℤ → Text → DirEntry → List Match
unfolding too_large scan_file
file_matches lib re root glob max_size path e =
    if too_large (e.info) max_size
    then []
    else if not (glob_accepts lib glob (e.name))
    then []
    else elim (rel root path) [
      | none ↦ []
      | some rel_slash ↦ elim (scan_file (e.content) re) [
        | none ↦ []
        | some ms ↦ map (with_path rel_slash) ms
      ]
    ]

-- The order of the matches: by path, then by line.
unfoldable pub match_less : Match → Match → Bool
unfolding text_less
match_less m n =
    if text_eq (m.path) (n.path) then ltb (m.line) (n.line) else text_less (m.path) (n.path)

unfoldable pub walk_root_of : Text → Text → Result SearchError Text
unfolding resolve_under_root
walk_root_of root [] = ok root
walk_root_of root (c ∷ path) = resolve_under_root root (c ∷ path)

abbrev pub max_size_of : ℤ → ℤ
max_size_of (pos zero) = pos default_max_file_size
max_size_of (pos (suc n)) = pos (suc n)
max_size_of (negsuc n) = negsuc n

-- The matches of the walk, sorted and capped.
unfoldable pub found_of : ℤ → List Match → Found
unfolding sort_stable match_less over cap
found_of head matches =
    let sorted = sort_stable match_less matches in
    record {
      matches = cap head sorted;
      total = length sorted;
      truncated = over head (length sorted);
    }

-- How a walk ends: with what it found, or with the error of its context.
unfoldable pub walk_result : {A : Type 0} → Step (Walking A) → Result SearchError (List A)
walk_result (next s) = ok (s.found)
walk_result (skip_dir s) = ok (s.found)
walk_result (stop s) = err context_done

-- `tree` is the file system below a path; `done n` is whether the context is done at call `n` of
-- the WalkDirFunc.
module _ (lib : Matchers) (tree : Text → Option Node) (done : ℕ → Bool) (root : Text) where
  unfoldable pub content_from : Options → Text → (Text → Bool) → Result SearchError Found
  unfolding walk_result walk found_of limit_or build_skip_set file_matches
  content_from opts walk_root re = do
    matches ← walk_result (
        walk done (build_skip_set (opts.skip_dirs)) walk_root
          (file_matches lib re (clean root) (opts.glob) (max_size_of (opts.max_file_size)))
          (tree walk_root))
    ok (found_of (limit_or (opts.head_limit) default_head_limit) matches)

  unfoldable pub content : Options → Result SearchError Found
  unfolding content_from walk_root_of compile_pattern
  content opts = if text_eq (opts.pattern) [] then err pattern_is_required else do
    walk_root ← walk_root_of (clean root) (opts.path)
    re ← compile_pattern lib (opts.pattern) (opts.case_insensitive)
    content_from opts walk_root re
