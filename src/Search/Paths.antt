-- ===== src/Search/Paths.antt =====
-- search.Paths
use gonesis.Prelude.{
  ℕ, Text, codes, text_eq, Bool, true, false, not, ◌||◌, Option, none, some, List, [], ◌∷◌,
  if◌then◌else◌, ◌==◌, ltb, Result, ok, err, ◌>>=◌, ℤ, length, map,
}
use gonesis.Filepath.{clean, rel}
use gonesis.Search.{
  SearchError, pattern_is_required, invalid_pattern, invalid_sort, Matchers, build_skip_set,
  default_paths_max_results, limit_or, over, cap,
}
use gonesis.Search.Walk.{DirEntry, Node, walk}
use gonesis.Search.Sort.{text_less, sort_stable}
use gonesis.Search.Content.{walk_root_of, walk_result}

-- PathOptions
pub record PathOptions : Type 0 where
  pub path : Text
  pub sort : Text
  pub max_results : ℤ
  pub skip_dirs : Option (List Text)

-- PathsResult
pub record PathsFound : Type 0 where
  pub paths : List Text
  pub total : ℕ
  pub truncated : Bool

pub record Entry : Type 0 where
  pub path : Text
  pub mtime : ℕ

abbrev sort_mtime_desc : Text
sort_mtime_desc = codes "mtime_desc"

abbrev sort_lex : Text
sort_lex = codes "lex"

unfoldable entry_of : Text → Option (ℕ × ℕ) → List Entry
entry_of path none = []
entry_of path (some (size, mtime)) = record { path = path; mtime = mtime } ∷ []

-- The WalkDirFunc of Paths at a regular file
unfoldable pub path_entries : Matchers → Text → Text → Text → DirEntry → List Entry
unfolding entry_of
path_entries lib pattern root path e = elim (rel root path) [
  | none ↦ []
  | some rel_slash ↦ if lib.match_path pattern rel_slash then entry_of rel_slash (e.info) else []
]

unfoldable pub newer : Entry → Entry → Bool
unfolding text_less
newer e f = if e.mtime == f.mtime then text_less (e.path) (f.path) else ltb (f.mtime) (e.mtime)

unfoldable pub path_less : Entry → Entry → Bool
unfolding text_less
path_less e f = text_less (e.path) (f.path)

-- The default of the sort mode, and the test of it; `true` is the lexicographic one.
unfoldable pub sort_mode_of : Text → Result SearchError Bool
sort_mode_of sort =
    if text_eq sort [] || text_eq sort sort_mtime_desc
    then ok false
    else if text_eq sort sort_lex
    then ok true
    else err (invalid_sort sort)

-- sort.Slice is not stable, but no two entries have one path.
unfoldable pub sorted_by : Bool → List Entry → List Entry
unfolding sort_stable newer path_less
sorted_by lex entries = if lex then sort_stable path_less entries else sort_stable newer entries

unfoldable pub paths_of : ℤ → List Entry → PathsFound
unfolding over cap
paths_of limit entries = record {
  paths = map (λ (e : Entry). e.path) (cap limit entries);
  total = length entries;
  truncated = over limit (length entries);
}

module _ (lib : Matchers) (tree : Text → Option Node) (done : ℕ → Bool) (root : Text) where
  unfoldable pub paths_from : Text → PathOptions → Text → Bool → Result SearchError PathsFound
  unfolding walk_result walk limit_or paths_of sorted_by build_skip_set path_entries
  paths_from pattern opts walk_root lex = do
    entries ← walk_result (
        walk done (build_skip_set (opts.skip_dirs)) walk_root
          (path_entries lib pattern (clean root)) (tree walk_root))
    ok (paths_of (limit_or (opts.max_results) default_paths_max_results) (sorted_by lex entries))

  unfoldable pub paths : Text → PathOptions → Result SearchError PathsFound
  unfolding paths_from walk_root_of sort_mode_of
  paths [] opts = err pattern_is_required
  paths (c ∷ pattern) opts =
      if not (lib.validate_pattern (c ∷ pattern)) then err (invalid_pattern (c ∷ pattern)) else do
        walk_root ← walk_root_of (clean root) (opts.path)
        lex ← sort_mode_of (opts.sort)
        paths_from (c ∷ pattern) opts walk_root lex
