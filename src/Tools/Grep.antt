-- ===== src/Tools/Grep.antt =====
-- pkg/agent/tools/search.go: the grep and glob tools over the search package.
pub mod Modes
pub mod Total
use gonesis.Prelude.{
  ℕ, zero, suc, ◌+◌, Text, codes, text_eq, Bool, true, false, ◌||◌, not, Option, none, some, List,
  [], ◌∷◌, ◌++◌, if◌then◌else◌, ltb, Result, ok, err, ◌>>=◌, ℤ, pos, negsuc, length, take, map,
}
use gonesis.Search.{Options, Match, Found, SearchError, Matchers, default_head_limit}
use gonesis.Search.Walk.{Node, in_set}
use gonesis.Search.Sort.{text_less, sort_stable}
use gonesis.Search.Content.{content}
use gonesis.Search.Paths.{PathOptions, PathsFound, paths}

pub record SearchConfig : Type 0 where
  pub max_results : ℤ
  pub max_file_size_bytes : ℤ

pub data Mode : Type 0 where
  content_mode : Mode
  files_mode : Mode
  count_mode : Mode

pub record GrepInput : Type 0 where
  pub pattern : Text
  pub path : Text
  pub glob : Text
  pub case_insensitive : Bool
  pub output_mode : Text
  pub head_limit : ℤ

pub record GrepFileCount : Type 0 where
  pub path : Text
  pub count : ℕ

-- `indicator` is the pair of numbers that the text "showing first %d of %d" names.
pub record GrepOutput : Type 0 where
  pub mode : Mode
  pub matches : List Match
  pub files : List Text
  pub counts : List GrepFileCount
  pub total : ℕ
  pub returned : ℕ
  pub truncated : Bool
  pub indicator : Option (ℕ × ℕ)

pub data GrepError : Type 0 where
  invalid_output_mode : Text → GrepError
  search_failed : SearchError → GrepError

-- The default and the test of the output mode.
unfoldable pub mode_of : Text → Result GrepError Mode
mode_of m =
    if text_eq m [] || text_eq m (codes "content")
    then ok content_mode
    else if text_eq m (codes "files_with_matches")
    then ok files_mode
    else if text_eq m (codes "count")
    then ok count_mode
    else err (invalid_output_mode m)

-- `limit`, or the default where it is not positive.
unfoldable pub positive_or : ℤ → ℕ → ℕ
positive_or (pos zero) default = default
positive_or (pos (suc n)) default = suc n
positive_or (negsuc n) default = default

-- The default head and the head of newGrepTool
unfoldable pub head_of : SearchConfig → ℤ → ℕ
unfolding positive_or
head_of cfg limit = positive_or limit (positive_or (cfg.max_results) default_head_limit)

-- Modes other than content need every match.
unfoldable pub search_head : Mode → ℕ → ℤ
search_head content_mode head = pos head
search_head files_mode head = negsuc 0
search_head count_mode head = negsuc 0

abbrev pub indicator_of : Bool → ℕ → ℕ → Option (ℕ × ℕ)
indicator_of true returned total = some (returned, total)
indicator_of false returned total = none

unfoldable pub build_content_output : Found → GrepOutput
build_content_output res = record {
  mode = content_mode;
  matches = res.matches;
  files = [];
  counts = [];
  total = res.total;
  returned = length (res.matches);
  truncated = res.truncated;
  indicator = indicator_of (res.truncated) (length (res.matches)) (res.total);
}

-- `head > 0 && total > head`
unfoldable pub exceeds_head : ℕ → ℕ → Bool
exceeds_head zero total = false
exceeds_head (suc n) total = ltb (suc n) total

unfoldable pub take_head {ℓ} : {A : Type ℓ} → ℕ → List A → List A
unfolding exceeds_head
take_head head items = if exceeds_head head (length items) then take head items else items

-- The loop over the matches, with the files seen so far in their order.
unfoldable pub see_files : List Match → List Text → List Text
unfolding in_set
see_files [] files = files
see_files (m ∷ ms) files =
    see_files ms (if in_set (m.path) files then files else files ++ m.path ∷ [])

unfoldable pub sort_strings : List Text → List Text
unfolding text_less sort_stable
sort_strings files = sort_stable text_less files

unfoldable pub build_files_output : Found → ℕ → GrepOutput
unfolding see_files sort_strings take_head exceeds_head
build_files_output res head =
    let sorted = sort_strings (see_files (res.matches) []) in
    let files = take_head head sorted in
    let cut = exceeds_head head (length sorted) in
    record {
      mode = files_mode;
      matches = [];
      files = files;
      counts = [];
      total = length sorted;
      returned = length files;
      truncated = cut;
      indicator = indicator_of cut (length files) (length sorted);
    }

-- `counts[path]++`
unfoldable pub bump : Text → List GrepFileCount → List GrepFileCount
bump path [] = record { path = path; count = 1 } ∷ []
bump path (row ∷ rows) =
    let rest = bump path rows in
    if text_eq path (row.path)
    then record { path = row.path; count = suc (row.count) } ∷ rows
    else row ∷ rest

unfoldable pub count_matches : List Match → List GrepFileCount → List GrepFileCount
unfolding bump
count_matches [] rows = rows
count_matches (m ∷ ms) rows = count_matches ms (bump (m.path) rows)

abbrev pub row_less : GrepFileCount → GrepFileCount → Bool
row_less r s = text_less (r.path) (s.path)

-- The rows leave the map in any order, and the sort by their distinct paths decides the order.
unfoldable pub sort_rows : List GrepFileCount → List GrepFileCount
unfolding text_less sort_stable
sort_rows rows = sort_stable row_less rows

unfoldable pub build_count_output : Found → ℕ → GrepOutput
unfolding count_matches sort_rows take_head exceeds_head
build_count_output res head =
    let sorted = sort_rows (count_matches (res.matches) []) in
    let rows = take_head head sorted in
    let cut = exceeds_head head (length sorted) in
    record {
      mode = count_mode;
      matches = [];
      files = [];
      counts = rows;
      total = length sorted;
      returned = length rows;
      truncated = cut;
      indicator = indicator_of cut (length rows) (length sorted);
    }

unfoldable pub build_output : Mode → Found → ℕ → GrepOutput
unfolding build_content_output build_files_output build_count_output
build_output content_mode res head = build_content_output res
build_output files_mode res head = build_files_output res head
build_output count_mode res head = build_count_output res head

abbrev pub search_options : SearchConfig → GrepInput → ℤ → Options
search_options cfg input head = record {
  pattern = input.pattern;
  path = input.path;
  glob = input.glob;
  case_insensitive = input.case_insensitive;
  head_limit = head;
  max_file_size = cfg.max_file_size_bytes;
  skip_dirs = none;
}

abbrev pub searched : {A : Type 0} → Result SearchError A → Result GrepError A
searched (ok a) = ok a
searched (err e) = err (search_failed e)

-- The function of newGrepTool and of newGlobTool
module _ (lib : Matchers) (tree : Text → Option Node) (done : ℕ → Bool) (work_dir : Text) where
  unfoldable pub grep : SearchConfig → GrepInput → Result GrepError GrepOutput
  unfolding mode_of head_of search_head content build_output
  grep cfg input = do
    mode ← mode_of (input.output_mode)
    res ← searched (
        content lib tree done work_dir
          (search_options cfg input (search_head mode (head_of cfg (input.head_limit)))))
    ok (build_output mode res (head_of cfg (input.head_limit)))

  unfoldable pub glob : Text → PathOptions → Result SearchError (PathsFound × Option (ℕ × ℕ))
  unfolding paths
  glob pattern opts = do
    res ← paths lib tree done work_dir pattern opts
    ok (res, indicator_of (res.truncated) (length (res.paths)) (res.total))
