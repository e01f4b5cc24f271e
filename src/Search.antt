-- ===== src/Search.antt =====
-- The search package: pkg/search/search.go, and the grep and glob tools over it. Texts are Go
-- strings as bytes; regular expressions and glob patterns are the libraries' (`Matchers`).
mod Tests
pub mod Walk
pub mod Visible
pub mod Sort
pub mod Content
pub mod Paths
pub mod Results
pub mod Boundary
use gonesis.Prelude.{
  ℕ, zero, suc, ◌+◌, Text, codes, text_eq, Bool, true, false, not, ◌&&◌, ◌||◌, Option, none, some,
  List, [], ◌∷◌, ◌++◌, if◌then◌else◌, ◌==◌, ltb, Result, ok, err, ℤ, pos, negsuc, length, take, map,
}
use gonesis.Strings.{has_prefix, split, contains}
use gonesis.Filepath.{dot_dot, is_abs, clean, join_path, rel}

abbrev pub default_skip_dirs : List Text
default_skip_dirs =
    codes ".git"
    ∷ codes "node_modules"
    ∷ codes "vendor"
    ∷ codes "dist"
    ∷ codes "build"
    ∷ codes "target"
    ∷ []

abbrev pub default_max_file_size : ℕ
default_max_file_size = 1048576

abbrev pub default_head_limit : ℕ
default_head_limit = 200

abbrev pub default_paths_max_results : ℕ
default_paths_max_results = 1000

abbrev pub binary_sniff_size : ℕ
binary_sniff_size = 512

-- Options; `skip_dirs` is `none` where the source's is nil.
pub record Options : Type 0 where
  pub pattern : Text
  pub path : Text
  pub glob : Text
  pub case_insensitive : Bool
  pub head_limit : ℤ
  pub max_file_size : ℤ
  pub skip_dirs : Option (List Text)

pub record Match : Type 0 where
  pub path : Text
  pub line : ℕ
  pub text : Text

-- Result
pub record Found : Type 0 where
  pub matches : List Match
  pub total : ℕ
  pub truncated : Bool

pub data SearchError : Type 0 where
  pattern_is_required : SearchError
  path_error : Text → SearchError
  outside_root : Text → SearchError
  invalid_pattern : Text → SearchError
  invalid_sort : Text → SearchError
  context_done : SearchError

-- regexp.Compile with MatchString, filepath.Match, and doublestar.ValidatePattern with Match.
pub record Matchers : Type 0 where
  pub compile : Text → Option (Text → Bool)
  pub match_name : Text → Text → Bool
  pub validate_pattern : Text → Bool
  pub match_path : Text → Text → Bool

abbrev escapes : Text → Bool
escapes way = text_eq way dot_dot || has_prefix (codes "../") way

-- filepath.IsAbs, Join and Clean on the path that was asked for
unfoldable pub absolute : Text → Text → Text
absolute root p = clean (if is_abs p then p else join_path root p)

unfoldable pub resolve_under_root : Text → Text → Result SearchError Text
unfolding absolute
resolve_under_root root p = elim (rel root (absolute root p)) [
  | none ↦ err (path_error p)
  | some way ↦ if escapes way then err (outside_root p) else ok (absolute root p)
]

unfoldable pub compile_pattern : Matchers → Text → Bool → Result SearchError (Text → Bool)
compile_pattern lib pat case_insensitive =
    elim (lib.compile (if case_insensitive then codes "(?i)" ++ pat else pat)) [
      | none ↦ err (invalid_pattern pat)
      | some re ↦ ok re
    ]

unfoldable pub build_skip_set : Option (List Text) → List Text
build_skip_set none = default_skip_dirs
build_skip_set (some dirs) = dirs

unfoldable pub drop_carriage_return : Text → Text
drop_carriage_return [] = []
drop_carriage_return (c ∷ []) = if c == 13 then [] else c ∷ []
drop_carriage_return (c ∷ d ∷ s) = c ∷ drop_carriage_return (d ∷ s)

-- What bufio.Scanner makes of the pieces between the newlines: the last one is a line where it is
-- not empty, and a line that fills the buffer of 1 MiB ends the scan.
unfoldable pub scan_pieces : List Text → List Text
unfolding drop_carriage_return
scan_pieces [] = []
scan_pieces ([] ∷ []) = []
scan_pieces (piece ∷ pieces) =
    let rest = scan_pieces pieces in
    if ltb (length piece) 1048576 then drop_carriage_return piece ∷ rest else []

-- The loop of scanFile over the lines, from the number of the line before.
unfoldable pub match_lines : (Text → Bool) → ℕ → List Text → List Match
match_lines re line [] = []
match_lines re line (text ∷ lines) =
    let rest = match_lines re (suc line) lines in
    if re text then record { path = []; line = suc line; text = text } ∷ rest else rest

-- scanFile; the error of a file that does not open is `none`.
unfoldable pub scan_file : Option Text → (Text → Bool) → Option (List Match)
unfolding scan_pieces match_lines
scan_file none re = none
scan_file (some content) re =
    if contains 0 (take binary_sniff_size content)
    then some []
    else some (match_lines re 0 (scan_pieces (split 10 content)))

-- The cap on the results: zero stands for the default, a negative limit for none.
unfoldable pub limit_or : ℤ → ℕ → ℤ
limit_or (pos zero) default = pos default
limit_or (pos (suc n)) default = pos (suc n)
limit_or (negsuc n) default = negsuc n

unfoldable pub over : ℤ → ℕ → Bool
over (pos zero) total = false
over (pos (suc n)) total = ltb (suc n) total
over (negsuc n) total = false

unfoldable pub cap {ℓ} : {A : Type ℓ} → ℤ → List A → List A
cap (pos zero) items = items
cap (pos (suc n)) items = take (suc n) items
cap (negsuc n) items = items
