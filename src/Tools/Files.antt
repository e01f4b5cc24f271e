-- ===== src/Tools/Files.antt =====
-- pkg/agent/tools/files.go: the file tools. A string is its runes; a byte that belongs to no rune is a
-- number above the code points. The file system is `Host`: what a call of package os does to the
-- world `W`.
pub mod Update
pub mod MultiEdit
pub mod Read
use gonesis.Prelude.{
  ℕ, zero, suc, ◌+◌, ◌-◌, Text, codes, text_eq, Bool, true, false, not, ◌&&◌, ◌||◌, Option, none,
  some, List, [], ◌∷◌, ◌++◌, if◌then◌else◌, ◌==◌, ltb, leb, Result, ok, err, ◌>>=◌, ℤ, pos, negsuc,
  length, take, drop, map, min,
}
use gonesis.Strings.{split}
use gonesis.Strings.Replace.{count, replace_first, replace_all}
use gonesis.Strconv.{itoa}
use gonesis.Filepath.{is_abs, clean, join_path}

-- os.DirEntry: its name, whether it is a directory, and the size that Info gives, if it succeeds.
pub record DirEntry : Type 0 where
  pub name : Text
  pub is_dir : Bool
  pub size : Option ℕ

-- package os, filepath.Dir and filepath.Match, utf8.Valid and the number of bytes of a string
pub record Host (W : Type 0) : Type 1 where
  pub read_file : Text → W → Result Text Text
  pub write_file : Text → Text → W → Option Text × W
  pub mkdir_all : Text → W → Option Text × W
  pub read_dir : Text → W → Result Text (List DirEntry)
  pub dir_of : Text → Text
  pub matches : Text → Text → Bool
  pub is_utf8 : Text → Bool
  pub byte_count : Text → ℕ

pub data FileError : Type 0 where
  reading_directory : Text → Text → FileError
  reading : Text → Text → FileError
  writing : Text → Text → FileError
  creating_directories : Text → Text → FileError
  binary : Text → FileError
  not_found : Text → FileError
  not_unique : ℕ → Text → FileError
  edits_empty : FileError
  identical : ℕ → FileError
  edit_not_found : ℕ → Text → FileError
  edit_not_unique : ℕ → ℕ → Text → FileError

unfoldable pub resolve_path : Text → Text → Text
resolve_path work_dir path = if is_abs path then clean path else join_path work_dir path

-- list_files

pub record FileEntry : Type 0 where
  pub name : Text
  pub is_dir : Bool
  pub size : ℕ

abbrev pub accepts : (Text → Text → Bool) → Text → Text → Bool
accepts matches pattern name = text_eq pattern [] || matches pattern name

-- The loop over the entries; `room` is how many more the result takes before the break.
unfoldable pub collect_entries : (Text → Text → Bool) → Text → ℕ → List DirEntry → List FileEntry
collect_entries matches pattern zero entries = []
collect_entries matches pattern (suc room) [] = []
collect_entries matches pattern (suc room) (e ∷ entries) =
    let skip = collect_entries matches pattern (suc room) entries in
    let more = collect_entries matches pattern room entries in
    if not (accepts matches pattern (e.name)) then skip else elim (e.size) [
      | none ↦ skip
      | some size ↦ record { name = e.name; is_dir = e.is_dir; size = size } ∷ more
    ]

-- read_file

-- The 1-based offset as an index that is at most the number of lines.
unfoldable pub start_of : ℤ → ℕ → ℕ
start_of (pos zero) lines = 0
start_of (pos (suc n)) lines = if ltb lines n then lines else n
start_of (negsuc n) lines = 0

unfoldable pub limit_of : ℤ → ℕ
limit_of (pos zero) = 10000
limit_of (pos (suc n)) = if ltb (suc n) 10000 then suc n else 10000
limit_of (negsuc n) = 10000

unfoldable pub number_lines : ℕ → List Text → Text
number_lines n [] = []
number_lines n (line ∷ lines) = itoa (suc n) ++ 9 ∷ (line ++ 10 ∷ number_lines (suc n) lines)

unfoldable pub window : ℤ → ℤ → List Text → List Text
unfolding start_of limit_of
window offset limit lines =
    let rest = drop (start_of offset (length lines)) lines in
    if ltb (limit_of limit) (length rest) then take (limit_of limit) rest else rest

pub record ReadOutput : Type 0 where
  pub path : Text
  pub content : Text
  pub total_lines : ℕ

-- multi_edit

pub record EditSpec : Type 0 where
  pub old_string : Text
  pub new_string : Text
  pub replace_all : Bool

-- The first loop of multi_edit, from edit `i` on.
unfoldable pub check_edits : ℕ → List EditSpec → Option FileError
check_edits i [] = none
check_edits i (e ∷ edits) =
    let rest = check_edits (suc i) edits in
    if text_eq (e.old_string) (e.new_string) then some (identical i) else rest

-- The body of the second loop.
unfoldable pub apply_edit : Text → ℕ → EditSpec → Text → Result FileError Text
unfolding count replace_first replace_all
apply_edit path i e content =
    let found = count (e.old_string) content in
    if found == 0
    then err (edit_not_found i path)
    else if not (e.replace_all) && ltb 1 found
    then err (edit_not_unique i found path)
    else ok (
        if e.replace_all
        then replace_all (e.old_string) (e.new_string) content
        else replace_first (e.old_string) (e.new_string) content)

unfoldable pub apply_edits : Text → ℕ → List EditSpec → Text → Result FileError Text
unfolding apply_edit
apply_edits path i [] content = ok content
apply_edits path i (e ∷ edits) content = do
  content' ← apply_edit path i e content
  apply_edits path (suc i) edits content'

module _ {W : Type 0} (host : Host W) where
  -- os.WriteFile, with the result that a tool returns where it succeeds
  unfoldable pub write_back : {A : Type 0} → Text → Text → A → W → Result FileError A × W
  write_back p content a w =
      let (e, w') = host.write_file p content w in
      elim e [ none ↦ (ok a, w') | some cause ↦ (err (writing p cause), w') ]

module _ {W : Type 0} (host : Host W) (work_dir : Text) where
  unfoldable pub list_files : Text → Text → W → Result FileError (Text × List FileEntry)
  unfolding resolve_path collect_entries
  list_files path pattern w =
      let dir = if text_eq path [] then work_dir else resolve_path work_dir path in
      elim (host.read_dir dir w) [
        | err e ↦ err (reading_directory dir e)
        | ok entries ↦ ok (dir, collect_entries (host.matches) pattern 500 entries)
      ]

  unfoldable pub read_file : Text → ℤ → ℤ → W → Result FileError ReadOutput
  unfolding resolve_path start_of number_lines window
  read_file path offset limit w =
      let p = resolve_path work_dir path in
      elim (host.read_file p w) [
        | err e ↦ err (reading p e)
        | ok content ↦
            let lines = split 10 content in
            if not (host.is_utf8 content)
            then err (binary p)
            else ok (record {
              path = p;
              content = number_lines (start_of offset (length lines)) (window offset limit lines);
              total_lines = length lines;
            })
      ]

  unfoldable pub write_file : Text → Text → Bool → W → Result FileError (Text × ℕ) × W
  unfolding resolve_path write_back
  write_file path content create w =
      let p = resolve_path work_dir path in
      if create
      then (let (e, w') = host.mkdir_all (host.dir_of p) w in
          elim e [
            | none ↦ write_back host p content (p, host.byte_count content) w'
            | some cause ↦ (err (creating_directories p cause), w')
          ])
      else write_back host p content (p, host.byte_count content) w

  unfoldable pub update_file : Text → Text → Text → W → Result FileError Text × W
  unfolding resolve_path write_back count replace_first
  update_file path old_string new_string w =
      let p = resolve_path work_dir path in
      elim (host.read_file p w) [
        | err e ↦ (err (reading p e), w)
        | ok content ↦
            let found = count old_string content in
            if found == 0
            then (err (not_found p), w)
            else if ltb 1 found
            then (err (not_unique found p), w)
            else write_back host p (replace_first old_string new_string content) p w
      ]

  -- multi_edit behind its checks of the input.
  unfoldable pub edit_file : Text → List EditSpec → W → Result FileError (Text × ℕ) × W
  unfolding resolve_path apply_edits write_back
  edit_file path edits w =
      let p = resolve_path work_dir path in
      elim (host.read_file p w) [
        | err e ↦ (err (reading p e), w)
        | ok content ↦ elim (apply_edits p 0 edits content) [
          | err e ↦ (err e, w)
          | ok content' ↦ write_back host p content' (p, length edits) w
        ]
      ]

  unfoldable pub multi_edit : Text → List EditSpec → W → Result FileError (Text × ℕ) × W
  unfolding check_edits edit_file
  multi_edit path [] w = (err edits_empty, w)
  multi_edit path (e ∷ edits) w = elim (check_edits 0 (e ∷ edits)) [
    | some cause ↦ (err cause, w)
    | none ↦ edit_file path (e ∷ edits) w
  ]
