-- ===== src/Tools/Tests.antt =====
-- The tools at concrete inputs: a file system of one file, whose text is the world.
use gonesis.Strconv.{itoa}
use gonesis.Strings.{join, split, contains}
use gonesis.Filepath.{join_path, clean, rel}
use gonesis.Prelude.{
  ℕ, Text, codes, Bool, true, false, none, some, Option, List, [], ◌∷◌, ◌++◌, ok, err, pos, length,
  map, ◌≡◌, ◌⊎◌, refl, arith, text_eq,
}
use gonesis.Todo.{new}
use gonesis.Todo.Invariant.{IsValid, numbers}
use gonesis.Tools.Todo.{TodoCall, create_call, update_call, after_calls, Keeps, after_calls-Keeps}
use gonesis.Search.{Match, Found, Matchers}
use gonesis.Search.Walk.{Node, leaf, dir, nil, cons, node_name}
use gonesis.Tools.Grep.{
  SearchConfig, GrepInput, GrepOutput, count_mode, grep, build_count_output, build_files_output,
}
use gonesis.Tools.Grep.Modes.{row_path, count-files_output}
use gonesis.Tools.Grep.Total.{ReportsAll, grep-sum_counts}
use gonesis.Tools.Files.{
  Host, edit_not_found, EditSpec, ReadOutput, update_file, multi_edit, read_file, resolve_path,
}
use gonesis.Tools.Files.Update.{Updated, FailedWrite, update_file-ReplacesIn}
use gonesis.Tools.Files.MultiEdit.{Wrote, multi_edit-Wrote, multi_edit-err}
use gonesis.Provider.{ToolCall, ExecError}
use gonesis.Registry.{Tool, Registry, new_registry}
use gonesis.Tools.Spawn.{ToolSet, child_of_parent, child_tool_set}
use gonesis.Tools.Spawn.Offered.{kept_names, Refuses, child_tool_set-offered}
use gonesis.Tools.Files.Read.{IsSlice, read_file-bounds, read_file-pages}

abbrev host : Host Text
host = record {
  read_file = λ path w. ok w;
  write_file = λ path text w. (none, text);
  mkdir_all = λ path w. (none, w);
  read_dir = λ path w. ok [];
  dir_of = λ path. path;
  matches = λ pattern name. true;
  is_utf8 = λ text. true;
  byte_count = λ text. length text;
}

abbrev dir_w : Text
dir_w = codes "/w"

abbrev at_a : Text
at_a = codes "/w/a"

update_run :
    update_file host dir_w (codes "a") (codes "cat") (codes "dog") (codes "one cat.")
    ≡ (ok at_a, codes "one dog.")
unfolding update_file join_path join split text_eq
update_run = refl

update_file-ReplacesIn_example :
    Updated host dir_w
      (codes "a")
      (codes "cat")
      (codes "dog")
      (codes "one cat.")
      (codes "one dog.")
      at_a
update_file-ReplacesIn_example =
    update_file-ReplacesIn host dir_w (codes "a") (codes "cat") (codes "dog") (codes "one cat.")
      (codes "one dog.") at_a update_run

abbrev edit : Text → Text → Bool → EditSpec
edit old new all = record { old_string = old; new_string = new; replace_all = all }

-- The second edit changes what the first one made.
abbrev edits : List EditSpec
edits = edit (codes "b") (codes "aa") false ∷ edit (codes "a") (codes "c") true ∷ []

edits_run : multi_edit host dir_w (codes "a") edits (codes "abd") ≡ (ok (at_a, 2), codes "cccd")
unfolding multi_edit text_eq join_path join split
edits_run = refl

multi_edit-Wrote_example :
    (at_a ≡ at_a)
    × (2 ≡ length edits)
    × Wrote host dir_w (codes "a") edits (codes "abd") (codes "cccd") at_a
unfolding resolve_path join_path join split text_eq
multi_edit-Wrote_example =
    multi_edit-Wrote host dir_w (codes "a") (codes "abd") (codes "cccd") edits at_a 2 edits_run

abbrev bad_edits : List EditSpec
bad_edits = edit (codes "b") (codes "e") false ∷ edit (codes "b") (codes "c") false ∷ []

bad_run :
    multi_edit host dir_w (codes "a") bad_edits (codes "abd")
    ≡ (err (edit_not_found 1 at_a), codes "abd")
unfolding multi_edit text_eq join_path join split
bad_run = refl

multi_edit-err_example : FailedWrite (edit_not_found 1 at_a) ⊎ (codes "abd" ≡ codes "abd")
multi_edit-err_example =
    multi_edit-err host dir_w (codes "a") (codes "abd") (codes "abd") bad_edits
      (edit_not_found 1 at_a) bad_run

abbrev page_of : Text → ReadOutput
page_of text = record { path = at_a; content = text; total_lines = 3 }

abbrev three_lines : Text
three_lines = codes "x\ny\nz"

page_one :
    read_file host dir_w (codes "a") (pos 2) (pos 1) three_lines ≡ ok (page_of (codes "2\ty\n"))
unfolding read_file join_path split join itoa text_eq
page_one = refl

page_two :
    read_file host dir_w (codes "a") (pos 3) (pos 1) three_lines ≡ ok (page_of (codes "3\tz\n"))
unfolding read_file join_path split join itoa text_eq
page_two = refl

both_pages :
    read_file host dir_w (codes "a") (pos 2) (pos 2) three_lines
    ≡ ok (page_of (codes "2\ty\n3\tz\n"))
unfolding read_file join_path split join itoa text_eq
both_pages = refl

read_file-bounds_example : IsSlice host dir_w (codes "a") three_lines (pos 1) (codes "2\ty\n")
read_file-bounds_example =
    read_file-bounds host dir_w (codes "a") three_lines (pos 2) (pos 1) (page_of (codes "2\ty\n"))
      page_one

read_file-pages_example : codes "2\ty\n" ++ codes "3\tz\n" ≡ codes "2\ty\n3\tz\n"
read_file-pages_example =
    read_file-pages host dir_w (codes "a") three_lines 1 0 0 (page_of (codes "2\ty\n"))
      (page_of (codes "3\tz\n")) (page_of (codes "2\ty\n3\tz\n")) (omega arith) page_one page_two
      both_pages

abbrev hit : Text → ℕ → Match
hit path line = record { path = path; line = line; text = codes "a" }

abbrev res : Found
res = record {
  matches = hit (codes "b.go") 1 ∷ hit (codes "a.go") 2 ∷ hit (codes "b.go") 3 ∷ [];
  total = 3;
  truncated = false;
}

count-files_output_example :
    let counted = build_count_output res 1 in
    let listed = build_files_output res 1 in
    (map row_path (counted.counts) ≡ listed.files)
    × (counted.total ≡ listed.total)
    × (counted.returned ≡ listed.returned)
    × (counted.truncated ≡ listed.truncated)
count-files_output_example = count-files_output res 1

abbrev lib : Matchers
lib = record {
  compile = λ pat. some (λ s. true);
  match_name = λ pat name. true;
  validate_pattern = λ pat. true;
  match_path = λ pat path. true;
}

abbrev tree : Text → Option Node
tree path = some (
    dir (codes "w") true (
      cons
        (leaf (record {
          name = codes "f";
          regular = true;
          info = some (4, 1);
          content = some (codes "x\ny\n");
        }))
        nil))

abbrev input : GrepInput
input = record {
  pattern = codes "a";
  path = [];
  glob = [];
  case_insensitive = false;
  output_mode = codes "count";
  head_limit = pos 5;
}

abbrev cfg : SearchConfig
cfg = record { max_results = pos 0; max_file_size_bytes = pos 0 }

abbrev counted_f : GrepOutput
counted_f = record {
  mode = count_mode;
  matches = [];
  files = [];
  counts = record { path = codes "f"; count = 2 } ∷ [];
  total = 1;
  returned = 1;
  truncated = false;
  indicator = none;
}

grep_run : grep lib tree (λ n. false) dir_w cfg input ≡ ok counted_f
unfolding grep text_eq clean join split rel join_path node_name contains
grep_run = refl

grep-sum_counts_example : ReportsAll lib tree (λ n. false) dir_w cfg input counted_f
unfolding text_eq
grep-sum_counts_example =
    grep-sum_counts lib tree (λ n. false) dir_w cfg input counted_f refl grep_run refl

abbrev calls : List TodoCall
calls =
    create_call 1 (codes "plan" ∷ codes " ship " ∷ [])
    ∷ update_call 2 (codes "1") [] (codes "completed")
    ∷ update_call 3 [] (codes "x") []
    ∷ []

new-IsValid : IsValid new
unfolding numbers
new-IsValid = record { numbered = refl; clean = tt }

after_calls-Keeps_example : Keeps (after_calls calls (some new))
after_calls-Keeps_example = after_calls-Keeps calls (some new) new-IsValid

abbrev tool_of : Text → Tool Text
tool_of name = record {
  definition = record { name = name; description = [] };
  execute = λ args w. ((codes "done", none), w);
}

abbrev parent_tools : List (Tool Text)
parent_tools = tool_of (codes "bash") ∷ tool_of (codes "spawn_agent") ∷ []

abbrev no_tool : ToolCall → Text → (Text × Option ExecError) × Text
no_tool tc w = (([], none), w)

abbrev in_order : ℕ → Text → List ℕ
in_order n w = []

child_tool_set-offered_example :
    (child : Registry Text) × (tools : ToolSet Text) × (child_of_parent
        (some (new_registry parent_tools))
        none
      ≡ some (some child))
    × (child_tool_set no_tool in_order none (some child) ≡ some tools)
    × (map (λ i. i.name) (tools.0) ≡ kept_names (codes "bash" ∷ codes "spawn_agent" ∷ []))
    × Refuses no_tool tools
child_tool_set-offered_example = child_tool_set-offered no_tool in_order none parent_tools
