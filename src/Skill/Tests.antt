-- ===== src/Skill/Tests.antt =====
-- A skill on a file system of one file.
use gonesis.Prelude.{Text, codes, none, [], ◌∷◌, ok, ◌≡◌, refl, arith}
use gonesis.Strings.{index, trim_space}
use gonesis.Frontmatter.{fence}
use gonesis.Skill.{Skill, Yaml, Files, save, load}
use gonesis.Skill.Roundtrip.{ReadsBack, load-save, bare}

abbrev go_errors : Skill
go_errors = record {
  name = codes "go-errors";
  description = codes "Errors in Go";
  tags = codes "go" ∷ [];
  content = codes "## Errors\nWrap them.";
}

abbrev yaml_lib : Yaml
yaml_lib = record {
  marshal = λ name description tags. ok (codes "name: go-errors\n");
  unmarshal = λ text. ok (bare go_errors);
}

-- The world is the text of the file.
abbrev files : Files Text
files = record {
  read_file = λ path w. ok w;
  read_dir = λ path w. ok [];
  mkdir_all = λ path w. (none, w);
  write_file = λ path text w. (none, text);
  remove_all = λ path w. (none, []);
}

no_fence : index fence (codes "name: go-errors") ≡ none
unfolding index
no_fence = refl

go_errors-ReadsBack : ReadsBack yaml_lib go_errors
go_errors-ReadsBack = record {
  yaml = codes "name: go-errors";
  marshalled = refl;
  no_fence = no_fence;
  unmarshalled = refl;
}

abbrev written : Text
written = codes "---\nname: go-errors\n---\n## Errors\nWrap them.\n"

saved : save yaml_lib files (codes "skills") go_errors [] ≡ (none, written)
unfolding save
saved = refl

load-save_example : load yaml_lib files (codes "skills") (codes "go-errors") written ≡ ok go_errors
unfolding trim_space
load-save_example =
    load-save yaml_lib files (codes "skills") go_errors [] written
      (λ path text w₁ w₂ e. ground (arith, e)) go_errors-ReadsBack (λ e. cc) (λ e. cc) refl saved
