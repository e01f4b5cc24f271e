-- ===== src/Command/Tests.antt =====
-- A registry with one built-in command and one skill.
use gonesis.Prelude.{Text, codes, true, none, [], ◌∷◌, ok, All, ◌≡◌, refl, text_eq}
use gonesis.Prelude.{sym}
use mathlib.Core.Path.{subst}
use gonesis.Skill.{Skill, Yaml, Files, load, load_all, parse}
use gonesis.Command.{Command, Registry, new_registry, register, list_commands}
use gonesis.Command.Listing.{
  IsSound, Resolves, new_registry-IsSound, register-IsSound, list_commands-Resolves,
}

abbrev go_errors : Skill
go_errors = record {
  name = codes "go-errors";
  description = codes "Errors in Go";
  tags = [];
  content = codes "Wrap them.";
}

abbrev yaml_lib : Yaml
yaml_lib = record {
  marshal = λ name description tags. ok [];
  unmarshal = λ text. ok (record {
    name = codes "go-errors";
    description = codes "Errors in Go";
    tags = [];
    content = [];
  });
}

-- Every file holds the skill.
abbrev files : Files Text
files = record {
  read_file = λ path w. ok w;
  read_dir = λ path w. ok ((codes "go-errors", true) ∷ []);
  mkdir_all = λ path w. (none, w);
  write_file = λ path text w. (none, text);
  remove_all = λ path w. (none, w);
}

abbrev world : Text
world = codes "---\nname: go-errors\n---\nWrap them.\n"

abbrev version : Command Text
version = record {
  name = codes "version";
  description = codes "Show the version";
  execute = λ args w. (ok (codes "1"), w);
}

abbrev registry : Registry Text
registry = record { builtins = (codes "version", version) ∷ []; skills_dir = codes "skills" }

registered : register (new_registry (codes "skills")) version ≡ registry
unfolding register new_registry
registered = refl

registry-IsSound : IsSound registry
unfolding register new_registry
registry-IsSound =
    register-IsSound (new_registry (codes "skills")) version (new_registry-IsSound (codes "skills"))

loaded : (load_all yaml_lib files (codes "skills") world).0 ≡ go_errors ∷ []
unfolding load_all text_eq
loaded = refl

loads : load yaml_lib files (codes "skills") (codes "go-errors") world ≡ ok go_errors
unfolding load parse text_eq
loads = refl

all_load :
    All
      (λ (s : Skill). load yaml_lib files (codes "skills") (s.name) world ≡ ok s)
      ((load_all yaml_lib files (codes "skills") world).0)
all_load =
    subst (All (λ (s : Skill). load yaml_lib files (codes "skills") (s.name) world ≡ ok s))
      (sym loaded) (loads, tt)

list_commands-Resolves_example :
    All (Resolves yaml_lib files registry world) (list_commands yaml_lib files registry world)
list_commands-Resolves_example =
    list_commands-Resolves yaml_lib files registry world registry-IsSound all_load
