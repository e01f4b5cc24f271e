-- ===== src/Skill.antt =====
-- pkg/skill/skill.go: skills as files. A string is its code points. YAML and the file system are parameters.
mod Tests
pub mod Roundtrip
use gonesis.Prelude.{
  ℕ, Text, codes, text_eq, Bool, true, false, not, Option, none, some, List, [], ◌∷◌, ◌++◌,
  if◌then◌else◌, Result, ok, err, ◌>>=◌, drop,
}
use gonesis.Strings.{trim_space}
use gonesis.Filepath.{join_path}
use gonesis.Frontmatter.{opening, FrontmatterError, split_frontmatter}

pub record Skill : Type 0 where
  pub name : Text
  pub description : Text
  pub tags : List Text
  pub content : Text

-- yaml.Marshal of the struct of Serialize, and yaml.Unmarshal, which leaves `content` empty.
pub record Yaml : Type 0 where
  pub marshal : Text → Text → List Text → Result Text Text
  pub unmarshal : Text → Result Text Skill

pub data SkillError : Type 0 where
  frontmatter : FrontmatterError → SkillError
  parse_frontmatter : Text → SkillError
  name_is_required : SkillError
  description_is_required : SkillError
  marshal_frontmatter : Text → SkillError
  load_failed : Text → SkillError
  list_dirs : Text → SkillError
  in_directory : Text → SkillError → SkillError
  create_dir : Text → SkillError
  write_failed : Text → SkillError

abbrev with_frontmatter : Result FrontmatterError (Text × Text) → Result SkillError (Text × Text)
with_frontmatter (ok parts) = ok parts
with_frontmatter (err e) = err (frontmatter e)

-- Parse behind yaml.Unmarshal
unfoldable pub skill_of : Text → Result Text Skill → Result SkillError Skill
skill_of body (err e) = err (parse_frontmatter e)
skill_of body (ok s) =
    if text_eq (s.name) []
    then err name_is_required
    else if text_eq (s.description) []
    then err description_is_required
    else ok (record { name = s.name; description = s.description; tags = s.tags; content = body })

unfoldable pub parse : Yaml → Text → Result SkillError Skill
unfolding split_frontmatter skill_of trim_space
parse lib content = do
  parts ← with_frontmatter (split_frontmatter content)
  skill_of (trim_space (drop 4 (parts.1))) (lib.unmarshal (parts.0))

unfoldable pub content_lines : Text → Text
content_lines [] = []
content_lines (c ∷ content) = (c ∷ content) ++ 10 ∷ []

-- What Serialize writes around the YAML
unfoldable pub file_text : Text → Result Text Text → Result SkillError Text
unfolding content_lines
file_text content (err e) = err (marshal_frontmatter e)
file_text content (ok fm) = ok (opening ++ (fm ++ (opening ++ content_lines content)))

unfoldable pub serialize : Yaml → Skill → Result SkillError Text
unfolding file_text
serialize lib s = file_text (s.content) (lib.marshal (s.name) (s.description) (s.tags))

abbrev pub skill_file : Text
skill_file = codes "SKILL.md"

unfoldable pub skill_path : Text → Text
unfolding join_path
skill_path name = join_path name skill_file

-- os.ReadFile, os.ReadDir (each entry's name, and whether it is a directory), os.MkdirAll,
-- os.WriteFile and os.RemoveAll
pub record Files (W : Type 0) : Type 0 where
  pub read_file : Text → W → Result Text Text
  pub read_dir : Text → W → Result Text (List (Text × Bool))
  pub mkdir_all : Text → W → Option Text × W
  pub write_file : Text → Text → W → Option Text × W
  pub remove_all : Text → W → Option Text × W

abbrev pub file_of : Text → Text → Text
file_of dir name = join_path (join_path dir name) skill_file

-- What Load makes of what os.ReadFile gives
abbrev pub parse_read : Yaml → Result Text Text → Result SkillError Skill
parse_read lib (err e) = err (load_failed e)
parse_read lib (ok content) = parse lib content

module _ {W : Type 0} (lib : Yaml) (files : Files W) where
  unfoldable pub load : Text → Text → W → Result SkillError Skill
  unfolding join_path
  load dir name w = parse_read lib (files.read_file (file_of dir name) w)

  -- The loop of LoadAll over the entries: the skills and the errors.
  unfoldable pub load_entries : Text → List (Text × Bool) → W → List Skill × List SkillError
  unfolding parse join_path
  load_entries dir [] w = ([], [])
  load_entries dir ((name, is_dir) ∷ entries) w =
      let (skills, errs) = load_entries dir entries w in
      if not is_dir then (skills, errs) else elim (files.read_file (file_of dir name) w) [
        | err e ↦ (skills, errs)
        | ok content ↦ elim (parse lib content) [
          | err e ↦ (skills, in_directory name e ∷ errs)
          | ok s ↦ (s ∷ skills, errs)
        ]
      ]

  unfoldable pub load_all : Text → W → List Skill × List SkillError
  unfolding load_entries
  load_all dir w = elim (files.read_dir dir w) [
    | err e ↦ ([], list_dirs e ∷ [])
    | ok entries ↦ load_entries dir entries w
  ]

  -- Save behind Serialize
  unfoldable pub save_text : Text → Text → Text → W → Option SkillError × W
  unfolding join_path
  save_text dir name text w =
      let (e, w₁) = files.mkdir_all (join_path dir name) w in
      elim e [
        | some cause ↦ (some (create_dir cause), w₁)
        | none ↦
            let (f, w₂) = files.write_file (file_of dir name) text w₁ in
            elim f [ none ↦ (none, w₂) | some cause ↦ (some (write_failed cause), w₂) ]
      ]

  unfoldable pub save : Text → Skill → W → Option SkillError × W
  unfolding serialize save_text
  save dir s w = elim (serialize lib s) [
    | err e ↦ (some e, w)
    | ok text ↦ save_text dir (s.name) text w
  ]

  unfoldable pub delete : Text → Text → W → Option Text × W
  unfolding join_path
  delete dir name w = files.remove_all (join_path dir name) w
