-- ===== src/Skill/Roundtrip.antt =====
-- A skill that is saved is loaded back.
use gonesis.Prelude.{
  Text, text_eq_ne, none, Option-cases, [], ◌∷◌, ◌++◌, ok, Result-cases, ◌≡◌, ◌≢◌, refl, ap, ◌∙◌,
  arith, append_assoc, inl, inr,
}
use gonesis.Strings.{trim_space, index, is_space, trim_left, trim_right}
use gonesis.Strings.Trim.{trim_space-lines}
use gonesis.Frontmatter.{opening, fence}
use gonesis.Frontmatter.Fence.{split_frontmatter-written}
use gonesis.Filepath.{join_path}
use gonesis.Skill.{
  Skill, Yaml, skill_of, parse, content_lines, file_text, serialize, Files, file_of, load,
  save_text, save, parse_read,
}

-- The skill without its content, as YAML reads it.
abbrev pub bare : Skill → Skill
bare s = record { name = s.name; description = s.description; tags = s.tags; content = [] }

-- What YAML does with one skill: it writes its struct as lines that do not hold a line of three
-- dashes behind a newline, and reads it back from them.
pub record ReadsBack (lib : Yaml) (s : Skill) : Type 0 where
  pub yaml : Text
  pub marshalled : lib.marshal (s.name) (s.description) (s.tags) ≡ ok (yaml ++ 10 ∷ [])
  pub no_fence : index fence yaml ≡ none
  pub unmarshalled : lib.unmarshal yaml ≡ ok (bare s)

trim_space-content_lines : (t : Text) → trim_space (10 ∷ content_lines t) ≡ trim_space t
unfolding content_lines
trim_space-content_lines [] = unfold trim_space is_space trim_left trim_right in refl
trim_space-content_lines (c ∷ t) = trim_space-lines (c ∷ t)

serialized :
    (lib : Yaml) (s : Skill) (r : ReadsBack lib s)
    → serialize lib s ≡ ok (opening ++ (r.yaml ++ (fence ++ 10 ∷ content_lines (s.content))))
unfolding serialize file_text
serialized lib s r =
    ap (file_text (s.content)) (r.marshalled)
    ∙ ap (λ t. ok (opening ++ t))
        (append_assoc (r.yaml) (10 ∷ []) (opening ++ content_lines (s.content)))

skill_of-bare :
    (s : Skill) → s.name ≢ [] → s.description ≢ [] → skill_of (s.content) (ok (bare s)) ≡ ok s
unfolding skill_of
skill_of-bare s name description =
    rw (text_eq_ne (s.name) [] name, text_eq_ne (s.description) [] description)

parse-written :
    (lib : Yaml) (yaml content : Text)
    → index fence yaml ≡ none
    → trim_space content ≡ content
    → parse lib (opening ++ (yaml ++ (fence ++ 10 ∷ content_lines content)))
      ≡ skill_of content (lib.unmarshal yaml)
unfolding parse
parse-written lib yaml content h t = rw (
  split_frontmatter-written yaml (10 ∷ content_lines content) h,
  trim_space-content_lines content,
  t,
)

-- The text of a skill that Serialize writes is parsed to the skill.
parse-serialized :
    (lib : Yaml) (s : Skill) (text : Text)
    → ReadsBack lib s
    → s.name ≢ []
    → s.description ≢ []
    → trim_space (s.content) ≡ s.content
    → serialize lib s ≡ ok text
    → parse lib text ≡ ok s
parse-serialized lib s text r name description trimmed h =
    let same : opening ++ (r.yaml ++ (fence ++ 10 ∷ content_lines (s.content))) ≡ text =
      ground (arith, h, serialized lib s r) in
    rw (← same, parse-written lib (r.yaml) (s.content) (r.no_fence) trimmed, r.unmarshalled)
      (skill_of-bare s name description)

module _ {W : Type 0} (lib : Yaml) (files : Files W) (dir : Text) (s : Skill) (w w' : W) where
  save_text-written :
      (text : Text)
      → save_text lib files dir (s.name) text w ≡ (none, w')
      → (w₁ : W) × (files.write_file (file_of dir (s.name)) text w₁ ≡ (none, w'))
  unfolding save_text
  save_text-written text h = elim (Option-cases ((files.mkdir_all (join_path dir (s.name)) w).0)) [
    | inr (cause, e) ↦ absurd (ground (arith, e))
    | inl e ↦
        let w₁ = (files.mkdir_all (join_path dir (s.name)) w).1 in
        elim (Option-cases ((files.write_file (file_of dir (s.name)) text w₁).0)) [
          | inr (cause, f) ↦ absurd (ground (arith, e, f))
          | inl f ↦ (w₁, ground (arith, e, f))
        ]
  ]

  -- When a file that is written without an error holds what was written, a skill that Save stored is
  -- what Load gives for its name: its name and description are not empty, its content has no space
  -- around it, and YAML reads back what it wrote.
  pub load-save :
      ((path text : Text) (w₁ w₂ : W)
        → files.write_file path text w₁ ≡ (none, w₂)
        → files.read_file path w₂ ≡ ok text)
      → ReadsBack lib s
      → s.name ≢ []
      → s.description ≢ []
      → trim_space (s.content) ≡ s.content
      → save lib files dir s w ≡ (none, w')
      → load lib files dir (s.name) w' ≡ ok s
  unfolding save load
  load-save stored r name description trimmed h = elim (Result-cases (serialize lib s)) [
    | inr (e, f) ↦ absurd (ground (arith, f))
    | inl (text, f) ↦
        let (w₁, written) = save_text-written text (ground (arith, f)) in
        ap (parse_read lib) (stored (file_of dir (s.name)) text w₁ w' written)
        ∙ parse-serialized lib s text r name description trimmed f
  ]
