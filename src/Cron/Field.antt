-- ===== src/Cron/Field.antt =====
-- pkg/cron/frontmatter.go: one field of a frontmatter is rewritten in place. Strings are code points, and the
-- file system is two functions on the world `W`.
pub mod Lines
use gonesis.Prelude.{
  ℕ, zero, suc, ◌-◌, Text, codes, text_eq, Bool, true, false, not, ◌&&◌, ◌||◌, Option, none, some,
  List, [], ◌∷◌, ◌++◌, if◌then◌else◌, ◌==◌, Result, ok, err, ◌>>=◌, length, take, drop,
}
use gonesis.Strings.{trim_left, trim_right, trim_space, has_prefix, index, split, join}
use gonesis.Frontmatter.{opening, fence, FrontmatterError, split_frontmatter}

-- A space or a tab
abbrev pub is_blank : ℕ → Bool
is_blank c = c == 32 || c == 9

-- The loop of extractInlineComment; the flag says that a comment may start here.
unfoldable pub comment_from : Bool → Text → Text
unfolding trim_right
comment_from may_start [] = []
comment_from may_start (c ∷ s) =
    let rest = comment_from (is_blank c) s in
    if (c == 35) && may_start then trim_right is_blank (c ∷ s) else rest

unfoldable pub extract_inline_comment : Text → Text
unfolding comment_from
extract_inline_comment s = comment_from true s

-- What may follow the key and its colon
unfoldable pub ends_key : Text → Bool
ends_key [] = true
ends_key (c ∷ s) = is_blank c || c == 35

unfoldable pub has_key : Text → Text → Bool
unfolding trim_left has_prefix ends_key
has_key key line =
    let trimmed = trim_left is_blank line in
    has_prefix (key ++ 58 ∷ []) trimmed && ends_key (drop (length (key ++ 58 ∷ [])) trimmed)

abbrev pub with_comment : Text → Text → Text
with_comment line [] = line
with_comment line (c ∷ comment) = line ++ 32 ∷ c ∷ comment

-- The line of a field with a new value
unfoldable pub new_line : Text → Text → Text → Text
unfolding trim_left extract_inline_comment
new_line key scalar line =
    let trimmed = trim_left is_blank line in
    let indent = take (length line - length trimmed) line in
    with_comment (indent ++ (key ++ (58 ∷ 32 ∷ scalar)))
      (extract_inline_comment (drop (length (key ++ 58 ∷ [])) trimmed))

-- The loop over the lines, `none` where no line has the field.
unfoldable pub replace_field : Text → Text → List Text → Option (List Text)
unfolding has_key new_line
replace_field key scalar [] = none
replace_field key scalar (line ∷ lines) =
    let rest = replace_field key scalar lines in
    if has_key key line
    then some (new_line key scalar line ∷ lines)
    else elim rest [ none ↦ none | some lines' ↦ some (line ∷ lines') ]

-- insertAt: the number of lines before the blank ones at the end.
unfoldable pub insert_at : List Text → ℕ
unfolding trim_space
insert_at [] = 0
insert_at (line ∷ lines) =
    let rest = insert_at lines in if rest == 0 && text_eq (trim_space line) [] then 0 else suc rest

unfoldable pub replace_or_append_lines : Text → Text → List Text → List Text
unfolding replace_field insert_at
replace_or_append_lines key scalar lines = elim (replace_field key scalar lines) [
  | some lines' ↦ lines'
  | none ↦
      take (insert_at lines) lines ++ ((key ++ (58 ∷ 32 ∷ scalar)) ∷ drop (insert_at lines) lines)
]

unfoldable pub replace_or_append_field : Text → Text → Text → Text
unfolding split join replace_or_append_lines
replace_or_append_field frontmatter key scalar =
    join 10 (replace_or_append_lines key scalar (split 10 frontmatter))

pub data FieldError : Type 0 where
  read_failed : Text → FieldError
  frontmatter_error : FrontmatterError → FieldError
  marshal_value : Text → FieldError
  write_failed : Text → FieldError

-- marshalScalar: the YAML text of the value without the newlines at its end.
unfoldable pub marshal_scalar : Result Text Text → Result FieldError Text
unfolding trim_right
marshal_scalar (err e) = err (marshal_value e)
marshal_scalar (ok text) = ok (trim_right (λ c. c == 10) text)

abbrev pub split_or : Result FrontmatterError (Text × Text) → Result FieldError (Text × Text)
split_or (ok parts) = ok parts
split_or (err e) = err (frontmatter_error e)

-- The new text of the file
unfoldable pub set_field : Text → Result Text Text → Text → Result FieldError Text
unfolding split_frontmatter marshal_scalar replace_or_append_field
set_field key yaml content = do
  parts ← split_or (split_frontmatter content)
  scalar ← marshal_scalar yaml
  ok (opening ++ (replace_or_append_field (parts.0) key scalar ++ parts.1))

module _ {W : Type 0} (read : Text → W → Result Text Text)
    (write : Text → Text → W → Option Text × W) where
  -- `yaml` is yaml.Marshal of the value.
  unfoldable pub set_frontmatter_field : Text → Text → Result Text Text → W → Option FieldError × W
  unfolding set_field
  set_frontmatter_field path key yaml w = elim (read path w) [
    | err e ↦ (some (read_failed e), w)
    | ok content ↦ elim (set_field key yaml content) [
      | err e ↦ (some e, w)
      | ok content' ↦
          let (e, w') = write path content' w in
          elim e [ none ↦ (none, w') | some cause ↦ (some (write_failed cause), w') ]
    ]
  ]
