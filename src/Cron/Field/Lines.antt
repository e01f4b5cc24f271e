-- ===== src/Cron/Field/Lines.antt =====
-- Only one line of a frontmatter changes, and nothing outside it.
use gonesis.Prelude.{
  Text, text_eq, text_eq_iff, true, false, ◌&&◌, none, some, Option-cases, List, [], ◌∷◌, ◌++◌, All,
  Result, ok, err, bind-ok, length, ◌==◌, take, drop, take-append-drop, ◌≡◌, ◌⊎◌, inl, inr, refl,
  sym, ap, ◌∙◌, arith, Bool-cases,
}
use mathlib.Core.Path.{subst}
use gonesis.Strings.{trim_space, split, join, index}
use gonesis.Frontmatter.{opening, fence, split_frontmatter}
use gonesis.Frontmatter.{FrontmatterError}
use gonesis.Frontmatter.Fence.{split_frontmatter-parts, split_frontmatter-fence}
use gonesis.Cron.Field.{
  split_or, has_key, new_line, replace_field, insert_at, replace_or_append_lines,
  replace_or_append_field, marshal_scalar, set_field,
}

abbrev Without : Text → Text → Type 0
Without key line = has_key key line ≡ false

abbrev Blank : Text → Type 0
Blank line = trim_space line ≡ []

-- The first line that has the field is replaced; where none has it, one line is put in before the
-- blank lines at the end.
abbrev pub OneLine : Text → Text → List Text → List Text → Type 0
OneLine key scalar lines lines' =
    ((before : List Text) × (line : Text) × (after : List Text) × (lines ≡ before ++ line ∷ after)
      × (lines' ≡ before ++ new_line key scalar line ∷ after)
      × (has_key key line ≡ true)
      × All (Without key) before)
    ⊎ ((before : List Text) × (after : List Text) × (lines ≡ before ++ after)
        × (lines' ≡ before ++ (key ++ (58 ∷ 32 ∷ scalar)) ∷ after)
        × All (Without key) lines
        × All Blank after)

replace_field-some :
    (key scalar : Text) (lines lines' : List Text)
    → replace_field key scalar lines ≡ some lines'
    → (before : List Text) × (line : Text) × (after : List Text) × (lines ≡ before ++ line ∷ after)
      × (lines' ≡ before ++ new_line key scalar line ∷ after)
      × (has_key key line ≡ true)
      × All (Without key) before
unfolding replace_field
replace_field-some key scalar [] lines' h = absurd (ground (arith, h))
replace_field-some key scalar (line ∷ lines) lines' h = elim (Bool-cases (has_key key line)) [
  | inl e ↦ ([], line, lines, refl, ground (arith, e, h), e, tt)
  | inr e ↦ elim (Option-cases (replace_field key scalar lines)) [
    | inl f ↦ absurd (ground (arith, e, f, h))
    | inr (rest, f) ↦
        let (before, old, after, split, put, key_here, none_before) =
          replace_field-some key scalar lines rest f in
        let r : lines' ≡ line ∷ rest = ground (arith, e, f, h) in
        (
          line ∷ before,
          old,
          after,
          ap (λ l. line ∷ l) split,
          r ∙ ap (λ l. line ∷ l) put,
          key_here,
          (e, none_before),
        )
  ]
]

replace_field-none :
    (key scalar : Text) (lines : List Text)
    → replace_field key scalar lines ≡ none
    → All (Without key) lines
unfolding replace_field
replace_field-none key scalar [] h = tt
replace_field-none key scalar (line ∷ lines) h = elim (Bool-cases (has_key key line)) [
  | inl e ↦ absurd (ground (arith, e, h))
  | inr e ↦ elim (Option-cases (replace_field key scalar lines)) [
    | inl f ↦ (e, replace_field-none key scalar lines f)
    | inr (rest, f) ↦ absurd (ground (arith, e, f, h))
  ]
]

drop-insert_at : (lines : List Text) → All Blank (drop (insert_at lines) lines)
unfolding insert_at
drop-insert_at [] = tt
drop-insert_at (line ∷ lines) =
    let ih = drop-insert_at lines in
    elim (Bool-cases ((insert_at lines == 0) && text_eq (trim_space line) [])) [
      | inl e ↦
          let z : insert_at lines ≡ 0 = ground (arith, e) in
          let b : trim_space line ≡ [] = ground (arith, e, text_eq_iff (trim_space line) []) in
          rw e (b, subst (λ k. All Blank (drop k lines)) z ih)
      | inr e ↦ rw e ih
    ]

-- The lines of the loop are the result where it found the field.
chosen :
    (key scalar : Text) (lines lines' : List Text)
    → replace_field key scalar lines ≡ some lines'
    → replace_field key scalar lines ≡ some (replace_or_append_lines key scalar lines)
unfolding replace_or_append_lines
chosen key scalar lines lines' e = ground (arith, e)

replace_or_append_lines-OneLine :
    (key scalar : Text) (lines : List Text)
    → OneLine key scalar lines (replace_or_append_lines key scalar lines)
unfolding replace_or_append_lines
replace_or_append_lines-OneLine key scalar lines =
    elim (Option-cases (replace_field key scalar lines)) [
      | inr (lines', e) ↦
          inl (replace_field-some key scalar lines _ (chosen key scalar lines lines' e))
      | inl e ↦ inr (
        take (insert_at lines) lines,
        drop (insert_at lines) lines,
        sym (take-append-drop (insert_at lines) lines),
        ground (arith, e),
        replace_field-none key scalar lines e,
        drop-insert_at lines,
      )
    ]

split_or-ok :
    (r : Result FrontmatterError (Text × Text)) (parts : Text × Text)
    → split_or r ≡ ok parts
    → r ≡ ok parts
split_or-ok (ok p) parts h = ground (arith, h)
split_or-ok (err e) parts h = absurd (ground (arith, h))

-- The trailer starts at the first fence behind the opening line.
abbrev pub FieldSet : Text → Result Text Text → Text → Text → Type 0
FieldSet key yaml content content' =
    (frontmatter : Text) × (trailer : Text) × (scalar : Text) × (lines' : List Text)
    × (marshal_scalar yaml ≡ ok scalar)
    × (content ≡ opening ++ (frontmatter ++ trailer))
    × (index fence (frontmatter ++ trailer) ≡ some (length frontmatter))
    × (trailer ≡ fence ++ drop 4 trailer)
    × (content' ≡ opening ++ (join 10 lines' ++ trailer))
    × OneLine key scalar (split 10 frontmatter) lines'

-- When a field is set in a file's text, the text was an opening line, a frontmatter and the rest
-- from the first fence on; the new text has the same opening line and the same rest, and of the
-- frontmatter's lines one is replaced or put in.
pub set_field-OneLine :
    (key content content' : Text) (yaml : Result Text Text)
    → set_field key yaml content ≡ ok content'
    → FieldSet key yaml content content'
unfolding set_field replace_or_append_field
set_field-OneLine key content content' yaml h =
    let (parts, p, k) = bind-ok (split_or (split_frontmatter content)) _ content' h in
    let (scalar, m, put) = bind-ok (marshal_scalar yaml) _ content' k in
    (
      parts.0,
      parts.1,
      scalar,
      replace_or_append_lines key scalar (split 10 (parts.0)),
      m,
      split_frontmatter-parts content (parts.0) (parts.1)
          (split_or-ok (split_frontmatter content) parts p),
      (split_frontmatter-fence content (parts.0) (parts.1)
          (split_or-ok (split_frontmatter content) parts p)).0,
      (split_frontmatter-fence content (parts.0) (parts.1)
          (split_or-ok (split_frontmatter content) parts p)).1,
      ground (arith, put),
      replace_or_append_lines-OneLine key scalar (split 10 (parts.0)),
    )
