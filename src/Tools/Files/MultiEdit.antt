-- ===== src/Tools/Files/MultiEdit.antt =====
-- multi_edit: all edits in their order and one write, or nothing.
use gonesis.Prelude.{
  ℕ, suc, Text, true, false, none, Option-cases, List, [], ◌∷◌, ◌++◌, Result, ok, err, Result-cases,
  bind-ok, ◌==◌, ltb, length, ◌≡◌, ◌≢◌, ◌⊎◌, inl, inr, ap, arith, Bool-cases,
}
use gonesis.Strings.Replace.{count, replace_all, replace_first-found}
use gonesis.Tools.Files.{
  Host, FileError, EditSpec, resolve_path, check_edits, apply_edit, apply_edits, edit_file,
  multi_edit,
}
use gonesis.Tools.Files.Update.{FailedWrite, write_back-ok, write_back-err}

-- What one edit does to a text: it replaces the only occurrence, or every one where it says so.
abbrev pub EditedBy : EditSpec → Text → Text → Type 0
EditedBy e content content' =
    ((e.replace_all ≡ true)
      × (count (e.old_string) content ≢ 0)
      × (content' ≡ replace_all (e.old_string) (e.new_string) content))
    ⊎ ((e.replace_all ≡ false)
        × (count (e.old_string) content ≡ 1)
        × (before : Text) × (after : Text) × (content ≡ before ++ (e.old_string ++ after))
        × (content' ≡ before ++ (e.new_string ++ after)))

-- What the edits do one after the other: each one on the text that the one before left.
abbrev pub Edits : List EditSpec → Text → Text → Type 0
Edits [] content content' = content' ≡ content
Edits (e ∷ edits) content content' =
    (between : Text) × EditedBy e content between × Edits edits between content'

apply_edit-EditedBy :
    (path : Text) (i : ℕ) (e : EditSpec) (content content' : Text)
    → apply_edit path i e content ≡ ok content'
    → EditedBy e content content'
unfolding apply_edit
apply_edit-EditedBy path i e content content' h =
    let found = count (e.old_string) content in
    elim (Bool-cases (found == 0)) [
      | inl z ↦ absurd (ground (arith, z))
      | inr z ↦ elim (Bool-cases (e.replace_all)) [
        | inl r ↦ inl (r, ground (arith, z), ground (arith, z, r))
        | inr r ↦ elim (Bool-cases (ltb 1 found)) [
          | inl m ↦ absurd (ground (arith, z, r, m))
          | inr m ↦
              let (before, after, split, replaced) =
                replace_first-found (e.old_string) (e.new_string) content (ground (arith, z)) in
              inr (r, ground (arith, z, m), before, after, split, ground (arith, z, r, m, replaced))
        ]
      ]
    ]

pub apply_edits-Edits :
    (path : Text) (i : ℕ) (edits : List EditSpec) (content content' : Text)
    → apply_edits path i edits content ≡ ok content'
    → Edits edits content content'
unfolding apply_edits
apply_edits-Edits path i [] content content' h = ground (arith, h)
apply_edits-Edits path i (e ∷ edits) content content' h =
    let (between, first, rest) =
      bind-ok (apply_edit path i e content) (λ t. apply_edits path (suc i) edits t) content' h in
    (
      between,
      apply_edit-EditedBy path i e content between first,
      apply_edits-Edits path (suc i) edits between content' rest,
    )

module _ {W : Type 0} (host : Host W) (work_dir path : Text) (edits : List EditSpec)
    (w w' : W) where
  abbrev pub Wrote : Text → Type 0
  Wrote p =
      (content : Text) × (content' : Text) × (host.read_file p w ≡ ok content)
      × Edits edits content content'
      × (host.write_file p content' w ≡ (none, w'))

  edit_file-Wrote :
      (p : Text) (n : ℕ)
      → ◌≡◌ {A = Result FileError (Text × ℕ) × W}
          (edit_file host work_dir path edits w)
          (ok (p, n), w')
      → (p ≡ resolve_path work_dir path) × (n ≡ length edits) × Wrote p
  unfolding edit_file
  edit_file-Wrote p n h =
      let at = resolve_path work_dir path in
      elim (Result-cases (host.read_file at w)) [
        | inr (cause, f) ↦ absurd (ground (arith, f))
        | inl (content, f) ↦ elim (Result-cases (apply_edits at 0 edits content)) [
          | inr (e, g) ↦ absurd (ground (arith, f, g))
          | inl (content', g) ↦
              let done : Text × ℕ = (at, length edits) in
              let answer : Text × ℕ = (p, n) in
              let (e, written) =
                write_back-ok host at content' done w w' answer (ground (arith, f, g)) in
              let at_p : p ≡ at = ap (λ x. x.0) e in
              (
                at_p,
                ap (λ x. x.1) e,
                (
                  content,
                  content',
                  rw at_p f,
                  apply_edits-Edits at 0 edits content content' g,
                  rw at_p written,
                ),
              )
        ]
      ]

  edit_file-err :
      (e : FileError)
      → ◌≡◌ {A = Result FileError (Text × ℕ) × W} (edit_file host work_dir path edits w) (err e, w')
      → FailedWrite e ⊎ (w' ≡ w)
  unfolding edit_file
  edit_file-err e h =
      let at = resolve_path work_dir path in
      elim (Result-cases (host.read_file at w)) [
        | inr (cause, f) ↦ inr (ground (arith, f))
        | inl (content, f) ↦ elim (Result-cases (apply_edits at 0 edits content)) [
          | inr (cause, g) ↦ inr (ground (arith, f, g))
          | inl (content', g) ↦
              let done : Text × ℕ = (at, length edits) in
              inl (write_back-err host at content' done w w' e (ground (arith, f, g)))
        ]
      ]

module _ {W : Type 0} (host : Host W) (work_dir path : Text) (w w' : W) where
  -- When multi_edit succeeds, the text that it writes, in one write, is what the edits make of the
  -- text that it read, each edit on the text that the one before left.
  pub multi_edit-Wrote :
      (edits : List EditSpec) (p : Text) (n : ℕ)
      → ◌≡◌ {A = Result FileError (Text × ℕ) × W}
          (multi_edit host work_dir path edits w)
          (ok (p, n), w')
      → (p ≡ resolve_path work_dir path)
        × (n ≡ length edits)
        × Wrote host work_dir path edits w w' p
  unfolding multi_edit
  multi_edit-Wrote [] p n h = absurd (ground (arith, h))
  multi_edit-Wrote (e ∷ edits) p n h = elim (Option-cases (check_edits 0 (e ∷ edits))) [
    | inl f ↦ edit_file-Wrote host work_dir path (e ∷ edits) w w' p n (ground (arith, f))
    | inr (cause, f) ↦ absurd (ground (arith, f))
  ]

  -- When multi_edit fails otherwise than by the write itself, nothing is written, whichever edit
  -- failed and whatever the edits before it did.
  pub multi_edit-err :
      (edits : List EditSpec) (e : FileError)
      → ◌≡◌ {A = Result FileError (Text × ℕ) × W}
          (multi_edit host work_dir path edits w)
          (err e, w')
      → FailedWrite e ⊎ (w' ≡ w)
  unfolding multi_edit
  multi_edit-err [] e h = inr (ground (arith, h))
  multi_edit-err (spec ∷ edits) e h = elim (Option-cases (check_edits 0 (spec ∷ edits))) [
    | inl f ↦ edit_file-err host work_dir path (spec ∷ edits) w w' e (ground (arith, f))
    | inr (cause, f) ↦ inr (ground (arith, f))
  ]
