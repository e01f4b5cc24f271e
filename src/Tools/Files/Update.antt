-- ===== src/Tools/Files/Update.antt =====
-- update_file: what it writes, and that an error writes nothing.
use gonesis.Prelude.{
  Text, none, ◌++◌, Result, ok, err, Result-cases, ◌==◌, ltb, ◌≡◌, ◌⊎◌, inl, inr, arith, Bool-cases,
  Option-cases,
}
use mathlib.Core.Path.{subst}
use gonesis.Strings.Replace.{count, replace_first, replace_first-found}
use gonesis.Tools.Files.{Host, FileError, writing, resolve_path, write_back, update_file}

-- A write that fails is the only error that may leave another world.
abbrev pub FailedWrite : FileError → Type 0
FailedWrite e = (p : Text) × (cause : Text) × (e ≡ writing p cause)

module _ {W : Type 0} (host : Host W) where
  pub write_back-ok :
      {A : Type 0} (p content : Text) (a : A) (w w' : W) (b : A)
      → ◌≡◌ {A = Result FileError A × W} (write_back host p content a w) (ok b, w')
      → (b ≡ a) × (host.write_file p content w ≡ (none, w'))
  unfolding write_back
  write_back-ok p content a w w' b h = elim (Option-cases ((host.write_file p content w).0)) [
    | inl e ↦ ground (arith, e)
    | inr (cause, e) ↦ ground (arith, e)
  ]

  pub write_back-err :
      {A : Type 0} (p content : Text) (a : A) (w w' : W) (e : FileError)
      → ◌≡◌ {A = Result FileError A × W} (write_back host p content a w) (err e, w')
      → FailedWrite e
  unfolding write_back
  write_back-err p content a w w' e h = elim (Option-cases ((host.write_file p content w).0)) [
    | inl f ↦ ground (arith, f)
    | inr (cause, f) ↦ (p, cause, ground (arith, f))
  ]

module _ {W : Type 0} (host : Host W) (work_dir path old new : Text) (w w' : W) where
  -- One occurrence of the old text, in what was read, is replaced in what is written.
  abbrev pub ReplacesIn : Text → Text → Type 0
  ReplacesIn p content =
      (before : Text) × (after : Text) × (content ≡ before ++ (old ++ after))
      × (host.write_file p (before ++ (new ++ after)) w ≡ (none, w'))

  abbrev pub Updated : Text → Type 0
  Updated p =
      (p ≡ resolve_path work_dir path)
      × (content : Text) × (host.read_file p w ≡ ok content)
      × (count old content ≡ 1)
      × ReplacesIn p content

  update_file-ok :
      (p : Text)
      → ◌≡◌ {A = Result FileError Text × W} (update_file host work_dir path old new w) (ok p, w')
      → (p ≡ resolve_path work_dir path)
        × (content : Text) × (host.read_file p w ≡ ok content)
        × (count old content ≡ 1)
        × (host.write_file p (replace_first old new content) w ≡ (none, w'))
  unfolding update_file
  update_file-ok p h =
      let at = resolve_path work_dir path in
      elim (Result-cases (host.read_file at w)) [
        | inr (cause, f) ↦ absurd (ground (arith, f))
        | inl (content, f) ↦ elim (Bool-cases (count old content == 0)) [
          | inl z ↦ absurd (ground (arith, f, z))
          | inr z ↦ elim (Bool-cases (ltb 1 (count old content))) [
            | inl m ↦ absurd (ground (arith, f, z, m))
            | inr m ↦
                let (e, written) =
                  write_back-ok host at (replace_first old new content) at w w' p
                    (ground (arith, f, z, m)) in
                let one : count old content ≡ 1 = ground (arith, z, m) in
                (e, content, rw e f, one, rw e written)
          ]
        ]
      ]

  -- When update_file succeeds, the file held the old text, once by strings.Count, and the write
  -- that succeeded puts the new text in its place and keeps everything before and after it.
  pub update_file-ReplacesIn :
      (p : Text)
      → ◌≡◌ {A = Result FileError Text × W} (update_file host work_dir path old new w) (ok p, w')
      → Updated p
  update_file-ReplacesIn p h =
      let (e, content, r, one, written) = update_file-ok p h in
      let (before, after, split, replaced) =
        replace_first-found old new content (λ z. absurd (omega (arith, one, z))) in
      let put = subst (λ t. host.write_file p t w ≡ (none, w')) replaced written in
      (e, content, r, one, (before, after, split, put))

  -- When update_file fails otherwise than by the write itself, nothing is written.
  pub update_file-err :
      (e : FileError)
      → ◌≡◌ {A = Result FileError Text × W} (update_file host work_dir path old new w) (err e, w')
      → FailedWrite e ⊎ (w' ≡ w)
  unfolding update_file
  update_file-err e h = elim (Result-cases (host.read_file (resolve_path work_dir path) w)) [
    | inr (cause, f) ↦ inr (ground (arith, f))
    | inl (content, f) ↦ elim (Bool-cases (count old content == 0)) [
      | inl z ↦ inr (ground (arith, f, z))
      | inr z ↦ elim (Bool-cases (ltb 1 (count old content))) [
        | inl m ↦ inr (ground (arith, f, z, m))
        | inr m ↦ inl (
            write_back-err host (resolve_path work_dir path) (replace_first old new content)
              (resolve_path work_dir path) w w' e (ground (arith, f, z, m)))
      ]
    ]
  ]
