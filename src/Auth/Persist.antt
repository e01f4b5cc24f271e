-- ===== src/Auth/Persist.antt =====
-- `persist` replaces the file at once, or leaves it.
use gonesis.Prelude.{
  ℕ, List, Text, Option, none, some, Result, ok, err, ◌≡◌, ◌≢◌, refl, sym, ap, ◌∙◌,
}
use mathlib.Core.Path.{subst}
use gonesis.Auth.{
  AuthData, Host, after_rename, after_close, after_write, after_create, persist_raw, persist,
}

-- What the store relies on of the file system, for one file at `path`: a temporary file is another
-- file, writing, closing and removing that one leaves the file at `path`, a write that succeeds gives
-- the file its content, and a rename moves the content or does nothing.
pub record Files {W : Type 0} (host : Host W) (path : Text) : Type 0 where
  pub read : Text → W → Option (List ℕ)
  pub temp_ne : (w w' : W) (tmp : Text) → host.create_temp w ≡ (ok tmp, w') → tmp ≢ path
  pub create_kept : (w : W) → read path (host.create_temp w).1 ≡ read path w
  pub write_kept :
      (tmp : Text) (raw : List ℕ) (w : W)
      → tmp ≢ path
      → read path (host.write_file tmp raw w).1 ≡ read path w
  pub write_ok :
      (tmp : Text) (raw : List ℕ) (w w' : W)
      → host.write_file tmp raw w ≡ (none, w')
      → read tmp w' ≡ some raw
  pub close_kept : (tmp file : Text) (w : W) → read file (host.close_file tmp w).1 ≡ read file w
  pub remove_kept :
      (tmp : Text) (w : W) → tmp ≢ path → read path (host.remove_file tmp w) ≡ read path w
  pub rename_ok :
      (tmp : Text) (w w' : W) → host.rename_file tmp path w ≡ (none, w') → read path w' ≡ read tmp w
  pub rename_failed :
      (tmp e : Text) (w w' : W)
      → host.rename_file tmp path w ≡ (some e, w')
      → read path w' ≡ read path w

module _ {W : Type 0} (host : Host W) (path : Text) (files : Files host path) where
  -- The file is new if there is no error, and else the old one.
  abbrev Replaced : Option (List ℕ) → Option (List ℕ) → Option Text × W → Type 0
  Replaced old new (none, w) = files.read path w ≡ new
  Replaced old new (some e, w) = files.read path w ≡ old

  after_rename-Replaced :
      (tmp : Text) (w : W) (r : Option Text × W)
      → tmp ≢ path
      → host.rename_file tmp path w ≡ r
      → Replaced (files.read path w) (files.read tmp w) (after_rename host path tmp r)
  unfolding after_rename
  after_rename-Replaced tmp w (none, w') ne e = files.rename_ok tmp w w' e
  after_rename-Replaced tmp w (some msg, w') ne e =
      files.remove_kept tmp w' ne ∙ files.rename_failed tmp msg w w' e

  after_close-Replaced :
      (tmp : Text) (w : W) (r : Option Text × W)
      → tmp ≢ path
      → host.close_file tmp w ≡ r
      → Replaced (files.read path w) (files.read tmp w) (after_close host path tmp r)
  unfolding after_close
  after_close-Replaced tmp w (none, w') ne e =
      let kept : (file : Text) → files.read file w' ≡ files.read file w =
        λ file. ap (λ r. files.read file r.1) (sym e) ∙ files.close_kept tmp file w in
      subst
        (λ old.
          Replaced old (files.read tmp w)
            (after_rename host path tmp (host.rename_file tmp path w')))
        (kept path)
        (subst
          (λ new.
            Replaced (files.read path w') new
              (after_rename host path tmp (host.rename_file tmp path w')))
          (kept tmp) (after_rename-Replaced tmp w' (host.rename_file tmp path w') ne refl))
  after_close-Replaced tmp w (some msg, w') ne e =
      files.remove_kept tmp w' ne
      ∙ ap (λ r. files.read path r.1) (sym e)
      ∙ files.close_kept tmp path w

  after_write-Replaced :
      (tmp : Text) (raw : List ℕ) (w : W) (r : Option Text × W)
      → tmp ≢ path
      → host.write_file tmp raw w ≡ r
      → Replaced (files.read path w) (some raw) (after_write host path tmp r)
  unfolding after_write
  after_write-Replaced tmp raw w (none, w') ne e =
      let kept : files.read path w' ≡ files.read path w =
        ap (λ r. files.read path r.1) (sym e) ∙ files.write_kept tmp raw w ne in
      subst (λ old. Replaced old (some raw) (after_close host path tmp (host.close_file tmp w')))
        kept
        (subst
          (λ new.
            Replaced (files.read path w') new (after_close host path tmp (host.close_file tmp w')))
          (files.write_ok tmp raw w w' e)
          (after_close-Replaced tmp w' (host.close_file tmp w') ne refl))
  after_write-Replaced tmp raw w (some msg, w') ne e =
      files.remove_kept tmp (host.close_file tmp w').1 ne
      ∙ files.close_kept tmp path w'
      ∙ ap (λ r. files.read path r.1) (sym e)
      ∙ files.write_kept tmp raw w ne

  after_create-Replaced :
      (raw : List ℕ) (w : W) (r : Result Text Text × W)
      → host.create_temp w ≡ r
      → Replaced (files.read path w) (some raw) (after_create host path raw r)
  unfolding after_create
  after_create-Replaced raw w (ok tmp, w') e =
      subst
        (λ old. Replaced old (some raw) (after_write host path tmp (host.write_file tmp raw w')))
        (ap (λ r. files.read path r.1) (sym e) ∙ files.create_kept w)
        (after_write-Replaced tmp raw w' (host.write_file tmp raw w') (files.temp_ne w w' tmp e)
          refl)
  after_create-Replaced raw w (err msg, w') e =
      ap (λ r. files.read path r.1) (sym e) ∙ files.create_kept w

  persist_raw-Replaced :
      (r : Result Text (List ℕ)) (raw : List ℕ) (w : W)
      → r ≡ ok raw
      → Replaced (files.read path w) (some raw) (persist_raw host path r w)
  unfolding persist_raw
  persist_raw-Replaced (ok x) raw w e =
      let same : x ≡ raw = cc in
      subst
        (λ y. Replaced (files.read path w) (some y) (after_create host path x (host.create_temp w)))
        same (after_create-Replaced x w (host.create_temp w) refl)
  persist_raw-Replaced (err msg) raw w e = cc

  -- Whichever of its steps fails, `persist` leaves the old file; without an error the file is the
  -- encoding of the data. So the file is never half written.
  pub persist-Replaced :
      (d : AuthData) (raw : List ℕ) (w : W)
      → host.marshal d ≡ ok raw
      → ((persist host path d w).0 ≡ none → files.read path (persist host path d w).1 ≡ some raw)
        × ((e : Text)
            → (persist host path d w).0 ≡ some e
            → files.read path (persist host path d w).1 ≡ files.read path w)
  unfolding persist
  persist-Replaced d raw w encoded =
      split (persist_raw host path (host.marshal d) w)
        (persist_raw-Replaced (host.marshal d) raw w encoded)
    where
      split :
          (r : Option Text × W)
          → Replaced (files.read path w) (some raw) r
          → (r.0 ≡ none → files.read path r.1 ≡ some raw)
            × ((e : Text) → r.0 ≡ some e → files.read path r.1 ≡ files.read path w)
      split (none, w') h = (λ e. h, λ msg e. cc)
      split (some msg, w') h = (λ e. cc, λ msg e. h)
