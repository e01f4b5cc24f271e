-- ===== src/Memory/Transcript.antt =====
-- What the transcript keeps: what the user wrote, whatever surrounds it.
use gonesis.Prelude.{
  ℕ, zero, suc, ◌≤◌, ◌≡◌, Text, codes, List, [], ◌∷◌, ◌++◌, refl, sym, ap, ◌∙◌, arith, append_assoc,
}
use gonesis.Dict.{Dict}
use gonesis.Provider.{Role, user, model, tool, Message}
use gonesis.Memory.{
  Entry, text_entry, call_entry, run_length, render_run, collapse, message_entries, names_after,
  entries_of, format_transcript,
}

-- The text stands in the output, as a paragraph.
abbrev pub Shows : Text → Text → Type 0
Shows out t = (before after : Text) × (out ≡ before ++ (t ++ (codes "\n\n" ++ after)))

Shows-append : (x out t : Text) → Shows out t → Shows (x ++ out) t
Shows-append x out t (before, after, same) =
    (x ++ before, after, ap (λ o. x ++ o) same ∙ sym (append_assoc x before _))

-- A run ends before a text, so the calls that are skipped are before it.
collapse-Shows :
    (skip : ℕ) (name : Text) (es rest : List Entry) (t : Text)
    → skip ≤ run_length name (es ++ text_entry t ∷ rest)
    → Shows (collapse skip (es ++ text_entry t ∷ rest)) t
unfolding collapse run_length
collapse-Shows zero name [] rest t h = ([], collapse zero rest, refl)
collapse-Shows (suc skip) name [] rest t h = absurd (omega (arith, h))
collapse-Shows zero name (text_entry u ∷ es) rest t h =
    let whole = es ++ text_entry t ∷ rest in
    Shows-append u (codes "\n\n" ++ collapse zero whole) t (
      Shows-append (codes "\n\n") (collapse zero whole) t
        (collapse-Shows zero name es rest t (omega arith)))
collapse-Shows (suc skip) name (text_entry u ∷ es) rest t h = absurd (omega (arith, h))
collapse-Shows zero name (call_entry other ∷ es) rest t h =
    let whole = es ++ text_entry t ∷ rest in
    let n = run_length other whole in
    Shows-append (render_run other (suc n)) (collapse n whole) t
      (collapse-Shows n other es rest t (omega arith))
collapse-Shows (suc skip) name (call_entry other ∷ es) rest t h =
    collapse-Shows skip name es rest t (ground (arith, h))

module _ (trim_space : Text → Text) (fields : Text → List Text) where
  abbrev user_entry : Message → Entry
  user_entry m = text_entry (codes "**User:** " ++ m.content)

  user_entries :
      (role : Role) (names : Dict Text) (m : Message)
      → role ≡ user
      → message_entries trim_space fields role names m ≡ user_entry m ∷ []
  unfolding message_entries
  user_entries user names m h = refl
  user_entries model names m h = absurd (cc)
  user_entries tool names m h = absurd (cc)

  entries_of-user :
      (names : Dict Text) (before after : List Message) (m : Message)
      → m.role ≡ user
      → (es rest : List Entry) × (entries_of trim_space fields names (before ++ m ∷ after)
          ≡ es ++ user_entry m ∷ rest)
  unfolding entries_of
  entries_of-user names [] after m h = (
    [],
    entries_of trim_space fields (names_after trim_space fields (m.role) names m) after,
    ap
        (λ es.
          es ++ entries_of trim_space fields (names_after trim_space fields (m.role) names m) after)
        (user_entries (m.role) names m h),
  )
  entries_of-user names (x ∷ before) after m h =
      let first = message_entries trim_space fields (x.role) names x in
      let (es, rest, same) =
        entries_of-user (names_after trim_space fields (x.role) names x) before after m h in
      (first ++ es, rest, ap (λ o. first ++ o) same ∙ sym (append_assoc first es _))

  -- Whatever stands before and after it, and however tool calls are collapsed, a message of the user
  -- stands in the transcript as it was written.
  pub format_transcript-user :
      (before after : List Message) (m : Message)
      → m.role ≡ user
      → Shows
          (format_transcript trim_space fields (before ++ m ∷ after))
          (codes "**User:** " ++ m.content)
  unfolding format_transcript
  format_transcript-user before after m h =
      let (es, rest, same) = entries_of-user [] before after m h in
      let (front, back, shown) =
        collapse-Shows zero [] es rest (codes "**User:** " ++ m.content) (omega arith) in
      (front, back, ap (collapse zero) same ∙ shown)
