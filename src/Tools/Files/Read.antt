-- ===== src/Tools/Files/Read.antt =====
-- read_file and list_files: what is returned is within the bounds, and pages of a file join.
use gonesis.Prelude.{
  if◌then◌else◌, ℕ, zero, suc, ◌+◌, ◌≤◌, Text, false, List, [], ◌∷◌, ◌++◌, ok, Result-cases, ltb, ℤ,
  pos, negsuc, length, take, drop, take_all, drop_all, take-append-drop, length-take, ◌≡◌, refl,
  sym, ap, ap₂, ◌∙◌, arith, inl, inr, Bool-cases, append_assoc, Bool, All, Option-cases, true,
  text_eq,
}
use mathlib.Core.Path.{subst}
use gonesis.Strings.{split}
use gonesis.Strconv.{itoa}
use gonesis.Tools.Files.{
  Host, ReadOutput, start_of, limit_of, number_lines, window, resolve_path, read_file,
  collect_entries, list_files, DirEntry, FileEntry, accepts,
}

window-take :
    (offset limit : ℤ) (lines : List Text)
    → window offset limit lines
      ≡ take (limit_of limit) (drop (start_of offset (length lines)) lines)
unfolding window
window-take offset limit lines =
    let rest = drop (start_of offset (length lines)) lines in
    let n = limit_of limit in
    elim (Bool-cases (ltb n (length rest))) [
      | inl e ↦ rw e
      | inr e ↦ rw e (sym (take_all n rest (ground (arith, e))))
    ]

start_of-le : (offset : ℤ) (lines : ℕ) → start_of offset lines ≤ lines
unfolding start_of
start_of-le (pos zero) lines = omega arith
start_of-le (pos (suc n)) lines = ground arith
start_of-le (negsuc n) lines = omega arith

limit_of-le : (limit : ℤ) → limit_of limit ≤ 10000
unfolding limit_of
limit_of-le (pos zero) = omega arith
limit_of-le (pos (suc n)) = ground arith
limit_of-le (negsuc n) = omega arith

module _ {W : Type 0} (host : Host W) (work_dir path : Text) (w : W) where
  -- What a successful read returns is made of.
  read_file-ok :
      (offset limit : ℤ) (out : ReadOutput)
      → read_file host work_dir path offset limit w ≡ ok out
      → (content : Text) × (host.read_file (resolve_path work_dir path) w ≡ ok content)
        × (out.content
            ≡ number_lines
                (start_of offset (length (split 10 content)))
                (window offset limit (split 10 content)))
  unfolding read_file
  read_file-ok offset limit out h =
      elim (Result-cases (host.read_file (resolve_path work_dir path) w)) [
        | inr (cause, f) ↦ absurd (ground (arith, f))
        | inl (content, f) ↦ elim (Bool-cases (host.is_utf8 content)) [
          | inl u ↦ (content, f, ground (arith, f, u))
          | inr u ↦ absurd (ground (arith, f, u))
        ]
      ]

  -- A text that numbers consecutive lines of the file
  abbrev pub IsSlice : ℤ → Text → Type 0
  IsSlice limit text =
      (content : Text) × (before : List Text) × (lines : List Text) × (after : List Text)
      × (host.read_file (resolve_path work_dir path) w ≡ ok content)
      × (split 10 content ≡ before ++ (lines ++ after))
      × (text ≡ number_lines (length before) lines)
      × (length lines ≤ 10000)
      × (length lines ≤ limit_of limit)

  -- What read_file returns is a run of consecutive lines of the file, numbered from the number of
  -- lines before them, and never more than 10000 of them.
  pub read_file-bounds :
      (offset limit : ℤ) (out : ReadOutput)
      → read_file host work_dir path offset limit w ≡ ok out
      → IsSlice limit (out.content)
  read_file-bounds offset limit out h =
      let (content, r, e) = read_file-ok offset limit out h in
      let all = split 10 content in
      let start = start_of offset (length all) in
      let n = limit_of limit in
      let skipped : length (take start all) ≡ start =
        omega (arith, length-take start all, start_of-le offset (length all)) in
      (
        content,
        take start all,
        take n (drop start all),
        drop n (drop start all),
        r,
        sym (
            ap (λ l. take start all ++ l) (take-append-drop n (drop start all))
            ∙ take-append-drop start all),
        e ∙ ap₂ number_lines (sym skipped) (window-take offset limit all),
        omega (arith, length-take n (drop start all), limit_of-le limit),
        omega (arith, length-take n (drop start all)),
      )

take-nil : (n : ℕ) → take {A = Text} n [] ≡ []
take-nil zero = refl
take-nil (suc n) = refl

line_assoc :
    (number line xs ys : Text)
    → (number ++ 9 ∷ (line ++ 10 ∷ xs)) ++ ys ≡ number ++ 9 ∷ (line ++ 10 ∷ (xs ++ ys))
line_assoc number line xs ys =
    append_assoc number (9 ∷ (line ++ 10 ∷ xs)) ys
    ∙ ap (λ t. number ++ 9 ∷ t) (append_assoc line (10 ∷ xs) ys)

-- Two pages of numbered lines join.
number_lines-take :
    (start n m : ℕ) (lines : List Text)
    → number_lines start (take n lines) ++ number_lines (start + n) (take m (drop n lines))
      ≡ number_lines start (take (n + m) lines)
unfolding number_lines
number_lines-take start zero m lines =
    ap₂ (λ a b. number_lines a (take b lines)) (omega arith) (omega arith)
number_lines-take start (suc n) m [] = rw (take-nil m, take-nil (suc n + m))
number_lines-take start (suc n) m (line ∷ lines) =
    let sum : suc n + m ≡ suc (n + m) = omega arith in
    let from : start + suc n ≡ suc start + n = omega arith in
    rw (sum, from, ← number_lines-take (suc start) n m lines)
      (line_assoc (itoa (suc start)) line (number_lines (suc start) (take n lines))
        (number_lines (suc start + n) (take m (drop n lines))))

drop_skips :
    (n : ℕ) (lines : List Text) → drop (start_of (pos (suc n)) (length lines)) lines ≡ drop n lines
unfolding start_of
drop_skips n lines = elim (Bool-cases (ltb (length lines) n)) [
  | inl e ↦
      rw e
        (drop_all (length lines) lines (omega arith) ∙ sym (drop_all n lines (ground (arith, e))))
  | inr e ↦ rw e
]

drop-nil : (n : ℕ) → drop {A = Text} n [] ≡ []
drop-nil zero = refl
drop-nil (suc n) = refl

drop-drop : (a n : ℕ) (lines : List Text) → drop n (drop a lines) ≡ drop (a + n) lines
drop-drop zero n lines = let e : n ≡ zero + n = omega arith in ap (λ k. drop k lines) e
drop-drop (suc a) n [] = drop-nil n ∙ sym (drop-nil (suc a + n))
drop-drop (suc a) n (line ∷ lines) =
    let e : suc a + n ≡ suc (a + n) = omega arith in rw e (drop-drop a n lines)

-- Where a page starts, or nothing is on it.
second_start :
    (a n m : ℕ) (lines : List Text)
    → number_lines (start_of (pos (suc (a + n))) (length lines)) (take m (drop (a + n) lines))
      ≡ number_lines (start_of (pos (suc a)) (length lines) + n) (take m (drop (a + n) lines))
second_start a n m lines = elim (Bool-cases (ltb (length lines) (a + n))) [
  | inl e ↦
      let empty : drop (a + n) lines ≡ [] = drop_all (a + n) lines (ground (arith, e)) in
      rw (empty, take-nil m) (unfold number_lines in refl)
  | inr e ↦
      let s : start_of (pos (suc (a + n))) (length lines) ≡ a + n = unfold start_of in rw e in
      let f : ltb (length lines) a ≡ false = ground (arith, e) in
      let t : start_of (pos (suc a)) (length lines) ≡ a = unfold start_of in rw f in rw (s, t)
]

number_lines-page :
    (a n m : ℕ) (lines : List Text)
    → number_lines (start_of (pos (suc a)) (length lines)) (take n (drop a lines))
        ++ number_lines (start_of (pos (suc (a + n))) (length lines)) (take m (drop (a + n) lines))
      ≡ number_lines (start_of (pos (suc a)) (length lines)) (take (n + m) (drop a lines))
number_lines-page a n m lines =
    let start = start_of (pos (suc a)) (length lines) in
    ap (λ t. number_lines start (take n (drop a lines)) ++ t)
      (second_start a n m lines
        ∙ ap (λ l. number_lines (start + n) (take m l)) (sym (drop-drop a n lines)))
    ∙ number_lines-take start n m (drop a lines)

limit_of_small : (n : ℕ) → suc n ≤ 10000 → limit_of (pos (suc n)) ≡ suc n
unfolding limit_of
limit_of_small n h = ground arith

page :
    (a n : ℕ) (lines : List Text)
    → suc n ≤ 10000
    → window (pos (suc a)) (pos (suc n)) lines ≡ take (suc n) (drop a lines)
page a n lines h =
    window-take (pos (suc a)) (pos (suc n)) lines
    ∙ ap₂ (λ k l. take k l) (limit_of_small n h) (drop_skips a lines)

module _ {W : Type 0} (host : Host W) (work_dir path : Text) (w : W) where
  -- Reading a file page by page is reading it at once: a page of `suc n` lines from line
  -- `suc a` on, and one of `suc m` lines from the line after it on, are together the page of as many
  -- lines from line `suc a` on, when that is within the 10000 lines of one call.
  pub read_file-pages :
      (a n m : ℕ) (first second whole : ReadOutput)
      → suc n + suc m ≤ 10000
      → read_file host work_dir path (pos (suc a)) (pos (suc n)) w ≡ ok first
      → read_file host work_dir path (pos (suc (a + suc n))) (pos (suc m)) w ≡ ok second
      → read_file host work_dir path (pos (suc a)) (pos (suc (n + suc m))) w ≡ ok whole
      → first.content ++ second.content ≡ whole.content
  read_file-pages a n m first second whole small h₁ h₂ h₃ =
      let (content, r, c₁) = read_file-ok host work_dir path w _ _ first h₁ in
      let (content₂, r₂, c₂) = read_file-ok host work_dir path w _ _ second h₂ in
      let (content₃, r₃, c₃) = read_file-ok host work_dir path w _ _ whole h₃ in
      let same₂ : content₂ ≡ content = ground (arith, r, r₂) in
      let same₃ : content₃ ≡ content = ground (arith, r, r₃) in
      let lines = split 10 content in
      let sum : suc n + suc m ≡ suc (n + suc m) = omega arith in
      let p₁ = page a n lines (omega arith) in
      let p₂ = page (a + suc n) m lines (omega arith) in
      let p₃ = page a (n + suc m) lines (omega arith) in
      rw (c₁, c₂, c₃, same₂, same₃, p₁, p₂, p₃, ← sum) (number_lines-page a (suc n) (suc m) lines)

-- What list_files keeps of an entry: its name passes the pattern.
abbrev Passes : (Text → Text → Bool) → Text → FileEntry → Type 0
Passes matches pattern e = accepts matches pattern (e.name) ≡ true

collect_entries-le :
    (matches : Text → Text → Bool) (pattern : Text) (room : ℕ) (entries : List DirEntry)
    → length (collect_entries matches pattern room entries) ≤ room
unfolding collect_entries
collect_entries-le matches pattern zero entries = omega arith
collect_entries-le matches pattern (suc room) [] = omega arith
collect_entries-le matches pattern (suc room) (e ∷ entries) =
    elim (Bool-cases (accepts matches pattern (e.name))) [
      | inr a ↦ rw a (collect_entries-le matches pattern (suc room) entries)
      | inl a ↦ elim (Option-cases (e.size)) [
        | inl s ↦ rw (a, s) (collect_entries-le matches pattern (suc room) entries)
        | inr (size, s) ↦
            let ih = collect_entries-le matches pattern room entries in
            rw (a, s) (omega (arith, ih))
      ]
    ]

collect_entries-Passes :
    (matches : Text → Text → Bool) (pattern : Text) (room : ℕ) (entries : List DirEntry)
    → All (Passes matches pattern) (collect_entries matches pattern room entries)
unfolding collect_entries
collect_entries-Passes matches pattern zero entries = tt
collect_entries-Passes matches pattern (suc room) [] = tt
collect_entries-Passes matches pattern (suc room) (e ∷ entries) =
    elim (Bool-cases (accepts matches pattern (e.name))) [
      | inr a ↦ rw a (collect_entries-Passes matches pattern (suc room) entries)
      | inl a ↦ elim (Option-cases (e.size)) [
        | inl s ↦ rw (a, s) (collect_entries-Passes matches pattern (suc room) entries)
        | inr (size, s) ↦ rw (a, s) (a, collect_entries-Passes matches pattern room entries)
      ]
    ]

-- list_files returns at most 500 entries, and only entries whose names pass the pattern.
pub list_files-bounds :
    {W : Type 0} (host : Host W) (work_dir path pattern : Text) (w : W) (dir : Text)
    (entries : List FileEntry)
    → list_files host work_dir path pattern w ≡ ok (dir, entries)
    → (length entries ≤ 500) × All (Passes (host.matches) pattern) entries
unfolding list_files
list_files-bounds host work_dir path pattern w dir entries h =
    let at = if text_eq path [] then work_dir else resolve_path work_dir path in
    elim (Result-cases (host.read_dir at w)) [
      | inr (cause, f) ↦ absurd (ground (arith, f))
      | inl (listed, f) ↦
          let e : collect_entries (host.matches) pattern 500 listed ≡ entries = ground (arith, f) in
          subst (λ es. (length es ≤ 500) × All (Passes (host.matches) pattern) es) e
            (
              collect_entries-le (host.matches) pattern 500 listed,
              collect_entries-Passes (host.matches) pattern 500 listed,
            )
    ]
