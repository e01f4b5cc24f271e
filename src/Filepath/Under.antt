-- ===== src/Filepath/Under.antt =====
-- The paths below a root, and what filepath.Rel says of them.
use gonesis.Prelude.{
  Text, codes, text_eq, text_eq_iff, Bool, true, false, ◌||◌, some, List, [], ◌∷◌, ◌++◌, map, ◌≡◌,
  refl, sym, ap, ap₂, ◌∙◌, arith, text_eq_ne, append-nil, append_assoc, inl, inr, Bool-cases, All,
  All-append,
}
use mathlib.Core.Path.{subst}
use mathlib.Core.List.{reverse-cons}
use gonesis.Strings.Lines.{Lacks, split-one, split-nonempty, cons_first-snoc}
use gonesis.Strings.{split, has_prefix, join}
use gonesis.Filepath.{
  push_part, push_parts, dot_dot, is_abs, parse, render, strip_common, way, rel, clean, join_path,
  same_root, CleanPath, dot,
}
use gonesis.Filepath.Clean.{Plain, parse-clean, parse-Plain, parse-render, names}

-- The path is absolute, and its elements are those of the root, then names only: no `..` leads
-- out of the root.
abbrev pub Under : Text → Text → Type 0
Under root path =
    (rest : List Text) × (path ≡ render (names ((parse root).parts ++ rest)))
    × All Plain ((parse root).parts ++ rest)

-- A way that goes up first.
abbrev pub goes_up : Text → Bool
goes_up w = text_eq w dot_dot || has_prefix (codes "../") w

goes_up-join : (qs : List Text) → goes_up (join 47 (dot_dot ∷ qs)) ≡ true
unfolding join has_prefix text_eq
goes_up-join [] = refl
goes_up-join (q ∷ qs) = refl

-- A way from an element that is no element of the target goes up.
way-goes_up :
    (b : Text) (bs ts : List Text) (w : Text) → way (b ∷ bs, ts) ≡ some w → goes_up w ≡ true
unfolding way
way-goes_up b bs ts w h = ground (arith, goes_up-join (map (λ x. dot_dot) bs ++ ts))

strip_common-cons :
    (b t : Text) (bs ts : List Text)
    → text_eq b t ≡ true
    → strip_common (b ∷ bs) (t ∷ ts) ≡ strip_common bs ts
unfolding strip_common
strip_common-cons b t bs ts e = rw e

strip_common_ne :
    (b t : Text) (bs ts : List Text)
    → text_eq b t ≡ false
    → strip_common (b ∷ bs) (t ∷ ts) ≡ (b ∷ bs, t ∷ ts)
unfolding strip_common
strip_common_ne b t bs ts e = rw e

-- A way that does not go up leads on from the base's elements.
way_under :
    (bs ts : List Text) (w : Text)
    → way (strip_common bs ts) ≡ some w
    → goes_up w ≡ false
    → (rest : List Text) × (ts ≡ bs ++ rest)
way_under [] ts w h down = (ts, refl)
way_under (b ∷ bs) [] w h down =
    absurd (ground (arith, way-goes_up b bs [] w (unfold strip_common in h)))
way_under (b ∷ bs) (t ∷ ts) w h down = elim (Bool-cases (text_eq b t)) [
  | inl e ↦
      let (rest, r) = way_under bs ts w (ap way (sym (strip_common-cons b t bs ts e)) ∙ h) down in
      (rest, ap₂ (λ x xs. x ∷ xs) (sym ((text_eq_iff b t).0 e)) r)
  | inr e ↦
      absurd (
        ground
          (arith, way-goes_up b bs (t ∷ ts) w (ap way (sym (strip_common_ne b t bs ts e)) ∙ h)))
]

pub is_abs-clean : (s : Text) → is_abs s ≡ true → is_abs (clean s) ≡ true
unfolding clean render parse
is_abs-clean s h = rw h

pub is_abs-join_path : (root p : Text) → is_abs root ≡ true → is_abs (join_path root p) ≡ true
unfolding join_path
is_abs-join_path [] p h = ground arith
is_abs-join_path (c ∷ s) p h = is_abs-clean (c ∷ s ++ 47 ∷ p) h

rooted_names : (s : Text) → is_abs s ≡ true → parse s ≡ names ((parse s).parts)
unfolding parse
rooted_names s h = rw h

clean-names : (s : Text) → is_abs s ≡ true → clean s ≡ render (names ((parse s).parts))
unfolding clean
clean-names s h = ap render (rooted_names s h)

rel-way :
    (base targ : Text)
    → is_abs base ≡ true
    → is_abs targ ≡ true
    → rel base targ ≡ way (strip_common ((parse base).parts) ((parse targ).parts))
unfolding rel parse same_root
rel-way base targ hb ht = rw (hb, ht)

-- An absolute path to which the way from the root does not go up is below the root.
pub rel-Under :
    (root s w : Text)
    → is_abs root ≡ true
    → is_abs s ≡ true
    → rel root (clean s) ≡ some w
    → goes_up w ≡ false
    → Under root (clean s)
rel-Under root s w hr hs h down =
    let hc : is_abs (clean s) ≡ true = is_abs-clean s hs in
    let (rest, e) =
      way_under ((parse root).parts) ((parse (clean s)).parts) w
        (sym (rel-way root (clean s) hr hc) ∙ h) down in
    let f : (parse s).parts ≡ (parse root).parts ++ rest =
      sym (ap (λ (p : CleanPath). p.parts) (parse-clean s hs)) ∙ e in
    (
      rest,
      clean-names s hs ∙ ap (λ ps. render (names ps)) f,
      subst (λ ps. All Plain ps) f (parse-Plain s hs),
    )

split-snoc : (s name : Text) → Lacks 47 name → split 47 (s ++ 47 ∷ name) ≡ split 47 s ++ name ∷ []
unfolding split
split-snoc [] name h = ap (λ l. [] ∷ l) (split-one 47 name h)
split-snoc (c ∷ s) name h =
    let (l, ls, e) = split-nonempty 47 s in
    let ih : split 47 (s ++ 47 ∷ name) ≡ (l ∷ ls) ++ name ∷ [] =
      split-snoc s name h ∙ ap (λ x. x ++ name ∷ []) e in
    ground (arith, e, ih, cons_first-snoc c l ls name)

push_parts-snoc :
    (parts stack : List Text) (name : Text)
    → Plain name
    → push_parts true stack (parts ++ name ∷ []) ≡ name ∷ push_parts true stack parts
unfolding push_parts push_part
push_parts-snoc [] stack name h =
    rw (text_eq_ne name [] h.0, text_eq_ne name dot h.1, text_eq_ne name dot_dot h.2)
push_parts-snoc (part ∷ parts) stack name h =
    push_parts-snoc parts (push_part true stack part) name h

parts-snoc :
    (s name : Text)
    → is_abs s ≡ true
    → Plain name
    → (parse (s ++ 47 ∷ name)).parts ≡ (parse s).parts ++ name ∷ []
unfolding parse
parts-snoc [] name h plain = ground arith
parts-snoc (c ∷ s) name h plain =
    rw (h, split-snoc (c ∷ s) name plain.3, push_parts-snoc (split 47 (c ∷ s)) [] name plain)
      (reverse-cons name (push_parts true [] (split 47 (c ∷ s))))

is_abs-append : (s t : Text) → is_abs s ≡ true → is_abs (s ++ t) ≡ true
is_abs-append [] t h = ground arith
is_abs-append (c ∷ s) t h = h

join_path-clean : (s t : Text) → is_abs s ≡ true → join_path s t ≡ clean (s ++ 47 ∷ t)
unfolding join_path
join_path-clean [] t h = ground arith
join_path-clean (c ∷ s) t h = refl

is_abs-render : (parts : List Text) → is_abs (render (names parts)) ≡ true
unfolding render
is_abs-render parts = refl

-- An entry of a directory below the root is below the root.
pub join_path-Under :
    (root path name : Text) → Under root path → Plain name → Under root (join_path path name)
join_path-Under root path name (rest, e, plain) h =
    let abs : is_abs path ≡ true = ap is_abs e ∙ is_abs-render ((parse root).parts ++ rest) in
    let elements : (parse path).parts ≡ (parse root).parts ++ rest =
      ap (λ s. (parse s).parts) e
      ∙ ap (λ (p : CleanPath). p.parts) (parse-render ((parse root).parts ++ rest) plain) in
    let more : (parse (path ++ 47 ∷ name)).parts ≡ (parse root).parts ++ (rest ++ name ∷ []) =
      parts-snoc path name abs h
      ∙ ap (λ ps. ps ++ name ∷ []) elements
      ∙ append_assoc ((parse root).parts) rest (name ∷ []) in
    (
      rest ++ name ∷ [],
      join_path-clean path name abs
          ∙ clean-names (path ++ 47 ∷ name) (is_abs-append path (47 ∷ name) abs)
          ∙ ap (λ ps. render (names ps)) more,
      subst (All Plain) (append_assoc ((parse root).parts) rest (name ∷ []))
          (All-append Plain ((parse root).parts ++ rest) (name ∷ []) plain (h, tt)),
    )

-- The root is below itself.
pub Under-refl : (root : Text) → is_abs root ≡ true → Under root (clean root)
Under-refl root h =
    let e = append-nil ((parse root).parts) in
    (
      [],
      clean-names root h ∙ ap (λ ps. render (names ps)) (sym e),
      subst (All Plain) (sym e) (parse-Plain root h),
    )
