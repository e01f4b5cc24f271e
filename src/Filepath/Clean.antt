-- ===== src/Filepath/Clean.antt =====
-- The elements of a cleaned absolute path, and that they are read back from its text.
use gonesis.Prelude.{
  Text, text_eq, text_eq_iff, text_eq_ne, true, false, List, [], ◌∷◌, All, ◌≡◌, ◌≢◌, refl, sym, ap,
  ◌∙◌, arith, inl, inr, Bool-cases,
}
use mathlib.Core.List.{reverse, reverse_aux, reverse-reverse}
use gonesis.Strings.{split, join}
use gonesis.Strings.Lines.{Lacks, split-Lacks, split-join}
use gonesis.Filepath.{
  CleanPath, dot, dot_dot, go_up, push_part, push_parts, parse, render, clean, is_abs,
}

-- A name of a file or a directory, as an absolute path lists them.
abbrev pub Plain : Text → Type 0
Plain part = (part ≢ []) × (part ≢ dot) × (part ≢ dot_dot) × Lacks 47 part

below_Plain : (stack : List Text) → All Plain stack → All Plain (go_up true stack)
unfolding go_up
below_Plain [] h = tt
below_Plain (top ∷ below) h =
    let e : text_eq top dot_dot ≡ false = text_eq_ne top dot_dot h.0.2 in rw e h.1

push_part-Plain :
    (stack : List Text) (part : Text)
    → All Plain stack
    → Lacks 47 part
    → All Plain (push_part true stack part)
unfolding push_part
push_part-Plain stack part h lacks = elim (Bool-cases (text_eq part [])) [
  | inl e ↦ rw e h
  | inr e ↦ elim (Bool-cases (text_eq part dot)) [
    | inl f ↦ rw (e, f) h
    | inr f ↦ elim (Bool-cases (text_eq part dot_dot)) [
      | inl g ↦ rw (e, f, g) (below_Plain stack h)
      | inr g ↦
          rw (e, f, g)
            ((
              (
                ground (arith, text_eq_iff part []),
                ground (arith, text_eq_iff part dot),
                ground (arith, text_eq_iff part dot_dot),
                lacks,
              ),
              h,
            ))
    ]
  ]
]

push_parts-Plain :
    (parts stack : List Text)
    → All Plain stack
    → All (Lacks 47) parts
    → All Plain (push_parts true stack parts)
unfolding push_parts
push_parts-Plain [] stack h lacks = h
push_parts-Plain (part ∷ parts) stack h lacks =
    push_parts-Plain parts (push_part true stack part) (push_part-Plain stack part h lacks.0)
      lacks.1

All-reverse_aux {κ} :
    (P : Text → Type κ) (xs ys : List Text) → All P xs → All P ys → All P (reverse_aux xs ys)
All-reverse_aux P [] ys hx hy = hy
All-reverse_aux P (x ∷ xs) ys hx hy = All-reverse_aux P xs (x ∷ ys) hx.1 (hx.0, hy)

-- The elements of a cleaned absolute path are names.
pub parse-Plain : (s : Text) → is_abs s ≡ true → All Plain ((parse s).parts)
unfolding parse
parse-Plain s h =
    All-reverse_aux Plain (push_parts (is_abs s) [] (split 47 s)) []
      (rw h (push_parts-Plain (split 47 s) [] tt (split-Lacks 47 s))) tt

push_parts_names :
    (parts stack : List Text)
    → All Plain parts
    → push_parts true stack parts ≡ reverse_aux parts stack
unfolding push_parts push_part
push_parts_names [] stack h = refl
push_parts_names (part ∷ parts) stack h =
    let a : text_eq part [] ≡ false = text_eq_ne part [] h.0.0 in
    let b : text_eq part dot ≡ false = text_eq_ne part dot h.0.1 in
    let c : text_eq part dot_dot ≡ false = text_eq_ne part dot_dot h.0.2 in
    rw (a, b, c) (push_parts_names parts (part ∷ stack) h.1)

Plain-Lacks : (parts : List Text) → All Plain parts → All (Lacks 47) parts
Plain-Lacks [] h = tt
Plain-Lacks (part ∷ parts) h = (h.0.3, Plain-Lacks parts h.1)

push-split-join :
    (parts : List Text)
    → All Plain parts
    → push_parts true [] (split 47 (join 47 parts)) ≡ reverse parts
push-split-join [] h = unfold push_parts push_part split join text_eq in refl
push-split-join (part ∷ parts) h =
    ap (push_parts true []) (split-join 47 part parts (Plain-Lacks (part ∷ parts) h))
    ∙ push_parts_names (part ∷ parts) [] h

push_parts-slash :
    (s : Text) → push_parts true [] (split 47 (47 ∷ s)) ≡ push_parts true [] (split 47 s)
unfolding push_parts push_part split text_eq
push_parts-slash s = refl

-- The absolute path of the names.
abbrev pub names : List Text → CleanPath
names parts = record { rooted = true; parts = parts }

-- An absolute path of names is read back from its text.
pub parse-render :
    (parts : List Text) → All Plain parts → parse (render (names parts)) ≡ names parts
unfolding parse render
parse-render parts h =
    ap (λ ps. names (reverse ps)) (push_parts-slash (join 47 parts) ∙ push-split-join parts h)
    ∙ ap names (reverse-reverse parts)

-- Cleaning an absolute path does not change what it names.
pub parse-clean : (s : Text) → is_abs s ≡ true → parse (clean s) ≡ parse s
unfolding clean
parse-clean s h =
    let e : parse s ≡ names ((parse s).parts) = unfold parse in rw h in
    ap (λ p. parse (render p)) e ∙ parse-render ((parse s).parts) (parse-Plain s h) ∙ sym e

pub rooted-parse : (s : Text) → (parse s).rooted ≡ is_abs s
unfolding parse
rooted-parse s = refl

-- Cleaning an absolute path again changes nothing.
pub clean_idem : (s : Text) → is_abs s ≡ true → clean (clean s) ≡ clean s
clean_idem s h = unfold clean in ap render (parse-clean s h)
