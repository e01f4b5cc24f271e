-- ===== src/Strings/Lines.antt =====
-- Splitting a text at a separator and joining the parts again.
use gonesis.Prelude.{
  ℕ, Text, true, false, List, [], ◌∷◌, ◌++◌, ◌≡◌, ◌≢◌, refl, ap, ◌∙◌, arith, inl, inr, Bool-cases,
  ◌==◌, ==_iff, All,
}
use gonesis.Strings.{cons_first, split, join}

join-cons_first :
    (sep c : ℕ) (l : Text) (ls : List Text)
    → join sep (cons_first c (l ∷ ls)) ≡ c ∷ join sep (l ∷ ls)
unfolding join cons_first
join-cons_first sep c l [] = refl
join-cons_first sep c l (m ∷ ls) = refl

pub split-nonempty : (sep : ℕ) (s : Text) → (l : Text) × (ls : List Text) × (split sep s ≡ l ∷ ls)
unfolding split
split-nonempty sep [] = ([], [], refl)
split-nonempty sep (c ∷ s) = elim (Bool-cases (c == sep)) [
  | inl e ↦ ([], split sep s, rw e)
  | inr e ↦ let (l, ls, h) = split-nonempty sep s in (c ∷ l, ls, rw (e, h))
]

pub cons_first-snoc :
    (c : ℕ) (l : Text) (ls : List Text) (name : Text)
    → cons_first c ((l ∷ ls) ++ name ∷ []) ≡ cons_first c (l ∷ ls) ++ name ∷ []
unfolding cons_first
cons_first-snoc c l ls name = refl

join-sep : (sep : ℕ) (l : Text) (ls : List Text) → join sep ([] ∷ l ∷ ls) ≡ sep ∷ join sep (l ∷ ls)
unfolding join
join-sep sep l ls = refl

-- strings.Join undoes strings.Split.
pub join-split : (sep : ℕ) (s : Text) → join sep (split sep s) ≡ s
unfolding split
join-split sep [] = unfold join in refl
join-split sep (c ∷ s) =
    let (l, ls, h) = split-nonempty sep s in
    ground (arith, join-split sep s, join-sep sep l ls, join-cons_first sep c l ls)

-- No character of the text is `sep`.
abbrev pub Lacks : ℕ → Text → Type 0
Lacks sep s = All (λ c. c ≢ sep) s

All-cons_first :
    (sep c : ℕ) (ls : List Text) → c ≢ sep → All (Lacks sep) ls → All (Lacks sep) (cons_first c ls)
unfolding cons_first
All-cons_first sep c [] h hl = ((h, tt), tt)
All-cons_first sep c (l ∷ ls) h hl = ((h, hl.0), hl.1)

-- No part of a split holds the separator.
pub split-Lacks : (sep : ℕ) (s : Text) → All (Lacks sep) (split sep s)
unfolding split
split-Lacks sep [] = (tt, tt)
split-Lacks sep (c ∷ s) = elim (Bool-cases (c == sep)) [
  | inl e ↦ rw e (tt, split-Lacks sep s)
  | inr e ↦
      rw e (All-cons_first sep c (split sep s) (ground (arith, ==_iff c sep)) (split-Lacks sep s))
]

pub split-one : (sep : ℕ) (p : Text) → Lacks sep p → split sep p ≡ p ∷ []
unfolding split cons_first
split-one sep [] h = refl
split-one sep (c ∷ p) h =
    let e : (c == sep) ≡ false = ground (arith, h.0) in rw (e, split-one sep p h.1)

split-append : (sep : ℕ) (p s : Text) → Lacks sep p → split sep (p ++ sep ∷ s) ≡ p ∷ split sep s
unfolding split cons_first
split-append sep [] s h = let e : (sep == sep) ≡ true = ground arith in rw e
split-append sep (c ∷ p) s h =
    let e : (c == sep) ≡ false = ground (arith, h.0) in rw (e, split-append sep p s h.1)

-- strings.Split undoes strings.Join of parts without the separator.
pub split-join :
    (sep : ℕ) (p : Text) (ps : List Text)
    → All (Lacks sep) (p ∷ ps)
    → split sep (join sep (p ∷ ps)) ≡ p ∷ ps
unfolding join
split-join sep p [] h = split-one sep p h.0
split-join sep p (q ∷ ps) h =
    split-append sep p (join sep (q ∷ ps)) h.0 ∙ ap (λ l. p ∷ l) (split-join sep q ps h.1)
