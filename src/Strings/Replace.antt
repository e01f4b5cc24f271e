-- ===== src/Strings/Replace.antt =====
-- strings.Count, strings.Replace and strings.ReplaceAll, on the runes of a string.
use gonesis.Prelude.{
  ℕ, zero, suc, ◌-◌, Text, true, false, [], ◌∷◌, ◌++◌, if◌then◌else◌, length, drop, ◌≡◌, refl, sym,
  ap, arith, inl, inr, Bool-cases, ◌≢◌,
}
use gonesis.Prelude.{append-nil}
use gonesis.Strings.{has_prefix}

-- The occurrences that do not overlap, after `skip` runes of the one before.
unfoldable pub occurrences : Text → ℕ → Text → ℕ
unfolding has_prefix
occurrences p skip [] = 0
occurrences p (suc k) (c ∷ s) = occurrences p k s
occurrences p zero (c ∷ s) =
    let here = occurrences p (length p - 1) s in
    let later = occurrences p 0 s in if has_prefix p (c ∷ s) then suc here else later

unfoldable pub count : Text → Text → ℕ
unfolding occurrences
count [] s = suc (length s)
count (d ∷ p) s = occurrences (d ∷ p) 0 s

-- strings.Replace(s, p, new, 1)
unfoldable pub replace_first : Text → Text → Text → Text
unfolding has_prefix
replace_first p new [] = if has_prefix p [] then new else []
replace_first p new (c ∷ s) =
    let rest = replace_first p new s in
    if has_prefix p (c ∷ s) then new ++ drop (length p) (c ∷ s) else c ∷ rest

unfoldable pub replace_occurrences : Text → Text → ℕ → Text → Text
unfolding has_prefix
replace_occurrences p new skip [] = []
replace_occurrences p new (suc k) (c ∷ s) = replace_occurrences p new k s
replace_occurrences p new zero (c ∷ s) =
    let here = replace_occurrences p new (length p - 1) s in
    let later = replace_occurrences p new 0 s in
    if has_prefix p (c ∷ s) then new ++ here else c ∷ later

-- An empty text is found before every rune and at the end.
unfoldable pub interleave : Text → Text → Text
interleave new [] = new
interleave new (c ∷ s) = new ++ c ∷ interleave new s

-- strings.ReplaceAll(s, p, new)
unfoldable pub replace_all : Text → Text → Text → Text
unfolding replace_occurrences interleave
replace_all [] new s = interleave new s
replace_all (d ∷ p) new s = replace_occurrences (d ∷ p) new 0 s

pub has_prefix-drop : (p s : Text) → has_prefix p s ≡ true → s ≡ p ++ drop (length p) s
unfolding has_prefix
has_prefix-drop [] s h = refl
has_prefix-drop (d ∷ p) [] h = ground arith
has_prefix-drop (d ∷ p) (c ∷ s) h = ground (arith, has_prefix-drop p s)

replace_here :
    (p new s : Text) → has_prefix p s ≡ true → replace_first p new s ≡ new ++ drop (length p) s
unfolding replace_first
replace_here [] new [] h = unfold has_prefix in sym (append-nil new)
replace_here (d ∷ p) new [] h = unfold has_prefix in absurd (ground arith)
replace_here p new (c ∷ s) h = rw h

abbrev Replaced : Text → Text → Text → Type 0
Replaced p new s =
    (before : Text) × (after : Text) × (s ≡ before ++ (p ++ after))
    × (replace_first p new s ≡ before ++ (new ++ after))

here_Replaced : (p new s : Text) → has_prefix p s ≡ true → Replaced p new s
here_Replaced p new s h = ([], drop (length p) s, has_prefix-drop p s h, replace_here p new s h)

later_Replaced :
    (p new : Text) (c : ℕ) (s : Text)
    → has_prefix p (c ∷ s) ≡ false
    → Replaced p new s
    → Replaced p new (c ∷ s)
later_Replaced p new c s h (before, after, e, r) =
    (c ∷ before, after, ap (λ l. c ∷ l) e, unfold replace_first in rw h (ap (λ l. c ∷ l) r))

occurrences-Replaced : (p new s : Text) → occurrences p 0 s ≢ 0 → Replaced p new s
occurrences-Replaced p new [] h = absurd (h (unfold occurrences in refl))
occurrences-Replaced p new (c ∷ s) h = elim (Bool-cases (has_prefix p (c ∷ s))) [
  | inl e ↦ here_Replaced p new (c ∷ s) e
  | inr e ↦
      later_Replaced p new c s e
        (occurrences-Replaced p new s (λ z. h (unfold occurrences in (rw e z))))
]

-- Where a text is found, the replacement of its first occurrence keeps what stands before and
-- after it.
pub replace_first-found :
    (p new s : Text)
    → count p s ≢ 0
    → (before : Text) × (after : Text) × (s ≡ before ++ (p ++ after))
      × (replace_first p new s ≡ before ++ (new ++ after))
unfolding count
replace_first-found [] new s h = here_Replaced [] new s (unfold has_prefix in refl)
replace_first-found (d ∷ p) new s h = occurrences-Replaced (d ∷ p) new s h
