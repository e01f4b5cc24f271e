-- ===== src/Strings/Trim.antt =====
-- Trimming leaves a text with no space at either end, and a second time changes nothing.
use gonesis.Prelude.{
  true, ◌++◌, ℕ, Text, Bool, false, [], ◌∷◌, ◌≡◌, refl, arith, inl, inr, Bool-cases, ap,
}
use gonesis.Strings.{trim_left, keep_unless_blank, trim_right, trim_space, is_space}

keep_unless_blank_idem :
    (p : ℕ → Bool) (c : ℕ) (s : Text)
    → trim_right p s ≡ s
    → trim_right p (keep_unless_blank p c s) ≡ keep_unless_blank p c s
unfolding trim_right
keep_unless_blank_idem p c [] h = ground arith
keep_unless_blank_idem p c (d ∷ s) h = ground (arith, h)

trim_right_idem : (p : ℕ → Bool) (s : Text) → trim_right p (trim_right p s) ≡ trim_right p s
unfolding trim_right
trim_right_idem p [] = refl
trim_right_idem p (c ∷ s) = keep_unless_blank_idem p c (trim_right p s) (trim_right_idem p s)

-- A first character that stays is still first after the trim on the right.
trim_left-keep :
    (p : ℕ → Bool) (c : ℕ) (s : Text)
    → p c ≡ false
    → trim_left p (keep_unless_blank p c s) ≡ keep_unless_blank p c s
unfolding trim_left keep_unless_blank
trim_left-keep p c [] h = ground arith
trim_left-keep p c (d ∷ s) h = ground arith

trim_left-trim_right :
    (p : ℕ → Bool) (s : Text)
    → trim_left p (trim_right p (trim_left p s)) ≡ trim_right p (trim_left p s)
unfolding trim_left trim_right
trim_left-trim_right p [] = refl
trim_left-trim_right p (c ∷ s) = elim (Bool-cases (p c)) [
  | inl e ↦ rw e (trim_left-trim_right p s)
  | inr e ↦ rw e (trim_left-keep p c (trim_right p s) e)
]

pub trim_space_idem : (s : Text) → trim_space (trim_space s) ≡ trim_space s
unfolding trim_space
trim_space_idem s = rw trim_left-trim_right (trim_right_idem is_space (trim_left is_space s))

trim_right-snoc :
    (p : ℕ → Bool) (s : Text) (x : ℕ) → p x ≡ true → trim_right p (s ++ x ∷ []) ≡ trim_right p s
unfolding trim_right keep_unless_blank
trim_right-snoc p [] x h = rw h
trim_right-snoc p (c ∷ s) x h = ap (keep_unless_blank p c) (trim_right-snoc p s x h)

trim_both-snoc :
    (p : ℕ → Bool) (s : Text) (x : ℕ)
    → p x ≡ true
    → trim_right p (trim_left p (s ++ x ∷ [])) ≡ trim_right p (trim_left p s)
unfolding trim_left
trim_both-snoc p [] x h = rw h
trim_both-snoc p (c ∷ s) x h = elim (Bool-cases (p c)) [
  | inl e ↦ rw e (trim_both-snoc p s x h)
  | inr e ↦ rw e (trim_right-snoc p (c ∷ s) x h)
]

-- A newline on either side of a text goes in the trim.
pub trim_space-lines : (s : Text) → trim_space (10 ∷ (s ++ 10 ∷ [])) ≡ trim_space s
unfolding trim_space is_space trim_left
trim_space-lines s = trim_both-snoc is_space s 10 refl
