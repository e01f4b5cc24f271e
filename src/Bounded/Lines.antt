-- ===== src/Bounded/Lines.antt =====
-- How `String` cuts the head and the tail at newlines.
use gonesis.Prelude.{
  ℕ, suc, ◌+◌, ◌≤◌, ◌≡◌, inl, inr, refl, sym, ap, ◌∙◌, [], ◌∷◌, ◌++◌, arith, length, take, drop,
  length-append, append_assoc, append-nil, Bool-cases, if◌then◌else◌, Option, none, some, ◌==◌,
}
use gonesis.Bounded.{Bytes, index_byte, last_index_byte, head_part, tail_part}

-- `p` is all of `x`, which has no newline, or the part of `x` up to its last newline.
pub data EndsLine (x p : Bytes) : Type 0 where
  no_line : index_byte 10 x ≡ none → p ≡ x → EndsLine x p
  up_to_line :
      (front rest : Bytes)
      → p ≡ front ++ 10 ∷ []
      → x ≡ p ++ rest
      → index_byte 10 rest ≡ none
      → EndsLine x p

-- `p` is all of `x`, which has no newline, or the part of `x` behind its first newline.
pub data StartsLine (x p : Bytes) : Type 0 where
  no_line : index_byte 10 x ≡ none → p ≡ x → StartsLine x p
  after_line : (front : Bytes) → x ≡ front ++ 10 ∷ p → index_byte 10 front ≡ none → StartsLine x p

-- What the searches for a newline find.
abbrev LastCut : Bytes → Option ℕ → Type 0
LastCut x none = index_byte 10 x ≡ none
LastCut x (some i) =
    (front : Bytes) × (rest : Bytes) × (take (suc i) x ≡ front ++ 10 ∷ [])
    × (x ≡ take (suc i) x ++ rest)
    × (index_byte 10 rest ≡ none)

abbrev FirstCut : Bytes → Option ℕ → Type 0
FirstCut x none = index_byte 10 x ≡ none
FirstCut x (some i) = (x ≡ take i x ++ 10 ∷ drop (suc i) x) × (index_byte 10 (take i x) ≡ none)

LastCut-cons :
    (c : ℕ) (x : Bytes) (o : Option ℕ)
    → LastCut x o
    → LastCut (c ∷ x) (elim o [ none ↦ if c == 10 then some 0 else none | some i ↦ some (suc i) ])
LastCut-cons c x none h = elim (Bool-cases (c == 10)) [
  | inl e ↦ rw e ([], x, ground arith, ground arith, h)
  | inr e ↦ rw e (unfold index_byte in ground (arith, h))
]
LastCut-cons c x (some i) (front, rest, e1, e2, e3) =
    (c ∷ front, rest, ap (λ l. c ∷ l) e1, ap (λ l. c ∷ l) e2, e3)

LastCut_lem : (x : Bytes) → LastCut x (last_index_byte 10 x)
unfolding last_index_byte
LastCut_lem [] = unfold index_byte in refl
LastCut_lem (c ∷ x) = LastCut-cons c x (last_index_byte 10 x) (LastCut_lem x)

FirstCut-cons :
    (c : ℕ) (x : Bytes) (o : Option ℕ)
    → index_byte 10 x ≡ o
    → FirstCut x o
    → FirstCut (c ∷ x) (if c == 10 then some 0 else elim o [ none ↦ none | some i ↦ some (suc i) ])
unfolding index_byte
FirstCut-cons c x none p h = ground (arith, h)
FirstCut-cons c x (some i) p h = ground (arith, h)

FirstCut_lem : (x : Bytes) → FirstCut x (index_byte 10 x)
unfolding index_byte
FirstCut_lem [] = refl
FirstCut_lem (c ∷ x) = FirstCut-cons c x (index_byte 10 x) refl (FirstCut_lem x)

pub head_part-EndsLine : (x : Bytes) → EndsLine x (head_part x)
unfolding head_part
head_part-EndsLine x = go (last_index_byte 10 x) refl (LastCut_lem x)
  where
    go :
        (o : Option ℕ)
        → last_index_byte 10 x ≡ o
        → LastCut x o
        → EndsLine x (elim o [ none ↦ x | some i ↦ take (i + 1) x ])
    go none e h = no_line h refl
    go (some i) e (front, rest, e1, e2, e3) =
        let n : i + 1 ≡ suc i = omega arith in rw n (up_to_line front rest e1 e2 e3)

pub tail_part-StartsLine : (x : Bytes) → StartsLine x (tail_part x)
unfolding tail_part
tail_part-StartsLine x = go (index_byte 10 x) (FirstCut_lem x)
  where
    go :
        (o : Option ℕ) → FirstCut x o → StartsLine x (elim o [ none ↦ x | some i ↦ drop (i + 1) x ])
    go none h = no_line h refl
    go (some i) (e1, e2) = let n : i + 1 ≡ suc i = omega arith in rw n (after_line (take i x) e1 e2)

pub EndsLine-length : {x p : Bytes} → EndsLine x p → length p ≤ length x
EndsLine-length (no_line n e) = omega (arith, ap length e)
EndsLine-length {p = p} (up_to_line front rest e1 e2 n) =
    omega (arith, ap length e2, length-append p rest)

pub StartsLine-length : {x p : Bytes} → StartsLine x p → length p ≤ length x
StartsLine-length (no_line n e) = omega (arith, ap length e)
StartsLine-length {p = p} (after_line front e n) =
    omega (arith, ap length e, length-append front (10 ∷ p))

pub EndsLine-split : {x p : Bytes} → EndsLine x p → (rest : Bytes) × (x ≡ p ++ rest)
EndsLine-split {x} (no_line n e) = ([], sym e ∙ sym (append-nil _))
EndsLine-split (up_to_line front rest e1 e2 n) = (rest, e2)

pub StartsLine-split : {x p : Bytes} → StartsLine x p → (front : Bytes) × (x ≡ front ++ p)
StartsLine-split (no_line n e) = ([], sym e)
StartsLine-split {p = p} (after_line front e n) =
    (front ++ 10 ∷ [], e ∙ sym (append_assoc front (10 ∷ []) p))
