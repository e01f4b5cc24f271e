-- ===== src/Memory/Truncate.antt =====
-- safeTruncate of pkg/agent/memory.go: how far it cuts, and where.
use gonesis.Prelude.{
  ℕ, zero, suc, ◌≤◌, ◌⊎◌, Text, false, [], ◌∷◌, ◌++◌, leb, length, take, drop, take-append-drop,
  length-take, ◌≡◌, refl, sym, ap, ◌∙◌, arith, inl, inr, Bool-cases, append-nil,
}
use gonesis.Memory.{is_continuation, walk_back, safe_truncate}

is_continuation-drop : (s : Text) (n : ℕ) → is_continuation s n ≡ is_continuation (drop n s) 0
unfolding is_continuation
is_continuation-drop s zero = refl
is_continuation-drop [] (suc n) = refl
is_continuation-drop (c ∷ s) (suc n) = is_continuation-drop s n

walk_back-le : (s : Text) (n : ℕ) → walk_back s n ≤ n
unfolding walk_back
walk_back-le s zero = omega arith
walk_back-le s (suc n) = ground (arith, walk_back-le s n)

walk_back-stops :
    (s : Text) (n : ℕ) → (walk_back s n ≡ 0) ⊎ (is_continuation s (walk_back s n) ≡ false)
unfolding walk_back
walk_back-stops s zero = inl refl
walk_back-stops s (suc n) = elim (Bool-cases (is_continuation s (suc n))) [
  | inl e ↦ simp e (walk_back-stops s n)
  | inr e ↦ ground (arith, e)
]

-- `out` is the start of `s`, of at most `n` bytes, and what is cut off does not start within a code
-- point, if anything is left at all.
abbrev pub IsCut : Text → ℕ → Text → Type 0
IsCut s n out =
    (rest : Text) × (s ≡ out ++ rest)
    × (length out ≤ n)
    × ((out ≡ []) ⊎ (is_continuation rest 0 ≡ false))

take_none : (s : Text) (k : ℕ) → k ≡ 0 → take k s ≡ []
take_none s k h = ap (λ k. take k s) h

-- A truncated text is the start of the text, has at most as many bytes as allowed, and does not end
-- within a code point.
pub safe_truncate-IsCut : (s : Text) (n : ℕ) → IsCut s n (safe_truncate s n)
unfolding safe_truncate is_continuation
safe_truncate-IsCut s n = elim (Bool-cases (leb (length s) n)) [
  | inl e ↦ simp e ([], sym (append-nil s), ground (arith, e), inr refl)
  | inr e ↦
      let k = walk_back s n in
      simp e (
        drop k s,
        sym (take-append-drop k s),
        omega (arith, length-take k s, walk_back-le s n),
        elim (walk_back-stops s n) [
          | inl none_left ↦ inl (take_none s k none_left)
          | inr plain ↦ inr (sym (is_continuation-drop s k) ∙ plain)
        ],
      )
]
