-- ===== src/Frontmatter/Fence.antt =====
-- What is written between the fences is what is read back.
use gonesis.Prelude.{
  ℕ, suc, Text, true, false, none, some, Option-cases, [], ◌∷◌, ◌++◌, ok, take, drop, length, ◌≡◌,
  refl, ap, arith, inl, inr, Bool-cases, ◌∙◌, sym, ap₂,
}
use gonesis.Prelude.{take-append-drop}
use gonesis.Strings.Replace.{has_prefix-drop}
use gonesis.Strings.{has_prefix, index}
use gonesis.Frontmatter.{opening, fence, split_frontmatter}

-- No place of a text without a fence becomes one when a fence follows the text.
prefix-append :
    (c : ℕ) (s tail : Text)
    → has_prefix fence (c ∷ s) ≡ false
    → has_prefix fence (c ∷ (s ++ (fence ++ tail))) ≡ false
unfolding has_prefix
prefix-append c [] tail h = ground arith
prefix-append c (d ∷ []) tail h = ground arith
prefix-append c (d ∷ e ∷ []) tail h = ground arith
prefix-append c (d ∷ e ∷ f ∷ s) tail h = h

index-fence :
    (s tail : Text) → index fence s ≡ none → index fence (s ++ (fence ++ tail)) ≡ some (length s)
unfolding index
index-fence [] tail h = refl
index-fence (c ∷ s) tail h = elim (Option-cases (index fence s)) [
  | inr (i, e) ↦ absurd (ground (arith, e))
  | inl e ↦ elim (Bool-cases (has_prefix fence (c ∷ s))) [
    | inl f ↦ absurd (ground (arith, e, f))
    | inr f ↦ ground (arith, index-fence s tail e, prefix-append c s tail f)
  ]
]

take-length : (s t : Text) → take (length s) (s ++ t) ≡ s
take-length [] t = refl
take-length (c ∷ s) t = ap (λ l. c ∷ l) (take-length s t)

drop-length : (s t : Text) → drop (length s) (s ++ t) ≡ t
drop-length [] t = refl
drop-length (c ∷ s) t = drop-length s t

-- A frontmatter without a fence, written between the opening line and a closing one, is split
-- from what follows it.
pub split_frontmatter-written :
    (s tail : Text)
    → index fence s ≡ none
    → split_frontmatter (opening ++ (s ++ (fence ++ tail))) ≡ ok (s, fence ++ tail)
unfolding split_frontmatter has_prefix
split_frontmatter-written s tail h =
    rw (index-fence s tail h, take-length s (fence ++ tail), drop-length s (fence ++ tail))

-- A text that is split is the opening line, the frontmatter and what follows.
pub split_frontmatter-parts :
    (content s tail : Text)
    → split_frontmatter content ≡ ok (s, tail)
    → content ≡ opening ++ (s ++ tail)
unfolding split_frontmatter
split_frontmatter-parts content s tail h =
    let rest = drop 4 content in
    elim (Bool-cases (has_prefix opening content)) [
      | inr e ↦ absurd (ground (arith, e))
      | inl e ↦ elim (Option-cases (index fence rest)) [
        | inl f ↦ absurd (ground (arith, e, f))
        | inr (i, f) ↦
            let here : content ≡ opening ++ rest = has_prefix-drop opening content e in
            let front : take i rest ≡ s = ground (arith, e, f) in
            let back : drop i rest ≡ tail = ground (arith, e, f) in
            here
            ∙ ap (λ t. opening ++ t)
                (sym (take-append-drop i rest) ∙ ap₂ (λ a b. a ++ b) front back)
      ]
    ]

index-at :
    (p s : Text) (i : ℕ)
    → index p s ≡ some i
    → (has_prefix p (drop i s) ≡ true) × (length (take i s) ≡ i)
unfolding index
index-at p [] i h = ground (arith, h)
index-at p (c ∷ s) i h = elim (Bool-cases (has_prefix p (c ∷ s))) [
  | inl e ↦ ground (arith, e, h)
  | inr e ↦ elim (Option-cases (index p s)) [
    | inl f ↦ absurd (ground (arith, e, f, h))
    | inr (k, f) ↦
        let (here, long) = index-at p s k f in
        let next : i ≡ suc k = ground (arith, e, f, h) in rw next (here, ap suc long)
  ]
]

-- What follows the frontmatter is the rest of the text from its first fence on.
pub split_frontmatter-fence :
    (content s tail : Text)
    → split_frontmatter content ≡ ok (s, tail)
    → (index fence (s ++ tail) ≡ some (length s)) × (tail ≡ fence ++ drop 4 tail)
unfolding split_frontmatter
split_frontmatter-fence content s tail h =
    let rest = drop 4 content in
    elim (Bool-cases (has_prefix opening content)) [
      | inr e ↦ absurd (ground (arith, e))
      | inl e ↦ elim (Option-cases (index fence rest)) [
        | inl f ↦ absurd (ground (arith, e, f))
        | inr (i, f) ↦
            let front : take i rest ≡ s = ground (arith, e, f) in
            let back : drop i rest ≡ tail = ground (arith, e, f) in
            let (here, long) = index-at fence rest i f in
            let whole : rest ≡ s ++ tail =
              sym (take-append-drop i rest) ∙ ap₂ (λ a b. a ++ b) front back in
            (
              ap (index fence) (sym whole) ∙ f ∙ ap some (sym long ∙ ap length front),
              has_prefix-drop fence tail (ap (has_prefix fence) (sym back) ∙ here),
            )
      ]
    ]
