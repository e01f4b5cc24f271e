-- ===== src/Search/Sort.antt =====
-- sort.SliceStable, by insertion: a stable sort has one result. The order on Go strings.
use gonesis.Prelude.{
  Text, Bool, true, false, List, [], ◌∷◌, if◌then◌else◌, ◌==◌, ltb, ◌≡◌, inl, inr, Bool-cases,
  length, suc, ap, ◌∙◌, arith, refl,
}
use mathlib.Core.List.{Perm}
use mathlib.Core.List.Perm

-- `s < t` on strings
unfoldable pub text_less : Text → Text → Bool
text_less [] [] = false
text_less [] (d ∷ t) = true
text_less (c ∷ s) [] = false
text_less (c ∷ s) (d ∷ t) = let rest = text_less s t in if c == d then rest else ltb c d

-- An item goes before the first one that it is not behind.
unfoldable pub insert_stable {ℓ} : {A : Type ℓ} → (A → A → Bool) → A → List A → List A
insert_stable less x [] = x ∷ []
insert_stable less x (y ∷ ys) =
    let rest = insert_stable less x ys in if less y x then y ∷ rest else x ∷ y ∷ ys

unfoldable pub sort_stable {ℓ} : {A : Type ℓ} → (A → A → Bool) → List A → List A
unfolding insert_stable
sort_stable less [] = []
sort_stable less (x ∷ xs) = insert_stable less x (sort_stable less xs)

module _ {ℓ} {A : Type ℓ} (less : A → A → Bool) where
  length-insert_stable : (x : A) (ys : List A) → length (insert_stable less x ys) ≡ suc (length ys)
  unfolding insert_stable
  length-insert_stable x [] = refl
  length-insert_stable x (y ∷ ys) = elim (Bool-cases (less y x)) [
    | inl e ↦ rw e (ap suc (length-insert_stable x ys))
    | inr e ↦ rw e
  ]

  pub length-sort_stable : (xs : List A) → length (sort_stable less xs) ≡ length xs
  unfolding sort_stable
  length-sort_stable [] = refl
  length-sort_stable (x ∷ xs) =
      length-insert_stable x (sort_stable less xs) ∙ ap suc (length-sort_stable xs)

  perm-insert_stable : (x : A) (ys : List A) → Perm (insert_stable less x ys) (x ∷ ys)
  unfolding insert_stable
  perm-insert_stable x [] = Perm.refl (x ∷ [])
  perm-insert_stable x (y ∷ ys) = elim (Bool-cases (less y x)) [
    | inl e ↦ rw e (Perm.trans (Perm.cons y (perm-insert_stable x ys)) (Perm.swap x y ys))
    | inr e ↦ rw e (Perm.refl (x ∷ y ∷ ys))
  ]

  -- Sorting keeps the items.
  pub perm-sort_stable : (xs : List A) → Perm (sort_stable less xs) xs
  unfolding sort_stable
  perm-sort_stable [] = Perm.refl []
  perm-sort_stable (x ∷ xs) =
      Perm.trans (perm-insert_stable x (sort_stable less xs)) (Perm.cons x (perm-sort_stable xs))

  -- No item is less than the one before it.
  abbrev pub InOrder : List A → Type 0
  InOrder [] = Unit
  InOrder (x ∷ []) = Unit
  InOrder (x ∷ y ∷ ys) = (less y x ≡ false) × InOrder (y ∷ ys)

  -- What may stand before a list in order.
  abbrev Leads : A → List A → Type 0
  Leads x [] = Unit
  Leads x (y ∷ ys) = less y x ≡ false

  InOrder-cons : (x : A) (ys : List A) → Leads x ys → InOrder ys → InOrder (x ∷ ys)
  InOrder-cons x [] h hs = tt
  InOrder-cons x (y ∷ ys) h hs = (h, hs)

  tail_InOrder : (x : A) (ys : List A) → InOrder (x ∷ ys) → Leads x ys × InOrder ys
  tail_InOrder x [] h = (tt, tt)
  tail_InOrder x (y ∷ ys) h = h

  Leads-insert_stable :
      (w x : A) (ys : List A) → less x w ≡ false → Leads w ys → Leads w (insert_stable less x ys)
  unfolding insert_stable
  Leads-insert_stable w x [] h hs = h
  Leads-insert_stable w x (y ∷ ys) h hs = elim (Bool-cases (less y x)) [
    | inl e ↦ rw e hs
    | inr e ↦ rw e h
  ]

  insert_stable-InOrder :
      (asym : (x y : A) → less x y ≡ true → less y x ≡ false) (x : A) (ys : List A)
      → InOrder ys
      → InOrder (insert_stable less x ys)
  unfolding insert_stable
  insert_stable-InOrder asym x [] hs = tt
  insert_stable-InOrder asym x (y ∷ ys) hs = elim (Bool-cases (less y x)) [
    | inl e ↦
        let (lead, tl) = tail_InOrder y ys hs in
        rw e (
          InOrder-cons y (insert_stable less x ys) (Leads-insert_stable y x ys (asym y x e) lead)
            (insert_stable-InOrder asym x ys tl))
    | inr e ↦ rw e (e, hs)
  ]

  -- Sorting by an order puts the items in order.
  pub sort_stable-InOrder :
      (asym : (x y : A) → less x y ≡ true → less y x ≡ false) (xs : List A)
      → InOrder (sort_stable less xs)
  unfolding sort_stable
  sort_stable-InOrder asym [] = tt
  sort_stable-InOrder asym (x ∷ xs) =
      insert_stable-InOrder asym x (sort_stable less xs) (sort_stable-InOrder asym xs)

pub text_less_asym : (s t : Text) → text_less s t ≡ true → text_less t s ≡ false
unfolding text_less
text_less_asym [] [] h = refl
text_less_asym [] (d ∷ t) h = refl
text_less_asym (c ∷ s) [] h = ground arith
text_less_asym (c ∷ s) (d ∷ t) h = ground (arith, text_less_asym s t)
