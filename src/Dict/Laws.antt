-- ===== src/Dict/Laws.antt =====
-- What a client may know of the map operations, and that they keep the keys distinct.
use gonesis.Prelude.{
  Text, text_eq, All, text_eq_iff, true, false, none, some, [], ◌∷◌, if◌then◌else◌, ◌≡◌, refl,
  arith, inl, inr, Bool-cases, sym, ◌∙◌, ◌⊎◌,
}
use mathlib.Core.Path.{subst}
use gonesis.Dict.{Dict, lookup, has_key, insert, remove, HasDistinctKeys}

module _ {ℓ} {V : Type ℓ} where
  pub lookup-insert :
      (k j : Text) (v : V) (m : Dict V)
      → lookup j (insert k v m) ≡ (if text_eq k j then some v else lookup j m)
  unfolding lookup insert
  lookup-insert k j v [] = refl
  lookup-insert k j v ((i, w) ∷ m) =
      ground (arith, text_eq_iff k j, text_eq_iff i k, text_eq_iff i j, lookup-insert k j v m)

  pub lookup-remove :
      (k j : Text) (m : Dict V) → lookup j (remove k m) ≡ (if text_eq k j then none else lookup j m)
  unfolding lookup remove
  lookup-remove k j [] = ground arith
  lookup-remove k j ((i, w) ∷ m) =
      ground (arith, text_eq_iff k j, text_eq_iff i k, text_eq_iff i j, lookup-remove k j m)

  -- What a map holds after an insertion is the new value at its key, or stood there before.
  pub lookup-insert_cases :
      (k j : Text) (v x : V) (m : Dict V)
      → lookup j (insert k v m) ≡ some x
      → ((j ≡ k) × (x ≡ v)) ⊎ (lookup j m ≡ some x)
  lookup-insert_cases k j v x m h = elim (Bool-cases (text_eq k j)) [
    | inl e ↦
        let same : k ≡ j = (text_eq_iff k j).0 e in
        let found : some v ≡ some x = rw e at (sym (lookup-insert k j v m) ∙ h) in
        inl (sym same, cc)
    | inr e ↦ inr (rw e at (sym (lookup-insert k j v m) ∙ h))
  ]

  -- What a map holds after a removal stood there before.
  pub lookup-remove_kept :
      (k j : Text) (x : V) (m : Dict V) → lookup j (remove k m) ≡ some x → lookup j m ≡ some x
  lookup-remove_kept k j x m h = elim (Bool-cases (text_eq k j)) [
    | inl e ↦ let gone : none ≡ some x = rw e at (sym (lookup-remove k j m) ∙ h) in cc
    | inr e ↦ rw e at (sym (lookup-remove k j m) ∙ h)
  ]

  pub has_key_lem : (k : Text) (m : Dict V) (v : V) → lookup k m ≡ some v → has_key k m ≡ true
  unfolding lookup has_key
  has_key_lem k [] v h = ground arith
  has_key_lem k ((j, w) ∷ m) v h = ground (arith, has_key_lem k m v)

  pub has_key-false : (k : Text) (m : Dict V) → lookup k m ≡ none → has_key k m ≡ false
  unfolding lookup has_key
  has_key-false k [] h = refl
  has_key-false k ((j, w) ∷ m) h = ground (arith, has_key-false k m)

  pub lookup_of_has_key :
      (k : Text) (m : Dict V) → has_key k m ≡ true → (v : V) × (lookup k m ≡ some v)
  unfolding lookup has_key
  lookup_of_has_key k [] h = ground arith
  lookup_of_has_key k ((j, w) ∷ m) h = elim (Bool-cases (text_eq j k)) [
    | inl e ↦ (w, rw e)
    | inr e ↦ rw e (lookup_of_has_key k m (rw e at h))
  ]

  pub insert-HasDistinctKeys :
      (k : Text) (v : V) (m : Dict V) → HasDistinctKeys m → HasDistinctKeys (insert k v m)
  unfolding lookup insert
  insert-HasDistinctKeys k v [] h = ground arith
  insert-HasDistinctKeys k v ((j, w) ∷ m) h = elim (Bool-cases (text_eq j k)) [
    | inl e ↦ rw e (ground (arith, text_eq_iff j k))
    | inr e ↦ rw e (
        ground (
          arith,
          text_eq_iff j k,
          text_eq_iff k j,
          insert-HasDistinctKeys k v m,
          lookup-insert k j v m,
        ))
  ]

  pub remove-HasDistinctKeys :
      (k : Text) (m : Dict V) → HasDistinctKeys m → HasDistinctKeys (remove k m)
  unfolding lookup remove
  remove-HasDistinctKeys k [] h = tt
  remove-HasDistinctKeys k ((j, w) ∷ m) h =
      ground (arith, remove-HasDistinctKeys k m, lookup-remove k j m)

module _ {ℓ} {V : Type ℓ} where
  -- What holds of every entry holds of one that is found.
  pub lookup-All :
      (P : Text × V → Type ℓ) (k : Text) (m : Dict V) (v : V)
      → All P m
      → lookup k m ≡ some v
      → P (k, v)
  unfolding lookup
  lookup-All P k [] v a h = cc
  lookup-All P k ((j, w) ∷ m) v (first, others) h = elim (Bool-cases (text_eq j k)) [
    | inl e ↦
        let same : j ≡ k = (text_eq_iff j k).0 e in
        let found : some w ≡ some v = rw e at h in
        let value : w ≡ v = cc in subst (λ i. P (i, v)) same (subst (λ x. P (j, x)) value first)
    | inr e ↦ lookup-All P k m v others (rw e at h)
  ]

pub ruleset dict_laws = (lookup-insert, lookup-remove)
