-- ===== src/Prelude/Slices.antt =====
-- Slices of lists: what `take`, `drop` and the last items of a list are on an append.
use Prim.Native.Nat.{ℕ, zero, suc, ◌+◌, ◌-◌, ◌<◌, ◌≤◌, min}
use mathlib.Core.Path.{◌≡◌, refl, sym, ap, ◌∙◌}
use mathlib.Core.List.{List, [], ◌∷◌, ◌++◌}
use native.Mathlib.Omega.{arith}
use gonesis.Prelude.Lists.{length, take, drop, length-append, length-drop}

-- The last `k` items of a list, or all of it.
abbrev pub last_of {ℓ} : {A : Type ℓ} → ℕ → List A → List A
last_of k xs = drop (length xs - k) xs

module _ {ℓ} {A : Type ℓ} where
  pub drop-append : (n : ℕ) (xs ys : List A) → n ≤ length xs → drop n (xs ++ ys) ≡ drop n xs ++ ys
  drop-append zero xs ys h = refl
  drop-append (suc n) [] ys h = absurd (omega arith)
  drop-append (suc n) (x ∷ xs) ys h = drop-append n xs ys (omega arith)

  pub drop_next : (n : ℕ) (xs : List A) → drop 1 (drop n xs) ≡ drop (n + 1) xs
  drop_next zero [] = refl
  drop_next zero (x ∷ xs) = refl
  drop_next (suc n) [] = let e : suc n + 1 ≡ suc (n + 1) = omega arith in rw e
  drop_next (suc n) (x ∷ xs) =
      let e : suc n + 1 ≡ suc (n + 1) = omega arith in rw e (drop_next n xs)

  -- One more item pushes out the oldest of `k`.
  pub last_of-snoc :
      (k : ℕ) (xs : List A) (x : A)
      → k ≤ length xs
      → 0 < k
      → last_of k (xs ++ x ∷ []) ≡ drop 1 (last_of k xs) ++ (x ∷ [])
  last_of-snoc k xs x h pos =
      ap (λ n. drop n (xs ++ x ∷ [])) (omega (arith, length-append xs (x ∷ [])))
      ∙ drop-append (length xs - k + 1) xs (x ∷ []) (omega arith)
      ∙ ap (λ l. l ++ (x ∷ [])) (sym (drop_next (length xs - k) xs))

  pub last_of_short : (k : ℕ) (xs : List A) → length xs ≤ k → last_of k xs ≡ xs
  last_of_short k xs h = let e : length xs - k ≡ 0 = omega arith in rw e

  pub length-last_of : (k : ℕ) (xs : List A) → length (last_of k xs) ≡ min k (length xs)
  length-last_of k xs = omega (arith, length-drop (length xs - k) xs)

module _ {ℓ} {A : Type ℓ} where
  pub take-append_long : (n : ℕ) (xs ys : List A) → n ≤ length xs → take n (xs ++ ys) ≡ take n xs
  take-append_long zero xs ys h = refl
  take-append_long (suc n) [] ys h = absurd (omega arith)
  take-append_long (suc n) (x ∷ xs) ys h = ap (λ l. x ∷ l) (take-append_long n xs ys (omega arith))

  pub take-append_short :
      (n : ℕ) (xs ys : List A) → length xs ≤ n → take n (xs ++ ys) ≡ xs ++ take (n - length xs) ys
  take-append_short n [] ys h = ap (λ k. take k ys) (omega arith)
  take-append_short zero (x ∷ xs) ys h = absurd (omega arith)
  take-append_short (suc n) (x ∷ xs) ys h =
      ap (λ l. x ∷ l)
        (take-append_short n xs ys (omega arith) ∙ ap (λ k. xs ++ take k ys) (omega arith))

  pub drop-append_short :
      (n : ℕ) (xs ys : List A) → length xs ≤ n → drop n (xs ++ ys) ≡ drop (n - length xs) ys
  drop-append_short n [] ys h = ap (λ k. drop k ys) (omega arith)
  drop-append_short zero (x ∷ xs) ys h = absurd (omega arith)
  drop-append_short (suc n) (x ∷ xs) ys h =
      drop-append_short n xs ys (omega arith) ∙ ap (λ k. drop k ys) (omega arith)

  pub take_all : (n : ℕ) (xs : List A) → length xs ≤ n → take n xs ≡ xs
  take_all zero [] h = refl
  take_all zero (x ∷ xs) h = absurd (omega arith)
  take_all (suc n) [] h = refl
  take_all (suc n) (x ∷ xs) h = ap (λ l. x ∷ l) (take_all n xs (omega arith))

  pub drop_all : (n : ℕ) (xs : List A) → length xs ≤ n → drop n xs ≡ []
  drop_all zero [] h = refl
  drop_all zero (x ∷ xs) h = absurd (omega arith)
  drop_all (suc n) [] h = refl
  drop_all (suc n) (x ∷ xs) h = drop_all n xs (omega arith)
