-- ===== src/Bounded/Ring.antt =====
-- The ring of `headTailBuf`: what one more byte does to the bytes read off it in order.
use native.Mathlib.Nat.{mod-eq_of_lt, mod-eq-sub-mod, mod-add-mod}
use native.Mathlib.Decide.{dec_lt}
use gonesis.Prelude.{
  ℕ, zero, suc, ◌+◌, ◌-◌, ◌%◌, ◌<◌, ◌≤◌, ◌≡◌, ◌≢◌, refl, sym, ap, ap₂, ◌∙◌, [], ◌∷◌, ◌++◌, arith,
  length, get_or, set, drop,
}
use gonesis.Bounded.{Bytes, linear_from}

get_or-set_self : (t : Bytes) (k c : ℕ) → k < length t → get_or (set t k c) k 0 ≡ c
get_or-set_self [] k c h = absurd (omega arith)
get_or-set_self (x ∷ t) zero c h = refl
get_or-set_self (x ∷ t) (suc k) c h = get_or-set_self t k c (omega arith)

get_or-set_ne : (t : Bytes) (k j c : ℕ) → j ≢ k → get_or (set t k c) j 0 ≡ get_or t j 0
get_or-set_ne [] k j c h = refl
get_or-set_ne (x ∷ t) zero zero c h = absurd (h refl)
get_or-set_ne (x ∷ t) zero (suc j) c h = refl
get_or-set_ne (x ∷ t) (suc k) zero c h = refl
get_or-set_ne (x ∷ t) (suc k) (suc j) c h = get_or-set_ne t k j c (λ e. h (ap suc e))

-- An index that has gone at most once round the ring.
pub data Around (cap n : ℕ) : Type 0 where
  before : n < cap → n % cap ≡ n → Around cap n
  past : cap ≤ n → n % cap ≡ n - cap → Around cap n

pub around : (cap s a : ℕ) → s < cap → a ≤ cap → Around cap (s + a)
around cap s a hs ha = elim (dec_lt (s + a) cap) [
  | yes p ↦ before p (mod-eq_of_lt p)
  | no p ↦ past (omega arith) (
      mod-eq-sub-mod {n = s + a} {m = cap} (omega arith)
      ∙ mod-eq_of_lt {n = s + a - cap} {m = cap} (omega arith))
]

index_ne : (cap s i j : ℕ) → s < cap → i < j → j < i + cap → j ≤ cap → (s + i) % cap ≢ (s + j) % cap
index_ne cap s i j hs h1 h2 h3 =
    go (around cap s i hs (omega arith)) (around cap s j hs (omega arith))
  where
    go : Around cap (s + i) → Around cap (s + j) → (s + i) % cap ≢ (s + j) % cap
    go (before a b) (before c d) = omega arith
    go (before a b) (past c d) = omega arith
    go (past a b) (before c d) = omega arith
    go (past a b) (past c d) = omega arith

index_shift : (cap s i : ℕ) → ((s + 1) % cap + i) % cap ≡ (s + (i + 1)) % cap
index_shift cap s i = rw mod-add-mod (ap (λ k. k % cap) (omega arith))

pub length-linear_from : (t : Bytes) (cap s i n : ℕ) → length (linear_from t cap s i n) ≡ n
unfolding linear_from
length-linear_from t cap s i zero = refl
length-linear_from t cap s i (suc n) = ap suc (length-linear_from t cap s (i + 1) n)

linear_from-snoc :
    (t : Bytes) (cap s i n : ℕ)
    → linear_from t cap s i (suc n)
      ≡ linear_from t cap s i n ++ (get_or t ((s + (i + n)) % cap) 0 ∷ [])
unfolding linear_from
linear_from-snoc t cap s i zero = ap (λ k. get_or t ((s + k) % cap) 0 ∷ []) (omega arith)
linear_from-snoc t cap s i (suc n) =
    ap (λ l. get_or t ((s + i) % cap) 0 ∷ l)
      (linear_from-snoc t cap s (i + 1) n
        ∙ ap (λ k. linear_from t cap s (i + 1) n ++ (get_or t ((s + k) % cap) 0 ∷ []))
            (omega arith))

-- A write at an index that is not read changes nothing.
linear_from-set :
    (t : Bytes) (cap s k c i n : ℕ)
    → ((j : ℕ) → i ≤ j → j < i + n → (s + j) % cap ≢ k)
    → linear_from (set t k c) cap s i n ≡ linear_from t cap s i n
unfolding linear_from
linear_from-set t cap s k c i zero h = refl
linear_from-set t cap s k c i (suc n) h =
    ap₂ ◌∷◌ (get_or-set_ne t k ((s + i) % cap) c (h i (omega arith) (omega arith)))
      (linear_from-set t cap s k c (i + 1) n (λ j a b. h j (omega arith) (omega arith)))

linear_from_shift :
    (t : Bytes) (cap s i n : ℕ)
    → linear_from t cap ((s + 1) % cap) i n ≡ linear_from t cap s (i + 1) n
unfolding linear_from
linear_from_shift t cap s i zero = refl
linear_from_shift t cap s i (suc n) =
    ap₂ (λ k l. get_or t k 0 ∷ l) (index_shift cap s i) (linear_from_shift t cap s (i + 1) n)

-- With room left, a byte written behind the last one is read last.
pub linear_from-push :
    (t : Bytes) (cap s n c : ℕ)
    → s < cap
    → n < cap
    → length t ≡ cap
    → linear_from (set t ((s + n) % cap) c) cap s 0 (suc n) ≡ linear_from t cap s 0 n ++ (c ∷ [])
linear_from-push t cap s n c hs hn ht =
    linear_from-snoc (set t ((s + n) % cap) c) cap s 0 n
    ∙ ap₂ (λ l d. l ++ (d ∷ []))
        (linear_from-set t cap s ((s + n) % cap) c 0 n
          (λ j a b. index_ne cap s j n hs (omega arith) (omega arith) (omega arith)))
        (ap (λ k. get_or (set t ((s + n) % cap) c) ((s + k) % cap) 0) (omega arith)
          ∙ get_or-set_self t ((s + n) % cap) c (omega arith))

-- Once round the ring is back at the start.
index_full : (cap s : ℕ) → s < cap → (s + cap) % cap ≡ s
index_full cap s hs = go (around cap s cap hs (omega arith))
  where
    go : Around cap (s + cap) → (s + cap) % cap ≡ s
    go (before a b) = absurd (omega arith)
    go (past a b) = omega arith

-- In a full ring, a byte written over the oldest one takes its place at the end.
pub linear_from-overwrite :
    (t : Bytes) (m s c : ℕ)
    → s < suc m
    → length t ≡ suc m
    → linear_from (set t s c) (suc m) ((s + 1) % suc m) 0 (suc m)
      ≡ drop 1 (linear_from t (suc m) s 0 (suc m)) ++ (c ∷ [])
linear_from-overwrite t m s c hs ht =
    linear_from-snoc (set t s c) (suc m) ((s + 1) % suc m) 0 m
    ∙ ap₂ (λ l d. l ++ (d ∷ [])) read_back last
  where
    unread : (j : ℕ) → 0 + 1 ≤ j → j < 0 + 1 + m → (s + j) % suc m ≢ s
    unread j a b e =
        index_ne (suc m) s j (suc m) hs (omega arith) (omega arith) (omega arith)
          (e ∙ sym (index_full (suc m) s hs))

    read_back :
        linear_from (set t s c) (suc m) ((s + 1) % suc m) 0 m
        ≡ drop 1 (linear_from t (suc m) s 0 (suc m))
    read_back =
        linear_from_shift (set t s c) (suc m) s 0 m
        ∙ linear_from-set t (suc m) s s c (0 + 1) m unread
        ∙ drop_first
      where
        drop_first : linear_from t (suc m) s (0 + 1) m ≡ drop 1 (linear_from t (suc m) s 0 (suc m))
        drop_first = unfold linear_from in refl

    last : get_or (set t s c) (((s + 1) % suc m + (0 + m)) % suc m) 0 ≡ c
    last =
        ap (λ k. get_or (set t s c) k 0)
          (index_shift (suc m) s (0 + m)
            ∙ ap (λ k. (s + k) % suc m) (omega arith)
            ∙ index_full (suc m) s hs)
        ∙ get_or-set_self t s c (omega arith)
