-- ===== src/Bounded/Kept.antt =====
-- The ring of `headTailBuf` keeps the last bytes that were put into it, in order.
use gonesis.Prelude.{
  ℕ, zero, suc, ◌+◌, ◌%◌, ◌<◌, ◌≤◌, min, ◌≡◌, inl, inr, refl, sym, ap, ◌∙◌, [], ◌∷◌, ◌++◌, arith,
  length, set, drop, length-set, length-append, append_assoc, append-nil, ltb, Bool-cases, last_of,
  last_of-snoc, last_of_short,
}
use gonesis.Bounded.{Bytes, HeadTailBuf, put_byte, put_bytes, linear_from, linear_tail}
use gonesis.Bounded.Ring.{linear_from-push, linear_from-overwrite}

-- The ring of `b` holds the last of the bytes `rest`.
pub record IsRing (rest : Bytes) (b : HeadTailBuf) : Type 0 where
  pub places : length b.tail ≡ b.tail_cap
  pub start_in : b.tail_start < b.tail_cap
  pub len_in : b.tail_len ≡ min b.tail_cap (length rest)
  pub kept : linear_tail b ≡ last_of b.tail_cap rest

overwrite_kept :
    (t rest : Bytes) (cap s len c : ℕ)
    → s < cap
    → length t ≡ cap
    → len ≡ cap
    → cap ≤ length rest
    → linear_from t cap s 0 len ≡ last_of cap rest
    → linear_from (set t s c) cap ((s + 1) % cap) 0 len ≡ last_of cap (rest ++ c ∷ [])
overwrite_kept t rest zero s len c hs ht hl hr h = absurd (omega arith)
overwrite_kept t rest (suc m) s len c hs ht hl hr h =
    ap (linear_from _ (suc m) _ 0) hl
    ∙ linear_from-overwrite t m s c hs ht
    ∙ ap (λ n. drop 1 (linear_from t (suc m) s 0 n) ++ c ∷ []) (sym hl)
    ∙ ap (λ l. drop 1 l ++ c ∷ []) h
    ∙ sym (last_of-snoc (suc m) rest c hr (omega arith))

module _ (rest : Bytes) (b : HeadTailBuf) (c : ℕ) (r : IsRing rest b) where
  push_kept :
      b.tail_len < b.tail_cap
      → linear_from
          (set b.tail ((b.tail_start + b.tail_len) % b.tail_cap) c)
          b.tail_cap
          b.tail_start
          0
          (b.tail_len + 1)
        ≡ last_of b.tail_cap (rest ++ c ∷ [])
  unfolding linear_tail
  push_kept h =
      ap (linear_from _ b.tail_cap b.tail_start 0) {y = suc b.tail_len} (omega arith)
      ∙ linear_from-push b.tail b.tail_cap b.tail_start b.tail_len c r.start_in h r.places
      ∙ ap (λ l. l ++ c ∷ []) (r.kept ∙ last_of_short b.tail_cap rest (omega (arith, r.len_in)))
      ∙ sym (
          last_of_short b.tail_cap (rest ++ c ∷ [])
            (omega (arith, r.len_in, length-append rest (c ∷ []))))

put_byte-IsRing :
    (rest : Bytes) (b : HeadTailBuf) (c : ℕ)
    → IsRing rest b
    → IsRing (rest ++ c ∷ []) (put_byte b c)
unfolding put_byte linear_tail
put_byte-IsRing rest b c r = elim (Bool-cases (ltb b.tail_len b.tail_cap)) [
  | inl room ↦ rw room (record {
    places = length-set b.tail _ c ∙ r.places;
    start_in = r.start_in;
    len_in = ground (arith, r.len_in, length-append rest (c ∷ []));
    kept = push_kept rest b c r (ground arith);
  })
  | inr full ↦ rw full (record {
    places = length-set b.tail _ c ∙ r.places;
    start_in = omega (arith, r.start_in);
    len_in = ground (arith, r.len_in, length-append rest (c ∷ []));
    kept =
        overwrite_kept b.tail rest b.tail_cap b.tail_start b.tail_len c r.start_in r.places
          (ground (arith, r.len_in)) (ground (arith, r.len_in)) r.kept;
  })
]

pub put_bytes-IsRing :
    (p rest : Bytes) (b : HeadTailBuf) → IsRing rest b → IsRing (rest ++ p) (put_bytes b p)
unfolding put_bytes
put_bytes-IsRing [] rest b r = rw append-nil r
put_bytes-IsRing (c ∷ p) rest b r =
    rw (append_assoc rest (c ∷ []) p) at
      (put_bytes-IsRing p (rest ++ c ∷ []) (put_byte b c) (put_byte-IsRing rest b c r))

-- What the loop over the ring leaves alone.
pub put_bytes_frame :
    (p : Bytes) (b : HeadTailBuf)
    → ((put_bytes b p).head ≡ b.head)
      × ((put_bytes b p).head_cap ≡ b.head_cap)
      × ((put_bytes b p).tail_cap ≡ b.tail_cap)
      × ((put_bytes b p).total ≡ b.total)
unfolding put_bytes put_byte
put_bytes_frame [] b = (refl, refl, refl, refl)
put_bytes_frame (c ∷ p) b = ground (arith, put_bytes_frame p (put_byte b c))

pub IsRing-frame :
    (rest h : Bytes) (n : ℕ) (b : HeadTailBuf)
    → IsRing rest b
    → IsRing rest (record b { head = h; total = n })
unfolding linear_tail
IsRing-frame rest h n b r = record {
  places = r.places;
  start_in = r.start_in;
  len_in = r.len_in;
  kept = r.kept;
}
