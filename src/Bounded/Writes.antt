-- ===== src/Bounded/Writes.antt =====
-- What `Write` keeps, however the output is cut into writes: the first `head_cap` bytes, the last
-- `tail_cap` of the rest in order, and the count of all.
use gonesis.Prelude.{
  ℕ, ◌+◌, ◌-◌, ◌<◌, ◌≤◌, min, ◌≡◌, inl, inr, refl, sym, ap, ap₂, ◌∙◌, List, [], ◌∷◌, ◌++◌, arith,
  length, take, drop, length-append, length-take, length-replicate, append_assoc, append-nil, ltb,
  leb, Bool-cases, true, drop-append, take-append_long, take-append_short, drop-append_short,
  take_all, drop_all,
}
use mathlib.Core.Path.{subst}
use mathlib.Core.List.{flatten}
use gonesis.Bounded.{
  Bytes, HeadTailBuf, new_head_tail_buf, put_bytes, write, write_all, linear_tail,
}
use gonesis.Bounded.Kept.{IsRing, IsRing-frame, put_bytes-IsRing, put_bytes_frame}

-- The buffer after the bytes `all`, in whatever writes they came.
pub record Holds (head_cap tail_cap : ℕ) (all : Bytes) (b : HeadTailBuf) : Type 0 where
  pub head_cap_kept : b.head_cap ≡ head_cap
  pub tail_cap_kept : b.tail_cap ≡ tail_cap
  pub total_counts : b.total ≡ length all
  pub head_holds : b.head ≡ take head_cap all
  pub ring_holds : IsRing (drop head_cap all) b

-- The ring takes the bytes `q` that the head does not.
put_bytes-Holds :
    {hc tc : ℕ} {all : Bytes} (rest q : Bytes) (b : HeadTailBuf)
    → b.head_cap ≡ hc
    → b.tail_cap ≡ tc
    → b.total ≡ length all
    → b.head ≡ take hc all
    → IsRing rest b
    → rest ++ q ≡ drop hc all
    → Holds hc tc all (put_bytes b q)
put_bytes-Holds rest q b e1 e2 e3 e4 r e = record {
  head_cap_kept = (put_bytes_frame q b).1 ∙ e1;
  tail_cap_kept = (put_bytes_frame q b).2 ∙ e2;
  total_counts = (put_bytes_frame q b).3 ∙ e3;
  head_holds = (put_bytes_frame q b).0 ∙ e4;
  ring_holds = subst (λ l. IsRing l (put_bytes b q)) e (put_bytes-IsRing q rest b r);
}

module _ {hc tc : ℕ} {all : Bytes} (p : Bytes) (b : HeadTailBuf) (h : Holds hc tc all b) where
  counted : b.total + length p ≡ length (all ++ p)
  counted = omega (arith, h.total_counts, length-append all p)

  -- The head is full: every byte goes to the ring.
  write_full :
      hc ≤ length all
      → Holds hc tc (all ++ p) (put_bytes (record b { total = b.total + length p }) p)
  write_full full =
      put_bytes-Holds (drop hc all) p (record b { total = b.total + length p }) h.head_cap_kept
        h.tail_cap_kept counted (h.head_holds ∙ sym (take-append_long hc all p full))
        (IsRing-frame (drop hc all) b.head (b.total + length p) b h.ring_holds)
        (sym (drop-append hc all p full))

  -- With room left, the head holds all, and the ring nothing.
  module _ (room : length all < hc) where
    head_all : b.head ≡ all
    head_all = h.head_holds ∙ take_all hc all (omega arith)

    no-IsRing : (head' : Bytes) → IsRing [] (record b { head = head'; total = b.total + length p })
    no-IsRing head' =
        IsRing-frame [] head' (b.total + length p) b
          (subst (λ l. IsRing l b) (drop_all hc all (omega arith)) h.ring_holds)

    -- The head has room for `p`.
    write_fits :
        length all + length p ≤ hc
        → Holds hc tc (all ++ p) (record b { total = b.total + length p; head = b.head ++ p })
    write_fits fits = record {
      head_cap_kept = h.head_cap_kept;
      tail_cap_kept = h.tail_cap_kept;
      total_counts = counted;
      head_holds =
          ap (λ l. l ++ p) head_all
          ∙ sym (take_all hc (all ++ p) (omega (arith, length-append all p)));
      ring_holds =
          subst (λ l. IsRing l (record b { head = b.head ++ p; total = b.total + length p }))
            (sym (drop_all hc (all ++ p) (omega (arith, length-append all p))))
            (no-IsRing (b.head ++ p));
    }

    -- The head takes the first bytes of `p`, and the ring the rest.
    write_splits :
        let need = b.head_cap - length b.head in
        Holds hc tc (all ++ p) (
          put_bytes
            (record b { total = b.total + length p; head = b.head ++ take need p })
            (drop need p))
    write_splits =
        put_bytes-Holds [] (drop need p)
          (record b { total = b.total + length p; head = b.head ++ take need p }) h.head_cap_kept
          h.tail_cap_kept counted
          (ap₂ (λ l n. l ++ take n p) head_all need_lem
            ∙ sym (take-append_short hc all p (omega arith)))
          (no-IsRing (b.head ++ take need p))
          (ap (λ n. drop n p) need_lem ∙ sym (drop-append_short hc all p (omega arith)))
      where
        need : ℕ
        need = b.head_cap - length b.head

        need_lem : need ≡ hc - length all
        need_lem = omega (arith, h.head_cap_kept, ap length head_all)

  head_length : length b.head ≡ min hc (length all)
  head_length = omega (arith, ap length h.head_holds, length-take hc all)

  has_room : ltb (length b.head) b.head_cap ≡ true → length all < hc
  has_room e = ground (arith, h.head_cap_kept, head_length)

  -- One `Write` keeps the buffer right.
  write-Holds : Holds hc tc (all ++ p) (write b p).1
  unfolding write
  write-Holds = elim (Bool-cases (ltb (length b.head) b.head_cap)) [
    | inl room ↦ elim (Bool-cases (leb (length p) (b.head_cap - length b.head))) [
      | inl fits ↦
          rw (room, fits)
            (write_fits (has_room room)
              (ground (arith, h.head_cap_kept, head_length, has_room room)))
      | inr over ↦ rw (room, over) (write_splits (has_room room))
    ]
    | inr full ↦ rw full (write_full (ground (arith, h.head_cap_kept, head_length)))
  ]

-- A fresh buffer holds nothing.
new-Holds : (hc tc : ℕ) → 0 < tc → Holds hc tc [] (new_head_tail_buf hc tc)
unfolding new_head_tail_buf linear_tail
new-Holds hc tc h = record {
  head_cap_kept = refl;
  tail_cap_kept = refl;
  total_counts = refl;
  head_holds = sym (take_all hc [] (omega arith));
  ring_holds =
      subst (λ l. IsRing l (new_head_tail_buf hc tc)) (sym (drop_all hc [] (omega arith)))
        (record {
          places = length-replicate tc 0;
          start_in = h;
          len_in = omega arith;
          kept = sym (drop_all (0 - tc) [] (omega arith));
        });
}

write_all-append :
    {hc tc : ℕ} {all : Bytes} (ps : List Bytes) (b : HeadTailBuf)
    → Holds hc tc all b
    → Holds hc tc (all ++ flatten ps) (write_all b ps)
unfolding write_all flatten
write_all-append [] b h = rw append-nil h
write_all-append {all = all} (p ∷ ps) b h =
    rw (append_assoc all p (flatten ps)) at (write_all-append ps (write b p).1 (write-Holds p b h))

-- However the output is cut into writes, the buffer keeps its first `hc` bytes, the last `tc` of the
-- others in order, and their number, if the ring has a place.
pub write_all-Holds :
    (hc tc : ℕ) (ps : List Bytes)
    → 0 < tc
    → Holds hc tc (flatten ps) (write_all (new_head_tail_buf hc tc) ps)
write_all-Holds hc tc ps h = write_all-append ps (new_head_tail_buf hc tc) (new-Holds hc tc h)
