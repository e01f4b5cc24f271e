-- ===== src/Bounded/Render.antt =====
-- What `String` shows: all of a short output, and of a long one whole lines from both ends with the
-- number of bytes between them.
use mathlib.Core.List.{flatten}
use gonesis.Prelude.{
  ℕ, ◌+◌, ◌-◌, ◌<◌, ◌≤◌, min, ◌≡◌, sym, ap, ap₂, ◌∙◌, List, ◌++◌, arith, length, take, drop,
  length-append, length-take, length-drop, append_assoc, true, false, take-append-drop, last_of,
  last_of_short, length-last_of, take_all, ◌==◌,
}
use gonesis.Bounded.{
  Bytes, HeadTailBuf, new_head_tail_buf, write_all, linear_tail, head_part, tail_part, marker,
  render,
}
use gonesis.Bounded.Lines.{
  EndsLine, StartsLine, head_part-EndsLine, tail_part-StartsLine, EndsLine-length,
  StartsLine-length, EndsLine-split, StartsLine-split,
}
use gonesis.Bounded.Writes.{Holds, write_all-Holds}

module _ {hc tc : ℕ} {all : Bytes} {b : HeadTailBuf} (pos : 0 < tc) (h : Holds hc tc all b) where
  ring_length : b.tail_len ≡ min tc (length all - hc)
  ring_length = omega (arith, h.ring_holds.len_in, h.tail_cap_kept, length-drop hc all)

  head_length : length b.head ≡ min hc (length all)
  head_length = omega (arith, ap length h.head_holds, length-take hc all)

  tail_shown : linear_tail b ≡ last_of tc (drop hc all)
  tail_shown = h.ring_holds.kept ∙ ap (λ k. last_of k (drop hc all)) h.tail_cap_kept

  both_parts : length all ≤ hc + tc → b.head ++ linear_tail b ≡ all
  both_parts fits =
      ap₂ ◌++◌ h.head_holds
        (tail_shown ∙ last_of_short tc (drop hc all) (omega (arith, length-drop hc all)))
      ∙ take-append-drop hc all

  head_alone : length all ≤ hc → b.head ≡ all
  head_alone small = h.head_holds ∙ take_all hc all small

  -- A short output is shown whole.
  render_fits : length all ≤ hc + tc → render b ≡ all
  unfolding render
  render_fits fits =
      ground (arith, both_parts fits, head_alone, ring_length, head_length, h.total_counts)

  -- What `String` shows of a long output.
  abbrev pub front : Bytes
  front = head_part (take hc all)

  abbrev pub back : Bytes
  back = tail_part (last_of tc (drop hc all))

  front_le : length front ≤ min hc (length all)
  front_le = omega (arith, EndsLine-length (head_part-EndsLine (take hc all)), length-take hc all)

  back_le : length back ≤ min tc (length all - hc)
  back_le = omega (
    arith,
    StartsLine-length (tail_part-StartsLine (last_of tc (drop hc all))),
    length-last_of tc (drop hc all),
    length-drop hc all,
  )

  dropped_lem :
      hc + tc < length all
      → b.total
          - length b.head
          - b.tail_len
          + (length b.head - length (head_part b.head))
          + (length (linear_tail b) - length (tail_part (linear_tail b)))
        ≡ length all - length front - length back
  dropped_lem over = omega (
    arith,
    h.total_counts,
    head_length,
    ring_length,
    front_le,
    back_le,
    ap (λ l. length (head_part l)) h.head_holds,
    ap (λ l. length (tail_part l)) tail_shown,
    ap length tail_shown,
    length-last_of tc (drop hc all),
    length-drop hc all,
  )

  render_overflow :
      hc + tc < length all
      → render b ≡ front ++ marker (length all - length front - length back) ++ back
  unfolding render
  render_overflow over =
      let filled : (b.tail_len == 0) ≡ false = ground (arith, ring_length) in
      let full : (length b.head == b.head_cap) ≡ true =
        ground (arith, head_length, h.head_cap_kept) in
      let lost : (b.total - length b.head - b.tail_len == 0) ≡ false =
        ground (arith, ring_length, head_length, h.total_counts) in
      rw (filled, full, lost) (cc (h.head_holds, tail_shown, dropped_lem over))

-- What is shown of more bytes than the buffer holds: the ends of the output, each cut at a newline
-- where it has one, and between them the marker with the number of bytes that are left out.
pub record Truncated (hc tc : ℕ) (all out : Bytes) : Type 0 where
  pub front : Bytes
  pub middle : Bytes
  pub back : Bytes
  pub parts : all ≡ front ++ middle ++ back
  pub shown : out ≡ front ++ marker (length middle) ++ back
  pub front_line : EndsLine (take hc all) front
  pub back_line : StartsLine (last_of tc (drop hc all)) back

-- However the output is cut into writes, `String` returns all of it if it fits into head and tail.
pub render_short :
    (hc tc : ℕ) (ps : List Bytes)
    → 0 < tc
    → length (flatten ps) ≤ hc + tc
    → render (write_all (new_head_tail_buf hc tc) ps) ≡ flatten ps
render_short hc tc ps pos fits = render_fits pos (write_all-Holds hc tc ps pos) fits

-- What the cuts at both ends and the ring have left out, in one piece.
module _ (hc tc : ℕ) (all f m1 m2 b : Bytes) where
  left_out : Bytes
  left_out = m1 ++ take (length (drop hc all) - tc) (drop hc all) ++ m2

  parts_of_cuts :
      take hc all ≡ f ++ m1 → last_of tc (drop hc all) ≡ m2 ++ b → all ≡ f ++ left_out ++ b
  unfolding left_out
  parts_of_cuts e1 e2 =
      sym (take-append-drop hc all)
      ∙ ap₂ ◌++◌ e1 (
          sym (take-append-drop (length (drop hc all) - tc) (drop hc all))
          ∙ ap (λ l. take (length (drop hc all) - tc) (drop hc all) ++ l) e2)
      ∙ simp append_assoc

length_of_parts :
    (all f m b : Bytes) → all ≡ f ++ m ++ b → length all - length f - length b ≡ length m
length_of_parts all f m b e = omega (
  arith,
  ap length e,
  length-append f (m ++ b),
  length-append (f ++ m) b,
  length-append m b,
  length-append f m,
)

-- Of a longer output `String` returns the ends, cut at newlines where they have one, and between
-- them a marker with the exact number of bytes left out.
pub render_long :
    (hc tc : ℕ) (ps : List Bytes)
    → 0 < tc
    → hc + tc < length (flatten ps)
    → Truncated hc tc (flatten ps) (render (write_all (new_head_tail_buf hc tc) ps))
render_long hc tc ps pos over =
    let all = flatten ps in
    let f = head_part (take hc all) in
    let b = tail_part (last_of tc (drop hc all)) in
    let f_cut = head_part-EndsLine (take hc all) in
    let b_cut = tail_part-StartsLine (last_of tc (drop hc all)) in
    let (m1, e1) = EndsLine-split f_cut in
    let (m2, e2) = StartsLine-split b_cut in
    let m = left_out hc tc all f m1 m2 b in
    let whole = parts_of_cuts hc tc all f m1 m2 b e1 e2 in
    record {
      front = f;
      middle = m;
      back = b;
      parts = whole;
      shown =
          render_overflow pos (write_all-Holds hc tc ps pos) over
          ∙ ap (λ n. f ++ marker n ++ b) (length_of_parts all f m b whole);
      front_line = f_cut;
      back_line = b_cut;
    }
