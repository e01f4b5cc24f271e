-- ===== src/Bounded.antt =====
-- pkg/exec/bounded/bounded.go: a command run with a timeout, whose output goes through buffers that
-- keep the first and the last bytes. Bytes are only moved, so a byte is any number.
pub mod Ring
pub mod Kept
pub mod Writes
pub mod Lines
pub mod Render
pub mod Run
mod Tests
use gonesis.Prelude.{
  ℕ, zero, suc, ◌+◌, ◌-◌, ◌*◌, ◌%◌, Text, codes, Bool, true, false, not, ◌||◌, Option, none, some,
  List, [], ◌∷◌, ◌++◌, if◌then◌else◌, ◌==◌, leb, ltb, ℤ, pos, negsuc, length, get_or, set, take,
  drop, replicate, Result, ok, err,
}
use gonesis.Strconv.{itoa}

abbrev pub Bytes : Type 0
Bytes = List ℕ

-- `headTailBuf`; its ring `tail` has `tail_cap` places.
pub record HeadTailBuf : Type 0 where
  pub head : Bytes
  pub head_cap : ℕ
  pub tail : Bytes
  pub tail_cap : ℕ
  pub tail_start : ℕ
  pub tail_len : ℕ
  pub total : ℕ

pub new_head_tail_buf : ℕ → ℕ → HeadTailBuf
new_head_tail_buf head_cap tail_cap = record {
  head = [];
  head_cap = head_cap;
  tail = replicate tail_cap 0;
  tail_cap = tail_cap;
  tail_start = 0;
  tail_len = 0;
  total = 0;
}

-- The body of the loop of `Write`. A `set` out of range changes nothing; `IsRing` rules it out.
pub put_byte : HeadTailBuf → ℕ → HeadTailBuf
put_byte b c =
    if ltb b.tail_len b.tail_cap
    then record b {
      tail = set b.tail ((b.tail_start + b.tail_len) % b.tail_cap) c;
      tail_len = b.tail_len + 1;
    }
    else record b { tail = set b.tail b.tail_start c; tail_start = (b.tail_start + 1) % b.tail_cap }

pub put_bytes : HeadTailBuf → Bytes → HeadTailBuf
put_bytes b [] = b
put_bytes b (c ∷ p) = put_bytes (put_byte b c) p

-- `Write`, whose error is always nil.
pub write : HeadTailBuf → Bytes → ℕ × HeadTailBuf
write b p =
    let n = length p in
    let counted : HeadTailBuf = record b { total = b.total + n } in
    let need = b.head_cap - length b.head in
    if ltb (length b.head) b.head_cap
    then if leb (length p) need
      then (n, record counted { head = b.head ++ p })
      else (n, put_bytes (record counted { head = b.head ++ take need p }) (drop need p))
    else (n, put_bytes counted p)

-- The loop of `linearTail`, from index `i` on, with `n` rounds left.
pub linear_from : Bytes → ℕ → ℕ → ℕ → ℕ → Bytes
linear_from tail cap start i zero = []
linear_from tail cap start i (suc n) =
    get_or tail ((start + i) % cap) 0 ∷ linear_from tail cap start (i + 1) n

pub linear_tail : HeadTailBuf → Bytes
unfolding linear_from
linear_tail b = linear_from b.tail b.tail_cap b.tail_start 0 b.tail_len

-- bytes.IndexByte and bytes.LastIndexByte; `none` is -1.
pub index_byte : ℕ → Bytes → Option ℕ
index_byte c [] = none
index_byte c (d ∷ s) =
    let rest = index_byte c s in
    if d == c then some 0 else elim rest [ none ↦ none | some i ↦ some (suc i) ]

pub last_index_byte : ℕ → Bytes → Option ℕ
last_index_byte c [] = none
last_index_byte c (d ∷ s) =
    let rest = last_index_byte c s in
    elim rest [ none ↦ if d == c then some 0 else none | some i ↦ some (suc i) ]

-- The head cut back to its last newline, and the tail advanced past its first.
pub head_part : Bytes → Bytes
unfolding last_index_byte
head_part h = elim (last_index_byte 10 h) [ none ↦ h | some i ↦ take (i + 1) h ]

pub tail_part : Bytes → Bytes
unfolding index_byte
tail_part t = elim (index_byte 10 t) [ none ↦ t | some i ↦ drop (i + 1) t ]

-- `truncationMarkerFormat`
pub marker : ℕ → Bytes
marker n = codes "[... truncated " ++ itoa n ++ codes " bytes from middle ...]" ++ 10 ∷ []

-- `String`. Go's `bytesDropped` may be negative where ours is 0: the test treats both alike.
pub render : HeadTailBuf → Bytes
render b =
    let tail = linear_tail b in
    let dropped = b.total - length b.head - b.tail_len in
    let h = head_part b.head in
    let t = tail_part tail in
    if b.tail_len == 0
    then b.head
    else if not (length b.head == b.head_cap) || dropped == 0
    then b.head ++ tail
    else h ++ marker (dropped + (length b.head - length h) + (length tail - length t)) ++ t

-- The writes that a process makes to one stream, in order.
pub write_all : HeadTailBuf → List Bytes → HeadTailBuf
write_all b [] = b
write_all b (p ∷ ps) = write_all (write b p).1 ps
