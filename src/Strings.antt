-- ===== src/Strings.antt =====
-- The functions of Go's `strings` package that the program calls, on code points.
pub mod Trim
pub mod Lines
pub mod Replace
use gonesis.Prelude.{
  ℕ, zero, suc, ◌+◌, Text, text_eq, Bool, true, false, ◌&&◌, ◌||◌, Option, none, some, List, [],
  ◌∷◌, ◌++◌, if◌then◌else◌, ◌==◌, leb,
}

-- unicode.IsSpace
unfoldable pub is_space : ℕ → Bool
is_space c =
    (leb 9 c && leb c 13)
    || c == 32
    || c == 0x85
    || c == 0xA0
    || c == 0x1680
    || (leb 0x2000 c && leb c 0x200a)
    || c == 0x2028
    || c == 0x2029
    || c == 0x202f
    || c == 0x205f
    || c == 0x3000

-- strings.TrimLeftFunc and strings.TrimRightFunc
unfoldable pub trim_left : (ℕ → Bool) → Text → Text
trim_left p [] = []
trim_left p (c ∷ s) = if p c then trim_left p s else c ∷ s

unfoldable pub keep_unless_blank : (ℕ → Bool) → ℕ → Text → Text
keep_unless_blank p c [] = if p c then [] else c ∷ []
keep_unless_blank p c (d ∷ s) = c ∷ d ∷ s

unfoldable pub trim_right : (ℕ → Bool) → Text → Text
unfolding keep_unless_blank
trim_right p [] = []
trim_right p (c ∷ s) = keep_unless_blank p c (trim_right p s)

-- strings.TrimSpace
unfoldable pub trim_space : Text → Text
unfolding is_space trim_left trim_right
trim_space s = trim_right is_space (trim_left is_space s)

-- strings.HasPrefix(s, p), with the prefix first
unfoldable pub has_prefix : Text → Text → Bool
has_prefix [] s = true
has_prefix (d ∷ p) [] = false
has_prefix (d ∷ p) (c ∷ s) = (c == d) && has_prefix p s

-- strings.Contains(s, string(c))
unfoldable pub contains : ℕ → Text → Bool
contains c [] = false
contains c (d ∷ s) = (d == c) || contains c s

-- strings.Index(s, p)
unfoldable pub index : Text → Text → Option ℕ
unfolding has_prefix
index p [] = if has_prefix p [] then some 0 else none
index p (c ∷ s) =
    let rest = index p s in
    if has_prefix p (c ∷ s) then some 0 else elim rest [ none ↦ none | some i ↦ some (suc i) ]

unfoldable pub cons_first : ℕ → List Text → List Text
cons_first c [] = (c ∷ []) ∷ []
cons_first c (l ∷ ls) = (c ∷ l) ∷ ls

-- strings.Split(s, string(sep))
unfoldable pub split : ℕ → Text → List Text
unfolding cons_first
split sep [] = [] ∷ []
split sep (c ∷ s) = let rest = split sep s in if c == sep then [] ∷ rest else cons_first c rest

-- strings.SplitN(s, string(sep), 2)
unfoldable pub split_n2 : ℕ → Text → List Text
unfolding cons_first
split_n2 sep [] = [] ∷ []
split_n2 sep (c ∷ s) =
    let rest = split_n2 sep s in if c == sep then [] ∷ s ∷ [] else cons_first c rest

-- strings.Join(ls, string(sep))
unfoldable pub join : ℕ → List Text → Text
join sep [] = []
join sep (l ∷ []) = l
join sep (l ∷ m ∷ ls) = l ++ sep ∷ join sep (m ∷ ls)
