-- ===== src/Filepath.antt =====
-- The functions of Go's `path/filepath` that the program calls, on a Unix system.
pub mod Clean
pub mod Under
use gonesis.Prelude.{
  Text, codes, text_eq, Bool, true, false, ◌||◌, Option, none, some, List, [], ◌∷◌, ◌++◌,
  if◌then◌else◌, ◌==◌, map, Result, ok, err,
}
use mathlib.Core.List.{reverse}
use gonesis.Strings.{split, join}

-- A path that is cleaned: whether it starts at the root, and its elements.
pub record CleanPath : Type 0 where
  pub rooted : Bool
  pub parts : List Text

abbrev pub dot : Text
dot = codes "."

abbrev pub dot_dot : Text
dot_dot = codes ".."

-- filepath.IsAbs
abbrev pub is_abs : Text → Bool
is_abs [] = false
is_abs (c ∷ s) = c == 47

-- What `..` does to the elements before it, the last one first.
unfoldable pub go_up : Bool → List Text → List Text
go_up true [] = []
go_up false [] = dot_dot ∷ []
go_up rooted (top ∷ below) = if text_eq top dot_dot then dot_dot ∷ top ∷ below else below

unfoldable pub push_part : Bool → List Text → Text → List Text
unfolding go_up
push_part rooted stack part =
    if text_eq part [] || text_eq part dot
    then stack
    else if text_eq part dot_dot
    then go_up rooted stack
    else part ∷ stack

unfoldable pub push_parts : Bool → List Text → List Text → List Text
unfolding push_part
push_parts rooted stack [] = stack
push_parts rooted stack (part ∷ parts) = push_parts rooted (push_part rooted stack part) parts

-- The elements of filepath.Clean
unfoldable pub parse : Text → CleanPath
unfolding push_parts
parse s = record { rooted = is_abs s; parts = reverse (push_parts (is_abs s) [] (split 47 s)) }

unfoldable pub or_dot : Text → Text
or_dot [] = dot
or_dot (c ∷ s) = c ∷ s

unfoldable pub render : CleanPath → Text
unfolding or_dot
render p = if p.rooted then 47 ∷ join 47 p.parts else or_dot (join 47 p.parts)

-- filepath.Clean
unfoldable pub clean : Text → Text
unfolding parse render
clean s = render (parse s)

-- filepath.Join of two elements; empty ones are left out.
unfoldable pub join_path : Text → Text → Text
unfolding clean
join_path [] [] = []
join_path [] (c ∷ s) = clean (c ∷ s)
join_path (c ∷ s) t = clean (c ∷ s ++ 47 ∷ t)

-- What is left of two lists behind their common elements.
unfoldable pub strip_common : List Text → List Text → List Text × List Text
strip_common [] ts = ([], ts)
strip_common (b ∷ bs) [] = (b ∷ bs, [])
strip_common (b ∷ bs) (t ∷ ts) =
    let rest = strip_common bs ts in if text_eq b t then rest else (b ∷ bs, t ∷ ts)

-- The way from what is left of the base to what is left of the target; `none` is an error.
unfoldable pub way : List Text × List Text → Option Text
way ([], []) = some dot
way ([], t ∷ ts) = some (join 47 (t ∷ ts))
way (b ∷ bs, ts) =
    if text_eq b dot_dot then none else some (join 47 (map (λ x. dot_dot) (b ∷ bs) ++ ts))

unfoldable pub same_root : Bool → Bool → Bool
same_root true true = true
same_root false false = true
same_root true false = false
same_root false true = false

-- filepath.Rel; an error is `none`.
unfoldable pub rel : Text → Text → Option Text
unfolding parse strip_common way same_root
rel base targ =
    let b = parse base in
    let t = parse targ in
    if same_root b.rooted t.rooted then way (strip_common b.parts t.parts) else none
