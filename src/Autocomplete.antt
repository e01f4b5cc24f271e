-- ===== src/Autocomplete.antt =====
-- pkg/chat/tui/autocomplete.go: the list of slash commands that fit what the user has typed. The lower
-- case of a text, strings.ToLower, is a parameter, since nothing here depends on it.
pub mod Valid
mod Tests
use gonesis.Prelude.{
  ℕ, zero, suc, ◌+◌, ◌-◌, ◌%◌, Text, codes, text_eq, Bool, true, false, not, ◌||◌, Option, none,
  some, List, [], ◌∷◌, ◌++◌, if◌then◌else◌, leb, ltb, length, get_elem?, drop,
}
use gonesis.Strings.{has_prefix, contains}

pub record CommandInfo : Type 0 where
  pub name : Text
  pub description : Text

pub record Autocomplete : Type 0 where
  pub commands : List CommandInfo
  pub matches : List CommandInfo
  pub selected : ℕ
  pub visible : Bool
  pub last_pfx : Text

-- `NewAutocomplete`
abbrev pub new_autocomplete : List CommandInfo → Autocomplete
new_autocomplete commands = record {
  commands = commands;
  matches = [];
  selected = 0;
  visible = false;
  last_pfx = [];
}

pub is_some : List CommandInfo → Bool
is_some [] = false
is_some (c ∷ cs) = true

module _ (to_lower : Text → Text) where
  pub matching : Text → List CommandInfo → List CommandInfo
  matching prefix [] = []
  matching prefix (c ∷ cs) =
      let rest = matching prefix cs in
      if has_prefix prefix (to_lower c.name) then c ∷ rest else rest

  -- What `Update` does with a text that starts with a slash and has no space.
  pub select : Text → Autocomplete → Autocomplete
  unfolding is_some
  select prefix a =
      let kept = if text_eq prefix a.last_pfx then a.selected else 0 in
      let found = matching prefix a.commands in
      record {
        commands = a.commands;
        matches = found;
        selected = if leb (length found) kept then 0 else kept;
        visible = is_some found;
        last_pfx = prefix;
      }

  -- `Update`
  pub update : Text → Autocomplete → Autocomplete
  update input a =
      if not (has_prefix (codes "/") input) || contains 32 input
      then new_autocomplete a.commands
      else select (to_lower (drop 1 input)) a

-- `MoveDown`
pub move_down : Autocomplete → Autocomplete
unfolding is_some
move_down a =
    if is_some a.matches then record a { selected = (a.selected + 1) % length a.matches } else a

-- `MoveUp`; the length is added before one is taken, since the sum in Go is the same.
pub move_up : Autocomplete → Autocomplete
unfolding is_some
move_up a =
    if is_some a.matches
    then record a { selected = (a.selected + length a.matches - 1) % length a.matches }
    else a

-- The text of an entry, or the panic on an index out of range as `none`.
pub completion : Option CommandInfo → Option Text
completion none = none
completion (some c) = some (47 ∷ c.name ++ 32 ∷ [])

-- `Complete`
pub complete : Autocomplete → Option Text
unfolding is_some completion
complete a =
    if not a.visible || not (is_some a.matches)
    then some []
    else completion (get_elem? a.matches a.selected)
