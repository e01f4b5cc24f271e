-- ===== src/Command.antt =====
-- Slash commands: pkg/command. A command acts on the world `W`; the skills of the fallback are read
-- from the file system (pkg/skill).
mod Tests
pub mod Listing
use gonesis.Prelude.{
  ℕ, Text, codes, text_eq, Bool, true, false, Option, none, some, List, [], ◌∷◌, ◌++◌,
  if◌then◌else◌, ◌==◌, Result, ok, err,
}
use gonesis.Dict.{Dict, lookup, insert, has_key}
use gonesis.Search.Sort.{text_less, sort_stable}
use gonesis.Skill.{Skill, Yaml, Files, load, load_all}
use gonesis.Strconv.{itoa}
use gonesis.Todo.{TodoList, is_empty, render_markdown}

-- The interface Command: Name, Description and Execute
pub record Command (W : Type 0) : Type 0 where
  pub name : Text
  pub description : Text
  pub execute : Text → W → Result Text Text × W

pub record Entry : Type 0 where
  pub name : Text
  pub description : Text

pub record Registry (W : Type 0) : Type 0 where
  pub builtins : Dict (Command W)
  pub skills_dir : Text

-- A command that Resolve returns: a built-in one, or a skillCommand.
pub data Resolved (W : Type 0) : Type 0 where
  builtin : Command W → Resolved W
  skill_command : Skill → Resolved W

unfoldable pub name_of : {W : Type 0} → Resolved W → Text
name_of (builtin c) = c.name
name_of (skill_command s) = s.name

unfoldable pub description_of : {W : Type 0} → Resolved W → Text
description_of (builtin c) = c.description
description_of (skill_command s) = s.description

unfoldable pub run_command : {W : Type 0} → Resolved W → Text → W → Result Text Text × W
run_command (builtin c) args w = c.execute args w
run_command (skill_command s) args w = (ok (s.content), w)

unfoldable pub new_registry : {W : Type 0} → Text → Registry W
new_registry dir = record { builtins = []; skills_dir = dir }

unfoldable pub register : {W : Type 0} → Registry W → Command W → Registry W
unfolding insert
register r cmd = record { builtins = insert (cmd.name) cmd (r.builtins); skills_dir = r.skills_dir }

-- The first space of Parse's input divides it.
unfoldable pub split_at_space : Text → Text × Text
split_at_space [] = ([], [])
split_at_space (c ∷ s) =
    let (name, args) = split_at_space s in if c == 32 then ([], s) else (c ∷ name, args)

-- Parse
unfoldable pub parse : Text → Text × Text
unfolding split_at_space
parse [] = ([], [])
parse (c ∷ input) = if c == 47 then split_at_space input else ([], [])

-- The loop of List over the built-in commands
unfoldable pub builtin_entries : {W : Type 0} → Dict (Command W) → List Entry
builtin_entries [] = []
builtin_entries ((key, cmd) ∷ builtins) =
    record { name = cmd.name; description = cmd.description } ∷ builtin_entries builtins

unfoldable pub is_seen : {W : Type 0} → Text → Dict (Command W) → Bool
is_seen name [] = false
is_seen name ((key, cmd) ∷ builtins) =
    let rest = is_seen name builtins in if text_eq (cmd.name) name then true else rest

-- The loop of List over the skills
unfoldable pub skill_entries : {W : Type 0} → Dict (Command W) → List Skill → List Entry
unfolding is_seen
skill_entries builtins [] = []
skill_entries builtins (s ∷ skills) =
    let rest = skill_entries builtins skills in
    if is_seen (s.name) builtins
    then rest
    else record { name = s.name; description = s.description } ∷ rest

module _ {W : Type 0} (lib : Yaml) (files : Files W) where
  -- The fallback of Resolve to a skill
  unfoldable pub resolve_skill : Text → Text → W → Option (Resolved W)
  unfolding load
  resolve_skill dir name w =
      if text_eq dir []
      then none
      else elim (load lib files dir name w) [ err e ↦ none | ok s ↦ some (skill_command s) ]

  unfoldable pub resolve : Registry W → Text → W → Option (Resolved W)
  unfolding lookup resolve_skill
  resolve r name w = elim (lookup name (r.builtins)) [
    | some cmd ↦ some (builtin cmd)
    | none ↦ resolve_skill (r.skills_dir) name w
  ]

  unfoldable pub list_commands : Registry W → W → List Entry
  unfolding builtin_entries skill_entries load_all
  list_commands r w =
      if text_eq (r.skills_dir) []
      then builtin_entries (r.builtins)
      else builtin_entries (r.builtins)
        ++ skill_entries (r.builtins) ((load_all lib files (r.skills_dir) w).0)

  abbrev entry_less : Entry → Entry → Bool
  entry_less e f = text_less (e.name) (f.name)

  unfoldable pub help_lines : List Entry → Text
  help_lines [] = []
  help_lines (e ∷ entries) =
      codes "  /" ++ (e.name ++ (codes " — " ++ (e.description ++ (10 ∷ help_lines entries))))

  -- HelpCommand.Execute; sort.Slice of entries by their names
  unfoldable pub help : Registry W → W → Text
  unfolding list_commands sort_stable text_less help_lines
  help r w = elim (list_commands r w) [
    | [] ↦ codes "No commands available."
    | e ∷ entries ↦
        codes "Available commands:\n" ++ help_lines (sort_stable entry_less (e ∷ entries))
  ]

-- CleanCommand.Execute with its ResetFunc; the session's id comes from the context.
unfoldable pub clean :
    {W : Type 0} → (Text → W → Result Text Text × W) → Text → W → Result Text Text × W
clean reset [] w = (err (codes "no active session"), w)
clean reset (c ∷ id) w =
    let (r, w') = reset (c ∷ id) w in
    elim r [
      | err e ↦ (err (codes "reset session: " ++ e), w')
      | ok new_id ↦ (ok (codes "Session reset. New session: " ++ new_id), w')
    ]

-- TodosCommand.Execute; `none` in the lookup's result is a nil list.
unfoldable pub todos : (Text → Result Text (Option TodoList)) → Text → Result Text Text
todos find [] = err (codes "no active session")
todos find (c ∷ id) = elim (find (c ∷ id)) [
  | err e ↦ err e
  | ok none ↦ ok (codes "No active todos.")
  | ok (some l) ↦ ok (if is_empty l then codes "No active todos." else render_markdown l)
]

pub record StatusInfo : Type 0 where
  pub session_id : Text
  pub message_count : ℕ
  pub tool_calls : ℕ
  pub skills_loaded : ℕ
  pub provider : Text
  pub model : Text
  pub uptime : Text

unfoldable pub status_text : StatusInfo → Text
unfolding itoa
status_text info =
    codes "Session:  "
    ++ (info.session_id
        ++ (codes "\nMessages: "
            ++ (itoa (info.message_count)
                ++ (codes "\nTools:    "
                    ++ (itoa (info.tool_calls)
                        ++ (codes "\nSkills:   "
                            ++ (itoa (info.skills_loaded)
                                ++ (codes "\nProvider: "
                                    ++ (info.provider
                                        ++ (codes "\nModel:    "
                                            ++ (info.model
                                                ++ (codes "\nUptime:   " ++ info.uptime))))))))))))

-- StatusCommand.Execute with its StatusFunc; the uptime is formatted.
unfoldable pub status : (Text → Result Text StatusInfo) → Text → Result Text Text
unfolding status_text
status find [] = err (codes "no active session")
status find (c ∷ id) = elim (find (c ∷ id)) [
  | err e ↦ err (codes "get session status: " ++ e)
  | ok info ↦ ok (status_text info)
]
