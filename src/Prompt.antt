-- ===== src/Prompt.antt =====
-- The system prompts: pkg/agent/soul.go. The embedded prompts, which are assets, are arguments.
use gonesis.Prelude.{Text, codes, Option, none, some, List, [], ◌∷◌, ◌++◌, Result, ok, err}
use gonesis.Strings.{trim_space}
use gonesis.Strings.Replace.{replace_all}

-- LoadSoul and LoadMemory, from what the home's Get returns
unfoldable pub load_home_file : Text → Result Text Text → Result Text Text
load_home_file name (err e) = err (codes "reading " ++ (name ++ (codes ": " ++ e)))
load_home_file name (ok content) = ok content

-- loadWorkspaceFile; a workspace is what its Get of USER.md returns.
unfoldable pub load_workspace_file : Option (Result Text Text) → Result Text Text
unfolding load_home_file
load_workspace_file none = ok []
load_workspace_file (some got) = load_home_file (codes "USER.md") got

unfoldable pub section : Text → Text → Text
section title text = codes "# " ++ (title ++ (codes "\n\n" ++ text))

-- A section of a text that is trimmed, in front of the others, unless the text is empty
unfoldable pub add_section : Text → Text → List Text → List Text
unfolding section
add_section title [] sections = sections
add_section title (c ∷ s) sections = section title (c ∷ s) ∷ sections

unfoldable pub user_section : Result Text Text → List Text
unfolding add_section trim_space
user_section (err e) = []
user_section (ok prefs) = add_section (codes "User Preferences") (trim_space prefs) []

-- strings.Join with a blank line
unfoldable pub join_sections : List Text → Text
join_sections [] = []
join_sections (s ∷ []) = s
join_sections (s ∷ t ∷ sections) = s ++ (codes "\n\n" ++ join_sections (t ∷ sections))

-- BuildSystemPrompt
unfoldable pub build_system_prompt : Text → Option (Result Text Text) → Text → Text → Text
unfolding section add_section user_section join_sections load_workspace_file trim_space
build_system_prompt agent_prompt workspace soul memory = join_sections (
    section (codes "Agent") (trim_space agent_prompt)
    ∷ add_section (codes "Agent Soul") (trim_space soul) (
        add_section (codes "Memory") (trim_space memory)
          (user_section (load_workspace_file workspace))))

-- BuildCodeSystemPrompt
unfoldable pub build_code_system_prompt :
    Text → Option (Result Text Text) → Text → Text → Text → Text
unfolding build_system_prompt replace_all
build_code_system_prompt code_agent_prompt workspace soul memory work_dir =
    build_system_prompt (replace_all (codes "{CWD}") work_dir code_agent_prompt) workspace soul
      memory
