-- ===== src/Lib.antt =====
-- A model of the core of wildgecu, an AI agent that runs as a daemon, and the theorems about it.
--
-- The parts and how they interact. The daemon (pkg/daemon) owns chat sessions. A message of a user
-- becomes a turn of its session (pkg/session): the input is appended to the log, a reminder made of
-- the session's todo list (pkg/todo) is put behind it for the model alone, and the agent loop
-- (pkg/provider) calls the model and the tools until the model answers, a tool is done, or the
-- provider fails. Tools of one reply run in parallel; the bash tool and others run commands whose
-- output goes through bounded buffers (pkg/exec/bounded). The providers behind the sessions come
-- from a container (x/container) that the configuration (x/config) feeds. A user of the Telegram
-- bot is let in with a one-time password (pkg/telegram/auth). The agent's tools (pkg/agent/tools)
-- read, edit and search the files of a workspace, the search within its root (pkg/search), and keep
-- the todo list. Cron jobs (pkg/cron) and skills (pkg/skill) are markdown files with a frontmatter;
-- the scheduler registers the jobs, and a run of one asks the model and writes a result file.
--
-- Which file models what. Each file names the code it is about; a definition carries the name of the
-- function or type it translates, in lower case with underscores for the functions.
--   Todo: pkg/todo/todo.go. `List` is `TodoList`, and `Create` and `Update` are `create` and
--     `update`, from the list to the result and the new list.
--   Bounded: pkg/exec/bounded/bounded.go. `headTailBuf` is `HeadTailBuf` with `write` and `render`
--     (`String`), and `Run` is `run`; the process is a function from the command to what it wrote.
--   Provider: pkg/provider/provider.go and pkg/provider/agent.go. The messages; one tool call and one
--     batch (Provider), `RunAgentLoop` (Provider.Loop) and `RunAgentLoopStream` (Provider.Stream).
--   Registry: pkg/provider/tool/registry.go. `Add`, `Tools`, `Subset` and `Executor`.
--   Session: pkg/session/session.go. `RunTurn` and `RunTurnStream` with their reminder.
--   Daemon.Sessions: pkg/daemon/sessions.go. `SessionManager`, its turns (`runTurnInternal`) and, in
--     Daemon.Sessions.Lifecycle, how sessions are created, closed and reset.
--   Daemon.Watchdog: pkg/daemon/watchdog.go. `runChecks` is `run_checks`, and `run_rounds` the ticks
--     of `Run`.
--   Config, Container: x/config/load.go and x/container/container.go. `Load`, `validate`, `Get`.
--   Auth: pkg/telegram/auth/store.go. `IsAllowed`, `GetOrCreateOTP`, `ApproveByOTP`, and `persist`
--     (Auth.Persist) over the file system's operations.
--   Autocomplete: pkg/chat/tui/autocomplete.go. `Update`, `MoveUp`, `MoveDown` and `Complete`.
--   Search: pkg/search/search.go. `Content` and `Paths` are Search.Content and Search.Paths over
--     `WalkDir` (Search.Walk); `resolveUnderRoot` and `scanFile` stand in Search itself.
--   Tools: pkg/agent/tools. Tools.Files is files.go, one function for each tool, Tools.Grep is
--     search.go (`grep`, `glob` and the output modes), Tools.Todo is todo.go,
--     Tools.Exec is exec.go, and of subagent.go Tools.Subagent is what a subagent is given and
--     Tools.Spawn is spawn_agent itself. Tools.General has the tools of skill.go, inform.go, general.go
--     and telegram.go.
--   Memory: pkg/agent/memory.go. `formatTranscript` is `format_transcript`, `safeTruncate` is
--     `safe_truncate`, and `RunMemoryAgent` is `run_memory_agent`.
--   Prompt: pkg/agent/soul.go. `BuildSystemPrompt` is `build_system_prompt`.
--   Command: pkg/command. `Parse`, the registry with `Resolve` and `List` (`list_commands`), and
--     the commands, each the function that is its `Execute`.
--   Frontmatter, Cron, Skill: what pkg/cron and pkg/skill share of their files, and the packages.
--     `Parse` and `Serialize` are `parse` and `serialize`; Cron.Field is cron/frontmatter.go,
--     Cron.Executor is cron/executor.go and Cron.Scheduler is cron/scheduler.go.
--   Filepath: what these use of Go's path/filepath.
--   Strings, Strconv, Dict: what these use of Go's strings, strconv and maps, with their laws.
--   Prelude: what all share.
--
-- How the state is modelled. A string is the list of its code points; output and formatted
-- arguments, which are cut at a byte, and the texts of searches and of the memory's
-- transcript, are lists of bytes. In a list of code points, a byte that belongs to no encoded code
-- point is a number of its own behind the last code point. A cleaned path is a list of elements, and the tree that a search walks is a mutual data
-- type of nodes and their lists. A Go map is an association list, whose
-- order is the order in which one `range` visits it, so a theorem about all lists is about all
-- orders. A method that holds a mutex from its start to its end is one step. What is outside, the
-- process, the model, the tools, the environment and the clock, is a parameter and acts on a world
-- `W` that the operations pass along. The goroutines of a batch of tool calls complete in the order
-- that a schedule gives; each runs as one step, and a schedule is fair if it completes every
-- goroutine, as the wait group demands.
--
-- Fuel and bounds. The agent loop has no bound in Go, so it takes fuel, one unit a round, and returns
-- `none` if that runs out; how much is enough depends on the model and the tools, and turns pass
-- their fuel on to it. `digits` of Strconv takes one unit a digit, and a number has no more digits
-- than its value and one. Counters of items and bytes are natural numbers: they count what is in
-- memory, so they stay below the bound of Go's int. Signed settings are integers, and a user id is
-- an integer that a hypothesis keeps within 64 bits where it is parsed.
--
-- What is not modelled: logging, the rest of the terminal front end, the Telegram front end, the
-- sockets of the daemon, cancellation, the HTTP of the providers, the tools
-- get_current_time and list_models, the embedded prompts, symbolic links,
-- regular expressions, glob patterns, YAML and the clock, which are parameters, the reading of the
-- store of Telegram users from its file, and `RunAgentLoopStream` over a provider that cannot
-- stream, which is `RunAgentLoop`.
pub mod Prelude
pub mod Dict
pub mod Strings
pub mod Filepath
pub mod Strconv
pub mod Todo
pub mod Bounded
pub mod Provider
pub mod Registry
pub mod Session
pub mod Config
pub mod Container
pub mod Auth
pub mod Daemon
pub mod Autocomplete
pub mod Search
pub mod Tools
pub mod Frontmatter
pub mod Cron
pub mod Skill
pub mod Command
pub mod Memory
pub mod Prompt
