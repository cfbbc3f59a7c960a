-- ===== src/Application/Cli/Command.antt =====
-- packages/tui/src/application/cli.ts: invocations, start-up options and usage errors. The message
-- of an error is a data value, with the words that its text quotes.
use deepseek_harness_communi.Prelude.{
  ℕ, Bool, Option, none, some, List, [], ◌∷◌, String, ◌==◌, string_eq, if◌then◌else◌,
}

pub data CompletionShell : Type 0 where
  bash : CompletionShell
  fish : CompletionShell
  powershell : CompletionShell
  zsh : CompletionShell

-- A help topic is a command other than `help`.
pub data Command : Type 0 where
  resume : Command
  sessions : Command
  exec : Command
  doctor : Command
  browser : Command
  completion : Command
  config : Command
  plugin : Command
  help : Command

pub data ResumeTarget : Type 0 where
  last : ResumeTarget
  session : String → ResumeTarget

pub record TuiStartupOptions : Type 0 where
  pub resume_target : Option ResumeTarget
  pub prompt : Option String
  pub image_paths : List String
  pub model : Option String
  pub reasoning_effort : Option String
  pub permission_mode : Option String
  pub plan : Bool

-- packages/tui/src/application/config.ts
pub record Config : Type 0 where
  pub history_messages : Option ℕ
  pub rewind_history : Option ℕ
  pub max_tool_output_lines : Option ℕ
  pub thinking_max_lines : Option ℕ
  pub show_reasoning : Option Bool
  pub show_hardware_cursor : Option Bool
  pub color : Option Bool
  pub title : Option String
  pub cwd : Option String
  pub session_id : Option String

abbrev pub no_config : Config
no_config = record {
  history_messages = none;
  rewind_history = none;
  max_tool_output_lines = none;
  thinking_max_lines = none;
  show_reasoning = none;
  show_hardware_cursor = none;
  color = none;
  title = none;
  cwd = none;
  session_id = none;
}

pub data CliInvocation : Type 0 where
  -- configuration, start-up options, patches
  interactive : Config → TuiStartupOptions → List String → CliInvocation
  -- `--json`, patches
  list_sessions : Bool → List String → CliInvocation
  show_help : Option Command → CliInvocation
  show_version : CliInvocation
  run_doctor : Bool → CliInvocation
  install_browser : CliInvocation
  print_completion : CompletionShell → CliInvocation
  -- `default`, patches
  print_config : Bool → List String → CliInvocation
  run_plugin : List String → CliInvocation
  -- working directory, prompt, patches
  run_exec : Option String → Option String → List String → CliInvocation

-- `CliUsageError`; a second text is the suggested word.
pub data CliUsageError : Type 0 where
  unknown_option : String → Option String → CliUsageError
  requires_value : String → CliUsageError
  unknown_topic : String → Option String → CliUsageError
  help_takes_one : CliUsageError
  version_alone : String → CliUsageError
  doctor_argument : String → CliUsageError
  completion_needs_shell : CliUsageError
  completion_takes_one : CliUsageError
  unsupported_shell : String → Option String → CliUsageError
  config_one_mode : CliUsageError
  unknown_config_action : String → CliUsageError
  config_default_with_patch : CliUsageError
  plugin_first : CliUsageError
  plugin_needs_arguments : CliUsageError
  sessions_action : String → CliUsageError
  last_without_resume : CliUsageError
  resume_needs_target : CliUsageError
  cwd_with_resume : CliUsageError
  browser_usage : CliUsageError
  help_unresolved : CliUsageError

abbrev pub command_names : List String
command_names =
    "resume" ∷ "sessions" ∷ "exec" ∷ "doctor" ∷ "browser" ∷ "completion" ∷ "config" ∷ "plugin"
    ∷ "help" ∷ []

abbrev pub help_topics : List String
help_topics =
    "resume" ∷ "sessions" ∷ "exec" ∷ "doctor" ∷ "browser" ∷ "completion" ∷ "config" ∷ "plugin" ∷ []

abbrev pub completion_shells : List String
completion_shells = "bash" ∷ "zsh" ∷ "fish" ∷ "powershell" ∷ []

abbrev pub version_flags : List String
version_flags = "-v" ∷ "-V" ∷ "--version" ∷ []

abbrev pub options : List String
options =
    "-v" ∷ "-V" ∷ "--version" ∷ "--help" ∷ "--patch" ∷ "--last" ∷ "--cwd" ∷ "--image" ∷ "--model"
    ∷ "--effort" ∷ "--permission-mode" ∷ "--plan" ∷ "--no-color" ∷ "--json" ∷ []

-- `COMMANDS.includes(argument)`, with the command of that name.
unfoldable pub command_of : String → Option Command
command_of argument =
    if argument == "resume"
    then some resume
    else if argument == "sessions"
    then some sessions
    else if argument == "exec"
    then some exec
    else if argument == "doctor"
    then some doctor
    else if argument == "browser"
    then some browser
    else if argument == "completion"
    then some completion
    else if argument == "config"
    then some config
    else if argument == "plugin"
    then some plugin
    else if argument == "help"
    then some help
    else none

unfoldable pub shell_of : String → Option CompletionShell
shell_of argument =
    if argument == "bash"
    then some bash
    else if argument == "zsh"
    then some zsh
    else if argument == "fish"
    then some fish
    else if argument == "powershell"
    then some powershell
    else none
