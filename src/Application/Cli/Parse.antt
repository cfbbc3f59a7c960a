-- ===== src/Application/Cli/Parse.antt =====
-- packages/tui/src/application/cli.ts: `parseCliArgs`.
use deepseek_harness_communi.Prelude.{
  ℕ, Bool, Option, none, some, List, [], ◌∷◌, String, ◌==◌, string_eq, if◌then◌else◌,
}
use deepseek_harness_communi.Prelude.Result.{Result, ok, err, ◌>>=◌}
use deepseek_harness_communi.Application.Cli.Command.{
  Command, resume, sessions, exec, doctor, browser, completion, config, plugin, help, Config,
  CliInvocation, install_browser, CliUsageError, browser_usage, help_unresolved,
}
use deepseek_harness_communi.Application.Cli.Options.{leading_command}
use deepseek_harness_communi.Application.Cli.Commands.{
  parse_explicit_help, parse_version, parse_doctor, parse_completion, parse_config, parse_plugin,
  parse_exec, parse_sessions,
}
use deepseek_harness_communi.Application.Cli.Interactive.{parse_interactive}

unfoldable pub parse_browser : List String → Result CliUsageError CliInvocation
parse_browser (first ∷ second ∷ []) =
    if first == "browser"
    then if second == "install" then ok install_browser else err browser_usage
    else err browser_usage
parse_browser args = err browser_usage

module _ (before : String → String → Bool) where
  unfoldable pub parse_command :
      List String → Config → Option (Command × ℕ) → Result CliUsageError CliInvocation
  parse_command args base (some (browser, index)) = parse_browser args
  parse_command args base (some (doctor, index)) = parse_doctor before args index
  parse_command args base (some (completion, index)) = parse_completion before args index
  parse_command args base (some (config, index)) = parse_config before args index
  parse_command args base (some (plugin, index)) = parse_plugin args index
  parse_command args base (some (exec, index)) = parse_exec before args index
  parse_command args base (some (sessions, index)) = parse_sessions before args index
  parse_command args base (some (help, index)) = err help_unresolved
  parse_command args base (some (resume, index)) =
      parse_interactive before args base (some (resume, index))
  parse_command args base none = parse_interactive before args base none

  unfoldable pub parse_cli_args : List String → Config → Result CliUsageError CliInvocation
  parse_cli_args args base = parse_explicit_help before args >>= λ asked. elim asked [
    | some invocation ↦ ok invocation
    | none ↦ parse_version args >>= λ version. elim version [
      | some invocation ↦ ok invocation
      | none ↦ leading_command args >>= λ command. parse_command args base command
    ]
  ]
