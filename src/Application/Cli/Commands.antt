-- ===== src/Application/Cli/Commands.antt =====
-- packages/tui/src/application/cli.ts: the parsers of the commands other than the interactive one.
use deepseek_harness_communi.Prelude.{
  ℕ, zero, suc, Bool, true, false, not, ◌&&◌, Option, none, some, List, [], ◌∷◌, ◌++◌, String,
  if◌then◌else◌, is_empty, nat_beq, ◌==◌, string_eq,
}
use deepseek_harness_communi.Prelude.Result.{Result, ok, err, ◌>>=◌}
use deepseek_harness_communi.Prelude.Text.{starts_with, join_texts}
use deepseek_harness_communi.Application.Cli.Command.{
  help, CliInvocation, list_sessions, show_help, show_version, run_doctor, print_completion,
  print_config, run_plugin, run_exec, CliUsageError, help_takes_one, version_alone, doctor_argument,
  completion_needs_shell, completion_takes_one, unsupported_shell, config_one_mode,
  unknown_config_action, config_default_with_patch, plugin_first, plugin_needs_arguments,
  sessions_action, completion_shells, version_flags, shell_of,
}
use deepseek_harness_communi.Application.Cli.Distance.{closest}
use deepseek_harness_communi.Application.Cli.Options.{
  unknown_option_error, help_topic, value_option, flag_before_end, help_flag_present,
  leading_command, for_args,
}

-- `args.slice(index + 1)`
abbrev after_index : ℕ → List String → List String
after_index index [] = []
after_index zero (a ∷ args) = args
after_index (suc index) (a ∷ args) = after_index index args

-- The arguments but the one at `index` and those equal to `--`.
unfoldable pub other_values : ℕ → ℕ → List String → List String
other_values command_index index [] = []
other_values command_index index (argument ∷ rest) =
    let more = other_values command_index (suc index) rest in
    if not (nat_beq index command_index) && not (argument == "--") then argument ∷ more else more

unfoldable pub parse_version : List String → Result CliUsageError (Option CliInvocation)
parse_version args = elim (flag_before_end version_flags args) [
  | none ↦ ok none
  | some flag ↦ elim args [
    | [] ↦ err (version_alone flag)
    | argument ∷ rest ↦ if is_empty rest then ok (some show_version) else err (version_alone flag)
  ]
]

unfoldable pub parse_plugin : List String → ℕ → Result CliUsageError CliInvocation
parse_plugin args command_index =
    if not (nat_beq command_index 0)
    then err plugin_first
    else let forwarded = after_index 0 args in
      let plugin_args = without_mark forwarded in
      if is_empty plugin_args then err plugin_needs_arguments else ok (run_plugin plugin_args)
  where
    without_mark : List String → List String
    without_mark [] = []
    without_mark (argument ∷ rest) = if argument == "--" then rest else argument ∷ rest

-- The local variables of `parseConfig`.
pub record ConfigLocals : Type 0 where
  pub patches : List String
  pub defaults : Bool
  pub mode_seen : Bool

-- The local variables of `parseExec`.
pub record ExecLocals : Type 0 where
  pub patches : List String
  pub prompt : List String
  pub cwd : Option String
  pub options : Bool

-- The local variables of `parseSessions`.
pub record SessionsLocals : Type 0 where
  pub patches : List String
  pub json : Bool
  pub list_seen : Bool

-- The prompt of the positional arguments.
abbrev pub joined : List String → Option String
joined [] = none
joined (word ∷ words) = some (join_texts " " (word ∷ words))

module _ (before : String → String → Bool) where
  unfoldable pub parse_explicit_help : List String → Result CliUsageError (Option CliInvocation)
  parse_explicit_help args = leading_command args >>= λ command. elim command [
    | none ↦ ok (if help_flag_present args then some (show_help none) else none)
    | some (name, index) ↦ elim name [
      | help ↦ topic_of (after_index index args)
      | topic ↦ ok (if help_flag_present args then some (show_help (some topic)) else none)
    ]
  ]
    where
      topic_of : List String → Result CliUsageError (Option CliInvocation)
      topic_of [] = ok (some (show_help none))
      topic_of (value ∷ []) =
          help_topic before value >>= λ topic. ok (some (show_help (some topic)))
      topic_of (value ∷ more ∷ rest) = err help_takes_one

  doctor_argument_at : String → List String → Bool → Result CliUsageError (Bool × Bool)
  doctor_argument_at argument rest json =
      if argument == "--json"
      then ok (true, false)
      else if starts_with argument "-"
      then err (unknown_option_error before argument)
      else err (doctor_argument argument)

  unfoldable pub parse_doctor : List String → ℕ → Result CliUsageError CliInvocation
  unfolding doctor_argument_at
  parse_doctor args command_index =
      for_args doctor_argument_at (some command_index) 0 false args false >>= λ json.
      ok (run_doctor json)

  unfoldable pub parse_completion : List String → ℕ → Result CliUsageError CliInvocation
  parse_completion args command_index = elim (other_values command_index 0 args) [
    | [] ↦ err completion_needs_shell
    | shell ∷ more ↦
        if not (is_empty more) then err completion_takes_one else elim (shell_of shell) [
          | none ↦ err (unsupported_shell shell (closest before shell completion_shells))
          | some known ↦ ok (print_completion known)
        ]
  ]

  config_argument : String → List String → ConfigLocals → Result CliUsageError (ConfigLocals × Bool)
  config_argument argument rest s = value_option argument rest ("--patch" ∷ []) >>= λ patch.
      elim patch [
        | some p ↦ ok (record s { patches = s.patches ++ (p.value ∷ []) }, p.takes_next)
        | none ↦
            if argument == "show"
            then (if s.mode_seen
                then err config_one_mode
                else ok (record s { mode_seen = true }, false))
            else if argument == "default"
            then (if s.mode_seen
                then err config_one_mode
                else ok (record s { defaults = true; mode_seen = true }, false))
            else if starts_with argument "-"
            then err (unknown_option_error before argument)
            else err (unknown_config_action argument)
      ]

  unfoldable pub parse_config : List String → ℕ → Result CliUsageError CliInvocation
  unfolding config_argument
  parse_config args command_index =
      for_args config_argument (some command_index) 0 false args
        (record { patches = []; defaults = false; mode_seen = false })
      >>= λ s.
          if s.defaults && not (is_empty s.patches)
          then err config_default_with_patch
          else ok (print_config s.defaults s.patches)

  exec_argument : String → List String → ExecLocals → Result CliUsageError (ExecLocals × Bool)
  exec_argument argument rest s =
      if not s.options
      then ok (record s { prompt = s.prompt ++ (argument ∷ []) }, false)
      else if argument == "--"
      then ok (record s { options = false }, false)
      else value_option argument rest ("--patch" ∷ []) >>= λ patch. elim patch [
        | some p ↦ ok (record s { patches = s.patches ++ (p.value ∷ []) }, p.takes_next)
        | none ↦ value_option argument rest ("-C" ∷ "--cwd" ∷ []) >>= λ directory. elim directory [
          | some d ↦ ok (record s { cwd = some d.value }, d.takes_next)
          | none ↦
              if starts_with argument "-"
              then err (unknown_option_error before argument)
              else ok (record s { prompt = s.prompt ++ (argument ∷ []) }, false)
        ]
      ]

  unfoldable pub parse_exec : List String → ℕ → Result CliUsageError CliInvocation
  unfolding exec_argument
  parse_exec args command_index =
      for_args exec_argument (some command_index) 0 false args
        (record { patches = []; prompt = []; cwd = none; options = true })
      >>= λ s. ok (run_exec s.cwd (joined s.prompt) s.patches)

  sessions_argument :
      String → List String → SessionsLocals → Result CliUsageError (SessionsLocals × Bool)
  sessions_argument argument rest s = value_option argument rest ("--patch" ∷ []) >>= λ patch.
      elim patch [
        | some p ↦ ok (record s { patches = s.patches ++ (p.value ∷ []) }, p.takes_next)
        | none ↦
            if argument == "list" && not s.list_seen
            then ok (record s { list_seen = true }, false)
            else if argument == "--json"
            then ok (record s { json = true }, false)
            else if starts_with argument "-"
            then err (unknown_option_error before argument)
            else err (sessions_action argument)
      ]

  unfoldable pub parse_sessions : List String → ℕ → Result CliUsageError CliInvocation
  unfolding sessions_argument
  parse_sessions args command_index =
      for_args sessions_argument (some command_index) 0 false args
        (record { patches = []; json = false; list_seen = false })
      >>= λ s. ok (list_sessions s.json s.patches)
