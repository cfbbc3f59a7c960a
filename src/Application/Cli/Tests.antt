-- ===== src/Application/Cli/Tests.antt =====
-- Command lines of the source's own tests, and an invocation that the launcher forwards.
use deepseek_harness_communi.Prelude.{
  ◌≡◌, refl, Bool, true, false, none, some, [], ◌∷◌, String, string_eq, nat_eq, option_eq,
}
use deepseek_harness_communi.Prelude.Text.{
  starts_with, slice_from, text_length, units, slice_from, text_length, join_texts,
}
use deepseek_harness_communi.Prelude.Result.{ok, err, ◌>>=◌}
use deepseek_harness_communi.Application.Cli.Command.{
  Config, no_config, TuiStartupOptions, session, interactive, requires_value, options, run_exec,
  command_of,
}
use deepseek_harness_communi.Application.Cli.Distance.{edit_distance, closest}
use deepseek_harness_communi.Application.Cli.Distance.Levenshtein.{
  levenshtein, reverse_onto, edit_distance-levenshtein,
}
use deepseek_harness_communi.Application.Cli.Distance.Closest.{IsClosest, closest-IsClosest}
use deepseek_harness_communi.Application.Cli.Options.{
  value_option, required_value, flag_before_end, help_flag_present, leading_from, leading_command,
  for_args,
}
use deepseek_harness_communi.Application.Cli.Commands.{
  parse_explicit_help, parse_version, parse_exec,
}
use deepseek_harness_communi.Application.Cli.Parse.{parse_command, parse_cli_args}
use deepseek_harness_communi.Application.Cli.Forward.{tui_app_args, interactive_args}
use deepseek_harness_communi.Application.Cli.Interactive.{
  parse_interactive, read_argument, taking, plain_argument, choose_target, finish,
}
use deepseek_harness_communi.Application.Cli.RoundTrip.Segments.{AreValues}
use deepseek_harness_communi.Application.Cli.RoundTrip.Whole.{received, parse_cli_args-tui_app_args}

-- A collation for the tests.
abbrev before : String → String → Bool
before a b = false

exec_parsed :
    parse_cli_args before
      ("exec" ∷ "-C" ∷ "./project" ∷ "--patch" ∷ "ci.yml" ∷ "run" ∷ "tests" ∷ [])
      no_config
    ≡ ok (run_exec (some "./project") (some "run tests") ("ci.yml" ∷ []))
unfolding parse_cli_args ◌>>=◌ parse_explicit_help leading_command leading_from value_option
    starts_with command_of help_flag_present flag_before_end parse_version parse_command parse_exec
    for_args required_value join_texts
exec_parsed = refl

abbrev startup : TuiStartupOptions
startup = record {
  resume_target = some (session "one");
  prompt = some "--explain this";
  image_paths = "a.png" ∷ "b.png" ∷ [];
  model = some "flash";
  reasoning_effort = none;
  permission_mode = some "ask";
  plan = true;
}

abbrev monochrome : Config
monochrome = record no_config { color = some false; title = some "launcher" }

abbrev own : Config
own = record no_config { title = some "application" }

startup-AreValues : AreValues monochrome startup
unfolding starts_with
startup-AreValues = record {
  cwd_value = tt;
  image_values = (refl, (refl, tt));
  model_value = refl;
  effort_value = tt;
  permission_value = refl;
}

parse_cli_args-tui_app_args_example :
    parse_cli_args before (tui_app_args (interactive monochrome startup ("p.yml" ∷ []))) own
    ≡ ok (received own monochrome startup)
parse_cli_args-tui_app_args_example =
    parse_cli_args-tui_app_args before own monochrome startup ("p.yml" ∷ [])
      (record { values = startup-AreValues; target = unfold starts_with in refl; no_cwd = refl })
      (λ e. refl)

edit_distance-levenshtein_example :
    edit_distance (units "--plna") (units "--plan")
    ≡ levenshtein (reverse_onto (units "--plna") []) (reverse_onto (units "--plan") [])
edit_distance-levenshtein_example = edit_distance-levenshtein (units "--plna") (units "--plan")

closest-IsClosest_example : IsClosest "--plna" options (closest before "--plna" options)
closest-IsClosest_example = closest-IsClosest before "--plna" options

-- The launcher takes the path of an image that begins with a dash, in one argument with the option.
abbrev dashed : TuiStartupOptions
dashed = record {
  resume_target = none;
  prompt = none;
  image_paths = "-a.png" ∷ [];
  model = none;
  reasoning_effort = none;
  permission_mode = none;
  plan = false;
}

dashed_accepted :
    parse_cli_args before ("--image=-a.png" ∷ []) no_config ≡ ok (interactive no_config dashed [])
unfolding parse_cli_args ◌>>=◌ parse_explicit_help leading_command leading_from value_option
    starts_with command_of help_flag_present flag_before_end parse_version parse_command
    parse_interactive for_args read_argument taking plain_argument required_value slice_from
    text_length choose_target finish
dashed_accepted = refl

-- The application refuses the arguments that it is forwarded as.
dashed_refused :
    parse_cli_args before (tui_app_args (interactive no_config dashed [])) no_config
    ≡ err (requires_value "--image")
unfolding parse_cli_args ◌>>=◌ parse_explicit_help leading_command leading_from value_option
    starts_with command_of help_flag_present flag_before_end parse_version parse_command
    parse_interactive for_args read_argument taking plain_argument required_value tui_app_args
    interactive_args
dashed_refused = refl
