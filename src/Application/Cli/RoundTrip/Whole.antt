-- ===== src/Application/Cli/RoundTrip/Whole.antt =====
-- What the launcher forwards, the application reads back.
use deepseek_harness_communi.Prelude.{
  ◌≡◌, refl, ap, ◌∙◌, Bool, true, false, ◌&&◌, Option, none, some, is_some, List, [], ◌∷◌, ◌++◌,
  String, string_eq, nat_eq, option_eq, arith,
}
use mathlib.Core.Option
use deepseek_harness_communi.Prelude.Result.{ok, ◌>>=◌}
use deepseek_harness_communi.Prelude.Text.{starts_with, join_texts}
use deepseek_harness_communi.Application.Cli.Command.{
  Config, ResumeTarget, last, session, TuiStartupOptions, CliInvocation, interactive,
}
use deepseek_harness_communi.Application.Cli.Options.{for_args}
use deepseek_harness_communi.Application.Cli.Commands.{joined}
use deepseek_harness_communi.Application.Cli.Interactive.{
  start_locals, read_argument, finish, choose_target, parse_interactive,
}
use deepseek_harness_communi.Application.Cli.Parse.{parse_command, parse_cli_args}
use deepseek_harness_communi.Application.Cli.Forward.{resume_args, interactive_args, tui_app_args}
use deepseek_harness_communi.Application.Cli.RoundTrip.Reading.{
  Reads-one, IsPast, read-plain, read-last,
}
use deepseek_harness_communi.Application.Cli.RoundTrip.Segments.{
  AreValues, option_args, final_locals, prompt_words, Reads-option_args, or_else, forwarded_color,
}
use deepseek_harness_communi.Application.Cli.RoundTrip.Leading.{
  IsTarget, forwarded_command, leading_command-forwarded, parse_explicit_help-forwarded,
  parse_version-forwarded,
}

-- What the application makes of a forwarded invocation: its own configuration, with the working
-- directory and the colour of the launcher's, and the same start-up options.
abbrev pub received : Config → Config → TuiStartupOptions → CliInvocation
received base config startup =
    interactive
      (record base {
        cwd = or_else config.cwd base.cwd;
        color = forwarded_color config.color base.color;
      })
      startup []

-- What `tuiAppArgs` can pass on: values that stand in arguments of their own, and no working
-- directory together with a session to resume.
pub record IsForwardable (config : Config) (startup : TuiStartupOptions) : Type 0 where
  pub values : AreValues config startup
  pub target : IsTarget startup.resume_target
  pub no_cwd : (is_some startup.resume_target && is_some config.cwd) ≡ false

joined-prompt_words : (o : Option String) → joined (prompt_words o) ≡ o
unfolding join_texts
joined-prompt_words none = refl
joined-prompt_words (some prompt) = refl

none-IsPast : IsPast none 0
none-IsPast j le = refl

first-IsPast : IsPast (some 0) 1
first-IsPast j le = ground (arith, le)

module _ (base config : Config) (startup : TuiStartupOptions) where
  finish-final :
      (target : Option ResumeTarget) (positionals : List String) (resume_last : Bool)
      → (is_some target && is_some config.cwd) ≡ false
      → startup.resume_target ≡ target
      → finish
          (final_locals base config startup positionals resume_last)
          target
          (prompt_words startup.prompt)
        ≡ ok (received base config startup)
  unfolding finish
  finish-final target positionals resume_last h e =
      simp (h, joined-prompt_words startup.prompt, ← e)

  choose_target-none :
      startup.resume_target ≡ none
      → base.session_id ≡ none
      → choose_target base false (final_locals base config startup [] false)
        ≡ ok (received base config startup)
  unfolding choose_target
  choose_target-none e b =
      ap
        (λ o.
          finish (final_locals base config startup [] false) (Option.map session o)
            (prompt_words startup.prompt))
        b
      ∙ finish-final none [] false refl e

  choose_target-last :
      startup.resume_target ≡ some last
      → is_some config.cwd ≡ false
      → choose_target base true (final_locals base config startup [] true)
        ≡ ok (received base config startup)
  unfolding choose_target
  choose_target-last e h = finish-final (some last) [] true h e

  choose_target-session :
      (session_id : String)
      → startup.resume_target ≡ some (session session_id)
      → is_some config.cwd ≡ false
      → choose_target base true (final_locals base config startup (session_id ∷ []) false)
        ≡ ok (received base config startup)
  unfolding choose_target
  choose_target-session session_id e h =
      finish-final (some (session session_id)) (session_id ∷ []) false h e

module _ (before : String → String → Bool) (base config : Config) (startup : TuiStartupOptions)
    (v : AreValues config startup) where
  loop-none :
      for_args (read_argument before) none 0 false (option_args config startup) (start_locals base)
      ≡ ok (final_locals base config startup [] false)
  loop-none = Reads-option_args before none base config startup [] false v 0 none-IsPast

  loop-last :
      for_args
        (read_argument before)
        (some 0)
        0
        false
        ("resume" ∷ "--last" ∷ option_args config startup)
        (start_locals base)
      ≡ ok (final_locals base config startup [] true)
  unfolding for_args ◌>>=◌
  loop-last =
      Reads-one before (some 0) "--last" (option_args config startup) (start_locals base) _ _
        (read-last before (option_args config startup) (start_locals base) refl)
        (Reads-option_args before (some 0) base config startup [] true v) 1 first-IsPast

  loop-session :
      (session_id : String)
      → starts_with session_id "-" ≡ false
      → for_args
          (read_argument before)
          (some 0)
          0
          false
          ("resume" ∷ session_id ∷ option_args config startup)
          (start_locals base)
        ≡ ok (final_locals base config startup (session_id ∷ []) false)
  unfolding for_args ◌>>=◌
  loop-session session_id plain =
      Reads-one before (some 0) session_id (option_args config startup) (start_locals base) _ _
        (read-plain before session_id (option_args config startup) (start_locals base) plain refl)
        (Reads-option_args before (some 0) base config startup (session_id ∷ []) false v) 1
        first-IsPast

module _ (before : String → String → Bool) (base config : Config)
    (startup : TuiStartupOptions) where
  parse_interactive-forwarded :
      (target : Option ResumeTarget)
      → startup.resume_target ≡ target
      → AreValues config startup
      → IsTarget target
      → (is_some target && is_some config.cwd) ≡ false
      → (is_some target ≡ false → base.session_id ≡ none)
      → parse_interactive before
          (resume_args target ++ option_args config startup)
          base
          (forwarded_command target)
        ≡ ok (received base config startup)
  unfolding ◌>>=◌
  parse_interactive-forwarded none e v p h b =
      unfold parse_interactive in
      rw (loop-none before base config startup v)
        (choose_target-none base config startup e (b refl))
  parse_interactive-forwarded (some last) e v p h b =
      unfold parse_interactive in
      rw (loop-last before base config startup v) (choose_target-last base config startup e h)
  parse_interactive-forwarded (some (session session_id)) e v p h b =
      unfold parse_interactive in
      rw (loop-session before base config startup v session_id p)
        (choose_target-session base config startup session_id e h)

  parse_command-forwarded :
      (target : Option ResumeTarget)
      → startup.resume_target ≡ target
      → AreValues config startup
      → IsTarget target
      → (is_some target && is_some config.cwd) ≡ false
      → (is_some target ≡ false → base.session_id ≡ none)
      → parse_command before
          (resume_args target ++ option_args config startup)
          base
          (forwarded_command target)
        ≡ ok (received base config startup)
  unfolding parse_command
  parse_command-forwarded none e v p h b = parse_interactive-forwarded none e v p h b
  parse_command-forwarded (some target) e v p h b =
      parse_interactive-forwarded (some target) e v p h b

  -- The launcher forwards an interactive invocation whose values can stand in arguments of their own
  -- and that does not resume a session in another directory. The application, whose own configuration
  -- names no session unless the invocation does, parses the arguments to the same start-up options,
  -- no patches, and its own configuration with the working directory and the colour of the launcher's.
  pub parse_cli_args-tui_app_args :
      (patches : List String)
      → IsForwardable config startup
      → (is_some startup.resume_target ≡ false → base.session_id ≡ none)
      → parse_cli_args before (tui_app_args (interactive config startup patches)) base
        ≡ ok (received base config startup)
  unfolding tui_app_args interactive_args ◌>>=◌
  parse_cli_args-tui_app_args patches f b =
      unfold parse_cli_args in
      rw
        (
          parse_explicit_help-forwarded before startup.resume_target config startup f.target
              f.values,
          parse_version-forwarded startup.resume_target config startup f.target f.values,
          leading_command-forwarded startup.resume_target config startup,
        )
        (parse_command-forwarded startup.resume_target refl f.values f.target f.no_cwd b)
