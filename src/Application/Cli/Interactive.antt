-- ===== src/Application/Cli/Interactive.antt =====
-- packages/tui/src/application/cli.ts: `parseInteractive`, which also reads `resume`.
use deepseek_harness_communi.Prelude.{
  ℕ, Bool, true, false, not, ◌&&◌, Option, none, some, is_some, List, [], ◌∷◌, ◌++◌, String,
  if◌then◌else◌, ◌==◌, string_eq,
}
use mathlib.Core.Option
use deepseek_harness_communi.Prelude.Result.{Result, ok, err, ◌>>=◌}
use deepseek_harness_communi.Prelude.Text.{starts_with}
use deepseek_harness_communi.Application.Cli.Command.{
  Command, resume, ResumeTarget, last, session, Config, CliInvocation, interactive, CliUsageError,
  last_without_resume, resume_needs_target, cwd_with_resume,
}
use deepseek_harness_communi.Application.Cli.Options.{unknown_option_error, value_option, for_args}
use deepseek_harness_communi.Application.Cli.Commands.{joined}

-- The local variables of the function.
pub record Locals : Type 0 where
  pub config : Config
  pub patches : List String
  pub image_paths : List String
  pub positionals : List String
  pub resume_last : Bool
  pub cwd_provided : Bool
  pub model : Option String
  pub reasoning_effort : Option String
  pub permission_mode : Option String
  pub plan : Bool
  pub options : Bool

abbrev pub start_locals : Config → Locals
start_locals base = record {
  config = base;
  patches = [];
  image_paths = [];
  positionals = [];
  resume_last = false;
  cwd_provided = false;
  model = none;
  reasoning_effort = none;
  permission_mode = none;
  plan = false;
  options = true;
}

-- `if (option !== undefined) { …; index = option.nextIndex; continue }`
unfoldable pub taking :
    String
    → List String
    → List String
    → (String → Locals)
    → Result CliUsageError (Locals × Bool)
    → Result CliUsageError (Locals × Bool)
taking argument rest names set otherwise = value_option argument rest names >>= λ option.
    elim option [ none ↦ otherwise | some o ↦ ok (set o.value, o.takes_next) ]

abbrev pub set_cwd : Locals → String → Locals
set_cwd s value = record s { config = record s.config { cwd = some value }; cwd_provided = true }

module _ (before : String → String → Bool) where
  -- The part of the loop's body behind the options that have a value.
  unfoldable pub plain_argument : String → Locals → Result CliUsageError (Locals × Bool)
  plain_argument argument s =
      if argument == "--last"
      then ok (record s { resume_last = true }, false)
      else if argument == "--plan"
      then ok (record s { plan = true }, false)
      else if argument == "--no-color"
      then ok (record s { config = record s.config { color = some false } }, false)
      else if starts_with argument "-"
      then err (unknown_option_error before argument)
      else ok (record s { positionals = s.positionals ++ (argument ∷ []) }, false)

  unfoldable pub read_argument :
      String → List String → Locals → Result CliUsageError (Locals × Bool)
  read_argument argument rest s =
      if not s.options
      then ok (record s { positionals = s.positionals ++ (argument ∷ []) }, false)
      else if argument == "--"
      then ok (record s { options = false }, false)
      else taking argument rest ("--patch" ∷ []) (λ v. record s { patches = s.patches ++ (v ∷ []) })
          (taking argument rest ("-C" ∷ "--cwd" ∷ []) (set_cwd s) (
            taking argument rest ("-i" ∷ "--image" ∷ [])
              (λ v. record s { image_paths = s.image_paths ++ (v ∷ []) })
              (taking argument rest ("-m" ∷ "--model" ∷ []) (λ v. record s { model = some v })
                (taking argument rest ("--effort" ∷ [])
                  (λ v. record s { reasoning_effort = some v })
                  (taking argument rest ("--permission-mode" ∷ [])
                    (λ v. record s { permission_mode = some v }) (plain_argument argument s))))))

-- What the code after the loop makes of the local variables, with the target and the positional
-- arguments that are left.
unfoldable pub finish :
    Locals → Option ResumeTarget → List String → Result CliUsageError CliInvocation
finish s target positionals =
    if is_some target && s.cwd_provided
    then err cwd_with_resume
    else ok (
        interactive s.config
          (record {
            resume_target = target;
            prompt = joined positionals;
            image_paths = s.image_paths;
            model = s.model;
            reasoning_effort = s.reasoning_effort;
            permission_mode = s.permission_mode;
            plan = s.plan;
          })
          s.patches)

abbrev pub is_resume : Option (Command × ℕ) → Bool
is_resume none = false
is_resume (some (resume, index)) = true
is_resume (some (command, index)) = false

unfoldable pub choose_target : Config → Bool → Locals → Result CliUsageError CliInvocation
choose_target base true s =
    if s.resume_last then finish s (some last) s.positionals else elim s.positionals [
      | [] ↦ err resume_needs_target
      | session_id ∷ rest ↦ finish s (some (session session_id)) rest
    ]
choose_target base false s =
    if s.resume_last
    then err last_without_resume
    else finish s (Option.map session base.session_id) s.positionals

module _ (before : String → String → Bool) where
  unfoldable pub parse_interactive :
      List String → Config → Option (Command × ℕ) → Result CliUsageError CliInvocation
  parse_interactive args base command =
      for_args (read_argument before) (Option.map (λ c. c.1) command) 0 false args
        (start_locals base)
      >>= λ s. choose_target base (is_resume command) s
