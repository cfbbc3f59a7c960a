-- ===== src/Application/Cli/RoundTrip/Leading.antt =====
-- The forwarded arguments have no flag that asks for help or the version, and no command but `resume`.
use deepseek_harness_communi.Prelude.{
  ℕ, ◌≡◌, refl, Bool, true, false, Option, none, some, List, [], ◌∷◌, ◌++◌, String, any, All, ◌==◌,
  string_eq, arith, ◌∙◌,
}
use deepseek_harness_communi.Prelude.Result.{ok, ◌>>=◌}
use deepseek_harness_communi.Prelude.Text.{starts_with}
use deepseek_harness_communi.Application.Cli.Command.{
  Command, resume, Config, ResumeTarget, last, session, TuiStartupOptions, version_flags,
  command_of,
}
use deepseek_harness_communi.Application.Cli.Options.{
  is_value, flag_before_end, help_flag_present, leading_from, leading_command, value_option,
}
use deepseek_harness_communi.Application.Cli.Commands.{parse_explicit_help, parse_version}
use deepseek_harness_communi.Application.Cli.Forward.{
  resume_args, value_args, color_args, image_args, plan_args, prompt_args,
}
use deepseek_harness_communi.Application.Cli.RoundTrip.Reading.{any-dashed, ne-dashed}
use deepseek_harness_communi.Application.Cli.RoundTrip.Segments.{IsValued, AreValues, option_args}

abbrev asking : List String
asking = "-h" ∷ "--help" ∷ version_flags

-- None of the flags stands before `--`.
abbrev AsksNothing : List String → Type 0
AsksNothing args = flag_before_end asking args ≡ none

undashed : (value : String) → is_value value ≡ true → starts_with value "-" ≡ false
undashed value h = ground (arith, h)

skip-plain :
    (value : String) (rest : List String)
    → starts_with value "-" ≡ false
    → AsksNothing rest
    → AsksNothing (value ∷ rest)
unfolding flag_before_end starts_with
skip-plain value rest plain h =
    let other = any-dashed asking value (refl, (refl, (refl, (refl, (refl, tt))))) plain in
    let mark = ne-dashed "--" value refl plain in rw (mark, other) h

-- An option's name that asks for nothing, with its value.
value_args-AsksNothing :
    (name : String) (o : Option String) (rest : List String)
    → ((args : List String) → flag_before_end asking (name ∷ args) ≡ flag_before_end asking args)
    → IsValued o
    → AsksNothing rest
    → AsksNothing (value_args name o ++ rest)
value_args-AsksNothing name none rest skip v h = h
value_args-AsksNothing name (some value) rest skip v h =
    skip (value ∷ rest) ∙ skip-plain value rest (undashed value v) h

image_args-AsksNothing :
    (paths rest : List String)
    → All (λ path. is_value path ≡ true) paths
    → AsksNothing rest
    → AsksNothing (image_args paths ++ rest)
image_args-AsksNothing [] rest v h = h
image_args-AsksNothing (path ∷ paths) rest v h =
    value_args-AsksNothing "--image" (some path) (image_args paths ++ rest)
      (λ args. unfold flag_before_end in refl) v.0 (image_args-AsksNothing paths rest v.1 h)

color_args-AsksNothing :
    (o : Option Bool) (rest : List String) → AsksNothing rest → AsksNothing (color_args o ++ rest)
unfolding flag_before_end
color_args-AsksNothing none rest h = h
color_args-AsksNothing (some true) rest h = h
color_args-AsksNothing (some false) rest h = h

plan_args-AsksNothing :
    (plan : Bool) (rest : List String) → AsksNothing rest → AsksNothing (plan_args plan ++ rest)
unfolding flag_before_end
plan_args-AsksNothing true rest h = h
plan_args-AsksNothing false rest h = h

prompt_args-AsksNothing : (o : Option String) → AsksNothing (prompt_args o)
unfolding flag_before_end
prompt_args-AsksNothing none = refl
prompt_args-AsksNothing (some prompt) = refl

option_args-AsksNothing :
    (config : Config) (startup : TuiStartupOptions)
    → AreValues config startup
    → AsksNothing (option_args config startup)
option_args-AsksNothing config startup v =
    value_args-AsksNothing "--cwd" config.cwd _ (λ args. unfold flag_before_end in refl) v.cwd_value
      (color_args-AsksNothing config.color _ (
        image_args-AsksNothing startup.image_paths _ v.image_values (
          value_args-AsksNothing "--model" startup.model _ (λ args. unfold flag_before_end in refl)
            v.model_value
            (value_args-AsksNothing "--effort" startup.reasoning_effort _
              (λ args. unfold flag_before_end in refl) v.effort_value
              (value_args-AsksNothing "--permission-mode" startup.permission_mode _
                (λ args. unfold flag_before_end in refl) v.permission_value
                (plan_args-AsksNothing startup.plan _ (prompt_args-AsksNothing startup.prompt)))))))

-- The identity of a session to resume does not begin with a dash.
abbrev pub IsTarget : Option ResumeTarget → Type 0
IsTarget (some (session session_id)) = starts_with session_id "-" ≡ false
IsTarget target = Unit

resume_args-AsksNothing :
    (target : Option ResumeTarget) (rest : List String)
    → IsTarget target
    → AsksNothing rest
    → AsksNothing (resume_args target ++ rest)
unfolding flag_before_end
resume_args-AsksNothing none rest p h = h
resume_args-AsksNothing (some last) rest p h = h
resume_args-AsksNothing (some (session session_id)) rest p h = skip-plain session_id rest p h

flag_before_end-sub :
    (flags args : List String)
    → ((a : String) → any (λ flag. flag == a) flags ≡ true → any (λ flag. flag == a) asking ≡ true)
    → AsksNothing args
    → flag_before_end flags args ≡ none
unfolding flag_before_end
flag_before_end-sub flags [] sub h = refl
flag_before_end-sub flags (a ∷ args) sub h =
    ground (arith, h, sub a, flag_before_end-sub flags args sub)

parse_version-nothing : (args : List String) → AsksNothing args → parse_version args ≡ ok none
unfolding parse_version
parse_version-nothing args h =
    rw (flag_before_end-sub version_flags args (λ a k. ground (arith, k)) h, parse_version)

help_flag_present-nothing : (args : List String) → AsksNothing args → help_flag_present args ≡ false
unfolding help_flag_present
help_flag_present-nothing args h = rw (
  flag_before_end-sub ("-h" ∷ "--help" ∷ []) args (λ a k. ground (arith, k)) h,
  help_flag_present,
)

-- No command stands before the other arguments.
abbrev Leads : List String → Type 0
Leads args = (i : ℕ) → leading_from i false args ≡ ok none

value_args-Leads :
    (name : String) (o : Option String) (rest : List String)
    → ((args : List String) (i : ℕ) → leading_from i false (name ∷ args) ≡ ok none)
    → Leads rest
    → Leads (value_args name o ++ rest)
value_args-Leads name none rest ends h = h
value_args-Leads name (some value) rest ends h = ends (value ∷ rest)

image_args-Leads : (paths rest : List String) → Leads rest → Leads (image_args paths ++ rest)
unfolding leading_from value_option command_of ◌>>=◌ starts_with
image_args-Leads [] rest h = h
image_args-Leads (path ∷ paths) rest h = λ i. refl

color_args-Leads :
    (o : Option Bool) (rest : List String) → Leads rest → Leads (color_args o ++ rest)
unfolding leading_from value_option command_of ◌>>=◌ starts_with
color_args-Leads none rest h = h
color_args-Leads (some true) rest h = h
color_args-Leads (some false) rest h = λ i. refl

plan_args-Leads : (plan : Bool) (o : Option String) → Leads (plan_args plan ++ prompt_args o)
unfolding leading_from value_option command_of ◌>>=◌ starts_with
plan_args-Leads true o = λ i. refl
plan_args-Leads false none = λ i. refl
plan_args-Leads false (some prompt) = λ i. refl

option_args-Leads :
    (config : Config) (startup : TuiStartupOptions) → Leads (option_args config startup)
unfolding leading_from value_option command_of ◌>>=◌ starts_with
option_args-Leads config startup =
    value_args-Leads "--cwd" config.cwd _ (λ args i. refl)
      (color_args-Leads config.color _ (
        image_args-Leads startup.image_paths _ (
          value_args-Leads "--model" startup.model _ (λ args i. refl)
            (value_args-Leads "--effort" startup.reasoning_effort _ (λ args i. refl)
              (value_args-Leads "--permission-mode" startup.permission_mode _ (λ args i. refl)
                (plan_args-Leads startup.plan startup.prompt))))))

-- The command that the forwarded arguments begin with.
abbrev pub forwarded_command : Option ResumeTarget → Option (Command × ℕ)
forwarded_command none = none
forwarded_command (some target) = some (resume, 0)

pub leading_command-forwarded :
    (target : Option ResumeTarget) (config : Config) (startup : TuiStartupOptions)
    → leading_command (resume_args target ++ option_args config startup)
      ≡ ok (forwarded_command target)
unfolding leading_command leading_from value_option command_of ◌>>=◌ starts_with
leading_command-forwarded none config startup = option_args-Leads config startup 0
leading_command-forwarded (some last) config startup = refl
leading_command-forwarded (some (session session_id)) config startup = refl

module _ (before : String → String → Bool) where
  unasked :
      (args : List String) (target : Option ResumeTarget)
      → leading_command args ≡ ok (forwarded_command target)
      → help_flag_present args ≡ false
      → parse_explicit_help before args ≡ ok none
  unfolding parse_explicit_help ◌>>=◌
  unasked args none lead quiet = rw (lead, quiet, parse_explicit_help)
  unasked args (some target) lead quiet = rw (lead, quiet, parse_explicit_help)

  pub parse_explicit_help-forwarded :
      (target : Option ResumeTarget) (config : Config) (startup : TuiStartupOptions)
      → IsTarget target
      → AreValues config startup
      → parse_explicit_help before (resume_args target ++ option_args config startup) ≡ ok none
  parse_explicit_help-forwarded target config startup p v =
      unasked (resume_args target ++ option_args config startup) target
        (leading_command-forwarded target config startup)
        (help_flag_present-nothing (resume_args target ++ option_args config startup)
          (resume_args-AsksNothing target _ p (option_args-AsksNothing config startup v)))

pub parse_version-forwarded :
    (target : Option ResumeTarget) (config : Config) (startup : TuiStartupOptions)
    → IsTarget target
    → AreValues config startup
    → parse_version (resume_args target ++ option_args config startup) ≡ ok none
parse_version-forwarded target config startup p v =
    parse_version-nothing _
      (resume_args-AsksNothing target _ p (option_args-AsksNothing config startup v))
