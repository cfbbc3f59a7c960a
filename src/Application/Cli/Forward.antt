-- ===== src/Application/Cli/Forward.antt =====
-- packages/tui/src/application/cli.ts: `tuiAppArgs`, the arguments that the launcher passes on. It
-- takes the two invocations that run the profile; the others have no arguments here.
use deepseek_harness_communi.Prelude.{
  Bool, false, Option, none, some, List, [], ◌∷◌, ◌++◌, String, if◌then◌else◌,
}
use deepseek_harness_communi.Application.Cli.Command.{
  ResumeTarget, last, session, TuiStartupOptions, Config, CliInvocation, interactive, list_sessions,
}

abbrev pub resume_args : Option ResumeTarget → List String
resume_args none = []
resume_args (some last) = "resume" ∷ "--last" ∷ []
resume_args (some (session session_id)) = "resume" ∷ session_id ∷ []

abbrev pub value_args : String → Option String → List String
value_args name none = []
value_args name (some value) = name ∷ value ∷ []

abbrev pub color_args : Option Bool → List String
color_args (some false) = "--no-color" ∷ []
color_args color = []

abbrev pub image_args : List String → List String
image_args [] = []
image_args (path ∷ paths) = "--image" ∷ path ∷ image_args paths

abbrev pub plan_args : Bool → List String
plan_args plan = if plan then "--plan" ∷ [] else []

abbrev pub prompt_args : Option String → List String
prompt_args none = []
prompt_args (some prompt) = "--" ∷ prompt ∷ []

unfoldable pub interactive_args : Config → TuiStartupOptions → List String
interactive_args config startup =
    resume_args startup.resume_target
    ++ (value_args "--cwd" config.cwd
        ++ (color_args config.color
            ++ (image_args startup.image_paths
                ++ (value_args "--model" startup.model
                    ++ (value_args "--effort" startup.reasoning_effort
                        ++ (value_args "--permission-mode" startup.permission_mode
                            ++ (plan_args startup.plan ++ prompt_args startup.prompt)))))))

unfoldable pub tui_app_args : CliInvocation → List String
tui_app_args (list_sessions json patches) = "sessions" ∷ (if json then "--json" ∷ [] else [])
tui_app_args (interactive config startup patches) = interactive_args config startup
tui_app_args invocation = []
