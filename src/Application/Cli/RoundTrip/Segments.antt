-- ===== src/Application/Cli/RoundTrip/Segments.antt =====
-- The forwarded options, one after the other: what each leaves in the local variables.
use mathlib.Core.List.{append-nil, append_assoc}
use deepseek_harness_communi.Prelude.{
  ℕ, ◌≡◌, refl, sym, ap, ◌∙◌, subst, Bool, true, false, not, Option, none, some, is_some, List, [],
  ◌∷◌, ◌++◌, String, All, string_eq,
}
use deepseek_harness_communi.Prelude.Result.{ok, ◌>>=◌}
use deepseek_harness_communi.Application.Cli.Command.{Config, TuiStartupOptions}
use deepseek_harness_communi.Application.Cli.Options.{is_value, for_args}
use deepseek_harness_communi.Application.Cli.Interactive.{
  read_argument, Locals, set_cwd, start_locals,
}
use deepseek_harness_communi.Application.Cli.Forward.{
  value_args, color_args, image_args, plan_args, prompt_args,
}
use deepseek_harness_communi.Application.Cli.RoundTrip.Reading.{
  Reads, Reads-one, Reads-pair, read-plan, read-color, read-mark, read-cwd, read-image, read-model,
  read-effort, read-permission,
}

-- An option's value, if it is given, can stand in an argument of its own.
abbrev pub IsValued : Option String → Type 0
IsValued none = Unit
IsValued (some value) = is_value value ≡ true

abbrev pub or_else {ℓ} : {A : Type ℓ} → Option A → Option A → Option A
or_else none b = b
or_else (some a) b = some a

-- `config.color = false` when the launcher's configuration has it.
abbrev pub forwarded_color : Option Bool → Option Bool → Option Bool
forwarded_color (some false) base = some false
forwarded_color color base = base

module _ (before : String → String → Bool) (command_index : Option ℕ) (rest : List String) where
  pub Reads-cwd :
      (o : Option String) (s t : Locals)
      → IsValued o
      → s.options ≡ true
      → s.cwd_provided ≡ false
      → Reads before command_index rest
          (record s {
            config = record s.config { cwd = or_else o s.config.cwd };
            cwd_provided = is_some o;
          })
          t
      → Reads before command_index (value_args "--cwd" o ++ rest) s t
  Reads-cwd none s t v on e k =
      subst (λ b. Reads before command_index rest (record s { cwd_provided = b }) t) (sym e) k
  Reads-cwd (some value) s t v on e k =
      Reads-pair before command_index "--cwd" value rest s (set_cwd s value) t
        (read-cwd before value rest s v on) k

  pub Reads-color :
      (o : Option Bool) (s t : Locals)
      → s.options ≡ true
      → Reads before command_index rest
          (record s { config = record s.config { color = forwarded_color o s.config.color } })
          t
      → Reads before command_index (color_args o ++ rest) s t
  Reads-color none s t on k = k
  Reads-color (some true) s t on k = k
  Reads-color (some false) s t on k =
      Reads-one before command_index "--no-color" rest s
        (record s { config = record s.config { color = some false } }) t
        (read-color before rest s on) k

  pub Reads-images :
      (paths : List String) (s t : Locals)
      → All (λ path. is_value path ≡ true) paths
      → s.options ≡ true
      → Reads before command_index rest (record s { image_paths = s.image_paths ++ paths }) t
      → Reads before command_index (image_args paths ++ rest) s t
  Reads-images [] s t v on k =
      subst (λ p. Reads before command_index rest (record s { image_paths = p }) t)
        (append-nil s.image_paths) k
  Reads-images (path ∷ paths) s t v on k =
      Reads-pair before command_index "--image" path (image_args paths ++ rest) s
        (record s { image_paths = s.image_paths ++ (path ∷ []) }) t
        (read-image before path (image_args paths ++ rest) s v.0 on)
        (Reads-images paths (record s { image_paths = s.image_paths ++ (path ∷ []) }) t v.1 on
          (subst (λ p. Reads before command_index rest (record s { image_paths = p }) t)
            (sym (append_assoc s.image_paths (path ∷ []) paths)) k))

  pub Reads-model :
      (o : Option String) (s t : Locals)
      → IsValued o
      → s.options ≡ true
      → s.model ≡ none
      → Reads before command_index rest (record s { model = o }) t
      → Reads before command_index (value_args "--model" o ++ rest) s t
  Reads-model none s t v on e k =
      subst (λ m. Reads before command_index rest (record s { model = m }) t) (sym e) k
  Reads-model (some value) s t v on e k =
      Reads-pair before command_index "--model" value rest s (record s { model = some value }) t
        (read-model before value rest s v on) k

  pub Reads-effort :
      (o : Option String) (s t : Locals)
      → IsValued o
      → s.options ≡ true
      → s.reasoning_effort ≡ none
      → Reads before command_index rest (record s { reasoning_effort = o }) t
      → Reads before command_index (value_args "--effort" o ++ rest) s t
  Reads-effort none s t v on e k =
      subst (λ m. Reads before command_index rest (record s { reasoning_effort = m }) t) (sym e) k
  Reads-effort (some value) s t v on e k =
      Reads-pair before command_index "--effort" value rest s
        (record s { reasoning_effort = some value }) t (read-effort before value rest s v on) k

  pub Reads-permission :
      (o : Option String) (s t : Locals)
      → IsValued o
      → s.options ≡ true
      → s.permission_mode ≡ none
      → Reads before command_index rest (record s { permission_mode = o }) t
      → Reads before command_index (value_args "--permission-mode" o ++ rest) s t
  Reads-permission none s t v on e k =
      subst (λ m. Reads before command_index rest (record s { permission_mode = m }) t) (sym e) k
  Reads-permission (some value) s t v on e k =
      Reads-pair before command_index "--permission-mode" value rest s
        (record s { permission_mode = some value }) t (read-permission before value rest s v on) k

  pub Reads-plan :
      (plan : Bool) (s t : Locals)
      → s.options ≡ true
      → s.plan ≡ false
      → Reads before command_index rest (record s { plan = plan }) t
      → Reads before command_index (plan_args plan ++ rest) s t
  Reads-plan false s t on e k =
      subst (λ p. Reads before command_index rest (record s { plan = p }) t) (sym e) k
  Reads-plan true s t on e k =
      Reads-one before command_index "--plan" rest s (record s { plan = true }) t
        (read-plan before rest s on) k

-- The prompt and the mark before it.
abbrev pub prompt_words : Option String → List String
prompt_words none = []
prompt_words (some prompt) = prompt ∷ []

module _ (before : String → String → Bool) (command_index : Option ℕ) where
  Reads-nil : (s : Locals) → Reads before command_index [] s s
  unfolding for_args
  Reads-nil s i p = refl

  Reads-prompt :
      (o : Option String) (s : Locals)
      → s.options ≡ true
      → Reads before command_index
          (prompt_args o)
          s
          (record s { positionals = s.positionals ++ prompt_words o; options = not (is_some o) })
  unfolding for_args read_argument ◌>>=◌
  Reads-prompt none s on = λ i p. ap ok (
      ap (λ b. record s { options = b }) on
      ∙ ap (λ ps. record s { positionals = ps; options = true }) (sym (append-nil s.positionals)))
  Reads-prompt (some prompt) s on =
      Reads-one before command_index "--" (prompt ∷ []) s (record s { options = false }) _
        (read-mark before (prompt ∷ []) s on)
        (Reads-one before command_index prompt [] (record s { options = false }) _ _ refl
          (Reads-nil _))

-- What the forwarded options make of the local variables.
abbrev pub final_locals : Config → Config → TuiStartupOptions → List String → Bool → Locals
final_locals base config startup positionals resume_last = record {
  config = record base {
    cwd = or_else config.cwd base.cwd;
    color = forwarded_color config.color base.color;
  };
  patches = [];
  image_paths = startup.image_paths;
  positionals = positionals ++ prompt_words startup.prompt;
  resume_last = resume_last;
  cwd_provided = is_some config.cwd;
  model = startup.model;
  reasoning_effort = startup.reasoning_effort;
  permission_mode = startup.permission_mode;
  plan = startup.plan;
  options = not (is_some startup.prompt);
}

-- The arguments behind those of `resume`.
abbrev pub option_args : Config → TuiStartupOptions → List String
option_args config startup =
    value_args "--cwd" config.cwd
    ++ (color_args config.color
        ++ (image_args startup.image_paths
            ++ (value_args "--model" startup.model
                ++ (value_args "--effort" startup.reasoning_effort
                    ++ (value_args "--permission-mode" startup.permission_mode
                        ++ (plan_args startup.plan ++ prompt_args startup.prompt))))))

-- The values can be forwarded: none is empty or begins with a dash. The prompt may be any text.
pub record AreValues (config : Config) (startup : TuiStartupOptions) : Type 0 where
  pub cwd_value : IsValued config.cwd
  pub image_values : All (λ path. is_value path ≡ true) startup.image_paths
  pub model_value : IsValued startup.model
  pub effort_value : IsValued startup.reasoning_effort
  pub permission_value : IsValued startup.permission_mode

module _ (before : String → String → Bool) (command_index : Option ℕ) where
  pub Reads-option_args :
      (base config : Config) (startup : TuiStartupOptions) (positionals : List String)
      (resume_last : Bool)
      → AreValues config startup
      → Reads before command_index
          (option_args config startup)
          (record (start_locals base) { positionals = positionals; resume_last = resume_last })
          (final_locals base config startup positionals resume_last)
  Reads-option_args base config startup positionals resume_last v =
      Reads-cwd before command_index _ config.cwd _ _ v.cwd_value refl refl (
        Reads-color before command_index _ config.color _ _ refl (
          Reads-images before command_index _ startup.image_paths _ _ v.image_values refl (
            Reads-model before command_index _ startup.model _ _ v.model_value refl refl (
              Reads-effort before command_index _ startup.reasoning_effort _ _ v.effort_value refl
                refl
                (Reads-permission before command_index _ startup.permission_mode _ _
                  v.permission_value refl refl
                  (Reads-plan before command_index _ startup.plan _ _ refl refl
                    (Reads-prompt before command_index startup.prompt _ refl)))))))
