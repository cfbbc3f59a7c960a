-- ===== src/Application/Cli/RoundTrip/Reading.antt =====
-- The loop of `parseInteractive` over the forwarded options.
use deepseek_harness_communi.Prelude.{
  ℕ, suc, ◌≤◌, ◌≡◌, refl, Bool, true, false, Option, none, some, List, [], ◌∷◌, ◌++◌, String, any,
  find, All, ◌==◌, string_eq, nat_eq, option_eq, ==_iff, arith,
}
use deepseek_harness_communi.Prelude.Result.{Result, ok, ◌>>=◌}
use deepseek_harness_communi.Prelude.Text.{starts_with, starts_with_longer, starts_with_trans}
use deepseek_harness_communi.Application.Cli.Command.{CliUsageError}
use deepseek_harness_communi.Application.Cli.Options.{
  value_option, required_value, has_inline, is_value, for_args,
}
use deepseek_harness_communi.Application.Cli.Interactive.{
  Locals, taking, set_cwd, plain_argument, read_argument,
}

-- No index from `i` on is that of the command.
abbrev pub IsPast : Option ℕ → ℕ → Type 0
IsPast command_index i = (j : ℕ) → i ≤ j → (some j == command_index) ≡ false

dashed-ne :
    (name value : String)
    → starts_with name "-" ≡ true
    → starts_with value "-" ≡ false
    → (name == value) ≡ false
dashed-ne name value h k = ground (arith, h, k, ==_iff name value)

pub ne-dashed :
    (name value : String)
    → starts_with name "-" ≡ true
    → starts_with value "-" ≡ false
    → (value == name) ≡ false
ne-dashed name value h k = ground (arith, h, k, ==_iff value name)

pub any-dashed :
    (names : List String) (value : String)
    → All (λ name. starts_with name "-" ≡ true) names
    → starts_with value "-" ≡ false
    → any (λ name. name == value) names ≡ false
any-dashed [] value h k = refl
any-dashed (name ∷ names) value h k =
    ground (arith, dashed-ne name value h.0 k, any-dashed names value h.1 k)

has_inline-plain :
    (names : List String) (value : String)
    → All (λ name. starts_with name "-" ≡ true) names
    → starts_with value "-" ≡ false
    → find (has_inline value) names ≡ none
has_inline-plain [] value h k = refl
has_inline-plain (name ∷ names) value h k = ground (
  arith,
  h.0,
  k,
  has_inline-plain names value h.1 k,
  starts_with_longer value name "=",
  starts_with_trans value name "-",
)

-- An argument that does not begin with a dash is no option.
value_option-plain :
    (names rest : List String) (value : String)
    → All (λ name. starts_with name "-" ≡ true) names
    → starts_with value "-" ≡ false
    → value_option value rest names ≡ ok none
unfolding value_option
value_option-plain names rest value h k =
    rw (any-dashed names value h k, has_inline-plain names value h k, value_option)

module _ (before : String → String → Bool) where
  -- Whatever the index, the loop over these arguments ends with the locals `t`.
  abbrev pub Reads : Option ℕ → List String → Locals → Locals → Type 0
  Reads command_index args s t =
      (i : ℕ)
      → IsPast command_index i
      → for_args (read_argument before) command_index i false args s ≡ ok t

  pub Reads-one :
      (command_index : Option ℕ) (argument : String) (rest : List String) (s s' t : Locals)
      → read_argument before argument rest s ≡ ok (s', false)
      → Reads command_index rest s' t
      → Reads command_index (argument ∷ rest) s t
  unfolding ◌>>=◌ for_args
  Reads-one command_index argument rest s s' t h k i p =
      rw (p i (omega arith), h) (k (suc i) (λ j le. p j (omega arith)))

  pub Reads-pair :
      (command_index : Option ℕ) (name value : String) (rest : List String) (s s' t : Locals)
      → read_argument before name (value ∷ rest) s ≡ ok (s', true)
      → Reads command_index rest s' t
      → Reads command_index (name ∷ value ∷ rest) s t
  unfolding ◌>>=◌ for_args
  Reads-pair command_index name value rest s s' t h k i p =
      rw (p i (omega arith), h) (k (suc (suc i)) (λ j le. p j (omega arith)))

  taking-plain :
      (argument : String) (rest names : List String) (set : String → Locals)
      (otherwise : Result CliUsageError (Locals × Bool))
      → All (λ name. starts_with name "-" ≡ true) names
      → starts_with argument "-" ≡ false
      → taking argument rest names set otherwise ≡ otherwise
  unfolding taking ◌>>=◌
  taking-plain argument rest names set otherwise h k =
      rw (value_option-plain names rest argument h k, taking)

  -- An argument without a dash is a positional one.
  pub read-plain :
      (argument : String) (rest : List String) (s : Locals)
      → starts_with argument "-" ≡ false
      → s.options ≡ true
      → read_argument before argument rest s
        ≡ ok (record s { positionals = s.positionals ++ (argument ∷ []) }, false)
  unfolding read_argument plain_argument starts_with
  read-plain argument rest s plain on = rw (
    on,
    ne-dashed "--" argument refl plain,
    taking-plain argument rest ("--patch" ∷ []) _ _ (refl, tt) plain,
    taking-plain argument rest ("-C" ∷ "--cwd" ∷ []) _ _ (refl, (refl, tt)) plain,
    taking-plain argument rest ("-i" ∷ "--image" ∷ []) _ _ (refl, (refl, tt)) plain,
    taking-plain argument rest ("-m" ∷ "--model" ∷ []) _ _ (refl, (refl, tt)) plain,
    taking-plain argument rest ("--effort" ∷ []) _ _ (refl, tt) plain,
    taking-plain argument rest ("--permission-mode" ∷ []) _ _ (refl, tt) plain,
    ne-dashed "--last" argument refl plain,
    ne-dashed "--plan" argument refl plain,
    ne-dashed "--no-color" argument refl plain,
    plain,
  )

  module _ (value : String) (rest : List String) (s : Locals) (valued : is_value value ≡ true)
      (on : s.options ≡ true) where
    pub read-cwd : read_argument before "--cwd" (value ∷ rest) s ≡ ok (set_cwd s value, true)
    unfolding read_argument taking value_option required_value ◌>>=◌ starts_with
    read-cwd = simp (on, valued)

    pub read-image :
        read_argument before "--image" (value ∷ rest) s
        ≡ ok (record s { image_paths = s.image_paths ++ (value ∷ []) }, true)
    unfolding read_argument taking value_option required_value ◌>>=◌ starts_with
    read-image = simp (on, valued)

    pub read-model :
        read_argument before "--model" (value ∷ rest) s ≡ ok (record s { model = some value }, true)
    unfolding read_argument taking value_option required_value ◌>>=◌ starts_with
    read-model = simp (on, valued)

    pub read-effort :
        read_argument before "--effort" (value ∷ rest) s
        ≡ ok (record s { reasoning_effort = some value }, true)
    unfolding read_argument taking value_option required_value ◌>>=◌ starts_with
    read-effort = simp (on, valued)

    pub read-permission :
        read_argument before "--permission-mode" (value ∷ rest) s
        ≡ ok (record s { permission_mode = some value }, true)
    unfolding read_argument taking value_option required_value ◌>>=◌ starts_with
    read-permission = simp (on, valued)

  module _ (rest : List String) (s : Locals) (on : s.options ≡ true) where
    pub read-last :
        read_argument before "--last" rest s ≡ ok (record s { resume_last = true }, false)
    unfolding read_argument taking value_option ◌>>=◌ starts_with plain_argument
    read-last = rw on

    pub read-plan : read_argument before "--plan" rest s ≡ ok (record s { plan = true }, false)
    unfolding read_argument taking value_option ◌>>=◌ starts_with plain_argument
    read-plan = rw on

    pub read-color :
        read_argument before "--no-color" rest s
        ≡ ok (record s { config = record s.config { color = some false } }, false)
    unfolding read_argument taking value_option ◌>>=◌ starts_with plain_argument
    read-color = rw on

    pub read-mark : read_argument before "--" rest s ≡ ok (record s { options = false }, false)
    unfolding read_argument
    read-mark = rw on
