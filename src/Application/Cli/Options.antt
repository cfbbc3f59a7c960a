-- ===== src/Application/Cli/Options.antt =====
-- packages/tui/src/application/cli.ts: reading one option. A `for` loop over the arguments is a
-- recursion on the rest of the list that counts the index; a body that moves the index on past the
-- value of an option says so by a Boolean.
use Prim.Native.Char.{code}
use Prim.Native.String.{◌++◌ as text_append}
use deepseek_harness_communi.Prelude.{
  ℕ, suc, ◌+◌, Bool, true, false, not, ◌&&◌, ◌||◌, Option, none, some, is_some, List, [], ◌∷◌,
  String, if◌then◌else◌, any, find, nat_beq, ◌==◌, string_eq, nat_eq, option_eq,
}
use deepseek_harness_communi.Prelude.Result.{Result, ok, err, ◌>>=◌}
use deepseek_harness_communi.Prelude.Text.{starts_with, slice_from, text_length}
use deepseek_harness_communi.Application.Cli.Command.{
  Command, CliUsageError, unknown_option, requires_value, unknown_topic, options, help_topics,
  command_of, help,
}
use deepseek_harness_communi.Application.Cli.Distance.{closest}

abbrev is_equals : ℕ → Bool
is_equals c = nat_beq c 61

-- What `.` does not match.
abbrev is_line_end : ℕ → Bool
is_line_end c = nat_beq c 10 || nat_beq c 13 || nat_beq c 0x2028 || nat_beq c 0x2029

-- The rest of the text from the end of the line on.
drop_line : String → String
drop_line String.[] = String.[]
drop_line (String.◌∷◌ c s) = if is_line_end (code c) then String.◌∷◌ c s else drop_line s

-- `option.replace(/=.*/u, '')`
unfoldable pub without_value : String → String
unfolding drop_line
without_value String.[] = String.[]
without_value (String.◌∷◌ c s) =
    if is_equals (code c) then drop_line s else String.◌∷◌ c (without_value s)

module _ (before : String → String → Bool) where
  abbrev unless_same : String → Option String → Option String
  unless_same normalized none = none
  unless_same normalized (some candidate) = if candidate == normalized then none else some candidate

  -- `unknownOption`, the error that it throws.
  unfoldable pub unknown_option_error : String → CliUsageError
  unknown_option_error option =
      let normalized = without_value option in
      unknown_option option (unless_same normalized (closest before normalized options))

  unfoldable pub help_topic : String → Result CliUsageError Command
  help_topic value = elim (command_of value) [
    | none ↦ err (unknown_topic value (closest before value help_topics))
    | some topic ↦ elim topic [
      | help ↦ err (unknown_topic value (closest before value help_topics))
      | topic' ↦ ok topic'
    ]
  ]

-- Whether a text can be the value of an option in an argument of its own.
abbrev pub is_value : String → Bool
is_value value = not (value == "" || starts_with value "-")

unfoldable pub required_value : List String → String → Result CliUsageError String
required_value [] option = err (requires_value option)
required_value (value ∷ rest) option =
    if is_value value then ok value else err (requires_value option)

-- The value, and whether it is the next argument.
pub record OptionValue : Type 0 where
  pub value : String
  pub takes_next : Bool

abbrev pub last_name : String → List String → String
last_name otherwise [] = otherwise
last_name otherwise (name ∷ names) = last_name name names

-- `name.startsWith('--') && argument.startsWith(`${name}=`)`
abbrev pub has_inline : String → String → Bool
has_inline argument name = starts_with name "--" && starts_with argument (text_append name "=")

abbrev inline_value : String → Option String → Result CliUsageError (Option OptionValue)
inline_value argument none = ok none
inline_value argument (some name) =
    let value = slice_from (text_length name + 1) argument in
    if value == ""
    then err (requires_value name)
    else ok (some (record { value = value; takes_next = false }))

-- `valueOption` at an argument and those after it.
unfoldable pub value_option :
    String → List String → List String → Result CliUsageError (Option OptionValue)
value_option argument rest names =
    if any (λ name. name == argument) names
    then (required_value rest (last_name argument names) >>= λ value.
        ok (some (record { value = value; takes_next = true })))
    else inline_value argument (find (has_inline argument) names)

-- The loops of `helpFlagPresent` and `parseVersion`: the first of the flags before `--`.
unfoldable pub flag_before_end : List String → List String → Option String
flag_before_end flags [] = none
flag_before_end flags (argument ∷ rest) =
    if argument == "--"
    then none
    else if any (λ flag. flag == argument) flags
    then some argument
    else flag_before_end flags rest

unfoldable pub help_flag_present : List String → Bool
help_flag_present args = is_some (flag_before_end ("-h" ∷ "--help" ∷ []) args)

-- `leadingCommand` from the argument at `index` on, which is the value of an option if `skip`.
unfoldable pub leading_from : ℕ → Bool → List String → Result CliUsageError (Option (Command × ℕ))
leading_from index skip [] = ok none
leading_from index true (argument ∷ rest) = leading_from (suc index) false rest
leading_from index false (argument ∷ rest) =
    if argument == "--"
    then ok none
    else value_option argument rest ("--patch" ∷ []) >>= λ patch. elim patch [
      | some p ↦ leading_from (suc index) p.takes_next rest
      | none ↦ elim (command_of argument) [
        | some command ↦ ok (some (command, index))
        | none ↦ ok none
      ]
    ]

unfoldable pub leading_command : List String → Result CliUsageError (Option (Command × ℕ))
leading_command args = leading_from 0 false args

-- `for (let index = 0; …)` with `if (index === commandIndex) continue`: the body has an argument, those
-- after it and the local variables, and says whether the index moves on by one more.
module _ {S : Type 0} (body : String → List String → S → Result CliUsageError (S × Bool)) where
  unfoldable pub for_args : Option ℕ → ℕ → Bool → List String → S → Result CliUsageError S
  for_args command_index index skip [] s = ok s
  for_args command_index index skip (argument ∷ rest) s =
      (if skip || some index == command_index then ok (s, false) else body argument rest s)
      >>= λ next. for_args command_index (suc index) next.1 rest next.0
