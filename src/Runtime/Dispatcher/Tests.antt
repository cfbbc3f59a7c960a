-- ===== src/Runtime/Dispatcher/Tests.antt =====
-- The composer's action, which a second feature also tries to register.
use deepseek_harness_communi.Prelude.{ℕ, ◌≡◌, refl, Bool, true, [], ◌∷◌, String, string_eq}
use deepseek_harness_communi.Prelude.Table.{lookup, insert}
use deepseek_harness_communi.Prelude.Result.{err}
use deepseek_harness_communi.Runtime.Dispatcher.{
  ActionDispatcher, no_handlers, already_owned, register, dispatch, register_all,
}
use deepseek_harness_communi.Runtime.Dispatcher.Ownership.{register-register_all}

abbrev answer : ℕ → String → Bool
answer handle action = true

abbrev registered : ActionDispatcher
registered = record { handlers = ("app.send", record { owner = "composer"; handle = 4 }) ∷ [] }

register-register_all_example :
    let later = register_all registered (("task", "app.send", 8) ∷ []) in
    (register later "usage" "app.send" 9 ≡ err (already_owned "app.send" "composer" "usage"))
    × (dispatch answer later "app.send" ≡ true)
register-register_all_example =
    register-register_all no_handlers registered "composer" "usage" "app.send" 4 9
      (("task", "app.send", 8) ∷ []) answer (unfold register lookup insert in refl)
