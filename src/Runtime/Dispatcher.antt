-- ===== src/Runtime/Dispatcher.antt =====
-- packages/tui/src/runtime/dispatch/dispatcher.ts: `ActionDispatcher`. A handler is known by a
-- number; what it does is the caller's, so `dispatch` takes the handlers' answers as a function
-- (`false`, or anything else).
pub mod Ownership
mod Tests
use deepseek_harness_communi.Prelude.{
  ℕ, Bool, true, false, Option, none, some, List, [], ◌∷◌, String, string_eq,
}
use deepseek_harness_communi.Prelude.Table.{lookup, insert}
use deepseek_harness_communi.Prelude.Result.{Result, ok, err}

pub record OwnedHandler : Type 0 where
  pub owner : String
  pub handle : ℕ

pub record ActionDispatcher : Type 0 where
  pub handlers : List (String × OwnedHandler)

abbrev pub no_handlers : ActionDispatcher
no_handlers = record { handlers = [] }

-- The action, its owner and the owner that cannot register it.
pub data DispatchError : Type 0 where
  already_owned : String → String → String → DispatchError

unfoldable pub register :
    ActionDispatcher → String → String → ℕ → Result DispatchError ActionDispatcher
register d owner action handle = elim (lookup action d.handlers) [
  | some existing ↦ err (already_owned action existing.owner owner)
  | none ↦
      ok
        (record { handlers = insert action (record { owner = owner; handle = handle }) d.handlers })
]

unfoldable pub dispatch : (ℕ → String → Bool) → ActionDispatcher → String → Bool
dispatch answer d action = elim (lookup action d.handlers) [
  | none ↦ false
  | some route ↦ answer route.handle action
]

unfoldable pub owner_of : ActionDispatcher → String → Option String
owner_of d action = elim (lookup action d.handlers) [ none ↦ none | some route ↦ some route.owner ]

-- The registrations of owner, action and handler, of which the refused ones change nothing.
unfoldable pub register_all : ActionDispatcher → List (String × String × ℕ) → ActionDispatcher
register_all d [] = d
register_all d ((owner, action, handle) ∷ rest) = elim (register d owner action handle) [
  | ok next ↦ register_all next rest
  | err e ↦ register_all d rest
]
