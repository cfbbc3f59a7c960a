-- ===== src/Runtime/Dispatcher/Ownership.antt =====
-- An action keeps its first owner.
use deepseek_harness_communi.Prelude.{
  ℕ, ◌≡◌, Bool, inl, inr, some, List, [], ◌∷◌, String, string_eq, ==_iff, ==_refl, arith,
  Option-cases,
}
use deepseek_harness_communi.Prelude.Table.{lookup, insert, lookup-insert}
use deepseek_harness_communi.Prelude.Result.{ok, err}
use deepseek_harness_communi.Runtime.Dispatcher.{
  OwnedHandler, ActionDispatcher, already_owned, register, dispatch, register_all,
}

register_all-taken :
    (d : ActionDispatcher) (rest : List (String × String × ℕ)) (action : String)
    (route : OwnedHandler)
    → lookup action d.handlers ≡ some route
    → lookup action (register_all d rest).handlers ≡ some route
unfolding register_all
register_all-taken d [] action route h = h
register_all-taken d ((owner, other, handle) ∷ rest) action route h =
    elim (Option-cases (lookup other d.handlers)) [
      | inr (existing, taken) ↦
          let refused : register d owner other handle
              ≡ err (already_owned other existing.owner owner) =
            unfold register in rw (taken, register) in
          rw (refused, register_all) (register_all-taken d rest action route h)
      | inl free ↦
          let next : ActionDispatcher = record {
            handlers = insert other (record { owner = owner; handle = handle }) d.handlers;
          } in
          let taken : register d owner other handle ≡ ok next =
            unfold register in rw (free, register) in
          let kept : lookup action next.handlers ≡ some route = ground (
            arith,
            h,
            free,
            ==_iff other action,
            lookup-insert other action (record { owner = owner; handle = handle }) d.handlers,
          ) in
          rw (taken, register_all) (register_all-taken next rest action route kept)
    ]

lookup-register :
    (d next : ActionDispatcher) (owner action : String) (handle : ℕ)
    → register d owner action handle ≡ ok next
    → lookup action next.handlers ≡ some (record { owner = owner; handle = handle })
unfolding register
lookup-register d next owner action handle h = ground (
  arith,
  h,
  ==_refl action,
  lookup-insert action action (record { owner = owner; handle = handle }) d.handlers,
)

register-taken :
    (d : ActionDispatcher) (owner action : String) (handle : ℕ) (route : OwnedHandler)
    → lookup action d.handlers ≡ some route
    → register d owner action handle ≡ err (already_owned action route.owner owner)
unfolding register
register-taken d owner action handle route h = rw (h, register)

dispatch-taken :
    (answer : ℕ → String → Bool) (d : ActionDispatcher) (action : String) (route : OwnedHandler)
    → lookup action d.handlers ≡ some route
    → dispatch answer d action ≡ answer route.handle action
unfolding dispatch
dispatch-taken answer d action route h = rw (h, dispatch)

-- An action that an owner registered first stays his, whoever registers after: a later registration
-- of it is refused with the owner's name, and its dispatch asks his handler.
pub register-register_all :
    (d next : ActionDispatcher) (owner other action : String) (handle late : ℕ)
    (rest : List (String × String × ℕ)) (answer : ℕ → String → Bool)
    → register d owner action handle ≡ ok next
    → let later = register_all next rest in
      (register later other action late ≡ err (already_owned action owner other))
      × (dispatch answer later action ≡ answer handle action)
register-register_all d next owner other action handle late rest answer h =
    let found =
      register_all-taken next rest action (record { owner = owner; handle = handle }) registered in
    (
      register-taken (register_all next rest) other action late _ found,
      dispatch-taken answer (register_all next rest) action _ found,
    )
  where
    registered : lookup action next.handlers ≡ some (record { owner = owner; handle = handle })
    registered = lookup-register d next owner action handle h
