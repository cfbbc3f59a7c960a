-- ===== src/Runtime/LifecycleScope/Tests.antt =====
-- A scope with three cleanups, of which the second is released and the last one throws.
use deepseek_harness_communi.Prelude.{
  ◌<◌, ◌≡◌, refl, true, false, not, some, none, is_some, List, [], ◌∷◌, length, map, arith,
}
use deepseek_harness_communi.Runtime.LifecycleScope.{
  external, new_scope, has_key, Operation, registers, forks, releases, disposes, runs, perform,
  perform_all, register, release_ownership, fork, dispose, begin_release, release_next,
  release_round,
}
use deepseek_harness_communi.Runtime.LifecycleScope.Order.{IsAscending, called-IsAscending}
use deepseek_harness_communi.Runtime.LifecycleScope.Settled.{settled-called}
use deepseek_harness_communi.Runtime.LifecycleScope.Accounts.{waiting}
use deepseek_harness_communi.Runtime.LifecycleScope.Rounds.{dispose-settles}

abbrev opened : List Operation
opened = registers (external 7) ∷ forks "child" ∷ registers (external 9) ∷ releases 1 ∷ []

abbrev history : List Operation
history =
    registers (external 7)
    ∷ forks "child"
    ∷ registers (external 9)
    ∷ releases 1
    ∷ disposes
    ∷ runs true
    ∷ registers (external 4)
    ∷ disposes
    ∷ runs false
    ∷ runs false
    ∷ []

outcome_of_history : (perform_all history (new_scope "app" none)).outcome ≡ some (2 ∷ [])
unfolding perform_all perform release_next release_round dispose begin_release register fork
    new_scope release_ownership
outcome_of_history = refl

history_settled : is_some (perform_all history (new_scope "app" none)).outcome ≡ true
unfolding perform_all perform release_next release_round dispose begin_release register fork
    new_scope release_ownership
history_settled = refl

second_made : 1 < length (perform_all history (new_scope "app" none)).made
unfolding perform_all perform release_next release_round dispose begin_release register fork
    new_scope release_ownership
second_made = omega arith

two_wait :
    let s = perform_all opened (new_scope "app" none) in length (waiting s.cleanups s.releasing) < 3
unfolding perform_all perform release_next release_round dispose begin_release register fork
    new_scope release_ownership
two_wait = omega arith

called-IsAscending_example : IsAscending (perform_all history (new_scope "app" none)).called
called-IsAscending_example = called-IsAscending "app" none history

settled-called_example :
    let s = perform_all history (new_scope "app" none) in
    has_key s.called 1 ≡ not (has_key s.released 1)
settled-called_example = settled-called "app" none history history_settled 1 second_made

dispose-settles_example :
    is_some
      (perform_all
        (map runs (true ∷ false ∷ false ∷ []))
        (dispose (perform_all opened (new_scope "app" none)))).outcome
    ≡ true
dispose-settles_example = dispose-settles "app" none opened (true ∷ false ∷ false ∷ []) two_wait
