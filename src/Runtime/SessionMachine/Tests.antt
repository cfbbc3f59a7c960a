-- ===== src/Runtime/SessionMachine/Tests.antt =====
-- Runs of the session machine at concrete inputs.
use deepseek_harness_communi.Prelude.{◌≡◌, refl, false, none, some, [], ◌∷◌}
use deepseek_harness_communi.Runtime.SessionMachine.{
  SessionOperation, active, initial, begin, is_current, commit, rollback, fail, resets, begins,
  commits, run,
}
use deepseek_harness_communi.Runtime.SessionMachine.Epochs.{
  IsValid, run-initial-IsValid, superseded_is_inert,
}

abbrev operation : SessionOperation
operation = record { id = 1; epoch = 0; session_id = none }

commit_binds : (commit (begin initial none).0 operation "s1").0.current_binding ≡ active "s1" 1
unfolding commit begin is_current
commit_binds = refl

run-initial-IsValid_example :
    IsValid (run initial (begins none ∷ commits operation "s1" ∷ begins (some "s1") ∷ resets ∷ []))
run-initial-IsValid_example =
    run-initial-IsValid (begins none ∷ commits operation "s1" ∷ begins (some "s1") ∷ resets ∷ [])

superseded_is_inert_example :
    let late = run (begin (begin initial none).0 (some "s1")).0 (resets ∷ []) in
    (commit late (begin initial none).1 "s2" ≡ (late, none))
    × (rollback late (begin initial none).1 ≡ (late, false))
    × (fail late (begin initial none).1 "lost" ≡ (late, false))
superseded_is_inert_example = superseded_is_inert initial none (some "s1") (resets ∷ []) "s2" "lost"
