-- ===== src/Rewind/Repository/Lock/Tests.antt =====
-- Steps of operations that share a lock file.
use deepseek_harness_communi.Prelude.{◌≡◌, ◌≤◌, refl, true, false, List, [], ◌∷◌, length}
use deepseek_harness_communi.Rewind.Repository.Lock.{
  Step, create, inspect, remove_stale, crash, perform, unlocked, run,
}
use deepseek_harness_communi.Rewind.Repository.Lock.Exclusive.{AreFair, run-unlocked-holders}

-- The first process ends without a release; the second waits for the file to be stale, and removes it.
abbrev recovery : List Step
recovery =
    create 1 0
    ∷ inspect 2 10 true
    ∷ crash 1
    ∷ inspect 2 40000 false
    ∷ remove_stale 2
    ∷ create 2 40000
    ∷ create 3 40001
    ∷ []

-- Two operations inspect the stale file. The second removes the file that the first has created since.
abbrev late_removal : List Step
late_removal =
    create 1 0
    ∷ crash 1
    ∷ inspect 2 40000 false
    ∷ inspect 3 40000 false
    ∷ remove_stale 2
    ∷ create 2 40001
    ∷ remove_stale 3
    ∷ create 3 40002
    ∷ []

recovered : (run recovery unlocked).holders ≡ 2 ∷ []
unfolding run perform
recovered = refl

two_holders : (run late_removal unlocked).holders ≡ 3 ∷ 2 ∷ []
unfolding run perform
two_holders = refl

recovery-AreFair : AreFair recovery unlocked
unfolding perform
recovery-AreFair = (tt, (λ e. e, (tt, (λ e. e, (λ e. e, (tt, (tt, tt)))))))

run-unlocked-holders_example : length (run recovery unlocked).holders ≤ 1
run-unlocked-holders_example = run-unlocked-holders recovery recovery-AreFair
