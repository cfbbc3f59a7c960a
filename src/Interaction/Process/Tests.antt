-- ===== src/Interaction/Process/Tests.antt =====
-- Two approvals and a set of questions, the first of them answered.
use deepseek_harness_communi.Prelude.{◌≡◌, List, [], ◌∷◌}
use deepseek_harness_communi.Interaction.Process.{
  approval, questions, Call, requests, completes, answers, asks_next, initial, run,
}
use deepseek_harness_communi.Interaction.Process.Tidy.{OwnsSurface, run-initial-OwnsSurface}
use deepseek_harness_communi.Interaction.Process.Order.{
  line, run_line, active_key, first?, run-line_first,
}

abbrev calls : List Call
calls =
    requests (record { key = "approval:s:1"; prompt = approval })
    ∷ requests (record { key = "question:s:2"; prompt = questions 2 })
    ∷ requests (record { key = "approval:s:1"; prompt = approval })
    ∷ answers "approval:s:1"
    ∷ completes "approval:s:1"
    ∷ asks_next "question:s:2" 0 2
    ∷ []

run-initial-OwnsSurface_example : OwnsSurface (run initial calls)
run-initial-OwnsSurface_example = run-initial-OwnsSurface calls

run-line_first_example :
    (line (run initial calls) ≡ run_line calls [])
    × (active_key (run initial calls) ≡ first? (run_line calls []))
run-line_first_example = run-line_first calls
