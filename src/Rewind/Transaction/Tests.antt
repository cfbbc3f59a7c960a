-- ===== src/Rewind/Transaction/Tests.antt =====
-- A transaction over a world that is the content of one file, with a conversation that fails.
use deepseek_harness_communi.Prelude.{◌≡◌, refl, String, []}
use deepseek_harness_communi.Prelude.Result.{ok, err}
use deepseek_harness_communi.Rewind.Contracts.{code_and_conversation, code_only, backward}
use deepseek_harness_communi.Rewind.Effects.{includes_conversation, includes_code}
use deepseek_harness_communi.Rewind.Transaction.{
  RewindPlan, Ports, thrown, phase_failed, execute, converse, finish, undo, restores_code,
}

-- `restore` writes the old content, its compensation puts the new one back, the fork fails.
abbrev ports : Ports
ports = record {
  World = String;
  Failure = String;
  Summary = String;
  activate = λ session_id root w. (ok tt, w);
  settle = λ session_id w. (ok tt, w);
  list = λ session_id w. (ok [], w);
  plan = λ session_id point_id w. (err "no plan", w);
  restore = λ plan w. (ok (λ _. (ok tt, w)), "old");
  commit = λ plan action target w. (ok tt, w);
  rewind = λ plan w. (err "fork failed", w);
  on_phase = λ phase w. (ok tt, w);
}

abbrev plan : RewindPlan
plan = record { plan_id = "p"; point_id = "a"; session_id = "s1"; code_scope = backward }

rolled_back : execute ports plan code_and_conversation "new" ≡ (err (thrown "fork failed"), "new")
unfolding execute converse finish undo restores_code includes_conversation includes_code
rolled_back = refl

code_restored : execute ports plan code_only "new" ≡ (ok "s1", "old")
unfolding execute converse finish undo restores_code includes_conversation includes_code
code_restored = refl

-- A callback that throws before the compensation: the old content stays.
abbrev throwing : Ports
throwing = record ports { on_phase = λ phase w. (err "no phase", w) }

not_compensated :
    execute throwing plan code_and_conversation "new" ≡ (err (phase_failed "no phase"), "old")
unfolding execute converse finish undo restores_code includes_conversation includes_code
not_compensated = refl
