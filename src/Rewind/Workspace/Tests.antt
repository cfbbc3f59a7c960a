-- ===== src/Rewind/Workspace/Tests.antt =====
-- A transaction over a workspace of one file, with a conversation that fails.
use deepseek_harness_communi.Prelude.{◌≡◌, refl, String, [], ◌∷◌, none, some}
use deepseek_harness_communi.Prelude.Result.{ok, err, ◌>>=◌}
use deepseek_harness_communi.Rewind.Contracts.{code_and_conversation, code_only, backward}
use deepseek_harness_communi.Rewind.Effects.{includes_conversation, includes_code}
use deepseek_harness_communi.Rewind.Transaction.{
  RewindPlan, execute, converse, finish, undo, compensated, restores_code,
}
use deepseek_harness_communi.Rewind.Workspace.{
  Files, Environment, write, read_text_state, atomic_replace, read_all, first_changed, apply_from,
  apply_states, restore, local_ports,
}

-- The restore writes the old content of every file; the fork of the conversation fails.
abbrev env : Environment
env = record {
  Rest = Unit {0};
  Failure = String;
  Summary = String;
  inspect = λ path files rest. none;
  refuse = λ path content files rest. (none, rest);
  prepared = λ plan rest.
      ok (record { absolute_path = "/w/a"; expected = some "new"; target = some "old" } ∷ []);
  activate = λ session_id root rest. (ok tt, rest);
  settle = λ session_id rest. (ok tt, rest);
  list = λ session_id rest. (ok [], rest);
  plan = λ session_id point_id rest. (err "no plan", rest);
  commit = λ plan action target rest. (ok tt, rest);
  rewind = λ plan rest. (err "fork failed", rest);
  on_phase = λ phase rest. (ok tt, rest);
}

abbrev plan : RewindPlan
plan = record { plan_id = "p"; point_id = "a"; session_id = "s1"; code_scope = backward }

abbrev files : Files
files path = some "new"

rolled_back :
    (execute (local_ports env) plan code_and_conversation (files, tt)).1.0 "/w/a" ≡ some "new"
unfolding execute converse finish undo compensated restores_code includes_conversation includes_code
    restore apply_states read_all ◌>>=◌ read_text_state first_changed apply_from atomic_replace
    write
rolled_back = refl

code_restored : (execute (local_ports env) plan code_only (files, tt)).1.0 "/w/a" ≡ some "old"
unfolding execute converse finish undo restores_code includes_conversation includes_code restore
    apply_states read_all ◌>>=◌ read_text_state first_changed apply_from atomic_replace write
code_restored = refl
