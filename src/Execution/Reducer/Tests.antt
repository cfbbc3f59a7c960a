-- ===== src/Execution/Reducer/Tests.antt =====
-- A turn with one tool call, declared, started and settled.
use Prim.Native.String.{◌++◌ as text_append}
use deepseek_harness_communi.Prelude.{
  ℕ, zero, suc, string_eq, ◌≡◌, refl, none, some, List, [], ◌∷◌, String,
}
use deepseek_harness_communi.Prelude.Table.{lookup, insert}
use deepseek_harness_communi.Execution.Types.{
  ExecutionBoundary, ExecutionNode, event, turn, tool, completed, durable, settled,
}
use deepseek_harness_communi.Execution.Reducer.{
  Call, step, start, settle, declare, add, diagnose_missing_parent, same_identity, set_state, close,
  diagnose, starts, settles, declares, run, empty, member, open_nodes, open_children, result,
}
use deepseek_harness_communi.Execution.Reducer.Open.{IsValid, is_open, is_open_child}
use deepseek_harness_communi.Execution.Reducer.Indices.{run-empty-IsValid}
use deepseek_harness_communi.Execution.Reducer.Arrival.{call_keys, first_arrivals}
use deepseek_harness_communi.Execution.Reducer.Views.{keys, open_nodes-run, result-run}
use deepseek_harness_communi.Execution.Reducer.Terminal.{Follows, run-Follows}
use deepseek_harness_communi.Execution.Reducer.Diagnostics.{IsReported, run-empty-IsReported}

-- A number in unary.
abbrev number_text : ℕ → String
number_text zero = ""
number_text (suc n) = text_append "1" (number_text n)

abbrev at : ℕ → ExecutionBoundary
at n = record { seq = some n; time = none; source = event }

abbrev calls : List Call
calls =
    starts "turn:1" turn none (at 1) durable
    ∷ declares "tool:1" tool (some "turn:1") (some (at 2)) durable
    ∷ starts "tool:1" tool (some "turn:1") (at 3) durable
    ∷ settles "tool:1" tool (some "turn:1") completed (at 4) none
    ∷ starts "tool:1" tool (some "turn:1") (at 5) durable
    ∷ []

abbrev finished : ExecutionNode
finished = record {
  key = "tool:1";
  kind = tool;
  parent_key = some "turn:1";
  state = settled completed (some (at 3)) (at 4) none;
  durability = durable;
}

tool_found : lookup "tool:1" (run number_text empty calls).nodes ≡ some finished
unfolding lookup run step start settle declare add insert diagnose_missing_parent same_identity
    set_state close diagnose
tool_found = refl

run-empty-IsValid_example : IsValid (run number_text empty calls)
run-empty-IsValid_example = run-empty-IsValid number_text calls

run-empty-IsReported_example : IsReported number_text (run number_text empty calls)
run-empty-IsReported_example = run-empty-IsReported number_text calls

open_nodes-run_example :
    let r = run number_text empty calls in
    (member "turn:1" (keys (open_nodes r)) ≡ is_open (lookup "turn:1" r.nodes))
    × (member "turn:1" (keys (open_children r "turn:1"))
        ≡ is_open_child "turn:1" (lookup "turn:1" r.nodes))
open_nodes-run_example = open_nodes-run number_text calls "turn:1" "turn:1"

result-run_example :
    keys (result (run number_text empty calls)).0 ≡ first_arrivals (call_keys calls)
result-run_example = result-run number_text calls

run-Follows_example :
    (later : ExecutionNode) × (lookup "tool:1"
        (run number_text (run number_text empty calls) calls).nodes
      ≡ some later)
    × Follows finished later
run-Follows_example =
    run-Follows number_text (run number_text empty calls) calls "tool:1" finished tool_found
