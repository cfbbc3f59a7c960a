-- ===== src/Runtime/Submission/Tests.antt =====
-- A prompt that is queued, consumed into its turn and then shown in the conversation.
use deepseek_harness_communi.Prelude.{true, none, some, List, [], ◌∷◌}
use deepseek_harness_communi.Runtime.Submission.{
  queue_mode, steer_mode, queued, turn_end, user_message, initial, Call, starts, hands_off,
  observes_events, run,
}
use deepseek_harness_communi.Runtime.Submission.Keys.{IsOrdered, run-initial-IsOrdered}

abbrev calls : List Call
calls =
    starts "first" queue_mode true "r1"
    ∷ starts "second" steer_mode true "r2"
    ∷ hands_off
        (record {
          id = "m1";
          placement = queued;
          rpc_id = some "r1";
          message_id = "m1";
          text = "first";
          local_echo = true;
        }
          ∷ [])
        (some 1) 5
    ∷ observes_events (user_message true "m1" none ∷ turn_end 9 1 ∷ [])
    ∷ []

run-initial-IsOrdered_example : IsOrdered (run initial calls)
run-initial-IsOrdered_example = run-initial-IsOrdered calls
