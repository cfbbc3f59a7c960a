-- ===== src/Runtime/SessionMachine.antt =====
-- packages/tui/src/runtime/lifecycle/session-machine.ts: the machine that serializes the
-- replacement of the bound Session. `undefined` is `none`; a method returns the new machine and
-- its result.
pub mod Epochs
mod Tests
use deepseek_harness_communi.Prelude.{
  ℕ, suc, ◌+◌, ◌≡◌, refl, Bool, true, false, ◌&&◌, Option, none, some, List, [], ◌∷◌, String,
  if◌then◌else◌, ◌==◌, nat_eq, string_eq, option_eq, arith,
}
use mathlib.Core.Option

pub record SessionOperation : Type 0 where
  pub id : ℕ
  pub epoch : ℕ
  pub session_id : Option String

pub data SessionBindingState : Type 0 where
  unbound : SessionBindingState
  -- operation, previous session, epoch
  preparing : ℕ → Option String → ℕ → SessionBindingState
  active : String → ℕ → SessionBindingState
  failed : String → ℕ → SessionBindingState

pub record SessionMachine : Type 0 where
  pub operation_id : ℕ
  pub current_epoch : ℕ
  pub pending : Option SessionOperation
  pub active_session_id : Option String
  pub current_binding : SessionBindingState

abbrev pub initial : SessionMachine
initial = record {
  operation_id = 0;
  current_epoch = 0;
  pending = none;
  active_session_id = none;
  current_binding = unbound;
}

pub reset : SessionMachine → SessionMachine
reset m = record m {
  pending = none;
  active_session_id = none;
  current_epoch = m.current_epoch + 1;
  current_binding = unbound;
}

pub begin : SessionMachine → Option String → SessionMachine × SessionOperation
begin m session_id = (
  record m {
    operation_id = operation.id;
    pending = some operation;
    current_binding = preparing operation.id session_id operation.epoch;
  },
  operation,
)
  where
    operation : SessionOperation
    operation = record { id = m.operation_id + 1; epoch = m.current_epoch; session_id = session_id }

-- `operation.id === this.pending?.id`
pub is_current : SessionMachine → SessionOperation → Bool
is_current m operation = some operation.id == Option.map (λ (p : SessionOperation). p.id) m.pending

pub commit : SessionMachine → SessionOperation → String → SessionMachine × Option ℕ
commit m operation session_id =
    if is_current m operation
    then (
      record m {
        pending = none;
        current_epoch = m.current_epoch + 1;
        active_session_id = some session_id;
        current_binding = active session_id (m.current_epoch + 1);
      },
      some (m.current_epoch + 1),
    )
    else (m, none)

-- The binding that `rollback` and `fail` leave: the previous session, or `otherwise` without one.
pub restored : ℕ → Option String → SessionBindingState → SessionBindingState
restored epoch none otherwise = otherwise
restored epoch (some session_id) otherwise = active session_id epoch

pub rollback : SessionMachine → SessionOperation → SessionMachine × Bool
unfolding restored
rollback m operation =
    if is_current m operation
    then (
      record m {
        pending = none;
        active_session_id = operation.session_id;
        current_binding = restored m.current_epoch operation.session_id unbound;
      },
      true,
    )
    else (m, false)

pub fail : SessionMachine → SessionOperation → String → SessionMachine × Bool
unfolding restored
fail m operation message =
    if is_current m operation
    then (
      record m {
        pending = none;
        active_session_id = operation.session_id;
        current_binding =
            restored m.current_epoch operation.session_id (failed message m.current_epoch);
      },
      true,
    )
    else (m, false)

pub owns : SessionMachine → ℕ → String → Bool
owns m epoch session_id = epoch == m.current_epoch && some session_id == m.active_session_id

-- One call of a method, with the arguments that its caller chooses.
pub data Call : Type 0 where
  resets : Call
  begins : Option String → Call
  commits : SessionOperation → String → Call
  rolls_back : SessionOperation → Call
  fails : SessionOperation → String → Call

pub step : SessionMachine → Call → SessionMachine
unfolding reset begin commit rollback fail
step m resets = reset m
step m (begins session_id) = (begin m session_id).0
step m (commits operation session_id) = (commit m operation session_id).0
step m (rolls_back operation) = (rollback m operation).0
step m (fails operation message) = (fail m operation message).0

pub run : SessionMachine → List Call → SessionMachine
run m [] = m
run m (c ∷ cs) = run (step m c) cs
