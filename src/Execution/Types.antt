-- ===== src/Execution/Types.antt =====
-- packages/tui/src/runtime/execution/projection/types.ts: the nodes, states and diagnostics of the
-- projection. A sequence number or a time is a natural number.
use deepseek_harness_communi.Prelude.{ℕ, Bool, Option, String, nat_beq}

pub data ExecutionKind : Type 0 where
  turn : ExecutionKind
  prompt : ExecutionKind
  step : ExecutionKind
  thought : ExecutionKind
  tool : ExecutionKind
  command : ExecutionKind
  vision : ExecutionKind

pub data ExecutionOutcome : Type 0 where
  completed : ExecutionOutcome
  failed : ExecutionOutcome
  interrupted : ExecutionOutcome

pub data BoundarySource : Type 0 where
  event : BoundarySource
  parent : BoundarySource
  snapshot_tail : BoundarySource
  runtime : BoundarySource

pub record ExecutionBoundary : Type 0 where
  pub seq : Option ℕ
  pub time : Option ℕ
  pub source : BoundarySource

pub record ExecutionError : Type 0 where
  pub code : Option String
  pub message : String

pub data ExecutionState : Type 0 where
  -- declared
  pending : Option ExecutionBoundary → ExecutionState
  -- started
  running : ExecutionBoundary → ExecutionState
  -- outcome, started, ended, error
  settled :
      ExecutionOutcome
      → Option ExecutionBoundary
      → ExecutionBoundary
      → Option ExecutionError
      → ExecutionState

pub data Durability : Type 0 where
  durable : Durability
  ephemeral : Durability

pub record ExecutionNode : Type 0 where
  pub key : String
  pub kind : ExecutionKind
  pub parent_key : Option String
  pub state : ExecutionState
  pub durability : Durability

pub data ExecutionDiagnosticCode : Type 0 where
  conflicting_outcome : ExecutionDiagnosticCode
  identity_conflict : ExecutionDiagnosticCode
  missing_parent : ExecutionDiagnosticCode
  missing_start : ExecutionDiagnosticCode
  open_node_idle_tail : ExecutionDiagnosticCode
  terminal_reopened : ExecutionDiagnosticCode
  tool_result_missing : ExecutionDiagnosticCode
  unknown_turn_reason : ExecutionDiagnosticCode

pub record ExecutionDiagnostic : Type 0 where
  pub code : ExecutionDiagnosticCode
  pub message : String
  pub key : Option String
  pub seq : Option ℕ

-- The literals of a union of strings, numbered, so that `===` compares numbers.
abbrev kind_tag : ExecutionKind → ℕ
kind_tag turn = 0
kind_tag prompt = 1
kind_tag step = 2
kind_tag thought = 3
kind_tag tool = 4
kind_tag command = 5
kind_tag vision = 6

abbrev pub kind_beq : ExecutionKind → ExecutionKind → Bool
kind_beq a b = nat_beq (kind_tag a) (kind_tag b)

abbrev outcome_tag : ExecutionOutcome → ℕ
outcome_tag completed = 0
outcome_tag failed = 1
outcome_tag interrupted = 2

abbrev pub outcome_beq : ExecutionOutcome → ExecutionOutcome → Bool
outcome_beq a b = nat_beq (outcome_tag a) (outcome_tag b)

-- The literal of a code, as it stands in the identity of a diagnostic.
abbrev pub code_text : ExecutionDiagnosticCode → String
code_text conflicting_outcome = "conflicting-outcome"
code_text identity_conflict = "identity-conflict"
code_text missing_parent = "missing-parent"
code_text missing_start = "missing-start"
code_text open_node_idle_tail = "open-node-idle-tail"
code_text terminal_reopened = "terminal-reopened"
code_text tool_result_missing = "tool-result-missing"
code_text unknown_turn_reason = "unknown-turn-reason"
