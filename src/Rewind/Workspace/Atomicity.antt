-- ===== src/Rewind/Workspace/Atomicity.antt =====
-- What a failed transaction leaves behind in the local workspace.
use deepseek_harness_communi.Prelude.{String}
use deepseek_harness_communi.Prelude.Result.{Result}
use deepseek_harness_communi.Rewind.Transaction.{TransactionError}
use deepseek_harness_communi.Rewind.Transaction.Atomicity.{Undone}
use deepseek_harness_communi.Rewind.Workspace.{
  Files, WorkspaceError, Environment, World, local_ports,
}
use deepseek_harness_communi.Rewind.Workspace.Laws.{SaysBroken, local_ports-FileLaws}

-- A transaction that throws one error has the files `before`, or the error is that of a rollback that
-- failed; the other errors say that the compensation failed, or are thrown by the callback.
abbrev pub IsUndone :
    (env : Environment)
    → Files
    → Result (TransactionError (WorkspaceError env.Failure)) String × World env
    → Type 0
IsUndone env before outcome =
    Undone (local_ports env) Files (λ w. w.0) SaysBroken (local_ports-FileLaws env) before outcome
