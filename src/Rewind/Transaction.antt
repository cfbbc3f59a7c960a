-- ===== src/Rewind/Transaction.antt =====
-- packages/tui/src/modules/rewind/application/transaction.ts: `RewindTransaction`. The two ports
-- act on a world, which they and `onPhase` may change whether they succeed or fail; the awaited
-- calls of one transaction run one after another.
pub mod Atomicity
mod Tests
use deepseek_harness_communi.Prelude.{
  ◌≡◌, String, Bool, true, false, not, ◌&&◌, List, [], ◌∷◌, Option, none, some, if◌then◌else◌,
}
use deepseek_harness_communi.Prelude.Result.{Result, ok, err}
use deepseek_harness_communi.Rewind.Contracts.{
  RewindAction, code_and_conversation, conversation_only, code_only, RewindCodeScope, backward,
  nothing, forward_unavailable,
}
use deepseek_harness_communi.Rewind.Effects.{includes_conversation, includes_code}

-- The fields of `RewindPlan` that the transaction reads.
pub record RewindPlan : Type 0 where
  pub plan_id : String
  pub point_id : String
  pub session_id : String
  pub code_scope : RewindCodeScope

pub data RewindTransactionPhase : Type 0 where
  forking opening compensating : RewindTransactionPhase

-- What `execute` throws: the error of a port, the two errors that its message joins, or the error of
-- `onPhase` before the compensation, which then does not run.
pub data TransactionError (E : Type 0) : Type 0 where
  thrown : E → TransactionError E
  rewind_and_compensation_failed : E → E → TransactionError E
  commit_and_compensation_failed : E → E → TransactionError E
  phase_failed : E → TransactionError E

-- An asynchronous call: its result or rejection, and the world that it leaves.
abbrev pub Io : Type 0 → Type 0 → Type 0 → Type 0
Io World E A = World → Result E A × World

-- `RewindPort`, `RewindConversationPort` and the `onPhase` callback; `rewind` calls it on its own.
pub record Ports : Type 1 where
  pub World : Type 0
  pub Failure : Type 0
  pub Summary : Type 0
  pub activate : String → String → Io World Failure (Unit {0})
  pub settle : String → Io World Failure (Unit {0})
  pub list : String → Io World Failure (List Summary)
  pub plan : String → String → Io World Failure RewindPlan
  pub restore : RewindPlan → Io World Failure (Io World Failure (Unit {0}))
  pub commit : RewindPlan → RewindAction → Option String → Io World Failure (Unit {0})
  pub rewind : RewindPlan → Io World Failure String
  pub on_phase : RewindTransactionPhase → Io World Failure (Unit {0})

-- `await` with a handler for the result and one for the rejection.
abbrev pub await {ℓ} :
    {World E A : Type 0} {R : Type ℓ} → Result E A × World → (A → World → R) → (E → World → R) → R
await (ok a, w) k rejected = k a w
await (err e, w) k rejected = rejected e w

module _ (ports : Ports) where
  open ports use {World, Failure, Summary}

  abbrev pub Compensation : Type 0
  Compensation = Io World Failure (Unit {0})

  -- `list`: each step stops at the first rejection.
  pub list_points : String → String → Io World Failure (List Summary)
  list_points session_id workspace_root w =
      await (ports.activate session_id workspace_root w)
        (λ _ w1.
          await (ports.settle session_id w1) (λ _ w2. ports.list session_id w2)
            (λ e w2. (err e, w2)))
        (λ e w1. (err e, w1))

  unfoldable pub restores_code : RewindPlan → RewindAction → Bool
  restores_code plan action = includes_code action && is_backward plan.code_scope
    where
      is_backward : RewindCodeScope → Bool
      is_backward backward = true
      is_backward _ = false

  -- `async () => {}`
  pub no_compensation : Compensation
  no_compensation w = (ok tt, w)

  -- The result of the compensation, joined with the error that called for it.
  unfoldable pub compensated :
      (Failure → Failure → TransactionError Failure)
      → Failure
      → Result Failure (Unit {0}) × World
      → Result (TransactionError Failure) String × World
  compensated both error (ok _, w) = (err (thrown error), w)
  compensated both error (err e, w) = (err (both error e), w)

  -- The `catch` blocks of `execute`.
  unfoldable pub undo :
      Bool
      → (Failure → Failure → TransactionError Failure)
      → Compensation
      → Failure
      → World
      → Result (TransactionError Failure) String × World
  unfolding compensated
  undo false both compensate error w = (err (thrown error), w)
  undo true both compensate error w =
      await (ports.on_phase compensating w) (λ _ w'. compensated both error (compensate w'))
        (λ e w'. (err (phase_failed e), w'))

  -- From the commit on, with the session that the conversation continues in.
  unfoldable pub finish :
      RewindPlan
      → RewindAction
      → Compensation
      → String
      → World
      → Result (TransactionError Failure) String × World
  finish plan action compensate target w =
      await
        (ports.commit plan action (if includes_conversation action then some target else none) w)
        (λ _ w'. (ok target, w'))
        (λ error w'.
          undo (restores_code plan action) commit_and_compensation_failed compensate error w')

  -- From the fork of the conversation on.
  unfoldable pub converse :
      RewindPlan
      → RewindAction
      → Compensation
      → World
      → Result (TransactionError Failure) String × World
  converse plan action compensate w =
      if includes_conversation action
      then await (ports.rewind plan w) (λ target w'. finish plan action compensate target w')
          (λ error w'.
            undo (restores_code plan action) rewind_and_compensation_failed compensate error w')
      else finish plan action compensate plan.session_id w

  unfoldable pub execute :
      RewindPlan → RewindAction → World → Result (TransactionError Failure) String × World
  execute plan action w =
      if restores_code plan action
      then await (ports.restore plan w) (λ compensate w'. converse plan action compensate w')
          (λ error w'. (err (thrown error), w'))
      else converse plan action no_compensation w
