-- ===== src/Rewind/Transaction/Atomicity.antt =====
-- What a failed transaction leaves behind.
use deepseek_harness_communi.Prelude.{
  ◌≡◌, ◌∙◌, refl, sym, ap, String, Bool, true, false, Option, if◌then◌else◌, ◌⊎◌, inl,
}
use deepseek_harness_communi.Prelude.Result.{Result, ok, err}
use deepseek_harness_communi.Rewind.Contracts.{RewindAction}
use deepseek_harness_communi.Rewind.Effects.{includes_conversation}
use deepseek_harness_communi.Rewind.Transaction.{
  RewindPlan, compensating, TransactionError, thrown, rewind_and_compensation_failed,
  commit_and_compensation_failed, phase_failed, Ports, restores_code, no_compensation, compensated,
  await, undo, finish, converse, execute,
}

-- What the transaction relies on, for the files of the workspace in the world: a rejected restore
-- has undone its own writes, or its error is one that says that it could not, the compensation of a restore that succeeded brings back the files
-- from before it, and the conversation, the journal commit and the callback write no file.
-- Rewind/Workspace/Restores has it for the local workspace.
pub record FileLaws (ports : Ports) (Files : Type 0) (files : ports.World → Files)
    (SaysBroken : ports.Failure → Type 0) : Type 0 where
  pub restore_err :
      (plan : RewindPlan) (w w' : ports.World) (e : ports.Failure)
      → ports.restore plan w ≡ (err e, w')
      → (files w' ≡ files w) ⊎ SaysBroken e
  pub compensation :
      (plan : RewindPlan) (w w1 w2 w3 : ports.World)
      (c : ports.World → Result ports.Failure (Unit {0}) × ports.World)
      → ports.restore plan w ≡ (ok c, w1)
      → files w2 ≡ files w1
      → c w2 ≡ (ok tt, w3)
      → files w3 ≡ files w
  pub rewind_files : (plan : RewindPlan) (w : ports.World) → files (ports.rewind plan w).1 ≡ files w
  pub commit_files :
      (plan : RewindPlan) (action : RewindAction) (target : Option String) (w : ports.World)
      → files (ports.commit plan action target w).1 ≡ files w
  pub on_phase_files : (w : ports.World) → files (ports.on_phase compensating w).1 ≡ files w

module _ (ports : Ports) (Files : Type 0) (files : ports.World → Files)
    (SaysBroken : ports.Failure → Type 0) (laws : FileLaws ports Files files SaysBroken) where
  open ports use {World, Failure}

  -- A compensation that succeeds on the files `now` brings back the files `before`.
  abbrev Restores : Files → Files → (World → Result Failure (Unit {0}) × World) → Type 0
  Restores now before c = (w w' : World) → files w ≡ now → c w ≡ (ok tt, w') → files w' ≡ before

  -- A transaction that throws the error of a port alone has the files `before`, or the error is one
  -- that says that they are not.
  abbrev pub Undone : Files → Result (TransactionError Failure) String × World → Type 0
  Undone before (ok target, w) = Unit
  Undone before (err (thrown e), w) = (files w ≡ before) ⊎ SaysBroken e
  Undone before (err (rewind_and_compensation_failed e c), w) = Unit
  Undone before (err (commit_and_compensation_failed e c), w) = Unit
  Undone before (err (phase_failed e), w) = Unit

  await-Undone :
      {A : Type 0} (before : Files) (m : Result Failure A × World)
      (k : A → World → Result (TransactionError Failure) String × World)
      (h : Failure → World → Result (TransactionError Failure) String × World)
      → ((a : A) (w : World) → m ≡ (ok a, w) → Undone before (k a w))
      → ((e : Failure) (w : World) → m ≡ (err e, w) → Undone before (h e w))
      → Undone before (await m k h)
  await-Undone before (ok a, w) k h good bad = good a w refl
  await-Undone before (err e, w) k h good bad = bad e w refl

  if-Undone :
      (before : Files) (b : Bool) (x y : Result (TransactionError Failure) String × World)
      → (b ≡ true → Undone before x)
      → (b ≡ false → Undone before y)
      → Undone before (if b then x else y)
  if-Undone before true x y h k = h refl
  if-Undone before false x y h k = k refl

  compensated-Undone :
      (before : Files) (both : Failure → Failure → TransactionError Failure) (error : Failure)
      (r : Result Failure (Unit {0}) × World)
      → ((x y : Failure) (w : World) → Undone before (err (both x y), w))
      → ((w : World) → r ≡ (ok tt, w) → files w ≡ before)
      → Undone before (compensated ports both error r)
  unfolding compensated
  compensated-Undone before both error (ok tt, w) joined h = inl (h w refl)
  compensated-Undone before both error (err e, w) joined h = joined error e w

  undo-Undone :
      (b : Bool) (both : Failure → Failure → TransactionError Failure)
      (c : World → Result Failure (Unit {0}) × World) (error : Failure) (now before : Files)
      (w : World)
      → ((x y : Failure) (u : World) → Undone before (err (both x y), u))
      → (b ≡ false → now ≡ before)
      → Restores now before c
      → files w ≡ now
      → Undone before (undo ports b both c error w)
  unfolding undo
  undo-Undone false both c error now before w joined same restores h = inl (h ∙ same refl)
  undo-Undone true both c error now before w joined same restores h =
      await-Undone before (ports.on_phase compensating w) _ _
        (λ _ w1 called.
          compensated-Undone before both error (c w1) joined (λ w' e.
            restores w1 w' (ap (λ r. files r.1) (sym called) ∙ laws.on_phase_files w ∙ h) e))
        (λ _ _ _. tt)

  true-ne-false : ¬ (true ≡ false)
  true-ne-false e = cc

  no_compensation-files : (before : Files) → Restores before before (no_compensation ports)
  unfolding no_compensation
  no_compensation-files before w w' h e =
      let same : w ≡ w' = ap (λ (r : Result Failure (Unit {0}) × World). r.1) e in
      ap files (sym same) ∙ h

  module _ (plan : RewindPlan) (action : RewindAction)
      (c : World → Result Failure (Unit {0}) × World) (now before : Files)
      (same : restores_code ports plan action ≡ false → now ≡ before)
      (restores : Restores now before c) where
    finish-Undone :
        (target : String) (w : World)
        → files w ≡ now
        → Undone before (finish ports plan action c target w)
    unfolding finish
    finish-Undone target w h =
        await-Undone before (ports.commit plan action _ w) _ _ (λ _ _ _. tt)
          λ e w' failed.
            undo-Undone (restores_code ports plan action) commit_and_compensation_failed c e now
              before w' (λ _ _ _. tt) same restores
              (ap (λ r. files r.1) (sym failed) ∙ laws.commit_files plan action _ w ∙ h)

    converse-Undone : (w : World) → files w ≡ now → Undone before (converse ports plan action c w)
    unfolding converse
    converse-Undone w h =
        if-Undone before (includes_conversation action) _ _
          (λ _.
            await-Undone before (ports.rewind plan w) _ _
              (λ target w' done.
                finish-Undone target w'
                  (ap (λ r. files r.1) (sym done) ∙ laws.rewind_files plan w ∙ h))
              (λ e w' failed.
                undo-Undone (restores_code ports plan action) rewind_and_compensation_failed c e now
                  before w' (λ _ _ _. tt) same restores
                  (ap (λ r. files r.1) (sym failed) ∙ laws.rewind_files plan w ∙ h)))
          (λ _. finish-Undone plan.session_id w h)

  pub execute-Undone :
      (plan : RewindPlan) (action : RewindAction) (w : World)
      → Undone (files w) (execute ports plan action w)
  unfolding execute
  execute-Undone plan action w =
      if-Undone (files w) (restores_code ports plan action) _ _
        (λ code.
          await-Undone (files w) (ports.restore plan w) _ _
            (λ c w1 restored.
              converse-Undone plan action c (files w1) (files w)
                (λ off. absurd (true-ne-false (sym code ∙ off)))
                (λ w2 w3 h e. laws.compensation plan w w1 w2 w3 c restored h e) w1 refl)
            (λ e w1 failed. laws.restore_err plan w w1 e failed))
        (λ _.
          converse-Undone plan action (no_compensation ports) (files w) (files w) (λ _. refl)
            (λ w2 w3 h e. no_compensation-files (files w) w2 w3 h e) w refl)
