-- ===== src/Runtime/SessionMachine/Epochs.antt =====
-- What the epoch and the operation numbers of the session machine promise to late results.
use deepseek_harness_communi.Prelude.{
  ℕ, ◌+◌, ◌≤◌, ◌<◌, ◌≡◌, refl, true, false, ◌⊎◌, inl, inr, Bool-cases, Option, none, some, List, [],
  ◌∷◌, String, nat_eq, string_eq, option_eq, arith,
}
use deepseek_harness_communi.Runtime.SessionMachine.{
  SessionOperation, SessionBindingState, unbound, preparing, active, failed, SessionMachine, begin,
  is_current, commit, rollback, fail, owns, Call, resets, begins, commits, rolls_back, fails, step,
  run, initial, restored,
}

-- The published binding and the private fields tell the same story.
abbrev pub Agrees : SessionMachine → SessionBindingState → Type 0
Agrees m unbound = (m.pending ≡ none) × (m.active_session_id ≡ none)
Agrees m (preparing id previous epoch) =
    m.pending ≡ some (record { id = id; epoch = epoch; session_id = previous })
Agrees m (active session_id epoch) =
    (m.pending ≡ none) × (m.active_session_id ≡ some session_id) × (epoch ≡ m.current_epoch)
Agrees m (failed message epoch) =
    (m.pending ≡ none) × (m.active_session_id ≡ none) × (epoch ≡ m.current_epoch)

abbrev pub IsFresh : SessionMachine → Option SessionOperation → Type 0
IsFresh m none = Unit
IsFresh m (some p) = (p.id ≤ m.operation_id) × (p.epoch ≡ m.current_epoch)

pub record IsValid (m : SessionMachine) : Type 0 where
  pub agrees : Agrees m m.current_binding
  pub fresh : IsFresh m m.pending

-- The machine that `rollback` and `fail` leave when the operation is the pending one.
abbrev settled : SessionMachine → Option String → SessionBindingState → SessionMachine
settled m previous otherwise = record m {
  pending = none;
  active_session_id = previous;
  current_binding = restored m.current_epoch previous otherwise;
}

settled-IsValid :
    (m : SessionMachine) (previous : Option String) (otherwise : SessionBindingState)
    → (otherwise ≡ unbound) ⊎ ((message : String) × (otherwise ≡ failed message m.current_epoch))
    → IsValid (settled m previous otherwise)
unfolding restored
settled-IsValid m (some s) otherwise h = record { agrees = (refl, refl, refl); fresh = tt }
settled-IsValid m none otherwise (inl e) = rw e (record { agrees = (refl, refl); fresh = tt })
settled-IsValid m none otherwise (inr (message, e)) =
    rw e (record { agrees = (refl, refl, refl); fresh = tt })

-- Every method keeps the binding, the pending operation and the active session in agreement.
pub step-IsValid : (m : SessionMachine) (c : Call) → IsValid m → IsValid (step m c)
unfolding step
step-IsValid m resets v = record { agrees = (refl, refl); fresh = tt }
step-IsValid m (begins session_id) v = record { agrees = refl; fresh = omega arith }
step-IsValid m (commits operation session_id) v = elim (Bool-cases (is_current m operation)) [
  | inl now ↦ rw (now, step) (record { agrees = (refl, refl, refl); fresh = tt })
  | inr late ↦ rw (late, step) v
]
step-IsValid m (rolls_back operation) v = elim (Bool-cases (is_current m operation)) [
  | inl now ↦ rw (now, step) (settled-IsValid m operation.session_id unbound (inl refl))
  | inr late ↦ rw (late, step) v
]
step-IsValid m (fails operation message) v = elim (Bool-cases (is_current m operation)) [
  | inl now ↦
      rw (now, step)
        (settled-IsValid m operation.session_id (failed message m.current_epoch)
          (inr (message, refl)))
  | inr late ↦ rw (late, step) v
]

pub run-IsValid : (m : SessionMachine) (cs : List Call) → IsValid m → IsValid (run m cs)
unfolding run
run-IsValid m [] v = v
run-IsValid m (c ∷ cs) v = run-IsValid (step m c) cs (step-IsValid m c v)

-- The binding, the pending operation and the active session agree after any calls.
pub run-initial-IsValid : (cs : List Call) → IsValid (run initial cs)
run-initial-IsValid cs = run-IsValid initial cs (record { agrees = (refl, refl); fresh = tt })

step-epoch_mono : (m : SessionMachine) (c : Call) → m.current_epoch ≤ (step m c).current_epoch
unfolding step
step-epoch_mono m resets = omega arith
step-epoch_mono m c = ground arith

run-epoch_mono : (m : SessionMachine) (cs : List Call) → m.current_epoch ≤ (run m cs).current_epoch
unfolding run
run-epoch_mono m [] = omega arith
run-epoch_mono m (c ∷ cs) = omega (arith, step-epoch_mono m c, run-epoch_mono (step m c) cs)

owns_past :
    (m : SessionMachine) (epoch : ℕ) (s : String) → epoch < m.current_epoch → owns m epoch s ≡ false
unfolding owns
owns_past m epoch s h = ground arith

-- After a commit, whatever is called later, no session is owned at the epoch that the commit ended
-- or at an earlier one.
pub owns-run-commit :
    (m : SessionMachine) (operation : SessionOperation) (session_id : String) (cs : List Call)
    (epoch : ℕ) (s : String)
    → is_current m operation ≡ true
    → epoch ≤ m.current_epoch
    → owns (run (commit m operation session_id).0 cs) epoch s ≡ false
owns-run-commit m operation session_id cs epoch s now h =
    owns_past (run (commit m operation session_id).0 cs) epoch s
      (omega (arith, run-epoch_mono (commit m operation session_id).0 cs, raised))
  where
    raised : (commit m operation session_id).0.current_epoch ≡ m.current_epoch + 1
    raised = unfold commit in rw now

abbrev IsSuperseded : SessionMachine → SessionOperation → Type 0
IsSuperseded m operation = (operation.id ≤ m.operation_id) × (is_current m operation ≡ false)

step-IsSuperseded :
    (m : SessionMachine) (operation : SessionOperation) (c : Call)
    → IsSuperseded m operation
    → IsSuperseded (step m c) operation
unfolding step is_current
step-IsSuperseded m operation resets h = ground arith
step-IsSuperseded m operation c h = ground arith

run-IsSuperseded :
    (m : SessionMachine) (operation : SessionOperation) (cs : List Call)
    → IsSuperseded m operation
    → IsSuperseded (run m cs) operation
unfolding run
run-IsSuperseded m operation [] h = h
run-IsSuperseded m operation (c ∷ cs) h =
    run-IsSuperseded (step m c) operation cs (step-IsSuperseded m operation c h)

-- An operation that a later `begin` replaced can never take effect: whatever is called after that
-- `begin`, its commit, rollback and failure all leave the machine as it is and report so.
pub superseded_is_inert :
    (m : SessionMachine) (first second : Option String) (cs : List Call) (s message : String)
    → let operation = (begin m first).1 in
      let late = run (begin (begin m first).0 second).0 cs in
      (commit late operation s ≡ (late, none))
      × (rollback late operation ≡ (late, false))
      × (fail late operation message ≡ (late, false))
unfolding begin
superseded_is_inert m first second cs s message =
    (unfold commit in rw late, unfold rollback in rw late, unfold fail in rw late)
  where
    late : is_current (run (begin (begin m first).0 second).0 cs) (begin m first).1 ≡ false
    late =
        (run-IsSuperseded (begin (begin m first).0 second).0 (begin m first).1 cs
          (unfold is_current in (omega arith, ground arith))).1
