-- ===== src/Rewind/Workspace/Laws.antt =====
-- What the transaction relies on holds of the local workspace.
use deepseek_harness_communi.Prelude.{
  String, ◌≡◌, refl, sym, ap, ◌∙◌, subst, false, inl, inr, List, [], ◌∷◌, map, Option, none, some,
  All, ◌==◌, ==_iff, string_eq, option_eq, Bool-cases, arith, ◌⊎◌,
}
use deepseek_harness_communi.Prelude.Result.{Result, ok, err, ◌>>=◌}
use deepseek_harness_communi.Rewind.Transaction.{RewindPlan, Io}
use deepseek_harness_communi.Rewind.Transaction.Atomicity.{FileLaws}
use deepseek_harness_communi.Rewind.Workspace.{
  Files, WorkspaceState, WorkspaceError, system, workspace_changed, rollback_failed, Environment,
  World, read_found, read_text_state, read_all, first_changed, apply_from, apply_checked,
  apply_read, apply_states, swapped, restore_found, restore, beside_of, local_ports,
}
use deepseek_harness_communi.Rewind.Workspace.Restores.{
  await_cases, among, AreRead, IsApplied, apply_from-IsApplied, IsReturned, apply_from-IsReturned,
}

bind_cases {ℓ} :
    {E A B : Type 0} (P : Result E B → Type ℓ) (m : Result E A) (k : A → Result E B)
    → ((a : A) → m ≡ ok a → P (k a))
    → ((e : E) → P (err e))
    → P (m >>= k)
unfolding ◌>>=◌
bind_cases P (ok a) k good bad = good a refl
bind_cases P (err e) k good bad = bad e

-- The error says that a rollback failed.
abbrev pub SaysBroken : {E : Type 0} → WorkspaceError E → Type 0
SaysBroken (system e) = ⊥
SaysBroken (workspace_changed path) = ⊥
SaysBroken (rollback_failed e es) = Unit

abbrev AreExpected : Files → List WorkspaceState → Type 0
AreExpected before states = All (λ state. state.expected ≡ before state.absolute_path) states

abbrev AreTargets : Files → List WorkspaceState → Type 0
AreTargets before states = All (λ state. state.target ≡ before state.absolute_path) states

module _ (env : Environment) where
  read_text_state-ok :
      (path : String) (w : World env) (content : Option String)
      → read_text_state env path w ≡ ok content
      → content ≡ w.0 path
  unfolding read_text_state
  read_text_state-ok path (files, rest) content e = cases (env.inspect path files rest) e
    where
      cases :
          (found : Option env.Failure)
          → read_found env found (files path) ≡ ok content
          → content ≡ files path
      cases none e = cc
      cases (some failure) e = cc

  abbrev IsReading :
      Files → List WorkspaceState → Result env.Failure (List (Option String)) → Type 0
  IsReading before states (ok current) = AreRead env before states current
  IsReading before states (err e) = Unit

  read_all-IsReading :
      (states : List WorkspaceState) (w : World env) → IsReading w.0 states (read_all env states w)
  unfolding read_all
  read_all-IsReading [] w = tt
  read_all-IsReading (state ∷ states) w =
      bind_cases (IsReading w.0 (state ∷ states)) (read_text_state env state.absolute_path w) _
        (λ content found.
          bind_cases (IsReading w.0 (state ∷ states)) (read_all env states w) _
            (λ contents others. (
              read_text_state-ok state.absolute_path w content found,
              subst (IsReading w.0 states) others (read_all-IsReading states w),
            ))
            (λ e. tt))
        (λ e. tt)

  first_changed-AreExpected :
      (before : Files) (states : List WorkspaceState) (current : List (Option String))
      → AreRead env before states current
      → first_changed env states current ≡ none
      → AreExpected before states
  unfolding first_changed
  first_changed-AreExpected before [] current read e = tt
  first_changed-AreExpected before (state ∷ states) [] read e = absurd read
  first_changed-AreExpected before (state ∷ states) (content ∷ current) read e =
      elim (Bool-cases (content == state.expected)) [
        | inl same ↦
            let here : content ≡ state.expected = (==_iff content state.expected).0 same in
            let rest : first_changed env states current ≡ none = ground (arith, e, same) in
            (sym here ∙ read.0, first_changed-AreExpected before states current read.1 rest)
        | inr other ↦
            let some_path : some state.absolute_path ≡ none = ground (arith, e, other) in
            absurd (cc)
      ]

  -- What a call of `applyStates` leaves: the states had the contents of before if it succeeded.
  abbrev IsCall :
      Files
      → List WorkspaceState
      → Result (WorkspaceError env.Failure) (Unit {0}) × World env
      → Type 0
  IsCall before states (ok u, w) =
      AreExpected before states × ((p : String) → among p states ≡ false → w.0 p ≡ before p)
  IsCall before states (err e, w) = (w.0 ≡ before) ⊎ SaysBroken e

  IsCall-IsApplied :
      (before : Files) (states : List WorkspaceState)
      (r : Result (WorkspaceError env.Failure) (Unit {0}) × World env)
      → AreExpected before states
      → IsApplied env before (λ p. among p states) r
      → IsCall before states r
  IsCall-IsApplied before states (ok u, w) expected h = (expected, h)
  IsCall-IsApplied before states (err (system e), w) expected h = inl (λ i p. h p i)
  IsCall-IsApplied before states (err (workspace_changed path), w) expected h = inl (λ i p. h p i)
  IsCall-IsApplied before states (err (rollback_failed e es), w) expected h = inr tt

  apply_checked-IsCall :
      (states : List WorkspaceState) (current : List (Option String)) (w : World env)
      (changed : Option String)
      → AreRead env w.0 states current
      → first_changed env states current ≡ changed
      → IsCall w.0 states (apply_checked env states current changed w)
  apply_checked-IsCall states current w none read e =
      IsCall-IsApplied w.0 states (apply_from env states current [] w)
        (first_changed-AreExpected w.0 states current read e)
        (apply_from-IsApplied env w.0 (λ p. among p states) states current [] w read tt
          (λ p n. refl) (λ p n. ground (arith, n)))
  apply_checked-IsCall states current w (some path) read e = inl refl

  apply_read-IsCall :
      (states : List WorkspaceState) (w : World env)
      (read : Result env.Failure (List (Option String)))
      → IsReading w.0 states read
      → IsCall w.0 states (apply_read env states read w)
  apply_read-IsCall states w (err e) h = inl refl
  apply_read-IsCall states w (ok current) h =
      apply_checked-IsCall states current w (first_changed env states current) h refl

  apply_states-IsCall :
      (states : List WorkspaceState) (w : World env) → IsCall w.0 states (apply_states env states w)
  unfolding apply_states
  apply_states-IsCall states w =
      apply_read-IsCall states w (read_all env states w) (read_all-IsReading states w)

  apply_states-IsReturned :
      (before : Files) (states : List WorkspaceState) (w : World env)
      → AreTargets before states
      → ((p : String) → among p states ≡ false → w.0 p ≡ before p)
      → IsReturned env before (apply_states env states w)
  unfolding apply_states
  apply_states-IsReturned before states w targets outside = read (read_all env states w)
    where
      checked :
          (current : List (Option String)) (changed : Option String)
          → IsReturned env before (apply_checked env states current changed w)
      checked current none = apply_from-IsReturned env before states current [] w targets outside
      checked current (some path) = tt

      read :
          (found : Result env.Failure (List (Option String)))
          → IsReturned env before (apply_read env states found w)
      read (err e) = tt
      read (ok current) = checked current (first_changed env states current)

  swapped-AreTargets :
      (before : Files) (states : List WorkspaceState)
      → AreExpected before states
      → AreTargets before (map (swapped env) states)
  swapped-AreTargets before [] h = tt
  swapped-AreTargets before (state ∷ states) h = (h.0, swapped-AreTargets before states h.1)

  among-swapped :
      (p : String) (states : List WorkspaceState)
      → among p (map (swapped env) states) ≡ among p states
  among-swapped p [] = refl
  among-swapped p (state ∷ states) = rw (among-swapped p states) refl

  -- A restore that fails leaves the files, or says that it could not; the compensation of one that
  -- succeeded brings back the files of before.
  abbrev IsRestoring :
      Files
      → Result (WorkspaceError env.Failure) (Io (World env) (WorkspaceError env.Failure) (Unit {0}))
        × World env
      → Type 0
  IsRestoring before (ok c, w1) =
      (w2 w3 : World env) → w2.0 ≡ w1.0 → c w2 ≡ (ok tt, w3) → w3.0 ≡ before
  IsRestoring before (err e, w) = (w.0 ≡ before) ⊎ SaysBroken e

  restore_found-IsRestoring :
      (w : World env) (found : Result env.Failure (List WorkspaceState))
      → IsRestoring w.0 (restore_found env found w)
  restore_found-IsRestoring w (err e) = inl refl
  restore_found-IsRestoring w (ok states) =
      await_cases (IsRestoring w.0) (apply_states env states w) _ _
        (λ _ w1 e w2 w3 same done.
          let applied = subst (IsCall w.0 states) e (apply_states-IsCall states w) in
          let returned = subst (IsReturned env w.0) done (
            apply_states-IsReturned w.0 (map (swapped env) states) w2
              (swapped-AreTargets w.0 states applied.0)
              (λ p n.
                ap (λ (files : Files). files p) same
                ∙ applied.1 p (sym (among-swapped p states) ∙ n))) in
          λ i p. returned p i)
        (λ e w1 failed. subst (IsCall w.0 states) failed (apply_states-IsCall states w))

  restore-IsRestoring : (plan : RewindPlan) (w : World env) → IsRestoring w.0 (restore env plan w)
  unfolding restore
  restore-IsRestoring plan (files, rest) =
      restore_found-IsRestoring (files, rest) (env.prepared plan rest)

  beside_of-files :
      {A : Type 0} (files : Files) (r : Result env.Failure A × env.Rest)
      → (beside_of env files r).1.0 ≡ files
  beside_of-files files (ok a, rest) = refl
  beside_of-files files (err e, rest) = refl

  pub local_ports-FileLaws : FileLaws (local_ports env) Files (λ w. w.0) SaysBroken
  local_ports-FileLaws = record {
    restore_err = λ plan w w' e failed. subst (IsRestoring w.0) failed (restore-IsRestoring plan w);
    compensation = λ plan w w1 w2 w3 c restored same done.
        subst (IsRestoring w.0) restored (restore-IsRestoring plan w) w2 w3 same done;
    rewind_files = λ plan w. beside_of-files w.0 _;
    commit_files = λ plan action target w. beside_of-files w.0 _;
    on_phase_files = λ w. beside_of-files w.0 _;
  }
