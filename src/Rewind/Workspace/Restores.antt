-- ===== src/Rewind/Workspace/Restores.antt =====
-- `applyStates` and its compensation bring the files back.
use deepseek_harness_communi.Prelude.{
  String, ◌≡◌, refl, sym, ap, ◌∙◌, Bool, false, ◌||◌, inl, inr, List, [], ◌∷◌, Option, none, some,
  All, any, ◌==◌, ==_iff, string_eq, option_eq, Bool-cases, arith,
}
use deepseek_harness_communi.Prelude.Result.{Result, ok, err}
use deepseek_harness_communi.Rewind.Transaction.{await}
use deepseek_harness_communi.Rewind.Workspace.{
  Files, WorkspaceState, WorkspaceError, system, workspace_changed, rollback_failed, Environment,
  World, write, replaced, atomic_replace, roll_back, rolled_back, apply_from,
}

pub await_cases {ℓ} :
    {W E A : Type 0} {R : Type 0} (P : R → Type ℓ) (m : Result E A × W) (k : A → W → R)
    (h : E → W → R)
    → ((a : A) (w : W) → m ≡ (ok a, w) → P (k a w))
    → ((e : E) (w : W) → m ≡ (err e, w) → P (h e w))
    → P (await m k h)
await_cases P (ok a, w) k h good bad = good a w refl
await_cases P (err e, w) k h good bad = bad e w refl

-- The path is that of one of the entries, or of one of the states.
abbrev listed : String → List (String × Option String) → Bool
listed p entries = any (λ entry. entry.0 == p) entries

abbrev pub among : String → List WorkspaceState → Bool
among p states = any (λ state. state.absolute_path == p) states

-- The contents of the entries are those of the files `before`.
abbrev AreOriginal : Files → List (String × Option String) → Type 0
AreOriginal before entries = All (λ entry. entry.1 ≡ before entry.0) entries

-- Paths that are not listed have the content of before.
abbrev AgreesOutside : Files → List (String × Option String) → Files → Type 0
AgreesOutside before entries files = (p : String) → listed p entries ≡ false → files p ≡ before p

write-same :
    (path : String) (content : Option String) (files before : Files) (p : String)
    → content ≡ before path
    → ((path == p) ≡ false → files p ≡ before p)
    → write path content files p ≡ before p
unfolding write
write-same path content files before p same other = elim (Bool-cases (path == p)) [
  | inl e ↦ let here : path ≡ p = (==_iff {A = String} path p).0 e in rw e (same ∙ ap before here)
  | inr e ↦ rw e (other e)
]

write-other :
    (path : String) (content : Option String) (files : Files) (p : String)
    → (path == p) ≡ false
    → write path content files p ≡ files p
unfolding write
write-other path content files p e = rw e refl

module _ (env : Environment) where
  atomic_replace-ok :
      (path : String) (content : Option String) (w w' : World env)
      → atomic_replace env path content w ≡ (ok tt, w')
      → w'.0 ≡ write path content w.0
  unfolding atomic_replace
  atomic_replace-ok path content (files, rest) w' e = cases (env.refuse path content files rest) e
    where
      cases :
          (answer : Option env.Failure × env.Rest)
          → replaced env path content files answer ≡ (ok tt, w')
          → w'.0 ≡ write path content files
      cases (none, after) e = ap (λ (r : Result env.Failure (Unit {0}) × World env). r.1.0) (sym e)
      cases (some failure, after) e = cc

  atomic_replace-err :
      (path : String) (content : Option String) (w w' : World env) (failure : env.Failure)
      → atomic_replace env path content w ≡ (err failure, w')
      → w'.0 ≡ w.0
  unfolding atomic_replace
  atomic_replace-err path content (files, rest) w' failure e =
      cases (env.refuse path content files rest) e
    where
      cases :
          (answer : Option env.Failure × env.Rest)
          → replaced env path content files answer ≡ (err failure, w')
          → w'.0 ≡ files
      cases (none, after) e = cc
      cases (some f, after) e =
          ap (λ (r : Result env.Failure (Unit {0}) × World env). r.1.0) (sym e)

  -- A rollback in which nothing failed has brought back the files.
  abbrev IsRolledBack : Files → List env.Failure × World env → Type 0
  IsRolledBack before ([], w) = (p : String) → w.0 p ≡ before p
  IsRolledBack before (f ∷ failures, w) = Unit

  roll_back-IsRolledBack :
      (before : Files) (applied : List (String × Option String)) (w : World env)
      → AreOriginal before applied
      → AgreesOutside before applied w.0
      → IsRolledBack before (roll_back env applied w)
  unfolding roll_back
  roll_back-IsRolledBack before [] w original outside = λ p. outside p refl
  roll_back-IsRolledBack before ((path, content) ∷ applied) w original outside =
      await_cases (IsRolledBack before) (atomic_replace env path content w) _ _
        (λ _ w' e. roll_back-IsRolledBack before applied w' original.1 (λ p n.
          ap (λ (files : Files). files p) (atomic_replace-ok path content w w' e)
          ∙ write-same path content w.0 before p original.0
              (λ other. outside p (rw (other, n) refl))))
        (λ _ _ _. tt)

  -- The files after the loop: written at the paths of the states at most, or as before.
  abbrev pub IsApplied :
      Files → (String → Bool) → Result (WorkspaceError env.Failure) (Unit {0}) × World env → Type 0
  IsApplied before touched (ok u, w) = (p : String) → touched p ≡ false → w.0 p ≡ before p
  IsApplied before touched (err (system e), w) = (p : String) → w.0 p ≡ before p
  IsApplied before touched (err (workspace_changed path), w) = (p : String) → w.0 p ≡ before p
  IsApplied before touched (err (rollback_failed e es), w) = Unit

  rolled_back-IsApplied :
      (before : Files) (touched : String → Bool) (e : env.Failure)
      (r : List env.Failure × World env)
      → IsRolledBack before r
      → IsApplied before touched (rolled_back env e r)
  rolled_back-IsApplied before touched e ([], w) h = h
  rolled_back-IsApplied before touched e (f ∷ fs, w) h = tt

  -- The contents that were read, one for each state.
  abbrev pub AreRead : Files → List WorkspaceState → List (Option String) → Type 0
  AreRead before [] current = Unit
  AreRead before (state ∷ states) [] = ⊥
  AreRead before (state ∷ states) (content ∷ current) =
      (content ≡ before state.absolute_path) × AreRead before states current

  pub apply_from-IsApplied :
      (before : Files) (touched : String → Bool) (states : List WorkspaceState)
      (current : List (Option String)) (applied : List (String × Option String)) (w : World env)
      → AreRead before states current
      → AreOriginal before applied
      → AgreesOutside before applied w.0
      → ((p : String) → touched p ≡ false → (listed p applied || among p states) ≡ false)
      → IsApplied before touched (apply_from env states current applied w)
  unfolding apply_from
  apply_from-IsApplied before touched [] current applied w read original outside t =
      λ p n. outside p (ground (arith, t p n))
  apply_from-IsApplied before touched (state ∷ states) [] applied w read original outside t =
      absurd read
  apply_from-IsApplied before touched (state ∷ states) (content ∷ current) applied w read original
        outside t =
      await_cases (IsApplied before touched) (atomic_replace env state.absolute_path state.target w)
        _ _
        (λ _ w' e.
          apply_from-IsApplied before touched states current
            ((state.absolute_path, content) ∷ applied) w' read.1 (read.0, original)
            (λ p n.
              ap (λ (files : Files). files p)
                (atomic_replace-ok state.absolute_path state.target w w' e)
              ∙ write-other state.absolute_path state.target w.0 p (ground (arith, n))
              ∙ outside p (ground (arith, n)))
            (λ p n. ground (arith, t p n)))
        (λ e w' failed. rolled_back-IsApplied before touched e (roll_back env applied w') (
          roll_back-IsRolledBack before applied w' original (λ p n.
            ap (λ (files : Files). files p)
              (atomic_replace-err state.absolute_path state.target w w' e failed)
            ∙ outside p n)))

  -- Where the targets are the contents of before, a loop that succeeds brings back the files.
  abbrev pub IsReturned :
      Files → Result (WorkspaceError env.Failure) (Unit {0}) × World env → Type 0
  IsReturned before (ok u, w) = (p : String) → w.0 p ≡ before p
  IsReturned before (err e, w) = Unit

  rolled_back-IsReturned :
      (before : Files) (e : env.Failure) (r : List env.Failure × World env)
      → IsReturned before (rolled_back env e r)
  rolled_back-IsReturned before e ([], w) = tt
  rolled_back-IsReturned before e (f ∷ fs, w) = tt

  pub apply_from-IsReturned :
      (before : Files) (states : List WorkspaceState) (current : List (Option String))
      (applied : List (String × Option String)) (w : World env)
      → All (λ state. state.target ≡ before state.absolute_path) states
      → ((p : String) → among p states ≡ false → w.0 p ≡ before p)
      → IsReturned before (apply_from env states current applied w)
  unfolding apply_from
  apply_from-IsReturned before [] current applied w targets outside = λ p. outside p refl
  apply_from-IsReturned before (state ∷ states) [] applied w targets outside =
      await_cases (IsReturned before) (atomic_replace env state.absolute_path state.target w) _ _
        (λ _ w' e.
          apply_from-IsReturned before states [] ((state.absolute_path, none) ∷ applied) w'
            targets.1
            (λ p n.
              ap (λ (files : Files). files p)
                (atomic_replace-ok state.absolute_path state.target w w' e)
              ∙ write-same state.absolute_path state.target w.0 before p targets.0
                  (λ other. outside p (rw (other, n) refl))))
        (λ e w' failed. rolled_back-IsReturned before e (roll_back env applied w'))
  apply_from-IsReturned before (state ∷ states) (content ∷ current) applied w targets outside =
      await_cases (IsReturned before) (atomic_replace env state.absolute_path state.target w) _ _
        (λ _ w' e.
          apply_from-IsReturned before states current ((state.absolute_path, content) ∷ applied) w'
            targets.1
            (λ p n.
              ap (λ (files : Files). files p)
                (atomic_replace-ok state.absolute_path state.target w w' e)
              ∙ write-same state.absolute_path state.target w.0 before p targets.0
                  (λ other. outside p (rw (other, n) refl))))
        (λ e w' failed. rolled_back-IsReturned before e (roll_back env applied w'))
