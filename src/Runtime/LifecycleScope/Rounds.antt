-- ===== src/Runtime/LifecycleScope/Rounds.antt =====
-- The promise of `dispose` is settled.
use deepseek_harness_communi.Prelude.{
  ℕ, ◌+◌, ◌<◌, ◌≡◌, refl, ap, subst, sym, Bool, true, false, inl, inr, Option, none, some, is_some,
  List, [], ◌∷◌, String, map, Bool-cases, length, arith,
}
use deepseek_harness_communi.Runtime.LifecycleScope.{
  LifecycleScope, new_scope, is_active, reverse_onto, dispose, begin_release, release_round,
  release_next, Operation, runs, perform, perform_all,
}
use deepseek_harness_communi.Runtime.LifecycleScope.Accounts.{waiting}

-- After the rounds the promise is settled.
abbrev Settles : List Bool → LifecycleScope → Type 0
Settles throws s = is_some (perform_all (map runs throws) s).outcome ≡ true

-- A settled promise stays so.
rounds_stay :
    (throws : List Bool) (s : LifecycleScope)
    → s.releasing ≡ some []
    → is_some s.outcome ≡ true
    → is_some (perform_all (map runs throws) s).outcome ≡ true
unfolding perform_all perform release_next release_round
rounds_stay [] s e h = h
rounds_stay (threw ∷ throws) s e h =
    let round : release_next threw s ≡ record s { attached = false; outcome = some s.errors } =
      ap (λ o. release_round threw o s) e in
    subst (Settles throws) (sym round)
      (rounds_stay throws (record s { attached = false; outcome = some s.errors }) e refl)

releasing-release_round :
    (threw : Bool) (key : ℕ) (rest : List ℕ) (s : LifecycleScope)
    → (release_round threw (some (key ∷ rest)) s).releasing ≡ some rest
unfolding release_round
releasing-release_round threw key rest s = elim (Bool-cases (is_active s key)) [
  | inl e ↦ rw e refl
  | inr e ↦ rw e refl
]

-- More rounds than there are registrations left settle the promise.
rounds_settle :
    (throws : List Bool) (rest : List ℕ) (s : LifecycleScope)
    → s.releasing ≡ some rest
    → length rest < length throws
    → is_some (perform_all (map runs throws) s).outcome ≡ true
unfolding perform_all perform release_next
rounds_settle [] rest s e h = absurd (omega arith)
rounds_settle (threw ∷ throws) [] s e h =
    unfold release_round in
    let round : release_next threw s ≡ record s { attached = false; outcome = some s.errors } =
      ap (λ o. release_round threw o s) e in
    subst (Settles throws) (sym round)
      (rounds_stay throws (record s { attached = false; outcome = some s.errors }) e refl)
rounds_settle (threw ∷ throws) (key ∷ rest) s e h =
    let round : release_next threw s ≡ release_round threw (some (key ∷ rest)) s =
      ap (λ o. release_round threw o s) e in
    subst (Settles throws) (sym round) (
      rounds_settle throws rest (release_round threw (some (key ∷ rest)) s)
        (releasing-release_round threw key rest s) (omega (arith, h)))

length-reverse_onto : (ks done : List ℕ) → length (reverse_onto ks done) ≡ length ks + length done
length-reverse_onto [] done = omega arith
length-reverse_onto (k ∷ ks) done = omega (arith, length-reverse_onto ks (k ∷ done))

-- `dispose` leads to a settled promise, whatever the scope went through before and whichever cleanups
-- throw: one round more than the registrations that wait is enough.
pub dispose-settles :
    (name : String) (parent : Option Bool) (operations : List Operation) (throws : List Bool)
    → let s = perform_all operations (new_scope name parent) in
      length (waiting s.cleanups s.releasing) < length throws
      → is_some (perform_all (map runs throws) (dispose s)).outcome ≡ true
unfolding dispose begin_release
dispose-settles name parent operations throws h =
    let s = perform_all operations (new_scope name parent) in disposed s throws s.releasing refl h
  where
    disposed :
        (s : LifecycleScope) (throws : List Bool) (o : Option (List ℕ))
        → s.releasing ≡ o
        → length (waiting s.cleanups o) < length throws
        → is_some (perform_all (map runs throws) (begin_release o s)).outcome ≡ true
    disposed s throws (some rest) e h = rounds_settle throws rest s e h
    disposed s throws none e h =
        rounds_settle throws (reverse_onto s.cleanups [])
          (record s {
            aborted = true;
            cleanups = [];
            releasing = some (reverse_onto s.cleanups []);
          })
          refl (omega (arith, h, length-reverse_onto s.cleanups []))
