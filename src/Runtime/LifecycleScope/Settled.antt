-- ===== src/Runtime/LifecycleScope/Settled.antt =====
-- What is true when the promise of `dispose` is settled.
use deepseek_harness_communi.Prelude.{
  ℕ, ◌<◌, ◌≡◌, refl, subst, sym, Bool, true, false, not, inl, inr, Option, none, some, is_some,
  List, [], ◌∷◌, ◌++◌, String, filter, if◌then◌else◌, Bool-cases, nat_beq, ltb, length,
  length-append, arith,
}
use deepseek_harness_communi.Prelude.Result.{ok, err}
use deepseek_harness_communi.Runtime.LifecycleScope.{
  Cleanup, disposes_scope, LifecycleScope, new_scope, cancel, has_key, is_active, register,
  release_ownership, fork, dispose, begin_release, release_round, release_next, path_of, Operation,
  registers, forks, releases, cancels, disposes, runs, perform, perform_all,
}
use deepseek_harness_communi.Runtime.LifecycleScope.Order.{fork-register}
use deepseek_harness_communi.Runtime.LifecycleScope.Accounts.{
  waiting, Accounts, Accounts-made, Accounts-released, Accounts-filtered, Accounts-reversed,
  Accounts-called, Accounts-skipped,
}

record IsAccounted (s : LifecycleScope) : Type 0 where
  accounts : Accounts (length s.made) s.called s.released (waiting s.cleanups s.releasing)
  closed : is_some s.releasing ≡ true → s.aborted ≡ true
  settled : is_some s.outcome ≡ true → s.releasing ≡ some []

added-IsAccounted :
    (cleanup : Cleanup) (s : LifecycleScope) (o : Option (List ℕ))
    → s.aborted ≡ false
    → s.releasing ≡ o
    → IsAccounted s
    → IsAccounted (record s {
      made = s.made ++ (cleanup ∷ []);
      cleanups = s.cleanups ++ (length s.made ∷ []);
    })
added-IsAccounted cleanup s none e q h = record {
  accounts =
      subst
        (λ o.
          Accounts (length (s.made ++ (cleanup ∷ []))) s.called s.released
            (waiting (s.cleanups ++ (length s.made ∷ [])) o))
        (sym q)
        (subst (λ n. Accounts n s.called s.released (s.cleanups ++ (length s.made ∷ [])))
          (sym (length-append s.made (cleanup ∷ [])))
          (Accounts-made (length s.made) s.called s.released s.cleanups (
            subst (λ o. Accounts (length s.made) s.called s.released (waiting s.cleanups o)) q
              h.accounts)));
  closed = h.closed;
  settled = h.settled;
}
added-IsAccounted cleanup s (some rest) e q h =
    let begun : s.aborted ≡ true = h.closed (rw q refl) in absurd (ground (arith, begun, e))

registered-IsAccounted :
    (cleanup : Cleanup) (s : LifecycleScope) (aborted : Bool)
    → s.aborted ≡ aborted
    → IsAccounted s
    → IsAccounted (
        if aborted then s else record s {
          made = s.made ++ (cleanup ∷ []);
          cleanups = s.cleanups ++ (length s.made ∷ []);
        })
registered-IsAccounted cleanup s true e h = h
registered-IsAccounted cleanup s false e h = added-IsAccounted cleanup s s.releasing e refl h

-- The scope after `register`, which leaves it as it is where it throws.
register-scope :
    (cleanup : Cleanup) (s : LifecycleScope)
    → elim (register cleanup s) [ err e ↦ s | ok (t, key) ↦ t ] ≡ (
        if s.aborted then s else record s {
          made = s.made ++ (cleanup ∷ []);
          cleanups = s.cleanups ++ (length s.made ∷ []);
        })
unfolding register
register-scope cleanup s = elim (Bool-cases s.aborted) [ inl e ↦ simp e refl | inr e ↦ simp e refl ]

register-IsAccounted :
    (cleanup : Cleanup) (s : LifecycleScope)
    → IsAccounted s
    → IsAccounted (elim (register cleanup s) [ err e ↦ s | ok (t, key) ↦ t ])
register-IsAccounted cleanup s h =
    rw (register-scope cleanup s) (registered-IsAccounted cleanup s s.aborted refl h)

fork-IsAccounted :
    (name : String) (s : LifecycleScope)
    → IsAccounted s
    → IsAccounted (elim (fork name s) [ err e ↦ s | ok (t, child) ↦ t ])
fork-IsAccounted name s h =
    rw (fork-register name s) (register-IsAccounted (disposes_scope (path_of s name)) s h)

release_ownership-IsAccounted :
    (key : ℕ) (s : LifecycleScope) → IsAccounted s → IsAccounted (release_ownership key s)
unfolding release_ownership
release_ownership-IsAccounted key s h = elim (Bool-cases (is_active s key)) [
  | inl e ↦ rw e (record {
    accounts = out s.releasing (
        Accounts-released (length s.made) key s.called s.released (waiting s.cleanups s.releasing)
          (ground (arith, e)) h.accounts);
    closed = h.closed;
    settled = h.settled;
  })
  | inr e ↦ rw e h
]
  where
    out :
        (o : Option (List ℕ))
        → Accounts (length s.made) s.called (key ∷ s.released) (waiting s.cleanups o)
        → Accounts
            (length s.made)
            s.called
            (key ∷ s.released)
            (waiting (filter (λ k. not (nat_beq k key)) s.cleanups) o)
    out none a = Accounts-filtered (length s.made) key s.called s.released s.cleanups a
    out (some rest) a = a

cancel-IsAccounted : (s : LifecycleScope) → IsAccounted s → IsAccounted (cancel s)
unfolding cancel
cancel-IsAccounted s h = elim (Bool-cases s.attached) [
  | inl e ↦ simp e (record { accounts = h.accounts; closed = λ q. refl; settled = h.settled })
  | inr e ↦ simp e h
]

begin_release-IsAccounted :
    (o : Option (List ℕ)) (s : LifecycleScope)
    → s.releasing ≡ o
    → IsAccounted s
    → IsAccounted (begin_release o s)
unfolding begin_release
begin_release-IsAccounted (some rest) s e h = h
begin_release-IsAccounted none s e h = record {
  accounts = Accounts-reversed (length s.made) s.called s.released s.cleanups (
      subst (λ o. Accounts (length s.made) s.called s.released (waiting s.cleanups o)) e
        h.accounts);
  closed = λ q. refl;
  settled = λ q. absurd (begun (h.settled q));
}
  where
    begun : s.releasing ≡ some [] → ⊥
    begun q = ground (arith, e, q)

release_round-IsAccounted :
    (threw : Bool) (o : Option (List ℕ)) (s : LifecycleScope)
    → s.releasing ≡ o
    → IsAccounted s
    → IsAccounted (release_round threw o s)
unfolding release_round
release_round-IsAccounted threw none s e h = h
release_round-IsAccounted threw (some []) s e h = record {
  accounts = h.accounts;
  closed = h.closed;
  settled = λ q. e;
}
release_round-IsAccounted threw (some (key ∷ rest)) s e h =
    let before : Accounts (length s.made) s.called s.released (key ∷ rest) =
      subst (λ o. Accounts (length s.made) s.called s.released (waiting s.cleanups o)) e
        h.accounts in
    let aborted : s.aborted ≡ true = h.closed (rw e refl) in
    let open_still : is_some s.outcome ≡ true → ⊥ =
      λ q. (let over : s.releasing ≡ some [] = h.settled q in ground (arith, e, over)) in
    elim (Bool-cases (is_active s key)) [
      | inl k ↦ simp k (record {
        accounts =
            Accounts-called (length s.made) key s.called s.released rest (ground (arith, k)) before;
        closed = λ q. aborted;
        settled = λ q. absurd (open_still q);
      })
      | inr k ↦ simp k (record {
        accounts =
            Accounts-skipped (length s.made) key s.called s.released rest (ground (arith, k))
              before;
        closed = λ q. aborted;
        settled = λ q. absurd (open_still q);
      })
    ]

perform-IsAccounted :
    (operation : Operation) (s : LifecycleScope) → IsAccounted s → IsAccounted (perform operation s)
unfolding perform release_next dispose
perform-IsAccounted (registers cleanup) s h = register-IsAccounted cleanup s h
perform-IsAccounted (forks name) s h = fork-IsAccounted name s h
perform-IsAccounted (releases key) s h = elim (Bool-cases (ltb key (length s.made))) [
  | inl e ↦ rw e (release_ownership-IsAccounted key s h)
  | inr e ↦ rw e h
]
perform-IsAccounted cancels s h = cancel-IsAccounted s h
perform-IsAccounted disposes s h = begin_release-IsAccounted s.releasing s refl h
perform-IsAccounted (runs threw) s h = release_round-IsAccounted threw s.releasing s refl h

perform_all-IsAccounted :
    (operations : List Operation) (s : LifecycleScope)
    → IsAccounted s
    → IsAccounted (perform_all operations s)
unfolding perform_all
perform_all-IsAccounted [] s h = h
perform_all-IsAccounted (operation ∷ operations) s h =
    perform_all-IsAccounted operations (perform operation s) (perform-IsAccounted operation s h)

new_scope-IsAccounted : (name : String) (parent : Option Bool) → IsAccounted (new_scope name parent)
unfolding new_scope
new_scope-IsAccounted name parent = record {
  accounts = λ k. (refl, λ lt. absurd (omega arith));
  closed = λ q. ground (arith, q);
  settled = λ q. ground (arith, q);
}

-- When the promise of `dispose` is settled, then of every cleanup that was ever registered exactly one
-- is true: it was called, or its owner released it.
pub settled-called :
    (name : String) (parent : Option Bool) (operations : List Operation)
    → let s = perform_all operations (new_scope name parent) in
      is_some s.outcome ≡ true
      → (k : ℕ) → k < length s.made
      → has_key s.called k ≡ not (has_key s.released k)
settled-called name parent operations q k lt =
    let s = perform_all operations (new_scope name parent) in
    let h : IsAccounted s =
      perform_all-IsAccounted operations (new_scope name parent)
        (new_scope-IsAccounted name parent) in
    let a : Accounts (length s.made) s.called s.released [] =
      subst (λ o. Accounts (length s.made) s.called s.released (waiting s.cleanups o)) (h.settled q)
        h.accounts in
    ground (arith, (a k).0, (a k).1, lt)
