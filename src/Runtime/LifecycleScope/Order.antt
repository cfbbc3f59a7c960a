-- ===== src/Runtime/LifecycleScope/Order.antt =====
-- The cleanups of a scope run in the reverse order of their registration, each once at most.
use deepseek_harness_communi.Prelude.{
  ℕ, ◌<◌, ◌≡◌, refl, Bool, not, inl, inr, Option, none, some, List, [], ◌∷◌, ◌++◌, String, filter,
  Bool-cases, nat_beq, ltb, length, length-append, All, All-append, All-map_of, All-filter_of,
  arith,
}
use deepseek_harness_communi.Prelude.Result.{ok, err}
use deepseek_harness_communi.Runtime.LifecycleScope.{
  Cleanup, disposes_scope, LifecycleScope, new_scope, cancel, is_active, register,
  release_ownership, fork, reverse_onto, dispose, begin_release, release_round, release_next,
  path_of, Operation, registers, forks, releases, cancels, disposes, runs, perform, perform_all,
}

abbrev pub IsAscending : List ℕ → Type 0
IsAscending [] = Unit
IsAscending (k ∷ ks) = All (λ j. k < j) ks × IsAscending ks

abbrev IsDescending : List ℕ → Type 0
IsDescending [] = Unit
IsDescending (k ∷ ks) = All (λ j. j < k) ks × IsDescending ks

abbrev AreBefore : List ℕ → List ℕ → Type 0
AreBefore ks js = All (λ k. All (λ j. k < j) js) ks

-- The loop has not begun and nothing was called, or what it has left is in descending order and was
-- registered before what was called.
abbrev IsLeft : List ℕ → Option (List ℕ) → Type 0
IsLeft called none = called ≡ []
IsLeft called (some rest) = IsDescending rest × AreBefore rest called

record IsOrdered (s : LifecycleScope) : Type 0 where
  made_before : All (λ k. k < length s.made) s.cleanups
  cleanups_ascending : IsAscending s.cleanups
  called_ascending : IsAscending s.called
  left : IsLeft s.called s.releasing

IsAscending-append :
    (ks : List ℕ) (n : ℕ) → IsAscending ks → All (λ k. k < n) ks → IsAscending (ks ++ (n ∷ []))
IsAscending-append [] n a h = (tt, tt)
IsAscending-append (k ∷ ks) n a h =
    (All-append (λ j. k < j) ks (n ∷ []) a.0 (h.0, tt), IsAscending-append ks n a.1 h.1)

filter-IsAscending : (p : ℕ → Bool) (ks : List ℕ) → IsAscending ks → IsAscending (filter p ks)
filter-IsAscending p [] a = tt
filter-IsAscending p (k ∷ ks) a = elim (Bool-cases (p k)) [
  | inl e ↦ rw e (All-filter_of p (λ j. k < j) ks a.0, filter-IsAscending p ks a.1)
  | inr e ↦ rw e (filter-IsAscending p ks a.1)
]

reverse_onto-IsDescending :
    (ks done : List ℕ)
    → IsAscending ks
    → IsDescending done
    → AreBefore done ks
    → IsDescending (reverse_onto ks done)
reverse_onto-IsDescending [] done a d b = d
reverse_onto-IsDescending (k ∷ ks) done a d b =
    reverse_onto-IsDescending ks (k ∷ done) a.1 (All-map_of (λ j. j < k) (λ j h. h.0) done b, d)
      (a.0, All-map_of (λ j. All (λ i. j < i) ks) (λ j h. h.1) done b)

before_none : (ks : List ℕ) → AreBefore ks []
before_none [] = tt
before_none (k ∷ ks) = (tt, before_none ks)

before_cons :
    (ks js : List ℕ) (j : ℕ) → All (λ k. k < j) ks → AreBefore ks js → AreBefore ks (j ∷ js)
before_cons [] js j h b = tt
before_cons (k ∷ ks) js j h b = ((h.0, b.0), before_cons ks js j h.1 b.1)

register-IsOrdered :
    (cleanup : Cleanup) (s : LifecycleScope)
    → IsOrdered s
    → IsOrdered (elim (register cleanup s) [ err e ↦ s | ok (t, key) ↦ t ])
unfolding register
register-IsOrdered cleanup s h = elim (Bool-cases s.aborted) [
  | inl e ↦ rw e h
  | inr e ↦ rw e (record {
    made_before =
        All-append (λ k. k < length (s.made ++ (cleanup ∷ []))) s.cleanups (length s.made ∷ [])
          (All-map_of (λ k. k < length (s.made ++ (cleanup ∷ [])))
            (λ k lt. omega (arith, length-append s.made (cleanup ∷ []))) s.cleanups h.made_before)
          (omega (arith, length-append s.made (cleanup ∷ [])), tt);
    cleanups_ascending =
        IsAscending-append s.cleanups (length s.made) h.cleanups_ascending h.made_before;
    called_ascending = h.called_ascending;
    left = h.left;
  })
]

-- For the parent, a fork is a registration.
pub fork-register :
    (name : String) (s : LifecycleScope)
    → elim (fork name s) [ err e ↦ s | ok (t, child) ↦ t ]
      ≡ elim (register (disposes_scope (path_of s name)) s) [ err e ↦ s | ok (t, key) ↦ t ]
unfolding fork register new_scope
fork-register name s = elim (Bool-cases s.aborted) [ inl e ↦ rw e refl | inr e ↦ rw e refl ]

fork-IsOrdered :
    (name : String) (s : LifecycleScope)
    → IsOrdered s
    → IsOrdered (elim (fork name s) [ err e ↦ s | ok (t, child) ↦ t ])
fork-IsOrdered name s h =
    rw (fork-register name s) (register-IsOrdered (disposes_scope (path_of s name)) s h)

release_ownership-IsOrdered :
    (key : ℕ) (s : LifecycleScope) → IsOrdered s → IsOrdered (release_ownership key s)
unfolding release_ownership
release_ownership-IsOrdered key s h = elim (Bool-cases (is_active s key)) [
  | inl e ↦ rw e (record {
    made_before =
        All-filter_of (λ k. not (nat_beq k key)) (λ k. k < length s.made) s.cleanups h.made_before;
    cleanups_ascending =
        filter-IsAscending (λ k. not (nat_beq k key)) s.cleanups h.cleanups_ascending;
    called_ascending = h.called_ascending;
    left = h.left;
  })
  | inr e ↦ rw e h
]

cancel-IsOrdered : (s : LifecycleScope) → IsOrdered s → IsOrdered (cancel s)
unfolding cancel
cancel-IsOrdered s h = elim (Bool-cases s.attached) [
  | inl e ↦ simp e (record {
    made_before = h.made_before;
    cleanups_ascending = h.cleanups_ascending;
    called_ascending = h.called_ascending;
    left = h.left;
  })
  | inr e ↦ simp e h
]

begin_release-IsOrdered :
    (o : Option (List ℕ)) (s : LifecycleScope)
    → IsLeft s.called o
    → IsOrdered s
    → IsOrdered (begin_release o s)
unfolding begin_release
begin_release-IsOrdered (some rest) s l h = h
begin_release-IsOrdered none s l h = record {
  made_before = tt;
  cleanups_ascending = tt;
  called_ascending = h.called_ascending;
  left = (
    reverse_onto-IsDescending s.cleanups [] h.cleanups_ascending tt tt,
    rw l (before_none (reverse_onto s.cleanups [])),
  );
}

release_round-IsOrdered :
    (threw : Bool) (o : Option (List ℕ)) (s : LifecycleScope)
    → s.releasing ≡ o
    → IsLeft s.called o
    → IsOrdered s
    → IsOrdered (release_round threw o s)
unfolding release_round
release_round-IsOrdered threw none s e l h = h
release_round-IsOrdered threw (some []) s e l h = record {
  made_before = h.made_before;
  cleanups_ascending = h.cleanups_ascending;
  called_ascending = h.called_ascending;
  left = h.left;
}
release_round-IsOrdered threw (some (key ∷ rest)) s e l h = elim (Bool-cases (is_active s key)) [
  | inl k ↦ simp k (record {
    made_before = h.made_before;
    cleanups_ascending = h.cleanups_ascending;
    called_ascending = (l.1.0, h.called_ascending);
    left = (l.0.1, before_cons rest s.called key l.0.0 l.1.1);
  })
  | inr k ↦ simp k (record {
    made_before = h.made_before;
    cleanups_ascending = h.cleanups_ascending;
    called_ascending = h.called_ascending;
    left = (l.0.1, l.1.1);
  })
]

perform-IsOrdered :
    (operation : Operation) (s : LifecycleScope) → IsOrdered s → IsOrdered (perform operation s)
unfolding perform release_next dispose
perform-IsOrdered (registers cleanup) s h = register-IsOrdered cleanup s h
perform-IsOrdered (forks name) s h = fork-IsOrdered name s h
perform-IsOrdered (releases key) s h = elim (Bool-cases (ltb key (length s.made))) [
  | inl e ↦ rw e (release_ownership-IsOrdered key s h)
  | inr e ↦ rw e h
]
perform-IsOrdered cancels s h = cancel-IsOrdered s h
perform-IsOrdered disposes s h = begin_release-IsOrdered s.releasing s h.left h
perform-IsOrdered (runs threw) s h = release_round-IsOrdered threw s.releasing s refl h.left h

perform_all-IsOrdered :
    (operations : List Operation) (s : LifecycleScope)
    → IsOrdered s
    → IsOrdered (perform_all operations s)
unfolding perform_all
perform_all-IsOrdered [] s h = h
perform_all-IsOrdered (operation ∷ operations) s h =
    perform_all-IsOrdered operations (perform operation s) (perform-IsOrdered operation s h)

new_scope-IsOrdered : (name : String) (parent : Option Bool) → IsOrdered (new_scope name parent)
unfolding new_scope
new_scope-IsOrdered name parent = record {
  made_before = tt;
  cleanups_ascending = tt;
  called_ascending = tt;
  left = refl;
}

-- Whatever operations a new scope goes through, the cleanups that were called were called in the
-- reverse order of their registration, and each of them once: from the latest call back, the
-- registrations ascend.
pub called-IsAscending :
    (name : String) (parent : Option Bool) (operations : List Operation)
    → IsAscending (perform_all operations (new_scope name parent)).called
called-IsAscending name parent operations =
    (perform_all-IsOrdered operations (new_scope name parent)
      (new_scope-IsOrdered name parent)).called_ascending
