-- ===== src/Rewind/Repository/Lock/Exclusive.antt =====
-- One operation at a time holds the lock, when the removals of stale files find what was inspected.
use deepseek_harness_communi.Prelude.{
  ℕ, ◌-◌, ◌≤◌, Bool, true, false, not, ◌||◌, Option, none, some, List, [], ◌∷◌, any, filter, ltb,
  length, ◌==◌, ==_iff, nat_eq, ◌≡◌, refl, sym, subst, All, Bool-cases, inl, inr, arith,
}
use deepseek_harness_communi.Rewind.Repository.Lock.{
  LockFile, LockState, lock_stale_ms, Step, create, inspect, remove_stale, release, crash, without,
  create_on, inspect_on, released_file, perform, unlocked, run,
}

-- A holder's lock file is there, and it is the only holder.
abbrev pub AreHolders : Option LockFile → List ℕ → Type 0
AreHolders file [] = Unit
AreHolders none (token ∷ holders) = ⊥
AreHolders (some file) (token ∷ holders) = (token ≡ file.token) × (holders ≡ [])

-- The holder of the file that a remover saw is gone.
abbrev pub IsGone : List ℕ → ℕ × LockFile → Type 0
IsGone holders remover = any (λ t. t == remover.1.token) holders ≡ false

pub record IsExclusive (s : LockState) : Type 0 where
  pub holders : AreHolders s.file s.holders
  pub gone : All (IsGone s.holders) s.removers

-- `processExists` answers no only for a process that ended.
abbrev pub IsRight : Option LockFile → Bool → List ℕ → Type 0
IsRight none alive holders = Unit
IsRight (some file) alive holders = alive ≡ false → any (λ t. t == file.token) holders ≡ false

-- The file is the one that the remover of the token inspected.
abbrev pub IsInspected : Option LockFile → ℕ → List (ℕ × LockFile) → Type 0
IsInspected none token removers = Unit
IsInspected (some file) token removers =
    any (λ r. r.0 == token) removers ≡ true → any (λ r. r.1.token == file.token) removers ≡ true

-- The tokens are fresh, the answers right, and no removal meets a file that was created since.
abbrev pub IsFair : Step → LockState → Type 0
IsFair (create token now) s = All (λ r. (r.1.token == token) ≡ false) s.removers
IsFair (inspect token now alive) s = IsRight s.file alive s.holders
IsFair (remove_stale token) s = IsInspected s.file token s.removers
IsFair (release token) s = Unit
IsFair (crash token) s = Unit

abbrev pub AreFair : List Step → LockState → Type 0
AreFair [] s = Unit
AreFair (step ∷ steps) s = IsFair step s × AreFair steps (perform step s)

AreHolders-without :
    (file : Option LockFile) (token : ℕ) (holders : List ℕ)
    → AreHolders file holders
    → AreHolders file (without token holders)
AreHolders-without file token [] h = tt
AreHolders-without none token (t ∷ holders) h = absurd h
AreHolders-without (some file) token (t ∷ holders) (e, q) = elim (Bool-cases (t == token)) [
  | inl same ↦ rw (q, same) tt
  | inr other ↦ rw (q, other) (e, refl)
]

released-AreHolders :
    (file : Option LockFile) (token : ℕ) (holders : List ℕ)
    → AreHolders file holders
    → AreHolders (released_file file token) (without token holders)
released-AreHolders file token [] h = tt
released-AreHolders none token (t ∷ holders) h = absurd h
released-AreHolders (some file) token (t ∷ holders) (e, q) = elim (Bool-cases (t == token)) [
  | inl same ↦ rw (q, same) tt
  | inr other ↦ rw (q, other, ← e, other) (refl, refl)
]

IsGone-without :
    (token : ℕ) (holders : List ℕ) (remover : ℕ × LockFile)
    → IsGone holders remover
    → IsGone (without token holders) remover
IsGone-without token [] remover h = refl
IsGone-without token (t ∷ holders) remover h =
    let rest : IsGone holders remover = ground (arith, h) in
    ground (arith, h, IsGone-without token holders remover rest)

All-IsGone-without :
    (token : ℕ) (holders : List ℕ) (removers : List (ℕ × LockFile))
    → All (IsGone holders) removers
    → All (IsGone (without token holders)) removers
All-IsGone-without token holders [] h = tt
All-IsGone-without token holders (r ∷ removers) h =
    (IsGone-without token holders r h.0, All-IsGone-without token holders removers h.1)

-- The new holder is none that a remover saw.
fresh-IsGone :
    (token : ℕ) (removers : List (ℕ × LockFile))
    → All (λ r. (r.1.token == token) ≡ false) removers
    → All (IsGone (token ∷ [])) removers
fresh-IsGone token [] h = tt
fresh-IsGone token (r ∷ removers) h = (
  ground (arith, h.0, ==_iff r.1.token token, ==_iff token r.1.token),
  fresh-IsGone token removers h.1,
)

no_holders : (holders : List ℕ) → AreHolders none holders → holders ≡ []
no_holders [] h = refl
no_holders (t ∷ holders) h = absurd h

All-filter {ℓ κ} :
    {A : Type ℓ} (P : A → Type κ) (p : A → Bool) (xs : List A) → All P xs → All P (filter p xs)
All-filter P p [] h = tt
All-filter P p (x ∷ xs) h = elim (Bool-cases (p x)) [
  | inl kept ↦ rw kept (h.0, All-filter P p xs h.1)
  | inr dropped ↦ rw dropped (All-filter P p xs h.1)
]

any-IsGone :
    (token : ℕ) (holders : List ℕ) (removers : List (ℕ × LockFile))
    → All (IsGone holders) removers
    → any (λ r. r.1.token == token) removers ≡ true
    → any (λ t. t == token) holders ≡ false
any-IsGone token holders [] h q = absurd (ground (arith, q))
any-IsGone token holders (r ∷ removers) h q = elim (Bool-cases (r.1.token == token)) [
  | inl same ↦
      let seen : r.1.token ≡ token = (==_iff r.1.token token).0 same in
      subst (λ n. any (λ t. t == n) holders ≡ false) seen h.0
  | inr other ↦ any-IsGone token holders removers h.1 (ground (arith, q, other))
]

no_holder :
    (file : LockFile) (holders : List ℕ)
    → AreHolders (some file) holders
    → any (λ t. t == file.token) holders ≡ false
    → AreHolders none holders
no_holder file [] h q = tt
no_holder file (t ∷ holders) h q = absurd (ground (arith, q, h.0, ==_iff t file.token))

create-IsExclusive :
    (file : Option LockFile) (token now : ℕ) (s : LockState)
    → s.file ≡ file
    → All (λ r. (r.1.token == token) ≡ false) s.removers
    → IsExclusive s
    → IsExclusive (create_on file token now s)
create-IsExclusive (some file) token now s e f h = h
create-IsExclusive none token now s e f h =
    let nobody = no_holders s.holders (subst (λ o. AreHolders o s.holders) e h.holders) in
    record {
      holders = (refl, nobody);
      gone =
          subst (λ hs. All (IsGone (token ∷ hs)) s.removers) (sym nobody)
            (fresh-IsGone token s.removers f);
    }

inspect-IsExclusive :
    (file : Option LockFile) (token now : ℕ) (alive : Bool) (s : LockState)
    → s.file ≡ file
    → IsRight file alive s.holders
    → IsExclusive s
    → IsExclusive (inspect_on file token now alive s)
inspect-IsExclusive none token now alive s e f h = h
inspect-IsExclusive (some file) token now alive s e f h =
    elim (Bool-cases (ltb (now - file.modified) lock_stale_ms || alive)) [
      | inl fresh ↦ rw fresh h
      | inr stale ↦
          let ended : alive ≡ false = ground (arith, stale) in
          rw stale (record { holders = h.holders; gone = (f ended, h.gone) })
    ]

remove-AreHolders :
    (file : Option LockFile) (token : ℕ) (removers : List (ℕ × LockFile)) (holders : List ℕ)
    → IsInspected file token removers
    → any (λ r. r.0 == token) removers ≡ true
    → All (IsGone holders) removers
    → AreHolders file holders
    → AreHolders none holders
remove-AreHolders none token removers holders f r g h = h
remove-AreHolders (some file) token removers holders f r g h =
    no_holder file holders h (any-IsGone file.token holders removers g (f r))

perform-IsExclusive :
    (step : Step) (s : LockState) → IsFair step s → IsExclusive s → IsExclusive (perform step s)
unfolding perform
perform-IsExclusive (create token now) s f h = create-IsExclusive s.file token now s refl f h
perform-IsExclusive (inspect token now alive) s f h =
    inspect-IsExclusive s.file token now alive s refl f h
perform-IsExclusive (remove_stale token) s f h =
    elim (Bool-cases (any (λ r. r.0 == token) s.removers)) [
      | inl is_remover ↦ rw is_remover (record {
        holders = remove-AreHolders s.file token s.removers s.holders f is_remover h.gone h.holders;
        gone = All-filter (IsGone s.holders) (λ r. not (r.0 == token)) s.removers h.gone;
      })
      | inr other ↦ rw other h
    ]
perform-IsExclusive (release token) s f h = elim (Bool-cases (any (λ t. t == token) s.holders)) [
  | inl is_holder ↦ rw is_holder (record {
    holders = released-AreHolders s.file token s.holders h.holders;
    gone = All-IsGone-without token s.holders s.removers h.gone;
  })
  | inr other ↦ rw other h
]
perform-IsExclusive (crash token) s f h = record {
  holders = AreHolders-without s.file token s.holders h.holders;
  gone = All-IsGone-without token s.holders s.removers h.gone;
}

length-AreHolders :
    (file : Option LockFile) (holders : List ℕ) → AreHolders file holders → length holders ≤ 1
length-AreHolders file [] h = omega arith
length-AreHolders none (t ∷ holders) h = absurd h
length-AreHolders (some file) (t ∷ holders) h = rw (h.1) (omega arith)

run-IsExclusive :
    (steps : List Step) (s : LockState)
    → AreFair steps s
    → IsExclusive s
    → IsExclusive (run steps s)
unfolding run
run-IsExclusive [] s f h = h
run-IsExclusive (step ∷ steps) s f h =
    run-IsExclusive steps (perform step s) f.1 (perform-IsExclusive step s f.0 h)

-- Tokens are fresh, `processExists` answers no only of a process that ended, and a removal of a stale
-- file meets no file that was created after its inspection. Then, whatever the order of the steps of the
-- processes, at most one operation at a time holds the lock.
pub run-unlocked-holders :
    (steps : List Step) → AreFair steps unlocked → length (run steps unlocked).holders ≤ 1
run-unlocked-holders steps f =
    let exclusive = run-IsExclusive steps unlocked f (record { holders = tt; gone = tt }) in
    length-AreHolders (run steps unlocked).file (run steps unlocked).holders exclusive.holders
