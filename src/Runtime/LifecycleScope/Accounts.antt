-- ===== src/Runtime/LifecycleScope/Accounts.antt =====
-- Which registrations were called, released and wait, as lists of their numbers.
use deepseek_harness_communi.Prelude.{
  ℕ, ◌+◌, ◌<◌, ◌≡◌, refl, true, false, not, ◌&&◌, ◌||◌, inl, inr, Option, none, some, List, [], ◌∷◌,
  ◌++◌, any-append, filter, Bool-cases, nat_beq, arith,
}
use deepseek_harness_communi.Runtime.LifecycleScope.{has_key, reverse_onto}

-- The registrations whose turn is still to come.
abbrev pub waiting : List ℕ → Option (List ℕ) → List ℕ
waiting cleanups none = cleanups
waiting cleanups (some rest) = rest

-- Of the first `n` registrations none was both called and released, and one that was neither waits.
abbrev pub Accounts : ℕ → List ℕ → List ℕ → List ℕ → Type 0
Accounts n called released left =
    (k : ℕ)
    → ((has_key called k && has_key released k) ≡ false)
      × (k < n → (has_key called k || has_key released k || has_key left k) ≡ true)

pub Accounts-made :
    (n : ℕ) (called released left : List ℕ)
    → Accounts n called released left
    → Accounts (n + 1) called released (left ++ (n ∷ []))
Accounts-made n called released left h k =
    ((h k).0, λ lt. ground (arith, (h k).1, lt, any-append (λ j. nat_beq j k) left (n ∷ [])))

filtered :
    (key k : ℕ) (ks : List ℕ)
    → (has_key (filter (λ j. not (nat_beq j key)) ks) k || nat_beq key k)
      ≡ (has_key ks k || nat_beq key k)
filtered key k [] = refl
filtered key k (j ∷ ks) = ground (arith, filtered key k ks)

pub Accounts-released :
    (n key : ℕ) (called released left : List ℕ)
    → has_key called key ≡ false
    → Accounts n called released left
    → Accounts n called (key ∷ released) left
Accounts-released n key called released left e h k = elim (Bool-cases (nat_beq key k)) [
  | inl q ↦
      let same : key ≡ k = ground (arith, q) in
      (rw (← same) (ground (arith, e)), λ lt. ground (arith, q))
  | inr q ↦ (ground (arith, (h k).0, q), λ lt. ground (arith, (h k).1, lt, q))
]

pub Accounts-filtered :
    (n key : ℕ) (called released left : List ℕ)
    → Accounts n called (key ∷ released) left
    → Accounts n called (key ∷ released) (filter (λ j. not (nat_beq j key)) left)
Accounts-filtered n key called released left h k =
    ((h k).0, λ lt. ground (arith, (h k).1, lt, filtered key k left))

has_key-reverse_onto :
    (ks done : List ℕ) (k : ℕ) → has_key (reverse_onto ks done) k ≡ (has_key ks k || has_key done k)
has_key-reverse_onto [] done k = refl
has_key-reverse_onto (j ∷ ks) done k = ground (arith, has_key-reverse_onto ks (j ∷ done) k)

pub Accounts-reversed :
    (n : ℕ) (called released left : List ℕ)
    → Accounts n called released left
    → Accounts n called released (reverse_onto left [])
Accounts-reversed n called released left h k =
    ((h k).0, λ lt. ground (arith, (h k).1, lt, has_key-reverse_onto left [] k))

pub Accounts-called :
    (n key : ℕ) (called released rest : List ℕ)
    → has_key released key ≡ false
    → Accounts n called released (key ∷ rest)
    → Accounts n (key ∷ called) released rest
Accounts-called n key called released rest e h k = elim (Bool-cases (nat_beq key k)) [
  | inl q ↦
      let same : key ≡ k = ground (arith, q) in
      (rw (← same) (ground (arith, e)), λ lt. ground (arith, q))
  | inr q ↦ (ground (arith, (h k).0, q), λ lt. ground (arith, (h k).1, lt, q))
]

pub Accounts-skipped :
    (n key : ℕ) (called released rest : List ℕ)
    → (has_key called key || has_key released key) ≡ true
    → Accounts n called released (key ∷ rest)
    → Accounts n called released rest
Accounts-skipped n key called released rest e h k = elim (Bool-cases (nat_beq key k)) [
  | inl q ↦
      let same : key ≡ k = ground (arith, q) in ((h k).0, λ lt. rw (← same) (ground (arith, e)))
  | inr q ↦ ((h k).0, λ lt. ground (arith, (h k).1, lt, q))
]
