-- ===== src/Prelude/Search.antt =====
-- The array methods `some`, `every`, `find`, `findIndex` and `filter` over Boolean tests.
use Prim.Native.Nat.{ℕ, zero, suc, ◌≤◌, ◌<◌}
use mathlib.Core.Path.{◌≡◌, refl}
use mathlib.Core.Bool.{Bool, true, false, ◌&&◌, ◌||◌}
use mathlib.Core.Logic.{inl, inr}
use mathlib.Core.Option
use mathlib.Core.Option.{Option, none, some}
use mathlib.Core.List.{List, [], ◌∷◌, ◌++◌}
use native.Mathlib.Omega.{arith}
use deepseek_harness_communi.Prelude.Tests.{if◌then◌else◌, Bool-cases}
use deepseek_harness_communi.Prelude.Lists.{length, All, modify_first, take}

module _ {ℓ} {A : Type ℓ} (p : A → Bool) where
  abbrev pub any : List A → Bool
  any [] = false
  any (x ∷ xs) = p x || any xs

  abbrev pub every : List A → Bool
  every [] = true
  every (x ∷ xs) = p x && every xs

  abbrev pub find : List A → Option A
  find [] = none
  find (x ∷ xs) = if p x then some x else find xs

  -- `none` is the -1 of `findIndex`.
  abbrev pub find_index : List A → Option ℕ
  find_index [] = none
  find_index (x ∷ xs) = if p x then some 0 else Option.map suc (find_index xs)

  abbrev pub filter : List A → List A
  filter [] = []
  filter (x ∷ xs) = let rest = filter xs in if p x then x ∷ rest else rest

  pub find-holds : (xs : List A) (a : A) → find xs ≡ some a → p a ≡ true
  find-holds [] a h = ground arith
  find-holds (x ∷ xs) a h = ground (arith, find-holds xs a)

  pub length-filter-le : (xs : List A) → length (filter xs) ≤ length xs
  length-filter-le [] = omega arith
  length-filter-le (x ∷ xs) = ground (arith, length-filter-le xs)

  pub All-filter : (xs : List A) → All (λ x. p x ≡ true) (filter xs)
  All-filter [] = tt
  All-filter (x ∷ xs) = elim (Bool-cases (p x)) [
    | inl h ↦ rw h (h, All-filter xs)
    | inr h ↦ rw h (All-filter xs)
  ]

  pub All-filter_of {κ} : (Q : A → Type κ) (xs : List A) → All Q xs → All Q (filter xs)
  All-filter_of Q [] h = tt
  All-filter_of Q (x ∷ xs) h = elim (Bool-cases (p x)) [
    | inl e ↦ rw e (h.0, All-filter_of Q xs h.1)
    | inr e ↦ rw e (All-filter_of Q xs h.1)
  ]

  pub any-append : (xs ys : List A) → any (xs ++ ys) ≡ (any xs || any ys)
  any-append [] ys = refl
  any-append (x ∷ xs) ys = ground (arith, any-append xs ys)

  pub not_any-All : (xs : List A) → any xs ≡ false → All (λ x. p x ≡ false) xs
  not_any-All [] h = tt
  not_any-All (x ∷ xs) h = (ground arith, not_any-All xs (ground arith))

  pub find-modify_first :
      (f : A → A) (xs : List A) (x : A)
      → find xs ≡ some x
      → p (f x) ≡ true
      → find (modify_first p f xs) ≡ some (f x)
  unfolding modify_first
  find-modify_first f [] x e h = ground arith
  find-modify_first f (y ∷ ys) x e h = elim (Bool-cases (p y)) [
    | inl here ↦ let same : y ≡ x = ground arith in rw (here, same, h)
    | inr later ↦
        let rest : find ys ≡ some x = ground arith in
        rw (later, later) (find-modify_first f ys x rest h)
  ]

  -- Only the element that is found changes.
  pub modify_first-All_at {κ} :
      (P : A → Type κ) (f : A → A) (xs : List A) (x : A)
      → find xs ≡ some x
      → P (f x)
      → All P xs
      → All P (modify_first p f xs)
  unfolding modify_first
  modify_first-All_at P f [] x e k h = tt
  modify_first-All_at P f (y ∷ ys) x e k h = elim (Bool-cases (p y)) [
    | inl here ↦ let same : y ≡ x = ground arith in rw (here, same) (k, h.1)
    | inr later ↦
        let rest : find ys ≡ some x = ground arith in
        rw later (h.0, modify_first-All_at P f ys x rest k h.1)
  ]

  pub find_index-take-lt : (n : ℕ) (xs : List A) (i : ℕ) → find_index (take n xs) ≡ some i → i < n
  find_index-take-lt zero xs i e = ground arith
  find_index-take-lt (suc n) [] i e = ground arith
  find_index-take-lt (suc n) (x ∷ xs) zero e = omega arith
  find_index-take-lt (suc n) (x ∷ xs) (suc i) e =
      let below : find_index (take n xs) ≡ some i → i < n = find_index-take-lt n xs i in
      ground (arith, below)

  pub find_index-take :
      (n : ℕ) (xs : List A) (i : ℕ)
      → find_index xs ≡ some i
      → i < n
      → find_index (take n xs) ≡ some i
  find_index-take zero xs i e h = absurd (omega arith)
  find_index-take (suc n) [] i e h = e
  find_index-take (suc n) (x ∷ xs) zero e h = elim (Bool-cases (p x)) [
    | inl here ↦ rw here
    | inr later ↦ ground arith
  ]
  find_index-take (suc n) (x ∷ xs) (suc i) e h =
      let rest : find_index xs ≡ some i → find_index (take n xs) ≡ some i =
        λ q. find_index-take n xs i q (omega arith) in
      ground (arith, rest)

  pub find-All {κ} : (P : A → Type κ) (xs : List A) (x : A) → find xs ≡ some x → All P xs → P x
  find-All P [] x e h = cc
  find-All P (y ∷ ys) x e h = elim (Bool-cases (p y)) [
    | inl here ↦ let same : y ≡ x = ground arith in rw (← same) h.0
    | inr later ↦ let rest : find ys ≡ some x = ground arith in find-All P ys x rest h.1
  ]
