-- ===== src/Prelude/Decimal.antt =====
-- `String(number)` and `Number(text)` for the natural numbers that JavaScript prints without an
-- exponent, over lists of character codes, and the equality of such lists.
use Prim.Native.Nat.{ℕ, zero, suc, ◌+◌, ◌-◌, ◌*◌, ◌/◌, ◌%◌, ◌≤◌, ◌<◌}
use mathlib.Core.Path.{◌≡◌, refl, ap, ◌∙◌}
use mathlib.Core.Logic.{◌↔◌, inl, inr}
use mathlib.Core.Bool.{Bool, true, false, ◌&&◌}
use mathlib.Core.List.{List, [], ◌∷◌}
use native.Mathlib.Omega.{arith}
use deepseek_harness_communi.Prelude.Tests.{if◌then◌else◌, leb, nat_beq, Bool-cases}
use deepseek_harness_communi.Prelude.Equality.{Eq, nat_eq, ==_iff, ◌==◌}
use deepseek_harness_communi.Prelude.Lists.{All}

abbrev pub units_beq : List ℕ → List ℕ → Bool
units_beq [] [] = true
units_beq [] (d ∷ t) = false
units_beq (c ∷ s) [] = false
units_beq (c ∷ s) (d ∷ t) = c == d && units_beq s t

pub units_beq_iff : (s t : List ℕ) → (units_beq s t ≡ true) ↔ (s ≡ t)
units_beq_iff [] [] = ground arith
units_beq_iff [] (d ∷ t) = ground arith
units_beq_iff (c ∷ s) [] = ground arith
units_beq_iff (c ∷ s) (d ∷ t) = ground (arith, ==_iff c d, units_beq_iff s t)

instance abbrev pub units_eq : Eq (List ℕ)
units_eq = record { beq = units_beq; beq_iff = units_beq_iff }

-- The digits of `n` before `out`; a number has no more digits than it counts.
unfoldable pub decimal_onto : ℕ → ℕ → List ℕ → List ℕ
decimal_onto zero n out = out
decimal_onto (suc fuel) n out =
    if nat_beq n 0 then out else decimal_onto fuel (n / 10) ((48 + n % 10) ∷ out)

unfoldable pub decimal : ℕ → List ℕ
decimal n = if nat_beq n 0 then 48 ∷ [] else decimal_onto n n []

-- The number that digits are read as behind those of `n`.
unfoldable pub read_digits : ℕ → List ℕ → ℕ
read_digits n [] = n
read_digits n (c ∷ s) = read_digits (n * 10 + (c - 48)) s

abbrev pub is_digit : ℕ → Bool
is_digit c = leb 48 c && leb c 57

-- What `[1-9]\d*` matches.
abbrev pub IsNumeral : List ℕ → Type 0
IsNumeral [] = ⊥
IsNumeral (c ∷ s) = ((leb 49 c && leb c 57) ≡ true) × All (λ d. is_digit d ≡ true) s

decimal_onto-zero : (fuel n : ℕ) (out : List ℕ) → n ≡ 0 → decimal_onto fuel n out ≡ out
unfolding decimal_onto
decimal_onto-zero zero n out h = refl
decimal_onto-zero (suc fuel) n out h = ground (arith, h)

read_digits-digit :
    (n : ℕ) (out : List ℕ) → read_digits (n / 10) ((48 + n % 10) ∷ out) ≡ read_digits n out
unfolding read_digits
read_digits-digit n out = ap (λ m. read_digits m out) (omega arith)

read_digits-decimal_onto :
    (fuel n : ℕ) (out : List ℕ)
    → n ≤ fuel
    → read_digits 0 (decimal_onto fuel n out) ≡ read_digits n out
unfolding decimal_onto
read_digits-decimal_onto zero n out h = ap (λ m. read_digits m out) (omega arith)
read_digits-decimal_onto (suc fuel) n out h = elim (Bool-cases (nat_beq n 0)) [
  | inl e ↦ rw e (ap (λ m. read_digits m out) (ground (arith, e)))
  | inr e ↦ rw e (
      read_digits-decimal_onto fuel (n / 10) ((48 + n % 10) ∷ out) (ground (arith, e))
      ∙ read_digits-digit n out)
]

decimal_onto-IsNumeral :
    (fuel n : ℕ) (out : List ℕ)
    → n ≤ fuel
    → 0 < n
    → All (λ d. is_digit d ≡ true) out
    → IsNumeral (decimal_onto fuel n out)
unfolding decimal_onto
decimal_onto-IsNumeral zero n out h p k = absurd (omega arith)
decimal_onto-IsNumeral (suc fuel) n out h p k =
    let nonzero : nat_beq n 0 ≡ false = ground (arith, p) in
    let digit : is_digit (48 + n % 10) ≡ true = ground arith in
    rw nonzero (elim (Bool-cases (nat_beq (n / 10) 0)) [
      | inl e ↦
          rw (decimal_onto-zero fuel (n / 10) ((48 + n % 10) ∷ out) (ground (arith, e)))
            (ground (arith, e, p), k)
      | inr e ↦
          decimal_onto-IsNumeral fuel (n / 10) ((48 + n % 10) ∷ out) (ground (arith, p))
            (ground (arith, e)) (digit, k)
    ])

pub decimal-IsNumeral : (n : ℕ) → 0 < n → IsNumeral (decimal n)
unfolding decimal
decimal-IsNumeral n p =
    let nonzero : nat_beq n 0 ≡ false = ground (arith, p) in
    rw nonzero (decimal_onto-IsNumeral n n [] (omega arith) p tt)

pub read_digits-decimal : (n : ℕ) → read_digits 0 (decimal n) ≡ n
unfolding decimal
read_digits-decimal n = elim (Bool-cases (nat_beq n 0)) [
  | inl e ↦ rw e (unfold read_digits in ground (arith, e))
  | inr e ↦ rw e (read_digits-decimal_onto n n [] (omega arith) ∙ unfold read_digits in refl)
]
