-- ===== src/Prelude/Double.antt =====
-- The natural numbers among the doubles, JavaScript's numbers: all below 2 ^ 53, then those with 53
-- significant binary digits. 2 ^ 1024 stands for Infinity.
use Prim.Native.Nat.{ℕ, zero, suc, ◌+◌, ◌*◌, ◌^◌, ◌/◌, ◌%◌, ◌≤◌, ◌<◌, min}
use mathlib.Core.Path.{◌≡◌, refl}
use mathlib.Core.Logic.{inl, inr}
use mathlib.Core.Bool.{◌&&◌, ◌||◌}
use native.Mathlib.Nat.{le-div_iff_mul-le, mul-le-mul}
use native.Mathlib.Omega.{arith}
use deepseek_harness_communi.Prelude.Tests.{if◌then◌else◌, ltb, nat_beq, Bool-cases}

-- `Number.MAX_SAFE_INTEGER + 1`
abbrev pub exact_limit : ℕ
exact_limit = 9007199254740992

abbrev pub infinity : ℕ
infinity = 2 ^ 1024

-- The distance between the doubles around `n`, which is at least `unit`.
unfoldable pub spacing : ℕ → ℕ → ℕ → ℕ
spacing zero unit n = unit
spacing (suc fuel) unit n =
    let wider = spacing fuel (2 * unit) n in if ltb n (exact_limit * unit) then unit else wider

-- The multiple of `unit` next to `n`, and the even one of two that are as near.
unfoldable pub round_to : ℕ → ℕ → ℕ
round_to unit n =
    let below = n / unit in
    if ltb (2 * (n % unit)) unit || nat_beq (2 * (n % unit)) unit && nat_beq (below % 2) 0
    then below * unit
    else (below + 1) * unit

-- The double next to `n`: the value of a numeral, or of an operation.
unfoldable pub to_double : ℕ → ℕ
to_double n = if ltb n exact_limit then n else min infinity (round_to (spacing 970 2 n) n)

-- `n + 1`
unfoldable pub increment : ℕ → ℕ
increment n = to_double (n + 1)

pub increment-exact_limit : increment exact_limit ≡ exact_limit
unfolding increment to_double round_to spacing
increment-exact_limit = refl

rounds : to_double 9007199254740995 ≡ 9007199254740996
unfolding to_double round_to spacing
rounds = refl

pub to_double-exact : (n : ℕ) → n < exact_limit → to_double n ≡ n
unfolding to_double
to_double-exact n h = ground (arith, h)

spacing-le :
    (fuel unit n : ℕ)
    → 2 ≤ unit
    → exact_limit * unit ≤ 2 * n
    → (2 ≤ spacing fuel unit n) × (exact_limit * spacing fuel unit n ≤ 2 * n)
unfolding spacing
spacing-le zero unit n p h = (p, h)
spacing-le (suc fuel) unit n p h = elim (Bool-cases (ltb n (exact_limit * unit))) [
  | inl e ↦ rw e (p, h)
  | inr e ↦ rw e (spacing-le fuel (2 * unit) n (omega (arith, p)) (ground (arith, e)))
]

-- A number with 53 binary digits or more keeps 53 of them.
round_to-ge : (unit n : ℕ) → 2 ≤ unit → exact_limit * unit ≤ 2 * n → exact_limit ≤ round_to unit n
unfolding round_to
round_to-ge unit n p h =
    let digits : 4503599627370496 ≤ n / unit =
      (le-div_iff_mul-le (omega (arith, p))).1 (omega (arith, h)) in
    let least : 4503599627370496 * 2 ≤ n / unit * unit = mul-le-mul digits p in
    let more : (n / unit + 1) * unit ≡ n / unit * unit + unit = omega arith in
    ground (arith, least, more)

pub to_double-ge : (n : ℕ) → exact_limit ≤ n → exact_limit ≤ to_double n
unfolding to_double
to_double-ge n h =
    let unit = spacing-le 970 2 n (omega arith) (omega (arith, h)) in
    let rounded = round_to-ge (spacing 970 2 n) n unit.0 unit.1 in ground (arith, h, rounded)

-- Below the limit a step is one.
pub increment-exact : (n : ℕ) → n + 1 < exact_limit → increment n ≡ n + 1
unfolding increment
increment-exact n h = to_double-exact (n + 1) h

pub increment-lt : (n : ℕ) → increment n < exact_limit → n + 1 < exact_limit
unfolding increment
increment-lt n h = elim (Bool-cases (ltb (n + 1) exact_limit)) [
  | inl e ↦ ground (arith, e)
  | inr e ↦ absurd (omega (arith, h, to_double-ge (n + 1) (ground (arith, e))))
]
