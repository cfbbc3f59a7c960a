-- ===== src/Composer/Images/Fresh.antt =====
-- `nextImageMarker` ends, with a marker that is not in use, while its numbers are below 2 ^ 53.
use deepseek_harness_communi.Prelude.{
  ℕ, zero, suc, ◌+◌, ◌-◌, ◌≤◌, ◌<◌, max, ◌≡◌, refl, ap, ◌∙◌, Bool, true, false, inl, inr, Option,
  none, some, List, [], ◌∷◌, ◌++◌, Bool-cases, leb, ◌==◌, ==_iff, length, filter, length-filter-le,
  arith,
}
use mathlib.Core.Option
use deepseek_harness_communi.Prelude.Double.{
  exact_limit, increment, increment-exact, increment-lt, increment-exact_limit,
}
use deepseek_harness_communi.Prelude.Decimal.{units_eq}
use deepseek_harness_communi.Composer.Images.{
  image_marker, image_marker_number, image_markers, has, first_unused, next_image_marker,
}
use deepseek_harness_communi.Composer.Images.Numbers.{image_marker_number-image_marker}

-- The text is the marker of a number that is `n` or greater.
abbrev at_least : ℕ → Option ℕ → Bool
at_least n none = false
at_least n (some m) = leb n m

abbrev numbered : ℕ → List ℕ → Bool
numbered n u = at_least n (image_marker_number u)

abbrev left : ℕ → List (List ℕ) → ℕ
left n used = length (filter (numbered n) used)

at_least-suc : (n : ℕ) (o : Option ℕ) → at_least (suc n) o ≡ true → at_least n o ≡ true
at_least-suc n none h = h
at_least-suc n (some m) h = ground (arith, h)

left-suc-le : (n : ℕ) (used : List (List ℕ)) → left (suc n) used ≤ left n used
left-suc-le n [] = omega arith
left-suc-le n (u ∷ used) =
    ground (arith, at_least-suc n (image_marker_number u), left-suc-le n used)

-- A marker in use is not left for the next number.
left-suc-lt :
    (n : ℕ) (used : List (List ℕ))
    → 0 < n
    → n < exact_limit
    → has used (image_marker n) ≡ true
    → left (suc n) used < left n used
left-suc-lt n [] p small h = ground (arith, h)
left-suc-lt n (u ∷ used) p small h = elim (Bool-cases (u == image_marker n)) [
  | inl e ↦
      let same : u ≡ image_marker n = (==_iff u (image_marker n)).0 e in
      let number : image_marker_number u ≡ some n =
        rw same (image_marker_number-image_marker n p small) in
      let here : numbered n u ≡ true = rw number (ground arith) in
      let there : numbered (suc n) u ≡ false = rw number (ground arith) in
      rw (here, there) (ground (arith, left-suc-le n used))
  | inr e ↦ ground (
    arith,
    at_least-suc n (image_marker_number u),
    left-suc-lt n used p small (ground (arith, e, h)),
  )
]

-- The least number from `number` on whose marker is not in use, which is below the greatest number
-- that `+= 1` still passes.
abbrev IsFree : List (List ℕ) → ℕ → Option ℕ → Type 0
IsFree used number none = ⊥
IsFree used number (some n) =
    (number ≤ n)
    × (n + 1 < exact_limit)
    × (has used (image_marker n) ≡ false)
    × ((m : ℕ) → number ≤ m → m < n → has used (image_marker m) ≡ true)

IsFree-suc :
    (used : List (List ℕ)) (number : ℕ) (o : Option ℕ)
    → has used (image_marker number) ≡ true
    → IsFree used (suc number) o
    → IsFree used number o
IsFree-suc used number none h f = f
IsFree-suc used number (some n) h f = (
  omega (arith, f.0),
  f.1,
  f.2,
  λ m le lt. elim (Bool-cases (leb m number)) [
    | inl e ↦ let same : m ≡ number = ground (arith, e, le) in rw same h
    | inr e ↦ f.3 m (ground (arith, e)) lt
  ],
)

suc_number : (n : ℕ) → n + 1 ≡ suc n
suc_number n = omega arith

first_unused-IsFree :
    (fuel : ℕ) (used : List (List ℕ)) (number : ℕ)
    → 0 < number
    → left number used < fuel
    → number + left number used + 1 < exact_limit
    → IsFree used number (first_unused fuel used number)
unfolding first_unused
first_unused-IsFree zero used number p h small = absurd (omega arith)
first_unused-IsFree (suc fuel) used number p h small =
    elim (Bool-cases (has used (image_marker number))) [
      | inl e ↦
          let fewer : left (suc number) used < left number used =
            left-suc-lt number used p (omega (arith, small)) e in
          let step : increment number ≡ suc number =
            increment-exact number (omega (arith, small, fewer)) ∙ suc_number number in
          rw (e, step)
            (IsFree-suc used number (first_unused fuel used (suc number)) e (
              first_unused-IsFree fuel used (suc number) (omega arith) (omega (arith, h, fewer))
                (omega (arith, small, fewer))))
      | inr e ↦ rw e (omega arith, omega (arith, small), e, λ m le lt. absurd (omega arith))
    ]

-- The next marker is that of a number below 2 ^ 53, and not in use; the number is 1 and `start` at
-- least, and the markers of all numbers between are in use.
abbrev pub IsNextMarker : List (List ℕ) → ℕ → Option (List ℕ × ℕ) → Type 0
IsNextMarker used start none = ⊥
IsNextMarker used start (some (marker, next)) =
    (max 1 start < next)
    × (next < exact_limit)
    × (marker ≡ image_marker (next - 1))
    × (has used marker ≡ false)
    × ((m : ℕ) → max 1 start ≤ m → m < next - 1 → has used (image_marker m) ≡ true)

IsFree-IsNextMarker :
    (used : List (List ℕ)) (start : ℕ) (o : Option ℕ)
    → IsFree used (max 1 start) o
    → IsNextMarker used start (Option.map (λ n. (image_marker n, increment n)) o)
IsFree-IsNextMarker used start none f = f
IsFree-IsNextMarker used start (some n) f =
    let step : increment n ≡ n + 1 = increment-exact n f.1 in
    rw step (
      omega (arith, f.0),
      f.1,
      ap image_marker (omega arith),
      f.2,
      λ m le lt. f.3 m le (omega (arith, lt)),
    )

-- When the number to start at, 1 at least, plus the count of the markers in use is below 2 ^ 53 -
-- 1, the search for the next marker ends. Its marker is neither in the text nor one of those given
-- as occupied, and it is the first such marker from that number on.
pub next_image_marker-IsNextMarker :
    (text : List ℕ) (occupied : List (List ℕ)) (start : ℕ)
    → max 1 start + length (image_markers text ++ occupied) + 1 < exact_limit
    → IsNextMarker (image_markers text ++ occupied) start (next_image_marker text occupied start)
unfolding next_image_marker
next_image_marker-IsNextMarker text occupied start small =
    let used = image_markers text ++ occupied in
    let most = length-filter-le (numbered (max 1 start)) used in
    IsFree-IsNextMarker used start (first_unused (suc (length used)) used (max 1 start)) (
      first_unused-IsFree (suc (length used)) used (max 1 start) (omega arith) (omega (arith, most))
        (omega (arith, most, small)))

-- The numbers of a search that ends below 2 ^ 53 are all below it.
first_unused-le :
    (fuel : ℕ) (used : List (List ℕ)) (number n : ℕ)
    → first_unused fuel used number ≡ some n
    → n < exact_limit
    → number ≤ n
unfolding first_unused
first_unused-le zero used number n e h = cc
first_unused-le (suc fuel) used number n e h = elim (Bool-cases (has used (image_marker number))) [
  | inl k ↦
      let rest : first_unused fuel used (increment number) ≡ some n = ground (arith, e, k) in
      let later = first_unused-le fuel used (increment number) n rest h in
      let small = increment-lt number (omega (arith, later, h)) in
      omega (arith, later, increment-exact number small)
  | inr k ↦ let here : number ≡ n = ground (arith, e, k) in omega (arith, here)
]

-- The next marker and the number after it, while that number is below 2 ^ 53.
abbrev pub IsNumbered : ℕ → Option (List ℕ × ℕ) → Type 0
IsNumbered start none = Unit
IsNumbered start (some (marker, next)) =
    next < exact_limit → (max 1 start < next) × (marker ≡ image_marker (next - 1))

first_unused-IsNumbered :
    (start : ℕ) (used : List (List ℕ)) (fuel : ℕ) (found : Option ℕ)
    → first_unused fuel used (max 1 start) ≡ found
    → IsNumbered start (Option.map (λ n. (image_marker n, increment n)) found)
first_unused-IsNumbered start used fuel none e = tt
first_unused-IsNumbered start used fuel (some n) e = λ h.
    let small = increment-lt n h in
    let step = increment-exact n small in
    let le = first_unused-le fuel used (max 1 start) n e (omega (arith, small)) in
    (omega (arith, step, le), ap image_marker (omega (arith, step)))

pub next_image_marker-IsNumbered :
    (text : List ℕ) (occupied : List (List ℕ)) (start : ℕ)
    → IsNumbered start (next_image_marker text occupied start)
unfolding next_image_marker
next_image_marker-IsNumbered text occupied start =
    let used = image_markers text ++ occupied in
    first_unused-IsNumbered start used (suc (length used))
      (first_unused (suc (length used)) used (max 1 start)) refl

-- From 2 ^ 53 on the number stays what it is: the loop does not end when its marker is in use.
first_unused-stuck :
    (fuel : ℕ) (used : List (List ℕ))
    → has used (image_marker exact_limit) ≡ true
    → first_unused fuel used exact_limit ≡ none
unfolding first_unused
first_unused-stuck zero used h = refl
first_unused-stuck (suc fuel) used h =
    rw (h, increment-exact_limit) (first_unused-stuck fuel used h)
