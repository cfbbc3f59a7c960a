-- ===== src/Composer/Images/Numbers.antt =====
-- `imageMarker` and `imageMarkerNumber`.
use deepseek_harness_communi.Prelude.{ℕ, ◌<◌, ◌≡◌, refl, true, some, List, [], ◌∷◌, ◌++◌, All}
use mathlib.Core.List.{append_assoc, append-nil}
use deepseek_harness_communi.Prelude.Double.{exact_limit, to_double-exact}
use deepseek_harness_communi.Prelude.Decimal.{
  decimal, is_digit, IsNumeral, decimal-IsNumeral, read_digits-decimal,
}
use deepseek_harness_communi.Composer.Images.{
  image_marker, match_digits, match_number, match_marker, image_marker_number,
}

-- Digits and a bracket are read to the end.
match_digits-append :
    (digits more rest : List ℕ)
    → All (λ d. is_digit d ≡ true) more
    → match_digits digits (more ++ (93 ∷ rest)) ≡ some (digits ++ more, rest)
unfolding match_digits
match_digits-append digits [] rest h = rw (append-nil digits) refl
match_digits-append digits (d ∷ more) rest h =
    rw
      (
        h.0,
        match_digits-append (digits ++ (d ∷ [])) more rest h.1,
        append_assoc digits (d ∷ []) more,
      )
      refl

match_number-append :
    (digits rest : List ℕ)
    → IsNumeral digits
    → match_number (digits ++ (93 ∷ rest)) ≡ some (digits, rest)
unfolding match_number
match_number-append [] rest h = absurd h
match_number-append (c ∷ digits) rest h = rw (h.0) (match_digits-append (c ∷ []) digits rest h.1)

match_marker-image_marker : (n : ℕ) → 0 < n → match_marker (image_marker n) ≡ some (decimal n, [])
unfolding match_marker image_marker
match_marker-image_marker n p = match_number-append (decimal n) [] (decimal-IsNumeral n p)

-- The number of the marker of a positive number below 2 ^ 53 is that number.
pub image_marker_number-image_marker :
    (n : ℕ) → 0 < n → n < exact_limit → image_marker_number (image_marker n) ≡ some n
unfolding image_marker_number
image_marker_number-image_marker n p h =
    rw (match_marker-image_marker n p, read_digits-decimal n, to_double-exact n h) refl
