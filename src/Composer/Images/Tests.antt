-- ===== src/Composer/Images/Tests.antt =====
-- The markers of a text with three images.
use deepseek_harness_communi.Prelude.{ℕ, ◌≡◌, refl, ◌++◌, some, List, [], ◌∷◌, arith}
use deepseek_harness_communi.Prelude.Text.{units, is_space}
use deepseek_harness_communi.Prelude.Double.{increment, to_double}
use deepseek_harness_communi.Prelude.Decimal.{decimal, decimal_onto}
use deepseek_harness_communi.Composer.Images.{
  image_marker, image_markers, next_image_marker, remove_image_marker, image_marker_occurrences,
  occurrences_from, match_marker, match_number, match_digits, first_unused, remove_markers,
  remove_first_image_marker, joined_parts, around,
}
use deepseek_harness_communi.Composer.Images.Fresh.{IsNextMarker, next_image_marker-IsNextMarker}
use deepseek_harness_communi.Composer.Images.Removal.{IsWithout, remove_image_marker-IsWithout}

abbrev text : List ℕ
text = units "see [Image #1] and [Image #12], not [Image #0] or [Image #3"

markers_found : image_markers text ≡ units "[Image #1]" ∷ units "[Image #12]" ∷ []
unfolding image_markers image_marker_occurrences occurrences_from units match_marker match_number
    match_digits
markers_found = refl

second_marker : next_image_marker text (units "[Image #2]" ∷ []) 1 ≡ some (units "[Image #3]", 4)
unfolding image_markers image_marker_occurrences occurrences_from units match_marker match_number
    match_digits next_image_marker first_unused image_marker decimal decimal_onto increment
    to_double
second_marker = refl

one_removed :
    remove_image_marker (units "see [Image #1] and") (units "[Image #1]") ≡ some (units "see and")
unfolding remove_image_marker remove_markers remove_first_image_marker joined_parts around units
    is_space
one_removed = refl

next_image_marker-IsNextMarker_example :
    IsNextMarker
      (image_markers text ++ (units "[Image #2]" ∷ []))
      1
      (next_image_marker text (units "[Image #2]" ∷ []) 1)
next_image_marker-IsNextMarker_example =
    next_image_marker-IsNextMarker text (units "[Image #2]" ∷ []) 1 (rw markers_found (omega arith))

remove_image_marker-IsWithout_example :
    IsWithout (units "[Image #1]") (remove_image_marker text (units "[Image #1]"))
remove_image_marker-IsWithout_example =
    remove_image_marker-IsWithout text (units "[Image #1]") (unfold units in omega arith)
