-- ===== src/Composer/Images.antt =====
-- packages/tui/src/modules/composer/image-reference.ts: the markers `[Image #n]` that stand for the
-- images in a prompt. A text is the list of its character codes, and a number is a double: the
-- digits of `image_marker` are those that the language prints up to 2 ^ 54.
pub mod Numbers
pub mod Fresh
pub mod Removal
mod Tests
use deepseek_harness_communi.Prelude.{
  ℕ, zero, suc, ◌+◌, ◌-◌, max, Bool, true, false, not, ◌&&◌, ◌||◌, Option, none, some, is_some,
  List, [], ◌∷◌, ◌++◌, map, if◌then◌else◌, nat_beq, leb, ◌==◌, any, length, drop, take, get_elem?,
  is_empty,
}
use mathlib.Core.Option
use deepseek_harness_communi.Prelude.Text.{is_space}
use deepseek_harness_communi.Prelude.Double.{to_double, increment}
use deepseek_harness_communi.Prelude.Decimal.{decimal, read_digits, is_digit, units_eq}

-- `[Image #`
abbrev pub marker_start : List ℕ
marker_start = 91 ∷ 73 ∷ 109 ∷ 97 ∷ 103 ∷ 101 ∷ 32 ∷ 35 ∷ []

unfoldable pub image_marker : ℕ → List ℕ
image_marker number = marker_start ++ (decimal number ++ (93 ∷ []))

-- What is behind the prefix, if the text begins with it.
abbrev pub behind : List ℕ → List ℕ → Option (List ℕ)
behind [] text = some text
behind (c ∷ prefix) [] = none
behind (c ∷ prefix) (d ∷ text) = if nat_beq c d then behind prefix text else none

-- `\d*` and then `]`, behind the digits read before: all digits, and the text behind the bracket.
unfoldable pub match_digits : List ℕ → List ℕ → Option (List ℕ × List ℕ)
match_digits digits [] = none
match_digits digits (c ∷ text) =
    let more = match_digits (digits ++ (c ∷ [])) text in
    if is_digit c then more else if nat_beq c 93 then some (digits, text) else none

-- `[1-9]\d*` and then `]`
unfoldable pub match_number : List ℕ → Option (List ℕ × List ℕ)
match_number [] = none
match_number (c ∷ text) = if leb 49 c && leb c 57 then match_digits (c ∷ []) text else none

-- The pattern of a marker at the beginning of the text.
unfoldable pub match_marker : List ℕ → Option (List ℕ × List ℕ)
match_marker text = elim (behind marker_start text) [ none ↦ none | some rest ↦ match_number rest ]

abbrev number_of : Option (List ℕ × List ℕ) → Option ℕ
number_of none = none
number_of (some (digits, [])) = some (to_double (read_digits 0 digits))
number_of (some (digits, c ∷ rest)) = none

-- `IMAGE_MARKER_SINGLE_PATTERN`, which matches the whole text; `Number` rounds to a double.
unfoldable pub image_marker_number : List ℕ → Option ℕ
image_marker_number marker = number_of (match_marker marker)

pub record ImageMarkerOccurrence : Type 0 where
  pub marker : List ℕ
  pub index : ℕ

-- `text.matchAll(IMAGE_MARKER_PATTERN)` from `index` on, where the next `skip` characters belong to a
-- marker that was found.
unfoldable pub occurrences_from : ℕ → ℕ → List ℕ → List ImageMarkerOccurrence
occurrences_from index skip [] = []
occurrences_from index (suc skip) (c ∷ text) = occurrences_from (suc index) skip text
occurrences_from index zero (c ∷ text) = elim (match_marker (c ∷ text)) [
  | none ↦ occurrences_from (suc index) 0 text
  | some (digits, rest) ↦
      let marker = marker_start ++ (digits ++ (93 ∷ [])) in
      record { marker = marker; index = index }
      ∷ occurrences_from (suc index) (length marker - 1) text
]

unfoldable pub image_marker_occurrences : List ℕ → List ImageMarkerOccurrence
image_marker_occurrences text = occurrences_from 0 0 text

unfoldable pub image_markers : List ℕ → List (List ℕ)
image_markers text = map (λ o. o.marker) (image_marker_occurrences text)

abbrev pub has : List (List ℕ) → List ℕ → Bool
has used marker = any (λ u. u == marker) used

-- `while (used.has(imageMarker(number))) number += 1`, with `fuel` tests at most. From 2 ^ 53 on the
-- number may stay what it is, and the loop never ends.
unfoldable pub first_unused : ℕ → List (List ℕ) → ℕ → Option ℕ
first_unused zero used number = none
first_unused (suc fuel) used number =
    let later = first_unused fuel used (increment number) in
    if has used (image_marker number) then later else some number

-- The marker, and the number after its own. Below 2 ^ 53 the loop meets each marker in
-- use at most once.
unfoldable pub next_image_marker : List ℕ → List (List ℕ) → ℕ → Option (List ℕ × ℕ)
next_image_marker text occupied start_at =
    let used = image_markers text ++ occupied in
    Option.map (λ n. (image_marker n, increment n))
      (first_unused (suc (length used)) used (max 1 start_at))

-- `/\s$/u` and `/^\s/u`
abbrev pub ends_with_space : List ℕ → Bool
ends_with_space [] = false
ends_with_space (c ∷ []) = is_space c
ends_with_space (c ∷ d ∷ text) = ends_with_space (d ∷ text)

abbrev pub begins_with_space : List ℕ → Bool
begins_with_space [] = false
begins_with_space (c ∷ text) = is_space c

abbrev line_at : List (List ℕ) → ℕ → List ℕ
line_at lines line = elim (get_elem? lines line) [ none ↦ [] | some text ↦ text ]

unfoldable pub image_marker_insertion : List (List ℕ) → ℕ → ℕ → List ℕ → List ℕ
image_marker_insertion lines line col marker =
    let before = take col (line_at lines line) in
    let after = drop col (line_at lines line) in
    (if not (is_empty before) && not (ends_with_space before) then 32 ∷ [] else [])
    ++ (marker ++ (if is_empty after || not (begins_with_space after) then 32 ∷ [] else []))

-- `text.slice(0, text.indexOf(marker))` and `text.slice(text.indexOf(marker) + marker.length)`
unfoldable pub around : List ℕ → List ℕ → Option (List ℕ × List ℕ)
around [] marker = Option.map (λ after. ([], after)) (behind marker [])
around (c ∷ text) marker = elim (behind marker (c ∷ text)) [
  | some after ↦ some ([], after)
  | none ↦ Option.map (λ parts. (c ∷ parts.0, parts.1)) (around text marker)
]

abbrev pub includes : List ℕ → List ℕ → Bool
includes text marker = is_some (around text marker)

-- `text.slice(0, -1)`
abbrev pub without_last : List ℕ → List ℕ
without_last [] = []
without_last (c ∷ []) = []
without_last (c ∷ d ∷ text) = c ∷ without_last (d ∷ text)

abbrev pub begins_with_blank : List ℕ → Bool
begins_with_blank [] = false
begins_with_blank (c ∷ text) = nat_beq c 32

abbrev pub ends_with_blank : List ℕ → Bool
ends_with_blank [] = false
ends_with_blank (c ∷ []) = nat_beq c 32
ends_with_blank (c ∷ d ∷ text) = ends_with_blank (d ∷ text)

unfoldable pub joined_parts : List ℕ → List ℕ → List ℕ
joined_parts before after =
    if ends_with_space before && begins_with_space after
    then before ++ drop 1 after
    else if is_empty before && begins_with_blank after
    then drop 1 after
    else if is_empty after && ends_with_blank before
    then without_last before
    else before ++ after

unfoldable pub remove_first_image_marker : List ℕ → List ℕ → List ℕ
remove_first_image_marker text marker = elim (around text marker) [
  | none ↦ text
  | some (before, after) ↦ joined_parts before after
]

-- The loop, with `fuel` tests at most.
unfoldable pub remove_markers : ℕ → List ℕ → List ℕ → Option (List ℕ)
remove_markers zero text marker = none
remove_markers (suc fuel) text marker =
    let rest = remove_markers fuel (remove_first_image_marker text marker) marker in
    if includes text marker then rest else some text

-- Each round makes the text shorter.
unfoldable pub remove_image_marker : List ℕ → List ℕ → Option (List ℕ)
remove_image_marker text marker = remove_markers (suc (length text)) text marker
