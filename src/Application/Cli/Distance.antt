-- ===== src/Application/Cli/Distance.antt =====
-- packages/tui/src/application/cli.ts: `editDistance` and `closest`, which find the known word that
-- a mistyped one is near to. The texts are lists of character codes. `before` is
-- `left.localeCompare(right) < 0`, the collation of the platform.
pub mod Levenshtein
pub mod Closest
use deepseek_harness_communi.Prelude.{
  ℕ, suc, ◌+◌, ◌/◌, min, max, Bool, ◌&&◌, ◌||◌, Option, none, some, List, [], ◌∷◌, String,
  if◌then◌else◌, ltb, nat_beq, map,
}
use deepseek_harness_communi.Prelude.Text.{units, text_length}

-- The first row, `Array.from({ length: right.length + 1 }, (_, index) => index)`.
unfoldable pub first_row : ℕ → List ℕ → List ℕ
first_row index [] = index ∷ []
first_row index (c ∷ right) = index ∷ first_row (suc index) right

-- The inner loop: `latest` is the number pushed last, and `previous` begins at `rightIndex`.
unfoldable pub next_row : ℕ → ℕ → List ℕ → List ℕ → List ℕ
next_row a latest (diagonal ∷ above ∷ previous) (c ∷ right) =
    let value = min (min (latest + 1) (above + 1)) (diagonal + (if nat_beq a c then 0 else 1)) in
    value ∷ next_row a value (above ∷ previous) right
next_row a latest previous right = []

-- The outer loop from the row of `leftIndex` on.
unfoldable pub rows : ℕ → List ℕ → List ℕ → List ℕ → List ℕ
rows left_index previous [] right = previous
rows left_index previous (a ∷ left) right =
    rows (suc left_index) ((left_index + 1) ∷ next_row a (left_index + 1) previous right) left right

-- `previous[right.length]`; the row has that many entries and one more.
unfoldable pub last_entry : ℕ → List ℕ → ℕ
last_entry otherwise [] = otherwise
last_entry otherwise (n ∷ row) = last_entry n row

unfoldable pub edit_distance : List ℕ → List ℕ → ℕ
edit_distance left right = last_entry 0 (rows 0 (first_row 0 right) left right)

pub record Ranked : Type 0 where
  pub candidate : String
  pub distance : ℕ

unfoldable pub rank : String → String → Ranked
rank value candidate = record {
  candidate = candidate;
  distance = edit_distance (units value) (units candidate);
}

abbrev pub limit : String → ℕ
limit value = max 2 (text_length value / 3)

unfoldable pub within_limit : ℕ → List Ranked → Option String
within_limit most [] = none
within_limit most (match ∷ rest) = if ltb most match.distance then none else some match.candidate

module _ (before : String → String → Bool) where
  -- The comparison of the sort is negative.
  unfoldable pub precedes : Ranked → Ranked → Bool
  precedes a b =
      ltb a.distance b.distance || (nat_beq a.distance b.distance && before a.candidate b.candidate)

  unfoldable pub insert_ranked : Ranked → List Ranked → List Ranked
  insert_ranked a [] = a ∷ []
  insert_ranked a (b ∷ rest) = if precedes b a then b ∷ insert_ranked a rest else a ∷ b ∷ rest

  -- A stable sort.
  unfoldable pub sort_ranked : List Ranked → List Ranked
  sort_ranked [] = []
  sort_ranked (a ∷ rest) = insert_ranked a (sort_ranked rest)

  unfoldable pub closest : String → List String → Option String
  closest value candidates = within_limit (limit value) (sort_ranked (map (rank value) candidates))
