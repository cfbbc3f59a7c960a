-- ===== src/Application/Cli/Distance/Levenshtein.antt =====
-- `editDistance` against the recursive definition of the distance.
use deepseek_harness_communi.Prelude.{
  ℕ, suc, ◌+◌, min, ◌≡◌, refl, ap, ◌∙◌, List, [], ◌∷◌, if◌then◌else◌, nat_beq, length,
}
use deepseek_harness_communi.Application.Cli.Distance.{
  first_row, next_row, rows, last_entry, edit_distance,
}

-- The fewest insertions, deletions and replacements that turn the one list into the other.
unfoldable pub levenshtein : List ℕ → List ℕ → ℕ
levenshtein [] right = length right
levenshtein (a ∷ left) [] = length left + 1
levenshtein (a ∷ left) (c ∷ right) =
    min (min (levenshtein (a ∷ left) right + 1) (levenshtein left (c ∷ right) + 1))
      (levenshtein left right + (if nat_beq a c then 0 else 1))

-- The elements in reverse order, before those of the second list.
abbrev pub reverse_onto : List ℕ → List ℕ → List ℕ
reverse_onto [] done = done
reverse_onto (a ∷ rest) done = reverse_onto rest (a ∷ done)

-- The distances of `p` to the lists that begin with `q`.
later_entries : List ℕ → List ℕ → List ℕ → List ℕ
later_entries p q [] = []
later_entries p q (c ∷ right) = levenshtein p (c ∷ q) ∷ later_entries p (c ∷ q) right

abbrev row_of : List ℕ → List ℕ → List ℕ → List ℕ
row_of p q right = levenshtein p q ∷ later_entries p q right

first_row-row_of : (q right : List ℕ) → first_row (length q) right ≡ row_of [] q right
unfolding first_row levenshtein later_entries
first_row-row_of q [] = refl
first_row-row_of q (c ∷ right) = ap (λ row. length q ∷ row) (first_row-row_of (c ∷ q) right)

levenshtein-step :
    (a c : ℕ) (left right : List ℕ)
    → min
        (min (levenshtein (a ∷ left) right + 1) (levenshtein left (c ∷ right) + 1))
        (levenshtein left right + (if nat_beq a c then 0 else 1))
      ≡ levenshtein (a ∷ left) (c ∷ right)
unfolding levenshtein
levenshtein-step a c left right = refl

next_row-row_of :
    (a : ℕ) (p q right : List ℕ)
    → next_row a (levenshtein (a ∷ p) q) (row_of p q right) right ≡ later_entries (a ∷ p) q right
unfolding next_row later_entries
next_row-row_of a p q [] = refl
next_row-row_of a p q (c ∷ right) =
    ap (λ value. value ∷ next_row a value (row_of p (c ∷ q) right) right) (levenshtein-step a c p q)
    ∙ ap (λ row. levenshtein (a ∷ p) (c ∷ q) ∷ row) (next_row-row_of a p (c ∷ q) right)

rows-row_of :
    (p left right : List ℕ)
    → rows (length p) (row_of p [] right) left right ≡ row_of (reverse_onto left p) [] right
unfolding rows
rows-row_of p [] right = refl
rows-row_of p (a ∷ left) right =
    let step : (length p + 1) ∷ next_row a (length p + 1) (row_of p [] right) right
        ≡ row_of (a ∷ p) [] right =
      unfold levenshtein in ap (λ row. (length p + 1) ∷ row) (next_row-row_of a p [] right) in
    ap (λ row. rows (suc (length p)) row left right) step ∙ rows-row_of (a ∷ p) left right

last_entry-row_of :
    (otherwise : ℕ) (p q right : List ℕ)
    → last_entry otherwise (row_of p q right) ≡ levenshtein p (reverse_onto right q)
unfolding last_entry later_entries
last_entry-row_of otherwise p q [] = refl
last_entry-row_of otherwise p q (c ∷ right) = last_entry-row_of (levenshtein p q) p (c ∷ q) right

-- The distance that the two rows compute is the Levenshtein distance of the reversed texts: the loops
-- compare from the front, so the recursion removes the last characters first.
pub edit_distance-levenshtein :
    (left right : List ℕ)
    → edit_distance left right ≡ levenshtein (reverse_onto left []) (reverse_onto right [])
unfolding edit_distance
edit_distance-levenshtein left right =
    ap (λ row. last_entry 0 (rows 0 row left right)) (first_row-row_of [] right)
    ∙ ap (last_entry 0) (rows-row_of [] left right)
    ∙ last_entry-row_of 0 (reverse_onto left []) [] right
