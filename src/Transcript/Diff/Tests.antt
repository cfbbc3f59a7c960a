-- ===== src/Transcript/Diff/Tests.antt =====
-- An edit of the first of five lines, the comparison of whose texts is a fixed function here.
use Prim.Native.String.{◌++◌ as text_append}
use deepseek_harness_communi.Prelude.{
  zero, suc, ℕ, ◌≡◌, refl, true, false, none, some, List, [], ◌∷◌, String, is_empty, if◌then◌else◌,
}
use deepseek_harness_communi.Transcript.Diff.{
  DiffDisplayLine, context, add, FileDiff, LineChange, build_diff_display, changed_from,
  compact_context,
}
use deepseek_harness_communi.Transcript.Diff.Compact.{
  compact_context-near_rows, without_gaps, near_rows,
}
use deepseek_harness_communi.Transcript.Diff.Counts.{
  build_diff_display-counts, count_added, count_deleted,
}

-- All the old lines are removed and all the new ones added.
abbrev diff_lines : String → String → List LineChange
diff_lines old new =
    record { value = old; added = false; removed = true }
    ∷ record { value = new; added = true; removed = false }
    ∷ []

abbrev operation_name : String → List FileDiff → String
operation_name title diffs = "Update"

-- A number in unary.
abbrev number_text : ℕ → String
number_text zero = ""
number_text (suc n) = text_append "1" (number_text n)

abbrev edit : FileDiff
edit = record { path = "a.ts"; old_text = some "a\nb\n"; new_text = "c\nb\nd" }

abbrev row : String → DiffDisplayLine
row text = record { kind = context; path = "a.ts"; text = text; number = none }

abbrev hunk : List DiffDisplayLine
hunk =
    record { kind = add; path = "a.ts"; text = "new"; number = none }
    ∷ row "b"
    ∷ row "c"
    ∷ row "d"
    ∷ row "e"
    ∷ []

build_diff_display-counts_example :
    let model =
      build_diff_display diff_lines operation_name number_text "Edit" (edit ∷ []) (some 3 ∷ []) in
    (count_added model.lines ≡ model.added) × (count_deleted model.lines ≡ model.removed)
build_diff_display-counts_example =
    build_diff_display-counts diff_lines operation_name number_text "Edit" (edit ∷ []) (some 3 ∷ [])

compact_context-near_rows_example :
    without_gaps (compact_context hunk "a.ts")
    ≡ (if is_empty (changed_from 0 hunk) then hunk else near_rows (changed_from 0 hunk) 0 hunk)
compact_context-near_rows_example =
    compact_context-near_rows hunk "a.ts" (refl, (refl, (refl, (refl, (refl, tt)))))
