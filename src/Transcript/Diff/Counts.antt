-- ===== src/Transcript/Diff/Counts.antt =====
-- The numbers of lines added and removed are those of the rows.
use deepseek_harness_communi.Prelude.{
  ℕ, suc, ◌+◌, ◌≡◌, refl, Bool, true, false, inl, inr, Option, none, some, List, [], ◌∷◌, ◌++◌,
  String, if◌then◌else◌, length, All, arith, Bool-cases, Option-cases, All-append, get_elem?,
  string_eq, option_eq,
}
use mathlib.Core.Option
use deepseek_harness_communi.Transcript.Diff.{
  RowKind, context, del, add, DiffDisplayLine, FileDiff, LineChange, Hunk, push_line, push_texts,
  push_changes, content_lines, new_file_rows, HunkRows, push_hunk, heading, push_diffs,
  build_diff_display, compact_context,
}
use deepseek_harness_communi.Transcript.Diff.Compact.{
  IsPlain, is_gap, changed_rows, changed_rows-compact_context,
}

abbrev is_add : RowKind → Bool
is_add add = true
is_add kind = false

abbrev is_del : RowKind → Bool
is_del del = true
is_del kind = false

-- The number of rows that show an added line, and a removed one.
abbrev pub count_added : List DiffDisplayLine → ℕ
count_added [] = 0
count_added (r ∷ rows) = let rest = count_added rows in if is_add r.kind then suc rest else rest

abbrev pub count_deleted : List DiffDisplayLine → ℕ
count_deleted [] = 0
count_deleted (r ∷ rows) = let rest = count_deleted rows in if is_del r.kind then suc rest else rest

count_added-append :
    (xs ys : List DiffDisplayLine) → count_added (xs ++ ys) ≡ count_added xs + count_added ys
count_added-append [] ys = omega arith
count_added-append (x ∷ xs) ys = ground (arith, count_added-append xs ys)

count_deleted-append :
    (xs ys : List DiffDisplayLine) → count_deleted (xs ++ ys) ≡ count_deleted xs + count_deleted ys
count_deleted-append [] ys = omega arith
count_deleted-append (x ∷ xs) ys = ground (arith, count_deleted-append xs ys)

count_added-changed_rows :
    (rows : List DiffDisplayLine) → count_added (changed_rows rows) ≡ count_added rows
count_added-changed_rows [] = refl
count_added-changed_rows (r ∷ rows) = ground (arith, count_added-changed_rows rows)

count_deleted-changed_rows :
    (rows : List DiffDisplayLine) → count_deleted (changed_rows rows) ≡ count_deleted rows
count_deleted-changed_rows [] = refl
count_deleted-changed_rows (r ∷ rows) = ground (arith, count_deleted-changed_rows rows)

record IsCounted (h : Hunk) : Type 0 where
  added_rows : count_added h.rows ≡ h.added
  deleted_rows : count_deleted h.rows ≡ h.removed
  plain : All IsPlain h.rows

-- A row pushed at the end.
counted :
    (h h' : Hunk) (row : DiffDisplayLine)
    → h'.rows ≡ h.rows ++ (row ∷ [])
    → is_gap row.kind ≡ false
    → h'.added ≡ (if is_add row.kind then h.added + 1 else h.added)
    → h'.removed ≡ (if is_del row.kind then h.removed + 1 else h.removed)
    → IsCounted h
    → IsCounted h'
counted h h' row rows plain added removed v = record {
  added_rows = ground (arith, rows, added, v.added_rows, count_added-append h.rows (row ∷ []));
  deleted_rows =
      ground (arith, rows, removed, v.deleted_rows, count_deleted-append h.rows (row ∷ []));
  plain = rw rows (All-append IsPlain h.rows (row ∷ []) v.plain (plain, tt));
}

push_line-IsCounted :
    (path : String) (change : LineChange) (h : Hunk) (text : String)
    → IsCounted h
    → IsCounted (push_line path change h text)
unfolding push_line
push_line-IsCounted path change h text v = elim (Bool-cases change.removed) [
  | inl gone ↦
      rw (gone, push_line)
        (counted h _ (record { kind = del; path = path; text = text; number = h.old_number }) refl
          refl refl refl v)
  | inr here ↦
      rw (here, push_line)
        (elim (Bool-cases change.added) [
          | inl new ↦ rw new (
              counted h _ (record { kind = add; path = path; text = text; number = h.new_number })
                refl refl refl refl v)
          | inr old ↦ rw old (
              counted h _
                (record { kind = context; path = path; text = text; number = h.new_number }) refl
                refl refl refl v)
        ])
]

push_texts-IsCounted :
    (path : String) (change : LineChange) (h : Hunk) (texts : List String)
    → IsCounted h
    → IsCounted (push_texts path change h texts)
unfolding push_texts
push_texts-IsCounted path change h [] v = v
push_texts-IsCounted path change h (text ∷ texts) v =
    push_texts-IsCounted path change (push_line path change h text) texts
      (push_line-IsCounted path change h text v)

push_changes-IsCounted :
    (path : String) (h : Hunk) (changes : List LineChange)
    → IsCounted h
    → IsCounted (push_changes path h changes)
unfolding push_changes
push_changes-IsCounted path h [] v = v
push_changes-IsCounted path h (change ∷ changes) v =
    push_changes-IsCounted path (push_texts path change h (content_lines change.value)) changes
      (push_texts-IsCounted path change h (content_lines change.value) v)

new_file_rows-counts :
    (path : String) (n : ℕ) (texts : List String)
    → (count_added (new_file_rows path n texts) ≡ length texts)
      × (count_deleted (new_file_rows path n texts) ≡ 0)
unfolding new_file_rows
new_file_rows-counts path n [] = (refl, refl)
new_file_rows-counts path n (text ∷ texts) = ground (arith, new_file_rows-counts path (n + 1) texts)

abbrev pub AreCounted : HunkRows → Type 0
AreCounted r = (count_added r.rows ≡ r.added) × (count_deleted r.rows ≡ r.removed)

folded :
    (h : Hunk) (path : String)
    → IsCounted h
    → (count_added (compact_context h.rows path) ≡ h.added)
      × (count_deleted (compact_context h.rows path) ≡ h.removed)
folded h path v =
    let kept = changed_rows-compact_context h.rows path v.plain in
    (
      ground (
        arith,
        kept,
        v.added_rows,
        count_added-changed_rows h.rows,
        count_added-changed_rows (compact_context h.rows path),
      ),
      ground (
        arith,
        kept,
        v.deleted_rows,
        count_deleted-changed_rows h.rows,
        count_deleted-changed_rows (compact_context h.rows path),
      ),
    )

joined :
    (head : List DiffDisplayLine) (a b : HunkRows)
    → (count_added head ≡ 0) × (count_deleted head ≡ 0)
    → AreCounted a
    → AreCounted b
    → AreCounted (record {
      rows = head ++ a.rows ++ b.rows;
      added = a.added + b.added;
      removed = a.removed + b.removed;
    })
joined head a b empty one others = (
  omega (
    arith,
    empty.0,
    one.0,
    others.0,
    count_added-append (head ++ a.rows) b.rows,
    count_added-append head a.rows,
  ),
  omega (
    arith,
    empty.1,
    one.1,
    others.1,
    count_deleted-append (head ++ a.rows) b.rows,
    count_deleted-append head a.rows,
  ),
)

module _ (diff_lines : String → String → List LineChange) where
  push_hunk-counts :
      (diff : FileDiff) (start : Option ℕ) → AreCounted (push_hunk diff_lines diff start)
  unfolding push_hunk
  push_hunk-counts diff start = elim (Option-cases diff.old_text) [
    | inl new ↦ rw new (new_file_rows-counts diff.path 1 (content_lines diff.new_text))
    | inr (old, edited) ↦ rw edited (
        folded _ diff.path (
          push_changes-IsCounted diff.path
            (record { rows = []; old_number = start; new_number = start; added = 0; removed = 0 })
            (diff_lines old diff.new_text)
            (record { added_rows = refl; deleted_rows = refl; plain = tt })))
  ]

  heading-counts :
      (several : Bool) (previous : Option String) (path : String)
      → (count_added (heading diff_lines several previous path) ≡ 0)
        × (count_deleted (heading diff_lines several previous path) ≡ 0)
  unfolding heading
  heading-counts several previous path = ground arith

  push_diffs-counts :
      (several : Bool) (starts : List (Option ℕ)) (i : ℕ) (previous : Option String)
      (diffs : List FileDiff)
      → AreCounted (push_diffs diff_lines several starts i previous diffs)
  unfolding push_diffs
  push_diffs-counts several starts i previous [] = (refl, refl)
  push_diffs-counts several starts i previous (diff ∷ diffs) =
      joined (heading diff_lines several previous diff.path)
        (push_hunk diff_lines diff (Option.bind (get_elem? starts i) (λ (s : Option ℕ). s)))
        (push_diffs diff_lines several starts (suc i) (some diff.path) diffs)
        (heading-counts several previous diff.path)
        (push_hunk-counts diff (Option.bind (get_elem? starts i) (λ (s : Option ℕ). s)))
        (push_diffs-counts several starts (suc i) (some diff.path) diffs)

  -- Whatever the line comparison reports, the card announces as many added and removed lines as it
  -- shows rows of each kind.
  pub build_diff_display-counts :
      (operation_name : String → List FileDiff → String) (number_text : ℕ → String) (title : String)
      (diffs : List FileDiff) (starts : List (Option ℕ))
      → let model = build_diff_display diff_lines operation_name number_text title diffs starts in
        (count_added model.lines ≡ model.added) × (count_deleted model.lines ≡ model.removed)
  unfolding build_diff_display
  build_diff_display-counts operation_name number_text title diffs starts =
      push_diffs-counts _ starts 0 none diffs
