-- ===== src/Transcript/Diff.antt =====
-- packages/tui/src/modules/transcript/diff.ts: the rows of an inline file-edit card. The line
-- comparison of the `diff` package, the printing of numbers and the operation's name, which the
-- source takes from the title by regular expressions, are parameters.
pub mod Compact
pub mod Counts
mod Tests
use Prim.Native.Char.{Char, code}
use Prim.Native.String
use deepseek_harness_communi.Prelude.{
  ℕ, zero, suc, ◌+◌, ◌-◌, min, Bool, true, false, not, ◌&&◌, ◌||◌, Option, none, some, List, [],
  ◌∷◌, ◌++◌, String, if◌then◌else◌, is_empty, any, leb, ltb, length, map, nat_beq, get_elem?, ◌==◌,
  string_eq, option_eq,
}
use mathlib.Core.Option

pub data RowKind : Type 0 where
  context : RowKind
  del : RowKind
  add : RowKind
  file : RowKind
  gap : RowKind

pub record DiffDisplayLine : Type 0 where
  pub kind : RowKind
  pub path : String
  pub text : String
  pub number : Option ℕ

pub record DiffDisplayModel : Type 0 where
  pub operation : String
  pub target : String
  pub lines : List DiffDisplayLine
  pub added : ℕ
  pub removed : ℕ
  pub files : ℕ

pub record FileDiff : Type 0 where
  pub path : String
  -- `null` for a new file
  pub old_text : Option String
  pub new_text : String

-- One run of lines that the `diff` package reports.
pub record LineChange : Type 0 where
  pub value : String
  pub added : Bool
  pub removed : Bool

abbrev context_radius : ℕ
context_radius = 2

abbrev is_newline : Char → Bool
is_newline c = nat_beq (code c) 10

-- `text.endsWith('\n') ? text.slice(0, -1) : text`
drop_newline : String → String
drop_newline String.[] = String.[]
drop_newline (String.◌∷◌ c String.[]) = if is_newline c then String.[] else String.◌∷◌ c String.[]
drop_newline (String.◌∷◌ c (String.◌∷◌ d s)) = String.◌∷◌ c (drop_newline (String.◌∷◌ d s))

prepend : Char → List String → List String
prepend c [] = String.◌∷◌ c String.[] ∷ []
prepend c (line ∷ rest) = String.◌∷◌ c line ∷ rest

-- `split('\n')`
split_lines : String → List String
unfolding prepend
split_lines String.[] = String.[] ∷ []
split_lines (String.◌∷◌ c s) =
    let rest = split_lines s in if is_newline c then String.[] ∷ rest else prepend c rest

unfoldable pub content_lines : String → List String
unfolding drop_newline split_lines
content_lines text = if text == "" then [] else split_lines (drop_newline text)

abbrev pub is_changed : RowKind → Bool
is_changed add = true
is_changed del = true
is_changed kind = false

-- The indices of the changed rows, the first row of the list being at `i`.
unfoldable pub changed_from : ℕ → List DiffDisplayLine → List ℕ
changed_from i [] = []
changed_from i (line ∷ lines) =
    let rest = changed_from (suc i) lines in if is_changed line.kind then i ∷ rest else rest

-- The `count` numbers from `first`.
unfoldable pub range : ℕ → ℕ → List ℕ
range first zero = []
range first (suc count) = first ∷ range (suc first) count

-- From `Math.max(0, index - CONTEXT_RADIUS)` to the least of `lines.length - 1` and
-- `index + CONTEXT_RADIUS`; `length` is the number of rows, which is not zero here.
unfoldable pub around : ℕ → ℕ → List ℕ
unfolding range
around length index =
    let first = index - context_radius in
    let last = min (length - 1) (index + context_radius) in range first (suc last - first)

unfoldable pub visible_rows : ℕ → List ℕ → List ℕ
unfolding around
visible_rows length [] = []
visible_rows length (index ∷ changed) = around length index ++ visible_rows length changed

abbrev pub gap_row : String → DiffDisplayLine
gap_row path = record { kind = gap; path = path; text = "⋯"; number = none }

-- The second loop of `compactContext`, from the row at `i`.
unfoldable pub fold_rows : String → List ℕ → ℕ → Bool → List DiffDisplayLine → List DiffDisplayLine
fold_rows path visible i omitted [] = if omitted then gap_row path ∷ [] else []
fold_rows path visible i omitted (line ∷ lines) =
    let shown = any (λ j. nat_beq j i) visible in
    let rest = fold_rows path visible (suc i) (not shown) lines in
    if not shown then rest else if omitted then gap_row path ∷ line ∷ rest else line ∷ rest

unfoldable pub compact_context : List DiffDisplayLine → String → List DiffDisplayLine
compact_context lines path =
    let changed = changed_from 0 lines in
    if is_empty changed
    then lines
    else fold_rows path (visible_rows (length lines) changed) 0 false lines

-- The local variables of `pushHunk`.
pub record Hunk : Type 0 where
  pub rows : List DiffDisplayLine
  pub old_number : Option ℕ
  pub new_number : Option ℕ
  pub added : ℕ
  pub removed : ℕ

abbrev next_number : Option ℕ → Option ℕ
next_number none = none
next_number (some n) = some (n + 1)

unfoldable pub push_line : String → LineChange → Hunk → String → Hunk
push_line path change h text =
    if change.removed
    then record h {
      rows =
          h.rows ++ (record { kind = del; path = path; text = text; number = h.old_number } ∷ []);
      old_number = next_number h.old_number;
      removed = h.removed + 1;
    }
    else if change.added
    then record h {
      rows =
          h.rows ++ (record { kind = add; path = path; text = text; number = h.new_number } ∷ []);
      new_number = next_number h.new_number;
      added = h.added + 1;
    }
    else record h {
      rows =
          h.rows
          ++ (record { kind = context; path = path; text = text; number = h.new_number } ∷ []);
      old_number = next_number h.old_number;
      new_number = next_number h.new_number;
    }

unfoldable pub push_texts : String → LineChange → Hunk → List String → Hunk
push_texts path change h [] = h
push_texts path change h (text ∷ texts) =
    push_texts path change (push_line path change h text) texts

unfoldable pub push_changes : String → Hunk → List LineChange → Hunk
push_changes path h [] = h
push_changes path h (change ∷ changes) =
    push_changes path (push_texts path change h (content_lines change.value)) changes

-- The rows of a new file, numbered from `n`.
unfoldable pub new_file_rows : String → ℕ → List String → List DiffDisplayLine
new_file_rows path n [] = []
new_file_rows path n (text ∷ texts) =
    record { kind = add; path = path; text = text; number = some n }
    ∷ new_file_rows path (n + 1) texts

-- The rows that a hunk adds, with the numbers of lines added and removed.
pub record HunkRows : Type 0 where
  pub rows : List DiffDisplayLine
  pub added : ℕ
  pub removed : ℕ

module _ (diff_lines : String → String → List LineChange) where
  unfoldable pub push_hunk : FileDiff → Option ℕ → HunkRows
  push_hunk diff start = elim diff.old_text [
    | none ↦ record {
      rows = new_file_rows diff.path 1 (content_lines diff.new_text);
      added = length (content_lines diff.new_text);
      removed = 0;
    }
    | some old ↦
        let h =
          push_changes diff.path
            (record { rows = []; old_number = start; new_number = start; added = 0; removed = 0 })
            (diff_lines old diff.new_text) in
        record { rows = compact_context h.rows diff.path; added = h.added; removed = h.removed }
  ]

  -- The row before a hunk: the file's name, or a gap between two hunks of one file.
  unfoldable pub heading : Bool → Option String → String → List DiffDisplayLine
  heading several previous path =
      if several && not (some path == previous)
      then record { kind = file; path = path; text = path; number = none } ∷ []
      else if some path == previous
      then gap_row path ∷ []
      else []

  -- The loop of `buildDiffDisplay` from the diff at `i`.
  unfoldable pub push_diffs : Bool → List (Option ℕ) → ℕ → Option String → List FileDiff → HunkRows
  push_diffs several starts i previous [] = record { rows = []; added = 0; removed = 0 }
  push_diffs several starts i previous (diff ∷ diffs) =
      let hunk = push_hunk diff (Option.bind (get_elem? starts i) (λ s. s)) in
      let rest = push_diffs several starts (suc i) (some diff.path) diffs in
      record {
        rows = heading several previous diff.path ++ hunk.rows ++ rest.rows;
        added = hunk.added + rest.added;
        removed = hunk.removed + rest.removed;
      }

  -- The size of the set of paths.
  unfoldable pub count_paths : List String → ℕ
  count_paths [] = 0
  count_paths (path ∷ paths) =
      let rest = count_paths paths in if any (λ other. other == path) paths then rest else suc rest

  abbrev first_path : List FileDiff → String
  first_path [] = ""
  first_path (diff ∷ diffs) = diff.path

  unfoldable pub build_diff_display :
      (String → List FileDiff → String)
      → (ℕ → String)
      → String
      → List FileDiff
      → List (Option ℕ)
      → DiffDisplayModel
  build_diff_display operation_name number_text title diffs starts =
      let files = count_paths (map (λ (d : FileDiff). d.path) diffs) in
      let rows = push_diffs (ltb 1 files) starts 0 none diffs in
      record {
        operation = operation_name title diffs;
        target =
            if nat_beq files 1
            then first_path diffs
            else Prim.Native.String.◌++◌ (number_text files) " files";
        lines = rows.rows;
        added = rows.added;
        removed = rows.removed;
        files = files;
      }
