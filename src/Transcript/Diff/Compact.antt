-- ===== src/Transcript/Diff/Compact.antt =====
-- What folding the unchanged context keeps.
use deepseek_harness_communi.Prelude.{
  ℕ, zero, suc, ◌+◌, ◌-◌, ◌≤◌, ◌<◌, ◌≡◌, refl, min, Bool, true, false, not, ◌&&◌, inl, inr, List,
  [], ◌∷◌, String, if◌then◌else◌, is_empty, any, filter, leb, ltb, length, All, nat_beq, arith,
  Bool-cases, any-append, subst, sym,
}
use deepseek_harness_communi.Transcript.Diff.{
  RowKind, gap, DiffDisplayLine, is_changed, changed_from, range, around, visible_rows, fold_rows,
  compact_context,
}

abbrev contains : ℕ → List ℕ → Bool
contains i js = any (λ j. nat_beq j i) js

abbrev pub is_near : ℕ → ℕ → Bool
is_near i j = leb j (i + 2) && leb i (j + 2)

contains-range :
    (i first count : ℕ) → contains i (range first count) ≡ (leb first i && ltb i (first + count))
unfolding range
contains-range i first zero = ground arith
contains-range i first (suc count) = ground (arith, contains-range i (suc first) count)

contains-around :
    (i length index : ℕ) → i < length → contains i (around length index) ≡ is_near i index
unfolding around
contains-around i length index h =
    ground (arith, contains-range i (index - 2) (suc (min (length - 1) (index + 2)) - (index - 2)))

contains-visible_rows :
    (i length : ℕ) (changed : List ℕ)
    → i < length
    → contains i (visible_rows length changed) ≡ any (is_near i) changed
unfolding visible_rows
contains-visible_rows i length [] h = refl
contains-visible_rows i length (index ∷ changed) h = ground (
  arith,
  contains-around i length index h,
  contains-visible_rows i length changed h,
  any-append (λ j. nat_beq j i) (around length index) (visible_rows length changed),
)

-- The rows from `i` that stand at most two rows from an index of `changed`.
unfoldable pub near_rows : List ℕ → ℕ → List DiffDisplayLine → List DiffDisplayLine
near_rows changed i [] = []
near_rows changed i (line ∷ lines) =
    let rest = near_rows changed (suc i) lines in
    if any (is_near i) changed then line ∷ rest else rest

abbrev pub is_gap : RowKind → Bool
is_gap gap = true
is_gap kind = false

abbrev pub without_gaps : List DiffDisplayLine → List DiffDisplayLine
without_gaps rows = filter (λ (r : DiffDisplayLine). not (is_gap r.kind)) rows

abbrev pub IsPlain : DiffDisplayLine → Type 0
IsPlain r = is_gap r.kind ≡ false

without_gaps-plain : (lines : List DiffDisplayLine) → All IsPlain lines → without_gaps lines ≡ lines
without_gaps-plain [] h = refl
without_gaps-plain (line ∷ lines) h = ground (arith, h.0, without_gaps-plain lines h.1)

without_gaps-fold_rows :
    (path : String) (n : ℕ) (changed : List ℕ) (i : ℕ) (omitted : Bool)
    (lines : List DiffDisplayLine)
    → i + length lines ≤ n
    → All IsPlain lines
    → without_gaps (fold_rows path (visible_rows n changed) i omitted lines)
      ≡ near_rows changed i lines
unfolding fold_rows near_rows
without_gaps-fold_rows path n changed i omitted [] h plain = ground arith
without_gaps-fold_rows path n changed i omitted (line ∷ lines) h plain =
    let near = contains-visible_rows i n changed (omega (arith, h)) in
    let shown =
      without_gaps-fold_rows path n changed (suc i) false lines (omega (arith, h)) plain.1 in
    let hidden =
      without_gaps-fold_rows path n changed (suc i) true lines (omega (arith, h)) plain.1 in
    ground (arith, near, shown, hidden, plain.0)

-- Without its gaps the folded hunk is, in order, the rows at most two rows from a changed one, and
-- the whole hunk when no row is changed. The hunk itself has no gaps.
pub compact_context-near_rows :
    (lines : List DiffDisplayLine) (path : String)
    → All IsPlain lines
    → without_gaps (compact_context lines path) ≡ (
        if is_empty (changed_from 0 lines) then lines else near_rows (changed_from 0 lines) 0 lines)
unfolding compact_context
compact_context-near_rows lines path plain =
    let folded =
      without_gaps-fold_rows path (length lines) (changed_from 0 lines) 0 false lines (omega arith)
        plain in
    ground (arith, folded, without_gaps-plain lines plain)

-- Every index from `i` on that holds a changed row is in `changed`.
abbrev Covers : List ℕ → ℕ → List DiffDisplayLine → Type 0
Covers changed i [] = Unit
Covers changed i (line ∷ lines) =
    (is_changed line.kind ≡ true → contains i changed ≡ true) × Covers changed (suc i) lines

Covers-cons :
    (j : ℕ) (changed : List ℕ) (i : ℕ) (lines : List DiffDisplayLine)
    → Covers changed i lines
    → Covers (j ∷ changed) i lines
Covers-cons j changed i [] c = tt
Covers-cons j changed i (line ∷ lines) c =
    (λ h. ground (arith, c.0 h), Covers-cons j changed (suc i) lines c.1)

changed_from-Covers : (i : ℕ) (lines : List DiffDisplayLine) → Covers (changed_from i lines) i lines
changed_from-Covers i [] = tt
changed_from-Covers i (line ∷ lines) = elim (Bool-cases (is_changed line.kind)) [
  | inl now ↦
      let here : changed_from i (line ∷ lines) ≡ i ∷ changed_from (suc i) lines =
        unfold changed_from in rw now in
      subst (λ js. Covers js i (line ∷ lines)) (sym here)
        (
          λ h. ground arith,
          Covers-cons i (changed_from (suc i) lines) (suc i) lines
              (changed_from-Covers (suc i) lines),
        )
  | inr plain ↦
      let later : changed_from i (line ∷ lines) ≡ changed_from (suc i) lines =
        unfold changed_from in rw plain in
      subst (λ js. Covers js i (line ∷ lines)) (sym later)
        (λ h. ground (arith, h), changed_from-Covers (suc i) lines)
]

near_self : (i : ℕ) (changed : List ℕ) → contains i changed ≡ true → any (is_near i) changed ≡ true
near_self i [] h = ground (arith, h)
near_self i (j ∷ changed) h = ground (arith, h, near_self i changed)

abbrev pub changed_rows : List DiffDisplayLine → List DiffDisplayLine
changed_rows rows = filter (λ (r : DiffDisplayLine). is_changed r.kind) rows

changed_rows-near_rows :
    (changed : List ℕ) (i : ℕ) (lines : List DiffDisplayLine)
    → Covers changed i lines
    → changed_rows (near_rows changed i lines) ≡ changed_rows lines
unfolding near_rows
changed_rows-near_rows changed i [] c = refl
changed_rows-near_rows changed i (line ∷ lines) c =
    ground (arith, changed_rows-near_rows changed (suc i) lines c.1, c.0, near_self i changed)

changed_rows-without_gaps :
    (rows : List DiffDisplayLine) → changed_rows (without_gaps rows) ≡ changed_rows rows
changed_rows-without_gaps [] = refl
changed_rows-without_gaps (row ∷ rows) = ground (arith, changed_rows-without_gaps rows)

-- Folding keeps every changed row and its place among them.
pub changed_rows-compact_context :
    (lines : List DiffDisplayLine) (path : String)
    → All IsPlain lines
    → changed_rows (compact_context lines path) ≡ changed_rows lines
changed_rows-compact_context lines path plain = ground (
  arith,
  compact_context-near_rows lines path plain,
  changed_rows-without_gaps (compact_context lines path),
  changed_rows-near_rows (changed_from 0 lines) 0 lines (changed_from-Covers 0 lines),
)
