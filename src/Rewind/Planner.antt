-- ===== src/Rewind/Planner.antt =====
-- packages/tui/src/modules/rewind/domain/planner.ts: the plan that undoes the edits of one file.
-- The package `diff` is a parameter: its patches, their application and its line changes.
pub mod Exactness
mod Tests
use deepseek_harness_communi.Prelude.{
  ℕ, ◌+◌, ◌≡◌, ◌∙◌, ap, refl, sym, subst, inl, inr, ◌⊎◌, ◌↔◌, String, Bool, true, false, List, [],
  ◌∷◌, ◌++◌, Option, none, some, ◌==◌, ==_iff, ==_refl, nat_eq, string_eq, option_eq, if◌then◌else◌,
  Bool-cases, Option-cases, arith,
}
use text.Mathlib.TextEquality.{eq_iff}
use mathlib.Core.List.{reverse, reverse-cons}

pub record Change : Type 0 where
  pub count : Option ℕ
  pub added : Bool
  pub removed : Bool

-- `structuredPatch(path, path, old, new, …, { context: 4 })`, `applyPatch(current, patch,
-- { fuzzFactor: 0 })` with `none` for `false`, and `diffLines(old, new)`.
pub record DiffLibrary : Type 1 where
  pub Patch : Type 0
  pub structured_patch : String → String → String → Patch
  pub apply_patch : String → Patch → Option String
  pub diff_lines : String → String → List Change

-- A reversible mutation, as far as the planner reads it.
pub record ReversibleMutation : Type 0 where
  pub absolute_path : String
  pub before : Option String
  pub after : String

pub data RewindApplicableState : Type 0 where
  safe mergeable : RewindApplicableState

pub data ConflictReason : Type 0 where
  removed_after_edit created_file_changed overlapping_change : ConflictReason

-- One reversed step: the state with the content to restore, or a conflict.
pub data ReversedContent : Type 0 where
  reversed : RewindApplicableState → Option String → ReversedContent
  blocked : ConflictReason → ReversedContent

-- A plan adds the counts of the changed lines, absent when they are 0.
pub data WorkspaceContentPlan : Type 0 where
  planned : RewindApplicableState → Option String → Option ℕ → Option ℕ → WorkspaceContentPlan
  conflict : ConflictReason → WorkspaceContentPlan

or_empty : Option String → String
or_empty none = ""
or_empty (some s) = s

or_zero : Option ℕ → ℕ
or_zero none = 0
or_zero (some n) = n

count_added : List Change → ℕ
unfolding or_zero
count_added [] = 0
count_added (c ∷ cs) = (if c.added then or_zero c.count else 0) + count_added cs

count_removed : List Change → ℕ
unfolding or_zero
count_removed [] = 0
count_removed (c ∷ cs) = (if c.removed then or_zero c.count else 0) + count_removed cs

unless_zero : ℕ → Option ℕ
unless_zero n = if n == 0 then none else some n

module _ (lib : DiffLibrary) where
  open lib use {structured_patch, apply_patch, diff_lines}

  pub merged : Option String → ReversedContent
  merged none = blocked overlapping_change
  merged (some content) = reversed mergeable (some content)

  -- The merge of `reverseMutation`, for a current content that is not the content after the edit.
  pub reverse_changed : Option String → Option String → ReversibleMutation → ReversedContent
  unfolding merged
  reverse_changed none before mutation = blocked removed_after_edit
  reverse_changed (some content) none mutation = blocked created_file_changed
  reverse_changed (some content) (some before) mutation =
      merged (apply_patch content (structured_patch mutation.absolute_path mutation.after before))

  pub reverse_mutation : Option String → ReversibleMutation → ReversedContent
  unfolding reverse_changed
  reverse_mutation current mutation =
      if current == some mutation.after
      then reversed safe mutation.before
      else reverse_changed current mutation.before mutation

  -- The loop of `planWorkspaceContent` over the mutations, newest first.
  pub reverse_all :
      RewindApplicableState → Option String → List ReversibleMutation → ReversedContent
  reverse_all state target [] = reversed state target
  reverse_all state target (mutation ∷ older) = elim (reverse_mutation target mutation) [
    | blocked reason ↦ blocked reason
    | reversed safe next ↦ reverse_all state next older
    | reversed mergeable next ↦ reverse_all mergeable next older
  ]

  pub plan_of : Option String → ReversedContent → WorkspaceContentPlan
  unfolding or_empty count_added count_removed unless_zero
  plan_of current (blocked reason) = conflict reason
  plan_of current (reversed state target) =
      let changes = diff_lines (or_empty target) (or_empty current) in
      planned state target (unless_zero (count_added changes)) (unless_zero (count_removed changes))

  pub plan_workspace_content : Option String → List ReversibleMutation → WorkspaceContentPlan
  unfolding reverse_all plan_of
  plan_workspace_content current mutations =
      plan_of current (reverse_all safe current (reverse mutations))
