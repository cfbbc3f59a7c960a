-- ===== src/Rewind/Planner/Tests.antt =====
-- Plans over a small library of patches: a patch is the text to put in place of the whole content.
use deepseek_harness_communi.Prelude.{
  ℕ, ◌≡◌, refl, ◌↔◌, String, false, true, List, [], ◌∷◌, Option, none, some, if◌then◌else◌, ◌==◌,
  string_eq,
}
use deepseek_harness_communi.Rewind.Planner.{
  DiffLibrary, ReversibleMutation, safe, planned, conflict, removed_after_edit, overlapping_change,
  plan_workspace_content, reverse_mutation,
}
use deepseek_harness_communi.Rewind.Planner.Exactness.{Leads, plan_workspace_content_safe_iff}

abbrev whole : DiffLibrary
whole = record {
  Patch = String × String;
  structured_patch = λ path old new. (old, new);
  apply_patch = λ current patch. if current == patch.0 then some (patch.1) else none;
  diff_lines = λ old new. record { count = some 2; added = true; removed = false } ∷ [];
}

abbrev edits : List ReversibleMutation
edits =
    record { absolute_path = "/w/a"; before = none; after = "x" }
    ∷ record { absolute_path = "/w/a"; before = some "x"; after = "y" }
    ∷ []

undo_both : plan_workspace_content whole (some "y") edits ≡ planned safe none (some 2) none
unfolding plan_workspace_content reverse_mutation
undo_both = refl

removed : plan_workspace_content whole none edits ≡ conflict removed_after_edit
unfolding plan_workspace_content reverse_mutation
removed = refl

changed_later : plan_workspace_content whole (some "z") edits ≡ conflict overlapping_change
unfolding plan_workspace_content reverse_mutation
changed_later = refl

plan_workspace_content_safe_iff_example :
    ((added : Option ℕ) × (removed : Option ℕ) × (plan_workspace_content whole (some "y") edits
        ≡ planned safe none added removed))
    ↔ Leads none edits (some "y")
plan_workspace_content_safe_iff_example =
    plan_workspace_content_safe_iff whole (some "y") none edits
