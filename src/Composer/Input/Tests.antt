-- ===== src/Composer/Input/Tests.antt =====
-- Runs of the composer's input controller, whose attachments are numbers here.
use deepseek_harness_communi.Prelude.{
  ℕ, ◌+◌, ◌≡◌, ◌≤◌, ◌↔◌, refl, true, false, List, [], ◌∷◌, nat_eq,
}
use deepseek_harness_communi.Composer.Input.{
  ComposerDraft, ComposerInputController, new_controller, Call, navigates, disarms, up, down,
  press_escape, clear_draft, navigate_draft, observe_editor_text, observe_attachments,
  is_empty_draft, open_rewind, clear_draft_action, restore_draft, clear_restored_draft, run,
  is_within_window, rewind_escape_window_ms,
}
use deepseek_harness_communi.Composer.Input.Recovery.{clear_draft-navigate_draft}
use deepseek_harness_communi.Composer.Input.Window.{keep_armed, press_escape_twice}

abbrev typed : ComposerDraft ℕ
typed = record { text = "fix it"; attachments = 7 ∷ [] }

abbrev blank : ComposerDraft ℕ
blank = record { text = ""; attachments = [] }

abbrev idle : ComposerInputController ℕ
idle = new_controller rewind_escape_window_ms

-- An arrow key, and another key.
abbrev between : List (Call ℕ)
between = navigates up blank ∷ disarms ∷ []

press_escape_twice_example :
    ((press_escape (run (press_escape idle typed 1000).0 between) blank 1600).1 ≡ open_rewind)
    ↔ ((keep_armed between ≡ true) × (1000 ≤ 1600) × (1600 ≤ 1000 + 600))
press_escape_twice_example =
    press_escape_twice idle typed blank 1000 1600 between (unfold is_within_window in refl)
      (tt, (tt, tt))

clear_draft-navigate_draft_example :
    let cleared = (clear_draft idle typed).0 in
    let shown = (navigate_draft cleared up blank).0 in
    ((clear_draft idle typed).1 ≡ clear_draft_action)
    × ((navigate_draft cleared up blank).1 ≡ restore_draft typed)
    × (observe_editor_text shown "fix it" ≡ (shown, false))
    × (observe_attachments shown (7 ∷ []) ≡ (shown, false))
    × (navigate_draft shown down typed ≡ (cleared, clear_restored_draft))
clear_draft-navigate_draft_example =
    clear_draft-navigate_draft idle typed blank (unfold is_empty_draft in refl)
      (unfold is_empty_draft in refl)
