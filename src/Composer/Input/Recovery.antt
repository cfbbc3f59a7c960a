-- ===== src/Composer/Input/Recovery.antt =====
-- The one cleared draft that the composer keeps: it is never empty, and the arrow keys bring it
-- back.
use deepseek_harness_communi.Prelude.{
  ℕ, ◌≡◌, refl, Bool, true, false, Option, none, some, List, [], ◌∷◌, Eq, arith, ==_refl, String,
  string_eq,
}
use deepseek_harness_communi.Composer.Input.{
  ComposerDraft, ComposerInputController, Call, navigates, up, down, step, run, press_escape,
  clear_draft, navigate_draft, navigate_recovery, observe_editor_text, observe_attachments,
  remember_draft, RecoverableDraft, is_empty_draft, same_attachments, matches, expected_text,
  expected_attachments, restore_draft, clear_draft_action, clear_restored_draft, disarm_rewind,
  reset, new_controller,
}

module _ {ℓ} {A : Type ℓ} where
  abbrev keeps_empty : Option (RecoverableDraft A) → Bool
  keeps_empty none = false
  keeps_empty (some r) = is_empty_draft r.draft

  keeps_empty-elim :
      (o : Option (RecoverableDraft A)) (r : RecoverableDraft A)
      → keeps_empty o ≡ false
      → o ≡ some r
      → is_empty_draft r.draft ≡ false
  keeps_empty-elim none r h e = ground arith
  keeps_empty-elim (some s) r h e = ground arith

module _ {ℓ} {A : Type ℓ} ⦃e : Eq A⦄ where
  pub same_attachments_refl : (list : List A) → same_attachments list list ≡ true
  unfolding same_attachments
  same_attachments_refl [] = refl
  same_attachments_refl (a ∷ rest) = ground (arith, ==_refl a, same_attachments_refl rest)

  step-keeps_empty :
      (c : ComposerInputController A) (k : Call A)
      → keeps_empty c.recoverable_draft ≡ false
      → keeps_empty (step c k).recoverable_draft ≡ false
  unfolding step press_escape clear_draft remember_draft navigate_draft navigate_recovery
      observe_editor_text observe_attachments disarm_rewind reset
  step-keeps_empty c (navigates up d) h = ground arith
  step-keeps_empty c (navigates down d) h = ground arith
  step-keeps_empty c k h = ground arith

  run-keeps_empty :
      (c : ComposerInputController A) (ks : List (Call A))
      → keeps_empty c.recoverable_draft ≡ false
      → keeps_empty (run c ks).recoverable_draft ≡ false
  unfolding run
  run-keeps_empty c [] h = h
  run-keeps_empty c (k ∷ ks) h = run-keeps_empty (step c k) ks (step-keeps_empty c k h)

  -- Whatever calls are made of a new controller, a draft that it keeps is not empty.
  pub run-recoverable_draft :
      (window : ℕ) (ks : List (Call A)) (r : RecoverableDraft A)
      → (run (new_controller window) ks).recoverable_draft ≡ some r
      → is_empty_draft r.draft ≡ false
  run-recoverable_draft window ks r h =
      keeps_empty-elim (run (new_controller window) ks).recoverable_draft r
        (run-keeps_empty (new_controller window) ks refl) h

  -- A draft that is not empty and is cleared comes back on "up" from an empty composer; the editor's
  -- report of the restored draft keeps it, "down" from that draft clears it again, and the
  -- controller is then as it was after the clearing.
  pub clear_draft-navigate_draft :
      (c : ComposerInputController A) (d blank : ComposerDraft A)
      → is_empty_draft d ≡ false
      → is_empty_draft blank ≡ true
      → let cleared = (clear_draft c d).0 in
        let shown = (navigate_draft cleared up blank).0 in
        ((clear_draft c d).1 ≡ clear_draft_action)
        × ((navigate_draft cleared up blank).1 ≡ restore_draft d)
        × (observe_editor_text shown d.text ≡ (shown, false))
        × (observe_attachments shown d.attachments ≡ (shown, false))
        × (navigate_draft shown down d ≡ (cleared, clear_restored_draft))
  unfolding clear_draft remember_draft navigate_draft navigate_recovery observe_editor_text
      observe_attachments expected_text expected_attachments matches
  clear_draft-navigate_draft c d blank full empty =
      let text = ==_refl {A = String} d.text in
      let list = same_attachments_refl d.attachments in ground (arith, text, list)
