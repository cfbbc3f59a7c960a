-- ===== src/Composer/Input.antt =====
-- packages/tui/src/modules/composer/input.ts: `ComposerInputController`, which arms and opens a
-- rewind by two presses of Escape and keeps one cleared draft for recovery. An attachment is any
-- type with an equality, the `===` of the source. A method returns the new controller and its
-- result; the time of a press is an argument, as in the source.
pub mod Recovery
pub mod Window
mod Tests
use deepseek_harness_communi.Prelude.{
  ℕ, zero, suc, ◌-◌, Bool, true, false, not, ◌&&◌, Option, none, some, is_some, List, [], ◌∷◌,
  String, if◌then◌else◌, leb, nat_beq, Eq, ◌==◌, nat_eq, string_eq, length, is_empty,
}

pub record ComposerDraft {ℓ} (A : Type ℓ) : Type ℓ where
  pub text : String
  pub attachments : List A

pub data ComposerInputAction {ℓ} (A : Type ℓ) : Type ℓ where
  arm_rewind : ComposerInputAction A
  clear_draft_action : ComposerInputAction A
  open_rewind : ComposerInputAction A
  restore_draft : ComposerDraft A → ComposerInputAction A
  clear_restored_draft : ComposerInputAction A
  pass : ComposerInputAction A

pub record RecoverableDraft {ℓ} (A : Type ℓ) : Type ℓ where
  pub draft : ComposerDraft A
  pub visible : Bool

pub record ComposerInputController {ℓ} (A : Type ℓ) : Type ℓ where
  pub rewind_armed_at : Option ℕ
  pub recoverable_draft : Option (RecoverableDraft A)
  pub rewind_window_ms : ℕ

pub data DraftRecovery : Type 0 where
  no_draft : DraftRecovery
  stored : DraftRecovery
  restored : DraftRecovery

pub record ComposerInputSnapshot : Type 0 where
  pub rewind_armed : Bool
  pub draft_recovery : DraftRecovery

pub data Direction : Type 0 where
  up : Direction
  down : Direction

abbrev pub rewind_escape_window_ms : ℕ
rewind_escape_window_ms = 600

-- The test on the time elapsed since the rewind was armed.
unfoldable pub is_within_window : ℕ → Option ℕ → ℕ → Bool
is_within_window window none now = false
is_within_window window (some armed_at) now = leb armed_at now && leb (now - armed_at) window

module _ {ℓ} {A : Type ℓ} where
  abbrev pub new_controller : ℕ → ComposerInputController A
  new_controller window = record {
    rewind_armed_at = none;
    recoverable_draft = none;
    rewind_window_ms = window;
  }

  unfoldable pub recovery_of : Option (RecoverableDraft A) → DraftRecovery
  recovery_of none = no_draft
  recovery_of (some r) = if r.visible then restored else stored

  unfoldable pub snapshot : ComposerInputController A → ComposerInputSnapshot
  snapshot c = record {
    rewind_armed = is_some c.rewind_armed_at;
    draft_recovery = recovery_of c.recoverable_draft;
  }

  unfoldable pub is_empty_draft : ComposerDraft A → Bool
  is_empty_draft d = d.text == "" && length d.attachments == 0

  -- The Boolean that `rememberDraft` returns is `not (is_empty_draft d)`.
  unfoldable pub remember_draft :
      ComposerInputController A → ComposerDraft A → ComposerInputController A × Bool
  remember_draft c d = if is_empty_draft d then (c, false) else (
    record c {
      recoverable_draft = some (record {
        draft = record { text = d.text; attachments = d.attachments };
        visible = false;
      });
    },
    true,
  )

  unfoldable pub press_escape :
      ComposerInputController A
      → ComposerDraft A
      → ℕ
      → ComposerInputController A × ComposerInputAction A
  press_escape c d now =
      if is_within_window c.rewind_window_ms c.rewind_armed_at now
      then (record c { rewind_armed_at = none }, open_rewind)
      else let r = remember_draft (record c { rewind_armed_at = some now }) d in
        (r.0, (if not r.1 then arm_rewind else clear_draft_action))

  unfoldable pub clear_draft :
      ComposerInputController A
      → ComposerDraft A
      → ComposerInputController A × ComposerInputAction A
  clear_draft c d =
      let r = remember_draft c d in (r.0, (if not r.1 then pass else clear_draft_action))

  unfoldable pub disarm_rewind : ComposerInputController A → ComposerInputController A × Bool
  disarm_rewind c =
      if is_some c.rewind_armed_at then (record c { rewind_armed_at = none }, true) else (c, false)

  unfoldable pub reset : ComposerInputController A → ComposerInputController A × Bool
  reset c =
      if not (is_some c.rewind_armed_at) && not (is_some c.recoverable_draft)
      then (c, false)
      else (record c { rewind_armed_at = none; recoverable_draft = none }, true)

  -- What the editor shows while a draft is kept.
  unfoldable pub expected_text : RecoverableDraft A → String
  expected_text r = if r.visible then r.draft.text else ""

  unfoldable pub expected_attachments : RecoverableDraft A → List A
  expected_attachments r = if r.visible then r.draft.attachments else []

  unfoldable pub observe_editor_text :
      ComposerInputController A → String → ComposerInputController A × Bool
  observe_editor_text c text = elim c.recoverable_draft [
    | none ↦ (c, false)
    | some r ↦
        if text == expected_text r
        then (c, false)
        else (record c { recoverable_draft = none }, true)
  ]

-- One call of a method.
pub data Call {ℓ} (A : Type ℓ) : Type ℓ where
  escapes : ComposerDraft A → ℕ → Call A
  clears : ComposerDraft A → Call A
  navigates : Direction → ComposerDraft A → Call A
  observes_text : String → Call A
  observes_attachments : List A → Call A
  disarms : Call A
  resets : Call A

module _ {ℓ} {A : Type ℓ} ⦃e : Eq A⦄ where
  -- Equal lengths, and equal elements at each place.
  unfoldable pub same_attachments : List A → List A → Bool
  same_attachments [] [] = true
  same_attachments [] (b ∷ others) = false
  same_attachments (a ∷ rest) [] = false
  same_attachments (a ∷ rest) (b ∷ others) = a == b && same_attachments rest others

  unfoldable pub matches : ComposerDraft A → ComposerDraft A → Bool
  matches expected current =
      expected.text == current.text && same_attachments expected.attachments current.attachments

  unfoldable pub navigate_recovery :
      ComposerInputController A
      → RecoverableDraft A
      → Direction
      → ComposerDraft A
      → ComposerInputController A × ComposerInputAction A
  navigate_recovery c r up current =
      if not r.visible && is_empty_draft current
      then (
        record c { recoverable_draft = some (record r { visible = true }) },
        restore_draft r.draft,
      )
      else (c, pass)
  navigate_recovery c r down current =
      if r.visible && matches r.draft current
      then (
        record c { recoverable_draft = some (record r { visible = false }) },
        clear_restored_draft,
      )
      else (c, pass)

  unfoldable pub navigate_draft :
      ComposerInputController A
      → Direction
      → ComposerDraft A
      → ComposerInputController A × ComposerInputAction A
  navigate_draft c direction current = elim c.recoverable_draft [
    | none ↦ (c, pass)
    | some r ↦ navigate_recovery c r direction current
  ]

  unfoldable pub observe_attachments :
      ComposerInputController A → List A → ComposerInputController A × Bool
  observe_attachments c attachments = elim c.recoverable_draft [
    | none ↦ (c, false)
    | some r ↦
        if same_attachments (expected_attachments r) attachments
        then (c, false)
        else (record c { recoverable_draft = none }, true)
  ]

  unfoldable pub step : ComposerInputController A → Call A → ComposerInputController A
  step c (escapes d now) = (press_escape c d now).0
  step c (clears d) = (clear_draft c d).0
  step c (navigates direction d) = (navigate_draft c direction d).0
  step c (observes_text text) = (observe_editor_text c text).0
  step c (observes_attachments list) = (observe_attachments c list).0
  step c disarms = (disarm_rewind c).0
  step c resets = (reset c).0

  unfoldable pub run : ComposerInputController A → List (Call A) → ComposerInputController A
  run c [] = c
  run c (k ∷ ks) = run (step c k) ks
