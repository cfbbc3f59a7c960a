-- ===== src/Composer/Input/Window.antt =====
-- The two presses of Escape that open a rewind, whatever the composer does between them.
use deepseek_harness_communi.Prelude.{
  ℕ, ◌+◌, ◌≤◌, ◌≡◌, refl, ap, Bool, true, false, ◌↔◌, inl, inr, Option, none, some, List, [], ◌∷◌,
  Eq, arith, All, ◌∙◌, sym, Option-cases,
}
use deepseek_harness_communi.Composer.Input.{
  ComposerDraft, open_rewind, ComposerInputController, Call, escapes, clears, navigates,
  observes_text, observes_attachments, disarms, resets, up, down, step, run, press_escape,
  clear_draft, navigate_draft, navigate_recovery, disarm_rewind, reset, observe_editor_text,
  observe_attachments, remember_draft, is_within_window,
}

module _ {ℓ} {A : Type ℓ} where
  -- Any call but a press of Escape.
  abbrev pub IsNotEscape : Call A → Type 0
  IsNotEscape (escapes d now) = ⊥
  IsNotEscape c = Unit

  -- None of the calls disarms the rewind or resets the controller.
  abbrev pub keep_armed : List (Call A) → Bool
  keep_armed [] = true
  keep_armed (disarms ∷ ks) = false
  keep_armed (resets ∷ ks) = false
  keep_armed (k ∷ ks) = keep_armed ks

  press_escape-opens :
      (c : ComposerInputController A) (d : ComposerDraft A) (now : ℕ)
      → ((press_escape c d now).1 ≡ open_rewind)
        ↔ (is_within_window c.rewind_window_ms c.rewind_armed_at now ≡ true)
  unfolding press_escape remember_draft
  press_escape-opens c d now = ground arith

  press_escape-arms :
      (c : ComposerInputController A) (d : ComposerDraft A) (now : ℕ)
      → is_within_window c.rewind_window_ms c.rewind_armed_at now ≡ false
      → ((press_escape c d now).0.rewind_armed_at ≡ some now)
        × ((press_escape c d now).0.rewind_window_ms ≡ c.rewind_window_ms)
  unfolding press_escape remember_draft
  press_escape-arms c d now h = ground arith

-- What is armed after a call that keeps it armed, or not.
abbrev kept_at : Bool → Option ℕ → Option ℕ
kept_at true armed_at = armed_at
kept_at false armed_at = none

kept_at-none : (b : Bool) → kept_at b none ≡ none
kept_at-none true = refl
kept_at-none false = refl

is_within_window-kept_at :
    (window armed_at now : ℕ) (b : Bool)
    → (is_within_window window (kept_at b (some armed_at)) now ≡ true)
      ↔ ((b ≡ true) × (armed_at ≤ now) × (now ≤ armed_at + window))
unfolding is_within_window
is_within_window-kept_at window armed_at now true = ground arith
is_within_window-kept_at window armed_at now false = ground arith

module _ {ℓ} {A : Type ℓ} ⦃e : Eq A⦄ where
  step-window :
      (c : ComposerInputController A) (k : Call A)
      → (step c k).rewind_window_ms ≡ c.rewind_window_ms
  unfolding step press_escape disarm_rewind reset clear_draft remember_draft navigate_draft
      navigate_recovery observe_editor_text observe_attachments
  step-window c (escapes d now) = ground arith
  step-window c disarms = ground arith
  step-window c resets = ground arith
  step-window c (clears d) = ground arith
  step-window c (navigates up d) = ground arith
  step-window c (navigates down d) = ground arith
  step-window c (observes_text text) = ground arith
  step-window c (observes_attachments list) = ground arith

  step-armed_at :
      (c : ComposerInputController A) (k : Call A)
      → IsNotEscape k
      → (step c k).rewind_armed_at ≡ kept_at (keep_armed (k ∷ [])) c.rewind_armed_at
  unfolding step disarm_rewind reset clear_draft remember_draft navigate_draft navigate_recovery
      observe_editor_text observe_attachments
  step-armed_at c (escapes d now) q = absurd q
  step-armed_at c disarms q = elim (Option-cases c.rewind_armed_at) [
    | inl h ↦ ground (arith, h)
    | inr (at, h) ↦ ground (arith, h)
  ]
  step-armed_at c resets q = elim (Option-cases c.rewind_armed_at) [
    | inl h ↦ ground (arith, h)
    | inr (at, h) ↦ ground (arith, h)
  ]
  step-armed_at c (clears d) q = ground arith
  step-armed_at c (navigates up d) q = ground arith
  step-armed_at c (navigates down d) q = ground arith
  step-armed_at c (observes_text text) q = ground arith
  step-armed_at c (observes_attachments list) q = ground arith

  kept_at-keep_armed :
      (k : Call A) (ks : List (Call A)) (armed_at : Option ℕ)
      → IsNotEscape k
      → kept_at (keep_armed ks) (kept_at (keep_armed (k ∷ [])) armed_at)
        ≡ kept_at (keep_armed (k ∷ ks)) armed_at
  kept_at-keep_armed (escapes d now) ks armed_at q = absurd q
  kept_at-keep_armed disarms ks armed_at q = kept_at-none (keep_armed ks)
  kept_at-keep_armed resets ks armed_at q = kept_at-none (keep_armed ks)
  kept_at-keep_armed (clears d) ks armed_at q = refl
  kept_at-keep_armed (navigates direction d) ks armed_at q = refl
  kept_at-keep_armed (observes_text text) ks armed_at q = refl
  kept_at-keep_armed (observes_attachments list) ks armed_at q = refl

  run-armed_at :
      (c : ComposerInputController A) (ks : List (Call A))
      → All IsNotEscape ks
      → ((run c ks).rewind_armed_at ≡ kept_at (keep_armed ks) c.rewind_armed_at)
        × ((run c ks).rewind_window_ms ≡ c.rewind_window_ms)
  unfolding run
  run-armed_at c [] q = (refl, refl)
  run-armed_at c (k ∷ ks) q =
      let rest = run-armed_at (step c k) ks q.1 in
      (
        rest.0
            ∙ (ap (kept_at (keep_armed ks)) (step-armed_at c k q.0)
                ∙ kept_at-keep_armed k ks c.rewind_armed_at q.0),
        rest.1 ∙ step-window c k,
      )

  -- After an Escape that does not itself open the rewind, and any calls but an Escape, the next
  -- Escape opens the rewind exactly when none of the calls between disarmed it or reset the
  -- controller, and it comes no earlier than the first and at most the window later: clearing,
  -- navigation and editing do not matter, a disarming (which the key handler asks for first at
  -- every other key of the base surface) and a reset do.
  pub press_escape_twice :
      (c : ComposerInputController A) (first second : ComposerDraft A) (now later : ℕ)
      (ks : List (Call A))
      → is_within_window c.rewind_window_ms c.rewind_armed_at now ≡ false
      → All IsNotEscape ks
      → ((press_escape (run (press_escape c first now).0 ks) second later).1 ≡ open_rewind)
        ↔ ((keep_armed ks ≡ true) × (now ≤ later) × (later ≤ now + c.rewind_window_ms))
  press_escape_twice c first second now later ks closed q =
      let armed = press_escape-arms c first now closed in
      let kept = run-armed_at (press_escape c first now).0 ks q in
      let reached = run (press_escape c first now).0 ks in
      let opens = press_escape-opens reached second later in
      let armed_now : reached.rewind_armed_at ≡ kept_at (keep_armed ks) (some now) =
        kept.0 ∙ ap (kept_at (keep_armed ks)) armed.0 in
      let unchanged : reached.rewind_window_ms ≡ c.rewind_window_ms = kept.1 ∙ armed.1 in
      let shown : is_within_window reached.rewind_window_ms reached.rewind_armed_at later
          ≡ is_within_window c.rewind_window_ms (kept_at (keep_armed ks) (some now)) later =
        λ i. is_within_window (unchanged i) (armed_now i) later in
      let window = is_within_window-kept_at c.rewind_window_ms now later (keep_armed ks) in
      (λ h. window.0 (sym shown ∙ opens.0 h), λ h. opens.1 (shown ∙ window.1 h))
