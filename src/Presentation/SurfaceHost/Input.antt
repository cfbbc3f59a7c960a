-- ===== src/Presentation/SurfaceHost/Input.antt =====
-- packages/tui/src/presentation/shell/surfaces/surface-host.ts: what the host reports, and the input that
-- it passes on to the surface at the top.
use deepseek_harness_communi.Prelude.{
  ℕ, ◌+◌, Bool, true, false, Option, none, some, List, [], ◌∷◌, String, if◌then◌else◌, length, ◌==◌,
  string_eq,
}
use deepseek_harness_communi.Presentation.SurfaceHost.{
  Placement, readable, workspace, SurfaceDescriptor, SurfaceHost, focus_of,
}

pub record SurfaceSnapshot : Type 0 where
  pub depth : ℕ
  -- identity, placement, input context
  pub active : Option (ℕ × Placement × Option String)

pub record FocusSnapshot : Type 0 where
  pub surface_owned : Bool
  pub restore_pending : Bool

unfoldable pub focus_snapshot : SurfaceHost → FocusSnapshot
focus_snapshot h = record {
  surface_owned = elim h.stack [ [] ↦ false | entry ∷ rest ↦ true ];
  restore_pending = elim h.base_focus [ none ↦ false | some component ↦ true ];
}

-- What the host asks of the layout and of the target of an input.
pub data Request : Type 0 where
  handle_action : ℕ → String → Request
  page_previous : Request
  page_next : Request
  scroll_previous : Request
  scroll_next : Request

-- `isSurfaceInputTarget`, with the input context of a target; it may have none.
module _ (input_target : ℕ → Option (Option String)) where
  abbrev context_of : SurfaceDescriptor → Option (ℕ × Option String)
  context_of surface = elim (focus_of surface) [
    | none ↦ none
    | some component ↦ elim (input_target component) [
      | none ↦ none
      | some context ↦ some (component, context)
    ]
  ]

  -- The target and its context.
  unfoldable pub active_target : SurfaceHost → Option (ℕ × Option String)
  active_target h = elim h.stack [ [] ↦ none | active ∷ rest ↦ context_of active.surface ]

  abbrev input_context : Option (ℕ × Option String) → Option String
  input_context none = none
  input_context (some (component, context)) = context

  unfoldable pub current : SurfaceHost → SurfaceSnapshot
  current h = record {
    depth = length h.stack;
    active = elim h.stack [
      | [] ↦ none
      | active ∷ rest ↦ some (active.id, active.surface.placement, input_context (active_target h))
    ];
  }

  abbrev moves : Placement → String → List Request
  moves workspace action = []
  moves readable action =
      if action == "surface.page-previous"
      then page_previous ∷ []
      else if action == "surface.page-next"
      then page_next ∷ []
      else if action == "surface.previous"
      then scroll_previous ∷ []
      else if action == "surface.next"
      then scroll_next ∷ []
      else []

  unfoldable pub dispatch_input : String → SurfaceHost → SurfaceHost × List Request × Bool
  dispatch_input action h = elim h.stack [
    | [] ↦ (h, [], false)
    | active ∷ rest ↦ elim (active_target h) [
      | none ↦ (h, [], false)
      | some (component, context) ↦ (
        record h { invalidations = h.invalidations + 1 },
        handle_action component action ∷ moves active.surface.placement action,
        true,
      )
    ]
  ]

pub data PointerGesture : Type 0 where
  click : PointerGesture
  -- to the next row, or to the previous one
  wheel : Bool → PointerGesture

-- `pointer_target` is `isSurfacePointerTarget`. `answers` says whether the target of a gesture at a row
-- and a column changes, and `scrolls` whether the layout does.
module _ (pointer_target : ℕ → Bool) (answers : ℕ → ℕ → ℕ → PointerGesture → Bool)
    (scrolls : Bool → Bool) where
  -- Neither in the surface nor for a target.
  abbrev scrolled : PointerGesture → Placement → Bool
  scrolled click placement = false
  scrolled (wheel next) workspace = false
  scrolled (wheel next) readable = scrolls next

  abbrev pointer_changes : SurfaceDescriptor → Option (ℕ × ℕ) → PointerGesture → Bool
  pointer_changes surface none gesture = scrolled gesture surface.placement
  pointer_changes surface (some (row, column)) gesture =
      if pointer_target surface.component
      then answers surface.component row column gesture
      else scrolled gesture surface.placement

  -- `point` is the place in the surface that the layout computes from the terminal's.
  unfoldable pub handle_pointer : PointerGesture → Option (ℕ × ℕ) → SurfaceHost → SurfaceHost × Bool
  handle_pointer gesture point h = elim h.stack [
    | [] ↦ (h, false)
    | active ∷ rest ↦
        if pointer_changes active.surface point gesture
        then (record h { invalidations = h.invalidations + 1 }, true)
        else (h, false)
  ]
