-- ===== src/Presentation/SurfaceHost.antt =====
-- packages/tui/src/presentation/shell/surfaces/surface-host.ts: `SurfaceHost`. A component of the
-- terminal library is a number, and `null` is `none`. The stack has its top first. The host keeps what
-- it told the layout and the screen: the active surface and the focused component. A surface's own
-- scope is active as long as the host's is and the entry was not closed, which removes it from the
-- stack before `close` returns.
pub mod Input
pub mod Focus
pub mod Stack
pub mod Handles
mod Tests
use deepseek_harness_communi.Prelude.{
  ℕ, zero, suc, ◌+◌, Bool, true, false, not, ◌&&◌, ◌||◌, Option, none, some, List, [], ◌∷◌, ◌++◌,
  String, if◌then◌else◌, nat_beq, any, length, ◌==◌, string_eq,
}
use deepseek_harness_communi.Prelude.Result.{Result, ok, err}

pub data Placement : Type 0 where
  readable : Placement
  workspace : Placement

-- `focus` is `none` where the property is missing, and `some none` for `null`.
pub record SurfaceDescriptor : Type 0 where
  pub placement : Placement
  pub component : ℕ
  pub focus : Option (Option ℕ)

pub record SurfaceEntry : Type 0 where
  pub id : ℕ
  pub surface : SurfaceDescriptor

pub record SurfaceHost : Type 0 where
  pub stack : List SurfaceEntry
  pub next_id : ℕ
  pub base_focus : Option ℕ
  pub scope_active : Bool
  -- the layout's active surface
  pub shown : Option (Placement × ℕ)
  -- the screen's focused component
  pub focused : Option ℕ
  -- the calls of `invalidate`
  pub invalidations : ℕ

-- `new SurfaceHost`, on a screen that has a component focused.
abbrev pub new_host : Option ℕ → SurfaceHost
new_host focused = record {
  stack = [];
  next_id = 0;
  base_focus = none;
  scope_active = true;
  shown = none;
  focused = focused;
  invalidations = 0;
}

-- `active.surface.focus === undefined ? active.surface.component : active.surface.focus`
abbrev pub focus_of : SurfaceDescriptor → Option ℕ
focus_of surface = elim surface.focus [ none ↦ some surface.component | some focus ↦ focus ]

-- What is at the top decides.
unfoldable pub show_top : List SurfaceEntry → SurfaceHost → SurfaceHost
show_top [] h = record h {
  shown = none;
  focused = h.base_focus;
  base_focus = none;
  invalidations = h.invalidations + 1;
}
show_top (active ∷ rest) h = record h {
  shown = some (active.surface.placement, active.surface.component);
  focused = focus_of active.surface;
  invalidations = h.invalidations + 1;
}

unfoldable pub apply_active_surface : SurfaceHost → SurfaceHost
apply_active_surface h = show_top h.stack h

pub data HostError : Type 0 where
  inactive_host : HostError

-- `if (this.stack.length === 0) this.baseFocus = this.screen.getFocusedComponent()`
abbrev pub captured : List SurfaceEntry → SurfaceHost → Option ℕ
captured [] h = h.focused
captured (entry ∷ rest) h = h.base_focus

-- The handle is the identity of the entry.
unfoldable pub open_surface : SurfaceDescriptor → SurfaceHost → Result HostError (SurfaceHost × ℕ)
open_surface surface h =
    if not h.scope_active
    then err inactive_host
    else let id = suc h.next_id in
      ok (
        apply_active_surface (record h {
          stack = record { id = id; surface = surface } ∷ h.stack;
          next_id = id;
          base_focus = captured h.stack h;
        }),
        id,
      )

abbrev pub in_stack : ℕ → List SurfaceEntry → Bool
in_stack id stack = any (λ entry. nat_beq entry.id id) stack

-- `entry.scope.active`
abbrev pub is_open : ℕ → SurfaceHost → Bool
is_open id h = h.scope_active && in_stack id h.stack

-- `this.stack.at(-1) === entry`
abbrev pub is_top : ℕ → List SurfaceEntry → Bool
is_top id [] = false
is_top id (entry ∷ rest) = nat_beq entry.id id

unfoldable pub with_surface : ℕ → SurfaceDescriptor → List SurfaceEntry → List SurfaceEntry
with_surface id surface [] = []
with_surface id surface (entry ∷ rest) =
    if nat_beq entry.id id
    then record { id = id; surface = surface } ∷ rest
    else entry ∷ with_surface id surface rest

unfoldable pub replace_surface : ℕ → SurfaceDescriptor → SurfaceHost → SurfaceHost × Bool
replace_surface id surface h =
    if not (is_open id h)
    then (h, false)
    else let replaced = record h { stack = with_surface id surface h.stack } in
      (if is_top id h.stack then apply_active_surface replaced else replaced, true)

-- `this.stack.splice(index, 1)`
unfoldable pub without_entry : ℕ → List SurfaceEntry → List SurfaceEntry
without_entry id [] = []
without_entry id (entry ∷ rest) =
    if nat_beq entry.id id then rest else entry ∷ without_entry id rest

unfoldable pub retire : ℕ → SurfaceHost → SurfaceHost
retire id h =
    if not (in_stack id h.stack)
    then h
    else let retired = record h { stack = without_entry id h.stack } in
      if is_top id h.stack && h.scope_active then apply_active_surface retired else retired

unfoldable pub close_surface : ℕ → SurfaceHost → SurfaceHost × Bool
close_surface id h = if not (is_open id h) then (h, false) else (retire id h, true)

-- The disposal of the host's scope.
unfoldable pub dispose_host : SurfaceHost → SurfaceHost
dispose_host h = record h { stack = []; base_focus = none; scope_active = false; shown = none }

-- What the owners of surfaces do.
pub data SurfaceOperation : Type 0 where
  opens : SurfaceDescriptor → SurfaceOperation
  replaces : ℕ → SurfaceDescriptor → SurfaceOperation
  closes : ℕ → SurfaceOperation

unfoldable pub perform : SurfaceOperation → SurfaceHost → SurfaceHost
perform (opens surface) h = elim (open_surface surface h) [ err e ↦ h | ok (t, id) ↦ t ]
perform (replaces id surface) h = (replace_surface id surface h).0
perform (closes id) h = (close_surface id h).0

unfoldable pub perform_all : List SurfaceOperation → SurfaceHost → SurfaceHost
perform_all [] h = h
perform_all (operation ∷ operations) h = perform_all operations (perform operation h)
