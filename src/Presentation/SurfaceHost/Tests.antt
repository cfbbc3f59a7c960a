-- ===== src/Presentation/SurfaceHost/Tests.antt =====
-- A menu over a trajectory view: the menu is closed, and the view after it.
use deepseek_harness_communi.Prelude.{◌≡◌, refl, true, false, none, some, List, [], ◌∷◌}
use deepseek_harness_communi.Presentation.SurfaceHost.{
  SurfaceDescriptor, readable, workspace, new_host, show_top, apply_active_surface, open_surface,
  with_surface, replace_surface, without_entry, retire, close_surface, SurfaceOperation, opens,
  replaces, closes, perform, perform_all,
}
use deepseek_harness_communi.Presentation.SurfaceHost.Focus.{IsFocused, perform_all-new_host}
use deepseek_harness_communi.Presentation.SurfaceHost.Handles.{closed_handle_is_inert}

abbrev view : SurfaceDescriptor
view = record { placement = workspace; component = 40; focus = none }

abbrev menu : SurfaceDescriptor
menu = record { placement = readable; component = 50; focus = some (some 51) }

abbrev opened : List SurfaceOperation
opened = opens view ∷ opens menu ∷ replaces 1 (record view { component = 41 }) ∷ []

focus_restored :
    (perform_all (closes 2 ∷ closes 1 ∷ []) (perform_all opened (new_host (some 7)))).focused
    ≡ some 7
unfolding perform_all perform open_surface replace_surface close_surface retire with_surface
    without_entry apply_active_surface show_top
focus_restored = refl

perform_all-new_host_example : IsFocused (some 7) (perform_all opened (new_host (some 7)))
perform_all-new_host_example = perform_all-new_host (some 7) opened

view_closed : (close_surface 1 (perform_all opened (new_host (some 7)))).1 ≡ true
unfolding perform_all perform open_surface replace_surface close_surface retire with_surface
    without_entry apply_active_surface show_top
view_closed = refl

closed_handle_is_inert_example :
    let h = perform_all opened (new_host (some 7)) in
    let t = perform_all (opens view ∷ []) (close_surface 1 h).0 in
    (replace_surface 1 menu t ≡ (t, false)) × (close_surface 1 t ≡ (t, false))
closed_handle_is_inert_example =
    closed_handle_is_inert (some 7) opened (opens view ∷ []) 1 menu view_closed
