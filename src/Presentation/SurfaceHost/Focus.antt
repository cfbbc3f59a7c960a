-- ===== src/Presentation/SurfaceHost/Focus.antt =====
-- Surfaces capture the focus and give it back.
use deepseek_harness_communi.Prelude.{
  ℕ, suc, ◌≡◌, refl, subst, sym, ◌∙◌, true, false, ◌&&◌, inl, inr, Option, none, some, List, [],
  ◌∷◌, Bool-cases, arith,
}
use deepseek_harness_communi.Prelude.Result.{ok, err}
use deepseek_harness_communi.Presentation.SurfaceHost.{
  Placement, SurfaceDescriptor, SurfaceEntry, SurfaceHost, new_host, focus_of, show_top,
  apply_active_surface, captured, open_surface, in_stack, is_open, is_top, with_surface,
  replace_surface, without_entry, retire, close_surface, SurfaceOperation, opens, replaces, closes,
  perform, perform_all,
}

-- Without surfaces `focus` has the focus, and the layout shows none. With surfaces `focus` waits, the
-- layout shows the surface at the top, and what that one asks for has the focus.
abbrev pub IsShown :
    Option ℕ → List SurfaceEntry → Option ℕ → Option ℕ → Option (Placement × ℕ) → Type 0
IsShown focus [] base focused shown = (focused ≡ focus) × (base ≡ none) × (shown ≡ none)
IsShown focus (top ∷ rest) base focused shown =
    (base ≡ focus)
    × (focused ≡ focus_of top.surface)
    × (shown ≡ some (top.surface.placement, top.surface.component))

pub record IsFocused (focus : Option ℕ) (h : SurfaceHost) : Type 0 where
  pub active : h.scope_active ≡ true
  pub shows : IsShown focus h.stack h.base_focus h.focused h.shown

module _ (focus : Option ℕ) where
  show_top-IsShown :
      (stack : List SurfaceEntry) (h : SurfaceHost)
      → h.base_focus ≡ focus
      → let t = show_top stack h in IsShown focus stack t.base_focus t.focused t.shown
  unfolding show_top
  show_top-IsShown [] h e = (e, refl, refl)
  show_top-IsShown (top ∷ rest) h e = (e, refl, refl)

  kept_active :
      (stack : List SurfaceEntry) (h : SurfaceHost)
      → (show_top stack h).scope_active ≡ h.scope_active
  unfolding show_top
  kept_active [] h = refl
  kept_active (top ∷ rest) h = refl

  kept_stack : (stack : List SurfaceEntry) (h : SurfaceHost) → (show_top stack h).stack ≡ h.stack
  unfolding show_top
  kept_stack [] h = refl
  kept_stack (top ∷ rest) h = refl

  apply-IsFocused :
      (h : SurfaceHost)
      → h.scope_active ≡ true
      → h.base_focus ≡ focus
      → IsFocused focus (apply_active_surface h)
  unfolding apply_active_surface
  apply-IsFocused h a e = record {
    active = kept_active h.stack h ∙ a;
    shows =
        let t = show_top h.stack h in
        subst (λ stack. IsShown focus stack t.base_focus t.focused t.shown)
          (sym (kept_stack h.stack h)) (show_top-IsShown h.stack h e);
  }

  captured-focus :
      (stack : List SurfaceEntry) (h : SurfaceHost)
      → IsShown focus stack h.base_focus h.focused h.shown
      → captured stack h ≡ focus
  captured-focus [] h s = s.0
  captured-focus (top ∷ rest) h s = s.0

  open-IsFocused :
      (surface : SurfaceDescriptor) (h : SurfaceHost)
      → IsFocused focus h
      → IsFocused focus (elim (open_surface surface h) [ err e ↦ h | ok (t, id) ↦ t ])
  unfolding open_surface
  open-IsFocused surface h f = simp (f.active) (
      apply-IsFocused
        (record h {
          stack = record { id = suc h.next_id; surface = surface } ∷ h.stack;
          next_id = suc h.next_id;
          base_focus = captured h.stack h;
          scope_active = true;
        })
        refl (captured-focus h.stack h f.shows))

  base-focus :
      (id : ℕ) (stack : List SurfaceEntry) (h : SurfaceHost)
      → in_stack id stack ≡ true
      → IsShown focus stack h.base_focus h.focused h.shown
      → h.base_focus ≡ focus
  base-focus id [] h e s = absurd (ground (arith, e))
  base-focus id (top ∷ rest) h e s = s.0

  with_surface-IsShown :
      (id : ℕ) (surface : SurfaceDescriptor) (stack : List SurfaceEntry) (base focused : Option ℕ)
      (shown : Option (Placement × ℕ))
      → is_top id stack ≡ false
      → IsShown focus stack base focused shown
      → IsShown focus (with_surface id surface stack) base focused shown
  unfolding with_surface
  with_surface-IsShown id surface [] base focused shown e s = s
  with_surface-IsShown id surface (top ∷ rest) base focused shown e s = rw e s

  without_entry-IsShown :
      (id : ℕ) (stack : List SurfaceEntry) (base focused : Option ℕ)
      (shown : Option (Placement × ℕ))
      → is_top id stack ≡ false
      → IsShown focus stack base focused shown
      → IsShown focus (without_entry id stack) base focused shown
  unfolding without_entry
  without_entry-IsShown id [] base focused shown e s = s
  without_entry-IsShown id (top ∷ rest) base focused shown e s = rw e s

  replace-IsFocused :
      (id : ℕ) (surface : SurfaceDescriptor) (h : SurfaceHost)
      → IsFocused focus h
      → IsFocused focus (replace_surface id surface h).0
  unfolding replace_surface
  replace-IsFocused id surface h f = elim (Bool-cases (is_open id h)) [
    | inl e ↦ elim (Bool-cases (is_top id h.stack)) [
      | inl t ↦
          simp (e, t)
            (apply-IsFocused _ f.active (base-focus id h.stack h (ground (arith, e)) f.shows))
      | inr t ↦
          simp (e, t)
            (record {
              active = f.active;
              shows =
                  with_surface-IsShown id surface h.stack h.base_focus h.focused h.shown t f.shows;
            })
    ]
    | inr e ↦ simp e f
  ]

  retire-IsFocused :
      (id : ℕ) (h : SurfaceHost)
      → in_stack id h.stack ≡ true
      → IsFocused focus h
      → IsFocused focus (retire id h)
  unfolding retire
  retire-IsFocused id h here f = elim (Bool-cases (is_top id h.stack && h.scope_active)) [
    | inl t ↦
        simp (here, t)
          (apply-IsFocused (record h { stack = without_entry id h.stack }) f.active
            (base-focus id h.stack h here f.shows))
    | inr t ↦
        let below : is_top id h.stack ≡ false = ground (arith, t, f.active) in
        simp (here, t)
          (record {
            active = f.active;
            shows = without_entry-IsShown id h.stack h.base_focus h.focused h.shown below f.shows;
          })
  ]

  close-IsFocused :
      (id : ℕ) (h : SurfaceHost) → IsFocused focus h → IsFocused focus (close_surface id h).0
  unfolding close_surface
  close-IsFocused id h f = elim (Bool-cases (is_open id h)) [
    | inl e ↦ simp e (retire-IsFocused id h (ground (arith, e)) f)
    | inr e ↦ simp e f
  ]

  perform-IsFocused :
      (operation : SurfaceOperation) (h : SurfaceHost)
      → IsFocused focus h
      → IsFocused focus (perform operation h)
  unfolding perform
  perform-IsFocused (opens surface) h f = open-IsFocused surface h f
  perform-IsFocused (replaces id surface) h f = replace-IsFocused id surface h f
  perform-IsFocused (closes id) h f = close-IsFocused id h f

  perform_all-IsFocused :
      (operations : List SurfaceOperation) (h : SurfaceHost)
      → IsFocused focus h
      → IsFocused focus (perform_all operations h)
  unfolding perform_all
  perform_all-IsFocused [] h f = f
  perform_all-IsFocused (operation ∷ operations) h f =
      perform_all-IsFocused operations (perform operation h) (perform-IsFocused operation h f)

-- Whatever surfaces are opened, replaced and closed, in any order: while any is open, the layout shows
-- the one at the top, and the focus is where that one asks for; when none is open, the layout shows
-- none, and the focus is where it was before the first one opened.
pub perform_all-new_host :
    (focus : Option ℕ) (operations : List SurfaceOperation)
    → IsFocused focus (perform_all operations (new_host focus))
perform_all-new_host focus operations =
    perform_all-IsFocused focus operations (new_host focus)
      (record { active = refl; shows = (refl, refl, refl) })
