-- ===== src/Presentation/SurfaceHost/Handles.antt =====
-- A closed handle stays closed.
use deepseek_harness_communi.Prelude.{
  ℕ, suc, ◌≤◌, ◌<◌, ◌≡◌, refl, subst, sym, ◌∙◌, Bool, true, false, ◌&&◌, inl, inr, Option, List, [],
  ◌∷◌, if◌then◌else◌, Bool-cases, arith,
}
use deepseek_harness_communi.Prelude.Result.{ok, err}
use deepseek_harness_communi.Presentation.SurfaceHost.{
  SurfaceDescriptor, SurfaceEntry, SurfaceHost, new_host, show_top, apply_active_surface, captured,
  open_surface, in_stack, is_open, is_top, with_surface, replace_surface, without_entry, retire,
  close_surface, SurfaceOperation, opens, replaces, closes, perform, perform_all,
}
use deepseek_harness_communi.Presentation.SurfaceHost.Stack.{
  FallsBelow, with_surface-FallsBelow, without_entry-FallsBelow, in_stack-with_surface,
  without_entry-absent, without_entry-still_absent, in_stack-FallsBelow,
}

show_top-stack : (stack : List SurfaceEntry) (h : SurfaceHost) → (show_top stack h).stack ≡ h.stack
unfolding show_top
show_top-stack [] h = refl
show_top-stack (top ∷ rest) h = refl

show_top-next_id :
    (stack : List SurfaceEntry) (h : SurfaceHost) → (show_top stack h).next_id ≡ h.next_id
unfolding show_top
show_top-next_id [] h = refl
show_top-next_id (top ∷ rest) h = refl

-- A predicate on the counter and the stack that the changes of both keep.
record IsKept (P : ℕ → List SurfaceEntry → Type 0) : Type 0 where
  opened :
      (n : ℕ) (surface : SurfaceDescriptor) (stack : List SurfaceEntry)
      → P n stack
      → P (suc n) (record { id = suc n; surface = surface } ∷ stack)
  replaced :
      (n id : ℕ) (surface : SurfaceDescriptor) (stack : List SurfaceEntry)
      → P n stack
      → P n (with_surface id surface stack)
  closed : (n id : ℕ) (stack : List SurfaceEntry) → P n stack → P n (without_entry id stack)

record Holds (P : ℕ → List SurfaceEntry → Type 0) (h : SurfaceHost) : Type 0 where
  holds : P h.next_id h.stack

module _ (P : ℕ → List SurfaceEntry → Type 0) (kept : IsKept P) where
  applied : (h : SurfaceHost) → P h.next_id h.stack → Holds P (apply_active_surface h)
  unfolding apply_active_surface
  applied h p = record {
    holds =
        subst (λ n. P n (show_top h.stack h).stack) (sym (show_top-next_id h.stack h))
          (subst (P h.next_id) (sym (show_top-stack h.stack h)) p);
  }

  -- Where a flag decides whether the surface is applied.
  applied_if :
      (b : Bool) (h : SurfaceHost)
      → P h.next_id h.stack
      → Holds P (if b then apply_active_surface h else h)
  applied_if true h p = applied h p
  applied_if false h p = record { holds = p }

  open-kept :
      (surface : SurfaceDescriptor) (h : SurfaceHost)
      → Holds P h
      → Holds P (elim (open_surface surface h) [ err e ↦ h | ok (t, id) ↦ t ])
  unfolding open_surface
  open-kept surface h p = elim (Bool-cases h.scope_active) [
    | inl e ↦ simp e (
        applied
          (record h {
            stack = record { id = suc h.next_id; surface = surface } ∷ h.stack;
            next_id = suc h.next_id;
            base_focus = captured h.stack h;
            scope_active = true;
          })
          (kept.opened h.next_id surface h.stack p.holds))
    | inr e ↦ simp e p
  ]

  replace-kept :
      (id : ℕ) (surface : SurfaceDescriptor) (h : SurfaceHost)
      → Holds P h
      → Holds P (replace_surface id surface h).0
  unfolding replace_surface
  replace-kept id surface h p = elim (Bool-cases (is_open id h)) [
    | inl e ↦ simp e (
        applied_if (is_top id h.stack) (record h { stack = with_surface id surface h.stack })
          (kept.replaced h.next_id id surface h.stack p.holds))
    | inr e ↦ simp e p
  ]

  retire-kept :
      (id : ℕ) (h : SurfaceHost) → in_stack id h.stack ≡ true → Holds P h → Holds P (retire id h)
  unfolding retire
  retire-kept id h here p = simp here (
      applied_if (is_top id h.stack && h.scope_active)
        (record h { stack = without_entry id h.stack }) (kept.closed h.next_id id h.stack p.holds))

  close-kept : (id : ℕ) (h : SurfaceHost) → Holds P h → Holds P (close_surface id h).0
  unfolding close_surface
  close-kept id h p = elim (Bool-cases (is_open id h)) [
    | inl e ↦ simp e (retire-kept id h (ground (arith, e)) p)
    | inr e ↦ simp e p
  ]

  perform-kept :
      (operation : SurfaceOperation) (h : SurfaceHost) → Holds P h → Holds P (perform operation h)
  unfolding perform
  perform-kept (opens surface) h p = open-kept surface h p
  perform-kept (replaces id surface) h p = replace-kept id surface h p
  perform-kept (closes id) h p = close-kept id h p

  perform_all-kept :
      (operations : List SurfaceOperation) (h : SurfaceHost)
      → Holds P h
      → Holds P (perform_all operations h)
  unfolding perform_all
  perform_all-kept [] h p = p
  perform_all-kept (operation ∷ operations) h p =
      perform_all-kept operations (perform operation h) (perform-kept operation h p)

FallsBelow-IsKept : IsKept (λ n stack. FallsBelow (suc n) stack)
FallsBelow-IsKept = record {
  opened = λ n surface stack f. (omega arith, f);
  replaced = λ n id surface stack f. with_surface-FallsBelow (suc n) id surface stack f;
  closed = λ n id stack f. without_entry-FallsBelow (suc n) id stack f;
}

-- Not in the stack, and not to be given again.
abbrev IsGone : ℕ → ℕ → List SurfaceEntry → Type 0
IsGone id n stack = (in_stack id stack ≡ false) × (id ≤ n)

IsGone-IsKept : (id : ℕ) → IsKept (IsGone id)
IsGone-IsKept id = record {
  opened = λ n surface stack g. (ground (arith, g.0, g.1), omega (arith, g.1));
  replaced = λ n j surface stack g. (in_stack-with_surface j id surface stack ∙ g.0, g.1);
  closed = λ n j stack g. (without_entry-still_absent j id stack g.0, g.1);
}

retire-IsGone :
    (id : ℕ) (h : SurfaceHost)
    → Holds (λ n stack. FallsBelow (suc n) stack) h
    → in_stack id h.stack ≡ true
    → Holds (IsGone id) (retire id h)
unfolding retire
retire-IsGone id h f here =
    let lower : id < suc h.next_id = in_stack-FallsBelow (suc h.next_id) id h.stack f.holds here in
    simp here (
      applied_if (IsGone id) (IsGone-IsKept id) (is_top id h.stack && h.scope_active)
        (record h { stack = without_entry id h.stack })
        (without_entry-absent (suc h.next_id) id h.stack f.holds, omega (arith, lower)))

-- After the handle was closed it is not in the stack.
close-IsGone :
    (id : ℕ) (h : SurfaceHost)
    → Holds (λ n stack. FallsBelow (suc n) stack) h
    → (close_surface id h).1 ≡ true
    → Holds (IsGone id) (close_surface id h).0
unfolding close_surface
close-IsGone id h f closed = elim (Bool-cases (is_open id h)) [
  | inl e ↦ simp e (retire-IsGone id h f (ground (arith, e)))
  | inr e ↦ absurd (ground (arith, e, closed))
]

inert :
    (id : ℕ) (h : SurfaceHost) (surface : SurfaceDescriptor)
    → Holds (IsGone id) h
    → (replace_surface id surface h ≡ (h, false)) × (close_surface id h ≡ (h, false))
unfolding replace_surface close_surface
inert id h surface g =
    let closed : is_open id h ≡ false = ground (arith, g.holds.0) in
    (simp closed refl, simp closed refl)

-- Once `close` answered true for a handle, later calls of `replace` and `close` with it answer false
-- and change nothing, whatever surfaces were opened, replaced and closed before and in between.
pub closed_handle_is_inert :
    (focus : Option ℕ) (before after : List SurfaceOperation) (id : ℕ) (surface : SurfaceDescriptor)
    → let h = perform_all before (new_host focus) in
      (close_surface id h).1 ≡ true
      → let t = perform_all after (close_surface id h).0 in
        (replace_surface id surface t ≡ (t, false)) × (close_surface id t ≡ (t, false))
closed_handle_is_inert focus before after id surface closed =
    let h = perform_all before (new_host focus) in
    let falls =
      perform_all-kept (λ n stack. FallsBelow (suc n) stack) FallsBelow-IsKept before
        (new_host focus) (record { holds = tt }) in
    inert id (perform_all after (close_surface id h).0) surface (
      perform_all-kept (IsGone id) (IsGone-IsKept id) after (close_surface id h).0
        (close-IsGone id h falls closed))
