-- ===== src/Composer/Attachments/Counter/Unused.antt =====
-- A marker that the store hands out is not that of another draft.
use deepseek_harness_communi.Prelude.{
  ℕ, ◌+◌, ◌-◌, length, ◌≤◌, ◌<◌, ◌≡◌, refl, subst, Bool, false, inl, inr, Option, none, some, List,
  [], ◌∷◌, ◌++◌, String, map, Bool-cases, Option-cases, ◌==◌, ==_iff, string_eq, any-append, arith,
}
use deepseek_harness_communi.Prelude.Double.{exact_limit}
use deepseek_harness_communi.Prelude.Decimal.{units_eq}
use deepseek_harness_communi.Composer.Images.{image_marker, image_markers, has, next_image_marker}
use deepseek_harness_communi.Composer.Images.Fresh.{IsNextMarker, next_image_marker-IsNextMarker}
use deepseek_harness_communi.Composer.Attachments.{
  AttachmentDraft, AttachmentReservation, text_number, AttachmentDraftStore, no_drafts,
  reserved_markers, placeholders, reserve,
}
use deepseek_harness_communi.Composer.Attachments.Counter.{
  IsBelow, AreBelow, AreReservedBelow, IsCounted, Operation, reserves, completes, discards,
  sets_error, restores, replaces_all, reconciles, discards_detached, clears, listens,
  stops_listening, perform, perform_all,
}
use deepseek_harness_communi.Composer.Attachments.Counter.Reservations.{
  text_number-image_marker, reserve-IsCounted, complete-IsCounted, discard-IsCounted,
}
use deepseek_harness_communi.Composer.Attachments.Counter.Drafts.{
  set_error-IsCounted, restore-IsCounted, replace_all-IsCounted, reconcile_text-IsCounted,
  discard_detached-IsCounted, clear-IsCounted, on_change-IsCounted, stop_listening-IsCounted,
}

module _ (same : AttachmentDraft → AttachmentDraft → Bool) where
  perform-IsCounted :
      (operation : Operation) (s : AttachmentDraftStore)
      → IsCounted s
      → IsCounted (perform same operation s)
  unfolding perform
  perform-IsCounted (reserves id text) s h = reserve-IsCounted id s text h
  perform-IsCounted (completes r input) s h = complete-IsCounted r input s h
  perform-IsCounted (discards r) s h = discard-IsCounted r s h
  perform-IsCounted (sets_error ids error) s h = set_error-IsCounted ids error s h
  perform-IsCounted (restores drafts error) s h = restore-IsCounted drafts error s h
  perform-IsCounted (replaces_all drafts) s h = replace_all-IsCounted same drafts s h
  perform-IsCounted (reconciles text) s h = reconcile_text-IsCounted same text s h
  perform-IsCounted discards_detached s h = discard_detached-IsCounted s h
  perform-IsCounted clears s h = clear-IsCounted s
  perform-IsCounted (listens listener) s h = on_change-IsCounted listener s h
  perform-IsCounted (stops_listening listener) s h = stop_listening-IsCounted listener s h

  perform_all-IsCounted :
      (operations : List Operation) (s : AttachmentDraftStore)
      → IsCounted s
      → IsCounted (perform_all same operations s)
  unfolding perform_all
  perform_all-IsCounted [] s h = h
  perform_all-IsCounted (operation ∷ operations) s h =
      perform_all-IsCounted operations (perform same operation s) (perform-IsCounted operation s h)

-- A text with a lower number is not the marker of `n`.
differs :
    (n : ℕ) (placeholder : List ℕ) (m : ℕ)
    → IsBelow (text_number placeholder) m
    → m ≤ n
    → 0 < n
    → n < exact_limit
    → (placeholder == image_marker n) ≡ false
differs n placeholder m h le p lt = elim (Bool-cases (placeholder == image_marker n)) [
  | inl e ↦
      let same : placeholder ≡ image_marker n = (==_iff placeholder (image_marker n)).0 e in
      let number : text_number placeholder ≡ n = rw same (text_number-image_marker n p lt) in
      absurd (omega (arith, number, h (omega (arith, le, lt)), le))
  | inr e ↦ e
]

not_placed :
    (n : ℕ) (drafts : List AttachmentDraft) (m : ℕ)
    → AreBelow m drafts
    → m ≤ n
    → 0 < n
    → n < exact_limit
    → has (map (λ d. d.placeholder) drafts) (image_marker n) ≡ false
not_placed n [] m h le p lt = refl
not_placed n (d ∷ drafts) m h le p lt =
    ground (arith, differs n d.placeholder m h.0 le p lt, not_placed n drafts m h.1 le p lt)

-- A reservation was made, and its marker is neither in the text nor that of a draft or of another
-- reservation.
abbrev pub IsUnusedReservation :
    AttachmentDraftStore → List ℕ → Option (AttachmentDraftStore × AttachmentReservation) → Type 0
IsUnusedReservation s text none = ⊥
IsUnusedReservation s text (some (t, r)) =
    (has (image_markers text) r.placeholder ≡ false) × (has (placeholders s) r.placeholder ≡ false)

not_reserved :
    (n : ℕ) (reservations : List (String × List ℕ)) (m : ℕ)
    → AreReservedBelow m reservations
    → m ≤ n
    → 0 < n
    → n < exact_limit
    → has (map (λ r. r.1) reservations) (image_marker n) ≡ false
not_reserved n [] m h le p lt = refl
not_reserved n ((id, marker) ∷ rest) m h le p lt =
    ground (arith, differs n marker m h.0 le p lt, not_reserved n rest m h.1 le p lt)

placeholders-unused :
    (s : AttachmentDraftStore) (n : ℕ)
    → IsCounted s
    → s.next_marker_number ≤ n
    → 0 < n
    → n < exact_limit
    → has (placeholders s) (image_marker n) ≡ false
unfolding placeholders
placeholders-unused s n h le p lt = ground (
  arith,
  any-append (λ u. u == image_marker n) (map (λ d. d.placeholder) s.active)
      (map (λ d. d.placeholder) s.detached ++ reserved_markers s),
  any-append (λ u. u == image_marker n) (map (λ d. d.placeholder) s.detached) (reserved_markers s),
  not_placed n s.active s.next_marker_number h.active_below le p lt,
  not_placed n s.detached s.next_marker_number h.detached_below le p lt,
  not_reserved n s.reservations s.next_marker_number h.reserved_below le p lt,
)

-- The counter, with the markers that a search passes over, is below 2 ^ 53.
abbrev pub IsFarFromLimit : AttachmentDraftStore → List ℕ → Type 0
IsFarFromLimit s text =
    s.next_marker_number
      + length (image_markers text ++ (map (λ d. d.placeholder) s.active ++ reserved_markers s))
      + 2
    < exact_limit

reserve-IsUnusedReservation :
    (id : String) (text : List ℕ) (s : AttachmentDraftStore)
    → IsCounted s
    → IsFarFromLimit s text
    → IsUnusedReservation s text (reserve id text s)
unfolding reserve
reserve-IsUnusedReservation id text s h far =
    let used = map (λ d. d.placeholder) s.active ++ reserved_markers s in
    let found =
      next_image_marker-IsNextMarker text used s.next_marker_number (omega (arith, far)) in
    elim (Option-cases (next_image_marker text used s.next_marker_number)) [
      | inl e ↦
          absurd (subst (IsNextMarker (image_markers text ++ used) s.next_marker_number) e found)
      | inr ((marker, next), e) ↦
          let k : IsNextMarker (image_markers text ++ used) s.next_marker_number
              (some (marker, next)) =
            subst (IsNextMarker (image_markers text ++ used) s.next_marker_number) e found in
          rw (e, IsUnusedReservation)
            (
              ground (arith, k.3, any-append (λ u. u == marker) (image_markers text) used),
              rw (k.2) (
                  placeholders-unused s (next - 1) h (omega (arith, k.0)) (omega (arith, k.0))
                    (omega (arith, k.1))),
            )
    ]

no_drafts-IsCounted : IsCounted no_drafts
no_drafts-IsCounted = record { active_below = tt; detached_below = tt; reserved_below = tt }

-- After any sequence of operations on an empty store, and while the counter plus the count of the
-- markers in the text, of the active drafts and of the reservations is below 2 ^ 53 - 2, a
-- reservation succeeds: the search for its marker ends. The marker is not in the text that is
-- given, and no draft, active or detached, and no other reservation has it.
pub reserve-perform_all :
    (same : AttachmentDraft → AttachmentDraft → Bool) (operations : List Operation) (id : String)
    (text : List ℕ)
    → IsFarFromLimit (perform_all same operations no_drafts) text
    → let s = perform_all same operations no_drafts in
      IsUnusedReservation s text (reserve id text s)
reserve-perform_all same operations id text far =
    reserve-IsUnusedReservation id text (perform_all same operations no_drafts)
      (perform_all-IsCounted same operations no_drafts no_drafts-IsCounted) far
