-- ===== src/Composer/Attachments/Counter.antt =====
-- The counter of the markers is past those of all drafts and reservations, while it is below 2 ^ 53.
pub mod Reservations
pub mod Drafts
pub mod Unused
use deepseek_harness_communi.Prelude.{
  ℕ, suc, ◌+◌, ◌-◌, ◌≤◌, ◌<◌, max, ◌≡◌, refl, ap, sym, ◌∙◌, subst, Bool, true, false, not, ◌&&◌,
  ◌||◌, inl, inr, Option, none, some, is_some, List, [], ◌∷◌, ◌++◌, String, map, if◌then◌else◌,
  Bool-cases, Option-cases, nat_beq, ◌==◌, ==_iff, string_eq, any, any-append, filter, length,
  is_empty, All, All-append, All-map_of, All-filter_of, arith,
}
use deepseek_harness_communi.Prelude.Sort.{sort_by, sort_by-All}
use deepseek_harness_communi.Prelude.Table.{lookup, insert, remove, insert-All, lookup-All}
use deepseek_harness_communi.Prelude.Double.{exact_limit}
use deepseek_harness_communi.Prelude.Decimal.{units_eq}
use deepseek_harness_communi.Composer.Images.{
  image_marker, image_marker_number, image_markers, has, next_image_marker, includes,
}
use deepseek_harness_communi.Composer.Images.Numbers.{image_marker_number-image_marker}
use deepseek_harness_communi.Composer.Images.Fresh.{IsNextMarker, next_image_marker-IsNextMarker}
use deepseek_harness_communi.Composer.Attachments.{
  AttachmentDraft, NewAttachmentDraft, AttachmentReservation, text_number, marker_number,
  AttachmentDraftStore, no_drafts, reserved_markers, placeholders, emit, reserve, complete, discard,
  set_error, with_error, greatest, advance_marker_counter, restored_drafts, restore, all_same,
  replace_all, reconcile_text, discard_detached, clear, on_change, stop_listening,
}

-- The number is below the counter, while the counter is below 2 ^ 53.
abbrev pub IsBelow : ℕ → ℕ → Type 0
IsBelow number counter = counter < exact_limit → number < counter

-- The numbers of all markers are below the counter.
abbrev pub AreBelow : ℕ → List AttachmentDraft → Type 0
AreBelow n drafts = All (λ d. IsBelow (marker_number d) n) drafts

abbrev pub AreReservedBelow : ℕ → List (String × List ℕ) → Type 0
AreReservedBelow n reservations = All (λ r. IsBelow (text_number r.1) n) reservations

pub record IsCounted (s : AttachmentDraftStore) : Type 0 where
  pub active_below : AreBelow s.next_marker_number s.active
  pub detached_below : AreBelow s.next_marker_number s.detached
  pub reserved_below : AreReservedBelow s.next_marker_number s.reservations

-- The methods that change the store.
pub data Operation : Type 0 where
  reserves : String → List ℕ → Operation
  completes : AttachmentReservation → NewAttachmentDraft → Operation
  discards : AttachmentReservation → Operation
  sets_error : List String → String → Operation
  restores : List AttachmentDraft → Option String → Operation
  replaces_all : List AttachmentDraft → Operation
  reconciles : List ℕ → Operation
  discards_detached : Operation
  clears : Operation
  listens : ℕ → Operation
  stops_listening : ℕ → Operation

module _ (same : AttachmentDraft → AttachmentDraft → Bool) where
  unfoldable pub perform : Operation → AttachmentDraftStore → AttachmentDraftStore
  perform (reserves id text) s = elim (reserve id text s) [ none ↦ s | some (t, r) ↦ t ]
  perform (completes r input) s = (complete r input s).0
  perform (discards r) s = (discard r s).0
  perform (sets_error ids error) s = set_error ids error s
  perform (restores drafts error) s = restore drafts error s
  perform (replaces_all drafts) s = replace_all same drafts s
  perform (reconciles text) s = (reconcile_text same text s).0
  perform discards_detached s = discard_detached s
  perform clears s = clear s
  perform (listens listener) s = on_change listener s
  perform (stops_listening listener) s = stop_listening listener s

  unfoldable pub perform_all : List Operation → AttachmentDraftStore → AttachmentDraftStore
  perform_all [] s = s
  perform_all (operation ∷ operations) s = perform_all operations (perform operation s)
