-- ===== src/Composer/Attachments/Tests.antt =====
-- A store in which one image was pasted, detached by an edit and another one reserved.
use deepseek_harness_communi.Prelude.{Bool, false, List, [], ◌∷◌, string_eq, arith}
use deepseek_harness_communi.Prelude.Text.{units}
use deepseek_harness_communi.Prelude.Double.{increment, to_double}
use deepseek_harness_communi.Prelude.Decimal.{decimal, decimal_onto}
use deepseek_harness_communi.Prelude.Table.{insert, remove, lookup}
use deepseek_harness_communi.Prelude.Sort.{sort_by, insert_by}
use deepseek_harness_communi.Composer.Images.{
  next_image_marker, first_unused, image_marker, image_markers, image_marker_occurrences,
  occurrences_from, match_marker, match_number, match_digits, around,
}
use deepseek_harness_communi.Composer.Attachments.{
  AttachmentDraft, AttachmentReservation, NewAttachmentDraft, clipboard, no_drafts, reserve,
  complete, emit, reconcile_text,
}
use deepseek_harness_communi.Composer.Attachments.Counter.{
  Operation, reserves, completes, reconciles, perform, perform_all,
}
use deepseek_harness_communi.Composer.Attachments.Counter.Unused.{
  IsFarFromLimit, IsUnusedReservation, reserve-perform_all,
}
use deepseek_harness_communi.Composer.Attachments.Reconcile.{
  IsReconciled, reconcile_text-IsReconciled,
}

-- No two drafts of the tests are one object.
abbrev same : AttachmentDraft → AttachmentDraft → Bool
same d e = false

abbrev pasted : NewAttachmentDraft
pasted = record {
  name = "a.png";
  media_type = "image/png";
  data_bytes = 1 ∷ 2 ∷ [];
  source = clipboard;
}

abbrev first : AttachmentReservation
first = record { id = "one"; placeholder = units "[Image #1]" }

abbrev history : List Operation
history =
    reserves "one" []
    ∷ completes first pasted
    ∷ reconciles (units "no image")
    ∷ reserves "two" []
    ∷ []

far_from_limit : IsFarFromLimit (perform_all same history no_drafts) (units "[Image #3]")
unfolding units perform_all perform reserve complete reconcile_text emit next_image_marker
    first_unused image_marker image_markers image_marker_occurrences occurrences_from match_marker
    match_number match_digits decimal decimal_onto increment to_double insert remove lookup sort_by
    insert_by around
far_from_limit = omega arith

reserve-perform_all_example :
    let s = perform_all same history no_drafts in
    IsUnusedReservation s (units "[Image #3]") (reserve "three" (units "[Image #3]") s)
reserve-perform_all_example =
    reserve-perform_all same history "three" (units "[Image #3]") far_from_limit

reconcile_text-IsReconciled_example :
    let s = perform_all same history no_drafts in
    IsReconciled (units "back [Image #1]") s (reconcile_text same (units "back [Image #1]") s).0
reconcile_text-IsReconciled_example =
    reconcile_text-IsReconciled same (units "back [Image #1]") (perform_all same history no_drafts)
      (λ d e h. absurd (ground (arith, h)))
