-- ===== src/Composer/Attachments/Counter/Reservations.antt =====
-- The counter through `reserve`, `complete` and `discard`.
use deepseek_harness_communi.Prelude.{
  ℕ, ◌-◌, ◌≤◌, ◌<◌, ◌≡◌, refl, subst, inl, inr, none, some, is_some, List, [], ◌∷◌, ◌++◌, String,
  map, Bool-cases, Option-cases, ◌==◌, ==_iff, string_eq, All-append, All-map_of, arith,
}
use deepseek_harness_communi.Prelude.Table.{lookup, remove, insert-All, lookup-All}
use deepseek_harness_communi.Prelude.Double.{exact_limit, increment, increment-exact, increment-lt}
use deepseek_harness_communi.Prelude.Decimal.{units_eq}
use deepseek_harness_communi.Composer.Images.{image_marker, next_image_marker}
use deepseek_harness_communi.Composer.Images.Numbers.{image_marker_number-image_marker}
use deepseek_harness_communi.Composer.Images.Fresh.{IsNumbered, next_image_marker-IsNumbered}
use deepseek_harness_communi.Composer.Attachments.{
  AttachmentDraft, NewAttachmentDraft, AttachmentReservation, text_number, marker_number,
  AttachmentDraftStore, reserved_markers, emit, reserve, complete, discard, greatest,
}
use deepseek_harness_communi.Composer.Attachments.Counter.{
  IsBelow, AreBelow, AreReservedBelow, IsCounted,
}

IsBelow-mono : (k m n : ℕ) → (n < exact_limit → m ≤ n) → IsBelow k m → IsBelow k n
IsBelow-mono k m n le h = λ lt. omega (arith, le lt, h (omega (arith, le lt, lt)))

pub AreBelow-mono :
    (m n : ℕ) (drafts : List AttachmentDraft)
    → (n < exact_limit → m ≤ n)
    → AreBelow m drafts
    → AreBelow n drafts
AreBelow-mono m n drafts le h =
    All-map_of (λ d. IsBelow (marker_number d) n) (λ d k. IsBelow-mono (marker_number d) m n le k)
      drafts h

pub AreReservedBelow-mono :
    (m n : ℕ) (reservations : List (String × List ℕ))
    → (n < exact_limit → m ≤ n)
    → AreReservedBelow m reservations
    → AreReservedBelow n reservations
AreReservedBelow-mono m n reservations le h =
    All-map_of (λ r. IsBelow (text_number r.1) n) (λ r k. IsBelow-mono (text_number r.1) m n le k)
      reservations h

pub remove-AreReservedBelow :
    (n : ℕ) (id : String) (reservations : List (String × List ℕ))
    → AreReservedBelow n reservations
    → AreReservedBelow n (remove id reservations)
unfolding remove
remove-AreReservedBelow n id [] h = tt
remove-AreReservedBelow n id ((j, w) ∷ m) h = elim (Bool-cases (j == id)) [
  | inl e ↦ rw e (remove-AreReservedBelow n id m h.1)
  | inr e ↦ rw e (h.0, remove-AreReservedBelow n id m h.1)
]

below_greatest :
    (n : ℕ) (drafts : List AttachmentDraft) → greatest drafts ≤ n → AreBelow (increment n) drafts
below_greatest n [] h = tt
below_greatest n (d ∷ drafts) h = (
  λ lt. let small = increment-lt n lt in omega (arith, increment-exact n small, h),
  below_greatest n drafts (omega (arith, h)),
)

pub greatest-AreBelow :
    (drafts : List AttachmentDraft) → AreBelow (increment (greatest drafts)) drafts
greatest-AreBelow drafts = below_greatest (greatest drafts) drafts (omega arith)

pub emit-IsCounted : (s : AttachmentDraftStore) → IsCounted s → IsCounted (emit s)
unfolding emit
emit-IsCounted s h = record {
  active_below = h.active_below;
  detached_below = h.detached_below;
  reserved_below = h.reserved_below;
}

pub text_number-image_marker : (n : ℕ) → 0 < n → n < exact_limit → text_number (image_marker n) ≡ n
unfolding text_number
text_number-image_marker n p h = rw (image_marker_number-image_marker n p h) refl

IsBelow-IsNumbered :
    (start : ℕ) (marker : List ℕ) (next : ℕ)
    → IsNumbered start (some (marker, next))
    → IsBelow (text_number marker) next
IsBelow-IsNumbered start marker next k = λ lt.
    let found = k lt in
    rw (found.1) (
      omega (
        arith,
        found.0,
        text_number-image_marker (next - 1) (omega (arith, found.0)) (omega (arith, lt)),
      ))

pub reserve-IsCounted :
    (id : String) (s : AttachmentDraftStore) (text : List ℕ)
    → IsCounted s
    → IsCounted (elim (reserve id text s) [ none ↦ s | some (t, r) ↦ t ])
unfolding reserve
reserve-IsCounted id s text h =
    let used = map (λ d. d.placeholder) s.active ++ reserved_markers s in
    let found = next_image_marker-IsNumbered text used s.next_marker_number in
    elim (Option-cases (next_image_marker text used s.next_marker_number)) [
      | inl e ↦ rw e h
      | inr ((marker, next), e) ↦
          let k : IsNumbered s.next_marker_number (some (marker, next)) =
            subst (IsNumbered s.next_marker_number) e found in
          let later : next < exact_limit → s.next_marker_number ≤ next =
            λ lt. omega (arith, (k lt).0) in
          let number = IsBelow-IsNumbered s.next_marker_number marker next k in
          rw e (
            emit-IsCounted _ (record {
              active_below = AreBelow-mono s.next_marker_number next s.active later h.active_below;
              detached_below =
                  AreBelow-mono s.next_marker_number next s.detached later h.detached_below;
              reserved_below =
                  insert-All (λ r. IsBelow (text_number r.1) next) id marker s.reservations
                    (λ j e'. number)
                    (AreReservedBelow-mono s.next_marker_number next s.reservations later
                      h.reserved_below);
            }))
    ]

pub complete-IsCounted :
    (reservation : AttachmentReservation) (input : NewAttachmentDraft) (s : AttachmentDraftStore)
    → IsCounted s
    → IsCounted (complete reservation input s).0
unfolding complete
complete-IsCounted reservation input s h =
    elim (Option-cases (lookup reservation.id s.reservations)) [
      | inl e ↦ rw e h
      | inr (marker, e) ↦ elim (Bool-cases (marker == reservation.placeholder)) [
        | inl here ↦
            let same : marker ≡ reservation.placeholder =
              (==_iff marker reservation.placeholder).0 here in
            let below : IsBelow (text_number reservation.placeholder) s.next_marker_number =
              rw (← same) (
                lookup-All (λ r. IsBelow (text_number r.1) s.next_marker_number) reservation.id
                  marker s.reservations h.reserved_below e) in
            rw (e, here)
              (emit-IsCounted _ (record {
                active_below =
                    All-append (λ d. IsBelow (marker_number d) s.next_marker_number) s.active _
                      h.active_below (below, tt);
                detached_below = h.detached_below;
                reserved_below =
                    remove-AreReservedBelow s.next_marker_number reservation.id s.reservations
                      h.reserved_below;
              }))
        | inr other ↦ rw (e, other) h
      ]
    ]

pub discard-IsCounted :
    (reservation : AttachmentReservation) (s : AttachmentDraftStore)
    → IsCounted s
    → IsCounted (discard reservation s).0
unfolding discard
discard-IsCounted reservation s h =
    elim (Bool-cases (is_some (lookup reservation.id s.reservations))) [
      | inl e ↦ rw e (
          emit-IsCounted _ (record {
            active_below = h.active_below;
            detached_below = h.detached_below;
            reserved_below =
                remove-AreReservedBelow s.next_marker_number reservation.id s.reservations
                  h.reserved_below;
          }))
      | inr e ↦ rw e h
    ]
