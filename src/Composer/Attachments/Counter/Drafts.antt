-- ===== src/Composer/Attachments/Counter/Drafts.antt =====
-- The counter through the methods that replace drafts.
use deepseek_harness_communi.Prelude.{
  ℕ, max, ◌≡◌, refl, Bool, not, ◌&&◌, ◌||◌, inl, inr, Option, List, [], ◌∷◌, ◌++◌, String, map,
  if◌then◌else◌, Bool-cases, ◌==◌, string_eq, any, filter, is_empty, All-append, All-filter_of,
  arith,
}
use deepseek_harness_communi.Prelude.Sort.{sort_by, sort_by-All}
use deepseek_harness_communi.Prelude.Double.{increment}
use deepseek_harness_communi.Prelude.Decimal.{units_eq}
use deepseek_harness_communi.Composer.Images.{includes}
use deepseek_harness_communi.Composer.Attachments.{
  AttachmentDraft, marker_number, AttachmentDraftStore, set_error, with_error, greatest,
  advance_marker_counter, restored_drafts, restore, all_same, replace_all, reconcile_text,
  discard_detached, clear, on_change, stop_listening,
}
use deepseek_harness_communi.Composer.Attachments.Counter.{
  IsBelow, AreBelow, AreReservedBelow, IsCounted,
}
use deepseek_harness_communi.Composer.Attachments.Counter.Reservations.{
  AreBelow-mono, AreReservedBelow-mono, greatest-AreBelow, emit-IsCounted,
}

map-AreBelow :
    (n : ℕ) (f : AttachmentDraft → AttachmentDraft) (drafts : List AttachmentDraft)
    → ((d : AttachmentDraft) → marker_number (f d) ≡ marker_number d)
    → AreBelow n drafts
    → AreBelow n (map f drafts)
map-AreBelow n f [] k h = tt
map-AreBelow n f (d ∷ drafts) k h =
    (λ lt. omega (arith, k d, h.0 lt), map-AreBelow n f drafts k h.1)

marker_number-with_error :
    (ids : List String) (error : String) (d : AttachmentDraft)
    → marker_number (with_error ids error d) ≡ marker_number d
marker_number-with_error ids error d = elim (Bool-cases (any (λ id. id == d.id) ids)) [
  | inl e ↦ rw e refl
  | inr e ↦ rw e refl
]

pub set_error-IsCounted :
    (ids : List String) (error : String) (s : AttachmentDraftStore)
    → IsCounted s
    → IsCounted (set_error ids error s)
unfolding set_error
set_error-IsCounted ids error s h = emit-IsCounted _ (record {
  active_below =
      map-AreBelow _ (with_error ids error) s.active (marker_number-with_error ids error)
        h.active_below;
  detached_below =
      map-AreBelow _ (with_error ids error) s.detached (marker_number-with_error ids error)
        h.detached_below;
  reserved_below = h.reserved_below;
})

-- The counter is past the drafts that become active.
advanced-IsCounted :
    (s : AttachmentDraftStore) (n : ℕ) (drafts detached : List AttachmentDraft)
    (reservations : List (String × List ℕ))
    → AreBelow n detached
    → AreReservedBelow n reservations
    → IsCounted (
        advance_marker_counter drafts (record s {
          active = drafts;
          detached = detached;
          reservations = reservations;
          next_marker_number = n;
        }))
unfolding advance_marker_counter
advanced-IsCounted s n drafts detached reservations d r =
    let later = max n (increment (greatest drafts)) in
    record {
      active_below =
          AreBelow-mono (increment (greatest drafts)) later drafts (λ lt. omega arith)
            (greatest-AreBelow drafts);
      detached_below = AreBelow-mono n later detached (λ lt. omega arith) d;
      reserved_below = AreReservedBelow-mono n later reservations (λ lt. omega arith) r;
    }

pub restore-IsCounted :
    (drafts : List AttachmentDraft) (error : Option String) (s : AttachmentDraftStore)
    → IsCounted s
    → IsCounted (restore drafts error s)
unfolding restore
restore-IsCounted drafts error s h = elim (Bool-cases (is_empty drafts)) [
  | inl e ↦ rw e h
  | inr e ↦ elim (Bool-cases (is_empty (restored_drafts drafts error s))) [
    | inl k ↦ rw (e, k) h
    | inr k ↦
        rw (e, k)
          (emit-IsCounted _ (
            advanced-IsCounted s s.next_marker_number (restored_drafts drafts error s ++ s.active)
              s.detached s.reservations h.detached_below h.reserved_below))
  ]
]

module _ (same : AttachmentDraft → AttachmentDraft → Bool) where
  pub replace_all-IsCounted :
      (drafts : List AttachmentDraft) (s : AttachmentDraftStore)
      → IsCounted s
      → IsCounted (replace_all same drafts s)
  unfolding replace_all
  replace_all-IsCounted drafts s h =
      elim (Bool-cases
        (is_empty s.detached && is_empty s.reservations && all_same same drafts s.active)) [
          | inl e ↦ rw e h
          | inr e ↦ rw e (emit-IsCounted _ (advanced-IsCounted s 1 drafts [] [] tt tt))
        ]

  pub reconcile_text-IsCounted :
      (text : List ℕ) (s : AttachmentDraftStore)
      → IsCounted s
      → IsCounted (reconcile_text same text s).0
  unfolding reconcile_text
  reconcile_text-IsCounted text s h =
      let n = s.next_marker_number in
      let ordered = sort_by marker_number (s.active ++ s.detached) in
      let below : AreBelow n ordered =
        sort_by-All marker_number (λ d. IsBelow (marker_number d) n) (s.active ++ s.detached)
          (All-append (λ d. IsBelow (marker_number d) n) s.active s.detached h.active_below
            h.detached_below) in
      elim (Bool-cases
        (all_same same (filter (λ d. includes text d.placeholder) ordered) s.active)) [
          | inl e ↦ rw e h
          | inr e ↦ rw e (
              emit-IsCounted _ (record {
                active_below =
                    All-filter_of (λ d. includes text d.placeholder)
                      (λ d. IsBelow (marker_number d) n) ordered below;
                detached_below =
                    All-filter_of (λ d. not (includes text d.placeholder))
                      (λ d. IsBelow (marker_number d) n) ordered below;
                reserved_below = h.reserved_below;
              }))
        ]

pub discard_detached-IsCounted :
    (s : AttachmentDraftStore) → IsCounted s → IsCounted (discard_detached s)
unfolding discard_detached
discard_detached-IsCounted s h = elim (Bool-cases (is_empty s.detached)) [
  | inl e ↦ rw e h
  | inr e ↦ rw e (emit-IsCounted _ (reset s.active s.reservations h.active_below h.reserved_below))
]
  where
    reset :
        (active : List AttachmentDraft) (reservations : List (String × List ℕ))
        → AreBelow s.next_marker_number active
        → AreReservedBelow s.next_marker_number reservations
        → IsCounted (record s {
          active = active;
          reservations = reservations;
          detached = [];
          next_marker_number =
              if is_empty active && is_empty reservations then 1 else s.next_marker_number;
        })
    reset [] [] a r = record { active_below = tt; detached_below = tt; reserved_below = tt }
    reset [] (x ∷ reservations) a r = record {
      active_below = a;
      detached_below = tt;
      reserved_below = r;
    }
    reset (d ∷ active) reservations a r = record {
      active_below = a;
      detached_below = tt;
      reserved_below = r;
    }

cleared-IsCounted :
    (s : AttachmentDraftStore)
    → IsCounted (record s { active = []; detached = []; reservations = []; next_marker_number = 1 })
cleared-IsCounted s = record { active_below = tt; detached_below = tt; reserved_below = tt }

pub clear-IsCounted : (s : AttachmentDraftStore) → IsCounted (clear s)
unfolding clear
clear-IsCounted s =
    elim (Bool-cases
      (not (is_empty s.active) || not (is_empty s.detached) || not (is_empty s.reservations))) [
        | inl e ↦ rw e (emit-IsCounted _ (cleared-IsCounted s))
        | inr e ↦ rw e (cleared-IsCounted s)
      ]

pub on_change-IsCounted :
    (listener : ℕ) (s : AttachmentDraftStore) → IsCounted s → IsCounted (on_change listener s)
unfolding on_change
on_change-IsCounted listener s h = record {
  active_below = h.active_below;
  detached_below = h.detached_below;
  reserved_below = h.reserved_below;
}

pub stop_listening-IsCounted :
    (listener : ℕ) (s : AttachmentDraftStore) → IsCounted s → IsCounted (stop_listening listener s)
unfolding stop_listening
stop_listening-IsCounted listener s h = record {
  active_below = h.active_below;
  detached_below = h.detached_below;
  reserved_below = h.reserved_below;
}
