-- ===== src/Composer/Attachments.antt =====
-- packages/tui/src/modules/composer/attachments/drafts.ts: `AttachmentDraftStore`. A listener is a
-- number, and the calls of the listeners are recorded with the drafts that they get. `same` is `===`
-- on two drafts, the identity of objects. A method that makes an identity takes it as an argument.
pub mod Counter
pub mod Reconcile
mod Tests
use deepseek_harness_communi.Prelude.{
  ℕ, suc, ◌+◌, max, Bool, true, false, not, ◌&&◌, ◌||◌, Option, none, some, is_some, List, [], ◌∷◌,
  ◌++◌, String, map, if◌then◌else◌, nat_beq, ◌==◌, string_eq, nat_eq, any, filter, length, is_empty,
}
use deepseek_harness_communi.Prelude.Sort.{sort_by}
use deepseek_harness_communi.Prelude.Table.{lookup, insert, remove}
use deepseek_harness_communi.Prelude.Double.{increment}
use deepseek_harness_communi.Prelude.Decimal.{units_eq, units_beq}
use deepseek_harness_communi.Composer.Images.{image_marker_number, next_image_marker, includes}

pub data AttachmentSource : Type 0 where
  file : AttachmentSource
  clipboard : AttachmentSource
  rewind : AttachmentSource

pub record AttachmentDraft : Type 0 where
  pub id : String
  pub placeholder : List ℕ
  pub name : String
  pub media_type : String
  pub data_bytes : List ℕ
  pub source : AttachmentSource
  pub error : Option String

pub record NewAttachmentDraft : Type 0 where
  pub name : String
  pub media_type : String
  pub data_bytes : List ℕ
  pub source : AttachmentSource

pub record AttachmentReservation : Type 0 where
  pub id : String
  pub placeholder : List ℕ

abbrev number_or_zero : Option ℕ → ℕ
number_or_zero none = 0
number_or_zero (some n) = n

unfoldable pub text_number : List ℕ → ℕ
text_number placeholder = number_or_zero (image_marker_number placeholder)

abbrev pub marker_number : AttachmentDraft → ℕ
marker_number draft = text_number draft.placeholder

pub record AttachmentDraftStore : Type 0 where
  pub active : List AttachmentDraft
  pub detached : List AttachmentDraft
  pub reservations : List (String × List ℕ)
  pub next_marker_number : ℕ
  pub listeners : List ℕ
  pub calls : List (ℕ × List AttachmentDraft)

abbrev pub no_drafts : AttachmentDraftStore
no_drafts = record {
  active = [];
  detached = [];
  reservations = [];
  next_marker_number = 1;
  listeners = [];
  calls = [];
}

abbrev pub reserved_markers : AttachmentDraftStore → List (List ℕ)
reserved_markers s = map (λ r. r.1) s.reservations

unfoldable pub placeholders : AttachmentDraftStore → List (List ℕ)
placeholders s =
    map (λ d. d.placeholder) s.active ++ (map (λ d. d.placeholder) s.detached ++ reserved_markers s)

unfoldable pub emit : AttachmentDraftStore → AttachmentDraftStore
emit s = record s { calls = s.calls ++ map (λ listener. (listener, s.active)) s.listeners }

-- `none` if the search for a marker does not end.
unfoldable pub reserve :
    String → List ℕ → AttachmentDraftStore → Option (AttachmentDraftStore × AttachmentReservation)
reserve id occupied_text s =
    elim (next_image_marker occupied_text (map (λ d. d.placeholder) s.active ++ reserved_markers s)
      s.next_marker_number) [
        | none ↦ none
        | some (marker, next) ↦ some (
          emit (record s {
            next_marker_number = next;
            reservations = insert id marker s.reservations;
          }),
          record { id = id; placeholder = marker },
        )
      ]

-- `this.reservations.get(reservation.id) !== reservation.placeholder`
abbrev is_reserved : Option (List ℕ) → List ℕ → Bool
is_reserved none placeholder = false
is_reserved (some marker) placeholder = marker == placeholder

abbrev drafted : AttachmentReservation → NewAttachmentDraft → AttachmentDraft
drafted reservation input = record {
  id = reservation.id;
  placeholder = reservation.placeholder;
  name = input.name;
  media_type = input.media_type;
  data_bytes = input.data_bytes;
  source = input.source;
  error = none;
}

unfoldable pub complete :
    AttachmentReservation
    → NewAttachmentDraft
    → AttachmentDraftStore
    → AttachmentDraftStore × Option AttachmentDraft
complete reservation input s =
    if is_reserved (lookup reservation.id s.reservations) reservation.placeholder
    then (let draft = drafted reservation input in
        (
          emit (record s {
            reservations = remove reservation.id s.reservations;
            active = s.active ++ (draft ∷ []);
          }),
          some draft,
        ))
    else (s, none)

unfoldable pub discard : AttachmentReservation → AttachmentDraftStore → AttachmentDraftStore × Bool
discard reservation s =
    if is_some (lookup reservation.id s.reservations)
    then (emit (record s { reservations = remove reservation.id s.reservations }), true)
    else (s, false)

abbrev pub with_error : List String → String → AttachmentDraft → AttachmentDraft
with_error ids error draft =
    if any (λ id. id == draft.id) ids then record draft { error = some error } else draft

unfoldable pub set_error : List String → String → AttachmentDraftStore → AttachmentDraftStore
set_error ids error s = emit (record s {
  active = map (with_error ids error) s.active;
  detached = map (with_error ids error) s.detached;
})

abbrev pub greatest : List AttachmentDraft → ℕ
greatest [] = 0
greatest (draft ∷ drafts) = max (marker_number draft) (greatest drafts)

unfoldable pub advance_marker_counter :
    List AttachmentDraft → AttachmentDraftStore → AttachmentDraftStore
advance_marker_counter drafts s = record s {
  next_marker_number = max s.next_marker_number (increment (greatest drafts));
}

abbrev pub renewed : Option String → AttachmentDraft → AttachmentDraft
renewed error draft = record draft { error = error }

unfoldable pub restored_drafts :
    List AttachmentDraft → Option String → AttachmentDraftStore → List AttachmentDraft
restored_drafts drafts error s =
    map (renewed error)
      (filter (λ d. not (any (λ c. c.id == d.id) (s.active ++ s.detached))) drafts)

unfoldable pub restore :
    List AttachmentDraft → Option String → AttachmentDraftStore → AttachmentDraftStore
restore drafts error s =
    if is_empty drafts
    then s
    else let restored = restored_drafts drafts error s in
      if is_empty restored
      then s
      else let active = restored ++ s.active in
        emit (advance_marker_counter active (record s { active = active }))

module _ (same : AttachmentDraft → AttachmentDraft → Bool) where
  -- The lengths agree, and the drafts at each index are the same object.
  abbrev pub all_same : List AttachmentDraft → List AttachmentDraft → Bool
  all_same [] [] = true
  all_same [] (e ∷ es) = false
  all_same (d ∷ ds) [] = false
  all_same (d ∷ ds) (e ∷ es) = same d e && all_same ds es

  unfoldable pub replace_all : List AttachmentDraft → AttachmentDraftStore → AttachmentDraftStore
  replace_all drafts s =
      if is_empty s.detached && is_empty s.reservations && all_same drafts s.active
      then s
      else emit (
          advance_marker_counter drafts (record s {
            active = drafts;
            detached = [];
            reservations = [];
            next_marker_number = 1;
          }))

  unfoldable pub reconcile_text : List ℕ → AttachmentDraftStore → AttachmentDraftStore × Bool
  reconcile_text text s =
      let ordered = sort_by marker_number (s.active ++ s.detached) in
      let active = filter (λ d. includes text d.placeholder) ordered in
      let detached = filter (λ d. not (includes text d.placeholder)) ordered in
      if all_same active s.active
      then (s, false)
      else (emit (record s { active = active; detached = detached }), true)

unfoldable pub discard_detached : AttachmentDraftStore → AttachmentDraftStore
discard_detached s =
    if is_empty s.detached
    then s
    else emit (record s {
      detached = [];
      next_marker_number =
          if is_empty s.active && is_empty s.reservations then 1 else s.next_marker_number;
    })

unfoldable pub clear : AttachmentDraftStore → AttachmentDraftStore
clear s =
    let changed =
      not (is_empty s.active) || not (is_empty s.detached) || not (is_empty s.reservations) in
    let cleared = record s {
      active = [];
      detached = [];
      reservations = [];
      next_marker_number = 1;
    } in
    if changed then emit cleared else cleared

-- A `Set` of listeners keeps one of each.
unfoldable pub on_change : ℕ → AttachmentDraftStore → AttachmentDraftStore
on_change listener s =
    let added =
      if any (λ l. l == listener) s.listeners
      then s.listeners
      else s.listeners ++ (listener ∷ []) in
    record s { listeners = added; calls = s.calls ++ ((listener, s.active) ∷ []) }

-- The function that `onChange` returns.
unfoldable pub stop_listening : ℕ → AttachmentDraftStore → AttachmentDraftStore
stop_listening listener s = record s { listeners = filter (λ l. not (l == listener)) s.listeners }
