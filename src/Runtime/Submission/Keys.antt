-- ===== src/Runtime/Submission/Keys.antt =====
-- The pending submissions are kept in the order in which they came, each under a key of its own.
use deepseek_harness_communi.Prelude.{
  ℕ, suc, ◌≤◌, ◌<◌, ◌≡◌, refl, Bool, true, false, inl, inr, Option, some, List, [], ◌∷◌, ◌++◌,
  String, if◌then◌else◌, any, filter, map, All, All-append, All-filter_of, arith, Bool-cases, ◌==◌,
  nat_eq, string_eq, option_eq, ◌||◌,
}
use deepseek_harness_communi.Runtime.Submission.{
  SubmissionTracker, PendingSubmission, SubmissionActivity, QueuedInboxItem, Handoff, SessionEvent,
  turn_start, turn_end, user_message, other, initial, start, set_activity, with_activity, settle,
  settle_rows, is_row_of, retire_queue, observe_queue, hand_row, hand_rows, handoff,
  settle_handoffs, settle_message, observe_event, observe_events, Call, starts, sets_activity,
  rejects, observes_queue, hands_off, observes_events, step, run, is_context, is_over, same_request,
}

-- The keys increase along the list and end at most at `last`.
abbrev pub AreIncreasing : ℕ → List PendingSubmission → Type 0
AreIncreasing last [] = Unit
AreIncreasing last (item ∷ items) =
    (item.key ≤ last)
    × All (λ (later : PendingSubmission). item.key < later.key) items
    × AreIncreasing last items

-- A wrapper, so that the tracker is read off the statement.
pub record IsOrdered (t : SubmissionTracker) : Type 0 where
  pub increasing : AreIncreasing t.next_key t.pending

AreIncreasing-filter :
    (p : PendingSubmission → Bool) (last : ℕ) (items : List PendingSubmission)
    → AreIncreasing last items
    → AreIncreasing last (filter p items)
AreIncreasing-filter p last [] h = tt
AreIncreasing-filter p last (item ∷ items) h = elim (Bool-cases (p item)) [
  | inl kept ↦ rw kept (
    h.0,
    All-filter_of p (λ (later : PendingSubmission). item.key < later.key) items h.1,
    AreIncreasing-filter p last items h.2,
  )
  | inr gone ↦ rw gone (AreIncreasing-filter p last items h.2)
]

All-below :
    (last : ℕ) (items : List PendingSubmission)
    → AreIncreasing last items
    → All (λ (item : PendingSubmission). item.key ≤ last) items
All-below last [] h = tt
All-below last (item ∷ items) h = (h.0, All-below last items h.2)

AreIncreasing-append :
    (last : ℕ) (items : List PendingSubmission) (new : PendingSubmission)
    → new.key ≡ suc last
    → AreIncreasing last items
    → AreIncreasing (suc last) (items ++ (new ∷ []))
AreIncreasing-append last [] new e h = (omega (arith, e), tt, tt)
AreIncreasing-append last (item ∷ items) new e h = (
  omega (arith, h.0),
  All-append (λ (later : PendingSubmission). item.key < later.key) items (new ∷ []) h.1
      (omega (arith, e, h.0), tt),
  AreIncreasing-append last items new e h.2,
)

later-map :
    (key n : ℕ) (activity : SubmissionActivity) (items : List PendingSubmission)
    → All (λ (later : PendingSubmission). n < later.key) items
    → All (λ (later : PendingSubmission). n < later.key) (map (with_activity key activity) items)
later-map key n activity [] h = tt
later-map key n activity (item ∷ items) h = (h.0, later-map key n activity items h.1)

AreIncreasing-map :
    (last key : ℕ) (activity : SubmissionActivity) (items : List PendingSubmission)
    → AreIncreasing last items
    → AreIncreasing last (map (with_activity key activity) items)
AreIncreasing-map last key activity [] h = tt
AreIncreasing-map last key activity (item ∷ items) h =
    (h.0, later-map key item.key activity items h.1, AreIncreasing-map last key activity items h.2)

settle-IsOrdered : (t : SubmissionTracker) (key : ℕ) → IsOrdered t → IsOrdered (settle t key)
unfolding settle
settle-IsOrdered t key v = record {
  increasing = AreIncreasing-filter _ t.next_key t.pending v.increasing;
}

settle_if-IsOrdered :
    (t : SubmissionTracker) (key : ℕ) (b : Bool)
    → IsOrdered t
    → IsOrdered (if b then settle t key else t)
settle_if-IsOrdered t key true v = settle-IsOrdered t key v
settle_if-IsOrdered t key false v = v

settle_rows-IsOrdered :
    (t : SubmissionTracker) (queue : List QueuedInboxItem) (items : List PendingSubmission)
    → IsOrdered t
    → IsOrdered (settle_rows t queue items)
unfolding settle_rows
settle_rows-IsOrdered t queue [] v = v
settle_rows-IsOrdered t queue (item ∷ items) v =
    settle_rows-IsOrdered (if any (is_row_of item) queue then settle t item.key else t) queue items
      (settle_if-IsOrdered t item.key (any (is_row_of item) queue) v)

settle_handoffs-IsOrdered :
    (t : SubmissionTracker) (ends : Bool) (seq turn : ℕ) (handoffs : List (ℕ × Handoff))
    → IsOrdered t
    → IsOrdered (settle_handoffs t ends seq turn handoffs)
unfolding settle_handoffs
settle_handoffs-IsOrdered t ends seq turn [] v = v
settle_handoffs-IsOrdered t ends seq turn ((key, h) ∷ rest) v =
    settle_handoffs-IsOrdered (if is_over ends seq turn h then settle t key else t) ends seq turn
      rest (settle_if-IsOrdered t key (is_over ends seq turn h) v)

settle_message-IsOrdered :
    (t : SubmissionTracker) (id : String) (request_id : Option String)
    (items : List PendingSubmission)
    → IsOrdered t
    → IsOrdered (settle_message t id request_id items)
unfolding settle_message
settle_message-IsOrdered t id request_id [] v = v
settle_message-IsOrdered t id request_id (item ∷ items) v =
    settle_message-IsOrdered
      (if item.message_id == some id || same_request request_id item.request_id
        then settle t item.key
        else t)
      id request_id items (settle_if-IsOrdered t item.key _ v)

hand_row-IsOrdered :
    (t : SubmissionTracker) (h : Handoff) (row : QueuedInboxItem)
    → IsOrdered t
    → IsOrdered (hand_row t h row)
unfolding hand_row
hand_row-IsOrdered t h row v = elim (Bool-cases (is_context row.placement)) [
  | inl skipped ↦ rw (skipped, hand_row) v
  | inr handed ↦
      rw (handed, hand_row)
        (record { increasing = AreIncreasing-append t.next_key t.pending _ refl v.increasing })
]

hand_rows-IsOrdered :
    (t : SubmissionTracker) (h : Handoff) (rows : List QueuedInboxItem)
    → IsOrdered t
    → IsOrdered (hand_rows t h rows)
unfolding hand_rows
hand_rows-IsOrdered t h [] v = v
hand_rows-IsOrdered t h (row ∷ rows) v =
    hand_rows-IsOrdered (hand_row t h row) h rows (hand_row-IsOrdered t h row v)

turn-IsOrdered :
    (t : SubmissionTracker) (turn : Option ℕ) → IsOrdered t → IsOrdered (record t { turn = turn })
turn-IsOrdered t turn v = record { increasing = v.increasing }

observe_event-IsOrdered :
    (t : SubmissionTracker) (e : SessionEvent) → IsOrdered t → IsOrdered (observe_event t e)
unfolding observe_event
observe_event-IsOrdered t (turn_start seq turn) v =
    turn-IsOrdered _ (some turn) (settle_handoffs-IsOrdered t false seq turn t.handoffs v)
observe_event-IsOrdered t (turn_end seq turn) v =
    turn-IsOrdered _ _ (settle_handoffs-IsOrdered t true seq turn t.handoffs v)
observe_event-IsOrdered t (user_message true id request_id) v =
    settle_message-IsOrdered t id request_id t.pending v
observe_event-IsOrdered t (user_message false id request_id) v = v
observe_event-IsOrdered t other v = v

observe_events-IsOrdered :
    (t : SubmissionTracker) (events : List SessionEvent)
    → IsOrdered t
    → IsOrdered (observe_events t events)
unfolding observe_events
observe_events-IsOrdered t [] v = v
observe_events-IsOrdered t (e ∷ events) v =
    observe_events-IsOrdered (observe_event t e) events (observe_event-IsOrdered t e v)

step-IsOrdered : (t : SubmissionTracker) (c : Call) → IsOrdered t → IsOrdered (step t c)
unfolding step retire_queue
step-IsOrdered t (starts text mode running request_id) v =
    unfold start in
    record { increasing = AreIncreasing-append t.next_key t.pending _ refl v.increasing }
step-IsOrdered t (sets_activity key activity) v =
    unfold set_activity in
    record { increasing = AreIncreasing-map t.next_key key activity t.pending v.increasing }
step-IsOrdered t (rejects key) v = settle-IsOrdered t key v
step-IsOrdered t (observes_queue queue previous) v =
    unfold observe_queue in settle_rows-IsOrdered t _ t.pending v
step-IsOrdered t (hands_off queue turn consumed_at) v =
    unfold handoff in hand_rows-IsOrdered _ _ queue (settle_rows-IsOrdered t queue t.pending v)
step-IsOrdered t (observes_events events) v = observe_events-IsOrdered t events v

run-IsOrdered : (t : SubmissionTracker) (cs : List Call) → IsOrdered t → IsOrdered (run t cs)
unfolding run
run-IsOrdered t [] v = v
run-IsOrdered t (c ∷ cs) v = run-IsOrdered (step t c) cs (step-IsOrdered t c v)

-- After any calls the keys of the pending submissions increase along the list and end at most at
-- the last key given: a key names at most one of them, and they stand in the order of arrival.
pub run-initial-IsOrdered : (cs : List Call) → IsOrdered (run initial cs)
run-initial-IsOrdered cs = run-IsOrdered initial cs (record { increasing = tt })
