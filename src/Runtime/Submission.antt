-- ===== src/Runtime/Submission.antt =====
-- packages/tui/src/runtime/session/submission.ts: `SubmissionTracker`, which keeps a prompt visible
-- from its submission to its row in the conversation. The fresh request identity and the clock are
-- arguments; the text of a message is a field of its queue item, in place of the content that
-- `promptTextFromContent` reads; of an event only what the tracker reads is kept.
pub mod Keys
mod Tests
use deepseek_harness_communi.Prelude.{
  ℕ, suc, Bool, true, false, not, ◌&&◌, ◌||◌, Option, none, some, List, [], ◌∷◌, ◌++◌, String,
  if◌then◌else◌, any, filter, map, leb, ltb, nat_beq, ◌==◌, nat_eq, string_eq, option_eq,
}
use deepseek_harness_communi.Prelude.Table.{insert, remove}

pub data Intent : Type 0 where
  working : Intent
  queueing : Intent
  steering : Intent

pub data Placement : Type 0 where
  queued : Placement
  steers : Placement
  context : Placement

pub data Mode : Type 0 where
  queue_mode : Mode
  steer_mode : Mode

pub record SubmissionActivity : Type 0 where
  pub analysis_id : String
  pub image_count : ℕ
  pub started_at : ℕ

pub record PendingSubmission : Type 0 where
  pub key : ℕ
  pub request_id : Option String
  pub message_id : Option String
  pub text : String
  pub intent : Intent
  pub activity : Option SubmissionActivity

pub record QueuedInboxItem : Type 0 where
  pub id : String
  pub placement : Placement
  pub rpc_id : Option String
  pub message_id : String
  pub text : String
  pub local_echo : Bool

pub record Handoff : Type 0 where
  pub turn : Option ℕ
  pub consumed_at : ℕ

pub record SubmissionTracker : Type 0 where
  pub next_key : ℕ
  pub pending : List PendingSubmission
  pub handoffs : List (ℕ × Handoff)
  pub turn : Option ℕ

pub data SessionEvent : Type 0 where
  -- sequence number, turn
  turn_start : ℕ → ℕ → SessionEvent
  turn_end : ℕ → ℕ → SessionEvent
  -- appended, identity, `rpcId` of a user source
  user_message : Bool → String → Option String → SessionEvent
  other : SessionEvent

abbrev pub initial : SubmissionTracker
initial = record { next_key = 0; pending = []; handoffs = []; turn = none }

abbrev intent_of : Mode → Bool → Intent
intent_of steer_mode running = steering
intent_of queue_mode running = if running then queueing else working

unfoldable pub start :
    SubmissionTracker → String → Mode → Bool → String → SubmissionTracker × PendingSubmission
start t text mode running request_id =
    let submission : PendingSubmission = record {
      key = suc t.next_key;
      request_id = some request_id;
      message_id = none;
      text = text;
      intent = intent_of mode running;
      activity = none;
    } in
    (record t { next_key = suc t.next_key; pending = t.pending ++ (submission ∷ []) }, submission)

abbrev pub with_activity : ℕ → SubmissionActivity → PendingSubmission → PendingSubmission
with_activity key activity item = record item {
  activity = if item.key == key then some activity else item.activity;
}

unfoldable pub set_activity : SubmissionTracker → ℕ → SubmissionActivity → SubmissionTracker
set_activity t key activity = record t { pending = map (with_activity key activity) t.pending }

-- `settle`, which `reject` calls.
unfoldable pub settle : SubmissionTracker → ℕ → SubmissionTracker
settle t key = record t {
  pending = filter (λ (item : PendingSubmission). not (item.key == key)) t.pending;
  handoffs = remove key t.handoffs;
}

-- `rpcId !== undefined && rpcId === requestId`
abbrev pub same_request : Option String → Option String → Bool
same_request none request_id = false
same_request (some rpc_id) request_id = some rpc_id == request_id

unfoldable pub is_row_of : PendingSubmission → QueuedInboxItem → Bool
is_row_of item row = some row.id == item.message_id || same_request row.rpc_id item.request_id

-- The loops settle the items of the list as it is when they begin.
unfoldable pub settle_rows :
    SubmissionTracker → List QueuedInboxItem → List PendingSubmission → SubmissionTracker
settle_rows t queue [] = t
settle_rows t queue (item ∷ items) =
    settle_rows (if any (is_row_of item) queue then settle t item.key else t) queue items

unfoldable pub retire_queue : SubmissionTracker → List QueuedInboxItem → SubmissionTracker
retire_queue t queue = settle_rows t queue t.pending

abbrev is_working : Intent → Bool
is_working working = true
is_working intent = false

unfoldable pub echoed : SubmissionTracker → List QueuedInboxItem → QueuedInboxItem → Bool
echoed t previous row =
    any (λ (item : PendingSubmission). is_working item.intent && is_row_of item row) t.pending
    || any
        (λ (item : QueuedInboxItem).
          item.local_echo && (row.id == item.id || same_request row.rpc_id item.rpc_id))
        previous

unfoldable pub observe_queue :
    SubmissionTracker
    → List QueuedInboxItem
    → List QueuedInboxItem
    → SubmissionTracker × List QueuedInboxItem
observe_queue t queue previous =
    let observed =
      map
        (λ (row : QueuedInboxItem). record row {
          local_echo = echoed t previous row || row.local_echo;
        })
        queue in
    (retire_queue t observed, observed)

abbrev pub is_context : Placement → Bool
is_context context = true
is_context placement = false

abbrev handoff_intent : Bool → Placement → Intent
handoff_intent echo steers = if echo then working else steering
handoff_intent echo placement = if echo then working else queueing

unfoldable pub hand_row : SubmissionTracker → Handoff → QueuedInboxItem → SubmissionTracker
hand_row t handoff row = if is_context row.placement then t else record t {
  next_key = suc t.next_key;
  pending =
      t.pending
      ++ (record {
        key = suc t.next_key;
        request_id = row.rpc_id;
        message_id = some row.message_id;
        text = row.text;
        intent = handoff_intent row.local_echo row.placement;
        activity = none;
      }
          ∷ []);
  handoffs = insert (suc t.next_key) handoff t.handoffs;
}

unfoldable pub hand_rows : SubmissionTracker → Handoff → List QueuedInboxItem → SubmissionTracker
hand_rows t handoff [] = t
hand_rows t handoff (row ∷ rows) = hand_rows (hand_row t handoff row) handoff rows

unfoldable pub handoff : SubmissionTracker → List QueuedInboxItem → Option ℕ → ℕ → SubmissionTracker
handoff t queue turn consumed_at =
    hand_rows (retire_queue t queue) (record { turn = turn; consumed_at = consumed_at }) queue

-- Whether a boundary of `turn` at `seq` ends the wait that began at the handoff.
unfoldable pub is_over : Bool → ℕ → ℕ → Handoff → Bool
is_over ends seq turn h =
    not (leb seq h.consumed_at)
    && elim h.turn [ none ↦ true | some t ↦ if ends then leb t turn else ltb t turn ]

unfoldable pub settle_handoffs :
    SubmissionTracker → Bool → ℕ → ℕ → List (ℕ × Handoff) → SubmissionTracker
settle_handoffs t ends seq turn [] = t
settle_handoffs t ends seq turn ((key, h) ∷ rest) =
    settle_handoffs (if is_over ends seq turn h then settle t key else t) ends seq turn rest

unfoldable pub settle_message :
    SubmissionTracker → String → Option String → List PendingSubmission → SubmissionTracker
settle_message t id request_id [] = t
settle_message t id request_id (item ∷ items) =
    settle_message
      (if item.message_id == some id || same_request request_id item.request_id
        then settle t item.key
        else t)
      id request_id items

abbrev turn_after_end : Option ℕ → ℕ → Option ℕ
turn_after_end none ended = none
turn_after_end (some t) ended = if leb t ended then none else some t

unfoldable pub observe_event : SubmissionTracker → SessionEvent → SubmissionTracker
observe_event t (turn_start seq turn) = record (settle_handoffs t false seq turn t.handoffs) {
  turn = some turn;
}
observe_event t (turn_end seq turn) = record (settle_handoffs t true seq turn t.handoffs) {
  turn = turn_after_end t.turn turn;
}
observe_event t (user_message appended id request_id) =
    if appended then settle_message t id request_id t.pending else t
observe_event t other = t

unfoldable pub observe_events : SubmissionTracker → List SessionEvent → SubmissionTracker
observe_events t [] = t
observe_events t (e ∷ events) = observe_events (observe_event t e) events

-- One call of a method that writes.
pub data Call : Type 0 where
  starts : String → Mode → Bool → String → Call
  sets_activity : ℕ → SubmissionActivity → Call
  rejects : ℕ → Call
  observes_queue : List QueuedInboxItem → List QueuedInboxItem → Call
  hands_off : List QueuedInboxItem → Option ℕ → ℕ → Call
  observes_events : List SessionEvent → Call

unfoldable pub step : SubmissionTracker → Call → SubmissionTracker
step t (starts text mode running request_id) = (start t text mode running request_id).0
step t (sets_activity key activity) = set_activity t key activity
step t (rejects key) = settle t key
step t (observes_queue queue previous) = (observe_queue t queue previous).0
step t (hands_off queue turn consumed_at) = handoff t queue turn consumed_at
step t (observes_events events) = observe_events t events

unfoldable pub run : SubmissionTracker → List Call → SubmissionTracker
run t [] = t
run t (c ∷ cs) = run (step t c) cs
