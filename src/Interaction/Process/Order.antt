-- ===== src/Interaction/Process/Order.antt =====
-- The process refines a line of keys: a new key joins at the end, a completed one leaves, and the
-- interaction that is shown is the first of the line.
use deepseek_harness_communi.Prelude.{
  ℕ, ◌≡◌, refl, Bool, true, ◌||◌, inl, inr, Option, none, some, List, [], ◌∷◌, ◌++◌, String,
  if◌then◌else◌, any, is_empty, is_some, ◌==◌, string_eq, arith, Option-cases, ap, ◌∙◌, ◌+◌,
}
use deepseek_harness_communi.Interaction.Process.{
  Phase, open_phase, Prompt, approval, questions, QueuedInteraction, ActiveInteraction,
  InteractionProcess, initial, close_optional, set_surface, open_dialog, hide_surface, respond,
  show_question, next_question, ask_custom, show, start_next, enqueue, remove_first, complete,
  reopen, cancel, retire_local_state, Call, requests, completes, cancels, answers, asks_next,
  asks_custom, fails, retires, step, run,
}
use deepseek_harness_communi.Interaction.Process.Tidy.{List-cases}

abbrev keys : List QueuedInteraction → List String
keys [] = []
keys (c ∷ cs) = c.key ∷ keys cs

abbrev lineup : Option ActiveInteraction → List String → List String
lineup none waiting = waiting
lineup (some a) waiting = a.key ∷ waiting

-- The keys in the order of service, the active one first.
abbrev pub line : InteractionProcess → List String
line p = lineup p.active (keys p.queue)

abbrev pub join : String → List String → List String
join key ks = if any (λ k. k == key) ks then ks else ks ++ (key ∷ [])

abbrev pub leave : String → List String → List String
leave key [] = []
leave key (k ∷ ks) = if k == key then ks else k ∷ leave key ks

-- What a call does to the line.
abbrev pub line_step : Call → List String → List String
line_step (requests interaction) ks = join interaction.key ks
line_step (completes key) ks = leave key ks
line_step retires ks = []
line_step c ks = ks

abbrev is_served : InteractionProcess → Bool
is_served p = is_some p.active || is_empty p.queue

open_dialog-line : (p : InteractionProcess) (key : String) → line (open_dialog p key) ≡ line p
unfolding open_dialog set_surface
open_dialog-line p key = ground arith

respond-line : (p : InteractionProcess) (key : String) → line (respond p key).0 ≡ line p
unfolding respond
respond-line p key = ground arith

hide_surface-line : (p : InteractionProcess) (key : String) → line (hide_surface p key) ≡ line p
unfolding hide_surface
hide_surface-line p key = ground arith

show_question-line :
    (p : InteractionProcess) (key : String) (index count : ℕ)
    → line (show_question p key index count) ≡ line p
unfolding show_question
show_question-line p key index count = ground (arith, open_dialog-line p key, respond-line p key)

next_question-line :
    (p : InteractionProcess) (key : String) (index count : ℕ)
    → line (next_question p key index count) ≡ line p
unfolding next_question
next_question-line p key index count = ground (
  arith,
  respond-line p key,
  show_question-line (hide_surface p key) key (index + 1) count,
  hide_surface-line p key,
)

show-line :
    (p : InteractionProcess) (key : String) (prompt : Prompt) → line (show p key prompt) ≡ line p
unfolding show
show-line p key approval = open_dialog-line p key
show-line p key (questions count) = show_question-line p key 0 count

start_next-line : (p : InteractionProcess) → line (start_next p) ≡ line p
unfolding start_next
start_next-line p = elim (Option-cases p.active) [
  | inr (a, busy) ↦ ground (arith, busy)
  | inl idle ↦ elim (List-cases p.queue) [
    | inl none_waits ↦ ground (arith, idle, none_waits)
    | inr (next, rest, waits) ↦ ground (
      arith,
      idle,
      waits,
      show-line
          (record p {
            active = some (record {
              key = next.key;
              prompt = next.prompt;
              surface = none;
              phase = open_phase;
            });
            queue = rest;
          })
          next.key next.prompt,
    )
  ]
]

keys-append :
    (queue : List QueuedInteraction) (c : QueuedInteraction)
    → keys (queue ++ (c ∷ [])) ≡ keys queue ++ (c.key ∷ [])
keys-append [] c = refl
keys-append (d ∷ queue) c = rw (keys-append queue c)

any-keys :
    (key : String) (queue : List QueuedInteraction)
    → any (λ k. k == key) (keys queue) ≡ any (λ (c : QueuedInteraction). c.key == key) queue
any-keys key [] = refl
any-keys key (c ∷ queue) = ground (arith, any-keys key queue)

enqueue-line :
    (p : InteractionProcess) (c : QueuedInteraction) → line (enqueue p c) ≡ join c.key (line p)
unfolding enqueue
enqueue-line p c = ground (
  arith,
  any-keys c.key p.queue,
  keys-append p.queue c,
  start_next-line (record p { queue = p.queue ++ (c ∷ []) }),
)

remove_first-keys :
    (key : String) (queue : List QueuedInteraction)
    → keys (remove_first key queue) ≡ leave key (keys queue)
unfolding remove_first
remove_first-keys key [] = refl
remove_first-keys key (c ∷ queue) = ground (arith, remove_first-keys key queue)

complete-line : (p : InteractionProcess) (key : String) → line (complete p key) ≡ leave key (line p)
unfolding complete
complete-line p key = elim (Option-cases p.active) [
  | inl idle ↦ ground (arith, idle, remove_first-keys key p.queue)
  | inr (a, busy) ↦ ground (
    arith,
    busy,
    remove_first-keys key p.queue,
    start_next-line (record p { active = none; opened = close_optional a.surface p.opened }),
  )
]

reopen-line :
    (p : InteractionProcess) (key : String) (phase : Phase) → line (reopen p key phase) ≡ line p
unfolding reopen
reopen-line p key phase = ground arith

cancel-line : (p : InteractionProcess) → line (cancel p).0 ≡ line p
unfolding cancel
cancel-line p = ground arith

step-line : (p : InteractionProcess) (c : Call) → line (step p c) ≡ line_step c (line p)
unfolding step
step-line p (requests interaction) = enqueue-line p interaction
step-line p (completes key) = complete-line p key
step-line p cancels = cancel-line p
step-line p (answers key) = respond-line p key
step-line p (asks_next key index count) = next_question-line p key index count
step-line p (asks_custom key) =
    unfold ask_custom in open_dialog-line (hide_surface p key) key ∙ hide_surface-line p key
step-line p (fails key phase) = reopen-line p key phase
step-line p retires = unfold retire_local_state in refl

-- Something is shown whenever something waits.
open_dialog-is_served :
    (p : InteractionProcess) (key : String) → is_served (open_dialog p key) ≡ is_served p
unfolding open_dialog set_surface
open_dialog-is_served p key = ground arith

respond-is_served :
    (p : InteractionProcess) (key : String) → is_served (respond p key).0 ≡ is_served p
unfolding respond
respond-is_served p key = ground arith

hide_surface-is_served :
    (p : InteractionProcess) (key : String) → is_served (hide_surface p key) ≡ is_served p
unfolding hide_surface
hide_surface-is_served p key = ground arith

show_question-is_served :
    (p : InteractionProcess) (key : String) (index count : ℕ)
    → is_served (show_question p key index count) ≡ is_served p
unfolding show_question
show_question-is_served p key index count =
    ground (arith, open_dialog-is_served p key, respond-is_served p key)

next_question-is_served :
    (p : InteractionProcess) (key : String) (index count : ℕ)
    → is_served (next_question p key index count) ≡ is_served p
unfolding next_question
next_question-is_served p key index count = ground (
  arith,
  respond-is_served p key,
  show_question-is_served (hide_surface p key) key (index + 1) count,
  hide_surface-is_served p key,
)

show-is_served :
    (p : InteractionProcess) (key : String) (prompt : Prompt)
    → is_served (show p key prompt) ≡ is_served p
unfolding show
show-is_served p key approval = open_dialog-is_served p key
show-is_served p key (questions count) = show_question-is_served p key 0 count

start_next-is_served : (p : InteractionProcess) → is_served (start_next p) ≡ true
unfolding start_next
start_next-is_served p = elim (Option-cases p.active) [
  | inr (a, busy) ↦ ground (arith, busy)
  | inl idle ↦ elim (List-cases p.queue) [
    | inl none_waits ↦ ground (arith, idle, none_waits)
    | inr (next, rest, waits) ↦ ground (
      arith,
      idle,
      waits,
      show-is_served
          (record p {
            active = some (record {
              key = next.key;
              prompt = next.prompt;
              surface = none;
              phase = open_phase;
            });
            queue = rest;
          })
          next.key next.prompt,
    )
  ]
]

enqueue-is_served :
    (p : InteractionProcess) (c : QueuedInteraction)
    → is_served p ≡ true
    → is_served (enqueue p c) ≡ true
unfolding enqueue
enqueue-is_served p c h =
    ground (arith, h, start_next-is_served (record p { queue = p.queue ++ (c ∷ []) }))

remove_first_empty :
    (key : String) (queue : List QueuedInteraction)
    → is_empty queue ≡ true
    → is_empty (remove_first key queue) ≡ true
unfolding remove_first
remove_first_empty key [] h = refl
remove_first_empty key (c ∷ queue) h = ground arith

complete-is_served :
    (p : InteractionProcess) (key : String) → is_served p ≡ true → is_served (complete p key) ≡ true
unfolding complete
complete-is_served p key h = elim (Option-cases p.active) [
  | inl idle ↦ ground (arith, idle, h, remove_first_empty key p.queue)
  | inr (a, busy) ↦ ground (
    arith,
    busy,
    start_next-is_served (record p { active = none; opened = close_optional a.surface p.opened }),
  )
]

step-is_served :
    (p : InteractionProcess) (c : Call) → is_served p ≡ true → is_served (step p c) ≡ true
unfolding step reopen cancel retire_local_state
step-is_served p (requests interaction) h = enqueue-is_served p interaction h
step-is_served p (completes key) h = complete-is_served p key h
step-is_served p cancels h = ground arith
step-is_served p (answers key) h = respond-is_served p key ∙ h
step-is_served p (asks_next key index count) h = next_question-is_served p key index count ∙ h
step-is_served p (asks_custom key) h =
    unfold ask_custom in
    open_dialog-is_served (hide_surface p key) key ∙ (hide_surface-is_served p key ∙ h)
step-is_served p (fails key phase) h = ground arith
step-is_served p retires h = refl

abbrev pub run_line : List Call → List String → List String
run_line [] ks = ks
run_line (c ∷ cs) ks = run_line cs (line_step c ks)

abbrev pub first? : List String → Option String
first? [] = none
first? (k ∷ ks) = some k

abbrev pub active_key : InteractionProcess → Option String
active_key p = elim p.active [ none ↦ none | some a ↦ some a.key ]

run-line : (p : InteractionProcess) (cs : List Call) → line (run p cs) ≡ run_line cs (line p)
unfolding run
run-line p [] = refl
run-line p (c ∷ cs) = run-line (step p c) cs ∙ ap (run_line cs) (step-line p c)

run-is_served :
    (p : InteractionProcess) (cs : List Call) → is_served p ≡ true → is_served (run p cs) ≡ true
unfolding run
run-is_served p [] h = h
run-is_served p (c ∷ cs) h = run-is_served (step p c) cs (step-is_served p c h)

active_key-line : (p : InteractionProcess) → is_served p ≡ true → active_key p ≡ first? (line p)
active_key-line p h = ground arith

-- After any calls the active interaction and the queue are the line that the calls make: a request
-- joins it at the end unless its key stands in it, an end of an interaction takes its key out, the
-- disposal clears it and no other call changes it. The first key of the line is the active one.
pub run-line_first :
    (cs : List Call)
    → (line (run initial cs) ≡ run_line cs [])
      × (active_key (run initial cs) ≡ first? (run_line cs []))
run-line_first cs =
    let same = run-line initial cs in
    (same, active_key-line (run initial cs) (run-is_served initial cs refl) ∙ ap first? same)
