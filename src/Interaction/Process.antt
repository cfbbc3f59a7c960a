-- ===== src/Interaction/Process.antt =====
-- packages/tui/src/modules/interaction/process.ts: `InteractionProcess`, which shows one interaction
-- at a time in the order of their arrival. A surface is known by a number that the surface port
-- gives when it opens one, and the state keeps the surfaces that the process has opened and not
-- closed, in place of the port's own list. What a dialog looks like, the texts of the answers and
-- the port's messages are left out; a settled promise is a later call of `complete` or `reopen`.
pub mod Tidy
pub mod Order
mod Tests
use deepseek_harness_communi.Prelude.{
  ℕ, suc, ◌+◌, Bool, true, false, not, ◌&&◌, ◌||◌, Option, none, some, List, [], ◌∷◌, ◌++◌, String,
  if◌then◌else◌, any, filter, nat_beq, ltb, leb, ◌==◌, string_eq,
}

pub data Phase : Type 0 where
  open_phase : Phase
  responding : Phase
  cancelling : Phase

-- What `open` of a queued interaction shows: an approval, or a number of questions.
pub data Prompt : Type 0 where
  approval : Prompt
  questions : ℕ → Prompt

pub record QueuedInteraction : Type 0 where
  pub key : String
  pub prompt : Prompt

pub record ActiveInteraction : Type 0 where
  pub key : String
  pub prompt : Prompt
  pub surface : Option ℕ
  pub phase : Phase

pub record InteractionProcess : Type 0 where
  pub active : Option ActiveInteraction
  pub queue : List QueuedInteraction
  pub next_surface : ℕ
  pub opened : List ℕ

abbrev pub initial : InteractionProcess
initial = record { active = none; queue = []; next_surface = 0; opened = [] }

abbrev phase_tag : Phase → ℕ
phase_tag open_phase = 0
phase_tag responding = 1
phase_tag cancelling = 2

abbrev pub phase_beq : Phase → Phase → Bool
phase_beq a b = nat_beq (phase_tag a) (phase_tag b)

-- `surface.close()`, and `active.close?.()`.
unfoldable pub close_surface : ℕ → List ℕ → List ℕ
close_surface s opened = filter (λ j. not (nat_beq j s)) opened

abbrev pub close_optional : Option ℕ → List ℕ → List ℕ
close_optional none opened = opened
close_optional (some s) opened = close_surface s opened

unfoldable pub set_surface : InteractionProcess → String → ℕ → InteractionProcess
set_surface p key s = elim p.active [
  | none ↦ record p { opened = close_surface s p.opened }
  | some a ↦
      if a.key == key
      then record p {
        active = some (record a { surface = some s });
        opened = close_optional a.surface p.opened;
      }
      else record p { opened = close_surface s p.opened }
]

-- `this.surfaces.open(dialog)`, then `setSurface`.
unfoldable pub open_dialog : InteractionProcess → String → InteractionProcess
open_dialog p key =
    set_surface (record p { next_surface = suc p.next_surface; opened = p.next_surface ∷ p.opened })
      key p.next_surface

unfoldable pub hide_surface : InteractionProcess → String → InteractionProcess
hide_surface p key = elim p.active [
  | none ↦ p
  | some a ↦
      if a.key == key
      then record p {
        active = some (record a { surface = none });
        opened = close_optional a.surface p.opened;
      }
      else p
]

-- The first part of `respond`; the answer is sent when the Boolean holds.
unfoldable pub respond : InteractionProcess → String → InteractionProcess × Bool
respond p key = elim p.active [
  | none ↦ (p, false)
  | some a ↦
      if a.key == key && phase_beq a.phase open_phase
      then (record p { active = some (record a { phase = responding }) }, true)
      else (p, false)
]

-- `showQuestion` at `index` of `count` questions.
unfoldable pub show_question : InteractionProcess → String → ℕ → ℕ → InteractionProcess
show_question p key index count = if ltb index count then open_dialog p key else (respond p key).0

-- The callback `next` of the question at `index`: the answers are complete, or the next question is
-- shown.
unfoldable pub next_question : InteractionProcess → String → ℕ → ℕ → InteractionProcess
next_question p key index count =
    if leb count (index + 1)
    then (respond p key).0
    else show_question (hide_surface p key) key (index + 1) count

-- The callback `custom`: a text field in place of the choices.
unfoldable pub ask_custom : InteractionProcess → String → InteractionProcess
ask_custom p key = open_dialog (hide_surface p key) key

unfoldable pub show : InteractionProcess → String → Prompt → InteractionProcess
show p key approval = open_dialog p key
show p key (questions count) = show_question p key 0 count

unfoldable pub start_next : InteractionProcess → InteractionProcess
start_next p = elim p.active [
  | some a ↦ p
  | none ↦ elim p.queue [
    | [] ↦ p
    | next ∷ rest ↦
        show
          (record p {
            active = some (record {
              key = next.key;
              prompt = next.prompt;
              surface = none;
              phase = open_phase;
            });
            queue = rest;
          })
          next.key next.prompt
  ]
]

abbrev pub has_key : String → Option ActiveInteraction → Bool
has_key key none = false
has_key key (some a) = a.key == key

unfoldable pub enqueue : InteractionProcess → QueuedInteraction → InteractionProcess
enqueue p interaction =
    if has_key interaction.key p.active
      || any (λ (c : QueuedInteraction). c.key == interaction.key) p.queue
    then p
    else start_next (record p { queue = p.queue ++ (interaction ∷ []) })

-- `splice` at the index that `findIndex` gives.
unfoldable pub remove_first : String → List QueuedInteraction → List QueuedInteraction
remove_first key [] = []
remove_first key (c ∷ rest) = if c.key == key then rest else c ∷ remove_first key rest

unfoldable pub complete : InteractionProcess → String → InteractionProcess
complete p key = elim p.active [
  | none ↦ record p { queue = remove_first key p.queue }
  | some a ↦
      if a.key == key
      then start_next (record p { active = none; opened = close_optional a.surface p.opened })
      else record p { queue = remove_first key p.queue }
]

unfoldable pub reopen : InteractionProcess → String → Phase → InteractionProcess
reopen p key phase = elim p.active [
  | none ↦ p
  | some a ↦
      if a.key == key && phase_beq a.phase phase
      then record p { active = some (record a { phase = open_phase }) }
      else p
]

unfoldable pub cancel : InteractionProcess → InteractionProcess × Bool
cancel p = elim p.active [
  | none ↦ (p, false)
  | some a ↦
      if phase_beq a.phase cancelling
      then (p, true)
      else (record p { active = some (record a { phase = cancelling }) }, true)
]

-- `close?.()` of the active interaction, when there is one.
abbrev pub surface_of : Option ActiveInteraction → Option ℕ
surface_of none = none
surface_of (some a) = a.surface

unfoldable pub retire_local_state : InteractionProcess → InteractionProcess
retire_local_state p = record p {
  active = none;
  queue = [];
  opened = close_optional (surface_of p.active) p.opened;
}

-- One call: a request, the end of an interaction, the callbacks of a dialog and of a promise, and the
-- disposal.
pub data Call : Type 0 where
  requests : QueuedInteraction → Call
  completes : String → Call
  cancels : Call
  answers : String → Call
  asks_next : String → ℕ → ℕ → Call
  asks_custom : String → Call
  fails : String → Phase → Call
  retires : Call

unfoldable pub step : InteractionProcess → Call → InteractionProcess
step p (requests interaction) = enqueue p interaction
step p (completes key) = complete p key
step p cancels = (cancel p).0
step p (answers key) = (respond p key).0
step p (asks_next key index count) = next_question p key index count
step p (asks_custom key) = ask_custom p key
step p (fails key phase) = reopen p key phase
step p retires = retire_local_state p

unfoldable pub run : InteractionProcess → List Call → InteractionProcess
run p [] = p
run p (c ∷ cs) = run (step p c) cs
