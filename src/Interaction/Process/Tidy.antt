-- ===== src/Interaction/Process/Tidy.antt =====
-- No surface is left open, and nothing waits while nothing is shown.
use deepseek_harness_communi.Prelude.{
  ℕ, ◌≡◌, refl, Bool, true, ◌||◌, ◌⊎◌, inl, inr, Option, none, some, List, [], ◌∷◌, ◌++◌, String,
  any, ltb, leb, ◌+◌, ◌==◌, string_eq, arith, Bool-cases, Option-cases,
}
use deepseek_harness_communi.Interaction.Process.{
  Phase, open_phase, Prompt, approval, questions, QueuedInteraction, InteractionProcess, initial,
  close_surface, close_optional, set_surface, open_dialog, hide_surface, respond, show_question,
  next_question, ask_custom, show, start_next, has_key, enqueue, remove_first, complete, reopen,
  cancel, surface_of, retire_local_state, Call, requests, completes, cancels, answers, asks_next,
  asks_custom, fails, retires, step, run,
}

abbrev pub to_list : Option ℕ → List ℕ
to_list none = []
to_list (some s) = s ∷ []

abbrev is_below : Option ℕ → ℕ → Bool
is_below none n = true
is_below (some s) n = ltb s n

pub List-cases :
    {A : Type 0} (xs : List A) → (xs ≡ []) ⊎ ((x : A) × (rest : List A) × (xs ≡ x ∷ rest))
List-cases [] = inl refl
List-cases (x ∷ rest) = inr (x, rest, refl)

-- The surfaces opened and not closed are the one of the active interaction, if it has one.
pub record OwnsSurface (p : InteractionProcess) : Type 0 where
  pub only_surface : p.opened ≡ to_list (surface_of p.active)
  pub fresh : is_below (surface_of p.active) p.next_surface ≡ true

open_dialog-OwnsSurface :
    (p : InteractionProcess) (key : String) → OwnsSurface p → OwnsSurface (open_dialog p key)
unfolding open_dialog set_surface close_surface
open_dialog-OwnsSurface p key v = record {
  only_surface = ground (arith, v.only_surface, v.fresh);
  fresh = ground (arith, v.fresh);
}

hide_surface-OwnsSurface :
    (p : InteractionProcess) (key : String) → OwnsSurface p → OwnsSurface (hide_surface p key)
unfolding hide_surface close_surface
hide_surface-OwnsSurface p key v = record {
  only_surface = ground (arith, v.only_surface, v.fresh);
  fresh = ground (arith, v.fresh);
}

respond-OwnsSurface :
    (p : InteractionProcess) (key : String) → OwnsSurface p → OwnsSurface (respond p key).0
unfolding respond
respond-OwnsSurface p key v = record {
  only_surface = ground (arith, v.only_surface);
  fresh = ground (arith, v.fresh);
}

show_question-OwnsSurface :
    (p : InteractionProcess) (key : String) (index count : ℕ)
    → OwnsSurface p
    → OwnsSurface (show_question p key index count)
unfolding show_question
show_question-OwnsSurface p key index count v = elim (Bool-cases (ltb index count)) [
  | inl asked ↦ rw (asked, show_question) (open_dialog-OwnsSurface p key v)
  | inr answered ↦ rw (answered, show_question) (respond-OwnsSurface p key v)
]

next_question-OwnsSurface :
    (p : InteractionProcess) (key : String) (index count : ℕ)
    → OwnsSurface p
    → OwnsSurface (next_question p key index count)
unfolding next_question
next_question-OwnsSurface p key index count v = elim (Bool-cases (leb count (index + 1))) [
  | inl last ↦ rw (last, next_question) (respond-OwnsSurface p key v)
  | inr more ↦
      rw (more, next_question)
        (show_question-OwnsSurface (hide_surface p key) key (index + 1) count
          (hide_surface-OwnsSurface p key v))
]

show-OwnsSurface :
    (p : InteractionProcess) (key : String) (prompt : Prompt)
    → OwnsSurface p
    → OwnsSurface (show p key prompt)
unfolding show
show-OwnsSurface p key approval v = open_dialog-OwnsSurface p key v
show-OwnsSurface p key (questions count) v = show_question-OwnsSurface p key 0 count v

-- An active interaction without a surface, when none is open.
activated :
    (p : InteractionProcess) (key : String) (prompt : Prompt) (queue : List QueuedInteraction)
    → p.active ≡ none
    → OwnsSurface p
    → OwnsSurface (record p {
      active = some (record { key = key; prompt = prompt; surface = none; phase = open_phase });
      queue = queue;
    })
activated p key prompt queue idle v = record {
  only_surface = ground (arith, idle, v.only_surface);
  fresh = refl;
}

start_next-OwnsSurface : (p : InteractionProcess) → OwnsSurface p → OwnsSurface (start_next p)
unfolding start_next
start_next-OwnsSurface p v = elim (Option-cases p.active) [
  | inr (a, busy) ↦ rw (busy, start_next) v
  | inl idle ↦ elim (List-cases p.queue) [
    | inl none_waits ↦ rw (idle, none_waits, start_next) v
    | inr (next, rest, waits) ↦
        rw (idle, waits, start_next)
          (show-OwnsSurface _ next.key next.prompt (activated p next.key next.prompt rest idle v))
  ]
]

requeue-OwnsSurface :
    (p : InteractionProcess) (queue : List QueuedInteraction)
    → OwnsSurface p
    → OwnsSurface (record p { queue = queue })
requeue-OwnsSurface p queue v = record { only_surface = v.only_surface; fresh = v.fresh }

enqueue-OwnsSurface :
    (p : InteractionProcess) (interaction : QueuedInteraction)
    → OwnsSurface p
    → OwnsSurface (enqueue p interaction)
unfolding enqueue
enqueue-OwnsSurface p interaction v =
    elim (Bool-cases (
      has_key interaction.key p.active
      || any (λ (c : QueuedInteraction). c.key == interaction.key) p.queue)) [
        | inl known ↦ rw (known, enqueue) v
        | inr new ↦
            rw (new, enqueue)
              (start_next-OwnsSurface _ (requeue-OwnsSurface p (p.queue ++ (interaction ∷ [])) v))
      ]

retired-OwnsSurface :
    (p : InteractionProcess) (queue : List QueuedInteraction)
    → OwnsSurface p
    → OwnsSurface (record p {
      active = none;
      queue = queue;
      opened = close_optional (surface_of p.active) p.opened;
    })
unfolding close_surface
retired-OwnsSurface p queue v = record {
  only_surface = ground (arith, v.only_surface);
  fresh = refl;
}

complete-OwnsSurface :
    (p : InteractionProcess) (key : String) → OwnsSurface p → OwnsSurface (complete p key)
unfolding complete
complete-OwnsSurface p key v = elim (Option-cases p.active) [
  | inl idle ↦ rw (idle, complete) (requeue-OwnsSurface p (remove_first key p.queue) v)
  | inr (a, busy) ↦
      rw (busy, complete)
        (elim (Bool-cases (a.key == key)) [
          | inl same ↦
              let kept = retired-OwnsSurface p p.queue v in
              rw same (start_next-OwnsSurface _ (rw busy at kept))
          | inr other ↦ rw other (requeue-OwnsSurface p (remove_first key p.queue) v)
        ])
]

reopen-OwnsSurface :
    (p : InteractionProcess) (key : String) (phase : Phase)
    → OwnsSurface p
    → OwnsSurface (reopen p key phase)
unfolding reopen
reopen-OwnsSurface p key phase v = record {
  only_surface = ground (arith, v.only_surface);
  fresh = ground (arith, v.fresh);
}

cancel-OwnsSurface : (p : InteractionProcess) → OwnsSurface p → OwnsSurface (cancel p).0
unfolding cancel
cancel-OwnsSurface p v = record {
  only_surface = ground (arith, v.only_surface);
  fresh = ground (arith, v.fresh);
}

step-OwnsSurface : (p : InteractionProcess) (c : Call) → OwnsSurface p → OwnsSurface (step p c)
unfolding step
step-OwnsSurface p (requests interaction) v = enqueue-OwnsSurface p interaction v
step-OwnsSurface p (completes key) v = complete-OwnsSurface p key v
step-OwnsSurface p cancels v = cancel-OwnsSurface p v
step-OwnsSurface p (answers key) v = respond-OwnsSurface p key v
step-OwnsSurface p (asks_next key index count) v = next_question-OwnsSurface p key index count v
step-OwnsSurface p (asks_custom key) v =
    unfold ask_custom in
    open_dialog-OwnsSurface (hide_surface p key) key (hide_surface-OwnsSurface p key v)
step-OwnsSurface p (fails key phase) v = reopen-OwnsSurface p key phase v
step-OwnsSurface p retires v = unfold retire_local_state in retired-OwnsSurface p [] v

run-OwnsSurface : (p : InteractionProcess) (cs : List Call) → OwnsSurface p → OwnsSurface (run p cs)
unfolding run
run-OwnsSurface p [] v = v
run-OwnsSurface p (c ∷ cs) v = run-OwnsSurface (step p c) cs (step-OwnsSurface p c v)

-- After any calls the surfaces that were opened and not closed are the one of the active
-- interaction, if it has one: no dialog is left behind.
pub run-initial-OwnsSurface : (cs : List Call) → OwnsSurface (run initial cs)
run-initial-OwnsSurface cs =
    run-OwnsSurface initial cs (record { only_surface = refl; fresh = refl })
