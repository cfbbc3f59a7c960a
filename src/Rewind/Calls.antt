-- ===== src/Rewind/Calls.antt =====
-- The methods of `RewindJournal` as one step function: a call that throws leaves the journal as it
-- is, as in the source, where every error is thrown before the first write.
use deepseek_harness_communi.Prelude.{
  ℕ, ◌≡◌, inl, inr, String, List, [], ◌∷◌, Option, none, some, any, find, ◌==◌, string_eq,
  Bool-cases, Option-cases,
}
use deepseek_harness_communi.Prelude.Result.{Result, ok, err, Ensures}
use deepseek_harness_communi.Rewind.Contracts.{
  RewindAction, RewindPointInput, WorkspaceMutation, WorkspaceMutationInput,
  CanonicalWorkspaceMutation,
}
use deepseek_harness_communi.Rewind.Points.{RewindError, RewindPoint}
use deepseek_harness_communi.Rewind.Timeline.{RewindTimeline, applied, is_point_of}
use deepseek_harness_communi.Rewind.Journal.{
  RewindJournal, hydrate, record_point, claim, is_owner, timeline_for_owner,
}
use deepseek_harness_communi.Rewind.Effects.{record_workspace_mutation, push_effect, commit}

-- The methods that write, with the readings of the clock and the fresh identities they use.
pub data Call : Type 0 where
  hydrates : RewindTimeline → Call
  records_point : ℕ → String → RewindPointInput → Call
  claims : ℕ → String → String → List RewindPointInput → Call
  records_mutation : ℕ → String → WorkspaceMutationInput → CanonicalWorkspaceMutation → Call
  commits : ℕ → String → String → RewindAction → Option String → Option String → Call

abbrev pub after {ℓ} :
    {A : Type ℓ} → (A → RewindJournal) → RewindJournal → Result RewindError A → RewindJournal
after f j (ok r) = f r
after f j (err e) = j

unfoldable pub step : RewindJournal → Call → RewindJournal
step j (hydrates t) = after (λ j'. j') j (hydrate j t)
step j (records_point now id input) = after (λ r. r.0) j (record_point j now id input)
step j (claims now id session_id points) = after (λ r. r.0) j (claim j now id session_id points)
step j (records_mutation now id input canonical) =
    (record_workspace_mutation j now id input canonical).0
step j (commits now session_id point_id action target expected) =
    after (λ r. r.0) j (commit j now session_id point_id action target expected)

unfoldable pub run : RewindJournal → List Call → RewindJournal
run j [] = j
run j (c ∷ cs) = run (step j c) cs

pub step_induction {ℓ} :
    (P : RewindJournal → Type ℓ)
    → ((j : RewindJournal) (c : Call) → P j → P (step j c))
    → (j : RewindJournal) (cs : List Call) → P j
    → P (run j cs)
unfolding run
step_induction P keep j [] h = h
step_induction P keep j (c ∷ cs) h = step_induction P keep (step j c) cs (keep j c h)

pub after-Ensures {ℓ κ} :
    {A : Type ℓ} (P : RewindJournal → Type κ) (f : A → RewindJournal) (j : RewindJournal)
    (r : Result RewindError A)
    → Ensures (λ a. P (f a)) r
    → P j
    → P (after f j r)
after-Ensures P f j (ok a) h k = h
after-Ensures P f j (err e) h k = k

-- The cases of `recordWorkspaceMutation`: nothing is recorded, or the effect is pushed.
pub mutation_cases {ℓ} :
    (P : RewindJournal → Type ℓ) (j : RewindJournal) (now : ℕ) (id : String)
    (input : WorkspaceMutationInput) (canonical : CanonicalWorkspaceMutation)
    → P j
    → ((t : RewindTimeline) (point : RewindPoint)
        → timeline_for_owner j input.session_id ≡ some t
        → find (is_point_of input.session_id input.turn) (applied t) ≡ some point
        → P (push_effect j now id input canonical t point))
    → P (record_workspace_mutation j now id input canonical).0
unfolding record_workspace_mutation
mutation_cases P j now id input canonical kept pushed =
    elim (Option-cases (timeline_for_owner j input.session_id)) [
      | inl missing ↦ rw (missing, record_workspace_mutation) kept
      | inr (t, owned) ↦
          rw (owned, record_workspace_mutation)
            (elim (Option-cases (find (is_point_of input.session_id input.turn) (applied t))) [
              | inl missing ↦ rw missing kept
              | inr (point, found) ↦
                  rw found
                    (elim (Bool-cases (
                      any (λ (m : WorkspaceMutation). m.call_id == input.call_id)
                        point.workspace_mutations)) [
                          | inl old ↦ rw old kept
                          | inr new ↦ rw new (pushed t point owned found)
                        ])
            ])
    ]

pub timeline_for_owner-found :
    (j : RewindJournal) (session_id : String) (t : RewindTimeline)
    → timeline_for_owner j session_id ≡ some t
    → (k : String) × (find (is_owner session_id) j.timelines ≡ some (k, t))
unfolding timeline_for_owner
timeline_for_owner-found j session_id t e =
    elim (Option-cases (find (is_owner session_id) j.timelines)) [
      | inl missing ↦
          let impossible : ◌≡◌ {A = Option RewindTimeline} none (some t) =
            rw (missing, timeline_for_owner) at e in
          cc
      | inr ((k, u), found) ↦
          let written : ◌≡◌ {A = Option RewindTimeline} (some u) (some t) =
            rw (found, timeline_for_owner) at e in
          let same : u ≡ t = cc in (k, rw (← same) found)
    ]
