-- ===== src/Rewind/Bytes.antt =====
-- The byte budget of a timeline: the contents that it can restore stay within the session limit.
use deepseek_harness_communi.Prelude.{
  ℕ, ◌≡◌, ◌≤◌, refl, sym, ap, subst, List, [], ◌∷◌, string_eq, option_eq, All, arith,
}
use deepseek_harness_communi.Prelude.Sort.{sort_by}
use deepseek_harness_communi.Prelude.Table.{insert-All}
use deepseek_harness_communi.Prelude.Result.{Result, Ensures, Ensures-throw_if, Ensures-then}
use deepseek_harness_communi.Rewind.Contracts.{RewindPointInput}
use deepseek_harness_communi.Rewind.Points.{RewindError}
use deepseek_harness_communi.Rewind.Timeline.{RewindTimeline, trim, timeline_bytes}
use deepseek_harness_communi.Rewind.Journal.{
  RewindJournalLimits, RewindJournal, hydrate, record_point, validate_nodes, claim,
}
use deepseek_harness_communi.Rewind.Effects.{commit}
use deepseek_harness_communi.Rewind.Calls.{
  Call, hydrates, records_point, claims, records_mutation, commits, step, run, after, after-Ensures,
  mutation_cases,
}
use deepseek_harness_communi.Rewind.Budget.Sums.{timeline_bytes-trim}
use deepseek_harness_communi.Rewind.Budget.Operations.{
  Within, IsWithinBytes, record_point-bytes, Keeps, claim_sorted-bytes, push_effect-bytes,
  commit-bytes,
}

-- A hydrated lineage comes within the budget.
abbrev pub HydratesWithin : ℕ → Call → Type 0
HydratesWithin limit (hydrates t) = timeline_bytes t ≤ limit
HydratesWithin limit _ = Unit

after-Keeps {ℓ} :
    {A : Type ℓ} (f : A → RewindJournal) (j : RewindJournal) (r : Result RewindError A)
    → IsWithinBytes j
    → Ensures (λ a. Keeps j (f a)) r
    → Keeps j (after f j r)
after-Keeps f j r w h = after-Ensures (Keeps j) f j r h (refl, w)

hydrate-bytes :
    (j : RewindJournal) (t : RewindTimeline)
    → timeline_bytes t ≤ j.max_session_bytes
    → IsWithinBytes j
    → Ensures (λ j'. Keeps j j') (hydrate j t)
unfolding hydrate
hydrate-bytes j t h w = Ensures-throw_if (Keeps j) _ _ _ λ _. Ensures-throw_if (Keeps j) _ _ _ λ _.
    Ensures-throw_if (Keeps j) _ _ _ λ _. Ensures-throw_if (Keeps j) _ _ _ λ _.
      Ensures-then (Keeps j) (validate_nodes [] [] t.nodes) _ λ _. (
        refl,
        insert-All (Within j.max_session_bytes) t.workspace_root (trim j.history t) j.timelines
            (λ _ _. omega (arith, timeline_bytes-trim j.history t)) w,
      )

step-bytes :
    (j : RewindJournal) (c : Call)
    → HydratesWithin j.max_session_bytes c
    → IsWithinBytes j
    → Keeps j (step j c)
unfolding step
step-bytes j (hydrates t) h w = after-Keeps (λ j'. j') j (hydrate j t) w (hydrate-bytes j t h w)
step-bytes j (records_point now id input) h w =
    after-Keeps (λ r. r.0) j (record_point j now id input) w (record_point-bytes j now id input w)
step-bytes j (claims now id session_id points) h w =
    after-Keeps (λ r. r.0) j (claim j now id session_id points) w
      (unfold claim in
        claim_sorted-bytes j now id session_id
          (sort_by (λ (p : RewindPointInput). p.prompt_seq) points) w)
step-bytes j (records_mutation now id input canonical) h w =
    mutation_cases (Keeps j) j now id input canonical (refl, w)
      (λ t point owned _. push_effect-bytes j now id input canonical t point owned w)
step-bytes j (commits now session_id point_id action target expected) h w =
    after-Keeps (λ r. r.0) j (commit j now session_id point_id action target expected) w
      (commit-bytes j now session_id point_id action target expected w)

-- While the hydrated lineages come within `maxSessionBytes`, no call takes the reversible contents
-- of a timeline over that limit.
pub run-IsWithinBytes :
    (j : RewindJournal) (cs : List Call)
    → All (HydratesWithin j.max_session_bytes) cs
    → IsWithinBytes j
    → All (Within j.max_session_bytes) (run j cs).timelines
unfolding run
run-IsWithinBytes j [] h w = w
run-IsWithinBytes j (c ∷ cs) h w =
    let (same, kept) = step-bytes j c h.0 w in
    let limit : (step j c).max_session_bytes ≡ j.max_session_bytes =
      ap (λ (l : RewindJournalLimits). l.max_session_bytes) same in
    subst (λ n. All (Within n) (run (step j c) cs).timelines) limit
      (run-IsWithinBytes (step j c) cs (subst (λ n. All (HydratesWithin n) cs) (sym limit) h.1)
        kept)
