-- ===== src/Rewind/Budget/Operations.antt =====
-- The operations that write keep the byte budget.
use deepseek_harness_communi.Prelude.{
  ℕ, ◌≡◌, ◌≤◌, refl, ◌∙◌, inl, inr, String, Bool, false, ◌||◌, List, [], ◌∷◌, Option, some, find,
  ◌==◌, string_eq, option_eq, take, All, modify_first-All, modify_first-All_at, find-All,
  Bool-cases, Option-cases, arith,
}
use mathlib.Core.Option
use deepseek_harness_communi.Prelude.Table.{lookup, insert, lookup-All, insert-All}
use deepseek_harness_communi.Prelude.Result.{
  Ensures, Ensures-bind, Ensures-throw_if, Ensures-then, Ensures-ok,
}
use deepseek_harness_communi.Rewind.Contracts.{
  RewindAction, RewindPointInput, WorkspaceMutation, WorkspaceMutationInput,
  CanonicalWorkspaceMutation,
}
use deepseek_harness_communi.Rewind.Points.{RewindPoint, validate_point}
use deepseek_harness_communi.Rewind.Timeline.{
  RewindTimeline, timeline, append, push_at, timeline_bytes,
}
use deepseek_harness_communi.Rewind.Journal.{
  RewindJournal, record_in, record_point, record_points, validate_claim, claim_sorted, is_owner,
  timeline_for_owner,
}
use deepseek_harness_communi.Rewind.Effects.{
  push_effect, attributed, admitted, touch, next_owner, commit,
}
use deepseek_harness_communi.Rewind.Calls.{timeline_for_owner-found}
use deepseek_harness_communi.Rewind.Budget.Sums.{
  timeline_bytes-push_at, admitted_fits, timeline_bytes-append, timeline_bytes-timeline,
  timeline_bytes-rewound,
}

abbrev pub Within : ℕ → String × RewindTimeline → Type 0
Within limit en = timeline_bytes en.1 ≤ limit

abbrev pub IsWithinBytes : RewindJournal → Type 0
IsWithinBytes j = All (Within j.max_session_bytes) j.timelines

pub record_in-bytes :
    (history now : ℕ) (t t' : RewindTimeline) (input : RewindPointInput)
    → record_in history now t input ≡ some t'
    → timeline_bytes t' ≤ timeline_bytes t
unfolding record_in
record_in-bytes history now t t' input e =
    let rewound : RewindTimeline = record t { nodes = take t.cursor t.nodes } in
    let written : append history now rewound input ≡ t' = ground arith in
    rw (← written)
      (omega (arith, timeline_bytes-append history now rewound input, timeline_bytes-rewound t))

pub record_point-bytes :
    (j : RewindJournal) (now : ℕ) (lineage_id : String) (input : RewindPointInput)
    → IsWithinBytes j
    → Ensures
        (λ r. (r.0.limits ≡ j.limits) × IsWithinBytes r.0)
        (record_point j now lineage_id input)
unfolding record_point
record_point-bytes j now lineage_id input w =
    Ensures-then (λ r. (r.0.limits ≡ j.limits) × IsWithinBytes r.0) (validate_point input) _
      λ _. elim (Option-cases (lookup input.workspace_root j.timelines)) [
        | inl missing ↦ rw missing (refl, put-bytes fresh fresh_fits)
        | inr (t, found) ↦ rw found (elim (Option-cases (record_in j.history now t input)) [
          | inl kept ↦ rw kept (refl, w)
          | inr (t', written) ↦ rw written (refl, put-bytes t' (recorded t t' found written))
        ])
      ]
  where
    fresh : RewindTimeline
    fresh = timeline j.history lineage_id now input.session_id input.workspace_root (input ∷ [])

    fresh_fits : timeline_bytes fresh ≤ j.max_session_bytes
    fresh_fits = omega (
      arith,
      timeline_bytes-timeline j.history now lineage_id input.session_id input.workspace_root
          (input ∷ []),
    )

    put-bytes :
        (t : RewindTimeline)
        → timeline_bytes t ≤ j.max_session_bytes
        → All (Within j.max_session_bytes) (insert input.workspace_root t j.timelines)
    put-bytes t h =
        insert-All (Within j.max_session_bytes) input.workspace_root t j.timelines (λ _ _. h) w

    recorded :
        (t t' : RewindTimeline)
        → lookup input.workspace_root j.timelines ≡ some t
        → record_in j.history now t input ≡ some t'
        → timeline_bytes t' ≤ j.max_session_bytes
    recorded t t' found written = omega (
      arith,
      record_in-bytes j.history now t t' input written,
      lookup-All (Within j.max_session_bytes) input.workspace_root t j.timelines w found,
    )

-- A call that writes keeps the limits and the byte budget.
abbrev pub Keeps : RewindJournal → RewindJournal → Type 0
Keeps j j' = (j'.limits ≡ j.limits) × IsWithinBytes j'

pub record_points-bytes :
    (j k : RewindJournal) (now : ℕ) (lineage_id : String) (points : List RewindPointInput)
    (changed : Bool)
    → Keeps j k
    → Ensures (λ r. Keeps j r.0) (record_points k now lineage_id points changed)
unfolding record_points
record_points-bytes j k now lineage_id [] changed w = w
record_points-bytes j k now lineage_id (point ∷ points) changed w =
    Ensures-bind (λ r. Keeps j r.0) (record_point k now lineage_id point) _
      λ r e.
        let (same, within) =
          Ensures-ok (λ q. Keeps k q.0) (record_point k now lineage_id point)
            (record_point-bytes k now lineage_id point w.1) e in
        record_points-bytes j r.0 now lineage_id points (r.1.changed || changed)
          (same ∙ w.0, within)

pub claim_sorted-bytes :
    (j : RewindJournal) (now : ℕ) (lineage_id session_id : String) (points : List RewindPointInput)
    → IsWithinBytes j
    → Ensures (λ r. Keeps j r.0) (claim_sorted j now lineage_id session_id points)
unfolding claim_sorted
claim_sorted-bytes j now lineage_id session_id [] w = tt
claim_sorted-bytes j now lineage_id session_id (first ∷ rest) w =
    let root = first.workspace_root in
    let ordered : List RewindPointInput = first ∷ rest in
    Ensures-then (λ r. Keeps j r.0) (validate_claim session_id root ordered) _
      λ _.
        Ensures-throw_if (λ r. Keeps j r.0) _ _ _
          λ local.
            elim (Bool-cases (
              Option.map (λ (t : RewindTimeline). t.owner_session_id) (lookup root j.timelines)
              == some session_id)) [
                | inl own ↦ rw own (
                    Ensures-bind (λ r. Keeps j r.0) (record_points j now lineage_id ordered false) _
                      λ r e.
                        Ensures-ok (λ q. Keeps j q.0) (record_points j now lineage_id ordered false)
                          (record_points-bytes j j now lineage_id ordered false (refl, w)) e)
                | inr foreign ↦ rw foreign (
                  refl,
                  insert-All (Within j.max_session_bytes) root _ j.timelines
                      (λ _ _. omega (
                        arith,
                        timeline_bytes-timeline j.history now lineage_id session_id root ordered,
                      ))
                      w,
                )
              ]

pub touch-bytes :
    (limit now : ℕ) (root : String) (timelines : List (String × RewindTimeline))
    → All (Within limit) timelines
    → All (Within limit) (touch now root timelines)
unfolding touch
touch-bytes limit now root timelines w = elim (Option-cases (lookup root timelines)) [
  | inl missing ↦ rw (missing, touch) w
  | inr (t, found) ↦
      rw (found, touch)
        (insert-All (Within limit) root _ timelines
          (λ _ _. unfold timeline_bytes in lookup-All (Within limit) root t timelines w found) w)
]

pub push_effect-bytes :
    (j : RewindJournal) (now : ℕ) (id : String) (input : WorkspaceMutationInput)
    (canonical : CanonicalWorkspaceMutation) (t : RewindTimeline) (point : RewindPoint)
    → timeline_for_owner j input.session_id ≡ some t
    → IsWithinBytes j
    → Keeps j (push_effect j now id input canonical t point)
unfolding push_effect attributed
push_effect-bytes j now id input canonical t point owned w = (
  refl,
  touch-bytes j.max_session_bytes now point.workspace_root _ (
      modify_first-All_at (is_owner input.session_id) (Within j.max_session_bytes)
        (λ en. (en.0, push_at input.session_id input.turn mutation en.1)) j.timelines (k, t) found
        (omega (
          arith,
          timeline_bytes-push_at input.session_id input.turn mutation t,
          admitted_fits j t canonical.effect (
              find-All (is_owner input.session_id) (Within j.max_session_bytes) j.timelines (k, t)
                found w),
        ))
        w),
)
  where
    k : String
    k = (timeline_for_owner-found j input.session_id t owned).0

    found : find (is_owner input.session_id) j.timelines ≡ some (k, t)
    found = (timeline_for_owner-found j input.session_id t owned).1

    mutation : WorkspaceMutation
    mutation = attributed now id input canonical (admitted j t canonical.effect)

pub commit-bytes :
    (j : RewindJournal) (now : ℕ) (session_id point_id : String) (action : RewindAction)
    (target expected : Option String)
    → IsWithinBytes j
    → Ensures (λ r. Keeps j r.0) (commit j now session_id point_id action target expected)
unfolding commit
commit-bytes j now session_id point_id action target expected w =
    elim (Option-cases (timeline_for_owner j session_id)) [
      | inl missing ↦
          rw (missing, commit) (Ensures-throw_if (λ r. Keeps j r.0) _ _ _ λ _. (refl, w))
      | inr (t, owned) ↦
          rw (owned, commit)
            (Ensures-throw_if (λ r. Keeps j r.0) _ _ _
              λ _.
                Ensures-bind (λ r. Keeps j r.0)
                  (next_owner action session_id target t.owner_session_id) _
                  λ owner _. (
                    refl,
                    modify_first-All (Within j.max_session_bytes) (is_owner session_id) _
                        j.timelines (λ en _ h. unfold timeline_bytes in h) w,
                  ))
    ]
