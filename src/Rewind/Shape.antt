-- ===== src/Rewind/Shape.antt =====
-- Every method keeps the shape of the journal.
use deepseek_harness_communi.Prelude.{
  ℕ, ◌≡◌, ◌<◌, ◌≤◌, inl, inr, String, Bool, false, not, ◌||◌, List, [], ◌∷◌, ◌++◌, Option, some,
  any, find_index, find_index-take-lt, ◌==◌, ==_iff, string_eq, option_eq, length, take, drop, All,
  All-append, All-take, All-drop, modify_first, modify_first-All, length-append, length-take,
  length-drop, length-modify_first, Bool-cases, Option-cases, arith,
}
use mathlib.Core.Option
use deepseek_harness_communi.Prelude.Sort.{sort_by}
use deepseek_harness_communi.Prelude.Table.{lookup, lookup-All}
use deepseek_harness_communi.Prelude.Result.{
  ok, Ensures, Ensures-bind, Ensures-throw_if, Ensures-then, Ensures-ok,
}
use deepseek_harness_communi.Rewind.Contracts.{
  RewindAction, RewindPointInput, WorkspaceMutation, WorkspaceMutationInput,
  CanonicalWorkspaceMutation,
}
use deepseek_harness_communi.Rewind.Points.{RewindPoint}
use deepseek_harness_communi.Rewind.Timeline.{
  RewindTimeline, applied, is_point_of, push_at, push_mutation,
}
use deepseek_harness_communi.Rewind.Journal.{
  RewindJournalLimits, RewindJournal, create, hydrate, record_point, record_points, validate_claim,
  claim_sorted, claim, is_owner, timeline_for_owner,
}
use deepseek_harness_communi.Rewind.Effects.{
  record_workspace_mutation, push_effect, attributed, admitted, touch, next_owner, next_cursor,
  is_point, commit,
}
use deepseek_harness_communi.Rewind.Invariant.{
  IsRooted, Fits, IsValid, create-IsValid, hydrate-IsValid, record_point-IsValid, put-IsValid,
  timeline-Fits,
}
use deepseek_harness_communi.Rewind.Calls.{
  Call, hydrates, records_point, claims, records_mutation, commits, step, run, step_induction,
  after-Ensures, mutation_cases,
}

record_points-IsValid :
    (j : RewindJournal) (now : ℕ) (lineage_id : String) (points : List RewindPointInput)
    (changed : Bool)
    → IsValid j
    → Ensures (λ r. IsValid r.0) (record_points j now lineage_id points changed)
unfolding record_points
record_points-IsValid j now lineage_id [] changed v = v
record_points-IsValid j now lineage_id (point ∷ points) changed v =
    Ensures-bind (λ r. IsValid r.0) (record_point j now lineage_id point) _
      λ r e. record_points-IsValid r.0 now lineage_id points (r.1.changed || changed) (
        Ensures-ok (λ r. IsValid r.0) (record_point j now lineage_id point)
          (record_point-IsValid j now lineage_id point v) e)

same_root :
    (root : String) (points : List RewindPointInput)
    → any (λ (p : RewindPointInput). not (p.workspace_root == root)) points ≡ false
    → All (λ (p : RewindPointInput). p.workspace_root ≡ root) points
same_root root [] h = tt
same_root root (p ∷ points) h =
    (ground (arith, ==_iff p.workspace_root root), same_root root points (ground arith))

claim_sorted-IsValid :
    (j : RewindJournal) (now : ℕ) (lineage_id session_id : String) (points : List RewindPointInput)
    → IsValid j
    → Ensures (λ r. IsValid r.0) (claim_sorted j now lineage_id session_id points)
unfolding claim_sorted
claim_sorted-IsValid j now lineage_id session_id [] v = tt
claim_sorted-IsValid j now lineage_id session_id (first ∷ rest) v =
    Ensures-then (λ r. IsValid r.0) (validate_claim session_id first.workspace_root (first ∷ rest))
      _
      λ _.
        Ensures-throw_if (λ r. IsValid r.0) _ _ _
          λ local.
            elim (Bool-cases (
              Option.map (λ (t : RewindTimeline). t.owner_session_id)
                (lookup first.workspace_root j.timelines)
              == some session_id)) [
                | inl own ↦ rw own (
                    Ensures-bind (λ r. IsValid r.0)
                      (record_points j now lineage_id (first ∷ rest) false) _
                      λ r e.
                        Ensures-ok (λ r. IsValid r.0)
                          (record_points j now lineage_id (first ∷ rest) false)
                          (record_points-IsValid j now lineage_id (first ∷ rest) false v) e)
                | inr foreign ↦ rw foreign (
                    put-IsValid j first.workspace_root _ v (
                      timeline-Fits j.history now first.workspace_root lineage_id session_id
                        (first ∷ rest) v.positive
                        (same_root first.workspace_root (first ∷ rest) local)))
              ]

push_mutation-IsRooted :
    (k : String) (p : RewindPoint → Bool) (m : WorkspaceMutation) (nodes : List RewindPoint)
    → IsRooted k nodes
    → IsRooted k (modify_first p (push_mutation m) nodes)
unfolding push_mutation
push_mutation-IsRooted k p m nodes h =
    modify_first-All (λ (x : RewindPoint). x.workspace_root ≡ k) p (push_mutation m) nodes
      (λ x _ e. e) h

push_at-Fits :
    (history : ℕ) (k : String) (t : RewindTimeline) (session_id : String) (turn : ℕ)
    (m : WorkspaceMutation)
    → Fits history (k, t)
    → Fits history (k, push_at session_id turn m t)
unfolding push_at applied
push_at-Fits history k t session_id turn m fits = record {
  keyed = fits.keyed;
  in_nodes = omega (arith, same_length, fits.in_nodes);
  bounded = omega (arith, same_length, fits.bounded);
  rooted =
      All-append (λ (p : RewindPoint). p.workspace_root ≡ k) _ _
        (push_mutation-IsRooted k (is_point_of session_id turn) m (take t.cursor t.nodes)
          (All-take (λ (p : RewindPoint). p.workspace_root ≡ k) t.cursor t.nodes fits.rooted))
        (All-drop (λ (p : RewindPoint). p.workspace_root ≡ k) t.cursor t.nodes fits.rooted);
}
  where
    same_length :
        length (
          modify_first (is_point_of session_id turn) (push_mutation m) (take t.cursor t.nodes)
          ++ drop t.cursor t.nodes)
        ≡ length t.nodes
    same_length = omega (
      arith,
      length-append
          (modify_first (is_point_of session_id turn) (push_mutation m) (take t.cursor t.nodes))
          (drop t.cursor t.nodes),
      length-modify_first (is_point_of session_id turn) (push_mutation m) (take t.cursor t.nodes),
      length-take t.cursor t.nodes,
      length-drop t.cursor t.nodes,
    )

owner-Fits :
    (history : ℕ) (session_id : String) (timelines : List (String × RewindTimeline))
    (f : RewindTimeline → RewindTimeline)
    → ((k : String) (t : RewindTimeline) → Fits history (k, t) → Fits history (k, f t))
    → All (Fits history) timelines
    → All (Fits history) (modify_first (is_owner session_id) (λ en. (en.0, f en.1)) timelines)
owner-Fits history session_id timelines f keep h =
    modify_first-All (Fits history) (is_owner session_id) (λ en. (en.0, f en.1)) timelines
      (λ en _ fits. keep en.0 en.1 fits) h

touched-Fits :
    (history now : ℕ) (k : String) (t : RewindTimeline)
    → Fits history (k, t)
    → Fits history (k, record t { updated_at = now })
touched-Fits history now k t fits = record {
  keyed = fits.keyed;
  in_nodes = fits.in_nodes;
  bounded = fits.bounded;
  rooted = fits.rooted;
}

touch-IsValid :
    (j : RewindJournal) (now : ℕ) (root : String)
    → IsValid j
    → IsValid (record j { timelines = touch now root j.timelines })
unfolding touch
touch-IsValid j now root v = elim (Option-cases (lookup root j.timelines)) [
  | inl missing ↦ rw (missing, touch) v
  | inr (t, found) ↦
      rw (found, touch)
        (put-IsValid j root _ v (
          touched-Fits j.history now root t
            (lookup-All (Fits j.history) root t j.timelines v.fits found)))
]

push_effect-IsValid :
    (j : RewindJournal) (now : ℕ) (id : String) (input : WorkspaceMutationInput)
    (canonical : CanonicalWorkspaceMutation) (t : RewindTimeline) (point : RewindPoint)
    → IsValid j
    → IsValid (push_effect j now id input canonical t point)
unfolding push_effect
push_effect-IsValid j now id input canonical t point v =
    touch-IsValid
      (record j {
        timelines =
            modify_first (is_owner input.session_id)
              (λ en. (en.0, push_at input.session_id input.turn mutation en.1)) j.timelines;
      })
      now point.workspace_root
      (record {
        positive = v.positive;
        fits =
            owner-Fits j.history input.session_id j.timelines
              (push_at input.session_id input.turn mutation)
              (λ k u fits. push_at-Fits j.history k u input.session_id input.turn mutation fits)
              v.fits;
      })
  where
    mutation : WorkspaceMutation
    mutation = attributed now id input canonical (admitted j t canonical.effect)

record_workspace_mutation-IsValid :
    (j : RewindJournal) (now : ℕ) (id : String) (input : WorkspaceMutationInput)
    (canonical : CanonicalWorkspaceMutation)
    → IsValid j
    → IsValid (record_workspace_mutation j now id input canonical).0
unfolding record_workspace_mutation
record_workspace_mutation-IsValid j now id input canonical v =
    mutation_cases IsValid j now id input canonical v
      (λ t point _ _. push_effect-IsValid j now id input canonical t point v)

next_cursor-le :
    (action : RewindAction) (point_id : String) (t : RewindTimeline)
    → next_cursor action point_id t ≤ t.cursor
unfolding next_cursor applied
next_cursor-le action point_id t =
    elim (Option-cases (find_index (is_point point_id) (take t.cursor t.nodes))) [
      | inl missing ↦ rw (missing, next_cursor) (ground arith)
      | inr (i, found) ↦
          let below : i < t.cursor =
            find_index-take-lt (is_point point_id) t.cursor t.nodes i found in
          rw (found, next_cursor) (ground arith)
    ]

commit-IsValid :
    (j : RewindJournal) (now : ℕ) (session_id point_id : String) (action : RewindAction)
    (target expected : Option String)
    → IsValid j
    → Ensures (λ r. IsValid r.0) (commit j now session_id point_id action target expected)
unfolding commit
commit-IsValid j now session_id point_id action target expected v =
    elim (Option-cases (timeline_for_owner j session_id)) [
      | inl missing ↦ rw (missing, commit) (Ensures-throw_if (λ r. IsValid r.0) _ _ _ λ _. v)
      | inr (t, owned) ↦
          rw (owned, commit)
            (Ensures-throw_if (λ r. IsValid r.0) _ _ _
              λ _.
                Ensures-bind (λ r. IsValid r.0)
                  (next_owner action session_id target t.owner_session_id) _
                  λ owner _. record {
                    positive = v.positive;
                    fits =
                        owner-Fits j.history session_id j.timelines (moved owner)
                          (λ k u fits. record {
                            keyed = fits.keyed;
                            in_nodes =
                                omega (arith, next_cursor-le action point_id u, fits.in_nodes);
                            bounded = fits.bounded;
                            rooted = fits.rooted;
                          })
                          v.fits;
                  })
    ]
  where
    moved : String → RewindTimeline → RewindTimeline
    moved owner u = record u {
      owner_session_id = owner;
      cursor = next_cursor action point_id u;
      updated_at = now;
    }

step-IsValid : (j : RewindJournal) (c : Call) → IsValid j → IsValid (step j c)
unfolding step
step-IsValid j (hydrates t) v =
    after-Ensures IsValid (λ j'. j') j (hydrate j t) (hydrate-IsValid j t v) v
step-IsValid j (records_point now id input) v =
    after-Ensures IsValid (λ r. r.0) j (record_point j now id input)
      (record_point-IsValid j now id input v) v
step-IsValid j (claims now id session_id points) v =
    after-Ensures IsValid (λ r. r.0) j (claim j now id session_id points)
      (unfold claim in
        claim_sorted-IsValid j now id session_id
          (sort_by (λ (p : RewindPointInput). p.prompt_seq) points) v)
      v
step-IsValid j (records_mutation now id input canonical) v =
    record_workspace_mutation-IsValid j now id input canonical v
step-IsValid j (commits now session_id point_id action target expected) v =
    after-Ensures IsValid (λ r. r.0) j (commit j now session_id point_id action target expected)
      (commit-IsValid j now session_id point_id action target expected v) v

-- From a new journal, whatever is called on it, every timeline stands under its own workspace root
-- with only that root's checkpoints, keeps at most `history` of them, and has its cursor in range.
pub run-create-IsValid :
    (limits : RewindJournalLimits) (j : RewindJournal) (cs : List Call)
    → create limits ≡ ok j
    → IsValid (run j cs)
run-create-IsValid limits j cs e =
    step_induction IsValid step-IsValid j cs
      (Ensures-ok IsValid (create limits) (create-IsValid limits) e)
