-- ===== src/Rewind/Invariant.antt =====
-- The shape of the timelines: under every method of the journal each timeline stays under its own
-- workspace, within the history limit, with its cursor within its nodes.
use deepseek_harness_communi.Prelude.{
  ℕ, ◌-◌, ◌≤◌, ◌<◌, ◌≡◌, refl, sym, subst, inl, inr, String, false, not, List, [], ◌∷◌, some, any,
  ◌==◌, ==_iff, string_eq, length, take, slice_last, map, All, All-append, All-take, All-drop,
  length-map, slice_last-All, length-drop, length-slice_last, Option-cases, arith,
}
use deepseek_harness_communi.Prelude.Table.{lookup, insert, insert-All, lookup-All}
use deepseek_harness_communi.Prelude.Result.{Ensures, Ensures-throw_if, Ensures-then}
use deepseek_harness_communi.Rewind.Contracts.{RewindPointInput}
use deepseek_harness_communi.Rewind.Points.{RewindPoint, new_point, is_positive, validate_point}
use deepseek_harness_communi.Rewind.Timeline.{RewindTimeline, timeline, trim, append}
use deepseek_harness_communi.Rewind.Journal.{
  RewindJournalLimits, RewindJournal, create, hydrate, record_in, record_point, validate_nodes,
}

abbrev pub IsRooted : String → List RewindPoint → Type 0
IsRooted root = All (λ (p : RewindPoint). p.workspace_root ≡ root)

-- A timeline under its workspace root, within the history limit.
pub record Fits (history : ℕ) (en : String × RewindTimeline) : Type 0 where
  pub keyed : en.1.workspace_root ≡ en.0
  pub in_nodes : en.1.cursor ≤ length en.1.nodes
  pub bounded : length en.1.nodes ≤ history
  pub rooted : IsRooted en.0 en.1.nodes

pub record IsValid (j : RewindJournal) : Type 0 where
  pub positive : 0 < j.history
  pub fits : All (Fits j.history) j.timelines

trim-Fits :
    (history : ℕ) (k : String) (t : RewindTimeline)
    → t.workspace_root ≡ k
    → t.cursor ≤ length t.nodes
    → IsRooted k t.nodes
    → Fits history (k, trim history t)
unfolding trim
trim-Fits history k t key le roots = record {
  keyed = key;
  in_nodes = omega (arith, length-drop (length t.nodes - history) t.nodes);
  bounded = omega (arith, length-drop (length t.nodes - history) t.nodes);
  rooted =
      All-drop (λ (p : RewindPoint). p.workspace_root ≡ k) (length t.nodes - history) t.nodes roots;
}

append-Fits :
    (history now : ℕ) (k : String) (t : RewindTimeline) (input : RewindPointInput)
    → t.workspace_root ≡ k
    → input.workspace_root ≡ k
    → IsRooted k t.nodes
    → Fits history (k, append history now t input)
unfolding append new_point
append-Fits history now k t input key same roots = trim-Fits history k _ key (omega arith) (
    All-append (λ (p : RewindPoint). p.workspace_root ≡ k) t.nodes (new_point input ∷ []) roots
      (same, tt))

new_points-IsRooted :
    (k : String) (points : List RewindPointInput)
    → All (λ (p : RewindPointInput). p.workspace_root ≡ k) points
    → IsRooted k (map new_point points)
unfolding new_point
new_points-IsRooted k [] h = tt
new_points-IsRooted k (p ∷ points) h = (h.0, new_points-IsRooted k points h.1)

pub timeline-Fits :
    (history now : ℕ) (k lineage_id session_id : String) (points : List RewindPointInput)
    → 0 < history
    → All (λ (p : RewindPointInput). p.workspace_root ≡ k) points
    → Fits history (k, timeline history lineage_id now session_id k points)
unfolding timeline
timeline-Fits history now k lineage_id session_id points pos roots = record {
  keyed = refl;
  in_nodes = omega arith;
  bounded = omega (
    arith,
    length-map (slice_last history points) new_point,
    length-slice_last history points pos,
  );
  rooted =
      new_points-IsRooted k (slice_last history points)
        (slice_last-All (λ (p : RewindPointInput). p.workspace_root ≡ k) history points roots);
}

pub create-IsValid : (limits : RewindJournalLimits) → Ensures IsValid (create limits)
unfolding create is_positive
create-IsValid limits =
    Ensures-throw_if IsValid _ _ _
      (λ h. Ensures-throw_if IsValid _ _ _ (λ _. record { positive = ground arith; fits = tt }))

no_foreign :
    (k : String) (nodes : List RewindPoint)
    → any (λ (p : RewindPoint). not (p.workspace_root == k)) nodes ≡ false
    → IsRooted k nodes
no_foreign k [] h = tt
no_foreign k (p ∷ nodes) h =
    (ground (arith, ==_iff p.workspace_root k), no_foreign k nodes (ground arith))

pub put-IsValid :
    (j : RewindJournal) (k : String) (t : RewindTimeline)
    → IsValid j
    → Fits j.history (k, t)
    → IsValid (record j { timelines = insert k t j.timelines })
put-IsValid j k t v fits = record {
  positive = v.positive;
  fits =
      insert-All (Fits j.history) k t j.timelines
        (λ i e. subst (λ x. Fits j.history (x, t)) (sym e) fits) v.fits;
}

-- A hydrated timeline fits, whatever lineage was stored.
pub hydrate-IsValid :
    (j : RewindJournal) (t : RewindTimeline) → IsValid j → Ensures IsValid (hydrate j t)
unfolding hydrate
hydrate-IsValid j t v = Ensures-throw_if IsValid _ _ _ λ _. Ensures-throw_if IsValid _ _ _ λ _.
    Ensures-throw_if IsValid _ _ _ λ within. Ensures-throw_if IsValid _ _ _ λ local.
      Ensures-then IsValid (validate_nodes [] [] t.nodes) _ λ _.
        put-IsValid j t.workspace_root (trim j.history t) v (
          trim-Fits j.history t.workspace_root t refl (ground arith)
            (no_foreign t.workspace_root t.nodes local))

record_in-Fits :
    (history now : ℕ) (k : String) (t t' : RewindTimeline) (input : RewindPointInput)
    → Fits history (k, t)
    → input.workspace_root ≡ k
    → record_in history now t input ≡ some t'
    → Fits history (k, t')
unfolding record_in
record_in-Fits history now k t t' input fits same e =
    subst (λ x. Fits history (k, x)) written
      (append-Fits history now k _ input fits.keyed same
        (All-take (λ (p : RewindPoint). p.workspace_root ≡ k) t.cursor t.nodes fits.rooted))
  where
    written : append history now (record t { nodes = take t.cursor t.nodes }) input ≡ t'
    written = ground arith

pub record_point-IsValid :
    (j : RewindJournal) (now : ℕ) (lineage_id : String) (input : RewindPointInput)
    → IsValid j
    → Ensures (λ r. IsValid r.0) (record_point j now lineage_id input)
unfolding record_point
record_point-IsValid j now lineage_id input v =
    Ensures-then (λ r. IsValid r.0) (validate_point input) _
      λ _. elim (Option-cases (lookup input.workspace_root j.timelines)) [
        | inl missing ↦ rw missing (
            put-IsValid j input.workspace_root _ v (
              timeline-Fits j.history now input.workspace_root lineage_id input.session_id
                (input ∷ []) v.positive (refl, tt)))
        | inr (t, found) ↦ rw found (elim (Option-cases (record_in j.history now t input)) [
          | inl kept ↦ rw kept v
          | inr (t', written) ↦ rw written (
              put-IsValid j input.workspace_root t' v (
                record_in-Fits j.history now input.workspace_root t t' input
                  (lookup-All (Fits j.history) input.workspace_root t j.timelines v.fits found) refl
                  written))
        ])
      ]
