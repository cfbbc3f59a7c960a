-- ===== src/Rewind/Recording.antt =====
-- What `recordPoint` writes, and the round trip of `snapshot` and `hydrate`.
use deepseek_harness_communi.Prelude.{
  ℕ, ◌-◌, ◌≡◌, ◌<◌, ◌≤◌, refl, sym, inl, inr, ◌⊎◌, ◌≢◌, String, true, false, List, [], ◌∷◌, ◌++◌,
  Option, none, some, any, any-append, ==_refl, ◌==◌, string_eq, take, drop, length, length-append,
  length-drop, drop-append, slice_last, slice_last-eq-drop, Option-cases, arith,
}
use text.Mathlib.TextEquality.{eq_iff}
use deepseek_harness_communi.Prelude.Table.{lookup, insert, lookup-insert}
use deepseek_harness_communi.Prelude.Result.{
  ok, ◌>>=◌, ◌>>◌, Ensures, Ensures-then, Ensures-ok, Ensures-throw_if, >>-eq-ok,
}
use deepseek_harness_communi.Rewind.Contracts.{RewindPointInput}
use deepseek_harness_communi.Rewind.Points.{RewindPoint, new_point, validate_point}
use deepseek_harness_communi.Rewind.Timeline.{RewindTimeline, timeline, trim, append, applied}
use deepseek_harness_communi.Rewind.Journal.{
  RewindJournal, RewindJournalPointResult, hydrate, snapshot, validate_nodes, record_in,
  record_point,
}

-- The checkpoints that a prompt of the workspace comes after.
abbrev pub prior : Option RewindTimeline → List RewindPoint
prior none = []
prior (some t) = applied t

-- A timeline that ends with the new checkpoint, keeps `history` checkpoints and has no future.
pub record Records (history : ℕ) (before : Option RewindTimeline) (input : RewindPointInput)
    (t : RewindTimeline) : Type 0 where
  pub nodes_eq : t.nodes ≡ slice_last history (prior before ++ new_point input ∷ [])
  pub cursor_eq : t.cursor ≡ length t.nodes

append-Records :
    (history now : ℕ) (t : RewindTimeline) (input : RewindPointInput)
    → 0 < history
    → Records history
        (some t)
        input
        (append history now (record t { nodes = take t.cursor t.nodes }) input)
unfolding append trim applied
append-Records history now t input pos = record {
  nodes_eq = sym (slice_last-eq-drop history (take t.cursor t.nodes ++ new_point input ∷ []) pos);
  cursor_eq = omega (
    arith,
    length-drop (length (take t.cursor t.nodes ++ new_point input ∷ []) - history)
        (take t.cursor t.nodes ++ new_point input ∷ []),
  );
}

slice_last-one :
    (history : ℕ) (input : RewindPointInput)
    → 0 < history
    → slice_last history (input ∷ []) ≡ input ∷ []
slice_last-one history input pos =
    let none_dropped : 1 - history ≡ 0 = omega arith in
    rw (slice_last-eq-drop history (input ∷ []) pos, none_dropped)

slice_last-one_point :
    (history : ℕ) (p : RewindPoint) → 0 < history → slice_last history (p ∷ []) ≡ p ∷ []
slice_last-one_point history p pos =
    let none_dropped : 1 - history ≡ 0 = omega arith in
    rw (slice_last-eq-drop history (p ∷ []) pos, none_dropped)

timeline-Records :
    (history now : ℕ) (lineage_id : String) (input : RewindPointInput)
    → 0 < history
    → Records history none input
        (timeline history lineage_id now input.session_id input.workspace_root (input ∷ []))
unfolding timeline
timeline-Records history now lineage_id input pos = record {
  nodes_eq =
      rw (slice_last-one history input pos, slice_last-one_point history (new_point input) pos);
  cursor_eq = refl;
}

-- Either nothing changes, or the workspace has the timeline that records the prompt and the others
-- stay.
abbrev pub Recorded :
    RewindJournal → RewindPointInput → RewindJournal × RewindJournalPointResult → Type 0
Recorded j input r =
    ((r.1.changed ≡ false) × (r.0 ≡ j))
    ⊎ ((r.1.changed ≡ true)
        × (t : RewindTimeline) × (snapshot r.0 input.workspace_root ≡ some t)
        × Records j.history (snapshot j input.workspace_root) input t
        × ((root : String) → root ≢ input.workspace_root → snapshot r.0 root ≡ snapshot j root))

snapshot-insert :
    (j : RewindJournal) (root : String) (t : RewindTimeline)
    → snapshot (record j { timelines = insert root t j.timelines }) root ≡ some t
unfolding snapshot
snapshot-insert j root t = rw (lookup-insert root root t j.timelines, ==_refl root)

snapshot-insert_ne :
    (j : RewindJournal) (root other : String) (t : RewindTimeline)
    → other ≢ root
    → snapshot (record j { timelines = insert root t j.timelines }) other ≡ snapshot j other
unfolding snapshot
snapshot-insert_ne j root other t ne =
    rw (lookup-insert root other t j.timelines) (ground (arith, eq_iff root other))

record_in-Records :
    (history now : ℕ) (t t' : RewindTimeline) (input : RewindPointInput)
    → 0 < history
    → record_in history now t input ≡ some t'
    → Records history (some t) input t'
unfolding record_in
record_in-Records history now t t' input pos e =
    let written : append history now (record t { nodes = take t.cursor t.nodes }) input ≡ t' =
      ground arith in
    rw (← written) (append-Records history now t input pos)

snapshot_of_lookup :
    (j : RewindJournal) (root : String) (o : Option RewindTimeline)
    → lookup root j.timelines ≡ o
    → snapshot j root ≡ o
unfolding snapshot
snapshot_of_lookup j root o e = e

-- A recorded prompt becomes the last checkpoint of its workspace, after the applied ones, within
-- the history limit; the retained future is dropped; no other workspace changes. A prompt that is
-- not recorded changes nothing.
pub record_point-Recorded :
    (j : RewindJournal) (now : ℕ) (lineage_id : String) (input : RewindPointInput)
    → 0 < j.history
    → Ensures (Recorded j input) (record_point j now lineage_id input)
unfolding record_point
record_point-Recorded j now lineage_id input pos =
    Ensures-then (Recorded j input) (validate_point input) _ λ _.
      elim (Option-cases (lookup root j.timelines)) [
        | inl missing ↦ rw missing (
            inr (
              refl,
              fresh,
              snapshot-insert j root fresh,
              rw (snapshot_of_lookup j root none missing)
                  (timeline-Records j.history now lineage_id input pos),
              λ other ne. snapshot-insert_ne j root other fresh ne,
            ))
        | inr (t, found) ↦ rw found (elim (Option-cases (record_in j.history now t input)) [
          | inl kept ↦ rw kept (inl (refl, refl))
          | inr (t', written) ↦ rw written (
              inr (
                refl,
                t',
                snapshot-insert j root t',
                rw (snapshot_of_lookup j root (some t) found)
                    (record_in-Records j.history now t t' input pos written),
                λ other ne. snapshot-insert_ne j root other t' ne,
              ))
        ])
      ]
  where
    root : String
    root = input.workspace_root

    fresh : RewindTimeline
    fresh = timeline j.history lineage_id now input.session_id root (input ∷ [])

recorded_id :
    (history : ℕ) (before : Option RewindTimeline) (input : RewindPointInput) (t : RewindTimeline)
    → 0 < history
    → Records history before input t
    → any (λ (p : RewindPoint). p.id == input.point_id) t.nodes ≡ true
recorded_id history before input t pos r =
    let nodes = prior before in
    let added : List RewindPoint = new_point input ∷ [] in
    let few : length (nodes ++ added) - history ≤ length nodes =
      omega (arith, length-append nodes added) in
    rw
      (
        r.nodes_eq,
        slice_last-eq-drop history (nodes ++ added) pos,
        drop-append (length (nodes ++ added) - history) nodes added few,
        any-append (λ (p : RewindPoint). p.id == input.point_id)
            (drop (length (nodes ++ added) - history) nodes) added,
      )
      (unfold new_point in ground (arith, ==_refl input.point_id))

record_in_known :
    (history now : ℕ) (t : RewindTimeline) (input : RewindPointInput)
    → any (λ (p : RewindPoint). p.id == input.point_id) t.nodes ≡ true
    → record_in history now t input ≡ none
unfolding record_in
record_in_known history now t input h = ground arith

valid :
    (j : RewindJournal) (now : ℕ) (lineage_id : String) (input : RewindPointInput)
    {r : RewindJournal × RewindJournalPointResult}
    → record_point j now lineage_id input ≡ ok r
    → validate_point input ≡ ok tt
unfolding record_point
valid j now lineage_id input e = (>>-eq-ok (validate_point input) _ e).0

unchanged :
    (j : RewindJournal) (t : RewindTimeline) (now : ℕ) (lineage_id : String)
    (input : RewindPointInput)
    → validate_point input ≡ ok tt
    → snapshot j input.workspace_root ≡ some t
    → any (λ (p : RewindPoint). p.id == input.point_id) t.nodes ≡ true
    → record_point j now lineage_id input
      ≡ ok (
        j,
        record {
          changed = false;
          durable = t.owner_session_id == input.session_id;
          workspace_root = input.workspace_root;
        },
      )
unfolding record_point snapshot ◌>>◌ ◌>>=◌
unchanged j t now lineage_id input checked held known =
    rw (checked, held, record_in_known j.history now t input known)

-- Recording the prompt again, at any time, succeeds and changes nothing.
pub record_point_again :
    (j j' : RewindJournal) (r : RewindJournalPointResult) (now later : ℕ)
    (lineage_id lineage_id' : String) (input : RewindPointInput)
    → 0 < j.history
    → record_point j now lineage_id input ≡ ok (j', r)
    → r.changed ≡ true
    → (r' : RewindJournalPointResult) × (record_point j' later lineage_id' input ≡ ok (j', r'))
      × (r'.changed ≡ false)
record_point_again j j' r now later lineage_id lineage_id' input pos e changed =
    elim (Ensures-ok (Recorded j input) (record_point j now lineage_id input)
      (record_point-Recorded j now lineage_id input pos) e) [
        | inl (same, _) ↦ cc
        | inr (_, t, held, records, _) ↦ (
          record {
            changed = false;
            durable = t.owner_session_id == input.session_id;
            workspace_root = input.workspace_root;
          },
          unchanged j' t later lineage_id' input (valid j now lineage_id input e) held
              (recorded_id j.history (snapshot j input.workspace_root) input t pos records),
          refl,
        )
      ]

-- `hydrate` restores the lineage, trimmed to the history limit, and no other.
hydrate-snapshot :
    (j : RewindJournal) (t : RewindTimeline)
    → Ensures
        (λ j'.
          (snapshot j' t.workspace_root ≡ some (trim j.history t))
          × ((root : String) → root ≢ t.workspace_root → snapshot j' root ≡ snapshot j root))
        (hydrate j t)
unfolding hydrate
hydrate-snapshot j t = Ensures-throw_if Restores _ _ _ λ _. Ensures-throw_if Restores _ _ _ λ _.
    Ensures-throw_if Restores _ _ _ λ _. Ensures-throw_if Restores _ _ _ λ _.
      Ensures-then Restores (validate_nodes [] [] t.nodes) _ λ _. (
        snapshot-insert j t.workspace_root (trim j.history t),
        λ root ne. snapshot-insert_ne j t.workspace_root root (trim j.history t) ne,
      )
  where
    Restores : RewindJournal → Type 0
    Restores j' =
        (snapshot j' t.workspace_root ≡ some (trim j.history t))
        × ((root : String) → root ≢ t.workspace_root → snapshot j' root ≡ snapshot j root)

trim_within : (history : ℕ) (t : RewindTimeline) → length t.nodes ≤ history → trim history t ≡ t
unfolding trim
trim_within history t h =
    let nothing_dropped : length t.nodes - history ≡ 0 = omega arith in
    rw nothing_dropped (ground arith)
