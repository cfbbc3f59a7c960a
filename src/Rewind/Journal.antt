-- ===== src/Rewind/Journal.antt =====
-- packages/tui/src/modules/rewind/domain/journal.ts: `RewindJournal`. A method takes the journal
-- and returns the next one with its result; every error is thrown before the first write, so a
-- thrown error carries no journal. Values that the source copies on the way in or out are shared.
use deepseek_harness_communi.Prelude.{
  ℕ, String, Bool, true, false, not, ◌&&◌, ◌||◌, List, [], ◌∷◌, Option, none, some, ltb, any, find,
  ◌==◌, string_eq, nat_eq, option_eq, if◌then◌else◌, length, take,
}
use deepseek_harness_communi.Prelude.Text.{is_blank}
use deepseek_harness_communi.Prelude.Sort.{sort_by}
use deepseek_harness_communi.Prelude.Table.{lookup, insert}
use deepseek_harness_communi.Prelude.Result.{Result, ok, err, ◌>>=◌, ◌>>◌, throw_if}
use mathlib.Core.Option
use deepseek_harness_communi.Rewind.Contracts.{RewindPointInput}
use deepseek_harness_communi.Rewind.Points.{
  RewindError, RewindPoint, point_input, is_safe_integer, is_positive, validate_point,
}
use deepseek_harness_communi.Rewind.Timeline.{RewindTimeline, timeline, trim, append, latest_turn}

pub record RewindJournalLimits : Type 0 where
  pub history : ℕ
  pub max_mutation_bytes : ℕ
  pub max_session_bytes : ℕ

pub record RewindJournal : Type 0 where
  pub limits : RewindJournalLimits
  pub open limits use *
  pub timelines : List (String × RewindTimeline)

abbrev pub Outcome : Type 0 → Type 0
Outcome = Result RewindError

unfoldable pub create : RewindJournalLimits → Outcome RewindJournal
create limits = do
  throw_if
      (not (
        is_positive limits.history
        && is_positive limits.max_mutation_bytes
        && is_positive limits.max_session_bytes))
      RewindError.limit_not_positive
  throw_if (ltb limits.max_session_bytes limits.max_mutation_bytes)
      RewindError.mutation_limit_exceeds_session
  ok (record { limits = limits; timelines = [] })

-- The loop of `hydrate` over the nodes, with the identities and the turns met so far.
unfoldable pub validate_nodes :
    List String → List (String × ℕ) → List RewindPoint → Outcome (Unit {0})
validate_nodes ids turns [] = ok tt
validate_nodes ids turns (point ∷ points) =
    let rest = validate_nodes (point.id ∷ ids) ((point.session_id, point.turn) ∷ turns) points in
    do
      validate_point (point_input point)
      throw_if
          (any (λ i. i == point.id) ids
            || any (λ (k : String × ℕ). k.0 == point.session_id && k.1 == point.turn) turns)
          RewindError.duplicate_prompt
      rest

unfoldable pub hydrate : RewindJournal → RewindTimeline → Outcome RewindJournal
hydrate j t = do
  throw_if (is_blank t.lineage_id || is_blank t.workspace_root || is_blank t.owner_session_id)
      RewindError.bad_timeline_identity
  throw_if (not (is_safe_integer t.updated_at)) RewindError.bad_timeline_update
  throw_if (ltb (length t.nodes) t.cursor || not (is_safe_integer t.cursor))
      RewindError.bad_timeline_cursor
  throw_if (any (λ (p : RewindPoint). not (p.workspace_root == t.workspace_root)) t.nodes)
      RewindError.foreign_workspace_root
  validate_nodes [] [] t.nodes
  ok (record j { timelines = insert t.workspace_root (trim j.history t) j.timelines })

unfoldable pub snapshot : RewindJournal → String → Option RewindTimeline
snapshot j workspace_root = lookup workspace_root j.timelines

pub record RewindJournalPointResult : Type 0 where
  pub changed : Bool
  pub durable : Bool
  pub workspace_root : String

-- `recordPoint` on the timeline of the point's workspace; `none` leaves it as it is.
unfoldable pub record_in : ℕ → ℕ → RewindTimeline → RewindPointInput → Option RewindTimeline
record_in history now t input =
    if not (t.owner_session_id == input.session_id)
      || any (λ (p : RewindPoint). p.id == input.point_id) t.nodes
      || ltb input.turn (latest_turn input.session_id t)
    then none
    else some (append history now (record t { nodes = take t.cursor t.nodes }) input)

unfoldable pub record_point :
    RewindJournal
    → ℕ
    → String
    → RewindPointInput
    → Outcome (RewindJournal × RewindJournalPointResult)
unfolding record_in
record_point j now lineage_id input = do
  validate_point input
  elim (lookup root j.timelines) [
    | none ↦ ok (
      put (timeline j.history lineage_id now input.session_id root (input ∷ [])),
      result true true,
    )
    | some t ↦ elim (record_in j.history now t input) [
      | none ↦ ok (j, result false (t.owner_session_id == input.session_id))
      | some t' ↦ ok (put t', result true true)
    ]
  ]
  where
    root : String
    root = input.workspace_root

    put : RewindTimeline → RewindJournal
    put t = record j { timelines = insert root t j.timelines }

    result : Bool → Bool → RewindJournalPointResult
    result changed durable = record { changed = changed; durable = durable; workspace_root = root }

-- `timelineForOwner`: the first timeline, in the order of the map, that the session owns.
unfoldable pub is_owner : String → String × RewindTimeline → Bool
is_owner session_id en = en.1.owner_session_id == session_id

unfoldable pub timeline_for_owner : RewindJournal → String → Option RewindTimeline
timeline_for_owner j session_id = elim (find (is_owner session_id) j.timelines) [
  | none ↦ none
  | some en ↦ some en.1
]

-- The loop of `claim` over the points, once the timeline belongs to the session.
unfoldable pub record_points :
    RewindJournal → ℕ → String → List RewindPointInput → Bool → Outcome (RewindJournal × Bool)
record_points j now lineage_id [] changed = ok (j, changed)
record_points j now lineage_id (point ∷ points) changed = do
  next ← record_point j now lineage_id point
  record_points next.0 now lineage_id points (next.1.changed || changed)

-- The checks of `claim` on the sorted points.
unfoldable pub validate_claim : String → String → List RewindPointInput → Outcome (Unit {0})
validate_claim session_id root [] = ok tt
validate_claim session_id root (point ∷ points) =
    let rest = validate_claim session_id root points in
    do
      validate_point point
      throw_if (not (point.session_id == session_id)) RewindError.foreign_session
      rest

unfoldable pub claim_sorted :
    RewindJournal
    → ℕ
    → String
    → String
    → List RewindPointInput
    → Outcome (RewindJournal × Bool × String)
claim_sorted j now lineage_id session_id [] = err RewindError.no_checkpoints
claim_sorted j now lineage_id session_id (first ∷ rest) = do
  validate_claim session_id root ordered
  throw_if (any (λ (p : RewindPointInput). not (p.workspace_root == root)) ordered)
      RewindError.multiple_workspace_roots
  if Option.map (λ (t : RewindTimeline). t.owner_session_id) (lookup root j.timelines)
        == some session_id
      then (record_points j now lineage_id ordered false >>= λ r. ok (r.0, r.1, root))
      else ok (fresh, true, root)
  where
    root : String
    root = first.workspace_root

    ordered : List RewindPointInput
    ordered = first ∷ rest

    fresh : RewindJournal
    fresh = record j {
      timelines =
          insert root (timeline j.history lineage_id now session_id root ordered) j.timelines;
    }

-- The result is the journal, whether it changed, and the workspace root.
unfoldable pub claim :
    RewindJournal
    → ℕ
    → String
    → String
    → List RewindPointInput
    → Outcome (RewindJournal × Bool × String)
unfolding claim_sorted
claim j now lineage_id session_id points =
    claim_sorted j now lineage_id session_id
      (sort_by (λ (p : RewindPointInput). p.prompt_seq) points)
