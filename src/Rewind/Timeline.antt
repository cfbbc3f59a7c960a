-- ===== src/Rewind/Timeline.antt =====
-- packages/tui/src/modules/rewind/domain/journal.ts: one timeline of checkpoints, with the cursor
-- that separates the applied ones from the retained future. `now` is the clock (`Date.now()`),
-- which is read once in a call; `lineage_id` and `id` are the fresh identities of `randomUUID()`.
use deepseek_harness_communi.Prelude.{
  ℕ, ◌+◌, ◌-◌, String, Bool, ◌&&◌, List, [], ◌∷◌, ◌++◌, none, some, filter, ◌==◌, string_eq, nat_eq,
  length, take, drop, slice_last, last?, modify_first, map,
}
use deepseek_harness_communi.Rewind.Contracts.{
  RewindPointInput, WorkspaceMutation, WorkspaceEffect, reversible, unsupported,
}
use deepseek_harness_communi.Rewind.Points.{RewindPoint, new_point}

pub record RewindTimeline : Type 0 where
  pub lineage_id : String
  pub workspace_root : String
  pub owner_session_id : String
  pub cursor : ℕ
  pub updated_at : ℕ
  pub nodes : List RewindPoint

-- `timeline`: a new lineage of the last `history` points, all of them applied.
unfoldable pub timeline : ℕ → String → ℕ → String → String → List RewindPointInput → RewindTimeline
timeline history lineage_id now owner_session_id workspace_root points = record {
  lineage_id = lineage_id;
  workspace_root = workspace_root;
  owner_session_id = owner_session_id;
  cursor = length nodes;
  updated_at = now;
  nodes = nodes;
}
  where
    nodes : List RewindPoint
    nodes = map new_point (slice_last history points)

-- The trimming to `history` nodes in `append` and `hydrate`: the oldest nodes go, and the cursor
-- moves with them.
unfoldable pub trim : ℕ → RewindTimeline → RewindTimeline
trim history t = record t { nodes = drop dropped t.nodes; cursor = t.cursor - dropped }
  where
    dropped : ℕ
    dropped = length t.nodes - history

unfoldable pub append : ℕ → ℕ → RewindTimeline → RewindPointInput → RewindTimeline
unfolding trim
append history now t input =
    trim history (record t { nodes = pushed; cursor = length pushed; updated_at = now })
  where
    pushed : List RewindPoint
    pushed = t.nodes ++ new_point input ∷ []

-- `timeline.nodes.slice(0, timeline.cursor)`
unfoldable pub applied : RewindTimeline → List RewindPoint
applied t = take t.cursor t.nodes

unfoldable pub is_point_of : String → ℕ → RewindPoint → Bool
is_point_of session_id turn point = point.session_id == session_id && point.turn == turn

unfoldable pub effect_bytes : WorkspaceEffect → ℕ
effect_bytes (reversible before after bytes) = bytes
effect_bytes (unsupported reason) = 0

unfoldable pub mutations_bytes : List WorkspaceMutation → ℕ
unfolding effect_bytes
mutations_bytes [] = 0
mutations_bytes (mutation ∷ mutations) = effect_bytes mutation.effect + mutations_bytes mutations

unfoldable pub nodes_bytes : List RewindPoint → ℕ
nodes_bytes [] = 0
nodes_bytes (point ∷ points) = mutations_bytes point.workspace_mutations + nodes_bytes points

unfoldable pub timeline_bytes : RewindTimeline → ℕ
timeline_bytes t = nodes_bytes t.nodes

unfoldable pub push_mutation : WorkspaceMutation → RewindPoint → RewindPoint
push_mutation mutation point = record point {
  workspace_mutations = point.workspace_mutations ++ mutation ∷ [];
}

-- The write through the reference that `pointFor` returns: the first applied point of the session
-- and turn.
unfoldable pub push_at : String → ℕ → WorkspaceMutation → RewindTimeline → RewindTimeline
unfolding push_mutation applied
push_at session_id turn mutation t = record t {
  nodes =
      modify_first (is_point_of session_id turn) (push_mutation mutation) (applied t)
      ++ drop t.cursor t.nodes;
}

-- The turn of the last applied point of a session, 0 without one.
unfoldable pub latest_turn : String → RewindTimeline → ℕ
unfolding applied
latest_turn session_id t =
    elim (last? (filter (λ (p : RewindPoint). p.session_id == session_id) (applied t))) [
      | none ↦ 0
      | some point ↦ point.turn
    ]
