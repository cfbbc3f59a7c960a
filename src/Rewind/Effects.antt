-- ===== src/Rewind/Effects.antt =====
-- packages/tui/src/modules/rewind/domain/journal.ts: the methods of `RewindJournal`
-- that attribute, select and commit the effects of the checkpoints. A method takes the journal
-- and returns the next one with its result; every error is thrown before the first write, so a
-- thrown error carries no journal. Values that the source copies on the way in or out are shared.
use deepseek_harness_communi.Prelude.{
  ℕ, ◌+◌, String, Bool, true, false, not, ◌&&◌, List, [], Option, none, some, leb, ltb, any, find,
  find_index, ◌==◌, string_eq, nat_eq, option_eq, if◌then◌else◌, drop, modify_first, is_some,
  is_empty,
}
use deepseek_harness_communi.Prelude.Sort.{sort_by}
use deepseek_harness_communi.Prelude.Table.{lookup, insert}
use deepseek_harness_communi.Prelude.Result.{ok, err, ◌>>=◌, ◌>>◌, throw_if}
use mathlib.Core.List.{flat_map}
use deepseek_harness_communi.Rewind.Contracts.{
  RewindAction, conversation_only, code_only, RewindCodeScope, backward, nothing,
  forward_unavailable, mutation_limit, history_limit, WorkspaceEffect, reversible, unsupported,
  WorkspaceMutation, WorkspaceMutationInput, CanonicalWorkspaceMutation,
}
use deepseek_harness_communi.Rewind.Points.{RewindError, RewindPoint}
use deepseek_harness_communi.Rewind.Timeline.{
  RewindTimeline, applied, is_point_of, timeline_bytes, push_at,
}
use deepseek_harness_communi.Rewind.Journal.{RewindJournal, Outcome, is_owner, timeline_for_owner}

unfoldable pub point_for : RewindJournal → String → ℕ → Option RewindPoint
point_for j session_id turn = elim (timeline_for_owner j session_id) [
  | none ↦ none
  | some t ↦ find (is_point_of session_id turn) (applied t)
]

unfoldable pub owns_turn : RewindJournal → String → ℕ → Bool
owns_turn j session_id turn = is_some (point_for j session_id turn)

-- The effect that the journal keeps: an edit over one of the byte limits becomes unsupported.
unfoldable pub admitted : RewindJournal → RewindTimeline → WorkspaceEffect → WorkspaceEffect
admitted j t (unsupported reason) = unsupported reason
admitted j t (reversible before after bytes) =
    if ltb j.max_mutation_bytes bytes
    then unsupported (mutation_limit j.max_mutation_bytes)
    else if ltb j.max_session_bytes (timeline_bytes t + bytes)
    then unsupported (history_limit j.max_session_bytes)
    else reversible before after bytes

pub record RewindJournalMutationResult : Type 0 where
  pub recorded : Bool
  pub workspace_root : Option String

-- `touch` after the push, on the timeline of the point's workspace.
unfoldable pub touch : ℕ → String → List (String × RewindTimeline) → List (String × RewindTimeline)
touch now workspace_root timelines = elim (lookup workspace_root timelines) [
  | none ↦ timelines
  | some t ↦ insert workspace_root (record t { updated_at = now }) timelines
]

unfoldable pub attributed :
    ℕ
    → String
    → WorkspaceMutationInput
    → CanonicalWorkspaceMutation
    → WorkspaceEffect
    → WorkspaceMutation
attributed now id input canonical effect = record {
  source = record {
    id = id;
    source_session_id = input.session_id;
    source_turn = input.turn;
    call_id = input.call_id;
    root_call_id = input.root_call_id;
    order = input.order;
    absolute_path = canonical.absolute_path;
    created_at = now;
  };
  effect = effect;
}

-- `recordWorkspaceMutation` on the timeline and the point that the session and turn name.
unfoldable pub push_effect :
    RewindJournal
    → ℕ
    → String
    → WorkspaceMutationInput
    → CanonicalWorkspaceMutation
    → RewindTimeline
    → RewindPoint
    → RewindJournal
unfolding admitted touch attributed
push_effect j now id input canonical t point = record j {
  timelines =
      touch now point.workspace_root
        (modify_first (is_owner input.session_id) (λ en. (en.0, push en.1)) j.timelines);
}
  where
    mutation : WorkspaceMutation
    mutation = attributed now id input canonical (admitted j t canonical.effect)

    push : RewindTimeline → RewindTimeline
    push = push_at input.session_id input.turn mutation

unfoldable pub record_workspace_mutation :
    RewindJournal
    → ℕ
    → String
    → WorkspaceMutationInput
    → CanonicalWorkspaceMutation
    → RewindJournal × RewindJournalMutationResult
unfolding push_effect
record_workspace_mutation j now id input canonical = elim (timeline_for_owner j input.session_id) [
  | none ↦ (j, ignored)
  | some t ↦ elim (find (is_point_of input.session_id input.turn) (applied t)) [
    | none ↦ (j, ignored)
    | some point ↦
        if any (λ (m : WorkspaceMutation). m.call_id == input.call_id) point.workspace_mutations
        then (j, ignored)
        else (
          push_effect j now id input canonical t point,
          record { recorded = true; workspace_root = some point.workspace_root },
        )
  ]
]
  where
    ignored : RewindJournalMutationResult
    ignored = record { recorded = false; workspace_root = none }

unfoldable pub active_points : RewindJournal → String → List RewindPoint
active_points j session_id = elim (timeline_for_owner j session_id) [
  | none ↦ []
  | some t ↦ applied t
]

pub record RewindEffectSelection : Type 0 where
  pub code_scope : RewindCodeScope
  pub code_reason : Option String
  pub lineage_id : Option String
  pub workspace_root : Option String
  pub workspace_mutations : List WorkspaceMutation

abbrev pub forward_reason : String
forward_reason =
    "The code checkpoint is ahead of the current Rewind cursor; forward code restore is not available yet."

abbrev pub no_effects_reason : String
no_effects_reason = "No source-attributed code effects are retained for this checkpoint."

-- The mutations of the applied points from the selected one on, by their order.
unfoldable pub mutations_from : ℕ → RewindTimeline → List WorkspaceMutation
mutations_from index t =
    sort_by (λ (m : WorkspaceMutation). m.order)
      (flat_map (λ (p : RewindPoint). p.workspace_mutations) (drop index (applied t)))

unfoldable pub select_at : RewindTimeline → Option ℕ → RewindEffectSelection
unfolding mutations_from
select_at t none = record {
  code_scope = nothing;
  code_reason = none;
  lineage_id = some t.lineage_id;
  workspace_root = some t.workspace_root;
  workspace_mutations = [];
}
select_at t (some index) =
    if leb t.cursor index
    then record {
      code_scope = forward_unavailable;
      code_reason = some forward_reason;
      lineage_id = some t.lineage_id;
      workspace_root = some t.workspace_root;
      workspace_mutations = [];
    }
    else if is_empty (mutations_from index t)
    then record {
      code_scope = nothing;
      code_reason = some no_effects_reason;
      lineage_id = some t.lineage_id;
      workspace_root = some t.workspace_root;
      workspace_mutations = mutations_from index t;
    }
    else record {
      code_scope = backward;
      code_reason = none;
      lineage_id = some t.lineage_id;
      workspace_root = some t.workspace_root;
      workspace_mutations = mutations_from index t;
    }

unfoldable pub is_point : String → RewindPoint → Bool
is_point point_id point = point.id == point_id

unfoldable pub select_effects : RewindJournal → String → String → RewindEffectSelection
unfolding select_at
select_effects j session_id point_id = elim (timeline_for_owner j session_id) [
  | none ↦ record {
    code_scope = nothing;
    code_reason = none;
    lineage_id = none;
    workspace_root = none;
    workspace_mutations = [];
  }
  | some t ↦ select_at t (find_index (is_point point_id) t.nodes)
]

unfoldable pub includes_conversation : RewindAction → Bool
includes_conversation code_only = false
includes_conversation _ = true

unfoldable pub includes_code : RewindAction → Bool
includes_code conversation_only = false
includes_code _ = true

-- The owner of the timeline after a commit, or the refusal of the target session.
unfoldable pub next_owner : RewindAction → String → Option String → String → Outcome String
next_owner code_only session_id none owner = ok owner
next_owner code_only session_id (some target) owner = err RewindError.replaces_session
next_owner _ session_id none owner = err RewindError.not_distinct_session
next_owner _ session_id (some target) owner =
    if target == session_id then err RewindError.not_distinct_session else ok target

-- The cursor after a commit: on the selected point, if it is applied and the code is restored.
unfoldable pub next_cursor : RewindAction → String → RewindTimeline → ℕ
unfolding includes_code
next_cursor action point_id t =
    if includes_code action
    then elim (find_index (is_point point_id) (applied t)) [ none ↦ t.cursor | some i ↦ i ]
    else t.cursor

unfoldable pub commit :
    RewindJournal
    → ℕ
    → String
    → String
    → RewindAction
    → Option String
    → Option String
    → Outcome (RewindJournal × Option String)
unfolding next_owner next_cursor
commit j now session_id point_id action target_session_id expected_lineage_id =
    elim (timeline_for_owner j session_id) [
      | none ↦ do throw_if (is_some expected_lineage_id) RewindError.lineage_changed; ok (j, none)
      | some t ↦ do
        throw_if (is_some expected_lineage_id && not (some t.lineage_id == expected_lineage_id))
            RewindError.lineage_changed
        owner ← next_owner action session_id target_session_id t.owner_session_id
        ok (
          record j {
            timelines =
                modify_first (is_owner session_id)
                  (λ en. (
                    en.0,
                    record (en.1) {
                      owner_session_id = owner;
                      cursor = next_cursor action point_id (en.1);
                      updated_at = now;
                    },
                  ))
                  j.timelines;
          },
          some t.workspace_root,
        )
    ]
