-- ===== src/Rewind/Tests.antt =====
-- Runs of the journal at concrete inputs.
use deepseek_harness_communi.Prelude.{
  ℕ, ◌≡◌, refl, String, true, List, [], ◌∷◌, ◌++◌, none, some, All, arith, modify_first, map,
  string_eq, slice_last, last?,
}
use deepseek_harness_communi.Prelude.Table.{insert, lookup}
use deepseek_harness_communi.Prelude.Text.{is_blank}
use deepseek_harness_communi.Prelude.Sort.{sort_by, IsSortedBy}
use mathlib.Core.List.{Perm, flat_map}
use deepseek_harness_communi.Prelude.Result.{ok, ◌>>=◌, ◌>>◌, throw_if, Ensures}
use deepseek_harness_communi.Rewind.Contracts.{
  RewindPointInput, code_only, backward, forward_unavailable, reversible, WorkspaceMutation,
  WorkspaceMutationInput, CanonicalWorkspaceMutation,
}
use deepseek_harness_communi.Rewind.Points.{
  RewindPoint, validate_point, is_positive, is_boundary, validate_attachments, new_point,
}
use deepseek_harness_communi.Rewind.Timeline.{
  RewindTimeline, timeline, append, applied, latest_turn, push_at, is_point_of, timeline_bytes,
  nodes_bytes, mutations_bytes,
}
use deepseek_harness_communi.Rewind.Journal.{
  RewindJournalLimits, RewindJournal, create, record_point, record_in, timeline_for_owner, is_owner,
}
use deepseek_harness_communi.Rewind.Effects.{
  record_workspace_mutation, active_points, select_effects, is_point, mutations_from, commit,
  push_effect, touch, attributed, admitted,
}
use deepseek_harness_communi.Rewind.Invariant.{IsValid}
use deepseek_harness_communi.Rewind.Calls.{Call, records_point, records_mutation, run, step}
use deepseek_harness_communi.Rewind.Shape.{run-create-IsValid}
use deepseek_harness_communi.Rewind.Budget.Operations.{Within}
use deepseek_harness_communi.Rewind.Bytes.{run-IsWithinBytes}
use deepseek_harness_communi.Rewind.Selection.{effects_of, commit-select_effects}
use deepseek_harness_communi.Rewind.Recording.{Recorded, record_point-Recorded}

abbrev limits : RewindJournalLimits
limits = record { history = 2; max_mutation_bytes = 10; max_session_bytes = 15 }

abbrev journal : RewindJournal
journal = record { limits = limits; timelines = [] }

created : create limits ≡ ok journal
unfolding create is_positive ◌>>◌ ◌>>=◌ throw_if
created = refl

abbrev prompt : String → ℕ → RewindPointInput
prompt id turn = record {
  point_id = id;
  session_id = "s1";
  turn = turn;
  workspace_root = "/w";
  input = record { text = "edit"; attachments = [] };
  prompt_seq = turn;
  created_at = 5;
  previous_turn_end_seq = none;
}

abbrev edit : ℕ → WorkspaceMutationInput
edit turn = record {
  session_id = "s1";
  turn = turn;
  call_id = "c";
  root_call_id = "c";
  order = turn;
}

abbrev written : CanonicalWorkspaceMutation
written = record { absolute_path = "/w/a"; effect = reversible none "abc" 3 }

abbrev calls : List Call
calls =
    records_point 1 "l" (prompt "a" 1)
    ∷ records_mutation 2 "m1" (edit 1) written
    ∷ records_point 3 "l" (prompt "b" 2)
    ∷ records_mutation 4 "m2" (edit 2) written
    ∷ []

abbrev first_timeline : RewindTimeline
first_timeline = record {
  lineage_id = "l";
  workspace_root = "/w";
  owner_session_id = "s1";
  cursor = 1;
  updated_at = 1;
  nodes = new_point (prompt "a" 1) ∷ [];
}

recorded_first :
    record_point journal 1 "l" (prompt "a" 1)
    ≡ ok (
      record journal { timelines = ("/w", first_timeline) ∷ [] },
      record { changed = true; durable = true; workspace_root = "/w" },
    )
unfolding record_point validate_point is_blank is_positive is_boundary validate_attachments ◌>>◌
    ◌>>=◌ throw_if lookup insert timeline slice_last
recorded_first = refl

run-create-IsValid_example : IsValid (run journal calls)
run-create-IsValid_example = run-create-IsValid limits journal calls created

run-IsWithinBytes_example : All (Within 15) (run journal calls).timelines
run-IsWithinBytes_example = run-IsWithinBytes journal calls (omega arith) (omega arith)

record_point-Recorded_example :
    Ensures (Recorded journal (prompt "a" 1)) (record_point journal 1 "l" (prompt "a" 1))
record_point-Recorded_example = record_point-Recorded journal 1 "l" (prompt "a" 1) (omega arith)

-- Two applied checkpoints, the second with one edit.
abbrev edited : WorkspaceMutation
edited = record {
  source = record {
    id = "m2";
    source_session_id = "s1";
    source_turn = 2;
    call_id = "c";
    root_call_id = "c";
    order = 2;
    absolute_path = "/w/a";
    created_at = 4;
  };
  effect = reversible none "abc" 3;
}

abbrev two : RewindTimeline
two = record first_timeline {
  cursor = 2;
  nodes =
      new_point (prompt "a" 1)
      ∷ record (new_point (prompt "b" 2)) { workspace_mutations = edited ∷ [] }
      ∷ [];
}

abbrev held : RewindJournal
held = record journal { timelines = ("/w", two) ∷ [] }

commit-select_effects_example :
    (j' : RewindJournal) × (retired : List RewindPoint) × (commit held 9 "s1" "b" code_only none
        (some "l")
      ≡ ok (j', some "/w"))
    × (active_points held "s1" ≡ active_points j' "s1" ++ retired)
    × Perm (select_effects held "s1" "b").workspace_mutations (effects_of retired)
    × IsSortedBy
        (λ (m : WorkspaceMutation). m.order)
        (select_effects held "s1" "b").workspace_mutations
    × ((select_effects j' "s1" "b").code_scope ≡ forward_unavailable)
commit-select_effects_example = commit-select_effects held 9 "s1" "b" two owned backward_scope
  where
    owned : timeline_for_owner held "s1" ≡ some two
    owned = unfold timeline_for_owner is_owner in refl

    backward_scope : (select_effects held "s1" "b").code_scope ≡ backward
    backward_scope =
        unfold select_effects timeline_for_owner is_owner is_point mutations_from sort_by applied
          new_point flat_map in
        refl

-- Four calls leave two checkpoints with 6 bytes of reversible contents.
two_edits :
    map timeline_bytes (map (λ (en : String × RewindTimeline). en.1) (run journal calls).timelines)
    ≡ 6 ∷ []
unfolding run step record_point validate_point is_blank is_positive is_boundary validate_attachments
    ◌>>◌ ◌>>=◌ throw_if lookup insert timeline slice_last record_in append latest_turn
    record_workspace_mutation timeline_for_owner is_owner is_point_of push_effect modify_first
    push_at touch timeline_bytes new_point nodes_bytes attributed admitted applied last?
    mutations_bytes
two_edits = refl
