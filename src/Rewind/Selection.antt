-- ===== src/Rewind/Selection.antt =====
-- `selectEffects` and `commit` agree: what a plan was selected to undo is what the commit retires.
use deepseek_harness_communi.Prelude.{
  ℕ, ◌≡◌, ◌<◌, ◌≤◌, refl, sym, ◌∙◌, ap, inl, inr, String, true, List, ◌++◌, Option, none, some, leb,
  find_index, find-holds, find_index-take, find-modify_first, ==_refl, option_eq, string_eq, take,
  drop, take-append-drop, take-take, modify_first, Bool-cases, arith,
}
use mathlib.Core.List.{flat_map, Perm}
use deepseek_harness_communi.Prelude.Sort.{sort_by-perm, sort_by-IsSortedBy, IsSortedBy}
use deepseek_harness_communi.Prelude.Result.{ok, ◌>>=◌, ◌>>◌, throw_if}
use deepseek_harness_communi.Rewind.Contracts.{
  code_only, backward, forward_unavailable, WorkspaceMutation,
}
use deepseek_harness_communi.Rewind.Points.{RewindPoint}
use deepseek_harness_communi.Rewind.Timeline.{RewindTimeline, applied}
use deepseek_harness_communi.Rewind.Journal.{RewindJournal, is_owner, timeline_for_owner}
use deepseek_harness_communi.Rewind.Effects.{
  active_points, RewindEffectSelection, mutations_from, select_at, is_point, select_effects,
  next_owner, next_cursor, includes_code, commit,
}
use deepseek_harness_communi.Rewind.Calls.{timeline_for_owner-found}

-- The mutations of checkpoints, in their order along the timeline.
abbrev pub effects_of : List RewindPoint → List WorkspaceMutation
effects_of = flat_map (λ (p : RewindPoint). p.workspace_mutations)

-- The selected index of a backward selection is that of an applied checkpoint.
backward_index :
    (t : RewindTimeline) (found : Option ℕ)
    → (select_at t found).code_scope ≡ backward
    → (i : ℕ) × (found ≡ some i)
      × (i < t.cursor)
      × ((select_at t found).workspace_mutations ≡ mutations_from i t)
unfolding select_at
backward_index t none h = cc
backward_index t (some i) h = elim (Bool-cases (leb t.cursor i)) [
  | inl ahead ↦ let forward : forward_unavailable ≡ backward = rw (ahead, select_at) at h in cc
  | inr within ↦ (i, refl, ground arith, ground arith)
]

select_effects-owned :
    (j : RewindJournal) (session_id point_id : String) (t : RewindTimeline)
    → timeline_for_owner j session_id ≡ some t
    → select_effects j session_id point_id ≡ select_at t (find_index (is_point point_id) t.nodes)
unfolding select_effects
select_effects-owned j session_id point_id t owned = rw (owned, select_effects)

active_points-owned :
    (j : RewindJournal) (session_id : String) (t : RewindTimeline)
    → timeline_for_owner j session_id ≡ some t
    → active_points j session_id ≡ applied t
unfolding active_points
active_points-owned j session_id t owned = rw (owned, active_points)

-- The timeline that a code-only commit leaves.
abbrev rewound : ℕ → String → RewindTimeline → RewindTimeline
rewound now point_id t = record t { cursor = next_cursor code_only point_id t; updated_at = now }

committed : ℕ → String → String → RewindTimeline → RewindJournal → RewindJournal
committed now session_id point_id t j = record j {
  timelines =
      modify_first (is_owner session_id)
        (λ en. (
          en.0,
          record (en.1) {
            owner_session_id = t.owner_session_id;
            cursor = next_cursor code_only point_id (en.1);
            updated_at = now;
          },
        ))
        j.timelines;
}

commit-code_only :
    (j : RewindJournal) (now : ℕ) (session_id point_id : String) (t : RewindTimeline)
    → timeline_for_owner j session_id ≡ some t
    → commit j now session_id point_id code_only none (some t.lineage_id)
      ≡ ok (committed now session_id point_id t j, some t.workspace_root)
unfolding commit next_owner committed ◌>>=◌ ◌>>◌ throw_if
commit-code_only j now session_id point_id t owned = rw (owned, commit) (rw (==_refl t.lineage_id))

still_owned :
    (session_id k : String) (t : RewindTimeline) (now : ℕ) (point_id : String)
    → is_owner session_id (k, t) ≡ true
    → is_owner session_id (k, rewound now point_id t) ≡ true
unfolding is_owner
still_owned session_id k t now point_id h = h

committed-owner :
    (j : RewindJournal) (now : ℕ) (session_id point_id : String) (t : RewindTimeline)
    → timeline_for_owner j session_id ≡ some t
    → timeline_for_owner (committed now session_id point_id t j) session_id
      ≡ some (rewound now point_id t)
unfolding committed timeline_for_owner
committed-owner j now session_id point_id t owned =
    let (k, found) = timeline_for_owner-found j session_id t owned in
    let kept : is_owner session_id (k, rewound now point_id t) ≡ true =
      still_owned session_id k t now point_id
        (find-holds (is_owner session_id) j.timelines (k, t) found) in
    rw (
      find-modify_first (is_owner session_id)
          (λ en. (
            en.0,
            record (en.1) {
              owner_session_id = t.owner_session_id;
              cursor = next_cursor code_only point_id (en.1);
              updated_at = now;
            },
          ))
          j.timelines (k, t) found kept,
      timeline_for_owner,
    )

next_cursor-found :
    (point_id : String) (t : RewindTimeline) (i : ℕ)
    → find_index (is_point point_id) t.nodes ≡ some i
    → i < t.cursor
    → next_cursor code_only point_id t ≡ i
unfolding next_cursor applied includes_code
next_cursor-found point_id t i found h =
    rw (find_index-take (is_point point_id) t.cursor t.nodes i found h, next_cursor)

select_at-ahead :
    (t : RewindTimeline) (i : ℕ)
    → t.cursor ≤ i
    → (select_at t (some i)).code_scope ≡ forward_unavailable
unfolding select_at
select_at-ahead t i h = ground arith

applied_split :
    (now : ℕ) (point_id : String) (t : RewindTimeline) (i : ℕ)
    → next_cursor code_only point_id t ≡ i
    → i < t.cursor
    → applied t ≡ applied (rewound now point_id t) ++ drop i (applied t)
unfolding applied
applied_split now point_id t i cursor' h =
    rw (cursor', ← take-take i t.cursor t.nodes (omega arith))
      (sym (take-append-drop i (take t.cursor t.nodes)))

-- After a backward selection, a code-only commit of the same point on the same lineage succeeds,
-- keeps the checkpoints before the point active and retires the others; the selected mutations are
-- exactly those of the retired checkpoints, sorted by their order; and the point cannot be
-- selected backward again.
pub commit-select_effects :
    (j : RewindJournal) (now : ℕ) (session_id point_id : String) (t : RewindTimeline)
    → timeline_for_owner j session_id ≡ some t
    → (select_effects j session_id point_id).code_scope ≡ backward
    → (j' : RewindJournal) × (retired : List RewindPoint) × (commit j now session_id point_id
          code_only none
          (some t.lineage_id)
        ≡ ok (j', some t.workspace_root))
      × (active_points j session_id ≡ active_points j' session_id ++ retired)
      × Perm (select_effects j session_id point_id).workspace_mutations (effects_of retired)
      × IsSortedBy
          (λ (m : WorkspaceMutation). m.order)
          (select_effects j session_id point_id).workspace_mutations
      × ((select_effects j' session_id point_id).code_scope ≡ forward_unavailable)
commit-select_effects j now session_id point_id t owned scope =
    let selected = select_effects-owned j session_id point_id t owned in
    let (i, found, within, muts) =
      backward_index t (find_index (is_point point_id) t.nodes)
        (ap (λ (s : RewindEffectSelection). s.code_scope) (sym selected) ∙ scope) in
    let same = ap (λ (s : RewindEffectSelection). s.workspace_mutations) selected ∙ muts in
    let j' = committed now session_id point_id t j in
    let owned' = committed-owner j now session_id point_id t owned in
    let cursor' = next_cursor-found point_id t i found within in
    (
      j',
      drop i (applied t),
      commit-code_only j now session_id point_id t owned,
      rw (active_points-owned j session_id t owned, active_points-owned j' session_id _ owned')
          (applied_split now point_id t i cursor' within),
      rw same (unfold mutations_from in sort_by-perm (λ (m : WorkspaceMutation). m.order) _),
      rw same (unfold mutations_from in sort_by-IsSortedBy (λ (m : WorkspaceMutation). m.order) _),
      rw (select_effects-owned j' session_id point_id _ owned', found)
          (select_at-ahead (rewound now point_id t) i (omega arith)),
    )
