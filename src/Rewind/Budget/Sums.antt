-- ===== src/Rewind/Budget/Sums.antt =====
-- The bytes of a timeline as its nodes change.
use deepseek_harness_communi.Prelude.{
  ℕ, zero, suc, ◌≡◌, ◌≤◌, ◌+◌, ◌-◌, refl, inl, inr, String, Bool, List, [], ◌∷◌, ◌++◌, string_eq,
  option_eq, length, take, drop, slice_last, map, modify_first, Bool-cases, arith,
}
use deepseek_harness_communi.Rewind.Contracts.{
  RewindPointInput, WorkspaceEffect, WorkspaceMutation, reversible, unsupported,
}
use deepseek_harness_communi.Rewind.Points.{RewindPoint, new_point}
use deepseek_harness_communi.Rewind.Timeline.{
  RewindTimeline, timeline, trim, append, applied, is_point_of, push_at, push_mutation,
  effect_bytes, mutations_bytes, nodes_bytes, timeline_bytes,
}
use deepseek_harness_communi.Rewind.Journal.{RewindJournal}
use deepseek_harness_communi.Rewind.Effects.{admitted}

pub mutations_bytes-append :
    (xs ys : List WorkspaceMutation)
    → mutations_bytes (xs ++ ys) ≡ mutations_bytes xs + mutations_bytes ys
unfolding mutations_bytes
mutations_bytes-append [] ys = omega arith
mutations_bytes-append (m ∷ xs) ys = omega (arith, mutations_bytes-append xs ys)

pub nodes_bytes-append :
    (xs ys : List RewindPoint) → nodes_bytes (xs ++ ys) ≡ nodes_bytes xs + nodes_bytes ys
unfolding nodes_bytes
nodes_bytes-append [] ys = omega arith
nodes_bytes-append (p ∷ xs) ys = omega (arith, nodes_bytes-append xs ys)

pub nodes_bytes-split :
    (n : ℕ) (xs : List RewindPoint)
    → nodes_bytes (take n xs) + nodes_bytes (drop n xs) ≡ nodes_bytes xs
unfolding nodes_bytes
nodes_bytes-split zero xs = omega arith
nodes_bytes-split (suc n) [] = omega arith
nodes_bytes-split (suc n) (x ∷ xs) = omega (arith, nodes_bytes-split n xs)

pub nodes_bytes-new_points :
    (points : List RewindPointInput) → nodes_bytes (map new_point points) ≡ 0
unfolding nodes_bytes mutations_bytes new_point
nodes_bytes-new_points [] = refl
nodes_bytes-new_points (p ∷ points) = omega (arith, nodes_bytes-new_points points)

pub nodes_bytes-push :
    (p : RewindPoint → Bool) (m : WorkspaceMutation) (xs : List RewindPoint)
    → nodes_bytes (modify_first p (push_mutation m) xs) ≤ nodes_bytes xs + effect_bytes m.effect
unfolding nodes_bytes modify_first push_mutation
nodes_bytes-push p m [] = omega arith
nodes_bytes-push p m (x ∷ xs) = elim (Bool-cases (p x)) [
  | inl here ↦ rw here (
      unfold mutations_bytes in
      omega (arith, mutations_bytes-append x.workspace_mutations (m ∷ [])))
  | inr later ↦ rw later (omega (arith, nodes_bytes-push p m xs))
]

pub timeline_bytes-push_at :
    (session_id : String) (turn : ℕ) (m : WorkspaceMutation) (t : RewindTimeline)
    → timeline_bytes (push_at session_id turn m t) ≤ timeline_bytes t + effect_bytes m.effect
unfolding timeline_bytes push_at applied
timeline_bytes-push_at session_id turn m t = omega (
  arith,
  nodes_bytes-append
      (modify_first (is_point_of session_id turn) (push_mutation m) (take t.cursor t.nodes))
      (drop t.cursor t.nodes),
  nodes_bytes-push (is_point_of session_id turn) m (take t.cursor t.nodes),
  nodes_bytes-split t.cursor t.nodes,
)

pub admitted_fits :
    (j : RewindJournal) (t : RewindTimeline) (e : WorkspaceEffect)
    → timeline_bytes t ≤ j.max_session_bytes
    → timeline_bytes t + effect_bytes (admitted j t e) ≤ j.max_session_bytes
unfolding admitted effect_bytes
admitted_fits j t (unsupported reason) h = omega arith
admitted_fits j t (reversible before now bytes) h = ground arith

pub timeline_bytes-trim :
    (history : ℕ) (t : RewindTimeline) → timeline_bytes (trim history t) ≤ timeline_bytes t
unfolding timeline_bytes trim
timeline_bytes-trim history t = omega (arith, nodes_bytes-split (length t.nodes - history) t.nodes)

pub timeline_bytes-append :
    (history now : ℕ) (t : RewindTimeline) (input : RewindPointInput)
    → timeline_bytes (append history now t input) ≤ timeline_bytes t
unfolding append
timeline_bytes-append history now t input =
    let pushed : RewindTimeline = record t {
      nodes = t.nodes ++ new_point input ∷ [];
      cursor = length (t.nodes ++ new_point input ∷ []);
      updated_at = now;
    } in
    unfold timeline_bytes nodes_bytes mutations_bytes new_point in
    omega
      (arith, timeline_bytes-trim history pushed, nodes_bytes-append t.nodes (new_point input ∷ []))

pub timeline_bytes-timeline :
    (history now : ℕ) (lineage_id session_id root : String) (points : List RewindPointInput)
    → timeline_bytes (timeline history lineage_id now session_id root points) ≡ 0
unfolding timeline timeline_bytes
timeline_bytes-timeline history now lineage_id session_id root points =
    nodes_bytes-new_points (slice_last history points)

pub timeline_bytes-rewound :
    (t : RewindTimeline)
    → timeline_bytes (record t { nodes = take t.cursor t.nodes }) ≤ timeline_bytes t
unfolding timeline_bytes
timeline_bytes-rewound t = omega (arith, nodes_bytes-split t.cursor t.nodes)
