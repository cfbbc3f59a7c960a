-- ===== src/Execution/Reducer/Views.antt =====
-- What the readers of the reducer return: the open nodes, the open children, the ordered nodes.
use deepseek_harness_communi.Prelude.{
  ℕ, ◌≡◌, refl, true, ◌&&◌, inl, inr, List, [], ◌∷◌, String, is_some, map, Option-cases, string_eq,
  ==_iff, ==_refl, sym, ◌∙◌, arith,
}
use deepseek_harness_communi.Prelude.Table.{lookup}
use deepseek_harness_communi.Execution.Types.{ExecutionNode}
use deepseek_harness_communi.Execution.Reducer.{
  member, or_empty, nodes_of, open_nodes, open_children, result, run, Call, empty,
}
use deepseek_harness_communi.Execution.Reducer.Open.{has_key, is_open, is_open_child}
use deepseek_harness_communi.Execution.Reducer.Indices.{run-empty-IsValid}
use deepseek_harness_communi.Execution.Reducer.Arrival.{call_keys, first_arrivals, order-run}

abbrev pub keys : List ExecutionNode → List String
keys nodes = map (λ (n : ExecutionNode). n.key) nodes

member-nodes_of :
    (nodes : List (String × ExecutionNode)) (ks : List String) (k : String)
    → ((j : String) → has_key j (lookup j nodes) ≡ true)
    → member k (keys (nodes_of nodes ks)) ≡ (member k ks && is_some (lookup k nodes))
unfolding nodes_of
member-nodes_of nodes [] k h = refl
member-nodes_of nodes (j ∷ ks) k h = elim (Option-cases (lookup j nodes)) [
  | inl missing ↦
      rw (missing, nodes_of)
        (ground (arith, missing, member-nodes_of nodes ks k h, ==_iff {A = String} j k))
  | inr (node, found) ↦
      rw (found, nodes_of)
        (ground (
          arith,
          found,
          h j,
          member-nodes_of nodes ks k h,
          ==_iff {A = String} j k,
          ==_iff {A = String} node.key j,
          ==_iff {A = String} node.key k,
        ))
]

-- After any calls the open nodes are those under a key whose node is not settled, and the open
-- children of a key are those of them that have it as their parent.
pub open_nodes-run :
    (text : ℕ → String) (cs : List Call) (p k : String)
    → let r = run text empty cs in
      (member k (keys (open_nodes r)) ≡ is_open (lookup k r.nodes))
      × (member k (keys (open_children r p)) ≡ is_open_child p (lookup k r.nodes))
unfolding open_nodes open_children
open_nodes-run text cs p k =
    let r = run text empty cs in
    let v = run-empty-IsValid text cs in
    (
      ground (arith, member-nodes_of r.nodes r.open_keys k v.keyed, v.opened k),
      ground (
        arith,
        member-nodes_of r.nodes (or_empty (lookup p r.open_by_parent)) k v.keyed,
        v.children p k,
      ),
    )

keys-nodes_of :
    (nodes : List (String × ExecutionNode)) (ks : List String)
    → ((j : String) → has_key j (lookup j nodes) ≡ true)
    → ((j : String) → member j ks ≡ true → is_some (lookup j nodes) ≡ true)
    → keys (nodes_of nodes ks) ≡ ks
unfolding nodes_of
keys-nodes_of nodes [] h known = refl
keys-nodes_of nodes (j ∷ ks) h known = elim (Option-cases (lookup j nodes)) [
  | inl missing ↦
      let present : is_some (lookup j nodes) ≡ true =
        known j (ground (arith, ==_refl {A = String} j)) in
      ground (arith, missing, present)
  | inr (node, found) ↦
      let rest = keys-nodes_of nodes ks h (λ i e. known i (ground (arith, e))) in
      let here : node.key ≡ j = ground (arith, found, h j, ==_iff {A = String} node.key j) in
      rw (found, nodes_of, here, rest) refl
]

-- After any calls the result lists one node for each key that a declaration, a start or a settlement
-- named, in the order in which calls first named the keys.
pub result-run :
    (text : ℕ → String) (cs : List Call)
    → keys (result (run text empty cs)).0 ≡ first_arrivals (call_keys cs)
unfolding result
result-run text cs =
    let r = run text empty cs in
    let v = run-empty-IsValid text cs in
    keys-nodes_of r.nodes r.order v.keyed (λ j e. sym (v.ordered j) ∙ e) ∙ order-run text cs
