-- ===== src/Execution/Reducer/Open.antt =====
-- The indices of the reducer agree with its nodes: what is open, and whose child it is.
use deepseek_harness_communi.Prelude.{
  ℕ, ◌≡◌, refl, Bool, true, false, not, ◌&&◌, ◌||◌, inl, inr, Option, none, some, List, [], ◌∷◌,
  ◌++◌, String, is_some, is_empty, Option-cases, ◌==◌, string_eq, option_eq, ==_iff, arith,
  any-append,
}
use deepseek_harness_communi.Prelude.Table.{lookup, insert, lookup-insert, lookup-remove}
use deepseek_harness_communi.Execution.Types.{ExecutionNode, ExecutionDiagnosticCode}
use deepseek_harness_communi.Execution.Reducer.{
  ExecutionReducer, member, set_add, set_delete, or_empty, is_settled, add, add_child, delete_child,
  diagnose, diagnose_missing_parent,
}

abbrev pub is_open : Option ExecutionNode → Bool
is_open none = false
is_open (some node) = not (is_settled node.state)

abbrev pub is_open_child : String → Option ExecutionNode → Bool
is_open_child parent none = false
is_open_child parent (some node) = not (is_settled node.state) && node.parent_key == some parent

abbrev pub has_key : String → Option ExecutionNode → Bool
has_key key none = true
has_key key (some node) = node.key == key

pub record IsValid (r : ExecutionReducer) : Type 0 where
  pub keyed : (k : String) → has_key k (lookup k r.nodes) ≡ true
  pub ordered : (k : String) → member k r.order ≡ is_some (lookup k r.nodes)
  pub opened : (k : String) → member k r.open_keys ≡ is_open (lookup k r.nodes)
  pub children :
      (p k : String)
      → member k (or_empty (lookup p r.open_by_parent)) ≡ is_open_child p (lookup k r.nodes)

pub member-append :
    (j : String) (ks ls : List String) → member j (ks ++ ls) ≡ (member j ks || member j ls)
member-append j ks ls = any-append (λ k. k == j) ks ls

pub member-set_add :
    (j k : String) (ks : List String) → member j (set_add k ks) ≡ (k == j || member j ks)
unfolding set_add
member-set_add j k ks = ground (arith, member-append j ks (k ∷ []), ==_iff {A = String} k j)

pub member-set_delete :
    (j k : String) (ks : List String) → member j (set_delete k ks) ≡ (not (k == j) && member j ks)
unfolding set_delete
member-set_delete j k [] = ground arith
member-set_delete j k (i ∷ ks) = ground (
  arith,
  member-set_delete j k ks,
  ==_iff {A = String} i k,
  ==_iff {A = String} i j,
  ==_iff {A = String} k j,
)

is_empty-member : (j : String) (ks : List String) → is_empty ks ≡ true → member j ks ≡ false
is_empty-member j [] h = refl
is_empty-member j (k ∷ ks) h = ground arith

pub add_child-children :
    (p k : String) (parent : Option String) (key : String) (table : List (String × List String))
    → member k (or_empty (lookup p (add_child parent key table)))
      ≡ ((parent == some p && key == k) || member k (or_empty (lookup p table)))
unfolding add_child
add_child-children p k none key table = ground arith
add_child-children p k (some parent) key table = ground (
  arith,
  lookup-insert parent p (set_add key (or_empty (lookup parent table))) table,
  member-set_add k key (or_empty (lookup parent table)),
  ==_iff {A = String} parent p,
)

pub delete_child-children :
    (p k : String) (parent : Option String) (key : String) (table : List (String × List String))
    → member k (or_empty (lookup p (delete_child parent key table)))
      ≡ (not (parent == some p && key == k) && member k (or_empty (lookup p table)))
unfolding delete_child
delete_child-children p k none key table = ground arith
delete_child-children p k (some parent) key table = elim (Option-cases (lookup parent table)) [
  | inl missing ↦ ground (arith, missing, ==_iff {A = String} parent p)
  | inr (siblings, found) ↦ ground (
    arith,
    found,
    ==_iff {A = String} parent p,
    lookup-insert parent p (set_delete key siblings) table,
    lookup-remove parent p table,
    member-set_delete k key siblings,
    is_empty-member k (set_delete key siblings),
  )
]

-- Diagnostics touch no node.
module _ (text : ℕ → String) where
  pub diagnose-nodes :
      (r : ExecutionReducer) (code : ExecutionDiagnosticCode) (message : String)
      (key : Option String) (seq : Option ℕ)
      → (diagnose text r code message key seq).nodes ≡ r.nodes
  unfolding diagnose
  diagnose-nodes r code message key seq = ground arith

  pub diagnose_missing_parent-nodes :
      (r : ExecutionReducer) (parent : Option String) (key : String) (seq : Option ℕ)
      → (diagnose_missing_parent text r parent key seq).nodes ≡ r.nodes
  unfolding diagnose_missing_parent diagnose
  diagnose_missing_parent-nodes r none key seq = refl
  diagnose_missing_parent-nodes r (some parent) key seq = ground arith

pub add-nodes :
    (r : ExecutionReducer) (node : ExecutionNode)
    → (add r node).nodes ≡ insert node.key node r.nodes
unfolding add
add-nodes r node = ground arith
