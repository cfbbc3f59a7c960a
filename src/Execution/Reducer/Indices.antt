-- ===== src/Execution/Reducer/Indices.antt =====
-- Every method keeps the indices of the reducer in agreement with its nodes.
use deepseek_harness_communi.Prelude.{
  ℕ, ◌≡◌, refl, true, false, not, ◌||◌, inl, inr, Option, none, some, List, [], ◌∷◌, String,
  if◌then◌else◌, is_some, Bool-cases, leb, length, Option-cases, ◌==◌, string_eq, option_eq, ==_iff,
  arith,
}
use deepseek_harness_communi.Prelude.Table.{lookup, lookup-insert}
use deepseek_harness_communi.Execution.Types.{
  ExecutionOutcome, ExecutionBoundary, ExecutionError, Durability, ExecutionKind, ExecutionState,
  ExecutionNode, running, ExecutionDiagnosticCode,
}
use deepseek_harness_communi.Execution.Reducer.{
  declare, start, settle, seq_of, is_pending, differs, same_identity, diagnostic_key,
  execution_diagnostic_limit, Call, declares, starts, settles, diagnoses, step, run,
  ExecutionReducer, empty, member, is_settled, add, close, set_state, diagnose,
  diagnose_missing_parent,
}
use deepseek_harness_communi.Execution.Reducer.Open.{
  diagnose_missing_parent-nodes, IsValid, member-append, member-set_add, member-set_delete,
  add_child-children, delete_child-children,
}

add-IsValid :
    (r : ExecutionReducer) (node : ExecutionNode)
    → lookup node.key r.nodes ≡ none
    → IsValid r
    → IsValid (add r node)
unfolding add
add-IsValid r node new v = elim (Bool-cases (is_settled node.state)) [
  | inl over ↦ rw over (record {
    keyed = λ k.
        ground
          (arith, v.keyed k, lookup-insert node.key k node r.nodes, ==_iff {A = String} node.key k);
    ordered = λ k. ground (
      arith,
      v.ordered k,
      lookup-insert node.key k node r.nodes,
      member-append k r.order (node.key ∷ []),
    );
    opened = λ k. ground (
      arith,
      over,
      new,
      v.opened k,
      lookup-insert node.key k node r.nodes,
      ==_iff {A = String} node.key k,
    );
    children = λ p k. ground (
      arith,
      over,
      new,
      v.children p k,
      lookup-insert node.key k node r.nodes,
      ==_iff {A = String} node.key k,
    );
  })
  | inr live ↦ rw live (record {
    keyed = λ k.
        ground
          (arith, v.keyed k, lookup-insert node.key k node r.nodes, ==_iff {A = String} node.key k);
    ordered = λ k. ground (
      arith,
      v.ordered k,
      lookup-insert node.key k node r.nodes,
      member-append k r.order (node.key ∷ []),
    );
    opened = λ k. ground (
      arith,
      live,
      new,
      v.opened k,
      lookup-insert node.key k node r.nodes,
      member-set_add k node.key r.open_keys,
      ==_iff {A = String} node.key k,
    );
    children = λ p k. ground (
      arith,
      live,
      new,
      v.children p k,
      lookup-insert node.key k node r.nodes,
      add_child-children p k node.parent_key node.key r.open_by_parent,
      ==_iff {A = String} node.key k,
    );
  })
]

set_state-nodes :
    (r : ExecutionReducer) (key k : String) (current : ExecutionNode) (state : ExecutionState)
    → lookup k (set_state r key current state).nodes
      ≡ (if key == k then some (record current { state = state }) else lookup k r.nodes)
unfolding set_state
set_state-nodes r key k current state =
    lookup-insert key k (record current { state = state }) r.nodes

pending_not_settled : (state : ExecutionState) → is_pending state ≡ true → is_settled state ≡ false
pending_not_settled state h = ground arith

-- A node that starts stays open.
restate-IsValid :
    (r : ExecutionReducer) (key : String) (current : ExecutionNode) (state : ExecutionState)
    → lookup key r.nodes ≡ some current
    → is_settled current.state ≡ false
    → is_settled state ≡ false
    → IsValid r
    → IsValid (set_state r key current state)
unfolding set_state
restate-IsValid r key current state found live still v = record {
  keyed = λ k.
      ground
        (arith, found, v.keyed k, set_state-nodes r key k current state, ==_iff {A = String} key k);
  ordered = λ k.
      ground (
        arith,
        found,
        v.ordered k,
        set_state-nodes r key k current state,
        ==_iff {A = String} key k,
      );
  opened = λ k.
      ground (
        arith,
        found,
        v.opened k,
        set_state-nodes r key k current state,
        ==_iff {A = String} key k,
      );
  children = λ p k. ground (
    arith,
    found,
    v.children p k,
    set_state-nodes r key k current state,
    ==_iff {A = String} key k,
  );
}

close-IsValid :
    (r : ExecutionReducer) (key : String) (current : ExecutionNode) (state : ExecutionState)
    → lookup key r.nodes ≡ some current
    → is_settled state ≡ true
    → IsValid r
    → IsValid (close (set_state r key current state) current)
unfolding close set_state
close-IsValid r key current state found over v = record {
  keyed = λ k.
      ground
        (arith, found, v.keyed k, set_state-nodes r key k current state, ==_iff {A = String} key k);
  ordered = λ k.
      ground (
        arith,
        found,
        v.ordered k,
        set_state-nodes r key k current state,
        ==_iff {A = String} key k,
      );
  opened = λ k. ground (
    arith,
    found,
    over,
    v.keyed key,
    v.opened k,
    set_state-nodes r key k current state,
    member-set_delete k current.key r.open_keys,
    ==_iff {A = String} key k,
    ==_iff {A = String} current.key key,
  );
  children = λ p k. ground (
    arith,
    found,
    over,
    v.keyed key,
    v.children p k,
    set_state-nodes r key k current state,
    delete_child-children p k current.parent_key current.key r.open_by_parent,
    ==_iff {A = String} key k,
    ==_iff {A = String} current.key key,
  );
}

module _ (number_text : ℕ → String) where
  diagnose-IsValid :
      (r : ExecutionReducer) (code : ExecutionDiagnosticCode) (message : String)
      (key : Option String) (seq : Option ℕ)
      → IsValid r
      → IsValid (diagnose number_text r code message key seq)
  unfolding diagnose
  diagnose-IsValid r code message key seq v =
      elim (Bool-cases (
        member (diagnostic_key number_text code message key seq) r.diagnostic_keys
        || leb execution_diagnostic_limit (length r.issues))) [
          | inl known ↦ rw known v
          | inr new ↦ rw new (record {
            keyed = v.keyed;
            ordered = v.ordered;
            opened = v.opened;
            children = v.children;
          })
        ]

  diagnose_missing_parent-IsValid :
      (r : ExecutionReducer) (parent : Option String) (key : String) (seq : Option ℕ)
      → IsValid r
      → IsValid (diagnose_missing_parent number_text r parent key seq)
  unfolding diagnose_missing_parent
  diagnose_missing_parent-IsValid r none key seq v = v
  diagnose_missing_parent-IsValid r (some parent) key seq v =
      elim (Bool-cases (not (is_some (lookup parent r.nodes)))) [
        | inl missing ↦ rw (missing, diagnose_missing_parent) (diagnose-IsValid r _ _ _ _ v)
        | inr present ↦ rw (present, diagnose_missing_parent) v
      ]

  -- A node under a new key, its missing parent reported.
  added-IsValid :
      (r : ExecutionReducer) (node : ExecutionNode) (parent : Option String) (seq : Option ℕ)
      → lookup node.key r.nodes ≡ none
      → IsValid r
      → IsValid (add (diagnose_missing_parent number_text r parent node.key seq) node)
  added-IsValid r node parent seq new v =
      add-IsValid (diagnose_missing_parent number_text r parent node.key seq) node
        (rw (diagnose_missing_parent-nodes number_text r parent node.key seq) new)
        (diagnose_missing_parent-IsValid r parent node.key seq v)

  declare-IsValid :
      (r : ExecutionReducer) (key : String) (kind : ExecutionKind) (parent : Option String)
      (at : Option ExecutionBoundary) (durability : Durability)
      → IsValid r
      → IsValid (declare number_text r key kind parent at durability)
  unfolding declare
  declare-IsValid r key kind parent at durability v = elim (Option-cases (lookup key r.nodes)) [
    | inl new ↦ rw (new, declare) (added-IsValid r _ parent (seq_of at) new v)
    | inr (current, found) ↦
        rw (found, declare)
          (elim (Bool-cases (not (same_identity current kind parent))) [
            | inl changed ↦ rw changed (diagnose-IsValid r _ _ _ _ v)
            | inr same ↦ rw same (elim (Bool-cases (is_settled current.state)) [
              | inl over ↦ rw over (diagnose-IsValid r _ _ _ _ v)
              | inr live ↦ rw live v
            ])
          ])
  ]

  start-IsValid :
      (r : ExecutionReducer) (key : String) (kind : ExecutionKind) (parent : Option String)
      (at : ExecutionBoundary) (durability : Durability)
      → IsValid r
      → IsValid (start number_text r key kind parent at durability)
  unfolding start
  start-IsValid r key kind parent at durability v = elim (Option-cases (lookup key r.nodes)) [
    | inl new ↦ rw (new, start) (added-IsValid r _ parent at.seq new v)
    | inr (current, found) ↦
        rw (found, start)
          (elim (Bool-cases (not (same_identity current kind parent))) [
            | inl changed ↦ rw changed (diagnose-IsValid r _ _ _ _ v)
            | inr same ↦ rw same (elim (Bool-cases (is_pending current.state)) [
              | inl idle ↦ rw idle (
                  restate-IsValid r key current (running at) found
                    (pending_not_settled current.state idle) refl v)
              | inr begun ↦ rw begun (elim (Bool-cases (is_settled current.state)) [
                | inl over ↦ rw over (diagnose-IsValid r _ _ _ _ v)
                | inr live ↦ rw live v
              ])
            ])
          ])
  ]

  settle-IsValid :
      (r : ExecutionReducer) (key : String) (kind : ExecutionKind) (parent : Option String)
      (outcome : ExecutionOutcome) (at : ExecutionBoundary) (error : Option ExecutionError)
      → IsValid r
      → IsValid (settle number_text r key kind parent outcome at error)
  unfolding settle
  settle-IsValid r key kind parent outcome at error v = elim (Option-cases (lookup key r.nodes)) [
    | inl new ↦
        rw (new, settle) (diagnose-IsValid _ _ _ _ _ (added-IsValid r _ parent at.seq new v))
    | inr (current, found) ↦
        rw (found, settle)
          (elim (Bool-cases (not (same_identity current kind parent))) [
            | inl changed ↦ rw changed (diagnose-IsValid r _ _ _ _ v)
            | inr same ↦ rw same (elim (Bool-cases (is_settled current.state)) [
              | inl over ↦ rw over (elim (Bool-cases (differs outcome current.state)) [
                | inl conflict ↦ rw conflict (diagnose-IsValid r _ _ _ _ v)
                | inr agree ↦ rw agree v
              ])
              | inr live ↦ rw live (close-IsValid r key current _ found refl v)
            ])
          ])
  ]

  pub step-IsValid : (r : ExecutionReducer) (c : Call) → IsValid r → IsValid (step number_text r c)
  unfolding step
  step-IsValid r (declares key kind parent at durability) v =
      declare-IsValid r key kind parent at durability v
  step-IsValid r (starts key kind parent at durability) v =
      start-IsValid r key kind parent at durability v
  step-IsValid r (settles key kind parent outcome at error) v =
      settle-IsValid r key kind parent outcome at error v
  step-IsValid r (diagnoses code message key seq) v = diagnose-IsValid r code message key seq v

  run-IsValid : (r : ExecutionReducer) (cs : List Call) → IsValid r → IsValid (run number_text r cs)
  unfolding run
  run-IsValid r [] v = v
  run-IsValid r (c ∷ cs) v = run-IsValid (step number_text r c) cs (step-IsValid r c v)

pub empty-IsValid : IsValid empty
unfolding lookup
empty-IsValid = record {
  keyed = λ k. refl;
  ordered = λ k. refl;
  opened = λ k. refl;
  children = λ p k. refl;
}

-- After any calls the order lists the keys that have a node, the open keys are those of the nodes
-- that are not settled, and the open children of a key are its nodes that are not settled.
pub run-empty-IsValid : (text : ℕ → String) (cs : List Call) → IsValid (run text empty cs)
run-empty-IsValid text cs = run-IsValid text empty cs empty-IsValid
