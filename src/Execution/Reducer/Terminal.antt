-- ===== src/Execution/Reducer/Terminal.antt =====
-- The life of a node: its identity never changes, its phase only advances, and a settled node stays
-- as it is.
use deepseek_harness_communi.Prelude.{
  ℕ, ◌≤◌, ◌<◌, ◌≡◌, refl, true, false, not, inl, inr, Option, none, some, List, [], ◌∷◌, String,
  Bool-cases, Option-cases, ◌==◌, string_eq, option_eq, ==_iff, arith, ap, ◌∙◌,
}
use deepseek_harness_communi.Prelude.Table.{lookup, insert, lookup-insert}
use deepseek_harness_communi.Execution.Types.{
  ExecutionOutcome, ExecutionBoundary, ExecutionError, Durability, ExecutionKind, ExecutionState,
  ExecutionNode, pending, running, settled, ExecutionDiagnosticCode,
}
use deepseek_harness_communi.Execution.Reducer.Open.{
  add-nodes, diagnose-nodes, diagnose_missing_parent-nodes,
}
use deepseek_harness_communi.Execution.Reducer.{
  declare, start, settle, seq_of, is_pending, differs, same_identity, Call, declares, starts,
  settles, diagnoses, step, run, ExecutionReducer, is_settled, add, close, set_state, diagnose,
}

abbrev phase : ExecutionState → ℕ
phase (pending declared) = 1
phase (running started) = 2
phase (settled outcome started ended error) = 3

-- What a call may do to the node under a key.
data Moved : Option ExecutionNode → Option ExecutionNode → Type 0 where
  kept : (o : Option ExecutionNode) → Moved o o
  created : (o : Option ExecutionNode) → Moved none o
  advanced :
      (current : ExecutionNode) (state : ExecutionState)
      → phase current.state < phase state
      → Moved (some current) (some (record current { state = state }))

abbrev Moves : ExecutionReducer → ExecutionReducer → Type 0
Moves r r' = (k : String) → Moved (lookup k r.nodes) (lookup k r'.nodes)

Moved-eq : (o o' : Option ExecutionNode) → o' ≡ o → Moved o o'
Moved-eq o o' e = rw e (kept o)

Moves-eq : (r r' : ExecutionReducer) → r'.nodes ≡ r.nodes → Moves r r'
Moves-eq r r' e k = rw e (kept (lookup k r.nodes))

insert-Moved :
    (key : String) (node : ExecutionNode) (nodes : List (String × ExecutionNode))
    → Moved (lookup key nodes) (some node)
    → (k : String) → Moved (lookup k nodes) (lookup k (insert key node nodes))
insert-Moved key node nodes h k = elim (Bool-cases (key == k)) [
  | inl same ↦
      let at_k : key ≡ k = (==_iff key k).0 same in
      let found : lookup k (insert key node nodes) ≡ some node =
        ground (arith, same, lookup-insert key k node nodes) in
      rw (found, ← at_k) h
  | inr other ↦
      Moved-eq (lookup k nodes) (lookup k (insert key node nodes))
        (ground (arith, other, lookup-insert key k node nodes))
]

added-Moves :
    (r r' : ExecutionReducer) (node : ExecutionNode)
    → r'.nodes ≡ r.nodes
    → lookup node.key r.nodes ≡ none
    → Moves r (add r' node)
added-Moves r r' node e new =
    rw (add-nodes r' node, e) (insert-Moved node.key node r.nodes (rw new (created (some node))))

set_state-Moves :
    (r : ExecutionReducer) (key : String) (current : ExecutionNode) (state : ExecutionState)
    → lookup key r.nodes ≡ some current
    → phase current.state < phase state
    → Moves r (set_state r key current state)
unfolding set_state
set_state-Moves r key current state found later =
    insert-Moved key (record current { state = state }) r.nodes
      (rw found (advanced current state later))

close-Moves :
    (r r' : ExecutionReducer) (node : ExecutionNode) → Moves r r' → Moves r (close r' node)
unfolding close
close-Moves r r' node h = h

before_settled : (state : ExecutionState) → is_settled state ≡ false → phase state < 3
before_settled state h = ground arith

before_running : (state : ExecutionState) → is_pending state ≡ true → phase state < 2
before_running state h = ground arith

module _ (text : ℕ → String) where
  diagnose-Moves :
      (r r' : ExecutionReducer) (code : ExecutionDiagnosticCode) (message : String)
      (key : Option String) (seq : Option ℕ)
      → Moves r r'
      → Moves r (diagnose text r' code message key seq)
  diagnose-Moves r r' code message key seq h = rw (diagnose-nodes text r' code message key seq) h

  declare-Moves :
      (r : ExecutionReducer) (key : String) (kind : ExecutionKind) (parent : Option String)
      (at : Option ExecutionBoundary) (durability : Durability)
      → Moves r (declare text r key kind parent at durability)
  unfolding declare
  declare-Moves r key kind parent at durability = elim (Option-cases (lookup key r.nodes)) [
    | inl new ↦
        rw (new, declare)
          (added-Moves r _ _ (diagnose_missing_parent-nodes text r parent key (seq_of at)) new)
    | inr (current, found) ↦
        rw (found, declare)
          (elim (Bool-cases (not (same_identity current kind parent))) [
            | inl changed ↦ rw changed (diagnose-Moves r r _ _ _ _ (Moves-eq r r refl))
            | inr same ↦ rw same (elim (Bool-cases (is_settled current.state)) [
              | inl over ↦ rw over (diagnose-Moves r r _ _ _ _ (Moves-eq r r refl))
              | inr live ↦ rw live (Moves-eq r r refl)
            ])
          ])
  ]

  start-Moves :
      (r : ExecutionReducer) (key : String) (kind : ExecutionKind) (parent : Option String)
      (at : ExecutionBoundary) (durability : Durability)
      → Moves r (start text r key kind parent at durability)
  unfolding start
  start-Moves r key kind parent at durability = elim (Option-cases (lookup key r.nodes)) [
    | inl new ↦
        rw (new, start)
          (added-Moves r _ _ (diagnose_missing_parent-nodes text r parent key at.seq) new)
    | inr (current, found) ↦
        rw (found, start)
          (elim (Bool-cases (not (same_identity current kind parent))) [
            | inl changed ↦ rw changed (diagnose-Moves r r _ _ _ _ (Moves-eq r r refl))
            | inr same ↦ rw same (elim (Bool-cases (is_pending current.state)) [
              | inl idle ↦ rw idle (
                  set_state-Moves r key current (running at) found
                    (before_running current.state idle))
              | inr begun ↦ rw begun (elim (Bool-cases (is_settled current.state)) [
                | inl over ↦ rw over (diagnose-Moves r r _ _ _ _ (Moves-eq r r refl))
                | inr live ↦ rw live (Moves-eq r r refl)
              ])
            ])
          ])
  ]

  settle-Moves :
      (r : ExecutionReducer) (key : String) (kind : ExecutionKind) (parent : Option String)
      (outcome : ExecutionOutcome) (at : ExecutionBoundary) (error : Option ExecutionError)
      → Moves r (settle text r key kind parent outcome at error)
  unfolding settle
  settle-Moves r key kind parent outcome at error = elim (Option-cases (lookup key r.nodes)) [
    | inl new ↦
        rw (new, settle)
          (diagnose-Moves r _ _ _ _ _
            (added-Moves r _ _ (diagnose_missing_parent-nodes text r parent key at.seq) new))
    | inr (current, found) ↦
        rw (found, settle)
          (elim (Bool-cases (not (same_identity current kind parent))) [
            | inl changed ↦ rw changed (diagnose-Moves r r _ _ _ _ (Moves-eq r r refl))
            | inr same ↦ rw same (elim (Bool-cases (is_settled current.state)) [
              | inl over ↦ rw over (elim (Bool-cases (differs outcome current.state)) [
                | inl conflict ↦ rw conflict (diagnose-Moves r r _ _ _ _ (Moves-eq r r refl))
                | inr agree ↦ rw agree (Moves-eq r r refl)
              ])
              | inr live ↦ rw live (
                  close-Moves r _ current
                    (set_state-Moves r key current _ found (before_settled current.state live)))
            ])
          ])
  ]

  step-Moves : (r : ExecutionReducer) (c : Call) → Moves r (step text r c)
  unfolding step
  step-Moves r (declares key kind parent at durability) =
      declare-Moves r key kind parent at durability
  step-Moves r (starts key kind parent at durability) = start-Moves r key kind parent at durability
  step-Moves r (settles key kind parent outcome at error) =
      settle-Moves r key kind parent outcome at error
  step-Moves r (diagnoses code message key seq) =
      diagnose-Moves r r code message key seq (Moves-eq r r refl)

-- The same node, in the same phase or a later one; a settled node as it was.
pub record Follows (node later : ExecutionNode) : Type 0 where
  pub same_key : later.key ≡ node.key
  pub same_kind : later.kind ≡ node.kind
  pub same_parent : later.parent_key ≡ node.parent_key
  pub same_durability : later.durability ≡ node.durability
  pub no_earlier : phase node.state ≤ phase later.state
  pub final : is_settled node.state ≡ true → later ≡ node

Follows-refl : (node : ExecutionNode) → Follows node node
Follows-refl node = record {
  same_key = refl;
  same_kind = refl;
  same_parent = refl;
  same_durability = refl;
  no_earlier = omega arith;
  final = λ h. refl;
}

Follows-trans : (a b c : ExecutionNode) → Follows a b → Follows b c → Follows a c
Follows-trans a b c h k = record {
  same_key = k.same_key ∙ h.same_key;
  same_kind = k.same_kind ∙ h.same_kind;
  same_parent = k.same_parent ∙ h.same_parent;
  same_durability = k.same_durability ∙ h.same_durability;
  no_earlier = omega (arith, h.no_earlier, k.no_earlier);
  final = λ over.
      let middle = h.final over in
      k.final (ap (λ (n : ExecutionNode). is_settled n.state) middle ∙ over) ∙ middle;
}

last_phase : (state : ExecutionState) → phase state ≤ 3
last_phase state = ground arith

settled_phase : (state : ExecutionState) → is_settled state ≡ true → phase state ≡ 3
settled_phase state h = ground arith

advanced-Follows :
    (current : ExecutionNode) (state : ExecutionState)
    → phase current.state < phase state
    → Follows current (record current { state = state })
advanced-Follows current state h = record {
  same_key = refl;
  same_kind = refl;
  same_parent = refl;
  same_durability = refl;
  no_earlier = omega (arith, h);
  final = λ over. absurd (omega (arith, h, last_phase state, settled_phase current.state over));
}

Moved-Follows :
    (node : ExecutionNode) (o o' : Option ExecutionNode)
    → Moved o o'
    → o ≡ some node
    → (later : ExecutionNode) × (o' ≡ some later) × Follows node later
Moved-Follows node o o' (kept p) e = (node, e, Follows-refl node)
Moved-Follows node o o' (created p) e = cc
Moved-Follows node o o' (advanced current state h) e =
    let same : current ≡ node = ground arith in
    (record current { state = state }, refl, rw (← same) (advanced-Follows current state h))

-- Whatever calls follow, a node keeps its key, kind, parent and durability and never goes back to an
-- earlier phase, and a settled node keeps its outcome, its boundaries and its error as well.
pub run-Follows :
    (text : ℕ → String) (r : ExecutionReducer) (cs : List Call) (k : String) (node : ExecutionNode)
    → lookup k r.nodes ≡ some node
    → (later : ExecutionNode) × (lookup k (run text r cs).nodes ≡ some later) × Follows node later
unfolding run
run-Follows text r [] k node found = (node, found, Follows-refl node)
run-Follows text r (c ∷ cs) k node found =
    let one =
      Moved-Follows node (lookup k r.nodes) (lookup k (step text r c).nodes) (step-Moves text r c k)
        found in
    let rest = run-Follows text (step text r c) cs k one.0 one.1 in
    (rest.0, rest.1, Follows-trans node one.0 rest.0 one.2 rest.2)
