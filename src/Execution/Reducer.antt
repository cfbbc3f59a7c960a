-- ===== src/Execution/Reducer.antt =====
-- packages/tui/src/runtime/execution/projection/reducer.ts: `ExecutionReducer`. A `Map` keeps its
-- insertion order and a `Set` is a list without repetitions; assigning `current.state` replaces the
-- node under its key, the only place that holds it. `number_text` is `String` on a number, the
-- language's printing of numbers.
pub mod Open
pub mod Indices
pub mod Arrival
pub mod Views
pub mod Terminal
pub mod Diagnostics
mod Tests
use Prim.Native.String.{◌++◌ as text_append}
use deepseek_harness_communi.Prelude.{
  ℕ, ◌≤◌, Bool, true, false, not, ◌&&◌, ◌||◌, Option, none, some, List, [], ◌∷◌, ◌++◌, String,
  if◌then◌else◌, is_some, is_empty, filter, any, leb, length, ◌==◌, string_eq, option_eq,
}
use deepseek_harness_communi.Prelude.Table.{lookup, insert, remove}
use deepseek_harness_communi.Execution.Types.{
  ExecutionKind, ExecutionOutcome, ExecutionBoundary, ExecutionError, ExecutionState, pending,
  running, settled, Durability, durable, ExecutionNode, ExecutionDiagnosticCode,
  conflicting_outcome, identity_conflict, missing_parent, missing_start, terminal_reopened,
  ExecutionDiagnostic, kind_beq, outcome_beq, code_text,
}

pub record ExecutionReducer : Type 0 where
  pub nodes : List (String × ExecutionNode)
  pub order : List String
  pub open_keys : List String
  pub open_by_parent : List (String × List String)
  pub issues : List ExecutionDiagnostic
  pub diagnostic_keys : List String

abbrev pub empty : ExecutionReducer
empty = record {
  nodes = [];
  order = [];
  open_keys = [];
  open_by_parent = [];
  issues = [];
  diagnostic_keys = [];
}

abbrev pub execution_diagnostic_limit : ℕ
execution_diagnostic_limit = 100

-- `Set.has`, `Set.add` and `Set.delete`.
abbrev pub member : String → List String → Bool
member k ks = any (λ j. j == k) ks

unfoldable pub set_add : String → List String → List String
set_add k ks = if member k ks then ks else ks ++ (k ∷ [])

unfoldable pub set_delete : String → List String → List String
set_delete k ks = filter (λ j. not (j == k)) ks

abbrev pub or_empty : Option (List String) → List String
or_empty none = []
or_empty (some ks) = ks

unfoldable pub same_identity : ExecutionNode → ExecutionKind → Option String → Bool
same_identity node kind parent_key = kind_beq node.kind kind && node.parent_key == parent_key

abbrev pub is_settled : ExecutionState → Bool
is_settled (settled outcome started ended error) = true
is_settled s = false

abbrev pub key_or_empty : Option String → String
key_or_empty none = ""
key_or_empty (some k) = k

module _ (number_text : ℕ → String) where
  abbrev seq_text : Option ℕ → String
  seq_text none = ""
  seq_text (some n) = number_text n

  unfoldable pub diagnostic_key :
      ExecutionDiagnosticCode → String → Option String → Option ℕ → String
  diagnostic_key code message key seq = text_append (code_text code) (
      text_append "\0" (
        text_append (key_or_empty key)
          (text_append "\0" (text_append (seq_text seq) (text_append "\0" message)))))

  unfoldable pub diagnose :
      ExecutionReducer
      → ExecutionDiagnosticCode
      → String
      → Option String
      → Option ℕ
      → ExecutionReducer
  diagnose r code message key seq =
      if member (diagnostic_key code message key seq) r.diagnostic_keys
        || leb execution_diagnostic_limit (length r.issues)
      then r
      else record r {
        diagnostic_keys = set_add (diagnostic_key code message key seq) r.diagnostic_keys;
        issues = r.issues ++ (record { code = code; message = message; key = key; seq = seq } ∷ []);
      }

  unfoldable pub diagnose_missing_parent :
      ExecutionReducer → Option String → String → Option ℕ → ExecutionReducer
  diagnose_missing_parent r none key seq = r
  diagnose_missing_parent r (some parent) key seq =
      if not (is_some (lookup parent r.nodes))
      then diagnose r missing_parent
          (text_append "Execution "
            (text_append key (text_append " references missing parent " (text_append parent "."))))
          (some key) seq
      else r

-- `openByParent` after `add`, and after `close`.
unfoldable pub add_child :
    Option String → String → List (String × List String) → List (String × List String)
add_child none key table = table
add_child (some parent) key table =
    insert parent (set_add key (or_empty (lookup parent table))) table

unfoldable pub delete_child :
    Option String → String → List (String × List String) → List (String × List String)
delete_child none key table = table
delete_child (some parent) key table = elim (lookup parent table) [
  | none ↦ table
  | some siblings ↦
      if is_empty (set_delete key siblings)
      then remove parent table
      else insert parent (set_delete key siblings) table
]

unfoldable pub add : ExecutionReducer → ExecutionNode → ExecutionReducer
add r node =
    if is_settled node.state
    then record r { nodes = insert node.key node r.nodes; order = r.order ++ (node.key ∷ []) }
    else record r {
      nodes = insert node.key node r.nodes;
      order = r.order ++ (node.key ∷ []);
      open_keys = set_add node.key r.open_keys;
      open_by_parent = add_child node.parent_key node.key r.open_by_parent;
    }

unfoldable pub close : ExecutionReducer → ExecutionNode → ExecutionReducer
close r node = record r {
  open_keys = set_delete node.key r.open_keys;
  open_by_parent = delete_child node.parent_key node.key r.open_by_parent;
}

-- `current.state = state`
unfoldable pub set_state :
    ExecutionReducer → String → ExecutionNode → ExecutionState → ExecutionReducer
set_state r key current state = record r {
  nodes = insert key (record current { state = state }) r.nodes;
}

abbrev pub seq_of : Option ExecutionBoundary → Option ℕ
seq_of none = none
seq_of (some at) = at.seq

abbrev pub started_of : ExecutionState → Option ExecutionBoundary
started_of (running started) = some started
started_of s = none

abbrev pub is_pending : ExecutionState → Bool
is_pending (pending declared) = true
is_pending s = false

abbrev pub differs : ExecutionOutcome → ExecutionState → Bool
differs outcome (settled before started ended error) = not (outcome_beq before outcome)
differs outcome s = false

module _ (number_text : ℕ → String) where
  abbrev identity_changed : ExecutionReducer → String → Option ℕ → ExecutionReducer
  identity_changed r key seq =
      diagnose number_text r identity_conflict
        (text_append "Execution identity " (text_append key " changed kind or parent.")) (some key)
        seq

  abbrev reopened : ExecutionReducer → String → String → Option ℕ → ExecutionReducer
  reopened r key what seq =
      diagnose number_text r terminal_reopened
        (text_append "Settled execution " (text_append key what)) (some key) seq

  unfoldable pub declare :
      ExecutionReducer
      → String
      → ExecutionKind
      → Option String
      → Option ExecutionBoundary
      → Durability
      → ExecutionReducer
  declare r key kind parent at durability = elim (lookup key r.nodes) [
    | none ↦ add (diagnose_missing_parent number_text r parent key (seq_of at)) (record {
      key = key;
      kind = kind;
      parent_key = parent;
      state = pending at;
      durability = durability;
    })
    | some current ↦
        if not (same_identity current kind parent)
        then identity_changed r key (seq_of at)
        else if is_settled current.state
        then reopened r key " received a declaration." (seq_of at)
        else r
  ]

  unfoldable pub start :
      ExecutionReducer
      → String
      → ExecutionKind
      → Option String
      → ExecutionBoundary
      → Durability
      → ExecutionReducer
  start r key kind parent at durability = elim (lookup key r.nodes) [
    | none ↦ add (diagnose_missing_parent number_text r parent key at.seq) (record {
      key = key;
      kind = kind;
      parent_key = parent;
      state = running at;
      durability = durability;
    })
    | some current ↦
        if not (same_identity current kind parent)
        then identity_changed r key at.seq
        else if is_pending current.state
        then set_state r key current (running at)
        else if is_settled current.state
        then reopened r key " received a start." at.seq
        else r
  ]

  unfoldable pub settle :
      ExecutionReducer
      → String
      → ExecutionKind
      → Option String
      → ExecutionOutcome
      → ExecutionBoundary
      → Option ExecutionError
      → ExecutionReducer
  settle r key kind parent outcome at error = elim (lookup key r.nodes) [
    | none ↦
        diagnose number_text
          (add (diagnose_missing_parent number_text r parent key at.seq) (record {
            key = key;
            kind = kind;
            parent_key = parent;
            state = settled outcome none at error;
            durability = durable;
          }))
          missing_start
          (text_append "Execution " (text_append key " settled without a visible start."))
          (some key) at.seq
    | some current ↦
        if not (same_identity current kind parent)
        then identity_changed r key at.seq
        else if is_settled current.state
        then (if differs outcome current.state
            then diagnose number_text r conflicting_outcome
                (text_append "Execution "
                  (text_append key " received conflicting terminal outcomes."))
                (some key) at.seq
            else r)
        else close (set_state r key current (settled outcome (started_of current.state) at error))
            current
  ]

-- The nodes under the keys that have one.
unfoldable pub nodes_of : List (String × ExecutionNode) → List String → List ExecutionNode
nodes_of nodes [] = []
nodes_of nodes (k ∷ ks) = elim (lookup k nodes) [
  | none ↦ nodes_of nodes ks
  | some node ↦ node ∷ nodes_of nodes ks
]

unfoldable pub open_nodes : ExecutionReducer → List ExecutionNode
open_nodes r = nodes_of r.nodes r.open_keys

-- `openChildren(parentKey)`, without `recursive`.
unfoldable pub open_children : ExecutionReducer → String → List ExecutionNode
open_children r parent = nodes_of r.nodes (or_empty (lookup parent r.open_by_parent))

-- The nodes in the order of their first appearance, with the diagnostics; `freeze` adds nothing to
-- immutable values.
unfoldable pub result : ExecutionReducer → List ExecutionNode × List ExecutionDiagnostic
result r = (nodes_of r.nodes r.order, r.issues)

-- One call of a method that writes.
pub data Call : Type 0 where
  declares : String → ExecutionKind → Option String → Option ExecutionBoundary → Durability → Call
  starts : String → ExecutionKind → Option String → ExecutionBoundary → Durability → Call
  settles :
      String
      → ExecutionKind
      → Option String
      → ExecutionOutcome
      → ExecutionBoundary
      → Option ExecutionError
      → Call
  diagnoses : ExecutionDiagnosticCode → String → Option String → Option ℕ → Call

unfoldable pub step : (ℕ → String) → ExecutionReducer → Call → ExecutionReducer
step text r (declares key kind parent at durability) = declare text r key kind parent at durability
step text r (starts key kind parent at durability) = start text r key kind parent at durability
step text r (settles key kind parent outcome at error) =
    settle text r key kind parent outcome at error
step text r (diagnoses code message key seq) = diagnose text r code message key seq

unfoldable pub run : (ℕ → String) → ExecutionReducer → List Call → ExecutionReducer
run text r [] = r
run text r (c ∷ cs) = run text (step text r c) cs
