-- ===== src/Rewind/Workspace.antt =====
-- packages/tui/src/modules/rewind/adapters/local-workspace.ts: `applyStates`, with `apply` and the
-- compensation that it returns, and `restore` of packages/tui/src/modules/rewind/application/service.ts.
-- A file system is a function from paths to contents. What the operating system refuses is given by
-- functions of the environment: a refused replacement leaves the file, since it writes another one
-- and renames it.
pub mod Restores
pub mod Laws
pub mod Atomicity
mod Tests
use deepseek_harness_communi.Prelude.{
  String, Bool, true, false, List, [], ◌∷◌, map, Option, none, some, if◌then◌else◌, ◌==◌, string_eq,
  option_eq,
}
use deepseek_harness_communi.Prelude.Result.{Result, ok, err, ◌>>=◌}
use deepseek_harness_communi.Rewind.Contracts.{RewindAction}
use deepseek_harness_communi.Rewind.Transaction.{
  RewindPlan, RewindTransactionPhase, Io, Ports, await,
}

abbrev pub Files : Type 0
Files = String → Option String

pub record WorkspaceState : Type 0 where
  pub absolute_path : String
  pub expected : Option String
  pub target : Option String

-- An error of the environment, or one that `applyStates` makes.
pub data WorkspaceError (E : Type 0) : Type 0 where
  system : E → WorkspaceError E
  workspace_changed : String → WorkspaceError E
  rollback_failed : E → List E → WorkspaceError E

-- What is not the files of the workspace, and what works on it: the operating system's part of the
-- files, the prepared plans, the journal, the conversation and the callback of the phases.
pub record Environment : Type 1 where
  pub Rest : Type 0
  pub Failure : Type 0
  pub Summary : Type 0
  pub inspect : String → Files → Rest → Option Failure
  pub refuse : String → Option String → Files → Rest → Option Failure × Rest
  pub prepared : RewindPlan → Rest → Result Failure (List WorkspaceState)
  pub activate : String → String → Io Rest Failure (Unit {0})
  pub settle : String → Io Rest Failure (Unit {0})
  pub list : String → Io Rest Failure (List Summary)
  pub plan : String → String → Io Rest Failure RewindPlan
  pub commit : RewindPlan → RewindAction → Option String → Io Rest Failure (Unit {0})
  pub rewind : RewindPlan → Io Rest Failure String
  pub on_phase : RewindTransactionPhase → Io Rest Failure (Unit {0})

unfoldable pub write : String → Option String → Files → Files
write path content files p = if path == p then content else files p

module _ (env : Environment) where
  abbrev pub World : Type 0
  World = Files × env.Rest

  abbrev pub read_found : Option env.Failure → Option String → Result env.Failure (Option String)
  read_found none content = ok content
  read_found (some e) content = err e

  unfoldable pub read_text_state : String → World → Result env.Failure (Option String)
  read_text_state path (files, rest) = read_found (env.inspect path files rest) (files path)

  abbrev pub replaced :
      String
      → Option String
      → Files
      → Option env.Failure × env.Rest
      → Result env.Failure (Unit {0}) × World
  replaced path content files (none, rest) = (ok tt, (write path content files, rest))
  replaced path content files (some e, rest) = (err e, (files, rest))

  unfoldable pub atomic_replace : String → Option String → Io World env.Failure (Unit {0})
  atomic_replace path content (files, rest) =
      replaced path content files (env.refuse path content files rest)

  -- `Promise.all`, with the error of the first of the states that cannot be read.
  unfoldable pub read_all : List WorkspaceState → World → Result env.Failure (List (Option String))
  read_all [] w = ok []
  read_all (state ∷ states) w = read_text_state state.absolute_path w >>= λ content.
      read_all states w >>= λ contents. ok (content ∷ contents)

  -- The path of the first state whose content is not the expected one.
  unfoldable pub first_changed : List WorkspaceState → List (Option String) → Option String
  first_changed [] current = none
  first_changed (state ∷ states) [] = some state.absolute_path
  first_changed (state ∷ states) (content ∷ current) =
      if content == state.expected then first_changed states current else some state.absolute_path

  -- The loop over the paths that were written, the last first: what failed is kept.
  unfoldable pub roll_back : List (String × Option String) → World → List env.Failure × World
  roll_back [] w = ([], w)
  roll_back ((path, content) ∷ applied) w =
      await (atomic_replace path content w) (λ _ w'. roll_back applied w')
        (λ e w'. let rest = roll_back applied w' in (e ∷ rest.0, rest.1))

  abbrev pub rolled_back :
      env.Failure
      → List env.Failure × World
      → Result (WorkspaceError env.Failure) (Unit {0}) × World
  rolled_back e ([], w) = (err (system e), w)
  rolled_back e (f ∷ failures, w) = (err (rollback_failed e (f ∷ failures)), w)

  -- The loop over the states, with those that are written.
  unfoldable pub apply_from :
      List WorkspaceState
      → List (Option String)
      → List (String × Option String)
      → Io World (WorkspaceError env.Failure) (Unit {0})
  apply_from [] current applied w = (ok tt, w)
  apply_from (state ∷ states) [] applied w =
      await (atomic_replace state.absolute_path state.target w)
        (λ _ w'. apply_from states [] ((state.absolute_path, none) ∷ applied) w')
        (λ e w'. rolled_back e (roll_back applied w'))
  apply_from (state ∷ states) (content ∷ current) applied w =
      await (atomic_replace state.absolute_path state.target w)
        (λ _ w'. apply_from states current ((state.absolute_path, content) ∷ applied) w')
        (λ e w'. rolled_back e (roll_back applied w'))

  abbrev pub apply_checked :
      List WorkspaceState
      → List (Option String)
      → Option String
      → Io World (WorkspaceError env.Failure) (Unit {0})
  apply_checked states current none w = apply_from states current [] w
  apply_checked states current (some path) w = (err (workspace_changed path), w)

  abbrev pub apply_read :
      List WorkspaceState
      → Result env.Failure (List (Option String))
      → Io World (WorkspaceError env.Failure) (Unit {0})
  apply_read states (err e) w = (err (system e), w)
  apply_read states (ok current) w = apply_checked states current (first_changed states current) w

  unfoldable pub apply_states :
      List WorkspaceState → Io World (WorkspaceError env.Failure) (Unit {0})
  apply_states states w = apply_read states (read_all states w) w

  abbrev pub swapped : WorkspaceState → WorkspaceState
  swapped state = record {
    absolute_path = state.absolute_path;
    expected = state.target;
    target = state.expected;
  }

  abbrev pub restore_found :
      Result env.Failure (List WorkspaceState)
      → Io World (WorkspaceError env.Failure) (Io World (WorkspaceError env.Failure) (Unit {0}))
  restore_found (err e) w = (err (system e), w)
  restore_found (ok states) w =
      await (apply_states states w) (λ _ w'. (ok (apply_states (map swapped states)), w'))
        (λ e w'. (err e, w'))

  unfoldable pub restore :
      RewindPlan
      → Io World (WorkspaceError env.Failure) (Io World (WorkspaceError env.Failure) (Unit {0}))
  restore plan (files, rest) = restore_found (env.prepared plan rest) (files, rest)

  abbrev pub beside_of :
      {A : Type 0}
      → Files
      → Result env.Failure A × env.Rest
      → Result (WorkspaceError env.Failure) A × World
  beside_of files (ok a, rest) = (ok a, (files, rest))
  beside_of files (err e, rest) = (err (system e), (files, rest))

  -- A call beside the files of the workspace.
  abbrev pub beside :
      {A : Type 0} → Io env.Rest env.Failure A → Io World (WorkspaceError env.Failure) A
  beside m (files, rest) = beside_of files (m rest)

  -- The ports over the local workspace.
  abbrev pub local_ports : Ports
  local_ports = record {
    World = World;
    Failure = WorkspaceError env.Failure;
    Summary = env.Summary;
    activate = λ session_id root. beside (env.activate session_id root);
    settle = λ session_id. beside (env.settle session_id);
    list = λ session_id. beside (env.list session_id);
    plan = λ session_id point_id. beside (env.plan session_id point_id);
    restore = restore;
    commit = λ plan action target. beside (env.commit plan action target);
    rewind = λ plan. beside (env.rewind plan);
    on_phase = λ phase. beside (env.on_phase phase);
  }
