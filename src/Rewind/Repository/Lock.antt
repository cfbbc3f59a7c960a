-- ===== src/Rewind/Repository/Lock.antt =====
-- packages/tui/src/modules/rewind/adapters/file-repository.ts: `withLock` and `removeStaleLock`, the lock
-- file that the processes of a workspace share. A step is what one process does at once: a file is
-- inspected in one step and removed in a later one, and others may come between. An operation is known by
-- its token, and it waits while it neither holds the lock nor is about to remove a file. The creation of
-- a file with the writing of its text is one step here, and so is a release.
pub mod Exclusive
mod Tests
use deepseek_harness_communi.Prelude.{
  ℕ, ◌-◌, Bool, not, ◌||◌, Option, none, some, List, [], ◌∷◌, if◌then◌else◌, any, filter, ltb, ◌==◌,
  nat_eq,
}

pub record LockFile : Type 0 where
  pub token : ℕ
  -- `mtimeMs`
  pub modified : ℕ

-- A remover is an operation with the file that it found stale.
pub record LockState : Type 0 where
  pub file : Option LockFile
  pub holders : List ℕ
  pub removers : List (ℕ × LockFile)

abbrev pub lock_stale_ms : ℕ
lock_stale_ms = 30000

pub data Step : Type 0 where
  -- `open(lockPath, 'wx')` by an operation, at a time.
  create : ℕ → ℕ → Step
  -- `removeStaleLock` up to its last line, at a time; the answer of `processExists`.
  inspect : ℕ → ℕ → Bool → Step
  -- The `rm` at its end.
  remove_stale : ℕ → Step
  -- The operation ends, and its lock is released.
  release : ℕ → Step
  -- The process of the operation ends before.
  crash : ℕ → Step

abbrev pub without : ℕ → List ℕ → List ℕ
without token holders = filter (λ t. not (t == token)) holders

abbrev pub create_on : Option LockFile → ℕ → ℕ → LockState → LockState
create_on (some file) token now s = s
create_on none token now s = record s {
  file = some (record { token = token; modified = now });
  holders = token ∷ s.holders;
}

-- `Date.now() - info.mtimeMs < LOCK_STALE_MS`, and `processExists`.
abbrev pub inspect_on : Option LockFile → ℕ → ℕ → Bool → LockState → LockState
inspect_on none token now alive s = s
inspect_on (some file) token now alive s =
    if ltb (now - file.modified) lock_stale_ms || alive
    then s
    else record s { removers = (token, file) ∷ s.removers }

abbrev pub remove_on : Bool → ℕ → LockState → LockState
remove_on is_remover token s =
    if is_remover
    then record s { file = none; removers = filter (λ r. not (r.0 == token)) s.removers }
    else s

-- `lock.token === token`
abbrev pub released_file : Option LockFile → ℕ → Option LockFile
released_file none token = none
released_file (some file) token = if file.token == token then none else some file

abbrev pub release_on : Bool → ℕ → LockState → LockState
release_on is_holder token s =
    if is_holder
    then record s { file = released_file s.file token; holders = without token s.holders }
    else s

unfoldable pub perform : Step → LockState → LockState
perform (create token now) s = create_on s.file token now s
perform (inspect token now alive) s = inspect_on s.file token now alive s
perform (remove_stale token) s = remove_on (any (λ r. r.0 == token) s.removers) token s
perform (release token) s = release_on (any (λ t. t == token) s.holders) token s
perform (crash token) s = record s { holders = without token s.holders }

abbrev pub unlocked : LockState
unlocked = record { file = none; holders = []; removers = [] }

unfoldable pub run : List Step → LockState → LockState
run [] s = s
run (step ∷ steps) s = run steps (perform step s)
