-- ===== src/Rewind/Repository/Storage.antt =====
-- packages/tui/src/modules/rewind/adapters/file-repository.ts: the state of a repository and its
-- errors. A directory is its files with their contents: the timelines under the hash of their
-- workspace's root, the contents of files under their own hash. A file is written by a rename, so
-- it is there as a whole or not at all, and the lock makes each method one step.
use deepseek_harness_communi.Prelude.{
  ℕ, ◌*◌, Bool, false, Option, none, some, List, [], String, if◌then◌else◌, ltb,
}
use deepseek_harness_communi.Prelude.Result.{Result, ok, err, ◌>>=◌, ◌>>◌, throw_if}
use deepseek_harness_communi.Rewind.Points.{is_positive}
use deepseek_harness_communi.Rewind.Repository.Platform.{Platform}

pub data RepositoryError : Type 0 where
  limit_not_positive : String → RepositoryError
  object_limit_exceeds_timeline timeline_limit_exceeds_global : RepositoryError
  -- `RewindRepositoryConflictError` is `conflict`; `no_entry` is ENOENT.
  repository_closed conflict no_entry : RepositoryError
  -- The messages that show a limit.
  read_limit object_limit timeline_limit manifest_limit : ℕ → RepositoryError
  -- Those of `materialize`.
  object_over_limit object_invalid timeline_over_limit bytes_invalid : RepositoryError
  manifest_invalid : String → RepositoryError

abbrev pub Directory : Type 0
Directory = List (String × String)

pub record Repository : Type 0 where
  pub timelines : Directory
  pub objects : Directory
  pub corrupt : Directory
  pub warnings : List RepositoryError
  pub max_object_bytes : ℕ
  pub max_timeline_bytes : ℕ
  pub max_global_bytes : ℕ
  pub closed : Bool

abbrev mebibyte : ℕ
mebibyte = 1024 * 1024

abbrev pub max_manifest_bytes : ℕ
max_manifest_bytes = 4 * mebibyte

unfoldable pub positive_limit : ℕ → String → Result RepositoryError ℕ
positive_limit value label = if is_positive value then ok value else err (limit_not_positive label)

-- `option ?? standard`
abbrev pub or_else : Option ℕ → ℕ → ℕ
or_else none standard = standard
or_else (some value) standard = value

-- The constructor, over the files that there are.
unfoldable pub new_repository :
    Directory
    → Directory
    → Directory
    → Option ℕ
    → Option ℕ
    → Option ℕ
    → Result RepositoryError Repository
new_repository timelines objects corrupt object timeline global = do
  max_object ← positive_limit (or_else object (16 * mebibyte)) "Rewind object byte limit"
  max_timeline ← positive_limit (or_else timeline (64 * mebibyte)) "Rewind timeline byte limit"
  max_global ← positive_limit (or_else global (512 * mebibyte)) "Rewind global byte limit"
  throw_if (ltb max_timeline max_object) object_limit_exceeds_timeline
  throw_if (ltb max_global max_timeline) timeline_limit_exceeds_global
  ok (record {
    timelines = timelines;
    objects = objects;
    corrupt = corrupt;
    warnings = [];
    max_object_bytes = max_object;
    max_timeline_bytes = max_timeline;
    max_global_bytes = max_global;
    closed = false;
  })

-- `readBounded`, of what the directory has at the path.
unfoldable pub read_bounded : Platform → Option String → ℕ → Result RepositoryError String
read_bounded node none limit = err no_entry
read_bounded node (some content) limit =
    if ltb limit (node.byte_length content) then err (read_limit limit) else ok content
