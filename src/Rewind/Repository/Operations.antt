-- ===== src/Rewind/Repository/Operations.antt =====
-- packages/tui/src/modules/rewind/adapters/file-repository.ts: the methods of `FileRewindRepository`.
-- Each gives the repository after it, also when it throws. A file of a timeline that is quarantined
-- keeps its name here, to which the code adds the time and a random part.
pub mod Outcome
pub mod WellFormed
pub mod Files
pub mod SaveLoad
use Prim.Native.String.{◌++◌ as text_append}
use deepseek_harness_communi.Prelude.{
  Bool, true, false, not, Option, none, some, List, [], ◌∷◌, ◌++◌, String, if◌then◌else◌, ltb, ◌==◌,
  string_eq,
}
use deepseek_harness_communi.Prelude.Table.{lookup, insert, remove}
use deepseek_harness_communi.Prelude.Result.{Result, ok, err, ◌>>=◌}
use deepseek_harness_communi.Rewind.Timeline.{RewindTimeline}
use deepseek_harness_communi.Rewind.Manifest.Decode.{TimelineManifest}
use deepseek_harness_communi.Rewind.Repository.Platform.{Platform}
use deepseek_harness_communi.Rewind.Repository.Storage.{
  RepositoryError, repository_closed, conflict, timeline_limit, manifest_limit, Directory,
  Repository, max_manifest_bytes, read_bounded,
}
use deepseek_harness_communi.Rewind.Repository.Store.{store}
use deepseek_harness_communi.Rewind.Repository.Materialize.{
  unique_references, sum_bytes, materialize,
}
use deepseek_harness_communi.Rewind.Repository.Encode.{manifest_json}
use deepseek_harness_communi.Rewind.Repository.Compaction.{parse_source, compact_locked}

pub record RewindRepositoryEntry : Type 0 where
  pub value : RewindTimeline
  pub revision : String

-- `currentRevision !== expectedRevision`
abbrev pub same_revision : Option String → Option String → Bool
same_revision none none = true
same_revision none (some expected) = false
same_revision (some current) none = false
same_revision (some current) (some expected) = current == expected

module _ (node : Platform) where
  -- `currentRevision`, of the file at the path.
  unfoldable pub current_revision : Option String → Result RepositoryError (Option String)
  current_revision none = ok none
  current_revision (some source) = read_bounded node (some source) max_manifest_bytes >>= λ content.
      ok (some (node.hash content))

  unfoldable pub read_timeline :
      Repository → String → String → Result RepositoryError RewindTimeline
  read_timeline repository root source = parse_source node source (some root) >>= λ manifest.
      materialize node repository.max_object_bytes repository.objects repository.max_timeline_bytes
        manifest

  unfoldable pub quarantine : Repository → String → String → RepositoryError → Repository
  quarantine repository name source error = record repository {
    timelines = remove name repository.timelines;
    corrupt = (name, source) ∷ repository.corrupt;
    warnings = error ∷ repository.warnings;
  }

  abbrev pub load_read :
      Repository
      → String
      → String
      → Result RepositoryError RewindTimeline
      → Repository × Result RepositoryError (Option RewindRepositoryEntry)
  load_read repository name source (ok value) =
      (repository, ok (some (record { value = value; revision = node.hash source })))
  load_read repository name source (err error) = (quarantine repository name source error, ok none)

  abbrev pub load_bounded :
      Repository
      → String
      → Result RepositoryError String
      → Repository × Result RepositoryError (Option RewindRepositoryEntry)
  load_bounded repository root (ok source) =
      load_read repository (node.hash root) source (read_timeline repository root source)
  load_bounded repository root (err error) = (repository, err error)

  abbrev pub load_source :
      Repository
      → String
      → Option String
      → Repository × Result RepositoryError (Option RewindRepositoryEntry)
  load_source repository root none = (repository, ok none)
  load_source repository root (some source) =
      load_bounded repository root (read_bounded node (some source) max_manifest_bytes)

  unfoldable pub load :
      Repository → String → Repository × Result RepositoryError (Option RewindRepositoryEntry)
  load repository root =
      if repository.closed
      then (repository, err repository_closed)
      else load_source repository root (lookup (node.hash root) repository.timelines)

  -- The text of the manifest's file.
  unfoldable pub manifest_source : TimelineManifest → String
  manifest_source manifest = text_append (node.stringify (manifest_json manifest)) "\n"

  -- `save` from the manifest on, in the repository that has the objects.
  abbrev pub save_manifest :
      Repository
      → String
      → Result RepositoryError TimelineManifest
      → Repository × Result RepositoryError String
  save_manifest repository name (err error) = (repository, err error)
  save_manifest repository name (ok manifest) =
      if ltb repository.max_timeline_bytes (sum_bytes (unique_references manifest))
      then (repository, err (timeline_limit repository.max_timeline_bytes))
      else if ltb max_manifest_bytes (node.byte_length (manifest_source manifest))
      then (repository, err (manifest_limit max_manifest_bytes))
      else (
        compact_locked node (record repository {
          timelines = insert name (manifest_source manifest) repository.timelines;
        }),
        ok (node.hash (manifest_source manifest)),
      )

  abbrev pub save_stored :
      Repository
      → String
      → Directory × Result RepositoryError TimelineManifest
      → Repository × Result RepositoryError String
  save_stored repository name written =
      save_manifest (record repository { objects = written.0 }) name written.1

  abbrev pub save_at :
      Result RepositoryError (Option String)
      → Repository
      → RewindTimeline
      → Option String
      → Repository × Result RepositoryError String
  save_at (err error) repository value expected = (repository, err error)
  save_at (ok current) repository value expected =
      if same_revision current expected
      then save_stored repository (node.hash value.workspace_root)
          (store node repository.max_object_bytes value repository.objects)
      else (repository, err conflict)

  unfoldable pub save :
      Repository → RewindTimeline → Option String → Repository × Result RepositoryError String
  save repository value expected =
      if repository.closed
      then (repository, err repository_closed)
      else save_at (current_revision (lookup (node.hash value.workspace_root) repository.timelines))
          repository value expected

  abbrev pub remove_at :
      Result RepositoryError (Option String)
      → Repository
      → String
      → Option String
      → Repository × Result RepositoryError Bool
  remove_at (err error) repository name expected = (repository, err error)
  remove_at (ok current) repository name none =
      if same_revision current none then (repository, ok true) else (repository, ok false)
  remove_at (ok current) repository name (some expected) =
      if same_revision current (some expected)
      then (
        compact_locked node (record repository { timelines = remove name repository.timelines }),
        ok true,
      )
      else (repository, ok false)

  unfoldable pub remove_timeline :
      Repository → String → Option String → Repository × Result RepositoryError Bool
  remove_timeline repository root expected =
      if repository.closed
      then (repository, err repository_closed)
      else remove_at (current_revision (lookup (node.hash root) repository.timelines)) repository
          (node.hash root) expected

  unfoldable pub compact : Repository → Repository × Result RepositoryError (Unit {0})
  compact repository =
      if repository.closed
      then (repository, err repository_closed)
      else (compact_locked node repository, ok tt)

  abbrev pub closed_by :
      Repository × Result RepositoryError (Unit {0})
      → Repository × Result RepositoryError (Unit {0})
  closed_by (repository, ok u) = (record repository { closed = true }, ok tt)
  closed_by (repository, err error) = (repository, err error)

  unfoldable pub close : Repository → Repository × Result RepositoryError (Unit {0})
  close repository =
      if repository.closed then (repository, ok tt) else closed_by (compact repository)

-- `RewindRepository`: a call of one of the methods.
pub data Call : Type 0 where
  loading : String → Call
  saving : RewindTimeline → Option String → Call
  removing : String → Option String → Call
  compacting closing : Call

unfoldable pub perform : Platform → Call → Repository → Repository
perform node (loading root) repository = (load node repository root).0
perform node (saving value expected) repository = (save node repository value expected).0
perform node (removing root expected) repository = (remove_timeline node repository root expected).0
perform node compacting repository = (compact node repository).0
perform node closing repository = (close node repository).0

-- The calls of a process, and of others, one after the other.
unfoldable pub run : Platform → List Call → Repository → Repository
run node [] repository = repository
run node (call ∷ calls) repository = run node calls (perform node call repository)
