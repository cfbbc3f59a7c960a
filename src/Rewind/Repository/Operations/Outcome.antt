-- ===== src/Rewind/Repository/Operations/Outcome.antt =====
-- packages/tui/src/modules/rewind/adapters/file-repository.ts: what a `save` and a `remove` come to, with
-- the revision that their caller expects.
use deepseek_harness_communi.Prelude.{
  Bool, true, false, Option, none, some, String, if◌then◌else◌, ltb, ==_iff, string_eq, ◌≡◌, refl,
  ◌∙◌, ap, arith,
}
use deepseek_harness_communi.Prelude.Table.{lookup, insert}
use deepseek_harness_communi.Prelude.Result.{Result, ok, err}
use deepseek_harness_communi.Rewind.Timeline.{RewindTimeline}
use deepseek_harness_communi.Rewind.Manifest.Decode.{TimelineManifest}
use deepseek_harness_communi.Rewind.Repository.Platform.{Platform}
use deepseek_harness_communi.Rewind.Repository.Storage.{
  RepositoryError, Repository, max_manifest_bytes,
}
use deepseek_harness_communi.Rewind.Repository.Store.{store}
use deepseek_harness_communi.Rewind.Repository.Materialize.{unique_references, sum_bytes}
use deepseek_harness_communi.Rewind.Repository.Compaction.{compact_locked}
use deepseek_harness_communi.Rewind.Repository.Operations.{
  same_revision, current_revision, manifest_source, save_manifest, save_stored, save_at, save,
}
use deepseek_harness_communi.Rewind.Repository.Store.Contents.{Extends}
use deepseek_harness_communi.Rewind.Repository.Store.Written.{store-Extends}

same_revision-eq :
    (current expected : Option String) → same_revision current expected ≡ true → current ≡ expected
same_revision-eq none none h = refl
same_revision-eq none (some expected) h = absurd (ground (arith, h))
same_revision-eq (some current) none h = absurd (ground (arith, h))
same_revision-eq (some current) (some expected) h = ap some ((==_iff current expected).0 h)

-- What holds of both branches of a test.
pub if_cases {ℓ κ} :
    {A : Type ℓ} (P : A → Type κ) (t : Bool) (x y : A)
    → (t ≡ true → P x)
    → (t ≡ false → P y)
    → P (if t then x else y)
if_cases P true x y f g = f refl
if_cases P false x y f g = g refl

-- A call that throws leaves the timelines, and at most adds objects.
abbrev pub IsUnsaved : Repository → Repository → Type 0
IsUnsaved before after =
    (after.timelines ≡ before.timelines)
    × (after.corrupt ≡ before.corrupt)
    × Extends before.objects after.objects

module _ (node : Platform) where
  -- The text is written under the name, in a repository with more objects, which is then compacted.
  pub record IsWritten (before after : Repository) (name revision : String) : Type 0 where
    pub stored : Repository
    pub unsaved : IsUnsaved before stored
    pub source : String
    pub hashed : revision ≡ node.hash source
    pub compacted :
        after
        ≡ compact_locked node (record stored { timelines = insert name source stored.timelines })

  abbrev pub IsManifestSaved :
      Repository → String → Repository × Result RepositoryError String → Type 0
  IsManifestSaved before name (after, ok revision) = IsWritten before after name revision
  IsManifestSaved before name (after, err error) = IsUnsaved before after

  abbrev pub IsSaved :
      Repository → String → Option String → Repository × Result RepositoryError String → Type 0
  IsSaved before name expected (after, ok revision) =
      (current_revision node (lookup name before.timelines) ≡ ok expected)
      × IsWritten before after name revision
  IsSaved before name expected (after, err error) = IsUnsaved before after

  save_manifest-IsManifestSaved :
      (before repository : Repository) (name : String)
      (stored : Result RepositoryError TimelineManifest)
      → IsUnsaved before repository
      → IsManifestSaved before name (save_manifest node repository name stored)
  save_manifest-IsManifestSaved before repository name (err error) h = h
  save_manifest-IsManifestSaved before repository name (ok manifest) h =
      if_cases (IsManifestSaved before name)
        (ltb repository.max_timeline_bytes (sum_bytes (unique_references manifest))) _ _ (λ over. h)
        λ within.
          if_cases (IsManifestSaved before name)
            (ltb max_manifest_bytes (node.byte_length (manifest_source node manifest))) _ _
            (λ long. h)
            λ short. record {
              stored = repository;
              unsaved = h;
              source = manifest_source node manifest;
              hashed = refl;
              compacted = refl;
            }

  with_revision :
      (before : Repository) (name : String) (expected : Option String)
      (outcome : Repository × Result RepositoryError String)
      → current_revision node (lookup name before.timelines) ≡ ok expected
      → IsManifestSaved before name outcome
      → IsSaved before name expected outcome
  with_revision before name expected (after, ok revision) e h = (e, h)
  with_revision before name expected (after, err error) e h = h

  save_at-IsSaved :
      (current : Result RepositoryError (Option String)) (repository : Repository)
      (value : RewindTimeline) (expected : Option String)
      → current_revision node (lookup (node.hash value.workspace_root) repository.timelines)
        ≡ current
      → IsSaved repository
          (node.hash value.workspace_root)
          expected
          (save_at node current repository value expected)
  save_at-IsSaved (err error) repository value expected e = (refl, refl, λ name content q. q)
  save_at-IsSaved (ok current) repository value expected e =
      let name = node.hash value.workspace_root in
      let written = store node repository.max_object_bytes value repository.objects in
      if_cases (IsSaved repository name expected) (same_revision current expected) _ _
        (λ same.
          with_revision repository name expected (save_stored node repository name written)
            (e ∙ ap ok (same_revision-eq current expected same))
            (save_manifest-IsManifestSaved repository (record repository { objects = written.0 })
              name written.1
              (
                refl,
                refl,
                store-Extends node repository.max_object_bytes value repository.objects,
              )))
        λ other. (refl, refl, λ n content q. q)

  -- A save succeeds only when the expected revision is that of the file that is there. It then writes
  -- the file, with the revision that it returns, adds objects, and compacts the repository. A save that
  -- throws, for a stale revision, a limit or a closed repository, leaves the timelines as they were, and
  -- every object.
  pub save-IsSaved :
      (repository : Repository) (value : RewindTimeline) (expected : Option String)
      → IsSaved repository
          (node.hash value.workspace_root)
          expected
          (save node repository value expected)
  unfolding save
  save-IsSaved repository value expected =
      if_cases (IsSaved repository (node.hash value.workspace_root) expected) repository.closed _ _
        (λ closed. (refl, refl, λ n content q. q))
        λ opened. save_at-IsSaved _ repository value expected refl
