-- ===== src/Rewind/Repository/Operations/WellFormed.antt =====
-- packages/tui/src/modules/rewind/adapters/file-repository.ts: every method keeps the directories in
-- order.
use deepseek_harness_communi.Prelude.{
  ℕ, ◌&&◌, ◌∙◌, leb, All, Option, none, some, List, [], ◌∷◌, String, ltb, string_eq, ◌≡◌, refl,
  arith,
}
use deepseek_harness_communi.Prelude.Table.{
  lookup, insert, remove, lookup-filter, insert-All, remove-All, AreUnique, AreUnique-insert,
  AreUnique-remove, AreUnique-filter,
}
use deepseek_harness_communi.Prelude.Sort.{sort_by}
use deepseek_harness_communi.Prelude.Result.{Result, ok, err}
use deepseek_harness_communi.Rewind.Timeline.{RewindTimeline}
use deepseek_harness_communi.Rewind.Manifest.Json.{is_hash}
use deepseek_harness_communi.Rewind.Manifest.Decode.{TimelineManifest, StoredPoint}
use deepseek_harness_communi.Rewind.Repository.Platform.{Platform}
use deepseek_harness_communi.Rewind.Repository.Storage.{
  RepositoryError, Directory, Repository, max_manifest_bytes, read_bounded,
}
use deepseek_harness_communi.Rewind.Repository.Store.{
  ◌>>=◌ as ◌>>>=◌, continue, pure, manifest_with, store_nodes, store,
}
use deepseek_harness_communi.Rewind.Repository.Compaction.{
  Item, Eviction, has, evict, evicted, read_manifests, compact_items, compact_locked,
}
use deepseek_harness_communi.Rewind.Repository.Operations.{
  same_revision, manifest_source, quarantine, closed_by, Call, loading, saving, removing,
  compacting, closing, perform, run, read_timeline, load_read, load_bounded, load_source, load,
  save_manifest, save_at, save, remove_at, remove_timeline, compact, close,
}
use deepseek_harness_communi.Rewind.Repository.Materialize.{unique_references, sum_bytes}
use deepseek_harness_communi.Rewind.Repository.Compaction.Collected.{compact_items-IsCollected}
use deepseek_harness_communi.Rewind.Repository.Store.Written.{AreObjects, store-AreObjects}
use deepseek_harness_communi.Rewind.Repository.Operations.Outcome.{if_cases}

module _ (node : Platform) where
  -- The text is that of a manifest, and the name the hash of the manifest's workspace.
  pub record IsNamed (name source : String) : Type 0 where
    pub manifest : TimelineManifest
    pub written : source ≡ manifest_source node manifest
    pub named : name ≡ node.hash manifest.workspace_root

  abbrev pub AreNamed : Directory → Type 0
  AreNamed timelines = All (λ file. IsNamed file.0 file.1) timelines

  -- Each workspace has one file, under its hash, and each content too.
  pub record IsWellFormed (repository : Repository) : Type 0 where
    pub timelines : AreUnique repository.timelines
    pub named : AreNamed repository.timelines
    pub objects : AreObjects node repository.objects

  -- The repository is in order after the call, however it ended.
  pub record Holds {ℓ} {A : Type ℓ} (outcome : Repository × A) : Type ℓ where
    pub after : IsWellFormed outcome.0

  evict-AreNamed :
      (limit : ℕ) (items : List Item) (state : Eviction)
      → AreNamed state.timelines
      → AreNamed (evict limit items state).timelines
  unfolding evict
  evict-AreNamed limit [] state h = h
  evict-AreNamed limit (item ∷ items) state h =
      if_cases {A = Eviction} (λ s. AreNamed s.timelines) (leb state.total limit) _ _ (λ within. h)
        λ over.
          evict-AreNamed limit items _
            (remove-All (λ file. IsNamed file.0 file.1) item.0 state.timelines h)

  unchanged {ℓ} :
      {A : Type ℓ} (repository : Repository) (a : A)
      → IsWellFormed repository
      → Holds (repository, a)
  unchanged repository a h = record { after = h }

  compact_items-IsWellFormed :
      (read : Option (List Item)) (repository : Repository)
      → read_manifests node repository.timelines ≡ read
      → IsWellFormed repository
      → IsWellFormed (compact_items read repository)
  unfolding evicted
  compact_items-IsWellFormed none repository e h = h
  compact_items-IsWellFormed (some items) repository e h = record {
    timelines = (compact_items-IsCollected node items repository e h.timelines).unique;
    named =
        evict-AreNamed repository.max_global_bytes (sort_by (λ item. item.1.updated_at) items) _
          h.named;
    objects = (
      AreUnique-filter _ repository.objects h.objects.0,
      λ name content q. h.objects.1 name content (
          ground (
            arith,
            q,
            lookup-filter
                (λ n.
                  is_hash n
                  && has n (evicted repository.max_global_bytes repository.timelines items).counts)
                name repository.objects,
          )),
    );
  }

  compact_locked-IsWellFormed :
      (repository : Repository)
      → IsWellFormed repository
      → IsWellFormed (compact_locked node repository)
  unfolding compact_locked
  compact_locked-IsWellFormed repository h =
      compact_items-IsWellFormed (read_manifests node repository.timelines) repository refl h

  load_read-Holds :
      (repository : Repository) (name source : String)
      (read : Result RepositoryError RewindTimeline)
      → IsWellFormed repository
      → Holds (load_read node repository name source read)
  unfolding quarantine
  load_read-Holds repository name source (ok value) h = unchanged repository _ h
  load_read-Holds repository name source (err error) h = record {
    after = record {
      timelines = AreUnique-remove name repository.timelines h.timelines;
      named = remove-All (λ file. IsNamed file.0 file.1) name repository.timelines h.named;
      objects = h.objects;
    };
  }

  load_source-Holds :
      (repository : Repository) (root : String) (found : Option String)
      → IsWellFormed repository
      → Holds (load_source node repository root found)
  load_source-Holds repository root none h = unchanged repository _ h
  load_source-Holds repository root (some source) h =
      bounded (read_bounded node (some source) max_manifest_bytes)
    where
      bounded :
          (read : Result RepositoryError String) → Holds (load_bounded node repository root read)
      bounded (ok content) =
          load_read-Holds repository (node.hash root) content
            (read_timeline node repository root content) h
      bounded (err error) = unchanged repository _ h

  -- What is stored is a manifest of the workspace whose hash is the name.
  abbrev IsNamedBy : String → Result RepositoryError TimelineManifest → Type 0
  IsNamedBy name (err error) = Unit
  IsNamedBy name (ok manifest) = name ≡ node.hash manifest.workspace_root

  continue-IsNamedBy :
      (value : RewindTimeline) (stored : Directory × Result RepositoryError (List StoredPoint))
      → IsNamedBy
          (node.hash value.workspace_root)
          (continue stored (λ points. pure (manifest_with node value points))).1
  continue-IsNamedBy value (objects, err error) = tt
  continue-IsNamedBy value (objects, ok points) = refl

  store-IsNamedBy :
      (limit : ℕ) (value : RewindTimeline) (objects : Directory)
      → IsNamedBy (node.hash value.workspace_root) (store node limit value objects).1
  unfolding store ◌>>>=◌
  store-IsNamedBy limit value objects =
      continue-IsNamedBy value (store_nodes node limit value.nodes objects)

  save_manifest-Holds :
      (repository : Repository) (name : String) (stored : Result RepositoryError TimelineManifest)
      → IsNamedBy name stored
      → IsWellFormed repository
      → Holds (save_manifest node repository name stored)
  save_manifest-Holds repository name (err error) b h = unchanged repository _ h
  save_manifest-Holds repository name (ok manifest) b h =
      let source = manifest_source node manifest in
      if_cases Holds (ltb repository.max_timeline_bytes (sum_bytes (unique_references manifest))) _
        _ (λ over. unchanged repository _ h)
        λ within.
          if_cases Holds (ltb max_manifest_bytes (node.byte_length source)) _ _
            (λ long. unchanged repository _ h)
            λ short. record {
              after =
                  compact_locked-IsWellFormed
                    (record repository { timelines = insert name source repository.timelines })
                    (record {
                      timelines = AreUnique-insert name source repository.timelines h.timelines;
                      named =
                          insert-All (λ file. IsNamed file.0 file.1) name source
                            repository.timelines
                            (λ j same. record {
                              manifest = manifest;
                              written = refl;
                              named = same ∙ b;
                            })
                            h.named;
                      objects = h.objects;
                    });
            }

  save_at-Holds :
      (current : Result RepositoryError (Option String)) (repository : Repository)
      (value : RewindTimeline) (expected : Option String)
      → IsWellFormed repository
      → Holds (save_at node current repository value expected)
  save_at-Holds (err error) repository value expected h = unchanged repository _ h
  save_at-Holds (ok current) repository value expected h =
      let written = store node repository.max_object_bytes value repository.objects in
      if_cases Holds (same_revision current expected) _ _
        (λ same.
          save_manifest-Holds (record repository { objects = written.0 })
            (node.hash value.workspace_root) written.1
            (store-IsNamedBy repository.max_object_bytes value repository.objects)
            (record {
              timelines = h.timelines;
              named = h.named;
              objects =
                  store-AreObjects node repository.max_object_bytes value repository.objects
                    h.objects;
            }))
        λ other. unchanged repository _ h

  remove_at-Holds :
      (current : Result RepositoryError (Option String)) (repository : Repository) (name : String)
      (expected : Option String)
      → IsWellFormed repository
      → Holds (remove_at node current repository name expected)
  remove_at-Holds (err error) repository name expected h = unchanged repository _ h
  remove_at-Holds (ok current) repository name none h =
      if_cases Holds (same_revision current none) _ _ (λ same. unchanged repository _ h)
        λ other. unchanged repository _ h
  remove_at-Holds (ok current) repository name (some expected) h =
      if_cases Holds (same_revision current (some expected)) _ _
        (λ same. record {
          after =
              compact_locked-IsWellFormed
                (record repository { timelines = remove name repository.timelines })
                (record {
                  timelines = AreUnique-remove name repository.timelines h.timelines;
                  named =
                      remove-All (λ file. IsNamed file.0 file.1) name repository.timelines h.named;
                  objects = h.objects;
                });
        })
        λ other. unchanged repository _ h

  compact-Holds :
      (repository : Repository) → IsWellFormed repository → Holds (compact node repository)
  unfolding compact
  compact-Holds repository h =
      if_cases Holds repository.closed _ _ (λ closed. unchanged repository _ h)
        λ opened. record { after = compact_locked-IsWellFormed repository h }

  closed_by-Holds :
      (outcome : Repository × Result RepositoryError (Unit {0}))
      → Holds outcome
      → Holds (closed_by node outcome)
  closed_by-Holds (repository, ok u) h = record {
    after = record {
      timelines = h.after.timelines;
      named = h.after.named;
      objects = h.after.objects;
    };
  }
  closed_by-Holds (repository, err error) h = h

  perform-IsWellFormed :
      (call : Call) (repository : Repository)
      → IsWellFormed repository
      → IsWellFormed (perform node call repository)
  unfolding perform load save remove_timeline close
  perform-IsWellFormed (loading root) repository h =
      (if_cases Holds repository.closed _ _ (λ closed. unchanged repository _ h)
        λ opened.
          load_source-Holds repository root (lookup (node.hash root) repository.timelines) h).after
  perform-IsWellFormed (saving value expected) repository h =
      (if_cases Holds repository.closed _ _ (λ closed. unchanged repository _ h)
        λ opened. save_at-Holds _ repository value expected h).after
  perform-IsWellFormed (removing root expected) repository h =
      (if_cases Holds repository.closed _ _ (λ closed. unchanged repository _ h)
        λ opened. remove_at-Holds _ repository (node.hash root) expected h).after
  perform-IsWellFormed compacting repository h = (compact-Holds repository h).after
  perform-IsWellFormed closing repository h =
      (if_cases Holds repository.closed _ _ (λ closed. unchanged repository _ h)
        λ opened. closed_by-Holds (compact node repository) (compact-Holds repository h)).after

  -- Every series of calls, whether they succeed or throw, keeps the directories in order: each
  -- timeline is the text of a manifest, its name is the hash of the manifest's workspace, and no name
  -- occurs twice, so a workspace has at most one timeline; a content has at most one file, whose name
  -- is the content's hash.
  pub run-IsWellFormed :
      (calls : List Call) (repository : Repository)
      → IsWellFormed repository
      → IsWellFormed (run node calls repository)
  unfolding run
  run-IsWellFormed [] repository h = h
  run-IsWellFormed (call ∷ calls) repository h =
      run-IsWellFormed calls (perform node call repository) (perform-IsWellFormed call repository h)
