-- ===== src/Rewind/Repository/Operations/SaveLoad.antt =====
-- packages/tui/src/modules/rewind/adapters/file-repository.ts: `load` after `save`.
use deepseek_harness_communi.Prelude.{
  true, false, Option, some, [], String, ltb, ==_refl, string_eq, ◌≡◌, refl, ◌∙◌, sym, subst, ap,
  arith,
}
use deepseek_harness_communi.Prelude.Table.{
  lookup, insert, lookup-insert, AreUnique, AreUnique-insert,
}
use deepseek_harness_communi.Prelude.Result.{Result, ok, ◌>>=◌, ◌>>◌, throw_if}
use deepseek_harness_communi.Rewind.Timeline.{RewindTimeline}
use deepseek_harness_communi.Rewind.Manifest.Json.{is_hash}
use deepseek_harness_communi.Rewind.Manifest.Decode.{TimelineManifest}
use deepseek_harness_communi.Rewind.Manifest.Integrity.{references}
use deepseek_harness_communi.Rewind.Repository.Platform.{Platform}
use deepseek_harness_communi.Rewind.Repository.Storage.{
  RepositoryError, Directory, Repository, max_manifest_bytes,
}
use deepseek_harness_communi.Rewind.Repository.Store.{store}
use deepseek_harness_communi.Rewind.Repository.Materialize.{
  unique_references, sum_bytes, materialize,
}
use deepseek_harness_communi.Rewind.Repository.Encode.{manifest_json}
use deepseek_harness_communi.Rewind.Repository.Compaction.{read_manifests, compact_locked}
use deepseek_harness_communi.Rewind.Repository.Operations.{
  same_revision, current_revision, read_timeline, load_read, load_bounded, load_source, load,
  manifest_source, save,
}
use deepseek_harness_communi.Rewind.Repository.Compaction.Collected.{compact_locked-IsCompacted}
use deepseek_harness_communi.Rewind.Repository.Encode.RoundTrip.{IsManifest}
use deepseek_harness_communi.Rewind.Repository.Store.Contents.{
  Wrote, Provides, AreDistinguished, IsAddressed,
}
use deepseek_harness_communi.Rewind.Repository.Store.RoundTrip.{AreCounted, shown}
use deepseek_harness_communi.Rewind.Repository.Compaction.Kept.{
  compact_locked-limits, Provides-IsCompacted, unchanged-IsCompacted,
}
use deepseek_harness_communi.Rewind.Repository.Operations.Files.{
  if_false, StoredTimeline, store-StoredTimeline, parse_source-manifest_source,
  read_manifest-manifest_source, read_bounded-within, no_objects-IsAddressed,
}

module _ (node : Platform) (InUse : String → Type 0) (distinguished : AreDistinguished node InUse)
    (digits : (s : String) → is_hash (node.hash s) ≡ true) (repository : Repository)
    (value : RewindTimeline) (expected current : Option String) (objects : Directory)
    (manifest : TimelineManifest) where
  abbrev name : String
  name = node.hash value.workspace_root

  abbrev written : Repository
  written = record repository {
    objects = objects;
    timelines = insert name (manifest_source node manifest) repository.timelines;
  }

  stored_timeline :
      AreCounted node InUse value.nodes
      → IsAddressed node InUse repository.objects
      → store node repository.max_object_bytes value repository.objects ≡ (objects, ok manifest)
      → StoredTimeline node InUse distinguished value repository.max_object_bytes repository.objects
          objects manifest
  stored_timeline counted addressed stored =
      subst
        (Wrote (
          StoredTimeline node InUse distinguished value repository.max_object_bytes
            repository.objects))
        stored
        (store-StoredTimeline node InUse distinguished value repository.max_object_bytes
          repository.objects counted addressed)

  save-written :
      repository.closed ≡ false
      → current_revision node (lookup name repository.timelines) ≡ ok current
      → same_revision current expected ≡ true
      → store node repository.max_object_bytes value repository.objects ≡ (objects, ok manifest)
      → ltb repository.max_timeline_bytes (sum_bytes (unique_references manifest)) ≡ false
      → ltb max_manifest_bytes (node.byte_length (manifest_source node manifest)) ≡ false
      → save node repository value expected
        ≡ (compact_locked node written, ok (node.hash (manifest_source node manifest)))
  unfolding save
  save-written e f g h i j = rw (e, f, g, h, i, j) refl

  materialize-StoredTimeline :
      (after : Repository)
      → StoredTimeline node InUse distinguished value repository.max_object_bytes repository.objects
          objects manifest
      → ltb repository.max_timeline_bytes (sum_bytes (unique_references manifest)) ≡ false
      → Provides objects after.objects (references manifest.nodes)
      → materialize node repository.max_object_bytes after.objects repository.max_timeline_bytes
          manifest
        ≡ ok (shown node value)
  unfolding materialize ◌>>=◌ ◌>>◌ throw_if
  materialize-StoredTimeline after (nodes, is, s) within provides =
      let stored : manifest.nodes ≡ nodes = ap (λ (m : TimelineManifest). m.nodes) is in
      let (cache, read, good) =
        s.back after.objects []
          (subst (λ ns. Provides objects after.objects (references ns)) stored provides)
          (no_objects-IsAddressed node InUse) in
      rw (within, is, read) refl

  load_source-some :
      (after : Repository) (source : String)
      → ltb max_manifest_bytes (node.byte_length source) ≡ false
      → read_timeline node after value.workspace_root source ≡ ok (shown node value)
      → load_source node after value.workspace_root (some source)
        ≡ (after, ok (some (record { value = shown node value; revision = node.hash source })))
  load_source-some after source g h =
      ap (load_bounded node after value.workspace_root) (read_bounded-within node source g)
      ∙ ap (load_read node after name source) h

  load-written :
      (after : Repository) (source : String)
      → after.closed ≡ false
      → lookup name after.timelines ≡ some source
      → ltb max_manifest_bytes (node.byte_length source) ≡ false
      → read_timeline node after value.workspace_root source ≡ ok (shown node value)
      → load node after value.workspace_root
        ≡ (after, ok (some (record { value = shown node value; revision = node.hash source })))
  unfolding load
  load-written after source e f g h =
      if_false _ _ after.closed e
      ∙ ap (load_source node after value.workspace_root) f
      ∙ load_source-some after source g h

  read_timeline-written :
      (after : Repository)
      → after.max_object_bytes ≡ repository.max_object_bytes
      → after.max_timeline_bytes ≡ repository.max_timeline_bytes
      → manifest.workspace_root ≡ value.workspace_root
      → IsManifest node manifest
      → node.parse (manifest_source node manifest) ≡ ok (manifest_json manifest)
      → materialize node repository.max_object_bytes after.objects repository.max_timeline_bytes
          manifest
        ≡ ok (shown node value)
      → read_timeline node after value.workspace_root (manifest_source node manifest)
        ≡ ok (shown node value)
  unfolding read_timeline ◌>>=◌
  read_timeline-written after object_limit timeline_limit root is_manifest printed read =
      rw
        (parse_source-manifest_source node manifest is_manifest printed (some value.workspace_root)
          (rw (root, ==_refl value.workspace_root) refl))
        (rw (object_limit, timeline_limit) read)

  -- Take an open repository with one file for each workspace, whose objects stand under their
  -- hashes, a timeline whose byte counts are right, and a platform whose hashes have 64 hexadecimal
  -- digits and differ for the contents in use. Let the store of the contents succeed, with a
  -- manifest that passes the parser's checks (non-empty texts, safe integers, hashes, points and
  -- images that agree), that JSON.parse reads back from its file, and that fits the limits of
  -- contents and file. Then a save with the current revision succeeds; and unless the compaction
  -- evicts the timeline, a load after it gives the timeline, each reason for an effect without
  -- restoration as its text, with the revision that the save returned, and leaves the repository as
  -- it is.
  pub load-save :
      repository.closed ≡ false
      → AreUnique repository.timelines
      → IsAddressed node InUse repository.objects
      → AreCounted node InUse value.nodes
      → current_revision node (lookup name repository.timelines) ≡ ok current
      → same_revision current expected ≡ true
      → store node repository.max_object_bytes value repository.objects ≡ (objects, ok manifest)
      → IsManifest node manifest
      → node.parse (manifest_source node manifest) ≡ ok (manifest_json manifest)
      → ltb repository.max_timeline_bytes (sum_bytes (unique_references manifest)) ≡ false
      → ltb max_manifest_bytes (node.byte_length (manifest_source node manifest)) ≡ false
      → (source : String)
      → lookup name (save node repository value expected).0.timelines ≡ some source
      → ((save node repository value expected).1 ≡ ok (node.hash source))
        × (load node (save node repository value expected).0 value.workspace_root ≡ (
          (save node repository value expected).0,
          ok (some (record { value = shown node value; revision = node.hash source })),
        ))
  load-save e unique addressed counted current_is same stored is_manifest printed sum size source
        left =
      let saved = save-written e current_is same stored sum size in
      let after = compact_locked node written in
      let kept : lookup name after.timelines ≡ some source =
        subst
          (λ (r : Repository × Result RepositoryError String).
            lookup name r.0.timelines ≡ some source)
          saved left in
      let compacted =
        compact_locked-IsCompacted node written
          (AreUnique-insert name (manifest_source node manifest) repository.timelines unique) in
      let before =
        unchanged-IsCompacted node (read_manifests node written.timelines) written after name source
          compacted kept in
      let is : manifest_source node manifest ≡ source = ground (
        arith,
        before,
        lookup-insert name name (manifest_source node manifest) repository.timelines,
        ==_refl name,
      ) in
      let limits = compact_locked-limits node written in
      let s = stored_timeline counted addressed stored in
      let provides =
        Provides-IsCompacted node name (manifest_source node manifest) manifest
          (read_manifests node written.timelines) written after digits compacted
          (λ n c q. (s.2.addressed n c q).0) (kept ∙ ap some (sym is))
          (read_manifest-manifest_source node manifest is_manifest printed size) in
      let read = materialize-StoredTimeline after s sum provides in
      let loaded =
        load-written after (manifest_source node manifest) (limits.0 ∙ e) (kept ∙ ap some (sym is))
          size
          (read_timeline-written after limits.1 limits.2
            (ap (λ (m : TimelineManifest). m.workspace_root) s.1) is_manifest printed read) in
      rw (saved, ← is) (refl, loaded)
