-- ===== src/Rewind/Repository/Operations/Files.antt =====
-- packages/tui/src/modules/rewind/adapters/file-repository.ts: the two files of a save, the manifest and
-- its text, as `load` reads them.
use deepseek_harness_communi.Prelude.{
  ℕ, Bool, false, Option, none, some, List, [], String, if◌then◌else◌, ltb, string_eq, ◌≡◌, refl,
}
use deepseek_harness_communi.Prelude.Table.{lookup}
use deepseek_harness_communi.Prelude.Result.{ok, ◌>>=◌}
use deepseek_harness_communi.Rewind.Timeline.{RewindTimeline}
use deepseek_harness_communi.Rewind.Manifest.Decode.{StoredPoint, TimelineManifest}
use deepseek_harness_communi.Rewind.Manifest.Parse.{is_other_root}
use deepseek_harness_communi.Rewind.Repository.Platform.{Platform}
use deepseek_harness_communi.Rewind.Repository.Storage.{Directory, max_manifest_bytes, read_bounded}
use deepseek_harness_communi.Rewind.Repository.Store.{
  ◌>>=◌ as ◌>>>=◌, manifest_with, store_nodes, store,
}
use deepseek_harness_communi.Rewind.Repository.Encode.{manifest_json}
use deepseek_harness_communi.Rewind.Repository.Compaction.{parse_source, read_manifest}
use deepseek_harness_communi.Rewind.Repository.Operations.{manifest_source}
use deepseek_harness_communi.Rewind.Repository.Encode.RoundTrip.{
  IsManifest, parse_manifest-manifest_json,
}
use deepseek_harness_communi.Rewind.Repository.Store.Contents.{
  Wrote, Wrote-continue, AreDistinguished, IsAddressed,
}
use deepseek_harness_communi.Rewind.Repository.Store.RoundTrip.{
  AreCounted, NodesStored, store_nodes-StoredAs,
}

pub if_false {ℓ} : {A : Type ℓ} (a b : A) (t : Bool) → t ≡ false → (if t then a else b) ≡ b
if_false a b t e = rw e refl

module _ (node : Platform) (InUse : String → Type 0) (distinguished : AreDistinguished node InUse)
    (value : RewindTimeline) where
  abbrev pub StoredTimeline : ℕ → Directory → Directory → TimelineManifest → Type 0
  StoredTimeline limit before after manifest =
      (nodes : List StoredPoint) × (manifest ≡ manifest_with node value nodes)
      × NodesStored node InUse distinguished limit value.nodes before after nodes

  pub store-StoredTimeline :
      (limit : ℕ) (objects : Directory)
      → AreCounted node InUse value.nodes
      → IsAddressed node InUse objects
      → Wrote (StoredTimeline limit objects) (store node limit value objects)
  unfolding store ◌>>>=◌
  store-StoredTimeline limit objects u h =
      Wrote-continue (NodesStored node InUse distinguished limit value.nodes objects)
        (StoredTimeline limit objects) (store_nodes node limit value.nodes objects) _
        (store_nodes-StoredAs node InUse distinguished limit value.nodes objects u h)
        λ after nodes s. (nodes, refl, s)

module _ (node : Platform) (manifest : TimelineManifest) (is_manifest : IsManifest node manifest)
    (printed : node.parse (manifest_source node manifest) ≡ ok (manifest_json manifest)) where
  pub parse_source-manifest_source :
      (expected_root : Option String)
      → is_other_root expected_root manifest.workspace_root ≡ false
      → parse_source node (manifest_source node manifest) expected_root ≡ ok manifest
  unfolding parse_source ◌>>=◌
  parse_source-manifest_source expected_root h =
      rw (printed, parse_manifest-manifest_json node manifest expected_root is_manifest h) refl

  pub read_manifest-manifest_source :
      ltb max_manifest_bytes (node.byte_length (manifest_source node manifest)) ≡ false
      → read_manifest node (manifest_source node manifest) ≡ ok manifest
  unfolding read_manifest read_bounded ◌>>=◌
  read_manifest-manifest_source within = rw (within, parse_source-manifest_source none refl) refl

pub read_bounded-within :
    (node : Platform) (source : String)
    → ltb max_manifest_bytes (node.byte_length source) ≡ false
    → read_bounded node (some source) max_manifest_bytes ≡ ok source
unfolding read_bounded
read_bounded-within node source h = rw h refl

pub no_objects-IsAddressed : (node : Platform) (InUse : String → Type 0) → IsAddressed node InUse []
unfolding lookup
no_objects-IsAddressed node InUse name content e = cc
