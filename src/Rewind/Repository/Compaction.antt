-- ===== src/Rewind/Repository/Compaction.antt =====
-- packages/tui/src/modules/rewind/adapters/file-repository.ts: `compactLocked`. It removes the oldest
-- timelines until the contents that the others refer to are within the limit, and then the contents
-- that none refers to.
pub mod Counts
pub mod Tally
pub mod Loop
pub mod Collected
pub mod Kept
pub mod Bounded
use deepseek_harness_communi.Prelude.{
  ℕ, suc, ◌+◌, ◌-◌, Bool, true, false, ◌&&◌, Option, none, some, List, [], ◌∷◌, String,
  if◌then◌else◌, filter, leb, nat_beq, ◌==◌, string_eq,
}
use deepseek_harness_communi.Prelude.Sort.{sort_by}
use deepseek_harness_communi.Prelude.Table.{lookup, insert, remove}
use deepseek_harness_communi.Prelude.Result.{Result, ok, err, ◌>>=◌}
use deepseek_harness_communi.Rewind.Manifest.Json.{ObjectReference, is_hash}
use deepseek_harness_communi.Rewind.Manifest.Decode.{TimelineManifest}
use deepseek_harness_communi.Rewind.Manifest.Parse.{parse_manifest}
use deepseek_harness_communi.Rewind.Repository.Platform.{Platform}
use deepseek_harness_communi.Rewind.Repository.Storage.{
  RepositoryError, manifest_invalid, Directory, Repository, max_manifest_bytes, read_bounded,
}
use deepseek_harness_communi.Rewind.Repository.Materialize.{unique_references}

-- The name of a timeline's file, with its manifest.
abbrev pub Item : Type 0
Item = String × TimelineManifest

pub record Count : Type 0 where
  pub reference : ObjectReference
  pub count : ℕ

abbrev pub Counts : Type 0
Counts = List (String × Count)

-- The message of an error that parsing throws.
abbrev pub parsed {ℓ} : {A : Type ℓ} → Result String A → Result RepositoryError A
parsed (ok a) = ok a
parsed (err e) = err (manifest_invalid e)

-- `parseManifest(JSON.parse(source), expectedRoot)`
unfoldable pub parse_source :
    Platform → String → Option String → Result RepositoryError TimelineManifest
parse_source node source expected_root = parsed (
    node.parse source >>= λ value.
    parse_manifest node.hash node.is_absolute node.resolve node.show value expected_root)

unfoldable pub read_manifest : Platform → String → Result RepositoryError TimelineManifest
read_manifest node source =
    read_bounded node (some source) max_manifest_bytes >>= λ content. parse_source node content none

abbrev pub with_item :
    String → Result RepositoryError TimelineManifest → Option (List Item) → Option (List Item)
with_item name (ok manifest) (some items) = some ((name, manifest) ∷ items)
with_item name (ok manifest) none = none
with_item name (err e) items = none

-- None when one of the manifests is not valid.
unfoldable pub read_manifests : Platform → Directory → Option (List Item)
read_manifests node [] = some []
read_manifests node ((name, source) ∷ rest) =
    with_item name (read_manifest node source) (read_manifests node rest)

-- `existing?.count ?? 0`
abbrev pub count_of : Option Count → ℕ
count_of none = 0
count_of (some entry) = entry.count

unfoldable pub add_references : Counts → List (String × ObjectReference) → Counts
add_references counts [] = counts
add_references counts ((name, reference) ∷ rest) =
    let entry : Count = record {
      reference = reference;
      count = count_of (lookup reference.hash counts) + 1;
    } in
    add_references (insert reference.hash entry counts) rest

unfoldable pub add_manifests : Counts → List Item → Counts
add_manifests counts [] = counts
add_manifests counts ((name, manifest) ∷ rest) =
    add_manifests (add_references counts (unique_references manifest)) rest

unfoldable pub total_bytes : Counts → ℕ
total_bytes [] = 0
total_bytes ((name, entry) ∷ rest) = entry.reference.bytes + total_bytes rest

-- One reference less to an object, whose bytes go with the last one.
abbrev pub release_entry : Option Count → String → Counts → ℕ → Counts × ℕ
release_entry none name counts total = (counts, total)
release_entry (some entry) name counts total =
    if nat_beq entry.count 1
    then (remove name counts, total - entry.reference.bytes)
    else (insert name (record entry { count = entry.count - 1 }) counts, total)

unfoldable pub release_references : List (String × ObjectReference) → Counts → ℕ → Counts × ℕ
release_references [] counts total = (counts, total)
release_references ((name, reference) ∷ rest) counts total =
    let released = release_entry (lookup reference.hash counts) reference.hash counts total in
    release_references rest released.0 released.1

pub record Eviction : Type 0 where
  pub timelines : Directory
  pub counts : Counts
  pub total : ℕ

-- The loop over the timelines, the oldest first.
unfoldable pub evict : ℕ → List Item → Eviction → Eviction
evict limit [] state = state
evict limit (item ∷ rest) state =
    let released = release_references (unique_references item.1) state.counts state.total in
    let later = evict limit rest (record {
      timelines = remove item.0 state.timelines;
      counts = released.0;
      total = released.1;
    }) in
    if leb state.total limit then state else later

abbrev is_some {ℓ} : {A : Type ℓ} → Option A → Bool
is_some none = false
is_some (some a) = true

abbrev pub has : String → Counts → Bool
has name counts = is_some (lookup name counts)

unfoldable pub counted : List Item → Counts
counted items = add_manifests [] items

unfoldable pub evicted : ℕ → Directory → List Item → Eviction
evicted limit timelines items =
    evict limit (sort_by (λ item. item.1.updated_at) items) (record {
      timelines = timelines;
      counts = counted items;
      total = total_bytes (counted items);
    })

abbrev pub compact_items : Option (List Item) → Repository → Repository
compact_items none repository = repository
compact_items (some items) repository =
    let eviction = evicted repository.max_global_bytes repository.timelines items in
    record repository {
      timelines = eviction.timelines;
      objects = filter (λ file. is_hash file.0 && has file.0 eviction.counts) repository.objects;
    }

unfoldable pub compact_locked : Platform → Repository → Repository
compact_locked node repository = compact_items (read_manifests node repository.timelines) repository
