-- ===== src/Rewind/Repository/Compaction/Kept.antt =====
-- packages/tui/src/modules/rewind/adapters/file-repository.ts: the timelines that `compactLocked` leaves keep
-- their objects.
use deepseek_harness_communi.Prelude.{
  Bool, true, Option, none, some, List, [], ◌∷◌, String, any, ◌==◌, ==_iff, ==_refl, string_eq, ◌≡◌,
  refl, ◌∙◌, sym, subst, All, All-map_of, Bool-cases, inl, inr, arith,
}
use deepseek_harness_communi.Prelude.Table.{lookup}
use deepseek_harness_communi.Prelude.Result.{Result, ok}
use deepseek_harness_communi.Rewind.Manifest.Json.{ObjectReference, is_hash}
use deepseek_harness_communi.Rewind.Manifest.Decode.{TimelineManifest}
use deepseek_harness_communi.Rewind.Manifest.Integrity.{references}
use deepseek_harness_communi.Rewind.Repository.Platform.{Platform}
use deepseek_harness_communi.Rewind.Repository.Storage.{RepositoryError, Directory, Repository}
use deepseek_harness_communi.Rewind.Repository.Compaction.{
  Item, read_manifest, read_manifests, compact_items, compact_locked,
}
use deepseek_harness_communi.Rewind.Repository.Compaction.Counts.{refers_to}
use deepseek_harness_communi.Rewind.Repository.Compaction.Loop.{with_item-eq-some}
use deepseek_harness_communi.Rewind.Repository.Compaction.Collected.{IsCompacted}
use deepseek_harness_communi.Rewind.Repository.Store.Contents.{Provides}

-- Every reference of a list is one of it.
any_self : (rs : List ObjectReference) → All (λ r. any (λ s. s.hash == r.hash) rs ≡ true) rs
any_self [] = tt
any_self (r ∷ rs) = (
  ground (arith, ==_refl r.hash),
  All-map_of (λ t. any (λ s. s.hash == t.hash) (r ∷ rs) ≡ true) (λ t e. ground (arith, e)) rs
      (any_self rs),
)

any-lookup :
    (p : Item → Bool) (name : String) (manifest : TimelineManifest) (items : List Item)
    → lookup name items ≡ some manifest
    → p (name, manifest) ≡ true
    → any p items ≡ true
unfolding lookup
any-lookup p name manifest [] e h = cc
any-lookup p name manifest ((key, m) ∷ items) e h = elim (Bool-cases (key == name)) [
  | inl same ↦
      let key_name : key ≡ name = (==_iff key name).0 same in
      let is : m ≡ manifest = ground arith in rw (key_name, is, h) refl
  | inr other ↦ ground (arith, any-lookup p name manifest items (ground arith) h)
]

pub lookup-read_manifests :
    (node : Platform) (name source : String) (manifest : TimelineManifest) (timelines : Directory)
    (items : List Item)
    → read_manifests node timelines ≡ some items
    → lookup name timelines ≡ some source
    → read_manifest node source ≡ ok manifest
    → lookup name items ≡ some manifest
unfolding lookup read_manifests
lookup-read_manifests node name source manifest [] items e f g = cc
lookup-read_manifests node name source manifest ((key, text) ∷ timelines) items e f g =
    let (m, others, read, rest, is) =
      with_item-eq-some node key (read_manifest node text) (read_manifests node timelines) items
        e in
    elim (Bool-cases (key == name)) [
      | inl same ↦
          let source_is : text ≡ source = ground arith in
          let manifest_is : m ≡ manifest =
            let both : ◌≡◌ {A = Result RepositoryError TimelineManifest} (ok m) (ok manifest) =
              sym read ∙ subst (λ s. read_manifest node s ≡ ok manifest) (sym source_is) g in
            cc in
          rw (is, same, manifest_is) refl
      | inr other ↦
          rw (is, other)
            (lookup-read_manifests node name source manifest timelines others rest (ground arith) g)
    ]

-- Compaction changes the files only.
compact_items-limits :
    (read : Option (List Item)) (repository : Repository)
    → ((compact_items read repository).closed ≡ repository.closed)
      × ((compact_items read repository).max_object_bytes ≡ repository.max_object_bytes)
      × ((compact_items read repository).max_timeline_bytes ≡ repository.max_timeline_bytes)
compact_items-limits none repository = (refl, refl, refl)
compact_items-limits (some items) repository = (refl, refl, refl)

Provides-any :
    (objects final : Directory) (all_rs rs : List ObjectReference)
    → ((r : ObjectReference)
        → any (λ s. s.hash == r.hash) all_rs ≡ true
        → (content : String) → lookup r.hash objects ≡ some content
        → lookup r.hash final ≡ some content)
    → All (λ r. any (λ s. s.hash == r.hash) all_rs ≡ true) rs
    → Provides objects final rs
Provides-any objects final all_rs [] f h = tt
Provides-any objects final all_rs (r ∷ rs) f h =
    (f r h.0, Provides-any objects final all_rs rs f h.1)

pub compact_locked-limits :
    (node : Platform) (repository : Repository)
    → ((compact_locked node repository).closed ≡ repository.closed)
      × ((compact_locked node repository).max_object_bytes ≡ repository.max_object_bytes)
      × ((compact_locked node repository).max_timeline_bytes ≡ repository.max_timeline_bytes)
unfolding compact_locked
compact_locked-limits node repository =
    compact_items-limits (read_manifests node repository.timelines) repository

-- The objects of a timeline that is left are there as before.
pub Provides-IsCompacted :
    (node : Platform) (name source : String) (manifest : TimelineManifest)
    (read : Option (List Item)) (before after : Repository)
    → ((s : String) → is_hash (node.hash s) ≡ true)
    → IsCompacted node read before after
    → ((n c : String) → lookup n before.objects ≡ some c → node.hash c ≡ n)
    → lookup name after.timelines ≡ some source
    → read_manifest node source ≡ ok manifest
    → Provides before.objects after.objects (references manifest.nodes)
Provides-IsCompacted node name source manifest none before after digits h addressed left g =
    let rs = references manifest.nodes in
    Provides-any before.objects after.objects rs rs
      (λ r referred content e.
        subst (λ (a : Repository). lookup r.hash a.objects ≡ some content) (sym h) e)
      (any_self rs)
Provides-IsCompacted node name source manifest (some items) before after digits h addressed left g =
    let rs = references manifest.nodes in
    let listed =
      lookup-read_manifests node name source manifest after.timelines h.kept h.listed left g in
    Provides-any before.objects after.objects rs rs
      (λ r referred content e.
        let kept = any-lookup (refers_to r.hash) name manifest h.kept listed referred in
        let hashed : is_hash r.hash ≡ true =
          subst (λ n. is_hash n ≡ true) (addressed r.hash content e) (digits content) in
        h.objects r.hash ∙ rw (hashed, kept) e)
      (any_self rs)

-- A file that is left has its text of before.
pub unchanged-IsCompacted :
    (node : Platform) (read : Option (List Item)) (before after : Repository) (name source : String)
    → IsCompacted node read before after
    → lookup name after.timelines ≡ some source
    → lookup name before.timelines ≡ some source
unchanged-IsCompacted node none before after name source h e =
    subst (λ (a : Repository). lookup name a.timelines ≡ some source) h e
unchanged-IsCompacted node (some items) before after name source h e = h.unchanged name source e
