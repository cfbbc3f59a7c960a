-- ===== src/Rewind/Repository/Compaction/Counts.antt =====
-- packages/tui/src/modules/rewind/adapters/file-repository.ts: the counts of `compactLocked`. The count
-- of an object is the number of manifests that refer to it, while manifests are added and released.
use deepseek_harness_communi.Prelude.{
  ℕ, ◌+◌, ◌-◌, max, Bool, Option, none, some, List, [], ◌∷◌, String, if◌then◌else◌, filter, any,
  length, ◌==◌, ==_iff, string_eq, ◌≡◌, refl, All, arith,
}
use deepseek_harness_communi.Prelude.Table.{
  lookup, insert, lookup-insert, lookup-remove, insert-All,
}
use deepseek_harness_communi.Rewind.Manifest.Json.{ObjectReference}
use deepseek_harness_communi.Rewind.Manifest.Integrity.{references}
use deepseek_harness_communi.Rewind.Repository.Materialize.{unique_onto, unique_references}
use deepseek_harness_communi.Rewind.Repository.Compaction.{
  Item, Count, Counts, count_of, add_references, add_manifests, release_entry, release_references,
}

abbrev pub refers_to : String → Item → Bool
refers_to name item = any (λ r. r.hash == name) (references item.1.nodes)

-- How many of the manifests refer to an object.
abbrev pub referrers : String → List Item → ℕ
referrers name items = length (filter (refers_to name) items)

-- How often the values of a map refer to an object.
abbrev pub mentions : String → List (String × ObjectReference) → ℕ
mentions name table = length (filter (λ en. en.1.hash == name) table)

abbrev IsKeyed : String × ObjectReference → Type 0
IsKeyed entry = entry.0 ≡ entry.1.hash

module _ (name : String) where
  mentions-insert :
      (r : ObjectReference) (table : List (String × ObjectReference))
      → All IsKeyed table
      → mentions name (insert r.hash r table)
        ≡ (if r.hash == name then max 1 (mentions name table) else mentions name table)
  unfolding insert
  mentions-insert r [] h = ground arith
  mentions-insert r ((i, old) ∷ table) h =
      let key : i ≡ old.hash = h.0 in
      ground (
        arith,
        key,
        mentions-insert r table h.1,
        ==_iff old.hash name,
        ==_iff i r.hash,
        ==_iff r.hash name,
      )

  mentions-unique_onto :
      (table : List (String × ObjectReference)) (rs : List ObjectReference)
      → All IsKeyed table
      → mentions name (unique_onto table rs) ≡ (
          if any (λ r. r.hash == name) rs then max 1 (mentions name table) else mentions name table)
  unfolding unique_onto
  mentions-unique_onto table [] h = refl
  mentions-unique_onto table (r ∷ rs) h =
      let keyed = insert-All IsKeyed r.hash r table (λ j e. e) h in
      ground
        (arith, mentions-unique_onto (insert r.hash r table) rs keyed, mentions-insert r table h)

  mentions-unique_references :
      (item : Item)
      → mentions name (unique_references item.1) ≡ (if refers_to name item then 1 else 0)
  unfolding unique_references
  mentions-unique_references item = mentions-unique_onto [] (references item.1.nodes) tt

  count-add_references :
      (counts : Counts) (table : List (String × ObjectReference))
      → count_of (lookup name (add_references counts table))
        ≡ count_of (lookup name counts) + mentions name table
  unfolding add_references
  count-add_references counts [] = omega arith
  count-add_references counts ((key, r) ∷ table) =
      let entry : Count = record { reference = r; count = count_of (lookup r.hash counts) + 1 } in
      ground (
        arith,
        count-add_references (insert r.hash entry counts) table,
        lookup-insert r.hash name entry counts,
        ==_iff r.hash name,
      )

  pub count-add_manifests :
      (counts : Counts) (items : List Item)
      → count_of (lookup name (add_manifests counts items))
        ≡ count_of (lookup name counts) + referrers name items
  unfolding add_manifests
  count-add_manifests counts [] = omega arith
  count-add_manifests counts (item ∷ items) = ground (
    arith,
    count-add_manifests (add_references counts (unique_references item.1)) items,
    count-add_references counts (unique_references item.1),
    mentions-unique_references item,
  )

  count-release_entry :
      (found : Option Count) (key : String) (counts : Counts) (total : ℕ)
      → lookup key counts ≡ found
      → count_of (lookup name (release_entry found key counts total).0)
        ≡ (if key == name then count_of (lookup name counts) - 1 else count_of (lookup name counts))
  count-release_entry none key counts total e = ground (arith, ==_iff key name)
  count-release_entry (some entry) key counts total e = ground (
    arith,
    ==_iff key name,
    lookup-remove key name counts,
    lookup-insert key name (record entry { count = entry.count - 1 }) counts,
  )

  count-mentions :
      (table : List (String × ObjectReference)) (counts : Counts) (total : ℕ)
      → count_of (lookup name (release_references table counts total).0)
        ≡ count_of (lookup name counts) - mentions name table
  unfolding release_references
  count-mentions [] counts total = omega arith
  count-mentions ((key, r) ∷ table) counts total =
      let released = release_entry (lookup r.hash counts) r.hash counts total in
      ground (
        arith,
        count-mentions table released.0 released.1,
        count-release_entry (lookup r.hash counts) r.hash counts total refl,
      )

  pub count-release_references :
      (item : Item) (items : List Item) (counts : Counts) (total : ℕ)
      → count_of (lookup name counts) ≡ referrers name (item ∷ items)
      → count_of (lookup name (release_references (unique_references item.1) counts total).0)
        ≡ referrers name items
  count-release_references item items counts total h = ground (
    arith,
    count-mentions (unique_references item.1) counts total,
    mentions-unique_references item,
    h,
  )
