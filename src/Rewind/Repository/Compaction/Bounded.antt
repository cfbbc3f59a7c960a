-- ===== src/Rewind/Repository/Compaction/Bounded.antt =====
-- packages/tui/src/modules/rewind/adapters/file-repository.ts: `maxGlobalBytes` bounds the objects that
-- `compactLocked` leaves.
use deepseek_harness_communi.Prelude.{
  ℕ, ◌+◌, ◌≤◌, Bool, false, ◌&&◌, Option, none, some, List, [], ◌∷◌, String, if◌then◌else◌, filter,
  leb, nat_beq, ◌==◌, ==_iff, ==_refl, string_eq, ◌≡◌, refl, sym, subst, All, Bool-cases,
  Option-cases, inl, inr, arith,
}
use deepseek_harness_communi.Prelude.Table.{
  lookup, insert, remove, lookup-remove, insert-All, lookup-All, remove-All, entries_of, AreUnique,
  AreUnique-remove, AreUnique-first, AreUnique-rest, lookup-rest,
}
use deepseek_harness_communi.Rewind.Manifest.Json.{ObjectReference, is_hash}
use deepseek_harness_communi.Rewind.Manifest.Integrity.{references}
use deepseek_harness_communi.Rewind.Repository.Platform.{Platform}
use deepseek_harness_communi.Rewind.Repository.Storage.{Directory, Repository}
use deepseek_harness_communi.Rewind.Repository.Materialize.{unique_onto, unique_references}
use deepseek_harness_communi.Rewind.Repository.Compaction.{
  Item, Count, Counts, count_of, has, counted, add_references, add_manifests, total_bytes,
  release_entry, release_references, Eviction, evict, evicted, read_manifests, compact_locked,
}
use deepseek_harness_communi.Rewind.Repository.Compaction.Tally.{total_bytes-remove}
use deepseek_harness_communi.Rewind.Repository.Compaction.Loop.{next, IsWithin, evicted-IsWithin}

-- The sum of the sizes of the files.
unfoldable pub directory_bytes : Platform → Directory → ℕ
directory_bytes node [] = 0
directory_bytes node ((name, content) ∷ files) =
    node.byte_length content + directory_bytes node files

module _ (node : Platform) (objects : Directory) where
  -- The byte count of a reference is the size of its object.
  abbrev pub Fits : String → ObjectReference → Type 0
  Fits name reference =
      (content : String)
      → lookup name objects ≡ some content
      → node.byte_length content ≡ reference.bytes

  abbrev pub IsSized : Item → Type 0
  IsSized item = All (λ r. Fits r.hash r) (references item.1.nodes)

  abbrev FitsEntry : String × Count → Type 0
  FitsEntry entry = Fits entry.0 entry.1.reference

  abbrev FitsReference : String × ObjectReference → Type 0
  FitsReference entry = Fits entry.1.hash entry.1

  unique_onto-Fits :
      (table : List (String × ObjectReference)) (rs : List ObjectReference)
      → All FitsReference table
      → All (λ r. Fits r.hash r) rs
      → All FitsReference (unique_onto table rs)
  unfolding unique_onto
  unique_onto-Fits table [] h k = h
  unique_onto-Fits table (r ∷ rs) h k =
      unique_onto-Fits (insert r.hash r table) rs
        (insert-All FitsReference r.hash r table (λ j e. k.0) h) k.1

  unique_references-Fits :
      (item : Item) → IsSized item → All FitsReference (unique_references item.1)
  unfolding unique_references
  unique_references-Fits item h = unique_onto-Fits [] (references item.1.nodes) tt h

  add_references-Fits :
      (counts : Counts) (table : List (String × ObjectReference))
      → All FitsEntry counts
      → All FitsReference table
      → All FitsEntry (add_references counts table)
  unfolding add_references
  add_references-Fits counts [] h k = h
  add_references-Fits counts ((key, r) ∷ table) h k =
      let entry : Count = record { reference = r; count = count_of (lookup r.hash counts) + 1 } in
      add_references-Fits (insert r.hash entry counts) table
        (insert-All FitsEntry r.hash entry counts (λ j e. subst (λ n. Fits n r) (sym e) k.0) h) k.1

  add_manifests-Fits :
      (counts : Counts) (items : List Item)
      → All FitsEntry counts
      → All IsSized items
      → All FitsEntry (add_manifests counts items)
  unfolding add_manifests
  add_manifests-Fits counts [] h k = h
  add_manifests-Fits counts (item ∷ items) h k =
      add_manifests-Fits (add_references counts (unique_references item.1)) items
        (add_references-Fits counts (unique_references item.1) h (unique_references-Fits item k.0))
        k.1

  release_entry-Fits :
      (found : Option Count) (name : String) (counts : Counts) (total : ℕ)
      → lookup name counts ≡ found
      → All FitsEntry counts
      → All FitsEntry (release_entry found name counts total).0
  release_entry-Fits none name counts total e h = h
  release_entry-Fits (some entry) name counts total e h =
      let here : Fits name entry.reference = lookup-All FitsEntry name entry counts h e in
      elim (Bool-cases (nat_beq entry.count 1)) [
        | inl last ↦ rw last (remove-All FitsEntry name counts h)
        | inr more ↦ rw more (
            insert-All FitsEntry name _ counts
              (λ j q. subst (λ n. Fits n entry.reference) (sym q) here) h)
      ]

  release_references-Fits :
      (table : List (String × ObjectReference)) (counts : Counts) (total : ℕ)
      → All FitsEntry counts
      → All FitsEntry (release_references table counts total).0
  unfolding release_references
  release_references-Fits [] counts total h = h
  release_references-Fits ((key, r) ∷ table) counts total h =
      let released = release_entry (lookup r.hash counts) r.hash counts total in
      release_references-Fits table released.0 released.1
        (release_entry-Fits (lookup r.hash counts) r.hash counts total refl h)

  evict-Fits :
      (limit : ℕ) (items : List Item) (state : Eviction)
      → All FitsEntry state.counts
      → All FitsEntry (evict limit items state).counts
  unfolding evict
  evict-Fits limit [] state h = h
  evict-Fits limit (item ∷ items) state h =
      let later =
        evict-Fits limit items (next item state)
          (release_references-Fits (unique_references item.1) state.counts state.total h) in
      elim (Bool-cases (leb state.total limit)) [
        | inl enough ↦ rw enough h
        | inr more ↦ rw more later
      ]

  evicted-Fits :
      (limit : ℕ) (timelines : Directory) (items : List Item)
      → All IsSized items
      → All FitsEntry (evicted limit timelines items).counts
  unfolding evicted counted
  evicted-Fits limit timelines items h = evict-Fits limit _ _ (add_manifests-Fits [] items tt h)

module _ (node : Platform) where
  -- The bytes of the files that are counted.
  counted_bytes : Counts → Directory → ℕ
  counted_bytes counts [] = 0
  counted_bytes counts ((name, content) ∷ files) =
      (if has name counts then node.byte_length content else 0) + counted_bytes counts files

  counted_bytes-remove :
      (name : String) (counts : Counts) (files : Directory)
      → entries_of name files ≡ 0
      → counted_bytes (remove name counts) files ≡ counted_bytes counts files
  unfolding counted_bytes entries_of
  counted_bytes-remove name counts [] h = refl
  counted_bytes-remove name counts ((key, content) ∷ files) h =
      let other : (name == key) ≡ false = ground (arith, h, ==_iff key name, ==_iff name key) in
      let rest : entries_of name files ≡ 0 = ground (arith, h) in
      rw (lookup-remove name key counts, other, counted_bytes-remove name counts files rest) refl

  bytes-filter :
      (p : String → Bool) (counts : Counts) (files : Directory)
      → directory_bytes node (filter (λ file. p file.0 && has file.0 counts) files)
        ≤ counted_bytes counts files
  unfolding counted_bytes directory_bytes
  bytes-filter p counts [] = omega arith
  bytes-filter p counts ((key, content) ∷ files) = ground (arith, bytes-filter p counts files)

  counted_bytes-total_bytes :
      (counts : Counts) (files : Directory)
      → AreUnique counts
      → AreUnique files
      → ((name content : String) (entry : Count)
          → lookup name files ≡ some content
          → lookup name counts ≡ some entry
          → node.byte_length content ≡ entry.reference.bytes)
      → counted_bytes counts files ≤ total_bytes counts
  unfolding counted_bytes lookup
  counted_bytes-total_bytes counts [] u v h = omega arith
  counted_bytes-total_bytes counts ((key, content) ∷ files) u v h =
      let rest = AreUnique-rest key content files v in
      elim (Option-cases (lookup key counts)) [
        | inl absent ↦
            let later =
              counted_bytes-total_bytes counts files u rest
                λ name c entry e q. h name c entry (lookup-rest key name content c files v e) q in
            rw absent (omega (arith, later))
        | inr (entry, found) ↦
            let size = h key content entry (rw (==_refl key) refl) found in
            let left = remove key counts in
            let later =
              counted_bytes-total_bytes left files (AreUnique-remove key counts u) rest
                λ name c other e q.
                  h name c other (lookup-rest key name content c files v e)
                    (ground (arith, q, lookup-remove key name counts)) in
            let same =
              counted_bytes-remove key counts files (AreUnique-first key content files v) in
            rw found (omega (arith, size, later, same, total_bytes-remove key entry counts u found))
      ]

  evicted-directory_bytes :
      (limit : ℕ) (timelines objects : Directory) (items : List Item) (p : String → Bool)
      → read_manifests node timelines ≡ some items
      → AreUnique timelines
      → AreUnique objects
      → All (IsSized node objects) items
      → directory_bytes node
          (filter (λ file. p file.0 && has file.0 (evicted limit timelines items).counts) objects)
        ≤ limit
  unfolding IsWithin
  evicted-directory_bytes limit timelines objects items p listed unique files sized =
      let (left, tracks, within) = evicted-IsWithin node limit timelines items listed unique in
      let counts = (evicted limit timelines items).counts in
      let fits = evicted-Fits node objects limit timelines items sized in
      let bound =
        counted_bytes-total_bytes counts objects tracks.tally.unique files λ name content entry e q.
          lookup-All (FitsEntry node objects) name entry counts fits q content e in
      omega (arith, bytes-filter p counts objects, bound, tracks.tally.sum, within)

  -- When every manifest is valid, and the byte counts of the references are the sizes of their objects,
  -- the objects that a compaction leaves have no more bytes together than the limit of the repository.
  pub compact_locked-directory_bytes :
      (repository : Repository) (items : List Item)
      → read_manifests node repository.timelines ≡ some items
      → AreUnique repository.timelines
      → AreUnique repository.objects
      → All (IsSized node repository.objects) items
      → directory_bytes node (compact_locked node repository).objects ≤ repository.max_global_bytes
  unfolding compact_locked
  compact_locked-directory_bytes repository items listed unique files sized = rw listed (
      evicted-directory_bytes repository.max_global_bytes repository.timelines repository.objects
        items is_hash listed unique files sized)
