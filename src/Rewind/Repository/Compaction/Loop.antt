-- ===== src/Rewind/Repository/Compaction/Loop.antt =====
-- packages/tui/src/modules/rewind/adapters/file-repository.ts: the loop of `compactLocked` over the
-- timelines, from the oldest to the newest.
use deepseek_harness_communi.Prelude.{
  ℕ, ◌≤◌, Bool, not, ◌&&◌, Option, none, some, List, [], ◌∷◌, String, filter, length, leb, ◌==◌,
  ==_iff, string_eq, ◌≡◌, refl, subst, Bool-cases, inl, inr, arith,
}
use deepseek_harness_communi.Prelude.Sort.{sort_by, length-filter-sort_by}
use deepseek_harness_communi.Prelude.Result.{Result, ok, err}
use deepseek_harness_communi.Prelude.Table.{lookup, remove, entries_of, AreUnique, AreUnique-remove}
use deepseek_harness_communi.Rewind.Manifest.Decode.{TimelineManifest}
use deepseek_harness_communi.Rewind.Repository.Platform.{Platform}
use deepseek_harness_communi.Rewind.Repository.Storage.{RepositoryError, Directory}
use deepseek_harness_communi.Rewind.Repository.Materialize.{unique_references}
use deepseek_harness_communi.Rewind.Repository.Compaction.{
  Item, Counts, count_of, total_bytes, release_references, Eviction, evict, evicted, counted,
  with_item, read_manifest, read_manifests,
}
use deepseek_harness_communi.Rewind.Repository.Compaction.Counts.{
  refers_to, referrers, count-add_manifests, count-release_references,
}
use deepseek_harness_communi.Rewind.Repository.Compaction.Tally.{
  IsTally, add_manifests-IsTally, release_references-IsTally,
}

-- Two lists of items with the same elements.
abbrev AreSame : List Item → List Item → Type 0
AreSame items others = (p : Item → Bool) → length (filter p items) ≡ length (filter p others)

module _ (node : Platform) where
  pub with_item-eq-some :
      (name : String) (read : Result RepositoryError TimelineManifest) (rest : Option (List Item))
      (items : List Item)
      → with_item name read rest ≡ some items
      → (manifest : TimelineManifest) × (others : List Item) × (read ≡ ok manifest)
        × (rest ≡ some others)
        × (items ≡ (name, manifest) ∷ others)
  with_item-eq-some name (ok manifest) (some others) items e =
      (manifest, others, refl, refl, ground arith)
  with_item-eq-some name (ok manifest) none items e = cc
  with_item-eq-some name (err error) rest items e = cc

  -- The manifests that are left when a file is removed.
  read_manifests-remove :
      (name : String) (timelines : Directory) (items : List Item)
      → read_manifests node timelines ≡ some items
      → read_manifests node (remove name timelines) ≡ some (remove name items)
  unfolding read_manifests remove
  read_manifests-remove name [] items e =
      let none_left : [] ≡ items = cc in
      subst (λ (l : List Item). some [] ≡ some (remove name l)) none_left refl
  read_manifests-remove name ((key, source) ∷ timelines) items e =
      let (manifest, others, read, rest, is) =
        with_item-eq-some key (read_manifest node source) (read_manifests node timelines) items e in
      elim (Bool-cases (key == name)) [
        | inl same ↦ rw (is, same) (read_manifests-remove name timelines others rest)
        | inr other ↦ rw (is, other, read, read_manifests-remove name timelines others rest) refl
      ]

  entries_of-read_manifests :
      (name : String) (timelines : Directory) (items : List Item)
      → read_manifests node timelines ≡ some items
      → entries_of name items ≡ entries_of name timelines
  unfolding read_manifests entries_of
  entries_of-read_manifests name [] items e =
      let none_left : [] ≡ items = cc in
      subst (λ (l : List Item). entries_of name l ≡ 0) none_left refl
  entries_of-read_manifests name ((key, source) ∷ timelines) items e =
      let (manifest, others, read, rest, is) =
        with_item-eq-some key (read_manifest node source) (read_manifests node timelines) items e in
      rw is (ground (arith, entries_of-read_manifests name timelines others rest))

length-filter-remove :
    (name : String) (p : Item → Bool) (items : List Item)
    → length (filter p (remove name items))
      ≡ length (filter (λ item. not (item.0 == name) && p item) items)
unfolding remove
length-filter-remove name p [] = refl
length-filter-remove name p ((key, m) ∷ items) = ground (arith, length-filter-remove name p items)

length-filter-absent :
    (name : String) (p : Item → Bool) (items : List Item)
    → entries_of name items ≡ 0
    → length (filter (λ item. not (item.0 == name) && p item) items) ≡ length (filter p items)
unfolding entries_of
length-filter-absent name p [] h = refl
length-filter-absent name p ((key, m) ∷ items) h = ground (arith, length-filter-absent name p items)

total_bytes_of_none :
    (counts : Counts) (total : ℕ)
    → IsTally counts total
    → ((name : String) → count_of (lookup name counts) ≡ 0)
    → total ≡ 0
unfolding lookup total_bytes
total_bytes_of_none [] total tally h = tally.sum
total_bytes_of_none ((name, entry) ∷ counts) total tally h =
    absurd (ground (arith, h name, tally.positive.0, ==_iff name name))

-- The state after the first timeline is removed.
abbrev pub next : Item → Eviction → Eviction
next item state =
    let released = release_references (unique_references item.1) state.counts state.total in
    record { timelines = remove item.0 state.timelines; counts = released.0; total = released.1 }

module _ (node : Platform) where
  -- The state of the loop with the items that are left: the files of the directory are theirs, and the
  -- counts and the total are those of their references.
  pub record Tracks (items : List Item) (state : Eviction) : Type 0 where
    pub current : List Item
    pub listed : read_manifests node state.timelines ≡ some current
    pub same : AreSame items current
    pub unique : AreUnique state.timelines
    pub counts : (name : String) → count_of (lookup name state.counts) ≡ referrers name items
    pub tally : IsTally state.counts state.total

  next_same :
      (item : Item) (items current : List Item) (timelines : Directory)
      → read_manifests node timelines ≡ some current
      → AreUnique timelines
      → AreSame (item ∷ items) current
      → AreSame items (remove item.0 current)
  unfolding entries_of
  next_same item items current timelines listed unique same p =
      let first : entries_of item.0 items ≡ 0 = ground (
        arith,
        same (λ i. i.0 == item.0),
        entries_of-read_manifests node item.0 timelines current listed,
        unique item.0,
        ==_iff item.0 item.0,
      ) in
      ground (
        arith,
        length-filter-remove item.0 p current,
        length-filter-absent item.0 p items first,
        same (λ i. not (i.0 == item.0) && p i),
        ==_iff item.0 item.0,
      )

  next-Tracks :
      (item : Item) (items : List Item) (state : Eviction)
      → Tracks (item ∷ items) state
      → Tracks items (next item state)
  next-Tracks item items state t = record {
    current = remove item.0 t.current;
    listed = read_manifests-remove node item.0 state.timelines t.current t.listed;
    same = next_same item items t.current state.timelines t.listed t.unique t.same;
    unique = AreUnique-remove item.0 state.timelines t.unique;
    counts =
        λ name. count-release_references name item items state.counts state.total (t.counts name);
    tally = release_references-IsTally (unique_references item.1) state.counts state.total t.tally;
  }

  -- The loop ended within the limit, with the items that are left.
  unfoldable pub IsWithin : ℕ → Eviction → Type 0
  IsWithin limit state = (left : List Item) × Tracks left state × (state.total ≤ limit)

  evict-IsWithin :
      (limit : ℕ) (items : List Item) (state : Eviction)
      → Tracks items state
      → IsWithin limit (evict limit items state)
  unfolding evict IsWithin
  evict-IsWithin limit [] state t =
      ([], t, omega (arith, total_bytes_of_none state.counts state.total t.tally t.counts))
  evict-IsWithin limit (item ∷ items) state t =
      let later = evict-IsWithin limit items (next item state) (next-Tracks item items state t) in
      elim (Bool-cases (leb state.total limit)) [
        | inl enough ↦ rw enough (item ∷ items, t, ground (arith, enough))
        | inr more ↦ rw more later
      ]

  count-counted :
      (name : String) (items : List Item)
      → count_of (lookup name (counted items)) ≡ referrers name items
  unfolding counted lookup
  count-counted name items = ground (arith, count-add_manifests name [] items)

  pub evicted-IsWithin :
      (limit : ℕ) (timelines : Directory) (items : List Item)
      → read_manifests node timelines ≡ some items
      → AreUnique timelines
      → IsWithin limit (evicted limit timelines items)
  unfolding evicted counted
  evicted-IsWithin limit timelines items listed unique =
      evict-IsWithin limit sorted
        (record {
          timelines = timelines;
          counts = counted items;
          total = total_bytes (counted items);
        })
        (record {
          current = items;
          listed = listed;
          same = λ p. length-filter-sort_by age p items;
          unique = unique;
          counts = λ name. sorted_counts name;
          tally = add_manifests-IsTally items;
        })
    where
      age : Item → ℕ
      age item = item.1.updated_at

      sorted : List Item
      sorted = sort_by age items

      sorted_counts :
          (name : String) → count_of (lookup name (counted items)) ≡ referrers name sorted
      sorted_counts name =
          ground (arith, count-counted name items, length-filter-sort_by age (refers_to name) items)
