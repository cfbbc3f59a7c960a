-- ===== src/Rewind/Repository/Compaction/Collected.antt =====
-- What `compactLocked` leaves of a repository.
use deepseek_harness_communi.Prelude.{
  ℕ, ◌≤◌, Bool, ◌&&◌, Option, none, some, List, [], ◌∷◌, String, if◌then◌else◌, filter, any, length,
  leb, string_eq, ◌≡◌, refl, ◌∙◌, sym, subst, ap, All, Bool-cases, inl, inr, arith,
}
use deepseek_harness_communi.Prelude.Table.{
  lookup, lookup-remove, lookup-filter, lookup-All, AreUnique,
}
use deepseek_harness_communi.Rewind.Manifest.Json.{is_hash}
use deepseek_harness_communi.Rewind.Repository.Platform.{Platform}
use deepseek_harness_communi.Rewind.Repository.Storage.{Repository}
use deepseek_harness_communi.Rewind.Repository.Compaction.{
  Item, Count, Counts, count_of, has, counted, total_bytes, Eviction, evict, evicted,
  read_manifests, compact_items, compact_locked,
}
use deepseek_harness_communi.Rewind.Repository.Compaction.Counts.{refers_to}
use deepseek_harness_communi.Rewind.Repository.Compaction.Tally.{IsPositive}
use deepseek_harness_communi.Rewind.Repository.Compaction.Loop.{next, IsWithin, evicted-IsWithin}

any-filter {ℓ} : {A : Type ℓ} (p : A → Bool) (xs : List A) → any p xs ≡ leb 1 (length (filter p xs))
any-filter p [] = ground arith
any-filter p (x ∷ xs) = ground (arith, any-filter p xs)

has_count :
    (found : Option Count) (name : String) (counts : Counts)
    → lookup name counts ≡ found
    → All IsPositive counts
    → has name counts ≡ leb 1 (count_of found)
has_count none name counts e h = ground (arith, e)
has_count (some entry) name counts e h =
    ground (arith, e, lookup-All IsPositive name entry counts h e)

-- The eviction removes files and changes none.
evict-lookup :
    (limit : ℕ) (items : List Item) (state : Eviction) (name source : String)
    → lookup name (evict limit items state).timelines ≡ some source
    → lookup name state.timelines ≡ some source
unfolding evict
evict-lookup limit [] state name source e = e
evict-lookup limit (item ∷ items) state name source e = elim (Bool-cases (leb state.total limit)) [
  | inl enough ↦
      let same : evict limit (item ∷ items) state ≡ state = rw enough refl in
      subst (λ (s : Eviction). lookup name s.timelines ≡ some source) same e
  | inr more ↦
      let same : evict limit (item ∷ items) state ≡ evict limit items (next item state) =
        rw more refl in
      let later =
        evict-lookup limit items (next item state) name source
          (subst (λ (s : Eviction). lookup name s.timelines ≡ some source) same e) in
      ground (arith, later, lookup-remove item.0 name state.timelines)
]

evict_enough :
    (limit : ℕ) (items : List Item) (state : Eviction)
    → state.total ≤ limit
    → evict limit items state ≡ state
unfolding evict
evict_enough limit [] state h = refl
evict_enough limit (item ∷ items) state h = ground (arith, h)

module _ (node : Platform) where
  -- The timelines that are left are files of before, and all of them when their contents were within
  -- the limit. Of the contents, those that are left have a hash for a name and a timeline that refers to
  -- them.
  pub record IsCollected (items : List Item) (before after : Repository) : Type 0 where
    pub kept : List Item
    pub listed : read_manifests node after.timelines ≡ some kept
    pub unique : AreUnique after.timelines
    pub unchanged :
        (name source : String)
        → lookup name after.timelines ≡ some source
        → lookup name before.timelines ≡ some source
    pub all_kept :
        total_bytes (counted items) ≤ before.max_global_bytes → after.timelines ≡ before.timelines
    pub objects :
        (name : String)
        → lookup name after.objects
          ≡ (if is_hash name && any (refers_to name) kept then lookup name before.objects else none)

  -- When a manifest is not valid, nothing changes.
  abbrev pub IsCompacted : Option (List Item) → Repository → Repository → Type 0
  IsCompacted none before after = after ≡ before
  IsCompacted (some items) before after = IsCollected items before after

  pub compact_items-IsCollected :
      (items : List Item) (repository : Repository)
      → read_manifests node repository.timelines ≡ some items
      → AreUnique repository.timelines
      → IsCollected items repository (compact_items (some items) repository)
  unfolding IsWithin evicted
  compact_items-IsCollected items repository listed unique =
      let limit = repository.max_global_bytes in
      let (left, tracks, within) =
        evicted-IsWithin node limit repository.timelines items listed unique in
      let eviction = evicted limit repository.timelines items in
      let referred : (name : String)
          → has name eviction.counts ≡ any (refers_to name) tracks.current =
        λ name.
          has_count _ name eviction.counts refl tracks.tally.positive
          ∙ ap (leb 1) (tracks.counts name ∙ tracks.same (refers_to name))
          ∙ sym (any-filter (refers_to name) tracks.current) in
      record {
        kept = tracks.current;
        listed = tracks.listed;
        unique = tracks.unique;
        unchanged = λ name source e. evict-lookup limit _ _ name source e;
        all_kept = λ h. ap (λ (s : Eviction). s.timelines) (evict_enough limit _ _ h);
        objects = λ name.
            lookup-filter (λ n. is_hash n && has n eviction.counts) name repository.objects
            ∙ rw (referred name) refl;
      }

  pub compact_locked-IsCompacted :
      (repository : Repository)
      → AreUnique repository.timelines
      → IsCompacted
          (read_manifests node repository.timelines)
          repository
          (compact_locked node repository)
  unfolding compact_locked
  compact_locked-IsCompacted repository unique =
      compacted (read_manifests node repository.timelines) refl
    where
      compacted :
          (read : Option (List Item))
          → read_manifests node repository.timelines ≡ read
          → IsCompacted read repository (compact_items read repository)
      compacted none e = refl
      compacted (some items) e = compact_items-IsCollected items repository e unique
