-- ===== src/Rewind/Repository/Compaction/Tally.antt =====
-- packages/tui/src/modules/rewind/adapters/file-repository.ts: the total of `compactLocked`, which stays
-- the sum of the bytes of the counted objects.
use deepseek_harness_communi.Prelude.{
  ℕ, ◌+◌, ◌-◌, ◌≤◌, Option, none, some, List, [], ◌∷◌, String, nat_beq, ◌==◌, ==_iff, string_eq,
  ◌≡◌, refl, ◌∙◌, sym, subst, ap, All, Bool-cases, inl, inr, arith,
}
use deepseek_harness_communi.Prelude.Table.{
  lookup, insert, remove, insert-All, lookup-All, remove-All, entries_of, AreUnique,
  AreUnique-insert, AreUnique-remove, AreUnique-first, AreUnique-rest, remove-absent,
}
use deepseek_harness_communi.Rewind.Manifest.Json.{ObjectReference}
use deepseek_harness_communi.Rewind.Repository.Materialize.{unique_references}
use deepseek_harness_communi.Rewind.Repository.Compaction.{
  Item, Count, Counts, count_of, add_references, add_manifests, total_bytes, release_entry,
  release_references,
}

abbrev pub IsPositive : String × Count → Type 0
IsPositive entry = 1 ≤ entry.1.count

-- Counts are positive, one for an object, and the total is their sum.
pub record IsTally (counts : Counts) (total : ℕ) : Type 0 where
  pub positive : All IsPositive counts
  pub unique : AreUnique counts
  pub sum : total ≡ total_bytes counts

abbrev IsCounted : Counts → Type 0
IsCounted counts = All IsPositive counts × AreUnique counts

add_references-IsCounted :
    (counts : Counts) (table : List (String × ObjectReference))
    → IsCounted counts
    → IsCounted (add_references counts table)
unfolding add_references
add_references-IsCounted counts [] h = h
add_references-IsCounted counts ((key, r) ∷ table) h =
    let entry : Count = record { reference = r; count = count_of (lookup r.hash counts) + 1 } in
    add_references-IsCounted (insert r.hash entry counts) table (
      insert-All IsPositive r.hash entry counts (λ j e. omega arith) h.0,
      AreUnique-insert r.hash entry counts h.1,
    )

add_manifests-IsCounted :
    (counts : Counts) (items : List Item)
    → IsCounted counts
    → IsCounted (add_manifests counts items)
unfolding add_manifests
add_manifests-IsCounted counts [] h = h
add_manifests-IsCounted counts (item ∷ items) h =
    add_manifests-IsCounted (add_references counts (unique_references item.1)) items
      (add_references-IsCounted counts (unique_references item.1) h)

no_counts-IsCounted : IsCounted []
unfolding entries_of
no_counts-IsCounted = (tt, λ k. ground arith)

pub add_manifests-IsTally :
    (items : List Item) → IsTally (add_manifests [] items) (total_bytes (add_manifests [] items))
add_manifests-IsTally items = record { positive = counted.0; unique = counted.1; sum = refl }
  where
    counted : IsCounted (add_manifests [] items)
    counted = add_manifests-IsCounted [] items no_counts-IsCounted

pub total_bytes-remove :
    (name : String) (entry : Count) (counts : Counts)
    → AreUnique counts
    → lookup name counts ≡ some entry
    → total_bytes counts ≡ total_bytes (remove name counts) + entry.reference.bytes
unfolding total_bytes lookup remove entries_of
total_bytes-remove name entry [] h e = cc
total_bytes-remove name entry ((key, first) ∷ counts) h e = elim (Bool-cases (key == name)) [
  | inl same ↦
      let found : first ≡ entry = ground arith in
      let key_name : key ≡ name = (==_iff key name).0 same in
      let absent : entries_of name counts ≡ 0 =
        subst (λ k. entries_of k counts ≡ 0) key_name (AreUnique-first key first counts h) in
      rw (same, remove-absent name counts absent, found) (omega arith)
  | inr other ↦
      let rest =
        total_bytes-remove name entry counts (AreUnique-rest key first counts h) (ground arith) in
      rw other (omega (arith, rest))
]

total_bytes-insert :
    (name : String) (entry : Count) (n : ℕ) (counts : Counts)
    → lookup name counts ≡ some entry
    → total_bytes (insert name (record entry { count = n }) counts) ≡ total_bytes counts
unfolding total_bytes lookup insert
total_bytes-insert name entry n [] e = cc
total_bytes-insert name entry n ((key, first) ∷ counts) e = elim (Bool-cases (key == name)) [
  | inl same ↦ let found : first ≡ entry = ground arith in rw (same, found) refl
  | inr other ↦
      rw other (
        ap (λ n. first.reference.bytes + n) (total_bytes-insert name entry n counts (ground arith)))
]

release_entry-IsTally :
    (found : Option Count) (name : String) (counts : Counts) (total : ℕ)
    → lookup name counts ≡ found
    → IsTally counts total
    → IsTally (release_entry found name counts total).0 (release_entry found name counts total).1
release_entry-IsTally none name counts total e h = h
release_entry-IsTally (some entry) name counts total e h =
    elim (Bool-cases (nat_beq entry.count 1)) [
      | inl last ↦ rw last (record {
        positive = remove-All IsPositive name counts h.positive;
        unique = AreUnique-remove name counts h.unique;
        sum = omega (arith, h.sum, total_bytes-remove name entry counts h.unique e);
      })
      | inr more ↦
          let here : 1 ≤ entry.count = lookup-All IsPositive name entry counts h.positive e in
          let left = entry.count - 1 in
          rw more (record {
            positive =
                insert-All IsPositive name (record entry { count = left }) counts
                  (λ j q. ground (arith, here, more)) h.positive;
            unique = AreUnique-insert name (record entry { count = left }) counts h.unique;
            sum = h.sum ∙ sym (total_bytes-insert name entry left counts e);
          })
    ]

pub release_references-IsTally :
    (table : List (String × ObjectReference)) (counts : Counts) (total : ℕ)
    → IsTally counts total
    → IsTally (release_references table counts total).0 (release_references table counts total).1
unfolding release_references
release_references-IsTally [] counts total h = h
release_references-IsTally ((key, r) ∷ table) counts total h =
    let released = release_entry (lookup r.hash counts) r.hash counts total in
    release_references-IsTally table released.0 released.1
      (release_entry-IsTally (lookup r.hash counts) r.hash counts total refl h)
