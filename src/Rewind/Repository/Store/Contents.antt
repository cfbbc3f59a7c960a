-- ===== src/Rewind/Repository/Store/Contents.antt =====
-- packages/tui/src/modules/rewind/adapters/file-repository.ts: `materialize` reads back what `store`
-- wrote. The contents in use have different hashes, and a directory has them under their hash.
use deepseek_harness_communi.Prelude.{
  ℕ, true, false, Option, none, some, List, [], ◌∷◌, ◌++◌, String, ltb, nat_beq, ◌==◌, ==_iff,
  ==_refl, string_eq, ◌≡◌, refl, ◌∙◌, subst, ap, All, Bool-cases, inl, inr, arith,
}
use deepseek_harness_communi.Prelude.Table.{lookup, insert, lookup-insert}
use deepseek_harness_communi.Prelude.Result.{Result, ok, err, ◌>>=◌, ◌>>◌, throw_if}
use deepseek_harness_communi.Rewind.Manifest.Json.{ObjectReference}
use deepseek_harness_communi.Rewind.Repository.Platform.{Platform}
use deepseek_harness_communi.Rewind.Repository.Storage.{RepositoryError, Directory, read_bounded}
use deepseek_harness_communi.Rewind.Repository.Store.{
  Writes, reference_of, continue, write_once, write_object,
}
use deepseek_harness_communi.Rewind.Repository.Materialize.{read_cached, read_object}

pub nat_beq_refl : (n : ℕ) → nat_beq n n ≡ true
nat_beq_refl n = ground arith

-- What holds of the directory and the result of a step that does not throw.
abbrev pub Wrote {ℓ κ} :
    {A : Type ℓ} → (Directory → A → Type κ) → Directory × Result RepositoryError A → Type κ
Wrote P (objects, ok a) = P objects a
Wrote P (objects, err e) = Unit

pub Wrote-continue {ℓ κ μ ν} :
    {A : Type ℓ} {B : Type κ} (P : Directory → A → Type μ) (Q : Directory → B → Type ν)
    (written : Directory × Result RepositoryError A) (f : A → Writes B)
    → Wrote P written
    → ((objects : Directory) (a : A) → P objects a → Wrote Q (f a objects))
    → Wrote Q (continue written f)
Wrote-continue P Q (objects, ok a) f h k = k objects a h
Wrote-continue P Q (objects, err e) f h k = tt

abbrev pub Extends : Directory → Directory → Type 0
Extends before after =
    (name content : String) → lookup name before ≡ some content → lookup name after ≡ some content

pub insert-Extends :
    (name content : String) (objects : Directory)
    → lookup name objects ≡ none
    → Extends objects (insert name content objects)
insert-Extends name content objects e other c q =
    ground (arith, lookup-insert name other content objects, ==_iff name other, e, q)

-- The objects of the references are in the other directory too.
abbrev pub Provides : Directory → Directory → List ObjectReference → Type 0
Provides objects final references =
    All
      (λ r.
        (content : String)
        → lookup r.hash objects ≡ some content
        → lookup r.hash final ≡ some content)
      references

pub Provides-Extends :
    (before after final : Directory) (references : List ObjectReference)
    → Extends before after
    → Provides after final references
    → Provides before final references
Provides-Extends before after final [] e h = tt
Provides-Extends before after final (r ∷ rs) e h =
    (λ content q. h.0 content (e r.hash content q), Provides-Extends before after final rs e h.1)

pub Provides-append :
    (objects final : Directory) (rs ss : List ObjectReference)
    → Provides objects final (rs ++ ss)
    → Provides objects final rs × Provides objects final ss
Provides-append objects final [] ss h = (tt, h)
Provides-append objects final (r ∷ rs) ss h =
    let (left, right) = Provides-append objects final rs ss h.1 in ((h.0, left), right)

module _ (node : Platform) (InUse : String → Type 0) where
  abbrev pub AreDistinguished : Type 0
  AreDistinguished = (s t : String) → InUse s → InUse t → node.hash s ≡ node.hash t → s ≡ t

  abbrev pub IsAddressed : Directory → Type 0
  IsAddressed objects =
      (name content : String)
      → lookup name objects ≡ some content
      → (node.hash content ≡ name) × InUse content

  -- What is read, with the cache after it.
  abbrev pub Reads {ℓ} : {A : Type ℓ} → Result RepositoryError (A × Directory) → A → Type ℓ
  Reads read value = (cache : Directory) × (read ≡ ok (value, cache)) × IsAddressed cache

  -- The stored form of a value: it is read back from every directory that has its objects.
  pub record StoredAs {ℓ} {A S : Type ℓ} (references : S → List ObjectReference)
      (read : Directory → Directory → S → Result RepositoryError (A × Directory)) (value : A)
      (before after : Directory) (stored : S) : Type ℓ where
    pub extended : Extends before after
    pub addressed : IsAddressed after
    pub back :
        (final cache : Directory)
        → Provides after final (references stored)
        → IsAddressed cache
        → Reads (read final cache stored) value

  -- A value that needs no object.
  pub StoredAs-none {ℓ} :
      {A S : Type ℓ} (references : S → List ObjectReference)
      (read : Directory → Directory → S → Result RepositoryError (A × Directory)) (value : A)
      (objects : Directory) (stored : S)
      → IsAddressed objects
      → ((final cache : Directory) → read final cache stored ≡ ok (value, cache))
      → StoredAs references read value objects objects stored
  StoredAs-none references read value objects stored h e = record {
    extended = λ name content q. q;
    addressed = h;
    back = λ final cache provides good. (cache, e final cache, good);
  }

  -- A value of two parts, of which the first is stored and read before the second.
  pub StoredAs-both {ℓ κ μ} :
      {A S : Type ℓ} {B T : Type κ} {C U : Type μ} {refs : S → List ObjectReference}
      {refs' : T → List ObjectReference} (references : U → List ObjectReference)
      {read : Directory → Directory → S → Result RepositoryError (A × Directory)}
      {read' : Directory → Directory → T → Result RepositoryError (B × Directory)}
      (reads : Directory → Directory → U → Result RepositoryError (C × Directory)) {a : A} {b : B}
      (value : C) {before middle after : Directory} {first : S} {second : T} (stored : U)
      → StoredAs refs read a before middle first
      → StoredAs refs' read' b middle after second
      → ((final : Directory)
          → Provides after final (references stored)
          → Provides after final (refs first) × Provides after final (refs' second))
      → ((final cache cache' cache'' : Directory)
          → read final cache first ≡ ok (a, cache')
          → read' final cache' second ≡ ok (b, cache'')
          → reads final cache stored ≡ ok (value, cache''))
      → StoredAs references reads value before after stored
  StoredAs-both {refs} references reads value {middle} {after} {first} stored s t split join =
      record {
        extended = λ name content e. t.extended name content (s.extended name content e);
        addressed = t.addressed;
        back = λ final cache provides good.
            let (left, right) = split final provides in
            let (cache', read, good') =
              s.back final cache (Provides-Extends middle after final (refs first) t.extended left)
                good in
            let (cache'', read', good'') = t.back final cache' right good' in
            (cache'', join final cache cache' cache'' read read', good'');
      }

  pub IsAddressed-insert :
      (content : String) (objects : Directory)
      → InUse content
      → IsAddressed objects
      → IsAddressed (insert (node.hash content) content objects)
  IsAddressed-insert content objects u h name c e = elim (Bool-cases (node.hash content == name)) [
    | inl same ↦
        let key : node.hash content ≡ name = (==_iff (node.hash content) name).0 same in
        let is : content ≡ c =
          ground (arith, lookup-insert (node.hash content) name content objects, e, same) in
        (subst (λ d. node.hash d ≡ name) is key, subst InUse is u)
    | inr other ↦
        h name c (ground (arith, lookup-insert (node.hash content) name content objects, e, other))
  ]

  module _ (distinguished : AreDistinguished) (max_object_bytes : ℕ) where
    write_once-StoredAs :
        (found : Option String) (content : String) (objects : Directory)
        → lookup (node.hash content) objects ≡ found
        → InUse content
        → IsAddressed objects
        → Extends objects (write_once found (node.hash content) content objects)
          × IsAddressed (write_once found (node.hash content) content objects)
          × (lookup (node.hash content) (write_once found (node.hash content) content objects)
              ≡ some content)
    write_once-StoredAs none content objects e u h = (
      insert-Extends (node.hash content) content objects e,
      IsAddressed-insert content objects u h,
      lookup-insert (node.hash content) _ content objects ∙ rw (==_refl (node.hash content)) refl,
    )
    write_once-StoredAs (some present) content objects e u h =
        let (same, used) = h (node.hash content) present e in
        (λ name c q. q, h, e ∙ ap some (distinguished present content used u same))

    read_cached-Reads :
        (found : Option String) (final cache : Directory) (content : String)
        → lookup (node.hash content) cache ≡ found
        → IsAddressed cache
        → InUse content
        → ltb max_object_bytes (node.byte_length content) ≡ false
        → lookup (node.hash content) final ≡ some content
        → Reads
            (read_cached node max_object_bytes final found cache (reference_of node content))
            content
    unfolding ◌>>=◌ ◌>>◌ throw_if read_bounded
    read_cached-Reads (some cached) final cache content e h u within present =
        let (same, used) = h (node.hash content) cached e in
        (cache, ap (λ c. ok (c, cache)) (distinguished cached content used u same), h)
    read_cached-Reads none final cache content e h u within present = (
      insert (node.hash content) content cache,
      rw
          (
            within,
            present,
            within,
            nat_beq_refl (node.byte_length content),
            ==_refl (node.hash content),
          )
          refl,
      IsAddressed-insert content cache u h,
    )

    pub write_object-StoredAs :
        (content : String) (objects : Directory)
        → InUse content
        → IsAddressed objects
        → Wrote
            (StoredAs (λ r. r ∷ []) (read_object node max_object_bytes) content objects)
            (write_object node max_object_bytes content objects)
    unfolding write_object read_object
    write_object-StoredAs content objects u h =
        elim (Bool-cases (ltb max_object_bytes (node.byte_length content))) [
          | inl over ↦ rw over tt
          | inr within ↦
              let (extended, addressed, present) =
                write_once-StoredAs (lookup (node.hash content) objects) content objects refl u h in
              rw within (record {
                extended = extended;
                addressed = addressed;
                back = λ final cache provides good.
                    read_cached-Reads (lookup (node.hash content) cache) final cache content refl
                      good u within (provides.0 content present);
              })
        ]
