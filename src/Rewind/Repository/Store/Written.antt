-- ===== src/Rewind/Repository/Store/Written.antt =====
-- packages/tui/src/modules/rewind/adapters/file-repository.ts: what `store` keeps of the directory of
-- objects, also when it throws: all that each write of an object keeps.
use deepseek_harness_communi.Prelude.{
  ℕ, Option, none, some, List, [], ◌∷◌, String, ltb, string_eq, ◌≡◌, refl, Bool-cases, inl, inr,
}
use deepseek_harness_communi.Prelude.Table.{lookup, AreUnique, AreUnique-insert}
use deepseek_harness_communi.Prelude.Result.{Result, ok, err}
use deepseek_harness_communi.Rewind.Contracts.{
  WorkspaceEffect, reversible, unsupported, WorkspaceMutation,
}
use deepseek_harness_communi.Rewind.Points.{RewindPoint}
use deepseek_harness_communi.Rewind.Timeline.{RewindTimeline}
use deepseek_harness_communi.Rewind.Repository.Platform.{Platform}
use deepseek_harness_communi.Rewind.Repository.Storage.{RepositoryError, Directory}
use deepseek_harness_communi.Rewind.Repository.Store.{
  Writes, ◌>>=◌ as ◌>>>=◌, continue, write_once, write_object, write_before, store_effect,
  store_mutations, store_nodes, store,
}
use deepseek_harness_communi.Rewind.Repository.Store.Contents.{
  Extends, insert-Extends, IsAddressed, IsAddressed-insert,
}

module _ {ℓ} (P : Directory → Type ℓ) where
  continue_keeps {κ μ} :
      {A : Type κ} {B : Type μ} (written : Directory × Result RepositoryError A) (f : A → Writes B)
      → P written.0
      → ((a : A) (objects : Directory) → P objects → P (f a objects).0)
      → P (continue written f).0
  continue_keeps (objects, ok a) f h k = k a objects h
  continue_keeps (objects, err e) f h k = h

  module _ (node : Platform) (limit : ℕ)
      (keeps : (content : String) (objects : Directory)
        → P objects
        → P (write_object node limit content objects).0) where
    write_before_keeps :
        (before : Option String) (objects : Directory)
        → P objects
        → P (write_before node limit before objects).0
    unfolding write_before ◌>>>=◌
    write_before_keeps none objects h = h
    write_before_keeps (some content) objects h =
        continue_keeps (write_object node limit content objects) _ (keeps content objects h)
          λ reference after k. k

    store_effect_keeps :
        (effect : WorkspaceEffect) (objects : Directory)
        → P objects
        → P (store_effect node limit effect objects).0
    unfolding store_effect ◌>>>=◌
    store_effect_keeps (unsupported reason) objects h = h
    store_effect_keeps (reversible before after bytes) objects h =
        continue_keeps (write_before node limit before objects) _
          (write_before_keeps before objects h)
          λ first middle k.
            continue_keeps (write_object node limit after middle) _ (keeps after middle k)
              λ second last l. l

    store_mutations_keeps :
        (mutations : List WorkspaceMutation) (objects : Directory)
        → P objects
        → P (store_mutations node limit mutations objects).0
    unfolding store_mutations ◌>>>=◌
    store_mutations_keeps [] objects h = h
    store_mutations_keeps (mutation ∷ mutations) objects h =
        continue_keeps (store_effect node limit mutation.effect objects) _
          (store_effect_keeps mutation.effect objects h)
          λ first middle k.
            continue_keeps (store_mutations node limit mutations middle) _
              (store_mutations_keeps mutations middle k) λ rest last l. l

    store_nodes_keeps :
        (points : List RewindPoint) (objects : Directory)
        → P objects
        → P (store_nodes node limit points objects).0
    unfolding store_nodes ◌>>>=◌
    store_nodes_keeps [] objects h = h
    store_nodes_keeps (point ∷ points) objects h =
        continue_keeps (store_mutations node limit point.workspace_mutations objects) _
          (store_mutations_keeps point.workspace_mutations objects h)
          λ first middle k.
            continue_keeps (store_nodes node limit points middle) _
              (store_nodes_keeps points middle k) λ rest last l. l

    store_keeps :
        (value : RewindTimeline) (objects : Directory)
        → P objects
        → P (store node limit value objects).0
    unfolding store ◌>>>=◌
    store_keeps value objects h =
        continue_keeps (store_nodes node limit value.nodes objects) _
          (store_nodes_keeps value.nodes objects h) λ nodes last l. l

-- The contents have one file each, under their hash.
abbrev pub AreObjects : Platform → Directory → Type 0
AreObjects node objects = AreUnique objects × IsAddressed node (λ content. Unit {0}) objects

write_once-AreObjects :
    (node : Platform) (content : String) (objects : Directory) (found : Option String)
    → AreObjects node objects
    → AreObjects node (write_once found (node.hash content) content objects)
write_once-AreObjects node content objects none h = (
  AreUnique-insert (node.hash content) content objects h.0,
  IsAddressed-insert node (λ c. Unit) content objects tt h.1,
)
write_once-AreObjects node content objects (some present) h = h

write_once-Extends :
    (name content : String) (before objects : Directory) (found : Option String)
    → lookup name objects ≡ found
    → Extends before objects
    → Extends before (write_once found name content objects)
write_once-Extends name content before objects none e h other c q =
    insert-Extends name content objects e other c (h other c q)
write_once-Extends name content before objects (some present) e h other c q = h other c q

module _ (node : Platform) (limit : ℕ) where
  write_object-AreObjects :
      (content : String) (objects : Directory)
      → AreObjects node objects
      → AreObjects node (write_object node limit content objects).0
  unfolding write_object
  write_object-AreObjects content objects h =
      elim (Bool-cases (ltb limit (node.byte_length content))) [
        | inl over ↦ rw over h
        | inr within ↦
            rw within
              (write_once-AreObjects node content objects (lookup (node.hash content) objects) h)
      ]

  write_object-Extends :
      (before : Directory) (content : String) (objects : Directory)
      → Extends before objects
      → Extends before (write_object node limit content objects).0
  unfolding write_object
  write_object-Extends before content objects h =
      elim (Bool-cases (ltb limit (node.byte_length content))) [
        | inl over ↦ rw over h
        | inr within ↦ rw within (
            write_once-Extends (node.hash content) content before objects
              (lookup (node.hash content) objects) refl h)
      ]

  pub store-AreObjects :
      (value : RewindTimeline) (objects : Directory)
      → AreObjects node objects
      → AreObjects node (store node limit value objects).0
  store-AreObjects value objects h =
      store_keeps (AreObjects node) node limit write_object-AreObjects value objects h

  pub store-Extends :
      (value : RewindTimeline) (objects : Directory)
      → Extends objects (store node limit value objects).0
  store-Extends value objects =
      store_keeps (Extends objects) node limit (write_object-Extends objects) value objects
        λ name content e. e
