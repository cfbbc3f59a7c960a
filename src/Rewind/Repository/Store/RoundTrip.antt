-- ===== src/Rewind/Repository/Store/RoundTrip.antt =====
-- packages/tui/src/modules/rewind/adapters/file-repository.ts: `materialize` reads back the timeline
-- that `store` wrote.
use deepseek_harness_communi.Prelude.{
  ℕ, ◌+◌, true, Option, none, some, List, [], ◌∷◌, String, nat_beq, ◌≡◌, refl, All,
}
use deepseek_harness_communi.Prelude.Result.{◌>>=◌, ◌>>◌, throw_if}
use deepseek_harness_communi.Rewind.Contracts.{
  given, WorkspaceEffect, reversible, unsupported, WorkspaceMutation,
}
use deepseek_harness_communi.Rewind.Points.{RewindPoint}
use deepseek_harness_communi.Rewind.Timeline.{RewindTimeline}
use deepseek_harness_communi.Rewind.Manifest.Json.{ObjectReference}
use deepseek_harness_communi.Rewind.Manifest.Decode.{
  StoredEffect, StoredMutation, StoredPoint, TimelineManifest,
}
use deepseek_harness_communi.Rewind.Manifest.Decode
use deepseek_harness_communi.Rewind.Manifest.Integrity.{
  effect_references, mutation_references, references,
}
use deepseek_harness_communi.Rewind.Repository.Encode.Input.{AllOf}
use deepseek_harness_communi.Rewind.Repository.Platform.{Platform}
use deepseek_harness_communi.Rewind.Repository.Storage.{Directory}
use deepseek_harness_communi.Rewind.Repository.Store.{
  ◌>>=◌ as ◌>>>=◌, reason_text, write_object, write_before, store_effect, store_mutations,
  store_nodes,
}
use deepseek_harness_communi.Rewind.Repository.Materialize.{
  content_bytes, read_object, read_before, read_effect, read_mutations, read_nodes,
}
use deepseek_harness_communi.Rewind.Repository.Store.Contents.{
  Wrote, Wrote-continue, Provides, Provides-append, AreDistinguished, IsAddressed, StoredAs,
  StoredAs-none, StoredAs-both, write_object-StoredAs,
}

-- The timeline with its reasons as the texts that they are shown as, and stored.
abbrev pub shown_effect : Platform → WorkspaceEffect → WorkspaceEffect
shown_effect node (reversible before after bytes) = reversible before after bytes
shown_effect node (unsupported reason) = unsupported (given (reason_text node reason))

abbrev pub shown_mutations : Platform → List WorkspaceMutation → List WorkspaceMutation
shown_mutations node [] = []
shown_mutations node (mutation ∷ mutations) =
    record { source = mutation.source; effect = shown_effect node mutation.effect }
    ∷ shown_mutations node mutations

abbrev pub shown_nodes : Platform → List RewindPoint → List RewindPoint
shown_nodes node [] = []
shown_nodes node (point ∷ points) =
    record point { workspace_mutations = shown_mutations node point.workspace_mutations }
    ∷ shown_nodes node points

abbrev pub shown : Platform → RewindTimeline → RewindTimeline
shown node value = record value { nodes = shown_nodes node value.nodes }

abbrev before_references : Option ObjectReference → List ObjectReference
before_references none = []
before_references (some reference) = reference ∷ []

Provides-effect :
    (objects final : Directory) (first : Option ObjectReference) (second : ObjectReference)
    (bytes : ℕ)
    → Provides objects final (effect_references (Decode.reversible first second bytes))
    → Provides objects final (before_references first) × Provides objects final (second ∷ [])
Provides-effect objects final none second bytes h = (tt, h)
Provides-effect objects final (some first) second bytes h =
    Provides-append objects final (first ∷ []) (second ∷ []) h

module _ (node : Platform) (InUse : String → Type 0) where
  -- The contents are in use, and the byte count is theirs.
  abbrev pub IsCountedEffect : WorkspaceEffect → Type 0
  IsCountedEffect (reversible before after bytes) =
      AllOf InUse before
      × InUse after
      × (nat_beq (content_bytes node before + node.byte_length after) bytes ≡ true)
  IsCountedEffect (unsupported reason) = Unit

  abbrev pub AreCounted : List RewindPoint → Type 0
  AreCounted points =
      All (λ point. All (λ mutation. IsCountedEffect mutation.effect) point.workspace_mutations)
        points

  module _ (distinguished : AreDistinguished node InUse) (max_object_bytes : ℕ) where
    abbrev ObjectStored : String → Directory → Directory → ObjectReference → Type 0
    ObjectStored = StoredAs node InUse (λ r. r ∷ []) (read_object node max_object_bytes)

    abbrev BeforeStored : Option String → Directory → Directory → Option ObjectReference → Type 0
    BeforeStored = StoredAs node InUse before_references (read_before node max_object_bytes)

    abbrev EffectStored : WorkspaceEffect → Directory → Directory → StoredEffect → Type 0
    EffectStored effect =
        StoredAs node InUse effect_references (read_effect node max_object_bytes)
          (shown_effect node effect)

    abbrev MutationsStored :
        List WorkspaceMutation → Directory → Directory → List StoredMutation → Type 0
    MutationsStored mutations =
        StoredAs node InUse mutation_references (read_mutations node max_object_bytes)
          (shown_mutations node mutations)

    abbrev pub NodesStored : List RewindPoint → Directory → Directory → List StoredPoint → Type 0
    NodesStored points =
        StoredAs node InUse references (read_nodes node max_object_bytes) (shown_nodes node points)

    write_before-StoredAs :
        (before : Option String) (objects : Directory)
        → AllOf InUse before
        → IsAddressed node InUse objects
        → Wrote (BeforeStored before objects) (write_before node max_object_bytes before objects)
    unfolding write_before read_before ◌>>>=◌ ◌>>=◌
    write_before-StoredAs none objects u h =
        StoredAs-none node InUse _ _ _ objects _ h λ final cache. refl
    write_before-StoredAs (some content) objects u h =
        Wrote-continue (ObjectStored content objects) (BeforeStored (some content) objects)
          (write_object node max_object_bytes content objects) _
          (write_object-StoredAs node InUse distinguished max_object_bytes content objects u h)
          λ after reference s. record {
            extended = s.extended;
            addressed = s.addressed;
            back = λ final cache provides good.
                let (cache', read, good') = s.back final cache provides good in
                (cache', rw read refl, good');
          }

    store_effect-StoredAs :
        (effect : WorkspaceEffect) (objects : Directory)
        → IsCountedEffect effect
        → IsAddressed node InUse objects
        → Wrote (EffectStored effect objects) (store_effect node max_object_bytes effect objects)
    unfolding store_effect read_effect ◌>>>=◌ ◌>>=◌ ◌>>◌ throw_if
    store_effect-StoredAs (unsupported reason) objects u h =
        StoredAs-none node InUse _ _ _ objects _ h λ final cache. refl
    store_effect-StoredAs (reversible before after bytes) objects (used_before, used, sum) h =
        Wrote-continue (BeforeStored before objects)
          (EffectStored (reversible before after bytes) objects)
          (write_before node max_object_bytes before objects) _
          (write_before-StoredAs before objects used_before h)
          λ middle first s.
            Wrote-continue (ObjectStored after middle)
              (EffectStored (reversible before after bytes) objects)
              (write_object node max_object_bytes after middle) _
              (write_object-StoredAs node InUse distinguished max_object_bytes after middle used
                s.addressed)
              λ last second t.
                StoredAs-both node InUse _ _ _ _ s t
                  (λ final. Provides-effect last final first second bytes)
                  λ final cache cache' cache'' read read'. rw (read, read', sum) refl

    store_mutations-StoredAs :
        (mutations : List WorkspaceMutation) (objects : Directory)
        → All (λ mutation. IsCountedEffect mutation.effect) mutations
        → IsAddressed node InUse objects
        → Wrote
            (MutationsStored mutations objects)
            (store_mutations node max_object_bytes mutations objects)
    unfolding store_mutations read_mutations ◌>>>=◌ ◌>>=◌
    store_mutations-StoredAs [] objects u h =
        StoredAs-none node InUse _ _ _ objects _ h λ final cache. refl
    store_mutations-StoredAs (mutation ∷ mutations) objects u h =
        Wrote-continue (EffectStored mutation.effect objects)
          (MutationsStored (mutation ∷ mutations) objects)
          (store_effect node max_object_bytes mutation.effect objects) _
          (store_effect-StoredAs mutation.effect objects u.0 h)
          λ middle first s.
            Wrote-continue (MutationsStored mutations middle)
              (MutationsStored (mutation ∷ mutations) objects)
              (store_mutations node max_object_bytes mutations middle) _
              (store_mutations-StoredAs mutations middle u.1 s.addressed)
              λ last rest t.
                StoredAs-both node InUse _ _ _ _ s t
                  (λ final.
                    Provides-append last final (effect_references first) (mutation_references rest))
                  λ final cache cache' cache'' read read'. rw (read, read') refl

    pub store_nodes-StoredAs :
        (points : List RewindPoint) (objects : Directory)
        → AreCounted points
        → IsAddressed node InUse objects
        → Wrote (NodesStored points objects) (store_nodes node max_object_bytes points objects)
    unfolding store_nodes read_nodes ◌>>>=◌ ◌>>=◌
    store_nodes-StoredAs [] objects u h =
        StoredAs-none node InUse _ _ _ objects _ h λ final cache. refl
    store_nodes-StoredAs (point ∷ points) objects u h =
        Wrote-continue (MutationsStored point.workspace_mutations objects)
          (NodesStored (point ∷ points) objects)
          (store_mutations node max_object_bytes point.workspace_mutations objects) _
          (store_mutations-StoredAs point.workspace_mutations objects u.0 h)
          λ middle first s.
            Wrote-continue (NodesStored points middle) (NodesStored (point ∷ points) objects)
              (store_nodes node max_object_bytes points middle) _
              (store_nodes-StoredAs points middle u.1 s.addressed)
              λ last rest t.
                StoredAs-both node InUse _ _ _ _ s t
                  (λ final.
                    Provides-append last final (mutation_references first) (references rest))
                  λ final cache cache' cache'' read read'. rw (read, read') refl
