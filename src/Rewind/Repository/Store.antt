-- ===== src/Rewind/Repository/Store.antt =====
-- packages/tui/src/modules/rewind/adapters/file-repository.ts: `store` and `writeObject`, which write
-- the contents of a timeline as objects and leave its manifest. A write that was made stays when a
-- later one fails. The parts of a mutation and of a point that are no contents are copied.
pub mod Contents
pub mod Written
pub mod RoundTrip
use Prim.Native.String.{◌++◌ as text_append}
use deepseek_harness_communi.Prelude.{
  ℕ, Option, none, some, List, [], ◌∷◌, String, if◌then◌else◌, ltb, ◌==◌, string_eq,
}
use deepseek_harness_communi.Prelude.Table.{lookup, insert}
use deepseek_harness_communi.Prelude.Result.{Result, ok, err}
use deepseek_harness_communi.Rewind.Contracts.{
  UnsupportedReason, given, mutation_limit, history_limit, WorkspaceEffect, reversible, unsupported,
  WorkspaceMutation,
}
use deepseek_harness_communi.Rewind.Points.{RewindPoint}
use deepseek_harness_communi.Rewind.Timeline.{RewindTimeline}
use deepseek_harness_communi.Rewind.Manifest.Json.{ObjectReference}
use deepseek_harness_communi.Rewind.Manifest.Decode.{
  StoredEffect, StoredMutation, StoredPoint, TimelineManifest,
}
use deepseek_harness_communi.Rewind.Manifest.Decode
use deepseek_harness_communi.Rewind.Repository.Platform.{Platform}
use deepseek_harness_communi.Rewind.Repository.Storage.{RepositoryError, object_limit, Directory}

-- A step that writes objects: the directory after it, with its result.
abbrev pub Writes {ℓ} : Type ℓ → Type ℓ
Writes A = Directory → Directory × Result RepositoryError A

abbrev pub pure {ℓ} : {A : Type ℓ} → A → Writes A
pure a objects = (objects, ok a)

abbrev pub continue {ℓ κ} :
    {A : Type ℓ} {B : Type κ}
    → Directory × Result RepositoryError A
    → (A → Writes B)
    → Directory × Result RepositoryError B
continue (objects, ok a) f = f a objects
continue (objects, err e) f = (objects, err e)

infixl 5 ◌>>=◌
unfoldable pub ◌>>=◌ {ℓ κ} : {A : Type ℓ} {B : Type κ} → Writes A → (A → Writes B) → Writes B
◌>>=◌ m f objects = continue (m objects) f

-- The text of a reason, which the journal has as the case that it is.
unfoldable pub reason_text : Platform → UnsupportedReason → String
reason_text node (given reason) = reason
reason_text node (mutation_limit limit) =
    text_append "The reversible edit exceeds the "
      (text_append (node.show_number limit) " byte mutation limit.")
reason_text node (history_limit limit) =
    text_append "The timeline exceeds the "
      (text_append (node.show_number limit) " byte Rewind history limit.")

abbrev pub reference_of : Platform → String → ObjectReference
reference_of node content = record { hash = node.hash content; bytes = node.byte_length content }

-- The file is written when the directory has none of the name.
abbrev pub write_once : Option String → String → String → Directory → Directory
write_once (some present) name content objects = objects
write_once none name content objects = insert name content objects

abbrev pub stored_of : RewindPoint → List StoredMutation → StoredPoint
stored_of point mutations = record {
  id = point.id;
  session_id = point.session_id;
  turn = point.turn;
  workspace_root = point.workspace_root;
  input = point.input;
  prompt_seq = point.prompt_seq;
  created_at = point.created_at;
  previous_turn_end_seq = point.previous_turn_end_seq;
  workspace_mutations = mutations;
}

abbrev pub manifest_with : Platform → RewindTimeline → List StoredPoint → TimelineManifest
manifest_with node value nodes = record {
  workspace_id = node.hash value.workspace_root;
  workspace_root = value.workspace_root;
  lineage_id = value.lineage_id;
  owner_session_id = value.owner_session_id;
  cursor = value.cursor;
  updated_at = value.updated_at;
  nodes = nodes;
}

module _ (node : Platform) (max_object_bytes : ℕ) where
  unfoldable pub write_object : String → Writes ObjectReference
  write_object content objects =
      if ltb max_object_bytes (node.byte_length content)
      then (objects, err (object_limit max_object_bytes))
      else (
        write_once (lookup (node.hash content) objects) (node.hash content) content objects,
        ok (reference_of node content),
      )

  -- `mutation.before === null ? null : await this.writeObject(mutation.before)`
  unfoldable pub write_before : Option String → Writes (Option ObjectReference)
  write_before none = pure none
  write_before (some content) = write_object content >>= λ reference. pure (some reference)

  unfoldable pub store_effect : WorkspaceEffect → Writes StoredEffect
  store_effect (unsupported reason) = pure (Decode.unsupported (reason_text node reason))
  store_effect (reversible before after bytes) = do
    before_reference ← write_before before
    after_reference ← write_object after
    pure (Decode.reversible before_reference after_reference bytes)

  unfoldable pub store_mutations : List WorkspaceMutation → Writes (List StoredMutation)
  store_mutations [] = pure []
  store_mutations (mutation ∷ mutations) = do
    effect ← store_effect mutation.effect
    stored ← store_mutations mutations
    pure (record { source = mutation.source; effect = effect } ∷ stored)

  unfoldable pub store_nodes : List RewindPoint → Writes (List StoredPoint)
  store_nodes [] = pure []
  store_nodes (point ∷ points) = do
    mutations ← store_mutations point.workspace_mutations
    stored ← store_nodes points
    pure (stored_of point mutations ∷ stored)

  unfoldable pub store : RewindTimeline → Writes TimelineManifest
  store value = store_nodes value.nodes >>= λ nodes. pure (manifest_with node value nodes)
