-- ===== src/Rewind/Repository/Materialize.antt =====
-- packages/tui/src/modules/rewind/adapters/file-repository.ts: `materialize`, which reads the contents
-- of a manifest back, each object once: `cache` has those that were read.
use deepseek_harness_communi.Prelude.{
  ℕ, ◌+◌, not, ◌&&◌, Option, none, some, List, [], ◌∷◌, String, ltb, nat_beq, ◌==◌, string_eq,
}
use deepseek_harness_communi.Prelude.Table.{lookup, insert}
use deepseek_harness_communi.Prelude.Result.{Result, ok, ◌>>=◌, ◌>>◌, throw_if}
use deepseek_harness_communi.Rewind.Contracts.{
  given, WorkspaceEffect, reversible, unsupported, WorkspaceMutation,
}
use deepseek_harness_communi.Rewind.Points.{RewindPoint}
use deepseek_harness_communi.Rewind.Timeline.{RewindTimeline}
use deepseek_harness_communi.Rewind.Manifest.Json.{ObjectReference}
use deepseek_harness_communi.Rewind.Manifest.Decode.{
  StoredEffect, StoredMutation, StoredPoint, TimelineManifest,
}
use deepseek_harness_communi.Rewind.Manifest.Decode
use deepseek_harness_communi.Rewind.Manifest.Integrity.{references}
use deepseek_harness_communi.Rewind.Repository.Platform.{Platform}
use deepseek_harness_communi.Rewind.Repository.Storage.{
  RepositoryError, object_over_limit, object_invalid, timeline_over_limit, bytes_invalid, Directory,
  read_bounded,
}

-- `new Map(references.map(reference => [reference.hash, reference]))`, onto a map.
unfoldable pub unique_onto :
    List (String × ObjectReference) → List ObjectReference → List (String × ObjectReference)
unique_onto table [] = table
unique_onto table (reference ∷ rest) = unique_onto (insert reference.hash reference table) rest

unfoldable pub unique_references : TimelineManifest → List (String × ObjectReference)
unique_references manifest = unique_onto [] (references manifest.nodes)

unfoldable pub sum_bytes : List (String × ObjectReference) → ℕ
sum_bytes [] = 0
sum_bytes ((name, reference) ∷ rest) = reference.bytes + sum_bytes rest

-- `Buffer.byteLength(before ?? '')`
abbrev pub content_bytes : Platform → Option String → ℕ
content_bytes node none = node.byte_length ""
content_bytes node (some content) = node.byte_length content

abbrev pub point_of : StoredPoint → List WorkspaceMutation → RewindPoint
point_of point mutations = record {
  id = point.id;
  session_id = point.session_id;
  turn = point.turn;
  workspace_root = point.workspace_root;
  input = point.input;
  prompt_seq = point.prompt_seq;
  previous_turn_end_seq = point.previous_turn_end_seq;
  created_at = point.created_at;
  workspace_mutations = mutations;
}

abbrev pub timeline_with : TimelineManifest → List RewindPoint → RewindTimeline
timeline_with manifest nodes = record {
  lineage_id = manifest.lineage_id;
  workspace_root = manifest.workspace_root;
  owner_session_id = manifest.owner_session_id;
  cursor = manifest.cursor;
  updated_at = manifest.updated_at;
  nodes = nodes;
}

module _ (node : Platform) (max_object_bytes : ℕ) (objects : Directory) where
  -- An object that is in the cache is not read again.
  abbrev pub read_cached :
      Option String → Directory → ObjectReference → Result RepositoryError (String × Directory)
  read_cached (some content) cache reference = ok (content, cache)
  read_cached none cache reference =
      throw_if (ltb max_object_bytes reference.bytes) object_over_limit
      >> (read_bounded node (lookup reference.hash objects) max_object_bytes >>= λ content.
          (throw_if
              (not (
                nat_beq (node.byte_length content) reference.bytes
                && node.hash content == reference.hash))
              object_invalid
            >> ok (content, insert reference.hash content cache)))

  unfoldable pub read_object :
      Directory → ObjectReference → Result RepositoryError (String × Directory)
  read_object cache reference = read_cached (lookup reference.hash cache) cache reference

  unfoldable pub read_before :
      Directory → Option ObjectReference → Result RepositoryError (Option String × Directory)
  read_before cache none = ok (none, cache)
  read_before cache (some reference) =
      read_object cache reference >>= λ read. ok (some read.0, read.1)

  unfoldable pub read_effect :
      Directory → StoredEffect → Result RepositoryError (WorkspaceEffect × Directory)
  read_effect cache (Decode.unsupported reason) = ok (unsupported (given reason), cache)
  read_effect cache (Decode.reversible before after bytes) = read_before cache before >>= λ first.
      read_object first.1 after >>= λ second.
      (throw_if (not (nat_beq (content_bytes node first.0 + node.byte_length second.0) bytes))
          bytes_invalid
        >> ok (reversible first.0 second.0 bytes, second.1))

  unfoldable pub read_mutations :
      Directory → List StoredMutation → Result RepositoryError (List WorkspaceMutation × Directory)
  read_mutations cache [] = ok ([], cache)
  read_mutations cache (mutation ∷ mutations) = read_effect cache mutation.effect >>= λ read.
      read_mutations read.1 mutations >>= λ later.
      ok (record { source = mutation.source; effect = read.0 } ∷ later.0, later.1)

  unfoldable pub read_nodes :
      Directory → List StoredPoint → Result RepositoryError (List RewindPoint × Directory)
  read_nodes cache [] = ok ([], cache)
  read_nodes cache (point ∷ points) = read_mutations cache point.workspace_mutations >>= λ read.
      read_nodes read.1 points >>= λ later. ok (point_of point read.0 ∷ later.0, later.1)

  unfoldable pub materialize : ℕ → TimelineManifest → Result RepositoryError RewindTimeline
  materialize max_timeline_bytes manifest =
      throw_if (ltb max_timeline_bytes (sum_bytes (unique_references manifest))) timeline_over_limit
      >> (read_nodes [] manifest.nodes >>= λ read. ok (timeline_with manifest read.0))
