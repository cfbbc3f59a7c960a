-- ===== src/Rewind/Repository/Encode.antt =====
-- packages/tui/src/modules/rewind/adapters/file-repository.ts: the manifest as the value that
-- `JSON.stringify` prints: the fields of `TimelineManifest` and of its parts, less those that are
-- undefined.
pub mod Input
pub mod RoundTrip
use deepseek_harness_communi.Prelude.{ℕ, Option, none, some, List, [], ◌∷◌, String}
use deepseek_harness_communi.Rewind.Contracts.{
  ImageAttachmentRef, PromptImage, RewindPromptInput, AttributedWorkspaceMutation,
}
use deepseek_harness_communi.Rewind.Manifest.Json.{
  Json, null, number, text, elements, object, JsonElements, no_elements, element, JsonFields,
  no_fields, field, ObjectReference,
}
use deepseek_harness_communi.Rewind.Manifest.Decode.{
  StoredEffect, reversible, unsupported, StoredMutation, StoredPoint, TimelineManifest,
}
use deepseek_harness_communi.Rewind.Manifest.Parse.{schema_version}

-- A field that is left out when it is undefined.
abbrev pub optional_field : String → Option Json → JsonFields → JsonFields
optional_field name none rest = rest
optional_field name (some value) rest = field name value rest

abbrev pub json_of {ℓ} : {A : Type ℓ} → (A → Json) → Option A → Option Json
json_of encode none = none
json_of encode (some a) = some (encode a)

abbrev pub nullable_of {ℓ} : {A : Type ℓ} → (A → Json) → Option A → Json
nullable_of encode none = null
nullable_of encode (some a) = encode a

unfoldable pub encode_all {ℓ} : {A : Type ℓ} → (A → Json) → List A → JsonElements
encode_all encode [] = no_elements
encode_all encode (a ∷ rest) = element (encode a) (encode_all encode rest)

unfoldable pub reference_json : ObjectReference → Json
reference_json reference =
    object (field "hash" (text reference.hash) (field "bytes" (number reference.bytes) no_fields))

unfoldable pub dimensions_json : ℕ × ℕ → Json
dimensions_json original =
    object (field "width" (number original.0) (field "height" (number original.1) no_fields))

unfoldable pub attachment_json : ImageAttachmentRef → Json
attachment_json attachment = object (
    field "attachmentId" (text attachment.attachment_id) (
      field "mediaType" (text attachment.media_type) (
        field "bytes" (number attachment.bytes) (
          field "width" (number attachment.width) (
            field "height" (number attachment.height) (
              optional_field "name" (json_of text attachment.name) (
                optional_field "originalDimensions"
                  (json_of dimensions_json attachment.original_dimensions) no_fields)))))))

unfoldable pub image_json : PromptImage → Json
image_json image = object (
    field "reference" (text image.reference)
      (field "attachment" (attachment_json image.attachment) no_fields))

unfoldable pub input_json : RewindPromptInput → Json
input_json input = object (
    field "text" (text input.text)
      (field "attachments" (elements (encode_all image_json input.attachments)) no_fields))

unfoldable pub effect_fields : StoredEffect → JsonFields
effect_fields (reversible before after bytes) = field "kind" (text "reversible") (
    field "before" (nullable_of reference_json before)
      (field "after" (reference_json after) (field "bytes" (number bytes) no_fields)))
effect_fields (unsupported reason) =
    field "kind" (text "unsupported") (field "reason" (text reason) no_fields)

unfoldable pub mutation_fields : StoredMutation → JsonFields
mutation_fields mutation = field "id" (text mutation.source.id) (
    field "sourceSessionId" (text mutation.source.source_session_id) (
      field "sourceTurn" (number mutation.source.source_turn) (
        field "callId" (text mutation.source.call_id) (
          field "rootCallId" (text mutation.source.root_call_id) (
            field "order" (number mutation.source.order) (
              field "absolutePath" (text mutation.source.absolute_path) (
                field "createdAt" (number mutation.source.created_at)
                  (effect_fields mutation.effect))))))))

unfoldable pub mutation_json : StoredMutation → Json
mutation_json mutation = object (mutation_fields mutation)

unfoldable pub point_json : StoredPoint → Json
point_json point = object (
    field "id" (text point.id) (
      field "sessionId" (text point.session_id) (
        field "turn" (number point.turn) (
          field "workspaceRoot" (text point.workspace_root) (
            field "input" (input_json point.input) (
              field "promptSeq" (number point.prompt_seq) (
                optional_field "previousTurnEndSeq" (json_of number point.previous_turn_end_seq) (
                  field "createdAt" (number point.created_at) (
                    field "workspaceMutations"
                      (elements (encode_all mutation_json point.workspace_mutations))
                      no_fields)))))))))

unfoldable pub manifest_json : TimelineManifest → Json
manifest_json manifest = object (
    field "schema" (number schema_version) (
      field "workspaceId" (text manifest.workspace_id) (
        field "workspaceRoot" (text manifest.workspace_root) (
          field "lineageId" (text manifest.lineage_id) (
            field "ownerSessionId" (text manifest.owner_session_id) (
              field "cursor" (number manifest.cursor) (
                field "updatedAt" (number manifest.updated_at)
                  (field "nodes" (elements (encode_all point_json manifest.nodes)) no_fields))))))))
