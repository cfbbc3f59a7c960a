-- ===== src/Rewind/Manifest/Decode.antt =====
-- packages/tui/src/modules/rewind/adapters/file-repository.ts: the parts of a stored timeline. The
-- effect of a mutation refers to contents by their hash. `is_absolute` and `resolve` are the functions
-- of `node:path`.
use deepseek_harness_communi.Prelude.{
  ℕ, Bool, false, not, ◌||◌, Option, none, some, List, String, if◌then◌else◌, any, ltb, ◌==◌,
  string_eq,
}
use deepseek_harness_communi.Prelude.Result.{Result, ok, ◌>>=◌, ◌>>◌, throw_if}
use deepseek_harness_communi.Rewind.Contracts.{
  ImageAttachmentRef, PromptImage, RewindPromptInput, AttributedWorkspaceMutation,
}
use deepseek_harness_communi.Rewind.Points.{image_media_types}
use deepseek_harness_communi.Rewind.Manifest.Json.{
  Json, text, JsonFields, property, to_record, to_string, to_integer, to_array, decode_all,
  optional, nullable, ObjectReference, object_reference,
}

pub data StoredEffect : Type 0 where
  -- before, after, bytes
  reversible : Option ObjectReference → ObjectReference → ℕ → StoredEffect
  unsupported : String → StoredEffect

pub record StoredMutation : Type 0 where
  pub source : AttributedWorkspaceMutation
  pub effect : StoredEffect

pub record StoredPoint : Type 0 where
  pub id : String
  pub session_id : String
  pub turn : ℕ
  pub workspace_root : String
  pub input : RewindPromptInput
  pub prompt_seq : ℕ
  pub created_at : ℕ
  pub previous_turn_end_seq : Option ℕ
  pub workspace_mutations : List StoredMutation

pub record TimelineManifest : Type 0 where
  pub workspace_id : String
  pub workspace_root : String
  pub lineage_id : String
  pub owner_session_id : String
  pub cursor : ℕ
  pub updated_at : ℕ
  pub nodes : List StoredPoint

abbrev dimensions_label : String
dimensions_label = "prompt attachment.originalDimensions"

unfoldable pub original_dimensions : Json → Result String (ℕ × ℕ)
original_dimensions value = to_record value dimensions_label >>= λ original.
    to_integer (property original "width") "prompt attachment.originalDimensions.width" >>= λ width.
    to_integer (property original "height") "prompt attachment.originalDimensions.height"
    >>= λ height. ok (width, height)

abbrev pub empty_dimensions : Option (ℕ × ℕ) → Bool
empty_dimensions none = false
empty_dimensions (some (width, height)) = ltb width 1 || ltb height 1

unfoldable pub attachment_ref : Json → Result String ImageAttachmentRef
attachment_ref value = to_record value "prompt attachment" >>= λ item.
    to_string (property item "mediaType") "prompt attachment.mediaType" >>= λ media_type.
    (throw_if (not (any (λ t. t == media_type) image_media_types))
        "prompt attachment.mediaType is invalid"
      >> (to_integer (property item "bytes") "prompt attachment.bytes" >>= λ bytes.
          to_integer (property item "width") "prompt attachment.width" >>= λ width.
          to_integer (property item "height") "prompt attachment.height" >>= λ height.
          (throw_if (ltb bytes 1 || ltb width 1 || ltb height 1)
              "prompt attachment dimensions are invalid"
            >> (optional (λ v. to_string v "prompt attachment.name") (property item "name")
                >>= λ name.
                    optional original_dimensions (property item "originalDimensions")
                    >>= λ original.
                        (throw_if (empty_dimensions original)
                            "prompt attachment original dimensions are invalid"
                          >> (to_string (property item "attachmentId")
                                "prompt attachment.attachmentId"
                              >>= λ attachment_id. ok (record {
                                attachment_id = attachment_id;
                                media_type = media_type;
                                bytes = bytes;
                                width = width;
                                height = height;
                                name = name;
                                original_dimensions = original;
                              })))))))

unfoldable pub prompt_image : Json → Result String PromptImage
prompt_image value = to_record value "prompt image" >>= λ image.
    to_string (property image "reference") "prompt image.reference" >>= λ reference.
    attachment_ref (property image "attachment") >>= λ attachment.
    ok (record { reference = reference; attachment = attachment })

unfoldable pub prompt_input : Json → Result String RewindPromptInput
prompt_input value = to_record value "point.input" >>= λ item.
    to_string (property item "text") "point.input.text" >>= λ words.
    to_array (property item "attachments") "point.input.attachments" >>= λ images.
    decode_all prompt_image images >>= λ attachments.
    ok (record { text = words; attachments = attachments })

-- `value === text`, of a field.
abbrev is_text : Json → String → Bool
is_text (text value) expected = value == expected
is_text value expected = false

unfoldable pub stored_effect : JsonFields → Result String StoredEffect
stored_effect item =
    if is_text (property item "kind") "unsupported"
    then (to_string (property item "reason") "mutation.reason" >>= λ reason.
        ok (unsupported reason))
    else (throw_if (not (is_text (property item "kind") "reversible")) "mutation.kind is invalid"
        >> (nullable (λ v. object_reference v "mutation.before") (property item "before")
            >>= λ before. object_reference (property item "after") "mutation.after" >>= λ after.
                to_integer (property item "bytes") "mutation.bytes" >>= λ bytes.
                ok (reversible before after bytes)))

module _ (is_absolute : String → Bool) (resolve : String → String) where
  unfoldable pub stored_mutation : Json → Result String StoredMutation
  stored_mutation value = to_record value "workspace mutation" >>= λ item.
      to_string (property item "absolutePath") "mutation.absolutePath" >>= λ path.
      (throw_if (not (is_absolute path)) "mutation.absolutePath must be absolute"
        >> (to_string (property item "id") "mutation.id" >>= λ id.
            to_string (property item "sourceSessionId") "mutation.sourceSessionId" >>= λ session_id.
            to_integer (property item "sourceTurn") "mutation.sourceTurn" >>= λ turn.
            to_string (property item "callId") "mutation.callId" >>= λ call_id.
            to_string (property item "rootCallId") "mutation.rootCallId" >>= λ root_call_id.
            to_integer (property item "order") "mutation.order" >>= λ order.
            to_integer (property item "createdAt") "mutation.createdAt" >>= λ created_at.
            stored_effect item >>= λ effect. ok (record {
              source = record {
                id = id;
                source_session_id = session_id;
                source_turn = turn;
                call_id = call_id;
                root_call_id = root_call_id;
                order = order;
                absolute_path = resolve path;
                created_at = created_at;
              };
              effect = effect;
            })))

  unfoldable pub stored_point : String → Json → Result String StoredPoint
  stored_point workspace_root value = to_record value "point" >>= λ item.
      to_string (property item "workspaceRoot") "point.workspaceRoot" >>= λ root.
      (throw_if (not (root == workspace_root)) "point belongs to a different workspace"
        >> (to_string (property item "id") "point.id" >>= λ id.
            to_string (property item "sessionId") "point.sessionId" >>= λ session_id.
            to_integer (property item "turn") "point.turn" >>= λ turn.
            prompt_input (property item "input") >>= λ input.
            to_integer (property item "promptSeq") "point.promptSeq" >>= λ prompt_seq.
            to_integer (property item "createdAt") "point.createdAt" >>= λ created_at.
            optional (λ v. to_integer v "point.previousTurnEndSeq")
              (property item "previousTurnEndSeq")
            >>= λ previous.
                to_array (property item "workspaceMutations") "point.workspaceMutations"
                >>= λ values. decode_all stored_mutation values >>= λ mutations. ok (record {
                  id = id;
                  session_id = session_id;
                  turn = turn;
                  workspace_root = root;
                  input = input;
                  prompt_seq = prompt_seq;
                  created_at = created_at;
                  previous_turn_end_seq = previous;
                  workspace_mutations = mutations;
                })))
