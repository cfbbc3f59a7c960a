-- ===== src/Rewind/Repository/Encode/RoundTrip.antt =====
-- packages/tui/src/modules/rewind/adapters/file-repository.ts: `parseManifest` reads a manifest back from
-- its JSON.
use deepseek_harness_communi.Prelude.{
  ℕ, Bool, true, false, Option, none, some, String, ltb, length, ◌==◌, ==_refl, string_eq, ◌≡◌,
  refl, All,
}
use deepseek_harness_communi.Prelude.Result.{ok, ◌>>=◌, ◌>>◌, throw_if}
use deepseek_harness_communi.Rewind.Manifest.Json.{
  Json, JsonFields, undefined, number, elements, no_fields, field, property, to_record, to_integer,
  to_array, optional, nullable, ObjectReference, object_reference,
}
use deepseek_harness_communi.Rewind.Manifest.Decode.{
  StoredEffect, reversible, unsupported, StoredMutation, StoredPoint, TimelineManifest,
  stored_effect, stored_mutation, stored_point,
}
use deepseek_harness_communi.Rewind.Manifest.Integrity.{validate_manifest_integrity}
use deepseek_harness_communi.Rewind.Manifest.Parse.{parse_manifest, is_other_root}
use deepseek_harness_communi.Rewind.Repository.Platform.{Platform}
use deepseek_harness_communi.Rewind.Repository.Encode.{
  optional_field, json_of, nullable_of, encode_all, reference_json, effect_fields, mutation_fields,
  mutation_json, point_json, manifest_json,
}
use deepseek_harness_communi.Rewind.Repository.Encode.Input.{
  IsText, IsInteger, AllOf, IsReference, IsInput, to_string-text, to_integer-number,
  object_reference-reference_json, decode_all-encode_all, prompt_input-input_json,
}

abbrev pub IsEffect : StoredEffect → Type 0
IsEffect (reversible before after bytes) =
    AllOf IsReference before × IsReference after × IsInteger bytes
IsEffect (unsupported reason) = IsText reason

nullable_of-reference :
    (before : Option ObjectReference) (label : String)
    → AllOf IsReference before
    → nullable (λ v. object_reference v label) (nullable_of reference_json before) ≡ ok before
unfolding nullable ◌>>=◌ reference_json
nullable_of-reference none label h = refl
nullable_of-reference (some before) label h =
    rw (object_reference-reference_json before label h) refl

stored_effect-mutation_fields :
    (mutation : StoredMutation) (effect : StoredEffect)
    → mutation.effect ≡ effect
    → IsEffect effect
    → stored_effect (mutation_fields mutation) ≡ ok effect
unfolding stored_effect mutation_fields effect_fields property ◌>>=◌ ◌>>◌ throw_if
stored_effect-mutation_fields mutation (reversible before after bytes) e h =
    rw
      (
        e,
        nullable_of-reference before "mutation.before" h.0,
        object_reference-reference_json after "mutation.after" h.1,
        to_integer-number bytes _ h.2,
      )
      refl
stored_effect-mutation_fields mutation (unsupported reason) e h =
    rw (e, to_string-text reason _ h) refl

property-optional_field :
    (key name : String) (value : Option Json) (rest : JsonFields)
    → (key == name) ≡ false
    → property (optional_field key value rest) name ≡ property rest name
unfolding property
property-optional_field key name none rest h = refl
property-optional_field key name (some value) rest h = rw h refl

previous-optional_field :
    (previous : Option ℕ) (rest : JsonFields)
    → property rest "previousTurnEndSeq" ≡ undefined
    → AllOf IsInteger previous
    → optional
        (λ v. to_integer v "point.previousTurnEndSeq")
        (property
          (optional_field "previousTurnEndSeq" (json_of number previous) rest)
          "previousTurnEndSeq")
      ≡ ok previous
unfolding optional property ◌>>=◌
previous-optional_field none rest e h = rw e refl
previous-optional_field (some previous) rest e h = rw (to_integer-number previous _ h) refl

module _ (is_absolute : String → Bool) (resolve : String → String) where
  pub record IsMutation (mutation : StoredMutation) : Type 0 where
    pub id : IsText mutation.source.id
    pub source_session_id : IsText mutation.source.source_session_id
    pub source_turn : IsInteger mutation.source.source_turn
    pub call_id : IsText mutation.source.call_id
    pub root_call_id : IsText mutation.source.root_call_id
    pub order : IsInteger mutation.source.order
    pub absolute_path : IsText mutation.source.absolute_path
    pub created_at : IsInteger mutation.source.created_at
    pub absolute : is_absolute mutation.source.absolute_path ≡ true
    pub resolved : resolve mutation.source.absolute_path ≡ mutation.source.absolute_path
    pub effect : IsEffect mutation.effect

  stored_mutation-mutation_json :
      (mutation : StoredMutation)
      → IsMutation mutation
      → stored_mutation is_absolute resolve (mutation_json mutation) ≡ ok mutation
  unfolding stored_mutation mutation_json mutation_fields property ◌>>=◌ ◌>>◌ throw_if to_record
  stored_mutation-mutation_json mutation h =
      rw
        (
          to_string-text mutation.source.absolute_path _ h.absolute_path,
          h.absolute,
          to_string-text mutation.source.id _ h.id,
          to_string-text mutation.source.source_session_id _ h.source_session_id,
          to_integer-number mutation.source.source_turn _ h.source_turn,
          to_string-text mutation.source.call_id _ h.call_id,
          to_string-text mutation.source.root_call_id _ h.root_call_id,
          to_integer-number mutation.source.order _ h.order,
          to_integer-number mutation.source.created_at _ h.created_at,
          h.resolved,
          stored_effect-mutation_fields mutation mutation.effect refl h.effect,
        )
        refl

  pub record IsPoint (root : String) (point : StoredPoint) : Type 0 where
    pub workspace_root : point.workspace_root ≡ root
    pub id : IsText point.id
    pub session_id : IsText point.session_id
    pub turn : IsInteger point.turn
    pub input : IsInput point.input
    pub prompt_seq : IsInteger point.prompt_seq
    pub created_at : IsInteger point.created_at
    pub previous : AllOf IsInteger point.previous_turn_end_seq
    pub mutations : All IsMutation point.workspace_mutations

  stored_point-point_json :
      (root : String) (point : StoredPoint)
      → IsText root
      → IsPoint root point
      → stored_point is_absolute resolve root (point_json point) ≡ ok point
  unfolding stored_point point_json property ◌>>=◌ ◌>>◌ throw_if to_record to_array
  stored_point-point_json root point t h =
      rw
        (
          h.workspace_root,
          to_string-text root _ t,
          ==_refl root,
          to_string-text point.id _ h.id,
          to_string-text point.session_id _ h.session_id,
          to_integer-number point.turn _ h.turn,
          prompt_input-input_json point.input h.input,
          to_integer-number point.prompt_seq _ h.prompt_seq,
          previous-optional_field point.previous_turn_end_seq
              (field "createdAt" (number point.created_at) (
                field "workspaceMutations"
                  (elements (encode_all mutation_json point.workspace_mutations)) no_fields))
              refl h.previous,
          property-optional_field "previousTurnEndSeq" "createdAt" _ _ refl,
          property-optional_field "previousTurnEndSeq" "workspaceMutations" _ _ refl,
          to_integer-number point.created_at _ h.created_at,
          decode_all-encode_all mutation_json (stored_mutation is_absolute resolve) IsMutation
              stored_mutation-mutation_json point.workspace_mutations h.mutations,
        )
        refl

-- A manifest that its parser accepts, before it is printed.
pub record IsManifest (node : Platform) (manifest : TimelineManifest) : Type 0 where
  pub workspace_root : IsText manifest.workspace_root
  pub workspace_id : IsText manifest.workspace_id
  pub identity : manifest.workspace_id ≡ node.hash manifest.workspace_root
  pub nodes : All (IsPoint node.is_absolute node.resolve manifest.workspace_root) manifest.nodes
  pub cursor : IsInteger manifest.cursor
  pub cursor_inside : ltb (length manifest.nodes) manifest.cursor ≡ false
  pub lineage_id : IsText manifest.lineage_id
  pub owner_session_id : IsText manifest.owner_session_id
  pub updated_at : IsInteger manifest.updated_at
  pub valid : validate_manifest_integrity node.is_absolute manifest ≡ ok tt

pub parse_manifest-manifest_json :
    (node : Platform) (manifest : TimelineManifest) (expected_root : Option String)
    → IsManifest node manifest
    → is_other_root expected_root manifest.workspace_root ≡ false
    → parse_manifest node.hash node.is_absolute node.resolve node.show
        (manifest_json manifest)
        expected_root
      ≡ ok manifest
unfolding parse_manifest manifest_json property ◌>>=◌ ◌>>◌ throw_if to_record to_array
parse_manifest-manifest_json node manifest expected_root h asked =
    rw
      (
        to_string-text manifest.workspace_root _ h.workspace_root,
        asked,
        to_string-text manifest.workspace_id _ h.workspace_id,
        ← h.identity,
        ==_refl manifest.workspace_id,
        decode_all-encode_all point_json
            (stored_point node.is_absolute node.resolve manifest.workspace_root)
            (IsPoint node.is_absolute node.resolve manifest.workspace_root)
            (λ point.
              stored_point-point_json node.is_absolute node.resolve manifest.workspace_root point
                h.workspace_root)
            manifest.nodes h.nodes,
        to_integer-number manifest.cursor _ h.cursor,
        h.cursor_inside,
        to_string-text manifest.lineage_id _ h.lineage_id,
        to_string-text manifest.owner_session_id _ h.owner_session_id,
        to_integer-number manifest.updated_at _ h.updated_at,
        h.valid,
      )
      refl
