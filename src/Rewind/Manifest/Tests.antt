-- ===== src/Rewind/Manifest/Tests.antt =====
-- A manifest with one point, which has an edit and an unsupported one.
use deepseek_harness_communi.Prelude.{ℕ, ◌≡◌, refl, Bool, true, false, none, some, String}
use deepseek_harness_communi.Prelude.Text.{starts_with, units}
use deepseek_harness_communi.Prelude.Result.{Result, ok, err, ◌>>=◌, ◌>>◌, throw_if, Ensures}
use deepseek_harness_communi.Prelude.Table.{insert, lookup}
use deepseek_harness_communi.Rewind.Points.{is_safe_integer}
use deepseek_harness_communi.Rewind.Manifest.Decode.{
  stored_point, prompt_input, stored_mutation, stored_effect,
}
use deepseek_harness_communi.Rewind.Manifest.Integrity.{
  validate_manifest_integrity, validate_points, validate_images, validate_mutations,
  validate_references,
}
use deepseek_harness_communi.Rewind.Manifest.Json.{
  Json, null, number, text, elements, object, no_elements, element, JsonFields, no_fields, field,
  property, to_record, to_string, to_integer, to_array, decode_all, optional, nullable, is_hash,
  object_reference,
}
use deepseek_harness_communi.Rewind.Manifest.Parse.{parse_manifest}
use deepseek_harness_communi.Rewind.Manifest.Accepted.{IsAccepted, parse_manifest-IsAccepted}

abbrev hash : String → String
hash value = "h"

abbrev is_absolute : String → Bool
is_absolute path = starts_with path "/"

abbrev resolve : String → String
resolve path = path

abbrev show : Json → String
show value = "value"

abbrev contents : String → ℕ → Json
contents digits bytes = object (field "hash" (text digits) (field "bytes" (number bytes) no_fields))

abbrev mutation : String → JsonFields → Json
mutation id effect = object (
    field "absolutePath" (text "/w/a.ts") (
      field "id" (text id) (
        field "sourceSessionId" (text "s1") (
          field "sourceTurn" (number 3) (
            field "callId" (text "c1") (
              field "rootCallId" (text "c1")
                (field "order" (number 0) (field "createdAt" (number 90) effect))))))))

abbrev edit : Json
edit = mutation "m1" (
    field "kind" (text "reversible") (
      field "before" null (
        field "after"
          (contents "0123456789abcdef0123456789abcdef0123456789abcdef0123456789abcdef" 12)
          (field "bytes" (number 12) no_fields))))

abbrev too_large : Json
too_large =
    mutation "m2" (field "kind" (text "unsupported") (field "reason" (text "too large") no_fields))

abbrev point : Json
point = object (
    field "workspaceRoot" (text "/w") (
      field "id" (text "p1") (
        field "sessionId" (text "s1") (
          field "turn" (number 3) (
            field "input"
              (object (
                field "text" (text "hello") (field "attachments" (elements no_elements) no_fields)))
              (field "promptSeq" (number 8) (
                field "createdAt" (number 80) (
                  field "previousTurnEndSeq" (number 7) (
                    field "workspaceMutations"
                      (elements (element edit (element too_large no_elements))) no_fields)))))))))

abbrev manifest_of : Json → ℕ → Json
manifest_of node cursor = object (
    field "schema" (number 5) (
      field "workspaceRoot" (text "/w") (
        field "workspaceId" (text "h") (
          field "nodes" (elements (element node no_elements)) (
            field "cursor" (number cursor) (
              field "lineageId" (text "l1")
                (field "ownerSessionId" (text "s1") (field "updatedAt" (number 95) no_fields))))))))

abbrev is_ok {ℓ} : {A : Type ℓ} → Result String A → Bool
is_ok (ok a) = true
is_ok (err e) = false

accepted :
    is_ok (parse_manifest hash is_absolute resolve show (manifest_of point 1) (some "/w")) ≡ true
unfolding parse_manifest ◌>>=◌ to_record ◌>>◌ throw_if property to_string to_array decode_all
    stored_point to_integer is_safe_integer prompt_input optional stored_mutation starts_with
    stored_effect nullable object_reference is_hash units validate_manifest_integrity
    validate_points validate_images validate_mutations validate_references insert lookup
accepted = refl

cursor_outside :
    parse_manifest hash is_absolute resolve show (manifest_of point 2) none
    ≡ err "rewind manifest cursor is outside its timeline"
unfolding parse_manifest ◌>>=◌ to_record ◌>>◌ throw_if property to_string to_array decode_all
    stored_point to_integer is_safe_integer prompt_input optional stored_mutation starts_with
    stored_effect nullable object_reference is_hash units
cursor_outside = refl

parse_manifest-IsAccepted_example :
    Ensures
      (IsAccepted hash is_absolute (some "/w"))
      (parse_manifest hash is_absolute resolve show (manifest_of point 1) (some "/w"))
parse_manifest-IsAccepted_example =
    parse_manifest-IsAccepted hash is_absolute resolve show (manifest_of point 1) (some "/w")
