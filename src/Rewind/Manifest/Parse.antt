-- ===== src/Rewind/Manifest/Parse.antt =====
-- packages/tui/src/modules/rewind/adapters/file-repository.ts: `parseManifest`. `hash` is the SHA-256
-- of a text in hexadecimal digits.
use Prim.Native.String.{◌++◌ as text_append}
use deepseek_harness_communi.Prelude.{
  ℕ, Bool, false, not, Option, none, some, String, ltb, nat_beq, length, ◌==◌, string_eq,
}
use deepseek_harness_communi.Prelude.Result.{Result, ok, ◌>>=◌, ◌>>◌, throw_if}
use deepseek_harness_communi.Rewind.Manifest.Json.{
  Json, number, property, to_record, to_string, to_integer, to_array, decode_all,
}
use deepseek_harness_communi.Rewind.Manifest.Decode.{TimelineManifest, stored_point}
use deepseek_harness_communi.Rewind.Manifest.Integrity.{validate_manifest_integrity}

abbrev pub schema_version : ℕ
schema_version = 5

abbrev is_schema : Json → Bool
is_schema (number n) = nat_beq n schema_version
is_schema value = false

-- `expectedRoot !== undefined && workspaceRoot !== expectedRoot`
abbrev pub is_other_root : Option String → String → Bool
is_other_root none root = false
is_other_root (some expected) root = not (root == expected)

module _ (hash : String → String) (is_absolute : String → Bool) (resolve : String → String)
    (show : Json → String) where
  unfoldable pub parse_manifest : Json → Option String → Result String TimelineManifest
  parse_manifest value expected_root = to_record value "rewind manifest" >>= λ item.
      (throw_if (not (is_schema (property item "schema")))
          (text_append "unsupported Rewind manifest schema: " (show (property item "schema")))
        >> (to_string (property item "workspaceRoot") "manifest.workspaceRoot" >>= λ root.
            (throw_if (is_other_root expected_root root)
                "rewind manifest workspace root does not match its key"
              >> (to_string (property item "workspaceId") "manifest.workspaceId" >>= λ workspace_id.
                  (throw_if (not (workspace_id == hash root))
                      "rewind manifest workspace identity is invalid"
                    >> (to_array (property item "nodes") "manifest.nodes" >>= λ values.
                        decode_all (stored_point is_absolute resolve root) values >>= λ nodes.
                        to_integer (property item "cursor") "manifest.cursor" >>= λ cursor.
                        (throw_if (ltb (length nodes) cursor)
                            "rewind manifest cursor is outside its timeline"
                          >> (to_string (property item "lineageId") "manifest.lineageId"
                              >>= λ lineage_id.
                                  to_string (property item "ownerSessionId")
                                    "manifest.ownerSessionId"
                                  >>= λ owner.
                                      to_integer (property item "updatedAt") "manifest.updatedAt"
                                      >>= λ updated_at.
                                          (let manifest : TimelineManifest = record {
                                            workspace_id = workspace_id;
                                            workspace_root = root;
                                            lineage_id = lineage_id;
                                            owner_session_id = owner;
                                            cursor = cursor;
                                            updated_at = updated_at;
                                            nodes = nodes;
                                          } in
                                            validate_manifest_integrity is_absolute manifest
                                            >> ok manifest)))))))))
