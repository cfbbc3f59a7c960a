-- ===== src/Rewind/Manifest/Accepted.antt =====
-- What `parseManifest` accepts.
use deepseek_harness_communi.Prelude.{
  ◌≤◌, Bool, false, not, Option, String, length, ◌==◌, ==_iff, string_eq, ◌≡◌, arith,
}
use deepseek_harness_communi.Prelude.Result.{
  Ensures, Ensures-throw_if, Ensures-then, Ensures-bind, Ensures-ok,
}
use deepseek_harness_communi.Rewind.Manifest.Json.{Json}
use deepseek_harness_communi.Rewind.Manifest.Decode.{TimelineManifest}
use deepseek_harness_communi.Rewind.Manifest.Integrity.{validate_manifest_integrity}
use deepseek_harness_communi.Rewind.Manifest.Parse.{parse_manifest, is_other_root}
use deepseek_harness_communi.Rewind.Manifest.Sound.{AreSound, validate_manifest_integrity-AreSound}

-- The manifest belongs to the workspace that was asked for, its cursor is in its timeline, and its
-- points are sound.
pub record IsAccepted (hash : String → String) (is_absolute : String → Bool)
    (expected_root : Option String) (manifest : TimelineManifest) : Type 0 where
  pub asked_for : is_other_root expected_root manifest.workspace_root ≡ false
  pub identified : manifest.workspace_id ≡ hash manifest.workspace_root
  pub cursor_inside : manifest.cursor ≤ length manifest.nodes
  pub nodes_sound : AreSound is_absolute manifest.nodes

same_text : (s t : String) → not (s == t) ≡ false → s ≡ t
same_text s t h = (==_iff s t).0 (ground (arith, h))

module _ (hash : String → String) (is_absolute : String → Bool) (resolve : String → String)
    (show : Json → String) where
  -- A manifest that the parser accepts is of the workspace that was asked for, its identity is the hash
  -- of the workspace's root, and its cursor is in its timeline. The identities of its points are
  -- distinct, and so are those of the mutations of all points, and the image references in a prompt.
  -- The boundary of the conversation comes before the prompt. A mutation is attributed to the session
  -- and the turn of its point, its path is absolute, and its byte count is that of its contents.
  -- References to contents with one hash have one byte count.
  pub parse_manifest-IsAccepted :
      (value : Json) (expected_root : Option String)
      → Ensures
          (IsAccepted hash is_absolute expected_root)
          (parse_manifest hash is_absolute resolve show value expected_root)
  unfolding parse_manifest
  parse_manifest-IsAccepted value expected_root =
      let P = IsAccepted hash is_absolute expected_root in
      Ensures-bind P _ _ λ item e0. Ensures-throw_if P _ _ _ λ schema. Ensures-bind P _ _ λ root e1.
        Ensures-throw_if P _ _ _ λ asked. Ensures-bind P _ _ λ workspace_id e2.
          Ensures-throw_if P _ _ _ λ identity. Ensures-bind P _ _ λ values e3.
            Ensures-bind P _ _ λ nodes e4. Ensures-bind P _ _ λ cursor e5.
              Ensures-throw_if P _ _ _ λ inside. Ensures-bind P _ _ λ lineage_id e6.
                Ensures-bind P _ _ λ owner e7. Ensures-bind P _ _ λ updated_at e8.
                  let manifest : TimelineManifest = record {
                    workspace_id = workspace_id;
                    workspace_root = root;
                    lineage_id = lineage_id;
                    owner_session_id = owner;
                    cursor = cursor;
                    updated_at = updated_at;
                    nodes = nodes;
                  } in
                  Ensures-then P (validate_manifest_integrity is_absolute manifest) _ λ valid.
                    record {
                      asked_for = asked;
                      identified = same_text workspace_id (hash root) identity;
                      cursor_inside = ground (arith, inside);
                      nodes_sound =
                          Ensures-ok (λ u. AreSound is_absolute nodes)
                            (validate_manifest_integrity is_absolute manifest)
                            (validate_manifest_integrity-AreSound is_absolute manifest) valid;
                    }
