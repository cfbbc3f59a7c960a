-- ===== src/Rewind/Manifest/Integrity.antt =====
-- packages/tui/src/modules/rewind/adapters/file-repository.ts: `validateManifestIntegrity`, which a
-- stored timeline passes before it is used. The sets of identities are lists, the latest first.
use deepseek_harness_communi.Prelude.{
  ℕ, ◌+◌, Bool, true, false, not, ◌&&◌, Option, none, some, List, [], ◌∷◌, ◌++◌, String, any, leb,
  nat_beq, ◌==◌, string_eq,
}
use deepseek_harness_communi.Prelude.Table.{lookup, insert}
use deepseek_harness_communi.Prelude.Result.{Result, ok, ◌>>=◌, ◌>>◌, throw_if}
use deepseek_harness_communi.Rewind.Contracts.{PromptImage}
use deepseek_harness_communi.Rewind.Manifest.Json.{ObjectReference}
use deepseek_harness_communi.Rewind.Manifest.Decode.{
  StoredEffect, reversible, unsupported, StoredMutation, StoredPoint, TimelineManifest,
}

abbrev pub seen_in : List String → String → Bool
seen_in seen id = any (λ s. s == id) seen

unfoldable pub validate_images : List String → List PromptImage → Result String (Unit {0})
validate_images seen [] = ok tt
validate_images seen (image ∷ images) =
    throw_if (seen_in seen image.reference)
      "rewind point contains a duplicate prompt image reference"
    >> validate_images (image.reference ∷ seen) images

abbrev pub before_bytes : Option ObjectReference → ℕ
before_bytes none = 0
before_bytes (some reference) = reference.bytes

-- The byte count of a reversible effect is that of its contents.
abbrev pub has_sum : StoredEffect → Bool
has_sum (reversible before after bytes) = nat_beq bytes (before_bytes before + after.bytes)
has_sum (unsupported reason) = true

abbrev pub is_attributed : StoredPoint → StoredMutation → Bool
is_attributed point mutation =
    mutation.source.source_session_id == point.session_id
    && nat_beq mutation.source.source_turn point.turn

-- `point.previousTurnEndSeq !== undefined && point.previousTurnEndSeq >= point.promptSeq`
abbrev pub is_late : Option ℕ → ℕ → Bool
is_late none prompt_seq = false
is_late (some seq) prompt_seq = leb prompt_seq seq

module _ (is_absolute : String → Bool) where
  -- The identities seen so far, and then those of the point.
  unfoldable pub validate_mutations :
      StoredPoint → List String → List StoredMutation → Result String (List String)
  validate_mutations point seen [] = ok seen
  validate_mutations point seen (mutation ∷ mutations) =
      throw_if (seen_in seen mutation.source.id)
        "rewind manifest contains a duplicate workspace mutation"
      >> (throw_if (not (is_attributed point mutation))
            "rewind workspace mutation attribution does not match its point"
          >> (throw_if (not (is_absolute mutation.source.absolute_path))
                "rewind workspace mutation target is not absolute"
              >> (throw_if (not (has_sum mutation.effect))
                    "rewind workspace mutation byte count is invalid"
                  >> validate_mutations point (mutation.source.id ∷ seen) mutations)))

  unfoldable pub validate_points :
      List String → List String → List StoredPoint → Result String (Unit {0})
  validate_points points mutations [] = ok tt
  validate_points points mutations (point ∷ rest) =
      throw_if (seen_in points point.id) "rewind manifest contains a duplicate point"
      >> (validate_images [] point.input.attachments
          >> (throw_if (is_late point.previous_turn_end_seq point.prompt_seq)
                "rewind point conversation boundary does not precede its Prompt"
              >> (validate_mutations point mutations point.workspace_mutations >>= λ later.
                  validate_points (point.id ∷ points) later rest)))

abbrev pub effect_references : StoredEffect → List ObjectReference
effect_references (reversible none after bytes) = after ∷ []
effect_references (reversible (some before) after bytes) = before ∷ after ∷ []
effect_references (unsupported reason) = []

abbrev pub mutation_references : List StoredMutation → List ObjectReference
mutation_references [] = []
mutation_references (mutation ∷ rest) =
    effect_references mutation.effect ++ mutation_references rest

abbrev pub references : List StoredPoint → List ObjectReference
references [] = []
references (point ∷ rest) = mutation_references point.workspace_mutations ++ references rest

abbrev pub differs : Option ℕ → ℕ → Bool
differs none bytes = false
differs (some known) bytes = not (nat_beq known bytes)

unfoldable pub validate_references :
    List (String × ℕ) → List ObjectReference → Result String (Unit {0})
validate_references known [] = ok tt
validate_references known (reference ∷ rest) =
    throw_if (differs (lookup reference.hash known) reference.bytes)
      "rewind object reference has inconsistent byte counts"
    >> validate_references (insert reference.hash reference.bytes known) rest

unfoldable pub validate_manifest_integrity :
    (String → Bool) → TimelineManifest → Result String (Unit {0})
validate_manifest_integrity is_absolute manifest =
    validate_points is_absolute [] [] manifest.nodes
    >> validate_references [] (references manifest.nodes)
