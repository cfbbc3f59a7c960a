-- ===== src/Rewind/Repository/Tests.antt =====
-- The theorems on the sample repository.
use deepseek_harness_communi.Prelude.{
  ◌≤◌, ◌≡◌, refl, sym, ◌∙◌, subst, All, ==_iff, true, false, none, some, [], ◌∷◌, String, ltb, ◌==◌,
  string_eq, Bool-cases, inl, inr, arith,
}
use deepseek_harness_communi.Prelude.Text.{starts_with, units}
use deepseek_harness_communi.Prelude.Sort.{sort_by, insert_by}
use deepseek_harness_communi.Prelude.Table.{lookup, insert, remove, AreUnique, entries_of}
use deepseek_harness_communi.Prelude.Result.{ok, err, ◌>>=◌, ◌>>◌, throw_if}
use deepseek_harness_communi.Rewind.Points.{is_safe_integer}
use deepseek_harness_communi.Rewind.Manifest.Json.{
  property, to_record, to_string, to_integer, to_array, decode_all, optional, nullable, is_hash,
  object_reference,
}
use deepseek_harness_communi.Rewind.Manifest.Decode.{
  stored_point, prompt_input, stored_mutation, stored_effect,
}
use deepseek_harness_communi.Rewind.Manifest.Integrity.{
  validate_manifest_integrity, validate_points, validate_images, validate_mutations,
  validate_references,
}
use deepseek_harness_communi.Rewind.Manifest.Parse.{parse_manifest}
use deepseek_harness_communi.Rewind.Repository.Storage.{conflict, max_manifest_bytes, read_bounded}
use deepseek_harness_communi.Rewind.Repository.Store.{
  ◌>>=◌ as ◌>>>=◌, write_object, write_before, store_effect, store_mutations, store_nodes, store,
}
use deepseek_harness_communi.Rewind.Repository.Materialize.{
  unique_onto, unique_references, sum_bytes,
}
use deepseek_harness_communi.Rewind.Repository.Compaction.{
  parse_source, read_manifest, read_manifests, counted, add_references, add_manifests, total_bytes,
  release_references, evict, evicted, compact_locked,
}
use deepseek_harness_communi.Rewind.Repository.Operations.{
  current_revision, manifest_source, load, save, loading, saving, removing, compacting, closing,
  run,
}
use deepseek_harness_communi.Rewind.Repository.Encode.RoundTrip.{IsManifest}
use deepseek_harness_communi.Rewind.Repository.Store.Contents.{AreDistinguished, IsAddressed}
use deepseek_harness_communi.Rewind.Repository.Store.RoundTrip.{shown}
use deepseek_harness_communi.Rewind.Repository.Operations.SaveLoad.{load-save}
use deepseek_harness_communi.Rewind.Repository.Operations.Outcome.{IsSaved, save-IsSaved}
use deepseek_harness_communi.Rewind.Repository.Operations.WellFormed.{
  IsWellFormed, run-IsWellFormed,
}
use deepseek_harness_communi.Rewind.Repository.Compaction.Collected.{
  IsCompacted, compact_locked-IsCompacted,
}
use deepseek_harness_communi.Rewind.Repository.Compaction.Bounded.{
  directory_bytes, IsSized, compact_locked-directory_bytes,
}
use deepseek_harness_communi.Rewind.Repository.Encode.{
  encode_all, reference_json, effect_fields, mutation_fields, mutation_json, input_json, point_json,
  manifest_json,
}
use deepseek_harness_communi.Rewind.Repository.Sample.{
  root_hash, content_hash, other_hash, hash, manifest, value, node, empty, objects, saved,
}

stored : store node 10 value [] ≡ (objects, ok manifest)
unfolding store ◌>>>=◌ store_nodes store_mutations store_effect write_before write_object lookup
    insert units
stored = refl

save_first : save node empty value none ≡ (saved, ok other_hash)
unfolding save current_revision store ◌>>>=◌ store_nodes store_mutations store_effect write_before
    write_object lookup insert units unique_references unique_onto sum_bytes manifest_source
    compact_locked read_manifests read_manifest read_bounded ◌>>=◌ parse_source parse_manifest
    to_record ◌>>◌ throw_if property to_string to_array decode_all stored_point to_integer
    is_safe_integer prompt_input optional stored_mutation starts_with stored_effect nullable
    object_reference is_hash validate_manifest_integrity validate_points validate_images
    validate_mutations validate_references manifest_json point_json input_json mutation_json
    mutation_fields effect_fields reference_json encode_all evicted counted add_manifests
    add_references total_bytes evict sort_by insert_by release_references remove
save_first = refl

valid : validate_manifest_integrity node.is_absolute manifest ≡ ok tt
unfolding validate_manifest_integrity validate_points validate_images validate_mutations
    validate_references ◌>>=◌ ◌>>◌ throw_if lookup insert starts_with
valid = refl

is_manifest : IsManifest node manifest
unfolding is_safe_integer starts_with is_hash units
is_manifest = record {
  workspace_root = refl;
  workspace_id = refl;
  identity = refl;
  nodes = (
    record {
      workspace_root = refl;
      id = refl;
      session_id = refl;
      turn = refl;
      input = record { text = refl; references = tt };
      prompt_seq = refl;
      created_at = refl;
      previous = refl;
      mutations = (
        record {
          id = refl;
          source_session_id = refl;
          source_turn = refl;
          call_id = refl;
          root_call_id = refl;
          order = refl;
          absolute_path = refl;
          created_at = refl;
          absolute = refl;
          resolved = refl;
          effect = (tt, record { hash = refl; bytes = refl }, refl);
        },
        tt,
      );
    },
    tt,
  );
  cursor = refl;
  cursor_inside = refl;
  lineage_id = refl;
  owner_session_id = refl;
  updated_at = refl;
  valid = valid;
}

-- The one content in use.
abbrev InUse : String → Type 0
InUse content = content ≡ "x"

distinguished : AreDistinguished node InUse
distinguished s t a b e = a ∙ sym b

digits : (s : String) → is_hash (hash s) ≡ true
unfolding is_hash units
digits s = elim (Bool-cases (s == "/w")) [
  | inl root ↦ rw root refl
  | inr other ↦ elim (Bool-cases (s == "x")) [
    | inl content ↦ rw (other, content) refl
    | inr none_of_them ↦ rw (other, none_of_them) refl
  ]
]

no_files : AreUnique {K = String} {V = String} []
unfolding entries_of
no_files k = ground arith

no_objects : IsAddressed node InUse []
unfolding lookup
no_objects name content e = cc

no_revision : current_revision node (lookup root_hash empty.timelines) ≡ ok none
unfolding current_revision lookup
no_revision = refl

printed : node.parse (manifest_source node manifest) ≡ ok (manifest_json manifest)
unfolding manifest_source
printed = refl

small_contents : ltb 20 (sum_bytes (unique_references manifest)) ≡ false
unfolding sum_bytes unique_references unique_onto insert
small_contents = refl

short : ltb max_manifest_bytes (node.byte_length (manifest_source node manifest)) ≡ false
unfolding manifest_source units
short = refl

still_there : lookup root_hash (save node empty value none).0.timelines ≡ some "m\n"
unfolding lookup
still_there = rw save_first refl

load-save_example :
    ((save node empty value none).1 ≡ ok (hash "m\n"))
    × (load node (save node empty value none).0 "/w" ≡ (
      (save node empty value none).0,
      ok (some (record { value = shown node value; revision = hash "m\n" })),
    ))
unfolding units
load-save_example =
    load-save node InUse distinguished digits empty value none none objects manifest refl no_files
      no_objects (((tt, refl, refl), tt), tt) no_revision refl stored is_manifest printed
      small_contents short "m\n" still_there

-- A save with a revision that is not the current one.
save_stale : save node saved value none ≡ (saved, err conflict)
unfolding save current_revision lookup read_bounded ◌>>=◌ units
save_stale = refl

save-IsSaved_example : IsSaved node empty root_hash none (save node empty value none)
save-IsSaved_example = save-IsSaved node empty value none

one_timeline : AreUnique saved.timelines
unfolding entries_of
one_timeline k = ground arith

one_object : AreUnique saved.objects
unfolding entries_of
one_object k = ground arith

one_manifest : read_manifests node saved.timelines ≡ some ((root_hash, manifest) ∷ [])
unfolding read_manifests read_manifest read_bounded ◌>>=◌ parse_source parse_manifest units
    to_record ◌>>◌ throw_if property to_string to_array decode_all stored_point to_integer
    is_safe_integer prompt_input optional stored_mutation starts_with stored_effect nullable
    object_reference is_hash validate_manifest_integrity validate_points validate_images
    validate_mutations validate_references manifest_json point_json input_json mutation_json
    mutation_fields effect_fields reference_json encode_all lookup insert
one_manifest = refl

compact_locked-IsCompacted_example :
    IsCompacted node (read_manifests node saved.timelines) saved (compact_locked node saved)
compact_locked-IsCompacted_example = compact_locked-IsCompacted node saved one_timeline

object_size :
    (content : String)
    → lookup content_hash saved.objects ≡ some content
    → node.byte_length content ≡ 1
unfolding lookup units
object_size content e =
    let same : "x" ≡ content = cc in subst (λ c. node.byte_length c ≡ 1) same refl

addressed : IsAddressed node (λ content. Unit {0}) saved.objects
unfolding lookup
addressed name content e = elim (Bool-cases (content_hash == name)) [
  | inl here ↦
      let key : content_hash ≡ name = (==_iff content_hash name).0 here in
      let same : "x" ≡ content = ground arith in (subst (λ c. hash c ≡ name) same key, tt)
  | inr other ↦ absurd (ground arith)
]

sized : All (IsSized node saved.objects) ((root_hash, manifest) ∷ [])
sized = ((object_size, tt), tt)

compact_locked-directory_bytes_example :
    directory_bytes node (compact_locked node saved).objects ≤ 30
compact_locked-directory_bytes_example =
    compact_locked-directory_bytes node saved ((root_hash, manifest) ∷ []) one_manifest one_timeline
      one_object sized

saved-IsWellFormed : IsWellFormed node saved
saved-IsWellFormed = record {
  timelines = one_timeline;
  named =
      (record { manifest = manifest; written = unfold manifest_source in refl; named = refl }, tt);
  objects = (one_object, addressed);
}

run-IsWellFormed_example : IsWellFormed node (
    run node
      (saving value none ∷ loading "/w" ∷ removing "/w" none ∷ compacting ∷ closing ∷ [])
      saved)
run-IsWellFormed_example =
    run-IsWellFormed node
      (saving value none ∷ loading "/w" ∷ removing "/w" none ∷ compacting ∷ closing ∷ []) saved
      saved-IsWellFormed
