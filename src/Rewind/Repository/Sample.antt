-- ===== src/Rewind/Repository/Sample.antt =====
-- A repository with one timeline of one point, which has the new file of one mutation.
use deepseek_harness_communi.Prelude.{
  false, none, some, List, [], ◌∷◌, String, if◌then◌else◌, length, ◌==◌, string_eq,
}
use deepseek_harness_communi.Prelude.Text.{starts_with, units}
use deepseek_harness_communi.Prelude.Result.{ok, err}
use deepseek_harness_communi.Rewind.Contracts.{
  RewindPromptInput, AttributedWorkspaceMutation, reversible, WorkspaceMutation,
}
use deepseek_harness_communi.Rewind.Timeline.{RewindTimeline}
use deepseek_harness_communi.Rewind.Manifest.Json.{ObjectReference}
use deepseek_harness_communi.Rewind.Manifest.Decode
use deepseek_harness_communi.Rewind.Manifest.Decode.{
  StoredMutation, StoredPoint, TimelineManifest, stored_point, prompt_input, stored_mutation,
  stored_effect,
}
use deepseek_harness_communi.Rewind.Repository.Platform.{Platform}
use deepseek_harness_communi.Rewind.Repository.Storage.{Directory, Repository}
use deepseek_harness_communi.Rewind.Repository.Encode.{manifest_json}

abbrev pub root_hash : String
root_hash = "aaaaaaaaaaaaaaaaaaaaaaaaaaaaaaaaaaaaaaaaaaaaaaaaaaaaaaaaaaaaaaaa"

abbrev pub content_hash : String
content_hash = "bbbbbbbbbbbbbbbbbbbbbbbbbbbbbbbbbbbbbbbbbbbbbbbbbbbbbbbbbbbbbbbb"

abbrev pub other_hash : String
other_hash = "cccccccccccccccccccccccccccccccccccccccccccccccccccccccccccccccc"

abbrev pub hash : String → String
hash value = if value == "/w" then root_hash else if value == "x" then content_hash else other_hash

abbrev pub mutation_source : AttributedWorkspaceMutation
mutation_source = record {
  id = "m1";
  source_session_id = "s1";
  source_turn = 3;
  call_id = "c1";
  root_call_id = "c1";
  order = 0;
  absolute_path = "/w/a.ts";
  created_at = 90;
}

abbrev pub prompt : RewindPromptInput
prompt = record { text = "hello"; attachments = [] }

abbrev pub reference : ObjectReference
reference = record { hash = content_hash; bytes = 1 }

abbrev pub stored_mutations : List StoredMutation
stored_mutations =
    record { source = mutation_source; effect = Decode.reversible none reference 1 } ∷ []

abbrev pub manifest : TimelineManifest
manifest = record {
  workspace_id = root_hash;
  workspace_root = "/w";
  lineage_id = "l1";
  owner_session_id = "s1";
  cursor = 1;
  updated_at = 95;
  nodes =
      record {
        id = "p1";
        session_id = "s1";
        turn = 3;
        workspace_root = "/w";
        input = prompt;
        prompt_seq = 8;
        created_at = 80;
        previous_turn_end_seq = some 7;
        workspace_mutations = stored_mutations;
      }
      ∷ [];
}

abbrev pub mutations : List WorkspaceMutation
mutations = record { source = mutation_source; effect = reversible none "x" 1 } ∷ []

abbrev pub value : RewindTimeline
value = record {
  lineage_id = "l1";
  workspace_root = "/w";
  owner_session_id = "s1";
  cursor = 1;
  updated_at = 95;
  nodes =
      record {
        id = "p1";
        session_id = "s1";
        turn = 3;
        workspace_root = "/w";
        input = prompt;
        prompt_seq = 8;
        previous_turn_end_seq = some 7;
        created_at = 80;
        workspace_mutations = mutations;
      }
      ∷ [];
}

abbrev pub node : Platform
node = record {
  hash = hash;
  byte_length = λ text. length (units text);
  parse = λ source. if source == "m\n" then ok (manifest_json manifest) else err "no JSON";
  stringify = λ json. "m";
  show = λ json. "value";
  show_number = λ n. "n";
  is_absolute = λ path. starts_with path "/";
  resolve = λ path. path;
}

abbrev pub empty : Repository
empty = record {
  timelines = [];
  objects = [];
  corrupt = [];
  warnings = [];
  max_object_bytes = 10;
  max_timeline_bytes = 20;
  max_global_bytes = 30;
  closed = false;
}

abbrev pub objects : Directory
objects = (content_hash, "x") ∷ []

-- The repository after the timeline is saved.
abbrev pub saved : Repository
saved = record {
  timelines = (root_hash, "m\n") ∷ [];
  objects = objects;
  corrupt = [];
  warnings = [];
  max_object_bytes = 10;
  max_timeline_bytes = 20;
  max_global_bytes = 30;
  closed = false;
}
