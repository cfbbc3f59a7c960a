-- ===== src/Rewind/Points.antt =====
-- packages/tui/src/modules/rewind/domain/journal.ts: the checkpoints of the journal and the checks
-- that a prompt passes before it becomes one. Points are copied in and out of the journal field by
-- field, so a stored point, its snapshot and its copy are one record here.
use deepseek_harness_communi.Prelude.{
  ℕ, ◌-◌, ◌^◌, String, Bool, true, not, ◌&&◌, ◌||◌, List, [], ◌∷◌, Option, none, some, leb, ltb,
  any, ◌==◌, string_eq,
}
use deepseek_harness_communi.Prelude.Text.{is_blank}
use deepseek_harness_communi.Prelude.Result.{Result, ok, ◌>>◌, throw_if}
use deepseek_harness_communi.Rewind.Contracts.{
  ImageAttachmentRef, PromptImage, RewindPromptInput, RewindPointInput, WorkspaceMutation,
}

-- The errors that the journal throws, one for each message.
pub data RewindError : Type 0 where
  limit_not_positive mutation_limit_exceeds_session : RewindError
  blank_point_id blank_session_id blank_workspace_root bad_turn bad_created_at bad_prompt_seq
        bad_boundary blank_prompt bad_reference blank_attachment_id bad_attachment :
      RewindError
  bad_timeline_identity bad_timeline_update bad_timeline_cursor foreign_workspace_root
        duplicate_prompt :
      RewindError
  no_checkpoints foreign_session multiple_workspace_roots : RewindError
  lineage_changed not_distinct_session replaces_session : RewindError

pub record RewindPoint : Type 0 where
  pub id : String
  pub session_id : String
  pub turn : ℕ
  pub workspace_root : String
  pub input : RewindPromptInput
  pub prompt_seq : ℕ
  pub previous_turn_end_seq : Option ℕ
  pub created_at : ℕ
  pub workspace_mutations : List WorkspaceMutation

unfoldable pub new_point : RewindPointInput → RewindPoint
new_point input = record {
  id = input.point_id;
  session_id = input.session_id;
  turn = input.turn;
  workspace_root = input.workspace_root;
  input = input.input;
  prompt_seq = input.prompt_seq;
  previous_turn_end_seq = input.previous_turn_end_seq;
  created_at = input.created_at;
  workspace_mutations = [];
}

-- The argument of `validatePoint` in `hydrate`.
unfoldable pub point_input : RewindPoint → RewindPointInput
point_input point = record {
  point_id = point.id;
  session_id = point.session_id;
  turn = point.turn;
  workspace_root = point.workspace_root;
  input = point.input;
  prompt_seq = point.prompt_seq;
  created_at = point.created_at;
  previous_turn_end_seq = point.previous_turn_end_seq;
}

-- `Number.MAX_SAFE_INTEGER`
abbrev pub max_safe_integer : ℕ
max_safe_integer = 2 ^ 53 - 1

unfoldable pub is_safe_integer : ℕ → Bool
is_safe_integer n = leb n max_safe_integer

-- `Number.isSafeInteger(n) && n >= 1`
unfoldable pub is_positive : ℕ → Bool
unfolding is_safe_integer
is_positive n = is_safe_integer n && leb 1 n

abbrev pub image_media_types : List String
image_media_types = "image/png" ∷ "image/jpeg" ∷ "image/webp" ∷ "image/gif" ∷ []

-- The boundary of the conversation before a prompt.
unfoldable pub is_boundary : Option ℕ → ℕ → Bool
unfolding is_safe_integer
is_boundary none prompt_seq = true
is_boundary (some seq) prompt_seq = is_safe_integer seq && ltb seq prompt_seq

unfoldable pub is_named : Option String → Bool
is_named none = true
is_named (some name) = not (is_blank name)

unfoldable pub is_attachment : ImageAttachmentRef → Bool
unfolding is_positive is_named
is_attachment attachment =
    any (λ t. t == attachment.media_type) image_media_types
    && is_positive attachment.bytes
    && is_positive attachment.width
    && is_positive attachment.height
    && is_named attachment.name

-- The loop over the attachments, with the references met so far.
unfoldable pub validate_attachments : List String → List PromptImage → Result RewindError (Unit {0})
validate_attachments references [] = ok tt
validate_attachments references (image ∷ images) =
    let rest = validate_attachments (image.reference ∷ references) images in
    do
      throw_if (is_blank image.reference || any (λ r. r == image.reference) references)
          bad_reference
      throw_if (is_blank image.attachment.attachment_id) blank_attachment_id
      throw_if (not (is_attachment image.attachment)) bad_attachment
      rest

unfoldable pub validate_point : RewindPointInput → Result RewindError (Unit {0})
validate_point input = do
  throw_if (is_blank input.point_id) blank_point_id
  throw_if (is_blank input.session_id) blank_session_id
  throw_if (is_blank input.workspace_root) blank_workspace_root
  throw_if (not (is_positive input.turn)) bad_turn
  throw_if (not (is_safe_integer input.created_at)) bad_created_at
  throw_if (not (is_safe_integer input.prompt_seq)) bad_prompt_seq
  throw_if (not (is_boundary input.previous_turn_end_seq input.prompt_seq)) bad_boundary
  throw_if (is_blank input.input.text) blank_prompt
  validate_attachments [] input.input.attachments
