-- ===== src/Rewind/Contracts.antt =====
-- packages/tui/src/modules/rewind/contracts.ts: the data that the Rewind modules exchange. An
-- optional field is an `Option`, a `string | null` too. A count, time or sequence number is a
-- natural number.
use deepseek_harness_communi.Prelude.{ℕ, String, List, Option}

pub data RewindAction : Type 0 where
  code_and_conversation conversation_only code_only : RewindAction

-- `nothing` is the scope 'none'.
pub data RewindCodeScope : Type 0 where
  backward nothing forward_unavailable : RewindCodeScope

-- The dimensions, before the image was scaled, are the pair of width and height.
pub record ImageAttachmentRef : Type 0 where
  pub attachment_id : String
  pub media_type : String
  pub bytes : ℕ
  pub width : ℕ
  pub height : ℕ
  pub name : Option String
  pub original_dimensions : Option (ℕ × ℕ)

pub record PromptImage : Type 0 where
  pub reference : String
  pub attachment : ImageAttachmentRef

pub record RewindPromptInput : Type 0 where
  pub text : String
  pub attachments : List PromptImage

pub record RewindPointInput : Type 0 where
  pub point_id : String
  pub session_id : String
  pub turn : ℕ
  pub workspace_root : String
  pub input : RewindPromptInput
  pub prompt_seq : ℕ
  pub created_at : ℕ
  pub previous_turn_end_seq : Option ℕ

-- Why an edit cannot be reversed: the text of the backend, or one of the journal's two byte limits
-- (`... byte mutation limit.`, `... byte Rewind history limit.`) with the number that it shows.
pub data UnsupportedReason : Type 0 where
  given : String → UnsupportedReason
  mutation_limit : ℕ → UnsupportedReason
  history_limit : ℕ → UnsupportedReason

pub record AttributedWorkspaceMutation : Type 0 where
  pub id : String
  pub source_session_id : String
  pub source_turn : ℕ
  pub call_id : String
  pub root_call_id : String
  pub order : ℕ
  pub absolute_path : String
  pub created_at : ℕ

-- What happened to the file: the content before and after with its size, or why it is unknown.
pub data WorkspaceEffect : Type 0 where
  reversible : Option String → String → ℕ → WorkspaceEffect
  unsupported : UnsupportedReason → WorkspaceEffect

pub record WorkspaceMutation : Type 0 where
  pub source : AttributedWorkspaceMutation
  pub open source use *
  pub effect : WorkspaceEffect

-- The attribution fields of `WorkspaceMutationInput`; the file contents go to the backend, which
-- returns a `CanonicalWorkspaceMutation`.
pub record WorkspaceMutationInput : Type 0 where
  pub session_id : String
  pub turn : ℕ
  pub call_id : String
  pub root_call_id : String
  pub order : ℕ

pub record CanonicalWorkspaceMutation : Type 0 where
  pub absolute_path : String
  pub effect : WorkspaceEffect
