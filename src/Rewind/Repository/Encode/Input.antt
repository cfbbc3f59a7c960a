-- ===== src/Rewind/Repository/Encode/Input.antt =====
-- packages/tui/src/modules/rewind/adapters/file-repository.ts: the parser reads the input of a prompt and
-- the reference to an object back from their JSON.
use deepseek_harness_communi.Prelude.{
  ℕ, true, false, ◌||◌, Option, none, some, List, [], ◌∷◌, String, any, ltb, ◌==◌, ==_iff,
  string_eq, ◌≡◌, refl, subst, All, Bool-cases, inl, inr,
}
use deepseek_harness_communi.Prelude.Result.{Result, ok, ◌>>=◌, ◌>>◌, throw_if}
use deepseek_harness_communi.Prelude.Text.{units}
use deepseek_harness_communi.Rewind.Contracts.{ImageAttachmentRef, PromptImage, RewindPromptInput}
use deepseek_harness_communi.Rewind.Points.{is_safe_integer, image_media_types}
use deepseek_harness_communi.Rewind.Manifest.Json.{
  Json, number, text, no_fields, property, to_record, to_string, to_integer, to_array, decode_all,
  optional, ObjectReference, is_hash, object_reference,
}
use deepseek_harness_communi.Rewind.Repository.Encode.{
  optional_field, json_of, encode_all, reference_json, dimensions_json, attachment_json, image_json,
  input_json,
}
use deepseek_harness_communi.Rewind.Manifest.Decode.{
  original_dimensions, empty_dimensions, attachment_ref, prompt_image, prompt_input,
}

abbrev pub IsText : String → Type 0
IsText value = (value == "") ≡ false

abbrev pub IsInteger : ℕ → Type 0
IsInteger value = is_safe_integer value ≡ true

pub record IsReference (reference : ObjectReference) : Type 0 where
  pub hash : is_hash reference.hash ≡ true
  pub bytes : IsInteger reference.bytes

empty_hash : is_hash "" ≡ true → ⊥
unfolding is_hash units
empty_hash h = cc

pub hash-IsText : (hash : String) → is_hash hash ≡ true → IsText hash
hash-IsText hash h = elim (Bool-cases (hash == "")) [
  | inl same ↦
      let empty : hash ≡ "" = (==_iff hash "").0 same in
      absurd (empty_hash (subst (λ (s : String). is_hash s ≡ true) empty h))
  | inr other ↦ other
]

pub to_string-text : (value label : String) → IsText value → to_string (text value) label ≡ ok value
unfolding to_string
to_string-text value label h = rw h refl

pub to_integer-number :
    (value : ℕ) (label : String) → IsInteger value → to_integer (number value) label ≡ ok value
unfolding to_integer
to_integer-number value label h = rw h refl

pub object_reference-reference_json :
    (reference : ObjectReference) (label : String)
    → IsReference reference
    → object_reference (reference_json reference) label ≡ ok reference
unfolding object_reference reference_json property ◌>>=◌ ◌>>◌ throw_if to_record
object_reference-reference_json reference label h =
    rw
      (
        to_string-text reference.hash _ (hash-IsText reference.hash h.hash),
        h.hash,
        to_integer-number reference.bytes _ h.bytes,
      )
      refl

abbrev pub AllOf {ℓ} : {A : Type ℓ} → (A → Type 0) → Option A → Type 0
AllOf P none = Unit
AllOf P (some a) = P a

pub record IsAttachment (attachment : ImageAttachmentRef) : Type 0 where
  pub attachment_id : IsText attachment.attachment_id
  pub media_type : any (λ t. t == attachment.media_type) image_media_types ≡ true
  pub bytes : IsInteger attachment.bytes
  pub width : IsInteger attachment.width
  pub height : IsInteger attachment.height
  pub not_empty :
      (ltb attachment.bytes 1 || ltb attachment.width 1 || ltb attachment.height 1) ≡ false
  pub name : AllOf IsText attachment.name
  pub original : AllOf (λ d. IsInteger d.0 × IsInteger d.1) attachment.original_dimensions
  pub original_not_empty : empty_dimensions attachment.original_dimensions ≡ false

empty_media : any (λ t. t == "") image_media_types ≡ true → ⊥
empty_media h = cc

media-IsText :
    (media_type : String) → any (λ t. t == media_type) image_media_types ≡ true → IsText media_type
media-IsText media_type h = elim (Bool-cases (media_type == "")) [
  | inl same ↦
      let empty : media_type ≡ "" = (==_iff media_type "").0 same in
      absurd (empty_media (subst (λ s. any (λ t. t == s) image_media_types ≡ true) empty h))
  | inr other ↦ other
]

name-optional_field :
    (name : Option String) (original : Option Json)
    → AllOf IsText name
    → optional
        (λ v. to_string v "prompt attachment.name")
        (property
          (optional_field "name"
            (json_of text name)
            (optional_field "originalDimensions" original no_fields))
          "name")
      ≡ ok name
unfolding optional property ◌>>=◌
name-optional_field none none h = refl
name-optional_field none (some original) h = refl
name-optional_field (some name) original h = rw (to_string-text name _ h) refl

original-optional_field :
    (name : Option Json) (original : Option (ℕ × ℕ))
    → AllOf (λ d. IsInteger d.0 × IsInteger d.1) original
    → optional original_dimensions (
        property
          (optional_field "name" name
            (optional_field "originalDimensions" (json_of dimensions_json original) no_fields))
          "originalDimensions")
      ≡ ok original
unfolding optional property ◌>>=◌ original_dimensions dimensions_json to_record
original-optional_field none none h = refl
original-optional_field (some name) none h = refl
original-optional_field none (some (width, height)) h =
    rw (to_integer-number width _ h.0, to_integer-number height _ h.1) refl
original-optional_field (some name) (some (width, height)) h =
    rw (to_integer-number width _ h.0, to_integer-number height _ h.1) refl

attachment_ref-attachment_json :
    (attachment : ImageAttachmentRef)
    → IsAttachment attachment
    → attachment_ref (attachment_json attachment) ≡ ok attachment
unfolding attachment_ref attachment_json property ◌>>=◌ ◌>>◌ throw_if to_record
attachment_ref-attachment_json attachment h =
    rw
      (
        to_string-text attachment.media_type _ (media-IsText attachment.media_type h.media_type),
        h.media_type,
        to_integer-number attachment.bytes _ h.bytes,
        to_integer-number attachment.width _ h.width,
        to_integer-number attachment.height _ h.height,
        h.not_empty,
        name-optional_field attachment.name (json_of dimensions_json attachment.original_dimensions)
            h.name,
        original-optional_field (json_of text attachment.name) attachment.original_dimensions
            h.original,
        h.original_not_empty,
        to_string-text attachment.attachment_id _ h.attachment_id,
      )
      refl

-- What is decoded from each encoded element of a list.
pub decode_all-encode_all {ℓ} :
    {A : Type ℓ} (encode : A → Json) (decode : Json → Result String A) (P : A → Type 0)
    → ((a : A) → P a → decode (encode a) ≡ ok a)
    → (xs : List A) → All P xs
    → decode_all decode (encode_all encode xs) ≡ ok xs
unfolding decode_all encode_all ◌>>=◌
decode_all-encode_all encode decode P back [] h = refl
decode_all-encode_all encode decode P back (a ∷ xs) h =
    rw (back a h.0, decode_all-encode_all encode decode P back xs h.1) refl

pub record IsInput (input : RewindPromptInput) : Type 0 where
  pub text : IsText input.text
  pub references :
      All (λ image. IsText image.reference × IsAttachment image.attachment) input.attachments

prompt_image-image_json :
    (image : PromptImage)
    → IsText image.reference × IsAttachment image.attachment
    → prompt_image (image_json image) ≡ ok image
unfolding prompt_image image_json property ◌>>=◌ to_record
prompt_image-image_json image h =
    rw (to_string-text image.reference _ h.0, attachment_ref-attachment_json image.attachment h.1)
      refl

pub prompt_input-input_json :
    (input : RewindPromptInput) → IsInput input → prompt_input (input_json input) ≡ ok input
unfolding prompt_input input_json property ◌>>=◌ to_record to_array
prompt_input-input_json input h =
    rw
      (
        to_string-text input.text _ h.text,
        decode_all-encode_all image_json prompt_image
            (λ image. IsText image.reference × IsAttachment image.attachment)
            prompt_image-image_json input.attachments h.references,
      )
      refl
