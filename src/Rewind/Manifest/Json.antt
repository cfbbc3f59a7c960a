-- ===== src/Rewind/Manifest/Json.antt =====
-- packages/tui/src/modules/rewind/adapters/file-repository.ts: the values of `JSON.parse`, and the
-- functions that check the type of one. The thrown error is its message. A number that is not a
-- natural number is `other_number`.
use Prim.Native.String.{◌++◌ as text_append}
use deepseek_harness_communi.Prelude.{
  ℕ, Bool, not, ◌&&◌, ◌||◌, Option, none, some, List, [], ◌∷◌, String, if◌then◌else◌, every, leb,
  nat_beq, length, ◌==◌, string_eq,
}
use deepseek_harness_communi.Prelude.Result.{Result, ok, err, ◌>>=◌, ◌>>◌, throw_if}
use deepseek_harness_communi.Prelude.Text.{units}
use deepseek_harness_communi.Rewind.Points.{is_safe_integer}

mutual
  pub data Json : Type 0 where
    undefined : Json
    null : Json
    boolean : Bool → Json
    number : ℕ → Json
    other_number : Json
    text : String → Json
    elements : JsonElements → Json
    object : JsonFields → Json

  pub data JsonElements : Type 0 where
    no_elements : JsonElements
    element : Json → JsonElements → JsonElements

  pub data JsonFields : Type 0 where
    no_fields : JsonFields
    field : String → Json → JsonFields → JsonFields

-- `item.name`; of two fields with one name, `JSON.parse` keeps one.
unfoldable pub property : JsonFields → String → Json
property no_fields name = undefined
property (field key value rest) name = if key == name then value else property rest name

unfoldable pub to_record : Json → String → Result String JsonFields
to_record (object fields) label = ok fields
to_record value label = err (text_append label " must be an object")

unfoldable pub to_string : Json → String → Result String String
to_string (text value) label =
    if value == "" then err (text_append label " must be a non-empty string") else ok value
to_string value label = err (text_append label " must be a non-empty string")

unfoldable pub to_integer : Json → String → Result String ℕ
to_integer (number value) label =
    if is_safe_integer value
    then ok value
    else err (text_append label " must be a non-negative integer")
to_integer value label = err (text_append label " must be a non-negative integer")

unfoldable pub to_array : Json → String → Result String JsonElements
to_array (elements values) label = ok values
to_array value label = err (text_append label " must be an array")

-- `array(…).map(decode)`
unfoldable pub decode_all {ℓ} :
    {A : Type ℓ} → (Json → Result String A) → JsonElements → Result String (List A)
decode_all decode no_elements = ok []
decode_all decode (element value rest) =
    decode value >>= λ a. decode_all decode rest >>= λ decoded. ok (a ∷ decoded)

-- `value === undefined ? undefined : decode(value)`
unfoldable pub optional {ℓ} :
    {A : Type ℓ} → (Json → Result String A) → Json → Result String (Option A)
optional decode undefined = ok none
optional decode value = decode value >>= λ a. ok (some a)

-- `value === null ? null : decode(value)`
unfoldable pub nullable {ℓ} :
    {A : Type ℓ} → (Json → Result String A) → Json → Result String (Option A)
nullable decode null = ok none
nullable decode value = decode value >>= λ a. ok (some a)

pub record ObjectReference : Type 0 where
  pub hash : String
  pub bytes : ℕ

-- `HASH_PATTERN`
unfoldable pub is_hash : String → Bool
is_hash hash =
    nat_beq (length (units hash)) 64
    && every (λ c. (leb 97 c && leb c 102) || (leb 48 c && leb c 57)) (units hash)

unfoldable pub object_reference : Json → String → Result String ObjectReference
object_reference value label = to_record value label >>= λ item.
    to_string (property item "hash") (text_append label ".hash") >>= λ hash.
    (throw_if (not (is_hash hash)) (text_append label ".hash is invalid")
      >> (to_integer (property item "bytes") (text_append label ".bytes") >>= λ bytes.
          ok (record { hash = hash; bytes = bytes })))
