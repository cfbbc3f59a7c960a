-- ===== src/Rewind/Repository/Platform.antt =====
-- What the repository takes from Node: the SHA-256 of a text in hexadecimal digits,
-- `Buffer.byteLength`, `JSON`, `String` of a value, and the functions of `node:path`.
use deepseek_harness_communi.Prelude.{ℕ, Bool, String}
use deepseek_harness_communi.Prelude.Result.{Result}
use deepseek_harness_communi.Rewind.Manifest.Json.{Json}

pub record Platform : Type 0 where
  pub hash : String → String
  pub byte_length : String → ℕ
  pub parse : String → Result String Json
  -- `JSON.stringify(value, null, 2)`
  pub stringify : Json → String
  pub show : Json → String
  pub show_number : ℕ → String
  pub is_absolute : String → Bool
  pub resolve : String → String
