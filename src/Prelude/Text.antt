-- ===== src/Prelude/Text.antt =====
-- The operations on texts that the program uses, over the characters of a text. A JavaScript text
-- is a sequence of UTF-16 units: the two agree on texts of the basic plane, and `startsWith`,
-- equality and `join` agree on all texts.
use Prim.Native.Char.{code}
use Prim.Native.String.{String, ◌++◌ as text_append}
use Prim.Native.Nat.{ℕ, zero, suc}
use mathlib.Core.Path.{◌≡◌, refl}
use mathlib.Core.Bool.{Bool, true, false, ◌&&◌, ◌||◌}
use mathlib.Core.List.{List, [], ◌∷◌}
use native.Mathlib.Omega.{arith}
use text.Mathlib.TextLemmas.{cons-append}
use deepseek_harness_communi.Prelude.Tests.{leb, nat_beq}

-- The white space and line terminators that `String.prototype.trim` strips.
unfoldable pub is_space : ℕ → Bool
is_space c =
    (leb 9 c && leb c 13)
    || nat_beq c 32
    || nat_beq c 0xa0
    || nat_beq c 0x1680
    || (leb 0x2000 c && leb c 0x200a)
    || nat_beq c 0x2028
    || nat_beq c 0x2029
    || nat_beq c 0x202f
    || nat_beq c 0x205f
    || nat_beq c 0x3000
    || nat_beq c 0xfeff

-- `value.trim() === ''`
unfoldable pub is_blank : String → Bool
unfolding is_space
is_blank String.[] = true
is_blank (String.◌∷◌ c s) = is_space (code c) && is_blank s

-- `s.startsWith(prefix)`
unfoldable pub starts_with : String → String → Bool
starts_with s String.[] = true
starts_with String.[] (String.◌∷◌ d t) = false
starts_with (String.◌∷◌ c s) (String.◌∷◌ d t) = nat_beq (code c) (code d) && starts_with s t

-- `s.slice(n)`
unfoldable pub slice_from : ℕ → String → String
slice_from zero s = s
slice_from (suc n) String.[] = String.[]
slice_from (suc n) (String.◌∷◌ c s) = slice_from n s

-- The codes of the characters.
unfoldable pub units : String → List ℕ
units String.[] = []
units (String.◌∷◌ c s) = code c ∷ units s

unfoldable pub text_length : String → ℕ
text_length String.[] = 0
text_length (String.◌∷◌ c s) = suc (text_length s)

-- `texts.join(separator)`
unfoldable pub join_texts : String → List String → String
join_texts separator [] = ""
join_texts separator (text ∷ []) = text
join_texts separator (text ∷ next ∷ rest) =
    text_append text (text_append separator (join_texts separator (next ∷ rest)))

-- A text that begins with `prefix` followed by more begins as `prefix` does.
pub starts_with_longer :
    (s prefix more : String)
    → starts_with s (text_append prefix more) ≡ true
    → starts_with s prefix ≡ true
unfolding starts_with
starts_with_longer s String.[] more h = refl
starts_with_longer String.[] (String.◌∷◌ d t) more h =
    let written : starts_with String.[] (String.◌∷◌ d (text_append t more)) ≡ true =
      rw (cons-append d t more) at h in
    ground (arith, written)
starts_with_longer (String.◌∷◌ c s) (String.◌∷◌ d t) more h =
    let written : starts_with (String.◌∷◌ c s) (String.◌∷◌ d (text_append t more)) ≡ true =
      rw (cons-append d t more) at h in
    ground (arith, written, starts_with_longer s t more)

pub starts_with_trans :
    (s t prefix : String)
    → starts_with s t ≡ true
    → starts_with t prefix ≡ true
    → starts_with s prefix ≡ true
unfolding starts_with
starts_with_trans s t String.[] h k = refl
starts_with_trans s String.[] (String.◌∷◌ d p) h k = ground (arith, k)
starts_with_trans String.[] (String.◌∷◌ e t) (String.◌∷◌ d p) h k = ground (arith, h)
starts_with_trans (String.◌∷◌ c s) (String.◌∷◌ e t) (String.◌∷◌ d p) h k =
    ground (arith, h, k, starts_with_trans s t p)
