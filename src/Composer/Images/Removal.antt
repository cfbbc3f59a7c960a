-- ===== src/Composer/Images/Removal.antt =====
-- `removeImageMarker` ends, with no marker left.
use deepseek_harness_communi.Prelude.{
  ℕ, zero, suc, ◌+◌, ◌≤◌, ◌<◌, ◌≡◌, true, false, inl, inr, Option, none, some, is_some, List, [],
  ◌∷◌, Bool-cases, Option-cases, nat_beq, length, length-append, length-drop, drop, arith,
}
use mathlib.Core.Option
use deepseek_harness_communi.Composer.Images.{
  behind, around, includes, without_last, joined_parts, remove_first_image_marker, remove_markers,
  remove_image_marker,
}

abbrev IsBehind : ℕ → ℕ → Option (List ℕ) → Type 0
IsBehind n k none = Unit
IsBehind n k (some after) = k + length after ≡ n

behind-IsBehind :
    (prefix text : List ℕ) → IsBehind (length text) (length prefix) (behind prefix text)
behind-IsBehind [] text = omega arith
behind-IsBehind (c ∷ prefix) [] = tt
behind-IsBehind (c ∷ prefix) (d ∷ text) = elim (Bool-cases (nat_beq c d)) [
  | inl e ↦ rw e (later (behind prefix text) (behind-IsBehind prefix text))
  | inr e ↦ rw e tt
]
  where
    later :
        (o : Option (List ℕ))
        → IsBehind (length text) (length prefix) o
        → IsBehind (suc (length text)) (suc (length prefix)) o
    later none h = tt
    later (some after) h = omega (arith, h)

-- The parts around an occurrence of `k` characters, in a text of `n`.
abbrev IsAround : ℕ → ℕ → Option (List ℕ × List ℕ) → Type 0
IsAround n k none = Unit
IsAround n k (some (before, after)) = length before + k + length after ≡ n

at_front :
    (n k : ℕ) (o : Option (List ℕ))
    → IsBehind n k o
    → IsAround n k (Option.map (λ after. ([], after)) o)
at_front n k none h = tt
at_front n k (some after) h = omega (arith, h)

one_later :
    (c n k : ℕ) (o : Option (List ℕ × List ℕ))
    → IsAround n k o
    → IsAround (suc n) k (Option.map (λ parts. (c ∷ parts.0, parts.1)) o)
one_later c n k none h = tt
one_later c n k (some (before, after)) h = omega (arith, h)

around-IsAround :
    (text marker : List ℕ) → IsAround (length text) (length marker) (around text marker)
unfolding around
around-IsAround [] marker =
    at_front 0 (length marker) (behind marker []) (behind-IsBehind marker [])
around-IsAround (c ∷ text) marker =
    let front = behind-IsBehind marker (c ∷ text) in
    elim (Option-cases (behind marker (c ∷ text))) [
      | inl e ↦
          rw (e, IsAround)
            (one_later c (length text) (length marker) (around text marker)
              (around-IsAround text marker))
      | inr (after, e) ↦
          let h : IsBehind (suc (length text)) (length marker) (some after) = rw e at front in
          rw (e, IsAround) (omega (arith, h))
    ]

length-without_last : (text : List ℕ) → length (without_last text) ≤ length text
length-without_last [] = omega arith
length-without_last (c ∷ []) = omega arith
length-without_last (c ∷ d ∷ text) = omega (arith, length-without_last (d ∷ text))

length-joined_parts :
    (before after : List ℕ) → length (joined_parts before after) ≤ length before + length after
unfolding joined_parts
length-joined_parts before after = ground (
  arith,
  length-append before after,
  length-append before (drop 1 after),
  length-drop 1 after,
  length-without_last before,
)

not_both : (o : Option (List ℕ × List ℕ)) → o ≡ none → is_some o ≡ true → ⊥
not_both none e h = ground (arith, h)
not_both (some parts) e h = ground (arith, e)

length-remove_first :
    (text marker : List ℕ)
    → 0 < length marker
    → includes text marker ≡ true
    → length (remove_first_image_marker text marker) < length text
unfolding remove_first_image_marker
length-remove_first text marker p h =
    let parts = around-IsAround text marker in
    elim (Option-cases (around text marker)) [
      | inl e ↦ absurd (not_both (around text marker) e h)
      | inr ((before, after), e) ↦
          let k : length before + length marker + length after ≡ length text = rw e at parts in
          rw (e, length) (omega (arith, length-joined_parts before after, k, p))
    ]

-- The loop ended with a text that has no such marker.
abbrev pub IsWithout : List ℕ → Option (List ℕ) → Type 0
IsWithout marker none = ⊥
IsWithout marker (some text) = includes text marker ≡ false

remove_markers-IsWithout :
    (fuel : ℕ) (text marker : List ℕ)
    → 0 < length marker
    → length text < fuel
    → IsWithout marker (remove_markers fuel text marker)
unfolding remove_markers
remove_markers-IsWithout zero text marker p h = absurd (omega arith)
remove_markers-IsWithout (suc fuel) text marker p h = elim (Bool-cases (includes text marker)) [
  | inl e ↦ rw e (
      remove_markers-IsWithout fuel (remove_first_image_marker text marker) marker p
        (omega (arith, length-remove_first text marker p e)))
  | inr e ↦ rw e e
]

-- The removal of a marker that is not empty ends, and the text that is left does not have it.
pub remove_image_marker-IsWithout :
    (text marker : List ℕ) → 0 < length marker → IsWithout marker (remove_image_marker text marker)
unfolding remove_image_marker
remove_image_marker-IsWithout text marker p =
    remove_markers-IsWithout (suc (length text)) text marker p (omega arith)
