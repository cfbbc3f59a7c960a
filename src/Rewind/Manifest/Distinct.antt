-- ===== src/Rewind/Manifest/Distinct.antt =====
-- Lists of identities that a growing set does not have.
use deepseek_harness_communi.Prelude.{
  true, false, inl, inr, List, [], ◌∷◌, ◌++◌, String, ◌==◌, ==_iff, ==_refl, string_eq, Bool-cases,
  ◌≡◌, refl, arith,
}
use deepseek_harness_communi.Rewind.Manifest.Integrity.{seen_in}

-- No text is there twice.
abbrev pub AreDistinct : List String → Type 0
AreDistinct [] = Unit
AreDistinct (id ∷ ids) = (seen_in ids id ≡ false) × AreDistinct ids

-- Each is new when its turn comes.
abbrev pub AreFresh : List String → List String → Type 0
AreFresh seen [] = Unit
AreFresh seen (id ∷ ids) = (seen_in seen id ≡ false) × AreFresh (id ∷ seen) ids

abbrev pub seen_after : List String → List String → List String
seen_after [] seen = seen
seen_after (id ∷ ids) seen = seen_after ids (id ∷ seen)

AreFresh-absent :
    (seen ids : List String) (id : String)
    → AreFresh seen ids
    → seen_in seen id ≡ true
    → seen_in ids id ≡ false
AreFresh-absent seen [] id f h = refl
AreFresh-absent seen (j ∷ ids) id f h = elim (Bool-cases (j == id)) [
  | inl e ↦
      let same : j ≡ id = (==_iff j id).0 e in
      let unseen : seen_in seen id ≡ false = rw (← same) f.0 in absurd (ground (arith, unseen, h))
  | inr e ↦ ground (arith, e, AreFresh-absent (j ∷ seen) ids id f.1 (ground (arith, h)))
]

pub AreFresh-AreDistinct : (seen ids : List String) → AreFresh seen ids → AreDistinct ids
AreFresh-AreDistinct seen [] f = tt
AreFresh-AreDistinct seen (id ∷ ids) f = (
  AreFresh-absent (id ∷ seen) ids id f.1 (ground (arith, ==_refl id)),
  AreFresh-AreDistinct (id ∷ seen) ids f.1,
)

pub append-AreFresh :
    (seen xs ys : List String)
    → AreFresh seen xs
    → AreFresh (seen_after xs seen) ys
    → AreFresh seen (xs ++ ys)
append-AreFresh seen [] ys f g = g
append-AreFresh seen (x ∷ xs) ys f g = (f.0, append-AreFresh (x ∷ seen) xs ys f.1 g)
