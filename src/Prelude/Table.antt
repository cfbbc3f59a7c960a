-- ===== src/Prelude/Table.antt =====
-- A JavaScript `Map` with its insertion order: `set` on a present key keeps the key's place.
use Prim.Native.Nat.{ℕ, suc, ◌≤◌, max}
use mathlib.Core.Path.{◌≡◌, refl}
use mathlib.Core.Bool.{Bool}
use mathlib.Core.Logic.{◌≢◌, inl, inr}
use mathlib.Core.Option.{Option, none, some}
use mathlib.Core.List.{List, [], ◌∷◌, map}
use native.Mathlib.Omega.{arith}
use deepseek_harness_communi.Prelude.Tests.{if◌then◌else◌, Bool-cases}
use deepseek_harness_communi.Prelude.Equality.{Eq, ◌==◌}
use deepseek_harness_communi.Prelude.Lists.{All, length}
use deepseek_harness_communi.Prelude.Search.{filter}

module _ {ℓ κ} {K : Type ℓ} {V : Type κ} ⦃e : Eq K⦄ where
  -- `delete`; the keys of a map are distinct, so at most one entry goes.
  unfoldable pub remove : K → List (K × V) → List (K × V)
  remove k [] = []
  remove k ((j, w) ∷ m) = let rest = remove k m in if j == k then rest else (j, w) ∷ rest

  unfoldable pub insert : K → V → List (K × V) → List (K × V)
  insert key value [] = (key, value) ∷ []
  insert key value ((i, old) ∷ rest) =
      if i == key then (i, value) ∷ rest else (i, old) ∷ insert key value rest

  unfoldable pub lookup : K → List (K × V) → Option V
  lookup key [] = none
  lookup key ((i, value) ∷ rest) = if i == key then some value else lookup key rest

  -- `get` after `set`.
  pub lookup-insert :
      (set get : K) (value : V) (m : List (K × V))
      → lookup get (insert set value m) ≡ (if set == get then some value else lookup get m)
  unfolding lookup insert
  lookup-insert set get value [] = refl
  lookup-insert set get value ((i, old) ∷ m) =
      ground
        (arith, lookup-insert set get value m, e.beq_iff i get, e.beq_iff i set, e.beq_iff set get)

  pub lookup-remove :
      (k j : K) (m : List (K × V)) → lookup j (remove k m) ≡ (if k == j then none else lookup j m)
  unfolding lookup remove
  lookup-remove k j [] = ground arith
  lookup-remove k j ((i, w) ∷ m) =
      ground (arith, lookup-remove k j m, e.beq_iff i j, e.beq_iff i k, e.beq_iff k j)

  pub lookup-filter :
      (p : K → Bool) (k : K) (m : List (K × V))
      → lookup k (filter (λ en. p en.0) m) ≡ (if p k then lookup k m else none)
  unfolding lookup
  lookup-filter p k [] = ground arith
  lookup-filter p k ((i, w) ∷ m) = ground (arith, lookup-filter p k m, e.beq_iff i k)

  -- What holds of every entry holds after a `set` of an entry that has it.
  pub insert-All {ν} :
      (P : K × V → Type ν) (k : K) (v : V) (m : List (K × V))
      → ((j : K) → j ≡ k → P (j, v))
      → All P m
      → All P (insert k v m)
  unfolding insert
  insert-All P k v [] new h = (new k refl, tt)
  insert-All P k v ((j, w) ∷ m) new h = elim (Bool-cases (j == k)) [
    | inl same ↦ rw same (new j ((e.beq_iff j k).0 same), h.1)
    | inr other ↦ rw other (h.0, insert-All P k v m new h.1)
  ]

  pub lookup-All {ν} :
      (P : K × V → Type ν) (k : K) (v : V) (m : List (K × V))
      → All P m
      → lookup k m ≡ some v
      → P (k, v)
  unfolding lookup
  lookup-All P k v [] h q = cc
  lookup-All P k v ((j, w) ∷ m) h q = elim (Bool-cases (j == k)) [
    | inl same ↦
        let key : j ≡ k = (e.beq_iff j k).0 same in
        let value : w ≡ v = ground arith in rw (← key, ← value) h.0
    | inr other ↦ lookup-All P k v m h.1 (ground arith)
  ]

-- Keys occur once.
module _ {ℓ κ} {K : Type ℓ} {V : Type κ} where
  abbrev pub IsDistinct : List (K × V) → Type ℓ
  IsDistinct [] = Unit
  IsDistinct ((k, v) ∷ m) = All (λ x. x ≢ k) (map (λ en. en.0) m) × IsDistinct m

-- The number of entries of a key, which is at most one in a map, and in a directory of files.
module _ {ℓ κ} {K : Type ℓ} {V : Type κ} ⦃e : Eq K⦄ where
  unfoldable pub entries_of : K → List (K × V) → ℕ
  entries_of k m = length (filter (λ en. en.0 == k) m)

  abbrev pub AreUnique : List (K × V) → Type ℓ
  AreUnique m = (k : K) → entries_of k m ≤ 1

  pub entries_of-insert :
      (k j : K) (v : V) (m : List (K × V))
      → entries_of j (insert k v m) ≡ (if k == j then max 1 (entries_of j m) else entries_of j m)
  unfolding insert entries_of
  entries_of-insert k j v [] = ground (arith, e.beq_iff k j)
  entries_of-insert k j v ((i, w) ∷ m) =
      ground (arith, entries_of-insert k j v m, e.beq_iff i j, e.beq_iff i k, e.beq_iff k j)

  pub entries_of-remove :
      (k j : K) (m : List (K × V))
      → entries_of j (remove k m) ≡ (if k == j then 0 else entries_of j m)
  unfolding remove entries_of
  entries_of-remove k j [] = ground arith
  entries_of-remove k j ((i, w) ∷ m) =
      ground (arith, entries_of-remove k j m, e.beq_iff i j, e.beq_iff i k, e.beq_iff k j)

  pub remove-absent : (k : K) (m : List (K × V)) → entries_of k m ≡ 0 → remove k m ≡ m
  unfolding remove entries_of
  remove-absent k [] h = refl
  remove-absent k ((i, w) ∷ m) h =
      let rest : length (filter (λ en. en.0 == k) m) ≡ 0 = ground arith in
      ground (arith, remove-absent k m rest)

  pub remove-All {ν} :
      (P : K × V → Type ν) (k : K) (m : List (K × V)) → All P m → All P (remove k m)
  unfolding remove
  remove-All P k [] h = tt
  remove-All P k ((j, w) ∷ m) h = elim (Bool-cases (j == k)) [
    | inl same ↦ rw same (remove-All P k m h.1)
    | inr other ↦ rw other (h.0, remove-All P k m h.1)
  ]

  pub AreUnique-insert : (k : K) (v : V) (m : List (K × V)) → AreUnique m → AreUnique (insert k v m)
  AreUnique-insert k v m h j = ground (arith, entries_of-insert k j v m, h j)

  pub AreUnique-remove : (k : K) (m : List (K × V)) → AreUnique m → AreUnique (remove k m)
  AreUnique-remove k m h j = ground (arith, entries_of-remove k j m, h j)

  -- The entry that a list of entries begins with.
  entries_of-first :
      (k j : K) (v : V) (m : List (K × V))
      → entries_of j ((k, v) ∷ m) ≡ (if k == j then suc (entries_of j m) else entries_of j m)
  unfolding entries_of
  entries_of-first k j v m = ground arith

  pub AreUnique-first :
      (k : K) (v : V) (m : List (K × V)) → AreUnique ((k, v) ∷ m) → entries_of k m ≡ 0
  AreUnique-first k v m h = ground (arith, entries_of-first k k v m, h k, e.beq_iff k k)

  pub AreUnique-rest : (k : K) (v : V) (m : List (K × V)) → AreUnique ((k, v) ∷ m) → AreUnique m
  AreUnique-rest k v m h j = ground (arith, entries_of-first k j v m, h j)

  entries_of-filter :
      (p : K × V → Bool) (k : K) (m : List (K × V)) → entries_of k (filter p m) ≤ entries_of k m
  unfolding entries_of
  entries_of-filter p k [] = ground arith
  entries_of-filter p k ((i, w) ∷ m) = ground (arith, entries_of-filter p k m)

  pub AreUnique-filter :
      (p : K × V → Bool) (m : List (K × V)) → AreUnique m → AreUnique (filter p m)
  AreUnique-filter p m h k = omega (arith, entries_of-filter p k m, h k)

  lookup-absent : (k : K) (m : List (K × V)) → entries_of k m ≡ 0 → lookup k m ≡ none
  unfolding lookup entries_of
  lookup-absent k [] h = refl
  lookup-absent k ((i, w) ∷ m) h =
      let rest : length (filter (λ en. en.0 == k) m) ≡ 0 = ground arith in
      ground (arith, lookup-absent k m rest)

  -- What is found behind the first entry.
  pub lookup-rest :
      (k j : K) (v w : V) (m : List (K × V))
      → AreUnique ((k, v) ∷ m)
      → lookup j m ≡ some w
      → lookup j ((k, v) ∷ m) ≡ some w
  unfolding lookup
  lookup-rest k j v w m h q =
      ground (arith, q, lookup-absent k m (AreUnique-first k v m h), e.beq_iff k j)
