-- ===== src/Application/Cli/Distance/Closest.antt =====
-- What `closest` suggests.
use deepseek_harness_communi.Prelude.{
  ℕ, ◌≤◌, ◌<◌, ◌≡◌, refl, Bool, true, inl, inr, Option, none, some, List, [], ◌∷◌, String, map, All,
  any, ◌==◌, ==_refl, string_eq, All-map_of, Bool-cases, ltb, arith,
}
use deepseek_harness_communi.Prelude.Text.{units}
use deepseek_harness_communi.Application.Cli.Distance.{
  edit_distance, Ranked, precedes, insert_ranked, sort_ranked, rank, limit, within_limit, closest,
}

-- The first entry has the least distance.
abbrev BeginsLeast : List Ranked → Type 0
BeginsLeast [] = Unit
BeginsLeast (a ∷ xs) = All (λ b. a.distance ≤ b.distance) xs

module _ (before : String → String → Bool) where
  insert_ranked-All {ℓ} :
      (P : Ranked → Type ℓ) (a : Ranked) (xs : List Ranked)
      → P a
      → All P xs
      → All P (insert_ranked before a xs)
  unfolding insert_ranked
  insert_ranked-All P a [] h k = (h, tt)
  insert_ranked-All P a (b ∷ xs) h k = elim (Bool-cases (precedes before b a)) [
    | inl e ↦ rw e (k.0, insert_ranked-All P a xs h k.1)
    | inr e ↦ rw e (h, (k.0, k.1))
  ]

  All-insert_ranked {ℓ} :
      (P : Ranked → Type ℓ) (a : Ranked) (xs : List Ranked)
      → All P (insert_ranked before a xs)
      → P a × All P xs
  unfolding insert_ranked
  All-insert_ranked P a [] h = h
  All-insert_ranked P a (b ∷ xs) h = elim (Bool-cases (precedes before b a)) [
    | inl e ↦
        let k : All P (b ∷ insert_ranked before a xs) = rw e at h in
        let rest = All-insert_ranked P a xs k.1 in (rest.0, (k.0, rest.1))
    | inr e ↦ let k : All P (a ∷ b ∷ xs) = rw e at h in (k.0, k.1)
  ]

  sort_ranked-All {ℓ} :
      (P : Ranked → Type ℓ) (xs : List Ranked) → All P xs → All P (sort_ranked before xs)
  unfolding sort_ranked
  sort_ranked-All P [] h = tt
  sort_ranked-All P (a ∷ xs) h =
      insert_ranked-All P a (sort_ranked before xs) h.0 (sort_ranked-All P xs h.1)

  All-sort_ranked {ℓ} :
      (P : Ranked → Type ℓ) (xs : List Ranked) → All P (sort_ranked before xs) → All P xs
  unfolding sort_ranked
  All-sort_ranked P [] h = tt
  All-sort_ranked P (a ∷ xs) h =
      let k = All-insert_ranked P a (sort_ranked before xs) h in (k.0, All-sort_ranked P xs k.1)

  insert_ranked-BeginsLeast :
      (a : Ranked) (xs : List Ranked) → BeginsLeast xs → BeginsLeast (insert_ranked before a xs)
  unfolding insert_ranked
  insert_ranked-BeginsLeast a [] h = tt
  insert_ranked-BeginsLeast a (b ∷ xs) h = elim (Bool-cases (precedes before b a)) [
    | inl e ↦ rw e (
        insert_ranked-All (λ c. b.distance ≤ c.distance) a xs (unfold precedes in ground (arith, e))
          h)
    | inr e ↦
        let le : a.distance ≤ b.distance = unfold precedes in ground (arith, e) in
        rw e (le, All-map_of (λ c. a.distance ≤ c.distance) (λ c k. omega arith) xs h)
  ]

  sort_ranked-BeginsLeast : (xs : List Ranked) → BeginsLeast (sort_ranked before xs)
  unfolding sort_ranked
  sort_ranked-BeginsLeast [] = tt
  sort_ranked-BeginsLeast (a ∷ xs) =
      insert_ranked-BeginsLeast a (sort_ranked before xs) (sort_ranked-BeginsLeast xs)

abbrev distance_to : String → String → ℕ
distance_to value candidate = edit_distance (units value) (units candidate)

-- What a suggestion has to be: a candidate that is no further than the limit and than any other. No
-- suggestion means that all candidates are further than the limit.
abbrev pub IsClosest : String → List String → Option String → Type 0
IsClosest value candidates none = All (λ c. limit value < distance_to value c) candidates
IsClosest value candidates (some suggested) =
    (any (λ c. c == suggested) candidates ≡ true)
    × (distance_to value suggested ≤ limit value)
    × All (λ c. distance_to value suggested ≤ distance_to value c) candidates

-- An entry of the ranking is a candidate with its distance.
abbrev IsRanked : String → List String → Ranked → Type 0
IsRanked value candidates r =
    (any (λ c. c == r.candidate) candidates ≡ true) × (r.distance ≡ distance_to value r.candidate)

rank-IsRanked :
    (value : String) (candidates : List String)
    → All (IsRanked value candidates) (map (rank value) candidates)
unfolding rank
rank-IsRanked value [] = tt
rank-IsRanked value (c ∷ candidates) = (
  (ground (arith, ==_refl c), refl),
  All-map_of (IsRanked value (c ∷ candidates)) (λ r h. (ground (arith, h.0), h.1))
      (map (rank value) candidates) (rank-IsRanked value candidates),
)

unranked :
    (P : ℕ → Type 0) (value : String) (candidates : List String)
    → All (λ r. P r.distance) (map (rank value) candidates)
    → All (λ c. P (distance_to value c)) candidates
unfolding rank
unranked P value [] h = tt
unranked P value (c ∷ candidates) h = (h.0, unranked P value candidates h.1)

module _ (before : String → String → Bool) (value : String) (candidates : List String) where
  within_limit-IsClosest :
      (sorted : List Ranked)
      → All (IsRanked value candidates) sorted
      → BeginsLeast sorted
      → ((P : ℕ → Type 0)
          → All (λ r. P r.distance) sorted
          → All (λ c. P (distance_to value c)) candidates)
      → IsClosest value candidates (within_limit (limit value) sorted)
  unfolding within_limit
  within_limit-IsClosest [] r l u = u (λ n. limit value < n) tt
  within_limit-IsClosest (a ∷ rest) r l u = elim (Bool-cases (ltb (limit value) a.distance)) [
    | inl e ↦ rw e (
        u (λ n. limit value < n)
          (
            ground (arith, e),
            All-map_of (λ b. limit value < b.distance) (λ b k. ground (arith, e, k)) rest l,
          ))
    | inr e ↦ rw e (
      r.0.0,
      ground (arith, e, r.0.1),
      u (λ n. distance_to value a.candidate ≤ n)
          (
            ground (arith, r.0.1),
            All-map_of (λ b. distance_to value a.candidate ≤ b.distance)
                (λ b k. ground (arith, r.0.1, k)) rest l,
          ),
    )
  ]

  -- A suggestion is one of the candidates, its edit distance to the word is at most the limit, and no
  -- candidate is nearer. Where there is none, the distance of every candidate is over the limit. The
  -- collation that breaks ties is arbitrary.
  pub closest-IsClosest : IsClosest value candidates (closest before value candidates)
  unfolding closest
  closest-IsClosest =
      within_limit-IsClosest (sort_ranked before (map (rank value) candidates))
        (sort_ranked-All before (IsRanked value candidates) (map (rank value) candidates)
          (rank-IsRanked value candidates))
        (sort_ranked-BeginsLeast before (map (rank value) candidates))
        (λ P h.
          unranked P value candidates
            (All-sort_ranked before (λ r. P r.distance) (map (rank value) candidates) h))
