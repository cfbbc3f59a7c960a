-- ===== src/Rewind/Manifest/Sound.antt =====
-- What a manifest that the parser accepts is sure to be.
use deepseek_harness_communi.Prelude.{
  ℕ, Bool, true, false, not, Option, none, some, List, [], ◌∷◌, ◌++◌, String, if◌then◌else◌, ◌==◌,
  ==_iff, string_eq, ◌≡◌, refl, sym, ◌∙◌, subst, All, All-map_of, Bool-cases, inl, inr, arith,
}
use deepseek_harness_communi.Prelude.Table.{lookup, insert, lookup-insert}
use deepseek_harness_communi.Prelude.Result.{
  Result, ok, err, Ensures, Ensures-throw_if, Ensures-then, Ensures-bind, Ensures-ok,
}
use deepseek_harness_communi.Rewind.Contracts.{PromptImage}
use deepseek_harness_communi.Rewind.Manifest.Json.{ObjectReference}
use deepseek_harness_communi.Rewind.Manifest.Decode.{StoredMutation, StoredPoint, TimelineManifest}
use deepseek_harness_communi.Rewind.Manifest.Integrity.{
  validate_images, has_sum, is_attributed, is_late, validate_mutations, validate_points, references,
  differs, validate_references, validate_manifest_integrity,
}
use deepseek_harness_communi.Rewind.Manifest.Distinct.{
  AreDistinct, AreFresh, seen_after, AreFresh-AreDistinct, append-AreFresh,
}

abbrev pub image_references : List PromptImage → List String
image_references [] = []
image_references (image ∷ images) = image.reference ∷ image_references images

abbrev pub mutation_ids : List StoredMutation → List String
mutation_ids [] = []
mutation_ids (mutation ∷ mutations) = mutation.source.id ∷ mutation_ids mutations

abbrev pub point_ids : List StoredPoint → List String
point_ids [] = []
point_ids (point ∷ points) = point.id ∷ point_ids points

abbrev pub all_mutation_ids : List StoredPoint → List String
all_mutation_ids [] = []
all_mutation_ids (point ∷ points) =
    mutation_ids point.workspace_mutations ++ all_mutation_ids points

-- References with one hash have one byte count.
abbrev pub AreConsistent : List ObjectReference → Type 0
AreConsistent [] = Unit
AreConsistent (r ∷ rs) = All (λ s. s.hash ≡ r.hash → s.bytes ≡ r.bytes) rs × AreConsistent rs

Ensures-weaken {ℓ κ} :
    {A : Type 0} (P : A → Type ℓ) (Q : A → Type κ) (m : Result String A)
    → ((a : A) → P a → Q a)
    → Ensures P m
    → Ensures Q m
Ensures-weaken P Q (ok a) f h = f a h
Ensures-weaken P Q (err e) f h = tt

validate_images-AreFresh :
    (seen : List String) (images : List PromptImage)
    → Ensures (λ u. AreFresh seen (image_references images)) (validate_images seen images)
unfolding validate_images
validate_images-AreFresh seen [] = tt
validate_images-AreFresh seen (image ∷ images) =
    Ensures-throw_if (λ u. AreFresh seen (image_references (image ∷ images))) _ _ _
      λ new.
        Ensures-weaken (λ u. AreFresh (image.reference ∷ seen) (image_references images)) _ _
          (λ u f. (new, f)) (validate_images-AreFresh (image.reference ∷ seen) images)

Agrees : List (String × ℕ) → ObjectReference → Type 0
Agrees known s = (b : ℕ) → lookup s.hash known ≡ some b → s.bytes ≡ b

not_differs :
    (known : Option ℕ) (bytes b : ℕ) → differs known bytes ≡ false → known ≡ some b → bytes ≡ b
not_differs none bytes b h e = absurd (ground (arith, e))
not_differs (some k) bytes b h e = ground (arith, h, e)

not_differs-Agrees :
    (known : List (String × ℕ)) (r : ObjectReference)
    → differs (lookup r.hash known) r.bytes ≡ false
    → Agrees known r
unfolding Agrees
not_differs-Agrees known r h b e = not_differs (lookup r.hash known) r.bytes b h e

module _ (known : List (String × ℕ)) (r s : ObjectReference) where
  Agrees-insert-same : Agrees (insert r.hash r.bytes known) s → s.hash ≡ r.hash → s.bytes ≡ r.bytes
  unfolding Agrees
  Agrees-insert-same a e = a r.bytes (lookup-insert r.hash s.hash r.bytes known ∙ here)
    where
      here : (if r.hash == s.hash then some r.bytes else lookup s.hash known) ≡ some r.bytes
      here = rw ((==_iff r.hash s.hash).1 (sym e)) refl

  Agrees-insert : Agrees known r → Agrees (insert r.hash r.bytes known) s → Agrees known s
  unfolding Agrees
  Agrees-insert ar a b h = elim (Bool-cases (r.hash == s.hash)) [
    | inl q ↦
        let same : r.hash ≡ s.hash = (==_iff r.hash s.hash).0 q in
        Agrees-insert-same a (sym same) ∙ ar b (rw same h)
    | inr q ↦ a b (lookup-insert r.hash s.hash r.bytes known ∙ rw q h)
  ]

validate_references-AreConsistent :
    (known : List (String × ℕ)) (rs : List ObjectReference)
    → Ensures (λ u. All (Agrees known) rs × AreConsistent rs) (validate_references known rs)
unfolding validate_references
validate_references-AreConsistent known [] = (tt, tt)
validate_references-AreConsistent known (r ∷ rs) =
    Ensures-throw_if (λ u. All (Agrees known) (r ∷ rs) × AreConsistent (r ∷ rs)) _ _ _
      λ agrees.
        let table = insert r.hash r.bytes known in
        let here = not_differs-Agrees known r agrees in
        Ensures-weaken (λ u. All (Agrees table) rs × AreConsistent rs) _ _
          (λ u c. (
            (here, All-map_of (Agrees known) (λ s a. Agrees-insert known r s here a) rs c.0),
            (
              All-map_of (λ s. s.hash ≡ r.hash → s.bytes ≡ r.bytes)
                  (λ s a. Agrees-insert-same known r s a) rs c.0,
              c.1,
            ),
          ))
          (validate_references-AreConsistent table rs)

module _ (is_absolute : String → Bool) where
  abbrev pub IsSoundMutation : StoredPoint → StoredMutation → Type 0
  IsSoundMutation point mutation =
      (is_attributed point mutation ≡ true)
      × (is_absolute mutation.source.absolute_path ≡ true)
      × (has_sum mutation.effect ≡ true)

  -- The prompt's images are distinct, the boundary of the conversation comes before the prompt, and the
  -- mutations are those of the point, with absolute paths and the right byte counts.
  abbrev pub IsSoundPoint : StoredPoint → Type 0
  IsSoundPoint point =
      AreDistinct (image_references point.input.attachments)
      × (is_late point.previous_turn_end_seq point.prompt_seq ≡ false)
      × All (IsSoundMutation point) point.workspace_mutations

  -- Of a whole manifest.
  pub record AreSound (nodes : List StoredPoint) : Type 0 where
    pub points_distinct : AreDistinct (point_ids nodes)
    pub mutations_distinct : AreDistinct (all_mutation_ids nodes)
    pub points_sound : All IsSoundPoint nodes
    pub references_consistent : AreConsistent (references nodes)

  passed : (b : Bool) → not b ≡ false → b ≡ true
  passed b h = ground (arith, h)

  abbrev Validated : StoredPoint → List String → List StoredMutation → List String → Type 0
  Validated point seen mutations later =
      (later ≡ seen_after (mutation_ids mutations) seen)
      × AreFresh seen (mutation_ids mutations)
      × All (IsSoundMutation point) mutations

  validate_mutations_sound :
      (point : StoredPoint) (seen : List String) (mutations : List StoredMutation)
      → Ensures
          (Validated point seen mutations)
          (validate_mutations is_absolute point seen mutations)
  unfolding validate_mutations
  validate_mutations_sound point seen [] = (refl, tt, tt)
  validate_mutations_sound point seen (mutation ∷ mutations) =
      let P = Validated point seen (mutation ∷ mutations) in
      Ensures-throw_if P _ _ _ λ new. Ensures-throw_if P _ _ _ λ attributed.
        Ensures-throw_if P _ _ _ λ absolute. Ensures-throw_if P _ _ _ λ sums.
          Ensures-weaken (Validated point (mutation.source.id ∷ seen) mutations) P _
            (λ later v.
              (v.0, (new, v.1), ((passed _ attributed, passed _ absolute, passed _ sums), v.2)))
            (validate_mutations_sound point (mutation.source.id ∷ seen) mutations)

  abbrev ValidatedPoints : List String → List String → List StoredPoint → Type 0
  ValidatedPoints points mutations nodes =
      AreFresh points (point_ids nodes)
      × AreFresh mutations (all_mutation_ids nodes)
      × All IsSoundPoint nodes

  validate_points_sound :
      (points mutations : List String) (nodes : List StoredPoint)
      → Ensures
          (λ u. ValidatedPoints points mutations nodes)
          (validate_points is_absolute points mutations nodes)
  unfolding validate_points
  validate_points_sound points mutations [] = (tt, tt, tt)
  validate_points_sound points mutations (point ∷ rest) =
      let P : Unit {0} → Type 0 = λ u. ValidatedPoints points mutations (point ∷ rest) in
      Ensures-throw_if P _ _ _ λ new.
        Ensures-then P (validate_images [] point.input.attachments) _ λ images.
          let fresh =
            Ensures-ok (λ u. AreFresh [] (image_references point.input.attachments))
              (validate_images [] point.input.attachments)
              (validate_images-AreFresh [] point.input.attachments) images in
          Ensures-throw_if P _ _ _ λ early.
            Ensures-bind P
              (validate_mutations is_absolute point mutations point.workspace_mutations) _
              λ later e.
                let v =
                  Ensures-ok (Validated point mutations point.workspace_mutations)
                    (validate_mutations is_absolute point mutations point.workspace_mutations)
                    (validate_mutations_sound point mutations point.workspace_mutations) e in
                Ensures-weaken (λ u. ValidatedPoints (point.id ∷ points) later rest) P _
                  (λ u r. (
                    (new, r.0),
                    append-AreFresh mutations (mutation_ids point.workspace_mutations)
                        (all_mutation_ids rest) v.1
                        (subst (λ seen. AreFresh seen (all_mutation_ids rest)) v.0 r.1),
                    (
                      (
                        AreFresh-AreDistinct [] (image_references point.input.attachments) fresh,
                        early,
                        v.2,
                      ),
                      r.2,
                    ),
                  ))
                  (validate_points_sound (point.id ∷ points) later rest)

  pub validate_manifest_integrity-AreSound :
      (manifest : TimelineManifest)
      → Ensures (λ u. AreSound manifest.nodes) (validate_manifest_integrity is_absolute manifest)
  unfolding validate_manifest_integrity
  validate_manifest_integrity-AreSound manifest =
      let P : Unit {0} → Type 0 = λ u. AreSound manifest.nodes in
      Ensures-then P (validate_points is_absolute [] [] manifest.nodes) _ λ e.
        let v =
          Ensures-ok (λ u. ValidatedPoints [] [] manifest.nodes)
            (validate_points is_absolute [] [] manifest.nodes)
            (validate_points_sound [] [] manifest.nodes) e in
        Ensures-weaken
          (λ u.
            All (Agrees []) (references manifest.nodes) × AreConsistent (references manifest.nodes))
          P _
          (λ u c. record {
            points_distinct = AreFresh-AreDistinct [] (point_ids manifest.nodes) v.0;
            mutations_distinct = AreFresh-AreDistinct [] (all_mutation_ids manifest.nodes) v.1;
            points_sound = v.2;
            references_consistent = c.1;
          })
          (validate_references-AreConsistent [] (references manifest.nodes))
