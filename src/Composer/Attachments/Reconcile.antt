-- ===== src/Composer/Attachments/Reconcile.antt =====
-- `reconcileText`: which drafts are active.
use mathlib.Core.List.{Perm, perm_middle}
use mathlib.Core.List.Perm
use deepseek_harness_communi.Prelude.{
  ℕ, ◌+◌, ◌≡◌, refl, ap, subst, Bool, true, false, not, inl, inr, List, [], ◌∷◌, ◌++◌, Bool-cases,
  filter, length, All, All-filter, All-map_of, arith,
}
use deepseek_harness_communi.Prelude.Sort.{sort_by, sort_by-perm, length-filter-sort_by}
use deepseek_harness_communi.Composer.Images.{includes}
use deepseek_harness_communi.Composer.Attachments.{
  AttachmentDraft, marker_number, AttachmentDraftStore, emit, all_same, reconcile_text,
}

module _ {A : Type 0} (p : A → Bool) where
  length-filter-append :
      (xs ys : List A) → length (filter p (xs ++ ys)) ≡ length (filter p xs) + length (filter p ys)
  length-filter-append [] ys = omega arith
  length-filter-append (x ∷ xs) ys = ground (arith, length-filter-append xs ys)

  length-filter-whole : (xs : List A) → All (λ x. p x ≡ true) xs → length (filter p xs) ≡ length xs
  length-filter-whole [] h = refl
  length-filter-whole (x ∷ xs) h = ground (arith, h.0, length-filter-whole xs h.1)

  filter-none : (xs : List A) → length (filter p xs) ≡ 0 → All (λ x. p x ≡ false) xs
  filter-none [] h = tt
  filter-none (x ∷ xs) h = (ground (arith, h), filter-none xs (ground (arith, h)))

  partition-perm : (xs : List A) → Perm (filter p xs ++ filter (λ x. not (p x)) xs) xs
  partition-perm [] = Perm.refl _
  partition-perm (x ∷ xs) = elim (Bool-cases (p x)) [
    | inl e ↦ rw e (Perm.cons x (partition-perm xs))
    | inr e ↦ rw e (
        Perm.trans (perm_middle (filter p xs) (filter (λ y. not (p y)) xs))
          (Perm.cons x (partition-perm xs)))
  ]

not_included : (b : Bool) → not b ≡ true → b ≡ false
not_included b h = ground (arith, h)

-- The active drafts are those whose marker the text has, and no draft is lost or made.
pub record IsReconciled (text : List ℕ) (s t : AttachmentDraftStore) : Type 0 where
  pub active_included : All (λ d. includes text d.placeholder ≡ true) t.active
  pub detached_absent : All (λ d. includes text d.placeholder ≡ false) t.detached
  pub kept : Perm (t.active ++ t.detached) (s.active ++ s.detached)

module _ (same : AttachmentDraft → AttachmentDraft → Bool) (text : List ℕ)
    (s : AttachmentDraftStore) where
  all_same-eq :
      (ds es : List AttachmentDraft)
      → ((d e : AttachmentDraft) → same d e ≡ true → d ≡ e)
      → all_same same ds es ≡ true
      → ds ≡ es
  all_same-eq [] [] k h = refl
  all_same-eq [] (e ∷ es) k h = ground (arith, h)
  all_same-eq (d ∷ ds) [] k h = ground (arith, h)
  all_same-eq (d ∷ ds) (e ∷ es) k h =
      rw (k d e (ground (arith, h)), all_same-eq ds es k (ground (arith, h))) refl

  abbrev in_text : AttachmentDraft → Bool
  in_text d = includes text d.placeholder

  abbrev ordered : List AttachmentDraft
  ordered = sort_by marker_number (s.active ++ s.detached)

  unchanged-IsReconciled : filter in_text ordered ≡ s.active → IsReconciled text s s
  unchanged-IsReconciled e =
      let active : All (λ d. in_text d ≡ true) s.active =
        subst (All (λ d. in_text d ≡ true)) e (All-filter in_text ordered) in
      let count : length (filter in_text ordered) ≡ length s.active = ap length e in
      record {
        active_included = active;
        detached_absent = filter-none in_text s.detached (
            omega (
              arith,
              count,
              length-filter-sort_by marker_number in_text (s.active ++ s.detached),
              length-filter-append in_text s.active s.detached,
              length-filter-whole in_text s.active active,
            ));
        kept = Perm.refl _;
      }

  -- After the drafts are reconciled with a text, whether that changed them or not, the active ones are
  -- those whose marker the text has; the active and the detached ones together are what they were, in
  -- some order. Identical drafts are assumed to be equal.
  pub reconcile_text-IsReconciled :
      ((d e : AttachmentDraft) → same d e ≡ true → d ≡ e)
      → IsReconciled text s (reconcile_text same text s).0
  unfolding reconcile_text emit
  reconcile_text-IsReconciled k =
      elim (Bool-cases (all_same same (filter in_text ordered) s.active)) [
        | inl e ↦ rw e (unchanged-IsReconciled (all_same-eq (filter in_text ordered) s.active k e))
        | inr e ↦ rw e (record {
          active_included = All-filter in_text ordered;
          detached_absent =
              All-map_of (λ d. in_text d ≡ false) (λ d h. not_included (in_text d) h)
                (filter (λ d. not (in_text d)) ordered) (All-filter (λ d. not (in_text d)) ordered);
          kept =
              Perm.trans (partition-perm in_text ordered)
                (sort_by-perm marker_number (s.active ++ s.detached));
        })
      ]
