-- ===== src/Rewind/Planner/Exactness.antt =====
-- A plan is safe exactly when the recorded edits lead from its target to the current content.
use deepseek_harness_communi.Prelude.{
  ℕ, ◌≡◌, ◌≢◌, ◌⊎◌, ap, refl, sym, subst, inl, inr, ◌↔◌, String, List, [], ◌∷◌, ◌++◌, Option, none,
  some, ◌==◌, ==_iff, ==_refl, string_eq, option_eq, Bool-cases, arith,
}
use mathlib.Core.List.{reverse, reverse-cons}
use deepseek_harness_communi.Rewind.Planner.{
  DiffLibrary, ConflictReason, ReversibleMutation, safe, mergeable, ReversedContent, reversed,
  blocked, planned, merged, reverse_changed, reverse_mutation, reverse_all, plan_of,
  plan_workspace_content,
}

-- The edits, oldest first, lead from one content to another, each from where the last one ended.
abbrev pub Leads : Option String → List ReversibleMutation → Option String → Type 0
Leads start [] end = start ≡ end
Leads start (m ∷ ms) end = (start ≡ m.before) × Leads (some m.after) ms end

-- The same, newest first.
abbrev Undoes : Option String → List ReversibleMutation → Option String → Type 0
Undoes current [] target = current ≡ target
Undoes current (m ∷ older) target = (current ≡ some m.after) × Undoes m.before older target

Undoes-snoc :
    (current : Option String) (ms : List ReversibleMutation) (m : ReversibleMutation)
    → Undoes current ms (some m.after)
    → Undoes current (ms ++ m ∷ []) m.before
Undoes-snoc current [] m h = (h, refl)
Undoes-snoc current (n ∷ ms) m h = (h.0, Undoes-snoc n.before ms m h.1)

Undoes-unsnoc :
    (current target : Option String) (ms : List ReversibleMutation) (m : ReversibleMutation)
    → Undoes current (ms ++ m ∷ []) target
    → Undoes current ms (some m.after) × (m.before ≡ target)
Undoes-unsnoc current target [] m h = (h.0, h.1)
Undoes-unsnoc current target (n ∷ ms) m h =
    let (rest, last) = Undoes-unsnoc n.before target ms m h.1 in ((h.0, rest), last)

Leads-Undoes :
    (start end : Option String) (ms : List ReversibleMutation)
    → Leads start ms end
    → Undoes end (reverse ms) start
Leads-Undoes start end [] h = sym h
Leads-Undoes start end (m ∷ ms) h =
    rw (reverse-cons m ms, h.0)
      (Undoes-snoc end (reverse ms) m (Leads-Undoes (some m.after) end ms h.1))

Undoes-Leads :
    (start end : Option String) (ms : List ReversibleMutation)
    → Undoes end (reverse ms) start
    → Leads start ms end
Undoes-Leads start end [] h = sym h
Undoes-Leads start end (m ∷ ms) h =
    let (rest, first) =
      Undoes-unsnoc end start (reverse ms) m
        (subst (λ l. Undoes end l start) (reverse-cons m ms) h) in
    (sym first, Undoes-Leads (some m.after) end ms rest)

Reversed-cases :
    (r : ReversedContent)
    → ((reason : ConflictReason) × (r ≡ blocked reason))
      ⊎ (((next : Option String) × (r ≡ reversed safe next))
          ⊎ ((next : Option String) × (r ≡ reversed mergeable next)))
Reversed-cases (blocked reason) = inl (reason, refl)
Reversed-cases (reversed safe next) = inr (inl (next, refl))
Reversed-cases (reversed mergeable next) = inr (inr (next, refl))

module _ (lib : DiffLibrary) where
  reverse_mutation-exact :
      (m : ReversibleMutation) → reverse_mutation lib (some m.after) m ≡ reversed safe m.before
  unfolding reverse_mutation
  reverse_mutation-exact m = rw (==_refl m.after)

  reverse_changed-ne-safe :
      (current before next : Option String) (m : ReversibleMutation)
      → reverse_changed lib current before m ≢ reversed safe next
  unfolding reverse_changed merged
  reverse_changed-ne-safe none before next m h = cc
  reverse_changed-ne-safe (some content) none next m h = cc
  reverse_changed-ne-safe (some content) (some before) next m h = ground arith

  reverse_mutation-safe :
      (current next : Option String) (m : ReversibleMutation)
      → reverse_mutation lib current m ≡ reversed safe next
      → (current ≡ some m.after) × (m.before ≡ next)
  unfolding reverse_mutation
  reverse_mutation-safe current next m h = elim (Bool-cases (current == some m.after)) [
    | inl same ↦
        let exact : reversed safe m.before ≡ reversed safe next =
          rw (same, reverse_mutation) at h in
        ((==_iff current (some m.after)).0 same, cc)
    | inr other ↦
        absurd (reverse_changed-ne-safe current m.before next m (rw (other, reverse_mutation) at h))
  ]

  reverse_all-Undoes :
      (current target : Option String) (ms : List ReversibleMutation)
      → Undoes current ms target
      → reverse_all lib safe current ms ≡ reversed safe target
  unfolding reverse_all
  reverse_all-Undoes current target [] h = ap (reversed safe) h
  reverse_all-Undoes current target (m ∷ ms) h =
      rw (h.0, reverse_all)
        (rw (reverse_mutation-exact m) (reverse_all-Undoes m.before target ms h.1))

  -- Once a step merges, the plan is no longer safe.
  merged-ne-safe :
      (current target : Option String) (ms : List ReversibleMutation)
      → reverse_all lib mergeable current ms ≢ reversed safe target
  unfolding reverse_all
  merged-ne-safe current target [] h = cc
  merged-ne-safe current target (m ∷ ms) h =
      elim (Reversed-cases (reverse_mutation lib current m)) [
        | inl (reason, e) ↦
            let stopped : blocked reason ≡ reversed safe target = rw (e, reverse_all) at h in cc
        | inr (inl (next, e)) ↦ merged-ne-safe next target ms (rw (e, reverse_all) at h)
        | inr (inr (next, e)) ↦ merged-ne-safe next target ms (rw (e, reverse_all) at h)
      ]

  reverse_all-safe :
      (current target : Option String) (ms : List ReversibleMutation)
      → reverse_all lib safe current ms ≡ reversed safe target
      → Undoes current ms target
  unfolding reverse_all
  reverse_all-safe current target [] h = cc
  reverse_all-safe current target (m ∷ ms) h =
      elim (Reversed-cases (reverse_mutation lib current m)) [
        | inl (reason, e) ↦
            let stopped : blocked reason ≡ reversed safe target = rw (e, reverse_all) at h in cc
        | inr (inl (next, e)) ↦
            let (exact, before) = reverse_mutation-safe current next m e in
            (exact, rw before (reverse_all-safe next target ms (rw (e, reverse_all) at h)))
        | inr (inr (next, e)) ↦ absurd (merged-ne-safe next target ms (rw (e, reverse_all) at h))
      ]

  plan_of-safe :
      (current target : Option String) (added removed : Option ℕ) (r : ReversedContent)
      → plan_of lib current r ≡ planned safe target added removed
      → r ≡ reversed safe target
  unfolding plan_of
  plan_of-safe current target added removed (blocked reason) h = cc
  plan_of-safe current target added removed (reversed state next) h = cc

  -- The plan of a file is safe with a target exactly when the recorded edits, each taken up where
  -- the one before it ended, lead from that target to the current content: nothing else touched the
  -- file, and no merge is involved.
  pub plan_workspace_content_safe_iff :
      (current target : Option String) (ms : List ReversibleMutation)
      → ((added : Option ℕ) × (removed : Option ℕ) × (plan_workspace_content lib current ms
            ≡ planned safe target added removed))
        ↔ Leads target ms current
  unfolding plan_workspace_content
  plan_workspace_content_safe_iff current target ms = (
    λ (added, removed, e). Undoes-Leads target current ms (
        reverse_all-safe current target (reverse ms)
          (plan_of-safe current target added removed _ e)),
    λ leads.
        rw (reverse_all-Undoes current target (reverse ms) (Leads-Undoes target current ms leads))
          (unfold plan_of in (_, _, refl)),
  )
