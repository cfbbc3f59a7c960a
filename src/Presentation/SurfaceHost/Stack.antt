-- ===== src/Presentation/SurfaceHost/Stack.antt =====
-- The identities of the entries of a stack.
use deepseek_harness_communi.Prelude.{
  ℕ, ◌≤◌, ◌<◌, ◌≡◌, refl, subst, true, false, inl, inr, List, [], ◌∷◌, Bool-cases, nat_beq, arith,
}
use deepseek_harness_communi.Presentation.SurfaceHost.{
  SurfaceDescriptor, SurfaceEntry, in_stack, with_surface, without_entry,
}

-- The identities fall from the top down, from `n` on.
abbrev pub FallsBelow : ℕ → List SurfaceEntry → Type 0
FallsBelow n [] = Unit
FallsBelow n (entry ∷ rest) = (entry.id < n) × FallsBelow entry.id rest

pub FallsBelow-absent :
    (n id : ℕ) (stack : List SurfaceEntry) → FallsBelow n stack → n ≤ id → in_stack id stack ≡ false
FallsBelow-absent n id [] f le = refl
FallsBelow-absent n id (entry ∷ rest) f le =
    ground (arith, f.0, le, FallsBelow-absent entry.id id rest f.1 (omega (arith, f.0, le)))

pub FallsBelow-mono :
    (m n : ℕ) (stack : List SurfaceEntry) → m ≤ n → FallsBelow m stack → FallsBelow n stack
FallsBelow-mono m n [] le f = tt
FallsBelow-mono m n (entry ∷ rest) le f = (omega (arith, f.0, le), f.1)

pub with_surface-FallsBelow :
    (n id : ℕ) (surface : SurfaceDescriptor) (stack : List SurfaceEntry)
    → FallsBelow n stack
    → FallsBelow n (with_surface id surface stack)
unfolding with_surface
with_surface-FallsBelow n id surface [] f = tt
with_surface-FallsBelow n id surface (entry ∷ rest) f = elim (Bool-cases (nat_beq entry.id id)) [
  | inl e ↦
      let same : entry.id ≡ id = ground (arith, e) in
      rw e (omega (arith, same, f.0), subst (λ m. FallsBelow m rest) same f.1)
  | inr e ↦ rw e (f.0, with_surface-FallsBelow entry.id id surface rest f.1)
]

pub without_entry-FallsBelow :
    (n id : ℕ) (stack : List SurfaceEntry)
    → FallsBelow n stack
    → FallsBelow n (without_entry id stack)
unfolding without_entry
without_entry-FallsBelow n id [] f = tt
without_entry-FallsBelow n id (entry ∷ rest) f = elim (Bool-cases (nat_beq entry.id id)) [
  | inl e ↦ rw e (FallsBelow-mono entry.id n rest (omega (arith, f.0)) f.1)
  | inr e ↦ rw e (f.0, without_entry-FallsBelow entry.id id rest f.1)
]

pub in_stack-with_surface :
    (j id : ℕ) (surface : SurfaceDescriptor) (stack : List SurfaceEntry)
    → in_stack id (with_surface j surface stack) ≡ in_stack id stack
unfolding with_surface
in_stack-with_surface j id surface [] = refl
in_stack-with_surface j id surface (entry ∷ rest) =
    ground (arith, in_stack-with_surface j id surface rest)

pub without_entry-absent :
    (n id : ℕ) (stack : List SurfaceEntry)
    → FallsBelow n stack
    → in_stack id (without_entry id stack) ≡ false
unfolding without_entry
without_entry-absent n id [] f = refl
without_entry-absent n id (entry ∷ rest) f = elim (Bool-cases (nat_beq entry.id id)) [
  | inl e ↦ rw e (FallsBelow-absent entry.id id rest f.1 (ground (arith, e)))
  | inr e ↦ rw e (ground (arith, e, without_entry-absent entry.id id rest f.1))
]

pub without_entry-still_absent :
    (j id : ℕ) (stack : List SurfaceEntry)
    → in_stack id stack ≡ false
    → in_stack id (without_entry j stack) ≡ false
unfolding without_entry
without_entry-still_absent j id [] h = refl
without_entry-still_absent j id (entry ∷ rest) h =
    ground (arith, h, without_entry-still_absent j id rest)

pub in_stack-FallsBelow :
    (n id : ℕ) (stack : List SurfaceEntry) → FallsBelow n stack → in_stack id stack ≡ true → id < n
in_stack-FallsBelow n id [] f h = ground (arith, h)
in_stack-FallsBelow n id (entry ∷ rest) f h = elim (Bool-cases (nat_beq entry.id id)) [
  | inl e ↦ ground (arith, e, f.0)
  | inr e ↦
      let lower : id < entry.id = in_stack-FallsBelow entry.id id rest f.1 (ground (arith, e, h)) in
      omega (arith, lower, f.0)
]
