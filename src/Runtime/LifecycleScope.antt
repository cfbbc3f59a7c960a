-- ===== src/Runtime/LifecycleScope.antt =====
-- packages/tui/src/runtime/lifecycle/scope.ts: `LifecycleScope`. A registration is the number of those
-- made before it; its flag `active` is false once its cleanup was called or its owner released it. The
-- promise of `release` is the list of registrations that its loop has left: a round of the loop is an
-- operation of its own, and other operations may come between two rounds. Listeners of the abort signal
-- that call the scope, and a first cleanup that calls `dispose`, are not modelled.
pub mod Order
pub mod Accounts
pub mod Settled
pub mod Rounds
mod Tests
use deepseek_harness_communi.Prelude.{
  ℕ, suc, Bool, true, false, not, ◌||◌, Option, none, some, List, [], ◌∷◌, ◌++◌, String,
  if◌then◌else◌, any, filter, length, nat_beq, ltb,
}
use deepseek_harness_communi.Prelude.Result.{Result, ok, err}
use Prim.Native.String.{◌++◌ as text_append}

pub data Cleanup : Type 0 where
  -- a function of the owner
  external : ℕ → Cleanup
  -- the scope with a name
  disposes_scope : String → Cleanup
  -- a registration of the parent
  releases_ownership : ℕ → Cleanup

pub record LifecycleScope : Type 0 where
  pub name : String
  pub aborted : Bool
  pub made : List Cleanup
  pub cleanups : List ℕ
  -- the calls, the latest first
  pub called : List ℕ
  pub released : List ℕ
  pub releasing : Option (List ℕ)
  -- the registrations whose cleanup threw
  pub errors : List ℕ
  -- listens to the parent
  pub attached : Bool
  -- what `disposeTask` is settled with: the errors
  pub outcome : Option (List ℕ)

-- `new LifecycleScope(name, parentSignal)`; the signal, if there is one, says whether it is aborted.
unfoldable pub new_scope : String → Option Bool → LifecycleScope
new_scope name parent = record {
  name = name;
  aborted = elim parent [ none ↦ false | some aborted ↦ aborted ];
  made = [];
  cleanups = [];
  called = [];
  released = [];
  releasing = none;
  errors = [];
  attached = elim parent [ none ↦ false | some aborted ↦ not aborted ];
  outcome = none;
}

-- The parent's signal was aborted.
unfoldable pub cancel : LifecycleScope → LifecycleScope
cancel s = if s.attached then record s { aborted = true } else s

abbrev pub has_key : List ℕ → ℕ → Bool
has_key keys key = any (λ k. nat_beq k key) keys

-- `registration.active`
abbrev pub is_active : LifecycleScope → ℕ → Bool
is_active s key = not (has_key s.called key || has_key s.released key)

pub data ScopeError : Type 0 where
  -- what was refused, the scope
  inactive : String → String → ScopeError

unfoldable pub register : Cleanup → LifecycleScope → Result ScopeError (LifecycleScope × ℕ)
register cleanup s =
    if s.aborted
    then err (inactive "own a resource" s.name)
    else let key = length s.made in
      ok (record s { made = s.made ++ (cleanup ∷ []); cleanups = s.cleanups ++ (key ∷ []) }, key)

-- The function that `register` returns.
unfoldable pub release_ownership : ℕ → LifecycleScope → LifecycleScope
release_ownership key s =
    if is_active s key
    then record s {
      released = key ∷ s.released;
      cleanups = filter (λ k. not (nat_beq k key)) s.cleanups;
    }
    else s

abbrev owning :
    String
    → LifecycleScope
    → Result ScopeError (LifecycleScope × ℕ)
    → Result ScopeError (LifecycleScope × LifecycleScope)
owning name child (err e) = err e
owning name child (ok (parent, key)) = elim (register (releases_ownership key) child) [
  | err e ↦ err e
  | ok (owned, k) ↦ ok (parent, owned)
]

abbrev pub path_of : LifecycleScope → String → String
path_of s name = text_append s.name (text_append "/" name)

-- The parent and the child.
unfoldable pub fork : String → LifecycleScope → Result ScopeError (LifecycleScope × LifecycleScope)
fork name s =
    if s.aborted
    then err (inactive "fork a child scope" s.name)
    else let path = path_of s name in
      owning path (new_scope path (some s.aborted)) (register (disposes_scope path) s)

abbrev pub reverse_onto : List ℕ → List ℕ → List ℕ
reverse_onto [] done = done
reverse_onto (k ∷ keys) done = reverse_onto keys (k ∷ done)

-- What `disposeTask` is decides.
unfoldable pub begin_release : Option (List ℕ) → LifecycleScope → LifecycleScope
begin_release (some rest) s = s
begin_release none s = record s {
  aborted = true;
  cleanups = [];
  releasing = some (reverse_onto s.cleanups []);
}

unfoldable pub dispose : LifecycleScope → LifecycleScope
dispose s = begin_release s.releasing s

-- What the loop in `release` has left decides: a round, or what follows the loop.
unfoldable pub release_round : Bool → Option (List ℕ) → LifecycleScope → LifecycleScope
release_round threw none s = s
release_round threw (some []) s = record s { attached = false; outcome = some s.errors }
release_round threw (some (key ∷ rest)) s =
    if is_active s key
    then record s {
      releasing = some rest;
      called = key ∷ s.called;
      errors = if threw then s.errors ++ (key ∷ []) else s.errors;
    }
    else record s { releasing = some rest }

-- `threw` says whether the cleanup of this round throws.
unfoldable pub release_next : Bool → LifecycleScope → LifecycleScope
release_next threw s = release_round threw s.releasing s

pub data Operation : Type 0 where
  registers : Cleanup → Operation
  forks : String → Operation
  releases : ℕ → Operation
  cancels : Operation
  disposes : Operation
  runs : Bool → Operation

-- An operation on the scope, which stays as it is where the method throws. A registration can be
-- released when it was made.
unfoldable pub perform : Operation → LifecycleScope → LifecycleScope
perform (registers cleanup) s = elim (register cleanup s) [ err e ↦ s | ok (t, key) ↦ t ]
perform (forks name) s = elim (fork name s) [ err e ↦ s | ok (t, child) ↦ t ]
perform (releases key) s = if ltb key (length s.made) then release_ownership key s else s
perform cancels s = cancel s
perform disposes s = dispose s
perform (runs threw) s = release_next threw s

unfoldable pub perform_all : List Operation → LifecycleScope → LifecycleScope
perform_all [] s = s
perform_all (operation ∷ operations) s = perform_all operations (perform operation s)
