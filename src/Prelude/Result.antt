-- ===== src/Prelude/Result.antt =====
-- A result or a thrown error. A method that throws does so before it changes any state.
use mathlib.Core.Bool.{Bool, true, false}
use mathlib.Core.Path.{◌≡◌, refl, subst}

pub data Result {ℓ κ} (E : Type ℓ) (A : Type κ) : Type (ℓ ⊔ κ) where
  ok : A → Result E A
  err : E → Result E A

infixl 5 ◌>>=◌ ◌>>◌
unfoldable pub ◌>>=◌ {ℓ κ μ} :
    {E : Type ℓ} {A : Type κ} {B : Type μ} → Result E A → (A → Result E B) → Result E B
ok a >>= f = f a
err e >>= f = err e

unfoldable pub ◌>>◌ {ℓ κ} :
    {E : Type ℓ} {B : Type κ} → Result E (Unit {0}) → Result E B → Result E B
unfolding ◌>>=◌
m >> k = m >>= λ _. k

-- `if (test) throw e`
unfoldable pub throw_if {ℓ} : {E : Type ℓ} → Bool → E → Result E (Unit {0})
throw_if true e = err e
throw_if false e = ok tt

module _ {ℓ κ μ} {E : Type ℓ} {A : Type κ} {B : Type μ} where
  -- Inversion of a successful bind.
  pub >>=-eq-ok :
      (m : Result E A) (f : A → Result E B) {b : B}
      → (m >>= f) ≡ ok b
      → (a : A) × (m ≡ ok a) × (f a ≡ ok b)
  unfolding ◌>>=◌
  >>=-eq-ok (ok a) f h = (a, refl, h)
  >>=-eq-ok (err e) f h = cc

module _ {ℓ κ} {E : Type ℓ} {B : Type κ} where
  -- Inversion of a passed check.
  pub throw_if-eq-ok :
      (t : Bool) (e : E) (k : Result E B) {b : B}
      → (throw_if t e >> k) ≡ ok b
      → (t ≡ false) × (k ≡ ok b)
  unfolding ◌>>◌ throw_if
  throw_if-eq-ok true e k h = cc
  throw_if-eq-ok false e k h = (refl, h)

-- What holds of the result of a call that does not throw.
abbrev pub Ensures {ℓ κ μ} : {E : Type ℓ} {A : Type κ} → (A → Type μ) → Result E A → Type μ
Ensures P (ok a) = P a
Ensures P (err e) = Unit

module _ {ℓ κ μ ν} {E : Type ℓ} {A : Type κ} {B : Type μ} (P : B → Type ν) where
  pub Ensures-bind :
      (m : Result E A) (f : A → Result E B)
      → ((a : A) → m ≡ ok a → Ensures P (f a))
      → Ensures P (m >>= f)
  unfolding ◌>>=◌
  Ensures-bind (ok a) f h = h a refl
  Ensures-bind (err e) f h = tt

module _ {ℓ κ μ} {E : Type ℓ} {B : Type κ} (P : B → Type μ) where
  pub Ensures-throw_if :
      (t : Bool) (e : E) (k : Result E B)
      → (t ≡ false → Ensures P k)
      → Ensures P (throw_if t e >> k)
  unfolding ◌>>◌ throw_if
  Ensures-throw_if true e k h = tt
  Ensures-throw_if false e k h = h refl

  pub Ensures-then :
      (m : Result E (Unit {0})) (k : Result E B) → (m ≡ ok tt → Ensures P k) → Ensures P (m >> k)
  unfolding ◌>>◌
  Ensures-then (ok u) k h = h refl
  Ensures-then (err e) k h = tt

  pub Ensures-ok : (m : Result E B) {b : B} → Ensures P m → m ≡ ok b → P b
  Ensures-ok (ok a) {b} h e = let same : a ≡ b = cc in subst P same h
  Ensures-ok (err e') h e = cc

module _ {ℓ κ} {E : Type ℓ} {B : Type κ} where
  pub >>-eq-ok :
      (m : Result E (Unit {0})) (k : Result E B) {b : B}
      → (m >> k) ≡ ok b
      → (m ≡ ok tt) × (k ≡ ok b)
  unfolding ◌>>◌
  >>-eq-ok (ok tt) k h = (refl, h)
  >>-eq-ok (err e) k h = cc
