-- ===== src/Base/Outcomes.antt =====
-- What becomes of a chain of callbacks, and the monad in which such chains are written.

use mathlib.Core.Path.{◌≡◌, refl}
use mathlib.Core.Logic.{◌≢◌, ◌⊎◌, inl, inr}
use native.Mathlib.Omega.{arith}

-- `ok` and `err`: the callback runs, with a value or with an error. `lost`: the callback is never
-- called. `thrown`: a JavaScript exception escapes, which ends the process.
pub data Outcome {ℓ κ} (E : Type ℓ) (A : Type κ) : Type (ℓ ⊔ κ) where
  ok : A → Outcome E A
  err : E → Outcome E A
  lost : Outcome E A
  thrown : Outcome E A

-- A callback-style function over a mutable state `S`: the state is changed also where it fails.
abbrev pub Action {ℓ κ μ} : Type ℓ → Type κ → Type μ → Type (ℓ ⊔ κ ⊔ μ)
Action S E A = S → Outcome E A × S

-- A `vasync` pipeline goes on after a success only.
abbrev pub after {ℓ κ μ ν} :
    {S : Type ℓ} {E : Type κ} {A : Type μ} {B : Type ν}
    → (A → Action S E B)
    → Outcome E A × S
    → Outcome E B × S
after f (ok a, s) = f a s
after f (err e, s) = (err e, s)
after f (lost, s) = (lost, s)
after f (thrown, s) = (thrown, s)

infixl 5 ◌>>=◌ ◌>>◌
abbrev pub ◌>>=◌ {ℓ κ μ ν} :
    {S : Type ℓ} {E : Type κ} {A : Type μ} {B : Type ν}
    → Action S E A
    → (A → Action S E B)
    → Action S E B
◌>>=◌ m f s = after f (m s)

abbrev pub ◌>>◌ {ℓ κ μ ν} :
    {S : Type ℓ} {E : Type κ} {A : Type μ} {B : Type ν} → Action S E A → Action S E B → Action S E B
◌>>◌ m k s = after (λ _. k) (m s)

abbrev pub return {ℓ κ μ} : {S : Type ℓ} {E : Type κ} {A : Type μ} → A → Action S E A
return a s = (ok a, s)

abbrev pub fail {ℓ κ μ} : {S : Type ℓ} {E : Type κ} {A : Type μ} → E → Action S E A
fail e s = (err e, s)

-- The state that an action leaves behind.
abbrev pub state {ℓ κ μ} : {S : Type ℓ} {E : Type κ} {A : Type μ} → Outcome E A × S → S
state r = r.1

-- What holds of the value and the state if the action succeeds.
abbrev pub Post {ℓ κ μ ν} :
    {S : Type ℓ} {E : Type κ} {A : Type μ} → (A → S → Type ν) → Outcome E A × S → Type ν
Post P (ok a, s) = P a s
Post P (err e, s) = Unit
Post P (lost, s) = Unit
Post P (thrown, s) = Unit

module _ {ℓ κ μ ν} {S : Type ℓ} {E : Type κ} {A : Type μ} (P : A → S → Type ν) where
  pub Post-ok : (r : Outcome E A × S) {a : A} → Post P r → r.0 ≡ ok a → P a r.1
  Post-ok (ok a, s) h e = ground (arith, h)
  Post-ok (err e', s) h e = cc
  Post-ok (lost, s) h e = cc
  Post-ok (thrown, s) h e = cc

  pub Post-intro : (r : Outcome E A × S) → ((a : A) → r.0 ≡ ok a → P a r.1) → Post P r
  Post-intro (ok a, s) h = h a refl
  Post-intro (err e, s) h = tt
  Post-intro (lost, s) h = tt
  Post-intro (thrown, s) h = tt

module _ {ℓ κ μ ν} {S : Type ℓ} {E : Type κ} {A : Type μ} {B : Type ν} where
  -- The rest of the chain establishes it, whatever came before.
  pub Post-later {ξ} :
      (Q : B → S → Type ξ) (f : A → Action S E B) (r : Outcome E A × S)
      → ((a : A) (s : S) → Post Q (f a s))
      → Post Q (after f r)
  Post-later Q f (ok a, s) h = h a s
  Post-later Q f (err e, s) h = tt
  Post-later Q f (lost, s) h = tt
  Post-later Q f (thrown, s) h = tt

  -- The first part establishes what the rest needs.
  pub Post-then {ξ χ} :
      (P : A → S → Type χ) (Q : B → S → Type ξ) (f : A → Action S E B) (r : Outcome E A × S)
      → Post P r
      → ((a : A) (s : S) → P a s → Post Q (f a s))
      → Post Q (after f r)
  Post-then P Q f (ok a, s) p h = h a s p
  Post-then P Q f (err e, s) p h = tt
  Post-then P Q f (lost, s) p h = tt
  Post-then P Q f (thrown, s) p h = tt

module _ {ℓ κ μ ν} {S : Type ℓ} {E : Type κ} {A : Type μ} {B : Type ν} where
  -- A chain that succeeds has succeeded up to its rest.
  pub after-succeeds :
      (f : A → Action S E B) (r : Outcome E A × S) (b : B) (t : S)
      → after f r ≡ (ok b, t)
      → (a : A) × (r.0 ≡ ok a) × (f a r.1 ≡ (ok b, t))
  after-succeeds f (ok a, s) b t h = (a, refl, h)
  after-succeeds f (err e, s) b t h = cc
  after-succeeds f (lost, s) b t h = cc
  after-succeeds f (thrown, s) b t h = cc

pub Outcome-cases {ℓ} : {E : Type ℓ} (o : Outcome E (Unit {0})) → (o ≡ ok tt) ⊎ (o ≢ ok tt)
Outcome-cases (ok tt) = inl refl
Outcome-cases (err e) = inr (λ h. cc)
Outcome-cases lost = inr (λ h. cc)
Outcome-cases thrown = inr (λ h. cc)

module _ {ℓ κ} {S : Type ℓ} {E : Type κ} (f : Unit {0} → Action S E (Unit {0})) where
  pub after-of_ok : (r : Outcome E (Unit {0}) × S) → r.0 ≡ ok tt → after f r ≡ f tt r.1
  after-of_ok (ok tt, s) h = refl
  after-of_ok (err e, s) h = cc
  after-of_ok (lost, s) h = cc
  after-of_ok (thrown, s) h = cc

  -- A pipeline that does not succeed ends where it is.
  pub after-of_ne : (r : Outcome E (Unit {0}) × S) → r.0 ≢ ok tt → after f r ≡ r
  after-of_ne (ok tt, s) h = absurd (h refl)
  after-of_ne (err e, s) h = refl
  after-of_ne (lost, s) h = refl
  after-of_ne (thrown, s) h = refl
