-- ===== src/Common/Raising.antt =====
-- A computation that returns a value or raises.
use mathlib.Core.Path.{◌≡◌, refl}
use mathlib.Core.Bool.{Bool, true, false}

pub data Outcome {ℓ} (E A : Type ℓ) : Type ℓ where
  ok : A → Outcome E A
  err : E → Outcome E A

infixl 5 ◌>>=◌ ◌>>◌
abbrev pub ◌>>=◌ {ℓ} : {E A B : Type ℓ} → Outcome E A → (A → Outcome E B) → Outcome E B
ok a >>= f = f a
err e >>= f = err e

abbrev pub ◌>>◌ {ℓ} : {E B : Type ℓ} → Outcome E (Unit {ℓ}) → Outcome E B → Outcome E B
m >> k = m >>= λ _. k

-- `if not test: raise e`
abbrev pub require : {E : Type 0} → Bool → E → Outcome E (Unit {0})
require true e = ok tt
require false e = err e

-- What was bound, when the whole computation returns.
pub bind-ok :
    {E A B : Type 0} (m : Outcome E A) (f : A → Outcome E B) (b : B)
    → m >>= f ≡ ok b
    → (a : A) × (m ≡ ok a) × (f a ≡ ok b)
bind-ok (ok a) f b e = (a, refl, e)
bind-ok (err x) f b e = absurd (cc e)

-- A test that was passed, when the whole computation returns.
pub require-ok :
    {E B : Type 0} (b : Bool) (e : E) (m : Outcome E B) (x : B)
    → (require b e >> m) ≡ ok x
    → (b ≡ true) × (m ≡ ok x)
require-ok true e m x h = (refl, h)
require-ok false e m x h = absurd (cc h)

pub ok_same : {E B : Type 0} (m : Outcome E B) (a b : B) → m ≡ ok a → m ≡ ok b → a ≡ b
ok_same m a b h k = cc (h, k)
