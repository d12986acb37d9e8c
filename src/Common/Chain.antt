-- ===== src/Common/Chain.antt =====
-- `Option` as the result of code that may trap: bind, and tests that trap.
use mathlib.Core.Path.{◌≡◌, refl}
use mathlib.Core.Bool.{Bool, true, false}
use mathlib.Core.Option.{Option, none, some}

infixl 5 ◌>>=◌
abbrev pub ◌>>=◌ {ℓ κ} : {A : Type ℓ} {B : Type κ} → Option A → (A → Option B) → Option B
none >>= f = none
some a >>= f = f a

-- `if !good { panic }`
abbrev pub require : Bool → Option (Unit {0})
require true = some tt
require false = none

-- Where the first part gives a value, the rest goes on with it.
pub bind-some {ℓ κ} :
    {A : Type ℓ} {B : Type κ} (m : Option A) (a : A) (f : A → Option B) (r : Option B)
    → m ≡ some a
    → f a ≡ r
    → (m >>= f) ≡ r
bind-some m a f r e h = rw e h

pub bind-eq-some {ℓ κ} :
    {A : Type ℓ} {B : Type κ} (m : Option A) (f : A → Option B) {b : B}
    → (m >>= f) ≡ some b
    → (a : A) × (m ≡ some a) × (f a ≡ some b)
bind-eq-some none f h = cc
bind-eq-some (some a) f h = (a, refl, h)
