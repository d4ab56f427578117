-- ===== src/Common/Except.antt =====
-- Code that may throw: `none` stands for a thrown `fc::exception`, of which the callers modelled
-- here tell no kinds apart.
use mathlib.Core.Path.{◌≡◌, refl}
use mathlib.Core.Bool.{Bool, true, false}
use mathlib.Core.Option.{Option, none, some}

infixl 5 ◌>>=◌ ◌>>◌
abbrev pub ◌>>=◌ {ℓ κ} : {A : Type ℓ} {B : Type κ} → Option A → (A → Option B) → Option B
none >>= f = none
some a >>= f = f a

abbrev pub ◌>>◌ {ℓ} : {B : Type ℓ} → Option (Unit {0}) → Option B → Option B
m >> k = m >>= λ _. k

-- `FC_ASSERT( b )`
abbrev pub fc_assert : Bool → Option (Unit {0})
fc_assert true = some tt
fc_assert false = none

-- `if( b ) FC_ASSERT( c )`
abbrev pub fc_assert_if : Bool → Bool → Option (Unit {0})
fc_assert_if true c = fc_assert c
fc_assert_if false c = some tt

-- Inversion of a chain that does not throw.
pub >>=-eq-some {ℓ κ} :
    {A : Type ℓ} {B : Type κ} (m : Option A) (f : A → Option B) {b : B}
    → (m >>= f) ≡ some b
    → (a : A) × (m ≡ some a) × (f a ≡ some b)
>>=-eq-some none f h = cc
>>=-eq-some (some a) f h = (a, refl, h)

pub eq_of_some {ℓ} : {A : Type ℓ} {a b : A} → some a ≡ some b → a ≡ b
eq_of_some h = cc
