-- ===== src/Common/Fault.antt =====
-- Steps that may fault (a null or dangling dereference): `none` is the fault.
use mathlib.Core.Path.{◌≡◌, refl}
use mathlib.Core.Logic.{◌≢◌}
use mathlib.Core.Option.{Option, none, some}

infixl 5 ◌>>=◌
abbrev pub ◌>>=◌ {ℓ κ} : {A : Type ℓ} {B : Type κ} → Option A → (A → Option B) → Option B
none >>= f = none
some a >>= f = f a

pub >>=-eq-some {ℓ κ} :
    {A : Type ℓ} {B : Type κ} (m : Option A) (f : A → Option B) {b : B}
    → (m >>= f) ≡ some b
    → (a : A) × (m ≡ some a) × (f a ≡ some b)
>>=-eq-some none f h = cc
>>=-eq-some (some a) f h = (a, refl, h)

pub some_of {ℓ} : {A : Type ℓ} (m : Option A) → m ≢ none → (a : A) × (m ≡ some a)
some_of none h = absurd (h refl)
some_of (some a) h = (a, refl)

-- The chain goes on with the value of a step that succeeds.
pub >>=-some {ℓ κ} :
    {A : Type ℓ} {B : Type κ} (m : Option A) (f : A → Option B) {a : A} {c : Option B}
    → m ≡ some a
    → f a ≡ c
    → (m >>= f) ≡ c
>>=-some m f e h = rw e h
