-- ===== src/Base/Options.antt =====
-- Chains of steps that may fail: a panic, or a value that is missing.
use mathlib.Core.Path.{◌≡◌, refl, ap}
use mathlib.Core.Bool.{Bool, true, false}
use mathlib.Core.Option.{Option, none, some}
use blbchain.Base.Tests.{if◌then◌else◌}

infixl 5 ◌>>=◌
abbrev pub ◌>>=◌ {ℓ κ} : {A : Type ℓ} {B : Type κ} → Option A → (A → Option B) → Option B
none >>= k = none
some a >>= k = k a

-- What follows a step that gives a value.
pub >>=-some {ℓ κ} :
    {A : Type ℓ} {B : Type κ} (m : Option A) (k : A → Option B) {a : A}
    → m ≡ some a
    → (m >>= k) ≡ k a
>>=-some m k e = ap (λ o. o >>= k) e

-- The step gives a value, and the value has the property.
abbrev pub Gives : {A : Type 0} → (A → Type 0) → Option A → Type 0
Gives holds none = ⊥
Gives holds (some a) = holds a

pub Gives-bind :
    {A B : Type 0} (P : A → Type 0) (Q : B → Type 0) (m : Option A) (k : A → Option B)
    → Gives P m
    → ((a : A) → P a → Gives Q (k a))
    → Gives Q (m >>= k)
Gives-bind P Q none k h next = elim h [ ]
Gives-bind P Q (some a) k h next = next a h

pub Gives-some :
    {A : Type 0} (P : A → Type 0) (m : Option A) → Gives P m → (a : A) × (m ≡ some a) × P a
Gives-some P none h = elim h [ ]
Gives-some P (some a) h = (a, refl, h)

pub Gives-map :
    {A : Type 0} (P Q : A → Type 0) (m : Option A) → Gives P m → ((a : A) → P a → Q a) → Gives Q m
Gives-map P Q none h next = elim h [ ]
Gives-map P Q (some a) h next = next a h

pub Gives-if :
    {A : Type 0} (P : A → Type 0) (test : Bool) (m k : Option A)
    → (test ≡ true → Gives P m)
    → (test ≡ false → Gives P k)
    → Gives P (if test then m else k)
Gives-if P true m k then_gives else_gives = then_gives refl
Gives-if P false m k then_gives else_gives = else_gives refl
