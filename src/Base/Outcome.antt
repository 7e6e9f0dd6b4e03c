-- ===== src/Base/Outcome.antt =====
-- The outcome of a fallible function with errors of a type of its own: a value, an error, or the panic
-- of an operator.
use mathlib.Core.Path.{◌≡◌, refl}
use mathlib.Core.Bool.{Bool, true, false}
use mathlib.Core.Option.{Option, none, some}
use mathlib.Core.Logic.{◌⊎◌, inl, inr}
use native.Mathlib.Omega.{arith}
use hypercarry.Base.Tests.{if◌then◌else◌}

pub data Outcome {ℓ} (E : Type 0) (A : Type ℓ) : Type ℓ where
  panic : Outcome E A
  fault : E → Outcome E A
  value : A → Outcome E A

infixl 5 ◌>>=◌
abbrev pub ◌>>=◌ {ℓ κ} :
    {E : Type 0} {A : Type ℓ} {B : Type κ} → Outcome E A → (A → Outcome E B) → Outcome E B
panic >>= next = panic
fault e >>= next = fault e
value a >>= next = next a

infixl 5 ◌>>◌
abbrev pub ◌>>◌ {ℓ} : {E : Type 0} {B : Type ℓ} → Outcome E (Unit {0}) → Outcome E B → Outcome E B
check >> rest = check >>= λ passed. rest

-- `if refused { return Err(e) }`
abbrev pub refuse : {E : Type 0} → Bool → E → Outcome E (Unit {0})
refuse true e = fault e
refuse false e = value tt

-- `ensure!(test, e)`
abbrev pub ensure : {E : Type 0} → Bool → E → Outcome E (Unit {0})
ensure true e = value tt
ensure false e = fault e

-- `option.ok_or(e)`
abbrev pub or_fault {ℓ} : {E : Type 0} {A : Type ℓ} → Option A → E → Outcome E A
or_fault none e = fault e
or_fault (some a) e = value a

abbrev pub or_panic {ℓ} : {E : Type 0} {A : Type ℓ} → Option A → Outcome E A
or_panic none = panic
or_panic (some a) = value a

-- Inversions of the first step of a block that gave a value.
pub bind-value {ℓ κ} :
    {E : Type 0} {A : Type ℓ} {B : Type κ} (o : Outcome E A) (next : A → Outcome E B) {b : B}
    → (o >>= next) ≡ value b
    → (a : A) × (o ≡ value a) × (next a ≡ value b)
bind-value panic next h = cc
bind-value (fault e) next h = cc
bind-value (value a) next h = (a, refl, h)

pub refuse-value {ℓ} :
    {E : Type 0} {B : Type ℓ} (b : Bool) (e : E) (rest : Outcome E B) {r : B}
    → (refuse b e >> rest) ≡ value r
    → (b ≡ false) × (rest ≡ value r)
refuse-value true e rest h = cc
refuse-value false e rest h = (refl, h)

pub ensure-value {ℓ} :
    {E : Type 0} {B : Type ℓ} (b : Bool) (e : E) (rest : Outcome E B) {r : B}
    → (ensure b e >> rest) ≡ value r
    → (b ≡ true) × (rest ≡ value r)
ensure-value true e rest h = (refl, h)
ensure-value false e rest h = cc

pub or_fault-value {ℓ κ} :
    {E : Type 0} {A : Type ℓ} {B : Type κ} (o : Option A) (e : E) (next : A → Outcome E B) {b : B}
    → (or_fault o e >>= next) ≡ value b
    → (a : A) × (o ≡ some a) × (next a ≡ value b)
or_fault-value none e next h = cc
or_fault-value (some a) e next h = (a, refl, h)

pub or_panic-value {ℓ κ} :
    {E : Type 0} {A : Type ℓ} {B : Type κ} (o : Option A) (next : A → Outcome E B) {b : B}
    → (or_panic o >>= next) ≡ value b
    → (a : A) × (o ≡ some a) × (next a ≡ value b)
or_panic-value none next h = cc
or_panic-value (some a) next h = (a, refl, h)

pub value-injective {ℓ} :
    {E : Type 0} {A : Type ℓ} (a b : A) → ◌≡◌ {A = Outcome E A} (value a) (value b) → a ≡ b
value-injective a b h = ground arith

-- Inversion of a test that chooses between two outcomes.
pub if-value {ℓ} :
    {E : Type 0} {A : Type ℓ} (b : Bool) (x y : Outcome E A) {r : A}
    → (if b then x else y) ≡ value r
    → ((b ≡ true) × (x ≡ value r)) ⊎ ((b ≡ false) × (y ≡ value r))
if-value true x y h = inl (refl, h)
if-value false x y h = inr (refl, h)
