-- ===== src/Execution/Error.antt =====
-- crates/hypercarry-execution/src/error.rs, and the outcome of a fallible function. An error keeps
-- its variant, and its message is left out. A panic of a decimal operator is an outcome of its own.
use hypercarry.Base.{◌≡◌, refl, Bool, true, false, Option, none, some, arith, ◌≢◌}

pub data ExecutionError : Type 0 where
  validation metadata policy lifecycle reliability : ExecutionError
  transport release_gate simulation journal_io journal_schema journal_json : ExecutionError

pub data Result {ℓ} (A : Type ℓ) : Type ℓ where
  panic : Result A
  err : ExecutionError → Result A
  ok : A → Result A

infixl 5 ◌>>=◌
abbrev pub ◌>>=◌ {ℓ κ} : {A : Type ℓ} {B : Type κ} → Result A → (A → Result B) → Result B
panic >>= next = panic
err failure >>= next = err failure
ok value >>= next = next value

-- A check followed by the rest.
infixl 5 ◌>>◌
abbrev pub ◌>>◌ {ℓ} : {B : Type ℓ} → Result (Unit {0}) → Result B → Result B
check >> rest = check >>= λ passed. rest

-- `if refused { return Err(e) }`
abbrev pub fail_if : Bool → ExecutionError → Result (Unit {0})
fail_if true e = err e
fail_if false e = ok tt

-- `option.ok_or_else(|| e)`
abbrev pub or_fail {ℓ} : {A : Type ℓ} → Option A → ExecutionError → Result A
or_fail none e = err e
or_fail (some a) e = ok a

-- The operators `+`, `-`, `*`, `/` and `%` of decimals panic where the checked operation is `None`.
abbrev pub or_panic {ℓ} : {A : Type ℓ} → Option A → Result A
or_panic none = panic
or_panic (some a) = ok a

-- `result.map_err(|_| e)`
abbrev pub map_err {ℓ} : {A : Type ℓ} → Result A → ExecutionError → Result A
map_err (ok a) e = ok a
map_err (err x) e = err e
map_err panic e = panic

-- Inversions of one step of a block that succeeded.
pub >>=-eq-ok {ℓ κ} :
    {A : Type ℓ} {B : Type κ} (step : Result A) (next : A → Result B) {result : B}
    → (step >>= next) ≡ ok result
    → (value : A) × (step ≡ ok value) × (next value ≡ ok result)
>>=-eq-ok panic next h = cc
>>=-eq-ok (err failure) next h = cc
>>=-eq-ok (ok value) next h = (value, refl, h)

pub fail_if-eq-ok {ℓ} :
    {A : Type ℓ} (b : Bool) (e : ExecutionError) (k : Result A) {a : A}
    → (fail_if b e >> k) ≡ ok a
    → (b ≡ false) × (k ≡ ok a)
fail_if-eq-ok true e k h = cc
fail_if-eq-ok false e k h = (refl, h)

pub or_fail-eq-ok {ℓ κ} :
    {A : Type ℓ} {B : Type κ} (o : Option A) (e : ExecutionError) (f : A → Result B) {b : B}
    → (or_fail o e >>= f) ≡ ok b
    → (a : A) × (o ≡ some a) × (f a ≡ ok b)
or_fail-eq-ok none e f h = cc
or_fail-eq-ok (some a) e f h = (a, refl, h)

pub or_panic-eq-ok {ℓ κ} :
    {A : Type ℓ} {B : Type κ} (o : Option A) (f : A → Result B) {b : B}
    → (or_panic o >>= f) ≡ ok b
    → (a : A) × (o ≡ some a) × (f a ≡ ok b)
or_panic-eq-ok none f h = cc
or_panic-eq-ok (some a) f h = (a, refl, h)

pub ok-injective {ℓ} : {A : Type ℓ} (a b : A) → ok a ≡ ok b → a ≡ b
ok-injective a b h = ground arith

-- Inversions of one step of a block that panicked: a part that cannot panic did not.
pub >>=-eq-panic {ℓ κ} :
    {A : Type ℓ} {B : Type κ} (m : Result A) (f : A → Result B)
    → m ≢ panic
    → (m >>= f) ≡ panic
    → (a : A) × (f a ≡ panic)
>>=-eq-panic (ok a) f hm h = (a, h)
>>=-eq-panic (err e) f hm h = cc
>>=-eq-panic panic f hm h = absurd (hm refl)

pub or_fail-eq-panic {ℓ κ} :
    {A : Type ℓ} {B : Type κ} (o : Option A) (e : ExecutionError) (f : A → Result B)
    → (or_fail o e >>= f) ≡ panic
    → (a : A) × (f a ≡ panic)
or_fail-eq-panic none e f h = cc
or_fail-eq-panic (some a) e f h = (a, h)

pub fail_if-eq-panic {ℓ} :
    {A : Type ℓ} (b : Bool) (e : ExecutionError) (k : Result A)
    → (fail_if b e >> k) ≡ panic
    → k ≡ panic
fail_if-eq-panic true e k h = cc
fail_if-eq-panic false e k h = h

pub or_fail_map-ne-panic {ℓ κ} :
    {A : Type ℓ} {B : Type κ} (o : Option A) (e : ExecutionError) (g : A → B)
    → (or_fail o e >>= λ a. ok (g a)) ≢ panic
or_fail_map-ne-panic none e g h = cc
or_fail_map-ne-panic (some a) e g h = cc
