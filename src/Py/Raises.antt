-- ===== src/Py/Raises.antt =====
-- Calls that may raise: a result, or the exception that leaves the call.
use Prim.Native.String
use kavach_ai.Common.{Bool, true, false, String, ◌≡◌, refl}

pub data Error : Type 0 where
  value_error runtime_error : String → Error
  type_error attribute_error key_error : Error
  -- an exception of another class, by the class's name
  other_error : (name message : String) → Error

pub data Result {ℓ} (A : Type ℓ) : Type ℓ where
  ok : A → Result A
  raised : Error → Result A

infixl 5 ◌>>=◌ ◌>>◌
abbrev pub ◌>>=◌ {ℓ κ} : {X : Type ℓ} {Y : Type κ} → Result X → (X → Result Y) → Result Y
raised e >>= next = raised e
ok x >>= next = next x

abbrev pub ◌>>◌ {ℓ κ} : {X : Type ℓ} {Y : Type κ} → Result X → Result Y → Result Y
r >> rest = r >>= λ _. rest

-- `if test: raise error`
abbrev pub raise_if : Bool → Error → Result (Unit {0})
raise_if true e = raised e
raise_if false e = ok tt

pub >>=-eq-ok {ℓ κ} :
    {X : Type ℓ} {Y : Type κ} (r : Result X) (next : X → Result Y) {y : Y}
    → (r >>= next) ≡ ok y
    → (x : X) × (r ≡ ok x) × (next x ≡ ok y)
>>=-eq-ok (raised e) next h = cc
>>=-eq-ok (ok x) next h = (x, refl, h)

-- Code past a guard runs exactly when the guard's test fails.
pub raise_if-eq-ok {ℓ} :
    {B : Type ℓ} (test : Bool) (e : Error) (k : Result B) {b : B}
    → (raise_if test e >> k) ≡ ok b
    → (test ≡ false) × (k ≡ ok b)
raise_if-eq-ok true e k h = absurd (cc h)
raise_if-eq-ok false e k h = (refl, h)

pub ok_injective {ℓ} : {A : Type ℓ} {x y : A} → ok x ≡ ok y → x ≡ y
ok_injective h = cc h

pub raise_if-ok : (b : Bool) (e : Error) {x : Unit {0}} → raise_if b e ≡ ok x → b ≡ false
raise_if-ok true e h = absurd (cc h)
raise_if-ok false e h = refl

-- `f"{type(exc).__name__}: {exc}"`; the messages of the three that carry none here are left out
abbrev pub describe : Error → String
describe (value_error m) = String.◌++◌ "ValueError: " m
describe (runtime_error m) = String.◌++◌ "RuntimeError: " m
describe type_error = "TypeError: "
describe attribute_error = "AttributeError: "
describe key_error = "KeyError: "
describe (other_error name m) = String.◌++◌ name (String.◌++◌ ": " m)
