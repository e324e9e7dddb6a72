-- ===== src/Api/Reply.antt =====
-- How a handler ends: it returns a value, raises an HTTPException, or lets another exception out.
use kavach_ai.Common.{ℕ, String, Bool, true, false, ◌≡◌, refl}
use kavach_ai.Py.{Error, Result, ok, raised}

pub data Reply {ℓ} (A : Type ℓ) : Type ℓ where
  returned : A → Reply A
  http_error : ℕ → String → Reply A
  crashed : Error → Reply A

infixl 5 ◌>>=◌ ◌>>◌
abbrev pub ◌>>=◌ {ℓ κ} : {A : Type ℓ} {B : Type κ} → Reply A → (A → Reply B) → Reply B
returned a >>= f = f a
http_error status detail >>= f = http_error status detail
crashed e >>= f = crashed e

abbrev pub ◌>>◌ {ℓ κ} : {A : Type ℓ} {B : Type κ} → Reply A → Reply B → Reply B
m >> k = m >>= λ _. k

-- `if test: raise HTTPException(status, detail)`
abbrev pub deny_if : Bool → ℕ → String → Reply (Unit {0})
deny_if true status detail = http_error status detail
deny_if false status detail = returned tt

-- a call whose exceptions nothing here catches
abbrev pub escaping {ℓ} : {A : Type ℓ} → Result A → Reply A
escaping (ok a) = returned a
escaping (raised e) = crashed e

pub >>=-eq-returned {ℓ κ} :
    {A : Type ℓ} {B : Type κ} (m : Reply A) (f : A → Reply B) {b : B}
    → (m >>= f) ≡ returned b
    → (a : A) × (m ≡ returned a) × (f a ≡ returned b)
>>=-eq-returned (returned a) f h = (a, refl, h)
>>=-eq-returned (http_error s d) f h = absurd (cc h)
>>=-eq-returned (crashed e) f h = absurd (cc h)

pub deny_if-eq-returned {ℓ} :
    {B : Type ℓ} (test : Bool) (status : ℕ) (detail : String) (k : Reply B) {b : B}
    → (deny_if test status detail >> k) ≡ returned b
    → (test ≡ false) × (k ≡ returned b)
deny_if-eq-returned true status detail k h = absurd (cc h)
deny_if-eq-returned false status detail k h = (refl, h)

pub escaping_sound {ℓ} : {A : Type ℓ} (r : Result A) {a : A} → escaping r ≡ returned a → r ≡ ok a
escaping_sound (ok a) h = cc
escaping_sound (raised e) h = absurd (cc h)
