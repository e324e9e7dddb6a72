-- ===== src/Api/Token.antt =====
-- `sign`, `verify` and `identity` of main.py. A token is `encoded.signature`.
pub mod Laws
pub mod Genuine
use Prim.Native.Char.{code}
use Prim.Native.String
use text.Mathlib.Text.{◌==◌}
use kavach_ai.Common.{
  ℕ, String, cat, split, starts_with, drop_chars, eqb, Bool, true, false, not, ◌&&◌, ◌||◌, Option,
  none, some, List, [], ◌∷◌, if◌then◌else◌,
}
use kavach_ai.Py.{
  Value, str, Fields, end, field, eq_text, subscript, merge, Error, value_error, type_error,
  attribute_error, runtime_error, other_error, key_error, Result, ok, raised, raise_if,
}
use kavach_ai.Py
use kavach_ai.Api.Reply.{Reply, returned, http_error, crashed, deny_if, escaping, ◌>>=◌, ◌>>◌}
use kavach_ai.Api.Runtime.{Runtime, is_ascii, equal_signs, missing_padding}

-- `s.rstrip("=")`
unfoldable pub rstrip_equals : String → String
rstrip_equals String.[] = ""
rstrip_equals (String.◌∷◌ c s) =
    let rest = rstrip_equals s in if eqb (code c) b'=' && rest == "" then "" else String.◌∷◌ c rest

-- `hmac.compare_digest`: texts with other characters than ASCII are a TypeError
unfoldable pub compare_digest : String → String → Result Bool
compare_digest a b = if is_ascii a && is_ascii b then ok (a == b) else raised type_error

-- an error of a call that the model reports by `none`, as a ValueError
unfoldable pub or_value_error {ℓ} : {A : Type ℓ} → Option A → Result A
or_value_error none = raised (value_error "")
or_value_error (some a) = ok a

-- `encoded, signature = token.split(".")`
unfoldable pub two_parts : List String → Result (String × String)
two_parts (a ∷ b ∷ []) = ok (a, b)
two_parts _ = raised (value_error "unpack")

-- what `verify` turns into a 401: a ValueError, a KeyError or a TypeError
unfoldable pub unauthorized_on_error : Result Value → Reply Value
unauthorized_on_error (ok v) = returned v
unauthorized_on_error (raised attribute_error) = crashed attribute_error
unauthorized_on_error (raised (runtime_error m)) = crashed (runtime_error m)
unauthorized_on_error (raised (other_error name m)) = crashed (other_error name m)
unauthorized_on_error (raised _) = http_error 401 "Invalid synthetic fixture token"

module _ (rt : Runtime) (key : String) where
  unfoldable pub sign : Fields → String → String
  unfolding rstrip_equals
  sign payload kind =
      let raw = rt.dumps (merge (field "kind" (str kind) end) payload) in
      let encoded = rstrip_equals (rt.b64encode raw) in
      cat encoded (String.◌∷◌ "." (rt.hmac_hex key encoded))

  -- the body of the `try`
  unfoldable pub verify_token : String → String → Result Value
  unfolding compare_digest or_value_error two_parts
  verify_token token kind = Py.◌>>=◌ (two_parts (split b'.' token)) λ (encoded, signature).
      Py.◌>>=◌ (compare_digest signature (rt.hmac_hex key encoded)) λ same.
        Py.◌>>◌ (raise_if (not same) (value_error "signature")) (
          Py.◌>>=◌
            (or_value_error (rt.b64decode (cat encoded (equal_signs (missing_padding encoded)))))
            λ raw. Py.◌>>=◌ (rt.loads raw) λ payload. Py.◌>>=◌ (subscript payload "kind") λ found.
              Py.◌>>◌ (raise_if (not (eq_text kind found)) (value_error "kind")) (ok payload))

  unfoldable pub verify : String → String → Reply Value
  unfolding unauthorized_on_error
  verify token kind = unauthorized_on_error (verify_token token kind)

  -- the header is missing or empty, or does not start with "Bearer "
  unfoldable pub identity : Option String → Reply Value
  identity none = http_error 401 "Synthetic bearer token required"
  identity (some authorization) = do
    deny_if (authorization == "" || not (starts_with "Bearer " authorization)) 401
        "Synthetic bearer token required"
    payload ← verify (drop_chars 7 authorization) "session"
    escaping (subscript payload "user")
