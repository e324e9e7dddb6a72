-- ===== src/Api/Runtime.antt =====
-- What the service calls and does not implement: HMAC-SHA256, SHA-256, JSON, base64 and the division
-- of ints. `IsRuntime` states what their documentation promises.
use Prim.Native.Char.{code}
use kavach_ai.Common.{
  ℕ, ◌≤◌, ◌<◌, String, cat, chars, Lacks, pos, Float, finite, lt_float, Bool, true, false, ◌≡◌,
  List, Option, some, All, ◌&&◌, ltb, ◌-◌, ◌%◌, zero, suc, ◌^◌,
}
use kavach_ai.Api.Bodies.{repeats, is_digit}
use kavach_ai.Py.{Value, str, int, dict, Fields, values, lookup, HasUniqueKeys, Result, ok}
use kavach_ai.Api.Reply.{Reply}

-- every character is one of the first 128
abbrev pub is_ascii : String → Bool
is_ascii String.[] = true
is_ascii (String.◌∷◌ c s) = ltb (code c) 128 && is_ascii s

-- `"=" * n`
unfoldable pub equal_signs : ℕ → String
equal_signs zero = ""
equal_signs (suc n) = String.◌∷◌ "=" (equal_signs n)

-- `-len(encoded) % 4`
abbrev pub missing_padding : String → ℕ
missing_padding s = (4 - chars s % 4) % 4

-- values that JSON keeps as they are
abbrev pub IsScalar : Value → Type 0
IsScalar (str s) = Unit
IsScalar (int n) = Unit
IsScalar _ = ⊥

-- the two dicts hold the same keys and values
abbrev pub SameDict : Fields → Fields → Type 0
SameDict d e = (k : String) → lookup k d ≡ lookup k e

pub record Runtime : Type 0 where
  -- `hmac.new(key, message, sha256).hexdigest()`
  pub hmac_hex : String → String → String
  -- `hashlib.sha256(...).digest()`, as a list of bytes
  pub sha256 : String → List ℕ
  -- `json.dumps(d, sort_keys=True, separators=(",", ":"))`, and `json.loads`, which may raise other
  -- exceptions than a ValueError, such as a RecursionError
  pub dumps : Fields → String
  pub loads : String → Result Value
  -- `base64.urlsafe_b64encode` and `urlsafe_b64decode`, where `none` is a
  -- ValueError
  pub b64encode : String → String
  pub b64decode : String → Option String
  -- `m / n` for ints, as a double
  pub divide : ℕ → ℕ → Float
  -- `str(n)`, and `f"{v}"` for a value that is no text
  pub decimal : ℕ → String
  pub format : Value → String
  -- what FastAPI answers, by method and path, where the path is of none of the routes of main.py: its
  -- own pages of documentation, the redirection of a path with a slash at its end, a 404
  pub elsewhere : String → String → Reply Value

pub record IsRuntime (rt : Runtime) : Type 0 where
  pub hmac_dotless : (key message : String) → Lacks b'.' (rt.hmac_hex key message)
  pub hmac_slashless : (key message : String) → Lacks b'/' (rt.hmac_hex key message)
  pub hmac_ascii : (key message : String) → is_ascii (rt.hmac_hex key message) ≡ true
  -- a base64 text is a body of letters, digits, `-` and `_`, padded with `=` to a multiple of 4
  pub b64body : String → String
  pub b64encode_lem :
      (s : String) → rt.b64encode s ≡ cat (b64body s) (equal_signs (missing_padding (b64body s)))
  pub b64body_unpadded : (s : String) → Lacks b'=' (b64body s)
  pub b64body_dotless : (s : String) → Lacks b'.' (b64body s)
  pub b64body_slashless : (s : String) → Lacks b'/' (b64body s)
  pub b64decode-b64encode : (s : String) → rt.b64decode (rt.b64encode s) ≡ some s
  -- a dict of texts and ints comes back from JSON with the same items
  pub loads-dumps :
      (d : Fields)
      → HasUniqueKeys d
      → All IsScalar (values d)
      → (e : Fields) × (rt.loads (rt.dumps d) ≡ ok (dict e)) × SameDict e d
  -- a number below 10 ^ k is written with at most k digits, and at least one
  pub decimal_digits : (n k : ℕ) → 1 ≤ k → n < 10 ^ k → repeats is_digit 1 k (rt.decimal n) ≡ true
  pub divide_nonneg : (m n : ℕ) → lt_float (rt.divide m n) (finite (pos 0)) ≡ false
