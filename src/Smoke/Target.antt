-- ===== src/Smoke/Target.antt =====
-- `validate_target` of scripts/smoke.py. `urlsplit` and the addresses of `ipaddress` are parameters.
use text.Mathlib.Text.{◌==◌}
use Prim.Native.Char.{code}
use kavach_ai.Common.{
  String, eqb, eq_iff, Bool, true, false, not, not-false, or_false, Bool-cases, ◌&&◌, ◌||◌, ◌≡◌,
  refl, ◌⊎◌, inl, inr, if◌then◌else◌,
}
use kavach_ai.Py.{
  value_error, runtime_error, type_error, attribute_error, key_error, other_error, Result, ok,
  raised, raise_if, raise_if-eq-ok, >>=-eq-ok, ◌>>=◌, ◌>>◌,
}

-- the parts of a URL; a part that is missing is the empty text
pub record Url : Type 0 where
  pub scheme : String
  pub username : String
  pub password : String
  pub path : String
  pub query : String
  pub fragment : String
  pub hostname : String

pub record Net : Type 0 where
  pub urlsplit : String → Result Url
  -- `ipaddress.ip_address(host).is_loopback`
  pub is_loopback : String → Result Bool

-- `url.rstrip("/")`
unfoldable pub rstrip_slash : String → String
rstrip_slash String.[] = ""
rstrip_slash (String.◌∷◌ c s) =
    let rest = rstrip_slash s in if eqb (code c) b'/' && rest == "" then "" else String.◌∷◌ c rest

-- not a plain HTTP origin
abbrev pub is_refused : Url → Bool
is_refused u =
    not (u.scheme == "http")
    || not (u.username == "")
    || not (u.password == "")
    || not (u.path == "" || u.path == "/")
    || not (u.query == "")
    || not (u.fragment == "")

-- the inner `try`: a ValueError of the address gets the message of this check
abbrev pub check_loopback : Result Bool → Result (Unit {0})
check_loopback (ok true) = ok tt
check_loopback (ok false) = raised (value_error "Target must be a literal loopback IP")
check_loopback (raised (value_error m)) =
    raised (value_error "Target must be a literal loopback IP")
check_loopback (raised e) = raised e

unfoldable pub validate_target : Net → String → Result String
unfolding rstrip_slash
validate_target net url = do
  parsed ← net.urlsplit url
  raise_if (is_refused parsed)
      (value_error "Use a plain HTTP loopback origin without credentials or path")
  check_loopback (net.is_loopback parsed.hostname)
  ok (rstrip_slash url)

-- a plain HTTP origin at a loopback address
pub record IsTarget (net : Net) (url : String) : Type 0 where
  pub parts : Url
  pub are_parts : net.urlsplit url ≡ ok parts
  pub is_http : parts.scheme ≡ "http"
  pub no_username : parts.username ≡ ""
  pub no_password : parts.password ≡ ""
  pub no_path : (parts.path ≡ "") ⊎ (parts.path ≡ "/")
  pub no_query : parts.query ≡ ""
  pub no_fragment : parts.fragment ≡ ""
  pub is_loopback : net.is_loopback parts.hostname ≡ ok true

empty_text : (s t : String) → not (s == t) ≡ false → s ≡ t
empty_text s t h = (eq_iff s t).0 (not-false (s == t) h)

check_loopback_sound : (r : Result Bool) {x : Unit {0}} → check_loopback r ≡ ok x → r ≡ ok true
check_loopback_sound (ok true) h = refl
check_loopback_sound (ok false) h = absurd (cc h)
check_loopback_sound (raised (value_error m)) h = absurd (cc h)
check_loopback_sound (raised (runtime_error m)) h = absurd (cc h)
check_loopback_sound (raised type_error) h = absurd (cc h)
check_loopback_sound (raised attribute_error) h = absurd (cc h)
check_loopback_sound (raised key_error) h = absurd (cc h)
check_loopback_sound (raised (other_error n m)) h = absurd (cc h)

path_cases : (path : String) → not (path == "" || path == "/") ≡ false → (path ≡ "") ⊎ (path ≡ "/")
path_cases path h = elim (Bool-cases (path == "")) [
  | inl empty ↦ inl ((eq_iff path "").0 empty)
  | inr other ↦ inr ((eq_iff path "/").0 (rw other at (not-false (path == "" || path == "/") h)))
]

pub validate_target-IsTarget :
    (net : Net) (url : String) {target : String}
    → validate_target net url ≡ ok target
    → IsTarget net url
unfolding validate_target
validate_target-IsTarget net url h =
    let (parts, are_parts, h1) = >>=-eq-ok (net.urlsplit url) _ h in
    let (plain, h2) = raise_if-eq-ok (is_refused parts) _ _ h1 in
    let (_, loopback, h3) = >>=-eq-ok (check_loopback (net.is_loopback parts.hostname)) _ h2 in
    let (p5, fragment) = or_false _ (not (parts.fragment == "")) plain in
    let (p4, query) = or_false _ (not (parts.query == "")) p5 in
    let (p3, path) = or_false _ _ p4 in
    let (p2, password) = or_false _ (not (parts.password == "")) p3 in
    let (scheme, username) =
      or_false (not (parts.scheme == "http")) (not (parts.username == "")) p2 in
    record {
      parts = parts;
      are_parts = are_parts;
      is_http = empty_text _ _ scheme;
      no_username = empty_text _ _ username;
      no_password = empty_text _ _ password;
      no_path = path_cases parts.path path;
      no_query = empty_text _ _ query;
      no_fragment = empty_text _ _ fragment;
      is_loopback = check_loopback_sound _ loopback;
    }
