-- ===== src/Api/Token/Genuine.antt =====
-- What a token must be for `verify` to accept it.
use text.Mathlib.Text.{◌==◌}
use kavach_ai.Common.{
  String, ◌≢◌, cat, split, Bool, false, not, not-false, ◌≡◌, refl, Option, none, some, List, [],
  ◌∷◌, eq_iff, arith, Bool-cases, inl, inr, ◌&&◌,
}
use kavach_ai.Py.{
  Value, str, dict, Fields, lookup, eq_text, eq_text_sound, subscript, subscript_sound, Result, ok,
  raised, value_error, raise_if-eq-ok, >>=-eq-ok, raise_if, ◌>>=◌, ◌>>◌, Error, type_error,
  attribute_error, runtime_error, other_error, key_error,
}
use kavach_ai.Api.Reply.{returned, crashed}
use kavach_ai.Api.Runtime.{Runtime, is_ascii, equal_signs, missing_padding}
use kavach_ai.Api.Token.{
  compare_digest, or_value_error, two_parts, unauthorized_on_error, verify_token, verify,
}

-- The token is a text and its HMAC under the key, around one dot, and the text decodes to a dict of
-- the kind.
pub record IsGenuine (rt : Runtime) (key token kind : String) (d : Fields) : Type 0 where
  pub encoded : String
  pub parts : split b'.' token ≡ encoded ∷ rt.hmac_hex key encoded ∷ []
  pub raw : String
  pub decoded : rt.b64decode (cat encoded (equal_signs (missing_padding encoded))) ≡ some raw
  pub loaded : rt.loads raw ≡ ok (dict d)
  pub kind_is : lookup "kind" d ≡ some (str kind)

two_parts_sound : (ps : List String) {a b : String} → two_parts ps ≡ ok (a, b) → ps ≡ a ∷ b ∷ []
unfolding two_parts
two_parts_sound [] h = absurd (cc h)
two_parts_sound (p ∷ []) h = absurd (cc h)
two_parts_sound (p ∷ q ∷ []) h = ground arith
two_parts_sound (p ∷ q ∷ r ∷ ps) h = absurd (cc h)

compare_digest_sound :
    (a b : String) {same : Bool} → compare_digest a b ≡ ok same → not same ≡ false → a ≡ b
unfolding compare_digest
compare_digest_sound a b h k = ground (arith, eq_iff a b)

or_value_error_sound {ℓ} :
    {A : Type ℓ} (o : Option A) {a : A} → or_value_error o ≡ ok a → o ≡ some a
unfolding or_value_error
or_value_error_sound none h = absurd (cc h)
or_value_error_sound (some a) h = cc

unauthorized_on_error_sound :
    (r : Result Value) {v : Value} → unauthorized_on_error r ≡ returned v → r ≡ ok v
unfolding unauthorized_on_error
unauthorized_on_error_sound (ok v) h = cc
unauthorized_on_error_sound (raised (value_error m)) h = absurd (cc h)
unauthorized_on_error_sound (raised (runtime_error m)) h = absurd (cc h)
unauthorized_on_error_sound (raised (other_error name m)) h = absurd (cc h)
unauthorized_on_error_sound (raised type_error) h = absurd (cc h)
unauthorized_on_error_sound (raised attribute_error) h = absurd (cc h)
unauthorized_on_error_sound (raised key_error) h = absurd (cc h)

-- A token that verify accepts holds the HMAC under the service's key of its first part, which
-- decodes to a dict of the kind asked for; that dict is what verify returns.
pub verify-IsGenuine :
    (rt : Runtime) (key token kind : String) (v : Value)
    → verify rt key token kind ≡ returned v
    → (d : Fields) × (v ≡ dict d) × IsGenuine rt key token kind d
unfolding verify verify_token
verify-IsGenuine rt key token kind v h =
    let h0 = unauthorized_on_error_sound _ h in
    let (pair, parted, h1) = >>=-eq-ok (two_parts (split b'.' token)) _ h0 in
    let (same, compared, h2) = >>=-eq-ok (compare_digest pair.1 (rt.hmac_hex key pair.0)) _ h1 in
    let (signed, h3) = raise_if-eq-ok (not same) _ _ h2 in
    let encoded = pair.0 in
    let (raw, decoded, h4) =
      >>=-eq-ok
        (or_value_error (rt.b64decode (cat encoded (equal_signs (missing_padding encoded))))) _
        h3 in
    let (payload, loaded, h5) = >>=-eq-ok (rt.loads raw) _ h4 in
    let (found, has_kind, h6) = >>=-eq-ok (subscript payload "kind") _ h5 in
    let (kinds, h7) = raise_if-eq-ok (not (eq_text kind found)) _ _ h6 in
    let (d, is_dict, at_kind) = subscript_sound payload "kind" has_kind in
    let genuine = compare_digest_sound pair.1 (rt.hmac_hex key pair.0) compared signed in
    (
      d,
      cc (h7, is_dict),
      record {
        encoded = encoded;
        parts = rw (← genuine) (two_parts_sound _ parted);
        raw = raw;
        decoded = or_value_error_sound _ decoded;
        loaded = rw is_dict at loaded;
        kind_is = rw (eq_text_sound kind found (not-false _ kinds)) at at_kind;
      },
    )

-- The token is a text and its HMAC under the key, around one dot, and json.loads raises `e` for what the
-- text decodes to.
pub record IsUnreadable (rt : Runtime) (key token : String) (e : Error) : Type 0 where
  pub encoded : String
  pub parts : split b'.' token ≡ encoded ∷ rt.hmac_hex key encoded ∷ []
  pub raw : String
  pub decoded : rt.b64decode (cat encoded (equal_signs (missing_padding encoded))) ≡ some raw
  pub raises : rt.loads raw ≡ raised e

raised_of_crashed :
    (r : Result Value) {e : Error} → unauthorized_on_error r ≡ crashed e → r ≡ raised e
unfolding unauthorized_on_error
raised_of_crashed (ok v) h = absurd (cc h)
raised_of_crashed (raised (value_error m)) h = absurd (cc h)
raised_of_crashed (raised (runtime_error m)) h = cc h
raised_of_crashed (raised (other_error name m)) h = cc h
raised_of_crashed (raised type_error) h = absurd (cc h)
raised_of_crashed (raised attribute_error) h = cc h
raised_of_crashed (raised key_error) h = absurd (cc h)

module _ (rt : Runtime) (key kind : String) (e : Error) where
  -- what follows `json.loads`
  abbrev checked : Value → Result Value
  checked payload = subscript payload "kind" >>= λ found.
      raise_if (not (eq_text kind found)) (value_error "kind") >> ok payload

  -- nothing else that is raised after `json.loads` leaves `verify`
  checked_caught : (payload : Value) → unauthorized_on_error (checked payload) ≢ crashed e
  unfolding unauthorized_on_error subscript
  checked_caught payload = ground arith

  loads-crashed :
      (r : Result Value) → unauthorized_on_error (r >>= checked) ≡ crashed e → r ≡ raised e
  loads-crashed (ok payload) h = absurd (checked_caught payload h)
  loads-crashed (raised x) h = cc (raised_of_crashed (raised x) h)

  decoded-crashed :
      (o : Option String)
      → unauthorized_on_error (or_value_error o >>= λ raw. rt.loads raw >>= checked) ≡ crashed e
      → (raw : String) × (o ≡ some raw) × (rt.loads raw ≡ raised e)
  unfolding or_value_error unauthorized_on_error
  decoded-crashed none h = absurd (cc h)
  decoded-crashed (some raw) h = (raw, refl, loads-crashed (rt.loads raw) h)

  compared-crashed :
      (a b : String) (next : Bool → Result Value)
      → unauthorized_on_error (compare_digest a b >>= next) ≡ crashed e
      → unauthorized_on_error (next (a == b)) ≡ crashed e
  unfolding compare_digest unauthorized_on_error
  compared-crashed a b next h = elim (Bool-cases (is_ascii a && is_ascii b)) [
    | inl ascii ↦ rw ascii at h
    | inr other ↦ absurd (cc (rw other at h))
  ]

  signed-crashed :
      (a b : String) (next : Result Value)
      → unauthorized_on_error (raise_if (not (a == b)) (value_error "signature") >> next)
        ≡ crashed e
      → (a ≡ b) × (unauthorized_on_error next ≡ crashed e)
  unfolding unauthorized_on_error
  signed-crashed a b next h = elim (Bool-cases (a == b)) [
    | inl same ↦ ((eq_iff a b).0 same, rw same at h)
    | inr other ↦ absurd (cc (rw other at h))
  ]

  parted-crashed :
      (token : String) (parts : List String)
      → split b'.' token ≡ parts
      → unauthorized_on_error (
          two_parts parts >>= λ (encoded, signature).
          compare_digest signature (rt.hmac_hex key encoded) >>= λ same.
          raise_if (not same) (value_error "signature")
          >> (or_value_error (rt.b64decode (cat encoded (equal_signs (missing_padding encoded))))
              >>= λ raw. rt.loads raw >>= checked))
        ≡ crashed e
      → IsUnreadable rt key token e
  unfolding two_parts unauthorized_on_error
  parted-crashed token [] split_is h = absurd (cc h)
  parted-crashed token (p ∷ []) split_is h = absurd (cc h)
  parted-crashed token (p ∷ q ∷ r ∷ parts) split_is h = absurd (cc h)
  parted-crashed token (p ∷ q ∷ []) split_is h =
      let (genuine, h1) =
        signed-crashed q (rt.hmac_hex key p) _ (compared-crashed q (rt.hmac_hex key p) _ h) in
      let (raw, decoded, raises) =
        decoded-crashed (rt.b64decode (cat p (equal_signs (missing_padding p)))) h1 in
      record {
        encoded = p;
        parts = rw genuine at split_is;
        raw = raw;
        decoded = decoded;
        raises = raises;
      }

-- An exception other than its 401 leaves verify only for a token that holds the HMAC under the service's
-- key of its first part, and is the one that json.loads raises for what this part decodes to.
pub verify-IsUnreadable :
    (rt : Runtime) (key token kind : String) (e : Error)
    → verify rt key token kind ≡ crashed e
    → IsUnreadable rt key token e
unfolding verify verify_token
verify-IsUnreadable rt key token kind e h =
    parted-crashed rt key kind e token (split b'.' token) refl h
