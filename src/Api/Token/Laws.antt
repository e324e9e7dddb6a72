-- ===== src/Api/Token/Laws.antt =====
-- Signing and verifying: the round trip, and what an accepted token must be.
use Prim.Native.Char.{code}
use Prim.Native.String.{[], ◌∷◌}
use text.Mathlib.Text.{◌==◌}
use text.Mathlib.TextLemmas.{nil-append, cons-append}
use kavach_ai.Common.{
  ℕ, zero, suc, String, cat, split-cat, Lacks, Lacks-cat, true, ◌≡◌, ◌≢◌, refl, ap, ◌∙◌, none, some,
  All, if◌then◌else◌, eq_iff, eq_refl, arith,
}
use kavach_ai.Py.{
  str, dict, Fields, end, field, values, lookup, HasUniqueKeys, subscript_found, merge, merge-All,
  merge-HasUniqueKeys, lookup-merge, first_some, ok, raised, value_error,
}
use kavach_ai.Api.Reply.{returned, http_error}
use kavach_ai.Api.Runtime.{
  Runtime, IsRuntime, is_ascii, equal_signs, missing_padding, IsScalar, SameDict,
}
use kavach_ai.Api.Token.{rstrip_equals, compare_digest, sign, verify_token, verify}

rstrip_equal_signs : (n : ℕ) → rstrip_equals (equal_signs n) ≡ ""
unfolding rstrip_equals equal_signs
rstrip_equal_signs zero = refl
rstrip_equal_signs (suc n) = rw (rstrip_equal_signs n) refl

-- stripping the padding gives the body back
pub rstrip-cat : (s : String) (n : ℕ) → Lacks b'=' s → rstrip_equals (cat s (equal_signs n)) ≡ s
unfolding rstrip_equals
rstrip-cat [] n h = rw nil-append (rstrip_equal_signs n)
rstrip-cat (c ∷ s) n (p, h) = rw cons-append (ground (arith, rstrip-cat s n h))

-- what `sign` puts into a token
abbrev pub stamped : Fields → String → Fields
stamped payload kind = merge (field "kind" (str kind) end) payload

-- a payload that `sign` keeps as it is: each key once, texts and ints, and no "kind" of its own
pub record IsPayload (payload : Fields) : Type 0 where
  pub unique : HasUniqueKeys payload
  pub scalars : All IsScalar (values payload)
  pub kindless : lookup "kind" payload ≡ none

lookup-kind-stamped :
    (payload : Fields) (kind : String)
    → IsPayload payload
    → lookup "kind" (stamped payload kind) ≡ some (str kind)
unfolding lookup
lookup-kind-stamped payload kind h =
    lookup-merge "kind" (field "kind" (str kind) end) payload h.unique
    ∙ ap (λ o. first_some o (some (str kind))) h.kindless

stamped-HasUniqueKeys : (payload : Fields) (kind : String) → HasUniqueKeys (stamped payload kind)
stamped-HasUniqueKeys payload kind =
    merge-HasUniqueKeys (field "kind" (str kind) end) payload (unfold lookup in refl, tt)

compare_digest_self : (s : String) → is_ascii s ≡ true → compare_digest s s ≡ ok true
unfolding compare_digest
compare_digest_self s h = rw (h, eq_refl s) refl

dot_ne_slash : code "." ≢ b'/'
dot_ne_slash = omega arith

-- what `sign` encodes is the body of the base64 text
pub encoded_lem :
    (rt : Runtime) (laws : IsRuntime rt) (raw : String)
    → rstrip_equals (rt.b64encode raw) ≡ laws.b64body raw
encoded_lem rt laws raw =
    let body = laws.b64body raw in
    rw laws.b64encode_lem (rstrip-cat body (missing_padding body) (laws.b64body_unpadded raw))

module _ (rt : Runtime) (laws : IsRuntime rt) (key : String) where
  -- A signed token can stand in a path.
  pub sign-Lacks_slash : (payload : Fields) (kind : String) → Lacks b'/' (sign rt key payload kind)
  unfolding sign
  sign-Lacks_slash payload kind =
      let raw = rt.dumps (stamped payload kind) in
      rw (encoded_lem rt laws raw) (
        Lacks-cat b'/' (laws.b64body raw) _ (laws.b64body_slashless raw)
          (dot_ne_slash, laws.hmac_slashless key (laws.b64body raw)))

  -- The body of `verify` at a token that `sign` has made, up to the test of the kind.
  verify_token-sign :
      (payload : Fields) (kind kind' : String)
      → IsPayload payload
      → (d : Fields) × SameDict d (stamped payload kind)
        × (verify_token rt key (sign rt key payload kind) kind'
            ≡ (if kind' == kind then ok (dict d) else raised (value_error "kind")))
  unfolding verify_token sign
  verify_token-sign payload kind kind' h =
      let raw = rt.dumps (stamped payload kind) in
      let body = laws.b64body raw in
      let stripped : rstrip_equals (rt.b64encode raw) ≡ body = encoded_lem rt laws raw in
      let (d, loaded, same) =
        laws.loads-dumps (stamped payload kind) (stamped-HasUniqueKeys payload kind)
          (merge-All IsScalar (field "kind" (str kind) end) payload (tt, tt) h.scalars) in
      let decoded : rt.b64decode (cat body (equal_signs (missing_padding body))) ≡ some raw =
        rw laws.b64encode_lem at (laws.b64decode-b64encode raw) in
      let kind_is = same "kind" ∙ lookup-kind-stamped payload kind h in
      (
        d,
        same,
        rw
            (
              stripped,
              split-cat "." body (rt.hmac_hex key body) (laws.b64body_dotless raw)
                  (laws.hmac_dotless key body),
              compare_digest_self _ (laws.hmac_ascii key body),
              decoded,
              loaded,
              subscript_found d "kind" kind_is,
            )
            (ground arith),
      )

  -- A token that sign makes of a payload of texts and ints, which holds each key once and no "kind",
  -- is accepted under its own kind, and gives back a dict with the payload's items and the kind.
  pub verify-sign :
      (payload : Fields) (kind : String)
      → IsPayload payload
      → (d : Fields) × (verify rt key (sign rt key payload kind) kind ≡ returned (dict d))
        × SameDict d (stamped payload kind)
  unfolding verify
  verify-sign payload kind h =
      let (d, same, e) = verify_token-sign payload kind kind h in
      (d, rw (e, eq_refl kind) refl, same)

  -- Such a token is refused with a 401 under any other kind.
  pub verify-sign_other :
      (payload : Fields) (kind kind' : String)
      → IsPayload payload
      → kind ≢ kind'
      → verify rt key (sign rt key payload kind) kind'
        ≡ http_error 401 "Invalid synthetic fixture token"
  unfolding verify
  verify-sign_other payload kind kind' h ne =
      let (d, same, e) = verify_token-sign payload kind kind' h in
      rw e (ground (arith, eq_iff kind' kind))
