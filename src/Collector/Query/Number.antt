-- ===== src/Collector/Query/Number.antt =====
-- What `prom_query` answers.
use kavach_ai.Common.{
  Float, eqb, Bool, true, false, not, ◌≡◌, refl, Option, none, if◌then◌else◌, eqb_iff, not-false,
  inl, inr, ◌⊎◌, ◌↔◌,
}
use kavach_ai.Py.{
  Value, str, eq_text, eq_text_sound, truthy, len, element, get_of, subscript, Result, ok,
  raise_if-eq-ok, >>=-eq-ok,
}
use kavach_ai.Collector.Query.{Response, finite_only, single, prom_query}

-- the result holds exactly one sample, whose value is read as the number x
pub record IsSample (to_float : Value → Result Float) (result : Value) (x : Float) : Type 0 where
  pub one : len result ≡ ok 1
  pub sample : Value
  pub first : element result 0 ≡ ok sample
  pub pair : Value
  pub value : subscript sample "value" ≡ ok pair
  pub text : Value
  pub second : element pair 1 ≡ ok text
  pub read : to_float text ≡ ok x

-- the answer is a success with this result
pub record HasResult (response : Response) (result : Value) : Type 0 where
  pub fetched : response.fetched ≡ ok tt
  pub payload : Value
  pub json : response.json ≡ ok payload
  pub success : get_of payload "status" ≡ ok (str "success")
  pub found : Value
  pub inside : subscript payload "data" ≡ ok found
  pub is_result : subscript found "result" ≡ ok result

-- what the query answers for a result
abbrev pub Answers : (Value → Result Float) → Value → Option Float → Type 0
Answers to_float result answer =
    ((truthy result ≡ false) × (answer ≡ none))
    ⊎ ((truthy result ≡ true) × (x : Float) × (answer ≡ finite_only x) × IsSample to_float result x)

single_sound :
    (to_float : Value → Result Float) (result : Value) (answer : Option Float)
    → single to_float result ≡ ok answer
    → (x : Float) × (answer ≡ finite_only x) × IsSample to_float result x
unfolding single
single_sound to_float result answer h =
    let (n, counted, h1) = >>=-eq-ok (len result) _ h in
    let (is_one, h2) = raise_if-eq-ok (not (eqb n 1)) _ _ h1 in
    let (sample, first, h3) = >>=-eq-ok (element result 0) _ h2 in
    let (pair, value, h4) = >>=-eq-ok (subscript sample "value") _ h3 in
    let (text, second, h5) = >>=-eq-ok (element pair 1) _ h4 in
    let (x, read, h6) = >>=-eq-ok (to_float text) _ h5 in
    let same : n ≡ 1 = (eqb_iff n 1).0 (not-false (eqb n 1) is_one) in
    (
      x,
      cc h6,
      record {
        one = rw same at counted;
        sample = sample;
        first = first;
        pair = pair;
        value = value;
        text = text;
        second = second;
        read = read;
      },
    )

single_complete :
    (to_float : Value → Result Float) (result : Value) (x : Float)
    → IsSample to_float result x
    → single to_float result ≡ ok (finite_only x)
unfolding single
single_complete to_float result x h = rw (h.one, h.first, h.value, h.second, h.read) refl

either_sound :
    (b : Bool) (next : Result (Option Float)) (answer : Option Float)
    → (if b then next else ok none) ≡ ok answer
    → ((b ≡ false) × (answer ≡ none)) ⊎ ((b ≡ true) × (next ≡ ok answer))
either_sound false next answer h = inl (refl, cc h)
either_sound true next answer h = inr (refl, h)

-- A query returns an answer exactly when the request and its JSON succeed and the payload is a success
-- with a result in it, where the answer is None for an empty result, and for any other, which must
-- then hold one sample, the number of the sample, or None if that is not finite.
pub prom_query_iff :
    (to_float : Value → Result Float) (response : Response) (answer : Option Float)
    → (prom_query to_float response ≡ ok answer)
      ↔ ((result : Value) × HasResult response result × Answers to_float result answer)
unfolding prom_query
prom_query_iff to_float response answer = (
  λ h.
      let (_, fetched, h1) = >>=-eq-ok response.fetched _ h in
      let (payload, json, h2) = >>=-eq-ok response.json _ h1 in
      let (status, is_status, h3) = >>=-eq-ok (get_of payload "status") _ h2 in
      let (success, h4) = raise_if-eq-ok (not (eq_text "success" status)) _ _ h3 in
      let (found, inside, h5) = >>=-eq-ok (subscript payload "data") _ h4 in
      let (result, is_result, h6) = >>=-eq-ok (subscript found "result") _ h5 in
      (
        result,
        record {
          fetched = cc fetched;
          payload = payload;
          json = json;
          success = rw (eq_text_sound "success" status (not-false _ success)) at is_status;
          found = found;
          inside = inside;
          is_result = is_result;
        },
        answered result (either_sound (truthy result) (single to_float result) answer h6),
      ),
  λ (result, has, answers). accepted result has answers,
)
  where
    answered :
        (result : Value)
        → ((truthy result ≡ false) × (answer ≡ none))
          ⊎ ((truthy result ≡ true) × (single to_float result ≡ ok answer))
        → Answers to_float result answer
    answered result (inl h) = inl h
    answered result (inr (t, h)) =
        let (x, a, s) = single_sound to_float result answer h in inr (t, x, a, s)

    accepted :
        (result : Value)
        → HasResult response result
        → Answers to_float result answer
        → prom_query to_float response ≡ ok answer
    accepted result has (inl (t, a)) =
        rw (has.fetched, has.json, has.success, has.inside, has.is_result, t, a) refl
    accepted result has (inr (t, x, a, s)) =
        rw (has.fetched, has.json, has.success, has.inside, has.is_result, t, a)
          (single_complete to_float result x s)
