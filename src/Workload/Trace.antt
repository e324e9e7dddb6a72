-- ===== src/Workload/Trace.antt =====
-- `compile_trace` of workload/trace.py. The offset of a row, `elapsed + second + slot / rps`, is kept by
-- its operands; `Format.offset` in `Rows` is the double that Python makes of them, of which nothing is
-- assumed.
pub mod Rows
pub mod Schedule
pub mod Spacing
pub mod Extends
pub mod Weights
pub mod Compiled
pub mod Offered
use kavach_ai.Common.{
  ℕ, zero, suc, ◌+◌, String, ℤ, pos, pos_part, Bool, true, false, List, [], ◌∷◌, ◌++◌, map, length,
  Option, none, some,
}
use kavach_ai.Py.{
  Value, bool, int, list, dict, Items, Fields, items, lookup, subscript, Result, ok, raised,
  key_error, type_error, ◌>>=◌, ◌>>◌,
}
use kavach_ai.Workload.Config.{endpoints, int_value, validate_config}
use kavach_ai.Workload.Rng.{Rng}

-- the operands of `whole + slot / rps`, where `whole` is `elapsed + second`
pub record Offset : Type 0 where
  pub whole : ℕ
  pub slot : ℕ
  pub rps : ℕ

pub record Row : Type 0 where
  pub sequence : ℕ
  pub offset : Offset
  pub endpoint : String
  pub user : ℕ
  pub amount_minor : ℕ
  pub label : Value

-- the number of rounds of `for _ in range(v)`
unfoldable pub rounds : Value → Result ℕ
rounds (int n) = ok (pos_part n)
rounds (bool true) = ok 1
rounds (bool false) = ok 0
rounds _ = raised type_error

-- the elements that `for _ in v` visits
unfoldable pub iterate : Value → Result (List Value)
iterate (list vs) = ok (items vs)
iterate _ = raised type_error

-- `[config["request_mix"][name] for name in names]`
unfoldable pub weights_from : Value → List String → Result (List ℕ)
weights_from mix [] = ok []
weights_from mix (name ∷ names) = do
  w ← subscript mix name
  ws ← weights_from mix names
  ok (pos_part (int_value w) ∷ ws)

module _ (r : Rng) where
  open r use {State, seeded, choice, randrange}

  -- the rows so far and the generator's state
  abbrev pub Run : Type 0
  Run = List Row × State

  -- the body of the innermost loop
  unfoldable pub append_row : List ℕ → Value → Offset → Run → Run
  append_row weights label offset (rows, s) =
      let (endpoint, s1) = choice endpoints weights s in
      let (user, s2) = randrange 1 101 s1 in
      let (amount, s3) = randrange 100 10001 s2 in
      (
        rows
            ++ record {
              sequence = length rows;
              offset = offset;
              endpoint = endpoint;
              user = user;
              amount_minor = amount;
              label = label;
            }
              ∷ [],
        s3,
      )

  -- `for slot in range(rps)`, from `slot` on, with the rounds left in front
  unfoldable pub run_slots : (left slot : ℕ) → List ℕ → Value → (whole rps : ℕ) → Run → Run
  run_slots zero slot weights label whole rps run = run
  run_slots (suc left) slot weights label whole rps run =
      run_slots left (suc slot) weights label whole rps
        (append_row weights label (record { whole = whole; slot = slot; rps = rps }) run)

  -- `for second in range(duration_s)`; `whole` is `elapsed + second`
  unfoldable pub run_seconds : (left whole : ℕ) → List ℕ → Value → (rps : ℕ) → Run → Run
  run_seconds zero whole weights label rps run = run
  run_seconds (suc left) whole weights label rps run =
      run_seconds left (suc whole) weights label rps (run_slots rps 0 weights label whole rps run)

  -- `for stage in config["stages"]`
  unfoldable pub run_stages : List ℕ → ℕ → List Value → Run → Result Run
  run_stages weights elapsed [] run = ok run
  run_stages weights elapsed (stage ∷ stages) run = do
    d ← subscript stage "duration_s"
    duration ← rounds d
    q ← subscript stage "rps"
    rps ← rounds q
    label ← subscript stage "label"
    run_stages weights (elapsed + duration) stages
        (run_seconds duration elapsed weights label rps run)

  unfoldable pub compile_trace : Fields → Result (List Row)
  compile_trace config = do
    validate_config config
    seed ← subscript (dict config) "seed"
    mix ← subscript (dict config) "request_mix"
    weights ← weights_from mix endpoints
    listed ← subscript (dict config) "stages"
    stages ← iterate listed
    run ← run_stages weights 0 stages ([], seeded (int_value seed))
    ok run.0
