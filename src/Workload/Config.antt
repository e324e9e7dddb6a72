-- ===== src/Workload/Config.antt =====
-- `validate_config` of workload/trace.py, over the values that `json.loads` and `yaml.safe_load`
-- give. A dict has text keys, each once; the errors are the exceptions that leave the call.
pub mod Valid
pub mod Guards
pub mod Mix
pub mod Stages
pub mod Laws
use kavach_ai.Common.{
  ℕ, suc, ◌+◌, String, ℤ, pos, pos_part, leb_ℤ, ltb_ℤ, eqb_ℤ, ltb, Bool, true, false, not, ◌&&◌,
  ◌||◌, List, [], ◌∷◌, if◌then◌else◌, any, all, map, letters,
}
use kavach_ai.Py.{
  Value, null, bool, int, float, str, list, dict, end, Items, nil, cons, Fields, items, keys,
  values, get, get_or, isinstance_int, isinstance_bool, eq_text, eq_int, value_error, type_error,
  attribute_error, Result, ok, raised, ◌>>=◌, ◌>>◌, raise_if,
}

abbrev pub endpoints : List String
endpoints = "login" ∷ "balance" ∷ "initiate" ∷ "confirm" ∷ "transaction" ∷ []

abbrev pub classes : List String
classes = "steady" ∷ "ramp" ∷ "flash" ∷ "oscillatory" ∷ "sustained_overload" ∷ "recovery" ∷ []

abbrev pub hard_max_rps : ℕ
hard_max_rps = 400

-- the messages of the exceptions
abbrev pub bad_seed : String
bad_seed = "seed must be an integer"

abbrev pub bad_ceiling : String
bad_ceiling = "max_rps must be an integer in [1, 400]"

abbrev pub bad_mix : String
bad_mix = "request_mix must contain all five endpoints with integer weights totaling 100"

abbrev pub no_stages : String
no_stages = "nonempty stages required"

abbrev pub bad_stage_duration : String
bad_stage_duration = "stage duration must be 1..600 integer seconds"

abbrev pub bad_stage_rps : String
bad_stage_rps = "stage RPS exceeds ceiling or is not a nonnegative integer"

abbrev pub bad_label : String
bad_label = "unknown pattern label"

abbrev pub bad_duration : String
bad_duration = "duration must equal the sum of stages and be <=3600s"

abbrev pub bad_warmup : String
bad_warmup = "warmup must be a nonnegative integer smaller than duration"

-- `type(v) is int and lo <= v <= hi`, as the guards write it the other way round
unfoldable pub int_within : ℤ → ℤ → Value → Bool
int_within lo hi (int n) = leb_ℤ lo n && leb_ℤ n hi
int_within lo hi _ = false

-- `isinstance(seed, int) and not isinstance(seed, bool)`
unfoldable pub is_plain_int : Value → Bool
is_plain_int v = isinstance_int v && not (isinstance_bool v)

-- the values of an int, where a guard has shown that it is one
abbrev pub int_value : Value → ℤ
int_value (int n) = n
int_value _ = pos 0

-- lists and dicts cannot be members of a set
unfoldable pub unhashable : Value → Bool
unhashable (list _) = true
unhashable (dict _) = true
unhashable _ = false

-- `set(v)`, as the list of what it iterates over
unfoldable pub set_of : Value → Result (List Value)
unfolding unhashable
set_of (dict d) = ok (map str (keys d))
set_of (list vs) = if any unhashable (items vs) then raised type_error else ok (items vs)
set_of (str s) = ok (map str (letters s))
set_of _ = raised type_error

-- `v in names`, for a tuple or a set of texts
unfoldable pub is_one_of : List String → Value → Bool
is_one_of names v = any (λ s. eq_text s v) names

-- `set(vs) == set(names)`
unfoldable pub same_set : List Value → List String → Bool
unfolding is_one_of
same_set vs names = all (is_one_of names) vs && all (λ s. any (eq_text s) vs) names

-- `type(v) is not int or v < 0`
unfoldable pub bad_weight : Value → Bool
bad_weight (int n) = ltb_ℤ n (pos 0)
bad_weight _ = true

-- `sum(...)` of weights that are all ints of at least 0
unfoldable pub sum_weights : List Value → ℕ
sum_weights [] = 0
sum_weights (v ∷ vs) = pos_part (int_value v) + sum_weights vs

-- `mix.values()`
unfoldable pub values_of : Value → Result (List Value)
values_of (dict d) = ok (values d)
values_of _ = raised attribute_error

unfoldable pub check_mix : Value → Result (Unit {0})
unfolding set_of same_set values_of bad_weight sum_weights
check_mix mix = do
  names ← set_of mix
  raise_if (not (same_set names endpoints)) (value_error bad_mix)
  weights ← values_of mix
  raise_if (any bad_weight weights || not (eqb_ℤ (pos (sum_weights weights)) (pos 100)))
      (value_error bad_mix)

-- one round of `for stage in stages`: the seconds that the stage adds
unfoldable pub check_stage : ℤ → Value → Result ℕ
check_stage ceiling (dict stage) = do
  raise_if (not (int_within (pos 1) (pos 600) (get "duration_s" stage)))
      (value_error bad_stage_duration)
  raise_if (not (int_within (pos 0) ceiling (get "rps" stage))) (value_error bad_stage_rps)
  raise_if (not (is_one_of classes (get "label" stage))) (value_error bad_label)
  ok (pos_part (int_value (get "duration_s" stage)))
check_stage ceiling _ = raised attribute_error

unfoldable pub check_stages : ℤ → ℕ → List Value → Result ℕ
check_stages ceiling elapsed [] = ok elapsed
check_stages ceiling elapsed (stage ∷ stages) =
    check_stage ceiling stage >>= λ s. check_stages ceiling (elapsed + s) stages

-- `isinstance(stages, list) and stages`
unfoldable pub is_nonempty_list : Value → Bool
is_nonempty_list (list (cons _ _)) = true
is_nonempty_list _ = false

abbrev pub elements : Value → List Value
elements (list vs) = items vs
elements _ = []

-- `0 <= warmup < elapsed`, and an int
unfoldable pub warmup_within : ℕ → Value → Bool
warmup_within elapsed (int n) = leb_ℤ (pos 0) n && ltb_ℤ n (pos elapsed)
warmup_within elapsed _ = false

unfoldable pub validate_config : Fields → Result Fields
validate_config config = do
  raise_if (not (is_plain_int (get "seed" config))) (value_error bad_seed)
  let ceiling = get "max_rps" config
  raise_if (not (is_plain_int ceiling && int_within (pos 1) (pos hard_max_rps) ceiling))
      (value_error bad_ceiling)
  check_mix (get_or "request_mix" (dict end) config)
  let stages = get "stages" config
  raise_if (not (is_nonempty_list stages)) (value_error no_stages)
  elapsed ← check_stages (int_value ceiling) 0 (elements stages)
  raise_if (not (eq_int (pos elapsed) (get "duration_s" config)) || ltb 3600 elapsed)
      (value_error bad_duration)
  raise_if (not (warmup_within elapsed (get_or "warmup_s" (int (pos 0)) config)))
      (value_error bad_warmup)
  ok config
