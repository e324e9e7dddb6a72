-- ===== src/Workload/Trace/Weights.antt =====
-- The weights that `compile_trace` reads for the endpoints, one by one.
use kavach_ai.Common.{
  ℕ, ◌+◌, String, pos_part, ◌≡◌, refl, inl, inr, Bool, true, false, not, ◌&&◌, any, List, [], ◌∷◌,
  map, All, Listed, none, some, Bool-cases, and_true, not-true, eq_iff, eq_refl, arith,
  if◌then◌else◌,
}
use text.Mathlib.Text.{◌==◌}
use kavach_ai.Py.{
  Value, dict, Fields, end, field, keys, values, lookup, HasUniqueKeys, subscript_found, ok,
}
use kavach_ai.Workload.Config.{endpoints, int_value}
use kavach_ai.Workload.Config.Valid.{int_of, sum, IsMix}
use kavach_ai.Workload.Rng.{total}
use kavach_ai.Workload.Trace.{weights_from}

-- the weight that stands under a name
abbrev pub weight_in : Fields → String → ℕ
weight_in end name = 0
weight_in (field k v d) name = if k == name then pos_part (int_value v) else weight_in d name

abbrev pub weights_in : Fields → List String → List ℕ
weights_in d names = map (weight_in d) names

lookup_of_Listed :
    (d : Fields) (name : String)
    → Listed name (keys d)
    → (v : Value) × (lookup name d ≡ some v) × (pos_part (int_value v) ≡ weight_in d name)
unfolding lookup
lookup_of_Listed end name h = absurd h
lookup_of_Listed (field k v d) name (inl e) =
    let same : (k == name) ≡ true = rw e (eq_refl k) in (v, rw same refl, rw same refl)
lookup_of_Listed (field k v d) name (inr h) = elim (Bool-cases (k == name)) [
  | inl same ↦ (v, rw same refl, rw same refl)
  | inr other ↦
      let (w, found, weight) = lookup_of_Listed d name h in (w, rw other found, rw other weight)
]

pub weights_from_lem :
    (d : Fields) (names : List String)
    → All (λ e. Listed e (keys d)) names
    → weights_from (dict d) names ≡ ok (weights_in d names)
unfolding weights_from
weights_from_lem d [] h = refl
weights_from_lem d (name ∷ names) (l, h) =
    let (v, found, same) = lookup_of_Listed d name l in
    rw (subscript_found d name found, weights_from_lem d names h, same) refl

-- no name stands twice in the list
abbrev pub distinct : List String → Bool
distinct [] = true
distinct (n ∷ names) = not (any (λ m. n == m) names) && distinct names

abbrev all_values : Fields → ℕ
all_values end = 0
all_values (field k v d) = pos_part (int_value v) + all_values d

total-skip :
    (k : String) (v : Value) (d : Fields) (names : List String)
    → any (λ m. k == m) names ≡ false
    → total (weights_in (field k v d) names) ≡ total (weights_in d names)
total-skip k v d [] h = refl
total-skip k v d (n ∷ names) h = ground (arith, total-skip k v d names)

weight_in_missing : (d : Fields) (name : String) → lookup name d ≡ none → weight_in d name ≡ 0
unfolding lookup
weight_in_missing end name h = refl
weight_in_missing (field k v d) name h = ground (arith, weight_in_missing d name)

total-field :
    (k : String) (v : Value) (d : Fields) (names : List String)
    → lookup k d ≡ none
    → Listed k names
    → distinct names ≡ true
    → total (weights_in (field k v d) names) ≡ pos_part (int_value v) + total (weights_in d names)
total-field k v d [] missing h apart = absurd h
total-field k v d (n ∷ names) missing h apart = elim (Bool-cases (k == n)) [
  | inl same ↦
      let e = (eq_iff k n).0 same in
      let (fresh, _) = and_true _ _ apart in
      let skip = total-skip k v d names (rw e (not-true _ fresh)) in
      rw same (omega (arith, skip, weight_in_missing d n (rw (← e) missing)))
  | inr other ↦ ground (arith, total-field k v d names missing, eq_iff k n)
]

-- the values under distinct names that cover the keys are all the values
total-weights_in :
    (d : Fields) (names : List String)
    → HasUniqueKeys d
    → All (λ k. Listed k names) (keys d)
    → distinct names ≡ true
    → total (weights_in d names) ≡ all_values d
total-weights_in end names u h apart = zeros names
  where
    zeros : (names : List String) → total (weights_in end names) ≡ 0
    zeros [] = refl
    zeros (n ∷ ns) = omega (arith, zeros ns)
total-weights_in (field k v d) names (missing, u) (l, h) apart =
    omega (arith, total-field k v d names missing l apart, total-weights_in d names u h apart)

all_values_lem : (d : Fields) (ns : List ℕ) → values d ≡ map int_of ns → all_values d ≡ sum ns
all_values_lem end [] e = refl
all_values_lem end (n ∷ ns) e = absurd (cc e)
all_values_lem (field k v d) [] e = absurd (cc e)
all_values_lem (field k v d) (n ∷ ns) e =
    let here : v ≡ int_of n = cc in
    let rest : values d ≡ map int_of ns = cc in rw here (omega (arith, all_values_lem d ns rest))

pub total-endpoints :
    (d : Fields) (ns : List ℕ) → HasUniqueKeys d → IsMix d ns → total (weights_in d endpoints) ≡ 100
total-endpoints d ns u h = omega (
  arith,
  total-weights_in d endpoints u h.known refl,
  all_values_lem d ns h.weights_are,
  h.weights_sum,
)
