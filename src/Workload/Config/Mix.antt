-- ===== src/Workload/Config/Mix.antt =====
-- The guard of `validate_config` on `request_mix`.
use kavach_ai.Common.{
  ℕ, String, pos, negsuc, ◌≡◌, refl, inl, inr, true, false, List, [], ◌∷◌, map, any, all, All,
  Listed, Bool-cases, eq_iff, eq_refl, arith,
}
use kavach_ai.Py.{Value, str, list, dict, int, Fields, keys, values, eq_text, ok}
use kavach_ai.Workload.Config.{endpoints, is_one_of, bad_weight, sum_weights, check_mix}
use kavach_ai.Workload.Config.Valid.{sum, int_of, IsMix}
use kavach_ai.Workload.Config.Guards.{is_one_of_sound, is_one_of_complete}

str_injective : (s t : String) → str s ≡ str t → s ≡ t
str_injective s t e = cc

-- `set(d) == set(names)` for a dict: each key is a name and each name a key.
all_keys_sound :
    (names ks : List String)
    → all (is_one_of names) (map str ks) ≡ true
    → All (λ k. Listed k names) ks
all_keys_sound names [] h = tt
all_keys_sound names (k ∷ ks) h = elim (Bool-cases (is_one_of names (str k))) [
  | inl good ↦
      let (s, e, l) = is_one_of_sound names (str k) good in
      (rw (str_injective k s e) l, all_keys_sound names ks (rw good at h))
  | inr bad ↦ absurd (cc (rw bad at h))
]

all_keys_complete :
    (names ks : List String)
    → All (λ k. Listed k names) ks
    → all (is_one_of names) (map str ks) ≡ true
all_keys_complete names [] h = refl
all_keys_complete names (k ∷ ks) (l, h) =
    rw (is_one_of_complete names k l) (all_keys_complete names ks h)

any_key_sound : (e : String) (ks : List String) → any (eq_text e) (map str ks) ≡ true → Listed e ks
any_key_sound e [] h = absurd (cc h)
any_key_sound e (k ∷ ks) h = ground (arith, eq_iff e k, any_key_sound e ks)

any_key_complete :
    (e : String) (ks : List String) → Listed e ks → any (eq_text e) (map str ks) ≡ true
any_key_complete e [] h = absurd h
any_key_complete e (k ∷ ks) (inl same) = rw same (rw (eq_refl k) refl)
any_key_complete e (k ∷ ks) (inr h) = ground (arith, any_key_complete e ks h)

all_names_sound :
    (names ks : List String)
    → all (λ s. any (eq_text s) (map str ks)) names ≡ true
    → All (λ e. Listed e ks) names
all_names_sound [] ks h = tt
all_names_sound (e ∷ names) ks h = elim (Bool-cases (any (eq_text e) (map str ks))) [
  | inl good ↦ (any_key_sound e ks good, all_names_sound names ks (rw good at h))
  | inr bad ↦ absurd (cc (rw bad at h))
]

all_names_complete :
    (names ks : List String)
    → All (λ e. Listed e ks) names
    → all (λ s. any (eq_text s) (map str ks)) names ≡ true
all_names_complete [] ks h = refl
all_names_complete (e ∷ names) ks (l, h) =
    rw (any_key_complete e ks l) (all_names_complete names ks h)

weights_sound : (vs : List Value) → any bad_weight vs ≡ false → (ns : List ℕ) × (vs ≡ map int_of ns)
unfolding bad_weight
weights_sound [] h = ([], refl)
weights_sound (int (pos n) ∷ vs) h = let (ns, e) = weights_sound vs (ground arith) in (n ∷ ns, cc e)
weights_sound (int (negsuc n) ∷ vs) h = absurd (ground arith)
weights_sound (v ∷ vs) h = absurd (cc h)

weights_complete : (ns : List ℕ) → any bad_weight (map int_of ns) ≡ false
unfolding bad_weight
weights_complete [] = refl
weights_complete (n ∷ ns) = ground (arith, weights_complete ns)

sum_weights_of : (ns : List ℕ) → sum_weights (map int_of ns) ≡ sum ns
unfolding sum_weights
sum_weights_of [] = refl
sum_weights_of (n ∷ ns) = rw (sum_weights_of ns)

-- what the tests have found when the check passes
check_mix_tests :
    (d : Fields)
    → check_mix (dict d) ≡ ok tt
    → (all (is_one_of endpoints) (map str (keys d)) ≡ true)
      × (all (λ s. any (eq_text s) (map str (keys d))) endpoints ≡ true)
      × (any bad_weight (values d) ≡ false)
      × (sum_weights (values d) ≡ 100)
unfolding check_mix
check_mix_tests d h = ground arith

pub check_mix_sound :
    (v : Value)
    → check_mix v ≡ ok tt
    → (mix : Fields) × (ns : List ℕ) × (v ≡ dict mix) × IsMix mix ns
unfolding check_mix
check_mix_sound (dict d) h =
    let (known, complete, weighed, total) = check_mix_tests d h in
    let (ns, e) = weights_sound (values d) weighed in
    (
      d,
      ns,
      refl,
      record {
        known = all_keys_sound endpoints (keys d) known;
        complete = all_names_sound endpoints (keys d) complete;
        weights_are = e;
        weights_sum = cc (sum_weights_of ns, rw e at total);
      },
    )
check_mix_sound (list vs) h = absurd (ground arith)
check_mix_sound (str s) h = absurd (ground arith)
check_mix_sound v h = absurd (cc h)

pub check_mix_complete : (mix : Fields) (ns : List ℕ) → IsMix mix ns → check_mix (dict mix) ≡ ok tt
unfolding check_mix
check_mix_complete mix ns h =
    rw
      (
        all_keys_complete endpoints (keys mix) h.known,
        all_names_complete endpoints (keys mix) h.complete,
        h.weights_are,
        weights_complete ns,
        sum_weights_of ns,
        h.weights_sum,
      )
      refl
