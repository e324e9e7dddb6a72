-- ===== src/Workload/Config/Valid.antt =====
-- What a configuration is, apart from the guards that test it: the typed content of a valid dict.
use kavach_ai.Common.{ℕ, ◌+◌, ◌≤◌, ◌<◌, String, ℤ, pos, ◌≡◌, true, List, [], ◌∷◌, map, All, Listed}
use kavach_ai.Py.{
  Value, int, str, list, dict, end, Items, Fields, items, keys, values, get, get_or, eq_int,
}
use kavach_ai.Workload.Config.{endpoints, classes, hard_max_rps}

pub record Stage : Type 0 where
  pub duration : ℕ
  pub rps : ℕ
  pub label : String

pub record Config : Type 0 where
  pub seed : ℤ
  pub max_rps : ℕ
  pub mix : Fields
  pub weights : List ℕ
  pub stages : List Stage
  pub warmup : ℕ

abbrev pub sum : List ℕ → ℕ
sum [] = 0
sum (n ∷ ns) = n + sum ns

abbrev pub total_duration : List Stage → ℕ
total_duration [] = 0
total_duration (s ∷ ss) = s.duration + total_duration ss

abbrev pub int_of : ℕ → Value
int_of n = int (pos n)

pub record IsStage (ceiling : ℕ) (v : Value) (s : Stage) : Type 0 where
  pub fields : Fields
  pub is_dict : v ≡ dict fields
  pub duration : get "duration_s" fields ≡ int_of s.duration
  pub duration_pos : 1 ≤ s.duration
  pub duration_le : s.duration ≤ 600
  pub rps : get "rps" fields ≡ int_of s.rps
  pub rps_le : s.rps ≤ ceiling
  pub label : get "label" fields ≡ str s.label
  pub label_known : Listed s.label classes

abbrev pub AreStages : ℕ → List Value → List Stage → Type 0
AreStages ceiling [] [] = Unit
AreStages ceiling (v ∷ vs) (s ∷ ss) = IsStage ceiling v s × AreStages ceiling vs ss
AreStages ceiling _ _ = ⊥

pub record IsMix (mix : Fields) (weights : List ℕ) : Type 0 where
  pub known : All (λ k. Listed k endpoints) (keys mix)
  pub complete : All (λ e. Listed e (keys mix)) endpoints
  pub weights_are : values mix ≡ map int_of weights
  pub weights_sum : sum weights ≡ 100

pub record IsConfig (config : Fields) (c : Config) : Type 0 where
  pub seed : get "seed" config ≡ int c.seed
  pub max_rps : get "max_rps" config ≡ int_of c.max_rps
  pub max_rps_pos : 1 ≤ c.max_rps
  pub max_rps_le : c.max_rps ≤ hard_max_rps
  pub mix : get_or "request_mix" (dict end) config ≡ dict c.mix
  pub is_mix : IsMix c.mix c.weights
  pub listed : Items
  pub stages : get "stages" config ≡ list listed
  pub are_stages : AreStages c.max_rps (items listed) c.stages
  pub duration : eq_int (pos (total_duration c.stages)) (get "duration_s" config) ≡ true
  pub duration_le : total_duration c.stages ≤ 3600
  pub warmup : get_or "warmup_s" (int_of 0) config ≡ int_of c.warmup
  pub warmup_lt : c.warmup < total_duration c.stages
