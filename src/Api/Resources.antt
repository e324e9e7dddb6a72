-- ===== src/Api/Resources.antt =====
-- `CgroupCollector.collect` of payment-api/app/resources.py. What the files hold and the text methods
-- and `int` of Python are parameters; the usage stays in microseconds.
pub mod Reported
use text.Mathlib.Text.{◌==◌}
use kavach_ai.Common.{
  ℕ, ◌-◌, String, ℤ, pos, negsuc, pos_part, ltb_ℤ, Bool, true, false, ◌||◌, Option, none, some,
  List, [], ◌∷◌, if◌then◌else◌,
}
use kavach_ai.Py.{
  Error, value_error, key_error, runtime_error, type_error, attribute_error, other_error, Result,
  ok, raised, ◌>>=◌, ◌>>◌,
}
use kavach_ai.Collector.Rows.{sub_ℤ}

pub record Texts : Type 0 where
  pub splitlines : String → List String
  -- `line.split()`
  pub split : String → List String
  -- `int(text)`
  pub to_int : String → Result ℤ

pub record Cgroup : Type 0 where
  pub cpu_stat : Result String
  pub memory_current : Result String
  pub memory_stat : Result String

-- the three metrics
pub record Reading : Type 0 where
  pub usage_usec : ℤ
  pub working_set : ℤ
  pub timestamp : ℕ

-- `dict(line.split() for line in lines)`: a line is a key and its value, or a ValueError
unfoldable pub pairs : Texts → List String → Result (List (String × String))
pairs texts [] = ok []
pairs texts (line ∷ lines) = elim (texts.split line) [
  | [] ↦ raised (value_error "dictionary update sequence element has length 0; 2 is required")
  | key ∷ values ↦ elim values [
    | [] ↦ raised (value_error "dictionary update sequence element has length 1; 2 is required")
    | value ∷ more ↦ elim more [
      | [] ↦ do rest ← pairs texts lines; ok ((key, value) ∷ rest)
      | _ ∷ _ ↦ raised (value_error "dictionary update sequence element is too long")
    ]
  ]
]

-- the value of a key: of several entries the last one counts
abbrev pub value_of : String → List (String × String) → Option String
value_of k [] = none
value_of k ((key, value) ∷ rest) = elim (value_of k rest) [
  | some v ↦ some v
  | none ↦ if key == k then some value else none
]

abbrev pub required : String → List (String × String) → Result String
required k entries = elim (value_of k entries) [ none ↦ raised key_error | some v ↦ ok v ]

abbrev pub or_zero : Option String → String
or_zero none = "0"
or_zero (some v) = v

-- `max(0, a)`
abbrev pub at_least_zero : ℤ → ℤ
at_least_zero a = if ltb_ℤ (pos 0) a then a else pos 0

-- the `try`: the working set and the usage
unfoldable pub measure : Texts → Cgroup → Result (ℤ × ℤ)
unfolding pairs
measure texts files = do
  cpu_text ← files.cpu_stat
  cpu ← pairs texts (texts.splitlines cpu_text)
  memory_text ← files.memory_current
  memory ← texts.to_int memory_text
  stats_text ← files.memory_stat
  stats ← pairs texts (texts.splitlines stats_text)
  inactive ← texts.to_int (or_zero (value_of "inactive_file" stats))
  usage_text ← required "usage_usec" cpu
  usage ← texts.to_int usage_text
  ok (at_least_zero (sub_ℤ memory inactive), usage)

-- OSError, ValueError and KeyError, with the subclasses of OSError that reading a file raises
abbrev pub is_missing : Error → Bool
is_missing (value_error m) = true
is_missing key_error = true
is_missing (other_error name m) =
    name == "OSError" || name == "FileNotFoundError" || name == "PermissionError"
is_missing _ = false

-- `none` where nothing is yielded
unfoldable pub collect : Texts → Cgroup → (time : ℕ) → Result (Option Reading)
unfolding measure
collect texts files time = elim (measure texts files) [
  | raised e ↦ if is_missing e then ok none else raised e
  | ok values ↦
      ok (some (record { usage_usec = values.1; working_set = values.0; timestamp = time }))
]
