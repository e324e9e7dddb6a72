-- ===== src/Api/Settings.antt =====
-- `Settings` of main.py: the dataclass and its checks, and `from_env`.
pub mod Bounds
use kavach_ai.Common.{
  ℕ, String, chars, ℤ, pos, leb_ℤ, Float, finite, isfinite, le_float, scaled, ltb, Bool, not, ◌&&◌,
  ◌||◌, Option, none, some,
}
use text.Mathlib.Text.{◌==◌}
use kavach_ai.Py.{Result, ok, value_error, raise_if, ◌>>=◌, ◌>>◌}

pub record Settings : Type 0 where
  pub cpu_work_factor : ℤ
  pub io_delay_ms : Float
  pub error_injection_rate : Float
  pub seed : ℤ
  pub signing_key : String

abbrev pub default_signing_key : String
default_signing_key = "kavach-local-synthetic-fixture-v1"

-- the double that is a whole number
abbrev pub float_of : ℕ → Float
float_of n = finite (scaled (pos n))

-- `math.isfinite(x) and 0 <= x <= hi`
unfoldable pub float_within : ℕ → Float → Bool
float_within hi x = isfinite x && (le_float (float_of 0) x && le_float x (float_of hi))

-- `__post_init__`
unfoldable pub check_settings : Settings → Result Settings
unfolding float_within
check_settings s = do
  raise_if (not (leb_ℤ (pos 0) s.cpu_work_factor && leb_ℤ s.cpu_work_factor (pos 1_000_000)))
      (value_error "CPU work factor must be in [0, 1000000]")
  raise_if (not (float_within 1000 s.io_delay_ms))
      (value_error "IO delay must be finite and in [0, 1000] ms")
  raise_if (not (float_within 1 s.error_injection_rate))
      (value_error "Error injection rate must be in [0, 1]")
  raise_if (ltb (chars s.signing_key) 16)
      (value_error "Fixture signing key must be at least 16 characters")
  ok s

-- `os.getenv`, and the conversions that `from_env` applies to what it finds
pub record Environment : Type 0 where
  pub getenv : String → Option String
  pub lower : String → String
  pub parse_int : String → Result ℤ
  pub parse_float : String → Result Float

-- `os.getenv(name, default)`
abbrev pub getenv_or : Environment → String → String → String
getenv_or env name default = elim (env.getenv name) [ none ↦ default | some v ↦ v ]

unfoldable pub from_env : Environment → Result Settings
from_env env = do
  let enabled = env.lower (getenv_or env "KAVACH_DB_ENABLED" "false")
  raise_if (not (enabled == "false" || enabled == "0"))
      (value_error "Database mode is not implemented; use the stateless fixture")
  factor ← env.parse_int (getenv_or env "KAVACH_CPU_WORK_FACTOR" "2000")
  delay ← env.parse_float (getenv_or env "KAVACH_IO_DELAY_MS" "2")
  rate ← env.parse_float (getenv_or env "KAVACH_ERROR_INJECTION_RATE" "0")
  seed ← env.parse_int (getenv_or env "KAVACH_SEED" "240005")
  check_settings (record {
    cpu_work_factor = factor;
    io_delay_ms = delay;
    error_injection_rate = rate;
    seed = seed;
    signing_key = getenv_or env "KAVACH_SIGNING_KEY" default_signing_key;
  })
