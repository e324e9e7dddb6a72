-- ===== src/Api/Settings/Bounds.antt =====
-- The bounds of the settings that the service starts with.
use kavach_ai.Common.{
  ℕ, ◌*◌, ◌≤◌, chars, ℤ, pos, negsuc, leb_ℤ, Float, nan, inf, neg_inf, finite, float_unit, ltb,
  true, not, ◌&&◌, ◌||◌, ◌≡◌, refl, arith, not-false,
}
use text.Mathlib.Text.{◌==◌}
use kavach_ai.Py.{ok, raise_if-eq-ok, >>=-eq-ok}
use kavach_ai.Api.Settings.{
  Settings, float_within, check_settings, Environment, getenv_or, from_env,
}

pub record IsBounded (s : Settings) : Type 0 where
  pub factor : (n : ℕ) × (s.cpu_work_factor ≡ pos n) × (n ≤ 1000000)
  pub delay : (n : ℕ) × (s.io_delay_ms ≡ finite (pos n)) × (n ≤ 1000 * float_unit)
  pub rate : (n : ℕ) × (s.error_injection_rate ≡ finite (pos n)) × (n ≤ 1 * float_unit)
  pub key : 16 ≤ chars s.signing_key

factor_sound :
    (z : ℤ)
    → (leb_ℤ (pos 0) z && leb_ℤ z (pos 1000000)) ≡ true
    → (n : ℕ) × (z ≡ pos n) × (n ≤ 1000000)
factor_sound (pos n) h = (n, refl, ground arith)
factor_sound (negsuc n) h = absurd (ground arith)

float_within_sound :
    (hi : ℕ) (x : Float)
    → float_within hi x ≡ true
    → (n : ℕ) × (x ≡ finite (pos n)) × (n ≤ hi * float_unit)
unfolding float_within
float_within_sound hi nan h = absurd (cc h)
float_within_sound hi inf h = absurd (cc h)
float_within_sound hi neg_inf h = absurd (cc h)
float_within_sound hi (finite (pos n)) h = (n, refl, ground arith)
float_within_sound hi (finite (negsuc n)) h = absurd (ground arith)

check_settings-IsBounded : (s t : Settings) → check_settings s ≡ ok t → IsBounded t
unfolding check_settings
check_settings-IsBounded s t h =
    let (factor, h1) =
      raise_if-eq-ok
        (not (leb_ℤ (pos 0) s.cpu_work_factor && leb_ℤ s.cpu_work_factor (pos 1000000))) _ _ h in
    let (delay, h2) = raise_if-eq-ok (not (float_within 1000 s.io_delay_ms)) _ _ h1 in
    let (rate, h3) = raise_if-eq-ok (not (float_within 1 s.error_injection_rate)) _ _ h2 in
    let (key, h4) = raise_if-eq-ok (ltb (chars s.signing_key) 16) _ _ h3 in
    let bounded : IsBounded s = record {
      factor = factor_sound s.cpu_work_factor (not-false _ factor);
      delay = float_within_sound 1000 s.io_delay_ms (not-false _ delay);
      rate = float_within_sound 1 s.error_injection_rate (not-false _ rate);
      key = ground arith;
    } in
    let same : s ≡ t = cc h4 in rw same at bounded

-- Settings that from_env returns, whatever the environment, have a work factor in [0, 1000000], a
-- finite delay in [0, 1000] ms, a finite error rate in [0, 1] and a key of at least 16 characters.
pub from_env-IsBounded : (env : Environment) (s : Settings) → from_env env ≡ ok s → IsBounded s
unfolding from_env
from_env-IsBounded env s h =
    let (_, h1) =
      raise_if-eq-ok
        (not (
          env.lower (getenv_or env "KAVACH_DB_ENABLED" "false") == "false"
          || env.lower (getenv_or env "KAVACH_DB_ENABLED" "false") == "0"))
        _ _ h in
    let (_, _, h2) =
      >>=-eq-ok (env.parse_int (getenv_or env "KAVACH_CPU_WORK_FACTOR" "2000")) _ h1 in
    let (_, _, h3) = >>=-eq-ok (env.parse_float (getenv_or env "KAVACH_IO_DELAY_MS" "2")) _ h2 in
    let (_, _, h4) =
      >>=-eq-ok (env.parse_float (getenv_or env "KAVACH_ERROR_INJECTION_RATE" "0")) _ h3 in
    let (_, _, h5) = >>=-eq-ok (env.parse_int (getenv_or env "KAVACH_SEED" "240005")) _ h4 in
    check_settings-IsBounded _ s h5
