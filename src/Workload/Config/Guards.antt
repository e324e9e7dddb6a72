-- ===== src/Workload/Config/Guards.antt =====
-- What each guard of `validate_config` establishes.
use kavach_ai.Common.{
  ℕ, ◌≤◌, ◌<◌, String, ℤ, pos, negsuc, ◌≡◌, refl, inl, inr, true, List, [], ◌∷◌, Listed, Bool-cases,
  eq_refl, arith,
}
use kavach_ai.Py.{Value, int, str, eq_text, eq_text_sound}
use kavach_ai.Workload.Config.{int_within, is_plain_int, is_one_of, warmup_within}
use kavach_ai.Workload.Config.Valid.{int_of}

pub int_within_sound :
    (lo hi : ℕ) (v : Value)
    → int_within (pos lo) (pos hi) v ≡ true
    → (n : ℕ) × (v ≡ int_of n) × (lo ≤ n) × (n ≤ hi)
unfolding int_within
int_within_sound lo hi (int (pos n)) h = (n, refl, ground arith, ground arith)
int_within_sound lo hi (int (negsuc n)) h = absurd (ground arith)
int_within_sound lo hi v h = cc

pub int_within_complete :
    (lo hi n : ℕ) → lo ≤ n → n ≤ hi → int_within (pos lo) (pos hi) (int_of n) ≡ true
unfolding int_within
int_within_complete lo hi n h k = ground arith

pub is_plain_int_sound : (v : Value) → is_plain_int v ≡ true → (n : ℤ) × (v ≡ int n)
unfolding is_plain_int
is_plain_int_sound (int n) h = (n, refl)
is_plain_int_sound v h = cc

pub warmup_within_sound :
    (elapsed : ℕ) (v : Value)
    → warmup_within elapsed v ≡ true
    → (n : ℕ) × (v ≡ int_of n) × (n < elapsed)
unfolding warmup_within
warmup_within_sound elapsed (int (pos n)) h = (n, refl, ground arith)
warmup_within_sound elapsed (int (negsuc n)) h = absurd (ground arith)
warmup_within_sound elapsed v h = cc

pub is_one_of_sound :
    (names : List String) (v : Value)
    → is_one_of names v ≡ true
    → (s : String) × (v ≡ str s) × Listed s names
unfolding is_one_of
is_one_of_sound [] v h = cc
is_one_of_sound (n ∷ names) v h = elim (Bool-cases (eq_text n v)) [
  | inl same ↦ (n, eq_text_sound n v same, inl refl)
  | inr other ↦ let (s, e, l) = is_one_of_sound names v (rw other at h) in (s, e, inr l)
]

pub is_one_of_complete :
    (names : List String) (s : String) → Listed s names → is_one_of names (str s) ≡ true
unfolding is_one_of
is_one_of_complete [] s h = absurd h
is_one_of_complete (n ∷ names) s (inl e) = rw e (rw (eq_refl n) refl)
is_one_of_complete (n ∷ names) s (inr h) = ground (arith, is_one_of_complete names s h)
