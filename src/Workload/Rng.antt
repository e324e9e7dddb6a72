-- ===== src/Workload/Rng.antt =====
-- The random generator of the standard library, as the trace uses it: `random.Random(seed)`,
-- `choices(names, weights, k=1)[0]` and `randrange(lo, hi)`. It is not part of the repository, so it
-- is a parameter, and `IsRng` states what its documentation promises.
use kavach_ai.Common.{ℕ, ◌≤◌, ◌<◌, String, ℤ, ◌+◌, ◌≡◌, ◌⊎◌, List, [], ◌∷◌, length}

pub record Rng : Type 1 where
  pub State : Type 0
  pub seeded : ℤ → State
  pub choice : List String → List ℕ → State → String × State
  pub randrange : ℕ → ℕ → State → ℕ × State

-- `name` stands in the list, over a weight that is not zero
abbrev pub Picks : List String → List ℕ → String → Type 0
Picks (n ∷ names) (w ∷ weights) name = ((name ≡ n) × (0 < w)) ⊎ Picks names weights name
Picks _ _ name = ⊥

abbrev pub total : List ℕ → ℕ
total [] = 0
total (w ∷ weights) = w + total weights

pub record IsRng (r : Rng) : Type 0 where
  pub choice_picks :
      (names : List String) (weights : List ℕ) (s : r.State)
      → length names ≡ length weights
      → 0 < total weights
      → Picks names weights (r.choice names weights s).0
  pub randrange_within :
      (lo hi : ℕ) (s : r.State)
      → lo < hi
      → (lo ≤ (r.randrange lo hi s).0) × ((r.randrange lo hi s).0 < hi)
