-- ===== src/Example/Generator.antt =====
-- A generator that draws the first name with a weight and the lower bound of a range.
use kavach_ai.Common.{ℕ, zero, suc, String, ◌≡◌, ◌<◌, refl, inl, inr, List, [], ◌∷◌, length, arith}
use kavach_ai.Workload.Rng.{Rng, IsRng, Picks, total}

unfoldable pub first_weighted : List String → List ℕ → String
first_weighted (n ∷ names) (zero ∷ weights) = first_weighted names weights
first_weighted (n ∷ names) (suc w ∷ weights) = n
first_weighted _ _ = ""

first_weighted-Picks :
    (names : List String) (weights : List ℕ)
    → length names ≡ length weights
    → 0 < total weights
    → Picks names weights (first_weighted names weights)
unfolding first_weighted
first_weighted-Picks [] [] e h = absurd (omega (arith, h))
first_weighted-Picks [] (w ∷ weights) e h = absurd (omega (arith, e))
first_weighted-Picks (n ∷ names) [] e h = absurd (omega (arith, e))
first_weighted-Picks (n ∷ names) (zero ∷ weights) e h =
    inr (first_weighted-Picks names weights (omega (arith, e)) (omega (arith, h)))
first_weighted-Picks (n ∷ names) (suc w ∷ weights) e h = inl (refl, omega arith)

abbrev pub first_rng : Rng
first_rng = record {
  State = Unit;
  seeded = λ seed. tt;
  choice = λ names weights s. (first_weighted names weights, s);
  randrange = λ lo hi s. (lo, s);
}

pub first_rng-IsRng : IsRng first_rng
first_rng-IsRng = record {
  choice_picks = λ names weights s e h. first_weighted-Picks names weights e h;
  randrange_within = λ lo hi s h. (omega arith, h);
}
