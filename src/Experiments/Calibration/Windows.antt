-- ===== src/Experiments/Calibration/Windows.antt =====
-- The windows of the stages in `summarize` of experiments/calibration.py.
use kavach_ai.Common.{ℕ, ◌+◌, ◌*◌, ◌≤◌, leb, List, [], ◌∷◌, length, arith}
use kavach_ai.Experiments.Calibration.{
  Request, Stage, StageReport, within, keep, stage_report, summarize,
}

-- the number of requests that the reports count
abbrev pub total_offered : List StageReport → ℕ
total_offered [] = 0
total_offered (r ∷ reports) = r.offered + total_offered reports

disjoint :
    (start left right : ℕ) (requests : List Request)
    → start ≤ left
    → start ≤ right
    → length (keep (within left right) requests) + length (keep (λ r. leb right r.offset) requests)
      ≤ length (keep (λ r. leb start r.offset) requests)
unfolding keep
disjoint start left right [] h k = omega arith
disjoint start left right (r ∷ requests) h k =
    ground (arith, disjoint start left right requests h k)

length-keep :
    (start : ℕ) (requests : List Request)
    → length (keep (λ r. leb start r.offset) requests) ≤ length requests
unfolding keep
length-keep start [] = omega arith
length-keep start (r ∷ requests) = ground (arith, length-keep start requests)

total_offered-summarize :
    (second elapsed : ℕ) (stages : List Stage) (requests : List Request)
    → total_offered (summarize second elapsed stages requests)
      ≤ length (keep (λ r. leb (elapsed * second) r.offset) requests)
unfolding summarize stage_report
total_offered-summarize second elapsed [] requests = omega arith
total_offered-summarize second elapsed (stage ∷ stages) requests =
    let rest = total_offered-summarize second (elapsed + stage.duration) stages requests in
    let here =
      disjoint (elapsed * second) ((elapsed + 10) * second) ((elapsed + stage.duration) * second)
        requests (grind arith) (grind arith) in
    omega (arith, rest, here)

-- No request is counted for two stages: the offered counts of all stages add up to at most the number
-- of requests.
pub summarize_counts_once :
    (second : ℕ) (stages : List Stage) (requests : List Request)
    → total_offered (summarize second 0 stages requests) ≤ length requests
summarize_counts_once second stages requests =
    omega
      (arith, total_offered-summarize second 0 stages requests, length-keep (0 * second) requests)
