-- ===== src/Experiments/Calibration/Percentiles.antt =====
-- The percentiles of a stage.
use kavach_ai.Common.{
  ℕ, zero, suc, ◌*◌, ◌/◌, ◌≤◌, ◌<◌, ◌≡◌, refl, leb, Bool-cases, inl, inr, ap, ◌∙◌, some, List, [],
  ◌∷◌, length, All, arith,
}
use kavach_ai.Experiments.Calibration.{
  Request, Response, within, keep, dispatched, insert, sorted_latencies, at, percentile,
  stage_report,
}

-- each element is at most those after it
abbrev pub IsSorted : List ℕ → Type 0
IsSorted [] = Unit
IsSorted (x ∷ xs) = All (λ y. x ≤ y) xs × IsSorted xs

All-le-insert :
    (x y : ℕ) (ys : List ℕ) → x ≤ y → All (λ z. x ≤ z) ys → All (λ z. x ≤ z) (insert y ys)
unfolding insert
All-le-insert x y [] h k = (h, tt)
All-le-insert x y (z ∷ ys) h (p, k) = ground (arith, All-le-insert x y ys h k)

All-le_trans : (x y : ℕ) (ys : List ℕ) → x ≤ y → All (λ z. y ≤ z) ys → All (λ z. x ≤ z) ys
All-le_trans x y [] h k = tt
All-le_trans x y (z ∷ ys) h (p, k) = (omega (arith, p, h), All-le_trans x y ys h k)

insert-IsSorted : (y : ℕ) (ys : List ℕ) → IsSorted ys → IsSorted (insert y ys)
unfolding insert
insert-IsSorted y [] h = (tt, tt)
insert-IsSorted y (z ∷ ys) (below, h) = elim (Bool-cases (leb y z)) [
  | inl le ↦
      let smaller : y ≤ z = ground arith in
      rw le ((smaller, All-le_trans y z ys smaller below), (below, h))
  | inr gt ↦
      let larger : z ≤ y = ground arith in
      rw gt (All-le-insert z y ys larger below, insert-IsSorted y ys h)
]

sorted_latencies-IsSorted : (responses : List Response) → IsSorted (sorted_latencies responses)
unfolding sorted_latencies
sorted_latencies-IsSorted [] = tt
sorted_latencies-IsSorted (r ∷ responses) =
    insert-IsSorted r.latency (sorted_latencies responses) (sorted_latencies-IsSorted responses)

length-insert : (y : ℕ) (ys : List ℕ) → length (insert y ys) ≡ suc (length ys)
unfolding insert
length-insert y [] = refl
length-insert y (z ∷ ys) = ground (arith, length-insert y ys)

length-sorted_latencies :
    (responses : List Response) → length (sorted_latencies responses) ≡ length responses
unfolding sorted_latencies
length-sorted_latencies [] = refl
length-sorted_latencies (r ∷ responses) =
    length-insert r.latency (sorted_latencies responses)
    ∙ ap suc (length-sorted_latencies responses)

at_above :
    (x j : ℕ) (xs : List ℕ)
    → All (λ y. x ≤ y) xs
    → j < length xs
    → (b : ℕ) × (at j xs ≡ some b) × (x ≤ b)
unfolding at
at_above x j [] h k = absurd (omega (arith, k))
at_above x zero (y ∷ ys) (p, h) k = (y, refl, p)
at_above x (suc j) (y ∷ ys) (p, h) k = at_above x j ys h (omega (arith, k))

at_ordered :
    (i j : ℕ) (xs : List ℕ)
    → IsSorted xs
    → i ≤ j
    → j < length xs
    → (a b : ℕ) × (at i xs ≡ some a) × (at j xs ≡ some b) × (a ≤ b)
unfolding at
at_ordered i j [] h k l = absurd (omega (arith, l))
at_ordered zero zero (x ∷ xs) h k l = (x, x, refl, refl, omega arith)
at_ordered zero (suc j) (x ∷ xs) (below, h) k l =
    let (b, e, le) = at_above x j xs below (omega (arith, l)) in (x, b, refl, e, le)
at_ordered (suc i) zero (x ∷ xs) h k l = absurd (omega (arith, k))
at_ordered (suc i) (suc j) (x ∷ xs) (below, h) k l =
    at_ordered i j xs h (omega (arith, k)) (omega (arith, l))

percentile_ordered :
    (xs : List ℕ)
    → IsSorted xs
    → 0 < length xs
    → (a b : ℕ) × (percentile 95 xs ≡ some a) × (percentile 99 xs ≡ some b) × (a ≤ b)
unfolding percentile
percentile_ordered [] h k = absurd (omega (arith, k))
percentile_ordered (x ∷ xs) h k =
    at_ordered (95 * length xs / 100) (99 * length xs / 100) (x ∷ xs) h (omega arith) (omega arith)

-- A stage in which some request was not dropped has both percentiles, and the 95th is at most the
-- 99th.
pub stage_percentiles :
    (second left right rps : ℕ) (requests : List Request)
    → let r = stage_report second left right rps requests in
      r.dropped < r.offered
      → (a b : ℕ) × (r.p95_latency ≡ some a) × (r.p99_latency ≡ some b) × (a ≤ b)
unfolding stage_report
stage_percentiles second left right rps requests h =
    let rows = keep (within (left * second) (right * second)) requests in
    let responses = dispatched rows in
    percentile_ordered (sorted_latencies responses) (sorted_latencies-IsSorted responses)
      (omega (arith, h, length-sorted_latencies responses))
