-- ===== src/Api/Metrics/Counts.antt =====
-- What the middleware counts for one request.
use kavach_ai.Common.{
  ℕ, ◌+◌, ◌-◌, true, false, ◌≡◌, refl, List, [], ◌∷◌, if◌then◌else◌, eq_iff, eq_refl, arith,
}
use kavach_ai.Api.Metrics.{
  Label, Metrics, Request, Outcome, same_label, count_one, is_exempt, label_of, route_of,
  instrument,
}

-- the value of a counter at a label, 0 where it has none yet
unfoldable pub count_of : Label → List (Label × ℕ) → ℕ
count_of l [] = 0
count_of l ((j, n) ∷ counts) = if same_label j l then n else count_of l counts

same_label_sound : (a b : Label) → same_label a b ≡ true → a ≡ b
unfolding same_label
same_label_sound a b h = ground (arith, eq_iff a.verb b.verb, eq_iff a.route b.route)

same_label_refl : (a : Label) → same_label a a ≡ true
unfolding same_label
same_label_refl a = ground (arith, eq_refl a.verb, eq_refl a.route)

-- Counting a label adds one there and changes no other.
pub count_of-count_one :
    (j l : Label) (counts : List (Label × ℕ))
    → count_of j (count_one l counts) ≡ count_of j counts + (if same_label l j then 1 else 0)
unfolding count_of count_one
count_of-count_one j l [] = ground arith
count_of-count_one j l ((i, n) ∷ counts) = ground (
  arith,
  count_of-count_one j l counts,
  same_label_sound i l,
  same_label_sound i j,
  same_label_sound l j,
  same_label_refl j,
  same_label_refl l,
)

-- A request to a path other than /health and /metrics, however call_next ends: the middleware ends
-- the same way, counts the request under its method, route and status, which is 500 for an
-- exception, counts one duration, and takes back its one from the gauge.
pub instrument_counts :
    (r : Request) (call_next : Metrics → Outcome × Metrics) (m : Metrics) (j : Label)
    → is_exempt r ≡ false
    → let (o, during) = call_next (record m { in_flight = m.in_flight + 1 }) in
      let (o', after) = instrument r call_next m in
      (o' ≡ o)
      × (after.in_flight ≡ during.in_flight - 1)
      × (count_of j after.requests
          ≡ count_of j during.requests + (if same_label (label_of r o) j then 1 else 0))
      × (count_of j after.durations
          ≡ count_of j during.durations
            + (if same_label (record { verb = r.verb; route = route_of r; status = 0 }) j
                then 1
                else 0))
unfolding instrument
instrument_counts r call_next m j h =
    rw h (refl, refl, count_of-count_one j _ _, count_of-count_one j _ _)

-- Requests to /health and /metrics are passed on and leave no trace in the metrics.
pub instrument_exempt :
    (r : Request) (call_next : Metrics → Outcome × Metrics) (m : Metrics)
    → is_exempt r ≡ true
    → instrument r call_next m ≡ call_next m
unfolding instrument
instrument_exempt r call_next m h = rw h refl
