-- ===== src/Collector/Rows/Good.antt =====
-- What rows must be for `validate_rows` to let a run pass.
use mathlib.Core.List.{List, [], ◌∷◌, ◌++◌}
use kavach_ai.Common.{
  ℤ, negsuc, ap, append-nil_inv, ℕ, suc, ◌≡◌, ◌≢◌, refl, String, pos, Float, finite, Bool, true,
  false, not, Option, none, some, length, All, eq_iff, and_true, not-false, not-true, eqb_iff,
}
use kavach_ai.Collector.Rows.{
  required_reasons, duration_reasons, cadvisor_reasons, scrape_reasons, error_reasons,
  lacks_scrapes, sample_count, stale_or_future, missing_or_invalid, cadence_gap,
  snapshot_exceeds_interval, cadvisor_unavailable, incomplete_app_scrapes, collection_error, Row,
  Reason, required, sources, when, for_each, is_invalid, is_gap, is_stale, stamp_reasons,
  latency_reasons, row_reasons, rows_reasons, latest, validate_rows, is_count, is_empty,
}
use kavach_ai.Collector.Rows.Readings.{
  done, good, Reads, InCadence, IsFresh, IsGood, AreGood, when-nil, for_each-nil, valid_number,
  stamped, gap_sound, IsFresh-sound, All-imp, latencies_sound, exceeds_sound, cadvisor_sound,
  scraped_sound,
}

-- the parts of a round that has no reason
record IsFaultless (index interval : ℕ) (previous : Option Float) (row : Row) : Type 0 where
  present : required_reasons index row ≡ []
  stamp : stamp_reasons index interval previous (row.reading "timestamp") row ≡ []
  duration : duration_reasons index interval row ≡ []
  latency : latency_reasons index row ≡ []
  cadvisor : cadvisor_reasons index row ≡ []
  scrapes : scrape_reasons index row ≡ []
  error : error_reasons index row ≡ []

row_reasons-nil :
    (index interval : ℕ) (previous : Option Float) (row : Row)
    → row_reasons index interval previous row ≡ []
    → IsFaultless index interval previous row
unfolding row_reasons
row_reasons-nil index interval previous row h =
    let stamps = stamp_reasons index interval previous (row.reading "timestamp") row in
    let s1 = required_reasons index row ++ stamps in
    let s2 = s1 ++ duration_reasons index interval row in
    let s3 = s2 ++ latency_reasons index row in
    let s4 = s3 ++ cadvisor_reasons index row in
    let s5 = s4 ++ scrape_reasons index row in
    let (r5, h6) = append-nil_inv s5 (error_reasons index row) h in
    let (r4, h5) = append-nil_inv s4 (scrape_reasons index row) r5 in
    let (r3, h4) = append-nil_inv s3 (cadvisor_reasons index row) r4 in
    let (r2, h3) = append-nil_inv s2 (latency_reasons index row) r3 in
    let (r1, h2) = append-nil_inv s1 (duration_reasons index interval row) r2 in
    let (h0, h1) = append-nil_inv (required_reasons index row) stamps r1 in
    record {
      present = h0;
      stamp = h1;
      duration = h2;
      latency = h3;
      cadvisor = h4;
      scrapes = h5;
      error = h6;
    }

sources_sound :
    (row : Row) (time : ℕ) (fields : List String)
    → All (λ field. (n : ℕ) × Reads row field n) fields
    → All (λ field. is_stale (finite (pos time)) (row.reading field) ≡ false) fields
    → All (IsFresh row time) fields
sources_sound row time [] read current = tt
sources_sound row time (field ∷ fields) ((n, e), read) (h, current) =
    (IsFresh-sound row time field n e h, sources_sound row time fields read current)

stamps_sound :
    (index interval : ℕ) (previous : Option ℕ) (row : Row) (time : ℕ)
    → Reads row "timestamp" time
    → All (λ field. (n : ℕ) × Reads row field n) sources
    → stamp_reasons index interval (stamped previous) (row.reading "timestamp") row ≡ []
    → InCadence interval previous time × All (IsFresh row time) sources
stamps_sound index interval previous row time e read h =
    let gap = is_gap interval (stamped previous) (finite (pos time)) in
    let stale : String → Bool = λ field. is_stale (finite (pos time)) (row.reading field) in
    let stamps : when gap (cadence_gap index)
          ++ for_each sources (λ field. when (stale field) (stale_or_future index field))
        ≡ [] =
      rw e at h in
    let (in_order, current) = append-nil_inv (when gap (cadence_gap index)) _ stamps in
    (
      gap_sound interval previous time (when-nil _ (cadence_gap index) in_order),
      sources_sound row time sources read
          (for_each-nil sources stale (stale_or_future index) current),
    )

row_sound :
    (index interval : ℕ) (previous : Option ℕ) (row : Row)
    → IsFaultless index interval (stamped previous) row
    → (time : ℕ) × IsGood interval previous row time
row_sound index interval previous row h =
    let numbers : All (λ field. (n : ℕ) × Reads row field n) required =
      All-imp required (λ field. valid_number (row.reading field))
        (for_each-nil required (λ field. is_invalid (row.reading field)) (missing_or_invalid index)
          h.present) in
    let (time, e) = numbers.0 in
    let (rps, rps_read) = numbers.1.0 in
    let late = numbers.1.1.1.1.1.1 in
    let (ready, ready_read) = late.0 in
    let timed = late.1.1.1.1.1 in
    let (up, up_read) = timed.1.1.1.0 in
    let (count, count_read) = timed.1.1.1.1.0 in
    let (cadvisor, cadvisor_read) = timed.1.1.1.1.1.0 in
    let (duration, duration_read) = timed.1.1.1.1.1.1.0 in
    let (in_cadence, fresh) =
      stamps_sound index interval previous row time e (timed.0, (timed.1.0, (timed.1.1.0, tt)))
        h.stamp in
    let (same, enough) =
      scraped_sound row up count ready up_read count_read ready_read
        (when-nil (lacks_scrapes row) (incomplete_app_scrapes index) h.scrapes) in
    let up_counted : Reads row "app_targets_count" up = rw same count_read in
    (
      time,
      record {
        required_read = numbers;
        time_read = e;
        in_cadence = in_cadence;
        fresh = fresh;
        on_time = (
          duration,
          (
            duration_read,
            exceeds_sound row "snapshot_duration_s" duration interval duration_read
                (when-nil _ (snapshot_exceeds_interval index) h.duration),
          ),
        );
        latencies_read = (rps, (rps_read, latencies_sound index row rps rps_read h.latency));
        cadvisor =
            cadvisor_sound row cadvisor cadvisor_read
              (when-nil _ (cadvisor_unavailable index) h.cadvisor);
        scraped = (up, ready, (up_read, (up_counted, (ready_read, enough))));
        error_free =
            (eq_iff row.error "").0
              (not-false _ (when-nil _ (collection_error index row.error) h.error));
      },
    )

latest_lem :
    (previous : Option ℕ) (row : Row) (time : ℕ)
    → Reads row "timestamp" time
    → latest (stamped previous) row ≡ stamped (some time)
latest_lem previous row time e = rw (e, latest) refl

rows_sound :
    (index interval : ℕ) (previous : Option ℕ) (rows : List Row)
    → rows_reasons index interval (stamped previous) rows ≡ []
    → AreGood interval previous rows
unfolding rows_reasons
rows_sound index interval previous [] h = done
rows_sound index interval previous (row ∷ rows) h =
    let (first, rest) =
      append-nil_inv (row_reasons index interval (stamped previous) row)
        (rows_reasons (suc index) interval (latest (stamped previous) row) rows) h in
    let (time, g) = row_sound index interval previous row (row_reasons-nil _ _ _ _ first) in
    good time g (
      rows_sound (suc index) interval (some time) rows
        (rw (latest_lem previous row time g.time_read) at rest))

is_empty_sound : (xs : List Reason) → is_empty xs ≡ true → xs ≡ []
is_empty_sound [] h = refl
is_empty_sound (x ∷ xs) h = absurd (cc h)

not_empty : (rows : List Row) → is_empty rows ≡ false → rows ≢ []
not_empty [] h = absurd (cc h)
not_empty (row ∷ rows) h = λ e. cc e

is_count_sound : (n : ℕ) (z : ℤ) → is_count n z ≡ true → pos n ≡ z
is_count_sound n (pos m) h = ap pos ((eqb_iff n m).0 h)
is_count_sound n (negsuc m) h = absurd (cc h)

pub no_reasons :
    (rows : List Row) (expected : ℤ) (interval : ℕ)
    → (validate_rows rows expected interval).reasons ≡ []
    → (pos (length rows) ≡ expected) × AreGood interval none rows
unfolding validate_rows
no_reasons rows expected interval h =
    let counted =
      when (not (is_count (length rows) expected)) (sample_count (length rows) expected) in
    let (count, each) = append-nil_inv counted (rows_reasons 0 interval none rows) h in
    (
      is_count_sound (length rows) expected
          (not-false _ (when-nil _ (sample_count (length rows) expected) count)),
      rows_sound 0 interval none rows each,
    )

pub validate_rows_faultless :
    (rows : List Row) (expected : ℤ) (interval : ℕ)
    → (validate_rows rows expected interval).passed ≡ true
    → (validate_rows rows expected interval).reasons ≡ []
unfolding validate_rows
validate_rows_faultless rows expected interval h =
    is_empty_sound _ (and_true _ (not (is_empty rows)) h).0

-- A validation passes only if there are as many rows as expected, and at least one, and every row is
-- good: its required readings are finite and not negative, its time is later than the one before by
-- at most one and a half intervals, its three sources are at most 6 seconds older and 1 second newer,
-- its snapshot took at most an interval, it has the latencies if there is traffic, cadvisor is up,
-- all targets are scraped and as many as there are ready replicas, and there is no error.
pub validate_rows_sound :
    (rows : List Row) (expected : ℤ) (interval : ℕ)
    → (validate_rows rows expected interval).passed ≡ true
    → (pos (length rows) ≡ expected) × (rows ≢ []) × AreGood interval none rows
unfolding validate_rows
validate_rows_sound rows expected interval h =
    let reasons = (validate_rows rows expected interval).reasons in
    let (faultless, nonempty) = and_true (is_empty reasons) (not (is_empty rows)) h in
    let (count, each) = no_reasons rows expected interval (is_empty_sound reasons faultless) in
    (count, not_empty rows (not-true _ nonempty), each)
