-- ===== src/Workload/Trace/Extends.antt =====
-- What the loops of `compile_trace` add to the rows.
use kavach_ai.Common.{
  ℕ, zero, suc, ◌+◌, ◌≤◌, ◌≡◌, refl, sym, List, [], ◌∷◌, ◌++◌, map, map-append, append_assoc,
  append-nil, length, length-append, All, All-append, arith, ◌<◌,
}
use kavach_ai.Py.{Value}
use kavach_ai.Workload.Config.{endpoints}
use kavach_ai.Workload.Rng.{Rng, IsRng, Picks, total}
use kavach_ai.Workload.Trace.{Offset, Row, Run, append_row, run_slots, run_seconds}
use kavach_ai.Workload.Trace.Schedule.{Tick, second_ticks, stage_ticks}

abbrev pub tick : Row → Tick
tick row = record { offset = row.offset; label = row.label }

-- the rows are numbered upwards from `n`
abbrev pub Numbered : ℕ → List Row → Type 0
Numbered n [] = Unit
Numbered n (row ∷ rows) = (row.sequence ≡ n) × Numbered (suc n) rows

Numbered-append :
    (n : ℕ) (xs ys : List Row) → Numbered n xs → Numbered (n + length xs) ys → Numbered n (xs ++ ys)
Numbered-append n [] ys h k = let e : n + 0 ≡ n = omega arith in rw e at k
Numbered-append n (x ∷ xs) ys (h, hs) k =
    let e : n + suc (length xs) ≡ suc n + length xs = omega arith in
    (h, Numbered-append (suc n) xs ys hs (rw e at k))

-- a row's drawn values are in range
pub record IsDrawn (weights : List ℕ) (row : Row) : Type 0 where
  pub endpoint : Picks endpoints weights row.endpoint
  pub user_pos : 1 ≤ row.user
  pub user_le : row.user ≤ 100
  pub amount_ge : 100 ≤ row.amount_minor
  pub amount_le : row.amount_minor ≤ 10000

pub record Extends (weights : List ℕ) (rows rows' : List Row) (ticks : List Tick) : Type 0 where
  pub new : List Row
  pub appended : rows' ≡ rows ++ new
  pub ticks_are : map tick new ≡ ticks
  pub numbered : Numbered (length rows) new
  pub drawn : All (IsDrawn weights) new

module _ {weights : List ℕ} where
  pub Extends-refl : (rows : List Row) → Extends weights rows rows []
  Extends-refl rows = record {
    new = [];
    appended = sym (append-nil rows);
    ticks_are = refl;
    numbered = tt;
    drawn = tt;
  }

  pub Extends-trans :
      {a b c : List Row} {ts us : List Tick}
      → Extends weights a b ts
      → Extends weights b c us
      → Extends weights a c (ts ++ us)
  Extends-trans {a} h k = record {
    new = h.new ++ k.new;
    appended = rw (k.appended, h.appended) (append_assoc a h.new k.new);
    ticks_are = rw (map-append, h.ticks_are, k.ticks_are);
    numbered =
        Numbered-append (length a) h.new k.new h.numbered
          (rw (← length-append a h.new) (rw (← h.appended) k.numbered));
    drawn = All-append _ h.new k.new h.drawn k.drawn;
  }

module _ (r : Rng) (laws : IsRng r) where
  append_row-Extends :
      (weights : List ℕ) (label : Value) (offset : Offset) (run : Run r)
      → length weights ≡ 5
      → 0 < total weights
      → Extends weights run.0
          (append_row r weights label offset run).0
          (record { offset = offset; label = label } ∷ [])
  unfolding append_row
  append_row-Extends weights label offset (rows, s) five some_weight =
      let (endpoint, s1) = r.choice endpoints weights s in
      let (user, s2) = r.randrange 1 101 s1 in
      let (u1, u2) = laws.randrange_within 1 101 s1 (omega arith) in
      let (a1, a2) = laws.randrange_within 100 10001 s2 (omega arith) in
      record {
        new = _;
        appended = refl;
        ticks_are = refl;
        numbered = (refl, tt);
        drawn = (
          record {
            endpoint = laws.choice_picks endpoints weights s (sym five) some_weight;
            user_pos = u1;
            user_le = omega arith;
            amount_ge = a1;
            amount_le = omega arith;
          },
          tt,
        );
      }

  pub run_slots-Extends :
      (left slot : ℕ) (weights : List ℕ) (label : Value) (whole rps : ℕ) (run : Run r)
      → length weights ≡ 5
      → 0 < total weights
      → Extends weights run.0
          (run_slots r left slot weights label whole rps run).0
          (second_ticks left slot whole rps label)
  unfolding run_slots
  run_slots-Extends zero slot weights label whole rps run five some_weight = Extends-refl run.0
  run_slots-Extends (suc left) slot weights label whole rps run five some_weight =
      let offset : Offset = record { whole = whole; slot = slot; rps = rps } in
      Extends-trans (append_row-Extends weights label offset run five some_weight) (
        run_slots-Extends left (suc slot) weights label whole rps
          (append_row r weights label offset run) five some_weight)

  pub run_seconds-Extends :
      (left whole : ℕ) (weights : List ℕ) (label : Value) (rps : ℕ) (run : Run r)
      → length weights ≡ 5
      → 0 < total weights
      → Extends weights run.0
          (run_seconds r left whole weights label rps run).0
          (stage_ticks left whole rps label)
  unfolding run_seconds
  run_seconds-Extends zero whole weights label rps run five some_weight = Extends-refl run.0
  run_seconds-Extends (suc left) whole weights label rps run five some_weight =
      Extends-trans (run_slots-Extends rps 0 weights label whole rps run five some_weight) (
        run_seconds-Extends left (suc whole) weights label rps
          (run_slots r rps 0 weights label whole rps run) five some_weight)
