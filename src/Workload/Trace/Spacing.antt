-- ===== src/Workload/Trace/Spacing.antt =====
-- The range of the offsets of a schedule, and their order.
use kavach_ai.Common.{
  ◌≡◌, refl, ◌⊎◌, inl, inr, ℕ, zero, suc, ◌+◌, ◌≤◌, ◌<◌, List, [], ◌∷◌, ◌++◌, All, All-append,
  arith,
}
use kavach_ai.Py.{Value, str}
use kavach_ai.Workload.Config.Valid.{Stage, total_duration}
use kavach_ai.Workload.Trace.{Offset}
use kavach_ai.Workload.Trace.Schedule.{Tick, second_ticks, stage_ticks, schedule}

-- in a later second, or at a later slot of the same second
abbrev pub IsBefore : Offset → Offset → Type 0
IsBefore a b = (a.whole < b.whole) ⊎ ((a.whole ≡ b.whole) × (a.rps ≡ b.rps) × (a.slot < b.slot))

-- the request falls into a second of [from, to), at a rate of at most `cap`
pub record Within (cap from to : ℕ) (o : Offset) : Type 0 where
  pub from_le : from ≤ o.whole
  pub lt_to : o.whole < to
  pub slot_lt : o.slot < o.rps
  pub rps_le : o.rps ≤ cap

-- each offset of the list comes before all the later ones
abbrev pub Ordered : List Tick → Type 0
Ordered [] = Unit
Ordered (t ∷ ts) = All (λ u. IsBefore t.offset u.offset) ts × Ordered ts

pub second_ticks-Within :
    (cap left slot whole rps from to : ℕ) (label : Value)
    → slot + left ≤ rps
    → rps ≤ cap
    → from ≤ whole
    → whole < to
    → All (λ t. Within cap from to t.offset) (second_ticks left slot whole rps label)
second_ticks-Within cap zero slot whole rps from to label h r a b = tt
second_ticks-Within cap (suc left) slot whole rps from to label h r a b = (
  record { from_le = a; lt_to = b; slot_lt = omega arith; rps_le = r },
  second_ticks-Within cap left (suc slot) whole rps from to label (omega arith) r a b,
)

second_ticks-later :
    (left slot whole rps s : ℕ) (label : Value)
    → s < slot
    → All
        (λ u. IsBefore (record { whole = whole; slot = s; rps = rps }) u.offset)
        (second_ticks left slot whole rps label)
second_ticks-later zero slot whole rps s label h = tt
second_ticks-later (suc left) slot whole rps s label h =
    (inr (refl, refl, h), second_ticks-later left (suc slot) whole rps s label (omega arith))

second_ticks-Ordered :
    (left slot whole rps : ℕ) (label : Value) → Ordered (second_ticks left slot whole rps label)
second_ticks-Ordered zero slot whole rps label = tt
second_ticks-Ordered (suc left) slot whole rps label = (
  second_ticks-later left (suc slot) whole rps slot label (omega arith),
  second_ticks-Ordered left (suc slot) whole rps label,
)

-- everything in [from, mid) comes before everything in [mid, to)
Within-IsBefore :
    (cap from mid to : ℕ) (t : Tick) (ts : List Tick)
    → Within cap from mid t.offset
    → All (λ u. Within cap mid to u.offset) ts
    → All (λ u. IsBefore t.offset u.offset) ts
Within-IsBefore cap from mid to t [] h k = tt
Within-IsBefore cap from mid to t (u ∷ ts) h (k, ks) =
    (inl (omega (arith, h.lt_to, k.from_le)), Within-IsBefore cap from mid to t ts h ks)

Ordered-append :
    (cap from mid to : ℕ) (ts us : List Tick)
    → All (λ t. Within cap from mid t.offset) ts
    → All (λ u. Within cap mid to u.offset) us
    → Ordered ts
    → Ordered us
    → Ordered (ts ++ us)
Ordered-append cap from mid to [] us h k p q = q
Ordered-append cap from mid to (t ∷ ts) us (h, hs) k (p, ps) q = (
  All-append (λ u. IsBefore t.offset u.offset) ts us p (Within-IsBefore cap from mid to t us h k),
  Ordered-append cap from mid to ts us hs k ps q,
)

Within-widen :
    (cap from to from' to' : ℕ) (ts : List Tick)
    → from' ≤ from
    → to ≤ to'
    → All (λ t. Within cap from to t.offset) ts
    → All (λ t. Within cap from' to' t.offset) ts
Within-widen cap from to from' to' [] a b h = tt
Within-widen cap from to from' to' (t ∷ ts) a b (h, hs) =
    (omega arith, Within-widen cap from to from' to' ts a b hs)

pub stage_ticks-Within :
    (cap left whole rps : ℕ) (label : Value)
    → rps ≤ cap
    → All (λ t. Within cap whole (whole + left) t.offset) (stage_ticks left whole rps label)
stage_ticks-Within cap zero whole rps label r = tt
stage_ticks-Within cap (suc left) whole rps label r =
    All-append _ (second_ticks rps 0 whole rps label) (stage_ticks left (suc whole) rps label)
      (second_ticks-Within cap rps 0 whole rps whole (whole + suc left) label (omega arith) r
        (omega arith) (omega arith))
      (Within-widen cap (suc whole) (suc whole + left) whole (whole + suc left)
        (stage_ticks left (suc whole) rps label) (omega arith) (omega arith)
        (stage_ticks-Within cap left (suc whole) rps label r))

stage_ticks-Ordered :
    (cap left whole rps : ℕ) (label : Value)
    → rps ≤ cap
    → Ordered (stage_ticks left whole rps label)
stage_ticks-Ordered cap zero whole rps label r = tt
stage_ticks-Ordered cap (suc left) whole rps label r =
    Ordered-append cap whole (suc whole) (suc whole + left) (second_ticks rps 0 whole rps label)
      (stage_ticks left (suc whole) rps label)
      (second_ticks-Within cap rps 0 whole rps whole (suc whole) label (omega arith) r (omega arith)
        (omega arith))
      (stage_ticks-Within cap left (suc whole) rps label r)
      (second_ticks-Ordered rps 0 whole rps label)
      (stage_ticks-Ordered cap left (suc whole) rps label r)

-- no stage asks for more than the ceiling
abbrev pub RatesBelow : ℕ → List Stage → Type 0
RatesBelow cap [] = Unit
RatesBelow cap (s ∷ stages) = (s.rps ≤ cap) × RatesBelow cap stages

pub schedule-Within :
    (cap elapsed : ℕ) (stages : List Stage)
    → RatesBelow cap stages
    → All
        (λ t. Within cap elapsed (elapsed + total_duration stages) t.offset)
        (schedule elapsed stages)
schedule-Within cap elapsed [] h = tt
schedule-Within cap elapsed (s ∷ stages) (h, hs) =
    let ticks = stage_ticks s.duration elapsed s.rps (str s.label) in
    let next = elapsed + s.duration in
    All-append _ ticks (schedule next stages)
      (Within-widen cap elapsed next elapsed (elapsed + total_duration (s ∷ stages)) ticks
        (omega arith) (omega arith)
        (stage_ticks-Within cap s.duration elapsed s.rps (str s.label) h))
      (Within-widen cap next (next + total_duration stages) elapsed
        (elapsed + total_duration (s ∷ stages)) (schedule next stages) (omega arith) (omega arith)
        (schedule-Within cap next stages hs))

pub schedule-Ordered :
    (cap elapsed : ℕ) (stages : List Stage)
    → RatesBelow cap stages
    → Ordered (schedule elapsed stages)
schedule-Ordered cap elapsed [] h = tt
schedule-Ordered cap elapsed (s ∷ stages) (h, hs) =
    let next = elapsed + s.duration in
    Ordered-append cap elapsed next (next + total_duration stages)
      (stage_ticks s.duration elapsed s.rps (str s.label)) (schedule next stages)
      (stage_ticks-Within cap s.duration elapsed s.rps (str s.label) h)
      (schedule-Within cap next stages hs)
      (stage_ticks-Ordered cap s.duration elapsed s.rps (str s.label) h)
      (schedule-Ordered cap next stages hs)
