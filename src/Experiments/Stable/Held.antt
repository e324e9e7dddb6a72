-- ===== src/Experiments/Stable/Held.antt =====
-- What the replicas were when the wait ended.
use kavach_ai.Common.{
  ℕ, zero, suc, ◌+◌, ◌≤◌, ◌<◌, ltb, leb, true, Bool-cases, ◌≡◌, ◌≢◌, refl, ◌⊎◌, inl, inr, ap,
  Option, none, some, List, [], ◌∷◌, ◌++◌, arith,
}
use kavach_ai.Experiments.Stable.{Poll, stable, timed_out, at_target, since, wait_stable}

-- every poll up to one that is at least `hold` after `time` has seen the target
pub data Held (target deadline hold time : ℕ) : List Poll → Type 0 where
  long_enough :
      {p : Poll} {polls : List Poll}
      → p.entered < deadline
      → at_target target p ≡ true
      → time + hold ≤ p.checked
      → Held target deadline hold time (p ∷ polls)
  still :
      {p : Poll} {polls : List Poll}
      → p.entered < deadline
      → at_target target p ≡ true
      → Held target deadline hold time polls
      → Held target deadline hold time (p ∷ polls)

-- from some poll on, that has seen the target, it was held
pub record IsStable (target deadline hold : ℕ) (polls : List Poll) : Type 0 where
  pub before : List Poll
  pub first : Poll
  pub after : List Poll
  pub splits : polls ≡ before ++ first ∷ after
  pub held : Held target deadline hold first.started (first ∷ after)

wrong_end : timed_out ≢ stable
wrong_end h = cc

module _ (target deadline hold : ℕ) where
  later :
      (p : Poll) (polls : List Poll)
      → IsStable target deadline hold polls
      → IsStable target deadline hold (p ∷ polls)
  later p polls h = record {
    before = p ∷ h.before;
    first = h.first;
    after = h.after;
    splits = ap (λ qs. p ∷ qs) h.splits;
    held = h.held;
  }

  from_here :
      (p : Poll) (polls : List Poll)
      → Held target deadline hold p.started (p ∷ polls)
      → IsStable target deadline hold (p ∷ polls)
  from_here p polls h = record { before = []; first = p; after = polls; splits = refl; held = h }

  -- the two cases of a round that ends or leads to a stable wait
  round_sound :
      (start : Option ℕ) (p : Poll) (polls : List Poll)
      → wait_stable target deadline hold start (p ∷ polls) ≡ stable
      → (p.entered < deadline)
        × (((at_target target p ≡ true)
              × ((since start p + hold ≤ p.checked)
                  ⊎ (wait_stable target deadline hold (some (since start p)) polls ≡ stable)))
            ⊎ (wait_stable target deadline hold none polls ≡ stable))
  unfolding wait_stable
  round_sound start p polls h = elim (Bool-cases (ltb p.entered deadline)) [
    | inr late ↦ absurd (wrong_end (rw late at h))
    | inl early ↦ elim (Bool-cases (at_target target p)) [
      | inr off ↦ (ground arith, inr (rw (early, off) at h))
      | inl on ↦ elim (Bool-cases (leb (since start p + hold) p.checked)) [
        | inl long ↦ (ground arith, inl (on, inl (ground arith)))
        | inr short ↦ (ground arith, inl (on, inr (rw (early, on, short) at h)))
      ]
    ]
  ]

  close :
      (start : Option ℕ) (p : Poll) (polls : List Poll)
      → Held target deadline hold (since start p) (p ∷ polls)
      → IsStable target deadline hold (p ∷ polls)
        ⊎ ((t : ℕ) × (start ≡ some t) × Held target deadline hold t (p ∷ polls))
  close none p polls h = inl (from_here p polls h)
  close (some zero) p polls h = inl (from_here p polls h)
  close (some (suc t)) p polls h = inr (suc t, refl, h)

  wait_sound :
      (start : Option ℕ) (polls : List Poll)
      → wait_stable target deadline hold start polls ≡ stable
      → IsStable target deadline hold polls
        ⊎ ((t : ℕ) × (start ≡ some t) × Held target deadline hold t polls)
  unfolding wait_stable
  wait_sound start [] h = absurd (cc h)
  wait_sound start (p ∷ polls) h =
      let (early, ends) = round_sound start p polls h in
      elim ends [
        | inl (on, inl long) ↦ close start p polls (long_enough early on long)
        | inl (on, inr rest) ↦ elim (wait_sound (some (since start p)) polls rest) [
          | inl found ↦ inl (later p polls found)
          | inr (t, same, held) ↦
              let e : t ≡ since start p = ground arith in
              close start p polls (still early on (rw e at held))
        ]
        | inr rest ↦ elim (wait_sound none polls rest) [
          | inl found ↦ inl (later p polls found)
          | inr (t, same, held) ↦ absurd (cc same)
        ]
      ]

-- The wait ends with stable replicas only if, before the deadline, from some poll on every poll up to
-- the last has seen exactly the wanted number of ready replicas and of replicas, and the last was
-- checked at least the holding time after the first one's start.
pub wait_stable-IsStable :
    (target deadline hold : ℕ) (polls : List Poll)
    → wait_stable target deadline hold none polls ≡ stable
    → IsStable target deadline hold polls
wait_stable-IsStable target deadline hold polls h =
    elim (wait_sound target deadline hold none polls h) [
      | inl found ↦ found
      | inr (t, same, held) ↦ absurd (cc same)
    ]
