-- ===== src/Experiments/Tests.antt =====
-- The theorems on the experiments, applied to three polls.
use kavach_ai.Common.{refl, ℕ, ◌≡◌, ◌≢◌, ◌+◌, Option, none, some, List, [], ◌∷◌, arith}
use kavach_ai.Experiments.Stable.{Poll, stable, unfinished, wait_stable}
use kavach_ai.Experiments.Stable.Held.{long_enough, still, IsStable, wait_stable-IsStable}
use kavach_ai.Experiments.Stable.Ends.{wait_stable-ends, held-wait_stable}

-- three rounds: the replicas are ready in the last two, ten seconds apart
abbrev poll : ℕ → Option ℕ → Poll
poll now ready = record {
  entered = now;
  ready_replicas = ready;
  replicas = some 2;
  started = now + 1;
  checked = now + 1;
}

abbrev polls : List Poll
polls = poll 1 none ∷ poll 3 (some 2) ∷ poll 13 (some 2) ∷ []

polls-end : wait_stable 2 120 10 none polls ≡ stable
unfolding wait_stable
polls-end = refl

wait_stable-IsStable_example : IsStable 2 120 10 polls
wait_stable-IsStable_example = wait_stable-IsStable 2 120 10 polls polls-end

wait_stable-ends_example : wait_stable 2 (1 + 4) 10 none polls ≢ unfinished
wait_stable-ends_example =
    wait_stable-ends 2 4 10 2 1 polls (omega arith) (omega arith, (omega arith, (omega arith, tt)))
      (omega arith)

abbrev polls-IsStable : IsStable 2 120 10 polls
polls-IsStable = record {
  before = poll 1 none ∷ [];
  first = poll 3 (some 2);
  after = poll 13 (some 2) ∷ [];
  splits = refl;
  held =
      still {p = poll 3 (some 2)} (omega arith) refl
        (long_enough {p = poll 13 (some 2)} (omega arith) refl (omega arith));
}

held-wait_stable_example : wait_stable 2 120 10 none polls ≡ stable
held-wait_stable_example =
    held-wait_stable 2 120 10 polls (omega arith, (omega arith, (omega arith, tt))) polls-IsStable
      (omega arith, tt)
