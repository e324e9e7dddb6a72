-- ===== src/Experiments/Readiness.antt =====
-- experiments/readiness.py: the wait for a number of replicas, and the repetitions of `main`. What a
-- round reads of the clock and of the deployment comes from lists; where a list ends, the next reading of
-- the clock is at the deadline. The rows are written; writing is taken to succeed.
pub mod Restored
mod Tests
use kavach_ai.Common.{
  ℕ, zero, suc, ◌+◌, ◌-◌, ltb, Bool, true, false, ◌&&◌, Option, none, some, List, [], ◌∷◌, ◌++◌,
  if◌then◌else◌,
}
use kavach_ai.Py.{Error, runtime_error, other_error, Result, ok, raised, raise_if}
use kavach_ai.Smoke.Target.{Net}
use kavach_ai.Collector.Clients.{Cluster, make_clients}
use kavach_ai.Experiments.Stable.{is_count}

pub record Status : Type 0 where
  pub ready_replicas : Option ℕ
  pub replicas : Option ℕ

pub record Check : Type 0 where
  -- the clock at the loop's condition
  pub entered : ℕ
  pub status : Result Status

unfoldable pub wait_replicas : (count deadline : ℕ) → List Check → Result (Unit {0})
wait_replicas count deadline [] =
    raised (other_error "TimeoutError" "Did not reach the ready replicas")
wait_replicas count deadline (c ∷ checks) =
    let again = wait_replicas count deadline checks in
    if ltb c.entered deadline
    then elim c.status [
      | raised e ↦ raised e
      | ok s ↦ if is_count count s.ready_replicas && is_count count s.replicas then ok tt else again
    ]
    else raised (other_error "TimeoutError" "Did not reach the ready replicas")

-- what one repetition meets
pub record Round : Type 0 where
  pub scaled_down : Result (Unit {0})
  pub down_deadline : ℕ
  pub down : List Check
  -- the clock before the request for two replicas, and when they are ready
  pub asked : ℕ
  pub scaled_up : Result (Unit {0})
  pub up_deadline : ℕ
  pub up : List Check
  pub reached : ℕ
  pub pods : Result (Unit {0})

pub record Row : Type 0 where
  pub repetition : ℕ
  pub decision_to_ready : ℕ

-- the numbers of replicas that were asked for, in order, and how the code has ended
abbrev pub Scaling : Type 0 → Type 0
Scaling A = List ℕ × Result A

abbrev pub after : {A B : Type 0} → Scaling A → (A → Scaling B) → Scaling B
after (calls, raised e) next = (calls, raised e)
after (calls, ok x) next = let (more, r) = next x in (calls ++ more, r)

infixl 5 ◌>>=◌ ◌>>◌
abbrev pub ◌>>=◌ : {A B : Type 0} → Scaling A → (A → Scaling B) → Scaling B
s >>= next = after s next

abbrev pub ◌>>◌ : {A B : Type 0} → Scaling A → Scaling B → Scaling B
s >> next = s >>= λ _. next

abbrev pub give : {A : Type 0} → Result A → Scaling A
give r = ([], r)

-- `patch_namespaced_deployment_scale`: what is asked for is logged, whether the call returns or raises
abbrev pub scale : ℕ → Result (Unit {0}) → Scaling (Unit {0})
scale n r = (n ∷ [], r)

-- one repetition
unfoldable pub observe : (repetition : ℕ) → Round → Scaling Row
unfolding wait_replicas
observe repetition r = do
  scale 1 r.scaled_down
  give (wait_replicas 1 r.down_deadline r.down)
  scale 2 r.scaled_up
  give (wait_replicas 2 r.up_deadline r.up)
  give r.pods
  give (ok (record { repetition = repetition; decision_to_ready = r.reached - r.asked }))

-- the loop over the repetitions, with those left in front
unfoldable pub observe_all : (left repetition : ℕ) → (ℕ → Round) → Scaling (List Row)
unfolding observe
observe_all zero repetition rounds = give (ok [])
observe_all (suc left) repetition rounds = do
  row ← observe repetition (rounds repetition)
  rows ← observe_all left (suc repetition) rounds
  give (ok (row ∷ rows))

pub record Site : Type 0 where
  pub net : Net
  pub clients : Cluster
  -- whether there are load pods, and autoscalers
  pub load_pods : Result Bool
  pub autoscalers : Result Bool
  pub rounds : ℕ → Round
  pub restored : Result (Unit {0})

-- the `finally`: what it raises comes first
abbrev pub restore : Result (Unit {0}) → Scaling (List Row) → Scaling (List Row)
restore (raised e) (calls, r) = (calls ++ 1 ∷ [], raised e)
restore (ok _) (calls, r) = (calls ++ 1 ∷ [], r)

unfoldable pub main : Site → Scaling (List Row)
unfolding observe_all
main site = do
  give (make_clients site.net site.clients)
  busy ← give site.load_pods
  give
      (raise_if busy (runtime_error "Load pod exists; readiness calibration requires idle testbed"))
  scaled ← give site.autoscalers
  give (
      raise_if scaled
        (runtime_error "Remove the experiment HPA before manual readiness calibration"))
  restore site.restored (observe_all 5 0 site.rounds)
