-- ===== src/Workload/Output/Tests.antt =====
-- The theorems on requests.jsonl, applied to two events whose answers come in the other order.
use mathlib.Core.List.{Perm}
use kavach_ai.Common.{ℕ, inf, refl, List, [], ◌∷◌, All}
use kavach_ai.Py.{str}
use kavach_ai.Workload.Trace.{Row}
use kavach_ai.Workload.Output.{
  Job, Answer, answered, unsent, Output, opened, send, answer, Reach, initially, next,
}
use kavach_ai.Workload.Output.Complete.{IsAnswered, Reach-IsComplete}

abbrev row_at : ℕ → Row
row_at n = record {
  sequence = n;
  offset = record { whole = 0; slot = n; rps = 5 };
  endpoint = "balance";
  user = 7;
  amount_minor = 100;
  label = str "steady";
}

abbrev job_at : ℕ → Job
job_at n = record { event = row_at n; lag = n }

abbrev trace : List Row
trace = row_at 0 ∷ row_at 1 ∷ []

abbrev an_answer : Answer
an_answer = record { status = 200; dispatched_utc = inf; completed_utc = inf; latency_ms = inf }

-- both requests are pending when the second one is answered
abbrev ended : Output
ended = record {
  left = [];
  pending = [];
  file = answered (job_at 1) an_answer ∷ answered (job_at 0) an_answer ∷ [];
  lost = [];
  drops = 0;
}

ended-Reach : Reach 5 trace ended
ended-Reach =
    next
      (next
        (next (next initially (send _ (row_at 0) (row_at 1 ∷ []) 0 refl refl))
          (send _ (row_at 1) [] 1 refl refl))
        (answer _ (job_at 0 ∷ []) (job_at 1) [] an_answer refl))
      (answer _ [] (job_at 0) [] an_answer refl)

Reach-IsComplete_example : Perm (row_at 1 ∷ row_at 0 ∷ []) trace × All IsAnswered ended.file
unfolding kavach_ai.Workload.Output.generator_valid kavach_ai.Workload.Output.has_all_lines
Reach-IsComplete_example = Reach-IsComplete ended-Reach refl refl refl
