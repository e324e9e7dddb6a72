-- ===== src/Example/Samples.antt =====
-- What a round of the collector may meet: queries that answer 1, two pods and two events.
use kavach_ai.Common.{ℕ, pos, Float, List, [], ◌∷◌}
use kavach_ai.Py.{
  Value, int, str, list, dict, nil, cons, end, field, Result, ok, raised, runtime_error,
}
use kavach_ai.Collector.Query.{Response}
use kavach_ai.Collector.Sampling.{Pod, Event, Tick, Doubles, whole}

abbrev pub one : Value → Result Float
one v = ok (whole 1)

abbrev pub doubles : Doubles
doubles = record { divide = λ x y. whole 1; multiply = λ x y. whole 1; to_float = one }

-- an answer of one sample, whose number reads as 1
abbrev pub response : Response
response = record {
  fetched = ok tt;
  json = ok (
      dict (
        field "status" (str "success") (
          field "data"
            (dict (
              field "result"
                (list (
                  cons (dict (field "value" (list (cons (int (pos 7)) (cons (str "1") nil))) end))
                    nil))
                end))
            end)));
}

-- a pod that was there, and one that has come
abbrev pub old : Pod
old = record {
  uid = "a";
  phase = "Running";
  conditions = ("Ready", "True") ∷ [];
  restarts = 0 ∷ [];
  images = "sha256:1" ∷ [];
}

abbrev pub new : Pod
new = record { uid = "b"; phase = "Pending"; conditions = []; restarts = []; images = [] }

abbrev pub events : List Event
events = record { uid = "e"; version = "1" } ∷ record { uid = "f"; version = "4" } ∷ []

abbrev pub tick : ℕ → List Pod → Tick
tick n pods = record {
  stamp = whole n;
  responses = λ key. response;
  pods = ok pods;
  deployment = ok 1;
  events = ok events;
  duration = whole 1;
}

-- a round that is not answered
abbrev pub cold : Tick
cold = record (tick 1 []) { pods = raised (runtime_error "no pods") }
