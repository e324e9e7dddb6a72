-- ===== src/Workload/Config/Stages.antt =====
-- The loop of `validate_config` over the stages.
use kavach_ai.Common.{ℕ, ◌+◌, pos, pos_part, ◌≡◌, refl, true, List, [], ◌∷◌, ap, arith, ◌∙◌}
use kavach_ai.Py.{Value, dict, Fields, get, ok, >>=-eq-ok}
use kavach_ai.Workload.Config.{classes, int_within, int_value, is_one_of, check_stage, check_stages}
use kavach_ai.Workload.Config.Valid.{Stage, total_duration, IsStage, AreStages}
use kavach_ai.Workload.Config.Guards.{
  int_within_sound, int_within_complete, is_one_of_sound, is_one_of_complete,
}

check_stage_tests :
    (ceiling : ℕ) (d : Fields) {k : ℕ}
    → check_stage (pos ceiling) (dict d) ≡ ok k
    → (int_within (pos 1) (pos 600) (get "duration_s" d) ≡ true)
      × (int_within (pos 0) (pos ceiling) (get "rps" d) ≡ true)
      × (is_one_of classes (get "label" d) ≡ true)
      × (pos_part (int_value (get "duration_s" d)) ≡ k)
unfolding check_stage
check_stage_tests ceiling d h = ground arith

check_stage_sound :
    (ceiling : ℕ) (v : Value) {k : ℕ}
    → check_stage (pos ceiling) v ≡ ok k
    → (s : Stage) × IsStage ceiling v s × (s.duration ≡ k)
check_stage_sound ceiling (dict d) h =
    let (durations, rates, labels, same) = check_stage_tests ceiling d h in
    let (n, duration, low, high) = int_within_sound 1 600 _ durations in
    let (r, rate, _, capped) = int_within_sound 0 ceiling _ rates in
    let (l, label, known) = is_one_of_sound classes _ labels in
    (
      record { duration = n; rps = r; label = l },
      record {
        fields = d;
        is_dict = refl;
        duration = duration;
        duration_pos = low;
        duration_le = high;
        rps = rate;
        rps_le = capped;
        label = label;
        label_known = known;
      },
      rw duration at same,
    )
check_stage_sound ceiling v h = unfold check_stage in absurd (cc h)

check_stage_complete :
    (ceiling : ℕ) (v : Value) (s : Stage)
    → IsStage ceiling v s
    → check_stage (pos ceiling) v ≡ ok s.duration
unfolding check_stage
check_stage_complete ceiling v s h =
    rw (h.is_dict, h.duration, h.rps, h.label)
      (rw
        (
          int_within_complete 1 600 s.duration h.duration_pos h.duration_le,
          int_within_complete 0 ceiling s.rps (omega arith) h.rps_le,
          is_one_of_complete classes s.label h.label_known,
        )
        refl)

pub check_stages_sound :
    (ceiling elapsed : ℕ) (vs : List Value) {k : ℕ}
    → check_stages (pos ceiling) elapsed vs ≡ ok k
    → (ss : List Stage) × AreStages ceiling vs ss × (elapsed + total_duration ss ≡ k)
unfolding check_stages
check_stages_sound ceiling elapsed [] h = ([], tt, ground arith)
check_stages_sound ceiling elapsed (v ∷ vs) h =
    let (n, first, rest) = >>=-eq-ok (check_stage (pos ceiling) v) _ h in
    let (s, is_stage, e) = check_stage_sound ceiling v first in
    let (ss, are_stages, total) = check_stages_sound ceiling (elapsed + n) vs rest in
    (s ∷ ss, (is_stage, are_stages), omega arith)

pub check_stages_complete :
    (ceiling elapsed : ℕ) (vs : List Value) (ss : List Stage)
    → AreStages ceiling vs ss
    → check_stages (pos ceiling) elapsed vs ≡ ok (elapsed + total_duration ss)
unfolding check_stages
check_stages_complete ceiling elapsed [] [] h = ap ok (omega arith)
check_stages_complete ceiling elapsed [] (s ∷ ss) h = absurd h
check_stages_complete ceiling elapsed (v ∷ vs) [] h = absurd h
check_stages_complete ceiling elapsed (v ∷ vs) (s ∷ ss) (is_stage, h) =
    rw (check_stage_complete ceiling v s is_stage)
      (check_stages_complete ceiling (elapsed + s.duration) vs ss h ∙ ap ok (omega arith))
