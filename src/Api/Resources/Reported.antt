-- ===== src/Api/Resources/Reported.antt =====
-- What the resource metrics rest on.
use kavach_ai.Common.{
  ℕ, String, ℤ, Bool, true, false, ◌≡◌, ◌≢◌, refl, sym, ap, ◌∙◌, Option, none, some, List,
  if◌then◌else◌,
}
use kavach_ai.Py.{Error, Result, ok, raised, >>=-eq-ok}
use kavach_ai.Collector.Rows.{sub_ℤ}
use kavach_ai.Api.Resources.{
  Texts, Cgroup, Reading, pairs, value_of, required, or_zero, at_least_zero, measure, is_missing,
  collect,
}

-- the numbers of a reading stand in the files
pub record IsRead (texts : Texts) (files : Cgroup) (r : Reading) : Type 0 where
  pub cpu_text : String
  pub is_cpu_text : files.cpu_stat ≡ ok cpu_text
  pub cpu : List (String × String)
  pub is_cpu : pairs texts (texts.splitlines cpu_text) ≡ ok cpu
  pub memory_text : String
  pub is_memory_text : files.memory_current ≡ ok memory_text
  pub memory : ℤ
  pub is_memory : texts.to_int memory_text ≡ ok memory
  pub inactive : ℤ
  pub usage_text : String
  pub is_usage_text : required "usage_usec" cpu ≡ ok usage_text
  pub is_usage : texts.to_int usage_text ≡ ok r.usage_usec
  pub working_set : r.working_set ≡ at_least_zero (sub_ℤ memory inactive)

measure_sound :
    (texts : Texts) (files : Cgroup) (values : ℤ × ℤ) (time : ℕ)
    → measure texts files ≡ ok values
    → IsRead texts files
        (record { usage_usec = values.1; working_set = values.0; timestamp = time })
unfolding measure
measure_sound texts files values time h =
    let (cpu_text, is_cpu_text, h1) = >>=-eq-ok files.cpu_stat _ h in
    let (cpu, is_cpu, h2) = >>=-eq-ok (pairs texts (texts.splitlines cpu_text)) _ h1 in
    let (memory_text, is_memory_text, h3) = >>=-eq-ok files.memory_current _ h2 in
    let (memory, is_memory, h4) = >>=-eq-ok (texts.to_int memory_text) _ h3 in
    let (stats_text, _, h5) = >>=-eq-ok files.memory_stat _ h4 in
    let (stats, _, h6) = >>=-eq-ok (pairs texts (texts.splitlines stats_text)) _ h5 in
    let (inactive, _, h7) =
      >>=-eq-ok (texts.to_int (or_zero (value_of "inactive_file" stats))) _ h6 in
    let (usage_text, is_usage_text, h8) = >>=-eq-ok (required "usage_usec" cpu) _ h7 in
    let (usage, is_usage, h9) = >>=-eq-ok (texts.to_int usage_text) _ h8 in
    let same : (at_least_zero (sub_ℤ memory inactive), usage) ≡ values = cc h9 in
    record {
      cpu_text = cpu_text;
      is_cpu_text = is_cpu_text;
      cpu = cpu;
      is_cpu = is_cpu;
      memory_text = memory_text;
      is_memory_text = is_memory_text;
      memory = memory;
      is_memory = is_memory;
      inactive = inactive;
      usage_text = usage_text;
      is_usage_text = is_usage_text;
      is_usage = is_usage ∙ ap (λ v. ok v.1) same;
      working_set = ap (λ v. v.0) (sym same);
    }

not_given :
    (b : Bool) (e : Error) (r : Reading)
    → ◌≢◌ {A = Result (Option Reading)} (if b then ok none else raised e) (ok (some r))
not_given true e r h = cc h
not_given false e r h = cc h

-- A reading is given only if all files could be read, and its numbers are those of the files: nothing is
-- made up for a file or an entry that is missing.
pub collect-IsRead :
    (texts : Texts) (files : Cgroup) (time : ℕ) (r : Reading)
    → collect texts files time ≡ ok (some r)
    → IsRead texts files r
unfolding collect
collect-IsRead texts files time r h = by_result (measure texts files) refl h
  where
    by_result :
        (m : Result (ℤ × ℤ))
        → measure texts files ≡ m
        → elim m [
          | raised e ↦ if is_missing e then ok none else raised e
          | ok values ↦
              ok (some (record { usage_usec = values.1; working_set = values.0; timestamp = time }))
        ]
          ≡ ok (some r)
        → IsRead texts files r
    by_result (ok values) e k =
        let same : record { usage_usec = values.1; working_set = values.0; timestamp = time } ≡ r =
          cc k in
        rw (sym same) (measure_sound texts files values time e)
    by_result (raised e) m k = absurd (not_given (is_missing e) e r k)
