-- ===== src/Collector/Sampling/Changes.antt =====
-- The events that `collect` writes.
use text.Mathlib.Text.{◌==◌}
use kavach_ai.Common.{
  String, true, false, ◌≡◌, refl, sym, ap, ◌∙◌, some, List, [], ◌∷◌, ◌++◌, arith, eq_iff, eq_refl,
  if◌then◌else◌, Bool-cases, inl, inr,
}
use kavach_ai.Py.{Error, Result, ok, raised, >>=-eq-ok}
use kavach_ai.Collector.Query.{queries}
use kavach_ai.Collector.Sampling.{
  Event, Tick, Doubles, Progress, Measured, ask, measure, version_of, set_version, is_version,
  write_events, sample,
}

-- no event of the list is about the thing with this uid
abbrev pub LacksUid : String → List Event → Type 0
LacksUid u [] = Unit
LacksUid u (e ∷ events) = ((e.uid == u) ≡ false) × LacksUid u events

abbrev pub HasUniqueEvents : List Event → Type 0
HasUniqueEvents [] = Unit
HasUniqueEvents (e ∷ events) = LacksUid e.uid events × HasUniqueEvents events

version_of-set_version :
    (k u v : String) (seen : List (String × String))
    → version_of k (set_version u v seen) ≡ (if u == k then some v else version_of k seen)
version_of-set_version k u v [] = refl
version_of-set_version k u v ((j, w) ∷ seen) =
    ground (arith, eq_iff u k, eq_iff j u, eq_iff j k, version_of-set_version k u v seen)

write_events_seen :
    (e : Event) (events : List Event) (seen : List (String × String)) (written : List Event)
    → is_version e.version (version_of e.uid seen) ≡ true
    → write_events (e ∷ events) (seen, written) ≡ write_events events (seen, written)
unfolding write_events
write_events_seen e events seen written same = rw (write_events, same) refl

write_events_new :
    (e : Event) (events : List Event) (seen : List (String × String)) (written : List Event)
    → is_version e.version (version_of e.uid seen) ≡ false
    → write_events (e ∷ events) (seen, written)
      ≡ write_events events (set_version e.uid e.version seen, written ++ e ∷ [])
unfolding write_events
write_events_new e events seen written new = rw (write_events, new) refl

-- the version of a thing that no event is about stays
version_of-write_events :
    (u : String) (events : List Event) (seen : List (String × String)) (written : List Event)
    → LacksUid u events
    → version_of u (write_events events (seen, written)).0 ≡ version_of u seen
unfolding write_events
version_of-write_events u [] seen written h = refl
version_of-write_events u (e ∷ events) seen written (other, h) =
    elim (Bool-cases (is_version e.version (version_of e.uid seen))) [
      | inl same ↦
          ap (λ p. version_of u p.0) (write_events_seen e events seen written same)
          ∙ version_of-write_events u events seen written h
      | inr new ↦
          let kept : version_of u (set_version e.uid e.version seen) ≡ version_of u seen =
            rw other at (version_of-set_version u e.uid e.version seen) in
          ap (λ p. version_of u p.0) (write_events_new e events seen written new)
          ∙ version_of-write_events u events (set_version e.uid e.version seen) (written ++ e ∷ [])
              h
          ∙ kept
    ]

-- every event of the list has the version that was written last
abbrev AreCurrent : List Event → List (String × String) → Type 0
AreCurrent [] seen = Unit
AreCurrent (e ∷ events) seen =
    (is_version e.version (version_of e.uid seen) ≡ true) × AreCurrent events seen

write_events-AreCurrent_same :
    (events : List Event) (seen : List (String × String)) (written : List Event)
    → AreCurrent events seen
    → write_events events (seen, written) ≡ (seen, written)
unfolding write_events
write_events-AreCurrent_same [] seen written h = refl
write_events-AreCurrent_same (e ∷ events) seen written (current, h) =
    rw current (write_events-AreCurrent_same events seen written h)

is_version-set_version :
    (u v : String) (seen : List (String × String))
    → is_version v (version_of u (set_version u v seen)) ≡ true
is_version-set_version u v seen =
    let same : version_of u (set_version u v seen) ≡ some v =
      rw (eq_refl u) at (version_of-set_version u u v seen) in
    rw (same, eq_refl v) refl

write_events-AreCurrent :
    (events : List Event) (seen : List (String × String)) (written : List Event)
    → HasUniqueEvents events
    → AreCurrent events (write_events events (seen, written)).0
write_events-AreCurrent [] seen written h = tt
write_events-AreCurrent (e ∷ events) seen written (alone, h) =
    elim (Bool-cases (is_version e.version (version_of e.uid seen))) [
      | inl same ↦ rw (write_events_seen e events seen written same) (
        ap (is_version e.version) (version_of-write_events e.uid events seen written alone) ∙ same,
        write_events-AreCurrent events seen written h,
      )
      | inr new ↦
          let seen' = set_version e.uid e.version seen in
          let written' = written ++ e ∷ [] in
          rw (write_events_new e events seen written new) (
            ap (is_version e.version) (version_of-write_events e.uid events seen' written' alone)
                ∙ is_version-set_version e.uid e.version seen,
            write_events-AreCurrent events seen' written' h,
          )
    ]

measure-events :
    (d : Doubles) (t : Tick) (m : Measured) (events : List Event)
    → measure d t ≡ ok m
    → t.events ≡ ok events
    → m.events ≡ events
unfolding measure
measure-events d t m events h e =
    let (pods, _, h1) = >>=-eq-ok t.pods _ h in
    let (desired, _, h2) = >>=-eq-ok t.deployment _ h1 in
    let (events', e', h3) = >>=-eq-ok t.events _ h2 in
    let (answers, _, h4) = >>=-eq-ok (ask d queries t.responses) _ h3 in
    let same : events' ≡ m.events = cc h4 in
    let both : events' ≡ events = cc (e, e') in cc (same, both)

-- what a round that is answered has written
sample_ok :
    (d : Doubles) (t : Tick) (s : Progress) (m : Measured) (events : List Event)
    → measure d t ≡ ok m
    → t.events ≡ ok events
    → let (seen, written) = write_events events (s.seen_events, s.written) in
      ((sample d t s).seen_events ≡ seen) × ((sample d t s).written ≡ written)
unfolding sample write_events
sample_ok d t s m events h has =
    rw (sym (measure-events d t m events h has)) (rw (sample, h) refl, rw (sample, h) refl)

sample_raised :
    (d : Doubles) (t : Tick) (s : Progress) (e : Error)
    → measure d t ≡ raised e
    → (sample d t s).written ≡ s.written
unfolding sample
sample_raised d t s e h = rw (sample, h) refl

-- A round that is answered, and a round after it that has the same events, each about another thing:
-- the second round writes no event, whether it is answered or not.
pub unchanged_events_not_written :
    (d : Doubles) (t t' : Tick) (s : Progress) (m : Measured) (events : List Event)
    → measure d t ≡ ok m
    → t.events ≡ ok events
    → t'.events ≡ ok events
    → HasUniqueEvents events
    → (sample d t' (sample d t s)).written ≡ (sample d t s).written
unchanged_events_not_written d t t' s m events answered has has' unique =
    by_case (measure d t') refl
  where
    by_case :
        (r : Result Measured)
        → measure d t' ≡ r
        → (sample d t' (sample d t s)).written ≡ (sample d t s).written
    by_case (raised e) h = sample_raised d t' (sample d t s) e h
    by_case (ok m') h =
        let state = write_events events (s.seen_events, s.written) in
        let (seen, written) = sample_ok d t s m events answered has in
        let (_, written') = sample_ok d t' (sample d t s) m' events h has' in
        let current = write_events-AreCurrent events s.seen_events s.written unique in
        let now : ((sample d t s).seen_events, (sample d t s).written) ≡ state =
          cc (seen, written) in
        let kept : write_events events state ≡ state =
          write_events-AreCurrent_same events state.0 state.1 current in
        written' ∙ ap (λ p. (write_events events p).1) now ∙ ap (λ p. p.1) kept ∙ sym written
