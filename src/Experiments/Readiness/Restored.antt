-- ===== src/Experiments/Readiness/Restored.antt =====
-- What the measurement of readiness asks of the deployment.
use kavach_ai.Common.{ℕ, zero, suc, false, ◌≡◌, refl, sym, ap, ◌∙◌, List, [], ◌∷◌, ◌++◌, append-nil}
use kavach_ai.Py.{Result, ok, raised, raise_if, raise_if-ok}
use kavach_ai.Collector.Clients.{make_clients, IsTestbed, make_clients-IsTestbed}
use kavach_ai.Experiments.Readiness.{
  wait_replicas, Round, Row, Scaling, after, ◌>>=◌, ◌>>◌, give, scale, observe, observe_all, Site,
  restore, main,
}

after-eq-ok :
    {A B : Type 0} (s : Scaling A) (next : A → Scaling B) {calls : List ℕ} {y : B}
    → after s next ≡ (calls, ok y)
    → (x : A) × (s.1 ≡ ok x) × ((next x).1 ≡ ok y) × (calls ≡ s.0 ++ (next x).0)
after-eq-ok (first, ok x) next h = (x, refl, ap (λ p. p.1) h, ap (λ p. p.0) (sym h))
after-eq-ok (first, raised e) next h = absurd (cc h)

-- the requests of so many repetitions
abbrev pub alternately : ℕ → List ℕ
alternately zero = []
alternately (suc n) = 1 ∷ 2 ∷ alternately n

-- one row for each repetition, in order
abbrev pub IsNumbered : (left repetition : ℕ) → List Row → Type 0
IsNumbered zero i [] = Unit
IsNumbered (suc left) i (r ∷ rows) = (r.repetition ≡ i) × IsNumbered left (suc i) rows
IsNumbered _ i _ = ⊥

-- the steps of a repetition, by what they give
abbrev steps : (a b c d e : Result (Unit {0})) → Row → Scaling Row
steps a b c d e row = scale 1 a >> (give b >> (scale 2 c >> (give d >> (give e >> give (ok row)))))

steps_sound :
    (a b c d e : Result (Unit {0})) (made row : Row) (i : ℕ)
    → made.repetition ≡ i
    → (steps a b c d e made).1 ≡ ok row
    → ((steps a b c d e made).0 ≡ 1 ∷ 2 ∷ []) × (row.repetition ≡ i)
steps_sound (ok _) (ok _) (ok _) (ok _) (ok _) made row i n h =
    let same : made ≡ row = cc h in (refl, ap (λ r. r.repetition) (sym same) ∙ n)
steps_sound (raised x) b c d e made row i n h = absurd (cc h)
steps_sound (ok _) (raised x) c d e made row i n h = absurd (cc h)
steps_sound (ok _) (ok _) (raised x) d e made row i n h = absurd (cc h)
steps_sound (ok _) (ok _) (ok _) (raised x) e made row i n h = absurd (cc h)
steps_sound (ok _) (ok _) (ok _) (ok _) (raised x) made row i n h = absurd (cc h)

observe_sound :
    (i : ℕ) (r : Round) (row : Row)
    → (observe i r).1 ≡ ok row
    → ((observe i r).0 ≡ 1 ∷ 2 ∷ []) × (row.repetition ≡ i)
unfolding observe
observe_sound i r row h =
    steps_sound r.scaled_down (wait_replicas 1 r.down_deadline r.down) r.scaled_up
      (wait_replicas 2 r.up_deadline r.up) r.pods _ row i refl h

observe_all_sound :
    (left i : ℕ) (rounds : ℕ → Round) (rows : List Row)
    → (observe_all left i rounds).1 ≡ ok rows
    → ((observe_all left i rounds).0 ≡ alternately left) × IsNumbered left i rows
unfolding observe_all
observe_all_sound zero i rounds [] h = (refl, tt)
observe_all_sound zero i rounds (r ∷ rows) h = absurd (cc h)
observe_all_sound (suc left) i rounds rows h =
    by_round (observe i (rounds i)) (observe_sound i (rounds i)) (observe_all left (suc i) rounds)
      (observe_all_sound left (suc i) rounds) rows h
  where
    by_round :
        (one : Scaling Row)
        → ((row : Row) → one.1 ≡ ok row → (one.0 ≡ 1 ∷ 2 ∷ []) × (row.repetition ≡ i))
        → (more : Scaling (List Row))
        → ((rows : List Row)
            → more.1 ≡ ok rows
            → (more.0 ≡ alternately left) × IsNumbered left (suc i) rows)
        → (rows : List Row) → (one >>= λ row. more >>= λ rest. give (ok (row ∷ rest))).1 ≡ ok rows
        → ((one >>= λ row. more >>= λ rest. give (ok (row ∷ rest))).0 ≡ alternately (suc left))
          × IsNumbered (suc left) i rows
    by_round (calls, ok row) first (others, ok rest) later (r ∷ rows) h =
        let (a, n) = first row refl in
        let (b, m) = later rest refl in
        let same : row ≡ r = cc h in
        let tail : rest ≡ rows = cc h in
        (
          rw (a, b) (ap (λ xs. 1 ∷ 2 ∷ xs) (append-nil (alternately left))),
          (rw (sym same) n, rw (sym tail) m),
        )
    by_round (calls, ok row) first (others, ok rest) later [] h = absurd (cc h)
    by_round (calls, raised e) first more later rows h = absurd (cc h)
    by_round (calls, ok row) first (others, raised e) later rows h = absurd (cc h)

-- the guards ask for nothing
guarded :
    {A : Type 0} {r : Result A} {next : A → Scaling (List Row)} {rows : List Row}
    → (after (give r) next).1 ≡ ok rows
    → (x : A) × (r ≡ ok x) × ((next x).1 ≡ ok rows) × ((after (give r) next).0 ≡ (next x).0)
guarded {r = ok x} h = (x, refl, h, refl)
guarded {r = raised e} h = absurd (cc h)

restore_sound :
    (r : Result (Unit {0})) (s : Scaling (List Row)) (rows : List Row)
    → (restore r s).1 ≡ ok rows
    → (s.1 ≡ ok rows) × ((restore r s).0 ≡ s.0 ++ 1 ∷ [])
restore_sound (ok _) s rows h = (h, refl)
restore_sound (raised e) s rows h = absurd (cc h)

-- If the measurement returns, it has asked for one and two replicas in turn, five times each, and at
-- last for one again, and its rows are numbered in order.
pub main_sound :
    (site : Site) (rows : List Row)
    → (main site).1 ≡ ok rows
    → ((main site).0 ≡ alternately 5 ++ 1 ∷ []) × IsNumbered 5 0 rows
unfolding main
main_sound site rows h =
    let (_, _, h0, e0) = guarded {r = make_clients site.net site.clients} h in
    let (busy, _, h1, e1) = guarded {r = site.load_pods} h0 in
    let (_, _, h2, e2) = guarded {r = raise_if busy _} h1 in
    let (scaled, _, h3, e3) = guarded {r = site.autoscalers} h2 in
    let (_, _, h4, e4) = guarded {r = raise_if scaled _} h3 in
    let (observed, e5) = restore_sound site.restored (observe_all 5 0 site.rounds) rows h4 in
    let (asked, numbered) = observe_all_sound 5 0 site.rounds rows observed in
    (e0 ∙ e1 ∙ e2 ∙ e3 ∙ e4 ∙ e5 ∙ ap (λ xs. xs ++ 1 ∷ []) asked, numbered)

-- how the command has ended: it refused the testbed, or it has scaled the deployment and has then asked
-- for one replica, in which case the testbed is the local one without load pods and autoscalers
pub data Handled (site : Site) : List ℕ → Type 0 where
  refused : Handled site []
  restored :
      (calls : List ℕ)
      → IsTestbed site.net site.clients
      → site.load_pods ≡ ok false
      → site.autoscalers ≡ ok false
      → Handled site (calls ++ 1 ∷ [])

refuses :
    {site : Site} {A : Type 0} (r : Result A) (next : A → Scaling (List Row))
    → ((x : A) → r ≡ ok x → Handled site (next x).0)
    → Handled site (after (give r) next).0
refuses (ok x) next h = h x refl
refuses (raised e) next h = refused

restore-calls : (r : Result (Unit {0})) (s : Scaling (List Row)) → (restore r s).0 ≡ s.0 ++ 1 ∷ []
restore-calls (ok _) s = refl
restore-calls (raised e) s = refl

-- Whatever raises, the command has either asked the deployment for nothing, or it has found the local
-- testbed idle and its last request is for one replica.
pub main-Handled : (site : Site) → Handled site (main site).0
unfolding main
main-Handled site = refuses (make_clients site.net site.clients) _ (λ _ clients.
    refuses site.load_pods _ (λ busy load_pods. refuses (raise_if busy _) _ (λ _ idle.
      refuses site.autoscalers _ (λ scaled autoscalers. refuses (raise_if scaled _) _ (λ _ manual.
        rw (restore-calls site.restored (observe_all 5 0 site.rounds)) (
          restored (observe_all 5 0 site.rounds).0
            (make_clients-IsTestbed site.net site.clients clients)
            (load_pods ∙ ap ok (raise_if-ok busy _ idle))
            (autoscalers ∙ ap ok (raise_if-ok scaled _ manual))))))))
