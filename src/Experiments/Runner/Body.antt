-- ===== src/Experiments/Runner/Body.antt =====
-- The calls of the `try` of `run`.
use kavach_ai.Common.{ℕ, inl, List, [], ◌∷◌}
use kavach_ai.Py.{Value, Fields}
use kavach_ai.Workload.Rng.{Rng}
use kavach_ai.Workload.Trace.{Row}
use kavach_ai.Collector.Sampling.{Doubles}
use kavach_ai.Experiments.Runner.{
  scale, create_config_map, create_pod, authorize, copy_data, Strategy, World,
}
use kavach_ai.Experiments.Runner.Reached.{
  Reached, fewer, give-Reached, call-Reached, complain_if-Reached, delete_autoscalers-Reached,
  apply_strategy-Reached, connect-Reached, created_pod-Reached, exported-Reached, reasons-Reached,
  summary-Reached,
}
use kavach_ai.Experiments.Runner.Triple.{Triple, >>=-Triple, weaken-Triple}
use kavach_ai.Experiments.Runner.Life.{prepare, offer, operate, judge, body}

module _ {w : World} where
  prepare-Reached :
      (strategy : Strategy) (replicas : ℕ)
      → Triple (Reached w []) (prepare w strategy replicas) (λ x. Reached w []) (Reached w [])
  unfolding prepare
  prepare-Reached strategy replicas = >>=-Triple (give-Reached _) (λ _.
      >>=-Triple connect-Reached (λ _. >>=-Triple (give-Reached _) (λ existing.
        >>=-Triple (delete_autoscalers-Reached existing) (λ _.
          >>=-Triple (call-Reached (scale replicas) _ (λ e. e) (λ calls h. tt)) (λ _.
            >>=-Triple (give-Reached _) (λ _. >>=-Triple (give-Reached _) (λ _.
              >>=-Triple (apply_strategy-Reached strategy) (λ _. >>=-Triple (give-Reached _) (λ _.
                >>=-Triple (give-Reached _)
                  (λ _. >>=-Triple (give-Reached _) (λ _. give-Reached _)))))))))))

  offer-Reached :
      (r : Rng) (cfg : Fields)
      → Triple
          (Reached w [])
          (offer r w cfg)
          (λ x. Reached w (create_config_map ∷ []))
          (Reached w [])
  unfolding offer
  offer-Reached r cfg = >>=-Triple (give-Reached _) (λ trace.
      >>=-Triple (call-Reached create_config_map _ (λ e. e) (λ calls h. tt)) (λ _. give-Reached _))

  operate-Reached :
      (r : Rng) (d : Doubles) (strategy : Strategy) (cfg : Fields)
      → Triple (Reached w []) (operate r d w strategy cfg) (λ x. Reached w []) (Reached w [])
  unfolding operate
  operate-Reached r d strategy cfg = >>=-Triple (offer-Reached r cfg) (λ trace.
      >>=-Triple (call-Reached create_pod _ (λ e. e) (λ calls h. h)) (λ _.
        >>=-Triple created_pod-Reached (λ _. >>=-Triple (give-Reached _) (λ _.
          >>=-Triple (give-Reached _) (λ _.
            >>=-Triple (call-Reached authorize _ (λ e. e) (λ calls h. (h.0, tt))) (λ _.
              >>=-Triple (give-Reached _) (λ config. >>=-Triple (give-Reached _) (λ _.
                >>=-Triple (give-Reached _) (λ seconds. >>=-Triple (give-Reached _) (λ duration.
                  >>=-Triple (give-Reached _) (λ collected. >>=-Triple (reasons-Reached _) (λ _.
                    >>=-Triple (give-Reached _) (λ finished.
                      >>=-Triple (call-Reached copy_data _ inl (λ calls h. (h.1.0, tt))) (λ _.
                        >>=-Triple exported-Reached
                          (λ _. weaken-Triple (give-Reached _) (λ x. fewer))))))))))))))))

  judge-Reached :
      (cfg : Fields) (ended : Value × List Row)
      → Triple (Reached w []) (judge w cfg ended) (λ x. Reached w []) (Reached w [])
  unfolding judge
  judge-Reached cfg (finished, trace) = >>=-Triple (give-Reached _) (λ replay.
      >>=-Triple (give-Reached _) (λ requests. >>=-Triple (complain_if-Reached _ _) (λ _.
        >>=-Triple (complain_if-Reached _ _) (λ _. >>=-Triple (give-Reached _) (λ code.
          >>=-Triple (complain_if-Reached _ _) (λ _. >>=-Triple (give-Reached _) (λ exceptions.
            >>=-Triple (complain_if-Reached _ _)
              (λ _. >>=-Triple (give-Reached _) (λ warmup. summary-Reached _)))))))))

  pub body-Reached :
      (r : Rng) (d : Doubles) (strategy : Strategy) (replicas : ℕ) (cfg : Fields)
      → Triple (Reached w []) (body r d w strategy replicas cfg) (λ x. Reached w []) (Reached w [])
  unfolding body
  body-Reached r d strategy replicas cfg =
      >>=-Triple (prepare-Reached strategy replicas)
        (λ _. >>=-Triple (operate-Reached r d strategy cfg) (λ ended. judge-Reached cfg ended))
