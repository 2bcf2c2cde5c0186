-- ===== src/Engine/SentBack.antt =====
-- What it takes for the goal gates to send a run back from a terminal node (src/engine.cpp).
use attractor.Prelude.{suc, ◌≡◌, refl, false, Option-cases, inl, inr, arith, List, [], ◌∷◌}
use attractor.Types.{NodeId}
use attractor.Graph.{Graph}
use attractor.Handler.{RunConfig}
use attractor.Engine.Env.{RunState}
use attractor.Engine.Terminal.{
  go_on, GateInfo, terminal_step, check_gates, retry_gates, exceeds, unsatisfied_gates,
  untargeted_gate,
}

module _ {W : Type 0} where
  retry_gates-go_on :
      (config : RunConfig) (gs : List GateInfo) (front : NodeId) (s t : RunState W)
      → retry_gates config gs front s ≡ go_on t
      → (t.terminal_retry_count ≡ suc s.terminal_retry_count)
        × (exceeds s.terminal_retry_count config.max_loop_depth ≡ false)
  unfolding retry_gates
  retry_gates-go_on config gs front s t h = (ground arith, ground arith)

  pub check_gates-go_on :
      (config : RunConfig) (g : GateInfo) (gs : List GateInfo) (s t : RunState W)
      → check_gates config g gs s ≡ go_on t
      → (front : NodeId) × (retry_gates config (g ∷ gs) front s ≡ go_on t)
  unfolding check_gates
  check_gates-go_on config g gs s t h = elim (Option-cases (untargeted_gate (g ∷ gs))) [
    | inr (id, e) ↦ absurd (ground arith)
    | inl e ↦ elim (Option-cases g.retry_target) [
      | inl q ↦ absurd (ground arith)
      | inr (front, q) ↦ (front, ground arith)
    ]
  ]

  -- Some gates that are open.
  abbrev pub HasOpen : Graph → RunState W → Type 0
  HasOpen graph s =
      (g : GateInfo) × (gs : List GateInfo) × (unsatisfied_gates graph s.node_outcomes ≡ g ∷ gs)

  -- The gates send a run back only if some are open, below the limit, and count it.
  pub terminal_step-go_on :
      (graph : Graph) (config : RunConfig) (s t : RunState W)
      → terminal_step graph config s ≡ go_on t
      → (t.terminal_retry_count ≡ suc s.terminal_retry_count)
        × (exceeds s.terminal_retry_count config.max_loop_depth ≡ false)
        × HasOpen graph s
  unfolding terminal_step
  terminal_step-go_on graph config s t h = by_gates (unsatisfied_gates graph s.node_outcomes) refl
    where
      by_gates :
          (gs : List GateInfo)
          → unsatisfied_gates graph s.node_outcomes ≡ gs
          → (t.terminal_retry_count ≡ suc s.terminal_retry_count)
            × (exceeds s.terminal_retry_count config.max_loop_depth ≡ false)
            × HasOpen graph s
      by_gates [] e = absurd (ground arith)
      by_gates (g ∷ gs) e =
          let p : check_gates config g gs s ≡ go_on t = ground arith in
          let r = check_gates-go_on config g gs s t p in
          let q = retry_gates-go_on config (g ∷ gs) r.0 s t r.1 in (q.0, q.1, (g, gs, e))
