-- ===== src/Engine/Moves.antt =====
-- How a round of the loop changes the position of a run.
use attractor.Prelude.{
  ℕ, ◌≡◌, refl, ◌∙◌, some, Bool-cases, Option-cases, inl, inr, ◌++◌, ◌%◌, ◌^◌, length, In, find-In,
  arith, ==_iff, is_empty, not, ◌&&◌, [], ◌∷◌,
}
use attractor.Json.{Json}
use attractor.Types.{NodeId}
use attractor.Graph.{Graph, Node, NodeVariant, Edge, to_base}
use attractor.Handler.{Outcome, RunConfig}
use attractor.Context.{snapshot}
use attractor.Selection.{select_edge}
use attractor.Selection.Laws.{select_edge-IsEligible}
use attractor.Registry.{resolve}
use attractor.Engine.Env.{Handler, Env, RunState, find_node, has_id, is_terminal}
use attractor.Engine.Stage.{execute_stage}
use attractor.Engine.Terminal.{Verdict, finish, go_on, terminal_step}
use attractor.Engine.SentBack.{terminal_step-go_on}
use attractor.Engine.Run.{
  finished, advance, checkpoint, follow_edge, complete_stage, run_stage, node_step, step,
  is_failure, settle, announce,
}
use attractor.Engine.Kinds.{ByGates, ByStage, IsMove}
use attractor.Engine.Frame.{SameFrame, execute_stage-SameFrame}

module _ {W : Type 0} (env : Env W) (graph : Graph) (config : RunConfig) where
  checkpoint-SameFrame : (j : Json) (s : RunState W) → SameFrame s (checkpoint env config j s)
  unfolding checkpoint
  checkpoint-SameFrame j s = elim (Bool-cases (is_empty config.logs_root)) [
    | inl e ↦
        rw (e, checkpoint)
          (record { current_id = refl; completed_nodes = refl; terminal_retry_count = refl })
    | inr e ↦
        rw (e, checkpoint)
          (record { current_id = refl; completed_nodes = refl; terminal_retry_count = refl })
  ]

  follow_edge-ByStage :
      (node : Node) (o : Outcome) (e : Edge) (j : Json) (s t : RunState W)
      → In e graph.edges
      → e.source ≡ s.current_id
      → SameFrame s t
      → ByStage env graph config s node (follow_edge env config node o e j t)
  unfolding follow_edge
  follow_edge-ByStage node o e j s t m l f = elim (Bool-cases e.loop_restart) [
    | inl p ↦ rw p (record { taken = e; member = m; leaves = l; loops = p; target = refl })
    | inr p ↦ elim (Bool-cases (is_failure o && (is_empty e.condition && not node.goal_gate))) [
      | inl q ↦
          rw (p, q)
            (inr (record {
              taken = e;
              member = m;
              leaves = l;
              plain = p;
              unconditional = ground arith;
              no_gate = ground arith;
              failed = ground arith;
            }))
      | inr q ↦
          let t' = record t {
            completed_nodes = t.completed_nodes ++ node.id ∷ [];
            current_id = e.to;
          } in
          let c = checkpoint-SameFrame j t' in
          rw (p, q)
            (record {
              taken = e;
              member = m;
              leaves = l;
              plain = p;
              target = c.current_id;
              count = c.terminal_retry_count ∙ f.terminal_retry_count;
            })
    ]
  ]

  complete_stage-ByStage :
      (node : Node) (i : ℕ) (o : Outcome) (s t : RunState W)
      → node.id ≡ s.current_id
      → SameFrame s t
      → ByStage env graph config s node (complete_stage env graph config node i o t)
  unfolding complete_stage
  complete_stage-ByStage node i o s t n f =
      let t' = settle env node i o t in
      elim (Option-cases (select_edge env.dump node o (snapshot t'.ctx) graph)) [
        | inl e ↦
            rw (e, complete_stage)
              (inl (record {
                stage_outcome = o;
                context = snapshot t'.ctx;
                no_edge = e;
                returned = refl;
              }))
        | inr (taken, e) ↦
            let r = select_edge-IsEligible env.dump node o (snapshot t'.ctx) graph taken e in
            rw (e, complete_stage)
              (follow_edge-ByStage node o taken (snapshot t'.ctx) s t' r.member (r.leaves ∙ n)
                (record {
                  current_id = f.current_id;
                  completed_nodes = f.completed_nodes;
                  terminal_retry_count = f.terminal_retry_count;
                }))
      ]

  run_stage-ByStage :
      (handler : Handler W) (nv : NodeVariant) (s : RunState W)
      → (to_base nv).id ≡ s.current_id
      → ByStage env graph config s (to_base nv) (run_stage env handler graph config nv s)
  unfolding run_stage
  run_stage-ByStage handler nv s n =
      let i = length s.completed_nodes % 2 ^ 32 in
      let f = execute_stage-SameFrame env handler nv graph config (announce env nv i s) in
      let r = execute_stage env handler nv graph config (announce env nv i s) in
      complete_stage-ByStage (to_base nv) i r.0 s r.1 n (record {
        current_id = f.current_id;
        completed_nodes = f.completed_nodes;
        terminal_retry_count = f.terminal_retry_count;
      })

  node_step-ByStage :
      (nv : NodeVariant) (s : RunState W)
      → (to_base nv).id ≡ s.current_id
      → ByStage env graph config s (to_base nv) (node_step env graph config nv s)
  unfolding node_step
  node_step-ByStage nv s n = elim (Option-cases (resolve env.m_registry (to_base nv))) [
    | inl e ↦ rw (e, node_step) e
    | inr (handler, e) ↦ rw (e, node_step) (run_stage-ByStage handler nv s n)
  ]

  terminal-ByGates :
      (s : RunState W) (v : Verdict (RunState W))
      → terminal_step graph config s ≡ v
      → ByGates env graph config s (elim v [ finish o ↦ finished o s.world | go_on t ↦ advance t ])
  terminal-ByGates s (finish o) e = e
  terminal-ByGates s (go_on t) e =
      let r = terminal_step-go_on graph config s t e in
      record { counted = r.0; below = r.1; unsatisfied = r.2 }

  found-id : (id : NodeId) (nv : NodeVariant) → find_node graph id ≡ some nv → (to_base nv).id ≡ id
  unfolding find_node has_id
  found-id id nv e = (==_iff (to_base nv).id id).0 (find-In (has_id id) graph.nodes nv e).1

  pub step-IsMove : (s : RunState W) → IsMove env graph config s (step env graph config s)
  unfolding step
  step-IsMove s = elim (Option-cases (find_node graph s.current_id)) [
    | inl e ↦ inl (e, rw (e, step) refl)
    | inr (nv, e) ↦ inr (
      nv,
      e,
      elim (Bool-cases (is_terminal (to_base nv))) [
        | inl t ↦ inl (t, rw (e, t, step) (terminal-ByGates s (terminal_step graph config s) refl))
        | inr t ↦ inr (t, rw (e, t, step) (node_step-ByStage nv s (found-id s.current_id nv e)))
      ],
    )
  ]
