-- ===== src/Engine/Assertions.antt =====
-- The assertion of HandlerRegistry::resolve never fails in a run with a default handler.
use attractor.Prelude.{
  length, ◌%◌, ◌^◌, ℕ, zero, suc, ◌≡◌, ◌≢◌, false, none, some, Bool-cases, Option-cases, inl, inr,
  is_empty, map_get, Result, ok, err, Text,
}
use attractor.Json.{Json}
use attractor.Types.{NodeId, NodeShape}
use attractor.Graph.{Graph, Node, NodeVariant, Edge, to_base}
use attractor.Handler.{RunConfig, Outcome}
use attractor.Context.{snapshot}
use attractor.Checkpoint.{CheckpointData}
use attractor.Registry.{HandlerRegistry, shape_to_handler_type, resolve_by_shape, resolve}
use attractor.Selection.{select_edge}
use attractor.Engine.Env.{Env, Handler, RunState, find_start_node, find_node, is_terminal}
use attractor.Engine.Stage.{execute_stage}
use attractor.Engine.Terminal.{Verdict, finish, go_on, terminal_step, exceeds}
use attractor.Engine.Run.{
  announce, StepResult, finished, advance, restart, aborted, is_failure, follow_edge, settle,
  complete_stage, run_stage, node_step, step, after_load, resume_run, begin_run, assertion_failed,
  run_loop, run_from, run,
}

resolve_by_shape-some :
    {H : Type 0} (r : HandlerRegistry H) (h : H) (shape : NodeShape)
    → r.m_default_handler ≡ some h
    → resolve_by_shape r shape ≢ none
unfolding resolve_by_shape
resolve_by_shape-some r h shape d n =
    elim (Option-cases (map_get (shape_to_handler_type shape) r.m_handlers)) [
      | inl e ↦ absurd (cc (rw (e, resolve_by_shape) at n))
      | inr w ↦ absurd (cc (rw (w.1, resolve_by_shape) at n))
    ]

resolve-some :
    {H : Type 0} (r : HandlerRegistry H) (h : H) (node : Node)
    → r.m_default_handler ≡ some h
    → resolve r node ≢ none
unfolding resolve
resolve-some r h node d n = elim (Bool-cases (is_empty node.node_type)) [
  | inl e ↦ resolve_by_shape-some r h node.shape d (rw (e, resolve) at n)
  | inr e ↦ elim (Option-cases (map_get node.node_type r.m_handlers)) [
    | inl q ↦ resolve_by_shape-some r h node.shape d (rw (e, q, resolve) at n)
    | inr w ↦ absurd (cc (rw (e, w.1, resolve) at n))
  ]
]

-- The round has not failed an assertion.
abbrev IsSafe : {W : Type 0} → StepResult W → Type 0
IsSafe (finished o w) = Unit
IsSafe (advance s) = Unit
IsSafe (restart id w) = Unit
IsSafe aborted = ⊥

module _ {W : Type 0} (env : Env W) (graph : Graph) (h : Handler W)
    (d : env.m_registry.m_default_handler ≡ some h) where
  follow_edge-IsSafe :
      (config : RunConfig) (node : Node) (o : Outcome) (e : Edge) (j : Json) (s : RunState W)
      → IsSafe (follow_edge env config node o e j s)
  unfolding follow_edge
  follow_edge-IsSafe config node o e j s = elim (Bool-cases e.loop_restart) [
    | inl q ↦ rw (q, follow_edge) tt
    | inr q ↦ elim (Bool-cases (is_failure o)) [
      | inr f ↦ rw (q, f, follow_edge) tt
      | inl f ↦ elim (Bool-cases (is_empty e.condition)) [
        | inr c ↦ rw (q, f, c, follow_edge) tt
        | inl c ↦ elim (Bool-cases node.goal_gate) [
          | inl g ↦ rw (q, f, c, g, follow_edge) tt
          | inr g ↦ rw (q, f, c, g, follow_edge) tt
        ]
      ]
    ]
  ]

  complete_stage-IsSafe :
      (config : RunConfig) (node : Node) (i : ℕ) (o : Outcome) (s : RunState W)
      → IsSafe (complete_stage env graph config node i o s)
  unfolding complete_stage
  complete_stage-IsSafe config node i o s =
      let t = settle env node i o s in
      elim (Option-cases (select_edge env.dump node o (snapshot t.ctx) graph)) [
        | inl e ↦ rw (e, complete_stage) tt
        | inr w ↦ rw (w.1, complete_stage) (follow_edge-IsSafe config node o w.0 (snapshot t.ctx) t)
      ]

  node_step-IsSafe :
      (config : RunConfig) (nv : NodeVariant) (s : RunState W)
      → IsSafe (node_step env graph config nv s)
  unfolding node_step run_stage
  node_step-IsSafe config nv s = elim (Option-cases (resolve env.m_registry (to_base nv))) [
    | inl e ↦ absurd (resolve-some env.m_registry h (to_base nv) d e)
    | inr w ↦
        let i = length s.completed_nodes % 2 ^ 32 in
        let r = execute_stage env w.0 nv graph config (announce env nv i s) in
        rw (w.1, node_step) (complete_stage-IsSafe config (to_base nv) i r.0 r.1)
  ]

  step-IsSafe : (config : RunConfig) (s : RunState W) → IsSafe (step env graph config s)
  unfolding step
  step-IsSafe config s = elim (Option-cases (find_node graph s.current_id)) [
    | inl e ↦ rw (e, step) tt
    | inr w ↦ elim (Bool-cases (is_terminal (to_base w.0))) [
      | inr t ↦ rw (w.1, t, step) (node_step-IsSafe config w.0 s)
      | inl t ↦ rw (w.1, t, step) (ended (terminal_step graph config s))
    ]
  ]
    where
      ended :
          (v : Verdict (RunState W))
          → IsSafe (elim v [ finish o ↦ finished o s.world | go_on t ↦ advance t ])
      ended (finish o) = tt
      ended (go_on t) = tt

  resume-IsSafe : (config : RunConfig) (id : NodeId) (w : W) → IsSafe (resume_run env config id w)
  unfolding resume_run after_load
  resume-IsSafe config id w = elim (Bool-cases (is_empty config.logs_root)) [
    | inl e ↦ rw (e, resume_run) tt
    | inr e ↦ rw (e, resume_run) (loaded (env.load_checkpoint config.logs_root w).0)
  ]
    where
      loaded :
          (r : Result Text CheckpointData)
          → IsSafe (after_load env id r (env.load_checkpoint config.logs_root w).1)
      loaded (err e) = tt
      loaded (ok cp) = tt

  begin_run-IsSafe :
      (config : RunConfig) (depth : ℕ) (id : NodeId) (w : W)
      → IsSafe (begin_run env config depth id w)
  unfolding begin_run
  begin_run-IsSafe config depth id w = elim (Bool-cases (exceeds depth config.max_loop_depth)) [
    | inl e ↦ rw (e, begin_run) tt
    | inr e ↦ elim (Bool-cases config.resume) [
      | inl r ↦ rw (e, r, begin_run) (resume-IsSafe config id w)
      | inr r ↦ rw (e, r, begin_run) tt
    ]
  ]

  run_loop-asserts :
      (fuel : ℕ) (config : RunConfig) (depth : ℕ) (r : StepResult W)
      → IsSafe r
      → run_loop env graph fuel config depth r ≢ assertion_failed
  unfolding run_loop
  run_loop-asserts fuel config depth (finished o w) i = cc
  run_loop-asserts fuel config depth aborted i = absurd i
  run_loop-asserts zero config depth (advance s) i = cc
  run_loop-asserts zero config depth (restart id w) i = cc
  run_loop-asserts (suc fuel) config depth (advance s) i =
      run_loop-asserts fuel config depth (step env graph config s) (step-IsSafe config s)
  run_loop-asserts (suc fuel) config depth (restart id w) i =
      let fresh = record config { resume = false } in
      run_loop-asserts fuel fresh (suc depth) (begin_run env fresh (suc depth) id w)
        (begin_run-IsSafe fresh (suc depth) id w)

  -- In an engine whose registry has a default handler, no run fails the assertion of `resolve`,
  -- whatever the graph, the configuration and the number of rounds.
  pub run-asserts :
      (fuel : ℕ) (config : RunConfig) (w : W) → run env graph fuel config w ≢ assertion_failed
  unfolding run run_from
  run-asserts fuel config w = elim (Option-cases (find_start_node graph)) [
    | inl e ↦ rw (e, run) (cc)
    | inr n ↦
        rw (n.1, run)
          (run_loop-asserts fuel config 0 (begin_run env config 0 (to_base n.0).id w)
            (begin_run-IsSafe config 0 (to_base n.0).id w))
  ]
