-- ===== src/Engine/Termination.antt =====
-- The loop of `run_from` ends. A run may go round for ever in a graph whose plain edges form a
-- cycle; where they do not (a rank falls along each), the goal gates and the restarts are bounded
-- by `max_loop_depth`, and so is the whole run, whatever the handlers do.
use attractor.Prelude.{
  ℕ, zero, suc, ◌+◌, ◌-◌, ◌*◌, ◌≤◌, ◌<◌, ◌≡◌, ◌≢◌, refl, sym, ap, subst, false, Bool-cases,
  Option-cases, inl, inr, In, arith, ℤ, pos, negsuc, pos_part, ok, err, is_empty, Result, Text,
}
use attractor.Types.{NodeId}
use attractor.Graph.{Graph, Edge, to_base}
use attractor.Handler.{RunConfig}
use attractor.Checkpoint.{CheckpointData}
use attractor.Engine.Env.{Env, RunState, find_start_node}
use attractor.Engine.Terminal.{exceeds}
use attractor.Engine.Run.{
  StepResult, finished, advance, restart, aborted, step, begin_run, resume_run, after_load,
  fresh_state, out_of_fuel, run_loop, run_from, run,
}
use attractor.Engine.Kinds.{IsMove}
use attractor.Engine.Moves.{step-IsMove}

exceeds-le : (n : ℕ) (limit : ℤ) → exceeds n limit ≡ false → n ≤ pos_part limit
unfolding exceeds
exceeds-le n (pos m) h = ground arith
exceeds-le n (negsuc m) h = absurd (cc)

one_less : (x y k : ℕ) → suc x ≡ y → x * k + k ≡ y * k
one_less x y k e = rw (← e) (omega arith)

-- The hypotheses: every plain edge leads to a smaller rank, and the ranks are at most `top`.
pub record IsRanked (graph : Graph) (rank : NodeId → ℕ) (top : ℕ) : Type 0 where
  pub falls : (e : Edge) → In e graph.edges → e.loop_restart ≡ false → rank e.to < rank e.source
  pub bounded : (id : NodeId) → rank id ≤ top

module _ (rank : NodeId → ℕ) (top depth_limit : ℕ) where
  -- The rounds that one level of recursion can take.
  abbrev pub level_rounds : ℕ
  level_rounds = (depth_limit + 3) * (top + 1)

  abbrev weight : {W : Type 0} → ℕ → StepResult W → ℕ
  weight depth (finished o w) = 0
  weight depth aborted = 0
  weight depth (restart id w) = (depth_limit + 1 - depth) * level_rounds + 1
  weight depth (advance s) =
      (depth_limit + 1 - depth) * level_rounds
      + ((depth_limit + 2 - s.terminal_retry_count) * (top + 1) + (rank s.current_id + 1))

  abbrev IsFit : {W : Type 0} → ℕ → StepResult W → Type 0
  IsFit depth (finished o w) = Unit
  IsFit depth aborted = Unit
  IsFit depth (restart id w) = depth ≤ depth_limit
  IsFit depth (advance s) = (depth ≤ depth_limit) × (s.terminal_retry_count ≤ depth_limit + 1)

module _ {W : Type 0} (env : Env W) (graph : Graph) (rank : NodeId → ℕ) (top : ℕ)
    (ranked : IsRanked graph rank top) where
  move-lighter :
      (config : RunConfig) (depth : ℕ) (s : RunState W) (r : StepResult W)
      → IsFit rank top (pos_part config.max_loop_depth) depth (advance s)
      → IsMove env graph config s r
      → IsFit rank top (pos_part config.max_loop_depth) depth r
        × (weight rank top (pos_part config.max_loop_depth) depth r
            < weight rank top (pos_part config.max_loop_depth) depth (advance s))
  move-lighter config depth s (finished o w) fit m = (tt, omega arith)
  move-lighter config depth s aborted fit m = (tt, omega arith)
  move-lighter config depth s (restart id w) fit m =
      let d = pos_part config.max_loop_depth in
      let q =
        one_less (d + 1 - s.terminal_retry_count) (d + 2 - s.terminal_retry_count) (top + 1)
          (omega arith) in
      (fit.0, omega (arith, q))
  move-lighter config depth s (advance t) fit (inl m) = absurd m.1
  move-lighter config depth s (advance t) fit (inr (nv, found, inl (at_end, g))) =
      let d = pos_part config.max_loop_depth in
      let b : s.terminal_retry_count ≤ d =
        exceeds-le s.terminal_retry_count config.max_loop_depth g.below in
      let q =
        one_less (d + 2 - t.terminal_retry_count) (d + 2 - s.terminal_retry_count) (top + 1)
          (omega (arith, g.counted)) in
      ((fit.0, omega (arith, g.counted)), omega (arith, q, ranked.bounded t.current_id))
  move-lighter config depth s (advance t) fit (inr (nv, found, inr (at_stage, m))) =
      let d = pos_part config.max_loop_depth in
      let q : (d + 2 - t.terminal_retry_count) * (top + 1)
          ≡ (d + 2 - s.terminal_retry_count) * (top + 1) =
        ap (λ n. (d + 2 - n) * (top + 1)) m.count in
      let p : rank t.current_id < rank s.current_id =
        subst (λ id. rank id < rank s.current_id) (sym m.target)
          (subst (λ id. rank m.taken.to < rank id) m.leaves
            (ranked.falls m.taken m.member m.plain)) in
      ((fit.0, omega (arith, m.count)), omega (arith, q))

  -- The states from which a level starts: no gate has sent the run back yet.
  abbrev IsBegin : StepResult W → Type 0
  IsBegin (finished o w) = Unit
  IsBegin aborted = ⊥
  IsBegin (restart id w) = ⊥
  IsBegin (advance s) = s.terminal_retry_count ≡ 0

  loaded-IsBegin :
      (id : NodeId) (r : Result Text CheckpointData) (w : W) → IsBegin (after_load env id r w)
  unfolding after_load
  loaded-IsBegin id (err e) w = tt
  loaded-IsBegin id (ok cp) w = refl

  resume-IsBegin : (config : RunConfig) (id : NodeId) (w : W) → IsBegin (resume_run env config id w)
  unfolding resume_run
  resume-IsBegin config id w = elim (Bool-cases (is_empty config.logs_root)) [
    | inl e ↦ rw (e, resume_run) tt
    | inr e ↦
        rw (e, resume_run)
          (loaded-IsBegin id (env.load_checkpoint config.logs_root w).0
            (env.load_checkpoint config.logs_root w).1)
  ]

  begun-IsFit :
      (d depth : ℕ) (r : StepResult W)
      → IsBegin r
      → depth ≤ d
      → IsFit rank top d depth r
        × (weight rank top d depth r ≤ (d + 2 - depth) * level_rounds rank top d)
  begun-IsFit d depth (finished o w) b l = (tt, omega arith)
  begun-IsFit d depth aborted b l = elim b [ ]
  begun-IsFit d depth (restart id w) b l = elim b [ ]
  begun-IsFit d depth (advance s) b l =
      let q = one_less (d + 1 - depth) (d + 2 - depth) (level_rounds rank top d) (omega arith) in
      let p : (d + 2 - s.terminal_retry_count) * (top + 1) ≡ (d + 2) * (top + 1) =
        ap (λ n. n * (top + 1)) (omega arith) in
      ((l, omega arith), omega (arith, q, p, ranked.bounded s.current_id))

  begin-IsFit :
      (config : RunConfig) (depth : ℕ) (id : NodeId) (w : W)
      → IsFit rank top (pos_part config.max_loop_depth) depth (begin_run env config depth id w)
        × (weight rank top (pos_part config.max_loop_depth) depth (begin_run env config depth id w)
            ≤ (pos_part config.max_loop_depth + 2 - depth)
              * level_rounds rank top (pos_part config.max_loop_depth))
  unfolding begin_run
  begin-IsFit config depth id w = elim (Bool-cases (exceeds depth config.max_loop_depth)) [
    | inl e ↦ rw (e, begin_run) (tt, omega arith)
    | inr e ↦
        let l = exceeds-le depth config.max_loop_depth e in
        let d = pos_part config.max_loop_depth in
        elim (Bool-cases config.resume) [
          | inl r ↦
              rw (e, r, begin_run)
                (begun-IsFit d depth (resume_run env config id w) (resume-IsBegin config id w) l)
          | inr r ↦
              rw (e, r, begin_run) (begun-IsFit d depth (advance (fresh_state env id w)) refl l)
        ]
  ]

  loop-ends :
      (fuel : ℕ) (config : RunConfig) (depth : ℕ) (r : StepResult W)
      → IsFit rank top (pos_part config.max_loop_depth) depth r
      → weight rank top (pos_part config.max_loop_depth) depth r ≤ fuel
      → run_loop env graph fuel config depth r ≢ out_of_fuel
  unfolding run_loop
  loop-ends fuel config depth (finished o w) f h = cc
  loop-ends fuel config depth aborted f h = cc
  loop-ends zero config depth (restart id w) f h = absurd (omega arith)
  loop-ends zero config depth (advance s) f h = absurd (omega arith)
  loop-ends (suc fuel) config depth (advance s) f h =
      let r =
        move-lighter config depth s (step env graph config s) f (step-IsMove env graph config s) in
      loop-ends fuel config depth (step env graph config s) r.0 (omega (arith, r.1))
  loop-ends (suc fuel) config depth (restart id w) f h =
      let fresh = record config { resume = false } in
      let d = pos_part config.max_loop_depth in
      let r = begin-IsFit fresh (suc depth) id w in
      let q : (d + 2 - suc depth) * level_rounds rank top d
          ≡ (d + 1 - depth) * level_rounds rank top d =
        ap (λ n. n * level_rounds rank top d) (omega arith) in
      loop-ends fuel fresh (suc depth) (begin_run env fresh (suc depth) id w) r.0
        (omega (arith, r.1, q))

  -- In a graph whose plain edges fall in rank, `run_from` ends at every depth, whatever its
  -- handlers do: (max_loop_depth + 2) * (max_loop_depth + 3) * (top + 1) rounds are enough.
  pub run-ends :
      (fuel : ℕ) (config : RunConfig) (w : W)
      → (pos_part config.max_loop_depth + 2)
          * level_rounds rank top (pos_part config.max_loop_depth)
        ≤ fuel
      → run env graph fuel config w ≢ out_of_fuel
  unfolding run run_from
  run-ends fuel config w h = elim (Option-cases (find_start_node graph)) [
    | inl e ↦ rw (e, run) (cc)
    | inr (nv, e) ↦
        let r = begin-IsFit config 0 (to_base nv).id w in
        let d = pos_part config.max_loop_depth in
        let first_level : (d + 2 - 0) * level_rounds rank top d
            ≡ (d + 2) * level_rounds rank top d =
          ap (λ n. n * level_rounds rank top d) (omega arith) in
        rw (e, run)
          (loop-ends fuel config 0 (begin_run env config 0 (to_base nv).id w) r.0
            (omega (arith, r.1, first_level)))
  ]
