-- ===== src/Handlers/Manager.antt =====
-- How the manager loop ends.
use attractor.Prelude.{
  ℕ, zero, suc, ◌+◌, ◌≤◌, ◌<◌, ◌≡◌, refl, true, false, Text, text, is_empty, Bool-cases, inl, inr,
  ◌⊎◌, arith, ==_refl, pos_part,
}
use attractor.Json.{Json, str}
use attractor.Types.{ConditionExpr, success, fail}
use attractor.Graph.{ManagerNode}
use attractor.Handler.{Outcome, default_outcome}
use attractor.Context.{Context, get, snapshot, has_non_finite_float}
use attractor.Context.Laws.{get-set}
use attractor.Condition.{eval_condition}
use attractor.Handlers.{decimal, enter_cycle, is_stopped, run_cycles, execute_manager_loop}

module _ (dump : Json → Text) (stop_cond : ConditionExpr) where
  -- The loop has stopped in a cycle from `first` on and before `last`: the context holds the number of
  -- the cycle, and the stop condition holds in it.
  pub record IsStopped (first last : ℕ) (ctx : Context) : Type 0 where
    pub cycle : ℕ
    pub at_least : first ≤ cycle
    pub at_most : cycle < last
    pub numbered : get (text "cycle") ctx ≡ str (decimal cycle)
    pub condition : is_empty stop_cond ≡ false
    pub holds : eval_condition dump stop_cond default_outcome (snapshot ctx) ≡ true

  enter_cycle-numbered :
      (k : ℕ) (ctx : Context)
      → get (text "cycle") (enter_cycle dump stop_cond k ctx) ≡ str (decimal k)
  unfolding enter_cycle has_non_finite_float
  enter_cycle-numbered k ctx =
      rw (get-set (text "cycle") (text "cycle") (str (decimal k)) ctx)
        (rw (==_refl (text "cycle")) refl)

  stop_condition :
      (ctx : Context)
      → is_stopped dump stop_cond ctx ≡ true
      → (is_empty stop_cond ≡ false)
        × (eval_condition dump stop_cond default_outcome (snapshot ctx) ≡ true)
  unfolding is_stopped
  stop_condition ctx e = (ground arith, ground arith)

  IsStopped-now :
      (cycle remaining : ℕ) (ctx : Context)
      → is_stopped dump stop_cond (enter_cycle dump stop_cond cycle ctx) ≡ true
      → IsStopped cycle (cycle + suc remaining) (enter_cycle dump stop_cond cycle ctx)
  IsStopped-now cycle remaining ctx e =
      let c = stop_condition (enter_cycle dump stop_cond cycle ctx) e in
      record {
        cycle = cycle;
        at_least = omega arith;
        at_most = omega arith;
        numbered = enter_cycle-numbered cycle ctx;
        condition = c.0;
        holds = c.1;
      }

  -- The stop condition does not stop the loop in a context.
  abbrev pub Misses : Context → Type 0
  Misses ctx =
      (is_empty stop_cond ≡ true)
      ⊎ (eval_condition dump stop_cond default_outcome (snapshot ctx) ≡ false)

  -- The context in the cycle `first + k`, when the loop starts with the cycle `first`.
  unfoldable pub entered : (first k : ℕ) → Context → Context
  unfolding enter_cycle
  entered first zero ctx = enter_cycle dump stop_cond first ctx
  entered first (suc k) ctx = entered (suc first) k (enter_cycle dump stop_cond first ctx)

  -- Every one of the first `n` cycles misses.
  abbrev pub AllMiss : (first n : ℕ) → Context → Type 0
  AllMiss first n ctx = (k : ℕ) → k < n → Misses (entered first k ctx)

  -- The loop ends in the context of the first cycle that does not miss.
  pub record IsFirstStop (first remaining : ℕ) (start final : Context) : Type 0 where
    pub number : ℕ
    pub bound : number < remaining
    pub final_context : final ≡ entered first number start
    pub earlier : AllMiss first number start

  abbrev pub IsEnded : (first remaining : ℕ) → Context → Outcome × Context → Type 0
  IsEnded first remaining ctx r =
      ((r.0.status ≡ success)
        × IsStopped first (first + remaining) r.1
        × IsFirstStop first remaining ctx r.1)
      ⊎ ((r.0.status ≡ fail) × AllMiss first remaining ctx)

  missed : (ctx : Context) → is_stopped dump stop_cond ctx ≡ false → Misses ctx
  unfolding is_stopped
  missed ctx e = elim (Bool-cases (is_empty stop_cond)) [
    | inl q ↦ inl q
    | inr q ↦ inr (ground arith)
  ]

  miss_first :
      (first n : ℕ) (ctx : Context)
      → Misses (enter_cycle dump stop_cond first ctx)
      → AllMiss (suc first) n (enter_cycle dump stop_cond first ctx)
      → AllMiss first (suc n) ctx
  unfolding entered
  miss_first first n ctx m h zero l = m
  miss_first first n ctx m h (suc k) l = h k (omega arith)

  stopped_later :
      (cycle remaining : ℕ) (ctx : Context) (r : Outcome × Context)
      → Misses (enter_cycle dump stop_cond cycle ctx)
      → IsEnded (suc cycle) remaining (enter_cycle dump stop_cond cycle ctx) r
      → IsEnded cycle (suc remaining) ctx r
  unfolding entered
  stopped_later cycle remaining ctx r m (inr (f, a)) = inr (f, miss_first cycle remaining ctx m a)
  stopped_later cycle remaining ctx r m (inl (s, p, t)) = inl (
    s,
    record {
      cycle = p.cycle;
      at_least = omega (arith, p.at_least);
      at_most = omega (arith, p.at_most);
      numbered = p.numbered;
      condition = p.condition;
      holds = p.holds;
    },
    record {
      number = suc t.number;
      bound = omega (arith, t.bound);
      final_context = t.final_context;
      earlier = miss_first cycle t.number ctx m t.earlier;
    },
  )

  run_cycles-IsEnded :
      (remaining cycle : ℕ) (ctx : Context)
      → IsEnded cycle remaining ctx (run_cycles dump stop_cond remaining cycle ctx)
  unfolding run_cycles entered
  run_cycles-IsEnded zero cycle ctx = inr (refl, λ k l. absurd (omega arith))
  run_cycles-IsEnded (suc remaining) cycle ctx =
      elim (Bool-cases (is_stopped dump stop_cond (enter_cycle dump stop_cond cycle ctx))) [
        | inl e ↦
            rw (e, run_cycles)
              (inl (
                refl,
                IsStopped-now cycle remaining ctx e,
                record {
                  number = zero;
                  bound = omega arith;
                  final_context = refl;
                  earlier = λ k l. absurd (omega arith);
                },
              ))
        | inr e ↦
            rw (e, run_cycles)
              (stopped_later cycle remaining ctx
                (run_cycles dump stop_cond remaining (suc cycle)
                  (enter_cycle dump stop_cond cycle ctx))
                (missed (enter_cycle dump stop_cond cycle ctx) e)
                (run_cycles-IsEnded remaining (suc cycle) (enter_cycle dump stop_cond cycle ctx)))
      ]

-- The manager loop runs the cycles from 1 to its maximum (none, if that is not positive). It
-- succeeds in the first of them in whose context the stop condition is not empty and holds: the
-- context that it leaves is the one of that cycle, with the number of the cycle under "cycle". It
-- fails where no cycle is such a one, and only there.
pub execute_manager_loop-IsStopped :
    (dump : Json → Text) (node : ManagerNode) (ctx : Context)
    → IsEnded dump node.manager_stop_condition 1
        (pos_part node.manager_max_cycles)
        ctx
        (execute_manager_loop dump node ctx)
unfolding execute_manager_loop
execute_manager_loop-IsStopped dump node ctx =
    run_cycles-IsEnded dump node.manager_stop_condition (pos_part node.manager_max_cycles) 1 ctx
