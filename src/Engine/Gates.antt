-- ===== src/Engine/Gates.antt =====
-- The goal gates at a terminal node.
use attractor.Prelude.{
  ◌≡◌, refl, subst, true, none, some, List, [], ◌∷◌, Text, Map, Option-cases, inl, inr, ◌⊎◌, In,
  arith, ==_iff, all, all-In, map_get, map_erase, map_get-map_erase, ==_refl,
}
use attractor.Types.{NodeId, fail}
use attractor.Graph.{Graph, NodeVariant, to_base}
use attractor.Handler.{Outcome, RunConfig, default_outcome}
use attractor.Engine.Env.{RunState}
use attractor.Engine.Terminal.{
  finish, go_on, GateInfo, unsatisfied_gates, untargeted_gate, has_target, erase_gates, check_gates,
  retry_gates, terminal_step, gate_retry_target, allowed_partial,
}
use attractor.Engine.SentBack.{check_gates-go_on}
use attractor.Engine.OpenGates.{
  IsOpenGate, entry_of, open-In, IsSource, In-IsSource, NoOpenGate, IsAllowedPartial,
  allowed_partial-some,
}

has_target-some : (t : NodeId) (g : GateInfo) → has_target t g ≡ true → g.retry_target ≡ some t
unfolding has_target
has_target-some t g h = elim (Option-cases g.retry_target) [
  | inl e ↦ absurd (ground arith)
  | inr (u, e) ↦ let q : u ≡ t = (==_iff u t).0 (ground arith) in cc
]

erase_keeps-none :
    (k : Text) (gs : List GateInfo) (m : Map Outcome)
    → map_get k m ≡ none
    → map_get k (erase_gates gs m) ≡ none
unfolding erase_gates
erase_keeps-none k [] m h = h
erase_keeps-none k (g ∷ gs) m h =
    erase_keeps-none k gs (map_erase g.gate_id m) (ground (arith, map_get-map_erase g.gate_id k m))

erase-none :
    (gs : List GateInfo) (m : Map Outcome) (g : GateInfo)
    → In g gs
    → map_get g.gate_id (erase_gates gs m) ≡ none
unfolding erase_gates
erase-none [] m g i = elim i [ ]
erase-none (x ∷ gs) m g (inl e) =
    erase_keeps-none g.gate_id gs (map_erase x.gate_id m)
      (rw e (ground (arith, map_get-map_erase x.gate_id x.gate_id m, ==_refl x.gate_id)))
erase-none (x ∷ gs) m g (inr i) = erase-none gs (map_erase x.gate_id m) g i

module _ {W : Type 0} (graph : Graph) (config : RunConfig) where
  retry_gates-finish :
      (gs : List GateInfo) (front : NodeId) (s : RunState W) (o : Outcome)
      → retry_gates config gs front s ≡ finish o
      → o.status ≡ fail
  unfolding retry_gates
  retry_gates-finish gs front s o h = ground arith

  check_gates-finish :
      (g : GateInfo) (gs : List GateInfo) (s : RunState W) (o : Outcome)
      → check_gates config g gs s ≡ finish o
      → o.status ≡ fail
  unfolding check_gates
  check_gates-finish g gs s o h = elim (Option-cases (untargeted_gate (g ∷ gs))) [
    | inr (id, e) ↦ ground arith
    | inl e ↦ elim (Option-cases g.retry_target) [
      | inl q ↦ ground arith
      | inr (front, q) ↦ retry_gates-finish (g ∷ gs) front s o (ground arith)
    ]
  ]

  -- At a terminal node the run fails, and then a gate is open; or no gate is open, and the outcome
  -- is the plain success or a recorded partial success of a node that allows it.
  pub terminal_step-finish :
      (s : RunState W) (o : Outcome)
      → terminal_step graph config s ≡ finish o
      → ((o.status ≡ fail) × ((g : GateInfo) × IsSource graph s.node_outcomes g))
        ⊎ (NoOpenGate graph s.node_outcomes
            × ((o ≡ default_outcome) ⊎ IsAllowedPartial graph s.node_outcomes o))
  unfolding terminal_step
  terminal_step-finish s o h = by_gates (unsatisfied_gates graph s.node_outcomes) refl
    where
      no_gate : unsatisfied_gates graph s.node_outcomes ≡ [] → NoOpenGate graph s.node_outcomes
      no_gate e id p gv i g =
          subst (In (entry_of graph id gv)) e (open-In graph s.node_outcomes id p gv i g)

      by_gates :
          (gs : List GateInfo)
          → unsatisfied_gates graph s.node_outcomes ≡ gs
          → ((o.status ≡ fail) × ((g : GateInfo) × IsSource graph s.node_outcomes g))
            ⊎ (NoOpenGate graph s.node_outcomes
                × ((o ≡ default_outcome) ⊎ IsAllowedPartial graph s.node_outcomes o))
      by_gates [] e = elim (Option-cases (allowed_partial graph s.node_outcomes)) [
        | inl q ↦ inr (no_gate e, inl (ground arith))
        | inr (p, q) ↦
            inr (no_gate e, inr (allowed_partial-some graph s.node_outcomes o (ground arith)))
      ]
      by_gates (g ∷ gs) e = inl (
        check_gates-finish g gs s o (ground arith),
        (g, In-IsSource graph s.node_outcomes g (rw e (inl refl))),
      )

  retry_gates-go_on :
      (gs : List GateInfo) (front : NodeId) (s t : RunState W)
      → retry_gates config gs front s ≡ go_on t
      → (all (has_target front) gs ≡ true)
        × (t.current_id ≡ front)
        × (t.node_outcomes ≡ erase_gates gs s.node_outcomes)
  unfolding retry_gates
  retry_gates-go_on gs front s t h = (ground arith, ground arith, ground arith)

  -- The gates send the run back only to the one retry target of every open gate, and what was
  -- recorded for these gates is forgotten.
  pub terminal_step-retry :
      (s t : RunState W) (id : NodeId) (o : Outcome) (gv : NodeVariant)
      → terminal_step graph config s ≡ go_on t
      → In (id, o) s.node_outcomes
      → IsOpenGate graph id o gv
      → (gate_retry_target graph (to_base gv) ≡ some t.current_id)
        × (map_get id t.node_outcomes ≡ none)
  unfolding terminal_step
  terminal_step-retry s t id o gv h i g = by_gates (unsatisfied_gates graph s.node_outcomes) refl
    where
      by_gates :
          (gs : List GateInfo)
          → unsatisfied_gates graph s.node_outcomes ≡ gs
          → (gate_retry_target graph (to_base gv) ≡ some t.current_id)
            × (map_get id t.node_outcomes ≡ none)
      by_gates [] e =
          absurd (subst (In (entry_of graph id gv)) e (open-In graph s.node_outcomes id o gv i g))
      by_gates (x ∷ xs) e =
          let c : check_gates config x xs s ≡ go_on t = ground arith in
          let r = check_gates-go_on config x xs s t c in
          let q = retry_gates-go_on (x ∷ xs) r.0 s t r.1 in
          let m : In (entry_of graph id gv) (x ∷ xs) =
            subst (In (entry_of graph id gv)) e (open-In graph s.node_outcomes id o gv i g) in
          (
            has_target-some t.current_id (entry_of graph id gv)
                (rw q.1 (all-In (has_target r.0) (x ∷ xs) q.0 (entry_of graph id gv) m)),
            rw q.2 (erase-none (x ∷ xs) s.node_outcomes (entry_of graph id gv) m),
          )
