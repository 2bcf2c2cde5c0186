-- ===== src/Engine/OpenGates.antt =====
-- The unsatisfied goal gates and the allowed partial successes among the recorded outcomes.
use attractor.Prelude.{
  ◌≡◌, refl, ◌∙◌, subst, true, false, some, [], ◌∷◌, Text, Map, Bool-cases, Option-cases, inl, inr,
  In, arith,
}
use attractor.Types.{NodeId, partial_success, same_status}
use attractor.Graph.{Graph, NodeVariant, to_base}
use attractor.Handler.{Outcome}
use attractor.Engine.Env.{find_node}
use attractor.Engine.Terminal.{
  GateInfo, gate_entry, unsatisfied_gates, gate_retry_target, is_satisfied, allowed_partial,
}

-- A recorded outcome that leaves its goal gate open.
pub record IsOpenGate (graph : Graph) (id : NodeId) (o : Outcome) (gv : NodeVariant) : Type 0 where
  pub found : find_node graph id ≡ some gv
  pub gate : (to_base gv).goal_gate ≡ true
  pub unmet : is_satisfied o ≡ false

module _ (graph : Graph) where
  abbrev pub entry_of : NodeId → NodeVariant → GateInfo
  entry_of id gv = record { gate_id = id; retry_target = gate_retry_target graph (to_base gv) }

  open-entry :
      (id : NodeId) (o : Outcome) (gv : NodeVariant)
      → IsOpenGate graph id o gv
      → gate_entry graph id o ≡ some (entry_of id gv)
  unfolding gate_entry
  open-entry id o gv h = rw (h.found, gate_entry) (rw (h.gate, h.unmet))

  entry-open :
      (id : NodeId) (o : Outcome) (g : GateInfo)
      → gate_entry graph id o ≡ some g
      → (gv : NodeVariant) × IsOpenGate graph id o gv × (g ≡ entry_of id gv)
  unfolding gate_entry
  entry-open id o g h = elim (Option-cases (find_node graph id)) [
    | inl e ↦ absurd (ground arith)
    | inr (gv, e) ↦
        (gv, record { found = e; gate = ground arith; unmet = ground arith }, ground arith)
  ]

  -- Every open gate is in the list of the unsatisfied gates, and nothing else is.
  pub open-In :
      (m : Map Outcome) (id : NodeId) (o : Outcome) (gv : NodeVariant)
      → In (id, o) m
      → IsOpenGate graph id o gv
      → In (entry_of id gv) (unsatisfied_gates graph m)
  unfolding unsatisfied_gates
  open-In [] id o gv i h = elim i [ ]
  open-In ((j, p) ∷ m) id o gv (inl e) h =
      let q : gate_entry graph j p ≡ some (entry_of id gv) =
        subst (λ x. gate_entry graph x.0 x.1 ≡ some (entry_of id gv)) e (open-entry id o gv h) in
      rw (q, unsatisfied_gates) (inl refl)
  open-In ((j, p) ∷ m) id o gv (inr i) h = elim (Option-cases (gate_entry graph j p)) [
    | inl e ↦ rw (e, unsatisfied_gates) (open-In m id o gv i h)
    | inr (g, e) ↦ rw (e, unsatisfied_gates) (inr (open-In m id o gv i h))
  ]

  -- The recorded outcome that an unsatisfied gate stems from.
  pub record IsSource (m : Map Outcome) (g : GateInfo) : Type 0 where
    pub id : NodeId
    pub outcome : Outcome
    pub node : NodeVariant
    pub recorded : In (id, outcome) m
    pub is_open : IsOpenGate graph id outcome node
    pub entry : g ≡ entry_of id node

  later-IsSource :
      (m : Map Outcome) (x : Text × Outcome) (g : GateInfo) → IsSource m g → IsSource (x ∷ m) g
  later-IsSource m x g s = record {
    id = s.id;
    outcome = s.outcome;
    node = s.node;
    recorded = inr s.recorded;
    is_open = s.is_open;
    entry = s.entry;
  }

  pub In-IsSource :
      (m : Map Outcome) (g : GateInfo) → In g (unsatisfied_gates graph m) → IsSource m g
  unfolding unsatisfied_gates
  In-IsSource [] g i = elim i [ ]
  In-IsSource ((j, p) ∷ m) g i = elim (Option-cases (gate_entry graph j p)) [
    | inl e ↦ later-IsSource m (j, p) g (In-IsSource m g (rw (e, unsatisfied_gates) at i))
    | inr (h, e) ↦ split h e (rw (e, unsatisfied_gates) at i) (In-IsSource m g)
  ]
    where
      split :
          (h : GateInfo)
          → gate_entry graph j p ≡ some h
          → In g (h ∷ unsatisfied_gates graph m)
          → (In g (unsatisfied_gates graph m) → IsSource m g)
          → IsSource ((j, p) ∷ m) g
      split h e (inl q) k =
          let r = entry-open j p h e in
          record {
            id = j;
            outcome = p;
            node = r.0;
            recorded = inl refl;
            is_open = r.1;
            entry = q ∙ r.2;
          }
      split h e (inr q) k = later-IsSource m (j, p) g (k q)

  abbrev pub NoOpenGate : Map Outcome → Type 0
  NoOpenGate m =
      (id : NodeId) (o : Outcome) (gv : NodeVariant) → In (id, o) m → ¬ IsOpenGate graph id o gv

  -- A recorded partial success of a node that allows it.
  pub record IsAllowedPartial (m : Map Outcome) (o : Outcome) : Type 0 where
    pub id : NodeId
    pub node : NodeVariant
    pub recorded : In (id, o) m
    pub partial : same_status o.status partial_success ≡ true
    pub found : find_node graph id ≡ some node
    pub allowed : (to_base node).allow_partial ≡ true

  later_partial :
      (m : Map Outcome) (x : Text × Outcome) (o : Outcome)
      → IsAllowedPartial m o
      → IsAllowedPartial (x ∷ m) o
  later_partial m x o s = record {
    id = s.id;
    node = s.node;
    recorded = inr s.recorded;
    partial = s.partial;
    found = s.found;
    allowed = s.allowed;
  }

  pub allowed_partial-some :
      (m : Map Outcome) (o : Outcome) → allowed_partial graph m ≡ some o → IsAllowedPartial m o
  unfolding allowed_partial
  allowed_partial-some [] o h = absurd (cc)
  allowed_partial-some ((id, p) ∷ m) o h =
      elim (Bool-cases (same_status p.status partial_success)) [
        | inr e ↦
            later_partial m (id, p) o (allowed_partial-some m o (rw (e, allowed_partial) at h))
        | inl e ↦ elim (Option-cases (find_node graph id)) [
          | inl f ↦ later_partial m (id, p) o (allowed_partial-some m o (ground arith))
          | inr (nv, f) ↦ elim (Bool-cases (to_base nv).allow_partial) [
            | inr a ↦ later_partial m (id, p) o (allowed_partial-some m o (ground arith))
            | inl a ↦
                let q : p ≡ o = ground arith in
                record {
                  id = id;
                  node = nv;
                  recorded = inl (rw q);
                  partial = subst (λ x. same_status x.status partial_success ≡ true) q e;
                  found = f;
                  allowed = a;
                }
          ]
        ]
      ]
