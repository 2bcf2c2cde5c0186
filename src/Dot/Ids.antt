-- ===== src/Dot/Ids.antt =====
-- Attributes do not change the id of a node.
use attractor.Prelude.{◌≡◌, refl, Text, text, ◌==◌, Result, ok, ◌>>=◌, if-cases}
use attractor.Types.{
  NodeId, NodeShape, mdiamond, msquare, box, hexagon, diamond, component, triple_octagon,
  parallelogram, house,
}
use attractor.Graph.{
  Node, NodeVariant, CodergenNode, ToolNode, ManagerNode, WaitHumanNode, ParallelNode, FanInNode,
  to_base, start_node, exit_node, codergen_node, tool_node, manager_node, wait_human_node,
  parallel_node, fan_in_node, conditional_node,
}
use attractor.Dot.Position.{ParseError}
use attractor.Dot.Values.{parse_int_attr, parse_reasoning_effort}
use attractor.Dot.Attributes.{
  AttrMap, apply_each, need, positive, apply_base_attrs, apply_codergen_attr, apply_tool_attr,
  apply_manager_attr, apply_wait_human_attr, apply_parallel_attr, apply_fan_in_attr,
  parse_join_policy,
}
use attractor.Dot.Variants.{variant_of, over_base, apply_attrs_to_variant}
use attractor.Dot.Sure.{Sure, Sure-bind, Sure-each}
use attractor.Dot.BaseIds.{each-keeps, base_attrs-keep}

module _ (id : NodeId) where
  codergen-keeps :
      (n : CodergenNode) (key val : Text)
      → n.base.id ≡ id
      → Sure (λ (d : CodergenNode). d.base.id ≡ id) (apply_codergen_attr n key val)
  unfolding apply_codergen_attr
  codergen-keeps n key val h =
      let S : Result ParseError CodergenNode → Type 0 =
        Sure (λ (d : CodergenNode). d.base.id ≡ id) in
      if-cases S (key == text "prompt") _ _ (λ _. h)
        (λ _.
          if-cases S (key == text "llm_model") _ _ (λ _. h)
            (λ _.
              if-cases S (key == text "llm_provider") _ _ (λ _. h)
                (λ _.
                  if-cases S (key == text "reasoning_effort") _ _
                    (λ _.
                      Sure-each (λ (d : CodergenNode). d.base.id ≡ id)
                        (need key val (parse_reasoning_effort val)) _ (λ _. h))
                    (λ _. h))))

  tool-keeps :
      (n : ToolNode) (key val : Text)
      → n.base.id ≡ id
      → Sure (λ (d : ToolNode). d.base.id ≡ id) (apply_tool_attr n key val)
  unfolding apply_tool_attr
  tool-keeps n key val h =
      if-cases (Sure (λ (d : ToolNode). d.base.id ≡ id)) (key == text "tool_command") _ _ (λ _. h)
        (λ _. h)

  manager-keeps :
      (n : ManagerNode) (key val : Text)
      → n.base.id ≡ id
      → Sure (λ (d : ManagerNode). d.base.id ≡ id) (apply_manager_attr n key val)
  unfolding apply_manager_attr
  manager-keeps n key val h =
      let S : Result ParseError ManagerNode → Type 0 = Sure (λ (d : ManagerNode). d.base.id ≡ id) in
      if-cases S (key == text "manager.stop_condition") _ _ (λ _. h)
        (λ _.
          if-cases S (key == text "manager.max_cycles") _ _
            (λ _.
              Sure-each (λ (d : ManagerNode). d.base.id ≡ id)
                (need key val (positive (parse_int_attr val))) _ (λ _. h))
            (λ _. h))

  wait_human-keeps :
      (n : WaitHumanNode) (key val : Text)
      → n.base.id ≡ id
      → Sure (λ (d : WaitHumanNode). d.base.id ≡ id) (apply_wait_human_attr n key val)
  unfolding apply_wait_human_attr
  wait_human-keeps n key val h =
      if-cases (Sure (λ (d : WaitHumanNode). d.base.id ≡ id)) (key == text "human.default_choice") _
        _ (λ _. h) (λ _. h)

  parallel-keeps :
      (n : ParallelNode) (key val : Text)
      → n.base.id ≡ id
      → Sure (λ (d : ParallelNode). d.base.id ≡ id) (apply_parallel_attr n key val)
  unfolding apply_parallel_attr
  parallel-keeps n key val h =
      let S : Result ParseError ParallelNode → Type 0 =
        Sure (λ (d : ParallelNode). d.base.id ≡ id) in
      if-cases S (key == text "join_policy") _ _
        (λ _. Sure-each (λ (d : ParallelNode). d.base.id ≡ id) (parse_join_policy val) _ (λ _. h))
        (λ _.
          if-cases S (key == text "max_parallel") _ _
            (λ _.
              Sure-each (λ (d : ParallelNode). d.base.id ≡ id)
                (need key val (positive (parse_int_attr val))) _ (λ _. h))
            (λ _. h))

  fan_in-keeps :
      (n : FanInNode) (key val : Text)
      → n.base.id ≡ id
      → Sure (λ (d : FanInNode). d.base.id ≡ id) (apply_fan_in_attr n key val)
  unfolding apply_fan_in_attr
  fan_in-keeps n key val h =
      if-cases (Sure (λ (d : FanInNode). d.base.id ≡ id)) (key == text "prompt") _ _ (λ _. h)
        (λ _. h)

  -- The result of the attributes of a variant with the base `b`.
  abbrev HasId : NodeVariant → Type 0
  HasId nv = (to_base nv).id ≡ id

  derived-keeps :
      {A : Type 0} (P : A → Type 0) (into : A → NodeVariant) (rebase : Node → A)
      (f : A → Text → Text → Result ParseError A) (n : Node) (attrs : AttrMap)
      → ((b : Node) → b.id ≡ id → P (rebase b))
      → ((a : A) (key val : Text) → P a → Sure P (f a key val))
      → ((a : A) → P a → HasId (into a))
      → n.id ≡ id
      → Sure HasId
          (apply_base_attrs n attrs >>= λ b. apply_each f (rebase b) attrs >>= λ d. ok (into d))
  derived-keeps P into rebase f n attrs start keep done h =
      Sure-bind (λ (b : Node). b.id ≡ id) HasId (apply_base_attrs n attrs)
        (λ b. apply_each f (rebase b) attrs >>= λ d. ok (into d)) (base_attrs-keep id n attrs h)
        (λ b q.
          Sure-bind P HasId (apply_each f (rebase b) attrs) (λ d. ok (into d))
            (each-keeps P f keep (rebase b) attrs (start b q)) (λ d r. done d r))

  plain-keeps :
      (into : Node → NodeVariant) (n : Node) (attrs : AttrMap)
      → ((b : Node) → b.id ≡ id → HasId (into b))
      → n.id ≡ id
      → Sure HasId (apply_base_attrs n attrs >>= λ b. ok (into b))
  plain-keeps into n attrs done h =
      Sure-bind (λ (b : Node). b.id ≡ id) HasId (apply_base_attrs n attrs) (λ b. ok (into b))
        (base_attrs-keep id n attrs h) done

  pub variant-keeps :
      (nv : NodeVariant) (attrs : AttrMap)
      → (to_base nv).id ≡ id
      → Sure (λ (w : NodeVariant). (to_base w).id ≡ id) (apply_attrs_to_variant nv attrs)
  unfolding apply_attrs_to_variant to_base
  variant-keeps (start_node n) attrs h = plain-keeps start_node n attrs (λ b q. q) h
  variant-keeps (exit_node n) attrs h = plain-keeps exit_node n attrs (λ b q. q) h
  variant-keeps (codergen_node n) attrs h =
      derived-keeps (λ (d : CodergenNode). d.base.id ≡ id) codergen_node
        (λ b. record n { base = b }) apply_codergen_attr n.base attrs (λ b q. q) codergen-keeps
        (λ d q. q) h
  variant-keeps (tool_node n) attrs h =
      derived-keeps (λ (d : ToolNode). d.base.id ≡ id) tool_node (λ b. record n { base = b })
        apply_tool_attr n.base attrs (λ b q. q) tool-keeps (λ d q. q) h
  variant-keeps (manager_node n) attrs h =
      derived-keeps (λ (d : ManagerNode). d.base.id ≡ id) manager_node (λ b. record n { base = b })
        apply_manager_attr n.base attrs (λ b q. q) manager-keeps (λ d q. q) h
  variant-keeps (wait_human_node n) attrs h =
      derived-keeps (λ (d : WaitHumanNode). d.base.id ≡ id) wait_human_node
        (λ b. record n { base = b }) apply_wait_human_attr n.base attrs (λ b q. q) wait_human-keeps
        (λ d q. q) h
  variant-keeps (parallel_node n) attrs h =
      derived-keeps (λ (d : ParallelNode). d.base.id ≡ id) parallel_node
        (λ b. record n { base = b }) apply_parallel_attr n.base attrs (λ b q. q) parallel-keeps
        (λ d q. q) h
  variant-keeps (fan_in_node n) attrs h =
      derived-keeps (λ (d : FanInNode). d.base.id ≡ id) fan_in_node (λ b. record n { base = b })
        apply_fan_in_attr n.base attrs (λ b q. q) fan_in-keeps (λ d q. q) h
  variant-keeps (conditional_node n) attrs h = plain-keeps conditional_node n attrs (λ b q. q) h

pub variant_of-base : (shape : NodeShape) (n : Node) → to_base (variant_of shape n) ≡ n
unfolding variant_of to_base
variant_of-base mdiamond n = refl
variant_of-base msquare n = refl
variant_of-base box n = refl
variant_of-base hexagon n = refl
variant_of-base diamond n = refl
variant_of-base component n = refl
variant_of-base triple_octagon n = refl
variant_of-base parallelogram n = refl
variant_of-base house n = refl

pub over_base-base :
    (f : Node → Node) (nv : NodeVariant) → to_base (over_base f nv) ≡ f (to_base nv)
unfolding over_base to_base
over_base-base f (start_node n) = refl
over_base-base f (exit_node n) = refl
over_base-base f (codergen_node n) = refl
over_base-base f (tool_node n) = refl
over_base-base f (manager_node n) = refl
over_base-base f (wait_human_node n) = refl
over_base-base f (parallel_node n) = refl
over_base-base f (fan_in_node n) = refl
over_base-base f (conditional_node n) = refl
