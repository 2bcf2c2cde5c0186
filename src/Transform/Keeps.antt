-- ===== src/Transform/Keeps.antt =====
-- What the transforms leave as it is.
use attractor.Prelude.{
  ◌≡◌, refl, ap, ◌∙◌, Option, some, List, [], ◌∷◌, map, Text, is_empty, Bool-cases, inl, inr,
}
use attractor.Graph.{
  Graph, NodeVariant, to_base, start_node, exit_node, codergen_node, tool_node, manager_node,
  wait_human_node, parallel_node, fan_in_node, conditional_node,
}
use attractor.Transform.Style.{StyleRule}
use attractor.Transform.Parse.{parse_stylesheet-IsRanked}
use attractor.Transform.Apply.{
  expand_node, expand_variables, style_node, with_rules, apply_stylesheet, apply_custom,
  apply_transforms,
}
use attractor.Validator.Warnings.{check_shapes}
use attractor.Validator.Rules.{
  bases, check_start, check_terminal, check_both, check_edge_ends, check_degrees, check_conditions,
  check_stylesheet, error_rules, has_node,
}

expand_node-base : (goal : Text) (nv : NodeVariant) → to_base (expand_node goal nv) ≡ to_base nv
unfolding expand_node to_base
expand_node-base goal (start_node n) = refl
expand_node-base goal (exit_node n) = refl
expand_node-base goal (codergen_node n) = refl
expand_node-base goal (tool_node n) = refl
expand_node-base goal (manager_node n) = refl
expand_node-base goal (wait_human_node n) = refl
expand_node-base goal (parallel_node n) = refl
expand_node-base goal (fan_in_node n) = refl
expand_node-base goal (conditional_node n) = refl

style_node-base :
    (rules : List StyleRule) (nv : NodeVariant) → to_base (style_node rules nv) ≡ to_base nv
unfolding style_node to_base
style_node-base rules (start_node n) = refl
style_node-base rules (exit_node n) = refl
style_node-base rules (codergen_node n) = refl
style_node-base rules (tool_node n) = refl
style_node-base rules (manager_node n) = refl
style_node-base rules (wait_human_node n) = refl
style_node-base rules (parallel_node n) = refl
style_node-base rules (fan_in_node n) = refl
style_node-base rules (conditional_node n) = refl

bases-map :
    (f : NodeVariant → NodeVariant)
    → ((nv : NodeVariant) → to_base (f nv) ≡ to_base nv)
    → (nodes : List NodeVariant) → map to_base (map f nodes) ≡ map to_base nodes
bases-map f h [] = refl
bases-map f h (nv ∷ nodes) = λ i. h nv i ∷ bases-map f h nodes i

-- The graphs differ at most in what the nodes hold beside their bases.
pub record IsSameOutline (g out : Graph) : Type 0 where
  pub same_bases : bases out ≡ bases g
  pub same_rest : out ≡ record g { nodes = out.nodes }

IsSameOutline-with :
    (g : Graph) (f : NodeVariant → NodeVariant)
    → ((nv : NodeVariant) → to_base (f nv) ≡ to_base nv)
    → IsSameOutline g (record g { nodes = map f g.nodes })
unfolding bases
IsSameOutline-with g f h = record { same_bases = bases-map f h g.nodes; same_rest = refl }

IsSameOutline-trans : (g h k : Graph) → IsSameOutline g h → IsSameOutline h k → IsSameOutline g k
IsSameOutline-trans g h k a b = record {
  same_bases = b.same_bases ∙ a.same_bases;
  same_rest = b.same_rest ∙ ap (λ (t : Graph). record t { nodes = k.nodes }) a.same_rest;
}

nodes-error_rules :
    (g : Graph) (ns : List NodeVariant)
    → map to_base ns ≡ map to_base g.nodes
    → error_rules (record g { nodes = ns }) ≡ error_rules g
unfolding error_rules check_start check_terminal check_both check_edge_ends check_degrees has_node
    bases check_conditions check_stylesheet
nodes-error_rules g ns h = rw h refl

nodes-check_shapes :
    (g : Graph) (ns : List NodeVariant)
    → map to_base ns ≡ map to_base g.nodes
    → check_shapes (record g { nodes = ns }) ≡ check_shapes g
unfolding check_shapes bases
nodes-check_shapes g ns h = rw h refl

IsSameOutline-check_shapes :
    (g out : Graph) → IsSameOutline g out → check_shapes out ≡ check_shapes g
unfolding bases
IsSameOutline-check_shapes g out s =
    ap check_shapes s.same_rest ∙ nodes-check_shapes g out.nodes s.same_bases

IsSameOutline-error_rules : (g out : Graph) → IsSameOutline g out → error_rules out ≡ error_rules g
unfolding bases
IsSameOutline-error_rules g out s =
    ap error_rules s.same_rest ∙ nodes-error_rules g out.nodes s.same_bases

expand-IsSameOutline : (g : Graph) → IsSameOutline g (expand_variables g)
unfolding expand_variables
expand-IsSameOutline g = IsSameOutline-with g (expand_node g.goal) (expand_node-base g.goal)

-- A result that is there and has the outline of `g`.
abbrev Applied : Graph → Option Graph → Type 0
Applied g o = (out : Graph) × (o ≡ some out) × IsSameOutline g out

apply_stylesheet-Applied : (g : Graph) → Applied g (apply_stylesheet g)
unfolding apply_stylesheet with_rules bases
apply_stylesheet-Applied g = elim (Bool-cases (is_empty g.model_stylesheet)) [
  | inl e ↦ rw (e, apply_stylesheet) (g, refl, record { same_bases = refl; same_rest = refl })
  | inr e ↦
      let p = parse_stylesheet-IsRanked g.model_stylesheet in
      rw (e, p.1, apply_stylesheet)
        (
          record g { nodes = map (style_node p.0) g.nodes },
          refl,
          IsSameOutline-with g (style_node p.0) (style_node-base p.0),
        )
]

-- Without custom transforms, `apply_transforms` returns for every graph, and its result differs
-- from the graph at most in what the nodes hold beside their bases: it has the same ids, shapes and
-- other attributes of every node in the same order, the same edges and graph attributes, and so the
-- same findings of the rules of the validator that report errors: the structural ones, those on
-- conditions and on the stylesheet, and the one that compares types with shapes.
pub apply_transforms-error_rules :
    (g : Graph)
    → (out : Graph) × (apply_transforms g [] ≡ some out)
      × IsSameOutline g out
      × (error_rules out ≡ error_rules g)
      × (check_shapes out ≡ check_shapes g)
unfolding apply_transforms apply_custom
apply_transforms-error_rules g =
    let a = apply_stylesheet-Applied (expand_variables g) in
    let s = IsSameOutline-trans g (expand_variables g) a.0 (expand-IsSameOutline g) a.2 in
    (
      a.0,
      rw (a.1, apply_transforms) refl,
      s,
      IsSameOutline-error_rules g a.0 s,
      IsSameOutline-check_shapes g a.0 s,
    )
