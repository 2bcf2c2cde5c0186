-- ===== src/Dot/Kept.antt =====
-- The attributes of a graph leave its nodes and edges as they are.
use attractor.Prelude.{◌≡◌, refl, sym, ap, subst, ◌||◌, Text, text, ◌==◌, Result, All, if-cases}
use attractor.Graph.{Graph}
use attractor.Dot.Position.{ParseError}
use attractor.Dot.Values.{parse_int_attr, parse_fidelity_mode}
use attractor.Dot.Attributes.{AttrMap, need, non_negative, apply_graph_attr, apply_attrs_to_graph}
use attractor.Dot.Sure.{Sure, Sure-map, Sure-each}
use attractor.Dot.BaseIds.{each-keeps}
use attractor.Dot.Joined.{ids, Distinct, IsBetween, IsJoined}

abbrev SameParts : Graph → Graph → Type 0
SameParts g h = (h.nodes ≡ g.nodes) × (h.edges ≡ g.edges)

graph_attr-keeps :
    (g h : Graph) (key val : Text) → SameParts g h → Sure (SameParts g) (apply_graph_attr h key val)
unfolding apply_graph_attr
graph_attr-keeps g h key val p =
    let S : Result ParseError Graph → Type 0 = Sure (SameParts g) in
    if-cases S (key == text "goal") _ _ (λ _. p)
      (λ _.
        if-cases S (key == text "label") _ _ (λ _. p)
          (λ _.
            if-cases S (key == text "model_stylesheet") _ _ (λ _. p)
              (λ _.
                if-cases S (key == text "default_max_retries" || key == text "default_max_retry") _
                  _
                  (λ _.
                    Sure-each (SameParts g) (need key val (non_negative (parse_int_attr val))) _
                      (λ _. p))
                  (λ _.
                    if-cases S (key == text "default_fidelity") _ _
                      (λ _.
                        Sure-each (SameParts g) (need key val (parse_fidelity_mode val)) _ (λ _. p))
                      (λ _.
                        if-cases S (key == text "default_thread_id") _ _ (λ _. p)
                          (λ _.
                            if-cases S (key == text "retry_target") _ _ (λ _. p)
                              (λ _.
                                if-cases S (key == text "fallback_retry_target") _ _ (λ _. p)
                                  (λ _.
                                    if-cases S (key == text "stack.child_dotfile") _ _ (λ _. p)
                                      (λ _.
                                        if-cases S (key == text "stack.child_workdir") _ _ (λ _. p)
                                          (λ _.
                                            if-cases S (key == text "tool_hooks.pre") _ _ (λ _. p)
                                              (λ _.
                                                if-cases S (key == text "tool_hooks.post") _ _
                                                  (λ _. p) (λ _. p))))))))))))

-- The names and edges of a graph decide whether it is joined.
pub IsJoined-same :
    (g h : Graph) → ids h.nodes ≡ ids g.nodes → h.edges ≡ g.edges → IsJoined g → IsJoined h
IsJoined-same g h p q j = record {
  distinct = subst Distinct (sym p) j.distinct;
  between =
      subst (λ es. All (IsBetween (ids h.nodes)) es) (sym q)
        (subst (λ names. All (IsBetween names) g.edges) (sym p) j.between);
}

pub graph_attrs-IsJoined :
    (g : Graph) (attrs : AttrMap) → IsJoined g → Sure IsJoined (apply_attrs_to_graph g attrs)
unfolding apply_attrs_to_graph
graph_attrs-IsJoined g attrs j =
    Sure-map (SameParts g) IsJoined (apply_attrs_to_graph g attrs)
      (λ h p. IsJoined-same g h (ap ids p.0) p.1 j)
      (each-keeps (SameParts g) apply_graph_attr (λ h key val p. graph_attr-keeps g h key val p) g
        attrs (refl, refl))
