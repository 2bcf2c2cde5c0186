-- ===== src/Dot/BaseIds.antt =====
-- The attributes of the base do not change the id of a node.
use attractor.Prelude.{◌≡◌, [], ◌∷◌, Text, text, ◌==◌, Result, if-cases}
use attractor.Types.{NodeId}
use attractor.Names.{node_shape_from_string}
use attractor.Graph.{Node}
use attractor.Dot.Position.{ParseError}
use attractor.Dot.Values.{parse_int_attr, parse_duration, parse_fidelity_mode}
use attractor.Dot.Attributes.{
  AttrMap, apply_each, need, non_negative, known_shape, apply_base_attr, apply_base_attrs,
}
use attractor.Dot.Sure.{Sure, Sure-bind, Sure-each}

-- A loop over the attributes keeps what each attribute keeps.
pub each-keeps :
    {A : Type 0} (P : A → Type 0) (f : A → Text → Text → Result ParseError A)
    → ((a : A) (key val : Text) → P a → Sure P (f a key val))
    → (a : A) (attrs : AttrMap) → P a
    → Sure P (apply_each f a attrs)
unfolding apply_each
each-keeps P f h a [] p = p
each-keeps P f h a ((key, val) ∷ attrs) p =
    Sure-bind P P (f a key val) (λ b. apply_each f b attrs) (h a key val p)
      (λ b q. each-keeps P f h b attrs q)

base-keeps :
    (id : NodeId) (node : Node) (key val : Text)
    → node.id ≡ id
    → Sure (λ (n : Node). n.id ≡ id) (apply_base_attr node key val)
unfolding apply_base_attr
base-keeps id node key val h =
    let S : Result ParseError Node → Type 0 = Sure (λ (n : Node). n.id ≡ id) in
    if-cases S (key == text "label") _ _ (λ _. h)
      (λ _.
        if-cases S (key == text "shape") _ _
          (λ _.
            Sure-each (λ (n : Node). n.id ≡ id) (known_shape val (node_shape_from_string val)) _
              (λ _. h))
          (λ _.
            if-cases S (key == text "type") _ _ (λ _. h)
              (λ _.
                if-cases S (key == text "max_retries") _ _
                  (λ _.
                    Sure-each (λ (n : Node). n.id ≡ id)
                      (need key val (non_negative (parse_int_attr val))) _ (λ _. h))
                  (λ _.
                    if-cases S (key == text "goal_gate") _ _ (λ _. h)
                      (λ _.
                        if-cases S (key == text "retry_target") _ _ (λ _. h)
                          (λ _.
                            if-cases S (key == text "fallback_retry_target") _ _ (λ _. h)
                              (λ _.
                                if-cases S (key == text "fidelity") _ _
                                  (λ _.
                                    Sure-each (λ (n : Node). n.id ≡ id)
                                      (need key val (parse_fidelity_mode val)) _ (λ _. h))
                                  (λ _.
                                    if-cases S (key == text "thread_id") _ _ (λ _. h)
                                      (λ _.
                                        if-cases S (key == text "class") _ _ (λ _. h)
                                          (λ _.
                                            if-cases S (key == text "timeout") _ _
                                              (λ _.
                                                Sure-each (λ (n : Node). n.id ≡ id)
                                                  (need key val (parse_duration val)) _ (λ _. h))
                                              (λ _.
                                                if-cases S (key == text "auto_status") _ _ (λ _. h)
                                                  (λ _.
                                                    if-cases S (key == text "allow_partial") _ _
                                                      (λ _. h) (λ _. h)))))))))))))

pub base_attrs-keep :
    (id : NodeId) (node : Node) (attrs : AttrMap)
    → node.id ≡ id
    → Sure (λ (n : Node). n.id ≡ id) (apply_base_attrs node attrs)
unfolding apply_base_attrs
base_attrs-keep id node attrs h =
    each-keeps (λ (n : Node). n.id ≡ id) apply_base_attr (λ n key val q. base-keeps id n key val q)
      node attrs h
