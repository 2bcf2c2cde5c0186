-- ===== src/GraphJson/VariantTrip.antt =====
-- A node of any variant is read back from what src/graph.cpp writes.
use attractor.Prelude.{
  ℕ, suc, ◌≤◌, ◌≡◌, refl, sym, ap, subst, ◌∙◌, true, false, none, some, [], Text, text, ◌==◌,
  ==_iff, any, All, All-map, bind-ok, ℤ, pos, Bool-cases, inl, inr, ok, ◌>>=◌, arith,
}
use attractor.Json.{integer, object, Fields, end, get_field}
use attractor.Types.{
  NodeShape, mdiamond, msquare, box, hexagon, diamond, component, triple_octagon, parallelogram,
  house, wait_all, ReasoningEffort, low, medium, high,
}
use attractor.Names.{
  reasoning_effort_to_json, reasoning_effort_from_json, join_policy_to_json, join_policy_from_json,
}
use attractor.Names.Codec.{join_policy_from_json_iff}
use attractor.Graph.{
  NodeVariant, start_node, exit_node, codergen_node, tool_node, manager_node, wait_human_node,
  parallel_node, fan_in_node, conditional_node, to_base,
}
use attractor.Dot.Variants.{default_node}
use attractor.GraphJson.Access.{
  Reader, IsReader, int_max, Write, write_all, read_if, read_value, number_to_json,
  max_parallel_from_json,
}
use attractor.GraphJson.Lookup.{last_write, get_field-write_all, last_write-other}
use attractor.GraphJson.Nodes.{
  node_shape_to_json, node_shape_from_json, node_writes, own_writes, node_to_json, node_from_json,
}
use attractor.GraphJson.Graphs.{positive_cycles, variant_in, variant_from_json}
use attractor.GraphJson.NodeTrip.{
  node_keys, Holds, IsStorable, read_if-found, if_text, read_present-found,
  node_shape_from_json-to_json, node_from_json-Holds,
}

-- The shape that a variant is read by.
unfoldable pub shape_of : NodeVariant → NodeShape
shape_of (start_node n) = mdiamond
shape_of (exit_node n) = msquare
shape_of (codergen_node n) = box
shape_of (tool_node n) = parallelogram
shape_of (manager_node n) = house
shape_of (wait_human_node n) = hexagon
shape_of (parallel_node n) = component
shape_of (fan_in_node n) = triple_octagon
shape_of (conditional_node n) = diamond

-- The numbers of a variant are positive and integers of their type.
unfoldable pub HasNumbers : NodeVariant → Type 0
HasNumbers (manager_node n) = (c : ℕ) × (n.manager_max_cycles ≡ pos (suc c)) × (suc c ≤ int_max)
HasNumbers (parallel_node n) = (1 ≤ n.max_parallel) × (n.max_parallel ≤ int_max)
HasNumbers nv = Unit

pub record IsWritable (nv : NodeVariant) : Type 0 where
  pub base : IsStorable (to_base nv)
  pub shape : (to_base nv).shape ≡ shape_of nv
  pub numbers : HasNumbers nv

abbrev fields_of : NodeVariant → Fields
fields_of nv = write_all (own_writes nv) (write_all (node_writes (to_base nv)) end)

member :
    (k : Text) (nv : NodeVariant)
    → get_field k (fields_of nv)
      ≡ last_write k (own_writes nv) (last_write k (node_writes (to_base nv)) none)
unfolding get_field
member k nv =
    get_field-write_all k (own_writes nv) (write_all (node_writes (to_base nv)) end)
    ∙ ap (last_write k (own_writes nv)) (get_field-write_all k (node_writes (to_base nv)) end)

abbrev Foreign : Write → Type 0
Foreign w = any (λ key. key == w.0) node_keys ≡ false

own-Foreign : (nv : NodeVariant) → All Foreign (own_writes nv)
unfolding own_writes any text ◌==◌
own-Foreign (start_node n) = tt
own-Foreign (exit_node n) = tt
own-Foreign (codergen_node n) = (refl, (refl, (refl, (refl, tt))))
own-Foreign (tool_node n) = (refl, tt)
own-Foreign (manager_node n) = (refl, (refl, tt))
own-Foreign (wait_human_node n) = (refl, tt)
own-Foreign (parallel_node n) = (refl, (refl, tt))
own-Foreign (fan_in_node n) = (refl, tt)
own-Foreign (conditional_node n) = tt

Foreign-other :
    (k : Text) (w : Write) → any (λ key. key == k) node_keys ≡ true → Foreign w → (w.0 == k) ≡ false
Foreign-other k w h f = elim (Bool-cases (w.0 == k)) [
  | inr e ↦ e
  | inl e ↦
      let t : any (λ key. key == w.0) node_keys ≡ true =
        subst (λ x. any (λ key. key == x) node_keys ≡ true) (sym ((==_iff w.0 k).0 e)) h in
      absurd (cc)
]

fields-Holds : (nv : NodeVariant) → Holds (fields_of nv) (to_base nv)
unfolding Holds
fields-Holds nv k h =
    member k nv
    ∙ last_write-other k (own_writes nv) (last_write k (node_writes (to_base nv)) none)
        (All-map (λ w f. Foreign-other k w h f) (own_writes nv) (own-Foreign nv))

effort-value :
    (e : ReasoningEffort)
    → read_value reasoning_effort_from_json none (some (reasoning_effort_to_json e)) ≡ ok (some e)
unfolding read_value reasoning_effort_from_json reasoning_effort_to_json text ◌==◌
effort-value low = refl
effort-value medium = refl
effort-value high = refl

module _ (show : ℤ → Text) (rd : Reader) (ir : IsReader rd) where
  cycles-read :
      (z : ℤ) (c : ℕ)
      → z ≡ pos (suc c)
      → suc c ≤ int_max
      → (rd.get_int (integer z) >>= λ v. ok (positive_cycles v)) ≡ ok z
  unfolding positive_cycles
  cycles-read z c e h = rw (e, ir.reads_int (suc c) h) refl

  most-read :
      (n : ℕ) → 1 ≤ n → n ≤ int_max → max_parallel_from_json show rd (number_to_json n) ≡ ok n
  unfolding max_parallel_from_json number_to_json
  most-read n l h = rw (ir.reads_int n h) (ground arith)

  base-read :
      (nv : NodeVariant)
      → IsWritable nv
      → node_from_json show rd (object (fields_of nv)) default_node ≡ ok (to_base nv)
  base-read nv w =
      node_from_json-Holds show rd ir (fields_of nv) (to_base nv) (fields-Holds nv) w.base

  variant_in-written :
      (nv : NodeVariant)
      → IsWritable nv
      → variant_in show rd (shape_of nv) (object (fields_of nv)) ≡ ok nv
  unfolding variant_in shape_of HasNumbers to_base last_write node_writes own_writes text ◌==◌
  variant_in-written (start_node n) w =
      let nv = start_node n in
      let fs = fields_of (start_node n) in bind-ok _ _ n _ (base-read nv w) (refl)
  variant_in-written (exit_node n) w =
      let nv = exit_node n in
      let fs = fields_of (exit_node n) in bind-ok _ _ n _ (base-read nv w) (refl)
  variant_in-written (codergen_node n) w =
      let nv = codergen_node n in
      let fs = fields_of (codergen_node n) in
      bind-ok _ _ n.base _ (base-read nv w) (
        if_text (text "prompt") (text "PromptText") [] n.prompt fs _ _ (member (text "prompt") nv) (
          if_text (text "llm_model") (text "LlmModel") [] n.llm_model fs _ _
            (member (text "llm_model") nv)
            (if_text (text "llm_provider") (text "LlmProvider") [] n.llm_provider fs _ _
              (member (text "llm_provider") nv)
              (bind-ok _ _ n.reasoning_effort _
                (read_present-found (text "reasoning_effort") reasoning_effort_to_json
                  reasoning_effort_from_json n.reasoning_effort fs
                  (member (text "reasoning_effort") nv) (λ e q. effort-value e))
                refl))))
  variant_in-written (tool_node n) w =
      let nv = tool_node n in
      let fs = fields_of (tool_node n) in
      bind-ok _ _ n.base _ (base-read nv w) (
        if_text (text "tool_command") (text "ShellCommand") [] n.tool_command fs _ _
          (member (text "tool_command") nv) refl)
  variant_in-written (manager_node n) w =
      let nv = manager_node n in
      let fs = fields_of (manager_node n) in
      bind-ok _ _ n.base _ (base-read nv w) (
        if_text (text "manager_stop_condition") (text "ConditionExpr") [] n.manager_stop_condition
          fs _ _ (member (text "manager_stop_condition") nv)
          (bind-ok _ _ n.manager_max_cycles _
            (read_if-found (text "manager_max_cycles")
              (λ v. rd.get_int v >>= λ c. ok (positive_cycles c)) (pos 1000) n.manager_max_cycles fs
              (integer n.manager_max_cycles) (member (text "manager_max_cycles") nv)
              (cycles-read n.manager_max_cycles w.numbers.0 w.numbers.1 w.numbers.2))
            refl))
  variant_in-written (wait_human_node n) w =
      let nv = wait_human_node n in
      let fs = fields_of (wait_human_node n) in
      bind-ok _ _ n.base _ (base-read nv w) (
        if_text (text "human_default_choice") (text "NodeId") [] n.human_default_choice fs _ _
          (member (text "human_default_choice") nv) refl)
  variant_in-written (parallel_node n) w =
      let nv = parallel_node n in
      let fs = fields_of (parallel_node n) in
      bind-ok _ _ n.base _ (base-read nv w) (
        bind-ok _ _ n.max_parallel _
          (read_if-found (text "max_parallel") (max_parallel_from_json show rd) 4 n.max_parallel fs
            (number_to_json n.max_parallel) (member (text "max_parallel") nv)
            (most-read n.max_parallel w.numbers.0 w.numbers.1))
          (bind-ok _ _ n.join_policy _
            (read_if-found (text "join_policy") join_policy_from_json wait_all n.join_policy fs
              (join_policy_to_json n.join_policy) (member (text "join_policy") nv)
              ((join_policy_from_json_iff (join_policy_to_json n.join_policy) n.join_policy).1
                refl))
            refl))
  variant_in-written (fan_in_node n) w =
      let nv = fan_in_node n in
      let fs = fields_of (fan_in_node n) in
      bind-ok _ _ n.base _ (base-read nv w) (
        if_text (text "prompt") (text "PromptText") [] n.prompt fs _ _ (member (text "prompt") nv)
          refl)
  variant_in-written (conditional_node n) w =
      let nv = conditional_node n in
      let fs = fields_of (conditional_node n) in bind-ok _ _ n _ (base-read nv w) (refl)

  shape-read :
      (nv : NodeVariant)
      → IsWritable nv
      → read_if (text "shape") node_shape_from_json box (object (fields_of nv)) ≡ ok (shape_of nv)
  unfolding Holds last_write node_writes text ◌==◌
  shape-read nv w =
      read_if-found (text "shape") node_shape_from_json box (shape_of nv) (fields_of nv)
        (node_shape_to_json (to_base nv).shape) (fields-Holds nv (text "shape") refl)
        (node_shape_from_json-to_json (to_base nv).shape ∙ ap (λ (s : NodeShape). ok s) w.shape)

  -- A node is read back by the shape of its variant.
  pub variant_from_json-to_json :
      (nv : NodeVariant) → IsWritable nv → variant_from_json show rd (node_to_json nv) ≡ ok nv
  unfolding variant_from_json node_to_json
  variant_from_json-to_json nv w =
      bind-ok _ _ (shape_of nv) _ (shape-read nv w) (variant_in-written nv w)
