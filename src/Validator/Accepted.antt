-- ===== src/Validator/Accepted.antt =====
-- What `validate_or_raise` of src/validator.cpp promises to the engine.
use attractor.Prelude.{
  ℕ, ◌≡◌, ◌≢◌, refl, subst, ap, Bool, true, false, ◌&&◌, not, some, List, [], ◌∷◌, ◌==◌, nat_eq,
  length, any, select, find, map, is_empty, In, Bool-cases, inl, inr, ok, arith,
}
use attractor.Types.{NodeId}
use attractor.Graph.{Graph, Node, Edge, NodeVariant, to_base}
use attractor.Engine.Env.{has_id, find_node}
use attractor.Validator.Syntax.{parse_condition_syntax}
use attractor.Validator.Reachable.{contains}
use attractor.Validator.Search.{In→contains}
use attractor.Validator.Rules.{
  Diagnostic, push_if, ValidationConfig, LintRule, is_start_node, is_terminal_node, is_both, bases,
  has_node, has_incoming, has_outgoing, check_start, check_terminal, check_both, check_edge_ends,
  check_degrees, check_conditions, check_stylesheet, error_rules,
}
use attractor.Validator.Warnings.{is_error, validate, validate_or_raise}
use attractor.Validator.Errors.{NoError, NoError-append, NoError-each, NoError-push}

-- The rules that have pushed nothing, one for each error rule.
record IsSilent (g : Graph) : Type 0 where
  start : NoError (check_start g)
  terminal : NoError (check_terminal g)
  both : NoError (check_both g)
  ends : NoError (check_edge_ends g)
  degrees : NoError (check_degrees g)
  conditions : NoError (check_conditions g)
  stylesheet : NoError (check_stylesheet g)

accepted-NoError :
    (g : Graph) (config : ValidationConfig) (rules : List LintRule)
    → validate_or_raise g config rules ≡ ok []
    → NoError (validate g config rules)
unfolding validate_or_raise
accepted-NoError g config rules h = ground arith

accepted-IsSilent :
    (g : Graph) (config : ValidationConfig) (rules : List LintRule)
    → validate_or_raise g config rules ≡ ok []
    → IsSilent g
unfolding validate error_rules
accepted-IsSilent g config rules h =
    let all = NoError-append (error_rules g) _ (accepted-NoError g config rules h) in
    let r1 = NoError-append (check_start g) _ all.0 in
    let r2 = NoError-append (check_terminal g) _ r1.1 in
    let r3 = NoError-append (check_both g) _ r2.1 in
    let r4 = NoError-append (check_edge_ends g) _ r3.1 in
    let r5 = NoError-append (check_degrees g) _ r4.1 in
    let r6 = NoError-append (check_conditions g) (check_stylesheet g) r5.1 in
    record {
      start = r1.0;
      terminal = r2.0;
      both = r3.0;
      ends = r4.0;
      degrees = r5.0;
      conditions = r6.0;
      stylesheet = r6.1;
    }

not-false : (b : Bool) → not b ≡ false → b ≡ true
not-false true h = refl
not-false false h = absurd (cc)

and-false : (a b : Bool) → (a && b) ≡ false → a ≡ true → b ≡ false
and-false a b h k = ground arith

-- The graphs that the engine can run: one start and one terminal node, which differ, edges whose
-- ends exist, none into a start and none out of a terminal node, and readable conditions.
pub record IsRunnable (g : Graph) : Type 0 where
  pub one_start : length (select is_start_node (bases g)) ≡ 1
  pub one_terminal : length (select is_terminal_node (bases g)) ≡ 1
  pub apart : (n : Node) → In n (bases g) → is_start_node n ≡ true → is_terminal_node n ≡ false
  pub sources : (e : Edge) → In e g.edges → (nv : NodeVariant) × (find_node g e.source ≡ some nv)
  pub targets : (e : Edge) → In e g.edges → (nv : NodeVariant) × (find_node g e.to ≡ some nv)
  pub no_incoming :
      (n : Node) (e : Edge) → In n (bases g) → is_start_node n ≡ true → In e g.edges → e.to ≢ n.id
  pub no_outgoing :
      (n : Node) (e : Edge)
      → In n (bases g)
      → is_terminal_node n ≡ true
      → In e g.edges
      → e.source ≢ n.id
  pub readable :
      (e : Edge)
      → In e g.edges
      → is_empty e.condition ≡ false
      → parse_condition_syntax e.condition ≡ true

quiet : (b : Bool) (d : Diagnostic) → is_error d ≡ true → NoError (push_if b d) → b ≡ false
quiet b d e h = NoError-push b d e h

one : (n : ℕ) → not (nat_eq n 1) ≡ false → n ≡ 1
one n h = ground arith

found-has_id :
    (nodes : List NodeVariant) (id : NodeId)
    → contains (map (λ n. n.id) (map to_base nodes)) id ≡ true
    → (nv : NodeVariant) × (find (has_id id) nodes ≡ some nv)
unfolding contains has_id any find
found-has_id [] id h = absurd (cc)
found-has_id (nv ∷ nodes) id h = elim (Bool-cases ((to_base nv).id == id)) [
  | inl e ↦ rw e (nv, refl)
  | inr e ↦ rw e (found-has_id nodes id (rw e at h))
]

has_node-found :
    (g : Graph) (id : NodeId)
    → has_node g id ≡ true
    → (nv : NodeVariant) × (find_node g id ≡ some nv)
unfolding has_node bases find_node
has_node-found g id h = found-has_id g.nodes id h

In-map : {A : Type 0} (f : A → NodeId) (xs : List A) (a : A) → In a xs → In (f a) (map f xs)
In-map f [] a i = absurd i
In-map f (x ∷ xs) a (inl q) = inl (ap f q)
In-map f (x ∷ xs) a (inr i) = inr (In-map f xs a i)

not-contains : (ids : List NodeId) (id : NodeId) → contains ids id ≡ false → In id ids → ⊥
not-contains ids id h i = let t = In→contains ids id i in absurd (cc)

edge-quiet :
    (g : Graph)
    → IsSilent g
    → (e : Edge) → In e g.edges
    → (has_node g e.source ≡ true) × (has_node g e.to ≡ true)
unfolding check_edge_ends is_error
edge-quiet g s e i =
    let both = NoError-append _ _ (NoError-each _ g.edges s.ends e i) in
    (
      not-false (has_node g e.source) (quiet _ _ refl both.0),
      not-false (has_node g e.to) (quiet _ _ refl both.1),
    )

degrees-quiet :
    (g : Graph)
    → IsSilent g
    → (n : Node) → In n (bases g)
    → ((is_start_node n && has_incoming g n.id) ≡ false)
      × ((is_terminal_node n && has_outgoing g n.id) ≡ false)
unfolding check_degrees is_error
degrees-quiet g s n i =
    let both = NoError-append _ _ (NoError-each _ (bases g) s.degrees n i) in
    (quiet _ _ refl both.0, quiet _ _ refl both.1)

silent-IsRunnable : (g : Graph) → IsSilent g → IsRunnable g
unfolding check_start check_terminal check_both check_conditions is_error is_both has_incoming
    has_outgoing
silent-IsRunnable g s = record {
  one_start = one _ (quiet _ _ refl s.start);
  one_terminal = one _ (quiet _ _ refl s.terminal);
  apart = λ n i h.
      and-false (is_start_node n) (is_terminal_node n)
        (quiet _ _ refl (NoError-each _ (bases g) s.both n i)) h;
  sources = λ e i. has_node-found g e.source (edge-quiet g s e i).0;
  targets = λ e i. has_node-found g e.to (edge-quiet g s e i).1;
  no_incoming = λ n e i h j q.
      not-contains _ n.id (and-false (is_start_node n) _ (degrees-quiet g s n i).0 h)
        (subst (λ x. In x (map (λ d. d.to) g.edges)) q (In-map (λ d. d.to) g.edges e j));
  no_outgoing = λ n e i h j q.
      not-contains _ n.id (and-false (is_terminal_node n) _ (degrees-quiet g s n i).1 h)
        (subst (λ x. In x (map (λ d. d.source) g.edges)) q (In-map (λ d. d.source) g.edges e j));
  readable = λ e i h. not-false _ (
      and-false (not (is_empty e.condition)) _
        (quiet _ _ refl (NoError-each _ g.edges s.conditions e i)) (rw h));
}

-- A graph that `validate_or_raise` accepts, with whatever configuration and extra rules, has
-- exactly one start node and exactly one terminal node, no node that is both, no edge from or to a
-- missing node (the engine's `find_node` finds both ends), no edge into the start node and none
-- out of the terminal node, and only conditions that the parser accepts.
pub validate_or_raise-IsRunnable :
    (g : Graph) (config : ValidationConfig) (rules : List LintRule)
    → validate_or_raise g config rules ≡ ok []
    → IsRunnable g
validate_or_raise-IsRunnable g config rules h =
    silent-IsRunnable g (accepted-IsSilent g config rules h)
