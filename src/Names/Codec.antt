-- ===== src/Names/Codec.antt =====
-- Reading back what was written of an enumeration, and the other way round.
use attractor.Prelude.{
  ◌≡◌, refl, sym, ap, ◌∙◌, subst, some, [], ◌∷◌, Text, text, ◌==◌, ==_iff, ok, ◌↔◌, All, In, inl,
  inr, Bool-cases, arith, Option-cases,
}
use attractor.Json.{Json, null, boolean, integer, float, array, object, str}
use attractor.Types.{
  StageStatus, Severity, QuestionType, AnswerKind, FidelityMode, ReasoningEffort, JoinPolicy,
  NodeShape, success, partial_success, fail, retry, skipped, error, warning, info, yes_no,
  multiple_choice, freeform, confirmation, answer_yes, answer_no, answer_text, answer_skipped,
  answer_timeout, full, truncate, compact, summary_low, summary_medium, summary_high, low, medium,
  high, wait_all, first_success, mdiamond, msquare, box, hexagon, diamond, component,
  triple_octagon, parallelogram, house,
}
use attractor.Names.{
  Table, named_in, known, read_enum, k_stage_status_map, stage_status_to_json,
  stage_status_from_json, k_severity_map, severity_to_json, severity_from_json, k_question_type_map,
  question_type_to_json, question_type_from_json, k_answer_kind_map, answer_kind_to_json,
  answer_kind_from_json, k_fidelity_mode_map, fidelity_mode_to_json, fidelity_mode_from_json,
  k_reasoning_effort_map, reasoning_effort_to_json, reasoning_effort_from_json, k_join_policy_map,
  join_policy_to_json, join_policy_from_json, node_shape_to_string, node_shape_from_string,
}

module _ {E : Type 0} where
  All-In : (P : E × Text → Type 0) (table : Table E) (x : E × Text) → All P table → In x table → P x
  All-In P [] x h i = absurd i
  All-In P (y ∷ table) x h (inl q) = subst P (sym q) h.0
  All-In P (y ∷ table) x h (inr i) = All-In P table x h.1 i

  named_in-In : (table : Table E) (s : Text) (v : E) → named_in table s ≡ some v → In (v, s) table
  unfolding named_in
  named_in-In [] s v h = absurd (cc)
  named_in-In ((e, n) ∷ table) s v h = elim (Bool-cases (n == s)) [
    | inl q ↦ inl (pair (ground arith) (sym ((==_iff n s).0 q)))
    | inr q ↦ inr (named_in-In table s v (rw q at h))
  ]
    where
      pair : v ≡ e → s ≡ n → ◌≡◌ {A = E × Text} (v, s) (e, n)
      pair a b = λ i. (a i, b i)

  -- What reading accepts is in the table.
  read_enum-In :
      (kind : Text) (table : Table E) (j : Json) (v : E)
      → read_enum kind table j ≡ ok v
      → (s : Text) × (j ≡ str s) × In (v, s) table
  unfolding read_enum
  read_enum-In kind table (str s) v h = elim (Option-cases (named_in table s)) [
    | inl q ↦ absurd (cc (rw (q, known) at h))
    | inr w ↦ (s, refl, named_in-In table s v (w.1 ∙ ap some (found w.0 w.1)))
  ]
    where
      found : (w : E) → named_in table s ≡ some w → w ≡ v
      found w q = ground (arith, (rw (q, known) at h))
  read_enum-In kind table null v h = absurd (cc)
  read_enum-In kind table (boolean b) v h = absurd (cc)
  read_enum-In kind table (integer i) v h = absurd (cc)
  read_enum-In kind table (float d) v h = absurd (cc)
  read_enum-In kind table (array xs) v h = absurd (cc)
  read_enum-In kind table (object fs) v h = absurd (cc)

  -- A table whose names are what is written accepts nothing else.
  read_enum-written :
      (kind : Text) (table : Table E) (to : E → Json)
      → All (λ p. str p.1 ≡ to p.0) table
      → (j : Json) (v : E) → read_enum kind table j ≡ ok v
      → j ≡ to v
  read_enum-written kind table to h j v r =
      let w = read_enum-In kind table j v r in
      w.1 ∙ All-In (λ p. str p.1 ≡ to p.0) table (v, w.0) h w.2

stage_status_from_json-to_json :
    (v : StageStatus) → stage_status_from_json (stage_status_to_json v) ≡ ok v
unfolding stage_status_from_json stage_status_to_json text ◌==◌
stage_status_from_json-to_json success = refl
stage_status_from_json-to_json partial_success = refl
stage_status_from_json-to_json fail = refl
stage_status_from_json-to_json retry = refl
stage_status_from_json-to_json skipped = refl

-- The JSON value that a value of StageStatus is read from is the one that it is written as: stage_status_from_json
-- accepts what stage_status_to_json gives, and nothing else.
pub stage_status_from_json_iff :
    (j : Json) (v : StageStatus) → (stage_status_from_json j ≡ ok v) ↔ (j ≡ stage_status_to_json v)
unfolding stage_status_from_json stage_status_to_json
stage_status_from_json_iff j v = (
  read_enum-written (text "StageStatus") k_stage_status_map stage_status_to_json
      (refl, (refl, (refl, (refl, (refl, tt))))) j v,
  λ e. ap stage_status_from_json e ∙ stage_status_from_json-to_json v,
)

severity_from_json-to_json : (v : Severity) → severity_from_json (severity_to_json v) ≡ ok v
unfolding severity_from_json severity_to_json text ◌==◌
severity_from_json-to_json error = refl
severity_from_json-to_json warning = refl
severity_from_json-to_json info = refl

-- The JSON value that a value of Severity is read from is the one that it is written as: severity_from_json
-- accepts what severity_to_json gives, and nothing else.
pub severity_from_json_iff :
    (j : Json) (v : Severity) → (severity_from_json j ≡ ok v) ↔ (j ≡ severity_to_json v)
unfolding severity_from_json severity_to_json
severity_from_json_iff j v = (
  read_enum-written (text "Severity") k_severity_map severity_to_json (refl, (refl, (refl, tt))) j
      v,
  λ e. ap severity_from_json e ∙ severity_from_json-to_json v,
)

question_type_from_json-to_json :
    (v : QuestionType) → question_type_from_json (question_type_to_json v) ≡ ok v
unfolding question_type_from_json question_type_to_json text ◌==◌
question_type_from_json-to_json yes_no = refl
question_type_from_json-to_json multiple_choice = refl
question_type_from_json-to_json freeform = refl
question_type_from_json-to_json confirmation = refl

-- The JSON value that a value of QuestionType is read from is the one that it is written as: question_type_from_json
-- accepts what question_type_to_json gives, and nothing else.
pub question_type_from_json_iff :
    (j : Json) (v : QuestionType)
    → (question_type_from_json j ≡ ok v) ↔ (j ≡ question_type_to_json v)
unfolding question_type_from_json question_type_to_json
question_type_from_json_iff j v = (
  read_enum-written (text "QuestionType") k_question_type_map question_type_to_json
      (refl, (refl, (refl, (refl, tt)))) j v,
  λ e. ap question_type_from_json e ∙ question_type_from_json-to_json v,
)

answer_kind_from_json-to_json :
    (v : AnswerKind) → answer_kind_from_json (answer_kind_to_json v) ≡ ok v
unfolding answer_kind_from_json answer_kind_to_json text ◌==◌
answer_kind_from_json-to_json answer_yes = refl
answer_kind_from_json-to_json answer_no = refl
answer_kind_from_json-to_json answer_text = refl
answer_kind_from_json-to_json answer_skipped = refl
answer_kind_from_json-to_json answer_timeout = refl

-- The JSON value that a value of AnswerKind is read from is the one that it is written as: answer_kind_from_json
-- accepts what answer_kind_to_json gives, and nothing else.
pub answer_kind_from_json_iff :
    (j : Json) (v : AnswerKind) → (answer_kind_from_json j ≡ ok v) ↔ (j ≡ answer_kind_to_json v)
unfolding answer_kind_from_json answer_kind_to_json
answer_kind_from_json_iff j v = (
  read_enum-written (text "AnswerKind") k_answer_kind_map answer_kind_to_json
      (refl, (refl, (refl, (refl, (refl, tt))))) j v,
  λ e. ap answer_kind_from_json e ∙ answer_kind_from_json-to_json v,
)

fidelity_mode_from_json-to_json :
    (v : FidelityMode) → fidelity_mode_from_json (fidelity_mode_to_json v) ≡ ok v
unfolding fidelity_mode_from_json fidelity_mode_to_json text ◌==◌
fidelity_mode_from_json-to_json full = refl
fidelity_mode_from_json-to_json truncate = refl
fidelity_mode_from_json-to_json compact = refl
fidelity_mode_from_json-to_json summary_low = refl
fidelity_mode_from_json-to_json summary_medium = refl
fidelity_mode_from_json-to_json summary_high = refl

-- The JSON value that a value of FidelityMode is read from is the one that it is written as: fidelity_mode_from_json
-- accepts what fidelity_mode_to_json gives, and nothing else.
pub fidelity_mode_from_json_iff :
    (j : Json) (v : FidelityMode)
    → (fidelity_mode_from_json j ≡ ok v) ↔ (j ≡ fidelity_mode_to_json v)
unfolding fidelity_mode_from_json fidelity_mode_to_json
fidelity_mode_from_json_iff j v = (
  read_enum-written (text "FidelityMode") k_fidelity_mode_map fidelity_mode_to_json
      (refl, (refl, (refl, (refl, (refl, (refl, tt)))))) j v,
  λ e. ap fidelity_mode_from_json e ∙ fidelity_mode_from_json-to_json v,
)

reasoning_effort_from_json-to_json :
    (v : ReasoningEffort) → reasoning_effort_from_json (reasoning_effort_to_json v) ≡ ok v
unfolding reasoning_effort_from_json reasoning_effort_to_json text ◌==◌
reasoning_effort_from_json-to_json low = refl
reasoning_effort_from_json-to_json medium = refl
reasoning_effort_from_json-to_json high = refl

-- The JSON value that a value of ReasoningEffort is read from is the one that it is written as: reasoning_effort_from_json
-- accepts what reasoning_effort_to_json gives, and nothing else.
pub reasoning_effort_from_json_iff :
    (j : Json) (v : ReasoningEffort)
    → (reasoning_effort_from_json j ≡ ok v) ↔ (j ≡ reasoning_effort_to_json v)
unfolding reasoning_effort_from_json reasoning_effort_to_json
reasoning_effort_from_json_iff j v = (
  read_enum-written (text "ReasoningEffort") k_reasoning_effort_map reasoning_effort_to_json
      (refl, (refl, (refl, tt))) j v,
  λ e. ap reasoning_effort_from_json e ∙ reasoning_effort_from_json-to_json v,
)

join_policy_from_json-to_json :
    (v : JoinPolicy) → join_policy_from_json (join_policy_to_json v) ≡ ok v
unfolding join_policy_from_json join_policy_to_json text ◌==◌
join_policy_from_json-to_json wait_all = refl
join_policy_from_json-to_json first_success = refl

-- The JSON value that a value of JoinPolicy is read from is the one that it is written as: join_policy_from_json
-- accepts what join_policy_to_json gives, and nothing else.
pub join_policy_from_json_iff :
    (j : Json) (v : JoinPolicy) → (join_policy_from_json j ≡ ok v) ↔ (j ≡ join_policy_to_json v)
unfolding join_policy_from_json join_policy_to_json
join_policy_from_json_iff j v = (
  read_enum-written (text "JoinPolicy") k_join_policy_map join_policy_to_json (refl, (refl, tt)) j
      v,
  λ e. ap join_policy_from_json e ∙ join_policy_from_json-to_json v,
)

-- `node_shape_to_string` gives a name to every shape, and `node_shape_from_string` reads it back.
pub node_shape_from_string-to_string :
    (v : NodeShape)
    → (s : Text) × (node_shape_to_string v ≡ some s) × (node_shape_from_string s ≡ some v)
unfolding node_shape_from_string node_shape_to_string text ◌==◌
node_shape_from_string-to_string mdiamond = (text "Mdiamond", refl, refl)
node_shape_from_string-to_string msquare = (text "Msquare", refl, refl)
node_shape_from_string-to_string box = (text "box", refl, refl)
node_shape_from_string-to_string hexagon = (text "hexagon", refl, refl)
node_shape_from_string-to_string diamond = (text "diamond", refl, refl)
node_shape_from_string-to_string component = (text "component", refl, refl)
node_shape_from_string-to_string triple_octagon = (text "tripleoctagon", refl, refl)
node_shape_from_string-to_string parallelogram = (text "parallelogram", refl, refl)
node_shape_from_string-to_string house = (text "house", refl, refl)
